-- ===== src/Js/Parse/Quoting.antt =====
-- What the scanner of JSON.parse makes of a string that JSON.stringify has quoted, whatever code units it has.
use hodlxxi_social.Prelude.{
  ℕ, suc, ◌+◌, ◌*◌, ◌/◌, ◌%◌, ◌<◌, ◌≡◌, refl, sym, ap, ◌∙◌, subst, Bool, true, false, not, ◌&&◌,
  ◌||◌, ◌⊎◌, some, inl, inr, [], ◌∷◌, ◌++◌, ◌==◌, ltb, leb, arith, Bool-cases, ++_assoc, ++_nil,
}
use hodlxxi_social.Js.Text.{Text}
use hodlxxi_social.Js.Value.{Number}
use hodlxxi_social.Js.Parse.{
  phrase, Mode, between, quoting, escaped, literal, numbered, escape, hex_digit, scan_unit,
  scan_between, scan,
}
use hodlxxi_social.Js.Parse.Scanning.{also, bind_also, >>=_some}
use hodlxxi_social.Nostr.Json.{
  quote_units, quote_unit, escape_number, hex_unit_digit, is_high, is_low,
}

-- A digit that is written is read back.
hex_digit-hex_unit_digit : (n : ℕ) → n < 16 → hex_digit (hex_unit_digit n) ≡ some n
unfolding hex_digit
hex_digit-hex_unit_digit n h = ground arith

four_digits :
    (u : ℕ)
    → u < 65536
    → ((((0 * 16 + u / 4096 % 16) * 16 + u / 256 % 16) * 16 + u / 16 % 16) * 16 + u % 16) ≡ u
four_digits u h = omega (arith, h)

-- Units that are written as they are.
abbrev is_plain : ℕ → Bool
is_plain u = leb 32 u && not (u == b'"') && not (u == b'\\')

quote_pair :
    (u v : ℕ) (t : Text)
    → is_high u && is_low v ≡ true
    → quote_units (u ∷ v ∷ t) ≡ u ∷ v ∷ quote_units t
unfolding quote_units
quote_pair u v t h = rw (h, quote_units) refl

quote_first :
    (u v : ℕ) (t : Text)
    → is_high u && is_low v ≡ false
    → quote_units (u ∷ v ∷ t) ≡ quote_unit u ++ quote_units (v ∷ t)
unfolding quote_units
quote_first u v t h = rw (h, quote_units) refl

-- How each unit is written.
abbrev is_marked : ℕ → Bool
is_marked u = u == b'"' || u == b'\\'

abbrev is_numbered : ℕ → Bool
is_numbered u = ltb u 32 || is_high u || is_low u

quote-marked : (u : ℕ) → is_marked u ≡ true → quote_unit u ≡ b'\\' ∷ u ∷ []
unfolding quote_unit
quote-marked u h = ground arith

-- The controls that have a letter.
abbrev has_letter : ℕ → Bool
has_letter u = u == 8 || u == 9 || u == 10 || u == 12 || u == 13

HasLetter-cases :
    (u : ℕ) → has_letter u ≡ true → (u ≡ 8) ⊎ ((u ≡ 9) ⊎ ((u ≡ 10) ⊎ ((u ≡ 12) ⊎ (u ≡ 13))))
HasLetter-cases u h = ground arith

quote-numbered :
    (u : ℕ)
    → is_marked u ≡ false
    → has_letter u ≡ false
    → is_numbered u ≡ true
    → quote_unit u ≡ escape_number u
unfolding quote_unit
quote-numbered u m l n = ground arith

quote-plain :
    (u : ℕ)
    → is_marked u ≡ false
    → is_numbered u ≡ false
    → (quote_unit u ≡ u ∷ []) × (is_plain u ≡ true)
unfolding quote_unit
quote-plain u m n = (ground arith, ground arith)

numbered_small : (u : ℕ) → is_numbered u ≡ true → u < 65536
numbered_small u h = ground arith

escape-marked : (u : ℕ) → is_marked u ≡ true → (escape u ≡ some u) × ((u == b'u') ≡ false)
unfolding escape
escape-marked u h = (ground arith, ground arith)

module _ (real : Text → Number) where
  -- The scanner is done with the units that `f` writes before the rest, and has read u.
  abbrev Scans : Text → ℕ → Type 0
  Scans units u =
      (acc rest : Text)
      → scan real (quoting acc) (units ++ rest) ≡ scan real (quoting (acc ++ (u ∷ []))) rest

  units_plain : (u : ℕ) → is_plain u ≡ true → Scans (u ∷ []) u
  unfolding scan scan_unit
  units_plain u h acc rest =
      rw (plain_unit acc u h, >>=_some (scan real (quoting (acc ++ (u ∷ []))) rest)) refl
    where
      plain_unit :
          (acc : Text) (u : ℕ)
          → is_plain u ≡ true
          → scan_unit real (quoting acc) u ≡ some ([], quoting (acc ++ (u ∷ [])))
      plain_unit acc u h = ground arith

  units_letter : (c u : ℕ) → (c == b'u') ≡ false → escape c ≡ some u → Scans (b'\\' ∷ c ∷ []) u
  unfolding scan scan_unit
  units_letter c u n h acc rest =
      rw (n, h, >>=_some (scan real (quoting (acc ++ (u ∷ []))) rest)) (>>=_some _)

  quiet_step :
      (m n : Mode) (c : ℕ) (t : Text)
      → scan_unit real m c ≡ some ([], n)
      → scan real m (c ∷ t) ≡ scan real n t
  unfolding scan
  quiet_step between n c t h = rw h (>>=_some _)
  quiet_step (quoting a) n c t h = rw h (>>=_some _)
  quiet_step (escaped a) n c t h = rw h (>>=_some _)
  quiet_step (literal a) n c t h = rw h (>>=_some _)
  quiet_step (numbered a k u) n c t h = rw h (>>=_some _)

  more_digits :
      (a : Text) (k u d : ℕ)
      → d < 16
      → scan_unit real (numbered a (suc (suc k)) u) (hex_unit_digit d)
        ≡ some ([], numbered a (suc k) (u * 16 + d))
  unfolding scan_unit
  more_digits a k u d h = rw (hex_digit-hex_unit_digit d h) (ground arith)

  last_digit :
      (a : Text) (u d : ℕ)
      → d < 16
      → scan_unit real (numbered a 1 u) (hex_unit_digit d)
        ≡ some ([], quoting (a ++ ((u * 16 + d) ∷ [])))
  unfolding scan_unit
  last_digit a u d h = rw (hex_digit-hex_unit_digit d h) refl

  start_escape : (a : Text) → scan_unit real (quoting a) b'\\' ≡ some ([], escaped a)
  unfolding scan_unit
  start_escape a = refl

  start_number : (a : Text) → scan_unit real (escaped a) b'u' ≡ some ([], numbered a 4 0)
  unfolding scan_unit
  start_number a = refl

  units_number : (u : ℕ) → u < 65536 → Scans (escape_number u) u
  unfolding escape_number
  units_number u h acc rest =
      let a = u / 4096 % 16 in
      let b = u / 256 % 16 in
      let c = u / 16 % 16 in
      let d = u % 16 in
      quiet_step (quoting acc) (escaped acc) b'\\' _ (start_escape acc)
      ∙ quiet_step (escaped acc) (numbered acc 4 0) b'u' _ (start_number acc)
      ∙ quiet_step (numbered acc 4 0) (numbered acc 3 (0 * 16 + a)) (hex_unit_digit a) _
          (more_digits acc 2 0 a (omega arith))
      ∙ quiet_step (numbered acc 3 (0 * 16 + a)) (numbered acc 2 ((0 * 16 + a) * 16 + b))
          (hex_unit_digit b) _ (more_digits acc 1 (0 * 16 + a) b (omega arith))
      ∙ quiet_step (numbered acc 2 ((0 * 16 + a) * 16 + b))
          (numbered acc 1 (((0 * 16 + a) * 16 + b) * 16 + c)) (hex_unit_digit c) _
          (more_digits acc 0 ((0 * 16 + a) * 16 + b) c (omega arith))
      ∙ quiet_step (numbered acc 1 (((0 * 16 + a) * 16 + b) * 16 + c)) _ (hex_unit_digit d) rest
          (last_digit acc (((0 * 16 + a) * 16 + b) * 16 + c) d (omega arith))
      ∙ ap (λ n. scan real (quoting (acc ++ (n ∷ []))) rest) (four_digits u h)

  units_control : (u : ℕ) → has_letter u ≡ true → Scans (quote_unit u) u
  unfolding quote_unit
  units_control u h = elim (HasLetter-cases u h) [
    | inl e ↦
        subst (λ n. Scans (quote_unit n) n) (sym e)
          (units_letter b'b' 8 refl (unfold escape in refl))
    | inr (inl e) ↦
        subst (λ n. Scans (quote_unit n) n) (sym e)
          (units_letter b't' 9 refl (unfold escape in refl))
    | inr (inr (inl e)) ↦
        subst (λ n. Scans (quote_unit n) n) (sym e)
          (units_letter b'n' 10 refl (unfold escape in refl))
    | inr (inr (inr (inl e))) ↦
        subst (λ n. Scans (quote_unit n) n) (sym e)
          (units_letter b'f' 12 refl (unfold escape in refl))
    | inr (inr (inr (inr e))) ↦
        subst (λ n. Scans (quote_unit n) n) (sym e)
          (units_letter b'r' 13 refl (unfold escape in refl))
  ]

  units_unit : (u : ℕ) → Scans (quote_unit u) u
  units_unit u = elim (Bool-cases (is_marked u)) [
    | inl m ↦
        let (escapes, other) = escape-marked u m in
        subst (λ s. Scans s u) (sym (quote-marked u m)) (units_letter u u other escapes)
    | inr m ↦ elim (Bool-cases (has_letter u)) [
      | inl l ↦ units_control u l
      | inr l ↦ elim (Bool-cases (is_numbered u)) [
        | inl n ↦
            subst (λ s. Scans s u) (sym (quote-numbered u m l n))
              (units_number u (numbered_small u n))
        | inr n ↦
            let (same, plain) = quote-plain u m n in
            subst (λ s. Scans s u) (sym same) (units_plain u plain)
      ]
    ]
  ]

  close_quote :
      (acc rest : Text)
      → scan real (quoting acc) (b'"' ∷ rest) ≡ also (◌∷◌ (phrase acc)) (scan real between rest)
  unfolding scan scan_unit
  close_quote acc rest = bind_also (phrase acc) (scan real between rest)

  pair_plain : (u v : ℕ) → is_high u && is_low v ≡ true → (is_plain u ≡ true) × (is_plain v ≡ true)
  pair_plain u v h = (ground arith, ground arith)

  scan_quoted_from :
      (acc t rest : Text)
      → scan real (quoting acc) (quote_units t ++ (b'"' ∷ rest))
        ≡ also (◌∷◌ (phrase (acc ++ t))) (scan real between rest)
  scan_quoted_from acc [] rest = unfold quote_units in rw (++_nil acc) (close_quote acc rest)
  scan_quoted_from acc (u ∷ []) rest =
      unfold quote_units in units_unit u acc (b'"' ∷ rest) ∙ close_quote (acc ++ (u ∷ [])) rest
  scan_quoted_from acc (u ∷ v ∷ t) rest = elim (Bool-cases (is_high u && is_low v)) [
    | inl e ↦
        let (pu, pv) = pair_plain u v e in
        ap (λ s. scan real (quoting acc) (s ++ (b'"' ∷ rest))) (quote_pair u v t e)
        ∙ units_plain u pu acc (v ∷ quote_units t ++ (b'"' ∷ rest))
        ∙ units_plain v pv (acc ++ (u ∷ [])) (quote_units t ++ (b'"' ∷ rest))
        ∙ scan_quoted_from ((acc ++ (u ∷ [])) ++ (v ∷ [])) t rest
        ∙ ap (λ s. also (◌∷◌ (phrase s)) (scan real between rest))
            (++_assoc (acc ++ (u ∷ [])) (v ∷ []) t ∙ ++_assoc acc (u ∷ []) (v ∷ t))
    | inr e ↦
        ap (λ s. scan real (quoting acc) (s ++ (b'"' ∷ rest))) (quote_first u v t e)
        ∙ ap (scan real (quoting acc)) (++_assoc (quote_unit u) (quote_units (v ∷ t)) (b'"' ∷ rest))
        ∙ units_unit u acc (quote_units (v ∷ t) ++ (b'"' ∷ rest))
        ∙ scan_quoted_from (acc ++ (u ∷ [])) (v ∷ t) rest
        ∙ ap (λ s. also (◌∷◌ (phrase s)) (scan real between rest)) (++_assoc acc (u ∷ []) (v ∷ t))
  ]

  pub scan_quoted :
      (t rest : Text)
      → scan real between (b'"' ∷ quote_units t ++ (b'"' ∷ rest))
        ≡ also (◌∷◌ (phrase t)) (scan real between rest)
  unfolding scan_between scan_unit
  scan_quoted t rest =
      quiet_step between (quoting []) b'"' (quote_units t ++ (b'"' ∷ rest)) refl
      ∙ scan_quoted_from [] t rest
