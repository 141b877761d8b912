-- ===== src/Js/Parse/Scanning.antt =====
-- What the scanner of JSON.parse makes of a string, a literal and a mark.
use hodlxxi_social.Prelude.{
  all, sym, Bool-cases, ◌⊎◌, ++_assoc, ++_nil, ℕ, ◌≡◌, refl, ap, ◌∙◌, Bool, true, ◌||◌, Option,
  none, some, Option-cases, inl, inr, List, [], ◌∷◌, ◌++◌, ◌==◌, arith, ◌>>=◌,
}
use hodlxxi_social.Js.Text.{Text, ◌===◌}
use hodlxxi_social.Js.Value.{Value, Number}
use hodlxxi_social.Js.Parse.{
  Token, phrase, plain, Mode, between, quoting, literal, is_literal, scan_unit, scan_between,
  literal_value, numeral_from, scan,
}
use hodlxxi_social.Nostr.Json.{quote_units, quote_unit}
use hodlxxi_social.Js.Parse.Printed.{is_printable, is_escaped, is_shown, IsShown}

-- What follows a value.
abbrev pub is_end : ℕ → Bool
is_end c = c == b',' || c == b']' || c == b'}'

abbrev pub IsEnded : Text → Type 0
IsEnded [] = ⊥
IsEnded (c ∷ rest) = is_end c ≡ true

pub >>=_some : {A : Type 0} (o : Option A) → (o >>= λ a. some a) ≡ o
>>=_some none = refl
>>=_some (some a) = refl

-- What is scanned before the rest.
abbrev pub also : (List Token → List Token) → Option (List Token) → Option (List Token)
also f none = none
also f (some ks) = some (f ks)

pub also-also :
    (f g : List Token → List Token) (o : Option (List Token))
    → also f (also g o) ≡ also (λ ks. f (g ks)) o
also-also f g none = refl
also-also f g (some ks) = refl

pub after_also :
    (f g : List Token → List Token) (x y o : Option (List Token))
    → x ≡ also f y
    → y ≡ also g o
    → x ≡ also (λ ks. f (g ks)) o
after_also f g x y o h e = h ∙ ap (also f) e ∙ also-also f g o

pub bind_also : (k : Token) (o : Option (List Token)) → (o >>= λ ks. some (k ∷ ks)) ≡ also (◌∷◌ k) o
bind_also k none = refl
bind_also k (some ks) = refl

bind_plain :
    (k : Token) (o : Option (List Token × Mode)) (f : Mode → Option (List Token))
    → ((◌>>=◌ {A = List Token × Mode} {B = List Token × Mode} o (λ x. some (k ∷ x.0, x.1))) >>= λ x.
        f x.1 >>= λ ks. some (x.0 ++ ks))
      ≡ also (◌∷◌ k) (o >>= λ x. f x.1 >>= λ ks. some (x.0 ++ ks))
bind_plain k none f = refl
bind_plain k (some (ks, m)) f = elim (Option-cases (f m)) [
  | inl e ↦ rw e refl
  | inr (rest, e) ↦ rw e refl
]

pub quote_units_escaped :
    (c : ℕ) (t : Text) → is_escaped c ≡ true → quote_units (c ∷ t) ≡ b'\\' ∷ c ∷ quote_units t
unfolding quote_units quote_unit
quote_units_escaped c [] h = ground arith
quote_units_escaped c (d ∷ t) h = ground arith

quote_unit_shown : (u : ℕ) → is_shown u ≡ true → quote_unit u ≡ u ∷ []
unfolding quote_unit
quote_unit_shown u h = ground arith

pub quote_units_plain :
    (c : ℕ) (t : Text) → is_shown c ≡ true → quote_units (c ∷ t) ≡ c ∷ quote_units t
unfolding quote_units
quote_units_plain c [] h = quote_unit_shown c h
quote_units_plain c (d ∷ t) h = ground (arith, quote_unit_shown c h)

pub shown_or_escaped : (c : ℕ) → is_printable c ≡ true → (is_shown c ≡ true) ⊎ (is_escaped c ≡ true)
shown_or_escaped c h = elim (Bool-cases (is_escaped c)) [
  | inl e ↦ inr e
  | inr e ↦ inl (ground arith)
]

module _ (real : Text → Number) where
  pub scan_shown :
      (acc : Text) (c : ℕ)
      → is_shown c ≡ true
      → scan_unit real (quoting acc) c ≡ some ([], quoting (acc ++ (c ∷ [])))
  unfolding scan_unit
  scan_shown acc c h = ground arith

  scan_string :
      (acc t rest : Text)
      → IsShown t
      → scan real (quoting acc) (t ++ (b'"' ∷ rest))
        ≡ also (◌∷◌ (phrase (acc ++ t))) (scan real between rest)
  unfolding scan
  scan_string acc [] rest h = rw (++_nil acc) (bind_also (phrase acc) (scan real between rest))
  scan_string acc (c ∷ t) rest h =
      rw
        (
          scan_shown acc c (ground arith),
          >>=_some (scan real (quoting (acc ++ (c ∷ []))) (t ++ (b'"' ∷ rest))),
          scan_string (acc ++ (c ∷ [])) t rest (ground arith),
          ++_assoc acc (c ∷ []) t,
        )
        refl

  begin_literal : (c : ℕ) → is_literal c ≡ true → scan_between real c ≡ some ([], literal (c ∷ []))
  unfolding scan_between
  begin_literal c h = ground arith

  more_literal :
      (acc : Text) (c : ℕ)
      → is_literal c ≡ true
      → scan_unit real (literal acc) c ≡ some ([], literal (acc ++ (c ∷ [])))
  unfolding scan_unit
  more_literal acc c h = rw h refl

  end_literal :
      (t : Text) (v : Value) (c : ℕ)
      → literal_value real t ≡ some v
      → is_end c ≡ true
      → scan_unit real (literal t) c
        ≡ ◌>>=◌ {A = List Token × Mode} {B = List Token × Mode}
            (scan_between real c)
            (λ x. some (plain v ∷ x.0, x.1))
  unfolding scan_unit
  end_literal t v c h e = rw h (ground arith)

  -- The rest of a literal of which `acc` is read.
  scan_literal_from :
      (acc t : Text) (v : Value) (c : ℕ) (rest : Text)
      → all is_literal t ≡ true
      → literal_value real (acc ++ t) ≡ some v
      → is_end c ≡ true
      → scan real (literal acc) (t ++ (c ∷ rest))
        ≡ also (◌∷◌ (plain v)) (scan real between (c ∷ rest))
  unfolding scan
  scan_literal_from acc [] v c rest h e ends =
      rw (end_literal acc v c (ap (literal_value real) (sym (++_nil acc)) ∙ e) ends)
        (bind_plain (plain v) (scan_between real c) (λ m. scan real m rest))
  scan_literal_from acc (d ∷ t) v c rest h e ends =
      rw
        (
          more_literal acc d (ground arith),
          >>=_some (scan real (literal (acc ++ (d ∷ []))) (t ++ (c ∷ rest))),
        )
        (scan_literal_from (acc ++ (d ∷ [])) t v c rest (ground arith)
          (ap (literal_value real) (++_assoc acc (d ∷ []) t) ∙ e) ends)

  no_empty_literal : (v : Value) → literal_value real [] ≡ some v → ⊥
  unfolding literal_value ◌===◌ numeral_from
  no_empty_literal v h = cc

  pub scan_literal :
      (t : Text) (v : Value) (c : ℕ) (rest : Text)
      → all is_literal t ≡ true
      → literal_value real t ≡ some v
      → is_end c ≡ true
      → scan real between (t ++ (c ∷ rest)) ≡ also (◌∷◌ (plain v)) (scan real between (c ∷ rest))
  unfolding scan scan_unit
  scan_literal [] v c rest h e ends = absurd (no_empty_literal v e)
  scan_literal (d ∷ t) v c rest h e ends =
      rw (begin_literal d (ground arith), >>=_some (scan real (literal (d ∷ [])) (t ++ (c ∷ rest))))
        (scan_literal_from (d ∷ []) t v c rest (ground arith) e ends)

  pub scan_quote :
      (t rest : Text)
      → IsShown t
      → scan real between (b'"' ∷ t ++ (b'"' ∷ rest))
        ≡ also (◌∷◌ (phrase t)) (scan real between rest)
  unfolding scan scan_unit scan_between
  scan_quote t rest h =
      >>=_some (scan real (quoting []) (t ++ (b'"' ∷ rest))) ∙ scan_string [] t rest h

  pub scan_mark :
      (c : ℕ) (k : Token) (rest : Text)
      → scan_between real c ≡ some (k ∷ [], between)
      → scan real between (c ∷ rest) ≡ also (◌∷◌ k) (scan real between rest)
  unfolding scan scan_unit
  scan_mark c k rest h = rw h (bind_also k (scan real between rest))
