-- ===== src/Capability/Random/Decoding.antt =====
-- Base64url and its decoding.
use hodlxxi_social.Prelude.{
  ℕ, zero, suc, ◌+◌, ◌-◌, ◌*◌, ◌/◌, ◌%◌, ◌<◌, ◌≡◌, refl, sym, ap, ◌∙◌, Bool, true, some, List, [],
  ◌∷◌, ◌++◌, ◌==◌, ltb, if◌then◌else◌, length, ◌&&◌, not, all, drop, All, arith, ◌≤◌, ==_iff,
  Bool-cases, inl, inr,
}
use hodlxxi_social.Js.Text.{Text, lit, is_base64url_char}
use hodlxxi_social.Capability.Syntax.{is_capability}
use hodlxxi_social.Capability.Random.{
  base64_digit, cons_unless_end, base64url, bytes, random_capability,
}

abbrev pub AreBytes : List ℕ → Type 0
AreBytes = All (λ b. b < 256)

-- The alphabet after the two replacements.
url_digit : ℕ → ℕ
unfolding base64_digit
url_digit n =
    let d = base64_digit n in let e = if d == b'+' then b'-' else d in if e == b'/' then b'_' else e

-- The value of a digit, and Buffer.from(text, "base64url") on a text of those.
unfoldable pub digit_value : ℕ → ℕ
digit_value c =
    if c == b'-'
    then 62
    else if c == b'_'
    then 63
    else if ltb c b'A'
    then c + 52 - b'0'
    else if ltb c b'a'
    then c - b'A'
    else c + 26 - b'a'

unfoldable pub decode : Text → List ℕ
unfolding digit_value
decode (w ∷ x ∷ []) = (digit_value w * 4 + digit_value x / 16) ∷ []
decode (w ∷ x ∷ y ∷ []) =
    (digit_value w * 4 + digit_value x / 16) ∷ (digit_value x % 16 * 16 + digit_value y / 4) ∷ []
decode (w ∷ x ∷ y ∷ z ∷ t) =
    (digit_value w * 4 + digit_value x / 16)
    ∷ (digit_value x % 16 * 16 + digit_value y / 4)
    ∷ (digit_value y % 4 * 64 + digit_value z)
    ∷ decode t
decode _ = []

-- What the proof needs of each of the 64 digits.
good_digit : ℕ → Bool
unfolding url_digit digit_value
good_digit n =
    digit_value (url_digit n) == n && is_base64url_char (url_digit n) && not (url_digit n == b'=')

-- The test on `count` numbers from `start` on.
passes_from : (count start : ℕ) (test : ℕ → Bool) → Bool
passes_from zero start test = true
passes_from (suc count) start test = test start && passes_from count (start + 1) test

passes_from-at :
    (count start digit : ℕ) (test : ℕ → Bool)
    → passes_from count start test ≡ true
    → start ≤ digit
    → digit < start + count
    → test digit ≡ true
unfolding passes_from
passes_from-at zero start digit test h low high = absurd (omega arith)
passes_from-at (suc count) start digit test h low high = elim (Bool-cases (start == digit)) [
  | inl e ↦ ground (arith, ap test ((==_iff start digit).0 e))
  | inr e ↦ passes_from-at count (start + 1) digit test (ground arith) (ground arith) (omega arith)
]

digits_good : passes_from 64 0 good_digit ≡ true
unfolding passes_from good_digit
digits_good = refl

module _ (n : ℕ) (h : n < 64) where
  digit_value-url_digit : digit_value (url_digit n) ≡ n
  unfolding good_digit
  digit_value-url_digit =
      ground (arith, passes_from-at 64 0 n good_digit digits_good (omega arith) (omega arith))

  url_digit-char : is_base64url_char (url_digit n) ≡ true
  unfolding good_digit
  url_digit-char =
      ground (arith, passes_from-at 64 0 n good_digit digits_good (omega arith) (omega arith))

  cons_url_digit : (t : Text) → cons_unless_end (url_digit n) t ≡ url_digit n ∷ t
  unfolding good_digit
  cons_url_digit [] =
      ground (arith, passes_from-at 64 0 n good_digit digits_good (omega arith) (omega arith))
  cons_url_digit (c ∷ t) = refl

-- A group of three bytes, and what the last one or two bytes become.
base64url_group :
    (a b c : ℕ) (rest : List ℕ)
    → AreBytes (a ∷ b ∷ c ∷ [])
    → base64url (a ∷ b ∷ c ∷ rest)
      ≡ url_digit (a / 4)
        ∷ url_digit (a % 4 * 16 + b / 16)
        ∷ url_digit (b % 16 * 4 + c / 64)
        ∷ url_digit (c % 64)
        ∷ base64url rest
unfolding base64url url_digit
base64url_group a b c rest h =
    cons_url_digit (a / 4) (omega arith) _
    ∙ ap (◌∷◌ (url_digit (a / 4))) (
        cons_url_digit (a % 4 * 16 + b / 16) (omega arith) _
        ∙ ap (◌∷◌ (url_digit (a % 4 * 16 + b / 16))) (
            cons_url_digit (b % 16 * 4 + c / 64) (omega arith) _
            ∙ ap (◌∷◌ (url_digit (b % 16 * 4 + c / 64))) (cons_url_digit (c % 64) (omega arith) _)))

base64url_two :
    (a b : ℕ)
    → AreBytes (a ∷ b ∷ [])
    → base64url (a ∷ b ∷ [])
      ≡ url_digit (a / 4) ∷ url_digit (a % 4 * 16 + b / 16) ∷ url_digit (b % 16 * 4) ∷ []
unfolding base64url url_digit
base64url_two a b h =
    cons_url_digit (a / 4) (omega arith) _
    ∙ ap (◌∷◌ (url_digit (a / 4))) (
        cons_url_digit (a % 4 * 16 + b / 16) (omega arith) _
        ∙ ap (◌∷◌ (url_digit (a % 4 * 16 + b / 16))) (cons_url_digit (b % 16 * 4) (omega arith) _))

base64url_one :
    (a : ℕ) → a < 256 → base64url (a ∷ []) ≡ url_digit (a / 4) ∷ url_digit (a % 4 * 16) ∷ []
unfolding base64url url_digit
base64url_one a h =
    cons_url_digit (a / 4) (omega arith) _
    ∙ ap (◌∷◌ (url_digit (a / 4))) (cons_url_digit (a % 4 * 16) (omega arith) _)

-- Base64url of any bytes is decoded back to them.
pub decode-base64url : (bs : List ℕ) → AreBytes bs → decode (base64url bs) ≡ bs
unfolding decode
decode-base64url [] h = unfold base64url in refl
decode-base64url (a ∷ []) h = rw (base64url_one a h.0) (
    ground (
      arith,
      digit_value-url_digit (a / 4) (omega arith),
      digit_value-url_digit (a % 4 * 16) (omega arith),
    ))
decode-base64url (a ∷ b ∷ []) h = rw (base64url_two a b h) (
    ground (
      arith,
      digit_value-url_digit (a / 4) (omega arith),
      digit_value-url_digit (a % 4 * 16 + b / 16) (omega arith),
      digit_value-url_digit (b % 16 * 4) (omega arith),
    ))
decode-base64url (a ∷ b ∷ c ∷ rest) h =
    rw (base64url_group a b c rest (h.0, (h.1.0, (h.1.1.0, tt)))) (
      ground (
        arith,
        digit_value-url_digit (a / 4) (omega arith),
        digit_value-url_digit (a % 4 * 16 + b / 16) (omega arith),
        digit_value-url_digit (b % 16 * 4 + c / 64) (omega arith),
        digit_value-url_digit (c % 64) (omega arith),
        decode-base64url rest h.1.1.1,
      ))

-- Four characters for three bytes, rounded up, and none of them is padding.
pub base64url-chars :
    (bs : List ℕ)
    → AreBytes bs
    → (all is_base64url_char (base64url bs) ≡ true)
      × (length (base64url bs) ≡ (4 * length bs + 2) / 3)
base64url-chars [] h = unfold base64url in (refl, refl)
base64url-chars (a ∷ []) h = rw (base64url_one a h.0) (
    ground (arith, url_digit-char (a / 4) (omega arith), url_digit-char (a % 4 * 16) (omega arith)))
base64url-chars (a ∷ b ∷ []) h = rw (base64url_two a b h) (
    ground (
      arith,
      url_digit-char (a / 4) (omega arith),
      url_digit-char (a % 4 * 16 + b / 16) (omega arith),
      url_digit-char (b % 16 * 4) (omega arith),
    ))
base64url-chars (a ∷ b ∷ c ∷ rest) h =
    rw (base64url_group a b c rest (h.0, (h.1.0, (h.1.1.0, tt)))) (
      ground (
        arith,
        url_digit-char (a / 4) (omega arith),
        url_digit-char (a % 4 * 16 + b / 16) (omega arith),
        url_digit-char (b % 16 * 4 + c / 64) (omega arith),
        url_digit-char (c % 64) (omega arith),
        base64url-chars rest h.1.1.1,
      ))

-- A draw of 32 bytes makes the capability "rc_" and the 43 characters of the bytes: the pattern
-- never refuses it.
pub random_capability_total :
    (bs : List ℕ)
    → AreBytes bs
    → length bs ≡ 32
    → (random_capability (bytes bs) ≡ some (lit "rc_" ++ base64url bs))
unfolding random_capability is_capability
random_capability_total bs h n = ground (arith, base64url-chars bs h)

-- Two draws of 32 bytes each that make the same capability are the same bytes.
pub random_capability_injective :
    (bs cs : List ℕ)
    → AreBytes bs
    → AreBytes cs
    → (capability : Text) → random_capability (bytes bs) ≡ some capability
    → random_capability (bytes cs) ≡ some capability
    → bs ≡ cs
random_capability_injective bs cs h k capability p q =
    sym (decode-base64url bs h)
    ∙ ap (λ t. decode (drop 3 t)) (same p ∙ sym (same' q))
    ∙ decode-base64url cs k
  where
    same : random_capability (bytes bs) ≡ some capability → lit "rc_" ++ base64url bs ≡ capability
    same e = unfold random_capability in ground arith

    same' : random_capability (bytes cs) ≡ some capability → lit "rc_" ++ base64url cs ≡ capability
    same' e = unfold random_capability in ground arith
