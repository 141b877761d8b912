-- ===== src/Js/Parse/Decimals.antt =====
-- The decimals that JSON.stringify writes, as JSON.parse reads them.
use native.Mathlib.Numerals.{unary_clauses}
use hodlxxi_social.Prelude.{
  ℕ, zero, suc, ◌+◌, ◌*◌, ◌/◌, ◌%◌, ◌^◌, ◌≤◌, ◌<◌, ◌≡◌, refl, ap, ◌∙◌, true, false, ◌⊎◌, some, [],
  ◌∷◌, leb, length, all, arith, Bool-cases, inl, inr,
}
use hodlxxi_social.Js.Text.{Text, lit, ◌===◌, Text-cases, is_digit}
use hodlxxi_social.Js.Value.{Number, nat, number, max_safe_integer}
use hodlxxi_social.Nostr.Json.{decimal, decimal_from}
use hodlxxi_social.Js.Parse.{
  literal_value, number_of, numeral_from, digits_from, is_literal, start, whole,
}

decimal_from_last : (fuel n : ℕ) (t : Text) → n < 10 → decimal_from (suc fuel) n t ≡ (b'0' + n) ∷ t
unfolding decimal_from
decimal_from_last fuel n t h = ground arith

decimal_from_more :
    (fuel n : ℕ) (t : Text)
    → 10 ≤ n
    → decimal_from (suc fuel) n t ≡ decimal_from fuel (n / 10) ((b'0' + n % 10) ∷ t)
unfolding decimal_from
decimal_from_more fuel n t h = ground arith

small_or_more : (n : ℕ) → (n < 10) ⊎ (10 ≤ n)
small_or_more n = elim (Bool-cases (leb 10 n)) [
  | inl e ↦ inr (ground arith)
  | inr e ↦ inl (ground arith)
]

digits_from-decimal_from :
    (fuel n : ℕ) (t : Text) → n < fuel → digits_from 0 (decimal_from fuel n t) ≡ digits_from n t
unfolding digits_from
digits_from-decimal_from zero n t h = absurd (omega arith)
digits_from-decimal_from (suc fuel) n t h = elim (small_or_more n) [
  | inl e ↦ rw (decimal_from_last fuel n t e) (ap (λ m. digits_from m t) (omega arith))
  | inr e ↦
      ap (digits_from 0) (decimal_from_more fuel n t e)
      ∙ digits_from-decimal_from fuel (n / 10) ((b'0' + n % 10) ∷ t) (omega (arith, e, h))
      ∙ ap (λ m. digits_from m t) (omega arith)
]

all_digits-decimal_from :
    (fuel n : ℕ) (t : Text) → all is_digit t ≡ true → all is_digit (decimal_from fuel n t) ≡ true
all_digits-decimal_from zero n t h = unfold decimal_from in h
all_digits-decimal_from (suc fuel) n t h = elim (small_or_more n) [
  | inl e ↦ ap (all is_digit) (decimal_from_last fuel n t e) ∙ one_more n t (omega (arith, e)) h
  | inr e ↦
      ap (all is_digit) (decimal_from_more fuel n t e)
      ∙ all_digits-decimal_from fuel (n / 10) ((b'0' + n % 10) ∷ t)
          (one_more (n % 10) t (omega arith) h)
]
  where
    one_more :
        (m : ℕ) (u : Text) → m < 10 → all is_digit u ≡ true → all is_digit ((b'0' + m) ∷ u) ≡ true
    one_more m u small digits = ground arith

numeral_from-whole : (t : Text) → all is_digit t ≡ true → numeral_from whole t ≡ true
unfolding numeral_from
numeral_from-whole [] h = refl
numeral_from-whole (c ∷ t) h = ground (arith, numeral_from-whole t (ground arith))

first_digit :
    (n : ℕ) (t : Text)
    → 1 ≤ n
    → n < 10
    → all is_digit t ≡ true
    → numeral_from start ((b'0' + n) ∷ t) ≡ true
unfolding numeral_from
first_digit n t positive small h = ground (arith, numeral_from-whole t h)

-- A number that is not 0 starts with a digit that is not 0.
numeral_from-decimal_from :
    (fuel n : ℕ) (t : Text)
    → n < fuel
    → 1 ≤ n
    → all is_digit t ≡ true
    → numeral_from start (decimal_from fuel n t) ≡ true
numeral_from-decimal_from zero n t h positive digits = absurd (omega arith)
numeral_from-decimal_from (suc fuel) n t h positive digits = elim (small_or_more n) [
  | inl e ↦
      ap (numeral_from start) (decimal_from_last fuel n t e) ∙ first_digit n t positive e digits
  | inr e ↦
      ap (numeral_from start) (decimal_from_more fuel n t e)
      ∙ numeral_from-decimal_from fuel (n / 10) ((b'0' + n % 10) ∷ t) (omega (arith, e, h))
          (omega (arith, e)) (ground (arith, digits))
]

all_digits-decimal : (n : ℕ) → all is_digit (decimal n) ≡ true
unfolding decimal
all_digits-decimal n = all_digits-decimal_from (suc n) n [] refl

digits_from-decimal : (n : ℕ) → digits_from 0 (decimal n) ≡ n
unfolding decimal digits_from
digits_from-decimal n = digits_from-decimal_from (suc n) n [] (omega arith)

numeral_from-decimal : (n : ℕ) → numeral_from start (decimal n) ≡ true
unfolding decimal
numeral_from-decimal zero = unfold decimal_from numeral_from in refl
numeral_from-decimal (suc n) =
    numeral_from-decimal_from (suc (suc n)) (suc n) [] (omega arith) (omega arith) refl

-- Digits are not the word of a literal.
not_word :
    (t word : Text) → all is_digit t ≡ true → all is_digit word ≡ false → (t === word) ≡ false
not_word t word h k = elim (Text-cases t word) [
  | inl e ↦ absurd (ground (arith, ap (all is_digit) e))
  | inr e ↦ e
]

-- A decimal up to 2 ^ 53 - 1 is read back as its number.
pub literal_value-decimal :
    (real : Text → Number) (n : ℕ)
    → n ≤ max_safe_integer
    → literal_value real (decimal n) ≡ some (number (nat n))
unfolding literal_value number_of
literal_value-decimal real n h =
    rw
      (
        not_word (decimal n) (lit "null") (all_digits-decimal n) refl,
        not_word (decimal n) (lit "true") (all_digits-decimal n) refl,
        not_word (decimal n) (lit "false") (all_digits-decimal n) refl,
        numeral_from-decimal n,
        all_digits-decimal n,
        digits_from-decimal n,
      )
      (ground (arith, h))

digits_literal : (t : Text) → all is_digit t ≡ true → all is_literal t ≡ true
digits_literal [] h = refl
digits_literal (c ∷ t) h = ground (arith, digits_literal t (ground arith))

pub decimal_literal : (n : ℕ) → all is_literal (decimal n) ≡ true
decimal_literal n = digits_literal (decimal n) (all_digits-decimal n)

length-decimal_from :
    (k fuel n : ℕ) (t : Text) → n < 10 ^ suc k → length (decimal_from fuel n t) ≤ suc k + length t
length-decimal_from k zero n t h = unfold decimal_from in omega arith
length-decimal_from zero (suc fuel) n t h =
    rw (decimal_from_last fuel n t (omega (arith, h))) (omega arith)
length-decimal_from (suc k) (suc fuel) n t h = elim (small_or_more n) [
  | inl e ↦ rw (decimal_from_last fuel n t e) (omega arith)
  | inr e ↦ rw (decimal_from_more fuel n t e) (
      omega (
        arith,
        length-decimal_from k fuel (n / 10) ((b'0' + n % 10) ∷ t)
            (simp unary_clauses (tenth n (10 ^ k) (simp unary_clauses at h))),
      ))
]
  where
    tenth : (n p : ℕ) → n < p * 10 * 10 → n / 10 < p * 10
    tenth n p h = omega (arith, h)

-- A safe integer has at most 16 digits.
pub length-decimal : (n : ℕ) → n ≤ max_safe_integer → length (decimal n) ≤ 16
unfolding decimal
length-decimal n h = length-decimal_from 15 (suc n) n [] (omega (arith, h))
