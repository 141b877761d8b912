-- ===== src/Nostr/Field.antt =====
-- The arithmetic of web/nostr-event-verifier.mjs on BigInt values. A difference of two values that are not
-- negative is written `a ⊖ b`, an integer.
pub mod Power
use hodlxxi_social.Prelude.{
  ℕ, zero, suc, ◌+◌, ◌-◌, ◌*◌, ◌/◌, ◌%◌, ◌^◌, Bool, true, false, ◌==◌, leb, ltb, if◌then◌else◌,
}

abbrev pub field_p : ℕ
field_p = 0xfffffffffffffffffffffffffffffffffffffffffffffffffffffffefffffc2f

abbrev pub curve_n : ℕ
curve_n = 0xfffffffffffffffffffffffffffffffebaaedce6af48a03bbfd25e8cd0364141

-- `negsuc n` is -(n + 1).
pub data ℤ : Type 0 where
  pos : ℕ → ℤ
  negsuc : ℕ → ℤ

infixl 65 ◌⊖◌
abbrev pub ◌⊖◌ : ℕ → ℕ → ℤ
a ⊖ b = if leb b a then pos (a - b) else negsuc (b - a - 1)

-- `%` of a negative BigInt is zero or negative; then the modulus is added to what is negative.
unfoldable pub mod_int : ℤ → ℕ → ℕ
mod_int (pos n) m = n % m
mod_int (negsuc n) m = let r = (n + 1) % m in if r == 0 then 0 else m - r

-- The loop of `powMod`; the power halves, so fuel above it suffices.
unfoldable pub pow_loop : ℕ → ℕ → ℕ → ℕ → ℕ → ℕ
pow_loop zero m result factor power = result
pow_loop (suc fuel) m result factor power = elim (power == 0) [
  | true ↦ result
  | false ↦
      pow_loop fuel m (if power % 2 == 1 then result * factor % m else result) (factor * factor % m)
        (power / 2)
]

unfoldable pub pow_mod : ℕ → ℕ → ℕ → ℕ
unfolding pow_loop
pow_mod base exponent m = pow_loop (suc exponent) m 1 (base % m) exponent
