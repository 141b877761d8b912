-- ===== src/Nostr/Field/Power.antt =====
-- The loop of `powMod` of web/nostr-event-verifier.mjs.
use native.Mathlib.Nat.{
  pow-zero, pow-suc, add-mul-mod_self_left, div-add-mod, mod-lt, mod-eq_of_lt, mul_comm, mul_assoc,
  mul-one,
}
use hodlxxi_social.Prelude.{
  ℕ, zero, suc, ◌+◌, ◌*◌, ◌/◌, ◌%◌, ◌^◌, ◌<◌, ◌≡◌, refl, sym, ap, ◌∙◌, ◌==◌, arith, Bool-cases, inl,
  inr,
}
use hodlxxi_social.Nostr.Field.{pow_loop, pow_mod}

-- A factor may be reduced first.
pub mul-mod_of_left : (a b m : ℕ) → (a % m * b) % m ≡ (a * b) % m
mul-mod_of_left a b m =
    sym (add-mul-mod_self_left (a % m * b) m (a / m * b))
    ∙ ap (λ t. t % m) (omega (arith, ap (λ (t : ℕ). t * b) (div-add-mod a m)))

pub mul-mod_of_right : (a b m : ℕ) → (a * (b % m)) % m ≡ (a * b) % m
mul-mod_of_right a b m =
    ap (λ t. t % m) (mul_comm a (b % m)) ∙ mul-mod_of_left b a m ∙ ap (λ t. t % m) (mul_comm b a)

pow-mod : (f m k : ℕ) → (f % m) ^ k % m ≡ f ^ k % m
pow-mod f m zero = rw (pow-zero, pow-zero)
pow-mod f m (suc k) =
    rw (pow-suc (f % m) k, pow-suc f k)
      (mul-mod_of_right ((f % m) ^ k) f m
        ∙ sym (mul-mod_of_left ((f % m) ^ k) f m)
        ∙ ap (λ t. (t * f) % m) (pow-mod f m k)
        ∙ mul-mod_of_left (f ^ k) f m)

pow-twice : (f k : ℕ) → f ^ (k + k) ≡ (f * f) ^ k
pow-twice f zero = pow-zero f ∙ sym (pow-zero (f * f))
pow-twice f (suc k) =
    ap (λ t. f ^ t) (omega arith)
    ∙ pow-suc f (suc (k + k))
    ∙ ap (λ t. t * f) (pow-suc f (k + k))
    ∙ ap (λ t. t * f * f) (pow-twice f k)
    ∙ mul_assoc ((f * f) ^ k) f f
    ∙ sym (pow-suc (f * f) k)

-- One round: the factor is squared and the power halved.
round : (r f m q p : ℕ) → p ≡ q + q → (r * (f * f % m) ^ q) % m ≡ (r * f ^ p) % m
round r f m q p e =
    sym (mul-mod_of_right r ((f * f % m) ^ q) m)
    ∙ ap (λ t. (r * t) % m) (pow-mod (f * f) m q ∙ ap (λ t. t % m) (sym (pow-twice f q)))
    ∙ mul-mod_of_right r (f ^ (q + q)) m
    ∙ ap (λ t. (r * f ^ t) % m) (sym e)

odd_round : (r f m q p : ℕ) → p ≡ suc (q + q) → (r * f % m * (f * f % m) ^ q) % m ≡ (r * f ^ p) % m
odd_round r f m q p e =
    round (r * f % m) f m q (q + q) refl
    ∙ mul-mod_of_left (r * f) (f ^ (q + q)) m
    ∙ ap (λ t. t % m) (regroup ∙ ap (λ t. r * f ^ t) (sym e))
  where
    regroup : r * f * f ^ (q + q) ≡ r * f ^ suc (q + q)
    regroup = omega (arith, ap (λ (t : ℕ). r * t) (pow-suc f (q + q)))

pow_loop_lem : (fuel m r f p : ℕ) → p < fuel → r < m → pow_loop fuel m r f p ≡ (r * f ^ p) % m
unfolding pow_loop
pow_loop_lem zero m r f p lt small = absurd (omega arith)
pow_loop_lem (suc fuel) m r f p lt small = elim (Bool-cases (p == 0)) [
  | inl done ↦
      rw (pow_loop, done)
        (sym (mod-eq_of_lt small)
          ∙ ap (λ t. t % m)
              (sym (mul-one r)
                ∙ ap (λ t. r * t) (sym (pow-zero f) ∙ ap (λ t. f ^ t) (ground arith))))
  | inr more ↦ elim (Bool-cases (p % 2 == 1)) [
    | inl odd ↦
        rw (pow_loop, more, odd)
          (pow_loop_lem fuel m (r * f % m) (f * f % m) (p / 2) (ground arith) (omega arith)
            ∙ odd_round r f m (p / 2) p (ground arith))
    | inr even ↦
        rw (pow_loop, more, even)
          (pow_loop_lem fuel m r (f * f % m) (p / 2) (ground arith) small
            ∙ round r f m (p / 2) p (ground arith))
  ]
]

-- For a modulus above 1, square-and-multiply gives the power modulo the modulus, and its loop ends
-- before the fuel does.
pub pow_mod_lem : (base exponent m : ℕ) → 1 < m → pow_mod base exponent m ≡ base ^ exponent % m
unfolding pow_mod
pow_mod_lem base exponent m h =
    pow_loop_lem (suc exponent) m 1 (base % m) exponent (omega arith) h
    ∙ ap (λ t. t % m) (omega arith)
    ∙ pow-mod base m exponent

pow_loop-lt : (fuel m r f p : ℕ) → r < m → pow_loop fuel m r f p < m
unfolding pow_loop
pow_loop-lt zero m r f p h = h
pow_loop-lt (suc fuel) m r f p h = elim (Bool-cases (p == 0)) [
  | inl done ↦ rw (pow_loop, done) h
  | inr more ↦ elim (Bool-cases (p % 2 == 1)) [
    | inl odd ↦
        rw (pow_loop, more, odd)
          (pow_loop-lt fuel m (r * f % m) (f * f % m) (p / 2) (mod-lt (r * f) (omega arith)))
    | inr even ↦ rw (pow_loop, more, even) (pow_loop-lt fuel m r (f * f % m) (p / 2) h)
  ]
]

pub pow_mod-lt : (base exponent m : ℕ) → 1 < m → pow_mod base exponent m < m
unfolding pow_mod
pow_mod-lt base exponent m h = pow_loop-lt (suc exponent) m 1 (base % m) exponent h
