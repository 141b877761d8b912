-- ===== src/Nostr/Curve/Bounds.antt =====
-- The coordinates that the operations on points of web/nostr-event-verifier.mjs make, and the loop of
-- `multiplyPoint`.
use native.Mathlib.Nat.{mod-lt}
use hodlxxi_social.Prelude.{
  ℕ, zero, suc, ◌+◌, ◌-◌, ◌*◌, ◌/◌, ◌%◌, ◌<◌, ◌≡◌, refl, Bool, true, false, ◌||◌, none, some, ◌⊎◌,
  ◌==◌, if◌then◌else◌, Bool-cases, inl, inr, arith,
}
use hodlxxi_social.Nostr.Field.{field_p, ℤ, pos, negsuc, mod_int, pow_mod}
use hodlxxi_social.Nostr.Curve.{
  Affine, Jacobian, infinity, is_infinity, to_jacobian, double_finite, double_jacobian,
  add_distinct, add_finite, add_jacobian, multiply_loop, multiply_point, to_affine,
}

abbrev pub IsReduced : Jacobian → Type 0
IsReduced point = (point.x < field_p) × (point.y < field_p) × (point.z < field_p)

-- `mod` answers a residue.
pub mod_int-lt : (value : ℤ) (m : ℕ) → 0 < m → mod_int value m < m
unfolding mod_int
mod_int-lt (pos n) m h = mod-lt n h
mod_int-lt (negsuc n) m h = ground (arith, mod-lt (n + 1) h)

field-lt : (n : ℕ) → n % field_p < field_p
field-lt n = mod-lt n {m = field_p} (omega arith)

residue-lt : (value : ℤ) → mod_int value field_p < field_p
residue-lt value = mod_int-lt value field_p (omega arith)

infinity-IsReduced : IsReduced infinity
infinity-IsReduced = (omega arith, omega arith, omega arith)

double_jacobian-IsReduced : (point : Jacobian) → IsReduced (double_jacobian point)
unfolding double_jacobian double_finite
double_jacobian-IsReduced point = elim (Bool-cases (is_infinity point || point.y == 0)) [
  | inl e ↦ rw (double_jacobian, e) infinity-IsReduced
  | inr e ↦ rw (double_jacobian, e) (search residue-lt, search residue-lt, search field-lt)
]

add_finite-IsReduced : (left right : Jacobian) → IsReduced (add_finite left right)
unfolding add_finite add_distinct
add_finite-IsReduced left right =
    go
      (left.x * (right.z * right.z % field_p) % field_p
        == right.x * (left.z * left.z % field_p) % field_p)
      (left.y * right.z * (right.z * right.z % field_p) % field_p
        == right.y * left.z * (left.z * left.z % field_p) % field_p)
  where
    go :
        (same_x same_y : Bool)
        → IsReduced (elim same_x [
          | true ↦ elim same_y [ true ↦ double_jacobian left | false ↦ infinity ]
          | false ↦
              add_distinct left right
                (left.z * left.z % field_p)
                (right.z * right.z % field_p)
                (left.x * (right.z * right.z % field_p) % field_p)
                (right.x * (left.z * left.z % field_p) % field_p)
                (left.y * right.z * (right.z * right.z % field_p) % field_p)
                (right.y * left.z * (left.z * left.z % field_p) % field_p)
        ])
    go true true = double_jacobian-IsReduced left
    go true false = infinity-IsReduced
    go false same_y = (search residue-lt, search residue-lt, search residue-lt)

add_jacobian-IsReduced :
    (left right : Jacobian) → IsReduced left → IsReduced right → IsReduced (add_jacobian left right)
unfolding add_jacobian
add_jacobian-IsReduced left right hl hr = elim (Bool-cases (is_infinity left)) [
  | inl e ↦ rw (add_jacobian, e) hr
  | inr e ↦ elim (Bool-cases (is_infinity right)) [
    | inl f ↦ rw (add_jacobian, e, f) hl
    | inr f ↦ rw (add_jacobian, e, f) (add_finite-IsReduced left right)
  ]
]

multiply_loop-IsReduced :
    (fuel : ℕ) (result addend : Jacobian) (value : ℕ)
    → IsReduced result
    → IsReduced addend
    → IsReduced (multiply_loop fuel result addend value)
unfolding multiply_loop
multiply_loop-IsReduced zero result addend value hr ha = hr
multiply_loop-IsReduced (suc fuel) result addend value hr ha = elim (Bool-cases (value == 0)) [
  | inl done ↦ rw (multiply_loop, done) hr
  | inr more ↦
      rw (multiply_loop, more)
        (multiply_loop-IsReduced fuel
          (if value % 2 == 1 then add_jacobian result addend else result) (double_jacobian addend)
          (value / 2) (go (value % 2 == 1)) (double_jacobian-IsReduced addend))
]
  where
    go : (odd : Bool) → IsReduced (if odd then add_jacobian result addend else result)
    go true = add_jacobian-IsReduced result addend hr ha
    go false = hr

-- From a point with coordinates below the prime, `multiplyPoint` makes one whose three coordinates
-- are below the prime.
pub multiply_point-IsReduced :
    (scalar : ℕ) (point : Affine)
    → point.x < field_p
    → point.y < field_p
    → IsReduced (multiply_point scalar point)
unfolding multiply_point
multiply_point-IsReduced scalar point hx hy =
    multiply_loop-IsReduced (suc scalar) infinity (to_jacobian point) scalar infinity-IsReduced
      (hx, hy, omega arith)

residues-lt :
    (a b : ℕ) (result : Affine)
    → some (record { x = a % field_p; y = b % field_p }) ≡ some result
    → (result.x < field_p) × (result.y < field_p)
residues-lt a b result h = ground (arith, field-lt a, field-lt b)

pub to_affine-lt :
    (point : Jacobian) (result : Affine)
    → to_affine point ≡ some result
    → (result.x < field_p) × (result.y < field_p)
unfolding to_affine
to_affine-lt point result h =
    go (pow_mod point.z (field_p - 2) field_p) (Bool-cases (is_infinity point)) h
  where
    go :
        (inverse : ℕ)
        → (is_infinity point ≡ true) ⊎ (is_infinity point ≡ false)
        → (elim (is_infinity point) [
          | true ↦ none
          | false ↦ some record {
            x = point.x * (inverse * inverse % field_p) % field_p;
            y = point.y * (inverse * inverse % field_p) * inverse % field_p;
          }
        ])
          ≡ some result
        → (result.x < field_p) × (result.y < field_p)
    go inverse (inl e) r = cc
    go inverse (inr e) r =
        residues-lt (point.x * (inverse * inverse % field_p))
          (point.y * (inverse * inverse % field_p) * inverse) result cc

multiply_loop_enough :
    (fuel more : ℕ) (result addend : Jacobian) (value : ℕ)
    → value < fuel
    → value < more
    → multiply_loop fuel result addend value ≡ multiply_loop more result addend value
unfolding multiply_loop
multiply_loop_enough zero more result addend value h k = absurd (omega arith)
multiply_loop_enough (suc fuel) zero result addend value h k = absurd (omega arith)
multiply_loop_enough (suc fuel) (suc more) result addend value h k =
    elim (Bool-cases (value == 0)) [
      | inl done ↦ rw (multiply_loop, done) refl
      | inr left ↦
          rw (multiply_loop, left)
            (multiply_loop_enough fuel more
              (if value % 2 == 1 then add_jacobian result addend else result)
              (double_jacobian addend) (value / 2) (ground arith) (ground arith))
    ]

-- Any fuel above the scalar gives the result of `multiplyPoint`: its loop ends before the fuel does.
pub multiply_point_enough :
    (fuel scalar : ℕ) (point : Affine)
    → scalar < fuel
    → multiply_loop fuel infinity (to_jacobian point) scalar ≡ multiply_point scalar point
unfolding multiply_point
multiply_point_enough fuel scalar point h =
    multiply_loop_enough fuel (suc scalar) infinity (to_jacobian point) scalar h (omega arith)
