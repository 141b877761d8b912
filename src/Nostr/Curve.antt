-- ===== src/Nostr/Curve.antt =====
-- The points of web/nostr-event-verifier.mjs: secp256k1 in Jacobian coordinates, and `liftX`.
-- Where the code subtracts, the difference is written with its positive and its negative terms.
pub mod Bounds
pub mod Lifting
use hodlxxi_social.Prelude.{
  ℕ, zero, suc, ◌+◌, ◌-◌, ◌*◌, ◌/◌, ◌%◌, Bool, true, false, not, ◌||◌, Option, none, some, ◌==◌,
  leb, if◌then◌else◌,
}
use hodlxxi_social.Nostr.Field.{field_p, ◌⊖◌, mod_int, pow_mod}

pub record Affine : Type 0 where
  pub x : ℕ
  pub y : ℕ

pub record Jacobian : Type 0 where
  pub x : ℕ
  pub y : ℕ
  pub z : ℕ

abbrev pub generator : Affine
generator = record {
  x = 0x79be667ef9dcbbac55a06295ce870b07029bfcdb2dce28d959f2815b16f81798;
  y = 0x483ada7726a3c4655da4fbfc0e1108a8fd17b448a68554199c47d08ffb10d4b8;
}

abbrev pub infinity : Jacobian
infinity = record { x = 0; y = 1; z = 0 }

abbrev pub is_infinity : Jacobian → Bool
is_infinity point = point.z == 0

abbrev pub to_jacobian : Affine → Jacobian
to_jacobian point = record { x = point.x; y = point.y; z = 1 }

-- The result of `doubleJacobian` past its early return.
unfoldable pub double_finite : Jacobian → Jacobian
unfolding mod_int
double_finite point =
    let xx = point.x * point.x % field_p in
    let yy = point.y * point.y % field_p in
    let yyyy = yy * yy % field_p in
    let square = (point.x + yy) * (point.x + yy) % field_p in
    let s = mod_int (2 * square ⊖ (2 * xx + 2 * yyyy)) field_p in
    let m = 3 * xx % field_p in
    let x = mod_int (m * m ⊖ 2 * s) field_p in
    let y = mod_int (m * s ⊖ (m * x + 8 * yyyy)) field_p in
    let z = 2 * point.y * point.z % field_p in record { x = x; y = y; z = z }

unfoldable pub double_jacobian : Jacobian → Jacobian
unfolding double_finite
double_jacobian point = elim (is_infinity point || point.y == 0) [
  | true ↦ infinity
  | false ↦ double_finite point
]

-- The result of `addJacobian` for points whose affine `x` differs.
unfoldable pub add_distinct : (left right : Jacobian) (z1z1 z2z2 u1 u2 s1 s2 : ℕ) → Jacobian
unfolding mod_int
add_distinct left right z1z1 z2z2 u1 u2 s1 s2 =
    let h = mod_int (u2 ⊖ u1) field_p in
    let i = 4 * h * h % field_p in
    let j = h * i % field_p in
    let r = mod_int (2 * s2 ⊖ 2 * s1) field_p in
    let v = u1 * i % field_p in
    let x = mod_int (r * r ⊖ (j + 2 * v)) field_p in
    let y = mod_int (r * v ⊖ (r * x + 2 * s1 * j)) field_p in
    let square = (left.z + right.z) * (left.z + right.z) % field_p in
    let z = mod_int (square * h ⊖ (z1z1 * h + z2z2 * h)) field_p in record { x = x; y = y; z = z }

unfoldable pub add_finite : Jacobian → Jacobian → Jacobian
unfolding double_jacobian add_distinct
add_finite left right =
    let z1z1 = left.z * left.z % field_p in
    let z2z2 = right.z * right.z % field_p in
    let u1 = left.x * z2z2 % field_p in
    let u2 = right.x * z1z1 % field_p in
    let s1 = left.y * right.z * z2z2 % field_p in
    let s2 = right.y * left.z * z1z1 % field_p in
    elim (u1 == u2) [
      | true ↦ elim (s1 == s2) [ true ↦ double_jacobian left | false ↦ infinity ]
      | false ↦ add_distinct left right z1z1 z2z2 u1 u2 s1 s2
    ]

unfoldable pub add_jacobian : Jacobian → Jacobian → Jacobian
unfolding add_finite
add_jacobian left right = elim (is_infinity left) [
  | true ↦ right
  | false ↦ elim (is_infinity right) [ true ↦ left | false ↦ add_finite left right ]
]

-- The loop of `multiplyPoint`; the value halves, so fuel above it suffices.
unfoldable pub multiply_loop : ℕ → Jacobian → Jacobian → ℕ → Jacobian
unfolding add_jacobian double_jacobian
multiply_loop zero result addend value = result
multiply_loop (suc fuel) result addend value = elim (value == 0) [
  | true ↦ result
  | false ↦
      multiply_loop fuel (if value % 2 == 1 then add_jacobian result addend else result)
        (double_jacobian addend) (value / 2)
]

unfoldable pub multiply_point : ℕ → Affine → Jacobian
unfolding multiply_loop
multiply_point scalar point = multiply_loop (suc scalar) infinity (to_jacobian point) scalar

unfoldable pub to_affine : Jacobian → Option Affine
unfolding pow_mod
to_affine point =
    let inverse = pow_mod point.z (field_p - 2) field_p in
    let inverse_squared = inverse * inverse % field_p in
    elim (is_infinity point) [
      | true ↦ none
      | false ↦ some record {
        x = point.x * inverse_squared % field_p;
        y = point.y * inverse_squared * inverse % field_p;
      }
    ]

-- The root that `liftX` tries, and the even one of the two.
unfoldable pub lift_root : ℕ → ℕ → Option Affine
lift_root x y =
    let curve_y = (x * x * x + 7) % field_p in
    elim (y * y % field_p == curve_y) [
      | true ↦ some record { x = x; y = if y % 2 == 1 then field_p - y else y }
      | false ↦ none
    ]

unfoldable pub lift_x : ℕ → Option Affine
unfolding lift_root pow_mod
lift_x x = elim (leb field_p x) [
  | true ↦ none
  | false ↦ lift_root x (pow_mod ((x * x * x + 7) % field_p) ((field_p + 1) / 4) field_p)
]
