-- ===== src/Nostr/Curve/Lifting.antt =====
-- `liftX` of web/nostr-event-verifier.mjs and the equation of the curve.
use native.Mathlib.Nat.{add-mul-mod_self_left}
use hodlxxi_social.Prelude.{
  ℕ, ◌+◌, ◌-◌, ◌*◌, ◌/◌, ◌%◌, ◌≤◌, ◌<◌, ◌≡◌, sym, ap, ◌∙◌, subst, Bool, true, false, none, some,
  leb, Bool-cases, inl, inr, arith,
}
use hodlxxi_social.Nostr.Field.{field_p, pow_mod}
use hodlxxi_social.Nostr.Field.Power.{pow_mod-lt}
use hodlxxi_social.Nostr.Curve.{Affine, lift_root, lift_x}

-- A point of secp256k1 with an even ordinate, the one that BIP340 assigns to an abscissa.
abbrev pub IsEvenPoint : Affine → Type 0
IsEvenPoint point =
    (point.x < field_p)
    × (point.y < field_p)
    × (point.y % 2 ≡ 0)
    × (point.y * point.y % field_p ≡ (point.x * point.x * point.x + 7) % field_p)

-- A number and its negative have the same square.
square_negative : (d y : ℕ) → d * d % (d + y) ≡ y * y % (d + y)
square_negative d y =
    sym (add-mul-mod_self_left (d * d) (d + y) y)
    ∙ ap (λ t. t % (d + y)) (omega arith)
    ∙ add-mul-mod_self_left (y * y) (d + y) d

square-sub : (p y : ℕ) → y ≤ p → (p - y) * (p - y) % p ≡ y * y % p
square-sub p y h =
    subst (λ t. (p - y) * (p - y) % t ≡ y * y % t) (omega arith) (square_negative (p - y) y)

lift_root_sound :
    (x y : ℕ) (point : Affine)
    → x < field_p
    → y < field_p
    → lift_root x y ≡ some point
    → (point.x ≡ x) × IsEvenPoint point
unfolding lift_root
lift_root_sound x y point hx hy h = ground (arith, square-sub field_p y)

-- A point that `liftX` answers has the given abscissa, coordinates below the prime and an even
-- ordinate, and it satisfies the equation of the curve, y² = x³ + 7 modulo the prime.
pub lift_x_sound :
    (x : ℕ) (point : Affine) → lift_x x ≡ some point → (point.x ≡ x) × IsEvenPoint point
unfolding lift_x
lift_x_sound x point h = elim (Bool-cases (leb field_p x)) [
  | inl big ↦ cc
  | inr small ↦
      lift_root_sound x (pow_mod ((x * x * x + 7) % field_p) ((field_p + 1) / 4) field_p) point
        (ground arith)
        (pow_mod-lt ((x * x * x + 7) % field_p) ((field_p + 1) / 4) field_p (omega arith))
        (subst
          (λ (b : Bool).
            (elim b [
              | true ↦ none
              | false ↦
                  lift_root x (pow_mod ((x * x * x + 7) % field_p) ((field_p + 1) / 4) field_p)
            ])
            ≡ some point)
          small h)
]
