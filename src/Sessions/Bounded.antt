-- ===== src/Sessions/Bounded.antt =====
-- `createBoundedStore` of src/server/social-oauth-memory.mjs. The clock is read once for the sweep
-- (`time`), and a second time by `create` (`issued`). Each method returns the entries that it leaves.
pub mod Laws
pub mod Refinement
use hodlxxi_social.Prelude.{
  ℕ, ◌+◌, ◌-◌, ◌*◌, ◌^◌, Bool, true, false, not, ◌&&◌, ◌||◌, Option, none, some, List, [], ◌∷◌,
  ◌==◌, leb, ltb, length, if◌then◌else◌,
}
use hodlxxi_social.Js.Text.{Text}
use hodlxxi_social.Js.Map
use hodlxxi_social.Js.Value.{Value, string}

-- A string that is not empty.
abbrev pub as_key : Value → Option Text
as_key (string []) = none
as_key (string (c ∷ t)) = some (c ∷ t)
as_key _ = none

pub record Config : Type 0 where
  pub ttl_seconds : ℕ
  pub capacity : ℕ

-- { ...value, issuedAt, expiresAt }
pub record Record {ℓ} (V : Type ℓ) : Type ℓ where
  pub value : V
  pub issued_at : ℕ
  pub expires_at : ℕ

module _ {ℓ} {V : Type ℓ} where
  unfoldable pub sweep : ℕ → List (Text × Record V) → List (Text × Record V)
  sweep time = Map.keep (λ r. not (leb r.expires_at time))

  abbrev pub stamped : Config → ℕ → V → Record V
  stamped config issued value = record {
    value = value;
    issued_at = issued;
    expires_at = issued + config.ttl_seconds * 1000;
  }

  -- the checks of `create` after the sweep
  unfoldable pub insert :
      Config → ℕ → Text → V → List (Text × Record V) → Bool × List (Text × Record V)
  insert config issued key value m =
      if Map.has m key || leb config.capacity (length m)
      then (false, m)
      else (true, Map.set m key (stamped config issued value))

  unfoldable pub create :
      Config → ℕ → ℕ → Value → V → List (Text × Record V) → Bool × List (Text × Record V)
  create config time issued key value m = elim (as_key key) [
    | none ↦ (false, sweep time m)
    | some k ↦ insert config issued k value (sweep time m)
  ]

  unfoldable pub get :
      ℕ → Text → List (Text × Record V) → Option (Record V) × List (Text × Record V)
  get time key m = let swept = sweep time m in (Map.get swept key, swept)

  unfoldable pub consume :
      ℕ → Text → List (Text × Record V) → Option (Record V) × List (Text × Record V)
  consume time key m =
      let (value, swept) = get time key m in
      elim value [ none ↦ (none, swept) | some r ↦ (some r, Map.delete swept key) ]

  -- `predicate` is a function; whether it answers exactly `true`
  unfoldable pub consume_if :
      (Record V → Bool)
      → ℕ
      → Text
      → List (Text × Record V)
      → Option (Record V) × List (Text × Record V)
  consume_if predicate time key m =
      let (value, swept) = get time key m in
      elim value [
        | none ↦ (none, swept)
        | some r ↦ if predicate r then (some r, Map.delete swept key) else (none, swept)
      ]

  unfoldable pub size : ℕ → List (Text × Record V) → ℕ × List (Text × Record V)
  size time m = let swept = sweep time m in (length swept, swept)
