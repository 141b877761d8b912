-- ===== src/Js/Map.antt =====
-- `Map` with string keys: the entries in insertion order, each key once. `set` of a key that is
-- there replaces the value in its place, `delete` drops the entry.
pub mod Laws
use hodlxxi_social.Prelude.{
  ℕ, ◌+◌, ◌-◌, ◌≤◌, ◌≡◌, refl, ap, Bool, true, false, not, ◌&&◌, ◌||◌, Option, none, some, List, [],
  ◌∷◌, ◌++◌, arith, if◌then◌else◌, length, All, length-append,
}
use hodlxxi_social.Js.Text.{Text, ◌===◌, ===_iff, ===_self}

module _ {ℓ} {V : Type ℓ} where
  unfoldable pub get : List (Text × V) → Text → Option V
  get [] k = none
  get ((j, v) ∷ m) k = if j === k then some v else get m k

  unfoldable pub has : List (Text × V) → Text → Bool
  has [] k = false
  has ((j, v) ∷ m) k = j === k || has m k

  unfoldable pub set : List (Text × V) → Text → V → List (Text × V)
  set [] k v = (k, v) ∷ []
  set ((j, w) ∷ m) k v = if j === k then (j, v) ∷ m else (j, w) ∷ set m k v

  unfoldable pub delete : List (Text × V) → Text → List (Text × V)
  delete [] k = []
  delete ((j, v) ∷ m) k = if j === k then m else (j, v) ∷ delete m k

  -- A loop over the entries that deletes those that fail the test.
  unfoldable pub keep : (V → Bool) → List (Text × V) → List (Text × V)
  keep p [] = []
  keep p ((j, v) ∷ m) = let rest = keep p m in if p v then (j, v) ∷ rest else rest

  -- A loop over the values that counts those that pass the test.
  unfoldable pub count : (V → Bool) → List (Text × V) → ℕ
  count p [] = 0
  count p ((j, v) ∷ m) = (if p v then 1 else 0) + count p m

  -- Each key once.
  abbrev pub IsMap : List (Text × V) → Type 0
  IsMap [] = Unit
  IsMap ((j, v) ∷ m) = (has m j ≡ false) × IsMap m
