-- ===== src/Js/Map/Laws.antt =====
-- The laws of `Map`: what a lookup finds after each operation, and how many entries there are.
use hodlxxi_social.Prelude.{
  ◌+◌, ◌≤◌, ◌≡◌, refl, Bool, true, false, ◌||◌, Option, none, some, List, [], ◌∷◌, arith,
  if◌then◌else◌, length,
}
use hodlxxi_social.Js.Text.{Text, ◌===◌, ===_iff, ===_self}
use hodlxxi_social.Js.Map.{get, has, set, delete, keep, count, IsMap}

-- `o` if its value passes the test
abbrev pub passing {ℓ} : {V : Type ℓ} → (V → Bool) → Option V → Option V
passing p none = none
passing p (some v) = if p v then some v else none

module _ {ℓ} {V : Type ℓ} where
  pub get-set :
      (m : List (Text × V)) (k j : Text) (v : V)
      → get (set m k v) j ≡ (if k === j then some v else get m j)
  unfolding get set
  get-set [] k j v = refl
  get-set ((i, w) ∷ m) k j v =
      ground (arith, get-set m k j v, ===_iff i k, ===_iff i j, ===_iff k j)

  pub get_of_not-has : (m : List (Text × V)) (k : Text) → has m k ≡ false → get m k ≡ none
  unfolding get has
  get_of_not-has [] k h = refl
  get_of_not-has ((j, v) ∷ m) k h = ground (arith, get_of_not-has m k)

  pub has_of_get : (m : List (Text × V)) (k : Text) (v : V) → get m k ≡ some v → has m k ≡ true
  unfolding get has
  has_of_get [] k v h = cc
  has_of_get ((j, w) ∷ m) k v h = ground (arith, has_of_get m k v)

  pub get-delete :
      (m : List (Text × V)) (k j : Text)
      → IsMap m
      → get (delete m k) j ≡ (if k === j then none else get m j)
  unfolding get delete
  get-delete [] k j h = ground arith
  get-delete ((i, w) ∷ m) k j h =
      ground (arith, get-delete m k j, ===_iff i k, ===_iff i j, ===_iff k j, get_of_not-has m i)

  pub has-keep :
      (p : V → Bool) (m : List (Text × V)) (k : Text) → has m k ≡ false → has (keep p m) k ≡ false
  unfolding has keep
  has-keep p [] k h = refl
  has-keep p ((j, v) ∷ m) k h = ground (arith, has-keep p m k)

  pub get-keep :
      (p : V → Bool) (m : List (Text × V)) (k : Text)
      → IsMap m
      → get (keep p m) k ≡ passing p (get m k)
  unfolding get keep
  get-keep p [] k h = refl
  get-keep p ((j, v) ∷ m) k h = ground (
    arith,
    get-keep p m k,
    ===_iff j k,
    get_of_not-has m j,
    get_of_not-has (keep p m) j,
    has-keep p m j,
  )

  pub keep-IsMap : (p : V → Bool) (m : List (Text × V)) → IsMap m → IsMap (keep p m)
  unfolding keep has
  keep-IsMap p [] h = tt
  keep-IsMap p ((j, v) ∷ m) h = ground (arith, keep-IsMap p m, has-keep p m j)

  pub has-set :
      (m : List (Text × V)) (k j : Text) (v : V) → has (set m k v) j ≡ (k === j || has m j)
  unfolding has set
  has-set [] k j v = refl
  has-set ((i, w) ∷ m) k j v = ground (arith, has-set m k j v, ===_iff i k)

  pub set-IsMap : (m : List (Text × V)) (k : Text) (v : V) → IsMap m → IsMap (set m k v)
  unfolding set has
  set-IsMap [] k v h = (refl, tt)
  set-IsMap ((i, w) ∷ m) k v h =
      ground (arith, set-IsMap m k v, has-set m k i v, ===_iff k i, ===_iff i k, ===_self i)

  has-delete : (m : List (Text × V)) (k j : Text) → has m j ≡ false → has (delete m k) j ≡ false
  unfolding has delete
  has-delete [] k j h = refl
  has-delete ((i, w) ∷ m) k j h = ground (arith, has-delete m k j)

  pub delete-IsMap : (m : List (Text × V)) (k : Text) → IsMap m → IsMap (delete m k)
  unfolding delete has
  delete-IsMap [] k h = tt
  delete-IsMap ((i, w) ∷ m) k h = ground (arith, delete-IsMap m k, has-delete m k i)

  pub count-set :
      (p : V → Bool) (m : List (Text × V)) (k : Text) (v : V)
      → has m k ≡ false
      → count p (set m k v) ≡ count p m + (if p v then 1 else 0)
  unfolding count set has
  count-set p [] k v h = ground arith
  count-set p ((j, w) ∷ m) k v h = ground (arith, count-set p m k v)

  pub length-set :
      (m : List (Text × V)) (k : Text) (v : V) → has m k ≡ false → length (set m k v) ≡ length m + 1
  unfolding set has
  length-set [] k v h = omega arith
  length-set ((j, w) ∷ m) k v h = ground (arith, length-set m k v)

  pub count-keep-le : (p q : V → Bool) (m : List (Text × V)) → count q (keep p m) ≤ count q m
  unfolding count keep
  count-keep-le p q [] = omega arith
  count-keep-le p q ((j, w) ∷ m) = ground (arith, count-keep-le p q m)

  pub length-keep-le : (p : V → Bool) (m : List (Text × V)) → length (keep p m) ≤ length m
  unfolding keep
  length-keep-le p [] = omega arith
  length-keep-le p ((j, w) ∷ m) = ground (arith, length-keep-le p m)

  pub length-delete-le : (m : List (Text × V)) (k : Text) → length (delete m k) ≤ length m
  unfolding delete
  length-delete-le [] k = omega arith
  length-delete-le ((j, w) ∷ m) k = ground (arith, length-delete-le m k)

module _ {ℓ} {V : Type ℓ} where
  -- A fact about every entry.
  abbrev pub Every {κ} : (Text → V → Type κ) → List (Text × V) → Type κ
  Every P [] = Unit
  Every P ((k, v) ∷ m) = P k v × Every P m

module _ {ℓ κ} {V : Type ℓ} (P : Text → V → Type κ) where
  pub Every-keep : (p : V → Bool) (m : List (Text × V)) → Every P m → Every P (keep p m)
  unfolding keep
  Every-keep p [] h = tt
  Every-keep p ((k, v) ∷ m) h = ground (arith, Every-keep p m)

  pub Every-set : (m : List (Text × V)) (k : Text) (v : V) → P k v → Every P m → Every P (set m k v)
  unfolding set
  Every-set [] k v p h = (p, tt)
  Every-set ((j, w) ∷ m) k v p h = ground (arith, Every-set m k v, ===_iff j k)

  pub Every-delete : (m : List (Text × V)) (k : Text) → Every P m → Every P (delete m k)
  unfolding delete
  Every-delete [] k h = tt
  Every-delete ((j, w) ∷ m) k h = ground (arith, Every-delete m k)

  pub Every-get : (m : List (Text × V)) (k : Text) (v : V) → get m k ≡ some v → Every P m → P k v
  unfolding get
  Every-get [] k v e h = cc
  Every-get ((j, w) ∷ m) k v e h = ground (arith, Every-get m k v, ===_iff j k)

  -- Every entry that passes the test is kept, so every entry that is left passes it.
  pub Every-passing :
      (p : V → Bool)
      → ((k : Text) (v : V) → p v ≡ true → P k v)
      → (m : List (Text × V)) → Every P (keep p m)
  unfolding keep
  Every-passing p f [] = tt
  Every-passing p f ((k, v) ∷ m) = ground (arith, Every-passing p f m, f k v)

module _ {ℓ} {V : Type ℓ} where
  pub length-set_old :
      (m : List (Text × V)) (k : Text) (v : V) → has m k ≡ true → length (set m k v) ≡ length m
  unfolding set has
  length-set_old [] k v h = absurd (cc)
  length-set_old ((j, w) ∷ m) k v h = ground (arith, length-set_old m k v)
