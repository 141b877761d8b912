-- ===== src/Js/Record.antt =====
-- `exactRecord` and `denseDataArray`, by which each boundary of the program takes its input apart.
pub mod Laws
pub mod Holding
use hodlxxi_social.Prelude.{
  ℕ, zero, suc, ◌+◌, ◌≡◌, refl, Bool, true, false, ◌&&◌, ◌||◌, Option, none, some, List, [], ◌∷◌,
  ◌==◌, leb, length, ◌>>=◌, ◌>>◌, guard, when, all, any,
}
use hodlxxi_social.Js.Text.{Text, includes}
use hodlxxi_social.Js.Map
use hodlxxi_social.Js.Value.{
  Value, undefined, object, array, standard, Entry, Key, index, name, symbol, entries, key_eq,
  descriptor, data_value,
}

-- The result of `exactRecord`: the fields that were asked for, in that order.
abbrev pub Fields : Type 0
Fields = List (Text × Value)

abbrev pub is_some {ℓ} : {A : Type ℓ} → Option A → Bool
is_some none = false
is_some (some a) = true

-- a string key among the fields, enumerable, with a value
unfoldable pub is_field : List Text → Entry → Bool
unfolding includes
is_field fields e = elim e.key [
  | name k ↦ includes fields k && e.enumerable && is_some e.content
  | _ ↦ false
]

abbrev pub or_undefined : Option Value → Value
or_undefined none = undefined
or_undefined (some v) = v

unfoldable pub pick : List Text → List Entry → Fields
unfolding data_value
pick [] es = []
pick (f ∷ fs) es = (f, or_undefined (data_value (name f) es)) ∷ pick fs es

unfoldable pub exact_entries : List Text → List Entry → Option Fields
unfolding is_field pick
exact_entries fields es =
    when
      (length es == length fields
        && all (λ f. is_some (descriptor (name f) es)) fields
        && all (is_field fields) es)
      (some (pick fields es))

unfoldable pub exact_record : Value → List Text → Option Fields
unfolding exact_entries
exact_record (object standard ps) fields = exact_entries fields (entries ps)
exact_record _ fields = none

-- record?.name
unfoldable pub property : Option Fields → Text → Value
unfolding Map.get
property none k = undefined
property (some r) k = or_undefined (Map.get r k)

-- The loop over the indices from `i` on.
unfoldable pub dense_items : ℕ → ℕ → List Entry → Option (List Value)
unfolding data_value
dense_items zero i es = some []
dense_items (suc n) i es = do
  v ← data_value (index i) es
  rest ← dense_items n (i + 1) es
  some (v ∷ rest)

abbrev pub is_index : Entry → Bool
is_index e = elim e.key [ index i ↦ true | _ ↦ false ]

-- The key `length` is an array's own: it is counted, and it is not among the entries.
unfoldable pub dense_data_array : Value → Option (List Value)
unfolding dense_items
dense_data_array (array standard n ps) =
    when (length (entries ps) == n && all is_index (entries ps)) (dense_items n 0 (entries ps))
dense_data_array _ = none
