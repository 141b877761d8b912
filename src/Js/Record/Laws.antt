-- ===== src/Js/Record/Laws.antt =====
-- Records of data fields and dense arrays, as the program itself builds them.
use hodlxxi_social.Prelude.{
  ℕ, zero, suc, ◌+◌, ◌<◌, ◌≡◌, refl, ap, true, some, List, [], ◌∷◌, length, all, arith,
}
use hodlxxi_social.Js.Text.{Text}
use hodlxxi_social.Js.Value.{
  Value, Props, end, field, object, array, standard, Entry, index, name, entries,
}
use hodlxxi_social.Js.Record.{dense_items, dense_data_array, is_index}

-- { k: v, … }
abbrev pub record_props : List (Text × Value) → Props
record_props [] = end
record_props ((k, v) ∷ r) = field (name k) true v (record_props r)

abbrev pub record_value : List (Text × Value) → Value
record_value r = object standard (record_props r)

-- [v, …]
unfoldable pub indexed : ℕ → List Value → Props
indexed i [] = end
indexed i (v ∷ vs) = field (index i) true v (indexed (i + 1) vs)

abbrev pub array_value : List Value → Value
array_value vs = array standard (length vs) (indexed 0 vs)

pub length-indexed : (i : ℕ) (vs : List Value) → length (entries (indexed i vs)) ≡ length vs
unfolding indexed
length-indexed i [] = refl
length-indexed i (v ∷ vs) = ap suc (length-indexed (i + 1) vs)

pub all-is_index : (i : ℕ) (vs : List Value) → all is_index (entries (indexed i vs)) ≡ true
unfolding indexed
all-is_index i [] = refl
all-is_index i (v ∷ vs) = all-is_index (i + 1) vs

-- An entry at a smaller index is passed over.
dense_items_skip :
    (n i j : ℕ) (v : Value) (es : List Entry)
    → j < i
    → dense_items n i (record { key = index j; enumerable = true; content = some v } ∷ es)
      ≡ dense_items n i es
unfolding dense_items
dense_items_skip zero i j v es h = refl
dense_items_skip (suc n) i j v es h = ground (arith, dense_items_skip n (i + 1) j v es)

pub dense_items-indexed :
    (i : ℕ) (vs : List Value) → dense_items (length vs) i (entries (indexed i vs)) ≡ some vs
unfolding dense_items indexed
dense_items-indexed i [] = refl
dense_items-indexed i (v ∷ vs) = ground (
  arith,
  dense_items_skip (length vs) (i + 1) i v (entries (indexed (i + 1) vs)),
  dense_items-indexed (i + 1) vs,
)

pub dense_data_array-array_value : (vs : List Value) → dense_data_array (array_value vs) ≡ some vs
unfolding dense_data_array
dense_data_array-array_value vs =
    ground (arith, length-indexed 0 vs, all-is_index 0 vs, dense_items-indexed 0 vs)
