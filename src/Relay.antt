-- ===== src/Relay.antt =====
-- `validatePublicRelayFilter` of src/nostr.mjs: what the program may ask of a public relay. `none` is a
-- TypeError.
mod Filter
mod Tests
use hodlxxi_social.Prelude.{
  ℕ, zero, suc, ◌+◌, Bool, true, false, ◌&&◌, ◌||◌, Option, none, some, List, [], ◌∷◌, map, leb,
  length, all, when, ◌>>=◌, ◌>>◌, guard,
}
use hodlxxi_social.Js.Text.{Text, lit, includes, is_lower_hex, in_range, to_lower}
use hodlxxi_social.Js.Value.{
  Value, object, array, Proto, standard, without, other, Entry, Key, index, name, symbol, entries,
  descriptor, as_string, safe_natural,
}

abbrev pub max_limit : ℕ
max_limit = 500

abbrev pub filter_fields : List Text
filter_fields =
    map lit ("ids" ∷ "authors" ∷ "kinds" ∷ "since" ∷ "until" ∷ "limit" ∷ "#e" ∷ "#p" ∷ [])

-- The fields of a normalized filter, `none` where they are absent.
pub record RelayFilter : Type 0 where
  pub ids : Option (List Text)
  pub authors : Option (List Text)
  pub kinds : Option (List ℕ)
  pub since : Option ℕ
  pub until : Option ℕ
  pub limit : Option ℕ
  pub events : Option (List Text)
  pub persons : Option (List Text)

-- The loop over the indices from `i` on; a data property need not be enumerable.
unfoldable pub copy_values : ℕ → ℕ → List Entry → Option (List Value)
unfolding descriptor
copy_values zero i es = some []
copy_values (suc n) i es = do
  e ← descriptor (index i) es
  v ← e.content
  rest ← copy_values n (i + 1) es
  some (v ∷ rest)

unfoldable pub copy_array_data_values : Value → Option (List Value)
unfolding copy_values
copy_array_data_values (array proto n ps) = copy_values n 0 (entries ps)
copy_array_data_values _ = none

-- [0-9a-fA-F]
abbrev pub is_any_hex : ℕ → Bool
is_any_hex c = is_lower_hex c || in_range b'A' b'F' c

-- /^[0-9a-fA-F]{1,64}$/
unfoldable pub is_hex_prefix : Text → Bool
is_hex_prefix t = leb 1 (length t) && leb (length t) 64 && all is_any_hex t

unfoldable pub hex_prefix : Value → Option Text
unfolding is_hex_prefix
hex_prefix v = do t ← as_string v; when (is_hex_prefix t) (some (map to_lower t))

unfoldable pub collect {ℓ} : {A : Type ℓ} → (Value → Option A) → List Value → Option (List A)
collect read [] = some []
collect read (v ∷ vs) = do a ← read v; rest ← collect read vs; some (a ∷ rest)

unfoldable pub normalize_hex_prefixes : Value → Option (List Text)
unfolding copy_array_data_values collect hex_prefix
normalize_hex_prefixes v = do copied ← copy_array_data_values v; collect hex_prefix copied

unfoldable pub normalize_kinds : Value → Option (List ℕ)
unfolding copy_array_data_values collect
normalize_kinds v = do copied ← copy_array_data_values v; collect safe_natural copied

abbrev pub normalize_limit : Value → Option ℕ
normalize_limit v = do n ← safe_natural v; when (leb 1 n && leb n max_limit) (some n)

-- A field that is absent is passed over; one that is there must be a data property.
unfoldable pub optional {ℓ} :
    {A : Type ℓ} → (Value → Option A) → Text → List Entry → Option (Option A)
unfolding descriptor
optional read f es = elim (descriptor (name f) es) [
  | none ↦ some none
  | some e ↦ do v ← e.content; a ← read v; some (some a)
]

abbrev pub is_filter_key : Entry → Bool
is_filter_key e = elim e.key [ name k ↦ includes filter_fields k | _ ↦ false ]

unfoldable pub validate_entries : List Entry → Option RelayFilter
unfolding includes optional normalize_hex_prefixes normalize_kinds
validate_entries es = do
  guard (all is_filter_key es)
  ids ← optional normalize_hex_prefixes (lit "ids") es
  authors ← optional normalize_hex_prefixes (lit "authors") es
  kinds ← optional normalize_kinds (lit "kinds") es
  since ← optional safe_natural (lit "since") es
  until ← optional safe_natural (lit "until") es
  limit ← optional normalize_limit (lit "limit") es
  events ← optional normalize_hex_prefixes (lit "#e") es
  persons ← optional normalize_hex_prefixes (lit "#p") es
  some record {
    ids = ids;
    authors = authors;
    kinds = kinds;
    since = since;
    until = until;
    limit = limit;
    events = events;
    persons = persons;
  }

unfoldable pub validate_public_relay_filter : Value → Option RelayFilter
unfolding validate_entries
validate_public_relay_filter (object standard ps) = validate_entries (entries ps)
validate_public_relay_filter (object without ps) = validate_entries (entries ps)
validate_public_relay_filter _ = none
