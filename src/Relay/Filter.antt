-- ===== src/Relay/Filter.antt =====
-- What a filter that passes may contain.
use mathlib.Core.Option.{some-injective}
use hodlxxi_social.Prelude.{
  ℕ, suc, ◌≤◌, ◌≡◌, refl, ap, subst, true, Option, none, some, List, [], ◌∷◌, map, length, all, All,
  ◌>>=◌, guard, arith, >>=-eq-some, when-eq-some, guard-eq-some,
}
use hodlxxi_social.Js.Text.{Text, lit, is_lower_hex, to_lower}
use hodlxxi_social.Js.Value.{
  Value, object, standard, without, other, Entry, name, entries, descriptor, as_string,
  safe_natural, max_safe_integer,
}
use hodlxxi_social.Relay.{
  max_limit, RelayFilter, copy_array_data_values, is_any_hex, is_hex_prefix, hex_prefix, collect,
  normalize_hex_prefixes, normalize_kinds, normalize_limit, optional, is_filter_key,
  validate_entries, validate_public_relay_filter,
}

-- 1 to 64 digits 0-9a-f
abbrev pub IsPrefix : Text → Type 0
IsPrefix t = (1 ≤ length t) × (length t ≤ 64) × (all is_lower_hex t ≡ true)

abbrev pub IfPresent {ℓ κ} : {A : Type ℓ} → (A → Type κ) → Option A → Type κ
IfPresent P none = Unit
IfPresent P (some a) = P a

pub record IsRelayFilter (f : RelayFilter) : Type 0 where
  pub ids : IfPresent (All IsPrefix) f.ids
  pub authors : IfPresent (All IsPrefix) f.authors
  pub kinds : IfPresent (All (λ k. k ≤ max_safe_integer)) f.kinds
  pub since : IfPresent (λ t. t ≤ max_safe_integer) f.since
  pub until : IfPresent (λ t. t ≤ max_safe_integer) f.until
  pub limit : IfPresent (λ n. (1 ≤ n) × (n ≤ max_limit)) f.limit
  pub events : IfPresent (All IsPrefix) f.events
  pub persons : IfPresent (All IsPrefix) f.persons

lower_digit : (c : ℕ) → is_any_hex c ≡ true → is_lower_hex (to_lower c) ≡ true
lower_digit c h = ground arith

length-map_lower : (t : Text) → length (map to_lower t) ≡ length t
length-map_lower [] = refl
length-map_lower (c ∷ t) = ap suc (length-map_lower t)

all-map_lower : (t : Text) → all is_any_hex t ≡ true → all is_lower_hex (map to_lower t) ≡ true
all-map_lower [] h = refl
all-map_lower (c ∷ t) h = ground (arith, lower_digit c, all-map_lower t)

prefix_of_lower : (t : Text) → is_hex_prefix t ≡ true → IsPrefix (map to_lower t)
unfolding is_hex_prefix
prefix_of_lower t h = (
  ground (arith, length-map_lower t),
  ground (arith, length-map_lower t),
  all-map_lower t (ground arith),
)

hex_prefix_sound : (v : Value) (t : Text) → hex_prefix v ≡ some t → IsPrefix t
unfolding hex_prefix
hex_prefix_sound v t h =
    let (s, e, h1) = >>=-eq-some (as_string v) _ h in
    let (p, same) = when-eq-some (is_hex_prefix s) (some (map to_lower s)) h1 in
    subst IsPrefix (some-injective _ _ same) (prefix_of_lower s p)

-- Every item of a collected list has what the reader guarantees.
collect_sound {ℓ κ} :
    {A : Type ℓ} (P : A → Type κ) (read : Value → Option A)
    → ((v : Value) (a : A) → read v ≡ some a → P a)
    → (vs : List Value) (as' : List A) → collect read vs ≡ some as'
    → All P as'
unfolding collect
collect_sound P read sound [] as' h = subst (All P) (some-injective _ _ h) tt
collect_sound P read sound (v ∷ vs) as' h =
    let (a, e, h1) = >>=-eq-some (read v) _ h in
    let (rest, e1, h2) = >>=-eq-some (collect read vs) _ h1 in
    subst (All P) (some-injective _ _ h2) (sound v a e, collect_sound P read sound vs rest e1)

optional_sound {ℓ κ} :
    {A : Type ℓ} (P : A → Type κ) (read : Value → Option A)
    → ((v : Value) (a : A) → read v ≡ some a → P a)
    → (f : Text) (es : List Entry) (o : Option A) → optional read f es ≡ some o
    → IfPresent P o
unfolding optional
optional_sound P read sound f es o h = go (descriptor (name f) es) h
  where
    go :
        (found : Option Entry)
        → (elim found [
          | none ↦ some none
          | some e ↦ e.content >>= λ v. read v >>= λ a. some (some a)
        ])
          ≡ some o
        → IfPresent P o
    go none k = subst (IfPresent P) (some-injective _ _ k) tt
    go (some e) k =
        let (v, ev, k1) = >>=-eq-some e.content _ k in
        let (a, ea, k2) = >>=-eq-some (read v) _ k1 in
        subst (IfPresent P) (some-injective _ _ k2) (sound v a ea)

prefixes_sound : (v : Value) (ts : List Text) → normalize_hex_prefixes v ≡ some ts → All IsPrefix ts
unfolding normalize_hex_prefixes
prefixes_sound v ts h =
    let (vs, e, h1) = >>=-eq-some (copy_array_data_values v) _ h in
    collect_sound IsPrefix hex_prefix hex_prefix_sound vs ts h1

natural_sound : (v : Value) (n : ℕ) → safe_natural v ≡ some n → n ≤ max_safe_integer
natural_sound v n h = ground arith

kinds_sound :
    (v : Value) (ks : List ℕ) → normalize_kinds v ≡ some ks → All (λ k. k ≤ max_safe_integer) ks
unfolding normalize_kinds
kinds_sound v ks h =
    let (vs, e, h1) = >>=-eq-some (copy_array_data_values v) _ h in
    collect_sound (λ k. k ≤ max_safe_integer) safe_natural natural_sound vs ks h1

limit_sound : (v : Value) (n : ℕ) → normalize_limit v ≡ some n → (1 ≤ n) × (n ≤ max_limit)
limit_sound v n h = ground arith

validate_entries_sound :
    (es : List Entry) (f : RelayFilter)
    → validate_entries es ≡ some f
    → (all is_filter_key es ≡ true) × IsRelayFilter f
unfolding validate_entries
validate_entries_sound es f h0 =
    let (u, keys, h1) = >>=-eq-some (guard (all is_filter_key es)) _ h0 in
    let (ids, e1, h2) = >>=-eq-some (optional normalize_hex_prefixes (lit "ids") es) _ h1 in
    let (authors, e2, h3) = >>=-eq-some (optional normalize_hex_prefixes (lit "authors") es) _ h2 in
    let (kinds, e3, h4) = >>=-eq-some (optional normalize_kinds (lit "kinds") es) _ h3 in
    let (since, e4, h5) = >>=-eq-some (optional safe_natural (lit "since") es) _ h4 in
    let (until, e5, h6) = >>=-eq-some (optional safe_natural (lit "until") es) _ h5 in
    let (limit, e6, h7) = >>=-eq-some (optional normalize_limit (lit "limit") es) _ h6 in
    let (events, e7, h8) = >>=-eq-some (optional normalize_hex_prefixes (lit "#e") es) _ h7 in
    let (persons, e8, h9) = >>=-eq-some (optional normalize_hex_prefixes (lit "#p") es) _ h8 in
    (
      guard-eq-some (all is_filter_key es) keys,
      subst IsRelayFilter (some-injective _ _ h9) (record {
        ids =
            optional_sound (All IsPrefix) normalize_hex_prefixes prefixes_sound (lit "ids") es ids
              e1;
        authors =
            optional_sound (All IsPrefix) normalize_hex_prefixes prefixes_sound (lit "authors") es
              authors e2;
        kinds =
            optional_sound (All (λ k. k ≤ max_safe_integer)) normalize_kinds kinds_sound
              (lit "kinds") es kinds e3;
        since =
            optional_sound (λ t. t ≤ max_safe_integer) safe_natural natural_sound (lit "since") es
              since e4;
        until =
            optional_sound (λ t. t ≤ max_safe_integer) safe_natural natural_sound (lit "until") es
              until e5;
        limit =
            optional_sound (λ n. (1 ≤ n) × (n ≤ max_limit)) normalize_limit limit_sound
              (lit "limit") es limit e6;
        events =
            optional_sound (All IsPrefix) normalize_hex_prefixes prefixes_sound (lit "#e") es events
              e7;
        persons =
            optional_sound (All IsPrefix) normalize_hex_prefixes prefixes_sound (lit "#p") es
              persons e8;
      }),
    )

-- The own keys of an object.
abbrev pub own_entries : Value → List Entry
own_entries (object proto ps) = entries ps
own_entries _ = []

-- A filter that passes has no other own keys than the eight fields; its lists of identifiers hold
-- lower-case prefixes of 1 to 64 hexadecimal digits, its kinds and times are safe naturals, and its
-- limit lies between 1 and 500.
pub validate_public_relay_filter_sound :
    (v : Value) (f : RelayFilter)
    → validate_public_relay_filter v ≡ some f
    → (all is_filter_key (own_entries v) ≡ true) × IsRelayFilter f
unfolding validate_public_relay_filter
validate_public_relay_filter_sound (object standard ps) f h =
    validate_entries_sound (entries ps) f h
validate_public_relay_filter_sound (object without ps) f h = validate_entries_sound (entries ps) f h
validate_public_relay_filter_sound (object other ps) f h = cc
validate_public_relay_filter_sound _ f h = cc
