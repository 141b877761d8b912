-- ===== src/Nostr/Event/Shape.antt =====
-- The events that `normalizeWireEvent` of web/nostr-event-verifier.mjs answers.
use mathlib.Core.Option.{some-injective}
use hodlxxi_social.Prelude.{
  ℕ, zero, suc, ◌+◌, ◌≤◌, ◌≡◌, refl, true, ◌&&◌, Option, some, List, ◌==◌, leb, length, all, All,
  guard, arith, >>=-eq-some, tested-eq-some, leb_sound, when-eq-some, guard-eq-some, subst, ap,
}
use hodlxxi_social.Js.Text.{Text, lit, is_lower_hex}
use hodlxxi_social.Js.Value.{
  Value, object, array, standard, without, other, Entry, index, name, entries, data_value,
  as_string, safe_natural, max_safe_integer,
}
use hodlxxi_social.Js.Record.{is_index}
use hodlxxi_social.Nostr.Json.{utf8}
use hodlxxi_social.Nostr.Event.{
  Event, own_value, copy_string, copy_strings, copy_string_array, copy_tags, normalize_tags,
  lower_hex_text, content_text, kind_number, normalize_entries, normalize_wire_event,
  has_event_fields, max_content_bytes, max_tags, max_tag_values, max_tag_value_bytes,
}

-- n digits 0-9a-f
abbrev pub IsHexText : ℕ → Text → Type 0
IsHexText n t = (length t ≡ n) × (all is_lower_hex t ≡ true)

-- 1 to 32 strings of at most 16384 bytes each
abbrev pub IsTag : List Text → Type 0
IsTag tag =
    (1 ≤ length tag)
    × (length tag ≤ max_tag_values)
    × All (λ t. length (utf8 t) ≤ max_tag_value_bytes) tag

pub record IsWireEvent (event : Event) : Type 0 where
  pub id : IsHexText 64 event.id
  pub pubkey : IsHexText 64 event.pubkey
  pub sig : IsHexText 128 event.sig
  pub created_at : event.created_at ≤ max_safe_integer
  pub kind : event.kind ≤ 65_535
  pub content : length (utf8 event.content) ≤ max_content_bytes
  pub tag_count : length event.tags ≤ max_tags
  pub tags : All IsTag event.tags

copy_string_sound :
    (item : Option Value) (t : Text)
    → copy_string item ≡ some t
    → length (utf8 t) ≤ max_tag_value_bytes
unfolding copy_string
copy_string_sound item t h =
    let (v, e, h1) = >>=-eq-some item _ h in
    let (e1, p) =
      tested-eq-some (as_string v) (λ s. leb (length (utf8 s)) max_tag_value_bytes) h1 in
    leb_sound (length (utf8 t)) max_tag_value_bytes p

copy_strings_sound :
    (n i : ℕ) (es : List Entry) (ts : List Text)
    → copy_strings n i es ≡ some ts
    → (length ts ≡ n) × All (λ t. length (utf8 t) ≤ max_tag_value_bytes) ts
unfolding copy_strings
copy_strings_sound zero i es ts h =
    subst (λ r. (length r ≡ 0) × All (λ t. length (utf8 t) ≤ max_tag_value_bytes) r)
      (some-injective _ _ h) (refl, tt)
copy_strings_sound (suc n) i es ts h =
    let (t, e, h1) = >>=-eq-some (copy_string (own_value (index i) es)) _ h in
    let (rest, e1, h2) = >>=-eq-some (copy_strings n (i + 1) es) _ h1 in
    let (len, small) = copy_strings_sound n (i + 1) es rest e1 in
    subst (λ r. (length r ≡ suc n) × All (λ t. length (utf8 t) ≤ max_tag_value_bytes) r)
      (some-injective _ _ h2) (ap suc len, (copy_string_sound (own_value (index i) es) t e, small))

copy_string_array_sound : (v : Value) (tag : List Text) → copy_string_array v ≡ some tag → IsTag tag
unfolding copy_string_array
copy_string_array_sound (array proto n ps) tag h =
    let (u, range, h1) = >>=-eq-some (guard (leb 1 n && leb n max_tag_values)) _ h in
    let (w, keys, h2) = >>=-eq-some (guard (all is_index (entries ps))) _ h1 in
    let (copied, e, h3) = >>=-eq-some (copy_strings n 0 (entries ps)) _ h2 in
    let (len, small) = copy_strings_sound n 0 (entries ps) copied e in
    let (test, same) = when-eq-some (length (entries ps) == length copied) (some copied) h3 in
    let bounds = guard-eq-some (leb 1 n && leb n max_tag_values) range in
    subst IsTag (some-injective _ _ same)
      (ground (arith, bounds, len), ground (arith, bounds, len), small)
copy_string_array_sound _ tag h = cc

copy_tags_sound :
    (n i : ℕ) (es : List Entry) (tags : List (List Text))
    → copy_tags n i es ≡ some tags
    → (length tags ≡ n) × All IsTag tags
unfolding copy_tags
copy_tags_sound zero i es tags h =
    subst (λ r. (length r ≡ 0) × All IsTag r) (some-injective _ _ h) (refl, tt)
copy_tags_sound (suc n) i es tags h =
    let (v, e, h1) = >>=-eq-some (own_value (index i) es) _ h in
    let (tag, e1, h2) = >>=-eq-some (copy_string_array v) _ h1 in
    let (rest, e2, h3) = >>=-eq-some (copy_tags n (i + 1) es) _ h2 in
    let (len, good) = copy_tags_sound n (i + 1) es rest e2 in
    subst (λ r. (length r ≡ suc n) × All IsTag r) (some-injective _ _ h3)
      (ap suc len, (copy_string_array_sound v tag e1, good))

normalize_tags_sound :
    (v : Value) (tags : List (List Text))
    → normalize_tags v ≡ some tags
    → (length tags ≤ max_tags) × All IsTag tags
unfolding normalize_tags
normalize_tags_sound (array proto n ps) tags h =
    let (u, range, h1) = >>=-eq-some (guard (leb n max_tags)) _ h in
    let (w, keys, h2) =
      >>=-eq-some (guard (all is_index (entries ps) && length (entries ps) == n)) _ h1 in
    let (len, good) = copy_tags_sound n 0 (entries ps) tags h2 in
    (omega (arith, leb_sound n max_tags (guard-eq-some (leb n max_tags) range), len), good)
normalize_tags_sound _ tags h = cc

lower_hex_text_sound : (n : ℕ) (v : Value) (t : Text) → lower_hex_text n v ≡ some t → IsHexText n t
unfolding lower_hex_text
lower_hex_text_sound n v t h =
    let (e, p) = tested-eq-some (as_string v) (λ s. length s == n && all is_lower_hex s) h in
    (ground arith, ground arith)

safe_natural-le : (v : Value) (n : ℕ) → safe_natural v ≡ some n → n ≤ max_safe_integer
safe_natural-le v n h = ground arith

kind_number-le : (v : Value) (n : ℕ) → kind_number v ≡ some n → n ≤ 65_535
unfolding kind_number
kind_number-le v n h =
    let (e, p) = tested-eq-some (safe_natural v) (λ k. leb k 65_535) h in leb_sound n 65_535 p

content_text-le :
    (v : Value) (t : Text) → content_text v ≡ some t → length (utf8 t) ≤ max_content_bytes
unfolding content_text
content_text-le v t h =
    let (e, p) = tested-eq-some (as_string v) (λ s. leb (length (utf8 s)) max_content_bytes) h in
    leb_sound (length (utf8 t)) max_content_bytes p

normalize_entries_sound :
    (es : List Entry) (event : Event) → normalize_entries es ≡ some event → IsWireEvent event
unfolding normalize_entries
normalize_entries_sound es event h0 =
    let (u, fields, h1) = >>=-eq-some (guard (has_event_fields es)) _ h0 in
    let (c, ec, h2) = >>=-eq-some (data_value (name (lit "content")) es) _ h1 in
    let (a, ea, h3) = >>=-eq-some (data_value (name (lit "created_at")) es) _ h2 in
    let (i, ei, h4) = >>=-eq-some (data_value (name (lit "id")) es) _ h3 in
    let (k, ek, h5) = >>=-eq-some (data_value (name (lit "kind")) es) _ h4 in
    let (p, ep, h6) = >>=-eq-some (data_value (name (lit "pubkey")) es) _ h5 in
    let (s, es', h7) = >>=-eq-some (data_value (name (lit "sig")) es) _ h6 in
    let (g, eg, h8) = >>=-eq-some (data_value (name (lit "tags")) es) _ h7 in
    let (id, hid, h9) = >>=-eq-some (lower_hex_text 64 i) _ h8 in
    let (pubkey, hpub, h10) = >>=-eq-some (lower_hex_text 64 p) _ h9 in
    let (sig, hsig, h11) = >>=-eq-some (lower_hex_text 128 s) _ h10 in
    let (at, hat, h12) = >>=-eq-some (safe_natural a) _ h11 in
    let (kind, hkind, h13) = >>=-eq-some (kind_number k) _ h12 in
    let (content, hcontent, h14) = >>=-eq-some (content_text c) _ h13 in
    let (tags, htags, h15) = >>=-eq-some (normalize_tags g) _ h14 in
    subst IsWireEvent (some-injective _ _ h15) (record {
      id = lower_hex_text_sound 64 i id hid;
      pubkey = lower_hex_text_sound 64 p pubkey hpub;
      sig = lower_hex_text_sound 128 s sig hsig;
      created_at = safe_natural-le a at hat;
      kind = kind_number-le k kind hkind;
      content = content_text-le c content hcontent;
      tag_count = (normalize_tags_sound g tags htags).0;
      tags = (normalize_tags_sound g tags htags).1;
    })

-- An event that the normalizer answers has the lower-case hexadecimal fields of their lengths, a kind
-- below 65536, a safe integer for its time, and content and tags within their limits.
pub normalize_wire_event_sound :
    (v : Value) (event : Event) → normalize_wire_event v ≡ some event → IsWireEvent event
unfolding normalize_wire_event
normalize_wire_event_sound (object standard ps) event h =
    normalize_entries_sound (entries ps) event h
normalize_wire_event_sound (object without ps) event h =
    normalize_entries_sound (entries ps) event h
normalize_wire_event_sound (object other ps) event h = cc
normalize_wire_event_sound _ event h = cc
