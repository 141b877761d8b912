-- ===== src/Nostr/Event/Acceptance.antt =====
-- Events as object literals, given to `normalizeWireEvent` of web/nostr-event-verifier.mjs.
use hodlxxi_social.Prelude.{
  ℕ, zero, suc, ◌+◌, ◌≤◌, ◌<◌, ◌≡◌, refl, ap, ◌∙◌, true, some, List, [], ◌∷◌, map, length-map,
  length, All, arith,
}
use hodlxxi_social.Js.Text.{Text, lit}
use hodlxxi_social.Js.Value.{
  Value, number, nat, string, Entry, index, entries, max_safe_integer, safe_natural,
}
use hodlxxi_social.Js.Record.Laws.{record_value, array_value, indexed, length-indexed, all-is_index}
use hodlxxi_social.Nostr.Json.{utf8}
use hodlxxi_social.Nostr.Event.{
  Event, own_value, copy_string, copy_strings, copy_string_array, copy_tags, normalize_tags,
  lower_hex_text, content_text, kind_number, normalize_entries, normalize_wire_event,
  has_event_fields, max_content_bytes, max_tags, max_tag_value_bytes,
}
use hodlxxi_social.Nostr.Event.Shape.{IsHexText, IsTag, IsWireEvent}

-- An event as the object literal that a relay's JSON gives.
abbrev pub tag_value : List Text → Value
tag_value tag = array_value (map string tag)

abbrev pub event_value : Event → Value
event_value e = record_value (
    (lit "id", string e.id)
    ∷ (lit "pubkey", string e.pubkey)
    ∷ (lit "created_at", number (nat e.created_at))
    ∷ (lit "kind", number (nat e.kind))
    ∷ (lit "tags", array_value (map tag_value e.tags))
    ∷ (lit "content", string e.content)
    ∷ (lit "sig", string e.sig)
    ∷ [])

-- An entry at a smaller index is passed over.
copy_strings_skip :
    (n i j : ℕ) (v : Value) (es : List Entry)
    → j < i
    → copy_strings n i (record { key = index j; enumerable = true; content = some v } ∷ es)
      ≡ copy_strings n i es
unfolding copy_strings own_value
copy_strings_skip zero i j v es h = refl
copy_strings_skip (suc n) i j v es h = ground (arith, copy_strings_skip n (i + 1) j v es)

copy_tags_skip :
    (n i j : ℕ) (v : Value) (es : List Entry)
    → j < i
    → copy_tags n i (record { key = index j; enumerable = true; content = some v } ∷ es)
      ≡ copy_tags n i es
unfolding copy_tags own_value
copy_tags_skip zero i j v es h = refl
copy_tags_skip (suc n) i j v es h = ground (arith, copy_tags_skip n (i + 1) j v es)

copy_string_same :
    (t : Text) → length (utf8 t) ≤ max_tag_value_bytes → copy_string (some (string t)) ≡ some t
unfolding copy_string
copy_string_same t h = ground arith

copy_strings-indexed :
    (i : ℕ) (ts : List Text)
    → All (λ t. length (utf8 t) ≤ max_tag_value_bytes) ts
    → copy_strings (length ts) i (entries (indexed i (map string ts))) ≡ some ts
unfolding copy_strings own_value indexed
copy_strings-indexed i [] h = refl
copy_strings-indexed i (t ∷ ts) (h, hs) = ground (
  arith,
  copy_string_same t h,
  copy_strings_skip (length ts) (i + 1) i (string t) (entries (indexed (i + 1) (map string ts))),
  copy_strings-indexed (i + 1) ts hs,
)

copy_string_array_same :
    (tag : List Text) → IsTag tag → copy_string_array (tag_value tag) ≡ some tag
unfolding copy_string_array
copy_string_array_same tag (low, high, small) = ground (
  arith,
  low,
  high,
  length-map string tag,
  all-is_index 0 (map string tag),
  length-indexed 0 (map string tag),
  ap (λ n. copy_strings n 0 (entries (indexed 0 (map string tag)))) (length-map string tag)
      ∙ copy_strings-indexed 0 tag small,
)

copy_tags-indexed :
    (i : ℕ) (tags : List (List Text))
    → All IsTag tags
    → copy_tags (length tags) i (entries (indexed i (map tag_value tags))) ≡ some tags
unfolding copy_tags own_value indexed
copy_tags-indexed i [] h = refl
copy_tags-indexed i (tag ∷ tags) (h, hs) = ground (
  arith,
  copy_string_array_same tag h,
  copy_tags_skip (length tags) (i + 1) i (tag_value tag)
      (entries (indexed (i + 1) (map tag_value tags))),
  copy_tags-indexed (i + 1) tags hs,
)

normalize_tags_same :
    (tags : List (List Text))
    → length tags ≤ max_tags
    → All IsTag tags
    → normalize_tags (array_value (map tag_value tags)) ≡ some tags
unfolding normalize_tags
normalize_tags_same tags few good = ground (
  arith,
  few,
  length-map tag_value tags,
  all-is_index 0 (map tag_value tags),
  length-indexed 0 (map tag_value tags),
  ap (λ n. copy_tags n 0 (entries (indexed 0 (map tag_value tags)))) (length-map tag_value tags)
      ∙ copy_tags-indexed 0 tags good,
)

lower_hex_text_same : (n : ℕ) (t : Text) → IsHexText n t → lower_hex_text n (string t) ≡ some t
unfolding lower_hex_text
lower_hex_text_same n t h = ground arith

content_text_same :
    (t : Text) → length (utf8 t) ≤ max_content_bytes → content_text (string t) ≡ some t
unfolding content_text
content_text_same t h = ground arith

safe_natural_same : (n : ℕ) → n ≤ max_safe_integer → safe_natural (number (nat n)) ≡ some n
safe_natural_same n h = ground arith

kind_number_same : (n : ℕ) → n ≤ 65_535 → kind_number (number (nat n)) ≡ some n
unfolding kind_number
kind_number_same n h = ground arith

-- An event whose fields are within the limits, given as a plain object, is accepted unchanged.
pub normalize_wire_event-event_value :
    (e : Event) → IsWireEvent e → normalize_wire_event (event_value e) ≡ some e
unfolding normalize_wire_event normalize_entries has_event_fields
normalize_wire_event-event_value e h =
    rw
      (
        lower_hex_text_same 64 e.id h.id,
        lower_hex_text_same 64 e.pubkey h.pubkey,
        lower_hex_text_same 128 e.sig h.sig,
        safe_natural_same e.created_at h.created_at,
        kind_number_same e.kind h.kind,
        content_text_same e.content h.content,
        normalize_tags_same e.tags h.tag_count h.tags,
      )
      refl
