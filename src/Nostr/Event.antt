-- ===== src/Nostr/Event.antt =====
-- `copyStringArray`, `normalizeWireEvent` and `serializedEventBytes` of web/nostr-event-verifier.mjs.
-- `none` is the TypeError "invalid Nostr event"; reflection on an exotic object throws another error,
-- which is `none` as well.
pub mod Shape
pub mod Serialized
pub mod Acceptance
use hodlxxi_social.Prelude.{
  ℕ, zero, suc, ◌+◌, Bool, true, false, ◌&&◌, ◌||◌, Option, none, some, List, [], ◌∷◌, map, ◌==◌,
  leb, length, all, when, ◌>>=◌, ◌>>◌, guard,
}
use hodlxxi_social.Js.Text.{Text, lit, is_lower_hex}
use hodlxxi_social.Js.Value.{
  Value, object, array, Proto, standard, without, other, Entry, Key, index, name, entries,
  descriptor, data_value, as_string, safe_natural,
}
use hodlxxi_social.Js.Record.{is_some, is_index}
use hodlxxi_social.Nostr.Json.{utf8, decimal, quoted, bracketed}

abbrev pub max_event_bytes : ℕ
max_event_bytes = 262_144

abbrev pub max_content_bytes : ℕ
max_content_bytes = 131_072

abbrev pub max_tags : ℕ
max_tags = 256

abbrev pub max_tag_values : ℕ
max_tag_values = 32

abbrev pub max_tag_value_bytes : ℕ
max_tag_value_bytes = 16_384

abbrev pub event_fields : List Text
event_fields = map lit ("content" ∷ "created_at" ∷ "id" ∷ "kind" ∷ "pubkey" ∷ "sig" ∷ "tags" ∷ [])

pub record Event : Type 0 where
  pub id : Text
  pub pubkey : Text
  pub created_at : ℕ
  pub kind : ℕ
  pub tags : List (List Text)
  pub content : Text
  pub sig : Text

-- The value of an own data property, enumerable or not.
unfoldable pub own_value : Key → List Entry → Option Value
unfolding descriptor
own_value k es = do e ← descriptor k es; e.content

unfoldable pub copy_string : Option Value → Option Text
unfolding utf8
copy_string item = do
  v ← item
  t ← as_string v
  when (leb (length (utf8 t)) max_tag_value_bytes) (some t)

-- The loop over the indices from `i` on.
unfoldable pub copy_strings : ℕ → ℕ → List Entry → Option (List Text)
unfolding copy_string own_value
copy_strings zero i es = some []
copy_strings (suc n) i es = do
  t ← copy_string (own_value (index i) es)
  rest ← copy_strings n (i + 1) es
  some (t ∷ rest)

-- The key `length` is counted, and it is not among the entries.
unfoldable pub copy_string_array : Value → Option (List Text)
unfolding copy_strings
copy_string_array (array proto n ps) = do
  guard (leb 1 n && leb n max_tag_values)
  guard (all is_index (entries ps))
  copied ← copy_strings n 0 (entries ps)
  when (length (entries ps) == length copied) (some copied)
copy_string_array _ = none

-- The loop over the tags from index `i` on.
unfoldable pub copy_tags : ℕ → ℕ → List Entry → Option (List (List Text))
unfolding copy_string_array own_value
copy_tags zero i es = some []
copy_tags (suc n) i es = do
  v ← own_value (index i) es
  tag ← copy_string_array v
  rest ← copy_tags n (i + 1) es
  some (tag ∷ rest)

unfoldable pub normalize_tags : Value → Option (List (List Text))
unfolding copy_tags
normalize_tags (array proto n ps) = do
  guard (leb n max_tags)
  guard (all is_index (entries ps) && length (entries ps) == n)
  copy_tags n 0 (entries ps)
normalize_tags _ = none

-- /^[0-9a-f]{n}$/
unfoldable pub lower_hex_text : ℕ → Value → Option Text
lower_hex_text n v = do t ← as_string v; when (length t == n && all is_lower_hex t) (some t)

unfoldable pub content_text : Value → Option Text
unfolding utf8
content_text v = do t ← as_string v; when (leb (length (utf8 t)) max_content_bytes) (some t)

unfoldable pub kind_number : Value → Option ℕ
kind_number v = do n ← safe_natural v; when (leb n 65_535) (some n)

-- Seven keys that sort to the seven fields: seven entries, and each field among them.
unfoldable pub has_event_fields : List Entry → Bool
unfolding descriptor
has_event_fields es =
    length es == length event_fields && all (λ f. is_some (descriptor (name f) es)) event_fields

unfoldable pub normalize_entries : List Entry → Option Event
unfolding has_event_fields data_value lower_hex_text content_text kind_number normalize_tags
normalize_entries es = do
  guard (has_event_fields es)
  raw_content ← data_value (name (lit "content")) es
  raw_created_at ← data_value (name (lit "created_at")) es
  raw_id ← data_value (name (lit "id")) es
  raw_kind ← data_value (name (lit "kind")) es
  raw_pubkey ← data_value (name (lit "pubkey")) es
  raw_sig ← data_value (name (lit "sig")) es
  raw_tags ← data_value (name (lit "tags")) es
  id ← lower_hex_text 64 raw_id
  pubkey ← lower_hex_text 64 raw_pubkey
  sig ← lower_hex_text 128 raw_sig
  created_at ← safe_natural raw_created_at
  kind ← kind_number raw_kind
  content ← content_text raw_content
  tags ← normalize_tags raw_tags
  some record {
    id = id;
    pubkey = pubkey;
    created_at = created_at;
    kind = kind;
    tags = tags;
    content = content;
    sig = sig;
  }

unfoldable pub normalize_wire_event : Value → Option Event
unfolding normalize_entries
normalize_wire_event (object standard ps) = normalize_entries (entries ps)
normalize_wire_event (object without ps) = normalize_entries (entries ps)
normalize_wire_event _ = none

-- JSON.stringify([0, pubkey, created_at, kind, tags, content])
unfoldable pub serialized_event : Event → Text
unfolding decimal quoted
serialized_event event = bracketed (
    decimal 0
    ∷ quoted event.pubkey
    ∷ decimal event.created_at
    ∷ decimal event.kind
    ∷ bracketed (map (λ tag. bracketed (map quoted tag)) event.tags)
    ∷ quoted event.content
    ∷ [])

unfoldable pub serialized_event_bytes : Event → Option (List ℕ)
unfolding serialized_event utf8
serialized_event_bytes event =
    let bytes = utf8 (serialized_event event) in
    when (leb (length bytes) max_event_bytes) (some bytes)
