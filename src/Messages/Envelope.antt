-- ===== src/Messages/Envelope.antt =====
-- The ciphertext envelope of src/server/message-envelope-v128f1.mjs and its normalizer.
--
-- A proxy is an `exotic` value here, and Object.prototype and Array.prototype have no enumerable
-- property of their own, which is what the loops over inherited keys look for.
pub mod Shape
use hodlxxi_social.Prelude.{
  ℕ, zero, suc, ◌+◌, ◌*◌, ◌/◌, Bool, true, false, not, ◌&&◌, ◌||◌, Option, none, some, List, [],
  ◌∷◌, map, ◌==◌, ltb, leb, length, drop, all, any, when, ◌>>=◌, ◌>>◌, guard,
}
use hodlxxi_social.Js.Text.{Text, lit, ◌===◌, starts_with, is_lower_hex, is_base64url_char}
use hodlxxi_social.Js.Value.{
  Value, number, nat, string, array, standard, Entry, Key, index, entries, as_string, is_text,
}
use hodlxxi_social.Js.Record.{Fields, exact_record, property, is_some, dense_items}
use hodlxxi_social.Capability.Random.{base64url}
use hodlxxi_social.Capability.Random.Decoding.{decode}

abbrev pub envelope_schema : Text
envelope_schema = lit "hodlxxi.social_message_envelope.v1"

abbrev pub envelope_version : ℕ
envelope_version = 1

abbrev pub envelope_suite : Text
envelope_suite = lit "hodlxxi-hpke-x25519-hkdfsha256-aes128gcm-aes256gcm-v1"

abbrev pub body_algorithm : Text
body_algorithm = lit "aes-256-gcm"

abbrev pub key_wrap_algorithm : Text
key_wrap_algorithm = lit "hpke-base-x25519-hkdfsha256-aes128gcm-v1"

abbrev pub max_recipient_devices : ℕ
max_recipient_devices = 16

abbrev pub top_level_fields : List Text
top_level_fields = map lit (
    "schema" ∷ "version" ∷ "suite" ∷ "messageId" ∷ "recipientPackageSnapshotId"
    ∷ "recipientDeviceHandles" ∷ "body" ∷ "keyWraps" ∷ [])

abbrev pub body_fields : List Text
body_fields = map lit ("algorithm" ∷ "nonce" ∷ "ciphertext" ∷ [])

abbrev pub wrap_fields : List Text
wrap_fields = map lit ("deviceHandle" ∷ "algorithm" ∷ "enc" ∷ "ciphertext" ∷ [])

pub record Body : Type 0 where
  pub algorithm : Text
  pub nonce : Text
  pub ciphertext : Text

pub record KeyWrap : Type 0 where
  pub device_handle : Text
  pub algorithm : Text
  pub enc : Text
  pub ciphertext : Text

pub record Envelope : Type 0 where
  pub schema : Text
  pub version : ℕ
  pub suite : Text
  pub message_id : Text
  pub snapshot_id : Text
  pub handles : List Text
  pub body : Body
  pub key_wraps : List KeyWrap

-- an index below the length, enumerable, with a value
unfoldable pub is_item : ℕ → Entry → Bool
is_item n e = elim e.key [ index i ↦ ltb i n && e.enumerable && is_some e.content | _ ↦ false ]

-- An array's own `length` is never enumerable and holds the length.
unfoldable pub exact_array : Value → ℕ → ℕ → Option (List Value)
unfolding is_item dense_items
exact_array (array standard n ps) minimum maximum =
    when
      (not (ltb n minimum)
        && not (ltb maximum n)
        && length (entries ps) == n
        && all (is_item n) (entries ps))
      (dense_items n 0 (entries ps))
exact_array _ minimum maximum = none

-- Math.ceil(bytes * 4 / 3)
abbrev pub encoded_length : ℕ → ℕ
encoded_length bytes = (4 * bytes + 2) / 3

unfoldable pub canonical_base64url : Value → ℕ → ℕ → Option Text
unfolding decode
canonical_base64url v minimum maximum = do
  t ← as_string v
  guard (not (ltb (length t) (encoded_length minimum)))
  guard (not (ltb (encoded_length maximum) (length t)))
  guard (leb 1 (length t) && all is_base64url_char t && not (any (λ c. c == b'=') t))
  let decoded = decode t
  guard (not (ltb (length decoded) minimum) && not (ltb maximum (length decoded)))
  guard (base64url decoded === t)
  some t

-- /^m_[A-Za-z0-9_-]{43}$/
unfoldable pub is_message_id : Text → Bool
unfolding starts_with
is_message_id t = starts_with t (lit "m_") && length t == 45 && all is_base64url_char (drop 2 t)

-- /^sha256:[0-9a-f]{64}$/
unfoldable pub is_snapshot_id : Text → Bool
unfolding starts_with
is_snapshot_id t = starts_with t (lit "sha256:") && length t == 71 && all is_lower_hex (drop 7 t)

-- /^d_[A-Za-z0-9_-]{22}$/
unfoldable pub is_device_handle : Text → Bool
unfolding starts_with
is_device_handle t = starts_with t (lit "d_") && length t == 24 && all is_base64url_char (drop 2 t)

-- `<` on strings compares their code units.
unfoldable pub text_less : Text → Text → Bool
text_less s [] = false
text_less [] (b ∷ t) = true
text_less (a ∷ s) (b ∷ t) = ltb a b || (a == b && text_less s t)

unfoldable pub follows : Option Text → Text → Bool
unfolding text_less
follows none t = true
follows (some previous) t = text_less previous t

-- The loop over the handles.
unfoldable pub check_handles : Option Text → List Value → Option (List Text)
unfolding is_device_handle follows canonical_base64url
check_handles previous [] = some []
check_handles previous (v ∷ vs) = do
  handle ← as_string v
  guard (is_device_handle handle && follows previous handle)
  checked ← canonical_base64url (string (drop 2 handle)) 16 16
  rest ← check_handles (some handle) vs
  some (handle ∷ rest)

unfoldable pub check_wrap : Text → Value → Option KeyWrap
unfolding exact_record property canonical_base64url
check_wrap handle v = do
  wrap ← exact_record v wrap_fields
  guard (is_text handle (property (some wrap) (lit "deviceHandle")))
  guard (is_text key_wrap_algorithm (property (some wrap) (lit "algorithm")))
  enc ← canonical_base64url (property (some wrap) (lit "enc")) 32 32
  ciphertext ← canonical_base64url (property (some wrap) (lit "ciphertext")) 48 48
  some (record {
    device_handle = handle;
    algorithm = key_wrap_algorithm;
    enc = enc;
    ciphertext = ciphertext;
  })

-- The two arrays have the same length where this is called.
unfoldable pub check_wraps : List Text → List Value → Option (List KeyWrap)
unfolding check_wrap
check_wraps [] [] = some []
check_wraps (handle ∷ handles) (v ∷ vs) = do
  wrap ← check_wrap handle v
  rest ← check_wraps handles vs
  some (wrap ∷ rest)
check_wraps _ _ = none

unfoldable pub check_body : Value → Option Body
unfolding exact_record property canonical_base64url
check_body v = do
  body ← exact_record v body_fields
  guard (is_text body_algorithm (property (some body) (lit "algorithm")))
  nonce ← canonical_base64url (property (some body) (lit "nonce")) 12 12
  ciphertext ← canonical_base64url (property (some body) (lit "ciphertext")) 17 16_400
  some (record { algorithm = body_algorithm; nonce = nonce; ciphertext = ciphertext })

-- v === 1
abbrev pub is_number : ℕ → Value → Bool
is_number n (number (nat m)) = m == n
is_number n _ = false

-- The message and snapshot ids of a record whose schema, version and suite are the current ones.
unfoldable pub check_ids : Fields → Option (Text × Text)
unfolding property is_message_id is_snapshot_id canonical_base64url
check_ids r = do
  guard (is_text envelope_schema (property (some r) (lit "schema")))
  guard (is_number envelope_version (property (some r) (lit "version")))
  guard (is_text envelope_suite (property (some r) (lit "suite")))
  message_id ← as_string (property (some r) (lit "messageId"))
  guard (is_message_id message_id)
  snapshot_id ← as_string (property (some r) (lit "recipientPackageSnapshotId"))
  guard (is_snapshot_id snapshot_id)
  checked ← canonical_base64url (string (drop 2 message_id)) 32 32
  some (message_id, snapshot_id)

unfoldable pub normalize_envelope : Value → Option Envelope
unfolding exact_record property check_ids exact_array check_handles check_body check_wraps
normalize_envelope v = do
  r ← exact_record v top_level_fields
  (message_id, snapshot_id) ← check_ids r
  handle_values ←
      exact_array (property (some r) (lit "recipientDeviceHandles")) 1 max_recipient_devices
  handles ← check_handles none handle_values
  body ← check_body (property (some r) (lit "body"))
  wrap_values ← exact_array (property (some r) (lit "keyWraps")) (length handles) (length handles)
  wraps ← check_wraps handles wrap_values
  some (record {
    schema = envelope_schema;
    version = envelope_version;
    suite = envelope_suite;
    message_id = message_id;
    snapshot_id = snapshot_id;
    handles = handles;
    body = body;
    key_wraps = wraps;
  })
