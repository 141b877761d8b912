-- ===== src/Messages/Admission.antt =====
-- The candidate requests and challenges of src/server/messaging-device-admission-v1.mjs.
--
-- `real` is how JSON.parse reads the numerals that are no decimals up to 2 ^ 53 - 1, `hostname` is that
-- of `new URL(text)`, and `sha256` answers hexadecimal.
pub mod Audience
pub mod Challenge
pub mod Inspection
pub mod Printed
pub mod Reading
pub mod Creation
pub mod Rendered
pub mod Requests
pub mod Binding
use hodlxxi_social.Prelude.{
  ℕ, ◌+◌, Bool, true, false, not, ◌&&◌, ◌||◌, Option, none, some, List, [], ◌∷◌, ◌++◌, map, ◌==◌,
  ltb, leb, if◌then◌else◌, length, drop, all, when, ◌>>=◌, ◌>>◌, guard,
}
use hodlxxi_social.Js.Text.{Text, lit, ◌===◌, starts_with, in_range, is_lower_hex}
use hodlxxi_social.Js.Value.{
  Value, Number, null, number, nat, string, as_string, is_text, safe_natural, max_safe_integer,
}
use hodlxxi_social.Js.Record.{Fields, property}
use hodlxxi_social.Js.Parse.{json_parse}
use hodlxxi_social.Nostr.Json.{decimal, quoted}
use hodlxxi_social.Sessions.Store.Mobile.{is_hex64}
use hodlxxi_social.Sessions.Native.Responses.{own}
use hodlxxi_social.Messages.Envelope.{text_less, is_device_handle}
use hodlxxi_social.Messages.Wire.{WireInput, text, parse_wire}
use hodlxxi_social.Messages.Routing.{routing_enabled, is_canonical_handle}
use Audience.{is_canonical_audience, is_path}

abbrev pub max_challenge_lifetime : ℕ
max_challenge_lifetime = 60_000

abbrev pub request_schema : Text
request_schema = lit "hodlxxi.social_messaging_device_request_candidate.v1"

abbrev pub challenge_schema : Text
challenge_schema = lit "hodlxxi.social_messaging_device_challenge_candidate.v1"

abbrev pub recipient_self_schema : Text
recipient_self_schema = lit "hodlxxi.social_messaging_recipient_self_request.v1"

abbrev pub challenge_domain : Text
challenge_domain = lit "HODLXXI_SOCIAL_MESSAGING_DEVICE_REQUEST_CHALLENGE_V1"

abbrev pub context_fields : List Text
context_fields =
    map lit
      ("audience" ∷ "bindingId" ∷ "bindingVersion" ∷ "deviceId" ∷ "sessionBinding" ∷ "subject" ∷ [])

abbrev pub request_fields : List Text
request_fields =
    context_fields
    ++ map lit (
        "bodyDigest" ∷ "method" ∷ "operation" ∷ "path" ∷ "recipientHandle" ∷ "schema" ∷ "version"
        ∷ [])

abbrev pub challenge_fields : List Text
challenge_fields =
    map lit
      ("challengeId" ∷ "domain" ∷ "expiresAt" ∷ "issuedAt" ∷ "request" ∷ "schema" ∷ "version" ∷ [])

-- JSON.stringify of a string, a natural number up to 2 ^ 53 - 1 or null. Fields of other values are
-- refused by each caller of `parse_fields`.
unfoldable pub printed : Value → Option Text
unfolding quoted decimal
printed (string t) = some (quoted t)
printed (number (nat n)) = when (leb n max_safe_integer) (some (decimal n))
printed null = some (lit "null")
printed _ = none

unfoldable pub insert_sorted : Text × Value → Fields → Fields
unfolding text_less
insert_sorted f [] = f ∷ []
insert_sorted f (g ∷ gs) = elim (text_less f.0 g.0) [
  | true ↦ f ∷ g ∷ gs
  | false ↦ g ∷ insert_sorted f gs
]

-- Object.keys(value).sort()
unfoldable pub sorted : Fields → Fields
unfolding insert_sorted
sorted [] = []
sorted (f ∷ fs) = insert_sorted f (sorted fs)

-- The members after the first, each after a comma, and the end.
unfoldable pub print_members : Fields → Option Text
unfolding printed
print_members [] = some (lit "}")
print_members ((k, v) ∷ fs) = do
  t ← printed v
  rest ← print_members fs
  some (b',' ∷ quoted k ++ (b':' ∷ t ++ rest))

-- JSON.stringify(value, Object.keys(value).sort()) of a record that has a field
unfoldable pub canonical : Fields → Option Text
unfolding sorted print_members
canonical fs = do members ← print_members (sorted fs); some (b'{' ∷ drop 1 members)

abbrev pub is_same : Option Text → Text → Bool
is_same none wire = false
is_same (some t) wire = t === wire

abbrev pub is_version : Value → Bool
is_version (number (nat n)) = leb 1 n && leb n 1024
is_version _ = false

unfoldable pub is_handle : Value → Bool
unfolding is_device_handle is_canonical_handle
is_handle (string t) = is_device_handle t && is_canonical_handle t
is_handle _ = false

abbrev pub is_path_value : Value → Bool
is_path_value (string t) = is_path t
is_path_value _ = false

-- /^hodlxxi-social-device-request-body-v1-sha256:[0-9a-f]{64}$/
unfoldable pub is_body_digest : Value → Bool
unfolding starts_with
is_body_digest (string t) =
    starts_with t (lit "hodlxxi-social-device-request-body-v1-sha256:")
    && length t == 109
    && all is_lower_hex (drop 45 t)
is_body_digest _ = false

abbrev is_null : Value → Bool
is_null null = true
is_null _ = false

abbrev pub is_one : Value → Bool
is_one (number (nat n)) = n == 1
is_one _ = false

-- A recipient's handle for one operation, none for the other.
unfoldable pub is_operation : Value → Value → Bool
unfolding is_handle
is_operation operation recipient =
    if is_text (lit "ciphertext-submit") operation
    then is_null recipient
    else is_text (lit "recipient-self-read") operation && is_handle recipient

module _ (hostname : Text → Option Text) where
  abbrev pub is_audience : Value → Bool
  is_audience (string t) = is_canonical_audience hostname t
  is_audience _ = false

  unfoldable pub is_context : Fields → Bool
  unfolding property is_canonical_audience
  is_context r =
      is_hex64 (property (some r) (lit "bindingId"))
      && is_hex64 (property (some r) (lit "deviceId"))
      && is_hex64 (property (some r) (lit "sessionBinding"))
      && is_hex64 (property (some r) (lit "subject"))
      && is_version (property (some r) (lit "bindingVersion"))
      && is_audience (property (some r) (lit "audience"))

  unfoldable pub is_request : Fields → Bool
  unfolding is_context property is_path is_body_digest is_operation
  is_request r =
      is_context r
      && is_text request_schema (property (some r) (lit "schema"))
      && is_one (property (some r) (lit "version"))
      && is_text (lit "POST") (property (some r) (lit "method"))
      && is_path_value (property (some r) (lit "path"))
      && is_body_digest (property (some r) (lit "bodyDigest"))
      && is_operation (property (some r) (lit "operation"))
          (property (some r) (lit "recipientHandle"))

module _ (real : Text → Number) where
  unfoldable pub parse_fields : Value → List Text → ℕ → Option Fields
  unfolding json_parse own canonical
  parse_fields wire fields maximum = do
    t ← as_string wire
    guard (leb (length t) maximum && all (in_range 0x20 0x7e) t)
    value ← json_parse real t
    r ← own value fields
    guard (is_same (canonical r) t)
    some r

  -- The handle that a reader's body names.
  unfoldable pub read_recipient : Text → Option Value
  unfolding parse_fields property is_handle
  read_recipient body = do
    r ← parse_fields (string body) (map lit ("deviceHandle" ∷ "schema" ∷ "version" ∷ [])) 256
    guard (is_text recipient_self_schema (property (some r) (lit "schema")))
    guard (is_one (property (some r) (lit "version")))
    guard (is_handle (property (some r) (lit "deviceHandle")))
    some (property (some r) (lit "deviceHandle"))

  -- The handle that the body names, null for an envelope.
  unfoldable pub body_recipient : Value → Text → Option Value
  unfolding parse_wire read_recipient
  body_recipient operation body =
      if is_text (lit "ciphertext-submit") operation
      then (parse_wire real (text body) >>= λ envelope. some null)
      else (guard (is_text (lit "recipient-self-read") operation) >> read_recipient body)

module _ (real : Text → Number) (hostname : Text → Option Text) where
  unfoldable pub request : Value → Option Fields
  unfolding parse_fields is_request
  request wire = do
    r ← parse_fields real wire request_fields 2048
    guard (is_request hostname r)
    some r

  unfoldable pub create_request :
      (List ℕ → Text) → (context operation method path body options : Value) → Option Text
  unfolding routing_enabled is_path parse_fields is_context body_recipient canonical request
  create_request sha256 context operation method path body options = do
    guard (routing_enabled options)
    guard (is_text (lit "POST") method && is_path_value path)
    r ← parse_fields real context context_fields 1024
    guard (is_context hostname r)
    b ← as_string body
    recipient ← body_recipient real operation b
    wire ← canonical (
        r
        ++ ((
          lit "bodyDigest",
          string (
              lit "hodlxxi-social-device-request-body-v1-sha256:"
              ++ sha256 (lit "HODLXXI_SOCIAL_DEVICE_REQUEST_BODY_V1" ++ (0 ∷ b))),
        )
            ∷ (lit "method", method)
            ∷ (lit "operation", operation)
            ∷ (lit "path", path)
            ∷ (lit "recipientHandle", recipient)
            ∷ (lit "schema", string request_schema)
            ∷ (lit "version", number (nat 1))
            ∷ []))
    accepted ← request (string wire)
    some wire

  unfoldable pub parse_request : (wire options : Value) → Option Fields
  unfolding routing_enabled request
  parse_request wire options = do guard (routing_enabled options); request wire
