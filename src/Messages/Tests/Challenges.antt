-- ===== src/Messages/Tests/Challenges.antt =====
-- Tests and concrete runs of the candidate requests and challenges.
use hodlxxi_social.Prelude.{
  ℕ, ◌+◌, ◌≤◌, ◌<◌, ◌≡◌, refl, true, false, Option, none, some, [], ◌∷◌, ◌++◌, length, replicate,
  arith,
}
use hodlxxi_social.Js.Text.{Text, lit, ◌===◌}
use hodlxxi_social.Js.Value.{number, nat, string, safe_natural}
use hodlxxi_social.Js.Record.{Fields, property}
use hodlxxi_social.Nostr.Json.{quoted}
use hodlxxi_social.Capability.Random.{base64url}
use hodlxxi_social.Messages.Routing.{routing_enabled}
use hodlxxi_social.Messages.Admission.Audience.{is_canonical_audience}
use hodlxxi_social.Messages.Admission.{request, body_recipient, create_request}
use hodlxxi_social.Messages.Admission.Challenge.{create_challenge, inspect}
use hodlxxi_social.Messages.Admission.Binding.{body_digest, create_request-binds}
use hodlxxi_social.Messages.Admission.Inspection.{inspect-once}
use hodlxxi_social.Messages.Admission.Printed.{challenge_record}
use hodlxxi_social.Messages.Admission.Reading.{inspect-create_challenge}
use hodlxxi_social.Messages.Admission.Creation.{create_challenge_total}
use hodlxxi_social.Messages.Tests.Samples.{no_numeral, enabled_options, zero_hash}

abbrev zeros : Text
zeros = replicate 64 b'0'

-- No literal IPv6 address is one that `new URL` would write.
abbrev no_address : Text → Option Text
no_address t = none

abbrev context_text : Text
context_text =
    lit "{\"audience\":\"https://a.example\",\"bindingId\":"
    ++ quoted zeros
    ++ lit ",\"bindingVersion\":1,\"deviceId\":"
    ++ quoted zeros
    ++ lit ",\"sessionBinding\":"
    ++ quoted zeros
    ++ lit ",\"subject\":"
    ++ quoted zeros
    ++ lit "}"

abbrev read_text : Text
read_text =
    lit "{\"deviceHandle\":\"d_AAAAAAAAAAAAAAAAAAAAAA\","
    ++ lit "\"schema\":\"hodlxxi.social_messaging_recipient_self_request.v1\",\"version\":1}"

abbrev request_wire : Text
request_wire =
    lit "{\"audience\":\"https://a.example\",\"bindingId\":"
    ++ quoted zeros
    ++ lit ",\"bindingVersion\":1,\"bodyDigest\":\"hodlxxi-social-device-request-body-v1-sha256:"
    ++ zeros
    ++ lit "\",\"deviceId\":"
    ++ quoted zeros
    ++ lit ",\"method\":\"POST\",\"operation\":\"recipient-self-read\",\"path\":\"/api/read\","
    ++ lit "\"recipientHandle\":\"d_AAAAAAAAAAAAAAAAAAAAAA\","
    ++ lit "\"schema\":\"hodlxxi.social_messaging_device_request_candidate.v1\","
    ++ lit "\"sessionBinding\":"
    ++ quoted zeros
    ++ lit ",\"subject\":"
    ++ quoted zeros
    ++ lit ",\"version\":1}"

audiences :
    (is_canonical_audience no_address (lit "https://a.example:8080") ≡ true)
    × (is_canonical_audience no_address (lit "https://a.example:443") ≡ false)
    × (is_canonical_audience no_address (lit "https://127.0.0.1") ≡ true)
    × (is_canonical_audience no_address (lit "https://127.0.0.01") ≡ false)
    × (is_canonical_audience no_address (lit "https://a.0x1") ≡ false)
    × (is_canonical_audience no_address (lit "https://xn--a.example") ≡ false)
    × (is_canonical_audience no_address (lit "https://[::1]") ≡ false)
    × (is_canonical_audience (λ t. some (lit "[::1]")) (lit "https://[::1]") ≡ true)
unfolding is_canonical_audience ◌===◌
audiences = (refl, refl, refl, refl, refl, refl, refl, refl)

request_short : length request_wire ≤ 1800
unfolding quoted
request_short = omega arith

request_made :
    create_request no_numeral no_address zero_hash
      (string context_text)
      (string (lit "recipient-self-read"))
      (string (lit "POST"))
      (string (lit "/api/read"))
      (string read_text)
      enabled_options
    ≡ some request_wire
unfolding create_request quoted base64url
request_made = refl

create_request-binds_example :
    (b : Text) × (r : Fields) × (string read_text ≡ string b)
    × (request no_numeral no_address (string request_wire) ≡ some r)
    × (property (some r) (lit "bodyDigest") ≡ string (body_digest zero_hash b))
    × (property (some r) (lit "operation") ≡ string (lit "recipient-self-read"))
    × (property (some r) (lit "path") ≡ string (lit "/api/read"))
    × (body_recipient no_numeral (string (lit "recipient-self-read")) b
        ≡ some (property (some r) (lit "recipientHandle")))
create_request-binds_example =
    create_request-binds no_numeral no_address zero_hash (string context_text)
      (string (lit "recipient-self-read")) (string (lit "POST")) (string (lit "/api/read"))
      (string read_text) enabled_options request_wire (λ x. (refl, refl)) request_made

abbrev request_record : Fields
request_record =
    (lit "audience", string (lit "https://a.example"))
    ∷ (lit "bindingId", string zeros)
    ∷ (lit "bindingVersion", number (nat 1))
    ∷ (lit "deviceId", string zeros)
    ∷ (lit "sessionBinding", string zeros)
    ∷ (lit "subject", string zeros)
    ∷ (lit "bodyDigest", string (lit "hodlxxi-social-device-request-body-v1-sha256:" ++ zeros))
    ∷ (lit "method", string (lit "POST"))
    ∷ (lit "operation", string (lit "recipient-self-read"))
    ∷ (lit "path", string (lit "/api/read"))
    ∷ (lit "recipientHandle", string (lit "d_AAAAAAAAAAAAAAAAAAAAAA"))
    ∷ (lit "schema", string (lit "hodlxxi.social_messaging_device_request_candidate.v1"))
    ∷ (lit "version", number (nat 1))
    ∷ []

request_accepted : request no_numeral no_address (string request_wire) ≡ some request_record
unfolding request quoted base64url
request_accepted = refl

enabled : routing_enabled enabled_options ≡ true
unfolding routing_enabled
enabled = refl

challenge_created :
    (wire : Text) × (create_challenge no_numeral no_address
        (string request_wire)
        (string zeros)
        (number (nat 1000))
        (number (nat 61_000))
        enabled_options
      ≡ some wire)
    × (length wire ≤ 4096)
challenge_created =
    create_challenge_total no_numeral no_address request_wire zeros 1000 61_000 request_record
      enabled_options enabled request_accepted request_short refl (omega arith) (omega arith)
      (omega arith)

create_challenge_total_example :
    (wire : Text) × (create_challenge no_numeral no_address
        (string request_wire)
        (string zeros)
        (number (nat 0))
        (number (nat 1))
        enabled_options
      ≡ some wire)
    × (length wire ≤ 4096)
create_challenge_total_example =
    create_challenge_total no_numeral no_address request_wire zeros 0 1 request_record
      enabled_options enabled request_accepted request_short refl (omega arith) (omega arith)
      (omega arith)

abbrev challenge_wire : Text
challenge_wire = challenge_created.0

inspect-create_challenge_example :
    inspect no_numeral no_address
      (string challenge_wire)
      (string request_wire)
      (number (nat 60_999))
      enabled_options
    ≡ some (challenge_record request_wire zeros 1000 61_000)
inspect-create_challenge_example =
    inspect-create_challenge no_numeral no_address request_wire zeros 1000 61_000 60_999
      enabled_options challenge_wire challenge_created.1 (omega arith) (omega arith)

inspected_again :
    inspect no_numeral no_address
      (string challenge_wire)
      (string request_wire)
      (number (nat 1000))
      enabled_options
    ≡ some (challenge_record request_wire zeros 1000 61_000)
inspected_again =
    inspect-create_challenge no_numeral no_address request_wire zeros 1000 61_000 1000
      enabled_options challenge_wire challenge_created.1 (omega arith) (omega arith)

inspected_late :
    inspect no_numeral no_address
      (string challenge_wire)
      (string request_wire)
      (number (nat 60_999))
      enabled_options
    ≡ some (challenge_record request_wire zeros 1000 61_000)
inspected_late =
    inspect-create_challenge no_numeral no_address request_wire zeros 1000 61_000 60_999
      enabled_options challenge_wire challenge_created.1 (omega arith) (omega arith)

inspect-once_example :
    (string request_wire ≡ string request_wire)
    × (challenge_record request_wire zeros 1000 61_000
        ≡ challenge_record request_wire zeros 1000 61_000)
    × (at : ℕ) × (at2 : ℕ) × (safe_natural (number (nat 1000)) ≡ some at)
    × (safe_natural (number (nat 60_999)) ≡ some at2)
    × (at2 < at + 60_000)
    × (at < at2 + 60_000)
inspect-once_example =
    inspect-once no_numeral no_address (string challenge_wire) (string request_wire)
      (string request_wire) (number (nat 1000)) (number (nat 60_999)) enabled_options
      enabled_options (challenge_record request_wire zeros 1000 61_000)
      (challenge_record request_wire zeros 1000 61_000) inspected_again inspected_late
