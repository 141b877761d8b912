-- ===== src/Messages/Tests.antt =====
-- Tests and concrete runs of the envelope, its wire and its routing.
mod Samples
mod Challenges
use hodlxxi_social.Prelude.{
  ℕ, ◌≤◌, ◌≡◌, refl, ◌↔◌, ◌⊎◌, Bool, true, Option, none, some, List, [], ◌∷◌, ◌++◌, all, leb,
  length, arith, replicate, drop, ap,
}
use hodlxxi_social.Js.Text.{Text, lit}
use hodlxxi_social.Js.Value.{Value, Number, null, descriptor, data_value}
use hodlxxi_social.Js.Record.{property, pick}
use hodlxxi_social.Js.Parse.{json_parse}
use hodlxxi_social.Capability.Random.{base64url}
use hodlxxi_social.Messages.Envelope.{Envelope, normalize_envelope, top_level_fields}
use hodlxxi_social.Messages.Envelope.Shape.{IsEnvelope}
use hodlxxi_social.Messages.Envelope.Shape.Soundness.{normalize_envelope_sound}
use hodlxxi_social.Messages.Envelope.Shape.Acceptance.{
  envelope_value, normalize_envelope-envelope_value,
}
use hodlxxi_social.Messages.Wire.{
  WireInput, text, bytes, serialize_normalized, serialize_canonical, parse_wire, digest_envelope,
}
use hodlxxi_social.Messages.Wire.Bounds.{length-serialize}
use hodlxxi_social.Messages.Wire.Canonical.{
  parse_wire_iff, parse_wire_refuses, parse_wire-serialize_canonical, digest_envelope-injective,
}
use hodlxxi_social.Messages.Routing.{routing_request, routing_enabled, request_text}
use hodlxxi_social.Messages.Routing.Request.{
  IsHexDigest, envelope_digest, request_value, routing_request_made, routing_request-serialize,
  routing_request_sound,
}
use Samples.{zero_envelope, zero_envelope-IsEnvelope, zero_hash, no_numeral, enabled_options}

abbrev zero_wire : Text
zero_wire = serialize_normalized zero_envelope

parse_wire_iff_example :
    (parse_wire no_numeral (text zero_wire) ≡ some zero_envelope)
    ↔ (IsEnvelope zero_envelope × (serialize_normalized zero_envelope ≡ zero_wire))
parse_wire_iff_example = parse_wire_iff no_numeral zero_wire zero_envelope

zero_parsed : parse_wire no_numeral (text zero_wire) ≡ some zero_envelope
zero_parsed = (parse_wire_iff no_numeral zero_wire zero_envelope).1 (zero_envelope-IsEnvelope, refl)

zero_normalized : normalize_envelope (envelope_value zero_envelope) ≡ some zero_envelope
zero_normalized = normalize_envelope-envelope_value zero_envelope zero_envelope-IsEnvelope

normalize_envelope_sound_example : IsEnvelope zero_envelope
normalize_envelope_sound_example =
    normalize_envelope_sound (envelope_value zero_envelope) zero_envelope zero_normalized

normalize_envelope-envelope_value_example :
    normalize_envelope (envelope_value zero_envelope) ≡ some zero_envelope
normalize_envelope-envelope_value_example =
    normalize_envelope-envelope_value zero_envelope zero_envelope-IsEnvelope

-- No envelope is written as an empty object.
no_empty_wire : (e : Envelope) → IsEnvelope e → ¬ (serialize_normalized e ≡ lit "{}")
unfolding serialize_normalized
no_empty_wire e good h = absurd (two_or_more (ap (drop 2) h))
  where
    two_or_more : {c : ℕ} {t : Text} → c ∷ t ≡ [] → ⊥
    two_or_more f = cc

parse_wire_refuses_example :
    (parse_wire no_numeral (text (lit "{}")) ≡ none)
    × (parse_wire no_numeral (bytes (lit "{}")) ≡ none)
parse_wire_refuses_example = parse_wire_refuses no_numeral (lit "{}") no_empty_wire

zero_serialized : serialize_canonical (envelope_value zero_envelope) ≡ some zero_wire
unfolding serialize_canonical
zero_serialized = rw zero_normalized refl

parse_wire-serialize_canonical_example :
    parse_wire no_numeral (text zero_wire) ≡ normalize_envelope (envelope_value zero_envelope)
parse_wire-serialize_canonical_example =
    parse_wire-serialize_canonical no_numeral (envelope_value zero_envelope) zero_wire
      zero_serialized

length-serialize_example : (length zero_wire ≤ 27_000) × (all (λ u. leb u 0x7f) zero_wire ≡ true)
length-serialize_example = length-serialize zero_envelope zero_envelope-IsEnvelope

digest_envelope-injective_example :
    (zero_envelope ≡ zero_envelope)
    ⊎ ((x : List ℕ) × (y : List ℕ) × ¬ (x ≡ y) × (zero_hash x ≡ zero_hash y))
digest_envelope-injective_example =
    digest_envelope-injective zero_hash zero_envelope zero_envelope zero_envelope-IsEnvelope
      zero_envelope-IsEnvelope refl

zero_hash-IsHexDigest : IsHexDigest zero_hash
zero_hash-IsHexDigest x = (refl, refl)

options_enabled : routing_enabled enabled_options ≡ true
unfolding routing_enabled
options_enabled = refl

routing_request-serialize_example :
    (request : Text) × (routing_request no_numeral zero_hash (text zero_wire) enabled_options
      ≡ some request)
    × (length request ≤ 1100)
routing_request-serialize_example =
    routing_request-serialize no_numeral zero_hash zero_envelope enabled_options
      zero_hash-IsHexDigest zero_envelope-IsEnvelope options_enabled

abbrev zero_request : Text
zero_request = request_text (envelope_digest zero_hash zero_envelope) zero_envelope

zero_routed :
    routing_request no_numeral zero_hash (text zero_wire) enabled_options ≡ some zero_request
zero_routed =
    routing_request_made no_numeral zero_hash zero_envelope enabled_options zero_hash-IsHexDigest
      zero_envelope-IsEnvelope options_enabled

routing_request_sound_example :
    (routing_enabled enabled_options ≡ true)
    × ((e : Envelope) × (parse_wire no_numeral (text zero_wire) ≡ some e)
        × (json_parse no_numeral zero_request
            ≡ some (request_value (envelope_digest zero_hash e) e)))
routing_request_sound_example =
    routing_request_sound no_numeral zero_hash (text zero_wire) enabled_options zero_request
      zero_hash-IsHexDigest zero_routed
