-- ===== src/Messages/Wire.antt =====
-- The canonical wire of an envelope, its reading and its digest
-- (src/server/message-envelope-v128f1.mjs).
pub mod Shown
pub mod Printed
pub mod Bounds
pub mod Canonical
use hodlxxi_social.Prelude.{
  ℕ, ◌≡◌, Bool, true, false, not, Option, none, some, List, [], ◌∷◌, ◌++◌, map, ltb, leb, length,
  all, any, when, ◌>>=◌, ◌>>◌, guard,
}
use hodlxxi_social.Js.Text.{Text, lit, ◌===◌}
use hodlxxi_social.Js.Value.{Value, Number}
use hodlxxi_social.Js.Parse.{json_parse}
use hodlxxi_social.Nostr.Json.{decimal, quoted, bracketed}
use hodlxxi_social.Messages.Envelope.{Body, KeyWrap, Envelope, normalize_envelope}

abbrev pub max_wire_bytes : ℕ
max_wire_bytes = 32_768

abbrev pub digest_domain : Text
digest_domain = lit "HODLXXI_SOCIAL_MESSAGE_ENVELOPE_DIGEST_V1"

unfoldable pub serialize_wrap : KeyWrap → Text
unfolding quoted
serialize_wrap w =
    lit "{\"deviceHandle\":"
    ++ (quoted w.device_handle
        ++ (lit ",\"algorithm\":"
            ++ (quoted w.algorithm
                ++ (lit ",\"enc\":"
                    ++ (quoted w.enc
                        ++ (lit ",\"ciphertext\":" ++ (quoted w.ciphertext ++ lit "}")))))))

unfoldable pub serialize_body : Body → Text
unfolding quoted
serialize_body b =
    lit "{\"algorithm\":"
    ++ (quoted b.algorithm
        ++ (lit ",\"nonce\":"
            ++ (quoted b.nonce ++ (lit ",\"ciphertext\":" ++ (quoted b.ciphertext ++ lit "}")))))

unfoldable pub serialize_normalized : Envelope → Text
unfolding quoted decimal serialize_body serialize_wrap
serialize_normalized e =
    lit "{\"schema\":"
    ++ (quoted e.schema
        ++ (lit ",\"version\":"
            ++ (decimal e.version
                ++ (lit ",\"suite\":"
                    ++ (quoted e.suite
                        ++ (lit ",\"messageId\":"
                            ++ (quoted e.message_id
                                ++ (lit ",\"recipientPackageSnapshotId\":"
                                    ++ (quoted e.snapshot_id
                                        ++ (lit ",\"recipientDeviceHandles\":"
                                            ++ (bracketed (map quoted e.handles)
                                                ++ (lit ",\"body\":"
                                                    ++ (serialize_body e.body
                                                        ++ (lit ",\"keyWraps\":"
                                                            ++ (bracketed
                                                            (map serialize_wrap e.key_wraps)
                                                            ++ lit "}")))))))))))))))

unfoldable pub serialize_canonical : Value → Option Text
unfolding normalize_envelope serialize_normalized
serialize_canonical v = do e ← normalize_envelope v; some (serialize_normalized e)

-- What is given as a wire: a string, a Uint8Array or a Buffer, or anything else.
pub data WireInput : Type 0 where
  text : Text → WireInput
  bytes : List ℕ → WireInput
  neither : WireInput

-- The ASCII of bytes below 0x80 is the same list.
unfoldable pub bounded_ascii_wire : WireInput → Option Text
bounded_ascii_wire (text t) =
    when (not (ltb max_wire_bytes (length t))) (when (not (any (λ u. not (leb u 0x7f)) t)) (some t))
bounded_ascii_wire (bytes bs) =
    when (not (ltb max_wire_bytes (length bs))) (when (not (any (λ b. ltb 0x7f b) bs)) (some bs))
bounded_ascii_wire neither = none

unfoldable pub parse_wire : (Text → Number) → WireInput → Option Envelope
unfolding bounded_ascii_wire json_parse normalize_envelope serialize_normalized
parse_wire real input = do
  wire ← bounded_ascii_wire input
  value ← json_parse real wire
  envelope ← normalize_envelope value
  guard (serialize_normalized envelope === wire)
  some envelope

-- `sha256` answers the digest in hexadecimal.
unfoldable pub digest_envelope : (sha256 : List ℕ → Text) → Value → Option Text
unfolding normalize_envelope serialize_normalized
digest_envelope sha256 v = do
  e ← normalize_envelope v
  some (
      lit "hodlxxi-social-message-envelope-v1-sha256:"
      ++ sha256 (digest_domain ++ (0 ∷ serialize_normalized e)))
