-- ===== src/Messages/Routing.antt =====
-- The request that asks for the routing of a message, src/server/message-routing-request-v1.mjs.
pub mod Request
use hodlxxi_social.Prelude.{
  ℕ, zero, suc, ◌+◌, ◌*◌, ◌≤◌, ◌<◌, ◌≡◌, refl, sym, ap, ◌∙◌, subst, Bool, true, false, not, ◌&&◌,
  Option, none, some, List, [], ◌∷◌, ◌++◌, map, ++_assoc, ltb, leb, length, drop, all, All, when,
  ◌>>=◌, ◌>>◌, guard, arith, length-append, >>=-eq-some, guard-eq-some, when-eq-some,
  tested-eq-some,
}
use hodlxxi_social.Js.Text.{Text, lit, ◌===◌, ===_self, is_lower_hex}
use hodlxxi_social.Js.Value.{
  Value, Number, number, nat, string, object, array, boolean, name, entries, descriptor, is_true,
}
use hodlxxi_social.Js.Record.Laws.{record_value, array_value}
use hodlxxi_social.Js.Parse.{json_parse, put, key_of}
use hodlxxi_social.Nostr.Json.{decimal, quoted, bracketed}
use hodlxxi_social.Capability.Random.{base64url}
use hodlxxi_social.Capability.Random.Decoding.{decode}
use hodlxxi_social.Messages.Envelope.{Envelope}
use hodlxxi_social.Messages.Envelope.Shape.{IsHandle, IsEnvelope}
use hodlxxi_social.Messages.Envelope.Shape.Acceptance.{envelope_value}
use hodlxxi_social.Messages.Wire.{
  WireInput, text, parse_wire, digest_envelope, serialize_normalized,
}

abbrev pub max_request_bytes : ℕ
max_request_bytes = 2048

abbrev holds_true : Option Value → Bool
holds_true none = false
holds_true (some v) = is_true v

-- An own data property `enabled`, enumerable or not, that is true.
unfoldable pub routing_enabled : Value → Bool
unfolding descriptor
routing_enabled (object _ ps) =
    holds_true (do e ← descriptor (name (lit "enabled")) (entries ps); e.content)
routing_enabled (array _ _ ps) =
    holds_true (do e ← descriptor (name (lit "enabled")) (entries ps); e.content)
routing_enabled _ = false

-- Node's decoder and encoder give the handle back.
unfoldable pub is_canonical_handle : Text → Bool
unfolding decode
is_canonical_handle t = base64url (decode (drop 2 t)) === drop 2 t

-- JSON.stringify of the request
unfoldable pub request_text : Text → Envelope → Text
unfolding quoted decimal
request_text digest e =
    lit "{\"envelopeDigest\":"
    ++ (quoted digest
        ++ (lit ",\"messageId\":"
            ++ (quoted e.message_id
                ++ (lit ",\"recipientDeviceHandles\":"
                    ++ (bracketed (map quoted e.handles)
                        ++ (lit ",\"recipientPackageSnapshotId\":"
                            ++ (quoted e.snapshot_id
                                ++ lit
                                    ",\"schema\":\"hodlxxi.social_messaging_recipient_routing_request.v1\",\"version\":1}")))))))

-- The envelope that is hashed is the one that was parsed.
unfoldable pub routing_request : (Text → Number) → (List ℕ → Text) → WireInput → Value → Option Text
unfolding parse_wire digest_envelope request_text
routing_request real sha256 wire options = do
  guard (routing_enabled options)
  envelope ← parse_wire real wire
  guard (all is_canonical_handle envelope.handles)
  digest ← digest_envelope sha256 (envelope_value envelope)
  let request = request_text digest envelope
  when (not (ltb max_request_bytes (length request))) (some request)
