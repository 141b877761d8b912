-- ===== src/Messages/Routing/Request.antt =====
-- The requests that are made, and what they hold.
use mathlib.Core.Option.{some-injective}
use hodlxxi_social.Prelude.{
  ℕ, ◌+◌, ◌≤◌, ◌≡◌, refl, sym, ap, ◌∙◌, subst, true, not, some, List, [], ◌∷◌, ◌++◌, map, ++_assoc,
  ltb, length, drop, all, All, guard, arith, length-append, >>=-eq-some, guard-eq-some,
  when-eq-some,
}
use hodlxxi_social.Js.Text.{Text, lit, ===_self, is_lower_hex}
use hodlxxi_social.Js.Value.{Value, Number, number, nat, string, array}
use hodlxxi_social.Js.Record.Laws.{record_value, array_value}
use hodlxxi_social.Js.Parse.{json_parse, put, key_of}
use hodlxxi_social.Nostr.Json.{quoted}
use hodlxxi_social.Messages.Envelope.{Envelope}
use hodlxxi_social.Messages.Envelope.Shape.{IsHandle, IsEnvelope}
use hodlxxi_social.Messages.Envelope.Shape.Acceptance.{envelope_value}
use hodlxxi_social.Messages.Wire.{WireInput, parse_wire, digest_envelope, serialize_normalized}
use hodlxxi_social.Js.Parse.Printed.{
  text, digit, array, record_of, Fields, no_more, entry, is_shown, IsShown, FieldsArePlain, render,
  value_of,
}
use hodlxxi_social.Js.Parse.Printed.Read.{json_parse-render}
use hodlxxi_social.Messages.Wire.Shown.{
  quote_units_shown, message_id-IsShown, snapshot_id-IsShown, IsShown-hex,
}
use hodlxxi_social.Js.Parse.Printed.Arrays.{bracketed-render}
use hodlxxi_social.Messages.Wire.Printed.{
  trees_of, handles_print, handle_trees-ArePlain, values-handles,
}
use hodlxxi_social.Messages.Wire.Bounds.{
  all-append, length-render, length-message_id, length-snapshot_id, size-handles, size-array,
}
use hodlxxi_social.Messages.Wire.Canonical.{
  digest_input, digest_envelope-envelope_value, parse_wire-IsEnvelope, parse_wire_iff,
}
use hodlxxi_social.Messages.Envelope.Shape.Acceptance.{encoded_facts}
use hodlxxi_social.Messages.Wire.{WireInput}
use hodlxxi_social.Messages.Routing.{
  max_request_bytes, routing_enabled, is_canonical_handle, request_text, routing_request,
}

abbrev pub envelope_digest : (List ℕ → Text) → Envelope → Text
envelope_digest sha256 e =
    lit "hodlxxi-social-message-envelope-v1-sha256:" ++ sha256 (digest_input e)

abbrev request_fields : Text → Envelope → Fields
request_fields digest e = entry (lit "envelopeDigest") (text digest) (
    entry (lit "messageId") (text e.message_id) (
      entry (lit "recipientDeviceHandles") (array (trees_of text e.handles)) (
        entry (lit "recipientPackageSnapshotId") (text e.snapshot_id) (
          entry (lit "schema") (text (lit "hodlxxi.social_messaging_recipient_routing_request.v1"))
            (entry (lit "version") (digit 1) no_more)))))

-- The request as an object: the digest and the ids, and nothing of the ciphertext.
abbrev pub request_value : Text → Envelope → Value
request_value digest e = record_value (
    (lit "envelopeDigest", string digest)
    ∷ (lit "messageId", string e.message_id)
    ∷ (lit "recipientDeviceHandles", array_value (map string e.handles))
    ∷ (lit "recipientPackageSnapshotId", string e.snapshot_id)
    ∷ (lit "schema", string (lit "hodlxxi.social_messaging_recipient_routing_request.v1"))
    ∷ (lit "version", number (nat 1))
    ∷ [])

request_text-render :
    (digest : Text) (e : Envelope)
    → IsShown digest
    → IsEnvelope e
    → request_text digest e ≡ render (record_of (request_fields digest e)) []
unfolding request_text
request_text-render digest e hd h = simp (
  quote_units_shown digest hd,
  quote_units_shown e.message_id (message_id-IsShown e.message_id h.message_id.0),
  quote_units_shown e.snapshot_id (snapshot_id-IsShown e.snapshot_id h.snapshot_id),
  bracketed-render quoted text e.handles _ (handles_print e.handles h.handles),
  ++_assoc,
)

value-request :
    (digest : Text) (e : Envelope)
    → value_of (record_of (request_fields digest e)) ≡ request_value digest e
unfolding put key_of
value-request digest e = rw (values-handles e.handles) refl

request_fields-plain :
    (digest : Text) (e : Envelope)
    → IsShown digest
    → IsEnvelope e
    → FieldsArePlain (request_fields digest e)
request_fields-plain digest e hd h = (
  refl,
  hd,
  (
    refl,
    message_id-IsShown e.message_id h.message_id.0,
    (
      refl,
      handle_trees-ArePlain e.handles h.handles,
      (
        refl,
        snapshot_id-IsShown e.snapshot_id h.snapshot_id,
        (refl, refl, (refl, omega arith, tt)),
      ),
    ),
  ),
)

json_parse-request :
    (real : Text → Number) (digest : Text) (e : Envelope)
    → IsShown digest
    → IsEnvelope e
    → json_parse real (request_text digest e) ≡ some (request_value digest e)
json_parse-request real digest e hd h =
    ap (json_parse real) (request_text-render digest e hd h)
    ∙ json_parse-render real (request_fields digest e) (request_fields-plain digest e hd h)
    ∙ ap some (value-request digest e)

length-request_text :
    (digest : Text) (e : Envelope)
    → IsShown digest
    → IsEnvelope e
    → length (request_text digest e) ≤ length digest + 900
length-request_text digest e hd h = rw (request_text-render digest e hd h) (
    omega (
      arith,
      length-render (record_of (request_fields digest e)) [],
      length-message_id e.message_id h.message_id.0,
      length-snapshot_id e.snapshot_id h.snapshot_id,
      size-array (trees_of text e.handles),
      size-handles e.handles h.handles,
      h.few_handles,
    ))

canonical_handles : (ts : List Text) → All IsHandle ts → all is_canonical_handle ts ≡ true
unfolding is_canonical_handle
canonical_handles [] h = refl
canonical_handles (t ∷ ts) ((shape, encoded), hs) =
    let (short, long, chars, back, low, high) = encoded_facts 16 16 (drop 2 t) encoded in
    rw (back, ===_self (drop 2 t), canonical_handles ts hs) refl

-- `sha256` answers 64 lower-case hexadecimal digits.
abbrev pub IsHexDigest : (List ℕ → Text) → Type 0
IsHexDigest sha256 = (x : List ℕ) → (length (sha256 x) ≡ 64) × (all is_lower_hex (sha256 x) ≡ true)

digest-IsShown :
    (sha256 : List ℕ → Text) (e : Envelope)
    → IsHexDigest sha256
    → IsShown (envelope_digest sha256 e)
digest-IsShown sha256 e h =
    all-append is_shown (lit "hodlxxi-social-message-envelope-v1-sha256:") (sha256 (digest_input e))
      refl (IsShown-hex (sha256 (digest_input e)) (h (digest_input e)).1)

request_fits :
    (sha256 : List ℕ → Text) (e : Envelope)
    → IsHexDigest sha256
    → IsEnvelope e
    → length (request_text (envelope_digest sha256 e) e) ≤ 1100
request_fits sha256 e hash h = omega (
  arith,
  length-request_text (envelope_digest sha256 e) e (digest-IsShown sha256 e hash) h,
  length-append (lit "hodlxxi-social-message-envelope-v1-sha256:") (sha256 (digest_input e)),
  (hash (digest_input e)).0,
)

within_bound : (n : ℕ) → n ≤ 1100 → not (ltb max_request_bytes n) ≡ true
within_bound n h = ground arith

pub routing_request_made :
    (real : Text → Number) (sha256 : List ℕ → Text) (e : Envelope) (options : Value)
    → IsHexDigest sha256
    → IsEnvelope e
    → routing_enabled options ≡ true
    → routing_request real sha256 (WireInput.text (serialize_normalized e)) options
      ≡ some (request_text (envelope_digest sha256 e) e)
unfolding routing_request
routing_request_made real sha256 e options hash h enabled =
    rw
      (
        enabled,
        (parse_wire_iff real (serialize_normalized e) e).1 (h, refl),
        canonical_handles e.handles h.handles,
        digest_envelope-envelope_value sha256 e h,
        within_bound (length (request_text (envelope_digest sha256 e) e))
            (request_fits sha256 e hash h),
      )
      refl

-- The wire of a well-formed envelope is always routed when routing is enabled and the hash function
-- answers 64 hexadecimal digits: the second look at the handles and the bound of 2048 refuse none, and
-- the request has at most 1100 code units.
pub routing_request-serialize :
    (real : Text → Number) (sha256 : List ℕ → Text) (e : Envelope) (options : Value)
    → IsHexDigest sha256
    → IsEnvelope e
    → routing_enabled options ≡ true
    → (request : Text) × (routing_request real sha256
          (WireInput.text (serialize_normalized e))
          options
        ≡ some request)
      × (length request ≤ 1100)
routing_request-serialize real sha256 e options hash h enabled = (
  request_text (envelope_digest sha256 e) e,
  routing_request_made real sha256 e options hash h enabled,
  request_fits sha256 e hash h,
)

-- With a hash function that answers 64 hexadecimal digits, a request is made only with routing enabled
-- and from a wire that is an envelope's, and what is read from it is the envelope's digest, message id, handles and snapshot id, and nothing else.
pub routing_request_sound :
    (real : Text → Number) (sha256 : List ℕ → Text) (wire : WireInput) (options : Value)
    (request : Text)
    → IsHexDigest sha256
    → routing_request real sha256 wire options ≡ some request
    → (routing_enabled options ≡ true)
      × ((e : Envelope) × (parse_wire real wire ≡ some e)
          × (json_parse real request ≡ some (request_value (envelope_digest sha256 e) e)))
unfolding routing_request
routing_request_sound real sha256 wire options request hash h =
    let (u, enabled, h1) = >>=-eq-some (guard (routing_enabled options)) _ h in
    let (e, parsed, h2) = >>=-eq-some (parse_wire real wire) _ h1 in
    let (u2, handles, h3) = >>=-eq-some (guard (all is_canonical_handle e.handles)) _ h2 in
    let (digest, hashed, h4) = >>=-eq-some (digest_envelope sha256 (envelope_value e)) _ h3 in
    let (short, made) =
      when-eq-some (not (ltb max_request_bytes (length (request_text digest e)))) _ h4 in
    let good = parse_wire-IsEnvelope real wire e parsed in
    let digest_same =
      some-injective _ _ (sym (digest_envelope-envelope_value sha256 e good) ∙ hashed) in
    (
      guard-eq-some (routing_enabled options) enabled,
      (
        e,
        parsed,
        subst (λ r. json_parse real r ≡ some (request_value (envelope_digest sha256 e) e))
            (ap (λ d. request_text d e) digest_same ∙ some-injective _ _ made)
            (json_parse-request real (envelope_digest sha256 e) e (digest-IsShown sha256 e hash)
              good),
      ),
    )
