-- ===== src/Messages/Admission/Binding.antt =====
-- What a created candidate request is bound to: `createDeviceRequestCandidateV1` of
-- src/server/messaging-device-admission-v1.mjs.
use mathlib.Core.Option.{some-injective}
use hodlxxi_social.Prelude.{
  ℕ, ◌≡◌, refl, sym, ap, ◌∙◌, subst, Bool, true, ◌&&◌, Option, some, List, [], ◌∷◌, ◌++◌, all,
  guard, arith, >>=-eq-some, guard-eq-some,
}
use hodlxxi_social.Js.Text.{Text, lit, in_range, ◌===◌}
use hodlxxi_social.Js.Value.{
  Value, Number, number, nat, string, as_string, is_text, name, data_value,
}
use hodlxxi_social.Js.Record.{Fields, or_undefined, property, pick}
use hodlxxi_social.Messages.Envelope.Shape.Soundness.{as_string-eq-some}
use hodlxxi_social.Messages.Routing.{routing_enabled}
use hodlxxi_social.Messages.Routing.Request.{IsHexDigest}
use hodlxxi_social.Messages.Admission.{
  request_schema, context_fields, is_context, is_path_value, parse_fields, request, body_recipient,
  canonical, create_request,
}
use hodlxxi_social.Messages.Wire.Bounds.{all-append}
use hodlxxi_social.Messages.Admission.Rendered.{
  IsRendered-text, IsRendered-nat, hex-printable, hex-IsRendered, version-IsRendered,
  audience-IsRendered, path-IsRendered, is_text-IsRendered, body_recipient-IsRendered,
}
use hodlxxi_social.Messages.Admission.Requests.{
  request_record, accepted-request_record, context_record, context-parts, parse_fields-pick,
}

-- The digest that a request names for its body.
abbrev pub body_digest : (List ℕ → Text) → Text → Text
body_digest sha256 b =
    lit "hodlxxi-social-device-request-body-v1-sha256:"
    ++ sha256 (lit "HODLXXI_SOCIAL_DEVICE_REQUEST_BODY_V1" ++ (0 ∷ b))

both : (a b : Bool) → (a && b) ≡ true → (a ≡ true) × (b ≡ true)
both a b h = (ground arith, ground arith)

module _ (real : Text → Number) (hostname : Text → Option Text) where
  -- What is appended to the context.
  abbrev appended : (digest : Text) (method operation path recipient : Value) → Fields
  appended digest method operation path recipient =
      (lit "bodyDigest", string digest)
      ∷ (lit "method", method)
      ∷ (lit "operation", operation)
      ∷ (lit "path", path)
      ∷ (lit "recipientHandle", recipient)
      ∷ (lit "schema", string request_schema)
      ∷ (lit "version", number (nat 1))
      ∷ []

  accepted-values :
      (audience binding version device session subject method operation path recipient : Value)
      → (digest b wire : Text) (r : Fields)
      → is_context hostname (context_record audience binding version device session subject) ≡ true
      → all (in_range 0x20 0x7e) digest ≡ true
      → is_text (lit "POST") method ≡ true
      → is_path_value path ≡ true
      → body_recipient real operation b ≡ some recipient
      → canonical (
          context_record audience binding version device session subject
          ++ appended digest method operation path recipient)
        ≡ some wire
      → request real hostname (string wire) ≡ some r
      → r
        ≡ request_record audience binding version device session subject
            (string digest)
            method
            operation
            path
            recipient
            (string request_schema)
            (number (nat 1))
  accepted-values audience binding version device session subject method operation path recipient
        digest b wire r context printable post routed read printed accepted =
      let (c1, c2, c3, c4, c5, c6) =
        context-parts hostname audience binding version device session subject context in
      let (ho, hr) = body_recipient-IsRendered real operation b recipient read in
      accepted-request_record audience binding version device session subject (string digest) method
        operation path recipient (string request_schema) (number (nat 1)) real hostname wire r
        ((
          refl,
          audience-IsRendered hostname audience c6,
          (
            refl,
            hex-IsRendered binding c1,
            (
              refl,
              version-IsRendered version c5,
              (
                refl,
                IsRendered-text digest printable,
                (
                  refl,
                  hex-IsRendered device c2,
                  (
                    refl,
                    is_text-IsRendered (lit "POST") method refl post,
                    (
                      refl,
                      ho,
                      (
                        refl,
                        path-IsRendered path routed,
                        (
                          refl,
                          hr,
                          (
                            refl,
                            IsRendered-text request_schema refl,
                            (
                              refl,
                              hex-IsRendered session c3,
                              (
                                refl,
                                hex-IsRendered subject c4,
                                (refl, IsRendered-nat 1 (omega arith), tt),
                              ),
                            ),
                          ),
                        ),
                      ),
                    ),
                  ),
                ),
              ),
            ),
          ),
        ))
        printed accepted

  accepted-context :
      (context method operation path recipient : Value) (digest b w : Text) (c r : Fields)
      → parse_fields real context context_fields 1024 ≡ some c
      → is_context hostname c ≡ true
      → all (in_range 0x20 0x7e) digest ≡ true
      → is_text (lit "POST") method ≡ true
      → is_path_value path ≡ true
      → body_recipient real operation b ≡ some recipient
      → canonical (c ++ appended digest method operation path recipient) ≡ some w
      → request real hostname (string w) ≡ some r
      → (property (some r) (lit "bodyDigest") ≡ string digest)
        × (property (some r) (lit "operation") ≡ operation)
        × (property (some r) (lit "path") ≡ path)
        × (property (some r) (lit "recipientHandle") ≡ recipient)
  unfolding pick property ◌===◌
  accepted-context context method operation path recipient digest b w c r parsed checked printable
        post routed read printed accepted =
      let (es, picked) = parse_fields-pick real context context_fields 1024 c parsed in
      let value = (λ (k : Text). or_undefined (data_value (name k) es)) in
      let same =
        accepted-values (value (lit "audience")) (value (lit "bindingId"))
          (value (lit "bindingVersion")) (value (lit "deviceId")) (value (lit "sessionBinding"))
          (value (lit "subject")) method operation path recipient digest b w r
          (subst (λ f. is_context hostname f ≡ true) picked checked) printable post routed read
          (subst (λ f. canonical (f ++ appended digest method operation path recipient) ≡ some w)
            picked printed)
          accepted in
      (
        ap (λ f. property (some f) (lit "bodyDigest")) same,
        ap (λ f. property (some f) (lit "operation")) same,
        ap (λ f. property (some f) (lit "path")) same,
        ap (λ f. property (some f) (lit "recipientHandle")) same,
      )

  digest-printable :
      (sha256 : List ℕ → Text) (b : Text)
      → IsHexDigest sha256
      → all (in_range 0x20 0x7e) (body_digest sha256 b) ≡ true
  digest-printable sha256 b hash =
      let input = lit "HODLXXI_SOCIAL_DEVICE_REQUEST_BODY_V1" ++ (0 ∷ b) in
      all-append (in_range 0x20 0x7e) (lit "hodlxxi-social-device-request-body-v1-sha256:")
        (sha256 input) refl (hex-printable (sha256 input) (hash input).1)

  -- A request that was created is accepted as one, and, where the hash function answers 64 lower-case
  -- hexadecimal digits, its fields are the digest of the very body that it was created for, the
  -- operation and the path that were asked for, and the recipient that the body names for that
  -- operation.
  pub create_request-binds :
      (sha256 : List ℕ → Text) (context operation method path body options : Value) (wire : Text)
      → IsHexDigest sha256
      → create_request real hostname sha256 context operation method path body options ≡ some wire
      → (b : Text) × (r : Fields) × (body ≡ string b)
        × (request real hostname (string wire) ≡ some r)
        × (property (some r) (lit "bodyDigest") ≡ string (body_digest sha256 b))
        × (property (some r) (lit "operation") ≡ operation)
        × (property (some r) (lit "path") ≡ path)
        × (body_recipient real operation b ≡ some (property (some r) (lit "recipientHandle")))
  unfolding create_request
  create_request-binds sha256 context operation method path body options wire hash h =
      let (u1, enabled, h1) = >>=-eq-some (guard (routing_enabled options)) _ h in
      let (u2, sent, h2) =
        >>=-eq-some (guard (is_text (lit "POST") method && is_path_value path)) _ h1 in
      let (c, parsed, h3) = >>=-eq-some (parse_fields real context context_fields 1024) _ h2 in
      let (u3, checked, h4) = >>=-eq-some (guard (is_context hostname c)) _ h3 in
      let (b, written, h5) = >>=-eq-some (as_string body) _ h4 in
      let (recipient, read, h6) = >>=-eq-some (body_recipient real operation b) _ h5 in
      let (w, printed, h7) =
        >>=-eq-some
          (canonical (c ++ appended (body_digest sha256 b) method operation path recipient)) _ h6 in
      let (r, accepted, h8) = >>=-eq-some (request real hostname (string w)) _ h7 in
      let (post, routed) =
        both (is_text (lit "POST") method) (is_path_value path) (guard-eq-some _ sent) in
      let (p1, p2, p3, p4) =
        accepted-context context method operation path recipient (body_digest sha256 b) b w c r
          parsed (guard-eq-some _ checked) (digest-printable sha256 b hash) post routed read printed
          accepted in
      (
        b,
        r,
        as_string-eq-some body b written,
        subst (λ t. request real hostname (string t) ≡ some r) (some-injective _ _ h8) accepted,
        p1,
        p2,
        p3,
        read ∙ ap some (sym p4),
      )
