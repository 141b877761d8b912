-- ===== src/Messages/Wire/Canonical.antt =====
-- Wires and envelopes, one for one.
use mathlib.Core.Option.{some-injective}
use hodlxxi_social.Prelude.{
  ℕ, >>=-eq-some, guard-eq-some, Option-cases, inl, inr, ◌⊎◌, ◌↔◌, ◌≡◌, refl, sym, ap, ◌∙◌, subst,
  true, false, not, none, some, List, [], ◌∷◌, ◌++◌, ltb, leb, drop, all, any, guard, arith,
}
use hodlxxi_social.Js.Text.{Text, lit, ◌===◌, ===_self, ===_iff, Text-cases}
use hodlxxi_social.Js.Value.{Value, Number, nat}
use hodlxxi_social.Js.Parse.{json_parse}
use hodlxxi_social.Messages.Envelope.{Envelope, normalize_envelope}
use hodlxxi_social.Messages.Envelope.Shape.{IsEnvelope}
use hodlxxi_social.Messages.Envelope.Shape.Acceptance.{
  envelope_value, normalize_envelope-envelope_value,
}
use hodlxxi_social.Messages.Envelope.Shape.Soundness.{normalize_envelope_sound}
use hodlxxi_social.Messages.Wire.Printed.{json_parse-serialize}
use hodlxxi_social.Messages.Wire.Bounds.{length-serialize}
use hodlxxi_social.Messages.Wire.{
  digest_envelope, serialize_canonical, digest_domain, text, bytes, serialize_normalized, WireInput,
  bounded_ascii_wire, parse_wire,
}

not-any_ascii : (t : Text) → all (λ u. leb u 0x7f) t ≡ true → any (λ u. not (leb u 0x7f)) t ≡ false
not-any_ascii [] h = refl
not-any_ascii (c ∷ t) h = ground (arith, not-any_ascii t (ground arith))

same_ascii : (t : Text) → any (λ u. not (leb u 0x7f)) t ≡ any (λ b. ltb 0x7f b) t
same_ascii [] = refl
same_ascii (c ∷ t) = ground (arith, same_ascii t)

-- The same ASCII is read alike as a string and as bytes.
pub parse_wire_bytes :
    (real : Text → Number) (wire : List ℕ)
    → parse_wire real (bytes wire) ≡ parse_wire real (text wire)
unfolding parse_wire
parse_wire_bytes real wire = rw (same_ascii wire) refl

bounded_ascii_wire-eq-some : (t w : Text) → bounded_ascii_wire (text t) ≡ some w → t ≡ w
unfolding bounded_ascii_wire
bounded_ascii_wire-eq-some t w h = ground arith

bounded_ascii_wire-serialize :
    (e : Envelope)
    → IsEnvelope e
    → bounded_ascii_wire (text (serialize_normalized e)) ≡ some (serialize_normalized e)
unfolding bounded_ascii_wire
bounded_ascii_wire-serialize e h =
    let (short, ascii) = length-serialize e h in
    rw (not-any_ascii (serialize_normalized e) ascii) (ground (arith, short))

parse_wire-serialize :
    (real : Text → Number) (e : Envelope)
    → IsEnvelope e
    → parse_wire real (text (serialize_normalized e)) ≡ some e
unfolding parse_wire
parse_wire-serialize real e h =
    rw
      (
        bounded_ascii_wire-serialize e h,
        json_parse-serialize real e h,
        normalize_envelope-envelope_value e h,
        ===_self (serialize_normalized e),
      )
      refl

parse_wire_sound :
    (real : Text → Number) (wire : Text) (e : Envelope)
    → parse_wire real (text wire) ≡ some e
    → IsEnvelope e × (serialize_normalized e ≡ wire)
unfolding parse_wire
parse_wire_sound real wire e h =
    let (w, bounded, h1) = >>=-eq-some (bounded_ascii_wire (text wire)) _ h in
    let (v, parsed, h2) = >>=-eq-some (json_parse real w) _ h1 in
    let (f, normal, h3) = >>=-eq-some (normalize_envelope v) _ h2 in
    let (u, same, h4) = >>=-eq-some (guard (serialize_normalized f === w)) _ h3 in
    subst (λ r. IsEnvelope r × (serialize_normalized r ≡ wire)) (some-injective _ _ h4)
      (
        normalize_envelope_sound v f normal,
        (===_iff _ _).0 (guard-eq-some (serialize_normalized f === w) same)
            ∙ sym (bounded_ascii_wire-eq-some wire w bounded),
      )

pub parse_wire-IsEnvelope :
    (real : Text → Number) (input : WireInput) (e : Envelope)
    → parse_wire real input ≡ some e
    → IsEnvelope e
unfolding parse_wire
parse_wire-IsEnvelope real input e h =
    let (w, bounded, h1) = >>=-eq-some (bounded_ascii_wire input) _ h in
    let (v, parsed, h2) = >>=-eq-some (json_parse real w) _ h1 in
    let (f, normal, h3) = >>=-eq-some (normalize_envelope v) _ h2 in
    let (u, same, h4) = >>=-eq-some (guard (serialize_normalized f === w)) _ h3 in
    subst IsEnvelope (some-injective _ _ h4) (normalize_envelope_sound v f normal)

-- A string is read as an envelope exactly when the envelope is well-formed and the string is its
-- canonical serialization.
pub parse_wire_iff :
    (real : Text → Number) (wire : Text) (e : Envelope)
    → (parse_wire real (text wire) ≡ some e) ↔ (IsEnvelope e × (serialize_normalized e ≡ wire))
parse_wire_iff real wire e = (
  parse_wire_sound real wire e,
  λ (h, same). subst (λ w. parse_wire real (text w) ≡ some e) same (parse_wire-serialize real e h),
)

-- A value that is serialized is read back from its wire as the envelope that it normalizes to.
pub parse_wire-serialize_canonical :
    (real : Text → Number) (v : Value) (wire : Text)
    → serialize_canonical v ≡ some wire
    → parse_wire real (text wire) ≡ normalize_envelope v
unfolding serialize_canonical
parse_wire-serialize_canonical real v wire h =
    let (e, normal, h1) = >>=-eq-some (normalize_envelope v) _ h in
    subst (λ w. parse_wire real (text w) ≡ normalize_envelope v) (some-injective _ _ h1)
      (parse_wire-serialize real e (normalize_envelope_sound v e normal) ∙ sym normal)

-- A wire, as a string or as bytes, that is the canonical serialization of no well-formed envelope
-- is refused.
pub parse_wire_refuses :
    (real : Text → Number) (wire : Text)
    → ((e : Envelope) → IsEnvelope e → ¬ (serialize_normalized e ≡ wire))
    → (parse_wire real (text wire) ≡ none) × (parse_wire real (bytes wire) ≡ none)
parse_wire_refuses real wire h = (refused, parse_wire_bytes real wire ∙ refused)
  where
    refused : parse_wire real (text wire) ≡ none
    refused = elim (Option-cases (parse_wire real (text wire))) [
      | inl e ↦ e
      | inr (e, found) ↦
          let (good, same) = parse_wire_sound real wire e found in absurd (h e good same)
    ]

serialize_normalized-injective :
    (e f : Envelope)
    → IsEnvelope e
    → IsEnvelope f
    → serialize_normalized e ≡ serialize_normalized f
    → e ≡ f
serialize_normalized-injective e f he hf same = some-injective _ _ (
    sym (parse_wire-serialize (λ t. nat 0) e he)
    ∙ ap (λ w. parse_wire (λ t. nat 0) (text w)) same
    ∙ parse_wire-serialize (λ t. nat 0) f hf)

++_cancel : (p s t : Text) → p ++ s ≡ p ++ t → s ≡ t
++_cancel [] s t h = h
++_cancel (c ∷ p) s t h = ++_cancel p s t (ap (drop 1) h)

-- What is hashed.
unfoldable pub digest_input : Envelope → List ℕ
digest_input e = digest_domain ++ (0 ∷ serialize_normalized e)

pub digest_envelope-envelope_value :
    (sha256 : List ℕ → Text) (e : Envelope)
    → IsEnvelope e
    → digest_envelope sha256 (envelope_value e)
      ≡ some (lit "hodlxxi-social-message-envelope-v1-sha256:" ++ sha256 (digest_input e))
unfolding digest_envelope digest_input
digest_envelope-envelope_value sha256 e h = rw (normalize_envelope-envelope_value e h) refl

digest_input-injective :
    (e f : Envelope)
    → digest_input e ≡ digest_input f
    → serialize_normalized e ≡ serialize_normalized f
unfolding digest_input
digest_input-injective e f h = ap (drop 1) (++_cancel digest_domain _ _ h)

-- Two well-formed envelopes with the same digest are the same, or two different inputs of the hash
-- function have the same hash.
pub digest_envelope-injective :
    (sha256 : List ℕ → Text) (e f : Envelope)
    → IsEnvelope e
    → IsEnvelope f
    → digest_envelope sha256 (envelope_value e) ≡ digest_envelope sha256 (envelope_value f)
    → (e ≡ f) ⊎ ((x : List ℕ) × (y : List ℕ) × ¬ (x ≡ y) × (sha256 x ≡ sha256 y))
digest_envelope-injective sha256 e f he hf same =
    elim (Text-cases (serialize_normalized e) (serialize_normalized f)) [
      | inl equal ↦ inl (serialize_normalized-injective e f he hf equal)
      | inr different ↦ inr (
        digest_input e,
        digest_input f,
        λ x. different_wires different (digest_input-injective e f x),
        ++_cancel (lit "hodlxxi-social-message-envelope-v1-sha256:") _ _ (
            some-injective _ _ (
              sym (digest_envelope-envelope_value sha256 e he)
              ∙ same
              ∙ digest_envelope-envelope_value sha256 f hf)),
      )
    ]
  where
    different_wires :
        (serialize_normalized e === serialize_normalized f) ≡ false
        → serialize_normalized e ≡ serialize_normalized f
        → ⊥
    different_wires d h = absurd (ground (arith, (===_iff _ _).1 h, d))
