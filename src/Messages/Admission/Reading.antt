-- ===== src/Messages/Admission/Reading.antt =====
-- A created candidate challenge, read back: `createDeviceChallengeCandidateV1`, then
-- `inspectDeviceChallengeCandidateV1`, of src/server/messaging-device-admission-v1.mjs.
use mathlib.Core.Option.{some-injective}
use hodlxxi_social.Prelude.{
  ℕ, ◌≤◌, ◌<◌, ◌≡◌, refl, sym, ap, ◌∙◌, subst, true, ◌&&◌, Option, some, List, [], leb, length, all,
  guard, arith, >>=-eq-some, guard-eq-some, when-eq-some,
}
use hodlxxi_social.Js.Text.{Text, lit, ===_self, in_range}
use hodlxxi_social.Js.Value.{Value, Number, number, nat, string, safe_natural, max_safe_integer}
use hodlxxi_social.Js.Record.{Fields, property}
use hodlxxi_social.Js.Record.Laws.{record_value}
use hodlxxi_social.Js.Parse.{json_parse}
use hodlxxi_social.Js.Parse.Printed.{record_of, IsShown, render}
use hodlxxi_social.Sessions.Store.Mobile.{is_hex64}
use hodlxxi_social.Sessions.Native.Responses.{own}
use hodlxxi_social.Messages.Routing.{routing_enabled}
use hodlxxi_social.Messages.Wire.Shown.{IsShown-hex}
use hodlxxi_social.Messages.Admission.{
  challenge_fields, request_fields, canonical, is_same, parse_fields, request,
}
use hodlxxi_social.Messages.Admission.Challenge.{
  is_headed, is_lifetime, challenge, create_challenge, inspect,
}
use hodlxxi_social.Messages.Admission.Printed.{
  challenge_record, challenge_tree, leb_safe, within_safe, in_time, leb_when,
  canonical-challenge_record, challenge_tree-plain, json_parse-challenge, own-challenge,
}

-- The record that is read is that of the parsed value.
pub parse_fields-own :
    (real : Text → Number) (wire : Text) (fields : List Text) (most : ℕ) (r q : Fields) (v : Value)
    → parse_fields real (string wire) fields most ≡ some r
    → json_parse real wire ≡ some v
    → own v fields ≡ some q
    → r ≡ q
unfolding parse_fields
parse_fields-own real wire fields most r q v h parsed owned =
    let (u, fits, h1) =
      >>=-eq-some (guard (leb (length wire) most && all (in_range 0x20 0x7e) wire)) _ h in
    let (w, read, h2) = >>=-eq-some (json_parse real wire) _ h1 in
    let (s, taken, h3) = >>=-eq-some (own w fields) _ h2 in
    let (x, same, h4) = >>=-eq-some (guard (is_same (canonical s) wire)) _ h3 in
    sym (some-injective _ _ h4)
    ∙ some-injective _ _
        (sym taken ∙ ap (λ y. own y fields) (some-injective _ _ (sym read ∙ parsed)) ∙ owned)

parse_fields-printable :
    (real : Text → Number) (wire : Text) (fields : List Text) (most : ℕ) (r : Fields)
    → parse_fields real (string wire) fields most ≡ some r
    → all (in_range 0x20 0x7e) wire ≡ true
unfolding parse_fields
parse_fields-printable real wire fields most r h =
    let (u, fits, h1) =
      >>=-eq-some (guard (leb (length wire) most && all (in_range 0x20 0x7e) wire)) _ h in
    ground (arith, guard-eq-some _ fits)

pub hex_id : (id : Text) → is_hex64 (string id) ≡ true → IsShown id
hex_id id h = IsShown-hex id (ground arith)

module _ (real : Text → Number) (hostname : Text → Option Text) where
  pub request-printable :
      (t : Text) (r : Fields)
      → request real hostname (string t) ≡ some r
      → all (in_range 0x20 0x7e) t ≡ true
  unfolding request
  request-printable t r h =
      let (s, parsed, h1) = >>=-eq-some (parse_fields real (string t) request_fields 2048) _ h in
      parse_fields-printable real t request_fields 2048 s parsed

  challenge-parsed :
      (wire : Text) (r : Fields)
      → challenge real hostname (string wire) ≡ some r
      → parse_fields real (string wire) challenge_fields 4096 ≡ some r
  unfolding challenge
  challenge-parsed wire r h =
      let (s, parsed, h1) =
        >>=-eq-some (parse_fields real (string wire) challenge_fields 4096) _ h in
      let (u, shape, h2) = >>=-eq-some (guard (is_headed s)) _ h1 in
      let (i, issued, h3) = >>=-eq-some (safe_natural (property (some s) (lit "issuedAt"))) _ h2 in
      let (e, expires, h4) =
        >>=-eq-some (safe_natural (property (some s) (lit "expiresAt"))) _ h3 in
      let (v, lifetime, h5) = >>=-eq-some (guard (is_lifetime i e)) _ h4 in
      let (q, accepted, h6) =
        >>=-eq-some (request real hostname (property (some s) (lit "request"))) _ h5 in
      parsed ∙ h6

  -- What the creation of a challenge made sure of.
  record IsCreated (t id : Text) (i e : ℕ) (options : Value) (wire : Text) : Type 0 where
    enabled : routing_enabled options ≡ true
    accepted : Fields
    requested : request real hostname (string t) ≡ some accepted
    shown : IsShown id
    issued_safe : i ≤ max_safe_integer
    expires_safe : e ≤ max_safe_integer
    printed_as : wire ≡ render (record_of (challenge_tree t id i e)) []
    read : Fields
    checked : challenge real hostname (string wire) ≡ some read

  create_challenge-IsCreated :
      (t id : Text) (i e : ℕ) (options : Value) (wire : Text)
      → create_challenge real hostname
          (string t)
          (string id)
          (number (nat i))
          (number (nat e))
          options
        ≡ some wire
      → IsCreated t id i e options wire
  unfolding create_challenge
  create_challenge-IsCreated t id i e options wire h =
      let (u, enabled, h1) = >>=-eq-some (guard (routing_enabled options)) _ h in
      let (q, requested, h2) = >>=-eq-some (request real hostname (string t)) _ h1 in
      let (v, hex, h3) = >>=-eq-some (guard (is_hex64 (string id))) _ h2 in
      let (i2, issued, h4) = >>=-eq-some (safe_natural (number (nat i))) _ h3 in
      let (e2, expires, h5) = >>=-eq-some (safe_natural (number (nat e))) _ h4 in
      let (w, written, h6) = >>=-eq-some (canonical (challenge_record t id i e)) _ h5 in
      let (s, checked, h7) = >>=-eq-some (challenge real hostname (string w)) _ h6 in
      let shown = hex_id id (guard-eq-some _ hex) in
      let issued_safe = leb_safe i (when-eq-some _ _ issued).0 in
      let expires_safe = leb_safe e (when-eq-some _ _ expires).0 in
      subst (IsCreated t id i e options) (some-injective _ _ h7) (record {
        enabled = guard-eq-some _ enabled;
        accepted = q;
        requested = requested;
        shown = shown;
        issued_safe = issued_safe;
        expires_safe = expires_safe;
        printed_as =
            some-injective _ _
              (sym written ∙ canonical-challenge_record t id i e shown issued_safe expires_safe);
        read = s;
        checked = checked;
      })

  IsCreated-read :
      (t id : Text) (i e : ℕ) (options : Value) (wire : Text)
      → (c : IsCreated t id i e options wire) → c.read ≡ challenge_record t id i e
  IsCreated-read t id i e options wire c =
      parse_fields-own real wire challenge_fields 4096 c.read (challenge_record t id i e)
        (record_value (challenge_record t id i e)) (challenge-parsed wire c.read c.checked)
        (ap (json_parse real) c.printed_as
          ∙ json_parse-challenge real t id i e (
              challenge_tree-plain t id i e (request-printable t c.accepted c.requested) c.shown
                c.issued_safe c.expires_safe))
        (own-challenge t id i e)

  -- A challenge that was created for a request text is accepted by the inspection, under the same
  -- options, when that text is the actual request and the clock stands from the time of issue up to,
  -- and not including, the expiry; the answer is exactly the fields that the challenge was created from.
  pub inspect-create_challenge :
      (t id : Text) (i e at : ℕ) (options : Value) (wire : Text)
      → create_challenge real hostname
          (string t)
          (string id)
          (number (nat i))
          (number (nat e))
          options
        ≡ some wire
      → i ≤ at
      → at < e
      → inspect real hostname (string wire) (string t) (number (nat at)) options
        ≡ some (challenge_record t id i e)
  unfolding inspect property
  inspect-create_challenge t id i e at options wire h started running =
      let c = create_challenge-IsCreated t id i e options wire h in
      rw
        (
          c.enabled,
          c.checked ∙ ap some (IsCreated-read t id i e options wire c),
          c.requested,
          ===_self t,
          leb_when at _ (within_safe at e running c.expires_safe),
          leb_when i _ c.issued_safe,
          leb_when e _ c.expires_safe,
          in_time i at e started running,
        )
        refl
