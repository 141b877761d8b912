-- ===== src/Messages/Admission/Inspection.antt =====
-- What the inspection of a candidate challenge accepts: `inspectDeviceChallengeCandidateV1` of
-- src/server/messaging-device-admission-v1.mjs.
use mathlib.Core.Option.{some-injective}
use hodlxxi_social.Prelude.{
  ℕ, ◌+◌, ◌≤◌, ◌<◌, ◌≡◌, sym, ap, ◌∙◌, subst, true, ◌&&◌, Option, some, ltb, leb, guard, arith,
  >>=-eq-some, guard-eq-some,
}
use hodlxxi_social.Js.Text.{Text, lit, ===_iff}
use hodlxxi_social.Js.Value.{Value, Number, string, as_string, is_text, safe_natural}
use hodlxxi_social.Js.Record.{Fields, property}
use hodlxxi_social.Messages.Routing.{routing_enabled}
use hodlxxi_social.Messages.Envelope.Shape.Soundness.{as_string-eq-some}
use hodlxxi_social.Messages.Admission.{challenge_fields, parse_fields, request}
use hodlxxi_social.Messages.Admission.Challenge.{is_headed, is_lifetime, challenge, inspect}

-- A challenge with its two times.
record IsTimed (r : Fields) : Type 0 where
  issued : ℕ
  expires : ℕ
  issued_at : safe_natural (property (some r) (lit "issuedAt")) ≡ some issued
  expires_at : safe_natural (property (some r) (lit "expiresAt")) ≡ some expires
  short : expires ≤ issued + 60_000

lifetime_short : (i e : ℕ) → is_lifetime i e ≡ true → e ≤ i + 60_000
lifetime_short i e h = ground arith

within_times : (i n e : ℕ) → (leb i n && ltb n e) ≡ true → (i ≤ n) × (n < e)
within_times i n e h = (ground arith, ground arith)

is_text-eq-true : (t : Text) (v : Value) → is_text t v ≡ true → v ≡ string t
is_text-eq-true t (string s) h = ap string ((===_iff s t).0 h)
is_text-eq-true t v h = cc

timed_short :
    (r : Fields) (i e : ℕ)
    → IsTimed r
    → safe_natural (property (some r) (lit "issuedAt")) ≡ some i
    → safe_natural (property (some r) (lit "expiresAt")) ≡ some e
    → e ≤ i + 60_000
timed_short r i e t hi he =
    let issued = some-injective _ _ (sym t.issued_at ∙ hi) in
    let expires = some-injective _ _ (sym t.expires_at ∙ he) in
    omega (arith, t.short, issued, expires)

module _ (real : Text → Number) (hostname : Text → Option Text) where
  challenge-IsTimed :
      (wire : Value) (r : Fields) → challenge real hostname wire ≡ some r → IsTimed r
  unfolding challenge
  challenge-IsTimed wire r h =
      let (s, parsed, h1) = >>=-eq-some (parse_fields real wire challenge_fields 4096) _ h in
      let (u, shape, h2) = >>=-eq-some (guard (is_headed s)) _ h1 in
      let (i, issued, h3) = >>=-eq-some (safe_natural (property (some s) (lit "issuedAt"))) _ h2 in
      let (e, expires, h4) =
        >>=-eq-some (safe_natural (property (some s) (lit "expiresAt"))) _ h3 in
      let (v, lifetime, h5) = >>=-eq-some (guard (is_lifetime i e)) _ h4 in
      let (q, accepted, h6) =
        >>=-eq-some (request real hostname (property (some s) (lit "request"))) _ h5 in
      subst IsTimed (some-injective _ _ h6) (record {
        issued = i;
        expires = e;
        issued_at = issued;
        expires_at = expires;
        short = lifetime_short i e (guard-eq-some _ lifetime);
      })

  -- What is true of an accepted inspection: the challenge is one, its request is the actual one, and
  -- the clock stands between its times.
  record IsInspected (wire actual now : Value) (r : Fields) : Type 0 where
    challenged : challenge real hostname wire ≡ some r
    same : property (some r) (lit "request") ≡ actual
    at : ℕ
    issued : ℕ
    expires : ℕ
    clock : safe_natural now ≡ some at
    issued_at : safe_natural (property (some r) (lit "issuedAt")) ≡ some issued
    expires_at : safe_natural (property (some r) (lit "expiresAt")) ≡ some expires
    started : issued ≤ at
    running : at < expires
    short : expires ≤ issued + 60_000

  inspect-IsInspected :
      (wire actual now options : Value) (r : Fields)
      → inspect real hostname wire actual now options ≡ some r
      → IsInspected wire actual now r
  unfolding inspect
  inspect-IsInspected wire actual now options r h =
      let (u, enabled, h1) = >>=-eq-some (guard (routing_enabled options)) _ h in
      let (s, challenged, h2) = >>=-eq-some (challenge real hostname wire) _ h1 in
      let (q, accepted, h3) = >>=-eq-some (request real hostname actual) _ h2 in
      let (a, written, h4) = >>=-eq-some (as_string actual) _ h3 in
      let (v, named, h5) =
        >>=-eq-some (guard (is_text a (property (some s) (lit "request")))) _ h4 in
      let (n, clock, h6) = >>=-eq-some (safe_natural now) _ h5 in
      let (i, issued, h7) = >>=-eq-some (safe_natural (property (some s) (lit "issuedAt"))) _ h6 in
      let (e, expires, h8) =
        >>=-eq-some (safe_natural (property (some s) (lit "expiresAt"))) _ h7 in
      let (w, within, h9) = >>=-eq-some (guard (leb i n && ltb n e)) _ h8 in
      let timed = challenge-IsTimed wire s challenged in
      let started = within_times i n e (guard-eq-some _ within) in
      subst (IsInspected wire actual now) (some-injective _ _ h9) (record {
        challenged = challenged;
        same =
            is_text-eq-true a _ (guard-eq-some _ named) ∙ sym (as_string-eq-some actual a written);
        at = n;
        issued = i;
        expires = e;
        clock = clock;
        issued_at = issued;
        expires_at = expires;
        started = started.0;
        running = started.1;
        short = timed_short s i e timed issued expires;
      })

  -- Two accepted inspections of the same challenge wire are of the same request and answer the same
  -- fields, and their clocks stand less than 60,000 milliseconds apart: a challenge that is accepted
  -- for one request is not accepted for another, nor a minute later.
  pub inspect-once :
      (wire actual actual2 now now2 options options2 : Value) (r r2 : Fields)
      → inspect real hostname wire actual now options ≡ some r
      → inspect real hostname wire actual2 now2 options2 ≡ some r2
      → (actual ≡ actual2)
        × (r ≡ r2)
        × (at : ℕ) × (at2 : ℕ) × (safe_natural now ≡ some at)
        × (safe_natural now2 ≡ some at2)
        × (at2 < at + 60_000)
        × (at < at2 + 60_000)
  inspect-once wire actual actual2 now now2 options options2 r r2 h h2 =
      let p = inspect-IsInspected wire actual now options r h in
      let q = inspect-IsInspected wire actual2 now2 options2 r2 h2 in
      let same = some-injective _ _ (sym p.challenged ∙ q.challenged) in
      let issued = some-injective _ _ (
        sym p.issued_at
        ∙ ap (λ s. safe_natural (property (some s) (lit "issuedAt"))) same
        ∙ q.issued_at) in
      let expires = some-injective _ _ (
        sym p.expires_at
        ∙ ap (λ s. safe_natural (property (some s) (lit "expiresAt"))) same
        ∙ q.expires_at) in
      (
        sym p.same ∙ ap (λ s. property (some s) (lit "request")) same ∙ q.same,
        same,
        p.at,
        q.at,
        p.clock,
        q.clock,
        omega
            (arith, p.started, p.running, q.started, q.running, p.short, q.short, issued, expires),
        omega
            (arith, p.started, p.running, q.started, q.running, p.short, q.short, issued, expires),
      )
