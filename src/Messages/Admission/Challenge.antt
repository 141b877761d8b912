-- ===== src/Messages/Admission/Challenge.antt =====
-- The candidate challenges of src/server/messaging-device-admission-v1.mjs.
use hodlxxi_social.Prelude.{
  ℕ, ◌+◌, Bool, ◌&&◌, Option, none, some, List, [], ◌∷◌, ◌++◌, ltb, leb, ◌>>=◌, ◌>>◌, guard,
}
use hodlxxi_social.Js.Text.{Text, lit}
use hodlxxi_social.Js.Value.{Value, Number, number, nat, string, as_string, is_text, safe_natural}
use hodlxxi_social.Js.Record.{Fields, property}
use hodlxxi_social.Sessions.Store.Mobile.{is_hex64}
use hodlxxi_social.Messages.Routing.{routing_enabled}
use hodlxxi_social.Messages.Admission.{
  max_challenge_lifetime, challenge_schema, challenge_domain, challenge_fields, canonical, is_one,
  parse_fields, request,
}

-- The last test of a challenge: its two times.
abbrev pub is_lifetime : ℕ → ℕ → Bool
is_lifetime issued expires = ltb issued expires && leb expires (issued + max_challenge_lifetime)

-- The tests of the fields that name the kind of challenge, and of its id.
unfoldable pub is_headed : Fields → Bool
unfolding property
is_headed r =
    is_text challenge_schema (property (some r) (lit "schema"))
    && is_one (property (some r) (lit "version"))
    && is_text challenge_domain (property (some r) (lit "domain"))
    && is_hex64 (property (some r) (lit "challengeId"))

module _ (real : Text → Number) (hostname : Text → Option Text) where
  unfoldable pub challenge : Value → Option Fields
  unfolding parse_fields is_headed property request
  challenge wire = do
    r ← parse_fields real wire challenge_fields 4096
    guard (is_headed r)
    issued ← safe_natural (property (some r) (lit "issuedAt"))
    expires ← safe_natural (property (some r) (lit "expiresAt"))
    guard (is_lifetime issued expires)
    accepted ← request real hostname (property (some r) (lit "request"))
    some r

  unfoldable pub create_challenge :
      (request_wire challenge_id issued_at expires_at options : Value) → Option Text
  unfolding routing_enabled request canonical challenge
  create_challenge request_wire challenge_id issued_at expires_at options = do
    guard (routing_enabled options)
    accepted ← request real hostname request_wire
    guard (is_hex64 challenge_id)
    issued ← safe_natural issued_at
    expires ← safe_natural expires_at
    wire ← canonical (
        (lit "challengeId", challenge_id)
        ∷ (lit "domain", string challenge_domain)
        ∷ (lit "expiresAt", expires_at)
        ∷ (lit "issuedAt", issued_at)
        ∷ (lit "request", request_wire)
        ∷ (lit "schema", string challenge_schema)
        ∷ (lit "version", number (nat 1))
        ∷ [])
    checked ← challenge (string wire)
    some wire

  unfoldable pub inspect : (challenge_wire actual_request_wire now options : Value) → Option Fields
  unfolding routing_enabled challenge request property
  inspect challenge_wire actual_request_wire now options = do
    guard (routing_enabled options)
    r ← challenge challenge_wire
    accepted ← request real hostname actual_request_wire
    actual ← as_string actual_request_wire
    guard (is_text actual (property (some r) (lit "request")))
    at ← safe_natural now
    issued ← safe_natural (property (some r) (lit "issuedAt"))
    expires ← safe_natural (property (some r) (lit "expiresAt"))
    guard (leb issued at && ltb at expires)
    some r

  unfoldable pub digest_challenge : (List ℕ → Text) → (wire options : Value) → Option Text
  unfolding routing_enabled challenge
  digest_challenge sha256 wire options = do
    guard (routing_enabled options)
    r ← challenge wire
    t ← as_string wire
    some (
        lit "hodlxxi-social-device-challenge-v1-sha256:"
        ++ sha256 (lit "HODLXXI_SOCIAL_DEVICE_CHALLENGE_DIGEST_V1" ++ (0 ∷ t)))

-- No attempt is admitted.
unfoldable pub admit : (attempt options : Value) → Option Fields
admit attempt options = none
