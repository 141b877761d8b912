-- ===== src/Sessions/Native/Responses.antt =====
-- What the backend answers about a native session: `validateNativeV2SessionReceipt` and
-- `validateNativeV2SessionResponse` of src/server/ubid-social-session-v2-client.mjs, and the check of
-- a revocation in src/server/social-native-session-v2.mjs. A proxy is an `exotic` value here.
use hodlxxi_social.Prelude.{
  ℕ, ◌+◌, ◌%◌, Bool, true, false, not, ◌&&◌, ◌||◌, Option, none, some, List, [], ◌∷◌, map, ◌==◌,
  leb, ltb, if◌then◌else◌, when, ◌>>=◌, ◌>>◌, guard,
}
use hodlxxi_social.Js.Text.{Text, lit, ◌===◌}
use hodlxxi_social.Js.Value.{
  Value, null, boolean, number, nat, object, standard, entries, as_string, is_text, safe_natural,
}
use hodlxxi_social.Js.Record.{Fields, pick, property}
use hodlxxi_social.Sessions.Store.Mobile.{has_exactly, is_hex64, is_access_token}

-- own(value, fields)
unfoldable pub own : Value → List Text → Option Fields
unfolding has_exactly pick
own (object standard ps) fields =
    when (has_exactly fields (entries ps)) (some (pick fields (entries ps)))
own _ fields = none

pub record Receipt : Type 0 where
  pub issuance_id : Text
  pub revision : Text
  pub acceptance_id : Text
  pub issued_at : ℕ
  pub expires_at : ℕ

-- v === 2
abbrev pub is_two : Value → Bool
is_two (number (nat n)) = n == 2
is_two _ = false

abbrev pub hex64 : Value → Option Text
hex64 v = when (is_hex64 v) (as_string v)

abbrev pub is_null : Value → Bool
is_null null = true
is_null _ = false

-- whole seconds, the end after the start, at most five minutes
unfoldable pub is_span : ℕ → ℕ → Bool
is_span issued_at expires_at =
    issued_at % 1000 == 0
    && expires_at % 1000 == 0
    && not (leb expires_at issued_at)
    && leb expires_at (issued_at + 300_000)

unfoldable pub validate_receipt : Value → Option Receipt
unfolding own property is_span
validate_receipt source = do
  r ← own source (
      map lit (
        "schema" ∷ "version" ∷ "issuanceId" ∷ "socialSessionIssuanceRevision" ∷ "acceptanceId"
        ∷ "issuedAt" ∷ "expiresAt" ∷ []))
  guard (is_text (lit "hodlxxi.social_session_issuance.v2") (property (some r) (lit "schema")))
  guard (is_two (property (some r) (lit "version")))
  issuance_id ← hex64 (property (some r) (lit "issuanceId"))
  revision ← hex64 (property (some r) (lit "socialSessionIssuanceRevision"))
  acceptance_id ← hex64 (property (some r) (lit "acceptanceId"))
  issued_at ← safe_natural (property (some r) (lit "issuedAt"))
  expires_at ← safe_natural (property (some r) (lit "expiresAt"))
  guard (is_span issued_at expires_at)
  some (record {
    issuance_id = issuance_id;
    revision = revision;
    acceptance_id = acceptance_id;
    issued_at = issued_at;
    expires_at = expires_at;
  })

-- An active response names the subject, and holds the token when it is no answer to `resolve`.
pub data Response : Type 0 where
  active : Receipt → (subject : Text) (token : Option Text) → Response
  inactive : Receipt → Response

abbrev pub response_fields : Bool → List Text
response_fields resolve =
    if resolve
    then map lit ("receipt" ∷ "subject" ∷ "currentActive" ∷ [])
    else map lit ("receipt" ∷ "subject" ∷ "currentActive" ∷ "viewerAccessToken" ∷ [])

abbrev pub access_token : Value → Option Text
access_token v = when (is_access_token v) (as_string v)

-- The token of an active response that has one.
abbrev pub token_of : Bool → Fields → Option (Option Text)
token_of resolve r =
    if resolve
    then some none
    else do t ← access_token (property (some r) (lit "viewerAccessToken")); some (some t)

unfoldable pub validate_current : Bool → ℕ → Receipt → Fields → Value → Option Response
unfolding property
validate_current resolve at receipt r (boolean true) = do
  guard (leb receipt.issued_at at && ltb at receipt.expires_at)
  subject ← hex64 (property (some r) (lit "subject"))
  token ← token_of resolve r
  some (active receipt subject token)
validate_current resolve at receipt r (boolean false) = do
  guard (is_null (property (some r) (lit "subject")))
  guard (resolve || is_null (property (some r) (lit "viewerAccessToken")))
  some (inactive receipt)
validate_current resolve at receipt r _ = none

unfoldable pub validate_response : Bool → ℕ → Value → Option Response
unfolding own property validate_receipt validate_current
validate_response resolve at source = do
  r ← own source (response_fields resolve)
  receipt ← validate_receipt (property (some r) (lit "receipt"))
  validate_current resolve at receipt r (property (some r) (lit "currentActive"))

unfoldable pub is_revocation : Text → Value → Bool
unfolding own property
is_revocation issuance_id source =
    elim (own source (map lit ("schema" ∷ "version" ∷ "issuanceId" ∷ "status" ∷ []))) [
      | none ↦ false
      | some r ↦
          is_text (lit "hodlxxi.social_session_revocation.v2") (property (some r) (lit "schema"))
          && is_two (property (some r) (lit "version"))
          && is_text issuance_id (property (some r) (lit "issuanceId"))
          && is_text (lit "revoked") (property (some r) (lit "status"))
    ]

unfoldable pub same_receipt : Receipt → Receipt → Bool
same_receipt a b =
    a.issuance_id === b.issuance_id
    && a.revision === b.revision
    && a.acceptance_id === b.acceptance_id
    && a.issued_at == b.issued_at
    && a.expires_at == b.expires_at
