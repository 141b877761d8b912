-- ===== src/Capability/Issuer.antt =====
-- `createOpaqueRecipientCapabilityIssuer` of src/server/opaque-recipient-capability-issuer.mjs, over any
-- capability store: `capability_issue` is the store's method, which may throw.
use hodlxxi_social.Prelude.{
  ℕ, ◌+◌, ◌-◌, Bool, true, ◌&&◌, Option, none, some, [], ◌∷◌, map, ltb, leb, ◌>>=◌, ◌>>◌, guard,
}
use hodlxxi_social.Js.Text.{Text, lit, includes}
use hodlxxi_social.Js.Value.{
  Value, undefined, string, number, nat, safe_natural, as_string, is_text, max_safe_integer,
  Outcome,
}
use hodlxxi_social.Js.Record.{exact_record, property}
use hodlxxi_social.Js.Record.Laws.{record_value}
use hodlxxi_social.Capability.Syntax.{
  direct_message, max_ttl_ms, is_capability, canonical_session_id, privacy_safe_alias,
}
use hodlxxi_social.Capability.Syntax.Aliases.{aliases_value}
use hodlxxi_social.Capability.Store.{Grant}
use hodlxxi_social.Capability.Admission.{
  data_method, is_function, Environment, Admission, admit, returned,
}

-- The argument of the constructor.
pub record Dependencies : Type 0 where
  pub sessions : Value
  pub session_reader : Value
  pub authority_reader : Value
  pub full_directory_client : Value
  pub capability_store : Value
  pub clock : Value

-- `undefined` or a function
abbrev pub optional_function : Value → Bool
optional_function undefined = true
optional_function v = is_function (some v)

-- Whether the constructor returns, and does not throw the TypeError.
unfoldable pub accepts : Dependencies → Bool
unfolding data_method
accepts d =
    data_method d.sessions (lit "get")
    && optional_function d.session_reader
    && is_function (some d.authority_reader)
    && data_method d.full_directory_client (lit "readForViewer")
    && data_method d.capability_store (lit "issue")
    && optional_function d.clock

unfoldable pub normalize_issued : Value → ℕ → Option Grant
normalize_issued value now =
    let fields = exact_record value (map lit ("state" ∷ "capability" ∷ "expiresAt" ∷ [])) in
    do
      expires_at ← safe_natural (property fields (lit "expiresAt"))
      guard (is_text (lit "available") (property fields (lit "state")))
      capability ← as_string (property fields (lit "capability"))
      guard (is_capability capability)
      guard (ltb now expires_at)
      guard (leb now (max_safe_integer - max_ttl_ms))
      guard (leb expires_at (now + max_ttl_ms))
      some (record { capability = capability; expires_at = expires_at })

pub record Request : Type 0 where
  pub session_id : Text
  pub alias : Text

unfoldable pub read_request : Value → Option Request
read_request input =
    let fields = exact_record input (map lit ("sessionId" ∷ "alias" ∷ [])) in
    do
      session_id ← canonical_session_id (property fields (lit "sessionId"))
      alias ← privacy_safe_alias (property fields (lit "alias"))
      some (record { session_id = session_id; alias = alias })

-- All that stands before the call of the store.
unfoldable pub prepare : Environment → Value → Option (Request × Admission)
prepare env input = do
  request ← read_request input
  admission ← admit env request.session_id
  guard (includes admission.participants request.alias)
  some (request, admission)

-- The argument of the store's `issue`.
unfoldable pub store_input : Request → Admission → Value
store_input r a = record_value (
    (lit "subject", string a.subject)
    ∷ (lit "sessionId", string a.session_id)
    ∷ (lit "alias", string r.alias)
    ∷ (lit "purpose", string direct_message)
    ∷ (lit "currentAliases", aliases_value a.participants)
    ∷ (lit "now", number (nat a.now))
    ∷ [])

module _ {ℓ} {S : Type ℓ} (capability_issue : Value → S → Outcome Value × S) where
  abbrev normalized : ℕ → Outcome Value × S → Option Grant × S
  normalized now (answer, store) = (returned answer >>= λ v. normalize_issued v now, store)

  unfoldable pub issue : Environment → Value → S → Option Grant × S
  issue env input store = elim (prepare env input) [
    | none ↦ (none, store)
    | some (r, a) ↦ normalized a.now (capability_issue (store_input r a) store)
  ]
