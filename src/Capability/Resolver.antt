-- ===== src/Capability/Resolver.antt =====
-- `createOpaqueRecipientCapabilityResolver` of src/server/opaque-recipient-capability-resolver.mjs, over
-- any capability store: `capability_resolve` is the store's method, which may throw.
use hodlxxi_social.Prelude.{Bool, ◌&&◌, Option, none, some, List, [], ◌∷◌, map, ◌>>=◌, ◌>>◌, guard}
use hodlxxi_social.Js.Text.{Text, lit, includes}
use hodlxxi_social.Js.Value.{Value, string, number, nat, as_string, is_text, Outcome}
use hodlxxi_social.Js.Record.{exact_record, property}
use hodlxxi_social.Js.Record.Laws.{record_value}
use hodlxxi_social.Capability.Syntax.{
  direct_message, is_capability, canonical_session_id, privacy_safe_alias,
}
use hodlxxi_social.Capability.Syntax.Aliases.{aliases_value}
use hodlxxi_social.Capability.Admission.{
  data_method, is_function, Environment, Admission, admit, returned,
}
use hodlxxi_social.Capability.Issuer.{Dependencies, optional_function}

unfoldable pub normalize_resolved : Value → List Text → Option Text
normalize_resolved value participants =
    let fields = exact_record value (map lit ("state" ∷ "alias" ∷ [])) in
    do
      alias ← privacy_safe_alias (property fields (lit "alias"))
      guard (is_text (lit "available") (property fields (lit "state")))
      guard (includes participants alias)
      some alias

-- Whether the constructor returns, and does not throw the TypeError.
unfoldable pub accepts : Dependencies → Bool
unfolding data_method
accepts d =
    data_method d.sessions (lit "get")
    && optional_function d.session_reader
    && is_function (some d.authority_reader)
    && data_method d.full_directory_client (lit "readForViewer")
    && data_method d.capability_store (lit "resolve")
    && optional_function d.clock

pub record Request : Type 0 where
  pub session_id : Text
  pub capability : Text

unfoldable pub read_request : Value → Option Request
read_request input =
    let fields = exact_record input (map lit ("sessionId" ∷ "capability" ∷ [])) in
    do
      session_id ← canonical_session_id (property fields (lit "sessionId"))
      capability ← as_string (property fields (lit "capability"))
      guard (is_capability capability)
      some (record { session_id = session_id; capability = capability })

-- All that stands before the call of the store.
unfoldable pub prepare : Environment → Value → Option (Request × Admission)
prepare env input = do
  request ← read_request input
  admission ← admit env request.session_id
  some (request, admission)

-- The argument of the store's `resolve`.
unfoldable pub store_input : Request → Admission → Value
store_input r a = record_value (
    (lit "subject", string a.subject)
    ∷ (lit "sessionId", string a.session_id)
    ∷ (lit "capability", string r.capability)
    ∷ (lit "purpose", string direct_message)
    ∷ (lit "currentAliases", aliases_value a.participants)
    ∷ (lit "now", number (nat a.now))
    ∷ [])

module _ {ℓ} {S : Type ℓ} (capability_resolve : Value → S → Outcome Value × S) where
  abbrev normalized : List Text → Outcome Value × S → Option Text × S
  normalized participants (answer, store) =
      (returned answer >>= λ v. normalize_resolved v participants, store)

  unfoldable pub resolve : Environment → Value → S → Option Text × S
  resolve env input store = elim (prepare env input) [
    | none ↦ (none, store)
    | some (r, a) ↦ normalized a.participants (capability_resolve (store_input r a) store)
  ]
