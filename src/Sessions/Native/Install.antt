-- ===== src/Sessions/Native/Install.antt =====
-- `install` and `cancelUninstalled` of src/server/social-native-session-v2.mjs, cut at their awaits.
-- `still i` is what the i-th call of `stillCurrent` does: whether it answers exactly true, or throws.
use hodlxxi_social.Prelude.{
  ℕ, suc, ◌-◌, ◌/◌, Bool, true, false, not, ◌&&◌, Option, none, some, List, [], ◌∷◌, map, ◌==◌, leb,
  ltb, length, if◌then◌else◌,
}
use hodlxxi_social.Js.Text.{Text, lit}
use hodlxxi_social.Js.Map
use hodlxxi_social.Js.Value.{Value, string, function, safe_natural, is_text, Outcome}
use hodlxxi_social.Js.Record.{Fields, property}
use hodlxxi_social.Capability.Random.{Drawn, bytes, base64url}
use hodlxxi_social.Sessions.Bounded.{Config}
use hodlxxi_social.Sessions.Store.Mobile.{Session, is_hex64}
use hodlxxi_social.Sessions.Store.{Created, created, create, get, get_for_logout, begin_logout}
use hodlxxi_social.Sessions.Native.Responses.{
  own, Receipt, Response, active, validate_response, is_revocation,
}
use hodlxxi_social.Sessions.Native.Records.{NativeRecord, record_object, read_native, same_record}
use hodlxxi_social.Sessions.Native.Action.{
  Act, pure, fail, lift, ◌>>=◌, ◌>>◌, require, returned, calls, now, enqueue, finish, finish_failed,
}
use hodlxxi_social.Sessions.Native.{checked, native_of}

-- What an installation holds while it waits.
pub record Installing : Type 0 where
  pub native : NativeRecord
  pub ticket : ℕ

abbrev pub is_function : Value → Bool
is_function function = true
is_function _ = false

abbrev pub at_most : Option ℕ → ℕ → Bool
at_most none n = false
at_most (some limit) n = leb n limit

-- The record of an active response that is what the caller expects.
unfoldable pub expected_record : Fields → Response → Option NativeRecord
unfolding property
expected_record expected (active receipt subject (some token)) =
    if is_hex64 (property (some expected) (lit "subject"))
      && is_hex64 (property (some expected) (lit "acceptanceId"))
      && is_function (property (some expected) (lit "stillCurrent"))
      && is_text subject (property (some expected) (lit "subject"))
      && is_text receipt.acceptance_id (property (some expected) (lit "acceptanceId"))
      && at_most (safe_natural (property (some expected) (lit "maximumExpiresAt")))
          receipt.expires_at
    then some (record { subject = subject; token = token; receipt = receipt })
    else none
expected_record expected _ = none

unfoldable pub install_begins : ℕ → (reading source expectations : Value) → Act Installing
unfolding own now validate_response expected_record enqueue
install_begins capacity reading source expectations = do
  expected ← lift (
      own expectations
        (map lit ("subject" ∷ "acceptanceId" ∷ "maximumExpiresAt" ∷ "stillCurrent" ∷ [])))
  at ← now reading
  response ← lift (validate_response false at source)
  native ← lift (expected_record expected response)
  ticket ← enqueue capacity native.receipt.issuance_id
  pure (record { native = native; ticket = ticket })

abbrev pub forget_if : Option Session → Text → Act (Unit {0})
forget_if none issuance m = (some tt, record m { aliases = Map.delete m.aliases issuance })
forget_if (some s) issuance m = (some tt, m)

-- The loop over the aliases; `clock i` are the readings of the store at the i-th call.
unfoldable pub sweep_aliases : (ℕ → ℕ → ℕ) → ℕ → List (Text × Text) → Act (Unit {0})
unfolding get_for_logout
sweep_aliases clock i [] = pure tt
sweep_aliases clock i ((issuance, id) ∷ rest) = do
  retained ← calls (get_for_logout (clock i) id)
  forget_if retained issuance
  sweep_aliases clock (suc i) rest

abbrev pub all_aliases : Act (List (Text × Text))
all_aliases m = (some m.aliases, m)

-- In its turn, before `resolve` is asked.
unfoldable pub install_enters :
    (still : ℕ → Outcome Bool) → Value → (ℕ → ℕ → ℕ) → Installing → Act (Unit {0})
unfolding now sweep_aliases
install_enters still reading clock installing = finish_failed installing.ticket (do
  _ ← now reading
  aliases ← all_aliases
  _ ← sweep_aliases clock 0 aliases
  current ← returned (still 0)
  require current)

abbrev was_created : Created → Bool
was_created created = true
was_created _ = false

abbrev pub key_of_bytes : Drawn → Option Text
key_of_bytes (bytes bs) = if length bs == 32 then some (base64url bs) else none
key_of_bytes _ = none

abbrev pub alias_of : Text → Act (Option Text)
alias_of issuance m = (some (Map.get m.aliases issuance), m)

abbrev pub alias_count : Act ℕ
alias_count m = (some (length m.aliases), m)

abbrev pub remember : Text → Text → Act (Unit {0})
remember issuance id m = (some tt, record m { aliases = Map.set m.aliases issuance id })

-- A session of the record under a fresh key.
unfoldable pub install_new : Config → ℕ → Drawn → (ℕ → ℕ) → NativeRecord → Act Text
unfolding create
install_new config capacity entropy clock native = do
  count ← alias_count
  require (not (leb capacity count))
  id ← lift (key_of_bytes entropy)
  made ← calls (create config true clock (string id) (record_object native))
  require (was_created made)
  remember native.receipt.issuance_id id
  pure id

-- The session that was installed before under the same issuance.
unfoldable pub install_again : (ℕ → ℕ) → Text → NativeRecord → Act Text
unfolding read_native same_record
install_again clock id native = do
  original ← calls (get clock id)
  found ← lift (native_of original)
  require (same_record found native)
  pure id

-- Begins the logout of what was installed, and fails.
abbrev pub withdraw {ℓ} : {A : Type ℓ} → (ℕ → ℕ) → Text → Act A
withdraw clock id = do _ ← calls (begin_logout clock id); fail

abbrev pub withdraw_unless : Bool → (ℕ → ℕ) → Text → Act (Unit {0})
withdraw_unless true clock id = pure tt
withdraw_unless false clock id = withdraw clock id

abbrev pub installed : Config → ℕ → Drawn → (ℕ → ℕ) → NativeRecord → Option Text → Act Text
installed config capacity entropy clock native none =
    install_new config capacity entropy clock native
installed config capacity entropy clock native (some id) = install_again clock id native

-- After the answer to `resolve`: the key of the session and its age in seconds.
unfoldable pub install_ends :
    Config
    → ℕ
    → (still : ℕ → Outcome Bool) → (readings : ℕ → Value) → Drawn
    → (clock later : ℕ → ℕ) → Installing
    → Outcome Value
    → Act (Text × ℕ)
unfolding checked now install_new install_again
install_ends config capacity still readings entropy clock later installing answer =
    let native = installing.native in
    finish installing.ticket (do
      checked (readings 0) native answer
      current ← returned (still 1)
      require current
      before ← now (readings 1)
      require (ltb before native.receipt.expires_at)
      alias ← alias_of native.receipt.issuance_id
      id ← installed config capacity entropy clock native alias
      kept ← returned (still 2)
      withdraw_unless kept later id
      at ← now (readings 2)
      let max_age = (native.receipt.expires_at - at) / 1000
      withdraw_unless (leb 1 max_age) later id
      pure (id, max_age))

-- What a cancellation holds while it waits.
pub record Cancelling : Type 0 where
  pub receipt : Receipt
  pub token : Text
  pub ticket : ℕ

abbrev delivered : Response → Option (Receipt × Text)
delivered (active receipt subject (some token)) = some (receipt, token)
delivered _ = none

abbrev raw_issued_at : Option Fields → Option ℕ
raw_issued_at none = none
raw_issued_at (some raw) = safe_natural (property (some raw) (lit "issuedAt"))

-- `cancelUninstalled` before its turn: the delivery is checked at the time of its own receipt.
unfoldable pub cancel_begins : ℕ → Value → Act Cancelling
unfolding own property validate_response enqueue
cancel_begins capacity source = do
  original ←
      lift
        (own source (map lit ("receipt" ∷ "subject" ∷ "currentActive" ∷ "viewerAccessToken" ∷ [])))
  at ← lift (
      raw_issued_at (
        own (property (some original) (lit "receipt")) (
          map lit (
            "schema" ∷ "version" ∷ "issuanceId" ∷ "socialSessionIssuanceRevision" ∷ "acceptanceId"
            ∷ "issuedAt" ∷ "expiresAt" ∷ []))))
  response ← lift (validate_response false at source)
  active_one ← lift (delivered response)
  ticket ← enqueue capacity active_one.0.issuance_id
  pure (record { receipt = active_one.0; token = active_one.1; ticket = ticket })

abbrev pub withdraw_alias : (ℕ → ℕ) → Option Text → Act (Unit {0})
withdraw_alias clock none = pure tt
withdraw_alias clock (some id) = do _ ← calls (begin_logout clock id); pure tt

-- In its turn: what is installed is denied before `revoke` is asked.
unfoldable pub cancel_enters : (ℕ → ℕ) → Cancelling → Act (Unit {0})
unfolding begin_logout
cancel_enters clock cancelling = do
  alias ← alias_of cancelling.receipt.issuance_id
  withdraw_alias clock alias

unfoldable pub cancel_ends : Cancelling → Outcome Value → Act (Unit {0})
unfolding is_revocation
cancel_ends cancelling answer =
    finish cancelling.ticket
      (do value ← returned answer; require (is_revocation cancelling.receipt.issuance_id value))
