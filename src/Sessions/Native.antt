-- ===== src/Sessions/Native.antt =====
-- `createNativeV2SessionManager` of src/server/social-native-session-v2.mjs. Each handler is cut at its
-- awaits: what it does before the first, after its turn in `serialize`, and after the answer.
--
-- `===` on stored records and on logout states compares objects there and their fields here; a record
-- that is stored again under the key of an equal one would differ there.
pub mod Responses
pub mod Action
pub mod Records
pub mod Install
pub mod Sparing
pub mod Interleaving
pub mod Confirming
pub mod Answers
use hodlxxi_social.Prelude.{
  ℕ, suc, ◌+◌, ◌-◌, ◌*◌, ◌/◌, Bool, true, false, not, ◌&&◌, ◌||◌, Option, none, some, List, [], ◌∷◌,
  map, ◌==◌, leb, ltb, length, if◌then◌else◌,
}
use hodlxxi_social.Js.Text.{Text, lit, ◌===◌}
use hodlxxi_social.Js.Map
use hodlxxi_social.Js.Value.{
  Value, object, array, string, number, nat, entries, data_value, name, as_string, safe_natural,
  Outcome, returns, throws,
}
use hodlxxi_social.Js.Record.{Fields, property}
use hodlxxi_social.Js.Record.Laws.{record_value}
use hodlxxi_social.Capability.Random.{Drawn, bytes, not_bytes, base64url}
use hodlxxi_social.Sessions.Bounded.{Config}
use hodlxxi_social.Sessions.Store.Mobile.{Kind, ordinary, mobile_v1, mobile_v2, Session}
use hodlxxi_social.Sessions.Store.{
  Logout, Entries, Created, created, refused, type_error, create, get, get_for_logout,
  get_logout_state, begin_logout, confirm,
}
use Responses.{
  own, hex64, Receipt, Response, active, inactive, validate_receipt, validate_response,
  is_revocation, same_receipt,
}
use Records.{NativeRecord, record_object, read_native, same_record}
use Action.{
  Manager, Act, pure, fail, lift, ◌>>=◌, ◌>>◌, require, returned, calls, now, enqueue, release,
  finish, finish_failed,
}

abbrev pub native_of : Option Session → Option NativeRecord
native_of none = none
native_of (some s) = read_native s

abbrev pub is_current : NativeRecord → Response → Bool
is_current r (inactive receipt) = false
is_current r (active receipt subject token) =
    subject === r.subject && same_receipt receipt r.receipt

-- the parts of `checked` after the answer to `resolve`
unfoldable pub checked : Value → NativeRecord → Outcome Value → Act (Unit {0})
unfolding now validate_response same_receipt
checked reading r answer = do
  value ← returned answer
  at ← now reading
  response ← lift (validate_response true at value)
  require (is_current r response)

-- `capabilityRead` before `resolve` is asked about the record.
unfoldable pub read_begins : (ℕ → ℕ) → Text → Act NativeRecord
unfolding read_native
read_begins clock id = do original ← calls (get clock id); lift (native_of original)

-- And after: `readings` are those of `now`.
unfoldable pub read_ends :
    (readings : ℕ → Value) → (ℕ → ℕ) → Text → NativeRecord → Outcome Value → Act NativeRecord
unfolding checked read_native same_record now
read_ends readings clock id original answer = do
  _ ← checked (readings 0) original answer
  again ← calls (get clock id)
  found ← lift (native_of again)
  require (same_record found original)
  at ← now (readings 1)
  require (ltb at original.receipt.expires_at)
  pure original

-- What a logout holds while it waits.
pub record Leaving : Type 0 where
  pub native : NativeRecord
  pub state : Logout
  pub ticket : ℕ

-- `logout` before its turn. The denial comes before `enqueue`, which may fail.
unfoldable pub logout_begins : ℕ → (clock later : ℕ → ℕ) → Text → Act Leaving
unfolding read_native enqueue
logout_begins capacity clock later id = do
  retained ← calls (get_for_logout clock id)
  native ← lift (native_of retained)
  denied ← calls (begin_logout later id)
  state ← lift denied
  ticket ← enqueue capacity native.receipt.issuance_id
  pure (record { native = native; state = state; ticket = ticket })

abbrev same_original : Option NativeRecord → Option NativeRecord → Bool
same_original (some a) (some b) = same_record a b
same_original _ _ = false

unfoldable pub same_logout : Logout → Logout → Bool
unfolding read_native same_record
same_logout a b =
    a.until == b.until && same_original (read_native a.original) (read_native b.original)

abbrev pub over_if : Bool → ℕ → Manager → Manager
over_if true ticket m = release ticket m
over_if false ticket m = m

-- In its turn: whether the revocation was confirmed before, which ends the work.
unfoldable pub logout_enters : (ℕ → ℕ) → Text → Leaving → Act Bool
unfolding same_logout
logout_enters clock id leaving = finish_failed leaving.ticket (do
  found ← calls (get_logout_state clock id)
  state ← lift found
  require (same_logout state leaving.state)
  λ m. (some state.confirmed, over_if state.confirmed leaving.ticket m))

-- After the answer to `revoke`.
unfoldable pub logout_ends : Text → Leaving → Outcome Value → Act Bool
unfolding is_revocation
logout_ends id leaving answer = finish leaving.ticket (do
  value ← returned answer
  require (is_revocation leaving.native.receipt.issuance_id value)
  calls (λ store. (true, confirm id store)))
