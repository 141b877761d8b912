-- ===== src/Sessions/Native/Interleaving.antt =====
-- The parts of the handlers of the manager of native sessions, in any order.
pub mod Parts
pub mod Installs
pub mod Extension
pub mod Denial
use mathlib.Core.Option.{some-injective}
use hodlxxi_social.Prelude.{
  ℕ, suc, ◌+◌, ◌≡◌, refl, sym, ap, ◌∙◌, subst, ◌≢◌, Bool, true, false, not, ◌&&◌, Option, none,
  some, List, [], ◌∷◌, ◌++◌, leb, ltb, length, Bool-cases, Option-cases, inl, inr,
}
use hodlxxi_social.Js.Text.{Text}
use hodlxxi_social.Js.Map
use hodlxxi_social.Js.Value.{Value, string, Outcome, returns, throws, safe_natural}
use hodlxxi_social.Capability.Random.{Drawn}
use hodlxxi_social.Sessions.Bounded.{as_key, Config}
use hodlxxi_social.Sessions.Store.Mobile.{Session}
use hodlxxi_social.Sessions.Store.{
  Logout, Entries, create, get, get_for_logout, get_logout_state, begin_logout, confirm,
}
use hodlxxi_social.Sessions.Store.Invariant.{
  Call, creates, gets, gets_for_logout, gets_logout_state, begins_logout, confirms, step, run,
  SessionsInv,
}
use hodlxxi_social.Sessions.Store.Denial.{SparesKey, AllSpare}
use hodlxxi_social.Sessions.Native.Records.{NativeRecord, record_object}
use hodlxxi_social.Sessions.Native.Action.{
  Manager, Act, pure, fail, lift, ◌>>=◌, ◌>>◌, require, returned, calls, continue, now, enqueue,
  release, finish, finish_failed,
}
use hodlxxi_social.Sessions.Native.{
  checked, native_of, over_if, is_current, read_begins, read_ends, Leaving, logout_begins,
  logout_enters, logout_ends,
}
use hodlxxi_social.Sessions.Native.Install.{
  Installing, install_begins, sweep_aliases, install_enters, key_of_bytes, install_new,
  install_again, install_ends, Cancelling, cancel_begins, cancel_enters, cancel_ends,
}

pub data Event : Type 0 where
  begins_read : (clock : ℕ → ℕ) (id : Text) → Event
  ends_read :
      (readings : ℕ → Value) (clock : ℕ → ℕ) (id : Text) → NativeRecord → Outcome Value → Event
  begins_leaving : (clock later : ℕ → ℕ) (id : Text) → Event
  enters_leaving : (clock : ℕ → ℕ) (id : Text) → Leaving → Event
  ends_leaving : (id : Text) → Leaving → Outcome Value → Event
  begins_install : (reading source expectations : Value) → Event
  enters_install :
      (still : ℕ → Outcome Bool) (reading : Value) (clock : ℕ → ℕ → ℕ) → Installing → Event
  ends_install :
      (still : ℕ → Outcome Bool) (readings : ℕ → Value) (entropy : Drawn) (clock later : ℕ → ℕ)
      → Installing
      → Outcome Value
      → Event
  begins_cancel : (source : Value) → Event
  enters_cancel : (clock : ℕ → ℕ) → Cancelling → Event
  ends_cancel : Cancelling → Outcome Value → Event

unfoldable pub perform : Config → ℕ → Manager → Event → Manager
perform config capacity m (begins_read clock id) = (read_begins clock id m).1
perform config capacity m (ends_read readings clock id original answer) =
    (read_ends readings clock id original answer m).1
perform config capacity m (begins_leaving clock later id) =
    (logout_begins capacity clock later id m).1
perform config capacity m (enters_leaving clock id leaving) = (logout_enters clock id leaving m).1
perform config capacity m (ends_leaving id leaving answer) = (logout_ends id leaving answer m).1
perform config capacity m (begins_install reading source expectations) =
    (install_begins capacity reading source expectations m).1
perform config capacity m (enters_install still reading clock installing) =
    (install_enters still reading clock installing m).1
perform config capacity m (ends_install still readings entropy clock later installing answer) =
    (install_ends config capacity still readings entropy clock later installing answer m).1
perform config capacity m (begins_cancel source) = (cancel_begins capacity source m).1
perform config capacity m (enters_cancel clock cancelling) = (cancel_enters clock cancelling m).1
perform config capacity m (ends_cancel cancelling answer) = (cancel_ends cancelling answer m).1

unfoldable pub perform_all : Config → ℕ → Manager → List Event → Manager
unfolding perform
perform_all config capacity m [] = m
perform_all config capacity m (e ∷ es) =
    perform_all config capacity (perform config capacity m e) es
