-- ===== src/Sessions/Native/Interleaving/Denial.antt =====
-- Reads of native sessions after a logout was begun.
use hodlxxi_social.Prelude.{
  ℕ, ◌≡◌, refl, sym, subst, true, Option, none, some, List, leb, length, Bool-cases, Option-cases,
  inl, inr,
}
use hodlxxi_social.Js.Text.{Text}
use hodlxxi_social.Js.Value.{Value, Outcome}
use hodlxxi_social.Sessions.Bounded.{Config}
use hodlxxi_social.Sessions.Store.{Entries, get, get_for_logout, begin_logout}
use hodlxxi_social.Sessions.Store.Invariant.{gets_for_logout, step, run, SessionsInv}
use hodlxxi_social.Sessions.Native.Records.{NativeRecord}
use hodlxxi_social.Sessions.Native.Action.{Manager, Act, ◌>>=◌, calls, continue, enqueue}
use hodlxxi_social.Sessions.Native.{checked, native_of, read_begins, read_ends, logout_begins}
use hodlxxi_social.Sessions.Native.Sparing.{Extends, chain}
use hodlxxi_social.Sessions.Store.Denial.{logout_is_final}
use hodlxxi_social.Sessions.Store.Invariant.{step-SessionsInv}
use hodlxxi_social.Sessions.Native.Interleaving.{Event, perform_all}
use hodlxxi_social.Sessions.Native.Interleaving.Parts.{checked-Sparing}
use hodlxxi_social.Sessions.Native.Interleaving.Extension.{AllSpareId, perform_all-Extends}

continue-none {ℓ κ} :
    {A : Type ℓ} {B : Type κ} (p : Option A × Manager) (g : A → Act B)
    → ((a : A) → (g a p.1).0 ≡ none)
    → (continue p g).0 ≡ none
continue-none (none, m) g h = refl
continue-none (some a, m) g h = h a

-- Once the record is known to be native, the denial is written whether or not there is room to wait.
logout_begins-store :
    (capacity : ℕ) (clock later : ℕ → ℕ) (id : Text) (m : Manager) (native : NativeRecord)
    → native_of (get_for_logout clock id m.store).0 ≡ some native
    → (logout_begins capacity clock later id m).1.store
      ≡ (begin_logout later id (get_for_logout clock id m.store).1).1
unfolding logout_begins ◌>>=◌ calls enqueue
logout_begins-store capacity clock later id m native e =
    let denied = begin_logout later id (get_for_logout clock id m.store).1 in
    elim (Option-cases denied.0) [
      | inl f ↦ rw (e, f) refl
      | inr (state, f) ↦ elim (Bool-cases (leb capacity (length m.queue))) [
        | inl full ↦ rw (e, f, full) refl
        | inr room ↦ rw (e, f, room) refl
      ]
    ]

read_begins-none :
    (clock : ℕ → ℕ) (id : Text) (m : Manager)
    → (get clock id m.store).0 ≡ none
    → (read_begins clock id m).0 ≡ none
unfolding read_begins ◌>>=◌ calls
read_begins-none clock id m h = rw h refl

read_ends-none :
    (readings : ℕ → Value) (clock : ℕ → ℕ) (id : Text) (original : NativeRecord)
    (answer : Outcome Value) (m : Manager)
    → (get clock id (checked (readings 0) original answer m).1.store).0 ≡ none
    → (read_ends readings clock id original answer m).0 ≡ none
unfolding read_ends ◌>>=◌ calls
read_ends-none readings clock id original answer m h =
    continue-none (checked (readings 0) original answer m) _ (λ u. rw h refl)

swept-SessionsInv :
    (config : Config) (clock : ℕ → ℕ) (id : Text) (store : Entries)
    → SessionsInv config store
    → SessionsInv config (get_for_logout clock id store).1
unfolding step
swept-SessionsInv config clock id store inv =
    step-SessionsInv config true store (gets_for_logout clock id) inv

-- Once a logout of a native session has begun, even when it then fails, no read answers a record: none
-- that begins later, and none that began before with whatever record it holds and whatever answer it
-- gets; the parts of all handlers may run in between in any order, unless an installation draws the
-- same key.
pub native_logout_is_final :
    (config : Config) (capacity : ℕ) (clock later : ℕ → ℕ) (id : Text) (m : Manager)
    (native : NativeRecord) (events : List Event) (readings : ℕ → Value) (time : ℕ → ℕ)
    (original : NativeRecord) (answer : Outcome Value)
    → SessionsInv config m.store
    → native_of (get_for_logout clock id m.store).0 ≡ some native
    → AllSpareId id events
    → ((read_begins time id
          (perform_all config capacity (logout_begins capacity clock later id m).1 events)).0
        ≡ none)
      × ((read_ends readings time id original answer
            (perform_all config capacity (logout_begins capacity clock later id m).1 events)).0
          ≡ none)
native_logout_is_final config capacity clock later id m native events readings time original answer
      inv found spares =
    let begun = (logout_begins capacity clock later id m).1 in
    let end = perform_all config capacity begun events in
    let kept = perform_all-Extends config capacity id begun events spares in
    let more = (checked-Sparing config capacity id (readings 0) original answer).extends end in
    (
      read_begins-none time id end (gone end.store kept),
      read_ends-none readings time id original answer end (
          gone (checked (readings 0) original answer end).1.store
            (chain config id begun.store end.store _ kept more)),
    )
  where
    gone :
        (store : Entries)
        → Extends config id (logout_begins capacity clock later id m).1.store store
        → (get time id store).0 ≡ none
    gone store x =
        subst (λ s. (get time id s).0 ≡ none) x.same
          (subst (λ s. (get time id (run config true s x.made)).0 ≡ none)
            (sym (logout_begins-store capacity clock later id m native found))
            (logout_is_final config true later time id (get_for_logout clock id m.store).1 x.made
              (λ s. true) (swept-SessionsInv config clock id m.store inv) x.spare).0)
