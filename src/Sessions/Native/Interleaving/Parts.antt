-- ===== src/Sessions/Native/Interleaving/Parts.antt =====
-- The parts of a read and of a logout do sequences of calls to the store.
use hodlxxi_social.Prelude.{ℕ, Bool, true, false, some}
use hodlxxi_social.Js.Text.{Text}
use hodlxxi_social.Js.Value.{Value, Outcome}
use hodlxxi_social.Sessions.Bounded.{Config}
use hodlxxi_social.Sessions.Native.Records.{NativeRecord}
use hodlxxi_social.Sessions.Native.Action.{release}
use hodlxxi_social.Sessions.Native.{
  checked, native_of, over_if, is_current, read_begins, read_ends, Leaving, logout_begins,
  logout_enters, logout_ends,
}
use hodlxxi_social.Sessions.Native.Sparing.{
  quiet, Sparing, bind-Sparing, then-Sparing, lift-Sparing, pure-Sparing, require-Sparing,
  returned-Sparing, now-Sparing, enqueue-Sparing, finish-Sparing, finish_failed-Sparing,
  get-Sparing, get_for_logout-Sparing, get_logout_state-Sparing, begin_logout-Sparing,
  confirm-Sparing,
}

module _ (config : Config) (capacity : ℕ) (k : Text) where
  pub read_begins-Sparing : (clock : ℕ → ℕ) (id : Text) → Sparing config k (read_begins clock id)
  unfolding read_begins
  read_begins-Sparing clock id =
      bind-Sparing config k (get-Sparing config k clock id)
        (λ o. lift-Sparing config k (native_of o))

  pub checked-Sparing :
      (reading : Value) (r : NativeRecord) (answer : Outcome Value)
      → Sparing config k (checked reading r answer)
  unfolding checked
  checked-Sparing reading r answer = bind-Sparing config k (returned-Sparing config k answer) (λ v.
      bind-Sparing config k (now-Sparing config k reading) (λ at.
        bind-Sparing config k (lift-Sparing config k _)
          (λ response. require-Sparing config k (is_current r response))))

  pub read_ends-Sparing :
      (readings : ℕ → Value) (clock : ℕ → ℕ) (id : Text) (original : NativeRecord)
      (answer : Outcome Value)
      → Sparing config k (read_ends readings clock id original answer)
  unfolding read_ends
  read_ends-Sparing readings clock id original answer =
      bind-Sparing config k (checked-Sparing (readings 0) original answer) (λ u.
        bind-Sparing config k (get-Sparing config k clock id) (λ again.
          bind-Sparing config k (lift-Sparing config k (native_of again)) (λ found.
            then-Sparing config k (require-Sparing config k _) (
              bind-Sparing config k (now-Sparing config k (readings 1)) (λ at.
                then-Sparing config k (require-Sparing config k _)
                  (pure-Sparing config k original))))))

  pub logout_begins-Sparing :
      (clock later : ℕ → ℕ) (id : Text) → Sparing config k (logout_begins capacity clock later id)
  unfolding logout_begins
  logout_begins-Sparing clock later id =
      bind-Sparing config k (get_for_logout-Sparing config k clock id) (λ retained.
        bind-Sparing config k (lift-Sparing config k (native_of retained)) (λ native.
          bind-Sparing config k (begin_logout-Sparing config k later id) (λ denied.
            bind-Sparing config k (lift-Sparing config k denied) (λ state.
              bind-Sparing config k (enqueue-Sparing config k capacity _)
                (λ ticket. pure-Sparing config k _)))))

  over_if-Sparing :
      (over : Bool) (ticket : ℕ) → Sparing config k (λ m. (some over, over_if over ticket m))
  unfolding release
  over_if-Sparing true ticket = record { extends = λ m. quiet config k m.store }
  over_if-Sparing false ticket = record { extends = λ m. quiet config k m.store }

  pub logout_enters-Sparing :
      (clock : ℕ → ℕ) (id : Text) (leaving : Leaving)
      → Sparing config k (logout_enters clock id leaving)
  unfolding logout_enters
  logout_enters-Sparing clock id leaving = finish_failed-Sparing config k leaving.ticket (
      bind-Sparing config k (get_logout_state-Sparing config k clock id) (λ found.
        bind-Sparing config k (lift-Sparing config k found) (λ state.
          then-Sparing config k (require-Sparing config k _)
            (over_if-Sparing state.confirmed leaving.ticket))))

  pub logout_ends-Sparing :
      (id : Text) (leaving : Leaving) (answer : Outcome Value)
      → Sparing config k (logout_ends id leaving answer)
  unfolding logout_ends
  logout_ends-Sparing id leaving answer = finish-Sparing config k leaving.ticket (
      bind-Sparing config k (returned-Sparing config k answer)
        (λ v. then-Sparing config k (require-Sparing config k _) (confirm-Sparing config k id)))
