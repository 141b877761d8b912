-- ===== src/Sessions/Native/Answers.antt =====
-- What the handlers of the manager of native sessions answer, and on which grounds.
use mathlib.Core.Option.{some-injective}
use hodlxxi_social.Prelude.{
  ℕ, ◌≤◌, ◌<◌, ◌≡◌, refl, sym, ap, ◌∙◌, Bool, true, false, Option, none, some, ltb, Bool-cases,
  Option-cases, inl, inr, arith,
}
use hodlxxi_social.Js.Text.{Text}
use hodlxxi_social.Js.Value.{Value, Outcome, returns, throws, safe_natural}
use hodlxxi_social.Sessions.Store.Mobile.{Session}
use hodlxxi_social.Sessions.Store.{Entries, get}
use hodlxxi_social.Sessions.Native.Responses.{validate_response, is_revocation}
use hodlxxi_social.Sessions.Native.Records.{NativeRecord, same_record}
use hodlxxi_social.Sessions.Native.Confirming.{Confirms, is_current-Confirms, same_record-eq-true}
use hodlxxi_social.Sessions.Native.Action.{
  Manager, Act, lift, ◌>>=◌, ◌>>◌, require, returned, calls, continue, now, finish,
}
use hodlxxi_social.Sessions.Native.{checked, native_of, is_current, read_ends, Leaving, logout_ends}

continue_answers {ℓ κ} :
    {A : Type ℓ} {B : Type κ} (p : Option A × Manager) (g : A → Act B) {b : B}
    → (continue p g).0 ≡ some b
    → (a : A) × (p.0 ≡ some a) × ((g a p.1).0 ≡ some b)
continue_answers (none, m) g h = cc
continue_answers (some a, m) g h = (a, refl, h)

-- The steps of a chain of actions that answers.
bind_answers {ℓ κ} :
    {A : Type ℓ} {B : Type κ} (act : Act A) (g : A → Act B) (m : Manager) {b : B}
    → ((act >>= g) m).0 ≡ some b
    → (a : A) × ((act m).0 ≡ some a) × ((g a (act m).1).0 ≡ some b)
unfolding ◌>>=◌
bind_answers act g m h = continue_answers (act m) g h

then_answers {ℓ} :
    {B : Type ℓ} (test : Bool) (next : Act B) (m : Manager) {b : B}
    → ((require test >> next) m).0 ≡ some b
    → (test ≡ true) × ((next m).0 ≡ some b)
unfolding ◌>>◌ ◌>>=◌ require
then_answers true next m h = (refl, h)
then_answers false next m h = cc

require_answers :
    (test : Bool) (m : Manager) {u : Unit {0}} → (require test m).0 ≡ some u → test ≡ true
unfolding require
require_answers true m h = refl
require_answers false m h = cc

calls_answers {ℓ} :
    {A : Type ℓ} (f : Entries → A × Entries) (m : Manager) (a : A)
    → (calls f m).0 ≡ some a
    → (f m.store).0 ≡ a
unfolding calls
calls_answers f m a h = some-injective _ _ h

now_answers :
    (reading : Value) (m : Manager) (at : ℕ)
    → (now reading m).0 ≡ some at
    → (safe_natural reading ≡ some at) × (m.previous ≤ at)
unfolding now
now_answers reading m at h = elim (Option-cases (safe_natural reading)) [
  | inl e ↦ absurd (ground (arith, e))
  | inr (n, e) ↦ elim (Bool-cases (ltb n m.previous)) [
    | inl back ↦ absurd (ground (arith, e, back))
    | inr on ↦ (ground (arith, e, on), ground (arith, e, on))
  ]
]

returned_answers {ℓ} :
    {A : Type ℓ} (o : Outcome A) (m : Manager) {a : A} → (returned o m).0 ≡ some a → o ≡ returns a
unfolding returned
returned_answers (returns b) m h = ap returns (some-injective _ _ h)
returned_answers throws m h = cc

-- A backend's answer, that was read at the time `at`, names the record's subject and receipt as active.
pub record IsConfirmed (reading : Value) (r : NativeRecord) (answer : Outcome Value) : Type 0 where
  pub value : Value
  pub at : ℕ
  pub answered : answer ≡ returns value
  pub read : safe_natural reading ≡ some at
  pub confirms : Confirms value at r.subject r.receipt

checked_answers :
    (reading : Value) (r : NativeRecord) (answer : Outcome Value) (m : Manager) {u : Unit {0}}
    → (checked reading r answer m).0 ≡ some u
    → IsConfirmed reading r answer
unfolding checked
checked_answers reading r answer m h =
    let (value, e1, h1) = bind_answers (returned answer) _ m h in
    let (at, e2, h2) = bind_answers (now reading) _ _ h1 in
    let (response, e3, h3) = bind_answers (lift (validate_response true at value)) _ _ h2 in
    record {
      value = value;
      at = at;
      answered = returned_answers answer m e1;
      read = (now_answers reading _ at e2).0;
      confirms =
          is_current-Confirms value at r response e3 (require_answers (is_current r response) _ h3);
    }

continue-store {ℓ κ} :
    {A : Type ℓ} {B : Type κ} (store : Entries) (p : Option A × Manager) (g : A → Act B)
    → p.1.store ≡ store
    → ((a : A) (m : Manager) → (g a m).1.store ≡ m.store)
    → (continue p g).1.store ≡ store
continue-store store (none, m) g h hg = h
continue-store store (some a, m) g h hg = hg a m ∙ h

returned-store {ℓ} : {A : Type ℓ} (o : Outcome A) (m : Manager) → (returned o m).1.store ≡ m.store
unfolding returned
returned-store (returns a) m = refl
returned-store throws m = refl

require-store : (test : Bool) (m : Manager) → (require test m).1.store ≡ m.store
unfolding require
require-store true m = refl
require-store false m = refl

now-store : (reading : Value) (m : Manager) → (now reading m).1.store ≡ m.store
unfolding now
now-store reading m = elim (Option-cases (safe_natural reading)) [
  | inl e ↦ rw (e, now) refl
  | inr (at, e) ↦ elim (Bool-cases (ltb at m.previous)) [
    | inl back ↦ rw (e, now, back) refl
    | inr on ↦ rw (e, now, on) refl
  ]
]

checked-store :
    (reading : Value) (r : NativeRecord) (answer : Outcome Value) (m : Manager)
    → (checked reading r answer m).1.store ≡ m.store
unfolding checked ◌>>=◌
checked-store reading r answer m =
    continue-store m.store (returned answer m) _ (returned-store answer m) (λ value n.
      continue-store n.store (now reading n) _ (now-store reading n) (λ at n'.
        continue-store n'.store (lift (validate_response true at value) n') _ refl
          (λ response n''. require-store (is_current r response) n'')))

-- A read that answers gives the record that it began with, after the backend's answer has said that the
-- session of its subject and with its very receipt is active, at a time within the lifetime of the
-- receipt, while the store still gives out the same record under the key, and before its expiry.
pub read_ends_answers :
    (readings : ℕ → Value) (clock : ℕ → ℕ) (id : Text) (original : NativeRecord)
    (answer : Outcome Value) (m : Manager) (r : NativeRecord)
    → (read_ends readings clock id original answer m).0 ≡ some r
    → (r ≡ original)
      × IsConfirmed (readings 0) original answer
      × (native_of (get clock id m.store).0 ≡ some original)
      × ((at : ℕ) × (safe_natural (readings 1) ≡ some at) × (at < original.receipt.expires_at))
unfolding read_ends
read_ends_answers readings clock id original answer m r h =
    let (u, e1, h1) = bind_answers (checked (readings 0) original answer) _ m h in
    let n = (checked (readings 0) original answer m).1 in
    let (again, e2, h2) = bind_answers (calls (get clock id)) _ n h1 in
    let (found, e3, h3) = bind_answers (lift (native_of again)) _ _ h2 in
    let (same, h4) = then_answers (same_record found original) _ _ h3 in
    let (at, e5, h5) = bind_answers (now (readings 1)) _ _ h4 in
    let (early, h6) = then_answers (ltb at original.receipt.expires_at) _ _ h5 in
    (
      sym (some-injective _ _ h6),
      checked_answers (readings 0) original answer m e1,
      ap native_of (got again e2) ∙ e3 ∙ ap some (same_record-eq-true found original same),
      (at, (now_answers (readings 1) _ at e5).0, ground (arith, early)),
    )
  where
    got :
        (again : Option Session)
        → (calls (get clock id) (checked (readings 0) original answer m).1).0 ≡ some again
        → (get clock id m.store).0 ≡ again
    got again e =
        ap (λ s. (get clock id s).0) (sym (checked-store (readings 0) original answer m))
        ∙ calls_answers (get clock id) _ again e

-- A logout answers only after an acknowledgement of the revocation of its issuance.
pub logout_ends_answers :
    (id : Text) (leaving : Leaving) (answer : Outcome Value) (m : Manager) (b : Bool)
    → (logout_ends id leaving answer m).0 ≡ some b
    → (value : Value) × (answer ≡ returns value)
      × (is_revocation leaving.native.receipt.issuance_id value ≡ true)
unfolding logout_ends finish
logout_ends_answers id leaving answer m b h =
    let (value, e1, h1) = bind_answers (returned answer) _ m h in
    let (ok, h2) = then_answers (is_revocation leaving.native.receipt.issuance_id value) _ _ h1 in
    (value, returned_answers answer m e1, ok)
