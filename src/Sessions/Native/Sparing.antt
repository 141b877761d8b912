-- ===== src/Sessions/Native/Sparing.antt =====
-- Actions of the manager of native sessions that create nothing under a key: what they do to the
-- store is a sequence of its other calls.
use hodlxxi_social.Prelude.{
  ℕ, ◌≡◌, refl, sym, ap, ◌∙◌, subst, ◌≢◌, Bool, true, false, Option, none, some, List, [], ◌∷◌,
  ◌++◌, leb, ltb, length, Bool-cases, Option-cases, inl, inr,
}
use hodlxxi_social.Js.Text.{Text}
use hodlxxi_social.Js.Value.{Value, Outcome, returns, throws, safe_natural}
use hodlxxi_social.Sessions.Bounded.{as_key, Config}
use hodlxxi_social.Sessions.Store.{
  Entries, create, get, get_for_logout, get_logout_state, begin_logout, confirm,
}
use hodlxxi_social.Sessions.Store.Invariant.{
  Call, creates, gets, gets_for_logout, gets_logout_state, begins_logout, confirms, step, run,
}
use hodlxxi_social.Sessions.Store.Denial.{SparesKey, AllSpare}
use hodlxxi_social.Sessions.Native.Action.{
  Manager, Act, pure, fail, lift, ◌>>=◌, ◌>>◌, require, returned, calls, continue, now, enqueue,
  release, finish, finish_failed,
}

run-append :
    (config : Config) (m : Entries) (xs ys : List Call)
    → run config true m (xs ++ ys) ≡ run config true (run config true m xs) ys
unfolding run
run-append config m [] ys = refl
run-append config m (x ∷ xs) ys = run-append config (step config true m x) xs ys

AllSpare-append :
    (k : Text) (xs ys : List Call) → AllSpare k xs → AllSpare k ys → AllSpare k (xs ++ ys)
AllSpare-append k [] ys h hs = hs
AllSpare-append k (x ∷ xs) ys (h, h') hs = (h, AllSpare-append k xs ys h' hs)

-- The second store is the first after some calls, none of which creates under the key.
pub record Extends (config : Config) (k : Text) (before after : Entries) : Type 0 where
  pub made : List Call
  pub spare : AllSpare k made
  pub same : run config true before made ≡ after

module _ (config : Config) (k : Text) where
  pub quiet : (store : Entries) → Extends config k store store
  unfolding run
  quiet store = record { made = []; spare = tt; same = refl }

  pub chain : (a b c : Entries) → Extends config k a b → Extends config k b c → Extends config k a c
  chain a b c x y = record {
    made = x.made ++ y.made;
    spare = AllSpare-append k x.made y.made x.spare y.spare;
    same = run-append config a x.made y.made ∙ ap (λ m. run config true m y.made) x.same ∙ y.same;
  }

  pub one :
      (store : Entries) (c : Call)
      → SparesKey k c
      → Extends config k store (step config true store c)
  unfolding run
  one store c h = record { made = c ∷ []; spare = (h, tt); same = refl }

  -- What an action does to the store is such a sequence, from every state.
  pub record Sparing {ℓ} {A : Type ℓ} (act : Act A) : Type 0 where
    pub extends : (m : Manager) → Extends config k m.store (act m).1.store

  continue-Extends {ℓ κ} :
      {A : Type ℓ} {B : Type κ} (store : Entries) (p : Option A × Manager) (g : A → Act B)
      → Extends config k store p.1.store
      → ((a : A) → Sparing (g a))
      → Extends config k store (continue p g).1.store
  continue-Extends store (none, m) g h hg = h
  continue-Extends store (some a, m) g h hg =
      chain store m.store (g a m).1.store h ((hg a).extends m)

  pub bind-Sparing {ℓ κ} :
      {A : Type ℓ} {B : Type κ} {act : Act A} {g : A → Act B}
      → Sparing act
      → ((a : A) → Sparing (g a))
      → Sparing (act >>= g)
  unfolding ◌>>=◌
  bind-Sparing {act = act} {g} h hg = record {
    extends = λ m. continue-Extends m.store (act m) g (h.extends m) hg;
  }

  pub then-Sparing {ℓ} :
      {B : Type ℓ} {act : Act (Unit {0})} {next : Act B}
      → Sparing act
      → Sparing next
      → Sparing (act >> next)
  unfolding ◌>>◌
  then-Sparing h hg = bind-Sparing h (λ u. hg)

  pub lift-Sparing {ℓ} : {A : Type ℓ} (o : Option A) → Sparing (lift o)
  lift-Sparing o = record { extends = λ m. quiet m.store }

  pub pure-Sparing {ℓ} : {A : Type ℓ} (a : A) → Sparing (pure a)
  pure-Sparing a = record { extends = λ m. quiet m.store }

  pub fail-Sparing {ℓ} : {A : Type ℓ} → Sparing (fail {A = A})
  fail-Sparing = record { extends = λ m. quiet m.store }

  pub require-Sparing : (b : Bool) → Sparing (require b)
  unfolding require
  require-Sparing true = record { extends = λ m. quiet m.store }
  require-Sparing false = record { extends = λ m. quiet m.store }

  pub returned-Sparing {ℓ} : {A : Type ℓ} (o : Outcome A) → Sparing (returned o)
  unfolding returned
  returned-Sparing (returns a) = record { extends = λ m. quiet m.store }
  returned-Sparing throws = record { extends = λ m. quiet m.store }

  now-Extends : (reading : Value) (m : Manager) → Extends config k m.store (now reading m).1.store
  unfolding now
  now-Extends reading m = elim (Option-cases (safe_natural reading)) [
    | inl e ↦ rw (e, now) (quiet m.store)
    | inr (at, e) ↦ elim (Bool-cases (ltb at m.previous)) [
      | inl back ↦ rw (e, now, back) (quiet m.store)
      | inr on ↦ rw (e, now, on) (quiet m.store)
    ]
  ]

  pub now-Sparing : (reading : Value) → Sparing (now reading)
  now-Sparing reading = record { extends = now-Extends reading }

  enqueue-Extends :
      (capacity : ℕ) (issuance : Text) (m : Manager)
      → Extends config k m.store (enqueue capacity issuance m).1.store
  unfolding enqueue
  enqueue-Extends capacity issuance m = elim (Bool-cases (leb capacity (length m.queue))) [
    | inl full ↦ rw full (quiet m.store)
    | inr room ↦ rw room (quiet m.store)
  ]

  pub enqueue-Sparing : (capacity : ℕ) (issuance : Text) → Sparing (enqueue capacity issuance)
  enqueue-Sparing capacity issuance = record { extends = enqueue-Extends capacity issuance }

  pub finish-Sparing {ℓ} :
      {A : Type ℓ} {act : Act A} (ticket : ℕ) → Sparing act → Sparing (finish ticket act)
  unfolding finish release
  finish-Sparing ticket h = record { extends = h.extends }

  pub finish_failed-Sparing {ℓ} :
      {A : Type ℓ} {act : Act A} (ticket : ℕ) → Sparing act → Sparing (finish_failed ticket act)
  unfolding finish_failed release
  finish_failed-Sparing {act = act} ticket h = record {
    extends = λ m. elim (Option-cases (act m).0) [
      | inl e ↦ rw e (h.extends m)
      | inr (a, e) ↦ rw e (h.extends m)
    ];
  }

  -- A call of the store, by the call that it is.
  pub calls-Sparing {ℓ} :
      {A : Type ℓ} (f : Entries → A × Entries) (c : Call)
      → ((store : Entries) → (f store).1 ≡ step config true store c)
      → SparesKey k c
      → Sparing (calls f)
  unfolding calls
  calls-Sparing f c h spares = record {
    extends = λ m. subst (Extends config k m.store) (sym (h m.store)) (one m.store c spares);
  }

  pub get-Sparing : (clock : ℕ → ℕ) (id : Text) → Sparing (calls (get clock id))
  get-Sparing clock id = calls-Sparing _ (gets clock id) (λ store. unfold step in refl) tt

  pub get_for_logout-Sparing :
      (clock : ℕ → ℕ) (id : Text) → Sparing (calls (get_for_logout clock id))
  get_for_logout-Sparing clock id =
      calls-Sparing (get_for_logout clock id) (gets_for_logout clock id)
        (λ store. unfold step in refl) tt

  pub get_logout_state-Sparing :
      (clock : ℕ → ℕ) (id : Text) → Sparing (calls (get_logout_state clock id))
  get_logout_state-Sparing clock id =
      calls-Sparing (get_logout_state clock id) (gets_logout_state clock id)
        (λ store. unfold step in refl) tt

  pub begin_logout-Sparing : (clock : ℕ → ℕ) (id : Text) → Sparing (calls (begin_logout clock id))
  begin_logout-Sparing clock id =
      calls-Sparing (begin_logout clock id) (begins_logout clock id) (λ store. unfold step in refl)
        tt

  pub confirm-Sparing : (id : Text) → Sparing (calls (λ store. (true, confirm id store)))
  confirm-Sparing id =
      calls-Sparing (λ store. (true, confirm id store)) (confirms id) (λ store. unfold step in refl)
        tt

  pub create-Sparing :
      (clock : ℕ → ℕ) (key value : Value)
      → as_key key ≢ some k
      → Sparing (calls (create config true clock key value))
  create-Sparing clock key value h =
      calls-Sparing (create config true clock key value) (creates clock key value)
        (λ store. unfold step in refl) h

  -- What follows a value that is there may use that it is.
  pub lift_bind-Sparing {ℓ κ} :
      {A : Type ℓ} {B : Type κ} (o : Option A) (g : A → Act B)
      → ((a : A) → o ≡ some a → Sparing (g a))
      → Sparing (lift o >>= g)
  unfolding ◌>>=◌
  lift_bind-Sparing none g h = record { extends = λ m. quiet m.store }
  lift_bind-Sparing (some a) g h = record { extends = (h a refl).extends }
