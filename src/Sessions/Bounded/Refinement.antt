-- ===== src/Sessions/Bounded/Refinement.antt =====
-- The bounded store of src/server/social-oauth-memory.mjs beside a partial map from keys to records,
-- seen at a time at which expired records do not show. The map has no order, no capacity and no
-- sweeping.
use hodlxxi_social.Prelude.{
  ℕ, ◌≤◌, ◌≡◌, refl, Bool, true, false, not, ◌&&◌, Option, none, some, List, [], ◌∷◌, leb,
  if◌then◌else◌, arith, sym, ap, ◌∙◌, Bool-cases, Option-cases, inl, inr,
}
use hodlxxi_social.Js.Text.{Text, ◌===◌, ===_iff}
use hodlxxi_social.Js.Map
use hodlxxi_social.Js.Map.{IsMap}
use hodlxxi_social.Js.Map.Laws.{get-delete, passing, keep-IsMap, delete-IsMap}
use hodlxxi_social.Js.Value.{Value}
use hodlxxi_social.Sessions.Bounded.{
  Config, Record, as_key, stamped, sweep, insert, create, get, consume, consume_if,
}
use hodlxxi_social.Sessions.Bounded.Laws.{
  Call, creates, gets, consumes, consumes_if, deletes, step, run, Inv, step-Inv, get_lem, get-sweep,
  get-insert,
}

module _ {ℓ} {V : Type ℓ} where
  -- What shows at a time.
  abbrev pub view : ℕ → Option (Record V) → Option (Record V)
  view time = passing (λ r. not (leb r.expires_at time))

  abbrev pub satisfies : (Record V → Bool) → Option (Record V) → Bool
  satisfies p none = false
  satisfies p (some r) = p r

  -- A call on the map; `made` tells whether a `create` was not refused.
  abbrev pub spec : Config → Bool → (Text → Option (Record V)) → Call V → Text → Option (Record V)
  spec config made a (creates time issued key value) j = elim (as_key key) [
    | none ↦ a j
    | some k ↦ if made && k === j then some (stamped config issued value) else a j
  ]
  spec config made a (gets time key) j = a j
  spec config made a (consumes time key) j = if key === j then none else a j
  spec config made a (consumes_if p time key) j =
      if key === j && satisfies p (view time (a key)) then none else a j
  spec config made a (deletes key) j = if key === j then none else a j

  abbrev pub is_made : Config → List (Text × Record V) → Call V → Bool
  is_made config m (creates time issued key value) = (create config time issued key value m).0
  is_made config m c = false

  -- The time after a call; `delete` does not read the clock.
  abbrev pub after : ℕ → Call V → ℕ
  after t (creates time issued key value) = time
  after t (gets time key) = time
  after t (consumes time key) = time
  after t (consumes_if p time key) = time
  after t (deletes key) = t

  -- From the time on, the store and the map show the same.
  abbrev pub Refines : ℕ → List (Text × Record V) → (Text → Option (Record V)) → Type ℓ
  Refines t m a = (later : ℕ) (j : Text) → t ≤ later → (get later j m).0 ≡ view later (a j)

  get-delete_key :
      (later : ℕ) (key j : Text) (m : List (Text × Record V))
      → IsMap m
      → (get later j (Map.delete m key)).0 ≡ (if key === j then none else (get later j m).0)
  get-delete_key later key j m h =
      rw
        (
          get_lem later j (Map.delete m key) (delete-IsMap m key h),
          get-delete m key j h,
          get_lem later j m h,
        )
        (ground arith)

  sweep-Refines :
      (t time : ℕ) (m : List (Text × Record V)) (a : Text → Option (Record V))
      → IsMap m
      → Refines t m a
      → t ≤ time
      → Refines time (sweep time m) a
  sweep-Refines t time m a h r before later j now =
      get-sweep time later j m h now ∙ r later j (omega arith)

  insert_refused :
      (config : Config) (issued : ℕ) (key : Text) (value : V) (m : List (Text × Record V))
      → (insert config issued key value m).0 ≡ false
      → (insert config issued key value m).1 ≡ m
  unfolding insert
  insert_refused config issued key value m h = ground arith

  spec_refused :
      (config : Config) (a : Text → Option (Record V)) (time issued : ℕ) (key : Value) (value : V)
      (j : Text)
      → spec config false a (creates time issued key value) j ≡ a j
  spec_refused config a time issued key value j = go (as_key key)
    where
      go :
          (o : Option Text)
          → (elim o [
            | none ↦ a j
            | some k ↦ if false && k === j then some (stamped config issued value) else a j
          ])
            ≡ a j
      go none = refl
      go (some k) = refl

  hidden_later :
      (time later : ℕ) (o : Option (Record V))
      → time ≤ later
      → view time o ≡ none
      → view later o ≡ none
  hidden_later time later none now h = refl
  hidden_later time later (some r) now h = ground arith

  consume-Refines :
      (config : Config) (t time : ℕ) (key : Text) (m : List (Text × Record V))
      (a : Text → Option (Record V))
      → IsMap m
      → Refines t m a
      → t ≤ time
      → Refines time (consume time key m).1 (spec config false a (consumes time key))
  unfolding consume
  consume-Refines config t time key m a h r before later j now =
      elim (Option-cases (get time key m).0) [
        | inl e ↦
            rw (consume, e, left)
              (ground (arith, base, same_key, hidden_later time later (a key) now (shown ∙ e)))
        | inr (found, e) ↦
            rw (consume, e, left)
              (ground (arith, base, get-delete_key later key j (sweep time m) kept))
      ]
    where
      kept : IsMap (sweep time m)
      kept = unfold sweep in keep-IsMap _ m h

      left : (get time key m).1 ≡ sweep time m
      left = unfold get in refl

      shown : view time (a key) ≡ (get time key m).0
      shown = sym (r time key before)

      base : (get later j (sweep time m)).0 ≡ view later (a j)
      base = sweep-Refines t time m a h r before later j now

      same_key : (key === j) ≡ true → view later (a key) ≡ view later (a j)
      same_key e = ap (λ k. view later (a k)) ((===_iff key j).0 e)

  create-Refines :
      (config : Config) (t time issued : ℕ) (key : Value) (value : V) (m : List (Text × Record V))
      (a : Text → Option (Record V))
      → IsMap m
      → Refines t m a
      → t ≤ time
      → Refines time
          (create config time issued key value m).1
          (spec config (create config time issued key value m).0 a (creates time issued key value))
  unfolding create
  create-Refines config t time issued key value m a h r before later j now =
      elim (Option-cases (as_key key)) [
        | inl e ↦
            rw (create, e) (ground (arith, e, sweep-Refines t time m a h r before later j now))
        | inr (k, e) ↦ elim (Bool-cases (insert config issued k value (sweep time m)).0) [
          | inl made ↦
              rw
                (create, e, made, get-insert config issued later k j value (sweep time m) kept made)
                (ground (arith, sweep-Refines t time m a h r before later j now))
          | inr refused ↦
              rw (create, e, refused, insert_refused config issued k value (sweep time m) refused)
                (sweep-Refines t time m a h r before later j now
                  ∙ ap (view later) (sym (spec_refused config a time issued key value j)))
        ]
      ]
    where
      kept : IsMap (sweep time m)
      kept = unfold sweep in keep-IsMap _ m h

  consume_if-Refines :
      (config : Config) (p : Record V → Bool) (t time : ℕ) (key : Text) (m : List (Text × Record V))
      (a : Text → Option (Record V))
      → IsMap m
      → Refines t m a
      → t ≤ time
      → Refines time (consume_if p time key m).1 (spec config false a (consumes_if p time key))
  unfolding consume_if
  consume_if-Refines config p t time key m a h r before later j now =
      elim (Option-cases (get time key m).0) [
        | inl e ↦ rw (consume_if, e, left, shown ∙ e) (ground (arith, base))
        | inr (found, e) ↦ elim (Bool-cases (p found)) [
          | inl passes ↦
              rw (consume_if, e, passes, left, shown ∙ e)
                (ground (arith, passes, base, get-delete_key later key j (sweep time m) kept))
          | inr fails ↦ rw (consume_if, e, fails, left, shown ∙ e) (ground (arith, fails, base))
        ]
      ]
    where
      kept : IsMap (sweep time m)
      kept = unfold sweep in keep-IsMap _ m h

      left : (get time key m).1 ≡ sweep time m
      left = unfold get in refl

      shown : view time (a key) ≡ (get time key m).0
      shown = sym (r time key before)

      base : (get later j (sweep time m)).0 ≡ view later (a j)
      base = sweep-Refines t time m a h r before later j now

  step-Refines :
      (config : Config) (t : ℕ) (m : List (Text × Record V)) (a : Text → Option (Record V))
      (c : Call V)
      → IsMap m
      → Refines t m a
      → t ≤ after t c
      → Refines (after t c) (step config m c) (spec config (is_made config m c) a c)
  unfolding step
  step-Refines config t m a (creates time issued key value) h r before =
      create-Refines config t time issued key value m a h r before
  step-Refines config t m a (gets time key) h r before =
      unfold get in sweep-Refines t time m a h r before
  step-Refines config t m a (consumes time key) h r before =
      consume-Refines config t time key m a h r before
  step-Refines config t m a (consumes_if p time key) h r before =
      consume_if-Refines config p t time key m a h r before
  step-Refines config t m a (deletes key) h r before =
      λ later j now. get-delete_key later key j m h ∙ ground (arith, r later j now)

  -- The clock does not go back.
  abbrev pub InOrder : ℕ → List (Call V) → Type 0
  InOrder t [] = Unit
  InOrder t (c ∷ cs) = (t ≤ after t c) × InOrder (after t c) cs

  abbrev pub last_time : ℕ → List (Call V) → ℕ
  last_time t [] = t
  last_time t (c ∷ cs) = last_time (after t c) cs

  -- The map after the calls, given which of the `create`s were not refused.
  abbrev pub spec_run :
      Config → (Text → Option (Record V)) → List Bool → List (Call V) → Text → Option (Record V)
  spec_run config a made [] = a
  spec_run config a [] (c ∷ cs) = spec_run config (spec config false a c) [] cs
  spec_run config a (b ∷ made) (c ∷ cs) = spec_run config (spec config b a c) made cs

  abbrev pub all_made : Config → List (Text × Record V) → List (Call V) → List Bool
  all_made config m [] = []
  all_made config m (c ∷ cs) = is_made config m c ∷ all_made config (step config m c) cs

  run-Refines :
      (config : Config) (t : ℕ) (m : List (Text × Record V)) (a : Text → Option (Record V))
      (calls : List (Call V))
      → Inv config m
      → Refines t m a
      → InOrder t calls
      → Refines
          (last_time t calls)
          (run config m calls)
          (spec_run config a (all_made config m calls) calls)
  unfolding run
  run-Refines config t m a [] v r order = r
  run-Refines config t m a (c ∷ cs) v r (before, order) =
      run-Refines config (after t c) (step config m c) (spec config (is_made config m c) a c) cs
        (step-Inv config m c v) (step-Refines config t m a c v.is_map r before) order

  -- With a clock that does not go back, the store implements a partial map: after any calls, a reading
  -- shows what the map has under the key if it has not expired. In the map a `create` that was not
  -- refused adds its record, `consume`, `delete` and a satisfied `consume_if` take the key away, and
  -- nothing else changes anything.
  pub get-run :
      (config : Config) (calls : List (Call V)) (later : ℕ) (key : Text)
      → InOrder 0 calls
      → last_time 0 calls ≤ later
      → (get later key (run config [] calls)).0
        ≡ view later (spec_run config (λ _. none) (all_made config [] calls) calls key)
  unfolding Map.get Map.keep
  get-run config calls later key order h =
      run-Refines config 0 [] (λ _. none) calls (record { is_map = tt; fits = omega arith })
        (λ time j now. unfold get sweep in refl) order later key h
