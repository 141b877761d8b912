-- ===== src/Sessions/Bounded/Laws.antt =====
-- The calls of the bounded store of src/server/social-oauth-memory.mjs, and its invariant.
use hodlxxi_social.Prelude.{
  ℕ, ◌+◌, ◌*◌, ◌≤◌, ◌≡◌, refl, Bool, true, false, not, ◌||◌, Option, none, some, List, [], ◌∷◌, leb,
  ltb, length, if◌then◌else◌, arith, subst, sym, Bool-cases, Option-cases, inl, inr,
}
use hodlxxi_social.Js.Text.{Text, ◌===◌}
use hodlxxi_social.Js.Map
use hodlxxi_social.Js.Map.{IsMap}
use hodlxxi_social.Js.Map.Laws.{
  get-keep, get-set, passing, keep-IsMap, set-IsMap, delete-IsMap, length-keep-le, length-set,
  length-delete-le,
}
use hodlxxi_social.Js.Value.{Value}
use hodlxxi_social.Sessions.Bounded.{
  Config, Record, as_key, stamped, sweep, insert, create, get, consume, consume_if,
}

module _ {ℓ} {V : Type ℓ} where
  pub record Inv (config : Config) (m : List (Text × Record V)) : Type ℓ where
    pub is_map : IsMap m
    pub fits : length m ≤ config.capacity

  sweep-Inv :
      (config : Config) (time : ℕ) (m : List (Text × Record V))
      → Inv config m
      → Inv config (sweep time m)
  unfolding sweep
  sweep-Inv config time m v = record {
    is_map = keep-IsMap _ m v.is_map;
    fits = omega (arith, length-keep-le (λ (r : Record V). not (leb r.expires_at time)) m);
  }

-- The methods, with the readings of the clock.
pub data Call {ℓ} (V : Type ℓ) : Type ℓ where
  creates : (time issued : ℕ) (key : Value) → V → Call V
  gets consumes : (time : ℕ) (key : Text) → Call V
  consumes_if : (Record V → Bool) → (time : ℕ) (key : Text) → Call V
  deletes : Text → Call V

module _ {ℓ} {V : Type ℓ} where
  unfoldable pub step : Config → List (Text × Record V) → Call V → List (Text × Record V)
  step config m (creates time issued key value) = (create config time issued key value m).1
  step config m (gets time key) = (get time key m).1
  step config m (consumes time key) = (consume time key m).1
  step config m (consumes_if p time key) = (consume_if p time key m).1
  step config m (deletes key) = Map.delete m key

  unfoldable pub run : Config → List (Text × Record V) → List (Call V) → List (Text × Record V)
  run config m [] = m
  run config m (c ∷ cs) = run config (step config m c) cs

  delete-Inv :
      (config : Config) (m : List (Text × Record V)) (key : Text)
      → Inv config m
      → Inv config (Map.delete m key)
  delete-Inv config m key v = record {
    is_map = delete-IsMap m key v.is_map;
    fits = omega (arith, length-delete-le m key);
  }

  insert-Inv :
      (config : Config) (issued : ℕ) (key : Text) (value : V) (m : List (Text × Record V))
      → Inv config m
      → Inv config (insert config issued key value m).1
  unfolding insert
  insert-Inv config issued key value m v = elim (Bool-cases (Map.has m key)) [
    | inl old ↦ rw old v
    | inr new ↦ elim (Bool-cases (leb config.capacity (length m))) [
      | inl full ↦ rw (new, full) v
      | inr room ↦
          rw (new, room)
            (record {
              is_map = set-IsMap m key (stamped config issued value) v.is_map;
              fits = ground (arith, length-set m key (stamped config issued value) new);
            })
    ]
  ]

  create-Inv :
      (config : Config) (time issued : ℕ) (key : Value) (value : V) (m : List (Text × Record V))
      → Inv config m
      → Inv config (create config time issued key value m).1
  unfolding create
  create-Inv config time issued key value m v = elim (Option-cases (as_key key)) [
    | inl e ↦ rw (e, create) (sweep-Inv config time m v)
    | inr (k, e) ↦
        rw (e, create) (insert-Inv config issued k value (sweep time m) (sweep-Inv config time m v))
  ]

  consume_if-Inv :
      (config : Config) (p : Record V → Bool) (time : ℕ) (key : Text) (m : List (Text × Record V))
      → Inv config m
      → Inv config (consume_if p time key m).1
  unfolding consume_if get
  consume_if-Inv config p time key m v =
      let kept = sweep-Inv config time m v in
      elim (Option-cases (Map.get (sweep time m) key)) [
        | inl e ↦ rw (e, consume_if) kept
        | inr (r, e) ↦ elim (Bool-cases (p r)) [
          | inl passes ↦ rw (e, consume_if, passes) (delete-Inv config (sweep time m) key kept)
          | inr fails ↦ rw (e, consume_if, fails) kept
        ]
      ]

  pub consume-true :
      (time : ℕ) (key : Text) (m : List (Text × Record V))
      → consume time key m ≡ consume_if (λ _. true) time key m
  unfolding consume consume_if get
  consume-true time key m = elim (Option-cases (Map.get (sweep time m) key)) [
    | inl e ↦ rw (e, consume, consume_if)
    | inr (r, e) ↦ rw (e, consume, consume_if)
  ]

  pub step-Inv :
      (config : Config) (m : List (Text × Record V)) (c : Call V)
      → Inv config m
      → Inv config (step config m c)
  unfolding step
  step-Inv config m (creates time issued key value) v = create-Inv config time issued key value m v
  step-Inv config m (gets time key) v = unfold get in sweep-Inv config time m v
  step-Inv config m (consumes time key) v =
      subst (λ out. Inv config out.1) (sym (consume-true time key m))
        (consume_if-Inv config (λ _. true) time key m v)
  step-Inv config m (consumes_if p time key) v = consume_if-Inv config p time key m v
  step-Inv config m (deletes key) v = delete-Inv config m key v

  -- No sequence of calls makes the store hold more than `capacity` entries, or a key twice.
  pub run-Inv :
      (config : Config) (m : List (Text × Record V)) (calls : List (Call V))
      → Inv config m
      → Inv config (run config m calls)
  unfolding run
  run-Inv config m [] v = v
  run-Inv config m (c ∷ cs) v = run-Inv config (step config m c) cs (step-Inv config m c v)

  pub get_lem :
      (time : ℕ) (key : Text) (m : List (Text × Record V))
      → IsMap m
      → (get time key m).0 ≡ passing (λ r. not (leb r.expires_at time)) (Map.get m key)
  unfolding get sweep
  get_lem time key m h = get-keep (λ r. not (leb r.expires_at time)) m key h

  passing_later :
      (time later : ℕ) (o : Option (Record V))
      → time ≤ later
      → passing (λ r. not (leb r.expires_at later)) (passing (λ r. not (leb r.expires_at time)) o)
        ≡ passing (λ r. not (leb r.expires_at later)) o
  passing_later time later none h = refl
  passing_later time later (some r) h = ground arith

  pub get-sweep :
      (time later : ℕ) (j : Text) (m : List (Text × Record V))
      → IsMap m
      → time ≤ later
      → (get later j (sweep time m)).0 ≡ (get later j m).0
  get-sweep time later j m h before =
      rw (get_lem later j m h, get_lem later j (sweep time m) (unfold sweep in keep-IsMap _ m h))
        (unfold sweep in
          rw (get-keep (λ r. not (leb r.expires_at time)) m j h)
            (passing_later time later (Map.get m j) before))

  pub get-insert :
      (config : Config) (issued later : ℕ) (key j : Text) (value : V) (m : List (Text × Record V))
      → IsMap m
      → (insert config issued key value m).0 ≡ true
      → (get later j (insert config issued key value m).1).0 ≡ (
          if key === j
          then (if ltb later (issued + config.ttl_seconds * 1000)
              then some (stamped config issued value)
              else none)
          else (get later j m).0)
  unfolding insert
  get-insert config issued later key j value m h made =
      elim (Bool-cases (Map.has m key || leb config.capacity (length m))) [
        | inl no_room ↦ let refused : false ≡ true = rw no_room at made in cc
        | inr room ↦
            rw
              (
                room,
                get_lem later j (Map.set m key (stamped config issued value)) (set-IsMap m key _ h),
                get-set m key j (stamped config issued value),
                get_lem later j m h,
              )
              (ground arith)
      ]
