-- ===== src/Sessions/Store/Denial.antt =====
-- The session store after a logout was begun: `get`, `consume` and `consumeIf`. `getForLogout` is meant for
-- the logout itself, and still answers the session.
use hodlxxi_social.Prelude.{
  ◌≢◌, ℕ, ◌≡◌, refl, sym, ap, ◌∙◌, Bool, true, not, ◌||◌, Option, none, some, List, [], ◌∷◌, leb,
  length, subst, Bool-cases, Option-cases, inl, inr,
}
use hodlxxi_social.Js.Text.{Text, ◌===◌, ===_self, ===_iff}
use hodlxxi_social.Js.Map
use hodlxxi_social.Js.Map.{IsMap}
use hodlxxi_social.Js.Map.Laws.{get-keep, get-set, get-delete, passing, keep-IsMap}
use hodlxxi_social.Js.Value.{Value}
use hodlxxi_social.Sessions.Bounded.{as_key, Config}
use hodlxxi_social.Sessions.Store.Mobile.{Session, Accepted, invalid, plain, mobile, classify}
use hodlxxi_social.Sessions.Store.{
  Entry, Entries, deadline, sweep, insert, create, get_for_logout, get_logout_state, deny,
  begin_logout, live, get, consume, consume_if, confirm,
}
use hodlxxi_social.Sessions.Store.Invariant.{
  Call, creates, gets, gets_for_logout, gets_logout_state, begins_logout, consumes, consumes_if,
  deletes, confirms, step, run, run-SessionsInv, SessionsInv, begin_logout-SessionsInv,
  step-SessionsInv, consume-true,
}

-- Nothing is stored under the key, or a logout was begun on what is.
abbrev pub IsDenied : Option Entry → Type 0
IsDenied none = Unit
IsDenied (some e) = e.logout ≢ none

-- A call other than a `create` under the key.
abbrev pub SparesKey : Text → Call → Type 0
SparesKey k (creates clock key value) = as_key key ≢ some k
SparesKey k _ = Unit

abbrev pub AllSpare : Text → List Call → Type 0
AllSpare k [] = Unit
AllSpare k (c ∷ cs) = SparesKey k c × AllSpare k cs

live-IsDenied : (time : ℕ) (o : Option Entry) → IsDenied o → live time o ≡ none
unfolding live
live-IsDenied time none h = refl
live-IsDenied time (some e) h = elim (Option-cases e.logout) [
  | inl f ↦ absurd (h f)
  | inr (l, f) ↦ rw f
]

passing-IsDenied : (p : Entry → Bool) (o : Option Entry) → IsDenied o → IsDenied (passing p o)
passing-IsDenied p none h = tt
passing-IsDenied p (some e) h = elim (Bool-cases (p e)) [ inl t ↦ rw t h | inr f ↦ rw f tt ]

swept-IsMap : (time : ℕ) (m : Entries) → IsMap m → IsMap (sweep time m)
unfolding sweep
swept-IsMap time m h = keep-IsMap _ m h

module _ (k : Text) where
  abbrev Denied : Entries → Type 0
  Denied m = IsDenied (Map.get m k)

  sweep-Denied : (time : ℕ) (m : Entries) → IsMap m → Denied m → Denied (sweep time m)
  unfolding sweep
  sweep-Denied time m h d =
      rw (get-keep (λ e. not (leb (deadline e) time)) m k h) (passing-IsDenied _ _ d)

  set-Denied_other :
      (m : Entries) (j : Text) (e : Entry) → j ≢ k → Denied m → Denied (Map.set m j e)
  set-Denied_other m j e ne d = elim (Bool-cases (j === k)) [
    | inl same ↦ absurd (ne ((===_iff j k).0 same))
    | inr other ↦ rw (get-set m j k e, other) d
  ]

  -- A write that keeps a logout of the entry.
  set-Denied_logout :
      (m : Entries) (j : Text) (e : Entry) → (e.logout ≢ none) → Denied m → Denied (Map.set m j e)
  set-Denied_logout m j e begun d = elim (Bool-cases (j === k)) [
    | inl same ↦ rw (get-set m j k e, same) begun
    | inr other ↦ rw (get-set m j k e, other) d
  ]

  delete-Denied : (m : Entries) (j : Text) → IsMap m → Denied m → Denied (Map.delete m j)
  delete-Denied m j h d = elim (Bool-cases (j === k)) [
    | inl same ↦ rw (get-delete m j k h, same) tt
    | inr other ↦ rw (get-delete m j k h, other) d
  ]

  insert-Denied :
      (config : Config) (clock : ℕ → ℕ) (j : Text) (value : Value) (a : Accepted) (m : Entries)
      → j ≢ k
      → Denied m
      → Denied (insert config clock j value a m).1
  unfolding insert
  insert-Denied config clock j value invalid m ne d = d
  insert-Denied config clock j value plain m ne d = set-Denied_other m j _ ne d
  insert-Denied config clock j value (mobile s) m ne d = set-Denied_other m j _ ne d

  create-Denied :
      (config : Config) (native : Bool) (clock : ℕ → ℕ) (key value : Value) (m : Entries)
      → as_key key ≢ some k
      → Denied (sweep (clock 0) m)
      → Denied (create config native clock key value m).1
  unfolding create
  create-Denied config native clock key value m ne d =
      let swept = sweep (clock 0) m in
      elim (Option-cases (as_key key)) [
        | inl e ↦ rw (e, create) d
        | inr (j, e) ↦ elim (Bool-cases (Map.has swept j || leb config.capacity (length swept))) [
          | inl refuses ↦ rw (e, create, refuses) d
          | inr room ↦
              rw (e, create, room)
                (insert-Denied config clock j value (classify native clock value) swept
                  (λ same. ne (e ∙ ap some same)) d)
        ]
      ]

  begin_logout-Denied :
      (clock : ℕ → ℕ) (j : Text) (m : Entries)
      → Denied (sweep (clock 0) m)
      → Denied (begin_logout clock j m).1
  unfolding begin_logout
  begin_logout-Denied clock j m d = elim (Option-cases (Map.get (sweep (clock 0) m) j)) [
    | inl e ↦ rw (e, begin_logout) d
    | inr (entry, e) ↦ rw (e, begin_logout) (set-Denied_logout (sweep (clock 0) m) j _ (λ f. cc) d)
  ]

  consume_if-Denied :
      (p : Session → Bool) (clock : ℕ → ℕ) (j : Text) (m : Entries)
      → IsMap (sweep (clock 0) m)
      → Denied (sweep (clock 0) m)
      → Denied (consume_if p clock j m).1
  unfolding consume_if
  consume_if-Denied p clock j m h d =
      elim (Option-cases (live (clock 1) (Map.get (sweep (clock 0) m) j))) [
        | inl e ↦ rw (e, consume_if) d
        | inr (s, e) ↦ elim (Bool-cases (p s)) [
          | inl passes ↦ rw (e, consume_if, passes) (delete-Denied (sweep (clock 0) m) j h d)
          | inr fails ↦ rw (e, consume_if, fails) d
        ]
      ]

  confirm-Denied : (j : Text) (m : Entries) → Denied m → Denied (confirm j m)
  unfolding confirm
  confirm-Denied j m d = elim (Option-cases (Map.get m j)) [
    | inl e ↦ rw (e, confirm) d
    | inr (entry, e) ↦ elim (Option-cases entry.logout) [
      | inl f ↦ rw (e, confirm, f) d
      | inr (l, f) ↦ rw (e, confirm, f) (set-Denied_logout m j _ (λ g. cc) d)
    ]
  ]

  step-Denied :
      (config : Config) (native : Bool) (m : Entries) (c : Call)
      → IsMap m
      → SparesKey k c
      → Denied m
      → Denied (step config native m c)
  unfolding step get get_for_logout get_logout_state
  step-Denied config native m (creates clock key value) h spares d =
      create-Denied config native clock key value m spares (sweep-Denied (clock 0) m h d)
  step-Denied config native m (gets clock key) h spares d = sweep-Denied (clock 0) m h d
  step-Denied config native m (gets_for_logout clock key) h spares d = sweep-Denied (clock 0) m h d
  step-Denied config native m (gets_logout_state clock key) h spares d =
      sweep-Denied (clock 0) m h d
  step-Denied config native m (begins_logout clock key) h spares d =
      begin_logout-Denied clock key m (sweep-Denied (clock 0) m h d)
  step-Denied config native m (consumes clock key) h spares d =
      subst (λ (out : Option Session × Entries). Denied out.1) (sym (consume-true clock key m))
        (consume_if-Denied (λ _. true) clock key m (swept-IsMap (clock 0) m h)
          (sweep-Denied (clock 0) m h d))
  step-Denied config native m (consumes_if p clock key) h spares d =
      consume_if-Denied p clock key m (swept-IsMap (clock 0) m h) (sweep-Denied (clock 0) m h d)
  step-Denied config native m (deletes key) h spares d = delete-Denied m key h d
  step-Denied config native m (confirms key) h spares d = confirm-Denied key m d

  run-Denied :
      (config : Config) (native : Bool) (m : Entries) (cs : List Call)
      → SessionsInv config m
      → AllSpare k cs
      → Denied m
      → Denied (run config native m cs)
  unfolding run
  run-Denied config native m [] v spares d = d
  run-Denied config native m (c ∷ cs) v spares d =
      run-Denied config native (step config native m c) cs (step-SessionsInv config native m c v)
        spares.1 (step-Denied config native m c v.is_map spares.0 d)

  get-Denied : (clock : ℕ → ℕ) (m : Entries) → IsMap m → Denied m → (get clock k m).0 ≡ none
  unfolding get
  get-Denied clock m h d = live-IsDenied (clock 1) _ (sweep-Denied (clock 0) m h d)

  consume_if-none :
      (p : Session → Bool) (clock : ℕ → ℕ) (m : Entries)
      → IsMap m
      → Denied m
      → (consume_if p clock k m).0 ≡ none
  unfolding consume_if
  consume_if-none p clock m h d =
      rw
        (
          live-IsDenied (clock 1) (Map.get (sweep (clock 0) m) k) (sweep-Denied (clock 0) m h d),
          consume_if,
        )
        refl

  begin_logout-denies : (clock : ℕ → ℕ) (m : Entries) → Denied (begin_logout clock k m).1
  unfolding begin_logout
  begin_logout-denies clock m = elim (Option-cases (Map.get (sweep (clock 0) m) k)) [
    | inl e ↦ rw (e, begin_logout, e) tt
    | inr (entry, e) ↦
        rw
          (
            e,
            begin_logout,
            get-set (sweep (clock 0) m) k k (record entry { logout = some (deny clock entry) }),
            ===_self k,
          )
          (λ f. cc)
  ]

-- Once a logout is begun under a key of a store that keeps its invariant, `get`, `consume` and `consumeIf` never again give the session
-- out, whatever is called in between and whatever the clock says, unless a new session is created
-- under the same key.
pub logout_is_final :
    (config : Config) (native : Bool) (clock later : ℕ → ℕ) (k : Text) (m : Entries)
    (calls : List Call) (p : Session → Bool)
    → SessionsInv config m
    → AllSpare k calls
    → ((get later k (run config native (begin_logout clock k m).1 calls)).0 ≡ none)
      × ((consume later k (run config native (begin_logout clock k m).1 calls)).0 ≡ none)
      × ((consume_if p later k (run config native (begin_logout clock k m).1 calls)).0 ≡ none)
logout_is_final config native clock later k m calls p v spares =
    let after = (begin_logout clock k m).1 in
    let kept = begin_logout-SessionsInv config clock k m v in
    let end = run config native after calls in
    let map = (run-SessionsInv config native after calls kept).is_map in
    let denied =
      run-Denied k config native after calls kept spares (begin_logout-denies k clock m) in
    (
      get-Denied k later end map denied,
      ap (λ (out : Option Session × Entries). out.0) (consume-true later k end)
          ∙ consume_if-none k (λ _. true) later end map denied,
      consume_if-none k p later end map denied,
    )
