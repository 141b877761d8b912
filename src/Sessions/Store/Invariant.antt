-- ===== src/Sessions/Store/Invariant.antt =====
-- The calls of the session store of src/server/social-oauth-memory.mjs, and its invariant.
use hodlxxi_social.Prelude.{
  ℕ, ◌≤◌, ◌<◌, ◌≡◌, refl, sym, Bool, true, false, not, ◌||◌, Option, none, some, List, [], ◌∷◌, leb,
  length, arith, subst, Bool-cases, Option-cases, inl, inr,
}
use hodlxxi_social.Js.Text.{Text}
use hodlxxi_social.Js.Map
use hodlxxi_social.Js.Map.{IsMap}
use hodlxxi_social.Js.Map.Laws.{
  keep-IsMap, set-IsMap, delete-IsMap, length-keep-le, length-set, length-set_old, length-delete-le,
  has_of_get, Every, Every-keep, Every-set, Every-delete, Every-get,
}
use hodlxxi_social.Js.Value.{Value}
use hodlxxi_social.Sessions.Bounded.{as_key, Config}
use hodlxxi_social.Sessions.Store.Mobile.{
  Session, Accepted, invalid, plain, mobile, classify, within,
}
use hodlxxi_social.Sessions.Store.Mobile.Times.{AreTimes, classify-AreTimes}
use hodlxxi_social.Sessions.Store.{
  Logout, Entry, Entries, is_mobile, deadline, sweep, stored, ordinary_session, insert, create,
  get_for_logout, get_logout_state, deny, begin_logout, live, get, consume_if, consume, delete,
  confirm,
}

-- The methods, with their readings of the clock, and the managers' write.
pub data Call : Type 0 where
  creates : (clock : ℕ → ℕ) (key value : Value) → Call
  gets gets_for_logout gets_logout_state begins_logout consumes :
      (clock : ℕ → ℕ) (key : Text) → Call
  consumes_if : (Session → Bool) → (clock : ℕ → ℕ) (key : Text) → Call
  deletes confirms : Text → Call

unfoldable pub step : Config → Bool → Entries → Call → Entries
step config native m (creates clock key value) = (create config native clock key value m).1
step config native m (gets clock key) = (get clock key m).1
step config native m (gets_for_logout clock key) = (get_for_logout clock key m).1
step config native m (gets_logout_state clock key) = (get_logout_state clock key m).1
step config native m (begins_logout clock key) = (begin_logout clock key m).1
step config native m (consumes clock key) = (consume clock key m).1
step config native m (consumes_if p clock key) = (consume_if p clock key m).1
step config native m (deletes key) = delete key m
step config native m (confirms key) = confirm key m

unfoldable pub run : Config → Bool → Entries → List Call → Entries
run config native m [] = m
run config native m (c ∷ cs) = run config native (step config native m c) cs

-- A logout of the session, if there is one.
abbrev pub IsOwn : Session → Option Logout → Type 0
IsOwn s none = Unit
IsOwn s (some l) = l.original ≡ s

-- A mobile session spans at most five minutes, and a logout belongs to the session of its entry.
pub record IsEntry (key : Text) (e : Entry) : Type 0 where
  pub lifetime :
      (not (is_mobile e.session.kind) || within e.session.expires_at e.session.issued_at 300_000)
      ≡ true
  pub owner : IsOwn e.session e.logout

pub record SessionsInv (config : Config) (m : Entries) : Type 0 where
  pub is_map : IsMap m
  pub fits : length m ≤ config.capacity
  pub entries : Every IsEntry m

pub sweep-SessionsInv :
    (config : Config) (time : ℕ) (m : Entries)
    → SessionsInv config m
    → SessionsInv config (sweep time m)
unfolding sweep
sweep-SessionsInv config time m v = record {
  is_map = keep-IsMap _ m v.is_map;
  fits = omega (arith, length-keep-le (λ (e : Entry). not (leb (deadline e) time)) m);
  entries = Every-keep IsEntry _ m v.entries;
}

delete-SessionsInv :
    (config : Config) (key : Text) (m : Entries)
    → SessionsInv config m
    → SessionsInv config (Map.delete m key)
delete-SessionsInv config key m v = record {
  is_map = delete-IsMap m key v.is_map;
  fits = omega (arith, length-delete-le m key);
  entries = Every-delete IsEntry m key v.entries;
}

-- The write of a new state into an entry that is there.
replace-SessionsInv :
    (config : Config) (key : Text) (m : Entries) (old new : Entry)
    → Map.get m key ≡ some old
    → IsEntry key new
    → SessionsInv config m
    → SessionsInv config (Map.set m key new)
replace-SessionsInv config key m old new e ok v = record {
  is_map = set-IsMap m key new v.is_map;
  fits = omega (arith, length-set_old m key new (has_of_get m key old e));
  entries = Every-set IsEntry m key new ok v.entries;
}

add-SessionsInv :
    (config : Config) (key : Text) (m : Entries) (new : Entry)
    → Map.has m key ≡ false
    → length m < config.capacity
    → IsEntry key new
    → SessionsInv config m
    → SessionsInv config (Map.set m key new)
add-SessionsInv config key m new fresh room ok v = record {
  is_map = set-IsMap m key new v.is_map;
  fits = omega (arith, length-set m key new fresh);
  entries = Every-set IsEntry m key new ok v.entries;
}

insert-SessionsInv :
    (config : Config) (clock : ℕ → ℕ) (key : Text) (value : Value) (a : Accepted) (m : Entries)
    → ((s : Session) → a ≡ mobile s → AreTimes clock s)
    → Map.has m key ≡ false
    → length m < config.capacity
    → SessionsInv config m
    → SessionsInv config (insert config clock key value a m).1
unfolding insert
insert-SessionsInv config clock key value invalid m ok fresh room v = v
insert-SessionsInv config clock key value plain m ok fresh room v =
    add-SessionsInv config key m (stored (ordinary_session config clock value)) fresh room
      (record { lifetime = refl; owner = tt }) v
insert-SessionsInv config clock key value (mobile s) m ok fresh room v =
    add-SessionsInv config key m (stored s) fresh room
      (record { lifetime = ground (arith, (ok s refl).short); owner = tt }) v

pub create-SessionsInv :
    (config : Config) (native : Bool) (clock : ℕ → ℕ) (key value : Value) (m : Entries)
    → SessionsInv config m
    → SessionsInv config (create config native clock key value m).1
unfolding create
create-SessionsInv config native clock key value m v =
    let swept = sweep (clock 0) m in
    let kept = sweep-SessionsInv config (clock 0) m v in
    elim (Option-cases (as_key key)) [
      | inl e ↦ rw (e, create) kept
      | inr (k, e) ↦ elim (Bool-cases (Map.has swept k)) [
        | inl old ↦ rw (e, create, old) kept
        | inr fresh ↦ elim (Bool-cases (leb config.capacity (length swept))) [
          | inl full ↦ rw (e, create, fresh, full) kept
          | inr room ↦
              rw (e, create, fresh, room)
                (insert-SessionsInv config clock k value (classify native clock value) swept
                  (classify-AreTimes native clock value) fresh (ground arith) kept)
        ]
      ]
    ]

deny-owner :
    (clock : ℕ → ℕ) (e : Entry) → IsOwn e.session e.logout → (deny clock e).original ≡ e.session
unfolding deny
deny-owner clock e own = elim (Option-cases e.logout) [
  | inl none_yet ↦ rw (none_yet, deny) refl
  | inr (l, begun) ↦ rw (begun, deny) (subst (IsOwn e.session) begun own)
]

pub begin_logout-SessionsInv :
    (config : Config) (clock : ℕ → ℕ) (key : Text) (m : Entries)
    → SessionsInv config m
    → SessionsInv config (begin_logout clock key m).1
unfolding begin_logout
begin_logout-SessionsInv config clock key m v =
    let swept = sweep (clock 0) m in
    let kept = sweep-SessionsInv config (clock 0) m v in
    elim (Option-cases (Map.get swept key)) [
      | inl e ↦ rw (e, begin_logout) kept
      | inr (entry, e) ↦
          let ok = Every-get IsEntry swept key entry e kept.entries in
          rw (e, begin_logout)
            (replace-SessionsInv config key swept entry
              (record entry { logout = some (deny clock entry) }) e
              (record { lifetime = ok.lifetime; owner = deny-owner clock entry ok.owner }) kept)
    ]

consume_if-SessionsInv :
    (config : Config) (p : Session → Bool) (clock : ℕ → ℕ) (key : Text) (m : Entries)
    → SessionsInv config m
    → SessionsInv config (consume_if p clock key m).1
unfolding consume_if
consume_if-SessionsInv config p clock key m v =
    let swept = sweep (clock 0) m in
    let kept = sweep-SessionsInv config (clock 0) m v in
    elim (Option-cases (live (clock 1) (Map.get swept key))) [
      | inl e ↦ rw (e, consume_if) kept
      | inr (s, e) ↦ elim (Bool-cases (p s)) [
        | inl passes ↦ rw (e, consume_if, passes) (delete-SessionsInv config key swept kept)
        | inr fails ↦ rw (e, consume_if, fails) kept
      ]
    ]

-- `consume` is `consume_if` with the predicate that always holds.
pub consume-true :
    (clock : ℕ → ℕ) (key : Text) (m : Entries)
    → consume clock key m ≡ consume_if (λ _. true) clock key m
unfolding consume consume_if
consume-true clock key m = elim (Option-cases (live (clock 1) (Map.get (sweep (clock 0) m) key))) [
  | inl e ↦ rw (e, consume, consume_if)
  | inr (s, e) ↦ rw (e, consume, consume_if)
]

confirm-SessionsInv :
    (config : Config) (key : Text) (m : Entries)
    → SessionsInv config m
    → SessionsInv config (confirm key m)
unfolding confirm
confirm-SessionsInv config key m v = elim (Option-cases (Map.get m key)) [
  | inl e ↦ rw (e, confirm) v
  | inr (entry, e) ↦ elim (Option-cases entry.logout) [
    | inl f ↦ rw (e, confirm, f) v
    | inr (l, f) ↦
        let ok = Every-get IsEntry m key entry e v.entries in
        rw (e, confirm, f)
          (replace-SessionsInv config key m entry
            (record entry { logout = some (record l { confirmed = true }) }) e
            (record { lifetime = ok.lifetime; owner = subst (IsOwn entry.session) f ok.owner }) v)
  ]
]

pub step-SessionsInv :
    (config : Config) (native : Bool) (m : Entries) (c : Call)
    → SessionsInv config m
    → SessionsInv config (step config native m c)
unfolding step get get_for_logout get_logout_state
step-SessionsInv config native m (creates clock key value) v =
    create-SessionsInv config native clock key value m v
step-SessionsInv config native m (gets clock key) v = sweep-SessionsInv config (clock 0) m v
step-SessionsInv config native m (gets_for_logout clock key) v =
    sweep-SessionsInv config (clock 0) m v
step-SessionsInv config native m (gets_logout_state clock key) v =
    sweep-SessionsInv config (clock 0) m v
step-SessionsInv config native m (begins_logout clock key) v =
    begin_logout-SessionsInv config clock key m v
step-SessionsInv config native m (consumes clock key) v =
    subst (λ out. SessionsInv config out.1) (sym (consume-true clock key m))
      (consume_if-SessionsInv config (λ _. true) clock key m v)
step-SessionsInv config native m (consumes_if p clock key) v =
    consume_if-SessionsInv config p clock key m v
step-SessionsInv config native m (deletes key) v = delete-SessionsInv config key m v
step-SessionsInv config native m (confirms key) v = confirm-SessionsInv config key m v

-- After any calls the store holds at most `capacity` entries under distinct keys, every mobile
-- session in it spans at most five minutes, and every logout belongs to the session of its entry.
pub run-SessionsInv :
    (config : Config) (native : Bool) (m : Entries) (calls : List Call)
    → SessionsInv config m
    → SessionsInv config (run config native m calls)
unfolding run
run-SessionsInv config native m [] v = v
run-SessionsInv config native m (c ∷ cs) v =
    run-SessionsInv config native (step config native m c) cs (step-SessionsInv config native m c v)
