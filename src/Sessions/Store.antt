-- ===== src/Sessions/Store.antt =====
-- `createSessionStore` of src/server/social-oauth-memory.mjs. `clock i` is the i-th reading of the
-- clock that a call makes; the sweep makes the first. The state of a logout that the managers share
-- with the store is part of the entry, and `confirm` is their only write to it.
pub mod Mobile
pub mod Invariant
pub mod Denial
pub mod Reading
use hodlxxi_social.Prelude.{
  ℕ, ◌+◌, ◌-◌, ◌*◌, Bool, true, false, not, ◌&&◌, ◌||◌, Option, none, some, List, [], ◌∷◌, ◌==◌,
  leb, ltb, length, if◌then◌else◌,
}
use Prim.Native.Nat.{min}
use hodlxxi_social.Js.Text.{Text}
use hodlxxi_social.Js.Map
use hodlxxi_social.Js.Value.{Value, Number, nat}
use hodlxxi_social.Sessions.Bounded.{as_key, Config}
use Mobile.{
  Kind, ordinary, mobile_v1, mobile_v2, Accepted, invalid, plain, mobile, classify, Session,
}

pub record Logout : Type 0 where
  pub original : Session
  pub until : ℕ
  pub confirmed : Bool

pub record Entry : Type 0 where
  pub session : Session
  pub logout : Option Logout

abbrev pub Entries : Type 0
Entries = List (Text × Entry)

abbrev pub is_mobile : Kind → Bool
is_mobile ordinary = false
is_mobile _ = true

abbrev pub retention_ms : ℕ
retention_ms = 300_000

-- entry.logout?.until ?? entry.record.expiresAt + (mobile ? 300000 : 0)
unfoldable pub deadline : Entry → ℕ
deadline e = elim e.logout [
  | some l ↦ l.until
  | none ↦ e.session.expires_at + (if is_mobile e.session.kind then retention_ms else 0)
]

unfoldable pub sweep : ℕ → Entries → Entries
unfolding deadline
sweep time m = Map.keep (λ e. not (leb (deadline e) time)) m

pub data Created : Type 0 where
  created refused type_error : Created

abbrev pub stored : Session → Entry
stored s = record { session = s; logout = none }

-- the ordinary session, whose readings of the clock are its times
abbrev pub ordinary_session : Config → (ℕ → ℕ) → Value → Session
ordinary_session config clock value = record {
  kind = ordinary;
  body = value;
  issued_at = nat (clock 1);
  expires_at = clock 2 + config.ttl_seconds * 1000;
}

unfoldable pub insert : Config → (ℕ → ℕ) → Text → Value → Accepted → Entries → Created × Entries
insert config clock key value invalid m = (type_error, m)
insert config clock key value plain m =
    (created, Map.set m key (stored (ordinary_session config clock value)))
insert config clock key value (mobile s) m = (created, Map.set m key (stored s))

unfoldable pub create : Config → Bool → (ℕ → ℕ) → Value → Value → Entries → Created × Entries
create config native_enabled clock key value m =
    let swept = sweep (clock 0) m in
    elim (as_key key) [
      | none ↦ (refused, swept)
      | some k ↦
          if Map.has swept k || leb config.capacity (length swept)
          then (refused, swept)
          else insert config clock k value (classify native_enabled clock value) swept
    ]

abbrev pub session_of : Option Entry → Option Session
session_of none = none
session_of (some e) = some e.session

abbrev pub logout_of : Option Entry → Option Logout
logout_of none = none
logout_of (some e) = e.logout

unfoldable pub get_for_logout : (ℕ → ℕ) → Text → Entries → Option Session × Entries
get_for_logout clock key m =
    let swept = sweep (clock 0) m in (session_of (Map.get swept key), swept)

unfoldable pub get_logout_state : (ℕ → ℕ) → Text → Entries → Option Logout × Entries
get_logout_state clock key m =
    let swept = sweep (clock 0) m in (logout_of (Map.get swept key), swept)

-- how long the denial of a session is retained
unfoldable pub logout_until : (ℕ → ℕ) → Session → ℕ
logout_until clock s = elim s.kind [
  | mobile_v2 ↦ min (clock 1 + retention_ms) (s.expires_at + retention_ms)
  | _ ↦ clock 1 + retention_ms
]

-- the entry with its logout begun, if it was not
unfoldable pub deny : (ℕ → ℕ) → Entry → Logout
unfolding logout_until
deny clock e = elim e.logout [
  | some l ↦ l
  | none ↦ record { original = e.session; until = logout_until clock e.session; confirmed = false }
]

unfoldable pub begin_logout : (ℕ → ℕ) → Text → Entries → Option Logout × Entries
begin_logout clock key m =
    let swept = sweep (clock 0) m in
    elim (Map.get swept key) [
      | none ↦ (none, swept)
      | some e ↦
          (some (deny clock e), Map.set swept key (record e { logout = some (deny clock e) }))
    ]

-- entry && !entry.logout && entry.record.expiresAt > now() ? entry.record : null
unfoldable pub live : ℕ → Option Entry → Option Session
live time none = none
live time (some e) = elim e.logout [
  | some l ↦ none
  | none ↦ if ltb time e.session.expires_at then some e.session else none
]

unfoldable pub get : (ℕ → ℕ) → Text → Entries → Option Session × Entries
get clock key m = let swept = sweep (clock 0) m in (live (clock 1) (Map.get swept key), swept)

-- `predicate` answers exactly `true`; `consume` is this with the predicate that always does.
unfoldable pub consume_if : (Session → Bool) → (ℕ → ℕ) → Text → Entries → Option Session × Entries
consume_if predicate clock key m =
    let swept = sweep (clock 0) m in
    elim (live (clock 1) (Map.get swept key)) [
      | none ↦ (none, swept)
      | some s ↦ if predicate s then (some s, Map.delete swept key) else (none, swept)
    ]

unfoldable pub consume : (ℕ → ℕ) → Text → Entries → Option Session × Entries
consume clock key m =
    let swept = sweep (clock 0) m in
    elim (live (clock 1) (Map.get swept key)) [
      | none ↦ (none, swept)
      | some s ↦ (some s, Map.delete swept key)
    ]

abbrev pub delete : Text → Entries → Entries
delete key m = Map.delete m key

-- state.confirmed = true, by a manager that holds the state of the key
unfoldable pub confirm : Text → Entries → Entries
confirm key m = elim (Map.get m key) [
  | none ↦ m
  | some e ↦ elim e.logout [
    | none ↦ m
    | some l ↦ Map.set m key (record e { logout = some (record l { confirmed = true }) })
  ]
]
