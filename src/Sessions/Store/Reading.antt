-- ===== src/Sessions/Store/Reading.antt =====
-- Which session a reading of the store gives out, and what a repeated logout answers.
use hodlxxi_social.Prelude.{
  ◌≢◌, ◌↔◌, ◌⊎◌, ℕ, ◌+◌, ◌≤◌, ◌<◌, ◌≡◌, refl, sym, ◌∙◌, false, not, Option, none, some, leb, arith,
  subst, Option-cases, inl, inr,
}
use mathlib.Core.Option.{some-injective}
use hodlxxi_social.Js.Text.{Text, ===_self}
use hodlxxi_social.Js.Map
use hodlxxi_social.Js.Map.{IsMap}
use hodlxxi_social.Js.Map.Laws.{get-keep, get-set, passing}
use hodlxxi_social.Sessions.Bounded.{Config}
use hodlxxi_social.Sessions.Store.Mobile.{Kind, ordinary, mobile_v1, mobile_v2, Session}
use hodlxxi_social.Sessions.Store.{
  Logout, Entry, Entries, retention_ms, deadline, sweep, logout_until, deny, begin_logout, live,
  get,
}
use hodlxxi_social.Sessions.Store.Invariant.{SessionsInv, begin_logout-SessionsInv}

get-sweep :
    (time : ℕ) (m : Entries) (k : Text)
    → IsMap m
    → Map.get (sweep time m) k ≡ passing (λ e. not (leb (deadline e) time)) (Map.get m k)
unfolding sweep
get-sweep time m k h = get-keep (λ e. not (leb (deadline e) time)) m k h

-- The deadline of an entry without a logout is not before the expiry of its session.
live-passing :
    (sweeping reading : ℕ) (o : Option Entry)
    → sweeping ≤ reading
    → live reading (passing (λ e. not (leb (deadline e) sweeping)) o) ≡ live reading o
unfolding live deadline
live-passing sweeping reading none le = refl
live-passing sweeping reading (some e) le = ground arith

live_iff :
    (time : ℕ) (o : Option Entry) (s : Session)
    → (live time o ≡ some s)
      ↔ ((e : Entry) × (o ≡ some e) × (e.logout ≡ none) × (e.session ≡ s) × (time < s.expires_at))
unfolding live
live_iff time none s = ((λ h. cc), (λ h. cc (h.1)))
live_iff time (some e) s = (
  (λ h. (e, refl, ground arith, ground arith, ground arith)),
  (λ (e', f, g, same, lt). answered e' f g same lt),
)
  where
    answered :
        (e' : Entry)
        → some e ≡ some e'
        → e'.logout ≡ none
        → e'.session ≡ s
        → time < s.expires_at
        → live time (some e) ≡ some s
    answered e' f g same lt = subst (λ o. live time o ≡ some s) (sym f) (ground arith)

-- A session is given out exactly when it is stored, no logout was begun on it, and it expires after
-- the time of the reading.
pub get_iff :
    (config : Config) (clock : ℕ → ℕ) (k : Text) (m : Entries) (s : Session)
    → SessionsInv config m
    → clock 0 ≤ clock 1
    → ((get clock k m).0 ≡ some s) ↔ (
        (e : Entry) × (Map.get m k ≡ some e)
        × (e.logout ≡ none)
        × (e.session ≡ s)
        × (clock 1 < s.expires_at))
unfolding get
get_iff config clock k m s v le =
    rw (get-sweep (clock 0) m k v.is_map, live-passing (clock 0) (clock 1) (Map.get m k) le)
      (live_iff (clock 1) (Map.get m k) s)

begin_logout_found :
    (clock : ℕ → ℕ) (k : Text) (m : Entries) (l : Logout)
    → (begin_logout clock k m).0 ≡ some l
    → (e : Entry) × (Map.get (begin_logout clock k m).1 k ≡ some (record e { logout = some l }))
unfolding begin_logout
begin_logout_found clock k m l begun = elim (Option-cases (Map.get (sweep (clock 0) m) k)) [
  | inl e ↦
      let nothing : ◌≡◌ {A = Option Logout} none (some l) = rw (e, begin_logout) at begun in cc
  | inr (entry, e) ↦
      let same : deny clock entry ≡ l = some-injective _ _ (rw (e, begin_logout) at begun) in
      (
        entry,
        rw
            (
              e,
              begin_logout,
              get-set (sweep (clock 0) m) k k (record entry { logout = some (deny clock entry) }),
              ===_self k,
              same,
            )
            refl,
      )
]

begin_logout_denied :
    (clock : ℕ → ℕ) (k : Text) (m : Entries) (l : Logout) (e : Entry)
    → Map.get (sweep (clock 0) m) k ≡ some e
    → e.logout ≡ some l
    → (begin_logout clock k m).0 ≡ some l
unfolding begin_logout deny
begin_logout_denied clock k m l e found denied = rw (found, begin_logout) (rw (denied, deny) refl)

retained :
    (time : ℕ) (e : Entry) (l : Logout)
    → time < l.until
    → passing (λ x. not (leb (deadline x) time)) (some (record e { logout = some l }))
      ≡ some (record e { logout = some l })
unfolding deadline
retained time e l before = ground arith

-- A second logout before the first one's retention ends answers with the first one's state: its
-- original session, its end of retention, and whether it was confirmed.
pub begin_logout_again :
    (config : Config) (clock later : ℕ → ℕ) (k : Text) (m : Entries) (l : Logout)
    → SessionsInv config m
    → (begin_logout clock k m).0 ≡ some l
    → later 0 < l.until
    → (begin_logout later k (begin_logout clock k m).1).0 ≡ some l
begin_logout_again config clock later k m l v begun before =
    let (e, found) = begin_logout_found clock k m l begun in
    let after = (begin_logout clock k m).1 in
    let kept = begin_logout-SessionsInv config clock k m v in
    begin_logout_denied later k after l (record e { logout = some l })
      (get-sweep (later 0) after k kept.is_map ∙ rw found (retained (later 0) e l before)) refl

native_until :
    (clock : ℕ → ℕ) (s : Session) (k : Kind)
    → s.kind ≡ k
    → (s.kind ≢ mobile_v2) ⊎ (logout_until clock s ≤ s.expires_at + retention_ms)
unfolding logout_until
native_until clock s ordinary e = inl (λ h. cc)
native_until clock s mobile_v1 e = inl (λ h. cc)
native_until clock s mobile_v2 e = inr (rw (e, logout_until) (omega arith))

-- The retention of a logout ends within five minutes of the call that began it, and for a native
-- session within five minutes of the session's expiry.
pub begin_logout_retention :
    (config : Config) (clock : ℕ → ℕ) (k : Text) (m : Entries) (e : Entry)
    → SessionsInv config m
    → clock 0 ≤ clock 1
    → Map.get m k ≡ some e
    → e.logout ≡ none
    → clock 0 < deadline e
    → (l : Logout) × ((begin_logout clock k m).0 ≡ some l)
      × (l.original ≡ e.session)
      × (l.confirmed ≡ false)
      × (clock 0 < l.until)
      × (l.until ≤ clock 1 + retention_ms)
      × ((e.session.kind ≢ mobile_v2) ⊎ (l.until ≤ e.session.expires_at + retention_ms))
begin_logout_retention config clock k m e v le found fresh alive = (
  record { original = e.session; until = logout_until clock e.session; confirmed = false },
  begun,
  refl,
  refl,
  lasts,
  short,
  native_until clock e.session e.session.kind refl,
)
  where
    begun :
        (begin_logout clock k m).0
        ≡ some (record {
          original = e.session;
          until = logout_until clock e.session;
          confirmed = false;
        })
    begun =
        let here : Map.get (sweep (clock 0) m) k ≡ some e =
          get-sweep (clock 0) m k v.is_map ∙ rw found (ground arith) in
        unfold begin_logout deny in rw (here, begin_logout) (rw (fresh, deny) refl)

    lasts : clock 0 < logout_until clock e.session
    lasts = unfold logout_until deadline in ground arith

    short : logout_until clock e.session ≤ clock 1 + retention_ms
    short = unfold logout_until in ground arith
