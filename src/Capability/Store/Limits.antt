-- ===== src/Capability/Store/Limits.antt =====
-- The limits of the store: what the constructor accepts, when a grant expires, when one is made.
use hodlxxi_social.Prelude.{
  ℕ, zero, suc, ◌+◌, ◌-◌, ◌≤◌, ◌<◌, ◌≡◌, ◌⊎◌, inl, inr, false, Option, none, some, ltb, length,
  arith, Option-cases, Bool-cases, ℕ_discrete,
}
use hodlxxi_social.Js.Text.{Text, ◌===◌}
use hodlxxi_social.Js.Map.{has, count}
use hodlxxi_social.Js.Value.{Value, number, nat, max_safe_integer}
use hodlxxi_social.Capability.Syntax.{
  max_ttl_ms, default_ttl_ms, default_per_session, default_per_subject, max_capabilities,
  max_per_session, max_per_subject,
}
use hodlxxi_social.Capability.Random.{Drawn, random_capability}
use hodlxxi_social.Capability.Store.{
  Records, IssueRequest, Grant, sweep, read_issue, fresh_capability, has_room, install,
  issue_request, issue_request_cases, issue,
}
use hodlxxi_social.Capability.Configuration.{
  Options, or_default, math_min, create, Config, in_bounds,
}

-- The limits that the constructor guarantees.
pub record IsConfig (config : Config) : Type 0 where
  pub ttl : (1 ≤ config.ttl_ms) × (config.ttl_ms ≤ max_ttl_ms)
  pub session : (1 ≤ config.session_capacity) × (config.session_capacity ≤ max_per_session)
  pub subject :
      (config.session_capacity ≤ config.subject_capacity)
      × (config.subject_capacity ≤ max_per_subject)
  pub capacity : (config.subject_capacity ≤ config.capacity) × (config.capacity ≤ max_capabilities)

in_bounds_sound : (most : ℕ) (v : Value) (n : ℕ) → in_bounds most v ≡ some n → (1 ≤ n) × (n ≤ most)
unfolding in_bounds
in_bounds_sound most v n h = ground arith

-- Whatever options are passed, defaults included, a store that is made has a lifetime of 1 ms to
-- five minutes and 1 ≤ per session ≤ per subject ≤ capacity ≤ 4096, each below its own maximum.
pub create-IsConfig : (o : Options) (config : Config) → create o ≡ some config → IsConfig config
unfolding create
create-IsConfig o config h =
    let capacity = or_default o.capacity (number (nat max_capabilities)) in
    ground (
      arith,
      in_bounds_sound max_ttl_ms (or_default o.ttl_ms (number (nat default_ttl_ms))) config.ttl_ms,
      in_bounds_sound max_capabilities capacity config.capacity,
      in_bounds_sound max_per_session
          (or_default o.per_session_capacity (math_min default_per_session capacity))
          config.session_capacity,
      in_bounds_sound max_per_subject
          (or_default o.per_subject_capacity (math_min default_per_subject capacity))
          config.subject_capacity,
    )

-- A grant's expiry is a safe integer after the request's time, at most five minutes later.
pub issue-expiry :
    (config : Config) (random : ℕ → Drawn) (input : Value) (records : Records) (r : IssueRequest)
    (g : Grant)
    → IsConfig config
    → read_issue input ≡ some r
    → (issue config random input records).0 ≡ some g
    → (r.now < g.expires_at)
      × (g.expires_at ≤ r.now + max_ttl_ms)
      × (g.expires_at ≤ max_safe_integer)
unfolding issue
issue-expiry config random input records r g k e h =
    let granted : (issue_request config random r records).0 ≡ some g = rw (e, issue) at h in
    issue_request_cases
      (λ out.
        out.0 ≡ some g
        → (r.now < g.expires_at)
          × (g.expires_at ≤ r.now + max_ttl_ms)
          × (g.expires_at ≤ max_safe_integer))
      config random r records (λ f. cc) (λ f. cc)
      (λ early _ _ f. install_expiry (fresh_capability random 4 0 (sweep r.now records)) early f)
      granted
  where
    install_expiry :
        (o : Option Text)
        → ltb (max_safe_integer - config.ttl_ms) r.now ≡ false
        → (install config r (sweep r.now records) o).0 ≡ some g
        → (r.now < g.expires_at)
          × (g.expires_at ≤ r.now + max_ttl_ms)
          × (g.expires_at ≤ max_safe_integer)
    install_expiry none early f = unfold install in cc
    install_expiry (some c) early f = unfold install in ground arith

-- One of the four draws makes a capability that is not stored.
abbrev pub IsLucky : (ℕ → Drawn) → Records → Type 0
IsLucky random records =
    (i : ℕ) × (i < 4)
    × (c : Text) × (random_capability (random i) ≡ some c)
    × (has records c ≡ false)

-- One step of the loop: this draw serves, or a later one does.
fresh_capability_step :
    (random : ℕ → Drawn) (left attempt : ℕ) (records : Records)
    → (((c : Text) × (random_capability (random attempt) ≡ some c) × (has records c ≡ false))
        ⊎ ((d : Text) × (fresh_capability random left (attempt + 1) records ≡ some d)))
    → (d : Text) × (fresh_capability random (suc left) attempt records ≡ some d)
unfolding fresh_capability
fresh_capability_step random left attempt records (inl (c, e, f)) = (c, rw (e, fresh_capability, f))
fresh_capability_step random left attempt records (inr (d, later)) =
    elim (Option-cases (random_capability (random attempt))) [
      | inl e ↦ (d, rw (e, fresh_capability) later)
      | inr (c, e) ↦ elim (Bool-cases (has records c)) [
        | inl old ↦ (d, rw (e, fresh_capability, old) later)
        | inr new ↦ (c, rw (e, fresh_capability, new))
      ]
    ]

fresh_capability_total :
    (random : ℕ → Drawn) (left attempt i : ℕ) (records : Records) (c : Text)
    → attempt ≤ i
    → i < attempt + left
    → random_capability (random i) ≡ some c
    → has records c ≡ false
    → (d : Text) × (fresh_capability random left attempt records ≡ some d)
fresh_capability_total random zero attempt i records c p q e f = absurd (omega arith)
fresh_capability_total random (suc left) attempt i records c p q e f =
    fresh_capability_step random left attempt records (elim (ℕ_discrete attempt i) [
      | yes here ↦ inl (c, rw here e, f)
      | no other ↦ inr (
          fresh_capability_total random left (attempt + 1) i records c (omega arith) (omega arith) e
            f)
    ])

-- A well-formed request is granted whenever its expiry is a safe integer, the swept store is below
-- its capacity with room for the session and the subject, and one of the four draws makes a
-- capability that is not stored.
pub issue_total :
    (config : Config) (random : ℕ → Drawn) (input : Value) (records : Records) (r : IssueRequest)
    → read_issue input ≡ some r
    → r.now + config.ttl_ms ≤ max_safe_integer
    → length (sweep r.now records) < config.capacity
    → count (λ s. s.session_id === r.session_id) (sweep r.now records) < config.session_capacity
    → count (λ s. s.subject === r.subject) (sweep r.now records) < config.subject_capacity
    → IsLucky random (sweep r.now records)
    → (g : Grant) × ((issue config random input records).0 ≡ some g)
unfolding issue
issue_total config random input records r e early size by_session by_subject
      (i, lt, c, drawn, new) =
    let (d, fresh) =
      fresh_capability_total random 4 0 i (sweep r.now records) c (omega arith) (omega arith) drawn
        new in
    (record { capability = d; expires_at = r.now + config.ttl_ms }, rw (e, issue, granted d fresh))
  where
    granted :
        (d : Text)
        → fresh_capability random 4 0 (sweep r.now records) ≡ some d
        → (issue_request config random r records).0
          ≡ some (record { capability = d; expires_at = r.now + config.ttl_ms })
    granted d f = unfold issue_request has_room install in ground arith
