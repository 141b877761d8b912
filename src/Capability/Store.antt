-- ===== src/Capability/Store.antt =====
-- `createOpaqueRecipientCapabilityStore` of src/server/opaque-recipient-capability.mjs. Each method
-- takes the records and returns the records that it leaves beside its answer; an answer `none` is
-- OPAQUE_RECIPIENT_CAPABILITY_UNAVAILABLE. `random attempt` is what the attempt's draw answers.
pub mod Invariant
pub mod Answers
pub mod Grants
pub mod History
pub mod Limits
use hodlxxi_social.Prelude.{
  ℕ, zero, suc, ◌+◌, ◌-◌, Bool, true, false, not, ◌&&◌, ◌||◌, Option, none, some, List, [], ◌∷◌,
  map, ltb, leb, length, when, ◌>>=◌, ◌>>◌, guard, if◌then◌else◌, ◌≡◌, Bool-cases, inl, inr,
}
use Prim.Native.Nat.{min}
use hodlxxi_social.Js.Text.{Text, lit, ◌===◌, includes}
use hodlxxi_social.Js.Map
use hodlxxi_social.Js.Value.{
  Value, undefined, function, number, string, nat, neg, inexact, safe_natural, as_string, is_text,
  max_safe_integer,
}
use hodlxxi_social.Js.Record.{exact_record, property}
use hodlxxi_social.Js.Record.Laws.{record_value}
use hodlxxi_social.Capability.Syntax.{
  direct_message, default_ttl_ms, max_ttl_ms, max_capabilities, default_per_session,
  max_per_session, default_per_subject, max_per_subject, canonical_subject, canonical_session_id,
  privacy_safe_alias, is_capability, normalize_current_aliases,
}
use hodlxxi_social.Capability.Configuration.{Config}
use hodlxxi_social.Capability.Random.{Drawn, random_capability}

pub record Stored : Type 0 where
  pub subject : Text
  pub session_id : Text
  pub alias : Text
  pub purpose : Text
  pub expires_at : ℕ

abbrev pub Records : Type 0
Records = List (Text × Stored)

unfoldable pub sweep : ℕ → Records → Records
sweep now records = Map.keep (λ r. not (leb r.expires_at now)) records

pub record IssueRequest : Type 0 where
  pub subject : Text
  pub session_id : Text
  pub alias : Text
  pub current_aliases : List Text
  pub now : ℕ

-- The checks of `issue` on its argument.
unfoldable pub read_issue : Value → Option IssueRequest
read_issue input =
    let fields =
      exact_record input
        (map lit ("subject" ∷ "sessionId" ∷ "alias" ∷ "purpose" ∷ "currentAliases" ∷ "now" ∷ [])) in
    do
      subject ← canonical_subject (property fields (lit "subject"))
      session_id ← canonical_session_id (property fields (lit "sessionId"))
      alias ← privacy_safe_alias (property fields (lit "alias"))
      now ← safe_natural (property fields (lit "now"))
      aliases ← normalize_current_aliases (property fields (lit "currentAliases"))
      guard (is_text direct_message (property fields (lit "purpose")))
      guard (includes aliases alias)
      some (record {
        subject = subject;
        session_id = session_id;
        alias = alias;
        current_aliases = aliases;
        now = now;
      })

-- The loop over the attempts: `left` of them from `attempt` on.
unfoldable pub fresh_capability : (ℕ → Drawn) → ℕ → ℕ → Records → Option Text
fresh_capability random zero attempt records = none
fresh_capability random (suc left) attempt records =
    let next = fresh_capability random left (attempt + 1) records in
    elim (random_capability (random attempt)) [
      | none ↦ next
      | some candidate ↦ if not (Map.has records candidate) then some candidate else next
    ]

pub record Grant : Type 0 where
  pub capability : Text
  pub expires_at : ℕ

-- Neither the session nor the subject has its share of the records.
unfoldable pub has_room : Config → IssueRequest → Records → Bool
has_room config r records = not (
    leb config.session_capacity (Map.count (λ s. s.session_id === r.session_id) records)
    || leb config.subject_capacity (Map.count (λ s. s.subject === r.subject) records))

abbrev pub stored_for : Config → IssueRequest → Stored
stored_for config r = record {
  subject = r.subject;
  session_id = r.session_id;
  alias = r.alias;
  purpose = direct_message;
  expires_at = r.now + config.ttl_ms;
}

-- What is done with a fresh capability, or without one.
unfoldable pub install : Config → IssueRequest → Records → Option Text → Option Grant × Records
install config r records none = (none, records)
install config r records (some c) = (
  some (record { capability = c; expires_at = r.now + config.ttl_ms }),
  Map.set records c (stored_for config r),
)

-- `issue` from the test of `now` on.
unfoldable pub issue_request :
    Config → (ℕ → Drawn) → IssueRequest → Records → Option Grant × Records
issue_request config random r records =
    if ltb (max_safe_integer - config.ttl_ms) r.now
    then (none, records)
    else let swept = sweep r.now records in
      if leb config.capacity (length swept) || not (has_room config r swept)
      then (none, swept)
      else install config r swept (fresh_capability random 4 0 swept)

-- The ways out of `issue_request`.
pub issue_request_cases {ℓ} :
    (P : Option Grant × Records → Type ℓ) (config : Config) (random : ℕ → Drawn) (r : IssueRequest)
    (records : Records)
    → P (none, records)
    → P (none, sweep r.now records)
    → (ltb (max_safe_integer - config.ttl_ms) r.now ≡ false
        → leb config.capacity (length (sweep r.now records)) ≡ false
        → has_room config r (sweep r.now records) ≡ true
        → P (
            install config r
              (sweep r.now records)
              (fresh_capability random 4 0 (sweep r.now records))))
    → P (issue_request config random r records)
unfolding issue_request
issue_request_cases P config random r records early refused go =
    elim (Bool-cases (ltb (max_safe_integer - config.ttl_ms) r.now)) [
      | inl late ↦ rw late early
      | inr e ↦ elim (Bool-cases (leb config.capacity (length (sweep r.now records)))) [
        | inl full ↦ rw (e, full) refused
        | inr f ↦ elim (Bool-cases (has_room config r (sweep r.now records))) [
          | inl room ↦ rw (e, f, room) (go e f room)
          | inr busy ↦ rw (e, f, busy) refused
        ]
      ]
    ]

unfoldable pub issue : Config → (ℕ → Drawn) → Value → Records → Option Grant × Records
issue config random input records = elim (read_issue input) [
  | none ↦ (none, records)
  | some r ↦ issue_request config random r records
]

pub record ResolveRequest : Type 0 where
  pub subject : Text
  pub session_id : Text
  pub capability : Text
  pub current_aliases : List Text
  pub now : ℕ

-- The checks of `resolve` on its argument.
unfoldable pub read_resolve : Value → Option ResolveRequest
read_resolve input =
    let fields = exact_record input (
      map lit
        ("subject" ∷ "sessionId" ∷ "capability" ∷ "purpose" ∷ "currentAliases" ∷ "now" ∷ [])) in
    do
      subject ← canonical_subject (property fields (lit "subject"))
      session_id ← canonical_session_id (property fields (lit "sessionId"))
      now ← safe_natural (property fields (lit "now"))
      aliases ← normalize_current_aliases (property fields (lit "currentAliases"))
      capability ← as_string (property fields (lit "capability"))
      guard (is_capability capability)
      guard (is_text direct_message (property fields (lit "purpose")))
      some (record {
        subject = subject;
        session_id = session_id;
        capability = capability;
        current_aliases = aliases;
        now = now;
      })

-- The test on the stored record.
unfoldable pub answer : ResolveRequest → Option Stored → Option Text
answer r none = none
answer r (some s) =
    if not (s.subject === r.subject)
      || not (s.session_id === r.session_id)
      || not (s.purpose === direct_message)
      || leb s.expires_at r.now
      || not (includes r.current_aliases s.alias)
    then none
    else some s.alias

unfoldable pub resolve_request : ResolveRequest → Records → Option Text × Records
unfolding answer
resolve_request r records =
    let swept = sweep r.now records in (answer r (Map.get swept r.capability), swept)

unfoldable pub resolve : Value → Records → Option Text × Records
resolve input records = elim (read_resolve input) [
  | none ↦ (none, records)
  | some r ↦ resolve_request r records
]

-- The answers as the objects that the methods return.
abbrev pub unavailable : Value
unavailable = record_value ((lit "state", string (lit "unavailable")) ∷ [])

unfoldable pub grant_value : Option Grant → Value
grant_value none = unavailable
grant_value (some g) = record_value (
    (lit "state", string (lit "available"))
    ∷ (lit "capability", string g.capability)
    ∷ (lit "expiresAt", number (nat g.expires_at))
    ∷ [])

unfoldable pub alias_value : Option Text → Value
alias_value none = unavailable
alias_value (some alias) =
    record_value ((lit "state", string (lit "available")) ∷ (lit "alias", string alias) ∷ [])
