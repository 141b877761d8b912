-- ===== src/Capability/Store/Invariant.antt =====
-- The calls of the capability store and its invariant.
use hodlxxi_social.Prelude.{
  ℕ, zero, suc, ◌+◌, ◌≤◌, ◌<◌, ◌≡◌, refl, inl, inr, Bool, true, false, not, Option, none, some,
  List, [], ◌∷◌, leb, length, arith, Option-cases,
}
use hodlxxi_social.Js.Text.{Text, ◌===◌, includes, ===_iff}
use hodlxxi_social.Js.Map.{has, set, count, IsMap}
use hodlxxi_social.Js.Map.Laws.{
  Every, Every-keep, Every-set, keep-IsMap, set-IsMap, count-set, count-keep-le, length-set,
  length-keep-le,
}
use hodlxxi_social.Js.Value.{Value}
use hodlxxi_social.Capability.Syntax.{
  direct_message, is_capability, is_subject, is_session_id, is_safe_alias, canonical_subject,
  canonical_session_id, privacy_safe_alias,
}
use hodlxxi_social.Capability.Random.{Drawn, random_capability, throws, not_bytes, bytes}
use hodlxxi_social.Capability.Store.{
  Stored, Records, IssueRequest, sweep, read_issue, fresh_capability, has_room, stored_for, install,
  issue_request, issue_request_cases, issue, read_resolve, resolve_request, resolve,
}
use hodlxxi_social.Capability.Configuration.{Config}

-- What is stored passed the syntax checks.
pub record IsStored (capability : Text) (s : Stored) : Type 0 where
  pub capability_ok : is_capability capability ≡ true
  pub subject_ok : is_subject s.subject ≡ true
  pub session_ok : is_session_id s.session_id ≡ true
  pub alias_ok : is_safe_alias s.alias ≡ true
  pub purpose_ok : s.purpose ≡ direct_message

pub record Inv (config : Config) (records : Records) : Type 0 where
  pub is_map : IsMap records
  pub fits : length records ≤ config.capacity
  pub per_session : (id : Text) → count (λ s. s.session_id === id) records ≤ config.session_capacity
  pub per_subject : (id : Text) → count (λ s. s.subject === id) records ≤ config.subject_capacity
  pub stored : Every IsStored records

pub empty-Inv : (config : Config) → Inv config []
unfolding count
empty-Inv config = record {
  is_map = tt;
  fits = omega arith;
  per_session = λ id. omega arith;
  per_subject = λ id. omega arith;
  stored = tt;
}

pub sweep-Inv :
    (config : Config) (now : ℕ) (records : Records)
    → Inv config records
    → Inv config (sweep now records)
unfolding sweep
sweep-Inv config now records v = record {
  is_map = keep-IsMap live records v.is_map;
  fits = omega (arith, length-keep-le live records);
  per_session =
      λ id. omega (arith, count-keep-le live (λ s. s.session_id === id) records, v.per_session id);
  per_subject =
      λ id. omega (arith, count-keep-le live (λ s. s.subject === id) records, v.per_subject id);
  stored = Every-keep IsStored live records v.stored;
}
  where
    live : Stored → Bool
    live r = not (leb r.expires_at now)

random_capability_sound :
    (d : Drawn) (c : Text) → random_capability d ≡ some c → is_capability c ≡ true
random_capability_sound throws c h = unfold random_capability in cc
random_capability_sound not_bytes c h = unfold random_capability in cc
random_capability_sound (bytes bs) c h = unfold random_capability in ground arith

pub fresh_capability_sound :
    (random : ℕ → Drawn) (left attempt : ℕ) (records : Records) (c : Text)
    → fresh_capability random left attempt records ≡ some c
    → (has records c ≡ false) × (is_capability c ≡ true)
unfolding fresh_capability
fresh_capability_sound random zero attempt records c h = cc
fresh_capability_sound random (suc left) attempt records c h = ground (
  arith,
  fresh_capability_sound random left (attempt + 1) records c,
  random_capability_sound (random attempt) c,
)

-- What `issue` reads from its argument.
pub record IsRequest (r : IssueRequest) : Type 0 where
  pub subject_ok : is_subject r.subject ≡ true
  pub session_ok : is_session_id r.session_id ≡ true
  pub alias_ok : is_safe_alias r.alias ≡ true
  pub listed : includes r.current_aliases r.alias ≡ true

read_issue-IsRequest : (input : Value) (r : IssueRequest) → read_issue input ≡ some r → IsRequest r
unfolding read_issue canonical_subject canonical_session_id privacy_safe_alias
read_issue-IsRequest input r h = ground arith

within_room :
    (config : Config) (r : IssueRequest) (records : Records)
    → has_room config r records ≡ true
    → (count (λ s. s.session_id === r.session_id) records < config.session_capacity)
      × (count (λ s. s.subject === r.subject) records < config.subject_capacity)
unfolding has_room
within_room config r records h = ground arith

module _ (config : Config) (r : IssueRequest) (records : Records) (c : Text)
    (new : has records c ≡ false) where
  count_by :
      (f : Stored → Text) (most : ℕ)
      → ((id : Text) → count (λ s. f s === id) records ≤ most)
      → count (λ s. f s === f (stored_for config r)) records < most
      → (id : Text) → count (λ s. f s === id) (set records c (stored_for config r)) ≤ most
  count_by f most all room id = ground (
    arith,
    count-set (λ s. f s === id) records c (stored_for config r) new,
    all id,
    ===_iff (f (stored_for config r)) id,
  )

module _ (config : Config) (r : IssueRequest) where
  install-Inv :
      (records : Records) (o : Option Text)
      → IsRequest r
      → Inv config records
      → length records < config.capacity
      → (count (λ s. s.session_id === r.session_id) records < config.session_capacity)
      → (count (λ s. s.subject === r.subject) records < config.subject_capacity)
      → ((c : Text) → o ≡ some c → (has records c ≡ false) × (is_capability c ≡ true))
      → Inv config (install config r records o).1
  unfolding install
  install-Inv records none q v size by_session by_subject fresh = v
  install-Inv records (some c) q v size by_session by_subject fresh =
      let (new, syntax) = fresh c refl in
      record {
        is_map = set-IsMap records c (stored_for config r) v.is_map;
        fits = omega (arith, length-set records c (stored_for config r) new);
        per_session =
            count_by config r records c new (λ s. s.session_id) config.session_capacity
              v.per_session by_session;
        per_subject =
            count_by config r records c new (λ s. s.subject) config.subject_capacity v.per_subject
              by_subject;
        stored =
            Every-set IsStored records c (stored_for config r)
              (record {
                capability_ok = syntax;
                subject_ok = q.subject_ok;
                session_ok = q.session_ok;
                alias_ok = q.alias_ok;
                purpose_ok = refl;
              })
              v.stored;
      }

  issue_request-Inv :
      (random : ℕ → Drawn) (records : Records)
      → IsRequest r
      → Inv config records
      → Inv config (issue_request config random r records).1
  issue_request-Inv random records q v =
      let swept = sweep r.now records in
      let kept = sweep-Inv config r.now records v in
      issue_request_cases (λ out. Inv config out.1) config random r records v kept
        λ _ size room.
          let (by_session, by_subject) = within_room config r swept room in
          install-Inv swept (fresh_capability random 4 0 swept) q kept (ground arith) by_session
            by_subject (fresh_capability_sound random 4 0 swept)

-- Every call of `issue`, granting or not, keeps the records well-formed and within the limits.
pub issue-Inv :
    (config : Config) (random : ℕ → Drawn) (input : Value) (records : Records)
    → Inv config records
    → Inv config (issue config random input records).1
unfolding issue
issue-Inv config random input records v = elim (Option-cases (read_issue input)) [
  | inl e ↦ rw (e, issue) v
  | inr (r, e) ↦
      rw (e, issue) (issue_request-Inv config r random records (read_issue-IsRequest input r e) v)
]

-- So does every call of `resolve`.
pub resolve-Inv :
    (config : Config) (input : Value) (records : Records)
    → Inv config records
    → Inv config (resolve input records).1
unfolding resolve
resolve-Inv config input records v = elim (Option-cases (read_resolve input)) [
  | inl e ↦ rw (e, resolve) v
  | inr (r, e) ↦ rw (e, resolve) (unfold resolve_request in sweep-Inv config r.now records v)
]

-- The calls of the two methods, in the order in which the server makes them.
pub data Call : Type 0 where
  issues : (ℕ → Drawn) → Value → Call
  resolves : Value → Call

unfoldable pub run : Config → Records → List Call → Records
run config records [] = records
run config records (issues random input ∷ calls) =
    run config (issue config random input records).1 calls
run config records (resolves input ∷ calls) = run config (resolve input records).1 calls

pub run-Inv :
    (config : Config) (records : Records) (calls : List Call)
    → Inv config records
    → Inv config (run config records calls)
unfolding run
run-Inv config records [] v = v
run-Inv config records (issues random input ∷ calls) v =
    run-Inv config (issue config random input records).1 calls
      (issue-Inv config random input records v)
run-Inv config records (resolves input ∷ calls) v =
    run-Inv config (resolve input records).1 calls (resolve-Inv config input records v)

-- After any calls the store holds at most `capacity` records, no session and no subject has more
-- than its share of them, no capability is there twice, and all that is stored passed the checks.
pub run-empty-Inv : (config : Config) (calls : List Call) → Inv config (run config [] calls)
run-empty-Inv config calls = run-Inv config [] calls (empty-Inv config)
