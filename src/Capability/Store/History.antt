-- ===== src/Capability/Store/History.antt =====
-- Where the records of the capability store come from.
use hodlxxi_social.Prelude.{
  ℕ, ◌+◌, ◌≡◌, refl, sym, ◌∙◌, ◌⊎◌, inl, inr, not, Option, none, some, List, [], ◌∷◌, leb, arith,
  Option-cases, Bool-cases,
}
use mathlib.Core.Option.{some-injective}
use hodlxxi_social.Js.Text.{Text, ◌===◌, ===_iff}
use hodlxxi_social.Js.Map.{get, IsMap}
use hodlxxi_social.Js.Map.Laws.{get-set, passing}
use hodlxxi_social.Js.Value.{Value}
use hodlxxi_social.Capability.Random.{Drawn}
use hodlxxi_social.Capability.Store.{
  Stored, Records, IssueRequest, ResolveRequest, Grant, sweep, read_issue, stored_for, install,
  issue_request, issue_request_cases, issue, read_resolve, resolve_request, resolve,
}
use hodlxxi_social.Capability.Configuration.{Config}
use hodlxxi_social.Capability.Store.Answers.{get-sweep, Allows, resolve_iff}
use hodlxxi_social.Capability.Store.Invariant.{
  Inv, empty-Inv, Call, issues, resolves, run, run-Inv, issue-Inv, resolve-Inv,
}

-- Some call of the history, made on these records, granted `c` as `s` records it.
pub data Issued (config : Config) : Records → List Call → Text → Stored → Type 0 where
  here :
      {records : Records} {calls : List Call} {c : Text} {s : Stored} (random : ℕ → Drawn)
      (input : Value) (r : IssueRequest) (g : Grant)
      → read_issue input ≡ some r
      → (issue config random input records).0 ≡ some g
      → g.capability ≡ c
      → stored_for config r ≡ s
      → Issued config records (issues random input ∷ calls) c s
  after_issue :
      {records : Records} {calls : List Call} {c : Text} {s : Stored} (random : ℕ → Drawn)
      (input : Value)
      → Issued config (issue config random input records).1 calls c s
      → Issued config records (issues random input ∷ calls) c s
  after_resolve :
      {records : Records} {calls : List Call} {c : Text} {s : Stored} (input : Value)
      → Issued config (resolve input records).1 calls c s
      → Issued config records (resolves input ∷ calls) c s

get-sweep_old :
    (now : ℕ) (records : Records) (c : Text) (s : Stored)
    → IsMap records
    → get (sweep now records) c ≡ some s
    → get records c ≡ some s
get-sweep_old now records c s h e =
    passing_old (get records c) (sym (get-sweep now records c h) ∙ e)
  where
    passing_old :
        (o : Option Stored) → passing (λ r. not (leb r.expires_at now)) o ≡ some s → o ≡ some s
    passing_old none f = f
    passing_old (some t) f = ground arith

install-get_old :
    (config : Config) (r : IssueRequest) (records : Records) (o : Option Text) (c : Text)
    (s : Stored)
    → get (install config r records o).1 c ≡ some s
    → (get records c ≡ some s)
      ⊎ ((g : Grant) × ((install config r records o).0 ≡ some g)
          × (g.capability ≡ c)
          × (stored_for config r ≡ s))
unfolding install
install-get_old config r records none c s e = inl e
install-get_old config r records (some d) c s e = elim (Bool-cases (d === c)) [
  | inl same ↦ inr (
    record { capability = d; expires_at = r.now + config.ttl_ms },
    refl,
    (===_iff d c).0 same,
    some-injective _ _ (rw (get-set records d c (stored_for config r), same) at e),
  )
  | inr other ↦ inl (rw (get-set records d c (stored_for config r), other) at e)
]

-- A record that a call leaves was there before, or the call granted it.
abbrev OldOrGranted :
    Config → IssueRequest → Records → Text → Stored → Option Grant × Records → Type 0
OldOrGranted config r records c s out =
    get out.1 c ≡ some s
    → (get records c ≡ some s)
      ⊎ ((g : Grant) × (out.0 ≡ some g) × (g.capability ≡ c) × (stored_for config r ≡ s))

issue_request-old :
    (config : Config) (random : ℕ → Drawn) (r : IssueRequest) (records : Records) (c : Text)
    (s : Stored)
    → IsMap records
    → OldOrGranted config r records c s (issue_request config random r records)
issue_request-old config random r records c s h =
    issue_request_cases (OldOrGranted config r records c s) config random r records inl
      (λ e. inl (get-sweep_old r.now records c s h e))
      λ _ _ _ e. elim (install-get_old config r (sweep r.now records) _ c s e) [
        | inl old ↦ inl (get-sweep_old r.now records c s h old)
        | inr granted ↦ inr granted
      ]

issue-old :
    (config : Config) (random : ℕ → Drawn) (input : Value) (records : Records) (calls : List Call)
    (c : Text) (s : Stored)
    → IsMap records
    → get (issue config random input records).1 c ≡ some s
    → (get records c ≡ some s) ⊎ Issued config records (issues random input ∷ calls) c s
unfolding issue
issue-old config random input records calls c s h e = elim (Option-cases (read_issue input)) [
  | inl f ↦ inl (rw (f, issue) at e)
  | inr (r, f) ↦ elim (issue_request-old config random r records c s h (rw (f, issue) at e)) [
    | inl old ↦ inl old
    | inr (g, granted, same, stored) ↦
        inr (here random input r g f (rw (f, issue) granted) same stored)
  ]
]

resolve-get_old :
    (input : Value) (records : Records) (c : Text) (s : Stored)
    → IsMap records
    → get (resolve input records).1 c ≡ some s
    → get records c ≡ some s
unfolding resolve resolve_request
resolve-get_old input records c s h e = elim (Option-cases (read_resolve input)) [
  | inl f ↦ rw (f, resolve) at e
  | inr (q, f) ↦ get-sweep_old q.now records c s h (rw (f, resolve) at e)
]

run-old :
    (config : Config) (records : Records) (calls : List Call) (c : Text) (s : Stored)
    → Inv config records
    → get (run config records calls) c ≡ some s
    → (get records c ≡ some s) ⊎ Issued config records calls c s
unfolding run
run-old config records [] c s v e = inl e
run-old config records (issues random input ∷ calls) c s v e =
    let next = (issue config random input records).1 in
    elim (run-old config next calls c s (issue-Inv config random input records v) e) [
      | inl there ↦ issue-old config random input records calls c s v.is_map there
      | inr later ↦ inr (after_issue random input later)
    ]
run-old config records (resolves input ∷ calls) c s v e =
    let next = (resolve input records).1 in
    elim (run-old config next calls c s (resolve-Inv config input records v) e) [
      | inl there ↦ inl (resolve-get_old input records c s v.is_map there)
      | inr later ↦ inr (after_resolve input later)
    ]

-- Whatever was called before, an alias is given out only for a capability that an earlier call of
-- `issue` granted: to the same subject and session, for that alias, with an expiry after the time
-- of the request.
pub resolve-Issued :
    (config : Config) (calls : List Call) (input : Value) (q : ResolveRequest) (a : Text)
    → read_resolve input ≡ some q
    → (resolve input (run config [] calls)).0 ≡ some a
    → (s : Stored) × Issued config [] calls q.capability s × Allows q s × (s.alias ≡ a)
resolve-Issued config calls input q a e h =
    let v = run-Inv config [] calls (empty-Inv config) in
    let (s, stored, allowed, alias) =
      (resolve_iff config input q (run config [] calls) a v e).0 h in
    (s, issued s (run-old config [] calls q.capability s (empty-Inv config) stored), allowed, alias)
  where
    issued :
        (s : Stored)
        → (get [] q.capability ≡ some s) ⊎ Issued config [] calls q.capability s
        → Issued config [] calls q.capability s
    issued s (inl e) = absurd (unfold get in cc)
    issued s (inr i) = i
