-- ===== src/Capability/Store/Grants.antt =====
-- What a granted capability is good for, and for how long.
use hodlxxi_social.Prelude.{
  ℕ, ◌+◌, ◌<◌, ◌≡◌, refl, sym, inl, inr, true, false, Option, none, some, List, [], ◌∷◌, arith,
  Option-cases, subst,
}
use hodlxxi_social.Js.Text.{Text, includes, ===_iff}
use hodlxxi_social.Js.Map.{has, get}
use hodlxxi_social.Js.Map.Laws.{get-set, has_of_get}
use hodlxxi_social.Js.Value.{Value}
use hodlxxi_social.Capability.Syntax.{is_capability}
use hodlxxi_social.Capability.Random.{Drawn}
use hodlxxi_social.Capability.Store.{
  Stored, Records, IssueRequest, ResolveRequest, Grant, sweep, read_issue, fresh_capability,
  stored_for, install, issue_request, issue_request_cases, issue, read_resolve, resolve_request,
  resolve,
}
use hodlxxi_social.Capability.Configuration.{Config}
use hodlxxi_social.Capability.Store.Answers.{get-sweep_live, resolve_iff}
use hodlxxi_social.Capability.Store.Invariant.{
  Inv, Call, issues, resolves, run, run-Inv, issue-Inv, resolve-Inv, fresh_capability_sound,
}

install-get :
    (config : Config) (r : IssueRequest) (records : Records) (o : Option Text) (c : Text)
    (s : Stored)
    → get records c ≡ some s
    → ((d : Text) → o ≡ some d → has records d ≡ false)
    → get (install config r records o).1 c ≡ some s
unfolding install
install-get config r records none c s e fresh = e
install-get config r records (some d) c s e fresh = ground (
  arith,
  get-set records d c (stored_for config r),
  fresh d refl,
  has_of_get records c s e,
  ===_iff d c,
)

-- The time of a request, if there is one, is before `t`.
abbrev pub IssueBefore : ℕ → Option IssueRequest → Type 0
IssueBefore t none = Unit
IssueBefore t (some r) = r.now < t

abbrev pub ResolveBefore : ℕ → Option ResolveRequest → Type 0
ResolveBefore t none = Unit
ResolveBefore t (some q) = q.now < t

-- A record that is there before a call, and outlives the call's time, is there after it.
issue-get :
    (config : Config) (random : ℕ → Drawn) (input : Value) (records : Records) (c : Text)
    (s : Stored)
    → Inv config records
    → get records c ≡ some s
    → IssueBefore s.expires_at (read_issue input)
    → get (issue config random input records).1 c ≡ some s
unfolding issue
issue-get config random input records c s v e before = elim (Option-cases (read_issue input)) [
  | inl f ↦ rw (f, issue) e
  | inr (r, f) ↦
      let swept = sweep r.now records in
      let kept : get (sweep r.now records) c ≡ some s =
        get-sweep_live r.now records c s v.is_map e (subst (IssueBefore s.expires_at) f before) in
      rw (f, issue)
        (issue_request_cases (λ out. get out.1 c ≡ some s) config random r records e kept
          λ _ _ _.
            install-get config r swept (fresh_capability random 4 0 swept) c s kept
              (λ d g. (fresh_capability_sound random 4 0 swept d g).0))
]

resolve-get :
    (config : Config) (input : Value) (records : Records) (c : Text) (s : Stored)
    → Inv config records
    → get records c ≡ some s
    → ResolveBefore s.expires_at (read_resolve input)
    → get (resolve input records).1 c ≡ some s
unfolding resolve resolve_request
resolve-get config input records c s v e before = elim (Option-cases (read_resolve input)) [
  | inl f ↦ rw (f, resolve) e
  | inr (q, f) ↦
      rw (f, resolve)
        (get-sweep_live q.now records c s v.is_map e (subst (ResolveBefore s.expires_at) f before))
]

-- The time of every well-formed call is before `t`.
abbrev pub AllBefore : ℕ → List Call → Type 0
AllBefore t [] = Unit
AllBefore t (issues random input ∷ calls) = IssueBefore t (read_issue input) × AllBefore t calls
AllBefore t (resolves input ∷ calls) = ResolveBefore t (read_resolve input) × AllBefore t calls

run-get :
    (config : Config) (records : Records) (calls : List Call) (c : Text) (s : Stored)
    → Inv config records
    → get records c ≡ some s
    → AllBefore s.expires_at calls
    → get (run config records calls) c ≡ some s
unfolding run
run-get config records [] c s v e before = e
run-get config records (issues random input ∷ calls) c s v e before =
    run-get config (issue config random input records).1 calls c s
      (issue-Inv config random input records v)
      (issue-get config random input records c s v e before.0) before.1
run-get config records (resolves input ∷ calls) c s v e before =
    run-get config (resolve input records).1 calls c s (resolve-Inv config input records v)
      (resolve-get config input records c s v e before.0) before.1

-- What a grant tells of the records that it leaves.
pub record IsGrant (config : Config) (r : IssueRequest) (g : Grant) (after : Records) : Type 0 where
  pub stored : get after g.capability ≡ some (stored_for config r)
  pub expires : g.expires_at ≡ r.now + config.ttl_ms
  pub syntax : is_capability g.capability ≡ true

install-IsGrant :
    (config : Config) (r : IssueRequest) (records : Records) (o : Option Text) (g : Grant)
    → ((c : Text) → o ≡ some c → is_capability c ≡ true)
    → (install config r records o).0 ≡ some g
    → IsGrant config r g (install config r records o).1
unfolding install
install-IsGrant config r records none g syntax h = cc
install-IsGrant config r records (some c) g syntax h =
    ground (arith, syntax c refl, get-set records c c (stored_for config r), ===_iff c c)

-- A granting call read a request, and left it stored under the capability that it granted.
pub issue-IsGrant :
    (config : Config) (random : ℕ → Drawn) (input : Value) (records : Records) (r : IssueRequest)
    (g : Grant)
    → read_issue input ≡ some r
    → (issue config random input records).0 ≡ some g
    → IsGrant config r g (issue config random input records).1
unfolding issue
issue-IsGrant config random input records r g e h =
    let granted : (issue_request config random r records).0 ≡ some g = rw (e, issue) at h in
    rw (e, issue)
      (issue_request_cases (λ out. out.0 ≡ some g → IsGrant config r g out.1) config random r
        records (λ f. cc) (λ f. cc)
        (λ _ _ _.
          install-IsGrant config r (sweep r.now records) _ g
            (λ c f. (fresh_capability_sound random 4 0 (sweep r.now records) c f).1))
        granted)

-- A granted capability resolves to its alias: after any further calls whose times lie before the
-- expiry, for the same subject and session, as long as the alias is listed and the time of the
-- request is before the expiry too.
pub resolve-issue :
    (config : Config) (random : ℕ → Drawn) (input resolve_input : Value) (records : Records)
    (calls : List Call) (g : Grant) (r : IssueRequest) (q : ResolveRequest)
    → Inv config records
    → (issue config random input records).0 ≡ some g
    → read_issue input ≡ some r
    → AllBefore g.expires_at calls
    → read_resolve resolve_input ≡ some q
    → q.capability ≡ g.capability
    → q.subject ≡ r.subject
    → q.session_id ≡ r.session_id
    → q.now < g.expires_at
    → includes q.current_aliases r.alias ≡ true
    → (resolve resolve_input (run config (issue config random input records).1 calls)).0
      ≡ some r.alias
resolve-issue config random input resolve_input records calls g r q v granted read before asked same
      subject session time listed =
    let after = (issue config random input records).1 in
    let grant = issue-IsGrant config random input records r g read granted in
    let there : get (run config (issue config random input records).1 calls) q.capability
        ≡ some (stored_for config r) =
      rw same (
        run-get config after calls g.capability (stored_for config r)
          (issue-Inv config random input records v) grant.stored
          (subst (λ t. AllBefore t calls) grant.expires before)) in
    (resolve_iff config resolve_input q (run config after calls) r.alias
        (run-Inv config after calls (issue-Inv config random input records v)) asked).1
      (
        stored_for config r,
        there,
        record {
          subject = sym subject;
          session = sym session;
          listed = listed;
          live = subst (λ t. q.now < t) grant.expires time;
        },
        refl,
      )
