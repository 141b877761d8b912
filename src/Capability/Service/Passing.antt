-- ===== src/Capability/Service/Passing.antt =====
-- What the issuer and the resolver pass on to the store, and what they make of its answers.
use hodlxxi_social.Prelude.{
  ℕ, ◌+◌, ◌≤◌, ◌<◌, ◌≡◌, refl, sym, true, Option, none, some, List, ◌>>=◌, arith, subst,
}
use hodlxxi_social.Js.Text.{Text, includes}
use hodlxxi_social.Js.Value.{Value, max_safe_integer, returns}
use hodlxxi_social.Js.Record.{exact_record, property}
use hodlxxi_social.Capability.Syntax.{
  max_ttl_ms, is_safe_alias, is_capability, is_session_id, canonical_subject, canonical_session_id,
  privacy_safe_alias,
}
use hodlxxi_social.Capability.Syntax.Aliases.{normalize-aliases_value}
use hodlxxi_social.Capability.Random.{Drawn}
use hodlxxi_social.Capability.Store
use hodlxxi_social.Capability.Store.{
  Records, Stored, Grant, IssueRequest, ResolveRequest, grant_value, alias_value, read_issue,
  read_resolve,
}
use hodlxxi_social.Capability.Configuration.{Config}
use hodlxxi_social.Capability.Store.Invariant.{Inv, IsStored}
use hodlxxi_social.Js.Map.Laws.{Every-get}
use hodlxxi_social.Capability.Store.Limits.{IsConfig, issue-expiry}
use hodlxxi_social.Capability.Store.Grants.{issue-IsGrant}
use hodlxxi_social.Capability.Store.Answers.{resolve_iff}
use hodlxxi_social.Capability.Admission.{Environment, Admission, returned}
use hodlxxi_social.Capability.Admission.Laws.{IsWellFormed, admit-IsAdmitted, admit-IsWellFormed}
use hodlxxi_social.Capability.Issuer
use hodlxxi_social.Capability.Resolver
use hodlxxi_social.Capability.Service.{issue, resolve, prepare-issue, prepare-resolve}

-- The request that the store reads from the issuer's argument.
abbrev pub issue_request_of : Issuer.Request → Admission → IssueRequest
issue_request_of r a = record {
  subject = a.subject;
  session_id = a.session_id;
  alias = r.alias;
  current_aliases = a.participants;
  now = a.now;
}

read_request-issue :
    (input : Value) (r : Issuer.Request)
    → Issuer.read_request input ≡ some r
    → (is_session_id r.session_id ≡ true) × (is_safe_alias r.alias ≡ true)
unfolding Issuer.read_request canonical_session_id privacy_safe_alias
read_request-issue input r h = ground arith

-- The store reads back what the issuer writes.
read_issue-store_input :
    (r : Issuer.Request) (a : Admission)
    → IsWellFormed a
    → is_session_id a.session_id ≡ true
    → is_safe_alias r.alias ≡ true
    → includes a.participants r.alias ≡ true
    → read_issue (Issuer.store_input r a) ≡ some (issue_request_of r a)
unfolding read_issue Issuer.store_input exact_record property canonical_subject canonical_session_id
    privacy_safe_alias
read_issue-store_input r a ok session alias listed =
    rw (ok.subject, session, alias)
      (ground (arith, normalize-aliases_value a.participants ok.aliases ok.count))

-- The issuer passes on the grants that the store makes.
normalize_issued-grant_value :
    (now : ℕ) (g : Grant)
    → is_capability g.capability ≡ true
    → now + max_ttl_ms ≤ max_safe_integer
    → now < g.expires_at
    → g.expires_at ≤ now + max_ttl_ms
    → g.expires_at ≤ max_safe_integer
    → Issuer.normalize_issued (grant_value (some g)) now ≡ some g
unfolding Issuer.normalize_issued grant_value exact_record property
normalize_issued-grant_value now g syntax early later soon safe = rw syntax (ground arith)

normalize_issued-unavailable : (now : ℕ) → Issuer.normalize_issued (grant_value none) now ≡ none
unfolding Issuer.normalize_issued grant_value exact_record property
normalize_issued-unavailable now = refl

read_request-resolve :
    (input : Value) (r : Resolver.Request)
    → Resolver.read_request input ≡ some r
    → (is_session_id r.session_id ≡ true) × (is_capability r.capability ≡ true)
unfolding Resolver.read_request canonical_session_id
read_request-resolve input r h = ground arith

abbrev pub resolve_request_of : Resolver.Request → Admission → ResolveRequest
resolve_request_of r a = record {
  subject = a.subject;
  session_id = a.session_id;
  capability = r.capability;
  current_aliases = a.participants;
  now = a.now;
}

read_resolve-store_input :
    (r : Resolver.Request) (a : Admission)
    → IsWellFormed a
    → is_session_id a.session_id ≡ true
    → is_capability r.capability ≡ true
    → read_resolve (Resolver.store_input r a) ≡ some (resolve_request_of r a)
unfolding read_resolve Resolver.store_input exact_record property canonical_subject
    canonical_session_id
read_resolve-store_input r a ok session syntax =
    rw (ok.subject, session, syntax)
      (ground (arith, normalize-aliases_value a.participants ok.aliases ok.count))

normalize_resolved-alias_value :
    (alias : Text) (participants : List Text)
    → is_safe_alias alias ≡ true
    → includes participants alias ≡ true
    → Resolver.normalize_resolved (alias_value (some alias)) participants ≡ some alias
unfolding Resolver.normalize_resolved alias_value exact_record property privacy_safe_alias
normalize_resolved-alias_value alias participants safe listed = rw (safe, listed) refl

normalize_resolved-unavailable :
    (participants : List Text) → Resolver.normalize_resolved (alias_value none) participants ≡ none
unfolding Resolver.normalize_resolved alias_value exact_record property privacy_safe_alias
normalize_resolved-unavailable participants = refl

-- Once the issuer is past its own checks, it reads a request that the store accepts.
pub prepare-read_issue :
    (env : Environment) (input : Value) (r : Issuer.Request) (a : Admission)
    → Issuer.prepare env input ≡ some (r, a)
    → read_issue (Issuer.store_input r a) ≡ some (issue_request_of r a)
prepare-read_issue env input r a e =
    let (read, admitted, listed) = prepare-issue env input r a e in
    let (session, safe) = read_request-issue input r read in
    read_issue-store_input r a (admit-IsWellFormed env r.session_id a admitted)
      (subst (λ t. is_session_id t ≡ true)
        (sym (admit-IsAdmitted env r.session_id a admitted).same_id) session)
      safe listed

pub prepare-read_resolve :
    (env : Environment) (input : Value) (r : Resolver.Request) (a : Admission)
    → Resolver.prepare env input ≡ some (r, a)
    → read_resolve (Resolver.store_input r a) ≡ some (resolve_request_of r a)
prepare-read_resolve env input r a e =
    let (read, admitted) = prepare-resolve env input r a e in
    let (session, syntax) = read_request-resolve input r read in
    read_resolve-store_input r a (admit-IsWellFormed env r.session_id a admitted)
      (subst (λ t. is_session_id t ≡ true)
        (sym (admit-IsAdmitted env r.session_id a admitted).same_id) session)
      syntax

-- Over a store that its constructor made, the issuer answers a request that passes its checks
-- exactly as the store does: it never turns a grant of the store down, nor changes one.
pub issue-eq-store :
    (config : Config) (random : ℕ → Drawn) (env : Environment) (input : Value) (records : Records)
    (r : Issuer.Request) (a : Admission)
    → IsConfig config
    → Issuer.prepare env input ≡ some (r, a)
    → issue config random env input records
      ≡ Store.issue config random (Issuer.store_input r a) records
unfolding issue Issuer.issue
issue-eq-store config random env input records r a ok e =
    rw (e, Issuer.issue)
      (λ i. (
        same (Store.issue config random (Issuer.store_input r a) records).0 refl i,
        (Store.issue config random (Issuer.store_input r a) records).1,
      ))
  where
    same :
        (o : Option Grant)
        → (Store.issue config random (Issuer.store_input r a) records).0 ≡ o
        → Issuer.normalize_issued (grant_value o) a.now ≡ o
    same none f = normalize_issued-unavailable a.now
    same (some g) f =
        let read = prepare-read_issue env input r a e in
        let (later, soon, safe) =
          issue-expiry config random (Issuer.store_input r a) records (issue_request_of r a) g ok
            read f in
        let grant =
          issue-IsGrant config random (Issuer.store_input r a) records (issue_request_of r a) g read
            f in
        normalize_issued-grant_value a.now g grant.syntax
          (admit-IsWellFormed env r.session_id a (prepare-issue env input r a e).1).early later soon
          safe

-- Over a store that keeps its invariant, the resolver answers a request that passes its checks
-- exactly as the store does.
pub resolve-eq-store :
    (config : Config) (env : Environment) (input : Value) (records : Records) (r : Resolver.Request)
    (a : Admission)
    → Inv config records
    → Resolver.prepare env input ≡ some (r, a)
    → resolve env input records ≡ Store.resolve (Resolver.store_input r a) records
unfolding resolve Resolver.resolve
resolve-eq-store config env input records r a v e =
    rw (e, Resolver.resolve)
      (λ i. (
        same (Store.resolve (Resolver.store_input r a) records).0 refl i,
        (Store.resolve (Resolver.store_input r a) records).1,
      ))
  where
    same :
        (o : Option Text)
        → (Store.resolve (Resolver.store_input r a) records).0 ≡ o
        → (returned (returns (alias_value o)) >>= λ t. Resolver.normalize_resolved t a.participants)
          ≡ o
    same none f = normalize_resolved-unavailable a.participants
    same (some alias) f =
        let (s, stored, allowed, named) =
          (resolve_iff config (Resolver.store_input r a) (resolve_request_of r a) records alias v
              (prepare-read_resolve env input r a e)).0
            f in
        let safe = (Every-get IsStored records r.capability s stored v.stored).alias_ok in
        normalize_resolved-alias_value alias a.participants
          (subst (λ t. is_safe_alias t ≡ true) named safe)
          (subst (λ t. includes a.participants t ≡ true) named allowed.listed)
