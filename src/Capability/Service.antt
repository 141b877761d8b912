-- ===== src/Capability/Service.antt =====
-- The issuer and the resolver in front of one capability store, as
-- scripts/hodlxxi-social-server.mjs composes them.
pub mod Passing
pub mod EndToEnd
use hodlxxi_social.Prelude.{
  ℕ, ◌+◌, ◌≤◌, ◌<◌, ◌≡◌, refl, ◌∙◌, sym, Bool, true, false, not, ◌&&◌, Option, none, some, List, [],
  ◌∷◌, map, ltb, leb, when, ◌>>=◌, ◌>>◌, guard, arith, >>=-eq-some, Option-cases, subst, inl, inr,
}
use mathlib.Core.Option.{some-injective}
use hodlxxi_social.Js.Text.{Text, lit, includes}
use hodlxxi_social.Js.Value.{Value, string, as_string, is_text, Outcome, returns, throws}
use hodlxxi_social.Js.Record.{exact_record, property}
use hodlxxi_social.Js.Record.Holding.{HasField, exact_record-HasField}
use hodlxxi_social.Capability.Syntax.{
  max_ttl_ms, is_safe_alias, is_capability, is_session_id, canonical_session_id, privacy_safe_alias,
}
use hodlxxi_social.Capability.Random.{Drawn}
use hodlxxi_social.Capability.Store
use hodlxxi_social.Capability.Store.{Records, Grant, grant_value, alias_value}
use hodlxxi_social.Capability.Configuration.{Config}
use hodlxxi_social.Capability.Admission.{Environment, Admission, admit, returned}
use hodlxxi_social.Capability.Admission.Laws.{IsAdmitted, admit-IsAdmitted}
use hodlxxi_social.Capability.Issuer
use hodlxxi_social.Capability.Resolver

-- The store's methods as the issuer and the resolver call them.
abbrev pub store_issue : Config → (ℕ → Drawn) → Value → Records → Outcome Value × Records
store_issue config random input records =
    let (g, after) = Store.issue config random input records in (returns (grant_value g), after)

abbrev pub store_resolve : Value → Records → Outcome Value × Records
store_resolve input records =
    let (a, after) = Store.resolve input records in (returns (alias_value a), after)

unfoldable pub issue : Config → (ℕ → Drawn) → Environment → Value → Records → Option Grant × Records
issue config random = Issuer.issue (store_issue config random)

unfoldable pub resolve : Environment → Value → Records → Option Text × Records
resolve = Resolver.resolve store_resolve

-- The parts of `prepare`.
pub prepare-issue :
    (env : Environment) (input : Value) (r : Issuer.Request) (a : Admission)
    → Issuer.prepare env input ≡ some (r, a)
    → (Issuer.read_request input ≡ some r)
      × (admit env r.session_id ≡ some a)
      × (includes a.participants r.alias ≡ true)
unfolding Issuer.prepare
prepare-issue env input r a h = ground arith

pub prepare-resolve :
    (env : Environment) (input : Value) (r : Resolver.Request) (a : Admission)
    → Resolver.prepare env input ≡ some (r, a)
    → (Resolver.read_request input ≡ some r) × (admit env r.session_id ≡ some a)
unfolding Resolver.prepare
prepare-resolve env input r a h = ground arith

normalize_issued_sound :
    (v : Value) (now : ℕ) (g : Grant)
    → Issuer.normalize_issued v now ≡ some g
    → (is_capability g.capability ≡ true) × (now < g.expires_at) × (g.expires_at ≤ now + max_ttl_ms)
unfolding Issuer.normalize_issued
normalize_issued_sound v now g h = ground arith

normalize_resolved_sound :
    (v : Value) (participants : List Text) (alias : Text)
    → Resolver.normalize_resolved v participants ≡ some alias
    → includes participants alias ≡ true
unfolding Resolver.normalize_resolved
normalize_resolved_sound v participants alias h = ground arith

session_id_text : (v : Value) (t : Text) → canonical_session_id v ≡ some t → v ≡ string t
unfolding canonical_session_id
session_id_text v t h = ground arith

alias_text : (v : Value) (t : Text) → privacy_safe_alias v ≡ some t → v ≡ string t
unfolding privacy_safe_alias
alias_text v t h = ground arith

plain_text : (v : Value) (t : Text) → as_string v ≡ some t → v ≡ string t
plain_text v t h = ground arith

abbrev issue_fields : List Text
issue_fields = map lit ("sessionId" ∷ "alias" ∷ [])

abbrev resolve_fields : List Text
resolve_fields = map lit ("sessionId" ∷ "capability" ∷ [])

read_request-issue_fields :
    (input : Value) (r : Issuer.Request)
    → Issuer.read_request input ≡ some r
    → HasField input (lit "sessionId") (string r.session_id)
      × HasField input (lit "alias") (string r.alias)
unfolding Issuer.read_request
read_request-issue_fields input r h =
    let fields = exact_record input issue_fields in
    let (i, e1, h1) = >>=-eq-some (canonical_session_id (property fields (lit "sessionId"))) _ h in
    let (a, e2, h2) = >>=-eq-some (privacy_safe_alias (property fields (lit "alias"))) _ h1 in
    subst
      (λ (q : Issuer.Request).
        HasField input (lit "sessionId") (string q.session_id)
        × HasField input (lit "alias") (string q.alias))
      (some-injective _ _ h2)
      (
        exact_record-HasField input issue_fields (lit "sessionId") (string i)
            (session_id_text _ i e1) refl,
        exact_record-HasField input issue_fields (lit "alias") (string a) (alias_text _ a e2) refl,
      )

read_request-resolve_fields :
    (input : Value) (r : Resolver.Request)
    → Resolver.read_request input ≡ some r
    → HasField input (lit "sessionId") (string r.session_id)
      × HasField input (lit "capability") (string r.capability)
unfolding Resolver.read_request
read_request-resolve_fields input r h =
    let fields = exact_record input resolve_fields in
    let (i, e1, h1) = >>=-eq-some (canonical_session_id (property fields (lit "sessionId"))) _ h in
    let (c, e2, h2) = >>=-eq-some (as_string (property fields (lit "capability"))) _ h1 in
    let (u, e3, h3) = >>=-eq-some (guard (is_capability c)) _ h2 in
    subst
      (λ (q : Resolver.Request).
        HasField input (lit "sessionId") (string q.session_id)
        × HasField input (lit "capability") (string q.capability))
      (some-injective _ _ h3)
      (
        exact_record-HasField input resolve_fields (lit "sessionId") (string i)
            (session_id_text _ i e1) refl,
        exact_record-HasField input resolve_fields (lit "capability") (string c) (plain_text _ c e2)
            refl,
      )

module _ {ℓ} {S : Type ℓ} where
  -- Over any store, even one that lies or throws: a grant is given only for a request whose fields
  -- are a session id and an alias, when the session of that id is live at the time of the clock, the
  -- authority of its subject is valid with the status "full", the directory that its token may read is
  -- available and lists the alias; and the grant is a well-formed capability that expires within five
  -- minutes.
  pub issue-IsAdmitted :
      (capability_issue : Value → S → Outcome Value × S) (env : Environment) (input : Value)
      (store : S) (g : Grant)
      → (Issuer.issue capability_issue env input store).0 ≡ some g
      → (r : Issuer.Request) × (a : Admission) × (Issuer.read_request input ≡ some r)
        × HasField input (lit "sessionId") (string r.session_id)
        × HasField input (lit "alias") (string r.alias)
        × IsAdmitted env r.session_id a
        × (includes a.participants r.alias ≡ true)
        × (is_capability g.capability ≡ true)
        × (a.now < g.expires_at)
        × (g.expires_at ≤ a.now + max_ttl_ms)
  unfolding Issuer.issue
  issue-IsAdmitted capability_issue env input store g h =
      elim (Option-cases (Issuer.prepare env input)) [
        | inl e ↦
            let refused : ◌≡◌ {A = Option Grant} none (some g) = rw (e, Issuer.issue) at h in cc
        | inr ((r, a), e) ↦
            let (read, admitted, listed) = prepare-issue env input r a e in
            let out = capability_issue (Issuer.store_input r a) store in
            let answered : (returned out.0 >>= λ v. Issuer.normalize_issued v a.now) ≡ some g =
              rw (e, Issuer.issue) at h in
            let (v, answer, normal) = >>=-eq-some (returned out.0) _ answered in
            let (syntax, later, soon) = normalize_issued_sound v a.now g normal in
            let (asked, named) = read_request-issue_fields input r read in
            (
              r,
              a,
              read,
              asked,
              named,
              admit-IsAdmitted env r.session_id a admitted,
              listed,
              syntax,
              later,
              soon,
            )
      ]

  -- Over any store: an alias is given only for a request whose fields are a session id and a
  -- capability, when the session of that id is live at the time of the clock, the authority of its
  -- subject is valid with the status "full", the directory that its token may read is available and
  -- lists the alias.
  pub resolve-IsAdmitted :
      (capability_resolve : Value → S → Outcome Value × S) (env : Environment) (input : Value)
      (store : S) (alias : Text)
      → (Resolver.resolve capability_resolve env input store).0 ≡ some alias
      → (r : Resolver.Request) × (a : Admission) × (Resolver.read_request input ≡ some r)
        × HasField input (lit "sessionId") (string r.session_id)
        × HasField input (lit "capability") (string r.capability)
        × IsAdmitted env r.session_id a
        × (includes a.participants alias ≡ true)
  unfolding Resolver.resolve
  resolve-IsAdmitted capability_resolve env input store alias h =
      elim (Option-cases (Resolver.prepare env input)) [
        | inl e ↦
            let refused : ◌≡◌ {A = Option Text} none (some alias) = rw (e, Resolver.resolve) at h in
            cc
        | inr ((r, a), e) ↦
            let (read, admitted) = prepare-resolve env input r a e in
            let out = capability_resolve (Resolver.store_input r a) store in
            let answered : (returned out.0 >>= λ v. Resolver.normalize_resolved v a.participants)
                ≡ some alias =
              rw (e, Resolver.resolve) at h in
            let (v, answer, normal) = >>=-eq-some (returned out.0) _ answered in
            let (asked, named) = read_request-resolve_fields input r read in
            (
              r,
              a,
              read,
              asked,
              named,
              admit-IsAdmitted env r.session_id a admitted,
              normalize_resolved_sound v a.participants alias normal,
            )
      ]
