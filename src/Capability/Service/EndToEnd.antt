-- ===== src/Capability/Service/EndToEnd.antt =====
-- From the issuer to the resolver.
use hodlxxi_social.Prelude.{ℕ, ◌<◌, ◌≡◌, ◌∙◌, sym, ap, true, Option, some, List, subst}
use hodlxxi_social.Js.Text.{Text, includes}
use hodlxxi_social.Js.Value.{Value}
use hodlxxi_social.Capability.Random.{Drawn}
use hodlxxi_social.Capability.Store
use hodlxxi_social.Capability.Store.{Records, Grant}
use hodlxxi_social.Capability.Configuration.{Config}
use hodlxxi_social.Capability.Store.Invariant.{Inv, Call, run, run-Inv, issue-Inv}
use hodlxxi_social.Capability.Store.Limits.{IsConfig}
use hodlxxi_social.Capability.Store.Grants.{AllBefore, resolve-issue}
use hodlxxi_social.Capability.Admission.{Environment, Admission}
use hodlxxi_social.Capability.Admission.Laws.{admit-IsAdmitted}
use hodlxxi_social.Capability.Issuer
use hodlxxi_social.Capability.Resolver
use hodlxxi_social.Capability.Service.{issue, resolve, prepare-issue, prepare-resolve}
use hodlxxi_social.Capability.Service.Passing.{
  issue_request_of, resolve_request_of, prepare-read_issue, prepare-read_resolve, issue-eq-store,
  resolve-eq-store,
}

-- A capability that the issuer grants resolves to the alias that was asked for: after any further
-- calls of the store whose times lie before the expiry, for a request of the same session that the
-- resolver admits for the same subject before the expiry, while the directory still lists the alias.
pub resolve-issue_end_to_end :
    (config : Config) (random : ℕ → Drawn) (env env' : Environment) (input input' : Value)
    (records : Records) (calls : List Call) (g : Grant) (r : Issuer.Request) (a : Admission)
    (q : Resolver.Request) (b : Admission)
    → IsConfig config
    → Inv config records
    → Issuer.prepare env input ≡ some (r, a)
    → (issue config random env input records).0 ≡ some g
    → AllBefore g.expires_at calls
    → Resolver.prepare env' input' ≡ some (q, b)
    → q.capability ≡ g.capability
    → q.session_id ≡ r.session_id
    → b.subject ≡ a.subject
    → b.now < g.expires_at
    → includes b.participants r.alias ≡ true
    → (resolve env' input' (run config (issue config random env input records).1 calls)).0
      ≡ some r.alias
resolve-issue_end_to_end config random env env' input input' records calls g r a q b ok v e granted
      before e' same session subject time listed =
    let stored_issue = issue-eq-store config random env input records r a ok e in
    let argument = Issuer.store_input r a in
    let after = (Store.issue config random argument records).1 in
    let later = run-Inv config after calls (issue-Inv config random argument records v) in
    subst (λ (s : Records). (resolve env' input' (run config s calls)).0 ≡ some r.alias)
      (sym (ap (λ (out : Option Grant × Records). out.1) stored_issue))
      (ap (λ (out : Option Text × Records). out.0)
          (resolve-eq-store config env' input' (run config after calls) q b later e')
        ∙ resolve-issue config random argument (Resolver.store_input q b) records calls g
            (issue_request_of r a) (resolve_request_of q b) v
            (sym (ap (λ (out : Option Grant × Records). out.0) stored_issue) ∙ granted)
            (prepare-read_issue env input r a e) before (prepare-read_resolve env' input' q b e')
            same subject (ids ∙ session ∙ ids') time listed)
  where
    ids : b.session_id ≡ q.session_id
    ids = (admit-IsAdmitted env' q.session_id b (prepare-resolve env' input' q b e').1).same_id

    ids' : r.session_id ≡ a.session_id
    ids' = sym (admit-IsAdmitted env r.session_id a (prepare-issue env input r a e).1).same_id
