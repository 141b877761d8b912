-- ===== src/Capability/Tests.antt =====
-- The theorems at a small store: one grant to one session, resolved in time and too late.
mod Samples
use hodlxxi_social.Prelude.{
  ℕ, ◌+◌, ◌≤◌, ◌<◌, ◌≡◌, refl, sym, ap, ◌∙◌, subst, ◌↔◌, Bool, true, false, Option, none, some,
  List, [], ◌∷◌, ◌++◌, length, replicate, arith,
}
use hodlxxi_social.Js.Text.{Text, lit, includes, ◌===◌}
use hodlxxi_social.Js.Map
use hodlxxi_social.Js.Value.{
  string, Value, undefined, function, number, nat, Outcome, returns, max_safe_integer,
}
use hodlxxi_social.Js.Record.Laws.{indexed}
use hodlxxi_social.Js.Record.{exact_record, property, dense_data_array}
use hodlxxi_social.Js.Record.Holding.{HasField}
use hodlxxi_social.Capability.Syntax.{
  max_ttl_ms, max_capabilities, normalize_current_aliases, collect_aliases, is_safe_alias,
  privacy_safe_alias, is_capability,
}
use hodlxxi_social.Capability.Syntax.Aliases.{
  AreAliases, aliases_value, normalize_current_aliases_sound, normalize-aliases_value,
}
use hodlxxi_social.Capability.Random.{Drawn, bytes, random_capability, base64url}
use hodlxxi_social.Capability.Random.Decoding.{
  AreBytes, decode, decode-base64url, random_capability_total, random_capability_injective,
}
use hodlxxi_social.Capability.Store
use hodlxxi_social.Capability.Store.{
  Records, Stored, Grant, grant_value, alias_value, read_issue, read_resolve, sweep,
}
use hodlxxi_social.Capability.Configuration
use hodlxxi_social.Capability.Configuration.{Config, Options}
use hodlxxi_social.Capability.Store.Invariant.{
  Inv, IsStored, empty-Inv, issue-Inv, Call, issues, resolves, run, run-empty-Inv,
}
use hodlxxi_social.Capability.Store.Answers.{Allows, resolve_iff}
use hodlxxi_social.Capability.Store.Grants.{ResolveBefore, AllBefore, resolve-issue}
use hodlxxi_social.Capability.Store.History.{Issued, resolve-Issued}
use hodlxxi_social.Capability.Store.Limits.{IsConfig, create-IsConfig, issue-expiry, issue_total}
use hodlxxi_social.Capability.Admission.{Admission, Environment}
use hodlxxi_social.Capability.Admission.Laws.{IsAdmitted, IsWellFormed, admit-IsWellFormed}
use hodlxxi_social.Capability.Issuer
use hodlxxi_social.Capability.Resolver
use hodlxxi_social.Capability.Service.{
  issue, resolve, store_issue, store_resolve, issue-IsAdmitted, resolve-IsAdmitted,
}
use hodlxxi_social.Capability.Service.Passing.{issue-eq-store, resolve-eq-store}
use hodlxxi_social.Capability.Service.EndToEnd.{resolve-issue_end_to_end}
use Samples.*

run-empty-Inv_example : Inv config (run config [] (issues lucky alice_request ∷ []))
run-empty-Inv_example = run-empty-Inv config (issues lucky alice_request ∷ [])

granted : (Store.issue config lucky alice_request []).0 ≡ some alice_grant
granted = ap (λ (out : Option Grant × Records). out.0) alice_issued

ones_before : ResolveBefore 6000 (read_resolve ones_request)
ones_before = subst (ResolveBefore 6000) (sym ones_read) (omega arith)

-- The capability resolves at 5999, also after it was resolved once.
resolve-issue_example :
    (Store.resolve ones_request
      (run config (Store.issue config lucky alice_request []).1 (resolves ones_request ∷ []))).0
    ≡ some alice
resolve-issue_example =
    resolve-issue config lucky alice_request ones_request [] (resolves ones_request ∷ [])
      alice_grant alice_issue ones_resolve (empty-Inv config) granted alice_read (ones_before, tt)
      ones_read refl refl refl (omega arith) alice_listed

first_resolved :
    (Store.resolve ones_request (run config [] (issues lucky alice_request ∷ []))).0 ≡ some alice
first_resolved =
    unfold run in
    resolve-issue config lucky alice_request ones_request [] [] alice_grant alice_issue ones_resolve
      (empty-Inv config) granted alice_read tt ones_read refl refl refl (omega arith) alice_listed

resolve-Issued_example :
    (s : Stored) × Issued config [] (issues lucky alice_request ∷ []) ones s
    × Allows ones_resolve s
    × (s.alias ≡ alice)
resolve-Issued_example =
    resolve-Issued config (issues lucky alice_request ∷ []) ones_request ones_resolve alice
      ones_read first_resolved

alice_records-Inv : Inv config alice_records
alice_records-Inv =
    subst (λ (out : Option Grant × Records). Inv config out.1) alice_issued
      (issue-Inv config lucky alice_request [] (empty-Inv config))

resolve_iff_example : ((Store.resolve ones_request alice_records).0 ≡ some alice) ↔ (
    (s : Stored) × (Map.get alice_records ones ≡ some s)
    × Allows ones_resolve s
    × (s.alias ≡ alice))
resolve_iff_example =
    resolve_iff config ones_request ones_resolve alice_records alice alice_records-Inv ones_read

options : Options
options = record {
  random = function;
  ttl_ms = number (nat 1000);
  capacity = number (nat 4);
  per_session_capacity = number (nat 2);
  per_subject_capacity = number (nat 2);
}

config_created : Configuration.create options ≡ some config
unfolding options Configuration.create Configuration.or_default Configuration.math_min
    Configuration.in_bounds Configuration.is_function
config_created = refl

config-IsConfig : IsConfig config
config-IsConfig = omega arith

issue_total_example : (g : Grant) × ((Store.issue config lucky alice_request []).0 ≡ some g)
unfolding sweep Map.keep Map.count Map.has
issue_total_example =
    issue_total config lucky alice_request [] alice_issue alice_read (omega arith) (omega arith)
      (omega arith) (omega arith) (0, omega arith, ones, ones_drawn, refl)

-- The issuer and the resolver, composed with the store.

service_issued :
    issue config lucky (environment 5000) issuer_input [] ≡ (some alice_grant, alice_records)
service_issued =
    issue-eq-store config lucky (environment 5000) issuer_input [] issuer_request (admission 5000)
      config-IsConfig issuer_prepared
    ∙ (unfold Issuer.store_input in alice_issued)

service_granted : (issue config lucky (environment 5000) issuer_input []).0 ≡ some alice_grant
service_granted = ap (λ (out : Option Grant × Records). out.0) service_issued

resolve-issue_end_to_end_example :
    (resolve (environment 5999) resolver_input (
      run config
        (issue config lucky (environment 5000) issuer_input []).1
        (resolves ones_request ∷ []))).0
    ≡ some alice
resolve-issue_end_to_end_example =
    resolve-issue_end_to_end config lucky (environment 5000) (environment 5999) issuer_input
      resolver_input [] (resolves ones_request ∷ []) alice_grant issuer_request (admission 5000)
      resolver_request (admission 5999) config-IsConfig (empty-Inv config) issuer_prepared
      service_granted (ones_before, tt) resolver_prepared refl refl refl (omega arith) alice_listed

service_resolved : (resolve (environment 5999) resolver_input alice_records).0 ≡ some alice
service_resolved =
    subst
      (λ (out : Option Grant × Records).
        (resolve (environment 5999) resolver_input out.1).0 ≡ some alice)
      service_issued
      (unfold run in
        resolve-issue_end_to_end config lucky (environment 5000) (environment 5999) issuer_input
          resolver_input [] [] alice_grant issuer_request (admission 5000) resolver_request
          (admission 5999) config-IsConfig (empty-Inv config) issuer_prepared service_granted tt
          resolver_prepared refl refl refl (omega arith) alice_listed)

issue-IsAdmitted_example :
    (r : Issuer.Request) × (a : Admission) × (Issuer.read_request issuer_input ≡ some r)
    × HasField issuer_input (lit "sessionId") (string r.session_id)
    × HasField issuer_input (lit "alias") (string r.alias)
    × IsAdmitted (environment 5000) r.session_id a
    × (includes a.participants r.alias ≡ true)
    × (is_capability ones ≡ true)
    × (a.now < 6000)
    × (6000 ≤ a.now + max_ttl_ms)
issue-IsAdmitted_example =
    issue-IsAdmitted (store_issue config lucky) (environment 5000) issuer_input [] alice_grant
      (unfold issue in service_granted)

resolve-IsAdmitted_example :
    (r : Resolver.Request) × (a : Admission) × (Resolver.read_request resolver_input ≡ some r)
    × HasField resolver_input (lit "sessionId") (string r.session_id)
    × HasField resolver_input (lit "capability") (string r.capability)
    × IsAdmitted (environment 5999) r.session_id a
    × (includes a.participants alice ≡ true)
resolve-IsAdmitted_example =
    resolve-IsAdmitted store_resolve (environment 5999) resolver_input alice_records alice
      (unfold resolve in service_resolved)

-- Draws.

ones_bytes-AreBytes : AreBytes (replicate 32 1)
ones_bytes-AreBytes = omega arith

decode-base64url_example : decode (base64url (replicate 32 1)) ≡ replicate 32 1
decode-base64url_example = decode-base64url (replicate 32 1) ones_bytes-AreBytes

directory-AreAliases : AreAliases [] directory
unfolding is_safe_alias includes ◌===◌
directory-AreAliases = (refl, refl, (refl, refl, tt))

normalize-aliases_value_example :
    normalize_current_aliases (aliases_value directory) ≡ some directory
normalize-aliases_value_example =
    normalize-aliases_value directory directory-AreAliases (omega arith)
