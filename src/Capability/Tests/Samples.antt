-- ===== src/Capability/Tests/Samples.antt =====
-- Concrete requests, dependencies and records.
use hodlxxi_social.Prelude.{ℕ, ◌+◌, ◌≡◌, refl, true, none, some, List, [], ◌∷◌}
use hodlxxi_social.Prelude.{replicate}
use hodlxxi_social.Js.Text.{Text, lit, ◌===◌, includes}
use hodlxxi_social.Js.Map
use hodlxxi_social.Js.Value.{Value, string, number, boolean, nat, returns}
use hodlxxi_social.Js.Record.{exact_record, property}
use hodlxxi_social.Js.Record.Laws.{record_value, indexed}
use hodlxxi_social.Capability.Syntax.{
  direct_message, normalize_current_aliases, collect_aliases, canonical_subject,
  canonical_session_id, privacy_safe_alias, is_subject, is_session_id, is_safe_alias, is_capability,
}
use hodlxxi_social.Capability.Syntax.Aliases.{aliases_value}
use hodlxxi_social.Capability.Random.{Drawn, bytes, random_capability, base64url}
use hodlxxi_social.Capability.Admission.{
  Environment, Admission, admit, read_clock, session_answer, normalize_session,
  normalize_full_authority, normalize_directory, participant_items, access_token,
}
use hodlxxi_social.Capability.Issuer
use hodlxxi_social.Capability.Resolver
use hodlxxi_social.Capability.Store.{
  issue, issue_request, has_room, install, sweep, fresh_capability, Records, Stored, Grant,
  IssueRequest, ResolveRequest, read_issue, read_resolve,
}
use hodlxxi_social.Capability.Configuration.{Config}

abbrev pub config : Config
config = record { ttl_ms = 1000; capacity = 4; session_capacity = 2; subject_capacity = 2 }

abbrev pub subject : Text
subject = replicate 64 b'a'

abbrev pub session_id : Text
session_id = replicate 43 b'S'

abbrev pub alice : Text
alice = lit "alice"

abbrev pub directory : List Text
directory = alice ∷ lit "bob" ∷ []

abbrev pub lucky : ℕ → Drawn
lucky i = bytes (replicate 32 (i + 1))

-- What 32 bytes of value 1 are in base64url.
abbrev pub ones : Text
ones = lit "rc_AQEBAQEBAQEBAQEBAQEBAQEBAQEBAQEBAQEBAQEBAQE"

abbrev pub alice_request : Value
alice_request = record_value (
    (lit "subject", string subject)
    ∷ (lit "sessionId", string session_id)
    ∷ (lit "alias", string alice)
    ∷ (lit "purpose", string direct_message)
    ∷ (lit "currentAliases", aliases_value directory)
    ∷ (lit "now", number (nat 5000))
    ∷ [])

abbrev pub alice_issue : IssueRequest
alice_issue = record {
  subject = subject;
  session_id = session_id;
  alias = alice;
  current_aliases = directory;
  now = 5000;
}

pub ones_drawn : random_capability (lucky 0) ≡ some ones
unfolding random_capability base64url is_capability
ones_drawn = refl

pub alice_read : read_issue alice_request ≡ some alice_issue
unfolding read_issue exact_record property canonical_subject canonical_session_id privacy_safe_alias
    normalize_current_aliases includes indexed is_subject is_session_id is_safe_alias
alice_read = refl

abbrev pub alice_grant : Grant
alice_grant = record { capability = ones; expires_at = 6000 }

abbrev pub alice_stored : Stored
alice_stored = record {
  subject = subject;
  session_id = session_id;
  alias = alice;
  purpose = direct_message;
  expires_at = 6000;
}

abbrev pub alice_records : Records
alice_records = (ones, alice_stored) ∷ []

pub alice_issued : issue config lucky alice_request [] ≡ (some alice_grant, alice_records)
unfolding issue issue_request has_room install sweep fresh_capability random_capability base64url
    is_capability Map.has Map.set Map.count Map.keep read_issue exact_record property
    canonical_subject canonical_session_id privacy_safe_alias normalize_current_aliases includes
    indexed is_subject is_session_id is_safe_alias
alice_issued = refl

-- The request to resolve the capability, a little later.
abbrev pub ones_request : Value
ones_request = record_value (
    (lit "subject", string subject)
    ∷ (lit "sessionId", string session_id)
    ∷ (lit "capability", string ones)
    ∷ (lit "purpose", string direct_message)
    ∷ (lit "currentAliases", aliases_value directory)
    ∷ (lit "now", number (nat 5999))
    ∷ [])

abbrev pub ones_resolve : ResolveRequest
ones_resolve = record {
  subject = subject;
  session_id = session_id;
  capability = ones;
  current_aliases = directory;
  now = 5999;
}

pub ones_read : read_resolve ones_request ≡ some ones_resolve
unfolding read_resolve exact_record property canonical_subject canonical_session_id is_capability
    normalize_current_aliases includes indexed is_subject is_session_id is_safe_alias
    privacy_safe_alias
ones_read = refl

-- Dependencies that answer as the services do, at a time.
abbrev pub environment : ℕ → Environment
environment time = record {
  clock = returns (number (nat time));
  sessions_get = λ id. returns (
      record_value (
        (lit "subject", string subject)
        ∷ (lit "viewerAccessToken", string (lit "a.b.c"))
        ∷ (lit "issuedAt", number (nat 1000))
        ∷ (lit "expiresAt", number (nat 9000))
        ∷ []));
  session_reader = none;
  authority_reader = λ s. returns (
      record_value (
        (lit "subject", string s)
        ∷ (lit "status", string (lit "full"))
        ∷ (lit "valid", boolean true)
        ∷ []));
  read_for_viewer = λ token. returns (
      record_value (
        (lit "state", string (lit "available"))
        ∷ (lit "participants", aliases_value directory)
        ∷ []));
}

abbrev pub admission : ℕ → Admission
admission time = record {
  session_id = session_id;
  subject = subject;
  participants = directory;
  now = time;
}

abbrev pub issuer_input : Value
issuer_input =
    record_value ((lit "sessionId", string session_id) ∷ (lit "alias", string alice) ∷ [])

abbrev pub resolver_input : Value
resolver_input =
    record_value ((lit "sessionId", string session_id) ∷ (lit "capability", string ones) ∷ [])

abbrev pub issuer_request : Issuer.Request
issuer_request = record { session_id = session_id; alias = alice }

abbrev pub resolver_request : Resolver.Request
resolver_request = record { session_id = session_id; capability = ones }

pub issuer_prepared :
    Issuer.prepare (environment 5000) issuer_input ≡ some (issuer_request, admission 5000)
unfolding Issuer.prepare Issuer.read_request admit read_clock session_answer normalize_session
    normalize_full_authority normalize_directory participant_items access_token exact_record
    property canonical_subject canonical_session_id privacy_safe_alias collect_aliases includes
    indexed is_subject is_session_id is_safe_alias
issuer_prepared = refl

pub resolver_prepared :
    Resolver.prepare (environment 5999) resolver_input ≡ some (resolver_request, admission 5999)
unfolding Resolver.prepare Resolver.read_request admit read_clock session_answer normalize_session
    normalize_full_authority normalize_directory participant_items access_token exact_record
    property canonical_subject canonical_session_id privacy_safe_alias collect_aliases includes
    indexed is_subject is_session_id is_safe_alias is_capability
resolver_prepared = refl

pub alice_listed : includes directory alice ≡ true
unfolding includes ◌===◌
alice_listed = refl
