-- ===== src/Capability/Admission/Laws.antt =====
-- What an admission guarantees.
use hodlxxi_social.Prelude.{
  ℕ, ◌+◌, ◌≤◌, ◌≡◌, refl, ap, ◌∙◌, true, some, [], length, all, guard, arith, >>=-eq-some,
  guard-eq-some, subst,
}
use mathlib.Core.Option.{some-injective}
use hodlxxi_social.Js.Text.{Text, is_lower_hex}
use hodlxxi_social.Js.Value.{
  Value, number, nat, safe_natural, max_safe_integer, Outcome, returns, throws,
}
use hodlxxi_social.Capability.Syntax.{max_ttl_ms, max_capabilities, is_subject}
use hodlxxi_social.Capability.Syntax.Aliases.{AreAliases}
use hodlxxi_social.Capability.Admission.Directory.{normalize_directory-IsDirectory}
use hodlxxi_social.Capability.Admission.Grounds.{
  IsLive, IsFull, IsDirectory, normalize_session-IsLive, normalize_full_authority-IsFull,
}
use hodlxxi_social.Capability.Admission.{
  normalize_session, normalize_full_authority, normalize_directory, returned, Environment,
  session_answer, read_clock, Admission, admit,
}

-- The session of the id is live at the time of the clock, the authority of its subject is a current
-- "full", and the participants are those of the directory that its token may read.
pub record IsAdmitted (env : Environment) (id : Text) (a : Admission) : Type 0 where
  pub same_id : a.session_id ≡ id
  pub clock : env.clock ≡ returns (number (nat a.now))
  pub early : a.now + max_ttl_ms ≤ max_safe_integer
  pub token : Text
  pub session_value : Value
  pub session_read : session_answer env id ≡ returns session_value
  pub session : IsLive session_value a.now a.subject token
  pub projection : Value
  pub authority_read : env.authority_reader a.subject ≡ returns projection
  pub full : IsFull projection a.subject
  pub directory : Value
  pub directory_read : env.read_for_viewer token ≡ returns directory
  pub participants : IsDirectory directory a.participants

returned-eq-some {ℓ} : {A : Type ℓ} (o : Outcome A) (a : A) → returned o ≡ some a → o ≡ returns a
returned-eq-some (returns b) a h = ground arith
returned-eq-some throws a h = cc

read_clock_sound :
    (env : Environment) (now : ℕ)
    → read_clock env ≡ some now
    → (env.clock ≡ returns (number (nat now))) × (now + max_ttl_ms ≤ max_safe_integer)
unfolding read_clock
read_clock_sound env now h =
    let (v, e1, h1) = >>=-eq-some (returned env.clock) _ h in
    let (n, e2, h2) = >>=-eq-some (safe_natural v) _ h1 in
    (returned-eq-some env.clock v e1 ∙ ap returns (ground arith), ground arith)

pub admit-IsAdmitted :
    (env : Environment) (id : Text) (a : Admission) → admit env id ≡ some a → IsAdmitted env id a
unfolding admit
admit-IsAdmitted env id a h0 =
    let (now, clock, h1) = >>=-eq-some (read_clock env) _ h0 in
    let (answer, read, h2) = >>=-eq-some (returned (session_answer env id)) _ h1 in
    let (session, normal, h3) = >>=-eq-some (normalize_session answer now) _ h2 in
    let (projection, authority, h4) =
      >>=-eq-some (returned (env.authority_reader session.subject)) _ h3 in
    let (u, full, h5) =
      >>=-eq-some (guard (normalize_full_authority session.subject projection)) _ h4 in
    let (directory, listing, h6) =
      >>=-eq-some (returned (env.read_for_viewer session.viewer_access_token)) _ h5 in
    let (participants, names, h7) = >>=-eq-some (normalize_directory directory) _ h6 in
    subst (IsAdmitted env id) (some-injective _ _ h7) (record {
      same_id = refl;
      clock = (read_clock_sound env now clock).0;
      early = (read_clock_sound env now clock).1;
      token = session.viewer_access_token;
      session_value = answer;
      session_read = returned-eq-some _ _ read;
      session = normalize_session-IsLive answer now session normal;
      projection = projection;
      authority_read = returned-eq-some _ _ authority;
      full = normalize_full_authority-IsFull session.subject projection (guard-eq-some _ full);
      directory = directory;
      directory_read = returned-eq-some _ _ listing;
      participants = normalize_directory-IsDirectory directory participants names;
    })

-- The parts of an admission have the form that the store asks for.
pub record IsWellFormed (a : Admission) : Type 0 where
  pub subject : is_subject a.subject ≡ true
  pub aliases : AreAliases [] a.participants
  pub count : length a.participants ≤ max_capabilities
  pub early : a.now + max_ttl_ms ≤ max_safe_integer

subject_tested : (t : Text) → length t ≡ 64 → all is_lower_hex t ≡ true → is_subject t ≡ true
unfolding is_subject
subject_tested t h k = ground arith

-- Whatever the dependencies answer, an admission has a canonical subject, at most 4096 distinct
-- privacy-safe aliases, and a time that leaves room for the longest lifetime.
pub admit-IsWellFormed :
    (env : Environment) (id : Text) (a : Admission) → admit env id ≡ some a → IsWellFormed a
admit-IsWellFormed env id a h =
    let ok = admit-IsAdmitted env id a h in
    record {
      subject = subject_tested a.subject ok.session.subject_form.0 ok.session.subject_form.1;
      aliases = ok.participants.aliases;
      count = ok.participants.few;
      early = ok.early;
    }
