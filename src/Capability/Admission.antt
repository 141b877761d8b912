-- ===== src/Capability/Admission.antt =====
-- What the issuer and the resolver check in common before they use the store: the session, the
-- current authority of its subject, and the Full Directory that the viewer may read
-- (src/server/opaque-recipient-capability-issuer.mjs; the resolver's file has the same helpers).
pub mod Grounds
pub mod Directory
pub mod Laws
use hodlxxi_social.Prelude.{
  ℕ, zero, suc, ◌+◌, ◌-◌, ◌≡◌, Bool, true, false, not, ◌&&◌, ◌||◌, Option, none, some, List, [],
  ◌∷◌, map, ◌==◌, ltb, leb, length, when, ◌>>=◌, ◌>>◌, guard, any,
}
use hodlxxi_social.Js.Text.{Text, lit, includes}
use hodlxxi_social.Js.Value.{
  Value, Props, Entry, function, object, array, exotic, standard, name, entries, descriptor,
  safe_natural, as_string, is_text, is_true, max_safe_integer, Outcome, returns, throws,
}
use hodlxxi_social.Js.Record.{exact_record, property, dense_items}
use hodlxxi_social.Capability.Syntax.{
  max_ttl_ms, max_capabilities, canonical_subject, canonical_session_id, privacy_safe_alias,
  collect_aliases,
}

abbrev pub is_function : Option Value → Bool
is_function (some function) = true
is_function _ = false

-- An own data property, enumerable or not, that holds a function.
unfoldable pub own_method : List Entry → Text → Bool
own_method es method = is_function (do e ← descriptor (name method) es; e.content)

unfoldable pub data_method : Value → Text → Bool
unfolding own_method descriptor
data_method (object _ ps) method = own_method (entries ps) method
data_method (array _ _ ps) method = own_method (entries ps) method
data_method _ method = false

pub record Session : Type 0 where
  pub subject : Text
  pub viewer_access_token : Text

-- typeof token === "string", 1 to 8192 code units, /[\u0000-\u0020\u007f]/ in none of them
unfoldable pub access_token : Value → Option Text
access_token v = do
  t ← as_string v
  when (leb 1 (length t) && leb (length t) 8192 && not (any (λ c. leb c 0x20 || c == 0x7f) t))
      (some t)

unfoldable pub normalize_session : Value → ℕ → Option Session
normalize_session value now =
    let fields =
      exact_record value
        (map lit ("subject" ∷ "viewerAccessToken" ∷ "issuedAt" ∷ "expiresAt" ∷ [])) in
    do
      subject ← canonical_subject (property fields (lit "subject"))
      issued_at ← safe_natural (property fields (lit "issuedAt"))
      expires_at ← safe_natural (property fields (lit "expiresAt"))
      guard (leb issued_at now)
      guard (ltb now expires_at)
      guard (ltb issued_at expires_at)
      token ← access_token (property fields (lit "viewerAccessToken"))
      some (record { subject = subject; viewer_access_token = token })

unfoldable pub normalize_full_authority : Text → Value → Bool
normalize_full_authority subject value =
    let fields = exact_record value (map lit ("subject" ∷ "status" ∷ "valid" ∷ [])) in
    is_text subject (property fields (lit "subject"))
    && is_text (lit "full") (property fields (lit "status"))
    && is_true (property fields (lit "valid"))

-- At most 4096 participants, and no own key beside the indices and `length`.
unfoldable pub participant_items : Value → Option (List Value)
unfolding dense_items
participant_items (array standard n ps) =
    when (leb n max_capabilities && length (entries ps) == n) (dense_items n 0 (entries ps))
participant_items _ = none

unfoldable pub normalize_directory : Value → Option (List Text)
normalize_directory value =
    let fields = exact_record value (map lit ("state" ∷ "participants" ∷ [])) in
    do
      guard (is_text (lit "available") (property fields (lit "state")))
      items ← participant_items (property fields (lit "participants"))
      collect_aliases [] items

abbrev pub returned {ℓ} : {A : Type ℓ} → Outcome A → Option A
returned (returns a) = some a
returned throws = none

-- What the calls of the dependencies answer: the clock, the session of an id, the authority
-- projection of a subject, the directory for a viewer's token.
pub record Environment : Type 0 where
  pub clock : Outcome Value
  pub sessions_get : Text → Outcome Value
  pub session_reader : Option (Text → Outcome Value)
  pub authority_reader : Text → Outcome Value
  pub read_for_viewer : Text → Outcome Value

-- sessionReader ? sessionReader(sessionId) : sessions.get(sessionId)
unfoldable pub session_answer : Environment → Text → Outcome Value
session_answer env id = elim env.session_reader [
  | none ↦ env.sessions_get id
  | some reader ↦ reader id
]

unfoldable pub read_clock : Environment → Option ℕ
read_clock env = do
  value ← returned env.clock
  now ← safe_natural value
  when (leb now (max_safe_integer - max_ttl_ms)) (some now)

pub record Admission : Type 0 where
  pub session_id : Text
  pub subject : Text
  pub participants : List Text
  pub now : ℕ

-- The chain from the request's session id to the participants; a throw of any call ends it.
unfoldable pub admit : Environment → Text → Option Admission
admit env session_id = do
  now ← read_clock env
  answer ← returned (session_answer env session_id)
  session ← normalize_session answer now
  projection ← returned (env.authority_reader session.subject)
  guard (normalize_full_authority session.subject projection)
  directory ← returned (env.read_for_viewer session.viewer_access_token)
  participants ← normalize_directory directory
  some (record {
    session_id = session_id;
    subject = session.subject;
    participants = participants;
    now = now;
  })
