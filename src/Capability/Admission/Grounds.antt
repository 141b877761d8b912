-- ===== src/Capability/Admission/Grounds.antt =====
-- What the session, the authority projection and the directory of an admission are.
use hodlxxi_social.Prelude.{
  ℕ, ◌+◌, ◌≤◌, ◌<◌, ◌≡◌, ◌≢◌, refl, ap, Bool, true, not, ◌&&◌, ◌||◌, ◌==◌, some, List, [], ◌∷◌, map,
  length, all, any, All, leb, ltb, leb_sound, when-eq-some, guard, arith, >>=-eq-some,
  guard-eq-some, subst,
}
use mathlib.Core.Option.{some-injective}
use hodlxxi_social.Js.Text.{Text, lit, is_lower_hex, ===_iff}
use hodlxxi_social.Js.Value.{
  Value, Props, Entry, boolean, number, nat, string, index, data_value, safe_natural, is_true,
  array, standard, entries, is_text,
}
use hodlxxi_social.Js.Record.{exact_record, property}
use hodlxxi_social.Js.Record.Holding.{HasField, exact_record-HasField}
use hodlxxi_social.Capability.Syntax.{is_subject, canonical_subject}
use hodlxxi_social.Capability.Syntax.Aliases.{AreAliases}
use hodlxxi_social.Capability.Admission.{
  access_token, Session, normalize_session, normalize_full_authority,
}

-- A session of the subject and the token, that has started by `now` and has not yet expired.
pub record IsLive (value : Value) (now : ℕ) (subject token : Text) : Type 0 where
  pub subject_field : HasField value (lit "subject") (string subject)
  pub token_field : HasField value (lit "viewerAccessToken") (string token)
  pub issued_at : ℕ
  pub expires_at : ℕ
  pub issued_field : HasField value (lit "issuedAt") (number (nat issued_at))
  pub expires_field : HasField value (lit "expiresAt") (number (nat expires_at))
  pub started : issued_at ≤ now
  pub running : now < expires_at
  pub subject_form : (length subject ≡ 64) × (all is_lower_hex subject ≡ true)
  pub token_form :
      (1 ≤ length token) × (length token ≤ 8192) × All (λ c. (0x20 < c) × (c ≢ 0x7f)) token

-- The authority projection of a subject that is valid and whose status is "full".
pub record IsFull (value : Value) (subject : Text) : Type 0 where
  pub subject_field : HasField value (lit "subject") (string subject)
  pub status_field : HasField value (lit "status") (string (lit "full"))
  pub valid_field : HasField value (lit "valid") (boolean true)

-- The entries hold, from the index i on, objects that name these aliases.
abbrev pub AreListed : ℕ → List Entry → List Text → Type 0
AreListed i es [] = Unit
AreListed i es (t ∷ ts) =
    ((item : Value) × (data_value (index i) es ≡ some item)
      × HasField item (lit "alias") (string t))
    × AreListed (i + 1) es ts

-- An available directory with exactly these participants, at most 4096 and all different.
pub record IsDirectory (value : Value) (participants : List Text) : Type 0 where
  pub state_field : HasField value (lit "state") (string (lit "available"))
  pub items : Props
  pub list_field : HasField value (lit "participants") (array standard (length participants) items)
  pub listed : AreListed 0 (entries items) participants
  pub aliases : AreAliases [] participants
  pub few : length participants ≤ 4096

safe_natural-eq-some : (v : Value) (n : ℕ) → safe_natural v ≡ some n → v ≡ number (nat n)
safe_natural-eq-some v n h = ground arith

canonical_subject-eq-some :
    (v : Value) (t : Text)
    → canonical_subject v ≡ some t
    → (v ≡ string t) × (length t ≡ 64) × (all is_lower_hex t ≡ true)
unfolding canonical_subject is_subject
canonical_subject-eq-some v t h = (ground arith, ground arith, ground arith)

no_blanks :
    (t : Text)
    → not (any (λ c. leb c 0x20 || c == 0x7f) t) ≡ true
    → All (λ c. (0x20 < c) × (c ≢ 0x7f)) t
no_blanks [] h = tt
no_blanks (c ∷ t) h = ((ground arith, ground arith), no_blanks t (ground arith))

access_token-eq-some :
    (v : Value) (t : Text)
    → access_token v ≡ some t
    → (v ≡ string t) × (1 ≤ length t) × (length t ≤ 8192) × All (λ c. (0x20 < c) × (c ≢ 0x7f)) t
unfolding access_token
access_token-eq-some (string t) u h =
    let (p, e) = when-eq-some _ (some t) h in
    subst
      (λ w.
        (string t ≡ string w)
        × (1 ≤ length w)
        × (length w ≤ 8192)
        × All (λ c. (0x20 < c) × (c ≢ 0x7f)) w)
      (some-injective _ _ e) (refl, ground arith, ground arith, no_blanks t (ground arith))
access_token-eq-some v u h = cc

abbrev session_fields : List Text
session_fields = map lit ("subject" ∷ "viewerAccessToken" ∷ "issuedAt" ∷ "expiresAt" ∷ [])

pub normalize_session-IsLive :
    (v : Value) (now : ℕ) (s : Session)
    → normalize_session v now ≡ some s
    → IsLive v now s.subject s.viewer_access_token
unfolding normalize_session
normalize_session-IsLive v now s h0 =
    let fields = exact_record v session_fields in
    let (subject, e1, h1) =
      >>=-eq-some (canonical_subject (property fields (lit "subject"))) _ h0 in
    let (i, e2, h2) = >>=-eq-some (safe_natural (property fields (lit "issuedAt"))) _ h1 in
    let (e, e3, h3) = >>=-eq-some (safe_natural (property fields (lit "expiresAt"))) _ h2 in
    let (u1, e4, h4) = >>=-eq-some (guard (leb i now)) _ h3 in
    let (u2, e5, h5) = >>=-eq-some (guard (ltb now e)) _ h4 in
    let (u3, e6, h6) = >>=-eq-some (guard (ltb i e)) _ h5 in
    let (token, e7, h7) =
      >>=-eq-some (access_token (property fields (lit "viewerAccessToken"))) _ h6 in
    let (s1, s2, s3) = canonical_subject-eq-some _ subject e1 in
    let (t1, t2, t3, t4) = access_token-eq-some _ token e7 in
    subst (λ (r : Session). IsLive v now r.subject r.viewer_access_token) (some-injective _ _ h7)
      (record {
        subject_field =
            exact_record-HasField v session_fields (lit "subject") (string subject) s1 refl;
        token_field =
            exact_record-HasField v session_fields (lit "viewerAccessToken") (string token) t1 refl;
        issued_at = i;
        expires_at = e;
        issued_field =
            exact_record-HasField v session_fields (lit "issuedAt") (number (nat i))
              (safe_natural-eq-some _ i e2) refl;
        expires_field =
            exact_record-HasField v session_fields (lit "expiresAt") (number (nat e))
              (safe_natural-eq-some _ e e3) refl;
        started = leb_sound i now (guard-eq-some _ e4);
        running = before now e (guard-eq-some _ e5);
        subject_form = (s2, s3);
        token_form = (t2, t3, t4);
      })
  where
    before : (a b : ℕ) → ltb a b ≡ true → a < b
    before a b h = ground arith

pub is_text-eq-true : (t : Text) (v : Value) → is_text t v ≡ true → v ≡ string t
is_text-eq-true t (string s) h = ap string ((===_iff s t).0 h)
is_text-eq-true t v h = cc

is_true-eq-true : (v : Value) → is_true v ≡ true → v ≡ boolean true
is_true-eq-true (boolean true) h = refl
is_true-eq-true v h = cc

abbrev authority_fields : List Text
authority_fields = map lit ("subject" ∷ "status" ∷ "valid" ∷ [])

three_tests : (a b c : Bool) → (a && b && c) ≡ true → (a ≡ true) × (b ≡ true) × (c ≡ true)
three_tests a b c h = (ground arith, ground arith, ground arith)

pub normalize_full_authority-IsFull :
    (subject : Text) (v : Value) → normalize_full_authority subject v ≡ true → IsFull v subject
unfolding normalize_full_authority
normalize_full_authority-IsFull subject v h =
    let fields = exact_record v authority_fields in
    let (same, full, valid) =
      three_tests (is_text subject (property fields (lit "subject")))
        (is_text (lit "full") (property fields (lit "status")))
        (is_true (property fields (lit "valid"))) h in
    record {
      subject_field =
          exact_record-HasField v authority_fields (lit "subject") (string subject)
            (is_text-eq-true subject _ same) refl;
      status_field =
          exact_record-HasField v authority_fields (lit "status") (string (lit "full"))
            (is_text-eq-true (lit "full") _ full) refl;
      valid_field =
          exact_record-HasField v authority_fields (lit "valid") (boolean true)
            (is_true-eq-true _ valid) refl;
    }
