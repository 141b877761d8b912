-- ===== src/Sessions/Native/Confirming.antt =====
-- The answers of the backend that confirm a native session: `validateNativeV2SessionResponse` of
-- src/server/ubid-social-session-v2-client.mjs and `checked` of src/server/social-native-session-v2.mjs.
use mathlib.Core.Option.{some-injective}
use hodlxxi_social.Prelude.{
  ℕ, ◌+◌, ◌≤◌, ◌<◌, ◌≡◌, refl, ap, ◌∙◌, subst, Bool, true, false, ◌&&◌, ◌==◌, some, List, [], ◌∷◌,
  map, leb, ltb, guard, arith, ==_iff, >>=-eq-some, guard-eq-some, when-eq-some,
}
use hodlxxi_social.Js.Text.{Text, lit, ◌===◌, ===_iff}
use hodlxxi_social.Js.Value.{
  Value, object, standard, boolean, number, nat, string, entries, is_text, safe_natural,
}
use hodlxxi_social.Js.Record.{Fields, property}
use hodlxxi_social.Js.Record.Holding.{HasField, is_defined, own_fields-HasField}
use hodlxxi_social.Sessions.Store.Mobile.{has_exactly, is_hex64}
use hodlxxi_social.Sessions.Native.Responses.{
  is_null, own, hex64, Receipt, is_two, is_span, validate_receipt, Response, active, inactive,
  response_fields, validate_current, validate_response, same_receipt,
}
use hodlxxi_social.Sessions.Native.{is_current}
use hodlxxi_social.Sessions.Native.Records.{NativeRecord, same_record}

-- A receipt that an object holds.
pub record HoldsReceipt (value : Value) (r : Receipt) : Type 0 where
  pub schema : HasField value (lit "schema") (string (lit "hodlxxi.social_session_issuance.v2"))
  pub issuance_id : HasField value (lit "issuanceId") (string r.issuance_id)
  pub revision : HasField value (lit "socialSessionIssuanceRevision") (string r.revision)
  pub acceptance_id : HasField value (lit "acceptanceId") (string r.acceptance_id)
  pub issued_at : HasField value (lit "issuedAt") (number (nat r.issued_at))
  pub expires_at : HasField value (lit "expiresAt") (number (nat r.expires_at))
  pub short : r.expires_at ≤ r.issued_at + 300_000

-- An answer says that the session of the subject and the receipt is active, within its lifetime.
pub record Confirms (value : Value) (at : ℕ) (subject : Text) (r : Receipt) : Type 0 where
  pub active_field : HasField value (lit "currentActive") (boolean true)
  pub subject_field : HasField value (lit "subject") (string subject)
  pub receipt : Value
  pub receipt_field : HasField value (lit "receipt") receipt
  pub holds : HoldsReceipt receipt r
  pub started : r.issued_at ≤ at
  pub running : at < r.expires_at

-- The fields that `own` copies.
own-HasField :
    (v : Value) (fs : List Text) (r : Fields) (k : Text) (w : Value)
    → own v fs ≡ some r
    → property (some r) k ≡ w
    → is_defined w ≡ true
    → HasField v k w
unfolding own property
own-HasField (object standard ps) fs r k w h e d =
    own_fields-HasField ps (has_exactly fs (entries ps)) fs k w (ap (λ o. property o k) h ∙ e) d
own-HasField v fs r k w h e d = cc

hex64-eq-some : (v : Value) (t : Text) → hex64 v ≡ some t → v ≡ string t
hex64-eq-some (string s) t h =
    ap string (some-injective _ _ (when-eq-some (is_hex64 (string s)) _ h).1)
hex64-eq-some v t h = cc

safe_natural-eq-some : (v : Value) (n : ℕ) → safe_natural v ≡ some n → v ≡ number (nat n)
safe_natural-eq-some v n h = ground arith

is_text-eq-true : (t : Text) (v : Value) → is_text t v ≡ true → v ≡ string t
is_text-eq-true t (string s) h = ap string ((===_iff s t).0 h)
is_text-eq-true t v h = cc

abbrev receipt_fields : List Text
receipt_fields = map lit (
    "schema" ∷ "version" ∷ "issuanceId" ∷ "socialSessionIssuanceRevision" ∷ "acceptanceId"
    ∷ "issuedAt" ∷ "expiresAt" ∷ [])

span_short : (i e : ℕ) → is_span i e ≡ true → e ≤ i + 300_000
unfolding is_span
span_short i e h = ground arith

validate_receipt-HoldsReceipt :
    (source : Value) (receipt : Receipt)
    → validate_receipt source ≡ some receipt
    → HoldsReceipt source receipt
unfolding validate_receipt
validate_receipt-HoldsReceipt source receipt h0 =
    let (r, owned, h1) = >>=-eq-some (own source receipt_fields) _ h0 in
    let held = (λ (k : Text) (w : Value) (e : property (some r) k ≡ w) (d : is_defined w ≡ true).
      own-HasField source receipt_fields r k w owned e d) in
    let (u1, schema, h2) =
      >>=-eq-some
        (guard
          (is_text (lit "hodlxxi.social_session_issuance.v2") (property (some r) (lit "schema"))))
        _ h1 in
    let (u2, version, h3) = >>=-eq-some (guard (is_two (property (some r) (lit "version")))) _ h2 in
    let (a, ea, h4) = >>=-eq-some (hex64 (property (some r) (lit "issuanceId"))) _ h3 in
    let (b, eb, h5) =
      >>=-eq-some (hex64 (property (some r) (lit "socialSessionIssuanceRevision"))) _ h4 in
    let (c, ec, h6) = >>=-eq-some (hex64 (property (some r) (lit "acceptanceId"))) _ h5 in
    let (i, ei, h7) = >>=-eq-some (safe_natural (property (some r) (lit "issuedAt"))) _ h6 in
    let (e, ee, h8) = >>=-eq-some (safe_natural (property (some r) (lit "expiresAt"))) _ h7 in
    let (u3, span, h9) = >>=-eq-some (guard (is_span i e)) _ h8 in
    subst (HoldsReceipt source) (some-injective _ _ h9) (record {
      schema = held (lit "schema") _ (is_text-eq-true _ _ (guard-eq-some _ schema)) refl;
      issuance_id = held (lit "issuanceId") (string a) (hex64-eq-some _ a ea) refl;
      revision = held (lit "socialSessionIssuanceRevision") (string b) (hex64-eq-some _ b eb) refl;
      acceptance_id = held (lit "acceptanceId") (string c) (hex64-eq-some _ c ec) refl;
      issued_at = held (lit "issuedAt") (number (nat i)) (safe_natural-eq-some _ i ei) refl;
      expires_at = held (lit "expiresAt") (number (nat e)) (safe_natural-eq-some _ e ee) refl;
      short = span_short i e (guard-eq-some _ span);
    })

held_defined : (v : Value) (k : Text) (w : Value) → HasField v k w → is_defined v ≡ true
held_defined v k w (ps, form, found) = ap is_defined form

before_end : (i e n : ℕ) → (leb i n && ltb n e) ≡ true → (i ≤ n) × (n < e)
before_end i e n h = (ground arith, ground arith)

-- An answer to `resolve` that is active for the subject and the receipt.
abbrev IsActive : (value : Value) (at : ℕ) → Response → Type 0
IsActive value at (active receipt subject token) = Confirms value at subject receipt
IsActive value at (inactive receipt) = Unit

module _ (value : Value) (at : ℕ) (r : Fields)
    (owned : own value (response_fields true) ≡ some r) where
  validate_current-IsActive :
      (receipt : Receipt) (current : Value) (response : Response)
      → validate_receipt (property (some r) (lit "receipt")) ≡ some receipt
      → property (some r) (lit "currentActive") ≡ current
      → validate_current true at receipt r current ≡ some response
      → IsActive value at response
  unfolding validate_current
  validate_current-IsActive receipt (boolean true) response taken said h0 =
      let (u, within, h1) =
        >>=-eq-some (guard (leb receipt.issued_at at && ltb at receipt.expires_at)) _ h0 in
      let (subject, named, h2) = >>=-eq-some (hex64 (property (some r) (lit "subject"))) _ h1 in
      let (started, running) =
        before_end receipt.issued_at receipt.expires_at at (guard-eq-some _ within) in
      let holds = validate_receipt-HoldsReceipt _ receipt taken in
      let confirms : Confirms value at subject receipt = record {
        active_field =
            own-HasField value (response_fields true) r (lit "currentActive") (boolean true) owned
              said refl;
        subject_field =
            own-HasField value (response_fields true) r (lit "subject") (string subject) owned
              (hex64-eq-some _ subject named) refl;
        receipt = property (some r) (lit "receipt");
        receipt_field =
            own-HasField value (response_fields true) r (lit "receipt") _ owned refl
              (held_defined _ _ _ holds.schema);
        holds = holds;
        started = started;
        running = running;
      } in
      subst (IsActive value at) (some-injective _ _ h2) confirms
  validate_current-IsActive receipt (boolean false) response taken said h0 =
      let (u, none_named, h1) =
        >>=-eq-some (guard (is_null (property (some r) (lit "subject")))) _ h0 in
      subst (IsActive value at) (some-injective _ _ h1) tt
  validate_current-IsActive receipt v response taken said h0 = cc

validate_response-IsActive :
    (value : Value) (at : ℕ) (response : Response)
    → validate_response true at value ≡ some response
    → IsActive value at response
unfolding validate_response
validate_response-IsActive value at response h0 =
    let (r, owned, h1) = >>=-eq-some (own value (response_fields true)) _ h0 in
    let (receipt, taken, h2) =
      >>=-eq-some (validate_receipt (property (some r) (lit "receipt"))) _ h1 in
    validate_current-IsActive value at r owned receipt (property (some r) (lit "currentActive"))
      response taken refl h2

five_tests :
    (a b c d e : Bool)
    → (a && b && c && d && e) ≡ true
    → (a ≡ true) × (b ≡ true) × (c ≡ true) × (d ≡ true) × (e ≡ true)
five_tests a b c d e h = (ground arith, ground arith, ground arith, ground arith, ground arith)

pub same_receipt-eq-true : (a b : Receipt) → same_receipt a b ≡ true → a ≡ b
unfolding same_receipt
same_receipt-eq-true a b h =
    let (h1, h2, h3, h4, h5) =
      five_tests (a.issuance_id === b.issuance_id) (a.revision === b.revision)
        (a.acceptance_id === b.acceptance_id) (a.issued_at == b.issued_at)
        (a.expires_at == b.expires_at) h in
    λ i. record {
      issuance_id = (===_iff a.issuance_id b.issuance_id).0 h1 i;
      revision = (===_iff a.revision b.revision).0 h2 i;
      acceptance_id = (===_iff a.acceptance_id b.acceptance_id).0 h3 i;
      issued_at = (==_iff a.issued_at b.issued_at).0 h4 i;
      expires_at = (==_iff a.expires_at b.expires_at).0 h5 i;
    }

three_tests : (a b c : Bool) → (a && b && c) ≡ true → (a ≡ true) × (b ≡ true) × (c ≡ true)
three_tests a b c h = (ground arith, ground arith, ground arith)

pub same_record-eq-true : (a b : NativeRecord) → same_record a b ≡ true → a ≡ b
unfolding same_record
same_record-eq-true a b h =
    let (h1, h2, h3) =
      three_tests (a.subject === b.subject) (a.token === b.token) (same_receipt a.receipt b.receipt)
        h in
    λ i. record {
      subject = (===_iff a.subject b.subject).0 h1 i;
      token = (===_iff a.token b.token).0 h2 i;
      receipt = same_receipt-eq-true a.receipt b.receipt h3 i;
    }

both : (a b : Bool) → (a && b) ≡ true → (a ≡ true) × (b ≡ true)
both a b h = (ground arith, ground arith)

pub is_current-Confirms :
    (value : Value) (at : ℕ) (r : NativeRecord) (response : Response)
    → validate_response true at value ≡ some response
    → is_current r response ≡ true
    → Confirms value at r.subject r.receipt
is_current-Confirms value at r (active receipt subject token) valid current =
    let (named, same) = both (subject === r.subject) (same_receipt receipt r.receipt) current in
    subst (λ t. Confirms value at t r.receipt) ((===_iff subject r.subject).0 named)
      (subst (Confirms value at subject) (same_receipt-eq-true receipt r.receipt same)
        (validate_response-IsActive value at (active receipt subject token) valid))
is_current-Confirms value at r (inactive receipt) valid current = cc
