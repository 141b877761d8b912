-- ===== src/Messages/Envelope/Shape/Soundness.antt =====
-- The envelopes that `normalizeMessageEnvelopeV1` answers.
use mathlib.Core.Option.{some-injective}
use hodlxxi_social.Prelude.{
  ℕ, zero, suc, ◌+◌, ◌≤◌, ◌<◌, ◌≡◌, refl, sym, ap, subst, Bool, true, not, ◌&&◌, Option, none, some,
  List, [], ◌∷◌, ◌==◌, ltb, leb, length, drop, all, any, All, guard, arith, >>=-eq-some,
  guard-eq-some, when-eq-some,
}
use hodlxxi_social.Js.Text.{Text, lit, ◌===◌, ===_iff, is_base64url_char}
use hodlxxi_social.Js.Value.{
  Value, string, array, standard, Entry, index, entries, as_string, is_text, data_value,
}
use hodlxxi_social.Js.Record.{Fields, exact_record, property, dense_items}
use hodlxxi_social.Capability.Random.{base64url}
use hodlxxi_social.Capability.Random.Decoding.{AreBytes, decode, digit_value}
use hodlxxi_social.Messages.Envelope.{
  envelope_schema, envelope_version, envelope_suite, body_algorithm, key_wrap_algorithm,
  max_recipient_devices, top_level_fields, body_fields, wrap_fields, Body, KeyWrap, Envelope,
  encoded_length, is_number, exact_array, canonical_base64url, is_message_id, is_snapshot_id,
  is_device_handle, follows, check_handles, check_wrap, check_wraps, check_body, check_ids,
  normalize_envelope, is_item,
}
use hodlxxi_social.Messages.Envelope.Shape.{
  IsEncoded, IsHandle, IsAscending, IsBody, IsWrapFor, AreWrapsFor, IsEnvelope,
}

digit_value-lt : (c : ℕ) → is_base64url_char c ≡ true → digit_value c < 64
unfolding digit_value
digit_value-lt c h = ground arith

decode-AreBytes : (t : Text) → all is_base64url_char t ≡ true → AreBytes (decode t)
unfolding decode
decode-AreBytes [] h = tt
decode-AreBytes (w ∷ []) h = tt
decode-AreBytes (w ∷ x ∷ []) h =
    ground (arith, digit_value-lt w (ground arith), digit_value-lt x (ground arith))
decode-AreBytes (w ∷ x ∷ y ∷ []) h = ground (
  arith,
  digit_value-lt w (ground arith),
  digit_value-lt x (ground arith),
  digit_value-lt y (ground arith),
)
decode-AreBytes (w ∷ x ∷ y ∷ z ∷ t) h = ground (
  arith,
  digit_value-lt w (ground arith),
  digit_value-lt x (ground arith),
  digit_value-lt y (ground arith),
  digit_value-lt z (ground arith),
  decode-AreBytes t (ground arith),
)

pub as_string-eq-some : (v : Value) (t : Text) → as_string v ≡ some t → v ≡ string t
as_string-eq-some v t h = ground arith

middle_true : (a b c : Bool) → (a && b && c) ≡ true → b ≡ true
middle_true a b c h = ground arith

first_true : (a b c d : Bool) → (a && b && c && d) ≡ true → (a && b) ≡ true
first_true a b c d h = ground arith

within_sound :
    (n minimum maximum : ℕ)
    → (not (ltb n minimum) && not (ltb maximum n)) ≡ true
    → (minimum ≤ n) × (n ≤ maximum)
within_sound n minimum maximum h = (ground arith, ground arith)

string-injective : (s t : Text) → string s ≡ string t → s ≡ t
string-injective s t h = cc

canonical_base64url_sound :
    (v : Value) (minimum maximum : ℕ) (t : Text)
    → canonical_base64url v minimum maximum ≡ some t
    → (v ≡ string t) × IsEncoded minimum maximum t
unfolding canonical_base64url
canonical_base64url_sound v minimum maximum t h =
    let (s, e, h1) = >>=-eq-some (as_string v) _ h in
    let (u1, g1, h2) = >>=-eq-some (guard (not (ltb (length s) (encoded_length minimum)))) _ h1 in
    let (u2, g2, h3) = >>=-eq-some (guard (not (ltb (encoded_length maximum) (length s)))) _ h2 in
    let (u3, g3, h4) =
      >>=-eq-some
        (guard (leb 1 (length s) && all is_base64url_char s && not (any (λ c. c == b'=') s))) _
        h3 in
    let (u4, g4, h5) =
      >>=-eq-some
        (guard (not (ltb (length (decode s)) minimum) && not (ltb maximum (length (decode s))))) _
        h4 in
    let (u5, g5, h6) = >>=-eq-some (guard (base64url (decode s) === s)) _ h5 in
    let chars =
      guard-eq-some (leb 1 (length s) && all is_base64url_char s && not (any (λ c. c == b'=') s))
        g3 in
    let bounds =
      guard-eq-some (not (ltb (length (decode s)) minimum) && not (ltb maximum (length (decode s))))
        g4 in
    subst (λ r. (v ≡ string r) × IsEncoded minimum maximum r) (some-injective _ _ h6)
      (
        as_string-eq-some v s e,
        (
          decode s,
          decode-AreBytes s (
              middle_true (leb 1 (length s)) (all is_base64url_char s)
                (not (any (λ c. c == b'=') s)) chars),
          (within_sound (length (decode s)) minimum maximum bounds).0,
          (within_sound (length (decode s)) minimum maximum bounds).1,
          (===_iff _ _).0 (guard-eq-some (base64url (decode s) === s) g5),
        ),
      )

canonical_base64url_text :
    (t : Text) (minimum maximum : ℕ) (s : Text)
    → canonical_base64url (string t) minimum maximum ≡ some s
    → IsEncoded minimum maximum t
canonical_base64url_text t minimum maximum s h =
    let (same, encoded) = canonical_base64url_sound (string t) minimum maximum s h in
    subst (IsEncoded minimum maximum) (string-injective s t (sym same)) encoded

check_handles_sound :
    (previous : Option Text) (vs : List Value) (ts : List Text)
    → check_handles previous vs ≡ some ts
    → (length ts ≡ length vs) × All IsHandle ts × IsAscending previous ts
unfolding check_handles
check_handles_sound previous [] ts h =
    subst (λ r. (length r ≡ 0) × All IsHandle r × IsAscending previous r) (some-injective _ _ h)
      (refl, tt, tt)
check_handles_sound previous (v ∷ vs) ts h =
    let (t, e, h1) = >>=-eq-some (as_string v) _ h in
    let (u, g, h2) = >>=-eq-some (guard (is_device_handle t && follows previous t)) _ h1 in
    let (s, c, h3) = >>=-eq-some (canonical_base64url (string (drop 2 t)) 16 16) _ h2 in
    let (rest, er, h4) = >>=-eq-some (check_handles (some t) vs) _ h3 in
    let test = guard-eq-some (is_device_handle t && follows previous t) g in
    let (len, good, rising) = check_handles_sound (some t) vs rest er in
    subst (λ r. (length r ≡ suc (length vs)) × All IsHandle r × IsAscending previous r)
      (some-injective _ _ h4)
      (
        ap suc len,
        ((ground (arith, test), canonical_base64url_text (drop 2 t) 16 16 s c), good),
        (ground (arith, test), rising),
      )

check_wrap_sound : (t : Text) (v : Value) (w : KeyWrap) → check_wrap t v ≡ some w → IsWrapFor t w
unfolding check_wrap
check_wrap_sound t v w h =
    let (r, e, h1) = >>=-eq-some (exact_record v wrap_fields) _ h in
    let (u1, g1, h2) =
      >>=-eq-some (guard (is_text t (property (some r) (lit "deviceHandle")))) _ h1 in
    let (u2, g2, h3) =
      >>=-eq-some (guard (is_text key_wrap_algorithm (property (some r) (lit "algorithm")))) _ h2 in
    let (enc, c1, h4) =
      >>=-eq-some (canonical_base64url (property (some r) (lit "enc")) 32 32) _ h3 in
    let (cipher, c2, h5) =
      >>=-eq-some (canonical_base64url (property (some r) (lit "ciphertext")) 48 48) _ h4 in
    subst (IsWrapFor t) (some-injective _ _ h5) (record {
      device_handle = refl;
      algorithm = refl;
      enc = (canonical_base64url_sound (property (some r) (lit "enc")) 32 32 enc c1).1;
      ciphertext =
          (canonical_base64url_sound (property (some r) (lit "ciphertext")) 48 48 cipher c2).1;
    })

check_wraps_sound :
    (ts : List Text) (vs : List Value) (ws : List KeyWrap)
    → check_wraps ts vs ≡ some ws
    → AreWrapsFor ts ws
unfolding check_wraps
check_wraps_sound [] [] ws h = subst (AreWrapsFor []) (some-injective _ _ h) tt
check_wraps_sound [] (v ∷ vs) ws h = cc
check_wraps_sound (t ∷ ts) [] ws h = cc
check_wraps_sound (t ∷ ts) (v ∷ vs) ws h =
    let (w, e, h1) = >>=-eq-some (check_wrap t v) _ h in
    let (rest, er, h2) = >>=-eq-some (check_wraps ts vs) _ h1 in
    subst (AreWrapsFor (t ∷ ts)) (some-injective _ _ h2)
      (check_wrap_sound t v w e, check_wraps_sound ts vs rest er)

check_body_sound : (v : Value) (b : Body) → check_body v ≡ some b → IsBody b
unfolding check_body
check_body_sound v b h =
    let (r, e, h1) = >>=-eq-some (exact_record v body_fields) _ h in
    let (u1, g1, h2) =
      >>=-eq-some (guard (is_text body_algorithm (property (some r) (lit "algorithm")))) _ h1 in
    let (nonce, c1, h3) =
      >>=-eq-some (canonical_base64url (property (some r) (lit "nonce")) 12 12) _ h2 in
    let (cipher, c2, h4) =
      >>=-eq-some (canonical_base64url (property (some r) (lit "ciphertext")) 17 16_400) _ h3 in
    subst IsBody (some-injective _ _ h4) (record {
      algorithm = refl;
      nonce = (canonical_base64url_sound (property (some r) (lit "nonce")) 12 12 nonce c1).1;
      ciphertext =
          (canonical_base64url_sound (property (some r) (lit "ciphertext")) 17 16_400 cipher c2).1;
    })

check_ids_sound :
    (r : Fields) (m s : Text)
    → check_ids r ≡ some (m, s)
    → (is_message_id m ≡ true) × IsEncoded 32 32 (drop 2 m) × (is_snapshot_id s ≡ true)
unfolding check_ids
check_ids_sound r m s h =
    let (u1, g1, h1) =
      >>=-eq-some (guard (is_text envelope_schema (property (some r) (lit "schema")))) _ h in
    let (u2, g2, h2) =
      >>=-eq-some (guard (is_number envelope_version (property (some r) (lit "version")))) _ h1 in
    let (u3, g3, h3) =
      >>=-eq-some (guard (is_text envelope_suite (property (some r) (lit "suite")))) _ h2 in
    let (a, ea, h4) = >>=-eq-some (as_string (property (some r) (lit "messageId"))) _ h3 in
    let (u5, g5, h5) = >>=-eq-some (guard (is_message_id a)) _ h4 in
    let (b, eb, h6) =
      >>=-eq-some (as_string (property (some r) (lit "recipientPackageSnapshotId"))) _ h5 in
    let (u7, g7, h7) = >>=-eq-some (guard (is_snapshot_id b)) _ h6 in
    let (c, ec, h8) = >>=-eq-some (canonical_base64url (string (drop 2 a)) 32 32) _ h7 in
    let same = some-injective _ _ h8 in
    subst
      (λ (p : Text × Text).
        (is_message_id p.0 ≡ true) × IsEncoded 32 32 (drop 2 p.0) × (is_snapshot_id p.1 ≡ true))
      same
      (
        guard-eq-some (is_message_id a) g5,
        canonical_base64url_text (drop 2 a) 32 32 c ec,
        guard-eq-some (is_snapshot_id b) g7,
      )

-- The items of an array that is accepted, as many as its length.
length-dense_items :
    (n i : ℕ) (es : List Entry) (vs : List Value) → dense_items n i es ≡ some vs → length vs ≡ n
unfolding dense_items
length-dense_items zero i es vs h = subst (λ r. length r ≡ 0) (some-injective _ _ h) refl
length-dense_items (suc n) i es vs h =
    let (v, e, h1) = >>=-eq-some (data_value (index i) es) _ h in
    let (rest, er, h2) = >>=-eq-some (dense_items n (i + 1) es) _ h1 in
    subst (λ r. length r ≡ suc n) (some-injective _ _ h2)
      (ap suc (length-dense_items n (i + 1) es rest er))

exact_array_sound :
    (v : Value) (minimum maximum : ℕ) (vs : List Value)
    → exact_array v minimum maximum ≡ some vs
    → (minimum ≤ length vs) × (length vs ≤ maximum)
unfolding exact_array
exact_array_sound (array standard n ps) minimum maximum vs h =
    let (test, e) =
      when-eq-some
        (not (ltb n minimum)
          && not (ltb maximum n)
          && length (entries ps) == n
          && all (is_item n) (entries ps))
        _ h in
    subst (λ k. (minimum ≤ k) × (k ≤ maximum)) (sym (length-dense_items n 0 (entries ps) vs e))
      (within_sound n minimum maximum (
        first_true (not (ltb n minimum)) (not (ltb maximum n)) (length (entries ps) == n)
          (all (is_item n) (entries ps)) test))
exact_array_sound _ minimum maximum vs h = cc

-- An envelope that the normalizer answers has the current schema, version and suite, 1 to 16 handles
-- in strictly ascending order, one key wrap for each of them in that order, and for each binary field
-- the base64url of bytes, as many as the field asks for.
pub normalize_envelope_sound :
    (v : Value) (e : Envelope) → normalize_envelope v ≡ some e → IsEnvelope e
unfolding normalize_envelope
normalize_envelope_sound v e h =
    let (r, er, h1) = >>=-eq-some (exact_record v top_level_fields) _ h in
    let ((m, s), ids, h2) = >>=-eq-some (check_ids r) _ h1 in
    let (hv, a1, h3) =
      >>=-eq-some
        (exact_array (property (some r) (lit "recipientDeviceHandles")) 1 max_recipient_devices) _
        h2 in
    let (ts, e1, h4) = >>=-eq-some (check_handles none hv) _ h3 in
    let (b, e2, h5) = >>=-eq-some (check_body (property (some r) (lit "body"))) _ h4 in
    let (wv, a2, h6) =
      >>=-eq-some (exact_array (property (some r) (lit "keyWraps")) (length ts) (length ts)) _ h5 in
    let (ws, e3, h7) = >>=-eq-some (check_wraps ts wv) _ h6 in
    let (mgood, mbytes, sgood) = check_ids_sound r m s ids in
    let (len, good, rising) = check_handles_sound none hv ts e1 in
    let (low, high) =
      exact_array_sound (property (some r) (lit "recipientDeviceHandles")) 1 max_recipient_devices
        hv a1 in
    subst IsEnvelope (some-injective _ _ h7) (record {
      schema = refl;
      version = refl;
      suite = refl;
      message_id = (mgood, mbytes);
      snapshot_id = sgood;
      some_handle = omega (arith, len, low);
      few_handles = omega (arith, len, high);
      handles = good;
      ascending = rising;
      body = check_body_sound (property (some r) (lit "body")) b e2;
      key_wraps = check_wraps_sound ts wv ws e3;
    })
