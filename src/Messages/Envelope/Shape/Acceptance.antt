-- ===== src/Messages/Envelope/Shape/Acceptance.antt =====
-- Envelopes as object literals, given to `normalizeMessageEnvelopeV1`.
use hodlxxi_social.Prelude.{
  ℕ, suc, ◌+◌, ◌≤◌, ◌≡◌, refl, ap, subst, true, false, not, ◌&&◌, map, length-map, Option, none,
  some, List, [], ◌∷◌, ◌==◌, ltb, leb, length, drop, all, any, All, ==_iff, arith,
}
use hodlxxi_social.Js.Text.{Text, lit, ===_self, is_base64url_char}
use hodlxxi_social.Js.Value.{Value, number, nat, string, entries}
use hodlxxi_social.Js.Record.{exact_record, property}
use hodlxxi_social.Capability.Random.{base64url}
use hodlxxi_social.Capability.Random.Decoding.{decode}
use hodlxxi_social.Messages.Envelope.{
  max_recipient_devices, Body, KeyWrap, Envelope, encoded_length, exact_array, canonical_base64url,
  check_handles, check_wrap, check_wraps, check_body, check_ids, normalize_envelope, is_item,
}
use hodlxxi_social.Messages.Envelope.Shape.{
  IsEncoded, IsHandle, IsAscending, IsBody, IsWrapFor, AreWrapsFor, IsEnvelope,
}
use hodlxxi_social.Capability.Random.Decoding.{decode-base64url, base64url-chars}
use hodlxxi_social.Js.Record.Laws.{
  record_value, array_value, indexed, length-indexed, dense_items-indexed,
}

abbrev pub wrap_value : KeyWrap → Value
wrap_value w = record_value (
    (lit "deviceHandle", string w.device_handle)
    ∷ (lit "algorithm", string w.algorithm)
    ∷ (lit "enc", string w.enc)
    ∷ (lit "ciphertext", string w.ciphertext)
    ∷ [])

abbrev pub body_value : Body → Value
body_value b = record_value (
    (lit "algorithm", string b.algorithm)
    ∷ (lit "nonce", string b.nonce)
    ∷ (lit "ciphertext", string b.ciphertext)
    ∷ [])

abbrev pub envelope_value : Envelope → Value
envelope_value e = record_value (
    (lit "schema", string e.schema)
    ∷ (lit "version", number (nat e.version))
    ∷ (lit "suite", string e.suite)
    ∷ (lit "messageId", string e.message_id)
    ∷ (lit "recipientPackageSnapshotId", string e.snapshot_id)
    ∷ (lit "recipientDeviceHandles", array_value (map string e.handles))
    ∷ (lit "body", body_value e.body)
    ∷ (lit "keyWraps", array_value (map wrap_value e.key_wraps))
    ∷ [])

pub encoded_facts :
    (minimum maximum : ℕ) (t : Text)
    → IsEncoded minimum maximum t
    → (not (ltb (length t) (encoded_length minimum)) ≡ true)
      × (not (ltb (encoded_length maximum) (length t)) ≡ true)
      × (all is_base64url_char t ≡ true)
      × (base64url (decode t) ≡ t)
      × (minimum ≤ length (decode t))
      × (length (decode t) ≤ maximum)
encoded_facts minimum maximum t (bytes, ok, low, high, e) =
    let (chars, len) = base64url-chars bytes ok in
    let back = decode-base64url bytes ok in
    subst
      (λ s.
        (not (ltb (length s) (encoded_length minimum)) ≡ true)
        × (not (ltb (encoded_length maximum) (length s)) ≡ true)
        × (all is_base64url_char s ≡ true)
        × (base64url (decode s) ≡ s)
        × (minimum ≤ length (decode s))
        × (length (decode s) ≤ maximum))
      e
      (
        ground (arith, len, low),
        ground (arith, len, high),
        chars,
        ap base64url back,
        omega (arith, ap length back, low),
        omega (arith, ap length back, high),
      )

no_padding : (t : Text) → all is_base64url_char t ≡ true → any (λ c. c == b'=') t ≡ false
no_padding [] h = refl
no_padding (c ∷ t) h = ground (arith, no_padding t (ground arith))

nonempty_text :
    (minimum : ℕ) (t : Text)
    → 1 ≤ minimum
    → not (ltb (length t) (encoded_length minimum)) ≡ true
    → leb 1 (length t) ≡ true
nonempty_text minimum t positive h = ground arith

characters_pass :
    (t : Text)
    → all is_base64url_char t ≡ true
    → leb 1 (length t) ≡ true
    → (leb 1 (length t) && all is_base64url_char t && not (any (λ c. c == b'=') t)) ≡ true
characters_pass t chars positive = rw (positive, chars, no_padding t chars) refl

within_complete :
    (n minimum maximum : ℕ)
    → minimum ≤ n
    → n ≤ maximum
    → (not (ltb n minimum) && not (ltb maximum n)) ≡ true
within_complete n minimum maximum low high = ground arith

canonical_base64url_same :
    (minimum maximum : ℕ) (t : Text)
    → 1 ≤ minimum
    → IsEncoded minimum maximum t
    → canonical_base64url (string t) minimum maximum ≡ some t
unfolding canonical_base64url
canonical_base64url_same minimum maximum t positive h =
    let (short, long, chars, back, low, high) = encoded_facts minimum maximum t h in
    rw
      (
        short,
        long,
        characters_pass t chars (nonempty_text minimum t positive short),
        within_complete (length (decode t)) minimum maximum low high,
        back,
        ===_self t,
      )
      refl

check_handles_same :
    (previous : Option Text) (ts : List Text)
    → All IsHandle ts
    → IsAscending previous ts
    → check_handles previous (map string ts) ≡ some ts
unfolding check_handles
check_handles_same previous [] h rising = refl
check_handles_same previous (t ∷ ts) ((shape, encoded), hs) (after, rising) =
    rw
      (
        shape,
        after,
        canonical_base64url_same 16 16 (drop 2 t) (omega arith) encoded,
        check_handles_same (some t) ts hs rising,
      )
      refl

check_wrap_same : (t : Text) (w : KeyWrap) → IsWrapFor t w → check_wrap t (wrap_value w) ≡ some w
unfolding check_wrap exact_record property
check_wrap_same t w h =
    subst (λ s. check_wrap s (wrap_value w) ≡ some w) h.device_handle
      (rw
        (
          ===_self w.device_handle,
          h.algorithm,
          canonical_base64url_same 32 32 w.enc (omega arith) h.enc,
          canonical_base64url_same 48 48 w.ciphertext (omega arith) h.ciphertext,
        )
        refl)

check_wraps_same :
    (ts : List Text) (ws : List KeyWrap)
    → AreWrapsFor ts ws
    → check_wraps ts (map wrap_value ws) ≡ some ws
unfolding check_wraps
check_wraps_same [] [] h = refl
check_wraps_same [] (w ∷ ws) h = absurd h
check_wraps_same (t ∷ ts) [] h = absurd h
check_wraps_same (t ∷ ts) (w ∷ ws) (h, hs) =
    rw (check_wrap_same t w h, check_wraps_same ts ws hs) refl

check_body_same : (b : Body) → IsBody b → check_body (body_value b) ≡ some b
unfolding check_body exact_record property
check_body_same b h =
    rw
      (
        h.algorithm,
        canonical_base64url_same 12 12 b.nonce (omega arith) h.nonce,
        canonical_base64url_same 17 16_400 b.ciphertext (omega arith) h.ciphertext,
      )
      refl

all-is_item :
    (n i : ℕ) (vs : List Value)
    → i + length vs ≤ n
    → all (is_item n) (entries (indexed i vs)) ≡ true
unfolding indexed is_item
all-is_item n i [] h = refl
all-is_item n i (v ∷ vs) h = ground (arith, all-is_item n (i + 1) vs (omega (arith, h)))

exact_array_same :
    (minimum maximum : ℕ) (vs : List Value)
    → minimum ≤ length vs
    → length vs ≤ maximum
    → exact_array (array_value vs) minimum maximum ≡ some vs
unfolding exact_array
exact_array_same minimum maximum vs low high =
    rw
      (
        within_complete (length vs) minimum maximum low high,
        length-indexed 0 vs,
        (==_iff (length vs) (length vs)).1 refl,
        all-is_item (length vs) 0 vs (omega arith),
        dense_items-indexed 0 vs,
      )
      refl

length-wraps : (ts : List Text) (ws : List KeyWrap) → AreWrapsFor ts ws → length ws ≡ length ts
length-wraps [] [] h = refl
length-wraps [] (w ∷ ws) h = absurd h
length-wraps (t ∷ ts) [] h = absurd h
length-wraps (t ∷ ts) (w ∷ ws) (h, hs) = ap suc (length-wraps ts ws hs)

-- A well-formed envelope, given as a plain object, is accepted unchanged.
pub normalize_envelope-envelope_value :
    (e : Envelope) → IsEnvelope e → normalize_envelope (envelope_value e) ≡ some e
unfolding normalize_envelope exact_record property check_ids
normalize_envelope-envelope_value e h =
    rw
      (
        h.schema,
        h.version,
        h.suite,
        h.message_id.0,
        h.snapshot_id,
        canonical_base64url_same 32 32 (drop 2 e.message_id) (omega arith) h.message_id.1,
        exact_array_same 1 max_recipient_devices (map string e.handles)
            (omega (arith, h.some_handle, length-map string e.handles))
            (omega (arith, h.few_handles, length-map string e.handles)),
        check_handles_same none e.handles h.handles h.ascending,
        check_body_same e.body h.body,
        exact_array_same (length e.handles) (length e.handles) (map wrap_value e.key_wraps)
            (omega (
              arith,
              length-map wrap_value e.key_wraps,
              length-wraps e.handles e.key_wraps h.key_wraps,
            ))
            (omega (
              arith,
              length-map wrap_value e.key_wraps,
              length-wraps e.handles e.key_wraps h.key_wraps,
            )),
        check_wraps_same e.handles e.key_wraps h.key_wraps,
      )
      refl
