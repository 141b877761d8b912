-- ===== src/Nostr/Verify/Soundness.antt =====
-- The events and signatures that web/nostr-event-verifier.mjs accepts.
use mathlib.Core.Option.{some-injective}
use hodlxxi_social.Prelude.{
  ℕ, ◌%◌, ◌<◌, ◌≤◌, ◌≡◌, refl, sym, ap, ◌∙◌, when, length, subst, Bool, true, false, ◌||◌, Option,
  none, some, List, ◌++◌, leb, take, drop, guard, arith, >>=-eq-some, when-eq-some, guard-eq-some,
}
use hodlxxi_social.Js.Text.{Text, ◌===◌, ===_iff}
use hodlxxi_social.Js.Value.{Value, Number, max_safe_integer}
use hodlxxi_social.Js.Parse.{json_parse}
use hodlxxi_social.Nostr.Json.{utf8}
use hodlxxi_social.Nostr.Field.{field_p, curve_n}
use hodlxxi_social.Nostr.Curve.{Affine, lift_x}
use hodlxxi_social.Nostr.Curve.Lifting.{IsEvenPoint, lift_x_sound}
use hodlxxi_social.Nostr.Bytes.{bytes_to_bigint, bytes_to_hex, hex_to_bytes}
use hodlxxi_social.Nostr.Event.{
  Event, normalize_wire_event, serialized_event, serialized_event_bytes, max_event_bytes,
}
use hodlxxi_social.Nostr.Event.Serialized.{event_array, json_parse-serialized_event}
use hodlxxi_social.Nostr.Event.Shape.{IsWireEvent, normalize_wire_event_sound}
use hodlxxi_social.Nostr.Verify.{
  Digest, bip340_challenge, candidate, has_even_abscissa, verify_challenge, verify_bip340_signature,
  event_id, compute_nostr_event_id, verify_nostr_event,
}

-- What the code has computed of decoded inputs that it accepts: the key is the abscissa of a point of the
-- curve, both halves of the signature are in their range, and `candidate`, of the hash of r, the key and
-- the message, is a point with the abscissa r and an even ordinate.
pub record IsSigned (digest : Digest) (key message signature : List ℕ) : Type 0 where
  pub point : Affine
  pub lifted : point.x ≡ bytes_to_bigint key
  pub even : IsEvenPoint point
  pub r_range : bytes_to_bigint (take 32 signature) < field_p
  pub s_range : bytes_to_bigint (drop 32 signature) < curve_n
  pub tag_hash : List ℕ
  pub tag : digest bip340_challenge ≡ some tag_hash
  pub hash : List ℕ
  pub challenge : digest (tag_hash ++ tag_hash ++ (take 32 signature ++ key ++ message)) ≡ some hash
  pub result : Affine
  pub equation :
      candidate (bytes_to_bigint (drop 32 signature)) (bytes_to_bigint hash % curve_n) point
      ≡ some result
  pub result_even : result.y % 2 ≡ 0
  pub result_x : result.x ≡ bytes_to_bigint (take 32 signature)

has_even_abscissa_sound :
    (r : ℕ) (o : Option Affine)
    → has_even_abscissa r o ≡ true
    → (p : Affine) × (o ≡ some p) × (p.y % 2 ≡ 0) × (p.x ≡ r)
unfolding has_even_abscissa
has_even_abscissa_sound r none h = cc
has_even_abscissa_sound r (some p) h = (p, refl, ground arith, ground arith)

in_both_ranges : (p q a b : ℕ) → leb p a || leb q b ≡ false → (a < p) × (b < q)
in_both_ranges p q a b h = (ground arith, ground arith)

-- Once the key is lifted and the ranges are tested.
verify_challenge_sound :
    (digest : Digest) (k m s : List ℕ) (o : Option Affine) (out : Bool)
    → lift_x (bytes_to_bigint k) ≡ o
    → leb field_p (bytes_to_bigint (take 32 s)) || leb curve_n (bytes_to_bigint (drop 32 s)) ≡ out
    → (elim o [
      | none ↦ some false
      | some point ↦ elim out [
        | true ↦ some false
        | false ↦
            verify_challenge digest point
              (bytes_to_bigint (take 32 s))
              (bytes_to_bigint (drop 32 s))
              (take 32 s ++ k ++ m)
      ]
    ])
      ≡ some true
    → IsSigned digest k m s
unfolding verify_challenge
verify_challenge_sound digest k m s none out lifted range h = cc
verify_challenge_sound digest k m s (some point) true lifted range h = cc
verify_challenge_sound digest k m s (some point) false lifted range h =
    let (tag_hash, et, h1) = >>=-eq-some (digest bip340_challenge) _ h in
    let (hash, eh, h2) =
      >>=-eq-some (digest (tag_hash ++ tag_hash ++ (take 32 s ++ k ++ m))) _ h1 in
    let (result, er, even, same) =
      has_even_abscissa_sound (bytes_to_bigint (take 32 s))
        (candidate (bytes_to_bigint (drop 32 s)) (bytes_to_bigint hash % curve_n) point)
        (some-injective _ _ h2) in
    let (x, curve) = lift_x_sound (bytes_to_bigint k) point lifted in
    let (r_range, s_range) =
      in_both_ranges field_p curve_n (bytes_to_bigint (take 32 s)) (bytes_to_bigint (drop 32 s))
        range in
    record {
      point = point;
      lifted = x;
      even = curve;
      r_range = r_range;
      s_range = s_range;
      tag_hash = tag_hash;
      tag = et;
      hash = hash;
      challenge = eh;
      result = result;
      equation = er;
      result_even = even;
      result_x = same;
    }

module _ (digest : Digest) (public_key message signature : Text) where
  -- What the code has computed of an accepted signature. That the additions of the curve's points are
  -- its group law is not shown.
  verify_bip340_signature_sound :
      verify_bip340_signature digest public_key message signature ≡ some true
      → (k m s : List ℕ) × (hex_to_bytes public_key (some 32) ≡ some k)
        × (hex_to_bytes message none ≡ some m)
        × (hex_to_bytes signature (some 64) ≡ some s)
        × IsSigned digest k m s
  unfolding verify_bip340_signature verify_challenge
  verify_bip340_signature_sound h =
      let (k, ek, h1) = >>=-eq-some (hex_to_bytes public_key (some 32)) _ h in
      let (m, em, h2) = >>=-eq-some (hex_to_bytes message none) _ h1 in
      let (s, es, h3) = >>=-eq-some (hex_to_bytes signature (some 64)) _ h2 in
      (
        k,
        m,
        s,
        ek,
        em,
        es,
        verify_challenge_sound digest k m s (lift_x (bytes_to_bigint k))
            (leb field_p (bytes_to_bigint (take 32 s)) || leb curve_n (bytes_to_bigint (drop 32 s)))
            refl refl h3,
      )

-- The id is the hexadecimal digest of a JSON text, in UTF-8 and of bounded length, that JSON.parse
-- reads as the array [0, pubkey, created_at, kind, tags, content] of the event's own fields.
pub record IsIdentified (real : Text → Number) (digest : Digest) (event : Event) : Type 0 where
  pub json : Text
  pub reads_back : json_parse real json ≡ some (event_array event)
  pub short : length (utf8 json) ≤ max_event_bytes
  pub hash : List ℕ
  pub hashed : digest (utf8 json) ≡ some hash
  pub id_is : event.id ≡ bytes_to_hex hash

leb_when_true : (n m : ℕ) → leb n m ≡ true → n ≤ m
leb_when_true n m h = ground arith

event_id-IsIdentified :
    (real : Text → Number) (digest : Digest) (event : Event)
    → IsWireEvent event
    → event_id digest event ≡ some event.id
    → IsIdentified real digest event
unfolding event_id serialized_event_bytes
event_id-IsIdentified real digest event wire h =
    let json = serialized_event event in
    let (bytes, eb, h1) =
      >>=-eq-some (when (leb (length (utf8 json)) max_event_bytes) (some (utf8 json))) _ h in
    let (hash, eh, h2) = >>=-eq-some (digest bytes) _ h1 in
    let (fits, same) = when-eq-some (leb (length (utf8 json)) max_event_bytes) _ eb in
    record {
      json = json;
      reads_back =
          json_parse-serialized_event real event wire.created_at (small_kind event.kind wire.kind);
      short = leb_when_true (length (utf8 json)) max_event_bytes fits;
      hash = hash;
      hashed = ap digest (some-injective _ _ same) ∙ eh;
      id_is = sym (some-injective _ _ h2);
    }
  where
    small_kind : (k : ℕ) → k ≤ 65_535 → k ≤ max_safe_integer
    small_kind k h = omega (arith, h)

-- An event that `verifyNostrEvent` answers is the normalization of the given value and well formed, its
-- id is the hexadecimal digest of a JSON text that is read back as the array of 0 and its key, time,
-- kind, tags and content, and its signature by its key over the id is accepted.
pub verify_nostr_event_sound :
    (real : Text → Number) (digest : Digest) (value : Value) (event : Event)
    → verify_nostr_event digest value ≡ some event
    → (normalize_wire_event value ≡ some event)
      × IsWireEvent event
      × IsIdentified real digest event
      × (compute_nostr_event_id digest value ≡ some event.id)
      × (verify_bip340_signature digest event.pubkey event.id event.sig ≡ some true)
unfolding verify_nostr_event compute_nostr_event_id
verify_nostr_event_sound real digest value event h0 =
    let (n, en, h1) = >>=-eq-some (normalize_wire_event value) _ h0 in
    let (id, eid, h2) = >>=-eq-some (event_id digest n) _ h1 in
    let (u, same, h3) = >>=-eq-some (guard (id === n.id)) _ h2 in
    let (b, valid, h4) = >>=-eq-some (verify_bip340_signature digest n.pubkey n.id n.sig) _ h3 in
    let (t, e) = when-eq-some b (some n) h4 in
    let found =
      subst (λ id'. event_id digest n ≡ some id')
        ((===_iff id n.id).0 (guard-eq-some (id === n.id) same)) eid in
    let wire = normalize_wire_event_sound value n en in
    subst
      (λ ev.
        (normalize_wire_event value ≡ some ev)
        × IsWireEvent ev
        × IsIdentified real digest ev
        × (compute_nostr_event_id digest value ≡ some ev.id)
        × (verify_bip340_signature digest ev.pubkey ev.id ev.sig ≡ some true))
      (some-injective _ _ e)
      (
        en,
        wire,
        event_id-IsIdentified real digest n wire found,
        rw (en) found,
        subst (λ v. verify_bip340_signature digest n.pubkey n.id n.sig ≡ some v) t valid,
      )
