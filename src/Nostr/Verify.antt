-- ===== src/Nostr/Verify.antt =====
-- `verifyBip340Signature`, `computeNostrEventId` and `verifyNostrEvent` of
-- web/nostr-event-verifier.mjs. `digest` is SHA-256 of the platform's WebCrypto; it answers `none`
-- where there is no WebCrypto or the call fails. `none` is a rejected promise.
pub mod Soundness
use hodlxxi_social.Prelude.{
  ℕ, ◌+◌, ◌-◌, ◌%◌, Bool, true, false, not, ◌&&◌, ◌||◌, Option, none, some, List, [], ◌∷◌, ◌++◌,
  ◌==◌, leb, if◌then◌else◌, take, drop, when, ◌>>=◌, ◌>>◌, guard,
}
use hodlxxi_social.Js.Text.{Text, lit, ◌===◌}
use hodlxxi_social.Js.Value.{Value}
use hodlxxi_social.Nostr.Field.{field_p, curve_n}
use hodlxxi_social.Nostr.Curve.{Affine, generator, add_jacobian, multiply_point, to_affine, lift_x}
use hodlxxi_social.Nostr.Bytes.{bytes_from, bytes_to_bigint, bytes_to_hex, hex_to_bytes}
use hodlxxi_social.Nostr.Event.{Event, normalize_wire_event, serialized_event_bytes}

-- "BIP0340/challenge" is ASCII: its bytes are its code units.
abbrev pub bip340_challenge : List ℕ
bip340_challenge = lit "BIP0340/challenge"

abbrev pub Digest : Type 0
Digest = List ℕ → Option (List ℕ)

-- The point that must have the abscissa `r`: s·G - e·P.
unfoldable pub candidate : ℕ → ℕ → Affine → Option Affine
unfolding add_jacobian multiply_point to_affine
candidate s challenge public_key = to_affine (
    add_jacobian (multiply_point s generator)
      (multiply_point (if challenge == 0 then 0 else curve_n - challenge) public_key))

-- The last test of `verifyBip340Signature`.
unfoldable pub has_even_abscissa : ℕ → Option Affine → Bool
has_even_abscissa r none = false
has_even_abscissa r (some point) = point.y % 2 == 0 && point.x == r

-- From the two digests on.
unfoldable pub verify_challenge : Digest → Affine → (r s : ℕ) → (input : List ℕ) → Option Bool
unfolding candidate has_even_abscissa bytes_from
verify_challenge digest public_key r s input = do
  tag_hash ← digest bip340_challenge
  challenge_hash ← digest (tag_hash ++ tag_hash ++ input)
  some (has_even_abscissa r (candidate s (bytes_to_bigint challenge_hash % curve_n) public_key))

unfoldable pub verify_bip340_signature :
    Digest → (public_key message signature : Text) → Option Bool
unfolding hex_to_bytes lift_x verify_challenge bytes_from
verify_bip340_signature digest public_key_hex message_hex signature_hex = do
  public_key_bytes ← hex_to_bytes public_key_hex (some 32)
  message_bytes ← hex_to_bytes message_hex none
  signature_bytes ← hex_to_bytes signature_hex (some 64)
  let r = bytes_to_bigint (take 32 signature_bytes)
  let s = bytes_to_bigint (drop 32 signature_bytes)
  elim (lift_x (bytes_to_bigint public_key_bytes)) [
    | none ↦ some false
    | some public_key ↦ elim (leb field_p r || leb curve_n s) [
      | true ↦ some false
      | false ↦
          verify_challenge digest public_key r s
            (take 32 signature_bytes ++ public_key_bytes ++ message_bytes)
    ]
  ]

unfoldable pub event_id : Digest → Event → Option Text
unfolding serialized_event_bytes bytes_to_hex
event_id digest event = do
  bytes ← serialized_event_bytes event
  hash ← digest bytes
  some (bytes_to_hex hash)

unfoldable pub compute_nostr_event_id : Digest → Value → Option Text
unfolding normalize_wire_event event_id
compute_nostr_event_id digest event = do
  normalized ← normalize_wire_event event
  event_id digest normalized

unfoldable pub verify_nostr_event : Digest → Value → Option Event
unfolding normalize_wire_event event_id verify_bip340_signature
verify_nostr_event digest event = do
  normalized ← normalize_wire_event event
  computed_id ← event_id digest normalized
  guard (computed_id === normalized.id)
  valid ← verify_bip340_signature digest normalized.pubkey normalized.id normalized.sig
  when valid (some normalized)
