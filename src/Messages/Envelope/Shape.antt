-- ===== src/Messages/Envelope/Shape.antt =====
-- What a well-formed envelope is, independently of the normalizer.
pub mod Soundness
pub mod Acceptance
use mathlib.Core.Option.{some-injective}
use hodlxxi_social.Prelude.{
  ℕ, zero, suc, ◌+◌, ◌*◌, ◌/◌, ◌%◌, ◌≤◌, ◌<◌, ◌≡◌, refl, sym, ap, ◌∙◌, subst, Bool, true, false,
  not, ◌&&◌, Option, none, some, List, [], ◌∷◌, ◌==◌, ltb, leb, length, drop, all, any, All, guard,
  arith, >>=-eq-some, guard-eq-some, when-eq-some, tested-eq-some,
}
use hodlxxi_social.Js.Text.{Text, lit, ◌===◌, ===_iff, starts_with, is_lower_hex, is_base64url_char}
use hodlxxi_social.Js.Value.{
  Value, string, array, standard, Entry, index, entries, as_string, is_text, data_value,
}
use hodlxxi_social.Js.Record.{Fields, exact_record, property, dense_items}
use hodlxxi_social.Capability.Random.{base64url}
use hodlxxi_social.Capability.Random.Decoding.{AreBytes, decode, digit_value}
use hodlxxi_social.Messages.Envelope.{
  envelope_schema, envelope_version, envelope_suite, body_algorithm, key_wrap_algorithm,
  max_recipient_devices, top_level_fields, body_fields, wrap_fields, Body, KeyWrap, Envelope,
  encoded_length, is_number, exact_array, canonical_base64url, is_message_id, is_snapshot_id,
  is_device_handle, text_less, follows, check_handles, check_wrap, check_wraps, check_body,
  check_ids, normalize_envelope, is_item, is_number,
}

-- The base64url of some bytes, `minimum` to `maximum` of them.
abbrev pub IsEncoded : ℕ → ℕ → Text → Type 0
IsEncoded minimum maximum t =
    (bytes : List ℕ) × AreBytes bytes
    × (minimum ≤ length bytes)
    × (length bytes ≤ maximum)
    × (base64url bytes ≡ t)

-- "m_" or "d_", then the base64url of that many bytes
abbrev pub IsHandle : Text → Type 0
IsHandle t = (is_device_handle t ≡ true) × IsEncoded 16 16 (drop 2 t)

-- Each handle comes after the one before it.
abbrev pub IsAscending : Option Text → List Text → Type 0
IsAscending previous [] = Unit
IsAscending previous (t ∷ ts) = (follows previous t ≡ true) × IsAscending (some t) ts

pub record IsBody (body : Body) : Type 0 where
  pub algorithm : body.algorithm ≡ body_algorithm
  pub nonce : IsEncoded 12 12 body.nonce
  pub ciphertext : IsEncoded 17 16_400 body.ciphertext

pub record IsWrapFor (handle : Text) (wrap : KeyWrap) : Type 0 where
  pub device_handle : wrap.device_handle ≡ handle
  pub algorithm : wrap.algorithm ≡ key_wrap_algorithm
  pub enc : IsEncoded 32 32 wrap.enc
  pub ciphertext : IsEncoded 48 48 wrap.ciphertext

-- One key wrap for each handle, in their order.
abbrev pub AreWrapsFor : List Text → List KeyWrap → Type 0
AreWrapsFor [] [] = Unit
AreWrapsFor (t ∷ ts) (w ∷ ws) = IsWrapFor t w × AreWrapsFor ts ws
AreWrapsFor _ _ = ⊥

pub record IsEnvelope (e : Envelope) : Type 0 where
  pub schema : e.schema ≡ envelope_schema
  pub version : e.version ≡ envelope_version
  pub suite : e.suite ≡ envelope_suite
  pub message_id : (is_message_id e.message_id ≡ true) × IsEncoded 32 32 (drop 2 e.message_id)
  pub snapshot_id : is_snapshot_id e.snapshot_id ≡ true
  pub some_handle : 1 ≤ length e.handles
  pub few_handles : length e.handles ≤ max_recipient_devices
  pub handles : All IsHandle e.handles
  pub ascending : IsAscending none e.handles
  pub body : IsBody e.body
  pub key_wraps : AreWrapsFor e.handles e.key_wraps
