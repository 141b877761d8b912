-- ===== src/Messages/Tests/Samples.antt =====
-- An envelope for two devices, whose bytes are zero but for one.
use hodlxxi_social.Prelude.{ℕ, zero, suc, refl, true, List, [], ◌∷◌, ◌++◌, replicate, arith}
use hodlxxi_social.Js.Text.{Text, lit}
use hodlxxi_social.Js.Value.{Value, boolean, Number, nat}
use hodlxxi_social.Js.Record.Laws.{record_value}
use hodlxxi_social.Capability.Random.{base64url}
use hodlxxi_social.Capability.Random.Decoding.{AreBytes}
use hodlxxi_social.Messages.Envelope.{
  KeyWrap, Envelope, envelope_schema, envelope_suite, body_algorithm, key_wrap_algorithm,
  is_message_id, is_snapshot_id, is_device_handle, follows,
}
use hodlxxi_social.Messages.Envelope.Shape.{IsEnvelope, IsWrapFor}

abbrev pub letters : ℕ → Text
letters n = replicate n b'A'

abbrev zero_handle : Text
zero_handle = lit "d_" ++ letters 22

abbrev next_handle : Text
next_handle = lit "d_B" ++ letters 21

abbrev zero_wrap : Text → KeyWrap
zero_wrap handle = record {
  device_handle = handle;
  algorithm = key_wrap_algorithm;
  enc = letters 43;
  ciphertext = letters 64;
}

abbrev pub zero_envelope : Envelope
zero_envelope = record {
  schema = envelope_schema;
  version = 1;
  suite = envelope_suite;
  message_id = lit "m_" ++ letters 43;
  snapshot_id = lit "sha256:" ++ replicate 64 b'0';
  handles = zero_handle ∷ next_handle ∷ [];
  body = record { algorithm = body_algorithm; nonce = letters 16; ciphertext = letters 23 };
  key_wraps = zero_wrap zero_handle ∷ zero_wrap next_handle ∷ [];
}

zeros-AreBytes : (n : ℕ) → AreBytes (replicate n 0)
zeros-AreBytes zero = tt
zeros-AreBytes (suc n) = (omega arith, zeros-AreBytes n)

zero_wrap_fits : (handle : Text) → IsWrapFor handle (zero_wrap handle)
unfolding base64url
zero_wrap_fits handle = record {
  device_handle = refl;
  algorithm = refl;
  enc = (replicate 32 0, zeros-AreBytes 32, omega arith, omega arith, refl);
  ciphertext = (replicate 48 0, zeros-AreBytes 48, omega arith, omega arith, refl);
}

pub zero_envelope-IsEnvelope : IsEnvelope zero_envelope
unfolding base64url is_message_id is_snapshot_id is_device_handle follows
zero_envelope-IsEnvelope = record {
  schema = refl;
  version = refl;
  suite = refl;
  message_id = (refl, (replicate 32 0, zeros-AreBytes 32, omega arith, omega arith, refl));
  snapshot_id = refl;
  some_handle = omega arith;
  few_handles = omega arith;
  handles = (
    (refl, (replicate 16 0, zeros-AreBytes 16, omega arith, omega arith, refl)),
    (
      (
        refl,
        (4 ∷ replicate 15 0, (omega arith, zeros-AreBytes 15), omega arith, omega arith, refl),
      ),
      tt,
    ),
  );
  ascending = (refl, (refl, tt));
  body = record {
    algorithm = refl;
    nonce = (replicate 12 0, zeros-AreBytes 12, omega arith, omega arith, refl);
    ciphertext = (replicate 17 0, zeros-AreBytes 17, omega arith, omega arith, refl);
  };
  key_wraps = (zero_wrap_fits zero_handle, (zero_wrap_fits next_handle, tt));
}

-- The rest of what a request needs: a hash function, numerals, and the flag.
abbrev pub zero_hash : List ℕ → Text
zero_hash x = replicate 64 b'0'

abbrev pub no_numeral : Text → Number
no_numeral t = nat 0

abbrev pub enabled_options : Value
enabled_options = record_value ((lit "enabled", boolean true) ∷ [])
