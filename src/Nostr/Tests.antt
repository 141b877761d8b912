-- ===== src/Nostr/Tests.antt =====
-- Runs of the verifier, and the theorems at concrete inputs.
mod Samples
use hodlxxi_social.Prelude.{
  ℕ, zero, suc, ◌+◌, ◌-◌, ◌*◌, ◌/◌, ◌%◌, ◌^◌, ◌<◌, ◌≤◌, ◌≡◌, refl, Bool, true, false, Option, none,
  some, List, [], ◌∷◌, ◌++◌, length, all, take, drop, arith,
}
use hodlxxi_social.Js.Text.{Text, lit, is_lower_hex}
use hodlxxi_social.Js.Value.{Number, nat}
use hodlxxi_social.Js.Parse.{json_parse}
use hodlxxi_social.Nostr.Event.Serialized.{event_array, json_parse-serialized_event}
use hodlxxi_social.Js.Record.Laws.{indexed}
use hodlxxi_social.Nostr.Field.{field_p, pow_mod}
use hodlxxi_social.Nostr.Field.Power.{pow_mod_lem}
use hodlxxi_social.Nostr.Curve.{
  Affine, Jacobian, generator, infinity, to_jacobian, multiply_loop, multiply_point, to_affine,
  lift_x,
}
use hodlxxi_social.Nostr.Curve.Bounds.{IsReduced, multiply_point-IsReduced, multiply_point_enough}
use hodlxxi_social.Nostr.Curve.Lifting.{IsEvenPoint, lift_x_sound}
use hodlxxi_social.Nostr.Bytes.{bytes_to_bigint, bytes_to_hex, hex_to_bytes}
use hodlxxi_social.Nostr.Bytes.Hex.{hex_to_bytes-bytes_to_hex, bytes_to_hex-hex_to_bytes}
use hodlxxi_social.Nostr.Event.{Event, normalize_wire_event, serialized_event}
use hodlxxi_social.Nostr.Event.Acceptance.{event_value, normalize_wire_event-event_value}
use hodlxxi_social.Nostr.Event.Shape.{IsWireEvent, normalize_wire_event_sound}
use hodlxxi_social.Nostr.Verify.{
  verify_bip340_signature, event_id, compute_nostr_event_id, verify_nostr_event,
}
use hodlxxi_social.Nostr.Verify.Soundness.{IsIdentified, verify_nostr_event_sound}
use hodlxxi_social.Nostr.Tests.Samples.{
  sample_key, sample_id, sample_sig, sample_event, sample_value, sample_digest,
}

normalized_sample : normalize_wire_event sample_value ≡ some sample_event
unfolding normalize_wire_event indexed
normalized_sample = refl

generator_once : to_affine (multiply_point 1 generator) ≡ some generator
unfolding to_affine multiply_point
generator_once = refl

lifted_generator : lift_x generator.x ≡ some generator
unfolding lift_x
lifted_generator = refl

signed_sample : verify_bip340_signature sample_digest sample_key sample_id sample_sig ≡ some true
unfolding verify_bip340_signature sample_digest
signed_sample = refl

verified_sample : verify_nostr_event sample_digest sample_value ≡ some sample_event
unfolding verify_nostr_event sample_digest indexed
verified_sample = refl

pow_mod_lem_example : pow_mod 7 20 1000 ≡ 7 ^ 20 % 1000
pow_mod_lem_example = pow_mod_lem 7 20 1000 (omega arith)

multiply_point_enough_example :
    multiply_loop 10 infinity (to_jacobian generator) 5 ≡ multiply_point 5 generator
multiply_point_enough_example = multiply_point_enough 10 5 generator (omega arith)

lift_x_sound_example : (generator.x ≡ generator.x) × IsEvenPoint generator
lift_x_sound_example = lift_x_sound generator.x generator lifted_generator

normalize_wire_event_sound_example : IsWireEvent sample_event
normalize_wire_event_sound_example =
    normalize_wire_event_sound sample_value sample_event normalized_sample

-- The sample has no numeral beside its two times, its kind and the 0.
abbrev no_numeral : Text → Number
no_numeral t = nat 0

json_parse-serialized_event_example :
    json_parse no_numeral (serialized_event sample_event) ≡ some (event_array sample_event)
json_parse-serialized_event_example =
    json_parse-serialized_event no_numeral sample_event (omega arith) (omega arith)

verify_nostr_event_sound_example :
    (normalize_wire_event sample_value ≡ some sample_event)
    × IsWireEvent sample_event
    × IsIdentified no_numeral sample_digest sample_event
    × (compute_nostr_event_id sample_digest sample_value ≡ some sample_event.id)
    × (verify_bip340_signature sample_digest sample_key sample_id sample_sig ≡ some true)
verify_nostr_event_sound_example =
    verify_nostr_event_sound no_numeral sample_digest sample_value sample_event verified_sample

normalize_wire_event-event_value_example :
    normalize_wire_event (event_value sample_event) ≡ some sample_event
normalize_wire_event-event_value_example =
    normalize_wire_event-event_value sample_event
      (normalize_wire_event_sound sample_value sample_event normalized_sample)
