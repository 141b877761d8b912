-- ===== src/Messages/Admission/Creation.antt =====
-- The candidate challenges that can be created: `createDeviceChallengeCandidateV1` of
-- src/server/messaging-device-admission-v1.mjs.
use hodlxxi_social.Prelude.{
  ℕ, ◌+◌, ◌*◌, ◌≤◌, ◌<◌, ◌≡◌, refl, true, ◌&&◌, Option, some, [], ◌∷◌, inl, inr, leb, length, all,
  arith,
}
use hodlxxi_social.Js.Text.{Text, ◌===◌, ===_self, in_range}
use hodlxxi_social.Js.Value.{Value, Number, number, nat, string, max_safe_integer}
use hodlxxi_social.Js.Record.{Fields, property}
use hodlxxi_social.Nostr.Json.{quote_units}
use hodlxxi_social.Js.Parse.Decimals.{length-decimal}
use hodlxxi_social.Js.Parse.Scanning.{shown_or_escaped, quote_units_plain, quote_units_escaped}
use hodlxxi_social.Js.Parse.Printed.{record_of, render}
use hodlxxi_social.Sessions.Store.Mobile.{is_hex64}
use hodlxxi_social.Messages.Routing.{routing_enabled}
use hodlxxi_social.Messages.Wire.Bounds.{length-render, render-printable}
use hodlxxi_social.Messages.Admission.{challenge_fields, parse_fields, request}
use hodlxxi_social.Messages.Admission.Challenge.{
  is_headed, is_lifetime, challenge, create_challenge,
}
use hodlxxi_social.Messages.Admission.Reading.{request-printable, hex_id}
use hodlxxi_social.Messages.Admission.Printed.{
  challenge_record, challenge_tree, challenge_tree-plain, canonical-challenge_record,
  json_parse-challenge, own-challenge, leb_when,
}

length-quote_units :
    (t : Text) → all (in_range 0x20 0x7e) t ≡ true → length (quote_units t) ≤ 2 * length t
length-quote_units [] h = unfold quote_units in omega arith
length-quote_units (c ∷ t) h = elim (shown_or_escaped c (ground arith)) [
  | inl e ↦ rw (quote_units_plain c t e) (omega (arith, length-quote_units t (ground arith)))
  | inr e ↦ rw (quote_units_escaped c t e) (omega (arith, length-quote_units t (ground arith)))
]

hex_length : (id : Text) → is_hex64 (string id) ≡ true → length id ≡ 64
hex_length id h = ground arith

length-challenge :
    (t id : Text) (i e : ℕ)
    → all (in_range 0x20 0x7e) t ≡ true
    → length t ≤ 1800
    → length id ≡ 64
    → i ≤ max_safe_integer
    → e ≤ max_safe_integer
    → length (render (record_of (challenge_tree t id i e)) []) ≤ 4096
length-challenge t id i e printable short hid hi he = omega (
  arith,
  length-render (record_of (challenge_tree t id i e)) [],
  length-quote_units t printable,
  length-decimal i hi,
  length-decimal e he,
  short,
  hid,
)

parse_fits :
    (t : Text)
    → length t ≤ 4096
    → all (in_range 0x20 0x7e) t ≡ true
    → (leb (length t) 4096 && all (in_range 0x20 0x7e) t) ≡ true
parse_fits t h k = ground arith

below : (i e : ℕ) → i < e → e ≤ max_safe_integer → i ≤ max_safe_integer
below i e h k = omega (arith, h, k)

is_lifetime-true : (i e : ℕ) → i < e → e ≤ i + 60_000 → is_lifetime i e ≡ true
is_lifetime-true i e h k = ground arith

is_headed-challenge_record :
    (t id : Text) (i e : ℕ)
    → is_hex64 (string id) ≡ true
    → is_headed (challenge_record t id i e) ≡ true
unfolding is_headed property ◌===◌
is_headed-challenge_record t id i e h = h

module _ (real : Text → Number) (hostname : Text → Option Text) where
  parse_fields-challenge :
      (t id : Text) (i e : ℕ)
      → all (in_range 0x20 0x7e) t ≡ true
      → length t ≤ 1800
      → is_hex64 (string id) ≡ true
      → i ≤ max_safe_integer
      → e ≤ max_safe_integer
      → parse_fields real
          (string (render (record_of (challenge_tree t id i e)) []))
          challenge_fields
          4096
        ≡ some (challenge_record t id i e)
  unfolding parse_fields
  parse_fields-challenge t id i e printable short hex hi he =
      let shown = hex_id id hex in
      let plain = challenge_tree-plain t id i e printable shown hi he in
      let wire = render (record_of (challenge_tree t id i e)) [] in
      rw
        (
          parse_fits wire (length-challenge t id i e printable short (hex_length id hex) hi he)
              (render-printable (record_of (challenge_tree t id i e)) [] plain refl),
          json_parse-challenge real t id i e plain,
          own-challenge t id i e,
          canonical-challenge_record t id i e shown hi he,
          ===_self wire,
        )
        refl

  challenge-rendered :
      (t id : Text) (i e : ℕ) (r : Fields)
      → request real hostname (string t) ≡ some r
      → length t ≤ 1800
      → is_hex64 (string id) ≡ true
      → i < e
      → e ≤ i + 60_000
      → e ≤ max_safe_integer
      → challenge real hostname (string (render (record_of (challenge_tree t id i e)) []))
        ≡ some (challenge_record t id i e)
  unfolding challenge property
  challenge-rendered t id i e r requested short hex before soon he =
      let hi = below i e before he in
      rw
        (
          parse_fields-challenge t id i e (request-printable real hostname t r requested) short hex
              hi he,
          is_headed-challenge_record t id i e hex,
          leb_when i _ hi,
          leb_when e _ he,
          is_lifetime-true i e before soon,
          requested,
        )
        refl

  -- A challenge can be created, when this is enabled, for every request that is accepted and has at
  -- most 1,800 code units, every id of 64 lower-case hexadecimal digits, and every two times of which
  -- the later is a safe integer and at most 60,000 milliseconds after the other.
  pub create_challenge_total :
      (t id : Text) (i e : ℕ) (r : Fields) (options : Value)
      → routing_enabled options ≡ true
      → request real hostname (string t) ≡ some r
      → length t ≤ 1800
      → is_hex64 (string id) ≡ true
      → i < e
      → e ≤ i + 60_000
      → e ≤ max_safe_integer
      → (wire : Text) × (create_challenge real hostname
            (string t)
            (string id)
            (number (nat i))
            (number (nat e))
            options
          ≡ some wire)
        × (length wire ≤ 4096)
  unfolding create_challenge
  create_challenge_total t id i e r options enabled requested short hex before soon he =
      let hi = below i e before he in
      (
        render (record_of (challenge_tree t id i e)) [],
        rw
            (
              enabled,
              requested,
              hex,
              canonical-challenge_record t id i e (hex_id id hex) hi he,
              leb_when i _ hi,
              leb_when e _ he,
              challenge-rendered t id i e r requested short hex before soon he,
            )
            refl,
        length-challenge t id i e (request-printable real hostname t r requested) short
            (hex_length id hex) hi he,
      )
