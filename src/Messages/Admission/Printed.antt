-- ===== src/Messages/Admission/Printed.antt =====
-- The print of a candidate challenge, and how JSON.parse reads it: `canonical` and `JSON.parse` in
-- `createDeviceChallengeCandidateV1` and `parse` of src/server/messaging-device-admission-v1.mjs.
use hodlxxi_social.Prelude.{
  ℕ, ◌≤◌, ◌<◌, ◌≡◌, refl, ap, ◌∙◌, true, ◌&&◌, some, [], ◌∷◌, ++_assoc, ltb, leb, all, arith,
}
use hodlxxi_social.Js.Text.{Text, lit, in_range}
use hodlxxi_social.Js.Value.{Number, number, nat, string, max_safe_integer}
use hodlxxi_social.Js.Record.{Fields, pick}
use hodlxxi_social.Js.Record.Laws.{record_value}
use hodlxxi_social.Js.Parse.{json_parse, put, key_of}
use hodlxxi_social.Js.Parse.Printed.{
  text, digit, numeral, escaped, record_of, no_more, entry, IsShown, FieldsArePlain, render,
  value_of,
}
use hodlxxi_social.Js.Parse.Printed.Read.{json_parse-render}
use hodlxxi_social.Sessions.Store.Mobile.{has_exactly}
use hodlxxi_social.Sessions.Native.Responses.{own}
use hodlxxi_social.Messages.Wire.Shown.{quote_units_shown}
use hodlxxi_social.Messages.Admission.{
  challenge_schema, challenge_domain, challenge_fields, canonical, sorted, insert_sorted,
  print_members, printed, request,
}

-- The fields of the challenge.
abbrev pub challenge_record : (request id : Text) (issued expires : ℕ) → Fields
challenge_record request id issued expires =
    (lit "challengeId", string id)
    ∷ (lit "domain", string challenge_domain)
    ∷ (lit "expiresAt", number (nat expires))
    ∷ (lit "issuedAt", number (nat issued))
    ∷ (lit "request", string request)
    ∷ (lit "schema", string challenge_schema)
    ∷ (lit "version", number (nat 1))
    ∷ []

abbrev pub challenge_tree :
    (request id : Text) (issued expires : ℕ) → hodlxxi_social.Js.Parse.Printed.Fields
challenge_tree request id issued expires = entry (lit "challengeId") (text id) (
    entry (lit "domain") (text challenge_domain) (
      entry (lit "expiresAt") (numeral expires) (
        entry (lit "issuedAt") (numeral issued) (
          entry (lit "request") (escaped request) (
            entry (lit "schema") (text challenge_schema)
              (entry (lit "version") (digit 1) no_more))))))

pub leb_safe : (n : ℕ) → leb n max_safe_integer ≡ true → n ≤ max_safe_integer
leb_safe n h = ground arith

pub within_safe : (at e : ℕ) → at < e → e ≤ max_safe_integer → at ≤ max_safe_integer
within_safe at e h he = omega (arith, h, he)

pub in_time : (i at e : ℕ) → i ≤ at → at < e → (leb i at && ltb at e) ≡ true
in_time i at e h k = ground arith

pub leb_when : (n m : ℕ) → n ≤ m → leb n m ≡ true
leb_when n m h = ground arith

pub canonical-challenge_record :
    (request id : Text) (issued expires : ℕ)
    → IsShown id
    → issued ≤ max_safe_integer
    → expires ≤ max_safe_integer
    → canonical (challenge_record request id issued expires)
      ≡ some (render (record_of (challenge_tree request id issued expires)) [])
unfolding canonical sorted insert_sorted print_members printed
canonical-challenge_record request id issued expires hid hi he =
    rw (leb_when issued _ hi, leb_when expires _ he) (simp (quote_units_shown id hid, ++_assoc))

pub challenge_tree-plain :
    (request id : Text) (issued expires : ℕ)
    → all (in_range 0x20 0x7e) request ≡ true
    → IsShown id
    → issued ≤ max_safe_integer
    → expires ≤ max_safe_integer
    → FieldsArePlain (challenge_tree request id issued expires)
challenge_tree-plain request id issued expires hr hid hi he = (
  refl,
  hid,
  (refl, refl, (refl, he, (refl, hi, (refl, hr, (refl, refl, (refl, omega arith, tt)))))),
)

pub value-challenge :
    (request id : Text) (issued expires : ℕ)
    → value_of (record_of (challenge_tree request id issued expires))
      ≡ record_value (challenge_record request id issued expires)
unfolding put key_of
value-challenge request id issued expires = refl

pub json_parse-challenge :
    (real : Text → Number) (request id : Text) (issued expires : ℕ)
    → FieldsArePlain (challenge_tree request id issued expires)
    → json_parse real (render (record_of (challenge_tree request id issued expires)) [])
      ≡ some (record_value (challenge_record request id issued expires))
json_parse-challenge real request id issued expires plain =
    json_parse-render real (challenge_tree request id issued expires) plain
    ∙ ap some (value-challenge request id issued expires)

pub own-challenge :
    (request id : Text) (issued expires : ℕ)
    → own (record_value (challenge_record request id issued expires)) challenge_fields
      ≡ some (challenge_record request id issued expires)
unfolding own has_exactly pick
own-challenge request id issued expires = refl
