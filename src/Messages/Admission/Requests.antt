-- ===== src/Messages/Admission/Requests.antt =====
-- The candidate requests that are created, and what they hold: `createDeviceRequestCandidateV1` of
-- src/server/messaging-device-admission-v1.mjs.
use mathlib.Core.Option.{some-injective}
use hodlxxi_social.Prelude.{
  ℕ, ◌≡◌, refl, sym, ap, ◌∙◌, Bool, true, ◌&&◌, Option, some, List, [], ◌∷◌, leb, ◌>>=◌, drop,
  ++_assoc, length, all, guard, arith, >>=-eq-some, when-eq-some,
}
use hodlxxi_social.Js.Text.{Text, lit, in_range, ◌===◌}
use hodlxxi_social.Js.Value.{
  Value, Number, string, as_string, object, standard, entries, Entry, Props, end,
}
use hodlxxi_social.Js.Record.{Fields, property, pick}
use hodlxxi_social.Js.Record.Laws.{record_value}
use hodlxxi_social.Js.Parse.{json_parse, put, key_of}
use hodlxxi_social.Js.Parse.Printed.{
  record_of, no_more, entry, IsShown, FieldsArePlain, render, render_fields, value_of, props_of,
}
use hodlxxi_social.Js.Parse.Printed
use hodlxxi_social.Messages.Wire.Shown.{quote_units_shown}
use hodlxxi_social.Js.Parse.Printed.Read.{json_parse-render}
use hodlxxi_social.Sessions.Store.Mobile.{is_hex64, has_exactly}
use hodlxxi_social.Sessions.Native.Responses.{own}
use hodlxxi_social.Messages.Admission.{
  request_fields, is_context, is_version, is_audience, is_request, is_same, parse_fields, request,
  canonical, sorted, insert_sorted, print_members,
}
use hodlxxi_social.Messages.Admission.Reading.{parse_fields-own}
use hodlxxi_social.Messages.Admission.Rendered.{IsRendered}

abbrev pub AllRendered : Fields → Type 0
AllRendered [] = Unit
AllRendered ((k, v) ∷ fs) = IsShown k × IsRendered v × AllRendered fs

abbrev tree_fields : (fs : Fields) → AllRendered fs → Printed.Fields
tree_fields [] h = no_more
tree_fields ((k, v) ∷ fs) (shown, h, hs) = entry k h.tree (tree_fields fs hs)

tree_fields-plain : (fs : Fields) (h : AllRendered fs) → FieldsArePlain (tree_fields fs h)
tree_fields-plain [] h = tt
tree_fields-plain ((k, v) ∷ fs) (shown, h, hs) = (shown, h.plain, tree_fields-plain fs hs)

print_members-render :
    (fs : Fields) (h : AllRendered fs)
    → print_members fs ≡ some (render_fields (tree_fields fs h) [])
unfolding print_members
print_members-render [] h = refl
print_members-render ((k, v) ∷ fs) (shown, h, hs) =
    rw (h.prints, print_members-render fs hs)
      (simp (quote_units_shown k shown, h.renders (render_fields (tree_fields fs hs) []), ++_assoc))

abbrev put_all : Fields → Props → Props
put_all [] ps = ps
put_all ((k, v) ∷ fs) ps = put_all fs (put (key_of k) v ps)

props_of-tree_fields :
    (fs : Fields) (h : AllRendered fs) (ps : Props) → props_of (tree_fields fs h) ps ≡ put_all fs ps
props_of-tree_fields [] h ps = refl
props_of-tree_fields ((k, v) ∷ fs) (shown, h, hs) ps =
    props_of-tree_fields fs hs (put (key_of k) (value_of h.tree) ps)
    ∙ ap (λ w. put_all fs (put (key_of k) w ps)) h.denotes

-- A request of any values, in the order of `create_request`.
module _
    (audience binding version device session subject digest method operation path recipient schema
      one : Value) where
  abbrev pub request_record : Fields
  request_record =
      (lit "audience", audience)
      ∷ (lit "bindingId", binding)
      ∷ (lit "bindingVersion", version)
      ∷ (lit "deviceId", device)
      ∷ (lit "sessionBinding", session)
      ∷ (lit "subject", subject)
      ∷ (lit "bodyDigest", digest)
      ∷ (lit "method", method)
      ∷ (lit "operation", operation)
      ∷ (lit "path", path)
      ∷ (lit "recipientHandle", recipient)
      ∷ (lit "schema", schema)
      ∷ (lit "version", one)
      ∷ []

  abbrev pub sorted_record : Fields
  sorted_record =
      (lit "audience", audience)
      ∷ (lit "bindingId", binding)
      ∷ (lit "bindingVersion", version)
      ∷ (lit "bodyDigest", digest)
      ∷ (lit "deviceId", device)
      ∷ (lit "method", method)
      ∷ (lit "operation", operation)
      ∷ (lit "path", path)
      ∷ (lit "recipientHandle", recipient)
      ∷ (lit "schema", schema)
      ∷ (lit "sessionBinding", session)
      ∷ (lit "subject", subject)
      ∷ (lit "version", one)
      ∷ []

  sorted-request_record : sorted request_record ≡ sorted_record
  unfolding sorted insert_sorted
  sorted-request_record = refl

  own-request_record : own (record_value sorted_record) request_fields ≡ some request_record
  unfolding own has_exactly pick
  own-request_record = refl

  canonical-request_record :
      (h : AllRendered sorted_record)
      → canonical request_record ≡ some (render (record_of (tree_fields sorted_record h)) [])
  unfolding canonical
  canonical-request_record h =
      ap (λ (o : Option Text). o >>= λ members. some (b'{' ∷ drop 1 members))
        (ap print_members sorted-request_record ∙ print_members-render sorted_record h)

  json_parse-request_record :
      (real : Text → Number) (h : AllRendered sorted_record)
      → json_parse real (render (record_of (tree_fields sorted_record h)) [])
        ≡ some (record_value sorted_record)
  unfolding put key_of
  json_parse-request_record real h =
      json_parse-render real (tree_fields sorted_record h) (tree_fields-plain sorted_record h)
      ∙ ap (λ ps. some (object standard ps)) (props_of-tree_fields sorted_record h end)

  -- A printed request that is accepted has the fields that it was printed from.
  pub accepted-request_record :
      (real : Text → Number) (hostname : Text → Option Text) (wire : Text) (r : Fields)
      → AllRendered sorted_record
      → canonical request_record ≡ some wire
      → request real hostname (string wire) ≡ some r
      → r ≡ request_record
  unfolding request
  accepted-request_record real hostname wire r h printed_as accepted =
      let (q, parsed, h1) =
        >>=-eq-some (parse_fields real (string wire) request_fields 2048) _ accepted in
      let (u, passed, h2) = >>=-eq-some (guard (is_request hostname q)) _ h1 in
      sym (some-injective _ _ h2)
      ∙ parse_fields-own real wire request_fields 2048 q request_record (record_value sorted_record)
          parsed
          (ap (json_parse real) (some-injective _ _ (sym printed_as ∙ canonical-request_record h))
            ∙ json_parse-request_record real h)
          own-request_record

-- The fields of a context, of any values.
abbrev pub context_record : (audience binding version device session subject : Value) → Fields
context_record audience binding version device session subject =
    (lit "audience", audience)
    ∷ (lit "bindingId", binding)
    ∷ (lit "bindingVersion", version)
    ∷ (lit "deviceId", device)
    ∷ (lit "sessionBinding", session)
    ∷ (lit "subject", subject)
    ∷ []

six_parts :
    (a b c d e f : Bool)
    → (a && b && c && d && e && f) ≡ true
    → (a ≡ true) × (b ≡ true) × (c ≡ true) × (d ≡ true) × (e ≡ true) × (f ≡ true)
six_parts a b c d e f h =
    (ground arith, ground arith, ground arith, ground arith, ground arith, ground arith)

pub context-parts :
    (hostname : Text → Option Text) (audience binding version device session subject : Value)
    → is_context hostname (context_record audience binding version device session subject) ≡ true
    → (is_hex64 binding ≡ true)
      × (is_hex64 device ≡ true)
      × (is_hex64 session ≡ true)
      × (is_hex64 subject ≡ true)
      × (is_version version ≡ true)
      × (is_audience hostname audience ≡ true)
unfolding is_context property ◌===◌
context-parts hostname audience binding version device session subject h =
    six_parts (is_hex64 binding) (is_hex64 device) (is_hex64 session) (is_hex64 subject)
      (is_version version) (is_audience hostname audience) h

own-pick :
    (v : Value) (fields : List Text) (r : Fields)
    → own v fields ≡ some r
    → (es : List Entry) × (r ≡ pick fields es)
unfolding own
own-pick (object standard ps) fields r h =
    (entries ps, sym (some-injective _ _ (when-eq-some (has_exactly fields (entries ps)) _ h).1))
own-pick v fields r h = cc

pub parse_fields-pick :
    (real : Text → Number) (wire : Value) (fields : List Text) (most : ℕ) (r : Fields)
    → parse_fields real wire fields most ≡ some r
    → (es : List Entry) × (r ≡ pick fields es)
unfolding parse_fields
parse_fields-pick real wire fields most r h =
    let (t, written, h1) = >>=-eq-some (as_string wire) _ h in
    let (u, fits, h2) =
      >>=-eq-some (guard (leb (length t) most && all (in_range 0x20 0x7e) t)) _ h1 in
    let (w, read, h3) = >>=-eq-some (json_parse real t) _ h2 in
    let (s, taken, h4) = >>=-eq-some (own w fields) _ h3 in
    let (x, same, h5) = >>=-eq-some (guard (is_same (canonical s) t)) _ h4 in
    own-pick w fields r (taken ∙ h5)
