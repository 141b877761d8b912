-- ===== src/Messages/Wire/Printed.antt =====
-- The wire of an envelope is JSON of the object that the envelope is.
use hodlxxi_social.Prelude.{
  ◌<◌, ◌≡◌, refl, sym, ap, ◌∙◌, subst, some, List, [], ◌∷◌, ◌++◌, map, ++_assoc, All, arith,
}
use hodlxxi_social.Js.Text.{Text, lit}
use hodlxxi_social.Js.Value.{Number, string}
use hodlxxi_social.Js.Parse.{json_parse, put, key_of}
use hodlxxi_social.Js.Parse.Printed.{
  Tree, text, digit, array, record_of, Fields, no_more, entry, IsShown, IsPlain, ArePlain,
  FieldsArePlain, render, value_of, values_of,
}
pub use hodlxxi_social.Js.Parse.Printed.Arrays.{trees_of}
use hodlxxi_social.Js.Parse.Printed.Arrays.{Prints, bracketed-render}
use hodlxxi_social.Js.Parse.Printed.Read.{json_parse-render}
use hodlxxi_social.Nostr.Json.{quoted}
use hodlxxi_social.Messages.Envelope.{Body, KeyWrap, Envelope}
use hodlxxi_social.Messages.Envelope.Shape.{IsHandle, IsBody, IsWrapFor, AreWrapsFor, IsEnvelope}
use hodlxxi_social.Messages.Envelope.Shape.Acceptance.{wrap_value, envelope_value}
use hodlxxi_social.Messages.Wire.{serialize_wrap, serialize_normalized}
use hodlxxi_social.Messages.Wire.Shown.{
  quote_units_shown, message_id-IsShown, device_handle-IsShown, snapshot_id-IsShown,
  IsEncoded-IsShown,
}

abbrev pub wrap_tree : KeyWrap → Tree
wrap_tree w = record_of (
    entry (lit "deviceHandle") (text w.device_handle) (
      entry (lit "algorithm") (text w.algorithm)
        (entry (lit "enc") (text w.enc) (entry (lit "ciphertext") (text w.ciphertext) no_more))))

abbrev pub body_tree : Body → Tree
body_tree b = record_of (
    entry (lit "algorithm") (text b.algorithm)
      (entry (lit "nonce") (text b.nonce) (entry (lit "ciphertext") (text b.ciphertext) no_more)))

abbrev pub envelope_fields : Envelope → Fields
envelope_fields e = entry (lit "schema") (text e.schema) (
    entry (lit "version") (digit e.version) (
      entry (lit "suite") (text e.suite) (
        entry (lit "messageId") (text e.message_id) (
          entry (lit "recipientPackageSnapshotId") (text e.snapshot_id) (
            entry (lit "recipientDeviceHandles") (array (trees_of text e.handles)) (
              entry (lit "body") (body_tree e.body)
                (entry (lit "keyWraps") (array (trees_of wrap_tree e.key_wraps)) no_more)))))))

pub values-handles : (ts : List Text) → values_of (trees_of text ts) ≡ map string ts
values-handles [] = refl
values-handles (t ∷ ts) = ap (◌∷◌ (string t)) (values-handles ts)

values-wraps : (ws : List KeyWrap) → values_of (trees_of wrap_tree ws) ≡ map wrap_value ws
unfolding put key_of
values-wraps [] = refl
values-wraps (w ∷ ws) = ap (◌∷◌ (wrap_value w)) (values-wraps ws)

value-envelope : (e : Envelope) → value_of (record_of (envelope_fields e)) ≡ envelope_value e
unfolding put key_of
value-envelope e = rw (values-handles e.handles, values-wraps e.key_wraps) refl

serialize_wrap-render :
    (w : KeyWrap) (rest : Text)
    → IsShown w.device_handle
    → IsShown w.algorithm
    → IsShown w.enc
    → IsShown w.ciphertext
    → serialize_wrap w ++ rest ≡ render (wrap_tree w) rest
unfolding serialize_wrap
serialize_wrap-render w rest hd ha he hc = simp (
  ++_assoc,
  quote_units_shown w.device_handle hd,
  quote_units_shown w.algorithm ha,
  quote_units_shown w.enc he,
  quote_units_shown w.ciphertext hc,
)

wrap-Prints :
    (t : Text) (w : KeyWrap) → IsHandle t → IsWrapFor t w → Prints serialize_wrap wrap_tree w
wrap-Prints t w handle h rest =
    serialize_wrap-render w rest
      (subst IsShown (sym h.device_handle) (device_handle-IsShown t handle.0))
      (subst IsShown (sym h.algorithm) refl) (IsEncoded-IsShown 32 32 w.enc h.enc)
      (IsEncoded-IsShown 48 48 w.ciphertext h.ciphertext)

wraps_print :
    (ts : List Text) (ws : List KeyWrap)
    → All IsHandle ts
    → AreWrapsFor ts ws
    → All (Prints serialize_wrap wrap_tree) ws
wraps_print [] [] hs h = tt
wraps_print [] (w ∷ ws) hs h = absurd h
wraps_print (t ∷ ts) [] hs h = absurd h
wraps_print (t ∷ ts) (w ∷ ws) (ht, hs) (h, hws) = (wrap-Prints t w ht h, wraps_print ts ws hs hws)

quoted-Prints : (t : Text) → IsShown t → Prints quoted text t
unfolding quoted
quoted-Prints t h rest = simp (++_assoc, quote_units_shown t h)

pub handles_print : (ts : List Text) → All IsHandle ts → All (Prints quoted text) ts
handles_print [] h = tt
handles_print (t ∷ ts) (h, hs) =
    (quoted-Prints t (device_handle-IsShown t h.0), handles_print ts hs)

pub serialize_normalized-render :
    (e : Envelope)
    → IsEnvelope e
    → serialize_normalized e ≡ render (record_of (envelope_fields e)) []
unfolding serialize_normalized
serialize_normalized-render e h =
    rw (h.schema, h.version, h.suite)
      (simp (
        quote_units_shown e.message_id (message_id-IsShown e.message_id h.message_id.0),
        quote_units_shown e.snapshot_id (snapshot_id-IsShown e.snapshot_id h.snapshot_id),
        quote_units_shown e.body.algorithm (subst IsShown (sym h.body.algorithm) refl),
        quote_units_shown e.body.nonce (IsEncoded-IsShown 12 12 e.body.nonce h.body.nonce),
        quote_units_shown e.body.ciphertext
            (IsEncoded-IsShown 17 16_400 e.body.ciphertext h.body.ciphertext),
        bracketed-render quoted text e.handles _ (handles_print e.handles h.handles),
        bracketed-render serialize_wrap wrap_tree e.key_wraps _
            (wraps_print e.handles e.key_wraps h.handles h.key_wraps),
        ++_assoc,
      ))

pub handle_trees-ArePlain : (ts : List Text) → All IsHandle ts → ArePlain (trees_of text ts)
handle_trees-ArePlain [] h = tt
handle_trees-ArePlain (t ∷ ts) (h, hs) = (device_handle-IsShown t h.0, handle_trees-ArePlain ts hs)

wrap_trees-ArePlain :
    (ts : List Text) (ws : List KeyWrap)
    → All IsHandle ts
    → AreWrapsFor ts ws
    → ArePlain (trees_of wrap_tree ws)
wrap_trees-ArePlain [] [] hs h = tt
wrap_trees-ArePlain [] (w ∷ ws) hs h = absurd h
wrap_trees-ArePlain (t ∷ ts) [] hs h = absurd h
wrap_trees-ArePlain (t ∷ ts) (w ∷ ws) (ht, hs) (h, hws) = (
  (
    refl,
    subst IsShown (sym h.device_handle) (device_handle-IsShown t ht.0),
    (
      refl,
      subst IsShown (sym h.algorithm) refl,
      (
        refl,
        IsEncoded-IsShown 32 32 w.enc h.enc,
        (refl, IsEncoded-IsShown 48 48 w.ciphertext h.ciphertext, tt),
      ),
    ),
  ),
  wrap_trees-ArePlain ts ws hs hws,
)

body_tree-IsPlain : (b : Body) → IsBody b → IsPlain (body_tree b)
body_tree-IsPlain b h = (
  refl,
  subst IsShown (sym h.algorithm) refl,
  (
    refl,
    IsEncoded-IsShown 12 12 b.nonce h.nonce,
    (refl, IsEncoded-IsShown 17 16_400 b.ciphertext h.ciphertext, tt),
  ),
)

pub envelope_fields-plain : (e : Envelope) → IsEnvelope e → FieldsArePlain (envelope_fields e)
envelope_fields-plain e h = (
  refl,
  subst IsShown (sym h.schema) refl,
  (
    refl,
    subst (λ n. n < 10) (sym h.version) (omega arith),
    (
      refl,
      subst IsShown (sym h.suite) refl,
      (
        refl,
        message_id-IsShown e.message_id h.message_id.0,
        (
          refl,
          snapshot_id-IsShown e.snapshot_id h.snapshot_id,
          (
            refl,
            handle_trees-ArePlain e.handles h.handles,
            (
              refl,
              body_tree-IsPlain e.body h.body,
              (refl, wrap_trees-ArePlain e.handles e.key_wraps h.handles h.key_wraps, tt),
            ),
          ),
        ),
      ),
    ),
  ),
)

pub json_parse-serialize :
    (real : Text → Number) (e : Envelope)
    → IsEnvelope e
    → json_parse real (serialize_normalized e) ≡ some (envelope_value e)
json_parse-serialize real e h =
    ap (json_parse real) (serialize_normalized-render e h)
    ∙ json_parse-render real (envelope_fields e) (envelope_fields-plain e h)
    ∙ ap some (value-envelope e)
