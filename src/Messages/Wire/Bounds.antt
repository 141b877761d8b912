-- ===== src/Messages/Wire/Bounds.antt =====
-- The length of the wire of an envelope.
use hodlxxi_social.Prelude.{
  inl, inr, ◌∙◌, ℕ, ◌+◌, length-append, ◌*◌, ◌/◌, ◌≤◌, ◌≡◌, refl, ap, subst, Bool, true, List, [],
  ◌∷◌, ◌++◌, leb, length, all, All, arith,
}
use hodlxxi_social.Js.Text.{Text}
use hodlxxi_social.Nostr.Json.{decimal, quote_units}
use hodlxxi_social.Js.Parse.{is_literal}
use hodlxxi_social.Js.Parse.Decimals.{decimal_literal}
use hodlxxi_social.Js.Parse.Scanning.{shown_or_escaped, quote_units_plain, quote_units_escaped}
use hodlxxi_social.Js.Parse.Printed.{
  is_printable, Tree, text, digit, numeral, nothing, escaped, array, record_of, Trees, none_left,
  tree, Fields, no_more, entry, IsShown, IsPlain, ArePlain, FieldsArePlain, render, render_more,
  render_fields,
}
use hodlxxi_social.Messages.Envelope.{
  KeyWrap, Envelope, is_message_id, is_snapshot_id, is_device_handle,
}
use hodlxxi_social.Messages.Envelope.Shape.{IsEncoded, IsHandle, IsWrapFor, AreWrapsFor, IsEnvelope}
use hodlxxi_social.Capability.Random.Decoding.{base64url-chars}
use hodlxxi_social.Messages.Wire.{serialize_normalized}
use hodlxxi_social.Messages.Wire.Printed.{
  wrap_tree, trees_of, envelope_fields, serialize_normalized-render, envelope_fields-plain,
}

abbrev mutual
  pub size : Tree → ℕ
  size (text t) = length t + 2
  size (digit n) = 1
  size (numeral n) = length (decimal n)
  size nothing = 4
  size (escaped t) = length (quote_units t) + 2
  size (array none_left) = 2
  size (array (tree t ts)) = 1 + (size t + size_more ts)
  size (record_of no_more) = 2
  size (record_of (entry k t fs)) = 4 + (length k + (size t + size_fields fs))

  pub size_more : Trees → ℕ
  size_more none_left = 1
  size_more (tree t ts) = 1 + (size t + size_more ts)

  size_fields : Fields → ℕ
  size_fields no_more = 1
  size_fields (entry k t fs) = 4 + (length k + (size t + size_fields fs))

mutual
  pub length-render : (t : Tree) (rest : Text) → length (render t rest) ≡ size t + length rest
  length-render (text t) rest = omega (arith, length-append t (b'"' ∷ rest))
  length-render (digit n) rest = omega arith
  length-render (numeral n) rest = length-append (decimal n) rest
  length-render nothing rest = omega arith
  length-render (escaped t) rest = omega (arith, length-append (quote_units t) (b'"' ∷ rest))
  length-render (array none_left) rest = omega arith
  length-render (array (tree t ts)) rest =
      omega (arith, length-render t (render_more ts rest), length-render_more ts rest)
  length-render (record_of no_more) rest = omega arith
  length-render (record_of (entry k t fs)) rest = omega (
    arith,
    length-append k (b'"' ∷ b':' ∷ render t (render_fields fs rest)),
    length-render t (render_fields fs rest),
    length-render_fields fs rest,
  )

  length-render_more :
      (ts : Trees) (rest : Text) → length (render_more ts rest) ≡ size_more ts + length rest
  length-render_more none_left rest = omega arith
  length-render_more (tree t ts) rest =
      omega (arith, length-render t (render_more ts rest), length-render_more ts rest)

  length-render_fields :
      (fs : Fields) (rest : Text) → length (render_fields fs rest) ≡ size_fields fs + length rest
  length-render_fields no_more rest = omega arith
  length-render_fields (entry k t fs) rest = omega (
    arith,
    length-append k (b'"' ∷ b':' ∷ render t (render_fields fs rest)),
    length-render t (render_fields fs rest),
    length-render_fields fs rest,
  )

abbrev is_ascii : ℕ → Bool
is_ascii u = leb u 0x7f

all_printable-ascii : (t : Text) → all is_printable t ≡ true → all is_ascii t ≡ true
all_printable-ascii [] h = refl
all_printable-ascii (c ∷ t) h = ground (arith, all_printable-ascii t (ground arith))

pub all-append :
    (p : ℕ → Bool) (s t : Text) → all p s ≡ true → all p t ≡ true → all p (s ++ t) ≡ true
all-append p [] t h k = k
all-append p (c ∷ s) t h k = ground (all-append p s t (ground arith) k, arith)

all_literal-printable : (t : Text) → all is_literal t ≡ true → all is_printable t ≡ true
all_literal-printable [] h = refl
all_literal-printable (c ∷ t) h = ground (arith, all_literal-printable t (ground arith))

quote_units-printable :
    (t : Text) → all is_printable t ≡ true → all is_printable (quote_units t) ≡ true
quote_units-printable [] h = unfold quote_units in refl
quote_units-printable (c ∷ t) h = elim (shown_or_escaped c (ground arith)) [
  | inl e ↦
      ap (all is_printable) (quote_units_plain c t e)
      ∙ ground (arith, e, quote_units-printable t (ground arith))
  | inr e ↦
      ap (all is_printable) (quote_units_escaped c t e)
      ∙ ground (arith, e, quote_units-printable t (ground arith))
]

all_shown-printable : (t : Text) → IsShown t → all is_printable t ≡ true
all_shown-printable [] h = refl
all_shown-printable (c ∷ t) h = ground (arith, all_shown-printable t (ground arith))

mutual
  pub render-printable :
      (t : Tree) (rest : Text)
      → IsPlain t
      → all is_printable rest ≡ true
      → all is_printable (render t rest) ≡ true
  render-printable (text t) rest h e =
      all-append is_printable t (b'"' ∷ rest) (all_shown-printable t h) e
  render-printable (digit n) rest h e = ground arith
  render-printable (numeral n) rest h e =
      all-append is_printable (decimal n) rest
        (all_literal-printable (decimal n) (decimal_literal n)) e
  render-printable nothing rest h e = e
  render-printable (escaped t) rest h e =
      all-append is_printable (quote_units t) (b'"' ∷ rest) (quote_units-printable t h) e
  render-printable (array none_left) rest h e = e
  render-printable (array (tree t ts)) rest (h, hs) e =
      render-printable t (render_more ts rest) h (render_more-printable ts rest hs e)
  render-printable (record_of no_more) rest h e = e
  render-printable (record_of (entry k t fs)) rest (hk, h, hs) e =
      all-append is_printable k (b'"' ∷ b':' ∷ render t (render_fields fs rest))
        (all_shown-printable k hk)
        (render-printable t (render_fields fs rest) h (render_fields-printable fs rest hs e))

  render_more-printable :
      (ts : Trees) (rest : Text)
      → ArePlain ts
      → all is_printable rest ≡ true
      → all is_printable (render_more ts rest) ≡ true
  render_more-printable none_left rest h e = e
  render_more-printable (tree t ts) rest (h, hs) e =
      render-printable t (render_more ts rest) h (render_more-printable ts rest hs e)

  render_fields-printable :
      (fs : Fields) (rest : Text)
      → FieldsArePlain fs
      → all is_printable rest ≡ true
      → all is_printable (render_fields fs rest) ≡ true
  render_fields-printable no_more rest h e = e
  render_fields-printable (entry k t fs) rest (hk, h, hs) e =
      all-append is_printable k (b'"' ∷ b':' ∷ render t (render_fields fs rest))
        (all_shown-printable k hk)
        (render-printable t (render_fields fs rest) h (render_fields-printable fs rest hs e))

length-encoded :
    (minimum maximum : ℕ) (t : Text)
    → IsEncoded minimum maximum t
    → length t ≤ (4 * maximum + 2) / 3
length-encoded minimum maximum t (bytes, ok, low, high, e) =
    subst (λ s. length s ≤ (4 * maximum + 2) / 3) e
      (omega (arith, (base64url-chars bytes ok).1, high))

pub length-message_id : (t : Text) → is_message_id t ≡ true → length t ≡ 45
unfolding is_message_id
length-message_id t h = ground arith

pub length-snapshot_id : (t : Text) → is_snapshot_id t ≡ true → length t ≡ 71
unfolding is_snapshot_id
length-snapshot_id t h = ground arith

length-device_handle : (t : Text) → is_device_handle t ≡ true → length t ≡ 24
unfolding is_device_handle
length-device_handle t h = ground arith

pub size-handles :
    (ts : List Text) → All IsHandle ts → size_more (trees_of text ts) ≡ 27 * length ts + 1
size-handles [] h = refl
size-handles (t ∷ ts) (h, hs) = omega (arith, length-device_handle t h.0, size-handles ts hs)

size-wrap : (t : Text) (w : KeyWrap) → IsHandle t → IsWrapFor t w → size (wrap_tree w) ≤ 230
size-wrap t w handle h = omega (
  arith,
  ap length h.device_handle,
  length-device_handle t handle.0,
  ap length h.algorithm,
  length-encoded 32 32 w.enc h.enc,
  length-encoded 48 48 w.ciphertext h.ciphertext,
)

size-wraps :
    (ts : List Text) (ws : List KeyWrap)
    → All IsHandle ts
    → AreWrapsFor ts ws
    → size_more (trees_of wrap_tree ws) ≤ 231 * length ts + 1
size-wraps [] [] hs h = omega arith
size-wraps [] (w ∷ ws) hs h = absurd h
size-wraps (t ∷ ts) [] hs h = absurd h
size-wraps (t ∷ ts) (w ∷ ws) (ht, hs) (h, hws) =
    omega (arith, size-wrap t w ht h, size-wraps ts ws hs hws)

pub size-array : (ts : Trees) → size (array ts) ≤ 1 + size_more ts
size-array none_left = omega arith
size-array (tree t ts) = omega arith

-- The wire of a well-formed envelope is ASCII of at most 27,000 code units, so that
-- the bound of 32,768 never refuses one.
pub length-serialize :
    (e : Envelope)
    → IsEnvelope e
    → (length (serialize_normalized e) ≤ 27_000)
      × (all (λ u. leb u 0x7f) (serialize_normalized e) ≡ true)
length-serialize e h = rw (serialize_normalized-render e h) (
  omega (
    arith,
    length-render (record_of (envelope_fields e)) [],
    ap length h.schema,
    ap length h.suite,
    ap length h.body.algorithm,
    length-message_id e.message_id h.message_id.0,
    length-snapshot_id e.snapshot_id h.snapshot_id,
    length-encoded 12 12 e.body.nonce h.body.nonce,
    length-encoded 17 16_400 e.body.ciphertext h.body.ciphertext,
    size-array (trees_of text e.handles),
    size-array (trees_of wrap_tree e.key_wraps),
    size-handles e.handles h.handles,
    size-wraps e.handles e.key_wraps h.handles h.key_wraps,
    h.few_handles,
  ),
  all_printable-ascii (render (record_of (envelope_fields e)) [])
      (render-printable (record_of (envelope_fields e)) [] (envelope_fields-plain e h) refl),
)
