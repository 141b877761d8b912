-- ===== src/Js/Parse/Printed.antt =====
-- JSON.stringify of trees of arrays, objects, numbers, null and strings. `text` and `digit` are the strings and
-- numbers that are written as they are.
pub mod Scanned
pub mod Read
pub mod Arrays
use hodlxxi_social.Prelude.{
  ℕ, zero, suc, ◌+◌, ◌≡◌, refl, sym, ap, ◌∙◌, Bool, true, false, not, ◌&&◌, ◌||◌, Option, none,
  some, Option-cases, inl, inr, List, [], ◌∷◌, ◌++◌, ◌==◌, leb, all, All, arith, ◌<◌, ◌>>=◌, ◌≤◌,
  ◌++◌, ◌+◌,
}
use hodlxxi_social.Js.Text.{Text, lit, in_range, ◌===◌}
use hodlxxi_social.Js.Value.{
  Value, nat, number, null, string, object, standard, Props, end, max_safe_integer,
}
use hodlxxi_social.Nostr.Json.{decimal, quote_units}
use hodlxxi_social.Js.Record.Laws.{array_value}
use hodlxxi_social.Js.Parse.{
  Token, left_brace, right_brace, left_bracket, right_bracket, comma, colon, phrase, plain, Mode,
  between, quoting, literal, scan_unit, scan_between, literal_value, number_of, numeral_from,
  numeral_unit, digits_from, key_of, put, scan, Frame, items, members, State, any_value, first_item,
  first_member, next_item, next_member, member, named, after, parse_tokens, json_parse,
}

mutual
  pub data Tree : Type 0 where
    text : Text → Tree
    digit : ℕ → Tree
    numeral : ℕ → Tree
    nothing : Tree
    escaped : Text → Tree
    array : Trees → Tree
    record_of : Fields → Tree

  pub data Trees : Type 0 where
    none_left : Trees
    tree : Tree → Trees → Trees

  pub data Fields : Type 0 where
    no_more : Fields
    entry : Text → Tree → Fields → Fields

-- ASCII that a JSON string shows as it is
abbrev pub is_shown : ℕ → Bool
is_shown c = in_range 32 126 c && not (c == b'"') && not (c == b'\\')

-- printable ASCII, and what of it is written after a backslash
abbrev pub is_printable : ℕ → Bool
is_printable = in_range 32 126

abbrev pub is_escaped : ℕ → Bool
is_escaped c = c == b'"' || c == b'\\'

abbrev pub IsShown : Text → Type 0
IsShown t = all is_shown t ≡ true

-- `IsPlain` over the code units that an escaped string may have.
abbrev mutual
  pub IsPlainOver : (ℕ → Bool) → Tree → Type 0
  IsPlainOver p (text t) = IsShown t
  IsPlainOver p (digit n) = n < 10
  IsPlainOver p (numeral n) = n ≤ max_safe_integer
  IsPlainOver p nothing = Unit
  IsPlainOver p (escaped t) = all p t ≡ true
  IsPlainOver p (array ts) = ArePlainOver p ts
  IsPlainOver p (record_of fs) = FieldsArePlainOver p fs

  pub ArePlainOver : (ℕ → Bool) → Trees → Type 0
  ArePlainOver p none_left = Unit
  ArePlainOver p (tree t ts) = IsPlainOver p t × ArePlainOver p ts

  pub FieldsArePlainOver : (ℕ → Bool) → Fields → Type 0
  FieldsArePlainOver p no_more = Unit
  FieldsArePlainOver p (entry k t fs) = IsShown k × IsPlainOver p t × FieldsArePlainOver p fs

abbrev pub IsPlain : Tree → Type 0
IsPlain = IsPlainOver is_printable

abbrev pub ArePlain : Trees → Type 0
ArePlain = ArePlainOver is_printable

abbrev pub FieldsArePlain : Fields → Type 0
FieldsArePlain = FieldsArePlainOver is_printable

-- The text of a tree, then `rest`; the same of what follows the first item of an array or object.
abbrev mutual
  pub render : Tree → Text → Text
  render (text t) rest = b'"' ∷ t ++ (b'"' ∷ rest)
  render (digit n) rest = (b'0' + n) ∷ rest
  render (numeral n) rest = decimal n ++ rest
  render nothing rest = lit "null" ++ rest
  render (escaped t) rest = b'"' ∷ quote_units t ++ (b'"' ∷ rest)
  render (array none_left) rest = b'[' ∷ b']' ∷ rest
  render (array (tree t ts)) rest = b'[' ∷ render t (render_more ts rest)
  render (record_of no_more) rest = b'{' ∷ b'}' ∷ rest
  render (record_of (entry k t fs)) rest =
      b'{' ∷ b'"' ∷ k ++ (b'"' ∷ b':' ∷ render t (render_fields fs rest))

  pub render_more : Trees → Text → Text
  render_more none_left rest = b']' ∷ rest
  render_more (tree t ts) rest = b',' ∷ render t (render_more ts rest)

  pub render_fields : Fields → Text → Text
  render_fields no_more rest = b'}' ∷ rest
  render_fields (entry k t fs) rest =
      b',' ∷ b'"' ∷ k ++ (b'"' ∷ b':' ∷ render t (render_fields fs rest))

-- The value that the text denotes.
abbrev mutual
  pub value_of : Tree → Value
  value_of (text t) = string t
  value_of (digit n) = number (nat n)
  value_of (numeral n) = number (nat n)
  value_of nothing = null
  value_of (escaped t) = string t
  value_of (array ts) = array_value (values_of ts)
  value_of (record_of fs) = object standard (props_of fs end)

  pub values_of : Trees → List Value
  values_of none_left = []
  values_of (tree t ts) = value_of t ∷ values_of ts

  pub props_of : Fields → Props → Props
  props_of no_more ps = ps
  props_of (entry k t fs) ps = props_of fs (put (key_of k) (value_of t) ps)
