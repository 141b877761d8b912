-- ===== src/Js/Parse/Printed/Read.antt =====
-- What JSON.parse makes of a printed tree.
use hodlxxi_social.Prelude.{
  ℕ, Bool, ++_assoc, ++_nil, ◌≡◌, refl, sym, ap, ◌∙◌, some, List, [], ◌∷◌, ◌++◌, ◌>>=◌,
}
use hodlxxi_social.Js.Text.{Text}
use hodlxxi_social.Js.Value.{Number, Value, object, standard, Props, end}
use hodlxxi_social.Js.Record.Laws.{array_value}
use hodlxxi_social.Js.Parse.{
  Token, key_of, put, scan, Frame, items, members, any_value, first_item, next_item, next_member,
  after, begin, parse_token, parse_tokens, json_parse,
}
use hodlxxi_social.Js.Parse.Printed.{
  Tree, text, digit, numeral, nothing, escaped, array, record_of, Trees, none_left, tree, Fields,
  no_more, entry, is_printable, ArePlainOver, FieldsArePlainOver, FieldsArePlain, render, value_of,
  values_of, props_of,
}
use hodlxxi_social.Js.Parse.Printed.Scanned.{tokens, tokens_more, tokens_fields, scan_tree}

-- After `[` an item is read as after a comma.
first_item-tokens :
    (t : Tree) (fs : List Frame) (rest : List Token)
    → parse_tokens (first_item fs) (tokens t rest)
      ≡ parse_tokens (any_value (items [] ∷ fs)) (tokens t rest)
unfolding parse_tokens parse_token
first_item-tokens (text t) fs rest = refl
first_item-tokens (digit n) fs rest = refl
first_item-tokens (numeral n) fs rest = refl
first_item-tokens nothing fs rest = refl
first_item-tokens (escaped t) fs rest = refl
first_item-tokens (array none_left) fs rest = refl
first_item-tokens (array (tree t ts)) fs rest = refl
first_item-tokens (record_of no_more) fs rest = refl
first_item-tokens (record_of (entry k t ts)) fs rest = refl

mutual
  unfolding parse_tokens parse_token after begin

  read_tree :
      (t : Tree) (fs : List Frame) (rest : List Token)
      → parse_tokens (any_value fs) (tokens t rest) ≡ parse_tokens (after (value_of t) fs) rest
  read_tree (text t) fs rest = refl
  read_tree (digit n) fs rest = refl
  read_tree (numeral n) fs rest = refl
  read_tree nothing fs rest = refl
  read_tree (escaped t) fs rest = refl
  read_tree (array none_left) fs rest = refl
  read_tree (array (tree t ts)) fs rest =
      first_item-tokens t fs (tokens_more ts rest)
      ∙ read_tree t (items [] ∷ fs) (tokens_more ts rest)
      ∙ read_more ts (value_of t ∷ []) fs rest
  read_tree (record_of no_more) fs rest = refl
  read_tree (record_of (entry k t ms)) fs rest =
      read_tree t (members end k ∷ fs) (tokens_fields ms rest)
      ∙ read_fields ms (put (key_of k) (value_of t) end) fs rest

  read_more :
      (ts : Trees) (vs : List Value) (fs : List Frame) (rest : List Token)
      → parse_tokens (next_item vs fs) (tokens_more ts rest)
        ≡ parse_tokens (after (array_value (vs ++ values_of ts)) fs) rest
  read_more none_left vs fs rest =
      ap (λ ws. parse_tokens (after (array_value ws) fs) rest) (sym (++_nil vs))
  read_more (tree t ts) vs fs rest =
      read_tree t (items vs ∷ fs) (tokens_more ts rest)
      ∙ read_more ts (vs ++ (value_of t ∷ [])) fs rest
      ∙ ap (λ ws. parse_tokens (after (array_value ws) fs) rest)
          (++_assoc vs (value_of t ∷ []) (values_of ts))

  read_fields :
      (ms : Fields) (ps : Props) (fs : List Frame) (rest : List Token)
      → parse_tokens (next_member ps fs) (tokens_fields ms rest)
        ≡ parse_tokens (after (object standard (props_of ms ps)) fs) rest
  read_fields no_more ps fs rest = refl
  read_fields (entry k t ms) ps fs rest =
      read_tree t (members ps k ∷ fs) (tokens_fields ms rest)
      ∙ read_fields ms (put (key_of k) (value_of t) ps) fs rest

-- JSON.parse reads a printed object back as the value it denotes, and a printed array as its items,
-- whatever units their strings have.
json_parse-object :
    (real : Text → Number) (p : ℕ → Bool) (fs : Fields)
    → FieldsArePlainOver p fs
    → json_parse real (render (record_of fs) []) ≡ some (value_of (record_of fs))
unfolding json_parse scan parse_tokens after
json_parse-object real p fs h =
    ap (λ o. o >>= parse_tokens (any_value [])) (scan_tree real p (record_of fs) [] h tt)
    ∙ read_tree (record_of fs) [] []

pub json_parse-array :
    (real : Text → Number) (p : ℕ → Bool) (ts : Trees)
    → ArePlainOver p ts
    → json_parse real (render (array ts) []) ≡ some (array_value (values_of ts))
unfolding json_parse scan parse_tokens after
json_parse-array real p ts h =
    ap (λ o. o >>= parse_tokens (any_value [])) (scan_tree real p (array ts) [] h tt)
    ∙ read_tree (array ts) [] []

-- JSON.parse reads a printed object of printable strings back.
pub json_parse-render :
    (real : Text → Number) (fs : Fields)
    → FieldsArePlain fs
    → json_parse real (render (record_of fs) []) ≡ some (value_of (record_of fs))
json_parse-render real fs h = json_parse-object real is_printable fs h
