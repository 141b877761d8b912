-- ===== src/Js/Parse/Printed/Scanned.antt =====
-- What the scanner of JSON.parse makes of a printed tree.
use hodlxxi_social.Prelude.{
  all, ◌<◌, ℕ, Bool, ◌+◌, ◌≡◌, refl, ap, ◌∙◌, true, Option, some, List, [], ◌∷◌, ◌++◌, arith,
}
use hodlxxi_social.Js.Text.{Text, lit, ◌===◌}
use hodlxxi_social.Js.Value.{Number, nat, number, null}
use hodlxxi_social.Js.Parse.{
  Token, left_brace, right_brace, left_bracket, right_bracket, comma, colon, phrase, plain, between,
  is_literal, scan_between, literal_value, number_of, numeral_from, digits_from, scan,
}
use hodlxxi_social.Js.Parse.Printed.{
  Tree, text, digit, numeral, nothing, escaped, array, record_of, Trees, none_left, tree, Fields,
  no_more, entry, IsShown, IsPlainOver, ArePlainOver, FieldsArePlainOver, render, render_more,
  render_fields,
}
use hodlxxi_social.Nostr.Json.{decimal}
use hodlxxi_social.Js.Parse.Decimals.{literal_value-decimal, decimal_literal}
use hodlxxi_social.Js.Parse.Quoting.{scan_quoted}
use hodlxxi_social.Js.Parse.Scanning.{
  IsEnded, also, also-also, after_also, scan_literal, scan_quote, scan_mark,
}

-- The tokens of a tree, then `rest`.
abbrev mutual
  pub tokens : Tree → List Token → List Token
  tokens (text t) rest = phrase t ∷ rest
  tokens (digit n) rest = plain (number (nat n)) ∷ rest
  tokens (numeral n) rest = plain (number (nat n)) ∷ rest
  tokens nothing rest = plain null ∷ rest
  tokens (escaped t) rest = phrase t ∷ rest
  tokens (array none_left) rest = left_bracket ∷ right_bracket ∷ rest
  tokens (array (tree t ts)) rest = left_bracket ∷ tokens t (tokens_more ts rest)
  tokens (record_of no_more) rest = left_brace ∷ right_brace ∷ rest
  tokens (record_of (entry k t fs)) rest =
      left_brace ∷ phrase k ∷ colon ∷ tokens t (tokens_fields fs rest)

  pub tokens_more : Trees → List Token → List Token
  tokens_more none_left rest = right_bracket ∷ rest
  tokens_more (tree t ts) rest = comma ∷ tokens t (tokens_more ts rest)

  pub tokens_fields : Fields → List Token → List Token
  tokens_fields no_more rest = right_brace ∷ rest
  tokens_fields (entry k t fs) rest = comma ∷ phrase k ∷ colon ∷ tokens t (tokens_fields fs rest)

-- A digit has to end before the rest; the other trees bring their own end.
abbrev pub Follows : Tree → Text → Type 0
Follows (digit n) rest = IsEnded rest
Follows (numeral n) rest = IsEnded rest
Follows nothing rest = IsEnded rest
Follows _ rest = Unit

module _ (real : Text → Number) where
  literal_null : Unit {0} → literal_value real (lit "null") ≡ some null
  unfolding literal_value ◌===◌
  literal_null u = refl

  is_literal_digit : (n : ℕ) → n < 10 → all is_literal ((b'0' + n) ∷ []) ≡ true
  is_literal_digit n h = ground arith

  literal_digit : (n : ℕ) → n < 10 → literal_value real ((b'0' + n) ∷ []) ≡ some (number (nat n))
  unfolding literal_value ◌===◌ numeral_from number_of digits_from
  literal_digit n h = ground arith

  -- A mark before what is scanned by `f` before the rest.
  scan_mark_before :
      (c : ℕ) (k : Token) (t : Text) (f : List Token → List Token) (o : Option (List Token))
      → scan_between real c ≡ some (k ∷ [], between)
      → scan real between t ≡ also f o
      → scan real between (c ∷ t) ≡ also (λ ks. k ∷ f ks) o
  scan_mark_before c k t f o h e =
      scan_mark real c k t h ∙ ap (also (◌∷◌ k)) e ∙ also-also (◌∷◌ k) f o

  scan_key_before :
      (name t : Text) (f : List Token → List Token) (o : Option (List Token))
      → IsShown name
      → scan real between t ≡ also f o
      → scan real between (b'"' ∷ name ++ (b'"' ∷ b':' ∷ t))
        ≡ also (λ ks. phrase name ∷ colon ∷ f ks) o
  scan_key_before name t f o h e =
      scan_quote real name (b':' ∷ t) h
      ∙ ap (also (◌∷◌ (phrase name)))
          (scan_mark_before b':' colon t f o (unfold scan_between in refl) e)
      ∙ also-also (◌∷◌ (phrase name)) (λ ks. colon ∷ f ks) o

  IsEnded-Follows : (t : Tree) (rest : Text) → IsEnded rest → Follows t rest
  IsEnded-Follows (digit n) rest e = e
  IsEnded-Follows (numeral n) rest e = e
  IsEnded-Follows nothing rest e = e
  IsEnded-Follows (escaped t) rest e = tt
  IsEnded-Follows (text t) rest e = tt
  IsEnded-Follows (array ts) rest e = tt
  IsEnded-Follows (record_of fs) rest e = tt

  render_more-IsEnded : (ts : Trees) (rest : Text) → IsEnded (render_more ts rest)
  render_more-IsEnded none_left rest = refl
  render_more-IsEnded (tree t ts) rest = refl

  render_fields-IsEnded : (fs : Fields) (rest : Text) → IsEnded (render_fields fs rest)
  render_fields-IsEnded no_more rest = refl
  render_fields-IsEnded (entry k t fs) rest = refl

  mutual
    unfolding scan_between

    pub scan_tree :
        (p : ℕ → Bool) (t : Tree) (rest : Text)
        → IsPlainOver p t
        → Follows t rest
        → scan real between (render t rest) ≡ also (tokens t) (scan real between rest)
    scan_tree p (text t) rest h e = scan_quote real t rest h
    scan_tree p (digit n) [] h e = absurd e
    scan_tree p (digit n) (c ∷ rest) h e =
        scan_literal real ((b'0' + n) ∷ []) (number (nat n)) c rest (is_literal_digit n h)
          (literal_digit n h) e
    scan_tree p (numeral n) [] h e = absurd e
    scan_tree p (numeral n) (c ∷ rest) h e =
        scan_literal real (decimal n) (number (nat n)) c rest (decimal_literal n)
          (literal_value-decimal real n h) e
    scan_tree p nothing [] h e = absurd e
    scan_tree p nothing (c ∷ rest) h e =
        scan_literal real (lit "null") null c rest refl (literal_null tt) e
    scan_tree p (escaped t) rest h e = scan_quoted real t rest
    scan_tree p (array none_left) rest h e =
        scan_mark_before b'[' left_bracket (b']' ∷ rest) (◌∷◌ right_bracket) _ refl
          (scan_mark real b']' right_bracket rest refl)
    scan_tree p (array (tree t ts)) rest (h, hs) e = scan_mark_before b'[' left_bracket _ _ _ refl (
        after_also (tokens t) (tokens_more ts) _ _ _
          (scan_tree p t (render_more ts rest) h
            (IsEnded-Follows t _ (render_more-IsEnded ts rest)))
          (scan_more p ts rest hs))
    scan_tree p (record_of no_more) rest h e =
        scan_mark_before b'{' left_brace (b'}' ∷ rest) (◌∷◌ right_brace) _ refl
          (scan_mark real b'}' right_brace rest refl)
    scan_tree p (record_of (entry k t fs)) rest (hk, h, hs) e =
        scan_mark_before b'{' left_brace _ _ _ refl (
          scan_key_before k _ _ _ hk (
            after_also (tokens t) (tokens_fields fs) _ _ _
              (scan_tree p t (render_fields fs rest) h
                (IsEnded-Follows t _ (render_fields-IsEnded fs rest)))
              (scan_fields p fs rest hs)))

    scan_more :
        (p : ℕ → Bool) (ts : Trees) (rest : Text)
        → ArePlainOver p ts
        → scan real between (render_more ts rest) ≡ also (tokens_more ts) (scan real between rest)
    scan_more p none_left rest h = scan_mark real b']' right_bracket rest refl
    scan_more p (tree t ts) rest (h, hs) = scan_mark_before b',' comma _ _ _ refl (
        after_also (tokens t) (tokens_more ts) _ _ _
          (scan_tree p t (render_more ts rest) h
            (IsEnded-Follows t _ (render_more-IsEnded ts rest)))
          (scan_more p ts rest hs))

    scan_fields :
        (p : ℕ → Bool) (fs : Fields) (rest : Text)
        → FieldsArePlainOver p fs
        → scan real between (render_fields fs rest)
          ≡ also (tokens_fields fs) (scan real between rest)
    scan_fields p no_more rest h = scan_mark real b'}' right_brace rest refl
    scan_fields p (entry k t fs) rest (hk, h, hs) = scan_mark_before b',' comma _ _ _ refl (
        scan_key_before k _ _ _ hk (
          after_also (tokens t) (tokens_fields fs) _ _ _
            (scan_tree p t (render_fields fs rest) h
              (IsEnded-Follows t _ (render_fields-IsEnded fs rest)))
            (scan_fields p fs rest hs)))
