-- ===== src/Cookies/Headers.antt =====
-- Cookie headers and what src/server/social-oauth-cookie.mjs reads from them.
use mathlib.Core.Option.{some-injective}
use hodlxxi_social.Prelude.{
  ℕ, ◌+◌, ◌≤◌, ◌≡◌, refl, ap, ◌∙◌, subst, Bool, true, false, not, ◌&&◌, Option, none, some, List,
  [], ◌∷◌, ◌++◌, ◌==◌, leb, length, all, any, when, ◌>>=◌, guard, if◌then◌else◌, arith, >>=-eq-some,
  guard-eq-some, when-eq-some,
}
use hodlxxi_social.Js.Text.{Text, includes, ◌===◌, ===_self, ===_iff}
use hodlxxi_social.Js.Map
use hodlxxi_social.Js.Map.Laws.{has-set}
use hodlxxi_social.Js.Value.{string}
use hodlxxi_social.Nostr.Json.{utf8}
use hodlxxi_social.Cookies.{
  cookie_octet, is_cookie_octet_value, is_name_char, valid_name, split, strip_blanks, split_pair,
  add_pair, add_pairs, parse_pieces, parse_cookie_header, sensitive_names, read_security_cookie,
  max_cookie_header_bytes,
}

abbrev pub is_named : Text → Option (Text × Text) → ℕ
is_named name none = 0
is_named name (some pair) = if pair.0 === name then 1 else 0

-- How many of the pieces of a header carry a name; the blanks before a later piece do not count.
abbrev pub carries : Text → Text → ℕ
carries name piece = is_named name (split_pair piece)

abbrev pub carried : Text → List Text → ℕ
carried name [] = 0
carried name (piece ∷ pieces) = carries name (strip_blanks piece) + carried name pieces

abbrev pub in_header : Text → List Text → ℕ
in_header name [] = 0
in_header name (piece ∷ pieces) = carries name piece + carried name pieces

abbrev pub held : Text → List (Text × Text) → ℕ
held name result = if Map.has result name then 1 else 0

pair_held :
    (sensitive : List Text) (name key value : Text) (result : List (Text × Text))
    → includes sensitive name ≡ true
    → not (Map.has result key && includes sensitive key) ≡ true
    → (if key === name then 1 else 0) + held name result
      ≡ held name (if Map.has result key then result else Map.set result key value)
pair_held sensitive name key value result s once =
    ground
      (arith, s, once, ===_iff key name, has-set result key name value, same_sensitive, same_has)
  where
    same_sensitive : (key === name) ≡ true → includes sensitive key ≡ includes sensitive name
    same_sensitive e = ap (includes sensitive) ((===_iff key name).0 e)

    same_has : (key === name) ≡ true → Map.has result key ≡ Map.has result name
    same_has e = ap (Map.has result) ((===_iff key name).0 e)

add_pair-held :
    (sensitive : List Text) (name piece : Text) (result next : List (Text × Text))
    → includes sensitive name ≡ true
    → add_pair sensitive piece result ≡ some next
    → carries name piece + held name result ≡ held name next
unfolding add_pair
add_pair-held sensitive name piece result next s h =
    let (pair, e, h1) = >>=-eq-some (split_pair piece) _ h in
    let (u, valid, h2) =
      >>=-eq-some (guard (valid_name pair.0 && is_cookie_octet_value pair.1)) _ h1 in
    let (w, once, h3) =
      >>=-eq-some (guard (not (Map.has result pair.0 && includes sensitive pair.0))) _ h2 in
    subst (λ r. carries name piece + held name result ≡ held name r) (some-injective _ _ h3)
      (ap (λ o. is_named name o + held name result) e
        ∙ pair_held sensitive name pair.0 pair.1 result s
            (guard-eq-some (not (Map.has result pair.0 && includes sensitive pair.0)) once))

add_pairs-held :
    (sensitive : List Text) (name : Text) (pieces : List Text) (result next : List (Text × Text))
    → includes sensitive name ≡ true
    → add_pairs sensitive pieces result ≡ some next
    → carried name pieces + held name result ≡ held name next
unfolding add_pairs
add_pairs-held sensitive name [] result next s h =
    omega (arith, ap (held name) (some-injective _ _ h))
add_pairs-held sensitive name (piece ∷ pieces) result next s h =
    let (middle, e, h1) = >>=-eq-some (add_pair sensitive (strip_blanks piece) result) _ h in
    omega (
      arith,
      add_pair-held sensitive name (strip_blanks piece) result middle s e,
      add_pairs-held sensitive name pieces middle next s h1,
    )

split_none : (sep : ℕ) (t : Text) → any (λ c. c == sep) t ≡ false → split sep t ≡ t ∷ []
unfolding split
split_none sep [] h = refl
split_none sep (c ∷ t) h = ground (arith, split_none sep t)

split_pair-append :
    (name value : Text)
    → any (λ c. c == b'=') name ≡ false
    → split_pair (name ++ (b'=' ∷ value)) ≡ some (name, value)
unfolding split_pair
split_pair-append [] value h = refl
split_pair-append (c ∷ name) value h = ground (arith, split_pair-append name value)

held-le : (name : Text) (result : List (Text × Text)) → held name result ≤ 1
held-le name result = ground arith

parse_pieces-held :
    (name : Text) (pieces : List Text) (cookies : List (Text × Text))
    → includes sensitive_names name ≡ true
    → parse_pieces sensitive_names pieces ≡ some cookies
    → in_header name pieces ≤ 1
unfolding parse_pieces
parse_pieces-held name [] cookies s h = omega arith
parse_pieces-held name (piece ∷ pieces) cookies s h =
    let (first, e, h1) = >>=-eq-some (add_pair sensitive_names piece []) _ h in
    omega (
      arith,
      held-le name cookies,
      add_pair-held sensitive_names name piece [] first s e,
      add_pairs-held sensitive_names name pieces first cookies s h1,
    )

-- A cookie of a sensitive name, that of the session or of a login, is read only from a header in which
-- at most one pair has that name: none is read from a header that carries two.
pub read_security_cookie_once :
    (header name value : Text)
    → includes sensitive_names name ≡ true
    → read_security_cookie (string header) name ≡ some value
    → in_header name (split b';' header) ≤ 1
unfolding read_security_cookie parse_cookie_header
read_security_cookie_once [] name value s h = omega arith
read_security_cookie_once (c ∷ t) name value s h =
    let (cookies, e, h1) = >>=-eq-some (parse_cookie_header sensitive_names (string (c ∷ t))) _ h in
    let (small, parsed) =
      when-eq-some (leb (length (utf8 (c ∷ t))) max_cookie_header_bytes)
        (parse_pieces sensitive_names (split b';' (c ∷ t))) e in
    parse_pieces-held name (split b';' (c ∷ t)) cookies s parsed

no_char :
    (p q : ℕ → Bool) (t : Text)
    → ((c : ℕ) → p c ≡ true → q c ≡ false)
    → all p t ≡ true
    → any q t ≡ false
no_char p q [] f h = refl
no_char p q (c ∷ t) f h = ground (arith, f c, no_char p q t f)

any-append :
    (q : ℕ → Bool) (s t : Text) → any q s ≡ false → any q t ≡ false → any q (s ++ t) ≡ false
any-append q [] t h k = k
any-append q (c ∷ s) t h k = ground (arith, any-append q s t)

name_char_plain : (c : ℕ) → is_name_char c ≡ true → (c == b';') ≡ false
name_char_plain c h = ground arith

name_char_no_equals : (c : ℕ) → is_name_char c ≡ true → (c == b'=') ≡ false
name_char_no_equals c h = ground arith

octet_plain : (c : ℕ) → cookie_octet c ≡ true → (c == b';') ≡ false
octet_plain c h = ground arith

all-valid_name : (t : Text) → valid_name t ≡ true → all is_name_char t ≡ true
unfolding valid_name
all-valid_name [] h = refl
all-valid_name (c ∷ t) h = h

octets_all : (t : Text) → is_cookie_octet_value t ≡ true → all cookie_octet t ≡ true
unfolding is_cookie_octet_value
octets_all [] h = refl
octets_all (c ∷ t) h = h

one_pair :
    (name value : Text)
    → valid_name name ≡ true
    → is_cookie_octet_value value ≡ true
    → parse_pieces sensitive_names (split b';' (name ++ (b'=' ∷ value))) ≡ some ((name, value) ∷ [])
unfolding parse_pieces add_pair add_pairs Map.has Map.set
one_pair name value hn hv =
    rw
      (
        split_none b';' (name ++ (b'=' ∷ value)) plain,
        split_pair-append name value (
            no_char is_name_char (λ c. c == b'=') name name_char_no_equals
              (all-valid_name name hn)),
        hn,
        hv,
      )
      refl
  where
    plain : any (λ c. c == b';') (name ++ (b'=' ∷ value)) ≡ false
    plain =
        any-append (λ c. c == b';') name (b'=' ∷ value)
          (no_char is_name_char (λ c. c == b';') name name_char_plain (all-valid_name name hn))
          (no_char cookie_octet (λ c. c == b';') value octet_plain (octets_all value hv))

leb_complete : (a b : ℕ) → a ≤ b → leb a b ≡ true
leb_complete a b h = ground arith

parsed_pair :
    (name value : Text)
    → valid_name name ≡ true
    → is_cookie_octet_value value ≡ true
    → length (utf8 (name ++ (b'=' ∷ value))) ≤ max_cookie_header_bytes
    → parse_cookie_header sensitive_names (string (name ++ (b'=' ∷ value)))
      ≡ some ((name, value) ∷ [])
unfolding parse_cookie_header valid_name
parsed_pair [] value hn hv small = cc
parsed_pair (c ∷ name) value hn hv small =
    ap (λ b. when b (parse_pieces sensitive_names (split b';' (c ∷ (name ++ (b'=' ∷ value))))))
      (leb_complete (length (utf8 (c ∷ (name ++ (b'=' ∷ value))))) max_cookie_header_bytes small)
    ∙ one_pair (c ∷ name) value hn hv

-- A cookie of a valid name and value that comes back alone, as name=value within 4096 bytes, is read
-- as it was written.
pub read_security_cookie_back :
    (name value : Text)
    → valid_name name ≡ true
    → is_cookie_octet_value value ≡ true
    → length (utf8 (name ++ (b'=' ∷ value))) ≤ max_cookie_header_bytes
    → read_security_cookie (string (name ++ (b'=' ∷ value))) name ≡ some value
unfolding read_security_cookie Map.get
read_security_cookie_back name value hn hv small =
    ap (λ o. o >>= λ cookies. Map.get cookies name) (parsed_pair name value hn hv small)
    ∙ ap (λ b. if b then some value else none) (===_self name)
