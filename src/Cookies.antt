-- ===== src/Cookies.antt =====
-- src/server/social-oauth-cookie.mjs: the cookies of the session and of a login, written and read.
-- `none` is a TypeError; the reading of a header turns it into no cookie.
mod Headers
mod Tests
use hodlxxi_social.Prelude.{
  ℕ, ◌+◌, ◌-◌, Bool, true, false, not, ◌&&◌, ◌||◌, Option, none, some, List, [], ◌∷◌, ◌++◌, map,
  ◌==◌, leb, length, all, any, when, ◌>>=◌, ◌>>◌, guard, if◌then◌else◌,
}
use hodlxxi_social.Js.Text.{Text, lit, includes, starts_with, in_range, is_alphanumeric}
use hodlxxi_social.Js.Map
use hodlxxi_social.Js.Value.{Value, undefined, null, string, safe_natural}
use hodlxxi_social.Nostr.Json.{utf8, decimal}

abbrev pub transaction_cookie_name : Text
transaction_cookie_name = lit "__Host-hodlxxi-social-oauth"

abbrev pub session_cookie_name : Text
session_cookie_name = lit "__Host-hodlxxi-social-session"

abbrev pub max_cookie_header_bytes : ℕ
max_cookie_header_bytes = 4096

abbrev pub cookie_octet : ℕ → Bool
cookie_octet c =
    c == 0x21
    || in_range 0x23 0x2b c
    || in_range 0x2d 0x3a c
    || in_range 0x3c 0x5b c
    || in_range 0x5d 0x7e c

unfoldable pub is_cookie_octet_value : Text → Bool
is_cookie_octet_value [] = false
is_cookie_octet_value (c ∷ t) = all cookie_octet (c ∷ t)

-- [!#$%&'*+\-.^_`|~0-9A-Za-z]
abbrev pub is_name_char : ℕ → Bool
is_name_char c =
    is_alphanumeric c
    || c == 0x21
    || in_range 0x23 0x27 c
    || c == 0x2a
    || c == 0x2b
    || c == 0x2d
    || c == 0x2e
    || in_range 0x5e 0x60 c
    || c == 0x7c
    || c == 0x7e

unfoldable pub valid_name : Text → Bool
valid_name [] = false
valid_name (c ∷ t) = all is_name_char (c ∷ t)

unfoldable pub serialize_host_cookie : Text → Text → Value → Option Text
unfolding starts_with valid_name is_cookie_octet_value decimal
serialize_host_cookie name value max_age = do
  guard (starts_with name (lit "__Host-") && valid_name name && is_cookie_octet_value value)
  age ← safe_natural max_age
  guard (leb age 86_400)
  some (
      name
      ++ lit "="
      ++ value
      ++ lit "; Max-Age="
      ++ decimal age
      ++ lit "; Path=/; Secure; HttpOnly; SameSite=Lax")

unfoldable pub expire_host_cookie : Text → Option Text
unfolding starts_with valid_name
expire_host_cookie name =
    when (starts_with name (lit "__Host-") && valid_name name)
      (some (name ++ lit "=; Max-Age=0; Path=/; Secure; HttpOnly; SameSite=Lax"))

abbrev pub cons_first : ℕ → List Text → List Text
cons_first c [] = (c ∷ []) ∷ []
cons_first c (t ∷ ts) = (c ∷ t) ∷ ts

-- header.split(";")
unfoldable pub split : ℕ → Text → List Text
split sep [] = [] ∷ []
split sep (c ∷ t) = let rest = split sep t in if c == sep then [] ∷ rest else cons_first c rest

-- .replace(/^[ \t]+/, "")
unfoldable pub strip_blanks : Text → Text
strip_blanks [] = []
strip_blanks (c ∷ t) = let rest = strip_blanks t in if c == 0x20 || c == 9 then rest else c ∷ t

abbrev pub cons_name : ℕ → Option (Text × Text) → Option (Text × Text)
cons_name c none = none
cons_name c (some (name, value)) = some (c ∷ name, value)

-- What stands before and after the first "=".
unfoldable pub split_pair : Text → Option (Text × Text)
split_pair [] = none
split_pair (c ∷ t) = let rest = split_pair t in if c == b'=' then some ([], t) else cons_name c rest

-- A pair is added unless the name is there already; one that is sensitive must not be. An "=" that is
-- absent or first makes an empty name, which is no valid name.
unfoldable pub add_pair : List Text → Text → List (Text × Text) → Option (List (Text × Text))
unfolding split_pair valid_name is_cookie_octet_value includes
add_pair sensitive piece result = do
  pair ← split_pair piece
  guard (valid_name pair.0 && is_cookie_octet_value pair.1)
  guard (not (Map.has result pair.0 && includes sensitive pair.0))
  some (if Map.has result pair.0 then result else Map.set result pair.0 pair.1)

-- The pairs after the first one.
unfoldable pub add_pairs : List Text → List Text → List (Text × Text) → Option (List (Text × Text))
unfolding add_pair strip_blanks
add_pairs sensitive [] result = some result
add_pairs sensitive (piece ∷ pieces) result = do
  next ← add_pair sensitive (strip_blanks piece) result
  add_pairs sensitive pieces next

unfoldable pub parse_pieces : List Text → List Text → Option (List (Text × Text))
unfolding add_pairs
parse_pieces sensitive [] = some []
parse_pieces sensitive (piece ∷ pieces) = do
  next ← add_pair sensitive piece []
  add_pairs sensitive pieces next

unfoldable pub parse_cookie_header : List Text → Value → Option (List (Text × Text))
unfolding split parse_pieces utf8
parse_cookie_header sensitive undefined = some []
parse_cookie_header sensitive null = some []
parse_cookie_header sensitive (string []) = some []
parse_cookie_header sensitive (string (c ∷ t)) =
    when (leb (length (utf8 (c ∷ t))) max_cookie_header_bytes)
      (parse_pieces sensitive (split b';' (c ∷ t)))
parse_cookie_header sensitive _ = none

abbrev pub sensitive_names : List Text
sensitive_names = transaction_cookie_name ∷ session_cookie_name ∷ []

unfoldable pub read_security_cookie : Value → Text → Option Text
unfolding parse_cookie_header Map.get
read_security_cookie header name = do
  cookies ← parse_cookie_header sensitive_names header
  Map.get cookies name
