-- ===== src/Cookies/Tests.antt =====
-- The cookie of a session, written, sent back once, and sent twice.
use hodlxxi_social.Prelude.{◌≤◌, ◌≡◌, refl, true, none, some, ◌∷◌, ◌++◌, arith, length}
use hodlxxi_social.Js.Text.{Text, lit, includes, ◌===◌}
use hodlxxi_social.Js.Map
use hodlxxi_social.Js.Value.{string, number, nat}
use hodlxxi_social.Nostr.Json.{utf8}
use hodlxxi_social.Cookies.{
  session_cookie_name, sensitive_names, split, serialize_host_cookie, read_security_cookie,
  valid_name, is_cookie_octet_value,
}
use hodlxxi_social.Cookies.Headers.{in_header, read_security_cookie_once, read_security_cookie_back}

abbrev header : Text
header = lit "a=1; __Host-hodlxxi-social-session=abc; a=2"

written :
    serialize_host_cookie session_cookie_name (lit "abc") (number (nat 60))
    ≡ some (
        lit "__Host-hodlxxi-social-session=abc; Max-Age=60; Path=/; Secure; HttpOnly; SameSite=Lax")
unfolding serialize_host_cookie
written = refl

read_back : read_security_cookie (string header) session_cookie_name ≡ some (lit "abc")
unfolding read_security_cookie Map.has Map.set ◌===◌
read_back = refl

sent_twice :
    read_security_cookie
      (string (lit "__Host-hodlxxi-social-session=abc; __Host-hodlxxi-social-session=abd"))
      session_cookie_name
    ≡ none
unfolding read_security_cookie Map.has Map.set ◌===◌
sent_twice = refl

session_name_sensitive : includes sensitive_names session_cookie_name ≡ true
unfolding includes ◌===◌
session_name_sensitive = refl

read_security_cookie_once_example : in_header session_cookie_name (split b';' header) ≤ 1
read_security_cookie_once_example =
    read_security_cookie_once header session_cookie_name (lit "abc") session_name_sensitive
      read_back

read_security_cookie_back_example :
    read_security_cookie (string (session_cookie_name ++ (b'=' ∷ lit "abc"))) session_cookie_name
    ≡ some (lit "abc")
read_security_cookie_back_example =
    read_security_cookie_back session_cookie_name (lit "abc") valid octets small
  where
    valid : valid_name session_cookie_name ≡ true
    valid = unfold valid_name in refl

    octets : is_cookie_octet_value (lit "abc") ≡ true
    octets = unfold is_cookie_octet_value in refl

    small : length (utf8 (session_cookie_name ++ (b'=' ∷ lit "abc"))) ≤ 4096
    small = unfold utf8 in omega arith
