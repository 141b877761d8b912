-- ===== src/Capability/Syntax.antt =====
-- The constants and the syntax checks of src/server/opaque-recipient-capability.mjs.
pub mod Aliases
use hodlxxi_social.Prelude.{
  ℕ, Bool, true, false, not, ◌&&◌, ◌||◌, Option, none, some, List, [], ◌∷◌, map, ◌==◌, leb, length,
  take, drop, all, any, when, ◌>>=◌, ◌>>◌, guard,
}
use hodlxxi_social.Js.Text.{
  Text, lit, ◌===◌, includes, starts_with, in_range, is_digit, is_lower_hex, is_alphanumeric,
  is_base64url_char, to_lower,
}
use hodlxxi_social.Js.Value.{Value, as_string}
use hodlxxi_social.Js.Record.{exact_record, property, dense_data_array}

abbrev pub direct_message : Text
direct_message = lit "direct-message"

abbrev pub default_ttl_ms : ℕ
default_ttl_ms = 60_000

abbrev pub max_ttl_ms : ℕ
max_ttl_ms = 300_000

abbrev pub max_capabilities : ℕ
max_capabilities = 4096

abbrev pub default_per_session : ℕ
default_per_session = 16

abbrev pub max_per_session : ℕ
max_per_session = 256

abbrev pub default_per_subject : ℕ
default_per_subject = 64

abbrev pub max_per_subject : ℕ
max_per_subject = 1024

-- /^[0-9a-f]{64}$/
unfoldable pub is_subject : Text → Bool
is_subject t = length t == 64 && all is_lower_hex t

-- /^[A-Za-z0-9_-]{43}$/
unfoldable pub is_session_id : Text → Bool
is_session_id t = length t == 43 && all is_base64url_char t

-- /^[A-Za-z0-9._~-]{1,128}$/
unfoldable pub is_alias_text : Text → Bool
is_alias_text t =
    leb 1 (length t)
    && leb (length t) 128
    && all (λ c. is_alphanumeric c || c == b'.' || c == b'_' || c == b'~' || c == b'-') t

-- /^rc_[A-Za-z0-9_-]{43}$/
unfoldable pub is_capability : Text → Bool
unfolding starts_with
is_capability t = starts_with t (lit "rc_") && length t == 46 && all is_base64url_char (drop 3 t)

abbrev pub unsafe_prefixes : List Text
unsafe_prefixes = map lit (
    "npub1" ∷ "nprofile1" ∷ "nsec1" ∷ "xpub" ∷ "tpub" ∷ "ypub" ∷ "zpub" ∷ "vpub" ∷ "xprv" ∷ "tprv"
    ∷ "yprv" ∷ "zprv" ∷ "vprv" ∷ "bc1" ∷ "tb1" ∷ [])

-- The first alternative is 64 hexadecimal digits, the flag `i` folds the case, and there is no `$`.
unfoldable pub is_unsafe_alias : Text → Bool
unfolding starts_with
is_unsafe_alias t =
    let folded = map to_lower t in
    (leb 64 (length t) && all is_lower_hex (take 64 folded))
    || any (starts_with folded) unsafe_prefixes

-- [a-km-zA-HJ-NP-Z1-9]
abbrev pub is_base58 : ℕ → Bool
is_base58 c =
    in_range b'a' b'k' c
    || in_range b'm' b'z' c
    || in_range b'A' b'H' c
    || in_range b'J' b'N' c
    || in_range b'P' b'Z' c
    || in_range b'1' b'9' c

-- /^(?:[13][…]{25,34}|[mn2][…]{25,34})$/
unfoldable pub is_bitcoin_address : Text → Bool
is_bitcoin_address [] = false
is_bitcoin_address (c ∷ t) =
    (c == b'1' || c == b'3' || c == b'm' || c == b'n' || c == b'2')
    && leb 25 (length t)
    && leb (length t) 34
    && all is_base58 t

-- /^\d{7,15}$/
unfoldable pub is_phone_like : Text → Bool
is_phone_like t = leb 7 (length t) && leb (length t) 15 && all is_digit t

unfoldable pub is_safe_alias : Text → Bool
unfolding is_alias_text is_unsafe_alias is_bitcoin_address is_phone_like
is_safe_alias t =
    is_alias_text t
    && not (is_unsafe_alias t)
    && not (is_bitcoin_address t)
    && not (is_phone_like t)
    && not (any (λ c. c == b'@') t)

unfoldable pub canonical_subject : Value → Option Text
canonical_subject v = do t ← as_string v; when (is_subject t) (some t)

unfoldable pub canonical_session_id : Value → Option Text
canonical_session_id v = do t ← as_string v; when (is_session_id t) (some t)

unfoldable pub privacy_safe_alias : Value → Option Text
privacy_safe_alias v = do t ← as_string v; when (is_safe_alias t) (some t)

-- The loop over the items; `seen` holds the aliases so far.
unfoldable pub collect_aliases : List Text → List Value → Option (List Text)
unfolding privacy_safe_alias exact_record property
collect_aliases seen [] = some []
collect_aliases seen (item ∷ items) = do
  alias ← privacy_safe_alias (property (exact_record item (lit "alias" ∷ [])) (lit "alias"))
  guard (not (includes seen alias))
  rest ← collect_aliases (alias ∷ seen) items
  some (alias ∷ rest)

unfoldable pub normalize_current_aliases : Value → Option (List Text)
unfolding dense_data_array collect_aliases
normalize_current_aliases v = do
  items ← dense_data_array v
  guard (leb (length items) max_capabilities)
  collect_aliases [] items
