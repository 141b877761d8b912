-- ===== src/Messages/Admission/Audience.antt =====
-- `isCanonicalDeviceAudienceV1` and `validPath` of src/server/messaging-device-admission-v1.mjs.
-- `hostname` is that of `new URL(text)`, none where the constructor throws.
use hodlxxi_social.Prelude.{
  ℕ, Bool, true, false, not, ◌&&◌, ◌||◌, Option, none, some, List, [], ◌∷◌, ◌++◌, ◌==◌, leb,
  if◌then◌else◌, length, drop, all, ◌>>=◌, ◌>>◌, guard,
}
use hodlxxi_social.Js.Text.{Text, lit, ◌===◌, starts_with, in_range, is_digit, is_lower_hex}
use hodlxxi_social.Js.Parse.{digits_from}
use hodlxxi_social.Sessions.Store.Mobile.{split_dots}

-- [a-z0-9]
abbrev pub is_lower_alphanumeric : ℕ → Bool
is_lower_alphanumeric c = in_range b'a' b'z' c || is_digit c

-- [0-9a-f:] and [a-z0-9.-]
abbrev is_address_char : ℕ → Bool
is_address_char c = is_lower_hex c || c == b':'

abbrev is_host_char : ℕ → Bool
is_host_char c = is_lower_alphanumeric c || c == b'.' || c == b'-'

-- The longest part at the start whose code units pass, and the rest.
unfoldable pub span : (ℕ → Bool) → Text → Text × Text
span p [] = ([], [])
span p (c ∷ t) = elim (p c) [
  | true ↦ let (part, rest) = span p t in (c ∷ part, rest)
  | false ↦ ([], c ∷ t)
]

-- (?::([0-9]+))?$, answering the digits
unfoldable pub match_port : Text → Option (Option Text)
match_port [] = some none
match_port (c ∷ t) = if c == b':' && leb 1 (length t) && all is_digit t then some (some t) else none

-- What follows the address of \[[0-9a-f:]+\]
unfoldable pub match_address : Text → Text → Option (Text × Option Text)
unfolding match_port
match_address address [] = none
match_address address (c ∷ t) = do
  guard (c == b']' && leb 1 (length address))
  port ← match_port t
  some (b'[' ∷ address ++ (b']' ∷ []), port)

-- The host and the port of /^https:\/\/(\[[0-9a-f:]+\]|[a-z0-9.-]+)(?::([0-9]+))?$/
unfoldable pub match_audience : Text → Option (Text × Option Text)
unfolding starts_with span match_port match_address
match_audience t =
    let rest = drop 8 t in
    if not (starts_with t (lit "https://"))
    then none
    else if starts_with rest (lit "[")
    then match_address (span is_address_char (drop 1 rest)).0 (span is_address_char (drop 1 rest)).1
    else do
      guard (leb 1 (length (span is_host_char rest).0))
      port ← match_port (span is_host_char rest).1
      some ((span is_host_char rest).0, port)

-- /^[1-9][0-9]{0,4}$/, at most 65535, and not the default port
unfoldable pub is_port : Text → Bool
unfolding digits_from
is_port [] = false
is_port (c ∷ t) =
    in_range b'1' b'9' c
    && all is_digit t
    && leb (length t) 4
    && leb (digits_from 0 (c ∷ t)) 65_535
    && not (c ∷ t === lit "443")

abbrev port_passes : Option Text → Bool
port_passes none = true
port_passes (some p) = is_port p

-- /^(0|[1-9][0-9]{0,2})$/, at most 255
unfoldable pub is_octet : Text → Bool
unfolding digits_from
is_octet [] = false
is_octet (c ∷ t) =
    (c ∷ t === lit "0" || (in_range b'1' b'9' c && all is_digit t && leb (length t) 2))
    && leb (digits_from 0 (c ∷ t)) 255

abbrev is_number_text : Text → Bool
is_number_text t = leb 1 (length t) && all is_digit t

-- /^(?:[0-9]+|0x[0-9a-f]*)$/
unfoldable pub is_numeric_label : Text → Bool
unfolding starts_with
is_numeric_label t = is_number_text t || (starts_with t (lit "0x") && all is_lower_hex (drop 2 t))

abbrev last_label : List Text → Text
last_label [] = []
last_label (t ∷ []) = t
last_label (t ∷ u ∷ ts) = last_label (u ∷ ts)

abbrev last_char : Text → ℕ
last_char [] = b'-'
last_char (c ∷ []) = c
last_char (c ∷ d ∷ t) = last_char (d ∷ t)

-- /^[a-z0-9](?:[a-z0-9-]{0,61}[a-z0-9])?$/, and no IDN label
unfoldable pub is_label : Text → Bool
unfolding starts_with
is_label [] = false
is_label (c ∷ t) =
    is_lower_alphanumeric c
    && is_lower_alphanumeric (last_char (c ∷ t))
    && all (λ d. is_lower_alphanumeric d || d == b'-') t
    && leb (length t) 62
    && not (starts_with (c ∷ t) (lit "xn--"))

unfoldable pub is_dns_host : Text → Bool
unfolding split_dots is_octet is_numeric_label is_label
is_dns_host host =
    let labels = split_dots host in
    if length labels == 4 && all is_number_text labels
    then all is_octet labels
    else not (is_numeric_label (last_label labels)) && all is_label labels

abbrev is_hostname : Option Text → Text → Bool
is_hostname none host = false
is_hostname (some h) host = h === host

abbrev host_passes : (Text → Option Text) → Text → Text → Bool
host_passes hostname t host =
    if starts_with host (lit "[") then is_hostname (hostname t) host else is_dns_host host

abbrev match_passes : (Text → Option Text) → Text → Option (Text × Option Text) → Bool
match_passes hostname t none = false
match_passes hostname t (some m) = port_passes m.1 && host_passes hostname t m.0

unfoldable pub is_canonical_audience : (Text → Option Text) → Text → Bool
unfolding match_audience is_port is_dns_host starts_with
is_canonical_audience hostname t =
    leb (length t) 255 && all (in_range 0x21 0x7e) t && match_passes hostname t (match_audience t)

-- /^\/[a-z0-9]+(?:[/-][a-z0-9]+)*$/: `inside` says that a letter or digit came last.
unfoldable pub path_from : Bool → Text → Bool
path_from inside [] = inside
path_from true (c ∷ t) = elim (is_lower_alphanumeric c) [
  | true ↦ path_from true t
  | false ↦ elim (c == b'/' || c == b'-') [ true ↦ path_from false t | false ↦ false ]
]
path_from false (c ∷ t) = elim (is_lower_alphanumeric c) [ true ↦ path_from true t | false ↦ false ]

unfoldable pub is_path : Text → Bool
unfolding path_from
is_path [] = false
is_path (c ∷ t) = c == b'/' && path_from false t && leb (length (c ∷ t)) 160
