-- ===== src/Capability/Random.antt =====
-- `base64url` and `randomCapability` of src/server/opaque-recipient-capability.mjs.
pub mod Decoding
use hodlxxi_social.Prelude.{
  ℕ, zero, suc, ◌+◌, ◌-◌, ◌*◌, ◌/◌, ◌%◌, Bool, true, false, Option, none, some, List, [], ◌∷◌, ◌++◌,
  map, ◌==◌, ltb, if◌then◌else◌, length, when, ◌>>=◌,
}
use hodlxxi_social.Js.Text.{Text, lit}
use hodlxxi_social.Capability.Syntax.{is_capability}

-- The digits of Buffer's "base64": A-Z a-z 0-9 + /
unfoldable pub base64_digit : ℕ → ℕ
base64_digit n =
    if ltb n 26
    then b'A' + n
    else if ltb n 52
    then b'a' + (n - 26)
    else if ltb n 62
    then b'0' + (n - 52)
    else if n == 62
    then b'+'
    else b'/'

-- Buffer.from(bytes).toString("base64"), padded by "="
unfoldable pub base64 : List ℕ → Text
unfolding base64_digit
base64 [] = []
base64 (a ∷ []) = base64_digit (a / 4) ∷ base64_digit (a % 4 * 16) ∷ b'=' ∷ b'=' ∷ []
base64 (a ∷ b ∷ []) =
    base64_digit (a / 4)
    ∷ base64_digit (a % 4 * 16 + b / 16)
    ∷ base64_digit (b % 16 * 4)
    ∷ b'='
    ∷ []
base64 (a ∷ b ∷ c ∷ rest) =
    base64_digit (a / 4)
    ∷ base64_digit (a % 4 * 16 + b / 16)
    ∷ base64_digit (b % 16 * 4 + c / 64)
    ∷ base64_digit (c % 64)
    ∷ base64 rest

-- .replaceAll(from, to)
abbrev pub replace_all : ℕ → ℕ → Text → Text
replace_all from to = map (λ c. if c == from then to else c)

abbrev pub cons_unless_end : ℕ → Text → Text
cons_unless_end c [] = if c == b'=' then [] else c ∷ []
cons_unless_end c (d ∷ t) = c ∷ d ∷ t

-- .replace(/=+$/u, "")
unfoldable pub strip_padding : Text → Text
strip_padding [] = []
strip_padding (c ∷ t) = cons_unless_end c (strip_padding t)

unfoldable pub base64url : List ℕ → Text
unfolding base64 strip_padding
base64url bytes = strip_padding (replace_all b'/' b'_' (replace_all b'+' b'-' (base64 bytes)))

-- What `random(32)` answers: it may throw, or answer something else than a byte array.
pub data Drawn : Type 0 where
  throws not_bytes : Drawn
  bytes : List ℕ → Drawn

unfoldable pub random_capability : Drawn → Option Text
random_capability throws = none
random_capability not_bytes = none
random_capability (bytes bs) = when (length bs == 32) (
    let capability = lit "rc_" ++ base64url bs in when (is_capability capability) (some capability))
