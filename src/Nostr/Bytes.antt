-- ===== src/Nostr/Bytes.antt =====
-- The conversions of web/nostr-event-verifier.mjs between bytes, numbers and hexadecimal text.
pub mod Hex
use hodlxxi_social.Prelude.{
  ℕ, zero, suc, ◌+◌, ◌-◌, ◌*◌, ◌/◌, ◌%◌, Bool, true, false, ◌&&◌, ◌||◌, Option, none, some, List,
  [], ◌∷◌, ◌++◌, ◌==◌, ltb, leb, if◌then◌else◌, length, all, when,
}
use hodlxxi_social.Js.Text.{Text, is_digit, is_lower_hex, in_range}

-- The loop of `bytesToBigInt` from the value so far; the shifted value's low byte is zero, so `|`
-- adds.
unfoldable pub bytes_from : ℕ → List ℕ → ℕ
bytes_from value [] = value
bytes_from value (byte ∷ bytes) = bytes_from (value * 256 + byte) bytes

abbrev pub bytes_to_bigint : List ℕ → ℕ
bytes_to_bigint bytes = bytes_from 0 bytes

-- A digit of `toString(16)`.
unfoldable pub hex_digit : ℕ → ℕ
hex_digit n = if ltb n 10 then b'0' + n else b'a' + (n - 10)

-- Two digits for each byte, by `padStart(2, "0")`.
unfoldable pub bytes_to_hex : List ℕ → Text
unfolding hex_digit
bytes_to_hex [] = []
bytes_to_hex (byte ∷ bytes) = hex_digit (byte / 16) ∷ hex_digit (byte % 16) ∷ bytes_to_hex bytes

-- [0-9a-fA-F]
unfoldable pub is_hex : ℕ → Bool
is_hex c = is_lower_hex c || in_range b'A' b'F' c

-- `Number.parseInt(c, 16)` of one digit.
unfoldable pub hex_value : ℕ → ℕ
hex_value c =
    if is_digit c then c - b'0' else if in_range b'a' b'f' c then c - b'a' + 10 else c - b'A' + 10

unfoldable pub hex_pairs : Text → List ℕ
unfolding hex_value
hex_pairs (c ∷ d ∷ t) = (hex_value c * 16 + hex_value d) ∷ hex_pairs t
hex_pairs _ = []

-- `exactBytes`, `null` by default.
abbrev pub has_bytes : Option ℕ → ℕ → Bool
has_bytes none n = true
has_bytes (some exact) n = n == exact * 2

-- `none` is the TypeError; an argument that is not a string does not occur past the normalizer.
unfoldable pub hex_to_bytes : Text → Option ℕ → Option (List ℕ)
unfolding is_hex hex_pairs
hex_to_bytes value exact =
    when (length value % 2 == 0 && all is_hex value && has_bytes exact (length value))
      (some (hex_pairs value))
