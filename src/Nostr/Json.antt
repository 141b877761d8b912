-- ===== src/Nostr/Json.antt =====
-- What web/nostr-event-verifier.mjs uses of the language to serialize an event: TextEncoder, which
-- writes UTF-8, and JSON.stringify on natural numbers, strings and arrays.
use hodlxxi_social.Prelude.{
  ℕ, zero, suc, ◌+◌, ◌-◌, ◌*◌, ◌/◌, ◌%◌, Bool, true, false, ◌&&◌, ◌||◌, List, [], ◌∷◌, ◌++◌, ◌==◌,
  ltb, if◌then◌else◌,
}
use hodlxxi_social.Js.Text.{Text, in_range}

-- The halves of a surrogate pair.
abbrev pub is_high : ℕ → Bool
is_high = in_range 0xd800 0xdbff

abbrev pub is_low : ℕ → Bool
is_low = in_range 0xdc00 0xdfff

-- The UTF-8 of a code unit; a surrogate alone becomes U+FFFD.
unfoldable pub encode_unit : ℕ → List ℕ
encode_unit u =
    if ltb u 0x80
    then u ∷ []
    else if ltb u 0x800
    then (0xc0 + u / 64) ∷ (0x80 + u % 64) ∷ []
    else if is_high u || is_low u
    then 0xef ∷ 0xbf ∷ 0xbd ∷ []
    else (0xe0 + u / 4096) ∷ (0x80 + u / 64 % 64) ∷ (0x80 + u % 64) ∷ []

unfoldable pub encode_pair : ℕ → ℕ → List ℕ
encode_pair u v =
    let point = 0x10000 + (u - 0xd800) * 1024 + (v - 0xdc00) in
    (0xf0 + point / 262144)
    ∷ (0x80 + point / 4096 % 64)
    ∷ (0x80 + point / 64 % 64)
    ∷ (0x80 + point % 64)
    ∷ []

-- new TextEncoder().encode(text)
unfoldable pub utf8 : Text → List ℕ
unfolding encode_unit encode_pair
utf8 [] = []
utf8 (u ∷ []) = encode_unit u
utf8 (u ∷ v ∷ t) = elim (is_high u && is_low v) [
  | true ↦ encode_pair u v ++ utf8 t
  | false ↦ encode_unit u ++ utf8 (v ∷ t)
]

-- The decimal digits before those so far; each round drops one, so fuel above the number suffices.
unfoldable pub decimal_from : ℕ → ℕ → Text → Text
decimal_from zero n t = t
decimal_from (suc fuel) n t = elim (n / 10 == 0) [
  | true ↦ (b'0' + n % 10) ∷ t
  | false ↦ decimal_from fuel (n / 10) ((b'0' + n % 10) ∷ t)
]

unfoldable pub decimal : ℕ → Text
unfolding decimal_from
decimal n = decimal_from (suc n) n []

abbrev pub hex_unit_digit : ℕ → ℕ
hex_unit_digit n = if ltb n 10 then b'0' + n else b'a' + (n - 10)

-- The escape of a code unit by its number: backslash, u and four digits.
unfoldable pub escape_number : ℕ → Text
escape_number u =
    b'\\'
    ∷ b'u'
    ∷ hex_unit_digit (u / 4096 % 16)
    ∷ hex_unit_digit (u / 256 % 16)
    ∷ hex_unit_digit (u / 16 % 16)
    ∷ hex_unit_digit (u % 16)
    ∷ []

unfoldable pub quote_unit : ℕ → Text
unfolding escape_number
quote_unit u =
    if u == b'"' || u == b'\\'
    then b'\\' ∷ u ∷ []
    else if u == 8
    then b'\\' ∷ b'b' ∷ []
    else if u == 9
    then b'\\' ∷ b't' ∷ []
    else if u == 10
    then b'\\' ∷ b'n' ∷ []
    else if u == 12
    then b'\\' ∷ b'f' ∷ []
    else if u == 13
    then b'\\' ∷ b'r' ∷ []
    else if ltb u 32 || is_high u || is_low u
    then escape_number u
    else u ∷ []

-- A surrogate pair is left as it is.
unfoldable pub quote_units : Text → Text
unfolding quote_unit
quote_units [] = []
quote_units (u ∷ []) = quote_unit u
quote_units (u ∷ v ∷ t) = elim (is_high u && is_low v) [
  | true ↦ u ∷ v ∷ quote_units t
  | false ↦ quote_unit u ++ quote_units (v ∷ t)
]

-- JSON.stringify of a string
unfoldable pub quoted : Text → Text
unfolding quote_units
quoted t = b'"' ∷ quote_units t ++ (b'"' ∷ [])

abbrev pub separated : List Text → Text
separated [] = []
separated (t ∷ []) = t
separated (t ∷ u ∷ ts) = t ++ (b',' ∷ separated (u ∷ ts))

-- JSON.stringify of an array whose items are printed
abbrev pub bracketed : List Text → Text
bracketed ts = b'[' ∷ separated ts ++ (b']' ∷ [])
