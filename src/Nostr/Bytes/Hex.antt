-- ===== src/Nostr/Bytes/Hex.antt =====
-- `bytesToHex` and `hexToBytes` of web/nostr-event-verifier.mjs, one after the other.
use hodlxxi_social.Prelude.{
  ℕ, ◌+◌, ◌*◌, ◌/◌, ◌%◌, ◌<◌, ◌≡◌, refl, ap, ◌∙◌, true, none, some, List, [], ◌∷◌, length, all, All,
  arith,
}
use hodlxxi_social.Js.Text.{Text, is_lower_hex}
use hodlxxi_social.Nostr.Bytes.{hex_digit, bytes_to_hex, is_hex, hex_value, hex_pairs, hex_to_bytes}

abbrev pub AreBytes : List ℕ → Type 0
AreBytes = All (λ b. b < 256)

hex_value-hex_digit : (n : ℕ) → n < 16 → hex_value (hex_digit n) ≡ n
unfolding hex_value hex_digit
hex_value-hex_digit n h = ground arith

hex_digit-hex_value : (c : ℕ) → is_lower_hex c ≡ true → hex_digit (hex_value c) ≡ c
unfolding hex_value hex_digit
hex_digit-hex_value c h = ground arith

is_hex-hex_digit : (n : ℕ) → n < 16 → is_hex (hex_digit n) ≡ true
unfolding is_hex hex_digit
is_hex-hex_digit n h = ground arith

hex_value-lt : (c : ℕ) → is_hex c ≡ true → hex_value c < 16
unfolding is_hex hex_value
hex_value-lt c h = ground arith

length-bytes_to_hex : (bytes : List ℕ) → length (bytes_to_hex bytes) ≡ 2 * length bytes
unfolding bytes_to_hex
length-bytes_to_hex [] = refl
length-bytes_to_hex (b ∷ bytes) = omega (arith, length-bytes_to_hex bytes)

all-bytes_to_hex : (bytes : List ℕ) → AreBytes bytes → all is_hex (bytes_to_hex bytes) ≡ true
unfolding bytes_to_hex
all-bytes_to_hex [] h = refl
all-bytes_to_hex (b ∷ bytes) (h, hs) =
    ground (arith, is_hex-hex_digit (b / 16), is_hex-hex_digit (b % 16), all-bytes_to_hex bytes hs)

hex_pairs-bytes_to_hex : (bytes : List ℕ) → AreBytes bytes → hex_pairs (bytes_to_hex bytes) ≡ bytes
unfolding bytes_to_hex hex_pairs
hex_pairs-bytes_to_hex [] h = refl
hex_pairs-bytes_to_hex (b ∷ bytes) (h, hs) =
    rw
      (
        hex_value-hex_digit (b / 16) (omega arith),
        hex_value-hex_digit (b % 16) (omega arith),
        hex_pairs-bytes_to_hex bytes hs,
      )
      (ap (λ t. t ∷ bytes) (omega arith))

-- The bytes that are printed in hexadecimal are read back, with the check of their number.
pub hex_to_bytes-bytes_to_hex :
    (bytes : List ℕ)
    → AreBytes bytes
    → hex_to_bytes (bytes_to_hex bytes) (some (length bytes)) ≡ some bytes
unfolding hex_to_bytes
hex_to_bytes-bytes_to_hex bytes h =
    ground
      (arith, length-bytes_to_hex bytes, all-bytes_to_hex bytes h, hex_pairs-bytes_to_hex bytes h)

is_hex-of_lower : (t : Text) → all is_lower_hex t ≡ true → all is_hex t ≡ true
unfolding is_hex
is_hex-of_lower [] h = refl
is_hex-of_lower (c ∷ t) h = ground (arith, is_hex-of_lower t)

bytes_to_hex-hex_pairs :
    (t : Text) → length t % 2 ≡ 0 → all is_lower_hex t ≡ true → bytes_to_hex (hex_pairs t) ≡ t
unfolding bytes_to_hex hex_pairs is_hex
bytes_to_hex-hex_pairs [] e h = refl
bytes_to_hex-hex_pairs (c ∷ []) e h = absurd (omega arith)
bytes_to_hex-hex_pairs (c ∷ d ∷ t) e h =
    pair (hex_value c) (hex_value d) (bytes_to_hex-hex_pairs t (omega arith) (ground arith))
      (hex_value-lt d (is_hex_char d (ground arith))) (hex_digit-hex_value c (ground arith))
      (hex_digit-hex_value d (ground arith))
  where
    is_hex_char : (x : ℕ) → is_lower_hex x ≡ true → is_hex x ≡ true
    is_hex_char x k = ground arith

    pair :
        (m n : ℕ)
        → bytes_to_hex (hex_pairs t) ≡ t
        → n < 16
        → hex_digit m ≡ c
        → hex_digit n ≡ d
        → hex_digit ((m * 16 + n) / 16) ∷ hex_digit ((m * 16 + n) % 16) ∷ bytes_to_hex (hex_pairs t)
          ≡ c ∷ d ∷ t
    pair m n rest k em en = rw (rest) (
        ap (λ x. hex_digit x ∷ hex_digit ((m * 16 + n) % 16) ∷ t) (omega arith)
        ∙ ap (λ x. hex_digit m ∷ hex_digit x ∷ t) (omega arith)
        ∙ ap (λ x. x ∷ hex_digit n ∷ t) em
        ∙ ap (λ x. c ∷ x ∷ t) en)

-- Lower-case hexadecimal text of even length is read, and printing the bytes gives the text again.
pub bytes_to_hex-hex_to_bytes :
    (t : Text)
    → length t % 2 ≡ 0
    → all is_lower_hex t ≡ true
    → (bytes : List ℕ) × (hex_to_bytes t none ≡ some bytes) × (bytes_to_hex bytes ≡ t)
unfolding hex_to_bytes
bytes_to_hex-hex_to_bytes t e h =
    (hex_pairs t, ground (arith, is_hex-of_lower t h), bytes_to_hex-hex_pairs t e h)
