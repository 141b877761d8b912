-- ===== src/Messages/Wire/Shown.antt =====
-- The fields of a well-formed envelope are ASCII that JSON shows as it is.
use hodlxxi_social.Prelude.{
  ℕ, ◌≡◌, refl, ap, subst, Bool, true, false, ◌&&◌, [], ◌∷◌, ◌==◌, ==_iff, length, drop, all, arith,
}
use hodlxxi_social.Js.Text.{Text, lit, is_base64url_char, is_lower_hex, starts_with}
use hodlxxi_social.Js.Parse.Printed.{is_shown, IsShown}
use hodlxxi_social.Nostr.Json.{quote_units, quote_unit, is_high}
use hodlxxi_social.Messages.Envelope.{is_message_id, is_snapshot_id, is_device_handle}
use hodlxxi_social.Messages.Envelope.Shape.{IsEncoded}
use hodlxxi_social.Capability.Random.{base64url}
use hodlxxi_social.Capability.Random.Decoding.{base64url-chars}

quote_unit_shown : (u : ℕ) → is_shown u ≡ true → quote_unit u ≡ u ∷ []
unfolding quote_unit
quote_unit_shown u h = ground arith

not_high : (u : ℕ) → is_shown u ≡ true → is_high u ≡ false
not_high u h = ground arith

pub quote_units_shown : (t : Text) → IsShown t → quote_units t ≡ t
unfolding quote_units
quote_units_shown [] h = refl
quote_units_shown (u ∷ []) h = quote_unit_shown u (ground arith)
quote_units_shown (u ∷ v ∷ t) h =
    ground (arith, quote_unit_shown u (ground arith), quote_units_shown (v ∷ t) (ground arith))

IsShown-base64url : (t : Text) → all is_base64url_char t ≡ true → IsShown t
IsShown-base64url [] h = refl
IsShown-base64url (c ∷ t) h = ground (arith, IsShown-base64url t (ground arith))

pub IsShown-hex : (t : Text) → all is_lower_hex t ≡ true → IsShown t
IsShown-hex [] h = refl
IsShown-hex (c ∷ t) h = ground (arith, IsShown-hex t (ground arith))

prefix-IsShown :
    (p t : Text) → starts_with t p ≡ true → IsShown p → IsShown (drop (length p) t) → IsShown t
unfolding starts_with
prefix-IsShown [] t s hp h = h
prefix-IsShown (b ∷ p) [] s hp h = refl
prefix-IsShown (b ∷ p) (a ∷ t) s hp h = ground (
  arith,
  ap is_shown ((==_iff a b).0 (ground arith)),
  prefix-IsShown p t (ground arith) (ground arith) h,
)

three_parts : (a b c : Bool) → (a && b && c) ≡ true → (a ≡ true) × (b ≡ true) × (c ≡ true)
three_parts a b c h = (ground arith, ground arith, ground arith)

pub message_id-IsShown : (t : Text) → is_message_id t ≡ true → IsShown t
unfolding is_message_id
message_id-IsShown t h =
    let (start, len, chars) =
      three_parts (starts_with t (lit "m_")) (length t == 45) (all is_base64url_char (drop 2 t))
        h in
    prefix-IsShown (lit "m_") t start refl (IsShown-base64url (drop 2 t) chars)

pub device_handle-IsShown : (t : Text) → is_device_handle t ≡ true → IsShown t
unfolding is_device_handle
device_handle-IsShown t h =
    let (start, len, chars) =
      three_parts (starts_with t (lit "d_")) (length t == 24) (all is_base64url_char (drop 2 t))
        h in
    prefix-IsShown (lit "d_") t start refl (IsShown-base64url (drop 2 t) chars)

pub snapshot_id-IsShown : (t : Text) → is_snapshot_id t ≡ true → IsShown t
unfolding is_snapshot_id
snapshot_id-IsShown t h =
    let (start, len, chars) =
      three_parts (starts_with t (lit "sha256:")) (length t == 71) (all is_lower_hex (drop 7 t))
        h in
    prefix-IsShown (lit "sha256:") t start refl (IsShown-hex (drop 7 t) chars)

pub IsEncoded-IsShown : (minimum maximum : ℕ) (t : Text) → IsEncoded minimum maximum t → IsShown t
IsEncoded-IsShown minimum maximum t (bytes, ok, low, high, e) =
    subst IsShown e (IsShown-base64url (base64url bytes) (base64url-chars bytes ok).0)
