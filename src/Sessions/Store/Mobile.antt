-- ===== src/Sessions/Store/Mobile.antt =====
-- What `create` of the session store accepts: the checks on a mobile session.
pub mod Times
use hodlxxi_social.Prelude.{
  ℕ, suc, ◌+◌, ◌-◌, ◌*◌, ◌%◌, ◌≤◌, ◌≡◌, Bool, true, false, not, ◌&&◌, ◌||◌, Option, none, some,
  List, [], ◌∷◌, ◌==◌, ◌++◌, leb, ltb, length, if◌then◌else◌, map, all, any, when, ◌>>=◌, ◌>>◌,
  guard, arith,
}
use hodlxxi_social.Js.Text.{Text, lit, ◌===◌, is_lower_hex, is_base64url_char}
use hodlxxi_social.Js.Value.{
  Value, Number, nat, neg, inexact, number, object, array, standard, Entry, name, entries,
  descriptor, data_value, as_string, is_text, max_safe_integer,
}
use hodlxxi_social.Js.Record.{pick, property, is_some}

-- The `kind` of the stored record; an ordinary one has none.
pub data Kind : Type 0 where
  ordinary mobile_v1 mobile_v2 : Kind

-- A stored record: its times, its kind, and the value with its other fields.
pub record Session : Type 0 where
  pub kind : Kind
  pub body : Value
  pub issued_at : Number
  pub expires_at : ℕ

-- a value with an own property `kind` or `issuanceId`
unfoldable pub is_mobile_value : List Entry → Bool
unfolding descriptor
is_mobile_value es =
    is_some (descriptor (name (lit "kind")) es) || is_some (descriptor (name (lit "issuanceId")) es)

abbrev pub base_fields : List Text
base_fields =
    map lit
      ("kind" ∷ "subject" ∷ "viewerAccessToken" ∷ "issuanceId" ∷ "issuedAt" ∷ "expiresAt" ∷ [])

abbrev is_kind : Option Value → Bool
is_kind none = false
is_kind (some v) = is_text (lit "ubid-mobile-v2") v

-- nativeV2Enabled && d.kind?.value === "ubid-mobile-v2"
unfoldable pub is_native : Bool → List Entry → Bool
unfolding descriptor
is_native enabled es = enabled && is_kind (do d ← descriptor (name (lit "kind")) es; d.content)

unfoldable pub fields_of : Bool → List Text
fields_of native =
    base_fields ++ (if native then map lit ("issuanceRevision" ∷ "acceptanceId" ∷ []) else [])

-- /^[0-9a-f]{64}$/
abbrev pub is_hex64 : Value → Bool
is_hex64 v = is_some (do t ← as_string v; when (length t == 64 && all is_lower_hex t) (some t))

-- The parts between the dots.
unfoldable pub split_dots : Text → List Text
split_dots [] = [] ∷ []
split_dots (c ∷ t) = elim (split_dots t) [
  | [] ↦ []
  | part ∷ parts ↦ if c == b'.' then [] ∷ part ∷ parts else (c ∷ part) ∷ parts
]

-- /^[A-Za-z0-9_-]+\.[A-Za-z0-9_-]+\.[A-Za-z0-9_-]+$/
unfoldable pub is_token : Text → Bool
unfolding split_dots
is_token t =
    length (split_dots t) == 3
    && all (λ part. leb 1 (length part) && all is_base64url_char part) (split_dots t)

abbrev pub is_access_token : Value → Bool
is_access_token v = is_some (do t ← as_string v; when (leb (length t) 8192 && is_token t) (some t))

-- Number.isSafeInteger(v)
abbrev pub safe_integer : Value → Option Number
safe_integer (number (nat n)) = when (leb n max_safe_integer) (some (nat n))
safe_integer (number (neg n)) = when (leb (suc n) max_safe_integer) (some (neg n))
safe_integer _ = none

-- v % 1000 === 0
abbrev pub is_whole_second : Number → Bool
is_whole_second (nat n) = n % 1000 == 0
is_whole_second (neg n) = (n + 1) % 1000 == 0
is_whole_second inexact = false

-- v <= n and e - v <= n, for safe integers
abbrev pub not_after : Number → ℕ → Bool
not_after (nat v) n = leb v n
not_after _ n = true

abbrev pub within : ℕ → Number → ℕ → Bool
within e (nat v) n = leb e (v + n)
within e (neg v) n = leb (e + (v + 1)) n
within e inexact n = false

-- a safe integer that is at least `now + 1000`, as every accepted expiry is; the clock is not negative
abbrev pub expiry : Value → ℕ → Option ℕ
expiry (number (nat e)) now = when (leb e max_safe_integer && leb (now + 1000) e) (some e)
expiry _ now = none

abbrev is_negative : Number → Bool
is_negative (neg n) = true
is_negative _ = false

-- Whole seconds, not issued in the future, at most five minutes long.
unfoldable pub are_times : (ℕ → ℕ) → Number → ℕ → Bool
are_times clock issued_at expires_at =
    is_whole_second issued_at
    && expires_at % 1000 == 0
    && not_after issued_at (clock 1)
    && within expires_at issued_at 300_000

-- The times of a mobile session; a native one may not be issued before 1970.
unfoldable pub read_times : Bool → (ℕ → ℕ) → Value → Value → Option (Number × ℕ)
unfolding are_times
read_times native clock issued expires = do
  issued_at ← safe_integer issued
  guard (not native || not (is_negative issued_at))
  expires_at ← expiry expires (clock 2)
  when (are_times clock issued_at expires_at) (some (issued_at, expires_at))

abbrev pub kind_text : Bool → Text
kind_text native = if native then lit "ubid-mobile-v2" else lit "ubid-mobile-v1"

-- every field enumerable, with a value, and no other own key
unfoldable pub has_exactly : List Text → List Entry → Bool
has_exactly fields es =
    length es == length fields && all (λ f. is_some (data_value (name f) es)) fields

unfoldable pub read_mobile : Bool → (ℕ → ℕ) → Value → List Entry → Option Session
read_mobile enabled clock value es =
    let native = is_native enabled es in
    let fields = some (pick (fields_of native) es) in
    do
      guard (has_exactly (fields_of native) es)
      guard (is_text (kind_text native) (property fields (lit "kind")))
      guard (
          not native
          || (is_hex64 (property fields (lit "issuanceRevision"))
              && is_hex64 (property fields (lit "acceptanceId"))))
      guard (is_hex64 (property fields (lit "subject")))
      guard (is_hex64 (property fields (lit "issuanceId")))
      guard (is_access_token (property fields (lit "viewerAccessToken")))
      times ←
          read_times native clock (property fields (lit "issuedAt"))
            (property fields (lit "expiresAt"))
      some (record {
        kind = if native then mobile_v2 else mobile_v1;
        body = value;
        issued_at = times.0;
        expires_at = times.1;
      })

-- What becomes of the value: a TypeError, an ordinary session, or a mobile one.
pub data Accepted : Type 0 where
  invalid plain : Accepted
  mobile : Session → Accepted

abbrev or_invalid : Option Session → Accepted
or_invalid none = invalid
or_invalid (some s) = mobile s

unfoldable pub classify : Bool → (ℕ → ℕ) → Value → Accepted
classify enabled clock (object standard ps) =
    if is_mobile_value (entries ps)
    then or_invalid (read_mobile enabled clock (object standard ps) (entries ps))
    else plain
classify enabled clock (object _ ps) = if is_mobile_value (entries ps) then invalid else plain
classify enabled clock (array _ _ ps) = if is_mobile_value (entries ps) then invalid else plain
classify enabled clock _ = invalid
