-- ===== src/Sessions/Store/Mobile/Times.antt =====
-- The times of an accepted mobile session.
use hodlxxi_social.Prelude.{
  ℕ, ◌+◌, ◌%◌, ◌≤◌, ◌≡◌, Bool, true, false, not, ◌&&◌, ◌||◌, Option, none, some, List, when, ◌>>◌,
  guard, arith, >>=-eq-some, if◌then◌else◌, refl, subst,
}
use mathlib.Core.Option.{some-injective}
use hodlxxi_social.Js.Text.{lit}
use hodlxxi_social.Js.Value.{
  Value, Number, nat, neg, inexact, Entry, is_text, object, array, standard, without, other,
  entries,
}
use hodlxxi_social.Js.Record.{pick, property, Fields}
use hodlxxi_social.Sessions.Store.Mobile.{
  Session, not_after, within, are_times, read_times, read_mobile, safe_integer, expiry, is_negative,
  is_native, has_exactly, fields_of, kind_text, is_hex64, is_access_token, plain, mobile,
  or_invalid, classify, is_mobile_value,
}

-- The session starts in the past of the checks, ends at least a second after them, on a whole
-- second, and spans at most five minutes.
pub record AreTimes (clock : ℕ → ℕ) (s : Session) : Type 0 where
  pub started : not_after s.issued_at (clock 1) ≡ true
  pub lasts : clock 2 + 1000 ≤ s.expires_at
  pub second : s.expires_at % 1000 ≡ 0
  pub short : within s.expires_at s.issued_at 300_000 ≡ true

expiry_sound : (v : Value) (now e : ℕ) → expiry v now ≡ some e → now + 1000 ≤ e
expiry_sound v now e h = ground arith

are_times_sound :
    (clock : ℕ → ℕ) (n : Number) (e : ℕ)
    → are_times clock n e ≡ true
    → (not_after n (clock 1) ≡ true) × (e % 1000 ≡ 0) × (within e n 300_000 ≡ true)
unfolding are_times
are_times_sound clock (nat v) e h = ground arith
are_times_sound clock (neg v) e h = ground arith
are_times_sound clock inexact e h = cc

when-eq-some {ℓ} :
    {A : Type ℓ} (b : Bool) (o : Option A) (a : A) → when b o ≡ some a → (b ≡ true) × (o ≡ some a)
when-eq-some true o a h = (refl, h)
when-eq-some false o a h = cc

read_times_sound :
    (native : Bool) (clock : ℕ → ℕ) (issued expires : Value) (times : Number × ℕ)
    → read_times native clock issued expires ≡ some times
    → (are_times clock times.0 times.1 ≡ true) × (clock 2 + 1000 ≤ times.1)
unfolding read_times
read_times_sound native clock issued expires times h0 =
    let (n', i, h1) = >>=-eq-some (safe_integer issued) _ h0 in
    let (_, g, h2) = >>=-eq-some (guard (not native || not (is_negative n'))) _ h1 in
    let (e', j, h3) = >>=-eq-some (expiry expires (clock 2)) _ h2 in
    let (ok, same) = when-eq-some (are_times clock n' e') _ times h3 in
    subst (λ (t : Number × ℕ). (are_times clock t.0 t.1 ≡ true) × (clock 2 + 1000 ≤ t.1))
      (some-injective _ _ same) (ok, expiry_sound expires (clock 2) e' j)

after_guard {ℓ} :
    {A : Type ℓ} (b : Bool) (m : Option A) (a : A) → (guard b >> m) ≡ some a → m ≡ some a
after_guard true m a h = h
after_guard false m a h = cc

read_mobile-AreTimes :
    (enabled : Bool) (clock : ℕ → ℕ) (value : Value) (es : List Entry) (s : Session)
    → read_mobile enabled clock value es ≡ some s
    → AreTimes clock s
unfolding read_mobile
read_mobile-AreTimes enabled clock value es s h0 =
    let native = is_native enabled es in
    let fields : Option Fields = some (pick (fields_of native) es) in
    let h1 = after_guard (has_exactly (fields_of native) es) _ s h0 in
    let h2 = after_guard (is_text (kind_text native) (property fields (lit "kind"))) _ s h1 in
    let h3 =
      after_guard
        (not native
          || (is_hex64 (property fields (lit "issuanceRevision"))
              && is_hex64 (property fields (lit "acceptanceId"))))
        _ s h2 in
    let h4 = after_guard (is_hex64 (property fields (lit "subject"))) _ s h3 in
    let h5 = after_guard (is_hex64 (property fields (lit "issuanceId"))) _ s h4 in
    let h6 = after_guard (is_access_token (property fields (lit "viewerAccessToken"))) _ s h5 in
    let (times, read, h7) =
      >>=-eq-some
        (read_times native clock (property fields (lit "issuedAt"))
          (property fields (lit "expiresAt")))
        _ h6 in
    let (ok, lasts) = read_times_sound native clock _ _ times read in
    let (started, second, short) = are_times_sound clock times.0 times.1 ok in
    subst (AreTimes clock) (some-injective _ _ h7)
      (record { started = started; lasts = lasts; second = second; short = short })

-- Whatever value is given, a mobile session that is accepted was issued not after the clock, spans
-- at most five minutes, has at least a second left, and ends on a whole second.
pub classify-AreTimes :
    (enabled : Bool) (clock : ℕ → ℕ) (value : Value) (s : Session)
    → classify enabled clock value ≡ mobile s
    → AreTimes clock s
unfolding classify
classify-AreTimes enabled clock (object standard ps) s h =
    read_mobile-AreTimes enabled clock (object standard ps) (entries ps) s (
      accepted (is_mobile_value (entries ps))
        (read_mobile enabled clock (object standard ps) (entries ps)) h)
  where
    accepted :
        (b : Bool) (o : Option Session)
        → (if b then or_invalid o else plain) ≡ mobile s
        → o ≡ some s
    accepted true none e = cc
    accepted true (some t) e = ground arith
    accepted false o e = cc
classify-AreTimes enabled clock (object without ps) s h = ground arith
classify-AreTimes enabled clock (object other ps) s h = ground arith
classify-AreTimes enabled clock (array p n ps) s h = ground arith
classify-AreTimes enabled clock _ s h = cc
