-- ===== src/Sessions/Tests.antt =====
-- The theorems at small stores.
use hodlxxi_social.Prelude.{
  ℕ, ◌+◌, ◌≤◌, ◌<◌, ◌≡◌, ◌≢◌, ◌⊎◌, refl, true, false, none, some, List, [], ◌∷◌, replicate, arith,
  ltb,
}
use hodlxxi_social.Js.Text.{Text, lit, ◌===◌}
use hodlxxi_social.Js.Map
use hodlxxi_social.Js.Value.{
  Value, null, boolean, returns, safe_natural, string, number, nat, descriptor, data_value,
}
use hodlxxi_social.Js.Record.{property, pick}
use hodlxxi_social.Js.Record.Laws.{record_value}
use hodlxxi_social.Sessions.Bounded
use hodlxxi_social.Sessions.Bounded.{Config, Record, stamped}
use hodlxxi_social.Sessions.Bounded.Laws.{Inv, Call, creates, consumes, consumes_if, run}
use hodlxxi_social.Sessions.Bounded.Refinement.{view, spec_run, all_made, get-run}
use hodlxxi_social.Sessions.Store
use hodlxxi_social.Sessions.Store.{
  Entry, Entries, Logout, stored, retention_ms, deadline, sweep, begin_logout, deny, logout_until,
  get_for_logout, live,
}
use hodlxxi_social.Sessions.Store.Mobile.{
  Session, mobile_v2, mobile, classify, is_mobile_value, read_mobile, is_native, fields_of,
  read_times, are_times, has_exactly, is_token, split_dots,
}
use hodlxxi_social.Sessions.Store.Invariant as Store_invariant
use hodlxxi_social.Sessions.Store.Invariant.{SessionsInv, run-SessionsInv}
use hodlxxi_social.Sessions.Store.Denial.{logout_is_final}
use hodlxxi_social.Sessions.Native.Responses.{
  Receipt, own, is_span, validate_receipt, validate_current, validate_response, same_receipt,
}
use hodlxxi_social.Sessions.Native.Records.{NativeRecord, read_native, same_record}
use hodlxxi_social.Sessions.Native.Action.{Manager, ◌>>=◌, ◌>>◌, require, returned, calls, now}
use hodlxxi_social.Sessions.Native.{native_of, checked, read_begins, read_ends, logout_begins}
use hodlxxi_social.Sessions.Native.Interleaving.{begins_read, perform_all}
use hodlxxi_social.Sessions.Native.Interleaving.Denial.{native_logout_is_final}
use hodlxxi_social.Sessions.Native.Answers.{IsConfirmed, read_ends_answers}
use hodlxxi_social.Sessions.Store.Reading.{begin_logout_retention}

abbrev config : Config
config = record { ttl_seconds = 60; capacity = 2 }

abbrev key : Text
key = lit "k"

abbrev pending : List (Text × Record ℕ)
pending = (lit "old", record { value = 7; issued_at = 1000; expires_at = 61_000 }) ∷ []

pending-Inv : Inv config pending
unfolding Map.has
pending-Inv = record { is_map = (refl, tt); fits = omega arith }

abbrev made_calls : List (Call ℕ)
made_calls =
    creates 2000 2000 (string key) 8
    ∷ consumes_if (λ r. ltb 9 r.value) 3000 key
    ∷ creates 4000 4000 (string (lit "l")) 9
    ∷ consumes 5000 key
    ∷ []

get-run_example :
    (Bounded.get 63_999 (lit "l") (run config [] made_calls)).0
    ≡ view 63_999 (spec_run config (λ _. none) (all_made config [] made_calls) made_calls (lit "l"))
get-run_example =
    get-run config made_calls 63_999 (lit "l")
      (omega arith, (omega arith, (omega arith, (omega arith, tt)))) (omega arith)

-- A native session of 200 seconds.

abbrev native_value : Value
native_value = record_value (
    (lit "kind", string (lit "ubid-mobile-v2"))
    ∷ (lit "subject", string (replicate 64 b'a'))
    ∷ (lit "viewerAccessToken", string (lit "a.b.c"))
    ∷ (lit "issuanceId", string (replicate 64 b'b'))
    ∷ (lit "issuedAt", number (nat 100_000))
    ∷ (lit "expiresAt", number (nat 300_000))
    ∷ (lit "issuanceRevision", string (replicate 64 b'c'))
    ∷ (lit "acceptanceId", string (replicate 64 b'd'))
    ∷ [])

abbrev native_session : Session
native_session = record {
  kind = mobile_v2;
  body = native_value;
  issued_at = nat 100_000;
  expires_at = 300_000;
}

abbrev at : ℕ → ℕ → ℕ
at time reading = time

native_accepted : classify true (at 150_000) native_value ≡ mobile native_session
unfolding classify is_mobile_value read_mobile is_native fields_of read_times are_times has_exactly
    is_token split_dots descriptor data_value property pick Map.get ◌===◌
native_accepted = refl

abbrev native_entries : Entries
native_entries = (key, stored native_session) ∷ []

native-SessionsInv : SessionsInv config native_entries
unfolding Map.has
native-SessionsInv = record {
  is_map = (refl, tt);
  fits = omega arith;
  entries = (record { lifetime = refl; owner = tt }, tt);
}

run-SessionsInv_example : SessionsInv config (
    Store_invariant.run config true native_entries
      (Store_invariant.creates (at 150_000) (string (lit "j")) native_value ∷ []))
run-SessionsInv_example =
    run-SessionsInv config true native_entries
      (Store_invariant.creates (at 150_000) (string (lit "j")) native_value ∷ []) native-SessionsInv

-- The session of a logout, and one call after it.
abbrev leaving_entries : Entries
leaving_entries =
    Store_invariant.run config true (begin_logout (at 150_000) key native_entries).1
      (Store_invariant.gets (at 160_000) key ∷ [])

logout_is_final_example :
    ((Store.get (at 200_000) key leaving_entries).0 ≡ none)
    × ((Store.consume (at 200_000) key leaving_entries).0 ≡ none)
    × ((Store.consume_if (λ s. true) (at 200_000) key leaving_entries).0 ≡ none)
logout_is_final_example =
    logout_is_final config true (at 150_000) (at 200_000) key native_entries
      (Store_invariant.gets (at 160_000) key ∷ []) (λ s. true) native-SessionsInv (tt, tt)

native_found : Map.get native_entries key ≡ some (stored native_session)
unfolding Map.get ◌===◌
native_found = refl

abbrev native_logout : Logout
native_logout = record { original = native_session; until = 450_000; confirmed = false }

native_begun : (begin_logout (at 150_000) key native_entries).0 ≡ some native_logout
unfolding begin_logout sweep deadline Map.keep Map.get ◌===◌ deny logout_until
native_begun = refl

begin_logout_retention_example :
    (l : Logout) × ((begin_logout (at 599_000) key native_entries).0 ≡ some l)
    × (l.original ≡ native_session)
    × (l.confirmed ≡ false)
    × (599_000 < l.until)
    × (l.until ≤ 599_000 + retention_ms)
    × ((mobile_v2 ≢ mobile_v2) ⊎ (l.until ≤ 300_000 + retention_ms))
begin_logout_retention_example =
    begin_logout_retention config (at 599_000) key native_entries (stored native_session)
      native-SessionsInv (omega arith) native_found refl (unfold deadline in omega arith)

-- The manager of native sessions, with that session and nothing pending.
abbrev manager : Manager
manager = record {
  store = native_entries;
  aliases = (replicate 64 b'b', key) ∷ [];
  queue = [];
  next = 0;
  previous = 0;
}

abbrev native_receipt : Receipt
native_receipt = record {
  issuance_id = replicate 64 b'b';
  revision = replicate 64 b'c';
  acceptance_id = replicate 64 b'd';
  issued_at = 100_000;
  expires_at = 300_000;
}

abbrev native_record : NativeRecord
native_record = record {
  subject = replicate 64 b'a';
  token = lit "a.b.c";
  receipt = native_receipt;
}

retained_native : native_of (get_for_logout (at 150_000) key native_entries).0 ≡ some native_record
unfolding get_for_logout sweep deadline Map.keep Map.get ◌===◌ read_native data_value descriptor
retained_native = refl

native_logout_is_final_example :
    ((read_begins (at 160_000) key (
        perform_all config 4
          (logout_begins 4 (at 150_000) (at 150_000) key manager).1
          (begins_read (at 155_000) key ∷ []))).0
      ≡ none)
    × ((read_ends
          (λ i. number (nat 160_000))
          (at 160_000)
          key
          native_record
          (returns null)
          (perform_all config 4
            (logout_begins 4 (at 150_000) (at 150_000) key manager).1
            (begins_read (at 155_000) key ∷ []))).0
        ≡ none)
native_logout_is_final_example =
    native_logout_is_final config 4 (at 150_000) (at 150_000) key manager native_record
      (begins_read (at 155_000) key ∷ []) (λ i. number (nat 160_000)) (at 160_000) native_record
      (returns null) native-SessionsInv retained_native (tt, tt)

-- The answer of the backend that confirms the session.
abbrev current_answer : Value
current_answer = record_value (
    (
      lit "receipt",
      record_value (
          (lit "schema", string (lit "hodlxxi.social_session_issuance.v2"))
          ∷ (lit "version", number (nat 2))
          ∷ (lit "issuanceId", string (replicate 64 b'b'))
          ∷ (lit "socialSessionIssuanceRevision", string (replicate 64 b'c'))
          ∷ (lit "acceptanceId", string (replicate 64 b'd'))
          ∷ (lit "issuedAt", number (nat 100_000))
          ∷ (lit "expiresAt", number (nat 300_000))
          ∷ []),
    )
    ∷ (lit "subject", string (replicate 64 b'a'))
    ∷ (lit "currentActive", boolean true)
    ∷ [])

read_answers :
    (read_ends
      (λ i. number (nat 160_000))
      (at 160_000)
      key
      native_record
      (returns current_answer)
      manager).0
    ≡ some native_record
unfolding read_ends ◌>>=◌ ◌>>◌ require returned calls checked now validate_response own has_exactly
    pick property Map.get ◌===◌ validate_receipt validate_current is_span data_value descriptor
    same_receipt Store.get live sweep deadline Map.keep read_native same_record
read_answers = refl

read_ends_answers_example :
    (native_record ≡ native_record)
    × IsConfirmed (number (nat 160_000)) native_record (returns current_answer)
    × (native_of (Store.get (at 160_000) key native_entries).0 ≡ some native_record)
    × ((time : ℕ) × (safe_natural (number (nat 160_000)) ≡ some time) × (time < 300_000))
read_ends_answers_example =
    read_ends_answers (λ i. number (nat 160_000)) (at 160_000) key native_record
      (returns current_answer) manager native_record read_answers
