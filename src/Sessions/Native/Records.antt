-- ===== src/Sessions/Native/Records.antt =====
-- The records of native sessions (src/server/social-native-session-v2.mjs), as they are stored and
-- read again.
use hodlxxi_social.Prelude.{ℕ, Bool, ◌&&◌, Option, none, some, [], ◌∷◌, ◌>>=◌}
use hodlxxi_social.Js.Text.{Text, lit, ◌===◌}
use hodlxxi_social.Js.Value.{
  Value, Number, object, string, number, nat, entries, data_value, name, as_string,
}
use hodlxxi_social.Js.Record.Laws.{record_value}
use hodlxxi_social.Sessions.Store.Mobile.{Kind, mobile_v2, Session}
use hodlxxi_social.Sessions.Native.Responses.{Receipt, same_receipt}

pub record NativeRecord : Type 0 where
  pub subject : Text
  pub token : Text
  pub receipt : Receipt

abbrev pub record_object : NativeRecord → Value
record_object r = record_value (
    (lit "kind", string (lit "ubid-mobile-v2"))
    ∷ (lit "subject", string r.subject)
    ∷ (lit "viewerAccessToken", string r.token)
    ∷ (lit "issuanceId", string r.receipt.issuance_id)
    ∷ (lit "issuanceRevision", string r.receipt.revision)
    ∷ (lit "acceptanceId", string r.receipt.acceptance_id)
    ∷ (lit "issuedAt", number (nat r.receipt.issued_at))
    ∷ (lit "expiresAt", number (nat r.receipt.expires_at))
    ∷ [])

abbrev text_field : Value → Text → Option Text
text_field (object _ ps) field = do v ← data_value (name field) (entries ps); as_string v
text_field _ field = none

abbrev natural : Number → Option ℕ
natural (nat n) = some n
natural _ = none

abbrev is_native : Kind → Option (Unit {0})
is_native mobile_v2 = some tt
is_native _ = none

-- The fields of a stored record whose kind is "ubid-mobile-v2"; `receiptFor` is `receipt`.
unfoldable pub read_native : Session → Option NativeRecord
unfolding data_value
read_native s = do
  native ← is_native s.kind
  subject ← text_field s.body (lit "subject")
  token ← text_field s.body (lit "viewerAccessToken")
  issuance_id ← text_field s.body (lit "issuanceId")
  revision ← text_field s.body (lit "issuanceRevision")
  acceptance_id ← text_field s.body (lit "acceptanceId")
  issued_at ← natural s.issued_at
  some (record {
    subject = subject;
    token = token;
    receipt = record {
      issuance_id = issuance_id;
      revision = revision;
      acceptance_id = acceptance_id;
      issued_at = issued_at;
      expires_at = s.expires_at;
    };
  })

-- canonical(a) === canonical(b)
unfoldable pub same_record : NativeRecord → NativeRecord → Bool
unfolding same_receipt
same_record a b = a.subject === b.subject && a.token === b.token && same_receipt a.receipt b.receipt
