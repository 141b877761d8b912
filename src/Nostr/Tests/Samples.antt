-- ===== src/Nostr/Tests/Samples.antt =====
-- A signed event, with the SHA-256 digests that its verification asks for.
use hodlxxi_social.Prelude.{none, some, [], ◌∷◌, if◌then◌else◌}
use hodlxxi_social.Js.Text.{Text, lit, ◌===◌}
use hodlxxi_social.Js.Value.{Value, string, number, nat}
use hodlxxi_social.Js.Record.Laws.{record_value, array_value}
use hodlxxi_social.Nostr.Bytes.{hex_pairs}
use hodlxxi_social.Nostr.Event.{Event}
use hodlxxi_social.Nostr.Verify.{Digest, bip340_challenge}

abbrev pub sample_key : Text
sample_key = lit "f9308a019258c31049344f85f89d5229b531c845836f99b08601f113bce036f9"

abbrev pub sample_id : Text
sample_id = lit "762a6957f64e71d4177d90f6462db0c1955aa49605b35fbb5bc24a124684ca12"

abbrev pub sample_sig : Text
sample_sig =
    lit
      "f01d6b9018ab421dd410404cb869072065522bf85734008f105cf385a023a80f9a40241472acc4e341c0c87ee79d694eb614c1f0305ab1ed7ea984e10e01081e"

-- SHA-256 of the three texts that are hashed for the sample.
abbrev tag_digest : Text
tag_digest = lit "7bb52d7a9fef58323eb1bf7a407db382d2f3f2d81bb1224f49fe518f6d48d37c"

abbrev challenge_digest : Text
challenge_digest = lit "336ab6b17b8eec4bc095982a4d34786f9206eb50101e3b4f2a3881a05a00681d"

abbrev pub sample_event : Event
sample_event = record {
  id = sample_id;
  pubkey = sample_key;
  created_at = 1_700_000_000;
  kind = 1;
  tags = (lit "t" ∷ lit "x" ∷ []) ∷ [];
  content = lit "hi";
  sig = sample_sig;
}

abbrev pub sample_value : Value
sample_value = record_value (
    (lit "id", string sample_id)
    ∷ (lit "pubkey", string sample_key)
    ∷ (lit "created_at", number (nat 1_700_000_000))
    ∷ (lit "kind", number (nat 1))
    ∷ (lit "tags", array_value (array_value (string (lit "t") ∷ string (lit "x") ∷ []) ∷ []))
    ∷ (lit "content", string (lit "hi"))
    ∷ (lit "sig", string sample_sig)
    ∷ [])

-- The digest of the tag, that of the serialized event, which starts by a bracket, and the challenge.
unfoldable pub sample_digest : Digest
unfolding ◌===◌ hex_pairs
sample_digest [] = none
sample_digest (b ∷ bytes) =
    if (b ∷ bytes) === bip340_challenge
    then some (hex_pairs tag_digest)
    else if (b ∷ []) === lit "["
    then some (hex_pairs sample_id)
    else some (hex_pairs challenge_digest)
