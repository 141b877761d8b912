-- ===== src/Relay/Tests.antt =====
-- A filter with a list of authors, a limit and nothing else.
use hodlxxi_social.Prelude.{◌≡◌, refl, true, none, some, [], ◌∷◌, all}
use hodlxxi_social.Js.Text.{lit}
use hodlxxi_social.Js.Value.{Value, string, number, nat}
use hodlxxi_social.Js.Record.Laws.{record_value, array_value, indexed}
use hodlxxi_social.Relay.{RelayFilter, is_filter_key, validate_public_relay_filter}
use hodlxxi_social.Relay.Filter.{IsRelayFilter, own_entries, validate_public_relay_filter_sound}

abbrev asked : Value
asked =
    record_value (
      (lit "limit", number (nat 20)) ∷ (lit "authors", array_value (string (lit "ABc1") ∷ [])) ∷ [])

abbrev passed : RelayFilter
passed = record {
  ids = none;
  authors = some (lit "abc1" ∷ []);
  kinds = none;
  since = none;
  until = none;
  limit = some 20;
  events = none;
  persons = none;
}

passes : validate_public_relay_filter asked ≡ some passed
unfolding validate_public_relay_filter indexed
passes = refl

too_many : validate_public_relay_filter (record_value ((lit "limit", number (nat 501)) ∷ [])) ≡ none
unfolding validate_public_relay_filter
too_many = refl

validate_public_relay_filter_sound_example :
    (all is_filter_key (own_entries asked) ≡ true) × IsRelayFilter passed
validate_public_relay_filter_sound_example = validate_public_relay_filter_sound asked passed passes
