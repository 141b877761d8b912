-- ===== src/Capability/Syntax/Aliases.antt =====
-- The list of current aliases, as it is accepted and as the program passes it on.
use hodlxxi_social.Prelude.{
  ◌≤◌, ◌≡◌, refl, true, false, some, List, [], ◌∷◌, map, length, when, arith, >>=-eq-some,
}
use hodlxxi_social.Js.Text.{Text, lit, includes}
use hodlxxi_social.Js.Value.{Value, string}
use hodlxxi_social.Js.Record.{exact_record, property, dense_data_array}
use hodlxxi_social.Js.Record.Laws.{record_value, array_value, dense_data_array-array_value}
use hodlxxi_social.Capability.Syntax.{
  max_capabilities, is_safe_alias, privacy_safe_alias, collect_aliases, normalize_current_aliases,
}

-- Privacy-safe aliases, none of which stands in `seen` or twice.
abbrev pub AreAliases : List Text → List Text → Type 0
AreAliases seen [] = Unit
AreAliases seen (a ∷ as') =
    (is_safe_alias a ≡ true) × (includes seen a ≡ false) × AreAliases (a ∷ seen) as'

-- [{ alias }, …]
abbrev pub alias_record : Text → Value
alias_record a = record_value ((lit "alias", string a) ∷ [])

abbrev pub aliases_value : List Text → Value
aliases_value as' = array_value (map alias_record as')

privacy_safe_alias_sound :
    (v : Value) (a : Text) → privacy_safe_alias v ≡ some a → is_safe_alias a ≡ true
unfolding privacy_safe_alias
privacy_safe_alias_sound v a h = ground arith

privacy_safe_alias_record :
    (a : Text)
    → privacy_safe_alias (property (exact_record (alias_record a) (lit "alias" ∷ [])) (lit "alias"))
      ≡ when (is_safe_alias a) (some a)
unfolding privacy_safe_alias exact_record property
privacy_safe_alias_record a = refl

pub collect_aliases_sound :
    (seen : List Text) (items : List Value) (as' : List Text)
    → collect_aliases seen items ≡ some as'
    → AreAliases seen as' × (length as' ≡ length items)
unfolding collect_aliases
collect_aliases_sound seen [] [] h = (tt, refl)
collect_aliases_sound seen [] (a ∷ as') h = cc
collect_aliases_sound seen (item ∷ items) [] h = ground arith
collect_aliases_sound seen (item ∷ items) (a ∷ as') h = ground (
  arith,
  privacy_safe_alias_sound (property (exact_record item (lit "alias" ∷ [])) (lit "alias")) a,
  collect_aliases_sound (a ∷ seen) items as',
)

collect_aliases_complete :
    (seen as' : List Text)
    → AreAliases seen as'
    → collect_aliases seen (map alias_record as') ≡ some as'
unfolding collect_aliases
collect_aliases_complete seen [] h = refl
collect_aliases_complete seen (a ∷ as') h =
    ground (arith, privacy_safe_alias_record a, collect_aliases_complete (a ∷ seen) as')

length-map_record : (as' : List Text) → length (map alias_record as') ≡ length as'
length-map_record [] = refl
length-map_record (a ∷ as') = omega (arith, length-map_record as')

-- What is accepted is a list of at most 4096 distinct privacy-safe aliases.
pub normalize_current_aliases_sound :
    (v : Value) (as' : List Text)
    → normalize_current_aliases v ≡ some as'
    → AreAliases [] as' × (length as' ≤ max_capabilities)
unfolding normalize_current_aliases
normalize_current_aliases_sound v as' h =
    let (items, e, f) = >>=-eq-some (dense_data_array v) _ h in
    ground (arith, collect_aliases_sound [] items as')

-- A list of at most 4096 distinct privacy-safe aliases, passed on as an array of records, is read
-- back as it was.
pub normalize-aliases_value :
    (as' : List Text)
    → AreAliases [] as'
    → length as' ≤ max_capabilities
    → normalize_current_aliases (aliases_value as') ≡ some as'
unfolding normalize_current_aliases
normalize-aliases_value as' h k = ground (
  arith,
  dense_data_array-array_value (map alias_record as'),
  length-map_record as',
  collect_aliases_complete [] as',
)
