-- ===== src/Capability/Admission/Directory.antt =====
-- The directories that an admission accepts: `normalizeDirectory` of
-- src/server/opaque-recipient-capability-issuer.mjs.
use hodlxxi_social.Prelude.{
  ℕ, zero, suc, ◌+◌, ◌≤◌, ◌≡◌, refl, ap, ◌∙◌, sym, true, not, some, List, [], ◌∷◌, map, length,
  when-eq-some, guard, arith, >>=-eq-some, guard-eq-some, subst,
}
use mathlib.Core.Option.{some-injective}
use hodlxxi_social.Js.Text.{Text, lit, includes}
use hodlxxi_social.Js.Value.{
  Value, Props, Entry, string, index, data_value, array, standard, without, other, entries, is_text,
}
use hodlxxi_social.Js.Record.{exact_record, property, dense_items}
use hodlxxi_social.Js.Record.Holding.{is_defined, exact_record-HasField}
use hodlxxi_social.Capability.Syntax.{max_capabilities, privacy_safe_alias, collect_aliases}
use hodlxxi_social.Capability.Syntax.Aliases.{collect_aliases_sound}
use hodlxxi_social.Capability.Admission.{participant_items, normalize_directory}
use hodlxxi_social.Capability.Admission.Grounds.{AreListed, IsDirectory, is_text-eq-true}

length-dense_items :
    (n i : ℕ) (es : List Entry) (vs : List Value) → dense_items n i es ≡ some vs → length vs ≡ n
unfolding dense_items
length-dense_items zero i es [] h = refl
length-dense_items zero i es (v ∷ vs) h = cc
length-dense_items (suc n) i es [] h = ground arith
length-dense_items (suc n) i es (v ∷ vs) h = ground (arith, length-dense_items n (i + 1) es vs)

pub array_form :
    (v : Value) (items : List Value)
    → participant_items v ≡ some items
    → (ps : Props) × (v ≡ array standard (length items) ps)
      × (dense_items (length items) 0 (entries ps) ≡ some items)
unfolding participant_items
array_form (array standard n ps) items h =
    let read : dense_items n 0 (entries ps) ≡ some items = (when-eq-some _ _ h).1 in
    let len = length-dense_items n 0 (entries ps) items read in
    (ps, ap (λ k. array standard k ps) (sym len), ap (λ k. dense_items k 0 (entries ps)) len ∙ read)
array_form (array without n ps) items h = cc
array_form (array other n ps) items h = cc
array_form _ items h = cc

participant_items_count :
    (v : Value) (items : List Value)
    → participant_items v ≡ some items
    → length items ≤ max_capabilities
unfolding participant_items
participant_items_count (array standard n ps) items h =
    ground (arith, length-dense_items n 0 (entries ps) items)
participant_items_count (array without n ps) items h = cc
participant_items_count (array other n ps) items h = cc
participant_items_count _ items h = cc

alias_text : (w : Value) (t : Text) → privacy_safe_alias w ≡ some t → w ≡ string t
unfolding privacy_safe_alias
alias_text w t h = ground arith

collect_aliases-AreListed :
    (n i : ℕ) (es : List Entry) (items : List Value) (seen ts : List Text)
    → dense_items n i es ≡ some items
    → collect_aliases seen items ≡ some ts
    → (length ts ≡ n) × AreListed i es ts
unfolding dense_items collect_aliases
collect_aliases-AreListed zero i es items seen ts read named =
    subst (λ us. (length us ≡ 0) × AreListed i es us)
      (some-injective _ _ (ap (collect_aliases seen) (some-injective _ _ read) ∙ named)) (refl, tt)
collect_aliases-AreListed (suc n) i es items seen ts read named =
    let (v, e1, h1) = >>=-eq-some (data_value (index i) es) _ read in
    let (rest, e2, h2) = >>=-eq-some (dense_items n (i + 1) es) _ h1 in
    let all_named = ap (collect_aliases seen) (some-injective _ _ h2) ∙ named in
    let (t, e3, h3) =
      >>=-eq-some (privacy_safe_alias (property (exact_record v (lit "alias" ∷ [])) (lit "alias")))
        _ all_named in
    let (u, e4, h4) = >>=-eq-some (guard (not (includes seen t))) _ h3 in
    let (us, e5, h5) = >>=-eq-some (collect_aliases (t ∷ seen) rest) _ h4 in
    let (len, more) = collect_aliases-AreListed n (i + 1) es rest (t ∷ seen) us e2 e5 in
    subst (λ ws. (length ws ≡ suc n) × AreListed i es ws) (some-injective _ _ h5)
      (
        ap suc len,
        (
          (
            v,
            e1,
            exact_record-HasField v (lit "alias" ∷ []) (lit "alias") (string t) (alias_text _ t e3)
                refl,
          ),
          more,
        ),
      )

abbrev directory_fields : List Text
directory_fields = map lit ("state" ∷ "participants" ∷ [])

array_defined : (v : Value) (n : ℕ) (ps : Props) → v ≡ array standard n ps → is_defined v ≡ true
array_defined v n ps e = ap is_defined e

pub normalize_directory-IsDirectory :
    (v : Value) (ts : List Text) → normalize_directory v ≡ some ts → IsDirectory v ts
unfolding normalize_directory
normalize_directory-IsDirectory v ts h0 =
    let fields = exact_record v directory_fields in
    let (u, state, h1) =
      >>=-eq-some (guard (is_text (lit "available") (property fields (lit "state")))) _ h0 in
    let (items, read, h2) =
      >>=-eq-some (participant_items (property fields (lit "participants"))) _ h1 in
    let (aliases, count) = collect_aliases_sound [] items ts h2 in
    let (ps, form, dense) = array_form _ items read in
    let (len, listed) =
      collect_aliases-AreListed (length items) 0 (entries ps) items [] ts dense h2 in
    record {
      state_field =
          exact_record-HasField v directory_fields (lit "state") (string (lit "available"))
            (is_text-eq-true (lit "available") _ (guard-eq-some _ state)) refl;
      items = ps;
      list_field =
          exact_record-HasField v directory_fields (lit "participants")
            (array standard (length ts) ps) (form ∙ ap (λ n. array standard n ps) (sym len)) refl;
      listed = listed;
      aliases = aliases;
      few = omega (arith, participant_items_count _ items read, count);
    }
