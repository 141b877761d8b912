-- ===== src/Nostr/Event/Serialized.antt =====
-- The serialization of an event is JSON of an array of its fields: `serializedEventBytes` of
-- web/nostr-event-verifier.mjs.
use hodlxxi_social.Prelude.{
  ℕ, ◌≤◌, ◌≡◌, refl, sym, ap, ◌∙◌, Bool, true, some, List, [], ◌∷◌, map, all, All, ++_assoc, ++_nil,
  arith,
}
use hodlxxi_social.Js.Text.{Text}
use hodlxxi_social.Js.Value.{Value, Number, nat, number, string, max_safe_integer}
use hodlxxi_social.Js.Record.Laws.{array_value}
use hodlxxi_social.Js.Parse.{json_parse}
use hodlxxi_social.Js.Parse.Printed.{
  Tree, numeral, escaped, array, Trees, none_left, tree, ArePlainOver, render, values_of,
}
use hodlxxi_social.Js.Parse.Printed.Arrays.{trees_of, Prints, bracketed-render}
use hodlxxi_social.Js.Parse.Printed.Read.{json_parse-array}
use hodlxxi_social.Nostr.Json.{quoted, decimal, bracketed}
use hodlxxi_social.Nostr.Event.{Event, serialized_event}

-- [0, pubkey, created_at, kind, tags, content]
abbrev pub event_array : Event → Value
event_array event = array_value (
    number (nat 0)
    ∷ string event.pubkey
    ∷ number (nat event.created_at)
    ∷ number (nat event.kind)
    ∷ array_value (map (λ tag. array_value (map string tag)) event.tags)
    ∷ string event.content
    ∷ [])

abbrev tag_tree : List Text → Tree
tag_tree tag = array (trees_of escaped tag)

abbrev event_trees : Event → Trees
event_trees event = tree (numeral 0) (
    tree (escaped event.pubkey) (
      tree (numeral event.created_at) (
        tree (numeral event.kind)
          (tree (array (trees_of tag_tree event.tags)) (tree (escaped event.content) none_left)))))

quoted-Prints : (t : Text) → Prints quoted escaped t
unfolding quoted
quoted-Prints t rest = simp (++_assoc)

each_quoted : (ts : List Text) → All (Prints quoted escaped) ts
each_quoted [] = tt
each_quoted (t ∷ ts) = (quoted-Prints t, each_quoted ts)

tags_print :
    (tags : List (List Text)) → All (Prints (λ tag. bracketed (map quoted tag)) tag_tree) tags
tags_print [] = tt
tags_print (tag ∷ tags) =
    ((λ rest. bracketed-render quoted escaped tag rest (each_quoted tag)), tags_print tags)

-- The fields, each with its print and its tree.
abbrev event_parts : Event → List (Text × Tree)
event_parts event =
    (decimal 0, numeral 0)
    ∷ (quoted event.pubkey, escaped event.pubkey)
    ∷ (decimal event.created_at, numeral event.created_at)
    ∷ (decimal event.kind, numeral event.kind)
    ∷ (
      bracketed (map (λ tag. bracketed (map quoted tag)) event.tags),
      array (trees_of tag_tree event.tags),
    )
    ∷ (quoted event.content, escaped event.content)
    ∷ []

abbrev part_text : Text × Tree → Text
part_text part = part.0

abbrev part_tree : Text × Tree → Tree
part_tree part = part.1

parts_print : (event : Event) → All (Prints part_text part_tree) (event_parts event)
parts_print event = (
  (λ rest. refl),
  (
    quoted-Prints event.pubkey,
    (
      (λ rest. refl),
      (
        (λ rest. refl),
        (
          (λ rest.
              bracketed-render (λ tag. bracketed (map quoted tag)) tag_tree event.tags rest
                (tags_print event.tags)),
          (quoted-Prints event.content, tt),
        ),
      ),
    ),
  ),
)

serialized_event-render :
    (event : Event) → serialized_event event ≡ render (array (event_trees event)) []
unfolding serialized_event
serialized_event-render event =
    sym (++_nil (serialized_event event))
    ∙ bracketed-render part_text part_tree (event_parts event) [] (parts_print event)

abbrev any_unit : ℕ → Bool
any_unit u = true

any_units : (t : Text) → all any_unit t ≡ true
any_units [] = refl
any_units (u ∷ t) = any_units t

texts_plain : (ts : List Text) → ArePlainOver any_unit (trees_of escaped ts)
texts_plain [] = tt
texts_plain (t ∷ ts) = (any_units t, texts_plain ts)

tags_plain : (tags : List (List Text)) → ArePlainOver any_unit (trees_of tag_tree tags)
tags_plain [] = tt
tags_plain (tag ∷ tags) = (texts_plain tag, tags_plain tags)

values-texts : (ts : List Text) → values_of (trees_of escaped ts) ≡ map string ts
values-texts [] = refl
values-texts (t ∷ ts) = ap (◌∷◌ (string t)) (values-texts ts)

values-tags :
    (tags : List (List Text))
    → values_of (trees_of tag_tree tags) ≡ map (λ tag. array_value (map string tag)) tags
values-tags [] = refl
values-tags (tag ∷ tags) = rw (values-texts tag, values-tags tags) refl

-- The serialization of an event is read by JSON.parse as the array of exactly its key, time, kind, tags
-- and content, when the time and the kind are safe integers.
pub json_parse-serialized_event :
    (real : Text → Number) (event : Event)
    → event.created_at ≤ max_safe_integer
    → event.kind ≤ max_safe_integer
    → json_parse real (serialized_event event) ≡ some (event_array event)
json_parse-serialized_event real event ht hk =
    ap (json_parse real) (serialized_event-render event)
    ∙ json_parse-array real any_unit (event_trees event) (
      omega arith,
      (any_units event.pubkey, (ht, (hk, (tags_plain event.tags, (any_units event.content, tt))))),
    )
    ∙ ap some (rw (values-tags event.tags) refl)
