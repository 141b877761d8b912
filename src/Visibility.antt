-- ===== src/Visibility.antt =====
-- src/visibility.mjs, with what it uses of src/domain.mjs: who sees a subject of the social graph.
-- `none` is the TypeError of `normalizePublicKey` or of `relationship`.
mod Graph
mod Tests
use hodlxxi_social.Prelude.{
  ℕ, Bool, true, false, not, ◌&&◌, ◌||◌, Option, none, some, List, [], ◌∷◌, ◌++◌, map, ◌==◌, length,
  all, any, when, ◌>>=◌, if◌then◌else◌,
}
use hodlxxi_social.Js.Text.{Text, lit, ◌===◌, is_lower_hex, in_range, to_lower}
use hodlxxi_social.Js.Value.{Value, as_string, is_text}

pub data AccessStatus : Type 0 where
  limited full operator : AccessStatus

pub data EdgeType : Type 0 where
  friend sponsor_trust : EdgeType

pub data RelationshipContext : Type 0 where
  self direct friend_of_friend unrelated : RelationshipContext

pub data Reason : Type 0 where
  deny_by_default self_reason limited_direct_only full_social_graph : Reason

pub record Edge : Type 0 where
  pub type : EdgeType
  pub from : Text
  pub to : Text

pub record Decision : Type 0 where
  pub visible : Bool
  pub reason : Reason

-- /^[0-9a-fA-F]{64}$/, then toLowerCase
unfoldable pub normalize_public_key : Value → Option Text
normalize_public_key v = do
  t ← as_string v
  when (length t == 64 && all (λ c. is_lower_hex c || in_range b'A' b'F' c) t)
      (some (map to_lower t))

unfoldable pub edge_type : Value → Option EdgeType
unfolding ◌===◌
edge_type v =
    if is_text (lit "friend") v
    then some friend
    else if is_text (lit "sponsor-trust") v
    then some sponsor_trust
    else none

unfoldable pub relationship : (type from to : Value) → Option Edge
unfolding edge_type normalize_public_key
relationship raw_type raw_from raw_to = do
  type ← edge_type raw_type
  from ← normalize_public_key raw_from
  to ← normalize_public_key raw_to
  some record { type = type; from = from; to = to }

abbrev pub is_friend : Edge → Bool
is_friend edge = elim edge.type [ friend ↦ true | sponsor_trust ↦ false ]

abbrev pub friends : List Edge → List Edge
friends [] = []
friends (edge ∷ edges) = let rest = friends edges in if is_friend edge then edge ∷ rest else rest

abbrev pub joins : Text → Text → Edge → Bool
joins x y edge = (edge.from === x && edge.to === y) || (edge.from === y && edge.to === x)

unfoldable pub adjacent : List Edge → Text → Text → Bool
unfolding ◌===◌
adjacent edges x y = any (joins x y) edges

-- The endpoints, with repetitions: `some` asks for one of the set that they form.
abbrev pub nodes : List Edge → List Text
nodes [] = []
nodes (edge ∷ edges) = edge.from ∷ edge.to ∷ nodes edges

unfoldable pub context_of : Text → Text → List Edge → RelationshipContext
unfolding adjacent ◌===◌
context_of a b edges = elim (a === b) [
  | true ↦ self
  | false ↦ elim (adjacent edges a b) [
    | true ↦ direct
    | false ↦
        elim (any (λ middle. adjacent edges a middle && adjacent edges middle b) (nodes edges)) [
          | true ↦ friend_of_friend
          | false ↦ unrelated
        ]
  ]
]

unfoldable pub relationship_context :
    (viewer subject : Value) → List Edge → Option RelationshipContext
unfolding normalize_public_key context_of
relationship_context viewer subject edges = do
  a ← normalize_public_key viewer
  b ← normalize_public_key subject
  some (context_of a b (friends edges))

abbrev pub deny : Decision
deny = record { visible = false; reason = deny_by_default }

-- The status, the context and the policy where they are known; `none` is any other value.
unfoldable pub visibility_decision :
    Option AccessStatus → Option RelationshipContext → (social_policy : Bool) → Decision
visibility_decision none context social = deny
visibility_decision (some status) none social = deny
visibility_decision (some status) (some context) false = deny
visibility_decision (some status) (some self) true = record { visible = true; reason = self_reason }
visibility_decision (some limited) (some direct) true = record {
  visible = true;
  reason = limited_direct_only;
}
visibility_decision (some limited) (some context) true = record {
  visible = false;
  reason = limited_direct_only;
}
visibility_decision (some full) (some unrelated) true = record {
  visible = false;
  reason = full_social_graph;
}
visibility_decision (some operator) (some unrelated) true = record {
  visible = false;
  reason = full_social_graph;
}
visibility_decision (some status) (some context) true = record {
  visible = true;
  reason = full_social_graph;
}
