-- ===== src/Visibility/Graph.antt =====
-- The social graph behind a decision.
use hodlxxi_social.Prelude.{
  ◌≡◌, refl, ap, ◌↔◌, ◌⊎◌, inl, inr, Bool, true, false, ◌&&◌, Option, none, some, List, [], ◌∷◌,
  any, ◌>>=◌, arith, Bool-cases,
}
use hodlxxi_social.Js.Text.{Text, ◌===◌, ===_iff}
use hodlxxi_social.Js.Value.{Value}
use hodlxxi_social.Visibility.{
  AccessStatus, limited, full, operator, EdgeType, friend, sponsor_trust, Edge, is_friend, friends,
  joins, adjacent, nodes, context_of, normalize_public_key, relationship_context,
  visibility_decision,
}

abbrev pub Joins : Text → Text → Edge → Type 0
Joins x y edge = ((edge.from ≡ x) × (edge.to ≡ y)) ⊎ ((edge.from ≡ y) × (edge.to ≡ x))

-- A friendship of the two, in either direction, is among the edges.
abbrev pub AreFriends : List Edge → Text → Text → Type 0
AreFriends [] x y = ⊥
AreFriends (edge ∷ edges) x y = ((edge.type ≡ friend) × Joins x y edge) ⊎ AreFriends edges x y

is_friend_iff : (edge : Edge) → (is_friend edge ≡ true) ↔ (edge.type ≡ friend)
is_friend_iff edge = go edge.type
  where
    go : (t : EdgeType) → ((elim t [ friend ↦ true | sponsor_trust ↦ false ]) ≡ true) ↔ (t ≡ friend)
    go friend = (λ e. refl, λ e. refl)
    go sponsor_trust = (λ e. cc, λ e. cc)

joins_iff : (x y : Text) (edge : Edge) → (joins x y edge ≡ true) ↔ Joins x y edge
joins_iff x y edge =
    ground (arith, ===_iff edge.from x, ===_iff edge.to y, ===_iff edge.from y, ===_iff edge.to x)

adjacent_iff :
    (edges : List Edge) (x y : Text) → (adjacent (friends edges) x y ≡ true) ↔ AreFriends edges x y
unfolding adjacent
adjacent_iff [] x y = ground arith
adjacent_iff (edge ∷ edges) x y =
    ground (arith, is_friend_iff edge, joins_iff x y edge, adjacent_iff edges x y)

joins_symmetric : (x y : Text) (edge : Edge) → joins x y edge ≡ joins y x edge
joins_symmetric x y edge = ground arith

adjacent_symmetric : (edges : List Edge) (x y : Text) → adjacent edges x y ≡ adjacent edges y x
unfolding adjacent
adjacent_symmetric [] x y = refl
adjacent_symmetric (edge ∷ edges) x y =
    ground (arith, joins_symmetric x y edge, adjacent_symmetric edges x y)

-- Somebody is a friend of both.
abbrev pub HaveCommonFriend : List Edge → Text → Text → Type 0
HaveCommonFriend edges x y = (middle : Text) × AreFriends edges x middle × AreFriends edges middle y

any_sound {ℓ} : {A : Type ℓ} (p : A → Bool) (xs : List A) → any p xs ≡ true → (x : A) × (p x ≡ true)
any_sound p [] h = cc
any_sound p (x ∷ xs) h = elim (Bool-cases (p x)) [
  | inl e ↦ (x, e)
  | inr e ↦ any_sound p xs (ground arith)
]

-- Whoever is adjacent to somebody is among the nodes.
any-nodes :
    (p : Text → Bool) (edges : List Edge) (x m : Text)
    → adjacent edges x m ≡ true
    → p m ≡ true
    → any p (nodes edges) ≡ true
unfolding adjacent
any-nodes p [] x m h k = cc
any-nodes p (edge ∷ edges) x m h k = elim (Bool-cases (joins x m edge)) [
  | inl e ↦ elim ((joins_iff x m edge).0 e) [
    | inl (f, t) ↦ ground (arith, ap p t)
    | inr (f, t) ↦ ground (arith, ap p f)
  ]
  | inr e ↦ ground (arith, any-nodes p edges x m (ground arith) k)
]

common_iff :
    (edges : List Edge) (x y : Text)
    → (any
          (λ m. adjacent (friends edges) x m && adjacent (friends edges) m y)
          (nodes (friends edges))
        ≡ true)
      ↔ HaveCommonFriend edges x y
common_iff edges x y = (sound, complete)
  where
    sound :
        any
            (λ m. adjacent (friends edges) x m && adjacent (friends edges) m y)
            (nodes (friends edges))
          ≡ true
        → HaveCommonFriend edges x y
    sound h =
        let (m, e) =
          any_sound (λ m. adjacent (friends edges) x m && adjacent (friends edges) m y)
            (nodes (friends edges)) h in
        (m, (adjacent_iff edges x m).0 (ground arith), (adjacent_iff edges m y).0 (ground arith))

    complete :
        HaveCommonFriend edges x y
        → any
            (λ m. adjacent (friends edges) x m && adjacent (friends edges) m y)
            (nodes (friends edges))
          ≡ true
    complete (m, h, k) =
        any-nodes (λ m. adjacent (friends edges) x m && adjacent (friends edges) m y)
          (friends edges) x m ((adjacent_iff edges x m).1 h)
          (ground (arith, (adjacent_iff edges x m).1 h, (adjacent_iff edges m y).1 k))

-- What a viewer of each status may see.
abbrev pub Sees : AccessStatus → List Edge → Text → Text → Type 0
Sees limited edges a b = (a ≡ b) ⊎ AreFriends edges a b
Sees full edges a b = (a ≡ b) ⊎ AreFriends edges a b ⊎ HaveCommonFriend edges a b
Sees operator edges a b = (a ≡ b) ⊎ AreFriends edges a b ⊎ HaveCommonFriend edges a b

context_iff :
    (status : AccessStatus) (edges : List Edge) (a b : Text)
    → ((visibility_decision (some status) (some (context_of a b (friends edges))) true).visible
        ≡ true)
      ↔ Sees status edges a b
unfolding context_of visibility_decision
context_iff limited edges a b =
    ground (arith, ===_iff a b, adjacent_iff edges a b, common_iff edges a b)
context_iff full edges a b =
    ground (arith, ===_iff a b, adjacent_iff edges a b, common_iff edges a b)
context_iff operator edges a b =
    ground (arith, ===_iff a b, adjacent_iff edges a b, common_iff edges a b)

-- For two valid keys and a known status under the social policy, the subject is visible exactly to
-- itself and to its friends, and to the friends of its friends when the status is full or operator.
-- Only edges of friendship count, in either direction.
pub visible_iff :
    (status : AccessStatus) (viewer subject : Value) (edges : List Edge) (a b : Text)
    → normalize_public_key viewer ≡ some a
    → normalize_public_key subject ≡ some b
    → ((visibility_decision (some status) (relationship_context viewer subject edges) true).visible
        ≡ true)
      ↔ Sees status edges a b
unfolding relationship_context
visible_iff status viewer subject edges a b ea eb = rw (ea, eb) (context_iff status edges a b)

any-congr {ℓ} :
    {A : Type ℓ} (p q : A → Bool) (xs : List A) → ((x : A) → p x ≡ q x) → any p xs ≡ any q xs
any-congr p q [] h = refl
any-congr p q (x ∷ xs) h = ground (arith, h x, any-congr p q xs h)

===_symmetric : (a b : Text) → (a === b) ≡ (b === a)
===_symmetric a b = ground (arith, ===_iff a b, ===_iff b a)

context_of_symmetric :
    (a b : Text) (edges : List Edge) → context_of a b edges ≡ context_of b a edges
unfolding context_of
context_of_symmetric a b edges = ground (
  arith,
  ===_symmetric a b,
  adjacent_symmetric edges a b,
  any-congr (λ m. adjacent edges a m && adjacent edges m b)
      (λ m. adjacent edges b m && adjacent edges m a) (nodes edges)
      (λ m. ground (arith, adjacent_symmetric edges a m, adjacent_symmetric edges m b)),
)

>>=_symmetric {ℓ κ} :
    {A : Type ℓ} {B : Type κ} (o p : Option A) (f : A → A → B)
    → ((a b : A) → f a b ≡ f b a)
    → (o >>= λ a. p >>= λ b. some (f a b)) ≡ (p >>= λ a. o >>= λ b. some (f a b))
>>=_symmetric none none f h = refl
>>=_symmetric none (some b) f h = refl
>>=_symmetric (some a) none f h = refl
>>=_symmetric (some a) (some b) f h = ap some (h a b)

-- The relationship of a viewer to a subject is that of the subject to the viewer, whatever is
-- passed as their keys.
pub relationship_context_symmetric :
    (viewer subject : Value) (edges : List Edge)
    → relationship_context viewer subject edges ≡ relationship_context subject viewer edges
unfolding relationship_context
relationship_context_symmetric viewer subject edges =
    >>=_symmetric (normalize_public_key viewer) (normalize_public_key subject)
      (λ a b. context_of a b (friends edges)) (λ a b. context_of_symmetric a b (friends edges))
