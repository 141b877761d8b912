-- ===== src/Visibility/Tests.antt =====
-- A small graph: ann and bob are friends, bob and cas are friends, cas vouches for dan.
use hodlxxi_social.Prelude.{◌≡◌, refl, ◌↔◌, true, some, List, [], ◌∷◌, replicate}
use hodlxxi_social.Js.Text.{Text, lit}
use hodlxxi_social.Js.Value.{string}
use hodlxxi_social.Visibility.{
  full, friend, sponsor_trust, friend_of_friend, unrelated, Edge, normalize_public_key,
  relationship, relationship_context, visibility_decision,
}
use hodlxxi_social.Visibility.Graph.{Sees, visible_iff}

abbrev ann : Text
ann = replicate 64 b'a'

abbrev bob : Text
bob = replicate 64 b'b'

abbrev cas : Text
cas = replicate 64 b'c'

abbrev dan : Text
dan = replicate 64 b'd'

abbrev graph : List Edge
graph =
    record { type = friend; from = ann; to = bob }
    ∷ record { type = friend; from = cas; to = bob }
    ∷ record { type = sponsor_trust; from = cas; to = dan }
    ∷ []

made_edge :
    relationship (string (lit "friend")) (string (replicate 64 b'A')) (string bob)
    ≡ some (record { type = friend; from = ann; to = bob })
unfolding relationship
made_edge = refl

shared_friend :
    relationship_context (string (replicate 64 b'A')) (string cas) graph ≡ some friend_of_friend
unfolding relationship_context
shared_friend = refl

vouching_counts_for_nothing : relationship_context (string cas) (string dan) graph ≡ some unrelated
unfolding relationship_context
vouching_counts_for_nothing = refl

valid_ann : normalize_public_key (string ann) ≡ some ann
unfolding normalize_public_key
valid_ann = refl

valid_cas : normalize_public_key (string cas) ≡ some cas
unfolding normalize_public_key
valid_cas = refl

visible_iff_example :
    ((visibility_decision
        (some full)
        (relationship_context (string ann) (string cas) graph)
        true).visible
      ≡ true)
    ↔ Sees full graph ann cas
visible_iff_example = visible_iff full (string ann) (string cas) graph ann cas valid_ann valid_cas
