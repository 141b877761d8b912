-- ===== src/Js/Parse/Printed/Arrays.antt =====
-- Lists that are printed as arrays, item by item.
use hodlxxi_social.Prelude.{◌≡◌, refl, ap, ◌∙◌, List, [], ◌∷◌, ◌++◌, map, ++_assoc, All}
use hodlxxi_social.Js.Text.{Text}
use hodlxxi_social.Js.Parse.Printed.{Tree, array, Trees, none_left, tree, render, render_more}
use hodlxxi_social.Nostr.Json.{bracketed, separated}

abbrev pub trees_of {ℓ} : {A : Type ℓ} → (A → Tree) → List A → Trees
trees_of g [] = none_left
trees_of g (a ∷ xs) = tree (g a) (trees_of g xs)

module _ {ℓ} {A : Type ℓ} (f : A → Text) (g : A → Tree) where
  abbrev pub Prints : A → Type 0
  Prints a = (rest : Text) → f a ++ rest ≡ render (g a) rest

  separated-render :
      (a : A) (xs : List A) (rest : Text)
      → All Prints (a ∷ xs)
      → separated (map f (a ∷ xs)) ++ (b']' ∷ rest)
        ≡ render (g a) (render_more (trees_of g xs) rest)
  separated-render a [] rest (h, hs) = h (b']' ∷ rest)
  separated-render a (b ∷ xs) rest (h, hs) =
      ++_assoc (f a) (b',' ∷ separated (map f (b ∷ xs))) (b']' ∷ rest)
      ∙ ap (λ r. f a ++ (b',' ∷ r)) (separated-render b xs rest hs)
      ∙ h (b',' ∷ render (g b) (render_more (trees_of g xs) rest))

  pub bracketed-render :
      (xs : List A) (rest : Text)
      → All Prints xs
      → bracketed (map f xs) ++ rest ≡ render (array (trees_of g xs)) rest
  bracketed-render [] rest h = refl
  bracketed-render (a ∷ xs) rest h =
      ap (◌∷◌ b'[') (++_assoc (separated (map f (a ∷ xs))) (b']' ∷ []) rest)
      ∙ ap (◌∷◌ b'[') (separated-render a xs rest h)
