-- ===== src/Js/Text.antt =====
-- Strings of JavaScript: sequences of UTF-16 code units, with `===`, `includes` and the
-- character classes that the regular expressions of the program use.
use Prim.Native.Char.{code}
use Prim.Native.String.{String}
use hodlxxi_social.Prelude.{
  ℕ, ◌+◌, ◌≡◌, refl, ◌↔◌, ◌⊎◌, inl, inr, Bool, true, false, ◌&&◌, ◌||◌, List, [], ◌∷◌, arith, ◌==◌,
  leb, Bool-cases,
}

abbrev pub Text : Type 0
Text = List ℕ

-- A literal of the source; those are all ASCII.
abbrev pub lit : String → Text
lit String.[] = []
lit (String.◌∷◌ c s) = code c ∷ lit s

-- `===` on strings
infix 50 ◌===◌
unfoldable pub ◌===◌ : Text → Text → Bool
[] === [] = true
(a ∷ s) === (b ∷ t) = a == b && s === t
_ === _ = false

===-sound : (s t : Text) → (s === t) ≡ true → s ≡ t
unfolding ◌===◌
===-sound [] [] h = refl
===-sound [] (b ∷ t) h = cc
===-sound (a ∷ s) [] h = cc
===-sound (a ∷ s) (b ∷ t) h = ground (arith, ===-sound s t)

pub ===_self : (s : Text) → (s === s) ≡ true
unfolding ◌===◌
===_self [] = refl
===_self (a ∷ s) = ground (arith, ===_self s)

-- `===` decides equality.
pub ===_iff : (s t : Text) → ((s === t) ≡ true) ↔ (s ≡ t)
===_iff s t = (===-sound s t, λ e. ===_complete e)
  where
    ===_complete : s ≡ t → (s === t) ≡ true
    ===_complete e = ground (arith, ===_self s)

pub Text-cases : (s t : Text) → (s ≡ t) ⊎ ((s === t) ≡ false)
Text-cases s t = elim (Bool-cases (s === t)) [ inl e ↦ inl (===-sound s t e) | inr e ↦ inr e ]

-- `includes` of an array of strings, `has` of a set of them
unfoldable pub includes : List Text → Text → Bool
includes [] s = false
includes (t ∷ ts) s = t === s || includes ts s

-- `startsWith`, an anchored alternative of a pattern
unfoldable pub starts_with : Text → Text → Bool
starts_with s [] = true
starts_with [] (b ∷ t) = false
starts_with (a ∷ s) (b ∷ t) = a == b && starts_with s t

-- The classes of the regular expressions.
abbrev pub in_range : ℕ → ℕ → ℕ → Bool
in_range lo hi c = leb lo c && leb c hi

-- \d, [0-9]
abbrev pub is_digit : ℕ → Bool
is_digit = in_range b'0' b'9'

-- [0-9a-f]
abbrev pub is_lower_hex : ℕ → Bool
is_lower_hex c = is_digit c || in_range b'a' b'f' c

-- [A-Za-z0-9]
abbrev pub is_alphanumeric : ℕ → Bool
is_alphanumeric c = in_range b'A' b'Z' c || in_range b'a' b'z' c || is_digit c

-- [A-Za-z0-9_-]
abbrev pub is_base64url_char : ℕ → Bool
is_base64url_char c = is_alphanumeric c || c == b'_' || c == b'-'

-- The case folding of the flag `i`, on ASCII.
abbrev pub to_lower : ℕ → ℕ
to_lower c = elim (in_range b'A' b'Z' c) [ true ↦ c + 32 | false ↦ c ]
