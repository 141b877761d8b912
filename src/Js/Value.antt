-- ===== src/Js/Value.antt =====
-- The values that the program receives from outside, and what reflection reports of them.
--
-- A property key that spells a canonical decimal (/^(0|[1-9]\d*)$/) is `index n`; every other
-- string key is a `name`. An array has its own property `length` beside those that are listed.
-- `exotic` is an object on which reflection throws, such as a revoked proxy.
use hodlxxi_social.Prelude.{
  ℕ, ◌-◌, ◌^◌, Bool, true, false, Option, none, some, List, [], ◌∷◌, ◌==◌, leb, ◌>>=◌, when,
}
use hodlxxi_social.Js.Text.{Text, ◌===◌}

-- `neg n` is -(n + 1); `inexact` is a fraction, an infinity or NaN.
pub data Number : Type 0 where
  nat : ℕ → Number
  neg : ℕ → Number
  inexact : Number

-- `standard` is Object.prototype for an object and Array.prototype for an array.
pub data Proto : Type 0 where
  standard without other : Proto

pub data Key : Type 0 where
  index : ℕ → Key
  name : Text → Key
  symbol : ℕ → Key

-- `primitive` is a symbol or a bigint.
mutual
  pub data Value : Type 0 where
    undefined null function primitive exotic : Value
    boolean : Bool → Value
    number : Number → Value
    string : Text → Value
    object : Proto → Props → Value
    array : Proto → ℕ → Props → Value

  pub data Props : Type 0 where
    end : Props
    field : Key → (enumerable : Bool) → Value → Props → Props
    accessor : Key → (enumerable : Bool) → Props → Props

-- A descriptor: an accessor has no `value`.
pub record Entry : Type 0 where
  pub key : Key
  pub enumerable : Bool
  pub content : Option Value

abbrev pub entries : Props → List Entry
entries end = []
entries (field k e v ps) = record { key = k; enumerable = e; content = some v } ∷ entries ps
entries (accessor k e ps) = record { key = k; enumerable = e; content = none } ∷ entries ps

unfoldable pub key_eq : Key → Key → Bool
unfolding ◌===◌
key_eq (index i) (index j) = i == j
key_eq (name s) (name t) = s === t
key_eq (symbol i) (symbol j) = i == j
key_eq _ _ = false

-- descriptors[key]
unfoldable pub descriptor : Key → List Entry → Option Entry
unfolding key_eq
descriptor k [] = none
descriptor k (e ∷ es) = elim (key_eq e.key k) [ true ↦ some e | false ↦ descriptor k es ]

-- The value of an own enumerable data property.
unfoldable pub data_value : Key → List Entry → Option Value
unfolding descriptor
data_value k es = do e ← descriptor k es; when e.enumerable e.content

abbrev pub max_safe_integer : ℕ
max_safe_integer = 2 ^ 53 - 1

-- Number.isSafeInteger(v) && v >= 0
abbrev pub safe_natural : Value → Option ℕ
safe_natural (number (nat n)) = when (leb n max_safe_integer) (some n)
safe_natural _ = none

-- typeof v === "string" ? v : undefined
abbrev pub as_string : Value → Option Text
as_string (string s) = some s
as_string _ = none

-- v === s, v === true
abbrev pub is_text : Text → Value → Bool
is_text s (string t) = t === s
is_text s _ = false

abbrev pub is_true : Value → Bool
is_true (boolean b) = b
is_true _ = false

-- What a call of a foreign function answers.
pub data Outcome {ℓ} (A : Type ℓ) : Type ℓ where
  returns : A → Outcome A
  throws : Outcome A
