-- ===== src/Js/Parse.antt =====
-- JSON.parse of the language: a scanner that reads each code unit once, and a parser that reads each
-- token once. `real` reads the numerals that are not decimals up to 2 ^ 53 - 1: a sign, a fraction, an
-- exponent or the rounding of a long numeral to a double are its own.
pub mod Printed
pub mod Scanning
pub mod Quoting
pub mod Decimals
use hodlxxi_social.Prelude.{
  ℕ, zero, suc, ◌+◌, ◌-◌, ◌*◌, Bool, true, false, ◌&&◌, ◌||◌, Option, none, some, List, [], ◌∷◌,
  ◌++◌, ◌==◌, ltb, leb, if◌then◌else◌, length, all, when, ◌>>=◌,
}
use hodlxxi_social.Js.Text.{Text, lit, ◌===◌, in_range, is_digit, is_alphanumeric}
use hodlxxi_social.Js.Value.{
  max_safe_integer, Number, nat, Key, index, name, Value, null, boolean, number, string, object,
  standard, Props, end, field, accessor, key_eq,
}
use hodlxxi_social.Js.Record.Laws.{array_value}

-- `phrase` is a string, `plain` is null, a Boolean or a number.
pub data Token : Type 0 where
  left_brace right_brace left_bracket right_bracket comma colon : Token
  phrase : Text → Token
  plain : Value → Token

-- What the scanner is inside of, with the code units of it so far. `numbered t k u` has read the
-- digits of an escape except for the last k, and u is their value.
pub data Mode : Type 0 where
  between : Mode
  quoting escaped literal : Text → Mode
  numbered : Text → ℕ → ℕ → Mode

abbrev is_space : ℕ → Bool
is_space c = c == 32 || c == 9 || c == 10 || c == 13

-- The code units of numerals and of null, true and false.
abbrev pub is_literal : ℕ → Bool
is_literal c = is_alphanumeric c || c == b'+' || c == b'-' || c == b'.'

unfoldable pub digits_from : ℕ → Text → ℕ
digits_from n [] = n
digits_from n (c ∷ t) = digits_from (n * 10 + (c - b'0')) t

-- The parts of a numeral: -? (0 | [1-9]\d*) (\.\d+)? ([eE][+-]?\d+)?
pub data Place : Type 0 where
  start minus nought whole point fraction exponent sign power : Place

unfoldable pub numeral_unit : Place → ℕ → Option Place
numeral_unit start c =
    if c == b'-'
    then some minus
    else if c == b'0'
    then some nought
    else when (is_digit c) (some whole)
numeral_unit minus c = if c == b'0' then some nought else when (is_digit c) (some whole)
numeral_unit nought c =
    if c == b'.' then some point else when (c == b'e' || c == b'E') (some exponent)
numeral_unit whole c =
    if is_digit c
    then some whole
    else if c == b'.'
    then some point
    else when (c == b'e' || c == b'E') (some exponent)
numeral_unit point c = when (is_digit c) (some fraction)
numeral_unit fraction c =
    if is_digit c then some fraction else when (c == b'e' || c == b'E') (some exponent)
numeral_unit exponent c =
    if c == b'+' || c == b'-' then some sign else when (is_digit c) (some power)
numeral_unit sign c = when (is_digit c) (some power)
numeral_unit power c = when (is_digit c) (some power)

unfoldable pub numeral_from : Place → Text → Bool
unfolding numeral_unit
numeral_from nought [] = true
numeral_from whole [] = true
numeral_from fraction [] = true
numeral_from power [] = true
numeral_from _ [] = false
numeral_from p (c ∷ t) = elim (numeral_unit p c) [ none ↦ false | some q ↦ numeral_from q t ]

-- A single escape: the letter after the backslash.
unfoldable pub escape : ℕ → Option ℕ
escape c =
    if c == b'"' || c == b'\\' || c == b'/'
    then some c
    else if c == b'b'
    then some 8
    else if c == b'f'
    then some 12
    else if c == b'n'
    then some 10
    else if c == b'r'
    then some 13
    else when (c == b't') (some 9)

unfoldable pub hex_digit : ℕ → Option ℕ
hex_digit c =
    if is_digit c
    then some (c - b'0')
    else if in_range b'a' b'f' c
    then some (c - b'a' + 10)
    else when (in_range b'A' b'F' c) (some (c - b'A' + 10))

-- A string key of an object, as the language lists it.
unfoldable pub key_of : Text → Key
unfolding digits_from
key_of [] = name []
key_of (c ∷ t) =
    if is_digit c && all is_digit t && (t === [] || ltb b'0' c)
    then index (digits_from 0 (c ∷ t))
    else name (c ∷ t)

-- A later member with the same key replaces the value.
unfoldable pub put : Key → Value → Props → Props
unfolding key_eq
put k v end = field k true v end
put k v (field l e w ps) = elim (key_eq k l) [
  | true ↦ field k true v ps
  | false ↦ field l e w (put k v ps)
]
put k v (accessor l e ps) = accessor l e (put k v ps)

module _ (real : Text → Number) where
  unfoldable pub number_of : Text → Number
  unfolding digits_from
  number_of t =
      if all is_digit t && leb (digits_from 0 t) max_safe_integer
      then nat (digits_from 0 t)
      else real t

  unfoldable pub literal_value : Text → Option Value
  unfolding number_of numeral_from
  literal_value t =
      if t === lit "null"
      then some null
      else if t === lit "true"
      then some (boolean true)
      else if t === lit "false"
      then some (boolean false)
      else when (numeral_from start t) (some (number (number_of t)))

  -- A code unit outside strings and literals.
  unfoldable pub scan_between : ℕ → Option (List Token × Mode)
  scan_between c =
      if is_space c
      then some ([], between)
      else if c == b'{'
      then some (left_brace ∷ [], between)
      else if c == b'}'
      then some (right_brace ∷ [], between)
      else if c == b'['
      then some (left_bracket ∷ [], between)
      else if c == b']'
      then some (right_bracket ∷ [], between)
      else if c == b','
      then some (comma ∷ [], between)
      else if c == b':'
      then some (colon ∷ [], between)
      else if c == b'"'
      then some ([], quoting [])
      else when (is_literal c) (some ([], literal (c ∷ [])))

  unfoldable pub scan_unit : Mode → ℕ → Option (List Token × Mode)
  unfolding scan_between literal_value escape hex_digit
  scan_unit between c = scan_between c
  scan_unit (quoting t) c =
      if c == b'"'
      then some (phrase t ∷ [], between)
      else if c == b'\\'
      then some ([], escaped t)
      else when (leb 32 c) (some ([], quoting (t ++ (c ∷ []))))
  scan_unit (escaped t) c =
      if c == b'u'
      then some ([], numbered t 4 0)
      else do u ← escape c; some ([], quoting (t ++ (u ∷ [])))
  scan_unit (numbered t k u) c = do
    d ← hex_digit c
    let u' = u * 16 + d
    some ([], if leb k 1 then quoting (t ++ (u' ∷ [])) else numbered t (k - 1) u')
  scan_unit (literal t) c =
      if is_literal c
      then some ([], literal (t ++ (c ∷ [])))
      else do v ← literal_value t; (ts, m) ← scan_between c; some (plain v ∷ ts, m)

  unfoldable pub scan : Mode → Text → Option (List Token)
  unfolding scan_unit literal_value
  scan between [] = some []
  scan (literal t) [] = do v ← literal_value t; some (plain v ∷ [])
  scan _ [] = none
  scan m (c ∷ t) = do (ts, m') ← scan_unit m c; rest ← scan m' t; some (ts ++ rest)

-- The arrays and objects that are open, innermost first; a member waits for its value.
pub data Frame : Type 0 where
  items : List Value → Frame
  members : Props → Text → Frame

-- What may follow.
pub data State : Type 0 where
  any_value first_item first_member : List Frame → State
  next_item : List Value → List Frame → State
  member next_member : Props → List Frame → State
  named : Text → Props → List Frame → State
  done : Value → State

unfoldable pub after : Value → List Frame → State
unfolding key_of put
after v [] = done v
after v (items vs ∷ fs) = next_item (vs ++ (v ∷ [])) fs
after v (members ps k ∷ fs) = next_member (put (key_of k) v ps) fs

unfoldable pub begin : List Frame → Token → Option State
unfolding after
begin fs left_brace = some (first_member fs)
begin fs left_bracket = some (first_item fs)
begin fs (phrase t) = some (after (string t) fs)
begin fs (plain v) = some (after v fs)
begin fs _ = none

unfoldable pub parse_token : State → Token → Option State
unfolding begin after
parse_token (any_value fs) k = begin fs k
parse_token (first_item fs) right_bracket = some (after (array_value []) fs)
parse_token (first_item fs) k = begin (items [] ∷ fs) k
parse_token (next_item vs fs) comma = some (any_value (items vs ∷ fs))
parse_token (next_item vs fs) right_bracket = some (after (array_value vs) fs)
parse_token (first_member fs) right_brace = some (after (object standard end) fs)
parse_token (first_member fs) (phrase k) = some (named k end fs)
parse_token (member ps fs) (phrase k) = some (named k ps fs)
parse_token (named k ps fs) colon = some (any_value (members ps k ∷ fs))
parse_token (next_member ps fs) comma = some (member ps fs)
parse_token (next_member ps fs) right_brace = some (after (object standard ps) fs)
parse_token _ _ = none

unfoldable pub parse_tokens : State → List Token → Option Value
unfolding parse_token
parse_tokens (done v) [] = some v
parse_tokens _ [] = none
parse_tokens s (k ∷ ks) = do s' ← parse_token s k; parse_tokens s' ks

unfoldable pub json_parse : (Text → Number) → Text → Option Value
unfolding scan parse_tokens
json_parse real t = do ks ← scan real between t; parse_tokens (any_value []) ks
