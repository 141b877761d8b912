-- ===== src/Js/Record/Holding.antt =====
-- What a field of a record that was taken apart says of the value: it has an own enumerable data property.
use hodlxxi_social.Prelude.{
  ◌≡◌, refl, sym, ap, ◌∙◌, Bool, true, false, Option, none, some, List, [], ◌∷◌, Bool-cases, inl,
  inr, when, if◌then◌else◌,
}
use hodlxxi_social.Js.Text.{Text, ◌===◌, ===_iff}
use hodlxxi_social.Js.Map
use hodlxxi_social.Js.Value.{
  Value, undefined, object, standard, Props, Entry, name, entries, data_value,
}
use hodlxxi_social.Js.Record.{Fields, or_undefined, pick, exact_entries, exact_record, property}

-- v is a plain object with the own enumerable data property k, whose value is w.
abbrev pub HasField : Value → Text → Value → Type 0
HasField v k w =
    (ps : Props) × (v ≡ object standard ps) × (data_value (name k) (entries ps) ≡ some w)

abbrev pub is_defined : Value → Bool
is_defined undefined = false
is_defined _ = true

or_undefined-eq :
    (o : Option Value) (w : Value) → or_undefined o ≡ w → is_defined w ≡ true → o ≡ some w
or_undefined-eq none w h d = absurd (cc)
or_undefined-eq (some v) w h d = ap some h

property-pick :
    (fs : List Text) (es : List Entry) (k : Text) (w : Value)
    → property (some (pick fs es)) k ≡ w
    → is_defined w ≡ true
    → data_value (name k) es ≡ some w
unfolding property pick Map.get
property-pick [] es k w h d = absurd (cc)
property-pick (f ∷ fs) es k w h d = elim (Bool-cases (f === k)) [
  | inl e ↦
      or_undefined-eq (data_value (name k) es) w
        (ap (λ t. or_undefined (data_value (name t) es)) (sym ((===_iff f k).0 e))
          ∙ first (f === k) _ _ e h)
        d
  | inr e ↦ property-pick fs es k w (later (f === k) _ _ e h) d
]
  where
    first :
        (b : Bool) (x : Value) (o : Option Value)
        → b ≡ true
        → or_undefined (if b then some x else o) ≡ w
        → x ≡ w
    first true x o e h = h
    first false x o e h = cc

    later :
        (b : Bool) (x : Value) (o : Option Value)
        → b ≡ false
        → or_undefined (if b then some x else o) ≡ w
        → or_undefined o ≡ w
    later true x o e h = cc
    later false x o e h = h

tested-property :
    (b : Bool) (r : Fields) (k : Text) (w : Value)
    → property (when b (some r)) k ≡ w
    → is_defined w ≡ true
    → property (some r) k ≡ w
unfolding property
tested-property true r k w h d = h
tested-property false r k w h d = absurd (cc)

pub own_fields-HasField :
    (ps : Props) (b : Bool) (fs : List Text) (k : Text) (w : Value)
    → property (when b (some (pick fs (entries ps)))) k ≡ w
    → is_defined w ≡ true
    → HasField (object standard ps) k w
own_fields-HasField ps b fs k w h d = (
  ps,
  refl,
  property-pick fs (entries ps) k w (tested-property b (pick fs (entries ps)) k w h d) d,
)

pub exact_record-HasField :
    (v : Value) (fs : List Text) (k : Text) (w : Value)
    → property (exact_record v fs) k ≡ w
    → is_defined w ≡ true
    → HasField v k w
unfolding exact_record exact_entries property
exact_record-HasField (object standard ps) fs k w h d = own_fields-HasField ps _ fs k w h d
exact_record-HasField v fs k w h d = absurd (cc)
