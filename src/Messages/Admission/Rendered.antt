-- ===== src/Messages/Admission/Rendered.antt =====
-- The values of a candidate request, printed: `canonical` of
-- src/server/messaging-device-admission-v1.mjs on the values that its checks pass.
use mathlib.Core.Option.{some-injective}
use hodlxxi_social.Prelude.{
  >>=-eq-some, ◌>>=◌, ◌>>◌, ◌⊎◌, if◌then◌else◌, guard-eq-some, guard, inl, inr, subst, map, ℕ, ◌≤◌,
  ◌≡◌, refl, sym, Bool, true, false, Option, some, [], ◌∷◌, ◌++◌, ++_assoc, all, arith,
}
use hodlxxi_social.Js.Text.{Text, lit, in_range, is_lower_hex, ===_iff}
use hodlxxi_social.Js.Value.{Value, Number, number, nat, string, null, is_text, max_safe_integer}
use hodlxxi_social.Js.Parse.Printed.{
  Tree, numeral, nothing, escaped, IsShown, IsPlain, render, value_of,
}
use hodlxxi_social.Nostr.Json.{quoted, decimal}
use hodlxxi_social.Js.Record.{property}
use hodlxxi_social.Messages.Wire.{text, parse_wire}
use hodlxxi_social.Sessions.Store.Mobile.{is_hex64}
use hodlxxi_social.Messages.Wire.Shown.{device_handle-IsShown}
use hodlxxi_social.Messages.Admission.Audience.{is_canonical_audience, is_path, path_from}
use hodlxxi_social.Messages.Admission.{
  printed, is_version, is_audience, is_path_value, is_handle, is_one, recipient_self_schema,
  parse_fields, read_recipient, body_recipient,
}

-- A value with the tree that prints it and is read back as it.
pub record IsRendered (v : Value) : Type 0 where
  pub tree : Tree
  pub units : Text
  pub prints : printed v ≡ some units
  pub renders : (rest : Text) → render tree rest ≡ units ++ rest
  pub plain : IsPlain tree
  pub denotes : value_of tree ≡ v

pub IsRendered-text : (t : Text) → all (in_range 0x20 0x7e) t ≡ true → IsRendered (string t)
unfolding printed quoted
IsRendered-text t h = record {
  tree = escaped t;
  units = quoted t;
  prints = refl;
  renders = λ rest. simp (++_assoc);
  plain = h;
  denotes = refl;
}

pub IsRendered-nat : (n : ℕ) → n ≤ max_safe_integer → IsRendered (number (nat n))
unfolding printed
IsRendered-nat n h = record {
  tree = numeral n;
  units = decimal n;
  prints = ground (arith, h);
  renders = λ rest. refl;
  plain = h;
  denotes = refl;
}

IsRendered-null : IsRendered null
unfolding printed
IsRendered-null = record {
  tree = nothing;
  units = lit "null";
  prints = refl;
  renders = λ rest. refl;
  plain = tt;
  denotes = refl;
}

pub hex-printable : (t : Text) → all is_lower_hex t ≡ true → all (in_range 0x20 0x7e) t ≡ true
hex-printable [] h = refl
hex-printable (c ∷ t) h = ground (arith, hex-printable t (ground arith))

shown-printable : (t : Text) → IsShown t → all (in_range 0x20 0x7e) t ≡ true
shown-printable [] h = refl
shown-printable (c ∷ t) h = ground (arith, shown-printable t (ground arith))

visible-printable :
    (t : Text) → all (in_range 0x21 0x7e) t ≡ true → all (in_range 0x20 0x7e) t ≡ true
visible-printable [] h = refl
visible-printable (c ∷ t) h = ground (arith, visible-printable t (ground arith))

path_from-printable :
    (b : Bool) (t : Text) → path_from b t ≡ true → all (in_range 0x20 0x7e) t ≡ true
unfolding path_from
path_from-printable b [] h = refl
path_from-printable true (c ∷ t) h =
    ground (arith, path_from-printable true t, path_from-printable false t)
path_from-printable false (c ∷ t) h = ground (arith, path_from-printable true t)

pub hex-IsRendered : (v : Value) → is_hex64 v ≡ true → IsRendered v
hex-IsRendered (string t) h = IsRendered-text t (hex-printable t (ground arith))
hex-IsRendered v h = cc

pub version-IsRendered : (v : Value) → is_version v ≡ true → IsRendered v
version-IsRendered (number (nat n)) h = IsRendered-nat n (ground arith)
version-IsRendered v h = cc

pub audience-IsRendered :
    (hostname : Text → Option Text) (v : Value) → is_audience hostname v ≡ true → IsRendered v
unfolding is_canonical_audience
audience-IsRendered hostname (string t) h = IsRendered-text t (visible-printable t (ground arith))
audience-IsRendered hostname v h = cc

pub path-IsRendered : (v : Value) → is_path_value v ≡ true → IsRendered v
unfolding is_path
path-IsRendered (string (c ∷ t)) h =
    IsRendered-text (c ∷ t) (ground (arith, path_from-printable false t (ground arith)))
path-IsRendered v h = cc

pub handle-IsRendered : (v : Value) → is_handle v ≡ true → IsRendered v
unfolding is_handle
handle-IsRendered (string t) h =
    IsRendered-text t (shown-printable t (device_handle-IsShown t (ground arith)))
handle-IsRendered v h = cc

pub is_text-IsRendered :
    (t : Text) (v : Value) → all (in_range 0x20 0x7e) t ≡ true → is_text t v ≡ true → IsRendered v
is_text-IsRendered t (string s) p h =
    IsRendered-text s (subst (λ u. all (in_range 0x20 0x7e) u ≡ true) (sym ((===_iff s t).0 h)) p)
is_text-IsRendered t v p h = cc

read_recipient-IsRendered :
    (real : Text → Number) (b : Text) (v : Value) → read_recipient real b ≡ some v → IsRendered v
unfolding read_recipient
read_recipient-IsRendered real b v h =
    let (r, parsed, h1) =
      >>=-eq-some
        (parse_fields real (string b) (map lit ("deviceHandle" ∷ "schema" ∷ "version" ∷ [])) 256) _
        h in
    let (u1, s1, h2) =
      >>=-eq-some (guard (is_text recipient_self_schema (property (some r) (lit "schema")))) _ h1 in
    let (u2, s2, h3) = >>=-eq-some (guard (is_one (property (some r) (lit "version")))) _ h2 in
    let (u3, s3, h4) =
      >>=-eq-some (guard (is_handle (property (some r) (lit "deviceHandle")))) _ h3 in
    subst IsRendered (some-injective _ _ h4) (handle-IsRendered _ (guard-eq-some _ s3))

branch :
    (b : Bool) (x y : Option Value) {o : Option Value}
    → (if b then x else y) ≡ o
    → ((b ≡ true) × (x ≡ o)) ⊎ ((b ≡ false) × (y ≡ o))
branch true x y h = inl (refl, h)
branch false x y h = inr (refl, h)

-- The operation and the handle that a body was read with.
pub body_recipient-IsRendered :
    (real : Text → Number) (operation : Value) (b : Text) (v : Value)
    → body_recipient real operation b ≡ some v
    → IsRendered operation × IsRendered v
unfolding body_recipient
body_recipient-IsRendered real operation b v h =
    elim (branch (is_text (lit "ciphertext-submit") operation)
      (parse_wire real (text b) >>= λ envelope. some null)
      (guard (is_text (lit "recipient-self-read") operation) >> read_recipient real b) h) [
        | inl (e, h0) ↦
            let (w, parsed, h1) =
              >>=-eq-some (parse_wire real (text b)) (λ envelope. some null) h0 in
            (
              is_text-IsRendered (lit "ciphertext-submit") operation refl e,
              subst IsRendered (some-injective _ _ h1) IsRendered-null,
            )
        | inr (e, h0) ↦
            let (u, submitted, h1) =
              >>=-eq-some (guard (is_text (lit "recipient-self-read") operation))
                (λ u. read_recipient real b) h0 in
            (
              is_text-IsRendered (lit "recipient-self-read") operation refl
                  (guard-eq-some _ submitted),
              read_recipient-IsRendered real b v h1,
            )
      ]
