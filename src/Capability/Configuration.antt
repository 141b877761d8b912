-- ===== src/Capability/Configuration.antt =====
-- The options of `createOpaqueRecipientCapabilityStore` of
-- src/server/opaque-recipient-capability.mjs, their defaults and their bounds.
use Prim.Native.Nat.{min}
use hodlxxi_social.Prelude.{ℕ, Bool, true, false, ◌&&◌, Option, some, leb, when, ◌>>=◌, ◌>>◌, guard}
use hodlxxi_social.Js.Value.{Value, undefined, function, number, nat, neg, inexact, safe_natural}
use hodlxxi_social.Capability.Syntax.{
  default_ttl_ms, max_ttl_ms, max_capabilities, default_per_session, max_per_session,
  default_per_subject, max_per_subject,
}

-- The argument of the constructor.
pub record Options : Type 0 where
  pub random : Value
  pub ttl_ms : Value
  pub capacity : Value
  pub per_session_capacity : Value
  pub per_subject_capacity : Value

pub record Config : Type 0 where
  pub ttl_ms : ℕ
  pub capacity : ℕ
  pub session_capacity : ℕ
  pub subject_capacity : ℕ

-- A default of a parameter.
unfoldable pub or_default : Value → Value → Value
or_default undefined d = d
or_default v d = v

-- Math.min(n, v) for a number `v`; of another `v` the constructor accepts nothing anyhow.
unfoldable pub math_min : ℕ → Value → Value
math_min n (number (nat m)) = number (nat (min n m))
math_min n (number (neg m)) = number (neg m)
math_min n _ = number inexact

unfoldable pub is_function : Value → Bool
is_function function = true
is_function _ = false

-- Number.isSafeInteger(v) && v >= 1 && v <= most
unfoldable pub in_bounds : ℕ → Value → Option ℕ
in_bounds most v = do n ← safe_natural v; when (leb 1 n && leb n most) (some n)

-- `none` is the TypeError.
unfoldable pub create : Options → Option Config
create o =
    let capacity = or_default o.capacity (number (nat max_capabilities)) in
    do
      guard (is_function (or_default o.random function))
      ttl ← in_bounds max_ttl_ms (or_default o.ttl_ms (number (nat default_ttl_ms)))
      size ← in_bounds max_capabilities capacity
      per_session ←
          in_bounds max_per_session
            (or_default o.per_session_capacity (math_min default_per_session capacity))
      guard (leb per_session size)
      per_subject ←
          in_bounds max_per_subject
            (or_default o.per_subject_capacity (math_min default_per_subject capacity))
      guard (leb per_subject size)
      guard (leb per_session per_subject)
      some (record {
        ttl_ms = ttl;
        capacity = size;
        session_capacity = per_session;
        subject_capacity = per_subject;
      })
