-- ===== src/Sessions/Native/Action.antt =====
-- The state of the manager, and actions on it: an action that fails keeps what it has written.
use hodlxxi_social.Prelude.{
  ℕ, suc, Bool, true, false, not, Option, none, some, List, [], ◌∷◌, ◌++◌, ◌==◌, leb, ltb, length,
  if◌then◌else◌,
}
use hodlxxi_social.Js.Text.{Text, includes}
use hodlxxi_social.Js.Value.{Value, Outcome, returns, throws, safe_natural}
use hodlxxi_social.Sessions.Store.{Entries}

-- `queue` holds the pending works of `serialize` in the order in which they came, each with its
-- issuance; `next` numbers them. `previous` is the last reading of the clock, 0 before the first.
pub record Manager : Type 0 where
  pub store : Entries
  pub aliases : List (Text × Text)
  pub queue : List (ℕ × Text)
  pub next : ℕ
  pub previous : ℕ

abbrev pub Act {ℓ} : Type ℓ → Type ℓ
Act A = Manager → Option A × Manager

module _ {ℓ} {A : Type ℓ} where
  abbrev pub pure : A → Act A
  pure a m = (some a, m)

  abbrev pub fail : Act A
  fail m = (none, m)

  abbrev pub lift : Option A → Act A
  lift o m = (o, m)

  abbrev pub continue {κ} : {B : Type κ} → Option A × Manager → (A → Act B) → Option B × Manager
  continue (none, m) f = (none, m)
  continue (some a, m) f = f a m

infixl 5 ◌>>=◌ ◌>>◌
unfoldable pub ◌>>=◌ {ℓ κ} : {A : Type ℓ} {B : Type κ} → Act A → (A → Act B) → Act B
(act >>= f) m = continue (act m) f

unfoldable pub ◌>>◌ {ℓ} : {B : Type ℓ} → Act (Unit {0}) → Act B → Act B
act >> next = act >>= λ _. next

unfoldable pub require : Bool → Act (Unit {0})
require true m = (some tt, m)
require false m = (none, m)

unfoldable pub returned {ℓ} : {A : Type ℓ} → Outcome A → Act A
returned (returns a) = pure a
returned throws = fail

-- A call of the store.
unfoldable pub calls {ℓ} : {A : Type ℓ} → (Entries → A × Entries) → Act A
calls f m = let (a, store) = f m.store in (some a, record m { store = store })

-- `now`; a clock that throws answers no natural number.
unfoldable pub now : Value → Act ℕ
now reading m = elim (safe_natural reading) [
  | none ↦ (none, m)
  | some at ↦ if ltb at m.previous then (none, m) else (some at, record m { previous = at })
]

-- `serialize` before it waits: the number of the work.
unfoldable pub enqueue : ℕ → Text → Act ℕ
enqueue capacity issuance m =
    if leb capacity (length m.queue)
    then (none, m)
    else (some m.next, record m { queue = m.queue ++ ((m.next, issuance) ∷ []); next = suc m.next })

unfoldable pub remove : ℕ → List (ℕ × Text) → List (ℕ × Text)
remove ticket [] = []
remove ticket ((n, t) ∷ q) = if n == ticket then q else (n, t) ∷ remove ticket q

-- `serialize` after the work.
unfoldable pub release : ℕ → Manager → Manager
unfolding remove
release ticket m = record m { queue = remove ticket m.queue }

unfoldable pub finish {ℓ} : {A : Type ℓ} → ℕ → Act A → Act A
finish ticket act m = let (result, m') = act m in (result, release ticket m')

-- The work of a first part that failed is over.
unfoldable pub finish_failed {ℓ} : {A : Type ℓ} → ℕ → Act A → Act A
finish_failed ticket act m =
    let (result, m') = act m in (result, elim result [ none ↦ release ticket m' | some a ↦ m' ])

-- The work of the number may run: no work of its issuance came before it. `seen` holds the issuances
-- that did.
unfoldable pub is_first : List Text → ℕ → List (ℕ × Text) → Bool
unfolding includes
is_first seen ticket [] = false
is_first seen ticket ((n, t) ∷ q) =
    if n == ticket then not (includes seen t) else is_first (t ∷ seen) ticket q
