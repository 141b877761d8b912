-- ===== src/Capability/Store/Answers.antt =====
-- When `resolve` answers with an alias.
use hodlxxi_social.Prelude.{
  ℕ, ◌<◌, ◌≡◌, refl, sym, ◌∙◌, ◌↔◌, true, not, Option, none, some, leb, arith, subst,
}
use mathlib.Core.Option.{some-injective}
use hodlxxi_social.Js.Text.{Text, includes, ===_iff}
use hodlxxi_social.Js.Map.{get, IsMap}
use hodlxxi_social.Js.Map.Laws.{get-keep, passing, Every-get}
use hodlxxi_social.Js.Value.{Value}
use hodlxxi_social.Capability.Syntax.{direct_message}
use hodlxxi_social.Capability.Store.{
  Stored, Records, ResolveRequest, sweep, read_resolve, answer, resolve_request, resolve,
}
use hodlxxi_social.Capability.Configuration.{Config}
use hodlxxi_social.Capability.Store.Invariant.{Inv, IsStored}

pub get-sweep :
    (now : ℕ) (records : Records) (c : Text)
    → IsMap records
    → get (sweep now records) c ≡ passing (λ r. not (leb r.expires_at now)) (get records c)
unfolding sweep
get-sweep now records c h = get-keep (λ r. not (leb r.expires_at now)) records c h

-- A record stays while the time has not reached its expiry.
pub get-sweep_live :
    (now : ℕ) (records : Records) (c : Text) (s : Stored)
    → IsMap records
    → get records c ≡ some s
    → now < s.expires_at
    → get (sweep now records) c ≡ some s
get-sweep_live now records c s h e lt = ground (arith, get-sweep now records c h)

-- The store's record allows the request to be answered with its alias.
pub record Allows (q : ResolveRequest) (s : Stored) : Type 0 where
  pub subject : s.subject ≡ q.subject
  pub session : s.session_id ≡ q.session_id
  pub listed : includes q.current_aliases s.alias ≡ true
  pub live : q.now < s.expires_at

answer_iff :
    (q : ResolveRequest) (s : Stored) (a : Text)
    → s.purpose ≡ direct_message
    → (answer q (some s) ≡ some a) ↔ (Allows q s × (s.alias ≡ a))
unfolding answer
answer_iff q s a p = (
  (λ h. ground (arith, ===_iff s.subject q.subject, ===_iff s.session_id q.session_id)),
  (λ h. ground (
    arith,
    ===_iff s.subject q.subject,
    ===_iff s.session_id q.session_id,
    ===_iff s.purpose direct_message,
  )),
)

-- The sweep before the answer drops only what the answer refuses.
answer-passing :
    (q : ResolveRequest) (s : Stored)
    → answer q (passing (λ r. not (leb r.expires_at q.now)) (some s)) ≡ answer q (some s)
unfolding answer
answer-passing q s = ground arith

answer_option_iff :
    (q : ResolveRequest) (o : Option Stored) (a : Text)
    → ((s : Stored) → o ≡ some s → s.purpose ≡ direct_message)
    → (answer q (passing (λ r. not (leb r.expires_at q.now)) o) ≡ some a)
      ↔ ((s : Stored) × (o ≡ some s) × Allows q s × (s.alias ≡ a))
answer_option_iff q none a p = ((λ h. unfold answer in cc), (λ h. cc (h.1)))
answer_option_iff q (some s) a p =
    let iff = answer_iff q s a (p s refl) in
    (
      (λ h. let (allowed, same) = iff.0 (sym (answer-passing q s) ∙ h) in (s, refl, allowed, same)),
      (λ h.
          let (s', e, allowed, same) = h in
          answer-passing q s
          ∙ iff.1 (
              subst (λ t. Allows q t × (t.alias ≡ a)) (sym (some-injective s s' e))
                (allowed, same))),
    )

-- On a store that keeps its invariant, a request is answered with an alias exactly when the
-- capability is stored for the request's subject and session, has not expired at the request's
-- time, and the alias is the stored one and is still among the current aliases.
pub resolve_iff :
    (config : Config) (input : Value) (q : ResolveRequest) (records : Records) (a : Text)
    → Inv config records
    → read_resolve input ≡ some q
    → ((resolve input records).0 ≡ some a)
      ↔ ((s : Stored) × (get records q.capability ≡ some s) × Allows q s × (s.alias ≡ a))
unfolding resolve resolve_request
resolve_iff config input q records a v e =
    rw (e, resolve, get-sweep q.now records q.capability v.is_map)
      (answer_option_iff q (get records q.capability) a
        λ s f. (Every-get IsStored records q.capability s f v.stored).purpose_ok)
