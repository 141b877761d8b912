-- ===== src/Sessions/Native/Interleaving/Installs.antt =====
-- The parts of an installation and of its cancellation do sequences of calls to the store.
use mathlib.Core.Option.{some-injective}
use hodlxxi_social.Prelude.{
  ℕ, suc, ◌≡◌, ap, ◌∙◌, ◌≢◌, Bool, true, false, Option, none, some, List, [], ◌∷◌,
}
use hodlxxi_social.Js.Text.{Text}
use hodlxxi_social.Js.Value.{Value, string, Outcome}
use hodlxxi_social.Capability.Random.{Drawn}
use hodlxxi_social.Sessions.Bounded.{as_key, Config}
use hodlxxi_social.Sessions.Store.Mobile.{Session}
use hodlxxi_social.Sessions.Native.Records.{NativeRecord, record_object}
use hodlxxi_social.Sessions.Native.{native_of}
use hodlxxi_social.Sessions.Native.Install.{
  Installing, install_begins, sweep_aliases, install_enters, key_of_bytes, install_new,
  install_again, install_ends, Cancelling, cancel_begins, cancel_enters, cancel_ends,
}
use hodlxxi_social.Sessions.Native.Sparing.{
  quiet, Sparing, bind-Sparing, then-Sparing, lift-Sparing, pure-Sparing, fail-Sparing,
  require-Sparing, returned-Sparing, now-Sparing, enqueue-Sparing, finish-Sparing,
  finish_failed-Sparing, get-Sparing, get_for_logout-Sparing, begin_logout-Sparing, create-Sparing,
  lift_bind-Sparing,
}
use hodlxxi_social.Sessions.Native.Install.{
  forget_if, withdraw_unless, installed, withdraw_alias, withdraw,
}
use hodlxxi_social.Sessions.Native.Interleaving.Parts.{checked-Sparing}

module _ (config : Config) (capacity : ℕ) (k : Text) where
  pub install_begins-Sparing :
      (reading source expectations : Value)
      → Sparing config k (install_begins capacity reading source expectations)
  unfolding install_begins
  install_begins-Sparing reading source expectations =
      bind-Sparing config k (lift-Sparing config k _) (λ expected.
        bind-Sparing config k (now-Sparing config k reading) (λ at.
          bind-Sparing config k (lift-Sparing config k _) (λ response.
            bind-Sparing config k (lift-Sparing config k _) (λ native.
              bind-Sparing config k (enqueue-Sparing config k capacity _)
                (λ ticket. pure-Sparing config k _)))))

  forget_if-Sparing :
      (s : Option Session) (issuance : Text) → Sparing config k (forget_if s issuance)
  forget_if-Sparing none issuance = record { extends = λ m. quiet config k m.store }
  forget_if-Sparing (some s) issuance = record { extends = λ m. quiet config k m.store }

  sweep_aliases-Sparing :
      (clock : ℕ → ℕ → ℕ) (i : ℕ) (aliases : List (Text × Text))
      → Sparing config k (sweep_aliases clock i aliases)
  unfolding sweep_aliases
  sweep_aliases-Sparing clock i [] = pure-Sparing config k tt
  sweep_aliases-Sparing clock i ((issuance, id) ∷ rest) =
      bind-Sparing config k (get_for_logout-Sparing config k (clock i) id) (λ retained.
        then-Sparing config k (forget_if-Sparing retained issuance)
          (sweep_aliases-Sparing clock (suc i) rest))

  pub install_enters-Sparing :
      (still : ℕ → Outcome Bool) (reading : Value) (clock : ℕ → ℕ → ℕ) (installing : Installing)
      → Sparing config k (install_enters still reading clock installing)
  unfolding install_enters
  install_enters-Sparing still reading clock installing =
      finish_failed-Sparing config k installing.ticket (
        bind-Sparing config k (now-Sparing config k reading) (λ at.
          bind-Sparing config k (record { extends = λ m. quiet config k m.store })
            (λ aliases. bind-Sparing config k (sweep_aliases-Sparing clock 0 aliases) (λ u.
              bind-Sparing config k (returned-Sparing config k (still 0))
                (λ current. require-Sparing config k current)))))

  withdraw-Sparing {ℓ} :
      {A : Type ℓ} (clock : ℕ → ℕ) (id : Text) → Sparing config k (withdraw {A = A} clock id)
  withdraw-Sparing clock id =
      bind-Sparing config k (begin_logout-Sparing config k clock id)
        (λ state. fail-Sparing config k)

  withdraw_unless-Sparing :
      (kept : Bool) (clock : ℕ → ℕ) (id : Text) → Sparing config k (withdraw_unless kept clock id)
  withdraw_unless-Sparing true clock id = pure-Sparing config k tt
  withdraw_unless-Sparing false clock id = withdraw-Sparing clock id

  as_key-string : (s t : Text) → as_key (string s) ≡ some t → s ≡ t
  as_key-string [] t h = cc
  as_key-string (c ∷ s) t h = some-injective _ _ h

  install_new-Sparing :
      (entropy : Drawn) (clock : ℕ → ℕ) (native : NativeRecord)
      → key_of_bytes entropy ≢ some k
      → Sparing config k (install_new config capacity entropy clock native)
  unfolding install_new
  install_new-Sparing entropy clock native h =
      bind-Sparing config k (record { extends = λ m. quiet config k m.store })
        (λ count. then-Sparing config k (require-Sparing config k _) (
          lift_bind-Sparing config k (key_of_bytes entropy) _ (λ id drawn.
            bind-Sparing config k
              (create-Sparing config k clock (string id) (record_object native)
                (λ same. h (drawn ∙ ap some (as_key-string id k same))))
              (λ made. then-Sparing config k (require-Sparing config k _) (
                then-Sparing config k (record { extends = λ m. quiet config k m.store })
                  (pure-Sparing config k id))))))

  install_again-Sparing :
      (clock : ℕ → ℕ) (id : Text) (native : NativeRecord)
      → Sparing config k (install_again clock id native)
  unfolding install_again
  install_again-Sparing clock id native =
      bind-Sparing config k (get-Sparing config k clock id) (λ original.
        bind-Sparing config k (lift-Sparing config k (native_of original))
          (λ found. then-Sparing config k (require-Sparing config k _) (pure-Sparing config k id)))

  installed-Sparing :
      (entropy : Drawn) (clock : ℕ → ℕ) (native : NativeRecord) (alias : Option Text)
      → key_of_bytes entropy ≢ some k
      → Sparing config k (installed config capacity entropy clock native alias)
  installed-Sparing entropy clock native none h = install_new-Sparing entropy clock native h
  installed-Sparing entropy clock native (some id) h = install_again-Sparing clock id native

  pub install_ends-Sparing :
      (still : ℕ → Outcome Bool) (readings : ℕ → Value) (entropy : Drawn) (clock later : ℕ → ℕ)
      (installing : Installing) (answer : Outcome Value)
      → key_of_bytes entropy ≢ some k
      → Sparing config k
          (install_ends config capacity still readings entropy clock later installing answer)
  unfolding install_ends
  install_ends-Sparing still readings entropy clock later installing answer h =
      finish-Sparing config k installing.ticket (
        then-Sparing config k
          (checked-Sparing config capacity k (readings 0) installing.native answer)
          (bind-Sparing config k (returned-Sparing config k (still 1)) (λ current.
            then-Sparing config k (require-Sparing config k current) (
              bind-Sparing config k (now-Sparing config k (readings 1)) (λ before.
                then-Sparing config k (require-Sparing config k _) (
                  bind-Sparing config k (record { extends = λ m. quiet config k m.store })
                    (λ alias.
                      bind-Sparing config k
                        (installed-Sparing entropy clock installing.native alias h)
                        (λ id. bind-Sparing config k (returned-Sparing config k (still 2)) (λ kept.
                          then-Sparing config k (withdraw_unless-Sparing kept later id) (
                            bind-Sparing config k (now-Sparing config k (readings 2)) (λ at.
                              then-Sparing config k (withdraw_unless-Sparing _ later id)
                                (pure-Sparing config k _))))))))))))

  pub cancel_begins-Sparing : (source : Value) → Sparing config k (cancel_begins capacity source)
  unfolding cancel_begins
  cancel_begins-Sparing source = bind-Sparing config k (lift-Sparing config k _) (λ original.
      bind-Sparing config k (lift-Sparing config k _) (λ at.
        bind-Sparing config k (lift-Sparing config k _) (λ response.
          bind-Sparing config k (lift-Sparing config k _) (λ active_one.
            bind-Sparing config k (enqueue-Sparing config k capacity _)
              (λ ticket. pure-Sparing config k _)))))

  withdraw_alias-Sparing :
      (clock : ℕ → ℕ) (alias : Option Text) → Sparing config k (withdraw_alias clock alias)
  withdraw_alias-Sparing clock none = pure-Sparing config k tt
  withdraw_alias-Sparing clock (some id) =
      bind-Sparing config k (begin_logout-Sparing config k clock id)
        (λ state. pure-Sparing config k tt)

  pub cancel_enters-Sparing :
      (clock : ℕ → ℕ) (cancelling : Cancelling) → Sparing config k (cancel_enters clock cancelling)
  unfolding cancel_enters
  cancel_enters-Sparing clock cancelling =
      bind-Sparing config k (record { extends = λ m. quiet config k m.store })
        (λ alias. withdraw_alias-Sparing clock alias)

  pub cancel_ends-Sparing :
      (cancelling : Cancelling) (answer : Outcome Value)
      → Sparing config k (cancel_ends cancelling answer)
  unfolding cancel_ends
  cancel_ends-Sparing cancelling answer =
      finish-Sparing config k cancelling.ticket
        (bind-Sparing config k (returned-Sparing config k answer) (λ v. require-Sparing config k _))
