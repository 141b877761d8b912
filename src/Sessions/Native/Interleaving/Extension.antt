-- ===== src/Sessions/Native/Interleaving/Extension.antt =====
-- Any sequence of the parts of the handlers does a sequence of calls to the store.
use hodlxxi_social.Prelude.{ℕ, ◌≢◌, some, List, [], ◌∷◌}
use hodlxxi_social.Js.Text.{Text}
use hodlxxi_social.Sessions.Bounded.{Config}
use hodlxxi_social.Sessions.Native.Action.{Manager}
use hodlxxi_social.Sessions.Native.Install.{key_of_bytes}
use hodlxxi_social.Sessions.Native.Sparing.{Extends, chain, quiet}
use hodlxxi_social.Sessions.Native.Interleaving.{
  Event, begins_read, ends_read, begins_leaving, enters_leaving, ends_leaving, begins_install,
  enters_install, ends_install, begins_cancel, enters_cancel, ends_cancel, perform, perform_all,
}
use hodlxxi_social.Sessions.Native.Interleaving.Parts.{
  read_begins-Sparing, read_ends-Sparing, logout_begins-Sparing, logout_enters-Sparing,
  logout_ends-Sparing,
}
use hodlxxi_social.Sessions.Native.Interleaving.Installs.{
  install_begins-Sparing, install_enters-Sparing, install_ends-Sparing, cancel_begins-Sparing,
  cancel_enters-Sparing, cancel_ends-Sparing,
}

-- An event under which no installation draws the key.
abbrev pub SparesId : Text → Event → Type 0
SparesId k (ends_install still readings entropy clock later installing answer) =
    key_of_bytes entropy ≢ some k
SparesId k _ = Unit

abbrev pub AllSpareId : Text → List Event → Type 0
AllSpareId k [] = Unit
AllSpareId k (e ∷ es) = SparesId k e × AllSpareId k es

module _ (config : Config) (capacity : ℕ) (k : Text) where
  pub perform-Extends :
      (m : Manager) (e : Event)
      → SparesId k e
      → Extends config k m.store (perform config capacity m e).store
  unfolding perform
  perform-Extends m (begins_read clock id) h =
      (read_begins-Sparing config capacity k clock id).extends m
  perform-Extends m (ends_read readings clock id original answer) h =
      (read_ends-Sparing config capacity k readings clock id original answer).extends m
  perform-Extends m (begins_leaving clock later id) h =
      (logout_begins-Sparing config capacity k clock later id).extends m
  perform-Extends m (enters_leaving clock id leaving) h =
      (logout_enters-Sparing config capacity k clock id leaving).extends m
  perform-Extends m (ends_leaving id leaving answer) h =
      (logout_ends-Sparing config capacity k id leaving answer).extends m
  perform-Extends m (begins_install reading source expectations) h =
      (install_begins-Sparing config capacity k reading source expectations).extends m
  perform-Extends m (enters_install still reading clock installing) h =
      (install_enters-Sparing config capacity k still reading clock installing).extends m
  perform-Extends m (ends_install still readings entropy clock later installing answer) h =
      (install_ends-Sparing config capacity k still readings entropy clock later installing answer
          h).extends
        m
  perform-Extends m (begins_cancel source) h =
      (cancel_begins-Sparing config capacity k source).extends m
  perform-Extends m (enters_cancel clock cancelling) h =
      (cancel_enters-Sparing config capacity k clock cancelling).extends m
  perform-Extends m (ends_cancel cancelling answer) h =
      (cancel_ends-Sparing config capacity k cancelling answer).extends m

  pub perform_all-Extends :
      (m : Manager) (es : List Event)
      → AllSpareId k es
      → Extends config k m.store (perform_all config capacity m es).store
  unfolding perform_all
  perform_all-Extends m [] h = quiet config k m.store
  perform_all-Extends m (e ∷ es) (h, hs) =
      chain config k m.store (perform config capacity m e).store
        (perform_all config capacity (perform config capacity m e) es).store (perform-Extends m e h)
        (perform_all-Extends (perform config capacity m e) es hs)
