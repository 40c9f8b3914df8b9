-- ===== src/Server/System/Ending.antt =====
-- What the destructor of a server closes.
use yonaa.Base.{ℕ, ◌+◌, ◌≡◌, ◌∙◌, true, false, refl}
use yonaa.Os.Platform.{Platform, SkipsZero}
use yonaa.Connection.Lifetime.{closes}
use yonaa.Server.{Handlers}
use yonaa.Server.Destroying.{destroy, held, closes-destroy_shut}
use yonaa.Server.System.{
  System, Phase, unstarted, spawned, opening, testing, accepting, messaging, clearing, closing,
  ended, is_joined, Reach, initial,
}
use yonaa.Server.System.Lifecycle.{listens, Reach-IsListening}

joined_listens : (p : Phase) → is_joined p ≡ true → listens p ≡ false
joined_listens unstarted h = refl
joined_listens ended h = refl
joined_listens spawned h = cc
joined_listens opening h = cc
joined_listens testing h = cc
joined_listens accepting h = cc
joined_listens messaging h = cc
joined_listens clearing h = cc
joined_listens closing h = cc

module _ (P : Platform) (H : Handlers) (positive : SkipsZero P) where
  -- When the destructor of a server has got past its `join`, it closes each descriptor as often as a
  -- connection of a client is open on it, and no other: no client's socket is left open, and the
  -- acceptor's socket is not closed a second time. Assumed: a new socket is not 0.
  pub Reach-destroy :
      (port : ℕ) {s : System}
      → Reach P H (initial P port) s
      → is_joined s.phase ≡ true
      → (fd : ℕ)
      → closes fd (destroy s.server s.history).1 ≡ closes fd s.history + held fd s.server.clients
  Reach-destroy port {s} r j fd =
      closes-destroy_shut fd s.server s.history
        (Reach-IsListening P H positive port r ∙ joined_listens s.phase j)
