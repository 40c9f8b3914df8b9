-- ===== src/Acceptor/Opening.antt =====
-- `acceptor::open`: what is opened, and what the error code says.
use yonaa.Base.{ℕ, ◌≡◌, ◌≢◌, ◌⊎◌, inl, inr, refl, List, ◌∷◌, Bool, true, arith}
use yonaa.Os.Events.{Trace}
use yonaa.Os.Platform.{Platform, SkipsZero}
use yonaa.Endpoint.{Endpoint}
use yonaa.SocketOps.{create_listening_socket}
use yonaa.SocketOps.Listening.{ListensOnOne, create_listening_socket-Listens}
use yonaa.Connection.{ErrorCode}
use yonaa.Acceptor.{Acceptor, backlog_size, config_bits, reuse_address, is_open, open_at, open_on}

module _ (P : Platform) where
  abbrev reuse_addr : ℕ → Bool
  reuse_addr cfg = P.bitmask.test (P.bitmask.meet cfg (config_bits reuse_address))

  abbrev listening : List Endpoint → ℕ → Trace → ℕ × Trace
  listening es cfg = create_listening_socket P es backlog_size (reuse_addr cfg)

  -- After a call that began with `a` and `ec` after the history `w`: the acceptor is open on a
  -- socket that listens on one of the endpoints, and the error code is as it was; or the acceptor is
  -- as it was, and the error code is set.
  abbrev pub Opens :
      List Endpoint → Acceptor → ErrorCode → ℕ → Trace → Acceptor × ErrorCode → Type 0
  Opens es a ec cfg w (a', ec') =
      ((is_open a' ≡ true)
        × (ec' ≡ ec)
        × ListensOnOne P backlog_size (reuse_addr cfg) es a'.socket (listening es cfg w).1)
      ⊎ ((a' ≡ a) × (ec' ≢ 0))

  open_on-refused :
      (a : Acceptor) (es : List Endpoint) (ec : ErrorCode) (cfg : ℕ) (w : Trace)
      → (listening es cfg w).0 ≡ 0
      → (open_on P a es ec cfg w).0 ≡ (a, 32)
  unfolding open_on
  open_on-refused a es ec cfg w h = ground arith

  open_on-opened :
      (a : Acceptor) (es : List Endpoint) (ec : ErrorCode) (cfg : ℕ) (w : Trace)
      → (listening es cfg w).0 ≢ 0
      → ((open_on P a es ec cfg w).0.0.socket ≡ (listening es cfg w).0)
        × ((open_on P a es ec cfg w).0.1 ≡ ec)
  unfolding open_on
  open_on-opened a es ec cfg w h = ground arith

  -- For a list of endpoints that is not empty, `open` opens the acceptor on a socket that listens
  -- on one of them and keeps the error code, or leaves the acceptor alone and sets it. Assumed: a
  -- new socket is not 0.
  pub open_at-Opens :
      SkipsZero P
      → (a : Acceptor) (e : Endpoint) (es : List Endpoint) (ec : ErrorCode) (cfg : ℕ) (w : Trace)
      → Opens (e ∷ es) a ec cfg w (open_at P a (e ∷ es) ec cfg w).0
  unfolding open_at
  open_at-Opens positive a e es ec cfg w =
      elim (create_listening_socket-Listens P positive backlog_size (reuse_addr cfg) (e ∷ es) w) [
        | inl (p, h) ↦
            let (s, k) = open_on-opened a (e ∷ es) ec cfg w p in
            inl (rw s (ground arith), k, rw s h)
        | inr z ↦ rw (open_on-refused a (e ∷ es) ec cfg w z) (inr (refl, omega arith))
      ]
