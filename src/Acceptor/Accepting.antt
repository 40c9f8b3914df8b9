-- ===== src/Acceptor/Accepting.antt =====
-- `acceptor::accept`: the connection that comes out of it.
use yonaa.Base.{ℕ, ◌≡◌, ◌≢◌, ◌⊎◌, ◌∙◌, inl, inr, refl, Bytes, true, length}
use yonaa.Base.Memory.{read_all}
use yonaa.Os.Events.{Trace, AcceptReply, accept_failed, accepted}
use yonaa.Os.Platform.{Platform, SetsErrno, accept_fails}
use yonaa.Endpoint.{from_native_address}
use yonaa.Endpoint.Laws.{bytes-from_native_address}
use yonaa.Connection.{Connection, ErrorCode, unopened, from_native_socket}
use yonaa.Acceptor.{Acceptor, is_open, accept, accept_on}

pub AcceptReply-cases :
    (r : AcceptReply) → (r ≡ accept_failed) ⊎ ((fd : ℕ) × (a : Bytes) × (r ≡ accepted fd a))
AcceptReply-cases accept_failed = inl refl
AcceptReply-cases (accepted fd a) = inr (fd, a, refl)

module _ (P : Platform) where
  -- After a call that began with `ec` after the history `w`: the connection has the descriptor and
  -- the remote address that the kernel gave, and the error code is as it was; or it is not opened,
  -- and the error code is set.
  abbrev pub Accepts : Acceptor → ErrorCode → Trace → Connection × ErrorCode → Type 0
  Accepts a ec w (c, ec') =
      ((fd : ℕ) × (addr : Bytes) × (P.accept a.socket w ≡ accepted fd addr)
        × (c.socket ≡ fd)
        × (c.remote_endpoint.storage.bytes ≡ addr)
        × (c.remote_endpoint.protocol ≡ a.local_endpoint.protocol)
        × (ec' ≡ ec))
      ⊎ ((c ≡ unopened) × (ec' ≢ 0))

  accept_on-Accepts :
      SetsErrno P
      → (a : Acceptor) (ec : ErrorCode) (w : Trace) → Accepts a ec w (accept_on P a ec w).0
  unfolding accept_on from_native_socket from_native_address
  accept_on-Accepts errors a ec w = elim (AcceptReply-cases (P.accept a.socket w)) [
    | inl h ↦ rw (h, accept_on) (inr (refl, errors _ w accept_fails))
    | inr (fd, addr, h) ↦
        rw (h, accept_on)
          (inl (
            fd,
            addr,
            refl,
            refl,
            bytes-from_native_address P a.local_endpoint.protocol addr (length addr)
                ∙ read_all P.stray addr,
            refl,
            refl,
          ))
  ]

  -- On an open acceptor `accept` gives a connection for what the kernel accepted, with the address
  -- of its other end, and keeps the error code; or it gives an unopened one and sets it. Assumed: a
  -- call that fails sets `errno`.
  pub accept-Accepts :
      SetsErrno P
      → (a : Acceptor) (ec : ErrorCode) (w : Trace) → is_open a ≡ true
      → Accepts a ec w (accept P a ec w).0
  unfolding accept
  accept-Accepts errors a ec w h = rw (h, accept) (accept_on-Accepts errors a ec w)
