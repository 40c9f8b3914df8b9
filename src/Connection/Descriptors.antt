-- ===== src/Connection/Descriptors.antt =====
-- Which descriptors the operations on connections and acceptors open and close.
use yonaa.Base.{ℕ, ◌≡◌, ◌≢◌, ◌⊎◌, refl, inl, inr, true, false, Bool-cases, arith}
use yonaa.Os.Events.{Trace}
use yonaa.Os.Platform.{Platform, SetsErrno, RecvFits, accept_fails}
use yonaa.Os.Descriptors.{is_open, AcceptsNew}
use yonaa.Buffer
use yonaa.Connection.{
  Connection, ErrorCode, is_connected, disconnect, destroy, receive, receive_sized, max_buffer_size,
  from_native_socket,
}
use yonaa.Connection.Receiving.{Receives, receive_sized-Receives}
use yonaa.Acceptor
use yonaa.Acceptor.{Acceptor, accept, accept_on}
use yonaa.Acceptor.Accepting.{AcceptReply-cases}
use yonaa.SocketOps.{get_local_endpoint}

-- A connection on the descriptor `n`, or one that was closed.
abbrev pub Owns : ℕ → Connection → Type 0
Owns n c = (c.socket ≡ n) ⊎ (c.socket ≡ 0)

pub is_open-disconnect :
    (n : ℕ) (c : Connection) (fd : ℕ) (w : Trace)
    → Owns n c
    → fd ≢ n
    → is_open (disconnect c w).1 fd ≡ is_open w fd
unfolding disconnect
is_open-disconnect n c fd w own ne = ground arith

pub is_open-destroy :
    (n : ℕ) (c : Connection) (fd : ℕ) (w : Trace)
    → Owns n c
    → fd ≢ n
    → is_open (destroy c w).1 fd ≡ is_open w fd
unfolding destroy
is_open-destroy n c fd w own ne = ground (arith, is_open-disconnect n c fd w own ne)

-- A call of `receive` for a connection on `n`: the connection is on `n` still or closed, no other
-- descriptor is closed, and none at all if some bytes came.
abbrev pub Leaves : ℕ → Trace → (Buffer.Buffer × Connection × ErrorCode) × Trace → Type 0
Leaves n w r =
    Owns n r.0.1
    × ((fd : ℕ) → fd ≢ n → is_open r.1 fd ≡ is_open w fd)
    × ((Buffer.size r.0.0 ≢ 0) → (fd : ℕ) → is_open r.1 fd ≡ is_open w fd)

-- A call of `accept` gives a connection on a descriptor that was not open, and is now; or it
-- fails, and sets the error code. No other descriptor changes.
abbrev pub Opens : Trace → (Connection × ErrorCode) × Trace → Type 0
Opens w r =
    ((fd : ℕ) → is_open w fd ≡ true → is_open r.1 fd ≡ true)
    × (((is_open w r.0.0.socket ≡ false) × (is_open r.1 r.0.0.socket ≡ true))
        ⊎ ((r.0.1 ≢ 0) × (r.0.0.socket ≡ 0)))

module _ (P : Platform) where
  module _ (fits : RecvFits P) (errors : SetsErrno P) where
    pub receive-Leaves :
        (n : ℕ) (c : Connection) (ec flags : ℕ) (w : Trace)
        → Owns n c
        → Leaves n w (receive P c ec flags w)
    unfolding receive receive_sized
    receive-Leaves n c ec flags w own = elim (Bool-cases (is_connected c)) [
      | inl on ↦
          go on (receive_sized P c max_buffer_size ec flags w)
            (receive_sized-Receives P fits errors c max_buffer_size ec flags w on (λ e. cc))
      | inr off ↦ rw off (own, (λ fd ne. refl), (λ some fd. refl))
    ]
      where
        go :
            is_connected c ≡ true
            → (r : (Buffer.Buffer × Connection × ErrorCode) × Trace)
            → Receives P c max_buffer_size ec w r
            → Leaves n w r
        go on r (flags, inl h) = rw (h.2, h.4) (own, (λ fd ne. refl), (λ some fd. refl))
        go on r (flags, inr (inl h)) =
            rw (h.0, h.1, h.3) (inr refl, (λ fd ne. ground arith), (λ some. absurd (some refl)))
        go on r (flags, inr (inr h)) = rw (h.1, h.3) (own, (λ fd ne. refl), (λ some fd. refl))

  module _ (fresh : AcceptsNew P) (errors : SetsErrno P) where
    accept_on-Opens : (a : Acceptor) (ec : ℕ) (w : Trace) → Opens w (accept_on P a ec w)
    unfolding accept_on from_native_socket get_local_endpoint
    accept_on-Opens a ec w = elim (AcceptReply-cases (P.accept a.socket w)) [
      | inl e ↦ rw (e, accept_on) ((λ fd h. h), inr (errors _ w accept_fails, refl))
      | inr (fd, addr, e) ↦
          rw (e, accept_on)
            ((λ fd' h. ground arith), inl (fresh a.socket w fd addr e, ground arith))
    ]

    pub accept-Opens : (a : Acceptor) (ec : ℕ) (w : Trace) → Opens w (accept P a ec w)
    unfolding accept
    accept-Opens a ec w = elim (Bool-cases (Acceptor.is_open a)) [
      | inl on ↦ rw on (accept_on-Opens a ec w)
      | inr off ↦ rw off ((λ fd h. h), inr ((λ e. cc), refl))
    ]
