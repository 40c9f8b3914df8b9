-- ===== src/Connection/Receiving.antt =====
-- `connection::receive`: the buffer, the connection and the error code on every branch.
use yonaa.Base.{
  ℕ, suc, ◌+◌, ◌≤◌, ◌≡◌, ◌≢◌, ◌⊎◌, ◌∙◌, inl, inr, refl, [], ◌∷◌, true, false, Bytes, arith, length,
  take-append, length-append, drop, ◌==◌, Bool-cases,
}
use yonaa.Base.Memory.{memcpy, read_all}
use yonaa.Os.Events.{RecvReply, recv_failed, received, Event, Trace}
use yonaa.Os.Platform.{Platform, SetsErrno, RecvFits, recv_fails}
use yonaa.Buffer
use yonaa.Buffer.{Buffer, resize, of_size}
use yonaa.Buffer.Laws.{bytes-resize, Buffer-eq}
use yonaa.Connection.Lifetime.{disconnect_connected}
use yonaa.Connection.{
  Connection, ErrorCode, is_connected, unopened, receive, receive_sized, receive_some, recv_bits,
  max_buffer_size,
}

RecvReply-cases :
    (r : RecvReply)
    → (r ≡ recv_failed) ⊎ (r ≡ received []) ⊎ ((b : ℕ) × (bs : Bytes) × (r ≡ received (b ∷ bs)))
RecvReply-cases recv_failed = inl refl
RecvReply-cases (received []) = inr (inl refl)
RecvReply-cases (received (b ∷ bs)) = inr (inr (b, bs, refl))

-- A buffer of zeros that was filled with `bs` and cut down to their length.
pub resize-memcpy :
    (stray : ℕ → ℕ) (dst bs : Bytes)
    → resize (record { bytes = memcpy stray dst bs (length bs) }) (length bs)
      ≡ record { bytes = bs }
unfolding resize
resize-memcpy stray dst bs = Buffer-eq _ _ (
    bytes-resize (record { bytes = stored }) (length bs) (omega (arith, stored-length))
    ∙ rw read_all (take-append bs (drop (length bs) dst)))
  where
    stored : Bytes
    stored = memcpy stray dst bs (length bs)

    stored-length : length stored ≡ length bs + length (drop (length bs) dst)
    stored-length = rw read_all (length-append bs (drop (length bs) dst))

pub suc-ne-zero : (n : ℕ) → (suc n == 0) ≡ false
suc-ne-zero n = ground arith

ne-zero : (n : ℕ) → n ≢ 0 → (n == 0) ≡ false
ne-zero n h = ground arith

module _ (P : Platform) where
  -- What a call with room for `size` bytes does, after the history `w`: it returns the bytes that
  -- were stored; or the other end has closed, and so is the connection now; or the call failed, and
  -- the connection stays as it was.
  abbrev pub Receives :
      Connection → ℕ → ErrorCode → Trace → (Buffer × Connection × ErrorCode) × Trace → Type 0
  Receives c size ec w ((b, c', ec'), w') =
      (flags : ℕ) × (((b.bytes ≢ [])
          × (Buffer.size b ≤ size)
          × (c' ≡ c)
          × (ec' ≡ ec)
          × (w' ≡ Event.recv c.socket size flags (received b.bytes) ∷ w))
        ⊎ ((b ≡ Buffer.empty)
            × (c' ≡ unopened)
            × (ec' ≡ P.errno w')
            × (w'
                ≡ Event.close c.socket
                  ∷ Event.shutdown c.socket
                  ∷ Event.recv c.socket size flags (received [])
                  ∷ w))
        ⊎ ((b ≡ Buffer.empty)
            × (c' ≡ c)
            × (ec' ≢ 0)
            × (w' ≡ Event.recv c.socket size flags recv_failed ∷ w)))

  received-size :
      {c : Connection} (size : ℕ) (ec : ErrorCode) {w : Trace}
      (r : (Buffer × Connection × ErrorCode) × Trace)
      → Receives c size ec w r
      → (Buffer.size r.0.0 ≤ size) × ((Buffer.size r.0.0 ≡ 0) ⊎ ((r.0.1 ≡ c) × (r.0.2 ≡ ec)))
  received-size size ec r (flags, inl h) = (h.1, inr (h.2, h.3))
  received-size size ec r (flags, inr (inl h)) = rw h.0 (omega arith, inl refl)
  received-size size ec r (flags, inr (inr h)) = rw h.0 (omega arith, inl refl)

  module _ (fits : RecvFits P) (errors : SetsErrno P) where
    receive_some-Receives :
        (c : Connection) (size : ℕ) (ec : ErrorCode) (flags : ℕ) (w : Trace)
        → is_connected c ≡ true
        → Receives c size ec w (receive_some P c size ec flags w)
    unfolding receive_some
    receive_some-Receives c size ec flags w h =
        let recv_flags = recv_bits P flags in
        elim (RecvReply-cases (P.recv c.socket size recv_flags w)) [
          | inl e ↦ (
            recv_flags,
            inr (inr (rw (e, receive_some) (refl, refl, errors _ w recv_fails, refl))),
          )
          | inr (inl e) ↦ (
            recv_flags,
            inr (
                inl (
                  rw (e, receive_some)
                    (rw
                      (disconnect_connected c
                        (Event.recv c.socket size recv_flags (received []) ∷ w) h)
                      (refl, refl, refl, refl)))),
          )
          | inr (inr (b, bs, e)) ↦ (
            recv_flags,
            inl (
                rw (e, receive_some)
                  (rw (suc-ne-zero (length bs), resize-memcpy P.stray (of_size size).bytes (b ∷ bs))
                    (λ k. cc, fits _ _ _ _ _ e, refl, refl, refl))),
          )
        ]

    -- On an open connection a call with room for some bytes returns what the kernel stored, in that
    -- order and no more than there is room for; or it closes the connection, as its other end has;
    -- or it fails, and sets the error code. Assumed: the kernel stores no more than there is room
    -- for, and a call that fails sets `errno`.
    pub receive_sized-Receives :
        (c : Connection) (size : ℕ) (ec : ErrorCode) (flags : ℕ) (w : Trace)
        → is_connected c ≡ true
        → size ≢ 0
        → Receives c size ec w (receive_sized P c size ec flags w)
    unfolding receive_sized
    receive_sized-Receives c size ec flags w h ne =
        rw (h, ne-zero size ne) (receive_some-Receives c size ec flags w h)

  -- A call without a size returns no more than 8192 bytes, on whatever connection; and one that
  -- returns some bytes leaves the connection and the error code as they were, so that an error or a
  -- closed connection comes with no data. Assumed: the kernel stores no more than there is room
  -- for, and a call that fails sets `errno`.
  pub receive-size :
      RecvFits P
      → SetsErrno P
      → (c : Connection) (ec : ErrorCode) (flags : ℕ) (w : Trace)
      → let r = (receive P c ec flags w).0 in
        (Buffer.size r.0 ≤ max_buffer_size) × ((Buffer.size r.0 ≡ 0) ⊎ ((r.1 ≡ c) × (r.2 ≡ ec)))
  unfolding receive receive_sized
  receive-size fits errors c ec flags w = elim (Bool-cases (is_connected c)) [
    | inl on ↦
        let r = receive_sized-Receives fits errors c max_buffer_size ec flags w on (λ e. cc) in
        received-size max_buffer_size ec (receive_sized P c max_buffer_size ec flags w) r
    | inr off ↦ rw off (omega arith, inl refl)
  ]
