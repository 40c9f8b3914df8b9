-- ===== src/Connection/Transfer.antt =====
-- A message that `connection::send` sent, received at the other end.
use yonaa.Base.{
  ℕ, zero, suc, ◌+◌, ◌-◌, ◌≤◌, ◌≡◌, ◌≢◌, ◌⊎◌, ◌∙◌, inl, inr, refl, ap, [], ◌∷◌, ◌++◌, true, Bytes,
  arith, length, take, drop, append-nil, append_assoc, take-append-drop, length-append, length-drop,
  ==-refl, take-add,
}
use yonaa.Os.Events.{recv_failed, received, Event, Trace}
use yonaa.Os.Platform.{Platform, IsBitwise, SetsErrno, SendsSome, recv_fails}
use yonaa.Os.Outcome.{done}
use yonaa.Buffer
use yonaa.Buffer.{Buffer, of_size}
use yonaa.Connection.{
  Connection, ErrorCode, is_connected, receive, receive_sized, receive_some, recv_bits,
  max_buffer_size,
}
use yonaa.Connection.Send.{send}
use yonaa.Connection.Sending.{delivered, send-Sends}
use yonaa.Connection.Unseen.{send-unseen}
use yonaa.Connection.Receiving.{resize-memcpy, suc-ne-zero}
use yonaa.Connection.Stream.{collected, IsStream, gather, Gathers}

module _ (P : Platform) (L : IsBitwise P.bitmask) where
  recv_bits_zero : recv_bits P 0 ≡ 0
  unfolding recv_bits
  recv_bits_zero = rw (L.meet-eq, L.test-eq) refl

  receive_failed :
      (d : Connection) (ec : ErrorCode) (w : Trace)
      → is_connected d ≡ true
      → P.recv d.socket max_buffer_size 0 w ≡ recv_failed
      → let w' = Event.recv d.socket max_buffer_size 0 recv_failed ∷ w in
        receive P d ec 0 w ≡ ((Buffer.empty, d, P.errno w'), w')
  unfolding receive receive_sized receive_some
  receive_failed d ec w h e = rw (h, recv_bits_zero, e) refl

  receive_stored :
      (d : Connection) (ec : ErrorCode) (b : ℕ) (bs : Bytes) (w : Trace)
      → is_connected d ≡ true
      → P.recv d.socket max_buffer_size 0 w ≡ received (b ∷ bs)
      → receive P d ec 0 w ≡ (
        (record { bytes = b ∷ bs }, d, ec),
        Event.recv d.socket max_buffer_size 0 (received (b ∷ bs)) ∷ w,
      )
  unfolding receive receive_sized receive_some
  receive_stored d ec b bs w h e =
      rw (h, recv_bits_zero, e)
        (rw
          (suc-ne-zero (length bs), resize-memcpy P.stray (of_size max_buffer_size).bytes (b ∷ bs))
          refl)

  send-collected :
      (b : ℕ) (c : Connection) (m : Buffer) (ec flags : ℕ) (w : Trace)
      → collected b (send P c m ec flags w).1 ≡ collected b w
  send-collected b = send-unseen (collected b) (λ fd bs flags r w. append-nil (collected b w)) P

  Gathers-more :
      (n : ℕ) (rest : Bytes) (r : (Bytes × ErrorCode) × Trace)
      → Gathers (drop n rest) r
      → Gathers rest ((take n rest ++ r.0.0, r.0.1), r.1)
  Gathers-more n rest r (inl (e, none)) = inl (rw e (take-append-drop n rest), none)
  Gathers-more n rest r (inr (some, m, e)) = inr (some, n + m, rw e (take-add n m rest))

  length-rest : (n : ℕ) (bs : Bytes) → length bs - length (take n bs) ≡ length (drop n bs)
  length-rest n bs =
      omega (arith, length-append (take n bs) (drop n bs), ap length (take-append-drop n bs))

  gather_error :
      (calls wanted : ℕ) (d : Connection) (ec : ErrorCode) (w : Trace)
      → ec ≢ 0
      → gather P calls wanted d ec w ≡ (([], ec), w)
  unfolding gather
  gather_error zero wanted d ec w h = refl
  gather_error (suc calls) wanted d ec w h = ground arith

  gather_failed :
      (calls wanted : ℕ) (d : Connection) (w : Trace)
      → is_connected d ≡ true
      → P.recv d.socket max_buffer_size 0 w ≡ recv_failed
      → let w' = Event.recv d.socket max_buffer_size 0 recv_failed ∷ w in
        P.errno w' ≢ 0 → gather P (suc calls) (suc wanted) d 0 w ≡ (([], P.errno w'), w')
  unfolding gather
  gather_failed calls wanted d w h e ne =
      rw
        (suc-ne-zero wanted, receive_failed d 0 w h e, gather_error calls (suc wanted - 0) d _ _ ne)
        refl

  gather_stored :
      (calls b k : ℕ) (bs : Bytes) (d : Connection) (w : Trace)
      → is_connected d ≡ true
      → P.recv d.socket max_buffer_size 0 w ≡ received (b ∷ take k bs)
      → let w' = Event.recv d.socket max_buffer_size 0 (received (b ∷ take k bs)) ∷ w in
        let r = gather P calls (length (drop k bs)) d 0 w' in
        gather P (suc calls) (suc (length bs)) d 0 w ≡ ((b ∷ take k bs ++ r.0.0, r.0.1), r.1)
  unfolding gather
  gather_stored calls b k bs d w h e =
      rw
        (
          suc-ne-zero (length bs),
          receive_stored d 0 b (take k bs) w h e,
          length-rest (suc k) (b ∷ bs),
        )
        refl

  module _ (errors : SetsErrno P) (c d : Connection) (connected : is_connected d ≡ true)
      (stream : IsStream P c.socket d.socket) where
    gather-Gathers :
        (calls : ℕ) (rest : Bytes) (w : Trace)
        → delivered c.socket w ≡ collected d.socket w ++ rest
        → length rest ≤ calls
        → Gathers rest (gather P calls (length rest) d 0 w)
    unfolding gather
    gather-Gathers zero [] w eq le = inl (refl, refl)
    gather-Gathers zero (b ∷ bs) w eq le = elim le [ ]
    gather-Gathers (suc calls) [] w eq le = inl (refl, refl)
    gather-Gathers (suc calls) (b ∷ bs) w eq le =
        elim (stream max_buffer_size w (b ∷ bs) eq (λ e. cc) (omega arith)) [
          | inl e ↦
              rw (gather_failed calls (length bs) d w connected e (errors _ w recv_fails))
                (inr (errors _ w recv_fails, 0, refl))
          | inr (zero, more, fits, e) ↦ elim more [ ]
          | inr (suc k, more, fits, e) ↦
              let w' = Event.recv d.socket max_buffer_size 0 (received (b ∷ take k bs)) ∷ w in
              rw (gather_stored calls b k bs d w connected e) (
                Gathers-more (suc k) (b ∷ bs) (gather P calls (length (drop k bs)) d 0 w') (
                  gather-Gathers calls (drop k bs) w'
                    (rw (==-refl, append-nil, append_assoc, take-append-drop) eq)
                    (omega (arith, length-drop k bs))))
        ]

    -- A message that is not empty goes from one end of a connection to the other: unless `send` sets
    -- the error code, it returns with the code 0, and a caller at the other end that receives until
    -- it has as many bytes gets the message, byte by byte and in order, in at most as many calls,
    -- with the code 0; or one of its calls sets the error code, and it has the first bytes of the
    -- message. Assumed: the two sockets are the ends of a stream of the kernel's, on which nothing
    -- is on its way when `send` is called; the kernel takes a byte or more in each call; and a call
    -- that fails sets `errno`.
    pub send-gather :
        (some_bytes : SendsSome P) (message : Buffer) (flags : ℕ) (w : Trace)
        → is_connected c ≡ true
        → message.bytes ≢ []
        → delivered c.socket w ≡ collected d.socket w
        → let r = send P c message 0 flags w in
          let n = Buffer.size message in
          ((r.0 ≡ done 0) × Gathers message.bytes (gather P n n d 0 r.1))
          ⊎ ((ec : ErrorCode) × (r.0 ≡ done ec) × (ec ≢ 0))
    send-gather some_bytes message flags w started ne idle =
        elim (send-Sends P some_bytes errors c message 0 flags w started ne) [
          | inl (e, sent) ↦ inl (
            e,
            gather-Gathers (Buffer.size message) message.bytes (send P c message 0 flags w).1
                (sent ∙ rw (idle, send-collected d.socket c message 0 flags w) refl) (omega arith),
          )
          | inr (ec, n, e, set, sent) ↦ inr (ec, e, set)
        ]
