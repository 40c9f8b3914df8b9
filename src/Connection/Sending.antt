-- ===== src/Connection/Sending.antt =====
-- `connection::send`: which bytes the kernel has taken when it comes back.
use yonaa.Base.{
  ℕ, zero, suc, ◌+◌, ◌-◌, ◌≤◌, ◌<◌, ◌≡◌, ◌≢◌, ◌⊎◌, ◌∙◌, inl, inr, refl, ap, sym, [], ◌∷◌, ◌++◌,
  true, false, Bytes, arith, length, take, drop, append-nil, append_assoc, take-append-drop,
  drop-drop, take-add, length-drop, drop_all, ltb→lt, ==-refl, ◌==◌, ltb, if◌then◌else◌, Bool-cases,
}
use yonaa.Os.Events.{Reply, failed, value, Event, Trace}
use yonaa.Os.Platform.{Platform, SetsErrno, SendsSome, send_fails}
use yonaa.Os.Outcome.{Outcome, done, returns}
use yonaa.Buffer
use yonaa.Buffer.{Buffer}
use yonaa.Connection.{Connection, ErrorCode, is_connected}
use yonaa.Connection.Send.{translate, send_loop, send, send_or_throw}

-- The bytes that the kernel took in a call on a descriptor, and in a whole history, oldest first.
abbrev pub taken : ℕ → Event → Bytes
taken fd (Event.send fd' bs flags (value n)) = if fd' == fd then take n bs else []
taken fd _ = []

abbrev pub delivered : ℕ → Trace → Bytes
delivered fd [] = []
delivered fd (e ∷ w) = delivered fd w ++ taken fd e

-- A transfer of `bs` that began after `w` with the error code `ec`: it has ended, and the kernel has
-- taken all of the bytes, and the error code is as it was; or it has taken the first of them, and
-- the error code is set.
abbrev pub Sends : ℕ → Bytes → ErrorCode → Trace → Outcome ErrorCode × Trace → Type 0
Sends fd bs ec w r =
    ((r.0 ≡ done ec) × (delivered fd r.1 ≡ delivered fd w ++ bs))
    ⊎ ((ec' : ErrorCode) × (n : ℕ) × (r.0 ≡ done ec')
        × (ec' ≢ 0)
        × (delivered fd r.1 ≡ delivered fd w ++ take n bs))

pub Reply-cases : (r : Reply) → (r ≡ failed) ⊎ ((n : ℕ) × (r ≡ value n))
Reply-cases failed = inl refl
Reply-cases (value n) = inr (n, refl)

-- A round that took `n` bytes, in front of a transfer of the rest.
Sends-round :
    (fd : ℕ) (bs : Bytes) (flags n : ℕ) (ec : ErrorCode) (w : Trace) (r : Outcome ErrorCode × Trace)
    → Sends fd (drop n bs) ec (Event.send fd bs flags (value n) ∷ w) r
    → Sends fd bs ec w r
Sends-round fd bs flags n ec w r (inl (d, e)) =
    inl (d, e ∙ rw (==-refl, append_assoc, take-append-drop))
Sends-round fd bs flags n ec w r (inr (ec', m, d, ne, e)) =
    inr (ec', n + m, d, ne, e ∙ rw (==-refl, append_assoc, take-add))

module _ (P : Platform) (rounds fd : ℕ) (bs : Bytes) (flags sent : ℕ) (ec : ErrorCode)
    (w : Trace) where
  abbrev round_event : Reply → Event
  round_event = Event.send fd (drop sent bs) flags

  pub send_loop_all :
      ltb sent (length bs) ≡ false → send_loop P (suc rounds) fd bs flags sent ec w ≡ (done ec, w)
  unfolding send_loop
  send_loop_all h = ground arith

  pub send_loop_failed :
      ltb sent (length bs) ≡ true
      → P.send fd (drop sent bs) flags w ≡ failed
      → send_loop P (suc rounds) fd bs flags sent ec w
        ≡ (done (P.errno (round_event failed ∷ w)), round_event failed ∷ w)
  unfolding send_loop
  send_loop_failed h e = ground arith

  pub send_loop-sent :
      (n : ℕ)
      → ltb sent (length bs) ≡ true
      → P.send fd (drop sent bs) flags w ≡ value n
      → send_loop P (suc rounds) fd bs flags sent ec w
        ≡ send_loop P rounds fd bs flags (sent + n) ec (round_event (value n) ∷ w)
  unfolding send_loop
  send_loop-sent n h e = ground arith

drop-ne-nil : (n : ℕ) (bs : Bytes) → n < length bs → drop n bs ≢ []
drop-ne-nil n bs h e = absurd (omega (arith, length-drop n bs, ap length e))

module _ (P : Platform) (some_bytes : SendsSome P) (errors : SetsErrno P) where
  send_loop-Sends :
      (rounds fd : ℕ) (bs : Bytes) (flags sent : ℕ) (ec : ErrorCode) (w : Trace)
      → sent ≤ length bs
      → length bs - sent < rounds
      → Sends fd (drop sent bs) ec w (send_loop P rounds fd bs flags sent ec w)
  send_loop-Sends zero fd bs flags sent ec w k h = elim h [ ]
  send_loop-Sends (suc rounds) fd bs flags sent ec w k h =
      elim (Bool-cases (ltb sent (length bs))) [
        | inl more ↦ elim (Reply-cases (P.send fd (drop sent bs) flags w)) [
          | inl e ↦ rw (send_loop_failed P rounds fd bs flags sent ec w more e) (
              inr (
                P.errno (Event.send fd (drop sent bs) flags failed ∷ w),
                0,
                refl,
                errors _ w send_fails,
                refl,
              ))
          | inr (n, e) ↦
              let (some, fits) =
                some_bytes fd (drop sent bs) flags w n e (drop-ne-nil sent bs (ltb→lt _ _ more)) in
              let w' = Event.send fd (drop sent bs) flags (value n) ∷ w in
              rw (send_loop-sent P rounds fd bs flags sent ec w n more e) (
                Sends-round fd (drop sent bs) flags n ec w
                  (send_loop P rounds fd bs flags (sent + n) ec w')
                  (rw (drop-drop sent n bs) (
                    send_loop-Sends rounds fd bs flags (sent + n) ec w'
                      (omega (arith, length-drop sent bs)) (omega (arith, length-drop sent bs)))))
        ]
        | inr all ↦
            rw (send_loop_all P rounds fd bs flags sent ec w all)
              (inl (refl, rw (drop_all sent bs (ground arith)) (sym (append-nil _))))
      ]

  -- On an open connection a message that is not empty is sent, or its first bytes are sent and the
  -- error code is set; and the call comes back. Assumed: the kernel takes a byte or more in each
  -- call, and a call that fails sets `errno`.
  pub send-Sends :
      (c : Connection) (message : Buffer) (ec : ErrorCode) (flags : ℕ) (w : Trace)
      → is_connected c ≡ true
      → message.bytes ≢ []
      → Sends c.socket message.bytes ec w (send P c message ec flags w)
  unfolding send
  send-Sends c message ec flags w connected ne =
      rw (connected, length-ne message.bytes ne)
        (send_loop-Sends (suc (Buffer.size message)) c.socket message.bytes (translate P flags) 0 ec
          w (omega arith) (omega arith))
    where
      length-ne : (bs : Bytes) → bs ≢ [] → (length bs == 0) ≡ false
      length-ne [] h = absurd (h refl)
      length-ne (b ∷ bs) h = ground arith

  -- If the overload without an error code returns, for a message that is not empty on an open
  -- connection, the kernel has taken the whole message. Assumed: the kernel takes a byte or more in
  -- each call, and a call that fails sets `errno`.
  send_or_throw-returns :
      (c : Connection) (message : Buffer) (flags : ℕ) (w : Trace)
      → is_connected c ≡ true
      → message.bytes ≢ []
      → (send_or_throw P c message flags w).0 ≡ done (returns tt)
      → delivered c.socket (send_or_throw P c message flags w).1
        ≡ delivered c.socket w ++ message.bytes
  unfolding send_or_throw
  send_or_throw-returns c message flags w connected ne h =
      ground (arith, send-Sends c message 0 flags w connected ne)
