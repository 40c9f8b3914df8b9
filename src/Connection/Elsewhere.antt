-- ===== src/Connection/Elsewhere.antt =====
-- `connection::send`: the other sockets.
use yonaa.Base.{
  ℕ, zero, suc, ◌+◌, ◌≡◌, refl, ◌∷◌, false, inl, inr, Bytes, append-nil, arith, drop, ◌==◌,
}
use yonaa.Os.Events.{Event, Trace, value}
use yonaa.Os.Platform.{Platform}
use yonaa.Buffer
use yonaa.Buffer.{Buffer}
use yonaa.Connection.{Connection}
use yonaa.Connection.Send.{send, send_loop, translate}
use yonaa.Connection.Sending.{delivered, Reply-cases}

module _ (P : Platform) where
  send_loop-elsewhere :
      (rounds fd other : ℕ) (bs : Bytes) (flags n ec : ℕ) (w : Trace)
      → (fd == other) ≡ false
      → delivered other (send_loop P rounds fd bs flags n ec w).1 ≡ delivered other w
  unfolding send_loop
  send_loop-elsewhere zero fd other bs flags n ec w h = refl
  send_loop-elsewhere (suc rounds) fd other bs flags n ec w h =
      elim (Reply-cases (P.send fd (drop n bs) flags w)) [
        | inl e ↦ ground (arith, e, append-nil (delivered other w))
        | inr (k, e) ↦ ground (
          arith,
          e,
          append-nil (delivered other w),
          send_loop-elsewhere rounds fd other bs flags (n + k) ec
              (Event.send fd (drop n bs) flags (value k) ∷ w) h,
        )
      ]

  -- No byte is sent on another descriptor.
  pub send-elsewhere :
      (c : Connection) (b : Buffer) (ec flags other : ℕ) (w : Trace)
      → (c.socket == other) ≡ false
      → delivered other (send P c b ec flags w).1 ≡ delivered other w
  unfolding send
  send-elsewhere c b ec flags other w h = ground (
    arith,
    send_loop-elsewhere (suc (Buffer.size b)) c.socket other b.bytes (translate P flags) 0 ec w h,
  )
