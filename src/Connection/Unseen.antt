-- ===== src/Connection/Unseen.antt =====
-- `connection::send` under a view of the history.
use yonaa.Base.{ℕ, zero, suc, ◌+◌, ◌≡◌, refl, ◌∷◌, inl, inr, Bytes, arith, drop}
use yonaa.Os.Events.{Reply, failed, value, Event, Trace}
use yonaa.Os.Platform.{Platform}
use yonaa.Buffer
use yonaa.Buffer.{Buffer}
use yonaa.Connection.{Connection}
use yonaa.Connection.Send.{send, send_loop, translate}
use yonaa.Connection.Sending.{Reply-cases}

-- A view that does not see the system call `send`.
abbrev pub IsBlind {ℓ} : {C : Type ℓ} → (Trace → C) → Type ℓ
IsBlind view =
    (fd : ℕ) (bs : Bytes) (flags : ℕ) (r : Reply) (w : Trace)
    → view (Event.send fd bs flags r ∷ w) ≡ view w

module _ {ℓ} {C : Type ℓ} (view : Trace → C) (blind : IsBlind view) (P : Platform) where
  send_loop-unseen :
      (rounds fd : ℕ) (bs : Bytes) (flags n ec : ℕ) (w : Trace)
      → view (send_loop P rounds fd bs flags n ec w).1 ≡ view w
  unfolding send_loop
  send_loop-unseen zero fd bs flags n ec w = refl
  send_loop-unseen (suc rounds) fd bs flags n ec w =
      elim (Reply-cases (P.send fd (drop n bs) flags w)) [
        | inl e ↦ ground (arith, e, blind fd (drop n bs) flags failed w)
        | inr (k, e) ↦ ground (
          arith,
          e,
          blind fd (drop n bs) flags (value k) w,
          send_loop-unseen rounds fd bs flags (n + k) ec
              (Event.send fd (drop n bs) flags (value k) ∷ w),
        )
      ]

  pub send-unseen :
      (c : Connection) (b : Buffer) (ec flags : ℕ) (w : Trace)
      → view (send P c b ec flags w).1 ≡ view w
  unfolding send
  send-unseen c b ec flags w =
      ground
        (arith, send_loop-unseen (suc (Buffer.size b)) c.socket b.bytes (translate P flags) 0 ec w)
