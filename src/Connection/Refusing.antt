-- ===== src/Connection/Refusing.antt =====
-- `connection::send`: the calls that the kernel refuses. The error code changes only with one of them.
use yonaa.Base.{
  ℕ, zero, suc, ◌+◌, ◌<◌, ◌≤◌, ◌≡◌, ◌≢◌, ◌⊎◌, inl, inr, refl, [], ◌∷◌, false, not, ◌||◌, Bytes,
  arith, drop, length, ltb, ◌==◌, Bool-cases,
}
use yonaa.Os.Events.{Event, Trace, failed, value}
use yonaa.Os.Platform.{Platform}
use yonaa.Os.Outcome.{Outcome, done}
use yonaa.Buffer
use yonaa.Buffer.{Buffer}
use yonaa.Connection.{Connection, ErrorCode, is_connected}
use yonaa.Connection.Send.{send, send_loop, translate}
use yonaa.Connection.Sending.{Reply-cases, send_loop_all, send_loop_failed, send_loop-sent}

-- How many calls of `send` failed in a history.
abbrev pub refusals : Trace → ℕ
refusals [] = 0
refusals (Event.send fd bs flags failed ∷ w) = suc (refusals w)
refusals (e ∷ w) = refusals w

-- A call was refused, or none was and the error code is as it was.
abbrev pub Refuses : ErrorCode → Trace → Outcome ErrorCode × Trace → Type 0
Refuses ec w r =
    (refusals w < refusals r.1)
    ⊎ ((refusals w ≡ refusals r.1) × ((e : ErrorCode) → r.0 ≡ done e → e ≡ ec))

pub Refuses-le :
    (ec : ErrorCode) (w : Trace) (r : Outcome ErrorCode × Trace)
    → Refuses ec w r
    → refusals w ≤ refusals r.1
Refuses-le ec w r (inl h) = omega arith
Refuses-le ec w r (inr (h, e)) = omega arith

pub Refuses-changed :
    (ec e : ErrorCode) (w : Trace) (r : Outcome ErrorCode × Trace)
    → Refuses ec w r
    → r.0 ≡ done e
    → e ≢ ec
    → refusals w < refusals r.1
Refuses-changed ec e w r (inl h) d ne = h
Refuses-changed ec e w r (inr (h, k)) d ne = absurd (ne (k e d))

done-injective : {a b : ErrorCode} → done a ≡ done b → b ≡ a
done-injective h = cc

module _ (P : Platform) where
  send_loop-Refuses :
      (rounds fd : ℕ) (bs : Bytes) (flags sent : ℕ) (ec : ErrorCode) (w : Trace)
      → Refuses ec w (send_loop P rounds fd bs flags sent ec w)
  unfolding send_loop
  send_loop-Refuses zero fd bs flags sent ec w = inr (refl, λ e h. cc)
  send_loop-Refuses (suc rounds) fd bs flags sent ec w = elim (Bool-cases (ltb sent (length bs))) [
    | inr all ↦
        rw (send_loop_all P rounds fd bs flags sent ec w all) (inr (refl, λ e h. done-injective h))
    | inl more ↦ elim (Reply-cases (P.send fd (drop sent bs) flags w)) [
      | inl e ↦ rw (send_loop_failed P rounds fd bs flags sent ec w more e) (inl (omega arith))
      | inr (n, e) ↦ rw (send_loop-sent P rounds fd bs flags sent ec w n more e) (
          send_loop-Refuses rounds fd bs flags (sent + n) ec
            (Event.send fd (drop sent bs) flags (value n) ∷ w))
    ]
  ]

  pub send-Refuses :
      (c : Connection) (message : Buffer) (ec : ErrorCode) (flags : ℕ) (w : Trace)
      → (not (is_connected c) || (Buffer.size message == 0)) ≡ false
      → Refuses ec w (send P c message ec flags w)
  unfolding send
  send-Refuses c message ec flags w h =
      rw (h, send)
        (send_loop-Refuses (suc (Buffer.size message)) c.socket message.bytes (translate P flags) 0
          ec w)
