-- ===== src/Connection/Send.antt =====
-- `connection::send` of src/connection.cpp.
use yonaa.Base.{
  ℕ, zero, suc, ◌+◌, true, false, not, ◌||◌, Bytes, length, drop, bit_or, ◌==◌, ltb, if◌then◌else◌,
}
use yonaa.Os.Constants.{msg_dontroute, msg_eor, msg_nosignal}
use yonaa.Os.Events.{failed, value}
use yonaa.Os.Platform.{Platform}
use yonaa.Os.Calls
use yonaa.Os.Outcome.{R, return, halt, lift, ◌>>=◌, out_of_rounds, Thrown, returns, throws}
use yonaa.Buffer
use yonaa.Buffer.{Buffer}
use yonaa.Connection.{Connection, ErrorCode, SendFlags, send_bits, is_connected}

module _ (P : Platform) where
  -- The flags of `::send`.
  unfoldable pub translate : ℕ → ℕ
  translate flags =
      let has_flag = λ (f : SendFlags). P.bitmask.test (P.bitmask.meet flags (send_bits f)) in
      bit_or
        (bit_or (bit_or 0 (if has_flag SendFlags.dont_route then msg_dontroute else 0))
          (if has_flag SendFlags.end_of_record then msg_eor else 0))
        msg_nosignal

  -- The loop of `send`, with rounds to go. The pointer and the size that it passes are those of the
  -- bytes from `bytes_sent` on.
  unfoldable pub send_loop : ℕ → ℕ → Bytes → ℕ → ℕ → ErrorCode → R ErrorCode
  send_loop zero fd bs flags bytes_sent ec = halt out_of_rounds
  send_loop (suc rounds) fd bs flags bytes_sent ec = elim (ltb bytes_sent (length bs)) [
    | true ↦ do
      send_result ← lift (Calls.send P fd (drop bytes_sent bs) flags)
      elim send_result [
        | failed ↦ lift (Calls.errno P)
        | value n ↦ send_loop rounds fd bs flags (bytes_sent + n) ec
      ]
    | false ↦ return ec
  ]

  -- `send(data, ec, flags)`. Where each call takes a byte or more, the rounds are enough.
  unfoldable pub send : Connection → Buffer → ErrorCode → ℕ → R ErrorCode
  unfolding send_loop translate
  send c message ec flags =
      if not (is_connected c) || (Buffer.size message == 0)
      then return 1
      else send_loop (suc (Buffer.size message)) c.socket message.bytes (translate flags) 0 ec

  -- `send(data, flags)`
  unfoldable pub send_or_throw : Connection → Buffer → ℕ → R (Thrown (Unit {0}))
  unfolding send
  send_or_throw c message flags = do
    ec ← send c message 0 flags
    return (if ec == 0 then returns tt else throws ec)
