-- ===== src/Connection/Stream.antt =====
-- Two sockets that the kernel has connected to one another, and what a caller that receives until
-- it has a number of bytes gets out of one of them.
use yonaa.Base.{
  ℕ, zero, suc, ◌-◌, ◌<◌, ◌≤◌, ◌≡◌, ◌≢◌, ◌⊎◌, [], ◌∷◌, ◌++◌, not, ◌||◌, Bytes, take, ◌==◌,
  if◌then◌else◌,
}
use yonaa.Os.Events.{recv_failed, received, Event, Trace}
use yonaa.Os.Platform.{Platform}
use yonaa.Os.Calls.{M, pure, ◌>>=◌}
use yonaa.Buffer
use yonaa.Connection.{Connection, ErrorCode, receive}
use yonaa.Connection.Sending.{delivered}

-- The bytes that a call took off a descriptor's queue, and those of a whole history, oldest first.
-- A call with flags may leave them there (`MSG_PEEK`).
abbrev pub fetched : ℕ → Event → Bytes
fetched fd (Event.recv fd' size flags (received bs)) =
    if fd' == fd then (if flags == 0 then bs else []) else []
fetched fd _ = []

abbrev pub collected : ℕ → Trace → Bytes
collected fd [] = []
collected fd (e ∷ w) = collected fd w ++ fetched fd e

-- man 7 tcp, "a reliable, stream-oriented, full-duplex connection", and man 2 recv: what was sent
-- on `a` and not collected at `b` yet comes out of `b` in the order in which it was sent, a byte or
-- more in each call; or the call fails.
abbrev pub IsStream : Platform → ℕ → ℕ → Type 0
IsStream P a b =
    (size : ℕ) (w : Trace) (rest : Bytes)
    → delivered a w ≡ collected b w ++ rest
    → rest ≢ []
    → 0 < size
    → (P.recv b size 0 w ≡ recv_failed)
      ⊎ ((n : ℕ) × (0 < n) × (n ≤ size) × (P.recv b size 0 w ≡ received (take n rest)))

-- A caller that receives until it has `wanted` bytes or the error code is set, in so many calls at
-- most: the bytes and the error code.
unfoldable pub gather : Platform → ℕ → ℕ → Connection → ErrorCode → M (Bytes × ErrorCode)
gather P zero wanted c ec = pure ([], ec)
gather P (suc calls) wanted c ec =
    let more = (do
      (b, c', ec') ← receive P c ec 0
      (bs, ec'') ← gather P calls (wanted - Buffer.size b) c' ec'
      pure (b.bytes ++ bs, ec'')) in
    if not (ec == 0) || (wanted == 0) then pure ([], ec) else more

-- What comes out when `rest` is on its way: all of it, and no error; or its first bytes, and an
-- error.
abbrev pub Gathers : Bytes → (Bytes × ErrorCode) × Trace → Type 0
Gathers rest r = ((r.0.0 ≡ rest) × (r.0.1 ≡ 0)) ⊎ ((r.0.1 ≢ 0) × (n : ℕ) × (r.0.0 ≡ take n rest))
