-- ===== src/Server/Receiving.antt =====
-- `handle_incoming_messages_`: what becomes of a client whose socket is readable.
use yonaa.Base.{ℕ, ◌≡◌, ◌≢◌, inl, inr, true, false, not, ◌||◌, ◌==◌, arith, Bool-cases}
use yonaa.Os.Events.{Trace}
use yonaa.Os.Platform.{Platform, SetsErrno, RecvFits}
use yonaa.Os.Outcome.{done}
use yonaa.Buffer
use yonaa.Buffer.{Buffer}
use yonaa.Connection.{Connection, is_connected, receive_sized, receive, max_buffer_size}
use yonaa.Connection.Receiving.{receive_sized-Receives}
use yonaa.Server.{ClientInfo, Server, Handlers, remove_client}
use yonaa.Server.Network.{receive_from, set_conn}

module _ (P : Platform) where
  receive_sized-refused :
      (c : Connection) (ec : ℕ) (w : Trace)
      → is_connected c ≡ false
      → receive_sized P c max_buffer_size ec 0 w ≡ ((Buffer.empty, c, 1), w)
  unfolding receive_sized
  receive_sized-refused c ec w h = ground arith

module _ (P : Platform) (H : Handlers) (fits : RecvFits P) (errors : SetsErrno P) where
  receive_stuck :
      (c : Connection) (ec : ℕ) (w : Trace)
      → ec ≢ 0
      → let r = (receive P c ec 0 w).0 in (not (r.2 == 0) || (Buffer.size r.0 == 0)) ≡ true
  unfolding receive
  receive_stuck c ec w h = elim (Bool-cases (is_connected c)) [
    | inl connected ↦ ground (
      arith,
      receive_sized-Receives P fits errors c max_buffer_size ec 0 w connected (omega arith),
    )
    | inr shut ↦ rw (receive_sized-refused P c ec w shut) (ground arith)
  ]

  -- Once the error code of a server is set, a client whose data arrive is removed, and the data are
  -- dropped: no callback is called. Assumed: the kernel stores no more than there is room for, and
  -- a call that fails sets `errno`.
  pub receive_from_stuck :
      (s : Server) (c : ClientInfo) (w : Trace)
      → s.ec ≢ 0
      → let (r, w') = receive P c.conn s.ec 0 w in
        receive_from P H s c w ≡ (
          done (remove_client (record s { ec = r.2; clients = set_conn c.fd r.1 s.clients }) c.id),
          w',
        )
  unfolding receive_from
  receive_from_stuck s c w h = ground (arith, receive_stuck c.conn s.ec w h)
