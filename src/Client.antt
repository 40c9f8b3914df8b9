-- ===== src/Client.antt =====
-- include/yonaa/client.hpp and src/client.cpp. `connect` leaves the address for the network thread,
-- whose function is `network_thread_function`.
pub mod Callbacks
pub mod Sending
pub mod Starting
pub mod Waiting
pub mod Hangup
pub mod Order
pub mod Telling
pub mod System
mod Tests
use yonaa.Base.{
  ℕ, zero, suc, List, [], ◌∷◌, Bool, true, false, not, Option, none, some, Bytes, ◌==◌, ◌||◌,
  if◌then◌else◌,
}
use yonaa.Os.Events.{Event, Trace}
use yonaa.Os.Platform.{Platform}
use yonaa.Os.Outcome.{R, return, halt, lift, ◌>>=◌, no_callback, out_of_rounds, exited}
use yonaa.Buffer
use yonaa.Buffer.{Buffer}
use yonaa.Connection
use yonaa.Connection.{
  Connection, unopened, ErrorCode, SendFlags, send_bits, ReceiveFlags, receive_bits, receive,
  has_data_available,
}
use yonaa.Connection.Send.{send}
use yonaa.Endpoint.{Endpoint}
use yonaa.Resolve.{resolve}

-- `class client`
pub record Client : Type 0 where
  pub running : Bool
  pub ec : ErrorCode
  pub conn : Connection
  pub hostname : Bytes
  pub service : Bytes

-- The calls of the client's interface that a callback or another thread makes once the network
-- thread runs. Another `connect` ends the program there, and has no place in the model.
pub data Request : Type 0 where
  call_send_message : Buffer → Request
  call_disconnect : Request

-- The user's callbacks, as in the server.
abbrev pub Callback : Type 0
Callback = Option (Trace → List Request)

pub record Handlers : Type 0 where
  pub on_data_receive : Callback
  pub on_connect : Callback
  pub on_disconnect : Callback

-- The setting of callbacks
unfoldable pub set_connect_handler : Handlers → Callback → Handlers
set_connect_handler h handler = record h { on_connect = handler }

unfoldable pub set_disconnect_handler : Handlers → Callback → Handlers
set_disconnect_handler h handler = record h { on_disconnect = handler }

unfoldable pub set_data_receive_handler : Handlers → Callback → Handlers
set_data_receive_handler h handler = record h { on_data_receive = handler }

-- `client()`, with what the memory of `running_` happens to hold.
unfoldable pub new_client : Bool → Client
new_client stray = record { running = stray; ec = 0; conn = unopened; hostname = []; service = [] }

-- `connect`, without the start of the thread
unfoldable pub connect : Client → Bytes → Bytes → Client
connect c hostname service = record c { hostname = hostname; service = service }

-- `disconnect`
abbrev pub disconnect : Client → Client
disconnect c = record c { running = false }

-- `is_connected`
abbrev pub is_connected : Client → Bool
is_connected c = Connection.is_connected c.conn

module _ (P : Platform) where
  -- `send_message`, given what a call of `on_disconnect_` does.
  unfoldable pub send_message : (Client → R Client) → Client → Buffer → R Client
  send_message gone c msg = do
    ec ← send P c.conn msg c.ec (send_bits SendFlags.no_flags)
    let c' = record c { ec = ec }
    if ec == 0 then return c' else gone c'

  unfoldable pub perform : (Client → R Client) → Request → Client → R Client
  perform gone (call_send_message msg) c = send_message gone c msg
  perform gone call_disconnect c = return (disconnect c)

  unfoldable pub perform_all : (Client → R Client) → List Request → Client → R Client
  perform_all gone [] c = return c
  perform_all gone (q ∷ qs) c = do c' ← perform gone q c; perform_all gone qs c'

module _ (P : Platform) (H : Handlers) where
  -- A call of a callback. What it asks may call `on_disconnect_` again, and so on: the depth is how
  -- far these calls may nest.
  unfoldable pub notify : ℕ → Callback → Event → Client → R Client
  notify zero callback e c w = halt out_of_rounds w
  notify (suc depth) none e c w = halt no_callback w
  notify (suc depth) (some callback) e c w =
      perform_all P (notify depth H.on_disconnect Event.server_disconnected) (callback (e ∷ w)) c
        (e ∷ w)

  -- `on_disconnect_()`
  abbrev pub disconnected : ℕ → Client → R Client
  disconnected depth = notify depth H.on_disconnect Event.server_disconnected

  -- The part of `handle_incoming_messages_` from the call of `receive` on.
  unfoldable pub receive_message : ℕ → Client → R Client
  receive_message depth c = do
    (message, conn, ec) ← lift (receive P c.conn c.ec (receive_bits ReceiveFlags.no_flags))
    let c' = record c { conn = conn; ec = ec }
    let delivered = notify depth H.on_data_receive (Event.server_sent message.bytes) c'
    if not (ec == 0) || (Buffer.size message == 0) then disconnected depth c' else delivered

  -- `handle_incoming_messages_`
  unfoldable pub handle_incoming_messages : ℕ → Client → R Client
  handle_incoming_messages depth c = elim (is_connected c) [
    | false ↦ disconnected depth c
    | true ↦ do
      available ← lift (has_data_available P c.conn)
      elim available [ true ↦ return c | false ↦ receive_message depth c ]
  ]

  -- What other threads ask, given the history.
  abbrev asked : ℕ → (Trace → List Request) → Client → R Client
  asked depth others c w = perform_all P (disconnected depth) (others w) c w

  -- The loop of `network_thread_function_`; `others` is what other threads ask during the sleep.
  unfoldable pub serve : ℕ → ℕ → (Trace → List Request) → Client → R Client
  serve zero depth others c = halt out_of_rounds
  serve (suc turns) depth others c = elim c.running [
    | false ↦ return c
    | true ↦ do
      messaged ← handle_incoming_messages depth c
      slept ← asked depth others messaged
      serve turns depth others slept
  ]

  -- What comes after the loop.
  unfoldable pub leave : ℕ → Client → R Client
  leave depth c = do
    conn ← lift (Connection.disconnect c.conn)
    disconnected depth (record c { conn = conn })

  -- What follows the call of `resolve` before the loop.
  unfoldable pub open_to : ℕ → Client → List Endpoint → ErrorCode → R Client
  open_to depth c endpoints resolve_ec = do
    (conn, ec) ← lift (Connection.connect P c.conn endpoints resolve_ec)
    let c' = record c { conn = conn; ec = ec }
    if ec == 0 then notify depth H.on_connect Event.server_connected c' else halt exited

  -- The part of `network_thread_function_` before the loop.
  unfoldable pub enter : ℕ → Client → R Client
  enter depth c = do
    (endpoints, resolve_ec) ← lift (resolve P c.hostname c.service c.ec)
    if resolve_ec == 0 then open_to depth c endpoints resolve_ec else halt exited

  -- `network_thread_function_`
  unfoldable pub network_thread_function : ℕ → ℕ → (Trace → List Request) → Client → R Client
  network_thread_function turns depth others c = do
    entered ← enter depth c
    served ← serve turns depth others entered
    leave depth served
