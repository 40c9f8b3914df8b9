-- ===== src/Server.antt =====
-- include/yonaa/server.hpp and the part of src/server.cpp that the user calls: the state of a
-- server, its clients, messages to them and their removal. The network thread is in Network.
pub mod Emptied
pub mod Network
pub mod Thread
pub mod Registry
pub mod Clients
pub mod Accepting
pub mod WellFormed
pub mod Messages
pub mod Flags
pub mod Flagging
pub mod Held
pub mod Releasing
pub mod Sparing
pub mod Holding
pub mod Marks
pub mod Receiving
pub mod Disconnecting
pub mod Returning
pub mod Sticking
pub mod Mailing
pub mod Broadcasting
pub mod Removing
pub mod Sifting
pub mod Departing
pub mod Destroying
pub mod Running
pub mod Telling
pub mod Order
pub mod Ordering
pub mod Hearing
pub mod Parting
pub mod Refining
pub mod System
mod Tests
use yonaa.Base.{
  ℕ, List, [], ◌∷◌, Bool, true, false, not, Option, none, some, find, ◌==◌, if◌then◌else◌,
}
use yonaa.Os.Events.{Event, Trace}
use yonaa.Os.Platform.{Platform}
use yonaa.Os.Outcome.{R, return, halt, ◌>>=◌, no_callback}
use yonaa.Buffer.{Buffer}
use yonaa.Connection.{Connection, ErrorCode, SendFlags, send_bits}
use yonaa.Connection.Send.{send}
use yonaa.Acceptor.{Acceptor, closed}
use yonaa.Poll.{PollGroup, make, bits, readable}

-- `struct client_info`
pub record ClientInfo : Type 0 where
  pub id : ℕ
  pub conn : Connection
  pub fd : ℕ
  pub is_connected : Bool

-- `class server`, with the counter `next_available_id`.
pub record Server : Type 0 where
  pub port : ℕ
  pub running : Bool
  pub has_disconnected_clients : Bool
  pub ec : ErrorCode
  pub clients : List ClientInfo
  pub acceptor : Acceptor
  pub poll_group : PollGroup
  pub next_available_id : ℕ

-- The calls of the server's interface that change its state.
pub data Request : Type 0 where
  call_message_client : Buffer → ℕ → Request
  call_message_all_clients : Buffer → ℕ → Request
  call_remove_client : ℕ → Request
  call_stop : Request

-- The user's callbacks: what each asks of the server when it is called, as a function of the whole
-- history, its own call included; `none` where none was installed.
abbrev pub Callback : Type 0
Callback = Option (Trace → List Request)

pub record Handlers : Type 0 where
  pub on_data_receive : Callback
  pub on_client_connect : Callback
  pub on_client_disconnect : Callback

-- The setting of callbacks
unfoldable pub set_data_receive_handler : Handlers → Callback → Handlers
set_data_receive_handler h handler = record h { on_data_receive = handler }

unfoldable pub set_client_connect_handler : Handlers → Callback → Handlers
set_client_connect_handler h handler = record h { on_client_connect = handler }

unfoldable pub set_client_disconnect_handler : Handlers → Callback → Handlers
set_client_disconnect_handler h handler = record h { on_client_disconnect = handler }

-- `server(port)`, for the first server of a program: the counter is a global variable.
unfoldable pub new_server : Platform → ℕ → Server
unfolding make
new_server P port = record {
  port = port;
  running = false;
  has_disconnected_clients = false;
  ec = 0;
  clients = [];
  acceptor = closed;
  poll_group = make P (bits readable);
  next_available_id = 1;
}

-- Whether `run` starts the network thread.
abbrev pub run : Server → Bool
run s = not s.running

-- `client_info_from_id` and `client_info_from_native_socket`
abbrev pub client_info_from_id : ℕ → List ClientInfo → Option ClientInfo
client_info_from_id id = find (λ (c : ClientInfo). c.id == id)

abbrev pub client_info_from_native_socket : ℕ → List ClientInfo → Option ClientInfo
client_info_from_native_socket fd = find (λ (c : ClientInfo). c.fd == fd)

-- The clients after `is_connected = false` through the pointer to the first one with the id.
abbrev pub mark : ℕ → List ClientInfo → List ClientInfo
mark id [] = []
mark id (c ∷ cs) =
    let rest = mark id cs in if c.id == id then record c { is_connected = false } ∷ cs else c ∷ rest

-- `remove_client`
unfoldable pub remove_client : Server → ℕ → Server
remove_client s id = elim (client_info_from_id id s.clients) [
  | none ↦ s
  | some _ ↦ record s { clients = mark id s.clients; has_disconnected_clients = true }
]

-- `stop`
abbrev pub stop : Server → Server
stop s = record s { running = false }

module _ (P : Platform) where
  -- The part of `message_client` for a client that was found.
  unfoldable pub message_found : Server → Buffer → ClientInfo → ℕ → R Server
  message_found s msg c id = do
    ec ← send P c.conn msg s.ec (send_bits SendFlags.no_flags)
    let s' = record s { ec = ec }
    return (if ec == 0 then s' else remove_client s' id)

  -- `message_client`
  unfoldable pub message_client : Server → Buffer → ℕ → R Server
  unfolding message_found
  message_client s msg id = elim (client_info_from_id id s.clients) [
    | none ↦ return s
    | some c ↦ if not c.is_connected then return s else message_found s msg c id
  ]

  -- The loop of `message_all_clients` over the clients, whose ids do not change meanwhile.
  unfoldable pub message_each : List ClientInfo → Server → Buffer → ℕ → R Server
  message_each [] s msg exclude = return s
  message_each (c ∷ cs) s msg exclude = elim (c.id == exclude) [
    | true ↦ message_each cs s msg exclude
    | false ↦ do s' ← message_client s msg c.id; message_each cs s' msg exclude
  ]

  -- `message_all_clients`
  unfoldable pub message_all_clients : Server → Buffer → ℕ → R Server
  unfolding message_each
  message_all_clients s msg exclude = message_each s.clients s msg exclude

  unfoldable pub perform : Request → Server → R Server
  perform (call_message_client msg id) s = message_client s msg id
  perform (call_message_all_clients msg exclude) s = message_all_clients s msg exclude
  perform (call_remove_client id) s = return (remove_client s id)
  perform call_stop s = return (stop s)

  unfoldable pub perform_all : List Request → Server → R Server
  perform_all [] s = return s
  perform_all (q ∷ qs) s = do s' ← perform q s; perform_all qs s'

  -- A call of a callback: it enters the history, and what it asks is done.
  unfoldable pub notify : Callback → Event → Server → R Server
  notify none e s w = halt no_callback w
  notify (some callback) e s w = perform_all (callback (e ∷ w)) s (e ∷ w)
