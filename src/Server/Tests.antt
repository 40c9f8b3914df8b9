-- ===== src/Server/Tests.antt =====
-- A server on the sample platform.
use yonaa.Base.{◌≢◌, ℕ, ◌≡◌, refl, [], ◌∷◌, true, false, some, arith}
use yonaa.Os.Always.{Always, Returns}
use yonaa.Os.After.{After}
use yonaa.Os.Outcome.{done, stops, null_pointer}
use yonaa.Os.Sample.{
  one_client, one_client-SetsErrno, sample, sample-SetsErrno, sample-RecvFits, sample-SendsSome,
}
use yonaa.Buffer.{Buffer}
use yonaa.Endpoint
use yonaa.Connection
use yonaa.Connection.{receive, unopened}
use yonaa.Server.Mailing.{Delivers, mail}
use yonaa.Server.Broadcasting.{message_all_clients-Delivers}
use yonaa.Server.{
  message_all_clients, ClientInfo, Server, Handlers, call_message_all_clients, remove_client,
}
use yonaa.Server.Clients.{ids}
use yonaa.Acceptor
use yonaa.Acceptor.{has_pending_connection}
use yonaa.Server.Network.{
  accept_client, handle_incoming_connections, handle_disconnected_clients, receive_from, set_conn,
}
use yonaa.Server.Accepting.{IsStuck, handle_incoming_connections-IsStuck}
use yonaa.Server.WellFormed.{IsWellFormed}
use yonaa.Server.Removing.{handle_disconnected_clients-ids}
use yonaa.Server.Receiving.{receive_from_stuck}
use yonaa.Server.Disconnecting.{handle_disconnected_clients-null_pointer}

abbrev hello : Buffer
hello = record { bytes = 104 ∷ 105 ∷ [] }

-- Callbacks that ask nothing, and one that passes a greeting on.
abbrev handlers : Handlers
handlers = record {
  on_data_receive = some (λ w. call_message_all_clients hello 0 ∷ []);
  on_client_connect = some (λ w. []);
  on_client_disconnect = some (λ w. []);
}

abbrev client : ℕ → ClientInfo
client n = record { id = n; conn = record unopened { socket = n }; fd = n; is_connected = true }

abbrev server : Server
server = record {
  port = 5000;
  running = true;
  has_disconnected_clients = false;
  ec = 0;
  clients = client 6 ∷ client 7 ∷ [];
  acceptor = record { socket = 4; local_endpoint = Endpoint.empty };
  poll_group = record { pfds = []; pfd_config = 1 };
  next_available_id = 8;
}

abbrev failing : Server
failing = record server { ec = 32 }

-- The older client was removed.
abbrev leaving : Server
leaving = record server {
  clients = record (client 6) { is_connected = false } ∷ client 7 ∷ [];
  has_disconnected_clients = true;
}

handle_disconnected_clients-null_pointer_example :
    (handle_disconnected_clients sample handlers leaving []).0 ≡ stops null_pointer
handle_disconnected_clients-null_pointer_example =
    handle_disconnected_clients-null_pointer sample sample-SendsSome sample-SetsErrno handlers
      (λ w. []) refl leaving [] refl refl

-- The one connection that was pending is refused, and the loop ends.
refused_Returns : Returns (handle_incoming_connections one_client handlers 3 failing []).0
unfolding handle_incoming_connections accept_client has_pending_connection Acceptor.accept
    Connection.destroy Connection.from_native_socket
refused_Returns = tt

handle_incoming_connections-IsStuck_example :
    After
      (IsStuck one_client handlers failing)
      (handle_incoming_connections one_client handlers 3 failing []).0
handle_incoming_connections-IsStuck_example =
    handle_incoming_connections-IsStuck one_client handlers one_client-SetsErrno 3 failing []
      (omega arith) (omega arith)

receive_from_stuck_example :
    let (r, w) = receive sample (client 6).conn 32 0 [] in
    receive_from sample handlers failing (client 6) [] ≡ (
      done
          (remove_client (record failing { ec = r.2; clients = set_conn 6 r.1 failing.clients }) 6),
      w,
    )
receive_from_stuck_example =
    receive_from_stuck sample handlers sample-RecvFits sample-SetsErrno failing (client 6) []
      (omega arith)

abbrev watched : Server
watched = record server {
  poll_group = record {
    pfds =
        record { fd = 6; events = 1; revents = 0 }
        ∷ record { fd = 7; events = 1; revents = 0 }
        ∷ [];
    pfd_config = 1;
  };
}

watched-IsWellFormed : IsWellFormed watched
watched-IsWellFormed = (((omega arith, tt), (tt, tt)), (omega arith, (omega arith, tt)), refl)

-- The younger client was removed.
abbrev shrinking : Server
shrinking = record server {
  clients = client 6 ∷ record (client 7) { is_connected = false } ∷ [];
  has_disconnected_clients = true;
}

handle_disconnected_clients-ids_example :
    Always
      (λ (t : Server). ids t.clients ≡ 6 ∷ [])
      (handle_disconnected_clients sample handlers shrinking []).0
handle_disconnected_clients-ids_example =
    handle_disconnected_clients-ids sample handlers sample-SendsSome sample-SetsErrno (λ w. []) refl
      shrinking [] refl refl

-- Everybody but the older client.
mail_6 : mail 6 hello.bytes server.clients 6 ≡ []
mail_6 = refl

mail_7 : mail 6 hello.bytes server.clients 7 ≡ hello.bytes
mail_7 = refl

hello-ne : hello.bytes ≢ []
hello-ne e = cc

message_all_clients-Delivers_example :
    Delivers
      (mail 6 hello.bytes server.clients)
      server
      []
      (message_all_clients sample server hello 6 [])
message_all_clients-Delivers_example =
    message_all_clients-Delivers sample sample-SendsSome sample-SetsErrno hello 6 hello-ne server
      refl [] ((omega arith, tt), (tt, tt)) ((λ e. refl), ((λ e. refl), tt))
