-- ===== src/Server/System/Tests.antt =====
-- A server that takes on one client, on a platform on which one client connects.
use yonaa.Base.{◌+◌, ◌≡◌, refl, [], ◌∷◌, false, some, arith}
use yonaa.Os.Outcome.{done}
use yonaa.Os.Sample.{one_client, one_client-SkipsZero}
use yonaa.Buffer.{Buffer}
use yonaa.Server.{
  Handlers, new_server, remove_client, call_remove_client, call_stop, perform, message_client,
  notify, perform_all,
}
use yonaa.Server.Thread.{start_up, shut_down}
use yonaa.Server.Network.{handle_incoming_connections, accept_client}
use yonaa.Resolve.{resolve}
use yonaa.Acceptor
use yonaa.Acceptor.{open_at, has_pending_connection}
use yonaa.Connection.{from_native_socket}
use yonaa.SocketOps.{create_listening_socket, try_listen, get_local_endpoint}
use yonaa.Server.Clients.{ids}
use yonaa.Server.Refining.{Refines}
use yonaa.Server.System.{
  System, leave, finish, Reach, here, later, spawn, begin, listen, enter, ask, receive, clear,
  accept, initial, is_joined,
}
use yonaa.Server.System.Refinement.{Reach-Refines}
use yonaa.Server.System.Lifecycle.{IsListening, Reach-IsListening}
use yonaa.Server.System.Stopping.{Reach-is_joined}
use yonaa.Server.System.Ending.{Reach-destroy}
use yonaa.Server.Destroying.{destroy, held}
use yonaa.Connection.Lifetime.{closes}
use yonaa.Server.Network.{
  handle_incoming_messages, handle_events, handle_disconnected_clients, remove_if, farewell,
  part_with,
}
use yonaa.Poll
use yonaa.Connection
use yonaa.Server.System.Removal.{Reach-message_client}

-- Callbacks that ask nothing.
abbrev handlers : Handlers
handlers = record {
  on_data_receive = some (λ w. []);
  on_client_connect = some (λ w. []);
  on_client_disconnect = some (λ w. []);
}

record Run : Type 0 where
  last : System
  reach : Reach one_client handlers (initial one_client 5000) last

joined : Run
unfolding new_server start_up resolve open_at create_listening_socket try_listen
    handle_incoming_connections has_pending_connection get_local_endpoint accept_client
    Acceptor.accept notify perform_all from_native_socket
joined = record {
  last = _;
  reach =
      later
        (later (later (later (later here (spawn refl refl)) (begin refl)) (listen refl refl))
          (enter refl refl))
        (accept 2 refl (omega arith) refl);
}

one_client_joined :
    (joined.last.server.next_available_id ≡ 2) × (ids joined.last.server.clients ≡ 1 ∷ [])
unfolding joined new_server start_up resolve open_at create_listening_socket try_listen
    handle_incoming_connections has_pending_connection get_local_endpoint accept_client
    Acceptor.accept notify perform_all from_native_socket
one_client_joined = (refl, refl)

Reach-Refines_example : Refines (new_server one_client 5000) joined.last.server
Reach-Refines_example = Reach-Refines one_client handlers joined.reach

Reach-IsListening_example : IsListening joined.last
Reach-IsListening_example =
    Reach-IsListening one_client handlers one_client-SkipsZero 5000 joined.reach

abbrev hello : Buffer
hello = record { bytes = 104 ∷ 105 ∷ [] }

Reach-message_client_example :
    let s = remove_client joined.last.server 1 in
    message_client one_client s hello 1 [] ≡ (done s, [])
Reach-message_client_example =
    Reach-message_client one_client handlers 5000 joined.reach 1
      (omega (arith, one_client_joined.0)) here hello []

Reach-is_joined_example : is_joined joined.last.phase ≡ false
unfolding joined
Reach-is_joined_example =
    Reach-is_joined one_client handlers (λ w. tt) (λ w. tt) (λ w. tt) 5000 joined.reach tt refl

-- Another thread removes the client, which the network thread then parts from.
cleared : Run
unfolding joined new_server start_up resolve open_at create_listening_socket try_listen
    handle_incoming_connections has_pending_connection get_local_endpoint accept_client
    Acceptor.accept notify perform_all from_native_socket perform remove_client
    handle_incoming_messages handle_events handle_disconnected_clients remove_if farewell part_with
    Poll.poll Poll.remove_socket Poll.add_socket Connection.disconnect
cleared = record {
  last = _;
  reach =
      later (later (later joined.reach (ask (call_remove_client 1) refl)) (receive refl refl))
        (clear refl refl);
}

-- Another thread stops the server, which still has its client.
stopped : Run
unfolding joined shut_down Acceptor.close new_server start_up resolve open_at
    create_listening_socket try_listen handle_incoming_connections has_pending_connection
    get_local_endpoint accept_client Acceptor.accept notify perform_all from_native_socket perform
    remove_client handle_incoming_messages handle_events handle_disconnected_clients remove_if
    farewell part_with Poll.poll Poll.remove_socket Poll.add_socket Connection.disconnect
stopped = record {
  last = _;
  reach =
      later
        (later
          (later (later (later joined.reach (ask call_stop refl)) (receive refl refl))
            (clear refl refl))
          (leave refl refl))
        (finish refl refl);
}

stopped_held : held 6 stopped.last.server.clients ≡ 1
unfolding stopped joined
stopped_held = refl

Reach-destroy_example :
    closes 6 (destroy stopped.last.server stopped.last.history).1
    ≡ closes 6 stopped.last.history + held 6 stopped.last.server.clients
unfolding stopped
Reach-destroy_example =
    Reach-destroy one_client handlers one_client-SkipsZero 5000 stopped.reach refl 6
