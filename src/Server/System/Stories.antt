-- ===== src/Server/System/Stories.antt =====
-- A client that connects, sends something, and is removed: what the user is told.
use yonaa.Base.{
  ◌≡◌, refl, subst, [], ◌∷◌, List, Bool, true, false, not, some, arith, ◌==◌, if◌then◌else◌,
}
use yonaa.Os.Events.{Event, Trace, PollFd, polled, accept_failed, accepted}
use yonaa.Os.Platform.{Platform, RecvFits, SetsErrno}
use yonaa.Os.Sample.{sample, sample_name, sample-RecvFits}
use yonaa.Buffer
use yonaa.Connection
use yonaa.Connection.{from_native_socket}
use yonaa.SocketOps.{create_listening_socket, try_listen, get_local_endpoint}
use yonaa.Poll
use yonaa.Resolve.{resolve}
use yonaa.Acceptor
use yonaa.Acceptor.{open_at, has_pending_connection}
use yonaa.Told.{told}
use yonaa.Server.{
  Handlers, new_server, remove_client, call_remove_client, perform, perform_all, notify,
}
use yonaa.Server.Clients.{ids}
use yonaa.Server.Order.{joined, IsOrdered}
use yonaa.Server.Thread.{start_up}
use yonaa.Server.Network.{
  handle_incoming_connections, accept_client, handle_incoming_messages, handle_events, handle_event,
  handle_client, receive_from, handle_disconnected_clients, remove_if, farewell, part_with,
}
use yonaa.Server.System.{
  System, Reach, here, later, ask, spawn, begin, listen, enter, accept, receive, clear, initial,
}
use yonaa.Server.System.Order.{Reach-IsOrdered}
use yonaa.Server.System.Sockets.{HoldsAt, Reach-IsWatching}
use yonaa.Server.Departing.{IsWatched}
use yonaa.Os.Descriptors.{is_open, AcceptsNew}

abbrev has_accepted : Trace → Bool
has_accepted [] = false
has_accepted (Event.accept fd reply ∷ w) = true
has_accepted (e ∷ w) = has_accepted w

abbrev has_received : Trace → Bool
has_received [] = false
has_received (Event.recv fd size flags reply ∷ w) = true
has_received (e ∷ w) = has_received w

-- The acceptor is socket 5, and the client is socket 6.
abbrev is_ready : List PollFd → Trace → Bool
is_ready [] w = false
is_ready (p ∷ ps) w = if p.fd == 5 then not (has_accepted w) else not (has_received w)

-- One client connects on a socket that was not open, and sends something once.
abbrev talker : Platform
talker = record sample {
  accept = λ fd w. if is_open w 6 then accept_failed else accepted 6 sample_name;
  poll = λ fds timeout w. if is_ready fds w then polled 1 (λ i. 1) else polled 0 (λ i. 0);
}

talker-RecvFits : RecvFits talker
talker-RecvFits = sample-RecvFits

talker-SetsErrno : SetsErrno talker
talker-SetsErrno e w f = omega arith

talker-AcceptsNew : AcceptsNew talker
talker-AcceptsNew listener w fd addr e =
    let r = chosen (is_open w 6) e in subst (λ n. is_open w n ≡ false) r.1 r.0
  where
    chosen :
        (b : Bool)
        → (if b then accept_failed else accepted 6 sample_name) ≡ accepted fd addr
        → (b ≡ false) × (6 ≡ fd)
    chosen true k = cc
    chosen false k = (refl, cc)

abbrev handlers : Handlers
handlers = record {
  on_data_receive = some (λ w. []);
  on_client_connect = some (λ w. []);
  on_client_disconnect = some (λ w. []);
}

record Story : Type 0 where
  last : System
  reach : Reach talker handlers (initial talker 5000) last

-- The server has taken on the client and handed its data to the user.
greeted : Story
unfolding new_server start_up resolve open_at create_listening_socket try_listen
    handle_incoming_connections has_pending_connection get_local_endpoint accept_client
    Acceptor.accept notify perform_all from_native_socket perform remove_client
    handle_incoming_messages handle_events handle_event handle_client receive_from
    handle_disconnected_clients remove_if farewell part_with Poll.poll Poll.remove_socket
    Poll.add_socket Connection.disconnect Connection.receive Buffer.resize Buffer.of_size
greeted = record {
  last = _;
  reach =
      later
        (later
          (later (later (later (later here (spawn refl refl)) (begin refl)) (listen refl refl))
            (enter refl refl))
          (accept 2 refl (omega arith) refl))
        (receive refl refl);
}

-- Another thread removes the client, which the network thread then parts from.
story : Story
unfolding greeted new_server start_up resolve open_at create_listening_socket try_listen
    handle_incoming_connections has_pending_connection get_local_endpoint accept_client
    Acceptor.accept notify perform_all from_native_socket perform remove_client
    handle_incoming_messages handle_events handle_event handle_client receive_from
    handle_disconnected_clients remove_if farewell part_with Poll.poll Poll.remove_socket
    Poll.add_socket Connection.disconnect Connection.receive Buffer.resize Buffer.of_size
story = record {
  last = _;
  reach = later (later greeted.reach (ask (call_remove_client 1) refl)) (clear refl refl);
}

story_told :
    told story.last.history
    ≡ Event.client_disconnected 1 ∷ Event.client_sent 1 (7 ∷ 8 ∷ []) ∷ Event.client_connected 1 ∷ []
unfolding story greeted
story_told = refl

Reach-IsOrdered_example :
    IsOrdered (told story.last.history)
    × (joined (told story.last.history) ≡ ids story.last.server.clients)
Reach-IsOrdered_example =
    Reach-IsOrdered talker handlers talker-RecvFits talker-SetsErrno 5000 story.reach

Reach-IsWatching_example :
    IsWatched greeted.last.server
    × HoldsAt greeted.last.phase greeted.last.server greeted.last.history
Reach-IsWatching_example =
    Reach-IsWatching talker handlers talker-AcceptsNew talker-RecvFits talker-SetsErrno 5000
      greeted.reach
