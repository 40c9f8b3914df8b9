-- ===== src/Client/System/Tests.antt =====
-- Clients with their network threads on the sample platform.
use yonaa.Base.{◌≡◌, refl, [], ◌∷◌, Bool, true, false, some, arith}
use yonaa.Os.Events.{Event, polled}
use yonaa.Os.Platform.{Platform, SetsErrno}
use yonaa.Os.Sample.{sample, sample-RecvFits}
use yonaa.Buffer
use yonaa.Client.Order.{news}
use yonaa.Client.System.Order.{NewsAt, Reach-NewsAt}
use yonaa.Resolve.{resolve}
use yonaa.Connection
use yonaa.Connection.{connect_to, has_data_available}
use yonaa.Endpoint.{from_native_address}
use yonaa.Poll.{poll_socket, ssm_from_revents}
use yonaa.SocketOps.{create_connected_socket, try_connect, get_remote_endpoint, get_local_endpoint}
use yonaa.Client.{
  Handlers, is_connected, new_client, connect, enter, open_to, notify, leave,
  handle_incoming_messages, perform_all, receive_message,
}
use yonaa.Client.System.{
  System, Reach, here, later, spawn, begin, turn, receive, stop, finish, is_joined, initial,
}
use yonaa.Client.System.Lifecycle.{is_messaging, Reach-is_connected, Reach-is_messaging}
use yonaa.Client.System.Stopping.{Reach-is_joined_client}

-- Callbacks that ask nothing.
abbrev handlers : Handlers
handlers = record {
  on_data_receive = some (λ w. []);
  on_connect = some (λ w. []);
  on_disconnect = some (λ w. []);
}

record Run (stray : Bool) : Type 0 where
  last : System
  reach : Reach sample handlers 3 (initial stray) last

-- A client that happens not to run, up to the end of its thread.
deaf : Run false
unfolding new_client connect enter open_to resolve notify leave Connection.connect connect_to
    create_connected_socket try_connect Connection.disconnect perform_all from_native_address
deaf = record {
  last = _;
  reach =
      later
        (later (later (later here (spawn (104 ∷ []) (53 ∷ []) refl)) (begin refl refl))
          (stop refl refl))
        (finish refl refl);
}

-- One that happens to run, after a turn of its loop.
lasting : Run true
unfolding new_client connect enter open_to resolve notify leave Connection.connect connect_to
    create_connected_socket try_connect Connection.disconnect perform_all from_native_address
    handle_incoming_messages has_data_available poll_socket ssm_from_revents
lasting = record {
  last = _;
  reach =
      later
        (later (later (later here (spawn (104 ∷ []) (53 ∷ []) refl)) (begin refl refl))
          (turn refl refl))
        (receive refl refl);
}

Reach-is_connected_example : is_connected deaf.last.client ≡ false
unfolding deaf
Reach-is_connected_example = Reach-is_connected sample handlers 3 false deaf.reach refl

Reach-is_messaging_example : is_messaging deaf.last.phase ≡ false
Reach-is_messaging_example = Reach-is_messaging sample handlers 3 deaf.reach

Reach-is_joined_client_example : is_joined lasting.last.phase ≡ false
unfolding lasting
Reach-is_joined_client_example =
    Reach-is_joined_client sample handlers 3 (λ w. tt) (λ w. tt) (λ w. tt) lasting.reach tt refl

-- The test for data says that there are none, and so the client receives.
abbrev idle : Platform
idle = record sample { poll = λ fds timeout w. polled 0 (λ i. 0) }

record Receipt : Type 0 where
  last : System
  reach : Reach idle handlers 3 (initial true) last

receipt : Receipt
unfolding new_client connect enter open_to resolve notify leave Connection.connect connect_to
    create_connected_socket try_connect Connection.disconnect perform_all from_native_address
    handle_incoming_messages receive_message has_data_available poll_socket ssm_from_revents
    Connection.receive Buffer.resize Buffer.of_size
receipt = record {
  last = _;
  reach =
      later
        (later (later (later here (spawn (104 ∷ []) (53 ∷ []) refl)) (begin refl refl))
          (turn refl refl))
        (receive refl refl);
}

receipt_news :
    news receipt.last.history ≡ Event.server_sent (7 ∷ 8 ∷ []) ∷ Event.server_connected ∷ []
unfolding receipt get_remote_endpoint get_local_endpoint
receipt_news = refl

idle-SetsErrno : SetsErrno idle
idle-SetsErrno e w f = omega arith

Reach-NewsAt_example : NewsAt receipt.last.phase receipt.last.history
Reach-NewsAt_example =
    Reach-NewsAt idle handlers 3 sample-RecvFits idle-SetsErrno true receipt.reach
