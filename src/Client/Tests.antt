-- ===== src/Client/Tests.antt =====
-- A client on the sample platform.
use yonaa.Base.{◌≡◌, ◌≢◌, refl, [], ◌∷◌, true, false, some}
use yonaa.Os.Events.{Event, Trace}
use yonaa.Os.Outcome.{stops, out_of_rounds, ◌>>=◌}
use yonaa.Os.Sample.{sample, sample-SetsErrno, sample-SendsSome}
use yonaa.Buffer.{Buffer}
use yonaa.Connection.{unopened, has_data_available}
use yonaa.Poll.{poll_socket, ssm_from_revents}
use yonaa.Client.{
  Client, Handlers, call_send_message, call_disconnect, connect, enter, leave, disconnected, serve,
  network_thread_function, send_message,
}
use yonaa.Client.Starting.{network_thread_function-at_once}
use yonaa.Client.Waiting.{tested, serve-starves}
use yonaa.Client.Hangup.{serve-repeats}
use yonaa.Client.Sending.{Passes, send_message-Passes}

abbrev hello : Buffer
hello = record { bytes = 104 ∷ 105 ∷ [] }

-- A greeting when connected, an answer to each message, and a stop at the end.
abbrev handlers : Handlers
handlers = record {
  on_data_receive = some (λ w. call_send_message hello ∷ []);
  on_connect = some (λ w. call_send_message hello ∷ []);
  on_disconnect = some (λ w. call_disconnect ∷ []);
}

abbrev client : Client
client = record {
  running = true;
  ec = 0;
  conn = record unopened { socket = 5 };
  hostname = [];
  service = [];
}

abbrev not_started : Client
unfolding connect
not_started = connect (record client { running = false; conn = unopened }) (104 ∷ []) (53 ∷ [])

nonempty : hello.bytes ≢ []
nonempty e = cc

available : (w : Trace) → (has_data_available sample client.conn w).0 ≡ true
unfolding has_data_available poll_socket ssm_from_revents
available w = refl

network_thread_function-at_once_example :
    network_thread_function sample handlers 4 3 (λ w. []) not_started []
    ≡ (enter sample handlers 3 not_started >>= leave sample handlers 3) []
unfolding not_started
network_thread_function-at_once_example =
    network_thread_function-at_once sample handlers 3 3 (λ w. []) not_started [] refl

serve-starves_example :
    serve sample handlers 4 3 (λ w. []) client []
    ≡ (stops out_of_rounds, tested sample handlers 4 client.conn [])
serve-starves_example = serve-starves sample handlers 4 3 client [] refl refl available

send_message-Passes_example :
    Passes sample
      (disconnected sample handlers 3)
      client
      hello
      []
      (send_message sample (disconnected sample handlers 3) client hello [])
send_message-Passes_example =
    send_message-Passes sample (disconnected sample handlers 3) sample-SendsSome sample-SetsErrno
      client hello [] refl nonempty

abbrev silent : Handlers
silent = record {
  on_data_receive = some (λ w. []);
  on_connect = some (λ w. []);
  on_disconnect = some (λ w. []);
}

serve-repeats_example : serve sample silent 3 2 (λ w. []) (record client { conn = unopened }) [] ≡ (
  stops out_of_rounds,
  Event.server_disconnected ∷ Event.server_disconnected ∷ Event.server_disconnected ∷ [],
)
serve-repeats_example =
    serve-repeats sample silent (λ w. []) refl (λ w. refl) 3 1 (record client { conn = unopened })
      [] refl refl
