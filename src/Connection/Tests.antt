-- ===== src/Connection/Tests.antt =====
-- Connections on the sample platform.
use yonaa.Base.{◌≤◌, ◌⊎◌, ℕ, ◌≡◌, ◌≢◌, refl, [], ◌∷◌, arith}
use yonaa.Os.Events.{Trace}
use yonaa.Os.Outcome.{done, returns}
use yonaa.Os.Sample.{
  sample, sample_name, sample-IsBitwise, sample-SetsErrno, sample-SkipsZero, sample-SendsSome,
  sample-RecvFits,
}
use yonaa.Buffer.{Buffer}
use yonaa.Endpoint.{Endpoint}
use yonaa.Connection.{
  Connection, ErrorCode, unopened, destroy, move_assign, connect, receive, receive_sized,
  max_buffer_size,
}
use yonaa.Buffer.{size}
use yonaa.Connection.Send.{send, send_or_throw}
use yonaa.Connection.Sending.{Sends, delivered, send-Sends}
use yonaa.Connection.Receiving.{Receives, receive_sized-Receives, receive-size}
use yonaa.Connection.Stream.{gather, Gathers}
use yonaa.Connection.Transfer.{send-gather}
use yonaa.Connection.Wire.{wire, wire-IsStream, wire-SetsErrno, wire-SendsSome}
use yonaa.Connection.Connecting.{Opens, connect-Opens}
use yonaa.Connection.Lifetime.{closes, move_assign-leaks}

abbrev peer : Endpoint
peer = record { protocol = 6; storage = record { bytes = sample_name } }

abbrev at_socket : ℕ → Connection
at_socket fd = record { socket = fd; local_endpoint = peer; remote_endpoint = peer }

abbrev hello : Buffer
hello = record { bytes = 104 ∷ 101 ∷ 108 ∷ 108 ∷ 111 ∷ [] }

nonempty : hello.bytes ≢ []
nonempty e = cc

-- Five bytes go out in two calls.
two_rounds : delivered 5 (send sample (at_socket 5) hello 0 0 []).1 ≡ hello.bytes
unfolding send
two_rounds = refl

send-Sends_example : Sends 5 hello.bytes 0 [] (send sample (at_socket 5) hello 0 0 [])
send-Sends_example =
    send-Sends sample sample-SendsSome sample-SetsErrno (at_socket 5) hello 0 0 [] refl nonempty

sent : (send_or_throw sample (at_socket 5) hello 0 []).0 ≡ done (returns tt)
unfolding send_or_throw
sent = refl

receive_sized-Receives_example :
    Receives sample (at_socket 5) 10 0 [] (receive_sized sample (at_socket 5) 10 0 0 [])
receive_sized-Receives_example =
    receive_sized-Receives sample sample-RecvFits sample-SetsErrno (at_socket 5) 10 0 0 [] refl
      (omega arith)

receive-size_example :
    let r = (receive sample (at_socket 5) 0 0 []).0 in
    (size r.0 ≤ max_buffer_size) × ((size r.0 ≡ 0) ⊎ ((r.1 ≡ at_socket 5) × (r.2 ≡ 0)))
receive-size_example = receive-size sample sample-RecvFits sample-SetsErrno (at_socket 5) 0 0 []

connect-Opens_example :
    Opens sample (peer ∷ []) unopened 0 [] (connect sample unopened (peer ∷ []) 0 []).0
connect-Opens_example = connect-Opens sample sample-SetsErrno sample-SkipsZero unopened peer [] 0 []

move_assign-leaks_example :
    (closes 5 (destroy (at_socket 5) []).1 ≡ 1)
    × (closes 5
          (destroy
            (move_assign (at_socket 5) (at_socket 6)).1
            (destroy (move_assign (at_socket 5) (at_socket 6)).0 []).1).1
        ≡ 0)
move_assign-leaks_example = move_assign-leaks (at_socket 5) (at_socket 6) [] refl (omega arith)

abbrev after_hello : Trace
after_hello = (send wire (at_socket 5) hello 0 0 []).1

-- Two bytes, two bytes and one.
three_calls : (gather wire 5 5 (at_socket 6) 0 after_hello).0 ≡ (hello.bytes, 0)
unfolding gather send receive yonaa.Buffer.resize yonaa.Buffer.of_size
three_calls = refl

send-gather_example :
    let r = send wire (at_socket 5) hello 0 0 [] in
    ((r.0 ≡ done 0) × Gathers hello.bytes (gather wire 5 5 (at_socket 6) 0 r.1))
    ⊎ ((ec : ErrorCode) × (r.0 ≡ done ec) × (ec ≢ 0))
send-gather_example =
    send-gather wire sample-IsBitwise wire-SetsErrno (at_socket 5) (at_socket 6) refl wire-IsStream
      wire-SendsSome hello 0 [] refl nonempty refl
