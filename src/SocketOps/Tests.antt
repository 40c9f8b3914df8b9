-- ===== src/SocketOps/Tests.antt =====
-- Sockets on the sample platform.
use yonaa.Base.{◌≡◌, ◌+◌, ◌≤◌, refl, [], ◌∷◌}
use yonaa.Os.Events.{failed}
use yonaa.Os.Sample.{sample, sample_name, sample-SetsErrno, sample-SkipsZero}
use yonaa.Endpoint.{Endpoint}
use yonaa.SocketOps.{try_connect, create_connected_socket}
use yonaa.SocketOps.Laws.{Connects, create_connected_socket-Connects}
use yonaa.SocketOps.Leaks.{made, closed, count_of, create_connected_socket-leaks}

-- The sample platform connects to the second one only.
abbrev unreachable : Endpoint
unreachable = record { protocol = 6; storage = record { bytes = 2 ∷ 0 ∷ [] } }

abbrev reachable : Endpoint
reachable = record { protocol = 6; storage = record { bytes = sample_name } }

second_socket : (create_connected_socket sample (unreachable ∷ reachable ∷ []) []).0 ≡ 5
unfolding create_connected_socket try_connect
second_socket = refl

create_connected_socket-Connects_example :
    let (fd, w) = create_connected_socket sample (unreachable ∷ reachable ∷ []) [] in
    Connects sample sample-SetsErrno sample-SkipsZero (unreachable ∷ reachable ∷ []) fd w
create_connected_socket-Connects_example =
    create_connected_socket-Connects sample sample-SetsErrno sample-SkipsZero unreachable
      (reachable ∷ []) []

first_fails : (try_connect sample unreachable []).0 ≡ failed
unfolding try_connect
first_fails = refl

create_connected_socket-leaks_example :
    let (fd, w) = create_connected_socket sample (unreachable ∷ reachable ∷ []) [] in
    (closed w ≡ 0) × (1 + count_of fd ≤ made w)
create_connected_socket-leaks_example =
    create_connected_socket-leaks sample unreachable (reachable ∷ []) [] 5 refl first_fails
