-- ===== src/Server/Order.antt =====
-- What a server promises of the calls of its callbacks: the order in which the user is told of a
-- client, and how much data a call has.
use yonaa.Base.{ℕ, ◌<◌, ◌≤◌, ◌≢◌, List, [], ◌∷◌, ◌++◌, All, length}
use mathlib.Core.List.{Memᴰ}
use yonaa.Os.Events.{Event, Trace}
use yonaa.Poll.Group.{others}
use yonaa.Connection.{max_buffer_size}

-- The ids that the user was told of as connected.
abbrev pub known : Trace → List ℕ
known [] = []
known (Event.client_connected id ∷ w) = id ∷ known w
known (e ∷ w) = known w

-- Those of them that the user was not told of as disconnected, in the order of their connection.
abbrev pub joined : Trace → List ℕ
joined [] = []
joined (Event.client_connected id ∷ w) = joined w ++ (id ∷ [])
joined (Event.client_disconnected id ∷ w) = others id (joined w)
joined (e ∷ w) = joined w

-- A client connects under an id that no client had before; data come from a client that is connected
-- and not yet disconnected, at least one byte and no more than the buffer has room for; and a client
-- disconnects that is connected and not yet disconnected.
abbrev pub IsOrdered : Trace → Type 0
IsOrdered [] = Unit
IsOrdered (Event.client_connected id ∷ w) = All (λ n. n ≢ id) (known w) × IsOrdered w
IsOrdered (Event.client_sent id bs ∷ w) =
    Memᴰ id (joined w) × (0 < length bs) × (length bs ≤ max_buffer_size) × IsOrdered w
IsOrdered (Event.client_disconnected id ∷ w) = Memᴰ id (joined w) × IsOrdered w
IsOrdered (e ∷ w) = IsOrdered w
