-- ===== src/Client/Order.antt =====
-- The order of a client's callbacks: the specification.
use yonaa.Base.{◌≤◌, ◌≢◌, [], ◌∷◌, length}
use yonaa.Os.Events.{Event, Trace}
use yonaa.Told.{told}
use yonaa.Connection.{max_buffer_size}

-- The calls of `on_connect_` and `on_data_receive_` among those of all callbacks.
abbrev pub without_goodbyes : Trace → Trace
without_goodbyes [] = []
without_goodbyes (Event.server_disconnected ∷ w) = without_goodbyes w
without_goodbyes (e ∷ w) = e ∷ without_goodbyes w

abbrev pub news : Trace → Trace
news w = without_goodbyes (told w)

-- `on_connect_` was called, once and first; and each call of `on_data_receive_` had some bytes, and no
-- more than the buffer has room for.
abbrev pub IsHeard : Trace → Type 0
IsHeard [] = ⊥
IsHeard (Event.server_connected ∷ []) = Unit
IsHeard (Event.server_sent bs ∷ w) = (bs ≢ []) × (length bs ≤ max_buffer_size) × IsHeard w
IsHeard (e ∷ w) = ⊥
