-- ===== src/Told.antt =====
-- The calls of the user's callbacks in a history, without the system calls.
pub mod Quiet
use yonaa.Base.{List, [], ◌∷◌, Bool, true, false, if◌then◌else◌, ◌≡◌, ◌∙◌, refl}
use yonaa.Os.Events.{Event, Trace}
use yonaa.Os.Outcome.{Outcome, done, stops, R, ◌>>=◌}

abbrev pub is_call : Event → Bool
is_call (Event.client_connected id) = true
is_call (Event.client_sent id bs) = true
is_call (Event.client_disconnected id) = true
is_call Event.server_connected = true
is_call (Event.server_sent bs) = true
is_call Event.server_disconnected = true
is_call _ = false

-- The calls of callbacks, the newest first.
abbrev pub told : Trace → Trace
told [] = []
told (e ∷ w) = let rest = told w in if is_call e then e ∷ rest else rest
