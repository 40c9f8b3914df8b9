-- ===== src/Os/Descriptors.antt =====
-- Which descriptors a history has left open.
use yonaa.Base.{ℕ, [], ◌∷◌, Bool, true, false, Bytes, ◌≡◌, ◌==◌, if◌then◌else◌}
use yonaa.Os.Events.{value, accepted, Event, Trace}
use yonaa.Os.Platform.{Platform}

-- Sockets that the program made or accepted and did not close since.
abbrev pub is_open : Trace → ℕ → Bool
is_open [] fd = false
is_open (Event.socket d t p (value n) ∷ w) fd = if n == fd then true else is_open w fd
is_open (Event.accept l (accepted n addr) ∷ w) fd = if n == fd then true else is_open w fd
is_open (Event.close n ∷ w) fd = if n == fd then false else is_open w fd
is_open (e ∷ w) fd = is_open w fd

-- man 2 accept, man 2 open: the descriptor of a connection that was accepted is one that is not in
-- use.
abbrev pub AcceptsNew : Platform → Type 0
AcceptsNew P =
    (listener : ℕ) (w : Trace) (fd : ℕ) (addr : Bytes)
    → P.accept listener w ≡ accepted fd addr
    → is_open w fd ≡ false
