-- ===== src/Client/System.antt =====
-- A client with its network thread among other threads that call its interface. The code has no
-- lock. A step is one call of the interface, or a part of the network thread: what it does before
-- its loop, a turn of the loop, and what it does after it. The steps of several threads follow one
-- another in any order.
pub mod Lifecycle
pub mod Order
pub mod Stopping
mod Tests
use yonaa.Base.{ℕ, ◌≡◌, [], Bool, true, false, Bytes}
use yonaa.Os.Events.{Trace}
use yonaa.Os.Platform.{Platform}
use yonaa.Os.Outcome.{done}
use yonaa.Client.{
  Client, Request, Handlers, new_client, connect, perform, disconnected, enter, leave,
  handle_incoming_messages,
}

-- Where the network thread stands: before it was created and before its first statement, at the test
-- of its loop, before the handler, after the loop, and at its end.
pub data Phase : Type 0 where
  unstarted spawned testing messaging closing ended : Phase

pub record System : Type 0 where
  pub client : Client
  pub phase : Phase
  pub history : Trace

-- `network_thread_.joinable()`
abbrev pub is_joinable : Phase → Bool
is_joinable unstarted = false
is_joinable _ = true

-- Whether `~client` gets past its `join`.
abbrev pub is_joined : Phase → Bool
is_joined unstarted = true
is_joined ended = true
is_joined _ = false

-- `depth` is how far the calls of `on_disconnect_` nest at most.
module _ (P : Platform) (H : Handlers) (depth : ℕ) where
  pub data Step (s : System) : System → Type 0 where
    -- a call of `send_message` or `disconnect`
    ask :
        (q : Request) {c : Client} {w : Trace}
        → perform P (disconnected P H depth) q s.client s.history ≡ (done c, w)
        → Step s (record s { client = c; history = w })
    -- `connect`, when there is no thread yet; with one, `std::thread` ends the program
    spawn :
        (hostname service : Bytes)
        → s.phase ≡ unstarted
        → Step s (record s { client = connect s.client hostname service; phase = spawned })
    begin :
        {c : Client} {w : Trace}
        → s.phase ≡ spawned
        → enter P H depth s.client s.history ≡ (done c, w)
        → Step s (record { client = c; phase = testing; history = w })
    turn : s.phase ≡ testing → s.client.running ≡ true → Step s (record s { phase = messaging })
    stop : s.phase ≡ testing → s.client.running ≡ false → Step s (record s { phase = closing })
    receive :
        {c : Client} {w : Trace}
        → s.phase ≡ messaging
        → handle_incoming_messages P H depth s.client s.history ≡ (done c, w)
        → Step s (record { client = c; phase = testing; history = w })
    finish :
        {c : Client} {w : Trace}
        → s.phase ≡ closing
        → leave P H depth s.client s.history ≡ (done c, w)
        → Step s (record { client = c; phase = ended; history = w })

  pub data Reach (s : System) : System → Type 0 where
    here : Reach s s
    later : {t u : System} → Reach s t → Step t u → Reach s u

-- A client that was just made, with what the memory of `running_` happens to hold.
abbrev pub initial : Bool → System
initial stray = record { client = new_client stray; phase = unstarted; history = [] }
