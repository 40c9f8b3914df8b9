-- ===== src/Server/System.antt =====
-- A server with its network thread among other threads that call its interface. The code has no
-- lock. A step is one call of the interface, or a part of the network thread up to its next handler:
-- the steps of several threads follow one another in any order.
pub mod Refinement
pub mod Lifecycle
pub mod Removal
pub mod Stopping
pub mod Watching
pub mod Ending
pub mod Order
pub mod Sockets
mod Tests
mod Stories
use yonaa.Base.{ℕ, ◌+◌, ◌<◌, ◌^◌, ◌≡◌, [], Bool, true, false}
use yonaa.Os.Events.{Trace}
use yonaa.Os.Platform.{Platform}
use yonaa.Os.Outcome.{done}
use yonaa.Server.{Server, Request, Handlers, new_server, run, perform}
use yonaa.Server.Network.{
  handle_incoming_connections, handle_incoming_messages, handle_disconnected_clients,
}
use yonaa.Server.Thread.{start_up, shut_down}

-- Where the network thread stands: before it was created and before its first statement, before
-- `resolve`, at the test of its loop, before each handler, after the loop, and at its end.
pub data Phase : Type 0 where
  unstarted spawned opening testing accepting messaging clearing closing ended : Phase

pub record System : Type 0 where
  pub server : Server
  pub phase : Phase
  pub history : Trace

-- `network_thread_.joinable()`
abbrev pub is_joinable : Phase → Bool
is_joinable unstarted = false
is_joinable _ = true

-- Whether `~server` gets past its `join`.
abbrev pub is_joined : Phase → Bool
is_joined unstarted = true
is_joined ended = true
is_joined _ = false

module _ (P : Platform) (H : Handlers) where
  pub data Step (s : System) : System → Type 0 where
    -- a call of `message_client`, `message_all_clients`, `remove_client` or `stop`
    ask :
        (q : Request) {t : Server} {w : Trace}
        → perform P q s.server s.history ≡ (done t, w)
        → Step s (record s { server = t; history = w })
    -- `run` before there is a thread
    spawn : s.phase ≡ unstarted → run s.server ≡ true → Step s (record s { phase = spawned })
    -- `running_ = true`
    begin :
        s.phase ≡ spawned
        → Step s (record s { server = record s.server { running = true }; phase = opening })
    listen :
        {t : Server} {w : Trace}
        → s.phase ≡ opening
        → start_up P s.server s.history ≡ (done t, w)
        → Step s (record { server = t; phase = testing; history = w })
    enter : s.phase ≡ testing → s.server.running ≡ true → Step s (record s { phase = accepting })
    leave : s.phase ≡ testing → s.server.running ≡ false → Step s (record s { phase = closing })
    -- with ids that were never given out for as many clients as are taken on
    accept :
        (rounds : ℕ) {t : Server} {w : Trace}
        → s.phase ≡ accepting
        → s.server.next_available_id + rounds < 2 ^ 64
        → handle_incoming_connections P H rounds s.server s.history ≡ (done t, w)
        → Step s (record { server = t; phase = messaging; history = w })
    receive :
        {t : Server} {w : Trace}
        → s.phase ≡ messaging
        → handle_incoming_messages P H s.server s.history ≡ (done t, w)
        → Step s (record { server = t; phase = clearing; history = w })
    clear :
        {t : Server} {w : Trace}
        → s.phase ≡ clearing
        → handle_disconnected_clients P H s.server s.history ≡ (done t, w)
        → Step s (record { server = t; phase = testing; history = w })
    finish :
        {t : Server} {w : Trace}
        → s.phase ≡ closing
        → shut_down s.server s.history ≡ (done t, w)
        → Step s (record { server = t; phase = ended; history = w })

  pub data Reach (s : System) : System → Type 0 where
    here : Reach s s
    later : {t u : System} → Reach s t → Step t u → Reach s u

-- A server that was just made, in a program that has done nothing else.
abbrev pub initial : Platform → ℕ → System
initial P port = record { server = new_server P port; phase = unstarted; history = [] }
