-- ===== src/Server/Thread.antt =====
-- `network_thread_function_` of src/server.cpp, with a number of turns. The sleep between two turns is
-- where the requests of the other threads are done.
use yonaa.Base.{ℕ, zero, suc, List, true, false, ◌==◌, if◌then◌else◌}
use yonaa.Base.Decimal.{to_string}
use yonaa.Os.Events.{Trace}
use yonaa.Os.Platform.{Platform}
use yonaa.Os.Outcome.{R, return, halt, lift, ◌>>=◌, out_of_rounds, exited}
use yonaa.Acceptor.{open_at, close, config_bits, reuse_address}
use yonaa.Resolve.{resolve, any_address}
use yonaa.Server.{Server, Request, Handlers, perform_all}
use yonaa.Server.Network.{
  handle_incoming_connections, handle_incoming_messages, handle_disconnected_clients,
}

-- The part of `network_thread_function_` after its loop
unfoldable pub shut_down : Server → R Server
shut_down s = do closed ← lift (close s.acceptor); return (record s { acceptor = closed })

module _ (P : Platform) where
  -- The part of `network_thread_function_` before its loop, from the call of `resolve` on.
  unfoldable pub start_up : Server → R Server
  start_up s = do
    (endpoints, resolve_ec) ← lift (resolve P any_address (to_string s.port) s.ec)
    let opened = (do
      (acceptor, ec) ← lift (open_at P s.acceptor endpoints resolve_ec (config_bits reuse_address))
      let s' = record s { ec = ec; acceptor = acceptor }
      if ec == 0 then return s' else halt exited)
    if resolve_ec == 0 then opened else halt exited

module _ (P : Platform) (H : Handlers) where
  -- What other threads ask, given the history.
  abbrev pub asked : (Trace → List Request) → Server → R Server
  asked others s w = perform_all P (others w) s w

  -- The loop of `network_thread_function_`; `others` is what the other threads ask during the sleep.
  unfoldable pub serve : ℕ → ℕ → (Trace → List Request) → Server → R Server
  serve zero rounds others s = halt out_of_rounds
  serve (suc turns) rounds others s = elim s.running [
    | false ↦ return s
    | true ↦ do
      accepted ← handle_incoming_connections P H rounds s
      messaged ← handle_incoming_messages P H accepted
      cleared ← handle_disconnected_clients P H messaged
      slept ← asked others cleared
      serve turns rounds others slept
  ]

  -- `network_thread_function_`
  unfoldable pub network_thread_function : ℕ → ℕ → (Trace → List Request) → Server → R Server
  network_thread_function turns rounds others s = do
    opened ← start_up P (record s { running = true })
    served ← serve turns rounds others opened
    shut_down served
