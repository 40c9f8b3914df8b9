-- ===== src/Server/Destroying.antt =====
-- The end of `~server` in src/server.cpp, after its `join`: the members are destroyed, the acceptor
-- before the clients.
use yonaa.Base.{false, ℕ, ◌+◌, ◌≡◌, List, [], ◌∷◌, ◌==◌, ◌&&◌, if◌then◌else◌, arith}
use yonaa.Os.Events.{Trace}
use yonaa.Os.Calls.{M, pure, ◌>>=◌}
use yonaa.Connection
use yonaa.Connection.{Connection, is_connected}
use yonaa.Connection.Lifetime.{closes}
use yonaa.Acceptor
use yonaa.Acceptor.{Acceptor, is_open}
use yonaa.Server.{ClientInfo, Server}

unfoldable pub destroy_clients : List ClientInfo → M (Unit {0})
unfolding Connection.destroy
destroy_clients [] = pure tt
destroy_clients (c ∷ cs) = do _ ← Connection.destroy c.conn; destroy_clients cs

unfoldable pub destroy : Server → M (Unit {0})
unfolding Acceptor.destroy destroy_clients
destroy s = do _ ← Acceptor.destroy s.acceptor; destroy_clients s.clients

-- How many of the clients have an open connection on the descriptor.
abbrev pub held : ℕ → List ClientInfo → ℕ
held fd [] = 0
held fd (c ∷ cs) = (if is_connected c.conn && (c.conn.socket == fd) then 1 else 0) + held fd cs

destroy_connection :
    (fd : ℕ) (c : Connection) (w : Trace)
    → closes fd (Connection.destroy c w).1
      ≡ closes fd w + (if is_connected c && (c.socket == fd) then 1 else 0)
unfolding Connection.destroy
destroy_connection fd c w = ground arith

destroy_acceptor :
    (fd : ℕ) (a : Acceptor) (w : Trace)
    → closes fd (Acceptor.destroy a w).1
      ≡ closes fd w + (if is_open a && (a.socket == fd) then 1 else 0)
unfolding Acceptor.destroy
destroy_acceptor fd a w = ground arith

closes-destroy_clients :
    (fd : ℕ) (cs : List ClientInfo) (w : Trace)
    → closes fd (destroy_clients cs w).1 ≡ closes fd w + held fd cs
unfolding destroy_clients
closes-destroy_clients fd [] w = omega arith
closes-destroy_clients fd (c ∷ cs) w =
    let w' = (Connection.destroy c.conn w).1 in
    let h = closes-destroy_clients fd cs w' in let k = destroy_connection fd c.conn w in omega arith

-- Destroying a server closes each descriptor as often as its acceptor and its clients hold it open.
closes-destroy :
    (fd : ℕ) (s : Server) (w : Trace)
    → closes fd (destroy s w).1
      ≡ closes fd w
        + (if is_open s.acceptor && (s.acceptor.socket == fd) then 1 else 0)
        + held fd s.clients
unfolding destroy
closes-destroy fd s w =
    let w' = (Acceptor.destroy s.acceptor w).1 in
    let h = closes-destroy_clients fd s.clients w' in
    let k = destroy_acceptor fd s.acceptor w in omega arith

pub closes-destroy_shut :
    (fd : ℕ) (s : Server) (w : Trace)
    → is_open s.acceptor ≡ false
    → closes fd (destroy s w).1 ≡ closes fd w + held fd s.clients
unfolding destroy Acceptor.destroy
closes-destroy_shut fd s w h = ground (arith, closes-destroy_clients fd s.clients w)
