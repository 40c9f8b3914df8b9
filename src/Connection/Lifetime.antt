-- ===== src/Connection/Lifetime.antt =====
-- Opening, moving and closing connections.
use yonaa.Base.{ℕ, suc, ◌≡◌, ◌≢◌, refl, [], ◌∷◌, true, arith, ◌==◌, if◌then◌else◌}
use yonaa.Os.Events.{Event, Trace}
use yonaa.Connection.{
  Connection, is_connected, unopened, disconnect, destroy, move_assign, move_construct,
}

pub disconnect_connected :
    (c : Connection) (w : Trace)
    → is_connected c ≡ true
    → disconnect c w ≡ (unopened, Event.close c.socket ∷ Event.shutdown c.socket ∷ w)
unfolding disconnect
disconnect_connected c w h = ground arith

-- Closing an open connection is done once: the connection is unopened then, and closing or
-- destroying it once more makes no system call.
disconnect-disconnect :
    (c : Connection) (w : Trace)
    → is_connected c ≡ true
    → ((disconnect c w) ≡ (unopened, Event.close c.socket ∷ Event.shutdown c.socket ∷ w))
      × (disconnect (disconnect c w).0 (disconnect c w).1 ≡ disconnect c w)
      × (destroy (disconnect c w).0 (disconnect c w).1 ≡ disconnect c w)
unfolding disconnect destroy
disconnect-disconnect c w h = ground arith

-- A moved connection has one owner: destroying the connection that was moved from and the one that
-- it was moved to does what destroying the original does.
destroy-move_construct :
    (c : Connection) (w : Trace)
    → let (target, source) = move_construct c in
      (target ≡ c) × ((destroy source (destroy target w).1).1 ≡ (destroy c w).1)
unfolding destroy move_construct
destroy-move_construct c w = (refl, ground arith)

-- How often a history closes a descriptor.
abbrev pub closes : ℕ → Trace → ℕ
closes fd [] = 0
closes fd (Event.close fd' ∷ w) = if fd' == fd then suc (closes fd w) else closes fd w
closes fd (e ∷ w) = closes fd w

-- Assigning a connection with another socket over an open one leaks the latter's socket: destroying
-- the connection that was open would have closed it, and destroying both sides of the assignment
-- does not.
pub move_assign-leaks :
    (c other : Connection) (w : Trace)
    → is_connected c ≡ true
    → c.socket ≢ other.socket
    → let (target, source) = move_assign c other in
      (closes c.socket (destroy c w).1 ≡ suc (closes c.socket w))
      × (closes c.socket (destroy source (destroy target w).1).1 ≡ closes c.socket w)
unfolding destroy move_assign
move_assign-leaks c other w h ne = ground arith
