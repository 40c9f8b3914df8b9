-- ===== src/Poll.antt =====
-- include/yonaa/detail/poll.hpp and src/detail/poll.cpp: socket statuses and the poll group.
pub mod Status
pub mod Group
mod Tests
use yonaa.Base.{
  ℕ, zero, suc, ℤ, pos, List, [], ◌∷◌, ◌++◌, Bool, not, filter, length, bit_and, bit_or, ◌==◌, ltb,
  if◌then◌else◌,
}
use yonaa.Os.Constants.{pollin, pollout, pollerr, pollhup}
use yonaa.Os.Events.{PollReply, poll_failed, polled, PollFd}
use yonaa.Os.Platform.{Platform}
use yonaa.Os.Calls.{M, pure, ◌>>=◌}
use yonaa.Os.Calls

-- `enum class socket_status`
pub data SocketStatus : Type 0 where
  no_status error hung_up readable writable : SocketStatus

abbrev pub bits : SocketStatus → ℕ
bits no_status = 0x00
bits error = 0x01
bits hung_up = 0x02
bits readable = 0x04
bits writable = 0x08

-- `struct socket_status_info`; the status is the bits of its mask.
pub record SocketStatusInfo : Type 0 where
  pub socket_fd : ℕ
  pub status : ℕ

-- `class poll_group`
pub record PollGroup : Type 0 where
  pub pfds : List PollFd
  pub pfd_config : ℕ

-- `int` as a condition
abbrev pub nonzero : ℕ → Bool
nonzero n = not (n == 0)

-- The array with the `revents` that the positions from `i` on have after the call.
abbrev pub write_revents : (ℕ → ℕ) → ℕ → List PollFd → List PollFd
write_revents r i [] = []
write_revents r i (p ∷ ps) = record p { revents = r i } ∷ write_revents r (suc i) ps

-- The array after `::poll`.
abbrev pub after_poll : PollReply → List PollFd → List PollFd
after_poll (poll_failed r) ps = write_revents r 0 ps
after_poll (polled n r) ps = write_revents r 0 ps

abbrev is_fd : ℕ → PollFd → Bool
is_fd fd p = p.fd == fd

unfoldable pub add_socket : PollGroup → ℕ → PollGroup
add_socket g fd = record g {
  pfds = g.pfds ++ (record { fd = fd; events = g.pfd_config; revents = 0 } ∷ []);
}

-- `std::remove_if` and `erase`: the rest keeps its order.
unfoldable pub remove_socket : PollGroup → ℕ → PollGroup
remove_socket g fd = record g { pfds = filter (λ p. not (is_fd fd p)) g.pfds }

pub size : PollGroup → ℕ
size g = length g.pfds

module _ (P : Platform) where
  -- `(mask & flag)` as a condition
  abbrev pub has : ℕ → SocketStatus → Bool
  has mask flag = P.bitmask.test (P.bitmask.meet mask (bits flag))

  abbrev flag_if : ℕ → ℕ → SocketStatus → SocketStatus
  flag_if revents event flag = if nonzero (bit_and revents event) then flag else no_status

  unfoldable pub ssm_from_revents : ℕ → ℕ
  ssm_from_revents revents =
      let join = P.bitmask.join in
      let readable_part = join 0 (bits (flag_if revents pollin readable)) in
      let writable_part = join readable_part (bits (flag_if revents pollout writable)) in
      let error_part = join writable_part (bits (flag_if revents pollerr error)) in
      join error_part (bits (flag_if revents pollhup hung_up))

  -- The events of the one descriptor that `poll_socket` asks about.
  abbrev pub socket_events : ℕ
  socket_events = bit_or pollin pollout

  -- The status that `poll_socket` makes of the reply.
  abbrev pub status_of : PollReply → ℕ
  status_of (poll_failed r) = bits no_status
  status_of (polled n r) = if ltb 0 n then ssm_from_revents (r 0) else bits no_status

  unfoldable pub poll_socket : ℕ → ℤ → M ℕ
  unfolding ssm_from_revents
  poll_socket socket_fd timeout_millis = do
    reply ←
        Calls.poll P (record { fd = socket_fd; events = socket_events; revents = 0 } ∷ [])
          timeout_millis
    pure (status_of reply)

  -- `poll_group(config)`
  unfoldable pub make : ℕ → PollGroup
  make config = record {
    pfds = [];
    pfd_config =
        bit_or (bit_or 0 (if has config readable then pollin else 0))
          (if has config writable then pollout else 0);
  }

  -- The loop of `poll_group::poll` over the array.
  unfoldable pub statuses : List PollFd → List SocketStatusInfo
  statuses [] = []
  statuses (p ∷ ps) =
      let rest = statuses ps in
      if not (nonzero p.revents)
      then rest
      else record { socket_fd = p.fd; status = ssm_from_revents p.revents } ∷ rest

  unfoldable pub poll : PollGroup → ℤ → M (List SocketStatusInfo × PollGroup)
  unfolding statuses
  poll g timeout_millis = do
    reply ← Calls.poll P g.pfds timeout_millis
    pure (statuses (after_poll reply g.pfds), record g { pfds = after_poll reply g.pfds })
