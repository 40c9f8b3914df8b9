-- ===== src/Poll/Group.antt =====
-- Which sockets a poll group holds, and what a poll reports of them.
use yonaa.Base.{
  ℤ, suc, if◌then◌else◌, Option, none, some, All, ◌≢◌, ℕ, ◌≡◌, refl, ap, List, [], ◌∷◌, ◌++◌, not,
  arith, filter, map, ◌==◌,
}
use yonaa.Os.Events.{PollReply, poll_failed, polled, Trace, PollFd}
use yonaa.Os.Platform.{Platform}
use yonaa.Poll.{
  SocketStatusInfo, nonzero, ssm_from_revents, statuses, poll, after_poll, write_revents, PollGroup,
  add_socket, remove_socket,
}

-- The sockets of a group, in the order in which they were added.
abbrev pub fds : PollGroup → List ℕ
fds g = map (λ (p : PollFd). p.fd) g.pfds

abbrev pub others : ℕ → List ℕ → List ℕ
others fd = filter (λ x. not (x == fd))

fds-add_socket : (g : PollGroup) (fd : ℕ) → fds (add_socket g fd) ≡ fds g ++ (fd ∷ [])
unfolding add_socket
fds-add_socket g fd = added g.pfds
  where
    added :
        (ps : List PollFd)
        → map
            (λ (p : PollFd). p.fd)
            (ps ++ (record { fd = fd; events = g.pfd_config; revents = 0 } ∷ []))
          ≡ map (λ (p : PollFd). p.fd) ps ++ (fd ∷ [])
    added [] = refl
    added (p ∷ ps) = ap (◌∷◌ p.fd) (added ps)

fds-remove_socket : (g : PollGroup) (fd : ℕ) → fds (remove_socket g fd) ≡ others fd (fds g)
unfolding remove_socket
fds-remove_socket g fd = removed g.pfds
  where
    removed :
        (ps : List PollFd)
        → map (λ (p : PollFd). p.fd) (filter (λ p. not (p.fd == fd)) ps)
          ≡ others fd (map (λ (p : PollFd). p.fd) ps)
    removed [] = refl
    removed (p ∷ ps) = ground (arith, removed ps)

-- Adding a socket puts it last. Removing it takes out each of its entries and leaves the other
-- sockets in their order.
pub fds-changed :
    (g : PollGroup) (fd : ℕ)
    → (fds (add_socket g fd) ≡ fds g ++ (fd ∷ [])) × (fds (remove_socket g fd) ≡ others fd (fds g))
fds-changed g fd = (fds-add_socket g fd, fds-remove_socket g fd)

-- No socket was added twice.
abbrev pub IsDistinct : List PollFd → Type 0
IsDistinct [] = Unit {0}
IsDistinct (p ∷ ps) = All (λ (q : PollFd). q.fd ≢ p.fd) ps × IsDistinct ps

-- The entry of a socket, and the status that a result has for it.
abbrev pub entry : ℕ → List PollFd → Option PollFd
entry fd [] = none
entry fd (p ∷ ps) = let rest = entry fd ps in if p.fd == fd then some p else rest

abbrev pub status_at : ℕ → List SocketStatusInfo → Option ℕ
status_at fd [] = none
status_at fd (s ∷ ss) =
    let rest = status_at fd ss in if s.socket_fd == fd then some s.status else rest

entry-eq-none :
    (fd : ℕ) (ps : List PollFd) → All (λ (q : PollFd). q.fd ≢ fd) ps → entry fd ps ≡ none
entry-eq-none fd [] h = refl
entry-eq-none fd (p ∷ ps) h = ground (arith, entry-eq-none fd ps h.1)

module _ (P : Platform) where
  abbrev pub reported : Option PollFd → Option ℕ
  reported none = none
  reported (some p) = if nonzero p.revents then some (ssm_from_revents P p.revents) else none

  status_at-statuses :
      (fd : ℕ) (ps : List PollFd)
      → IsDistinct ps
      → status_at fd (statuses P ps) ≡ reported (entry fd ps)
  unfolding statuses
  status_at-statuses fd [] d = refl
  status_at-statuses fd (p ∷ ps) d =
      ground (arith, status_at-statuses fd ps d.1, entry-eq-none p.fd ps d.0)

  fds-write_revents :
      (r : ℕ → ℕ) (i : ℕ) (ps : List PollFd)
      → map (λ (p : PollFd). p.fd) (write_revents r i ps) ≡ map (λ (p : PollFd). p.fd) ps
  fds-write_revents r i [] = refl
  fds-write_revents r i (p ∷ ps) = ap (◌∷◌ p.fd) (fds-write_revents r (suc i) ps)

  fds-after_poll :
      (reply : PollReply) (ps : List PollFd)
      → map (λ (p : PollFd). p.fd) (after_poll reply ps) ≡ map (λ (p : PollFd). p.fd) ps
  fds-after_poll (poll_failed r) ps = fds-write_revents r 0 ps
  fds-after_poll (polled n r) ps = fds-write_revents r 0 ps

  All-write_revents :
      (fd : ℕ) (r : ℕ → ℕ) (i : ℕ) (ps : List PollFd)
      → All (λ (q : PollFd). q.fd ≢ fd) ps
      → All (λ (q : PollFd). q.fd ≢ fd) (write_revents r i ps)
  All-write_revents fd r i [] h = tt
  All-write_revents fd r i (p ∷ ps) h = (h.0, All-write_revents fd r (suc i) ps h.1)

  write_revents-IsDistinct :
      (r : ℕ → ℕ) (i : ℕ) (ps : List PollFd) → IsDistinct ps → IsDistinct (write_revents r i ps)
  write_revents-IsDistinct r i [] d = tt
  write_revents-IsDistinct r i (p ∷ ps) d =
      (All-write_revents p.fd r (suc i) ps d.0, write_revents-IsDistinct r (suc i) ps d.1)

  after_poll-IsDistinct :
      (reply : PollReply) (ps : List PollFd) → IsDistinct ps → IsDistinct (after_poll reply ps)
  after_poll-IsDistinct (poll_failed r) ps d = write_revents-IsDistinct r 0 ps d
  after_poll-IsDistinct (polled n r) ps d = write_revents-IsDistinct r 0 ps d

  pub fds-poll : (g : PollGroup) (timeout : ℤ) (w : Trace) → fds (poll P g timeout w).0.1 ≡ fds g
  unfolding poll
  fds-poll g timeout w = fds-after_poll (P.poll g.pfds timeout w) g.pfds

  -- A poll keeps the sockets of the group. If none was added twice, it reports for each socket the
  -- status of the events that its entry has afterwards, and nothing if there are none.
  pub poll_reports :
      (g : PollGroup) (timeout : ℤ) (w : Trace) (fd : ℕ)
      → IsDistinct g.pfds
      → let (result, g') = (poll P g timeout w).0 in
        (fds g' ≡ fds g) × (status_at fd result ≡ reported (entry fd g'.pfds))
  unfolding poll
  poll_reports g timeout w fd d = (
    fds-after_poll (P.poll g.pfds timeout w) g.pfds,
    status_at-statuses fd _ (after_poll-IsDistinct (P.poll g.pfds timeout w) g.pfds d),
  )
