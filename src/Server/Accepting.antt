-- ===== src/Server/Accepting.antt =====
-- `handle_incoming_connections_`: which clients a server takes on.
use yonaa.Base.{ℕ, zero, suc, ◌<◌, ◌^◌, ◌≡◌, ◌≢◌, ◌∙◌, inl, inr, refl, Bool, true, false, arith}
use yonaa.Os.Events.{Trace}
use yonaa.Os.Platform.{Platform, SetsErrno, accept_fails}
use yonaa.Os.Outcome.{done, return, R, ◌>>=◌}
use yonaa.Os.Ends.{Ends, Ends-bind}
use yonaa.Os.After.{After, After-mono}
use yonaa.Connection.{ErrorCode}
use yonaa.Acceptor.{Acceptor, accept, accept_on, has_pending_connection}
use yonaa.Acceptor.Accepting.{AcceptReply-cases}
use yonaa.Server.{Server, Handlers}
use yonaa.Server.Network.{accept_client, handle_incoming_connections, next_id, previous_id}

module _ (P : Platform) (errors : SetsErrno P) where
  accept_on-ec : (a : Acceptor) (ec : ErrorCode) (w : Trace) → ec ≢ 0 → (accept_on P a ec w).0.1 ≢ 0
  unfolding accept_on
  accept_on-ec a ec w h = elim (AcceptReply-cases (P.accept a.socket w)) [
    | inl e ↦ rw (e, accept_on) (errors _ w accept_fails)
    | inr (fd, addr, e) ↦ rw (e, accept_on) h
  ]

  -- An error code that is set stays set, also where a connection is accepted.
  accept-ec : (a : Acceptor) (ec : ErrorCode) (w : Trace) → ec ≢ 0 → (accept P a ec w).0.1 ≢ 0
  unfolding accept
  accept-ec a ec w h = ground (arith, accept_on-ec a ec w h)

module _ (P : Platform) (H : Handlers) where
  accept_client-refused :
      (s : Server) (w : Trace)
      → (accept P s.acceptor s.ec w).0.1 ≢ 0
      → (accept_client P H s w).0
        ≡ done (record s {
          ec = (accept P s.acceptor s.ec w).0.1;
          next_available_id = previous_id (next_id s.next_available_id);
        })
  unfolding accept_client
  accept_client-refused s w h = ground arith

  -- What the rounds keep, with some rounds to go, gives what holds after the loop.
  pub handle_incoming_connections-Ends {ν} :
      (S : ℕ → Server → Trace → Type ν) (T : Server → Trace → Type ν)
      → ((rounds : ℕ) (t : Server) (w : Trace)
          → S rounds t w
          → S rounds t (has_pending_connection P t.acceptor w).1)
      → ((rounds : ℕ) (t : Server) (w : Trace) → S rounds t w → T t w)
      → ((rounds : ℕ) (t : Server) (w : Trace)
          → S (suc rounds) t w
          → Ends (S rounds) (accept_client P H t w))
      → (rounds : ℕ) (s : Server) (w : Trace) → S rounds s w
      → Ends T (handle_incoming_connections P H rounds s w)
  unfolding handle_incoming_connections
  handle_incoming_connections-Ends S T looks ends keep zero s w h = tt
  handle_incoming_connections-Ends S T looks ends keep (suc rounds) s w h =
      go
        (Ends-bind (S rounds) T (accept_client P H s) (handle_incoming_connections P H rounds) w'
          (keep rounds s w' (looks (suc rounds) s w h))
          λ t v k. handle_incoming_connections-Ends S T looks ends keep rounds t v k)
        s.running
    where
      w' : Trace
      w' = (has_pending_connection P s.acceptor w).1

      accept_next : R Server
      accept_next = accept_client P H s >>= handle_incoming_connections P H rounds

      branch : Bool → R Server
      branch b = elim b [ false ↦ return s | true ↦ accept_next ]

      pending : Ends T (accept_next w') → (b : Bool) → Ends T (branch b w')
      pending k false = ends (suc rounds) s w' (looks (suc rounds) s w h)
      pending k true = k

      go :
          Ends T (accept_next w')
          → (b : Bool)
          → Ends T (
              (elim b as (λ _. R Server) [
                | false ↦ return s
                | true ↦ λ v.
                    branch
                      (has_pending_connection P s.acceptor v).0
                      (has_pending_connection P s.acceptor v).1
              ])
                w)
      go k false = ends (suc rounds) s w h
      go k true = pending k (has_pending_connection P s.acceptor w).0

  -- The same of the server alone.
  pub handle_incoming_connections-After {ν} :
      (S : ℕ → Server → Type ν) (T : Server → Type ν)
      → ((rounds : ℕ) (t : Server) → S rounds t → T t)
      → ((rounds : ℕ) (t : Server) (w : Trace)
          → S (suc rounds) t
          → After (S rounds) (accept_client P H t w).0)
      → (rounds : ℕ) (s : Server) (w : Trace) → S rounds s
      → After T (handle_incoming_connections P H rounds s w).0
  handle_incoming_connections-After S T ends keep =
      handle_incoming_connections-Ends (λ n t w. S n t) (λ t w. T t) (λ n t w k. k)
        (λ n t w. ends n t) keep

  -- The server has no other clients and the error code is set.
  abbrev pub IsStuck : Server → Server → Type 0
  IsStuck s t =
      (t.ec ≢ 0)
      × (t.clients ≡ s.clients)
      × (t.next_available_id ≡ s.next_available_id)
      × (t.poll_group ≡ s.poll_group)

  IsStuck-trans : (s t : Server) → IsStuck s t → (u : Server) → IsStuck t u → IsStuck s u
  IsStuck-trans s t h u k = (k.0, k.1 ∙ h.1, k.2 ∙ h.2, k.3 ∙ h.3)

  module _ (errors : SetsErrno P) where
    accept_client-IsStuck :
        (s : Server) (w : Trace)
        → s.ec ≢ 0
        → s.next_available_id < 2 ^ 64
        → After (IsStuck s) (accept_client P H s w).0
    accept_client-IsStuck s w h b =
        rw (accept_client-refused s w (accept-ec P errors s.acceptor s.ec w h))
          (accept-ec P errors s.acceptor s.ec w h, refl, omega arith, refl)

    -- Once the error code of a server is set, it takes on no client any more, whatever connections
    -- are pending and accepted: nothing clears the code, and it is read after each `accept`. When
    -- the loop comes to its end, the code is still set, and the clients, the counter and the poll
    -- group are as they were. Assumed: a call that fails sets `errno`, and the counter is a 64-bit
    -- number.
    pub handle_incoming_connections-IsStuck :
        (rounds : ℕ) (s : Server) (w : Trace)
        → s.ec ≢ 0
        → s.next_available_id < 2 ^ 64
        → After (IsStuck s) (handle_incoming_connections P H rounds s w).0
    handle_incoming_connections-IsStuck rounds s w h b =
        handle_incoming_connections-After (λ n. IsStuck s) (IsStuck s) (λ n t k. k)
          (λ n t w' k.
            After-mono (IsStuck s) _ (IsStuck-trans s t k)
              (accept_client-IsStuck t w' k.0 (rw k.2 b)))
          rounds s w (h, refl, refl, refl)
