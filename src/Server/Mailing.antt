-- ===== src/Server/Mailing.antt =====
-- What `message_all_clients` sends: the bytes for each socket, and how two parts of the call add up.
use yonaa.Base.{
  ◌≤◌, ◌<◌, ℕ, ◌≡◌, ◌≢◌, ◌⊎◌, ◌∙◌, ap, inl, inr, refl, List, [], ◌∷◌, ◌++◌, not, true, some, Bytes,
  All, IsDistinct, append_assoc, arith, ◌==◌, ◌&&◌, if◌then◌else◌,
}
use yonaa.Os.Events.{Trace}
use yonaa.Os.Outcome.{Outcome, R, done, stops, ◌>>=◌}
use yonaa.Os.After.{bind-done}
use yonaa.Os.Always.{Always}
use yonaa.Connection.{is_connected}
use yonaa.Connection.Refusing.{refusals}
use yonaa.Connection.Sending.{delivered}
use yonaa.Server.{ClientInfo, Server, client_info_from_id}
use yonaa.Server.Clients.{ids}
use yonaa.Server.Sticking.{Sticks, HasError}

-- What a message to all clients but one has for a socket: the message once for each client with
-- that socket that is connected and not excluded.
abbrev pub share : ℕ → ℕ → Bytes → ClientInfo → Bytes
share fd exclude bs c =
    if not (c.id == exclude) && c.is_connected && (c.conn.socket == fd) then bs else []

abbrev pub mail : ℕ → Bytes → List ClientInfo → ℕ → Bytes
mail exclude bs [] fd = []
mail exclude bs (c ∷ cs) fd = share fd exclude bs c ++ mail exclude bs cs fd

-- The kernel has refused a call of `send`, and the error code is set.
abbrev pub Fails : Trace → Outcome Server × Trace → Type 0
Fails w r = Always HasError r.0 × (refusals w < refusals r.1)

-- The server is as before and the kernel has taken the bytes for each socket; or it has refused a
-- call, and the error code is set.
abbrev pub Delivers : (ℕ → Bytes) → Server → Trace → Outcome Server × Trace → Type 0
Delivers bytes s w r =
    ((r.0 ≡ done s) × ((fd : ℕ) → delivered fd r.1 ≡ delivered fd w ++ bytes fd)) ⊎ Fails w r

-- A client that is connected has an open connection.
abbrev pub IsOpen : ClientInfo → Type 0
IsOpen c = c.is_connected ≡ true → is_connected c.conn ≡ true

Fails-bind :
    (m : R Server) (f : Server → R Server) (w : Trace)
    → Fails w (m w)
    → ((t : Server) (v : Trace) → HasError t → Sticks HasError v (f t v))
    → Fails w ((m >>= f) w)
Fails-bind m f w (h, g) k = go (m w).0 h
  where
    go :
        (r : Outcome Server)
        → Always HasError r
        → Fails w (
            let x : Outcome Server × Trace = elim r [
              | done a ↦ f a (m w).1
              | stops s ↦ (stops s, (m w).1)
            ] in
            x)
    go (done a) q = let (t, l) = k a (m w).1 q in (t, omega arith)
    go (stops s) q = absurd q

pub Delivers-bind :
    (a b : ℕ → Bytes) (s : Server) (m : R Server) (f : Server → R Server) (w : Trace)
    → Delivers a s w (m w) × (refusals w ≤ refusals (m w).1)
    → ((v : Trace) → Delivers b s v (f s v))
    → ((t : Server) (v : Trace) → HasError t → Sticks HasError v (f t v))
    → Delivers (λ fd. a fd ++ b fd) s w ((m >>= f) w)
Delivers-bind a b s m f w (inl (d, h), l) k stuck =
    rw (bind-done m f (ap (λ (x : Outcome Server). (x, (m w).1)) d)) (go (k (m w).1))
  where
    go : Delivers b s (m w).1 (f s (m w).1) → Delivers (λ fd. a fd ++ b fd) s w (f s (m w).1)
    go (inl (e, g)) = inl (e, λ fd. g fd ∙ rw (h fd, append_assoc) refl)
    go (inr (e, g)) = inr (e, omega arith)
Delivers-bind a b s m f w (inr h, l) k stuck = inr (Fails-bind m f w h stuck)

found_behind :
    (d : ClientInfo) (rest cs : List ClientInfo)
    → All (λ m. m ≢ d.id) (ids cs)
    → All (λ (c : ClientInfo). client_info_from_id c.id rest ≡ some c) cs
    → All (λ (c : ClientInfo). client_info_from_id c.id (d ∷ rest) ≡ some c) cs
found_behind d rest [] h k = tt
found_behind d rest (c ∷ cs) h k = (ground (arith, h.0, k.0), found_behind d rest cs h.1 k.1)

-- With distinct ids, each client is the one that is found by its id.
pub found_each :
    (cs : List ClientInfo)
    → IsDistinct (ids cs)
    → All (λ (c : ClientInfo). client_info_from_id c.id cs ≡ some c) cs
found_each [] d = tt
found_each (c ∷ cs) d = (ground arith, found_behind c cs cs d.0 (found_each cs d.1))
