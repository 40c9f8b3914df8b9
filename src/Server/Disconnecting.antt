-- ===== src/Server/Disconnecting.antt =====
-- `handle_disconnected_clients_`: which clients `std::remove_if` keeps, and where it leaves null
-- pointers that the loop after it reads.
use yonaa.Connection.{Connection, disconnect}
use yonaa.Os.Events.{Event}
use yonaa.Poll.{remove_socket}
use yonaa.Os.After.{After, After-any, After-bind, After-mono}
use yonaa.Server.Clients.{ids, notify-Keeps}
use yonaa.Base.{
  length, zero, ap, ◌++◌, ◌∙◌, suc, ℕ, suc, ◌≡◌, refl, List, [], ◌∷◌, ◌++◌, Bool, true, false, none,
  some, arith, ◌||◌, Bool-cases, inl, inr, filter, if◌then◌else◌,
}
use yonaa.Os.Events.{Trace}
use yonaa.Os.Platform.{Platform, SendsSome, SetsErrno}
use yonaa.Os.Always.{Returns}
use yonaa.Server.Emptied.{perform_at_null, perform_all_at_null, notify_at_null, meets_null}
use yonaa.Server.Returning.{perform-Returns}
use yonaa.Os.Outcome.{Outcome, done, stops, null_pointer, R, ◌>>=◌, return, halt}
use yonaa.Server.{ClientInfo, Server, Request, Handlers, notify, perform}
use yonaa.Server.Network.{
  Slot, has_null, destroy_slot, remove_if, in_front, set_conn_at, part_with,
  handle_disconnected_clients, farewell,
}

-- Some client is connected; some connected client stands behind one that is not.
abbrev pub any_connected : List ClientInfo → Bool
any_connected [] = false
any_connected (c ∷ cs) = c.is_connected || any_connected cs

abbrev pub is_mixed : List ClientInfo → Bool
is_mixed [] = false
is_mixed (c ∷ cs) = if c.is_connected then is_mixed cs else any_connected cs

-- A result with the clients that are connected, and with a null pointer after them or none.
abbrev Sifts : List ClientInfo → Bool → Outcome (List ClientInfo × List Slot) → Type 0
Sifts cs null (stops _) = ⊥
Sifts cs null (done (kept, rest)) =
    (kept ≡ filter (λ c. c.is_connected) cs) × (has_null rest ≡ null)

has_null-append : (xs ys : List Slot) → has_null (xs ++ ys) ≡ (has_null xs || has_null ys)
has_null-append [] ys = refl
has_null-append (none ∷ xs) ys = refl
has_null-append (some c ∷ xs) ys = has_null-append xs ys

-- Whether a null pointer is left after the rest of the clients, for a gap before them.
abbrev leaves_null : List Slot → List ClientInfo → Bool
leaves_null [] cs = is_mixed cs
leaves_null (g ∷ gs) cs = has_null (g ∷ gs) || any_connected cs

leaves_null-none :
    (gs : List Slot) (cs : List ClientInfo) → leaves_null (gs ++ (none ∷ [])) cs ≡ true
leaves_null-none [] cs = refl
leaves_null-none (none ∷ gs) cs = refl
leaves_null-none (some c ∷ gs) cs = rw (has_null-append gs (none ∷ [])) (ground arith)

pub remove_if-Sifts :
    (gap : List Slot) (cs : List ClientInfo) (w : Trace)
    → Sifts cs (leaves_null gap cs) (remove_if gap cs w).0
unfolding remove_if
remove_if-Sifts [] [] w = (refl, refl)
remove_if-Sifts (g ∷ gs) [] w = (refl, ground arith)
remove_if-Sifts [] (c ∷ cs) w =
    ground (arith, remove_if-Sifts [] cs w, remove_if-Sifts (some c ∷ []) cs w)
remove_if-Sifts (g ∷ gs) (c ∷ cs) w = ground (
  arith,
  leaves_null-none gs cs,
  has_null-append (g ∷ gs) (some c ∷ []),
  remove_if-Sifts (gs ++ (none ∷ [])) cs (destroy_slot g w).1,
  remove_if-Sifts ((g ∷ gs) ++ (some c ∷ [])) cs w,
)

pub Sifts-done :
    (cs : List ClientInfo) (null : Bool) (r : Outcome (List ClientInfo × List Slot))
    → Sifts cs null r
    → (kept : List ClientInfo) × (rest : List Slot) × (r ≡ done (kept, rest))
      × (kept ≡ filter (λ c. c.is_connected) cs)
      × (has_null rest ≡ null)
Sifts-done cs null (done (kept, rest)) h = (kept, rest, refl, h.0, h.1)
Sifts-done cs null (stops x) h = absurd h

ids-set_conn_at :
    (i : ℕ) (conn : Connection) (cs : List ClientInfo) → ids (set_conn_at i conn cs) ≡ ids cs
ids-set_conn_at i conn [] = refl
ids-set_conn_at zero conn (c ∷ cs) = refl
ids-set_conn_at (suc i) conn (c ∷ cs) = ap (◌∷◌ c.id) (ids-set_conn_at i conn cs)

-- The run comes back, or it reads a null pointer.
abbrev MeetsNull {ℓ} : {A : Type ℓ} → Outcome A → Type 0
MeetsNull (done a) = Unit
MeetsNull (stops x) = x ≡ null_pointer

module _ {ℓ κ} {A : Type ℓ} {B : Type κ} where
  MeetsNull-bind :
      (m : R A) (f : A → R B) (w : Trace)
      → MeetsNull (m w).0
      → ((a : A) (w' : Trace) → MeetsNull (f a w').0)
      → MeetsNull ((m >>= f) w).0
  MeetsNull-bind m f w h k = go (m w).0 h
    where
      go :
          (r : Outcome A)
          → MeetsNull r
          → MeetsNull
              (let x : Outcome B × Trace = elim r [
                | done a ↦ f a (m w).1
                | stops s ↦ (stops s, (m w).1)
              ] in
                x).0
      go (done a) q = k a (m w).1
      go (stops s) q = q

  null-bind :
      (m : R A) (f : A → R B) (w : Trace)
      → MeetsNull (m w).0
      → ((a : A) (w' : Trace) → (f a w').0 ≡ stops null_pointer)
      → ((m >>= f) w).0 ≡ stops null_pointer
  null-bind m f w h k = go (m w).0 h
    where
      go :
          (r : Outcome A)
          → MeetsNull r
          → (let x : Outcome B × Trace = elim r [
            | done a ↦ f a (m w).1
            | stops s ↦ (stops s, (m w).1)
          ] in
              x).0
            ≡ stops null_pointer
      go (done a) q = k a (m w).1
      go (stops s) q = ap stops q

Returns-MeetsNull : {A : Type 0} (r : Outcome A) → Returns r → MeetsNull r
Returns-MeetsNull (done a) h = tt
Returns-MeetsNull (stops x) h = absurd h

module _ (P : Platform) (some_bytes : SendsSome P) (errors : SetsErrno P) where
  perform_all_at_null-MeetsNull :
      (qs : List Request) (s : Server) (w : Trace) → MeetsNull (perform_all_at_null P qs s w).0
  unfolding perform_all_at_null perform_at_null
  perform_all_at_null-MeetsNull [] s w = tt
  perform_all_at_null-MeetsNull (q ∷ qs) s w =
      MeetsNull-bind (perform_at_null P q s) (perform_all_at_null P qs) w
        (MeetsNull-bind (perform P q s)
          (λ t. if meets_null q s.clients then halt null_pointer else return t) w
          (Returns-MeetsNull (perform P q s w).0 (perform-Returns P some_bytes errors q s w))
          λ t v. ends (meets_null q s.clients) t v)
        (perform_all_at_null-MeetsNull qs)
    where
      ends :
          (b : Bool) (t : Server) (v : Trace)
          → MeetsNull ((if b then halt null_pointer else return t) v).0
      ends true t v = refl
      ends false t v = tt

  module _ (H : Handlers) (callback : Trace → List Request)
      (installed : H.on_client_disconnect ≡ some callback) where
    part_with-MeetsNull :
        (gone : Event) (s : Server) (w : Trace) → MeetsNull (part_with P H true gone s w).0
    unfolding part_with notify_at_null
    part_with-MeetsNull gone s w =
        rw (installed, part_with, notify_at_null)
          (perform_all_at_null-MeetsNull (callback (gone ∷ w)) s (gone ∷ w))

    farewell-null_pointer :
        (slots : List Slot) (i : ℕ) (s : Server) (w : Trace)
        → has_null slots ≡ true
        → (farewell P H slots true i s w).0 ≡ stops null_pointer
    unfolding farewell
    farewell-null_pointer [] i s w h = cc
    farewell-null_pointer (none ∷ slots) i s w h = refl
    farewell-null_pointer (some c ∷ slots) i s w h =
        let (conn, w') = disconnect c.conn w in
        let s' = record s {
          clients = set_conn_at i conn s.clients;
          poll_group = remove_socket s.poll_group c.fd;
        } in
        let e = Event.client_disconnected c.id in
        null-bind (part_with P H true e s') (farewell P H slots true (suc i)) w'
          (part_with-MeetsNull e s' w') λ t v. farewell-null_pointer slots (suc i) t v h

    -- Where a callback for clients that are gone is installed and `has_disconnected_clients_` is set,
    -- the server reads a null pointer whenever a connected client stands behind one that is not:
    -- `std::remove_if` has moved that client away, and the loop comes to what it left; or the callback
    -- asks in the loop for what reads the null pointer before. Assumed: the kernel takes a byte or
    -- more in each call, and a call that fails sets `errno`.
    pub handle_disconnected_clients-null_pointer :
        (s : Server) (w : Trace)
        → s.has_disconnected_clients ≡ true
        → is_mixed s.clients ≡ true
        → (handle_disconnected_clients P H s w).0 ≡ stops null_pointer
    unfolding handle_disconnected_clients
    handle_disconnected_clients-null_pointer s w flag mixed =
        let (kept, rest, e, k, n) = Sifts-done s.clients _ _ (remove_if-Sifts [] s.clients w) in
        let s' = record s { clients = kept ++ in_front rest } in
        ground
          (arith, e, n, farewell-null_pointer rest (length kept) s' (remove_if [] s.clients w).1)

-- Whatever the callbacks are, it does not come back then.
module _ (P : Platform) (H : Handlers) (Q : Server → Type 0) where
  pub farewell_never :
      (slots : List Slot) (null : Bool) (i : ℕ) (s : Server) (w : Trace)
      → has_null slots ≡ true
      → After Q (farewell P H slots null i s w).0
  unfolding farewell
  farewell_never [] null i s w h = cc
  farewell_never (none ∷ slots) null i s w h = tt
  farewell_never (some c ∷ slots) null i s w h =
      let (conn, w') = disconnect c.conn w in
      let s' = record s {
        clients = set_conn_at i conn s.clients;
        poll_group = remove_socket s.poll_group c.fd;
      } in
      After-any Q (part_with P H null (Event.client_disconnected c.id) s')
        (farewell P H slots null (suc i)) w' λ t v. farewell_never slots null (suc i) t v h

-- A relation that the loop keeps when a client is parted from, with what its callback asks.
module _ (P : Platform) (H : Handlers) (K : Server → Server → Type 0) (same : (s : Server) → K s s)
    (chain : (s t : Server) → K s t → (u : Server) → K t u → K s u)
    (parted : (s : Server) (i fd : ℕ) (conn : Connection)
      → K s (record s {
        clients = set_conn_at i conn s.clients;
        poll_group = remove_socket s.poll_group fd;
      }))
    (told : (id : ℕ) (s : Server) (w : Trace)
      → After (K s) (notify P H.on_client_disconnect (Event.client_disconnected id) s w).0) where
  farewell_plain-After :
      (slots : List Slot) (i : ℕ) (s : Server) (w : Trace)
      → After (K s) (farewell P H slots false i s w).0
  unfolding farewell part_with
  farewell_plain-After [] i s w = same s
  farewell_plain-After (none ∷ slots) i s w = tt
  farewell_plain-After (some c ∷ slots) i s w =
      let (conn, w') = disconnect c.conn w in
      let s' = record s {
        clients = set_conn_at i conn s.clients;
        poll_group = remove_socket s.poll_group c.fd;
      } in
      After-bind (K s) (K s) (part_with P H false (Event.client_disconnected c.id) s')
        (farewell P H slots false (suc i)) w'
        (After-mono (K s) _ (chain s s' (parted s i c.fd conn)) (told c.id s' w'))
        λ t w'' k. After-mono (K s) _ (chain s t k) (farewell_plain-After slots (suc i) t w'')

  pub farewell-After :
      (slots : List Slot) (i : ℕ) (s : Server) (w : Trace)
      → After (K s) (farewell P H slots (has_null slots) i s w).0
  farewell-After slots i s w = elim (Bool-cases (has_null slots)) [
    | inl h ↦ farewell_never P H (K s) slots (has_null slots) i s w h
    | inr h ↦ rw h (farewell_plain-After slots i s w)
  ]

module _ (P : Platform) (H : Handlers) where
  pub farewell-ids :
      (slots : List Slot) (i : ℕ) (s : Server) (w : Trace)
      → After
          (λ (t : Server). ids t.clients ≡ ids s.clients)
          (farewell P H slots (has_null slots) i s w).0
  farewell-ids =
      farewell-After P H (λ s t. ids t.clients ≡ ids s.clients) (λ s. refl) (λ s t h u k. k ∙ h)
        (λ s i fd conn. ids-set_conn_at i conn s.clients)
        (λ id s w.
          After-mono (λ (t : Server). ids t.clients ≡ ids s.clients) _ (λ t k. k.0)
            (notify-Keeps P H.on_client_disconnect (Event.client_disconnected id) s w))
