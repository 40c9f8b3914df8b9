-- ===== src/Server/Held.antt =====
-- A client's socket, which may be closed only when the client is marked; and the changes that
-- `handle_incoming_messages_` makes to the list of clients.
use yonaa.Base.{
  ℕ, ◌≡◌, ◌≢◌, ◌∙◌, sym, subst, ==-refl, refl, List, [], ◌∷◌, true, false, some, none, Bool-cases,
  inl, inr, arith, ◌==◌, All, All-mono, IsDistinct, map,
}
use yonaa.Os.Events.{Trace}
use yonaa.Os.Descriptors.{is_open}
use yonaa.Connection.{Connection, unopened}
use yonaa.Connection.Descriptors.{Owns}
use yonaa.Server.{ClientInfo, Server, client_info_from_id, client_info_from_native_socket, mark}
use yonaa.Server.Clients.{ids, sockets}
use yonaa.Server.Network.{set_conn}

-- A client whose socket is open unless it was marked, with its connection on it unless that was
-- closed.
abbrev pub IsHeld : Trace → ClientInfo → Type 0
IsHeld w c = Owns c.fd c.conn × (c.is_connected ≡ true → is_open w c.fd ≡ true)

abbrev pub HoldsUnmarked : Server → Trace → Type 0
HoldsUnmarked s w =
    All (IsHeld w) s.clients × IsDistinct (sockets s.clients) × IsDistinct (ids s.clients)

found_All :
    (Q : ℕ → Type 0) (g : ClientInfo → ℕ) (fd : ℕ) (cs : List ClientInfo) (c : ClientInfo)
    → client_info_from_native_socket fd cs ≡ some c
    → All Q (map g cs)
    → Q (g c)
found_All Q g fd [] c e h = cc
found_All Q g fd (d ∷ cs) c e h = elim (Bool-cases (d.fd == fd)) [
  | inl k ↦ rw (same k) h.0
  | inr k ↦ found_All Q g fd cs c (ground arith) h.1
]
  where
    same : (d.fd == fd) ≡ true → c ≡ d
    same k = ground arith

==→≡ : (n m : ℕ) → (m == n) ≡ true → n ≡ m
==→≡ n m e = ground arith

≢→== : (n m : ℕ) → n ≢ m → (n == m) ≡ false
≢→== n m h = ground arith

IsHeld-others :
    (n : ℕ) (w w' : Trace)
    → ((fd : ℕ) → fd ≢ n → is_open w' fd ≡ is_open w fd)
    → (cs : List ClientInfo) → All (λ m. m ≢ n) (sockets cs)
    → All (IsHeld w) cs
    → All (IsHeld w') cs
IsHeld-others n w w' f [] ne h = tt
IsHeld-others n w w' f (c ∷ cs) ne h =
    ((h.0.0, (λ on. f c.fd ne.0 ∙ h.0.1 on)), IsHeld-others n w w' f cs ne.1 h.1)

pub IsHeld-set_conn :
    (w w' : Trace)
    → ((fd : ℕ) → is_open w' fd ≡ is_open w fd)
    → (n : ℕ) (conn : Connection) → Owns n conn
    → (cs : List ClientInfo) → All (IsHeld w) cs
    → All (IsHeld w') (set_conn n conn cs)
IsHeld-set_conn w w' f n conn own [] h = tt
IsHeld-set_conn w w' f n conn own (c ∷ cs) h = elim (Bool-cases (c.fd == n)) [
  | inl e ↦ rw e (
      (
        (subst (λ m. Owns m conn) (==→≡ n c.fd e) own, λ on. f c.fd ∙ h.0.1 on),
        All-mono (IsHeld w) (λ d k. (k.0, λ on. f d.fd ∙ k.1 on)) cs h.1,
      ))
  | inr e ↦ rw e ((h.0.0, (λ on. f c.fd ∙ h.0.1 on)), IsHeld-set_conn w w' f n conn own cs h.1)
]

module _ (fd : ℕ) (c : ClientInfo) (conn : Connection) where
  found_same :
      (b : ClientInfo) (cs : List ClientInfo)
      → (b.fd == fd) ≡ true
      → client_info_from_native_socket fd (b ∷ cs) ≡ some c
      → c ≡ b
  found_same b cs k e = ground arith

  found_rest :
      (b : ClientInfo) (cs : List ClientInfo)
      → (b.fd == fd) ≡ false
      → client_info_from_native_socket fd (b ∷ cs) ≡ some c
      → client_info_from_native_socket fd cs ≡ some c
  found_rest b cs k e = ground arith

  pub found_known :
      (cs : List ClientInfo)
      → client_info_from_native_socket fd cs ≡ some c
      → client_info_from_id c.id cs ≢ none
  found_known [] e k = cc
  found_known (d ∷ cs) e k = elim (Bool-cases (d.fd == fd)) [
    | inl h ↦ ground arith
    | inr h ↦ found_known cs (ground arith) (ground arith)
  ]

  pub known-set_conn :
      (id n : ℕ) (cs : List ClientInfo)
      → client_info_from_id id (set_conn n conn cs) ≡ none
      → client_info_from_id id cs ≡ none
  known-set_conn id n [] e = refl
  known-set_conn id n (d ∷ cs) e = elim (Bool-cases (d.fd == n)) [
    | inl h ↦ ground arith
    | inr h ↦ ground (arith, known-set_conn id n cs)
  ]

  -- The client that was found gets the connection, and is marked.
  pub IsHeld-marked :
      (w w' : Trace)
      → ((m : ℕ) → m ≢ c.fd → is_open w' m ≡ is_open w m)
      → Owns c.fd conn
      → (cs : List ClientInfo) → client_info_from_native_socket fd cs ≡ some c
      → IsDistinct (sockets cs)
      → IsDistinct (ids cs)
      → All (IsHeld w) cs
      → All (IsHeld w') (mark c.id (set_conn c.fd conn cs))
  IsHeld-marked w w' f own [] e d i h = tt
  IsHeld-marked w w' f own (b ∷ cs) e d i h = elim (Bool-cases (b.fd == fd)) [
    | inl k ↦
        rw (found_same b cs k e, ==-refl)
          (rw (==-refl) (
            (subst (λ (x : ClientInfo). Owns x.fd conn) (found_same b cs k e) own, λ on. cc),
            IsHeld-others b.fd w w'
                (subst (λ (x : ClientInfo). (m : ℕ) → m ≢ x.fd → is_open w' m ≡ is_open w m)
                  (found_same b cs k e) f)
                cs d.0 h.1,
          ))
    | inr k ↦
        let rest = found_rest b cs k e in
        let other_fd = found_All (λ m. m ≢ b.fd) (λ (x : ClientInfo). x.fd) fd cs c rest d.0 in
        let other_id = found_All (λ m. m ≢ b.id) (λ (x : ClientInfo). x.id) fd cs c rest i.0 in
        rw (≢→== b.fd c.fd (λ p. other_fd (sym p))) (
          rw (≢→== b.id c.id (λ p. other_id (sym p))) (
            (h.0.0, λ on. f b.fd (λ p. other_fd (sym p)) ∙ h.0.1 on),
            IsHeld-marked w w' f own cs rest d.1 i.1 h.1,
          ))
  ]

pub found_held :
    (Q : ClientInfo → Type 0) (fd : ℕ) (cs : List ClientInfo) (c : ClientInfo)
    → client_info_from_native_socket fd cs ≡ some c
    → All Q cs
    → Q c
found_held Q fd [] c e h = cc
found_held Q fd (b ∷ cs) c e h = elim (Bool-cases (b.fd == fd)) [
  | inl k ↦ subst Q (sym (found_same fd c unopened b cs k e)) h.0
  | inr k ↦ found_held Q fd cs c (found_rest fd c unopened b cs k e) h.1
]
