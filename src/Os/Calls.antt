-- ===== src/Os/Calls.antt =====
-- A system call asks the platform for its reply and enters the history. `M` is the monad of the
-- operations that make such calls.
use yonaa.Base.{ℕ, ℤ, List, ◌∷◌, Option, Bytes}
use yonaa.Os.Events.{Reply, AcceptReply, RecvReply, PollReply, PollFd, AddrInfo, Event, Trace}
use yonaa.Os.Platform.{Platform}

abbrev pub M {ℓ} : Type ℓ → Type ℓ
M A = Trace → A × Trace

abbrev pub pure {ℓ} : {A : Type ℓ} → A → M A
pure a w = (a, w)

infixl 5 ◌>>=◌ ◌>>◌
abbrev pub ◌>>=◌ {ℓ κ} : {A : Type ℓ} {B : Type κ} → M A → (A → M B) → M B
◌>>=◌ m f w = let (a, w') = m w in f a w'

abbrev pub ◌>>◌ {κ} : {B : Type κ} → M (Unit {0}) → M B → M B
m >> k = m >>= λ _. k

-- A call of a user's callback, or one whose result the code drops.
abbrev pub emit : Event → M (Unit {0})
emit e w = (tt, e ∷ w)

module _ (P : Platform) where
  abbrev pub errno : M ℕ
  errno w = (P.errno w, w)

  abbrev pub socket : ℕ → ℕ → ℕ → M Reply
  socket d t p w = (P.socket d t p w, Event.socket d t p (P.socket d t p w) ∷ w)

  abbrev pub connect : ℕ → Bytes → M Reply
  connect fd a w = (P.connect fd a w, Event.connect fd a (P.connect fd a w) ∷ w)

  abbrev pub set_reuse_address : ℕ → M Reply
  set_reuse_address fd w =
      (P.set_reuse_address fd w, Event.set_reuse_address fd (P.set_reuse_address fd w) ∷ w)

  abbrev pub bind : ℕ → Bytes → M Reply
  bind fd a w = (P.bind fd a w, Event.bind fd a (P.bind fd a w) ∷ w)

  abbrev pub listen : ℕ → ℕ → M Reply
  listen fd n w = (P.listen fd n w, Event.listen fd n (P.listen fd n w) ∷ w)

  abbrev pub accept : ℕ → M AcceptReply
  accept fd w = (P.accept fd w, Event.accept fd (P.accept fd w) ∷ w)

  abbrev pub getsockname : ℕ → M Bytes
  getsockname fd w = (P.getsockname fd w, Event.getsockname fd (P.getsockname fd w) ∷ w)

  abbrev pub getpeername : ℕ → M Bytes
  getpeername fd w = (P.getpeername fd w, Event.getpeername fd (P.getpeername fd w) ∷ w)

  abbrev pub get_protocol : ℕ → M ℕ
  get_protocol fd w = (P.get_protocol fd w, Event.get_protocol fd (P.get_protocol fd w) ∷ w)

  abbrev pub send : ℕ → Bytes → ℕ → M Reply
  send fd bs flags w = (P.send fd bs flags w, Event.send fd bs flags (P.send fd bs flags w) ∷ w)

  abbrev pub recv : ℕ → ℕ → ℕ → M RecvReply
  recv fd size flags w =
      (P.recv fd size flags w, Event.recv fd size flags (P.recv fd size flags w) ∷ w)

  abbrev pub poll : List PollFd → ℤ → M PollReply
  poll fds timeout w = (P.poll fds timeout w, Event.poll fds timeout (P.poll fds timeout w) ∷ w)

  abbrev pub getaddrinfo : Option Bytes → Bytes → ℕ → M (Option (List AddrInfo))
  getaddrinfo host service flags w = (
    P.getaddrinfo host service flags w,
    Event.getaddrinfo host service flags (P.getaddrinfo host service flags w) ∷ w,
  )
