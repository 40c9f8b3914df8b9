-- ===== src/Os/Sample.antt =====
-- A concrete platform, on which the tests run: the kernel takes three bytes at a time, it stores two
-- bytes, it connects to addresses of eight bytes, and `errno` is 11 after each call.
use yonaa.Base.{
  ℕ, ◌≢◌, ◌<◌, ◌≤◌, [], ◌∷◌, Bytes, some, not, arith, length, take, length-take, bit_or, bit_and,
  ◌==◌, ltb, if◌then◌else◌, refl, Bool, true, false,
}
use yonaa.Os.Events.{Event, Trace, failed, value, accepted, received, polled}
use yonaa.Os.Platform.{Bitmask, IsBitwise, Platform, SetsErrno, SendsSome, RecvFits, SkipsZero}

abbrev pub sample_bitmask : Bitmask
sample_bitmask = record { join = bit_or; meet = bit_and; test = λ a. not (a == 0) }

pub sample-IsBitwise : IsBitwise sample_bitmask
sample-IsBitwise = record { join-eq = λ a b. refl; meet-eq = λ a b. refl; test-eq = λ a. refl }

abbrev pub sample_name : Bytes
sample_name = 2 ∷ 0 ∷ 19 ∷ 136 ∷ 127 ∷ 0 ∷ 0 ∷ 1 ∷ []

abbrev pub sample_text : Bytes
sample_text = b'1' ∷ b'2' ∷ b'7' ∷ b'.' ∷ b'0' ∷ b'.' ∷ b'0' ∷ b'.' ∷ b'1' ∷ []

abbrev three_at_most : Bytes → ℕ
three_at_most bs = if ltb 3 (length bs) then 3 else length bs

abbrev pub sample : Platform
sample = record {
  bitmask = sample_bitmask;
  errno = λ w. 11;
  stray = λ n. 0;
  socket = λ d t p w. value 5;
  connect = λ fd a w. if length a == 8 then value 0 else failed;
  set_reuse_address = λ fd w. value 0;
  bind = λ fd a w. value 0;
  listen = λ fd n w. value 0;
  accept = λ fd w. accepted 6 sample_name;
  getsockname = λ fd w. sample_name;
  getpeername = λ fd w. sample_name;
  get_protocol = λ fd w. 6;
  send = λ fd bs flags w. value (three_at_most bs);
  recv = λ fd size flags w. received (take size (7 ∷ 8 ∷ []));
  poll = λ fds timeout w. polled 1 (λ i. 1);
  getaddrinfo =
      λ host service flags w. some (record { ai_protocol = 6; ai_addr = sample_name } ∷ []);
  inet_ntop = λ af bs size. some sample_text;
}

pub sample-SetsErrno : SetsErrno sample
sample-SetsErrno e w f = omega arith

three_at_most_bounds :
    (bs : Bytes) → bs ≢ [] → (0 < three_at_most bs) × (three_at_most bs ≤ length bs)
three_at_most_bounds [] h = absurd (h refl)
three_at_most_bounds (b ∷ bs) h = (ground arith, ground arith)

pub sample-SendsSome : SendsSome sample
sample-SendsSome fd bs flags w n e h = ground (arith, three_at_most_bounds bs h)

pub sample-RecvFits : RecvFits sample
sample-RecvFits fd size flags w bs e = ground (arith, length-take {A = ℕ} size (7 ∷ 8 ∷ []))

pub sample-SkipsZero : SkipsZero sample
sample-SkipsZero domain type protocol w fd e = ground arith

-- Whether `::accept` was called.
abbrev has_accepted : Trace → Bool
has_accepted [] = false
has_accepted (Event.accept fd reply ∷ w) = true
has_accepted (e ∷ w) = has_accepted w

-- A connection is pending until it was accepted.
abbrev pub one_client : Platform
one_client = record sample {
  poll = λ fds timeout w. if has_accepted w then polled 0 (λ i. 0) else polled 1 (λ i. 1);
}

pub one_client-SkipsZero : SkipsZero one_client
one_client-SkipsZero domain type protocol w fd e = ground arith

pub one_client-SetsErrno : SetsErrno one_client
one_client-SetsErrno e w f = omega arith
