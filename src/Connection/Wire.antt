-- ===== src/Connection/Wire.antt =====
-- A concrete platform with a stream, on which the tests of transfers run.
use yonaa.Base.{ℕ, refl, inr, arith, take, drop, drop-append, length, ltb, if◌then◌else◌}
use yonaa.Os.Events.{received}
use yonaa.Os.Platform.{Platform, SetsErrno, SendsSome}
use yonaa.Os.Sample.{sample, sample-SendsSome}
use yonaa.Connection.Sending.{delivered}
use yonaa.Connection.Stream.{collected, IsStream}

-- Sockets 5 and 6 are the ends of a stream, which gives out two bytes at most in a call.
abbrev two_at_most : ℕ → ℕ
two_at_most size = if ltb size 2 then size else 2

abbrev pub wire : Platform
wire = record sample {
  recv = λ fd size flags w.
      received (take (two_at_most size) (drop (length (collected 6 w)) (delivered 5 w)));
}

pub wire-IsStream : IsStream wire 5 6
wire-IsStream size w rest eq some more =
    inr
      (two_at_most size, ground arith, ground arith, rw (eq, drop-append (collected 6 w) rest) refl)

pub wire-SetsErrno : SetsErrno wire
wire-SetsErrno e w f = omega arith

pub wire-SendsSome : SendsSome wire
wire-SendsSome = sample-SendsSome
