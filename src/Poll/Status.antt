-- ===== src/Poll/Status.antt =====
-- The masks that src/detail/poll.cpp makes of the kernel's events.
use yonaa.Base.{arith, ℕ, ◌≡◌, refl, Bool, true, false, ◌||◌, bit_and, bit_or, if◌then◌else◌}
use yonaa.Os.Constants.{pollin, pollout, pollerr, pollhup}
use yonaa.Os.Platform.{Platform, IsBitwise}
use yonaa.Poll.{
  SocketStatus, no_status, error, hung_up, readable, writable, bits, nonzero, has, ssm_from_revents,
}

-- The bits of a mask with the chosen flags, added in the order of the code.
abbrev flags : Bool → Bool → Bool → Bool → ℕ
flags r w e h =
    bit_or
      (bit_or (bit_or (bit_or 0 (if r then 4 else 0)) (if w then 8 else 0)) (if e then 1 else 0))
      (if h then 2 else 0)

abbrev Reads : Bool → Bool → Bool → Bool → Type 0
Reads r w e h =
    (nonzero (bit_and (flags r w e h) 4) ≡ r)
    × (nonzero (bit_and (flags r w e h) 8) ≡ w)
    × (nonzero (bit_and (flags r w e h) 1) ≡ e)
    × (nonzero (bit_and (flags r w e h) 2) ≡ h)
    × (nonzero (bit_and (flags r w e h) 3) ≡ (e || h))

flags_table : (r w e h : Bool) → Reads r w e h
flags_table r w e h = ground arith

bits-if :
    (b : Bool) (s : SocketStatus) → bits (if b then s else no_status) ≡ (if b then bits s else 0)
bits-if true s = refl
bits-if false s = refl

module _ (P : Platform) (L : IsBitwise P.bitmask) where
  ssm-eq-flags :
      (revents : ℕ)
      → ssm_from_revents P revents
        ≡ flags
            (nonzero (bit_and revents pollin))
            (nonzero (bit_and revents pollout))
            (nonzero (bit_and revents pollerr))
            (nonzero (bit_and revents pollhup))
  unfolding ssm_from_revents
  ssm-eq-flags revents = simp (L.join-eq, bits-if)

  -- A status has exactly the flags of the events that were reported, and the test for an error or a
  -- hang-up that the server makes is the test for either of them.
  pub has-ssm_from_revents :
      (revents : ℕ)
      → let s = ssm_from_revents P revents in
        (has P s readable ≡ nonzero (bit_and revents pollin))
        × (has P s writable ≡ nonzero (bit_and revents pollout))
        × (has P s error ≡ nonzero (bit_and revents pollerr))
        × (has P s hung_up ≡ nonzero (bit_and revents pollhup))
        × (P.bitmask.test (P.bitmask.meet s (P.bitmask.join (bits error) (bits hung_up)))
            ≡ (nonzero (bit_and revents pollerr) || nonzero (bit_and revents pollhup)))
  has-ssm_from_revents revents =
      simp (ssm-eq-flags, L.join-eq, L.meet-eq, L.test-eq) (flags_table _ _ _ _)
