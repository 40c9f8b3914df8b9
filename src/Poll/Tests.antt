-- ===== src/Poll/Tests.antt =====
-- Statuses and poll groups at concrete events.
use yonaa.Base.{ℕ, ◌≡◌, refl, [], ◌∷◌, true, false, pos, arith}
use yonaa.Os.Events.{PollFd}
use yonaa.Os.Sample.{sample, sample-IsBitwise}
use yonaa.Poll.{PollGroup, readable, writable, error, hung_up, bits, has, ssm_from_revents, poll}
use yonaa.Poll.Status.{has-ssm_from_revents}
use yonaa.Poll.Group.{fds, entry, status_at, reported, poll_reports}

abbrev entry_of : ℕ → PollFd
entry_of fd = record { fd = fd; events = 1; revents = 0 }

abbrev group : PollGroup
group = record { pfds = entry_of 5 ∷ entry_of 6 ∷ []; pfd_config = 1 }

status_17 : ssm_from_revents sample 17 ≡ 6
unfolding ssm_from_revents
status_17 = refl

has-ssm_from_revents_example :
    (has sample (ssm_from_revents sample 17) readable ≡ true)
    × (has sample (ssm_from_revents sample 17) writable ≡ false)
    × (has sample (ssm_from_revents sample 17) error ≡ false)
    × (has sample (ssm_from_revents sample 17) hung_up ≡ true)
    × (sample.bitmask.test (
          sample.bitmask.meet
            (ssm_from_revents sample 17)
            (sample.bitmask.join (bits error) (bits hung_up)))
        ≡ true)
has-ssm_from_revents_example = has-ssm_from_revents sample sample-IsBitwise 17

poll_reports_example :
    (fds (poll sample group (pos 0) []).0.1 ≡ 5 ∷ 6 ∷ [])
    × (status_at 6 (poll sample group (pos 0) []).0.0
        ≡ reported sample (entry 6 (poll sample group (pos 0) []).0.1.pfds))
poll_reports_example = poll_reports sample group (pos 0) [] 6 ((omega arith, tt), (tt, tt))
