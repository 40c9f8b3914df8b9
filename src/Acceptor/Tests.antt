-- ===== src/Acceptor/Tests.antt =====
-- An acceptor on the sample platform.
use yonaa.Base.{refl, [], ◌∷◌}
use yonaa.Os.Sample.{sample, sample_name, sample-SetsErrno, sample-SkipsZero}
use yonaa.Endpoint.{Endpoint}
use yonaa.Acceptor.{Acceptor, closed, open_at, accept}
use yonaa.Acceptor.Opening.{Opens, open_at-Opens}
use yonaa.Acceptor.Accepting.{Accepts, accept-Accepts}

abbrev any_port : Endpoint
any_port = record { protocol = 6; storage = record { bytes = sample_name } }

abbrev listening_acceptor : Acceptor
listening_acceptor = record { socket = 4; local_endpoint = any_port }

open_at-Opens_example :
    Opens sample (any_port ∷ []) closed 0 1 [] (open_at sample closed (any_port ∷ []) 0 1 []).0
open_at-Opens_example = open_at-Opens sample sample-SkipsZero closed any_port [] 0 1 []

accept-Accepts_example :
    Accepts sample listening_acceptor 0 [] (accept sample listening_acceptor 0 []).0
accept-Accepts_example = accept-Accepts sample sample-SetsErrno listening_acceptor 0 [] refl
