-- ===== src/Resolve/Tests.antt =====
-- Name resolution on the sample platform.
use yonaa.Base.{◌≡◌, [], ◌∷◌, map}
use yonaa.Os.Sample.{sample, sample_name}
use yonaa.Endpoint.{Endpoint}
use yonaa.Resolve.{resolve, getaddrinfo, any_address}
use yonaa.Resolve.Laws.{resolve-addresses}

resolve-addresses_example :
    map (λ (e : Endpoint). e.storage.bytes) (resolve sample any_address [] 0 []).0.0
    ≡ sample_name ∷ []
unfolding getaddrinfo
resolve-addresses_example = resolve-addresses sample any_address [] 0 []
