-- ===== src/Endpoint/Text.antt =====
-- The texts that an endpoint gives of itself: `addr`, `port` and `str`.
use yonaa.Base.{
  ℕ, suc, ◌+◌, ◌-◌, ◌≤◌, ◌<◌, ◌≡◌, ◌≢◌, ◌⊎◌, ◌∙◌, ap, sym, [], ◌∷◌, ◌++◌, some, Bytes, arith,
  length, drop, replicate, append_assoc, length-append, length-replicate, drop-replicate,
  take-append-replicate, All,
}
use yonaa.Base.Memory.{read, read-eq-take, read_all}
use yonaa.Base.Decimal.{to_string, IsDigit, All-to_string, value_from, value_from-to_string}
use yonaa.Buffer.{of_size}
use yonaa.Os.Constants.{af_inet, af_inet6}
use yonaa.Os.Platform.{Platform}
use yonaa.Endpoint.{Endpoint, family, get_port, get_in_addr, addr, written, port, str, invalid}

module _ (P : Platform) where
  -- A text and its zero byte, written over zeros.
  written_text :
      (text : Bytes) (n : ℕ)
      → length text < n
      → written P (replicate n 0) (some text) ≡ text ++ replicate (n - length text) 0
  written_text text n h =
      rw (sym all, read_all, drop-replicate, append_assoc)
        (ap (λ (k : ℕ). text ++ replicate {A = ℕ} k 0) {x = suc (n - length (text ++ 0 ∷ []))}
          {y = n - length text} (omega (arith, all)))
    where
      all : length (text ++ 0 ∷ []) ≡ length text + 1
      all = length-append text (0 ∷ [])

  -- The string that is made of `n` bytes of the text buffer.
  read-written_text :
      (n : ℕ) (text : Bytes)
      → length text < n
      → n ≤ 46
      → read P.stray n (written P (of_size 46).bytes (some text))
        ≡ text ++ replicate (n - length text) 0
  unfolding of_size
  read-written_text n text h k = rw (written_text text 46 (omega arith)) (
      read-eq-take P.stray n _ (
        omega (
          arith,
          length-append text (replicate (46 - length text) 0),
          length-replicate {A = ℕ} (46 - length text) 0,
        ))
      ∙ take-append-replicate n (46 - length text) text 0 (omega arith) (omega arith))

  addr-inet :
      (e : Endpoint) (text : Bytes)
      → family P e ≡ af_inet
      → P.inet_ntop af_inet (drop 4 e.storage.bytes) 46 ≡ some text
      → length text < 16
      → addr P e ≡ text ++ replicate (16 - length text) 0
  unfolding addr get_in_addr
  addr-inet e text f r h = rw (f, r) (read-written_text 16 text h (omega arith))

  -- The text of an IPv4 endpoint has the dotted address, then zero bytes up to a length of 16, then
  -- a colon and the port.
  pub str-inet :
      (e : Endpoint) (text : Bytes)
      → family P e ≡ af_inet
      → P.inet_ntop af_inet (drop 4 e.storage.bytes) 46 ≡ some text
      → length text < 16
      → str P e ≡ (text ++ replicate (16 - length text) 0) ++ (b':' ∷ to_string (get_port P e))
  unfolding str port
  str-inet e text f r h =
      rw f (ap (λ (a : Bytes). a ++ (b':' ∷ to_string (get_port P e))) (addr-inet e text f r h))

  -- An IPv6 endpoint is written as if it were an IPv4 one: `inet_ntop` is asked for the IPv4 text of
  -- its first bytes, and the zero bytes go up to a length of 46.
  addr-inet6 :
      (e : Endpoint) (text : Bytes)
      → family P e ≡ af_inet6
      → P.inet_ntop af_inet (drop 8 e.storage.bytes) 46 ≡ some text
      → length text < 46
      → addr P e ≡ text ++ replicate (46 - length text) 0
  unfolding addr get_in_addr
  addr-inet6 e text f r h = rw (f, r) (read-written_text 46 text h (omega arith))

  -- The port of an IPv4 or IPv6 endpoint is written in decimal digits that stand for `get_port`.
  port_digits :
      (e : Endpoint)
      → (family P e ≡ af_inet) ⊎ (family P e ≡ af_inet6)
      → (value_from 0 (port P e) ≡ get_port P e) × All IsDigit (port P e)
  unfolding port
  port_digits e h =
      ground (arith, value_from-to_string (get_port P e), All-to_string (get_port P e))

  -- An endpoint of any other family has the texts of an invalid one.
  pub str-invalid :
      (e : Endpoint)
      → family P e ≢ af_inet
      → family P e ≢ af_inet6
      → (addr P e ≡ invalid P)
        × (port P e ≡ invalid P)
        × (str P e ≡ invalid P ++ (b':' ∷ invalid P))
  unfolding port addr str
  str-invalid e h k = ground arith
