-- ===== src/Buffer.antt =====
-- include/yonaa/buffer.hpp
pub mod Laws
mod Tests
use yonaa.Base.{
  ℕ, ◌+◌, ◌-◌, ◌*◌, List, [], ◌++◌, Bool, true, false, not, Bytes, Ordering, length, take,
  replicate, ◌==◌, ltb, if◌then◌else◌,
}
use yonaa.Base.Memory.{read, memcmp}

-- The bytes of the underlying `std::vector<char>`, each as a number.
pub record Buffer : Type 0 where
  pub bytes : Bytes

abbrev pub empty : Buffer
empty = record { bytes = [] }

-- `std::vector::resize`: a vector that grows is filled up with zeros.
abbrev pub resize_vector : Bytes → ℕ → Bytes
resize_vector bs n = take n bs ++ replicate (n - length bs) 0

-- `buffer(const char *data, size_t size)`, which copies `size` bytes at the pointer.
unfoldable pub from_memory : (ℕ → ℕ) → Bytes → ℕ → Buffer
from_memory stray memory size = record { bytes = read stray size memory }

-- `buffer(size_t size)`
unfoldable pub of_size : ℕ → Buffer
of_size size = record { bytes = resize_vector [] size }

-- `buffer(T (&data)[N])` with `sizeof(T)`, `N` and the array's bytes: the last element is left out.
unfoldable pub from_array : (ℕ → ℕ) → ℕ → ℕ → Bytes → Buffer
unfolding from_memory
from_array stray element_size n memory = from_memory stray memory (element_size * (n - 1))

-- `buffer(const std::string &data)`
unfoldable pub from_string : (ℕ → ℕ) → Bytes → Buffer
unfolding from_memory
from_string stray s = from_memory stray s (length s)

abbrev pub size : Buffer → ℕ
size b = length b.bytes

unfoldable pub is_empty : Buffer → Bool
is_empty b = size b == 0

-- `operator bool`
unfoldable pub to_bool : Buffer → Bool
to_bool b = ltb 0 (size b)

-- `zero`: `memset` of all the bytes.
unfoldable pub zero_data : Buffer → Buffer
zero_data b = record { bytes = replicate (size b) 0 }

unfoldable pub resize : Buffer → ℕ → Buffer
resize b new_size = record { bytes = resize_vector b.bytes new_size }

-- `std::string(data(), size())`
unfoldable pub str : (ℕ → ℕ) → Buffer → Bytes
str stray b = read stray (size b) b.bytes

-- The conversion of an `int` to `bool`: true unless it is 0.
abbrev nonzero : Ordering → Bool
nonzero Ordering.eq = false
nonzero _ = true

-- `operator==`, which returns the result of `memcmp` as a `bool`.
unfoldable pub equals : Buffer → Buffer → Bool
equals b other = if not (size b == size other) then false else nonzero (memcmp b.bytes other.bytes)
