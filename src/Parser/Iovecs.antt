-- ===== src/Parser/Iovecs.antt =====
-- Which addresses `StrType::write` of src/parser/argtypes.cpp asks for.
use gravelbox.Base.{
  ℕ, ◌+◌, ◌-◌, ◌%◌, ◌^◌, ◌≤◌, ◌<◌, ◌≡◌, List, [], ◌∷◌, ltb, if◌then◌else◌, Option, none, some, All,
  arith,
}
use gravelbox.Parser.StrType.{max_str_len, Iovec, remote_iovecs}

-- The address of byte `i` of the pieces, one behind the other.
abbrev pub address_of : List Iovec → ℕ → Option ℕ
address_of [] i = none
address_of (v ∷ vs) i =
    if ltb i v.iov_len then some (v.iov_base + i) else address_of vs (i - v.iov_len)

-- A piece that is not empty and lies in one page.
abbrev pub InPage : Iovec → Type 0
InPage v = (0 < v.iov_len) × (v.iov_base % 4096 + v.iov_len ≤ 4096)

remote_iovecs-address_of :
    (value i : ℕ)
    → value < 2 ^ 64
    → address_of (remote_iovecs value) i
      ≡ (if ltb i max_str_len then some ((value + i) % 2 ^ 64) else none)
unfolding remote_iovecs
remote_iovecs-address_of value i h = ground arith

-- For every 64-bit pointer: no piece is empty or crosses the end of a page, byte `i` of the pieces is at
-- `value + i` modulo 2 ^ 64, for each of the 32 bytes of the buffer, and the pieces have no more.
pub remote_iovecs-InPage :
    (value : ℕ)
    → value < 2 ^ 64
    → All InPage (remote_iovecs value)
      × ((i : ℕ)
          → address_of (remote_iovecs value) i
            ≡ (if ltb i max_str_len then some ((value + i) % 2 ^ 64) else none))
unfolding remote_iovecs
remote_iovecs-InPage value h = (ground arith, λ i. remote_iovecs-address_of value i h)
