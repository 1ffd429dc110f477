-- ===== src/Common/Words.antt =====
-- `std::size_t` of a 32-bit target, with its wrap-around.
use Prim.Native.Nat.{ℕ, ◌+◌, ◌-◌, ◌%◌, ◌^◌}

abbrev pub size_mod : ℕ
size_mod = 2 ^ 32

-- The largest object that a compiler for such a target lays out.
abbrev pub max_object : ℕ
max_object = 2 ^ 31 - 1

abbrev pub add_size : ℕ → ℕ → ℕ
add_size a b = (a + b) % size_mod

abbrev pub sub_size : ℕ → ℕ → ℕ
sub_size a b = (a + size_mod - b) % size_mod
