-- ===== src/Prelude/Words.antt =====
-- uint32_t and uint64_t: a value stays a number, and each operation that may wrap says so.
use Prim.Native.Nat.{ℕ, ◌+◌, ◌-◌, ◌%◌, ◌^◌, ◌≤◌, ◌<◌}
use mathlib.Core.Path.{◌≡◌}
use native.Mathlib.Omega.{arith}

abbrev pub u32_mod : ℕ
u32_mod = 2 ^ 32

abbrev pub u64_mod : ℕ
u64_mod = 2 ^ 64

-- `x + 1` on uint32_t.
abbrev pub next32 : ℕ → ℕ
next32 x = (x + 1) % u32_mod

-- `a - b` on uint64_t.
abbrev pub sub64 : ℕ → ℕ → ℕ
sub64 a b = (a + u64_mod - b) % u64_mod

-- A later time minus an earlier one does not wrap.
pub sub64-exact : (a b : ℕ) → b ≤ a → a < u64_mod → sub64 a b ≡ a - b
sub64-exact a b h k = omega arith

pub next32_lem : (n : ℕ) → n + 1 < u32_mod → next32 n ≡ n + 1
next32_lem n h = omega arith
