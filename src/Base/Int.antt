-- ===== src/Base/Int.antt =====
-- Signed integers: `negsuc n` is -(n + 1).
use Prim.Native.Nat.{ℕ, suc, ◌-◌, ◌%◌, ◌≤◌, ◌<◌}
use mathlib.Core.Path.{◌≡◌}
use native.Mathlib.Omega.{arith}
use nowcoder_linux_learning.Base.Tests.{ltb, leb, if◌then◌else◌}

pub data ℤ : Type 0 where
  pos : ℕ → ℤ
  negsuc : ℕ → ℤ

abbrev pub pos_part : ℤ → ℕ
pos_part (pos n) = n
pos_part (negsuc n) = 0

abbrev pub neg_part : ℤ → ℕ
neg_part (pos n) = 0
neg_part (negsuc n) = suc n

-- a - b, as an integer.
abbrev pub sub_ℕ : ℕ → ℕ → ℤ
sub_ℕ a b = if leb b a then pos (a - b) else negsuc (b - a - 1)

residue : ℤ → ℕ
residue (pos n) = n % 0x1_0000_0000
residue (negsuc n) = 0xffff_ffff - n % 0x1_0000_0000

signed : ℕ → ℤ
signed r = if ltb r 0x8000_0000 then pos r else negsuc (0xffff_ffff - r)

-- The `int` that a value is converted to: its residue modulo 2 ^ 32 in two's complement.
unfoldable pub to_int : ℤ → ℤ
unfolding residue signed
to_int z = signed (residue z)

signed_range :
    (r : ℕ)
    → r < 0x1_0000_0000
    → (pos_part (signed r) < 0x8000_0000) × (neg_part (signed r) ≤ 0x8000_0000)
unfolding signed
signed_range r h = ground arith

residue-lt : (z : ℤ) → residue z < 0x1_0000_0000
unfolding residue
residue-lt (pos n) = omega arith
residue-lt (negsuc n) = omega arith

pub to_int_range :
    (z : ℤ) → (pos_part (to_int z) < 0x8000_0000) × (neg_part (to_int z) ≤ 0x8000_0000)
unfolding to_int
to_int_range z = signed_range (residue z) (residue-lt z)

-- A value that an `int` can hold is kept.
pub to_int_pos : (n : ℕ) → n < 0x8000_0000 → to_int (pos n) ≡ pos n
unfolding to_int
to_int_pos n h = ground arith
