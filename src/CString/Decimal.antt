-- ===== src/CString/Decimal.antt =====
-- How many bytes `%d` takes.
use nowcoder_linux_learning.Base.{
  ℕ, zero, suc, ◌+◌, ◌*◌, ◌/◌, ◌%◌, ◌≤◌, ◌<◌, ◌∷◌, length, arith, ℤ, pos, negsuc, to_int, pos_part,
  neg_part, to_int_range, [],
}
use nowcoder_linux_learning.CString.{Bytes, decimal_onto, decimal, print_int}

power_of_ten : ℕ → ℕ
power_of_ten zero = 1
power_of_ten (suc k) = 10 * power_of_ten k

length-decimal_onto-le :
    (f n k : ℕ) (rest : Bytes)
    → n < power_of_ten (suc k)
    → length (decimal_onto f n rest) ≤ suc k + length rest
unfolding decimal_onto power_of_ten
length-decimal_onto-le zero n k rest h = omega arith
length-decimal_onto-le (suc f) n zero rest h = ground arith
length-decimal_onto-le (suc f) n (suc k) rest h =
    ground (arith, length-decimal_onto-le f (n / 10) k ((n % 10 + b'0') ∷ rest))

length-decimal-le : (n : ℕ) → n ≤ 0x8000_0000 → length (decimal n) ≤ 10
unfolding decimal power_of_ten
length-decimal-le n h = omega (arith, length-decimal_onto-le (suc n) n 9 [] (omega arith))

length-print-le :
    (z : ℤ) → pos_part z < 0x8000_0000 → neg_part z ≤ 0x8000_0000 → length (print_int z) ≤ 11
unfolding print_int
length-print-le (pos n) h k = omega (arith, length-decimal-le n)
length-print-le (negsuc n) h k = omega (arith, length-decimal-le (suc n))

-- An `int` takes eleven bytes at most.
pub length-print_int-le : (z : ℤ) → length (print_int (to_int z)) ≤ 11
length-print_int-le z = length-print-le (to_int z) (to_int_range z).0 (to_int_range z).1
