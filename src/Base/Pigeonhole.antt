-- ===== src/Base/Pigeonhole.antt =====
-- Different numbers below a bound are no more than the bound.
use nowcoder_linux_learning.Base.{ℕ, zero, suc, ◌≤◌, ◌<◌, ◌≡◌, ◌==◌, if◌then◌else◌, arith}

-- `f` with the value `m` replaced by that at `n`.
abbrev replaced : (ℕ → ℕ) → ℕ → ℕ → ℕ → ℕ
replaced f m n i = if f i == m then f n else f i

pub pigeonhole :
    (m n : ℕ) (f : ℕ → ℕ)
    → ((i : ℕ) → i < n → f i < m)
    → ((i j : ℕ) → i < n → j < n → f i ≡ f j → i ≡ j)
    → n ≤ m
pigeonhole m zero f below apart = omega arith
pigeonhole zero (suc n) f below apart = absurd (omega (arith, below 0 (omega arith)))
pigeonhole (suc m) (suc n) f below apart = omega (
  arith,
  pigeonhole m n (replaced f m n)
      (λ i h. ground (
        arith,
        below i (omega arith),
        below n (omega arith),
        apart i n (omega arith) (omega arith),
      ))
      (λ i j h k e. ground (
        arith,
        e,
        apart i j (omega arith) (omega arith),
        apart i n (omega arith) (omega arith),
        apart n j (omega arith) (omega arith),
      )),
)
