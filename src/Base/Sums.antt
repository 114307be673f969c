-- ===== src/Base/Sums.antt =====
-- Sums over the first `n` places of a table, and a table with one place changed.
use native.Mathlib.Decide.{dec_lt}
use nowcoder_linux_learning.Base.{
  ℕ, zero, suc, ◌+◌, ◌≤◌, ◌<◌, ◌≡◌, refl, ap, ◌⊎◌, ◌==◌, ==_true, Bool-cases, false, if◌then◌else◌,
  inl, inr, arith,
}

abbrev pub move {ℓ} : {A : Type ℓ} → (ℕ → A) → ℕ → A → ℕ → A
move f i v j = if i == j then v else f j

unfoldable pub sum {ℓ} : {A : Type ℓ} → (A → ℕ) → ℕ → (ℕ → A) → ℕ
sum w zero f = 0
sum w (suc n) f = w (f n) + sum w n f

module _ {ℓ} {A : Type ℓ} (w : A → ℕ) where
  sum-move_above : (n i : ℕ) (f : ℕ → A) (v : A) → n ≤ i → sum w n (move f i v) ≡ sum w n f
  unfolding sum
  sum-move_above zero i f v h = refl
  sum-move_above (suc n) i f v h =
      let apart : (i == n) ≡ false = ground arith in
      rw apart (omega (arith, sum-move_above n i f v (omega arith)))

  pub sum-move :
      (n i : ℕ) (f : ℕ → A) (v : A) → i < n → sum w n (move f i v) + w (f i) ≡ sum w n f + w v
  unfolding sum
  sum-move zero i f v h = absurd (omega arith)
  sum-move (suc n) i f v h = elim (Bool-cases (i == n)) [
    | inl e ↦
        let same : i ≡ n = ==_true i n e in
        rw e (rw same (omega (arith, sum-move_above n n f v (omega arith))))
    | inr e ↦ rw e (omega (arith, sum-move n i f v (ground arith)))
  ]

  -- The place `i` held `a` before.
  pub sum-move_from :
      (n i : ℕ) (f : ℕ → A) (a v : A)
      → i < n
      → f i ≡ a
      → sum w n (move f i v) + w a ≡ sum w n f + w v
  sum-move_from n i f a v h e = let m = ap w e in omega (arith, sum-move n i f v h, m)

  -- Each term is below its sum.
  pub sum-le : (n i : ℕ) (f : ℕ → A) → i < n → w (f i) ≤ sum w n f
  unfolding sum
  sum-le zero i f h = absurd (omega arith)
  sum-le (suc n) i f h = elim (Bool-cases (i == n)) [
    | inl e ↦ let same : i ≡ n = ==_true i n e in rw same (omega arith)
    | inr e ↦ omega (arith, sum-le n i f (ground arith))
  ]

  pub sum_zero_below : (n : ℕ) (f : ℕ → A) → ((i : ℕ) → i < n → w (f i) ≡ 0) → sum w n f ≡ 0
  unfolding sum
  sum_zero_below zero f h = refl
  sum_zero_below (suc n) f h =
      let r = sum_zero_below n f (λ i l. h i (omega arith)) in omega (arith, h n (omega arith), r)

  pub sum_zero : (n : ℕ) (f : ℕ → A) → ((i : ℕ) → w (f i) ≡ 0) → sum w n f ≡ 0
  unfolding sum
  sum_zero zero f h = refl
  sum_zero (suc n) f h = omega (arith, h n, sum_zero n f h)

-- Either a place counts, or the sum is 0.
pub counted_or_zero {ℓ} :
    {A : Type ℓ} (w : A → ℕ) (n : ℕ) (f : ℕ → A)
    → ((i : ℕ) × (i < n) × (0 < w (f i))) ⊎ (sum w n f ≡ 0)
unfolding sum
counted_or_zero w zero f = inr refl
counted_or_zero w (suc n) f = elim (counted_or_zero w n f) [
  | inl (i, h, p) ↦ inl (i, omega arith, p)
  | inr z ↦ elim (dec_lt 0 (w (f n))) [ yes p ↦ inl (n, omega arith, p) | no p ↦ inr (omega arith) ]
]

-- Term by term.
pub sum_mono {ℓ} :
    {A : Type ℓ} (v w : A → ℕ) (n : ℕ) (f : ℕ → A) → ((a : A) → v a ≤ w a) → sum v n f ≤ sum w n f
unfolding sum
sum_mono v w zero f h = omega arith
sum_mono v w (suc n) f h = omega (arith, h (f n), sum_mono v w n f h)
