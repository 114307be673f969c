-- ===== src/Chapter1/Sorts/Bubble.antt =====
-- bubbleSort sorts.
use mathlib.Core.List.Perm
use mathlib.Core.List.{Perm}
use nowcoder_linux_learning.Base.{
  ℕ, zero, suc, ◌+◌, ◌-◌, ◌≡◌, refl, ap, sym, ◌∙◌, Bool-cases, inl, inr, if◌then◌else◌, List, [],
  ◌∷◌, ◌++◌, length, length-append, set, arith,
}
use mathlib.Core.List.{append-nil, append_assoc}
use nowcoder_linux_learning.Base.Int.{ℤ, pos}
use nowcoder_linux_learning.Base.Sorted.{
  ◌≤ℤ◌, All, All-both, IsSorted, Sorts, get_or-append, set-append,
}
use nowcoder_linux_learning.Chapter1.Sorts.{
  item, gt, swap_larger, bubble_pass, bubble_loop, bubble_sort,
}

-- What a pass leaves in front of the largest item, and that item.
front : ℤ → List ℤ → List ℤ
front x [] = []
front x (y ∷ r) = (if gt x y then y else x) ∷ front (if gt x y then x else y) r

largest : ℤ → List ℤ → ℤ
largest x [] = x
largest x (y ∷ r) = largest (if gt x y then x else y) r

swap_lem :
    (pre : List ℤ) (x y : ℤ) (r : List ℤ)
    → swap_larger (pre ++ (x ∷ y ∷ r)) (length pre) (length pre + 1)
      ≡ pre ++ ((if gt x y then y else x) ∷ (if gt x y then x else y) ∷ r)
unfolding swap_larger
swap_lem pre x y r =
    let z : length pre ≡ length pre + 0 = omega arith in
    let a : item (pre ++ (x ∷ y ∷ r)) (length pre) ≡ x =
      ap (item (pre ++ (x ∷ y ∷ r))) z ∙ get_or-append pre (x ∷ y ∷ r) 0 (pos 0) in
    let b : item (pre ++ (x ∷ y ∷ r)) (length pre + 1) ≡ y =
      get_or-append pre (x ∷ y ∷ r) 1 (pos 0) in
    let s : set (pre ++ (x ∷ y ∷ r)) (length pre) y ≡ pre ++ (y ∷ y ∷ r) =
      ap (λ i. set (pre ++ (x ∷ y ∷ r)) i y) z ∙ set-append pre (x ∷ y ∷ r) 0 y in
    let t : set (pre ++ (y ∷ y ∷ r)) (length pre + 1) x ≡ pre ++ (y ∷ x ∷ r) =
      set-append pre (y ∷ y ∷ r) 1 x in
    elim (Bool-cases (gt x y)) [ inl g ↦ rw (a, b, g, s, t) | inr g ↦ rw (a, b, g) ]

pass_lem :
    (pre r zs : List ℤ) (x : ℤ)
    → bubble_pass (length r) (length pre) (pre ++ (x ∷ (r ++ zs)))
      ≡ pre ++ (front x r ++ (largest x r ∷ zs))
unfolding bubble_pass front largest
pass_lem pre [] zs x = refl
pass_lem pre (y ∷ r) zs x =
    let lo = if gt x y then y else x in
    let hi = if gt x y then x else y in
    let n : length (pre ++ (lo ∷ [])) ≡ suc (length pre) =
      omega (arith, length-append pre (lo ∷ [])) in
    let e : (pre ++ (lo ∷ [])) ++ (hi ∷ (r ++ zs)) ≡ pre ++ (lo ∷ hi ∷ (r ++ zs)) =
      append_assoc pre (lo ∷ []) (hi ∷ (r ++ zs)) in
    ap (bubble_pass (length r) (suc (length pre))) (swap_lem pre x y (r ++ zs))
    ∙ rw (← n) (ap (bubble_pass (length r) (length (pre ++ (lo ∷ [])))) (sym e))
    ∙ pass_lem (pre ++ (lo ∷ [])) r zs hi
    ∙ append_assoc pre (lo ∷ []) (front hi r ++ (largest hi r ∷ zs))

length-front : (x : ℤ) (r : List ℤ) → length (front x r) ≡ length r
unfolding front
length-front x [] = refl
length-front x (y ∷ r) = ap suc (length-front (if gt x y then x else y) r)

ordered :
    (x y : ℤ)
    → (x ≤ℤ (if gt x y then x else y)) × ((if gt x y then y else x) ≤ℤ (if gt x y then x else y))
ordered x y = ground arith

-- A pass leaves nothing above the largest item behind it.
largest_bounds : (x : ℤ) (r : List ℤ) → (x ≤ℤ largest x r) × All (λ y. y ≤ℤ largest x r) (front x r)
unfolding front largest
largest_bounds x [] = (omega arith, tt)
largest_bounds x (y ∷ r) =
    let o = ordered x y in
    let b = largest_bounds (if gt x y then x else y) r in
    (omega (arith, o.0, b.0), (omega (arith, o.1, b.0), b.1))

module _ {κ} (P : ℤ → Type κ) where
  All-front : (x : ℤ) (r : List ℤ) → P x → All P r → All P (front x r) × P (largest x r)
  unfolding front largest
  All-front x [] p h = (tt, p)
  All-front x (y ∷ r) p h = elim (Bool-cases (gt x y)) [
    | inl g ↦ let a = All-front x r p h.1 in rw g ((h.0, a.0), a.1)
    | inr g ↦ let a = All-front y r h.0 h.1 in rw g ((p, a.0), a.1)
  ]

front-perm : (x : ℤ) (r zs : List ℤ) → Perm (front x r ++ (largest x r ∷ zs)) (x ∷ (r ++ zs))
unfolding front largest
front-perm x [] zs = Perm.refl (x ∷ zs)
front-perm x (y ∷ r) zs = elim (Bool-cases (gt x y)) [
  | inl g ↦ rw g (Perm.trans (Perm.cons y (front-perm x r zs)) (Perm.swap x y (r ++ zs)))
  | inr g ↦ rw g (Perm.cons x (front-perm y r zs))
]

-- Between two rounds: the rear is sorted, and nothing in front of it is larger.
bubble_loop-Sorts :
    (k len i : ℕ) (ys zs : List ℤ)
    → length ys ≡ suc k
    → len ≡ suc (k + i)
    → IsSorted zs
    → All (λ y. All (λ z. y ≤ℤ z) zs) ys
    → Sorts (bubble_loop k len i (ys ++ zs)) (ys ++ zs)
unfolding bubble_loop
bubble_loop-Sorts k len i [] zs n m s b = absurd (omega (arith, n))
bubble_loop-Sorts zero len i (x ∷ []) zs n m s b = record {
  sorted = (b.0, s);
  same_items = Perm.refl (x ∷ zs);
}
bubble_loop-Sorts zero len i (x ∷ y ∷ r) zs n m s b = absurd (omega (arith, n))
bubble_loop-Sorts (suc k) len i (x ∷ r) zs n m s b =
    let rounds : len - 1 - i ≡ length r = omega (arith, n, m) in
    let pass : bubble_pass (len - 1 - i) 0 (x ∷ (r ++ zs)) ≡ front x r ++ (largest x r ∷ zs) =
      rw rounds (pass_lem [] r zs x) in
    let low = All-front (λ y. All (λ z. y ≤ℤ z) zs) x r b.0 b.1 in
    let above = largest_bounds x r in
    let rest =
      bubble_loop-Sorts k len (suc i) (front x r) (largest x r ∷ zs)
        (omega (arith, length-front x r, n)) (omega (arith, m)) (low.1, s)
        (All-both (λ y. y ≤ℤ largest x r) (λ y. All (λ z. y ≤ℤ z) zs) (front x r) above.1 low.0) in
    rw pass
      (record { sorted = rest.sorted; same_items = Perm.trans rest.same_items (front-perm x r zs) })

All-nil : (xs : List ℤ) → All (λ y. All (λ z. y ≤ℤ z) []) xs
All-nil [] = tt
All-nil (x ∷ xs) = (tt, All-nil xs)

-- bubbleSort of chapter_1/gdb/bubble.cpp leaves the items of the array in ascending order, each as
-- many times as it was there.
pub bubble_sort-Sorts : (array : List ℤ) → Sorts (bubble_sort array (length array)) array
unfolding bubble_sort bubble_loop
bubble_sort-Sorts [] = record { sorted = tt; same_items = Perm.nil }
bubble_sort-Sorts (x ∷ r) =
    let s =
      bubble_loop-Sorts (length r) (suc (length r)) 0 (x ∷ r) [] refl (omega arith) tt
        (All-nil (x ∷ r)) in
    let e : suc (length r) - 1 ≡ length r = omega arith in rw e (rw (append-nil) at s)
