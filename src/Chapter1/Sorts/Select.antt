-- ===== src/Chapter1/Sorts/Select.antt =====
-- selectSort sorts.
use mathlib.Core.List.Perm
use mathlib.Core.List.{Perm, append_assoc}
use nowcoder_linux_learning.Base.{
  ℕ, zero, suc, ◌+◌, ◌-◌, ◌≡◌, refl, ap, sym, ◌∙◌, Bool-cases, inl, inr, if◌then◌else◌, List, [],
  ◌∷◌, ◌++◌, length, length-append, set, arith,
}
use nowcoder_linux_learning.Base.Int.{ℤ, pos}
use nowcoder_linux_learning.Base.Sorted.{◌≤ℤ◌, All, Sorts, get_or-append, set-append}
use nowcoder_linux_learning.Chapter1.Sorts.{
  item, gt, swap_larger, select_pass, select_loop, select_sort,
}

-- What a pass brings to the front, and what it leaves behind.
smallest : ℤ → List ℤ → ℤ
smallest x [] = x
smallest x (y ∷ r) = smallest (if gt x y then y else x) r

others : ℤ → List ℤ → List ℤ
others x [] = []
others x (y ∷ r) = (if gt x y then x else y) ∷ others (if gt x y then y else x) r

swap_lem :
    (pre mid : List ℤ) (x y : ℤ) (r : List ℤ) (i : ℕ)
    → i ≡ length pre + suc (length mid)
    → swap_larger (pre ++ (x ∷ (mid ++ (y ∷ r)))) (length pre) i
      ≡ pre ++ ((if gt x y then y else x) ∷ (mid ++ ((if gt x y then x else y) ∷ r)))
unfolding swap_larger
swap_lem pre mid x y r i h =
    let z : length pre ≡ length pre + 0 = omega arith in
    let m : length mid ≡ length mid + 0 = omega arith in
    let l = x ∷ (mid ++ (y ∷ r)) in
    let a : item (pre ++ l) (length pre) ≡ x =
      ap (item (pre ++ l)) z ∙ get_or-append pre l 0 (pos 0) in
    let b : item (pre ++ l) i ≡ y =
      ap (item (pre ++ l)) h
      ∙ get_or-append pre l (suc (length mid)) (pos 0)
      ∙ ap (item (mid ++ (y ∷ r))) m
      ∙ get_or-append mid (y ∷ r) 0 (pos 0) in
    let s : set (pre ++ l) (length pre) y ≡ pre ++ (y ∷ (mid ++ (y ∷ r))) =
      ap (λ k. set (pre ++ l) k y) z ∙ set-append pre l 0 y in
    let t : set (pre ++ (y ∷ (mid ++ (y ∷ r)))) i x ≡ pre ++ (y ∷ (mid ++ (x ∷ r))) =
      ap (λ k. set (pre ++ (y ∷ (mid ++ (y ∷ r)))) k x) h
      ∙ set-append pre (y ∷ (mid ++ (y ∷ r))) (suc (length mid)) x
      ∙ ap (λ w. pre ++ (y ∷ w))
          (ap (λ k. set (mid ++ (y ∷ r)) k x) m ∙ set-append mid (y ∷ r) 0 x) in
    elim (Bool-cases (gt x y)) [ inl g ↦ rw (a, b, g, s, t) | inr g ↦ rw (a, b, g) ]

pass_lem :
    (pre mid r : List ℤ) (x : ℤ) (i : ℕ)
    → i ≡ length pre + suc (length mid)
    → select_pass (length r) (length pre) i (pre ++ (x ∷ (mid ++ r)))
      ≡ pre ++ (smallest x r ∷ (mid ++ others x r))
unfolding select_pass smallest others
pass_lem pre mid [] x i h = refl
pass_lem pre mid (y ∷ r) x i h =
    let hi = if gt x y then x else y in
    let lo = if gt x y then y else x in
    let e : mid ++ (hi ∷ r) ≡ (mid ++ (hi ∷ [])) ++ r = sym (append_assoc mid (hi ∷ []) r) in
    ap (select_pass (length r) (length pre) (suc i)) (swap_lem pre mid x y r i h)
    ∙ ap (λ w. select_pass (length r) (length pre) (suc i) (pre ++ (lo ∷ w))) e
    ∙ pass_lem pre (mid ++ (hi ∷ [])) r lo (suc i) (omega (arith, h, length-append mid (hi ∷ [])))
    ∙ ap (λ w. pre ++ (smallest lo r ∷ w)) (append_assoc mid (hi ∷ []) (others lo r))

length-others : (x : ℤ) (r : List ℤ) → length (others x r) ≡ length r
unfolding others
length-others x [] = refl
length-others x (y ∷ r) = ap suc (length-others (if gt x y then y else x) r)

ordered :
    (x y : ℤ)
    → ((if gt x y then y else x) ≤ℤ x) × ((if gt x y then y else x) ≤ℤ (if gt x y then x else y))
ordered x y = ground arith

smallest_bounds :
    (x : ℤ) (r : List ℤ) → (smallest x r ≤ℤ x) × All (λ y. smallest x r ≤ℤ y) (others x r)
unfolding smallest others
smallest_bounds x [] = (omega arith, tt)
smallest_bounds x (y ∷ r) =
    let o = ordered x y in
    let b = smallest_bounds (if gt x y then y else x) r in
    (omega (arith, o.0, b.0), (omega (arith, o.1, b.0), b.1))

others-perm : (x : ℤ) (r : List ℤ) → Perm (smallest x r ∷ others x r) (x ∷ r)
unfolding smallest others
others-perm x [] = Perm.refl (x ∷ [])
others-perm x (y ∷ r) = elim (Bool-cases (gt x y)) [
  | inl g ↦
      rw g (Perm.trans (Perm.swap x (smallest y r) (others y r)) (Perm.cons x (others-perm y r)))
  | inr g ↦ rw g (
      Perm.trans (Perm.swap y (smallest x r) (others x r))
        (Perm.trans (Perm.cons y (others-perm x r)) (Perm.swap x y r)))
]

-- A bound from below is one of the items, in any order.
All-others :
    (m x : ℤ) (r : List ℤ)
    → m ≤ℤ x
    → All (λ y. m ≤ℤ y) r
    → (m ≤ℤ smallest x r) × All (λ y. m ≤ℤ y) (others x r)
unfolding smallest others
All-others m x [] h k = (h, tt)
All-others m x (y ∷ r) h k =
    let lo : m ≤ℤ (if gt x y then y else x) = ground (arith, h, k.0) in
    let hi : m ≤ℤ (if gt x y then x else y) = ground (arith, h, k.0) in
    let a = All-others m (if gt x y then y else x) r lo k.1 in (a.0, (hi, a.1))

-- The rear of the array once the loop is done.
record Rear (ws : List ℤ) (before after : List ℤ) : Type 0 where
  out : List ℤ
  behind : after ≡ before ++ out
  sorts : Sorts out ws
  keeps : (m : ℤ) → All (λ y. m ≤ℤ y) ws → All (λ y. m ≤ℤ y) out

select_loop-Rear :
    (k len : ℕ) (ys ws : List ℤ)
    → length ws ≡ suc k
    → len ≡ length ys + length ws
    → Rear ws ys (select_loop k len (length ys) (ys ++ ws))
unfolding select_loop
select_loop-Rear k len ys [] n m = absurd (omega (arith, n))
select_loop-Rear zero len ys (x ∷ []) n m = record {
  out = x ∷ [];
  behind = refl;
  sorts = record { sorted = (tt, tt); same_items = Perm.refl (x ∷ []) };
  keeps = λ b h. h;
}
select_loop-Rear zero len ys (x ∷ y ∷ r) n m = absurd (omega (arith, n))
select_loop-Rear (suc k) len ys (x ∷ r) n m =
    let rounds : len - (length ys + 1) ≡ length r = omega (arith, n, m) in
    let low = smallest x r in
    let next = ys ++ (low ∷ []) in
    let j : length next ≡ suc (length ys) = omega (arith, length-append ys (low ∷ [])) in
    let pass : select_pass (len - (length ys + 1)) (length ys) (length ys + 1) (ys ++ (x ∷ r))
        ≡ next ++ others x r =
      ap (λ c. select_pass c (length ys) (length ys + 1) (ys ++ (x ∷ r))) rounds
      ∙ pass_lem ys [] r x (length ys + 1) (omega arith)
      ∙ sym (append_assoc ys (low ∷ []) (others x r)) in
    let rest =
      select_loop-Rear k len next (others x r) (omega (arith, length-others x r, n))
        (omega (arith, length-others x r, m, j)) in
    let b = smallest_bounds x r in
    record {
      out = low ∷ rest.out;
      behind = rw pass (rw (← j) (rest.behind ∙ append_assoc ys (low ∷ []) rest.out));
      sorts = record {
        sorted = (rest.keeps low b.1, rest.sorts.sorted);
        same_items = Perm.trans (Perm.cons low rest.sorts.same_items) (others-perm x r);
      };
      keeps = λ b h. let a = All-others b x r h.0 h.1 in (a.0, rest.keeps b a.1);
    }

-- selectSort of chapter_1/gdb/select.cpp leaves the items of the array in ascending order, each as
-- many times as it was there.
pub select_sort-Sorts : (array : List ℤ) → Sorts (select_sort array (length array)) array
unfolding select_sort select_loop
select_sort-Sorts [] = record { sorted = tt; same_items = Perm.nil }
select_sort-Sorts (x ∷ r) =
    let s = select_loop-Rear (length r) (suc (length r)) [] (x ∷ r) refl (omega arith) in
    let e : suc (length r) - 1 ≡ length r = omega arith in rw e (rw s.behind s.sorts)
