-- ===== src/Chapter1/Sorts/Agreement.antt =====
-- A list has one ascending order, so the two sorts agree.
use mathlib.Core.Logic.Or
use mathlib.Core.List.Perm
use mathlib.Core.List.{Perm, Mem, mem-cons, mem-cons_self, not-mem-nil}
use native.Mathlib.Bridge.{le_prop}
use nowcoder_linux_learning.Base.{◌≡◌, List, [], ◌∷◌, length, arith}
use nowcoder_linux_learning.Base.Int.{ℤ}
use nowcoder_linux_learning.Base.Sorted.{◌≤ℤ◌, All, IsSorted}
use nowcoder_linux_learning.Chapter1.Sorts.{bubble_sort, select_sort}
use nowcoder_linux_learning.Chapter1.Sorts.Bubble.{bubble_sort-Sorts}
use nowcoder_linux_learning.Chapter1.Sorts.Select.{select_sort-Sorts}

le_of_mem : (x a : ℤ) (xs : List ℤ) → All (λ y. x ≤ℤ y) xs → Mem a xs → x ≤ℤ a
le_of_mem x a [] h m = absurd (not-mem-nil m)
le_of_mem x a (y ∷ r) h m = Or.elim le_prop (mem-cons.0 m) (λ e. rw e h.0) (le_of_mem x a r h.1)

le_antisymm : (a b : ℤ) → a ≤ℤ b → b ≤ℤ a → a ≡ b
le_antisymm a b h k = ground arith

le_head : (x y : ℤ) (r s : List ℤ) → IsSorted (x ∷ r) → Perm (x ∷ r) (y ∷ s) → x ≤ℤ y
le_head x y r s h p = le_of_mem x y (x ∷ r) (omega arith, h.0) ((Perm.mem_iff p).1 mem-cons_self)

IsSorted-unique : (xs ys : List ℤ) → IsSorted xs → IsSorted ys → Perm xs ys → xs ≡ ys
IsSorted-unique [] ys h k p = Perm.nil-eq p
IsSorted-unique (x ∷ r) [] h k p = Perm.eq-nil p
IsSorted-unique (x ∷ r) (y ∷ s) h k p =
    let e : x ≡ y = le_antisymm x y (le_head x y r s h p) (le_head y x s r k (Perm.symm p)) in
    let rest = IsSorted-unique r s h.1 k.1 (Perm.cons_inv (rw (← e) at p)) in rw (e, rest)

-- bubbleSort and selectSort of chapter_1/gdb leave the same array.
pub bubble_sort-eq-select_sort :
    (array : List ℤ) → bubble_sort array (length array) ≡ select_sort array (length array)
bubble_sort-eq-select_sort array =
    let b = bubble_sort-Sorts array in
    let s = select_sort-Sorts array in
    IsSorted-unique (bubble_sort array (length array)) (select_sort array (length array)) b.sorted
      s.sorted (Perm.trans b.same_items (Perm.symm s.same_items))
