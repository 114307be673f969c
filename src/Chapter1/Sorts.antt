-- ===== src/Chapter1/Sorts.antt =====
-- chapter_1/gdb/bubble.cpp and select.cpp: two sorts of an array of `int`. A loop recurses on the
-- rounds that are left.
pub mod Bubble
pub mod Select
pub mod Agreement
use nowcoder_linux_learning.Base.{
  ℕ, zero, suc, ◌+◌, ◌-◌, Bool, ltb, if◌then◌else◌, List, set, get_or, length,
}
use nowcoder_linux_learning.Base.Int.{ℤ, pos, pos_part, neg_part}

abbrev pub item : List ℤ → ℕ → ℤ
item array i = get_or array i (pos 0)

-- `a > b`
abbrev pub gt : ℤ → ℤ → Bool
gt a b = ltb (pos_part b + neg_part a) (pos_part a + neg_part b)

-- The body of the inner loops: the items at two places are swapped, if the one in front is larger.
unfoldable pub swap_larger : List ℤ → ℕ → ℕ → List ℤ
swap_larger array a b =
    if gt (item array a) (item array b)
    then set (set array a (item array b)) b (item array a)
    else array

-- `for (j …)` of bubbleSort, from `j` on.
unfoldable pub bubble_pass : ℕ → ℕ → List ℤ → List ℤ
unfolding swap_larger
bubble_pass zero j array = array
bubble_pass (suc k) j array = bubble_pass k (suc j) (swap_larger array j (j + 1))

-- `for (i …)`, from `i` on.
unfoldable pub bubble_loop : ℕ → ℕ → ℕ → List ℤ → List ℤ
unfolding bubble_pass
bubble_loop zero len i array = array
bubble_loop (suc k) len i array = bubble_loop k len (suc i) (bubble_pass (len - 1 - i) 0 array)

unfoldable pub bubble_sort : List ℤ → ℕ → List ℤ
unfolding bubble_loop
bubble_sort array len = bubble_loop (len - 1) len 0 array

-- `for (i …)` of selectSort, from `i` on.
unfoldable pub select_pass : ℕ → ℕ → ℕ → List ℤ → List ℤ
unfolding swap_larger
select_pass zero j i array = array
select_pass (suc k) j i array = select_pass k j (suc i) (swap_larger array j i)

-- `for (j …)`, from `j` on.
unfoldable pub select_loop : ℕ → ℕ → ℕ → List ℤ → List ℤ
unfolding select_pass
select_loop zero len j array = array
select_loop (suc k) len j array =
    select_loop k len (suc j) (select_pass (len - (j + 1)) j (j + 1) array)

unfoldable pub select_sort : List ℤ → ℕ → List ℤ
unfolding select_loop
select_sort array len = select_loop (len - 1) len 0 array
