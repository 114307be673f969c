-- ===== src/Chapter1/Tests.antt =====
-- The sorts on the arrays of chapter_1/gdb/main.cpp.
use nowcoder_linux_learning.Base.{◌≡◌, ◌%◌, List, [], ◌∷◌, some, none}
use nowcoder_linux_learning.CString.{codes}
use nowcoder_linux_learning.Chapter1.Perms.{perms}
use nowcoder_linux_learning.Chapter1.Perms.RoundTrip.{read_perms, read_perms-perms}
use nowcoder_linux_learning.Chapter1.CopyFile.{Pass, pass, copy_file}
use nowcoder_linux_learning.Chapter1.CopyFile.Tail.{copy_file-taken}
use nowcoder_linux_learning.Base.Int.{ℤ, pos}
use nowcoder_linux_learning.Base.Sorted.{Sorts}
use nowcoder_linux_learning.Chapter1.Sorts.{bubble_sort, select_sort}
use nowcoder_linux_learning.Chapter1.Sorts.Bubble.{bubble_sort-Sorts}
use nowcoder_linux_learning.Chapter1.Sorts.Agreement.{bubble_sort-eq-select_sort}

abbrev first_array : List ℤ
first_array = pos 12 ∷ pos 27 ∷ pos 55 ∷ pos 22 ∷ pos 67 ∷ []

abbrev second_array : List ℤ
second_array = pos 25 ∷ pos 47 ∷ pos 36 ∷ pos 80 ∷ pos 11 ∷ []

bubble_sort-Sorts_example : Sorts (bubble_sort first_array 5) first_array
bubble_sort-Sorts_example = bubble_sort-Sorts first_array

bubble_sort-eq-select_sort_example : bubble_sort first_array 5 ≡ select_sort first_array 5
bubble_sort-eq-select_sort_example = bubble_sort-eq-select_sort first_array

read_perms-perms_example : read_perms (perms 0o100644) ≡ 0o100644 % 512
read_perms-perms_example = read_perms-perms 0o100644

-- A file that is longer than the one that is copied over it, and a second write that is short.
abbrev short_passes : List Pass
short_passes =
    pass (some (codes "abc")) (some 3)
    ∷ pass (some (codes "def")) (some 1)
    ∷ pass (some (codes "gh")) (some 2)
    ∷ pass (some []) none
    ∷ []

copy_file-taken_example : copy_file short_passes (some (codes "0123456789")) ≡ codes "abcdgh6789"
copy_file-taken_example = copy_file-taken short_passes (codes "0123456789")
