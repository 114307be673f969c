-- ===== src/Chapter1/CopyFile.antt =====
-- chapter_1/fileIO/copyfile.cpp: the loop that copies a.txt over b.txt. What each call of `read`
-- and of `write` returns is an argument.
pub mod Tail
use nowcoder_linux_learning.Base.{
  ℕ, zero, suc, ◌+◌, Bool, true, false, ◌==◌, if◌then◌else◌, Option, none, some, List, [], ◌∷◌,
  ◌++◌, length, take, drop, overwrite,
}
use nowcoder_linux_learning.CString.{Bytes}

-- The file behind a descriptor, and the place where the next byte goes.
pub record Target : Type 0 where
  pub content : Bytes
  pub at : ℕ

-- `open` with O_WRONLY and O_CREAT: what a file held that is there already stays.
abbrev pub open_target : Option Bytes → Target
open_target none = record { content = []; at = 0 }
open_target (some old) = record { content = old; at = 0 }

-- One pass of the loop: what `read` returns, and what `write` then returns; `none` for -1.
pub data Pass : Type 0 where
  pass : Option Bytes → Option ℕ → Pass

-- The bytes that `write` takes of those it is given: as many as it returns, and none for -1.
abbrev pub written_of : Bytes → Option ℕ → Bytes
written_of bs none = []
written_of bs (some n) = take n bs

-- The bytes that `write` takes go to the place of the descriptor, over what is there.
unfoldable pub write_some : Target → Bytes → Target
write_some t bs = record {
  content = take t.at t.content ++ (bs ++ drop (t.at + length bs) t.content);
  at = t.at + length bs;
}

-- The `while` loop, which does not look at what `write` returns. Bytes of no length are the end of
-- the file.
unfoldable pub copy_loop : List Pass → Target → Target
unfolding write_some
copy_loop [] t = t
copy_loop (pass none n ∷ passes) t = t
copy_loop (pass (some []) n ∷ passes) t = t
copy_loop (pass (some (b ∷ bs)) n ∷ passes) t =
    copy_loop passes (write_some t (written_of (b ∷ bs) n))

unfoldable pub copy_file : List Pass → Option Bytes → Bytes
unfolding copy_loop
copy_file passes old = (copy_loop passes (open_target old)).content
