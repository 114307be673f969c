-- ===== src/Chapter1/CopyFile/Tail.antt =====
-- What the copy holds.
use mathlib.Core.List.{append-nil, append_assoc}
use nowcoder_linux_learning.Base.{
  ℕ, suc, ◌+◌, ◌≡◌, refl, ap, sym, none, some, List, [], ◌∷◌, ◌++◌, length, length-append, take,
  drop, arith,
}
use nowcoder_linux_learning.CString.{Bytes}
use nowcoder_linux_learning.CString.Words.{drop-drop}
use nowcoder_linux_learning.Chapter1.CopyFile.{
  Target, Pass, pass, open_target, written_of, write_some, copy_loop, copy_file,
}

-- What has been copied, and the old bytes behind it.
Written : Bytes → Bytes → Target → Type 0
Written done old t = (t.content ≡ done ++ drop (length done) old) × (t.at ≡ length done)

take-length : (a b : Bytes) → take (length a) (a ++ b) ≡ a
take-length [] b = refl
take-length (x ∷ a) b = ap (◌∷◌ x) (take-length a b)

drop_behind : (a b : Bytes) (n : ℕ) → drop (length a + n) (a ++ b) ≡ drop n b
drop_behind [] b n = let e : 0 + n ≡ n = omega arith in rw e refl
drop_behind (x ∷ a) b n =
    let e : suc (length a) + n ≡ suc (length a + n) = omega arith in rw e (drop_behind a b n)

write_some-Written :
    (done old bs : Bytes) (t : Target)
    → Written done old t
    → Written (done ++ bs) old (write_some t bs)
unfolding write_some Written
write_some-Written done old bs t (c, i) = (
  rw
      (
        c,
        i,
        take-length done (drop (length done) old),
        drop_behind done (drop (length done) old) (length bs),
        ← drop-drop old (length done) (length bs),
        ← length-append done bs,
      )
      (sym (append_assoc done bs (drop (length (done ++ bs)) old))),
  rw (i, length-append done bs) refl,
)

-- What the calls of `write` take, up to the end of the source or an error of `read`.
abbrev pub taken : List Pass → Bytes
taken [] = []
taken (pass none n ∷ passes) = []
taken (pass (some []) n ∷ passes) = []
taken (pass (some (b ∷ bs)) n ∷ passes) = written_of (b ∷ bs) n ++ taken passes

copy_loop-Written :
    (passes : List Pass) (done old : Bytes) (t : Target)
    → Written done old t
    → Written (done ++ taken passes) old (copy_loop passes t)
unfolding copy_loop
copy_loop-Written [] done old t w = rw append-nil w
copy_loop-Written (pass none n ∷ passes) done old t w = rw append-nil w
copy_loop-Written (pass (some []) n ∷ passes) done old t w = rw append-nil w
copy_loop-Written (pass (some (b ∷ bs)) n ∷ passes) done old t w =
    let now = written_of (b ∷ bs) n in
    rw (← append_assoc done now (taken passes)) (
      copy_loop-Written passes (done ++ now) old (write_some t now)
        (write_some-Written done old now t w))

-- copyfile.cpp, where b.txt is there already, leaves in it the bytes that the calls of write have
-- taken, up to the end of the source or an error of read, one behind the other, and behind them the
-- bytes that b.txt held from that length on: what a short or failed write leaves out is not written
-- again.
pub copy_file-taken :
    (passes : List Pass) (old : Bytes)
    → copy_file passes (some old) ≡ taken passes ++ drop (length (taken passes)) old
unfolding copy_file Written
copy_file-taken passes old =
    (copy_loop-Written passes [] old (open_target (some old)) (refl, refl)).0
