-- ===== src/Chapter1/Perms.antt =====
-- chapter_1/fileIO/ls_l.cpp: the string for the type and the permissions of a file.
pub mod RoundTrip
use nowcoder_linux_learning.Base.{ℕ, ◌/◌, ◌%◌, ◌==◌, if◌then◌else◌, List, [], ◌∷◌, arith}
use nowcoder_linux_learning.CString.{Bytes}

-- The `switch` over `st.st_mode & S_IFMT`.
unfoldable pub type_char : ℕ → ℕ
type_char mode =
    let t = mode / 0o10000 % 16 in
    if t == 10
    then b'l'
    else if t == 4
    then b'd'
    else if t == 8
    then b'-'
    else if t == 6
    then b'b'
    else if t == 2
    then b'c'
    else if t == 12
    then b's'
    else if t == 1
    then b'p'
    else b'?'

-- `(st.st_mode & bit) ? c : '-'`, where the bit is a power of two.
abbrev pub perm_char : ℕ → ℕ → ℕ → ℕ
perm_char mode bit c = if mode / bit % 2 == 1 then c else b'-'

unfoldable pub perms : ℕ → Bytes
unfolding type_char
perms mode =
    type_char mode
    ∷ perm_char mode 0o400 b'r'
    ∷ perm_char mode 0o200 b'w'
    ∷ perm_char mode 0o100 b'x'
    ∷ perm_char mode 0o40 b'r'
    ∷ perm_char mode 0o20 b'w'
    ∷ perm_char mode 0o10 b'x'
    ∷ perm_char mode 0o4 b'r'
    ∷ perm_char mode 0o2 b'w'
    ∷ perm_char mode 0o1 b'x'
    ∷ []
