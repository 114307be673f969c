-- ===== src/Chapter1/Perms/RoundTrip.antt =====
-- The string can be read back.
use nowcoder_linux_learning.Base.{
  ℕ, ◌+◌, ◌*◌, ◌/◌, ◌%◌, ◌≡◌, refl, false, ◌==◌, if◌then◌else◌, [], ◌∷◌, arith,
}
use nowcoder_linux_learning.CString.{Bytes}
use nowcoder_linux_learning.Chapter1.Perms.{perm_char, perms}

-- A number that is written in octal by such a string, first character first: a dash is 0.
abbrev pub read_bits : ℕ → Bytes → ℕ
read_bits n [] = n
read_bits n (c ∷ rest) = read_bits (2 * n + (if c == b'-' then 0 else 1)) rest

abbrev pub read_perms : Bytes → ℕ
read_perms [] = 0
read_perms (c ∷ rest) = read_bits 0 rest

bit :
    (mode b c : ℕ)
    → (c == b'-') ≡ false
    → (if perm_char mode b c == b'-' then 0 else 1) ≡ mode / b % 2
bit mode b c h = ground (arith, h)

nine_bits :
    (m : ℕ)
    → m % 512
      ≡ 256 * (m / 256 % 2)
        + 128 * (m / 128 % 2)
        + 64 * (m / 64 % 2)
        + 32 * (m / 32 % 2)
        + 16 * (m / 16 % 2)
        + 8 * (m / 8 % 2)
        + 4 * (m / 4 % 2)
        + 2 * (m / 2 % 2)
        + m / 1 % 2
nine_bits m = omega arith

-- The nine characters that ls_l.cpp prints behind the type of a file, read as a binary number in
-- which a dash is 0, give the nine lowest bits of its mode.
pub read_perms-perms : (mode : ℕ) → read_perms (perms mode) ≡ mode % 512
unfolding perms
read_perms-perms m = omega (
  arith,
  bit m 0o400 b'r' refl,
  bit m 0o200 b'w' refl,
  bit m 0o100 b'x' refl,
  bit m 0o40 b'r' refl,
  bit m 0o20 b'w' refl,
  bit m 0o10 b'x' refl,
  bit m 0o4 b'r' refl,
  bit m 0o2 b'w' refl,
  bit m 0o1 b'x' refl,
  nine_bits m,
)
