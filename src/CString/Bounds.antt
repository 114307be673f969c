-- ===== src/CString/Bounds.antt =====
-- How far the string functions reach: never past the first NUL.
use nowcoder_linux_learning.Base.{
  ℕ, zero, suc, ◌+◌, ◌≤◌, ◌<◌, ◌≡◌, refl, Bool, true, some, Option-cases, [], ◌∷◌, inl, inr,
  Bool-cases, length, take, overwrite, arith,
}
use nowcoder_linux_learning.CString.{
  Bytes, byte, until_nul, c_string, strpbrk, strspn, strcasecmp, strncasecmp,
}

until_nul-overwrite :
    (buf bs : Bytes) (n z : ℕ)
    → z < n
    → byte buf z ≡ 0
    → until_nul (overwrite buf n bs) ≡ until_nul buf
unfolding until_nul
until_nul-overwrite [] bs n z h e = refl
until_nul-overwrite (x ∷ buf) bs zero z h e = absurd (omega arith)
until_nul-overwrite (x ∷ buf) bs (suc n) zero h e = ground arith
until_nul-overwrite (x ∷ buf) bs (suc n) (suc z) h e =
    rw (until_nul-overwrite buf bs n z (omega arith) e)

-- A string with its NUL below `n` is not touched by bytes written from `n` on.
pub c_string-overwrite :
    (buf bs : Bytes) (n off z : ℕ)
    → off ≤ z
    → z < n
    → byte buf z ≡ 0
    → c_string (overwrite buf n bs) off ≡ c_string buf off
unfolding c_string
c_string-overwrite buf bs n zero z l h e = until_nul-overwrite buf bs n z h e
c_string-overwrite [] bs n (suc off) z l h e = refl
c_string-overwrite (x ∷ buf) bs zero (suc off) z l h e = absurd (omega arith)
c_string-overwrite (x ∷ buf) bs (suc n) (suc off) zero l h e = absurd (omega arith)
c_string-overwrite (x ∷ buf) bs (suc n) (suc off) (suc z) l h e =
    c_string-overwrite buf bs n off z (omega arith) (omega arith) e

length-until_nul-le : (buf : Bytes) (z : ℕ) → byte buf z ≡ 0 → length (until_nul buf) ≤ z
unfolding until_nul
length-until_nul-le [] z e = omega arith
length-until_nul-le (x ∷ buf) zero e = ground arith
length-until_nul-le (x ∷ buf) (suc z) e = ground (arith, length-until_nul-le buf z e)

pub length-c_string-le :
    (buf : Bytes) (off z : ℕ) → off ≤ z → byte buf z ≡ 0 → off + length (c_string buf off) ≤ z
unfolding c_string
length-c_string-le buf zero z l e = omega (arith, length-until_nul-le buf z e)
length-c_string-le [] (suc off) z l e = unfold until_nul in omega arith
length-c_string-le (x ∷ buf) (suc off) zero l e = absurd (omega arith)
length-c_string-le (x ∷ buf) (suc off) (suc z) l e =
    omega (arith, length-c_string-le buf off z (omega arith) e)

pub strpbrk-lt : (accept : ℕ → Bool) (s : Bytes) (n : ℕ) → strpbrk accept s ≡ some n → n < length s
unfolding strpbrk
strpbrk-lt accept [] n e = cc
strpbrk-lt accept (c ∷ s) n e = elim (Bool-cases (accept c)) [
  | inl a ↦ ground arith
  | inr a ↦ elim (Option-cases (strpbrk accept s)) [
    | inl h ↦ ground arith
    | inr (k, h) ↦ ground (arith, strpbrk-lt accept s k h)
  ]
]

pub strspn-le : (accept : ℕ → Bool) (s : Bytes) → strspn accept s ≤ length s
unfolding strspn
strspn-le accept [] = omega arith
strspn-le accept (c ∷ s) = ground (arith, strspn-le accept s)

strcasecmp-length : (s t : Bytes) → strcasecmp s t ≡ true → length s ≡ length t
unfolding strcasecmp
strcasecmp-length [] [] e = refl
strcasecmp-length (c ∷ s) [] e = cc
strcasecmp-length [] (d ∷ t) e = cc
strcasecmp-length (c ∷ s) (d ∷ t) e = ground (arith, strcasecmp-length s t)

length-take-le : (n : ℕ) (s : Bytes) → length (take n s) ≤ length s
length-take-le zero s = omega arith
length-take-le (suc n) [] = omega arith
length-take-le (suc n) (x ∷ s) = omega (arith, length-take-le n s)

-- A string that begins with `t` is as long as `t` at least.
pub strncasecmp-le : (s t : Bytes) (n : ℕ) → strncasecmp s t n ≡ true → length (take n t) ≤ length s
unfolding strncasecmp
strncasecmp-le s t n e =
    omega (arith, strcasecmp-length (take n s) (take n t) e, length-take-le n s)
