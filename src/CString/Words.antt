-- ===== src/CString/Words.antt =====
-- The string functions on a buffer that holds words, seen from an offset on.
use nowcoder_linux_learning.Base.{
  ℕ, zero, suc, Bool-cases, inl, inr, take, overwrite, replicate, ◌+◌, ◌≡◌, refl, ap, ◌∙◌, ==_true,
  true, false, ◌==◌, some, [], ◌∷◌, ◌++◌, length, drop, set, arith,
}
use mathlib.Core.List.{append-nil}
use native.Mathlib.Nat.{add-zero}
use nowcoder_linux_learning.CString.{Bytes, byte, is_blank, until_nul, c_string, strpbrk, strspn}

-- Neither a NUL nor a blank.
abbrev pub IsWord : Bytes → Type 0
IsWord [] = Unit {0}
IsWord (c ∷ s) = (is_blank c ≡ false) × ((c == 0) ≡ false) × IsWord s

pub drop-drop : (buf : Bytes) (i n : ℕ) → drop (i + n) buf ≡ drop n (drop i buf)
drop-drop buf zero n = let e : 0 + n ≡ n = omega arith in rw e
drop-drop [] (suc i) zero = rw add-zero
drop-drop [] (suc i) (suc n) = let e : suc i + suc n ≡ suc (i + suc n) = omega arith in rw e
drop-drop (x ∷ buf) (suc i) n =
    let e : suc i + n ≡ suc (i + n) = omega arith in rw e (drop-drop buf i n)

pub drop-set : (buf : Bytes) (i n v : ℕ) → drop i (set buf (i + n) v) ≡ set (drop i buf) n v
drop-set buf zero n v = let e : 0 + n ≡ n = omega arith in rw e
drop-set [] (suc i) n v = refl
drop-set (x ∷ buf) (suc i) n v =
    let e : suc i + n ≡ suc (i + n) = omega arith in rw e (drop-set buf i n v)

pub byte-drop : (buf : Bytes) (i : ℕ) (c : ℕ) (s : Bytes) → drop i buf ≡ c ∷ s → byte buf i ≡ c
byte-drop buf zero c s e = rw e
byte-drop [] (suc i) c s e = absurd cc
byte-drop (x ∷ buf) (suc i) c s e = byte-drop buf i c s e

pub drop_past : (w : Bytes) (c : ℕ) (s : Bytes) → drop (length w + 1) (w ++ (c ∷ s)) ≡ s
drop_past [] c s = refl
drop_past (x ∷ w) c s =
    let e : suc (length w) + 1 ≡ suc (length w + 1) = omega arith in rw e (drop_past w c s)

pub set_behind :
    (w : Bytes) (c : ℕ) (s : Bytes) (v : ℕ) → set (w ++ (c ∷ s)) (length w) v ≡ w ++ (v ∷ s)
set_behind [] c s v = refl
set_behind (x ∷ w) c s v = ap (◌∷◌ x) (set_behind w c s v)

pub until_nul-word : (w : Bytes) (s : Bytes) → IsWord w → until_nul (w ++ s) ≡ w ++ until_nul s
unfolding until_nul
until_nul-word [] s h = refl
until_nul-word (x ∷ w) s h = rw h.1 (ap (◌∷◌ x) (until_nul-word w s h.2))

pub strpbrk-word :
    (w : Bytes) (c : ℕ) (s : Bytes)
    → IsWord w
    → is_blank c ≡ true
    → strpbrk is_blank (w ++ (c ∷ s)) ≡ some (length w)
unfolding strpbrk
strpbrk-word [] c s h b = rw b
strpbrk-word (x ∷ w) c s h b = rw (h.0, strpbrk-word w c s h.2 b)

pub strspn-word : (x : ℕ) (w s : Bytes) → IsWord (x ∷ w) → strspn is_blank ((x ∷ w) ++ s) ≡ 0
unfolding strspn
strspn-word x w s h = rw h.0

-- What stands from an offset on ends in a word with a NUL behind it.
pub c_string-word :
    (buf : Bytes) (off : ℕ) (w s : Bytes)
    → IsWord w
    → drop off buf ≡ w ++ (0 ∷ s)
    → c_string buf off ≡ w
unfolding c_string until_nul
c_string-word buf off w s h e = rw (e, until_nul-word w (0 ∷ s) h) (append-nil w)

-- Or it begins with a word and a blank.
pub c_string_blank :
    (buf : Bytes) (off : ℕ) (w : Bytes) (s : Bytes)
    → IsWord w
    → drop off buf ≡ w ++ (b' ' ∷ s)
    → c_string buf off ≡ w ++ (b' ' ∷ until_nul s)
unfolding c_string until_nul
c_string_blank buf off w s h e = rw (e, until_nul-word w (b' ' ∷ s) h)

pub strspn-IsWord : (w : Bytes) → IsWord w → strspn is_blank w ≡ 0
unfolding strspn
strspn-IsWord [] h = refl
strspn-IsWord (x ∷ w) h = rw h.0

abbrev pub HasNoNul : Bytes → Type 0
HasNoNul [] = Unit {0}
HasNoNul (c ∷ s) = ((c == 0) ≡ false) × HasNoNul s

until_nul-HasNoNul : (s : Bytes) → HasNoNul (until_nul s)
unfolding until_nul
until_nul-HasNoNul [] = tt
until_nul-HasNoNul (c ∷ s) = elim (Bool-cases (c == 0)) [
  | inl e ↦ rw e tt
  | inr e ↦ rw e (e, until_nul-HasNoNul s)
]

pub c_string-HasNoNul : (buf : Bytes) (off : ℕ) → HasNoNul (c_string buf off)
unfolding c_string
c_string-HasNoNul buf off = until_nul-HasNoNul (drop off buf)

filled_nul : (k m : ℕ) → until_nul (overwrite (replicate (suc k) 0) 0 (replicate m 0)) ≡ []
unfolding until_nul
filled_nul k zero = refl
filled_nul k (suc m) = refl

-- A string that `strncpy` copies to a place that was cleared, with a byte to spare, is cut off at
-- the room for it.
pub until_nul_filled :
    (k m : ℕ) (s : Bytes)
    → HasNoNul s
    → until_nul (overwrite (replicate (suc k) 0) 0 (take k s ++ replicate m 0)) ≡ take k s
unfolding until_nul
until_nul_filled zero m s h = filled_nul zero m
until_nul_filled (suc k) m [] h = filled_nul (suc k) m
until_nul_filled (suc k) m (x ∷ s) h = rw h.0 (ap (◌∷◌ x) (until_nul_filled k m s h.1))

-- The string at the start of a cleared place that follows a text.
pub c_string_behind :
    (w : Bytes) (k m : ℕ) (s : Bytes)
    → HasNoNul w
    → HasNoNul s
    → c_string (w ++ overwrite (replicate (suc k) 0) 0 (take k s ++ replicate m 0)) 0
      ≡ w ++ take k s
unfolding c_string until_nul
c_string_behind [] k m s h n = until_nul_filled k m s n
c_string_behind (x ∷ w) k m s h n = rw h.0 (ap (◌∷◌ x) (c_string_behind w k m s h.1 n))

until_nul_ended : (w s : Bytes) → HasNoNul w → until_nul (w ++ (0 ∷ s)) ≡ w
unfolding until_nul
until_nul_ended [] s h = refl
until_nul_ended (x ∷ w) s h = rw h.0 (ap (◌∷◌ x) (until_nul_ended w s h.1))

-- The string that a NUL ends.
pub c_string_ended :
    (buf : Bytes) (off : ℕ) (w s : Bytes)
    → HasNoNul w
    → drop off buf ≡ w ++ (0 ∷ s)
    → c_string buf off ≡ w
unfolding c_string
c_string_ended buf off w s h e = ap until_nul e ∙ until_nul_ended w s h

until_nul_end : (s : Bytes) → byte s (length (until_nul s)) ≡ 0
unfolding until_nul
until_nul_end [] = refl
until_nul_end (x ∷ s) = elim (Bool-cases (x == 0)) [
  | inl e ↦ rw e (==_true x 0 e)
  | inr e ↦ rw e (until_nul_end s)
]

-- Behind a string stands a NUL.
pub c_string_end : (buf : Bytes) (off : ℕ) → byte buf (off + length (c_string buf off)) ≡ 0
unfolding c_string
c_string_end buf zero =
    let e = until_nul_end buf in
    let z : 0 + length (until_nul buf) ≡ length (until_nul buf) = omega arith in rw z e
c_string_end [] (suc off) = refl
c_string_end (x ∷ buf) (suc off) =
    let z : suc off + length (until_nul (drop off buf))
        ≡ suc (off + length (until_nul (drop off buf))) =
      omega arith in
    rw z (c_string_end buf off)
