-- ===== src/CString.antt =====
-- The C library's string functions that the programs call, over a byte buffer.
-- A pointer into a buffer is an offset. A string is read from its offset up to the first NUL.
pub mod Words
pub mod Decimal
pub mod Bounds
use Prim.Native.Char.{code}
use Prim.Native.String.{String}
use mathlib.Core.Option
use nowcoder_linux_learning.Base.{
  ℕ, zero, suc, ◌+◌, ◌-◌, ◌*◌, ◌/◌, ◌%◌, Bool, true, false, ◌&&◌, ◌||◌, Option, none, some, List,
  [], ◌∷◌, ◌==◌, leb, ltb, if◌then◌else◌, take, drop, get_or, ℤ, pos, negsuc, sub_ℕ,
}

abbrev pub Bytes : Type 0
Bytes = List ℕ

-- The code points of a text: its bytes, if it is ASCII.
abbrev pub codes : String → Bytes
codes String.[] = []
codes (String.◌∷◌ c s) = code c ∷ codes s

abbrev pub byte : Bytes → ℕ → ℕ
byte buf i = get_or buf i 0

pub until_nul : Bytes → Bytes
until_nul [] = []
until_nul (c ∷ s) = if c == 0 then [] else c ∷ until_nul s

-- The string that starts at an offset.
unfoldable pub c_string : Bytes → ℕ → Bytes
unfolding until_nul
c_string buf off = until_nul (drop off buf)

-- The accept string " \t".
abbrev pub is_blank : ℕ → Bool
is_blank c = c == b' ' || c == b'\t'

unfoldable pub strpbrk : (ℕ → Bool) → Bytes → Option ℕ
strpbrk accept [] = none
strpbrk accept (c ∷ s) = if accept c then some 0 else Option.map suc (strpbrk accept s)

unfoldable pub strspn : (ℕ → Bool) → Bytes → ℕ
strspn accept [] = 0
strspn accept (c ∷ s) = if accept c then suc (strspn accept s) else 0

unfoldable pub strchr : Bytes → ℕ → Option ℕ
strchr s c = strpbrk (λ d. d == c) s

abbrev pub to_lower : ℕ → ℕ
to_lower c = if leb b'A' c && leb c b'Z' then c + 32 else c

-- Whether `strcasecmp` returns 0.
unfoldable pub strcasecmp : Bytes → Bytes → Bool
strcasecmp [] [] = true
strcasecmp (c ∷ s) (d ∷ t) = to_lower c == to_lower d && strcasecmp s t
strcasecmp _ _ = false

-- Whether `strncasecmp` returns 0.
unfoldable pub strncasecmp : Bytes → Bytes → ℕ → Bool
strncasecmp s t n = strcasecmp (take n s) (take n t)

is_digit : ℕ → Bool
is_digit c = leb b'0' c && leb c b'9'

is_space : ℕ → Bool
is_space c = c == b' ' || (leb 9 c && leb c 13)

digits_value : ℕ → Bytes → ℕ
digits_value acc [] = acc
digits_value acc (c ∷ s) =
    let rest = digits_value (acc * 10 + (c - b'0')) s in if is_digit c then rest else acc

-- `long` saturates at its ends.
saturate : Bool → ℕ → ℤ
saturate true n =
    let m = (if ltb n 0x8000_0000_0000_0000 then n else 0x8000_0000_0000_0000) in sub_ℕ 0 m
saturate false n = pos (if ltb n 0x8000_0000_0000_0000 then n else 0x7fff_ffff_ffff_ffff)

signed_value : Bytes → ℤ
signed_value [] = pos 0
signed_value (c ∷ s) =
    if c == b'-'
    then saturate true (digits_value 0 s)
    else if c == b'+'
    then saturate false (digits_value 0 s)
    else saturate false (digits_value 0 (c ∷ s))

unfoldable pub atol : Bytes → ℤ
unfolding strspn is_digit is_space digits_value saturate signed_value
atol s = signed_value (drop (strspn is_space s) s)

-- `%d`, on fuel: the digits of `n` in front of `rest`.
pub decimal_onto : ℕ → ℕ → Bytes → Bytes
decimal_onto zero n rest = rest
decimal_onto (suc f) n rest =
    let more = decimal_onto f (n / 10) ((n % 10 + b'0') ∷ rest) in
    if ltb n 10 then (n + b'0') ∷ rest else more

unfoldable pub decimal : ℕ → Bytes
unfolding decimal_onto
decimal n = decimal_onto (suc n) n []

unfoldable pub print_int : ℤ → Bytes
unfolding decimal
print_int (pos n) = decimal n
print_int (negsuc n) = b'-' ∷ decimal (suc n)
