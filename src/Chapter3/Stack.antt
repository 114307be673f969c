-- ===== src/Chapter3/Stack.antt =====
-- The vector behind the buffers of chapter_3, used as a stack.
use nowcoder_linux_learning.Base.{
  ℕ, suc, ◌+◌, ◌<◌, ◌≡◌, refl, ap, Option, none, some, List, [], ◌∷◌, ◌++◌, length, arith,
}

-- `buf.back()`; on an empty vector it is undefined.
unfoldable pub back : List ℕ → Option ℕ
back [] = none
back (x ∷ []) = some x
back (x ∷ y ∷ rest) = back (y ∷ rest)

unfoldable pub pop_back : List ℕ → List ℕ
pop_back [] = []
pop_back (x ∷ []) = []
pop_back (x ∷ y ∷ rest) = x ∷ pop_back (y ∷ rest)

length-pop_back : (x : ℕ) (xs : List ℕ) → length (pop_back (x ∷ xs)) ≡ length xs
unfolding pop_back
length-pop_back x [] = refl
length-pop_back x (y ∷ rest) = ap suc (length-pop_back y rest)

pub pop_back_lem : (xs : List ℕ) → 0 < length xs → length (pop_back xs) + 1 ≡ length xs
pop_back_lem [] h = absurd (omega arith)
pop_back_lem (x ∷ xs) h = omega (arith, length-pop_back x xs)

pub back_lem : (xs : List ℕ) → 0 < length xs → (x : ℕ) × (back xs ≡ some x)
unfolding back
back_lem [] h = absurd (omega arith)
back_lem (x ∷ []) h = (x, refl)
back_lem (x ∷ y ∷ rest) h = back_lem (y ∷ rest) (omega arith)

-- What may happen to a stack of `cap` items at most.
pub data StackStep (cap : ℕ) (l m : List ℕ) : Type 0 where
  stays : m ≡ l → StackStep cap l m
  pushes : (x : ℕ) → length l < cap → m ≡ l ++ (x ∷ []) → StackStep cap l m
  pops : (x : ℕ) → back l ≡ some x → l ≡ m ++ (x ∷ []) → StackStep cap l m

pub pop_back-back : (l : List ℕ) (x : ℕ) → back l ≡ some x → l ≡ pop_back l ++ (x ∷ [])
unfolding back pop_back
pop_back-back [] x e = absurd cc
pop_back-back (y ∷ []) x e = cc
pop_back-back (y ∷ z ∷ rest) x e = ap (◌∷◌ y) (pop_back-back (z ∷ rest) x e)
