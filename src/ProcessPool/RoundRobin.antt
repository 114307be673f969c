-- ===== src/ProcessPool/RoundRobin.antt =====
-- The choice of a child.
use nowcoder_linux_learning.Base.{
  ℕ, zero, suc, ◌+◌, ◌-◌, ◌%◌, ◌≤◌, ◌<◌, ◌≡◌, ◌≢◌, refl, ap, sym, ◌∙◌, true, ◌==◌, some, List,
  length, arith, Bool-cases, inl, inr, ==_true,
}
use native.Mathlib.Nat.{add-zero, mod-lt, mod-eq_of_lt, mod-add-mod, mod-eq-sub-mod}
use native.Mathlib.Decide.{dec_lt}
use nowcoder_linux_learning.ProcessPool.{Process, ProcessPool, alive, pick, dispatch}

-- Every process of the pool runs.
abbrev pub AllAlive : List Process → Type 0
AllAlive ps = (j : ℕ) → j < length ps → alive ps j ≡ true

pick_finds : (rounds : ℕ) (ps : List Process) (c j : ℕ) → alive ps j ≡ true → pick rounds ps c j ≡ j
unfolding pick
pick_finds zero ps c j h = refl
pick_finds (suc rounds) ps c j h = rw h

-- While all children run, the connections go to them in turn: this one to the child at the counter,
-- and the counter moves to the next, from the last to the first.
pub dispatch_in_turn :
    (p : ProcessPool)
    → p.sub_process_counter < length p.sub_process
    → AllAlive p.sub_process
    → dispatch p ≡ (
      record p { sub_process_counter = (p.sub_process_counter + 1) % length p.sub_process },
      some p.sub_process_counter,
    )
unfolding dispatch
dispatch_in_turn p h a =
    let ps = p.sub_process in
    let c = p.sub_process_counter in rw (pick_finds (length ps) ps c c (a c h), a c h)

-- The place `d` steps behind `j` in the ring of `n`.
abbrev steps : ℕ → ℕ → ℕ → ℕ
steps n zero j = j
steps n (suc d) j = steps n d ((j + 1) % n)

-- If a child that runs lies fewer than `rounds` steps behind `j`, and the counter does not lie on the way, it or
-- one in front of it is picked.
pick-alive :
    (d rounds : ℕ) (ps : List Process) (c j : ℕ)
    → d < rounds
    → alive ps (steps (length ps) d j) ≡ true
    → ((e : ℕ) → 0 < e → e ≤ d → steps (length ps) e j ≢ c)
    → alive ps (pick rounds ps c j) ≡ true
unfolding pick
pick-alive zero zero ps c j h a w = elim h [ ]
pick-alive (suc d) zero ps c j h a w = elim h [ ]
pick-alive zero (suc rounds) ps c j h a w = rw (a, a)
pick-alive (suc d) (suc rounds) ps c j h a w = elim (Bool-cases (alive ps j)) [
  | inl y ↦ rw (y, y)
  | inr n ↦ elim (Bool-cases ((j + 1) % length ps == c)) [
    | inl y ↦ absurd (w 1 (omega arith) (omega arith) (==_true _ _ y))
    | inr m ↦
        rw (n, m)
          (pick-alive d rounds ps c ((j + 1) % length ps) (omega arith) a
            (λ e p q. w (suc e) (omega arith) (omega arith)))
  ]
]

steps-mod : (n d j : ℕ) → j < n → steps n d j ≡ (j + d) % n
steps-mod n zero j h = sym (rw add-zero (mod-eq_of_lt h))
steps-mod n (suc d) j h =
    steps-mod n d ((j + 1) % n) (mod-lt (j + 1) (omega arith))
    ∙ mod-add-mod (j + 1) n d
    ∙ ap (λ x. x % n) (omega arith)

-- A sum of two places, brought back into the ring.
mod_wrap : (n x : ℕ) → n ≤ x → x < n + n → x % n ≡ x - n
mod_wrap n x h k = mod-eq-sub-mod h ∙ mod-eq_of_lt (omega arith)

steps-ne : (n e j : ℕ) → j < n → 0 < e → e < n → steps n e j ≢ j
steps-ne n e j h p q eq = elim (dec_lt (j + e) n) [
  | yes l ↦ omega (arith, mod-eq_of_lt l, steps-mod n e j h, eq)
  | no l ↦ omega (arith, mod_wrap n (j + e) (omega arith) (omega arith), steps-mod n e j h, eq)
]

-- How many steps `k` lies behind `c`.
distance : (n c k : ℕ) → c < n → k < n → (d : ℕ) × (d < n) × (steps n d c ≡ k)
distance n c k h l = elim (dec_lt k c) [
  | yes b ↦ (
    k + n - c,
    omega arith,
    steps-mod n (k + n - c) c h
        ∙ mod_wrap n (c + (k + n - c)) (omega arith) (omega arith)
        ∙ omega arith,
  )
  | no b ↦
      let e : c + (k - c) ≡ k = omega arith in
      (k - c, omega arith, steps-mod n (k - c) c h ∙ rw e (mod-eq_of_lt l))
]

-- If a child of the pool runs, wherever it lies, and the counter is a place of the pool, then a new
-- connection goes to a child that runs, the counter moves to the place behind that child in the
-- ring, and the parent goes on as before.
pub dispatch-alive :
    (p : ProcessPool) (k : ℕ)
    → p.sub_process_counter < length p.sub_process
    → k < length p.sub_process
    → alive p.sub_process k ≡ true
    → (j : ℕ) × ((dispatch p).1 ≡ some j)
      × (alive p.sub_process j ≡ true)
      × ((dispatch p).0.stop ≡ p.stop)
      × ((dispatch p).0.sub_process_counter ≡ (j + 1) % length p.sub_process)
unfolding dispatch
dispatch-alive p k h l a =
    let ps = p.sub_process in
    let c = p.sub_process_counter in
    let n = length ps in
    let (d, lt, at) = distance n c k h l in
    let found : alive ps (pick n ps c c) ≡ true =
      pick-alive d n ps c c lt (rw at a) (λ e x y. steps-ne n e c h x (omega arith)) in
    (pick n ps c c, rw found, found, rw found, rw found)
