-- ===== src/Chapter4/TcpServer/Processes/Children.antt =====
-- How long sigChildCatch runs.
use nowcoder_linux_learning.Base.{
  ℕ, zero, suc, ◌+◌, ◌≡◌, ap, some, List, [], ◌∷◌, ◌++◌, length, length-append, arith,
}
use nowcoder_linux_learning.Chapter4.TcpServer.Processes.{
  Waited, ended, still_runs, no_child, sig_child_catch,
}

-- What POSIX says of `waitpid(-1, NULL, WNOHANG)`, with so many children that run and so many that
-- have ended: it takes one that has ended; or some run, and any of them may end while the handler
-- sleeps; or there is no child. The list ends where the calls do.
pub data Waits : ℕ → ℕ → List Waited → Type 0 where
  takes : {r e : ℕ} {ws : List Waited} (pid : ℕ) → Waits r e ws → Waits r (suc e) (ended pid ∷ ws)
  sleeps :
      {r e : ℕ} {ws : List Waited} (n : ℕ)
      → suc n ≡ r + e
      → Waits r e ws
      → Waits (suc n) 0 (still_runs ∷ ws)
  finds_none : {ws : List Waited} → Waits 0 0 (no_child ∷ ws)
  calls_no_more : {r e : ℕ} → Waits r e []

catch_lem :
    (r e : ℕ) (ws : List Waited) (pids out : List ℕ)
    → Waits r e ws
    → sig_child_catch ws pids ≡ some out
    → length out ≡ length pids + r + e
unfolding sig_child_catch
catch_lem r (suc e) (ended pid ∷ ws) pids out (takes _ w) h =
    let i = catch_lem r e ws (pids ++ (pid ∷ [])) out w h in
    omega (arith, i, length-append pids (pid ∷ []))
catch_lem (suc n) zero (still_runs ∷ ws) pids out (sleeps {r} {e} _ s w) h =
    omega (arith, catch_lem r e ws pids out w h, s)
catch_lem zero zero (no_child ∷ ws) pids out finds_none h =
    let same : pids ≡ out = cc in omega (arith, ap length same)
catch_lem zero zero (ended pid ∷ ws) pids out w h = elim w [ ]
catch_lem zero zero (still_runs ∷ ws) pids out w h = elim w [ ]
catch_lem (suc n) zero (ended pid ∷ ws) pids out w h = elim w [ ]
catch_lem (suc n) zero (no_child ∷ ws) pids out w h = elim w [ ]
catch_lem r (suc e) (still_runs ∷ ws) pids out w h = elim w [ ]
catch_lem r (suc e) (no_child ∷ ws) pids out w h = elim w [ ]
catch_lem r e [] pids out calls_no_more h = absurd cc

-- When sigChildCatch of chapter_4/tcp_server.cpp returns, it has waited for as many children as
-- there were when it was called, those that ran then included.
pub sig_child_catch_all :
    (r e : ℕ) (ws : List Waited) (pids : List ℕ)
    → Waits r e ws
    → sig_child_catch ws [] ≡ some pids
    → length pids ≡ r + e
sig_child_catch_all r e ws pids w h = let i = catch_lem r e ws [] pids w h in omega (arith, i)
