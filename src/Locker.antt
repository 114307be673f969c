-- ===== src/Locker.antt =====
-- The classes sem, locker and cond of webserver/locker.h. The calls of the operating system are a
-- parameter: each takes the state of the objects, and gives the state and a number.
pub mod Cond
pub mod Tests
use nowcoder_linux_learning.Base.{ℕ, Bool, not, ◌==◌, if◌then◌else◌}

-- An exception, or the state that a constructor leaves.
pub data Made {ℓ} (W : Type ℓ) : Type ℓ where
  made : W → Made W
  throws : W → Made W

-- A call, with what it returns.
abbrev pub Call {ℓ} : Type ℓ → Type ℓ
Call W = W → W × ℕ

-- The calls on one semaphore, one mutex and one condition.
pub record Pthread {ℓ} (W : Type ℓ) : Type ℓ where
  pub sem_init : Call W
  pub sem_destroy : Call W
  pub sem_wait : Call W
  pub sem_post : Call W
  pub mutex_init : Call W
  pub mutex_destroy : Call W
  pub mutex_lock : Call W
  pub mutex_unlock : Call W
  pub cond_init : Call W
  pub cond_destroy : Call W
  pub cond_wait : Call W
  pub cond_signal : Call W

-- `… == 0`
abbrev pub is_ok {ℓ} : {W : Type ℓ} → W × ℕ → W × Bool
is_ok r = (r.0, r.1 == 0)

-- A number as a `bool`.
abbrev pub as_bool : ℕ → Bool
as_bool n = not (n == 0)

module _ {ℓ} {W : Type ℓ} (os : Pthread W) where
  -- `if (… != 0) throw std::exception();`
  unfoldable pub checked : Call W → W → Made W
  checked call w = let r = call w in if r.1 == 0 then made r.0 else throws r.0

  unfoldable pub new_sem : W → Made W
  unfolding checked
  new_sem w = checked os.sem_init w

  unfoldable pub delete_sem : W → W
  delete_sem w = (os.sem_destroy w).0

  unfoldable pub wait_sem : W → W × Bool
  wait_sem w = is_ok (os.sem_wait w)

  unfoldable pub post_sem : W → W × Bool
  post_sem w = is_ok (os.sem_post w)

  unfoldable pub new_locker : W → Made W
  unfolding checked
  new_locker w = checked os.mutex_init w

  unfoldable pub delete_locker : W → W
  delete_locker w = (os.mutex_destroy w).0

  unfoldable pub lock : W → W × Bool
  lock w = is_ok (os.mutex_lock w)

  unfoldable pub unlock : W → W × Bool
  unlock w = is_ok (os.mutex_unlock w)

  -- The mutex that has been made stays when the condition cannot be made.
  unfoldable pub new_cond : W → Made W
  unfolding checked
  new_cond w = elim (checked os.mutex_init w) [
    | made w' ↦ checked os.cond_init w'
    | throws w' ↦ throws w'
  ]

  unfoldable pub delete_cond : W → W
  delete_cond w = (os.cond_destroy (os.mutex_destroy w).0).0

  unfoldable pub wait_cond : W → W × Bool
  wait_cond w =
      let locked = (os.mutex_lock w).0 in
      let r = os.cond_wait locked in ((os.mutex_unlock r.0).0, as_bool r.1)

  unfoldable pub signal_cond : W → W × Bool
  signal_cond w = is_ok (os.cond_signal w)
