-- ===== src/Locker/Cond.antt =====
-- cond::wait.
use nowcoder_linux_learning.Base.{◌≡◌, Bool, true, false, refl}
use nowcoder_linux_learning.Locker.{Pthread, wait_cond, lock}

-- What POSIX says of a mutex and a condition: `held` tells of a state whether its mutex is locked.
pub record IsMutex {ℓ} {W : Type ℓ} (os : Pthread W) (held : W → Bool) : Type ℓ where
  pub locks :
      (w : W) → held w ≡ false → (held (os.mutex_lock w).0 ≡ true) × ((os.mutex_lock w).1 ≡ 0)
  pub unlocks :
      (w : W) → held w ≡ true → (held (os.mutex_unlock w).0 ≡ false) × ((os.mutex_unlock w).1 ≡ 0)
  pub waits_locked :
      (w : W) → held w ≡ true → (os.cond_wait w).1 ≡ 0 → held (os.cond_wait w).0 ≡ true

module _ {ℓ} {W : Type ℓ} (os : Pthread W) (held : W → Bool) (m : IsMutex os held) where
  -- With a mutex and a condition that keep what POSIX says of them, when lock works and
  -- pthread_cond_wait has returned 0, lock has answered true, but cond::wait answers false; the mutex
  -- is unlocked again.
  pub wait_cond_lem :
      (w : W)
      → held w ≡ false
      → (os.cond_wait (lock os w).0).1 ≡ 0
      → ((lock os w).1 ≡ true) × ((wait_cond os w).1 ≡ false) × (held (wait_cond os w).0 ≡ false)
  unfolding wait_cond lock
  wait_cond_lem w f e =
      let (a, b) = m.locks w f in
      let c = m.waits_locked (os.mutex_lock w).0 a e in
      let (d, _) = m.unlocks (os.cond_wait (os.mutex_lock w).0).0 c in (rw b refl, rw e refl, d)
