-- ===== src/Locker/Tests.antt =====
-- A mutex that is a Boolean, and a condition that is signalled at once.
use nowcoder_linux_learning.Base.{Bool, true, false, refl}
use nowcoder_linux_learning.Locker.{Pthread, Call}
use nowcoder_linux_learning.Locker.Cond.{IsMutex}

abbrev same : Call Bool
same w = (w, 0)

abbrev one_mutex : Pthread Bool
one_mutex = record {
  sem_init = same;
  sem_destroy = same;
  sem_wait = same;
  sem_post = same;
  mutex_init = λ w. (false, 0);
  mutex_destroy = same;
  mutex_lock = λ w. (true, 0);
  mutex_unlock = λ w. (false, 0);
  cond_init = same;
  cond_destroy = same;
  cond_wait = same;
  cond_signal = same;
}

one_mutex-IsMutex : IsMutex one_mutex (λ w. w)
one_mutex-IsMutex = record {
  locks = λ w h. (refl, refl);
  unlocks = λ w h. (refl, refl);
  waits_locked = λ w h e. h;
}
