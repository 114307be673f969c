-- ===== src/Chapter3/CondBuffer/Counts.antt =====
-- The threads between lock and unlock of chapter_3/thread/pthread_cond.cpp, counted by what they
-- are about to do.
use nowcoder_linux_learning.Base.{ℕ, ◌+◌, ◌*◌, ◌≤◌, ◌<◌, ◌≡◌, ap, Option, none, some, length, arith}
use nowcoder_linux_learning.Base.Sums.{sum, sum-move_from, sum-le, move}
use nowcoder_linux_learning.Chapter3.CondBuffer.{
  buf_size, producer_num, consumer_num, Producer, Consumer, Owner, Shared,
}

-- A producer that has the mutex, but is not at `push_back`.
abbrev pub steady : Producer → ℕ
steady Producer.testing = 1
steady Producer.signalling = 1
steady Producer.leaving = 1
steady _ = 0

abbrev pub pushing : Producer → ℕ
pushing Producer.changing = 1
pushing _ = 0

-- A consumer that has the mutex, and has no finding on the size to act on.
abbrev pub calm : Consumer → ℕ
calm Consumer.testing = 1
calm Consumer.leaving = 1
calm _ = 0

abbrev pub popping : Consumer → ℕ
popping Consumer.changing = 1
popping _ = 0

abbrev pub giving_up : Consumer → ℕ
giving_up Consumer.empty_seen = 1
giving_up _ = 0

abbrev pub held : Option Owner → ℕ
held none = 0
held (some o) = 1

pub held_le : (o : Option Owner) → held o ≤ 1
held_le none = omega arith
held_le (some o) = omega arith

pub record Inv (s : Shared) : Type 0 where
  pub alone :
      sum steady producer_num s.producers
        + sum pushing producer_num s.producers
        + sum calm consumer_num s.consumers
        + sum popping consumer_num s.consumers
        + sum giving_up consumer_num s.consumers
      ≡ held s.mutex
  pub room :
      sum pushing producer_num s.producers
        + length s.buf
        + buf_size * sum giving_up consumer_num s.consumers
      ≤ buf_size
  pub items : sum popping consumer_num s.consumers ≤ length s.buf

pub has_item :
    (s : Shared) (i : ℕ)
    → i < consumer_num
    → s.consumers i ≡ Consumer.changing
    → Inv s
    → 0 < length s.buf
has_item s i h a w =
    let m = ap popping a in omega (arith, sum-le popping 5 i s.consumers h, m, w.items)

pub has_room :
    (s : Shared) (i : ℕ)
    → i < producer_num
    → s.producers i ≡ Producer.changing
    → Inv s
    → length s.buf < buf_size
has_room s i h a w =
    let m = ap pushing a in omega (arith, sum-le pushing 5 i s.producers h, m, w.room)

-- A thread moves, and the sums change with it.
pub producer_moves :
    (f : ℕ → Producer) (i : ℕ) (a b : Producer)
    → i < 5
    → f i ≡ a
    → (sum steady 5 (move f i b) + steady a ≡ sum steady 5 f + steady b)
      × (sum pushing 5 (move f i b) + pushing a ≡ sum pushing 5 f + pushing b)
      × (steady (f i) ≤ sum steady 5 f)
      × (steady (f i) ≡ steady a)
producer_moves f i a b h e = (
  sum-move_from steady 5 i f a b h e,
  sum-move_from pushing 5 i f a b h e,
  sum-le steady 5 i f h,
  ap steady e,
)

pub consumer_moves :
    (f : ℕ → Consumer) (i : ℕ) (a b : Consumer)
    → i < 5
    → f i ≡ a
    → (sum calm 5 (move f i b) + calm a ≡ sum calm 5 f + calm b)
      × (sum popping 5 (move f i b) + popping a ≡ sum popping 5 f + popping b)
      × (sum giving_up 5 (move f i b) + giving_up a ≡ sum giving_up 5 f + giving_up b)
      × (calm (f i) ≤ sum calm 5 f)
      × (calm (f i) ≡ calm a)
consumer_moves f i a b h e = (
  sum-move_from calm 5 i f a b h e,
  sum-move_from popping 5 i f a b h e,
  sum-move_from giving_up 5 i f a b h e,
  sum-le calm 5 i f h,
  ap calm e,
)

pub facts :
    (s : Shared)
    → Inv s
    → (sum steady producer_num s.producers
          + sum pushing producer_num s.producers
          + sum calm consumer_num s.consumers
          + sum popping consumer_num s.consumers
          + sum giving_up consumer_num s.consumers
        ≡ held s.mutex)
      × (sum pushing producer_num s.producers
            + length s.buf
            + buf_size * sum giving_up consumer_num s.consumers
          ≤ buf_size)
      × (sum popping consumer_num s.consumers ≤ length s.buf)
facts s w = (w.alone, w.room, w.items)
