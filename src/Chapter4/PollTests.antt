-- ===== src/Chapter4/PollTests.antt =====
-- The theorems on the poll server and the epoll server, with one client each.
use nowcoder_linux_learning.Base.{◌<◌, ◌≡◌, refl, arith, true, false, none, some, [], ◌∷◌}
use nowcoder_linux_learning.Base.Sums.{move}
use nowcoder_linux_learning.Chapter4.PollServer
use nowcoder_linux_learning.Chapter4.PollServer.{PollServer, poll_round, insert_client}
use nowcoder_linux_learning.Chapter4.PollServer.Polled.{Reach-looked_at}
use nowcoder_linux_learning.Chapter4.EpollServer
use nowcoder_linux_learning.Chapter4.EpollServer.{Epoll, Arrival, epoll_round}
use nowcoder_linux_learning.Chapter4.EpollServer.Deaf
use nowcoder_linux_learning.Chapter4.EpollServer.Deaf.{epoll_round-hangs}

-- The client 4 has come.
abbrev polling : PollServer
polling = record { fds = move (move (λ i. none) 0 (some 3)) 1 (some 4); cur_max_fd = 4 }

reach_polling : PollServer.Reach 3 polling
unfolding poll_round
reach_polling =
    PollServer.round (some 4) (λ i. none) [] PollServer.start
      (record { above = omega arith; unused = λ i h. ground (arith, h) }) refl

Reach-looked_at_example : 1 < 4
Reach-looked_at_example = Reach-looked_at 3 1 4 polling (omega arith) reach_polling refl

abbrev epolling : Epoll
epolling = EpollServer.listening 3

-- The client 4 is accepted, and then has something to be read.
abbrev comes : Arrival
comes = record { event = record { fd = 3; has_in = true }; new = some 4; reads = [] }

abbrev with_client : Epoll
with_client = record {
  listen_fd = 3;
  interest = move epolling.interest 4 (some (record { epollin = false; epollet = true }));
  is_open = move epolling.is_open 4 true;
}

reach_with_client : Deaf.Reach 3 with_client
unfolding epoll_round
reach_with_client = Deaf.round 1 (comes ∷ []) [] Deaf.start refl

abbrev hangs_up : Arrival
hangs_up = record { event = record { fd = 4; has_in = false }; new = none; reads = [] }

epoll_round-hangs_example : epoll_round 7 with_client (hangs_up ∷ []) [] ≡ EpollServer.out_of_fuel
epoll_round-hangs_example =
    epoll_round-hangs 3 7 with_client [] [] hangs_up reach_with_client tt
      (record {
        interest = record { epollin = false; epollet = true };
        registered = refl;
        asked_for = λ h. cc;
      })
      (λ h. cc)
