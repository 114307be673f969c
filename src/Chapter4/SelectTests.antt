-- ===== src/Chapter4/SelectTests.antt =====
-- The theorem on the rounds of the select server at a server with two clients.
use nowcoder_linux_learning.Base.{
  ℕ, refl, ◌==◌, false, true, Option, none, some, [], ◌∷◌, ◌++◌, if◌then◌else◌, ltb, ◌&&◌, arith,
}
use nowcoder_linux_learning.Base.Sums.{move}
use nowcoder_linux_learning.CString.{codes, c_string}
use nowcoder_linux_learning.Chapter4.SelectServer.{
  Selector, Reading, text, closed, accepted, accept_client, select_round,
}
use nowcoder_linux_learning.Chapter4.SelectServer.Rounds.{Follows, select_round-Follows}

-- Listening on 3, with the clients 4 and 5.
abbrev two_clients : Selector
two_clients = record {
  listenfd = 3;
  read_set = λ i. ltb 2 i && ltb i 6;
  max_fd = 5;
  is_open = λ i. ltb 2 i && ltb i 6;
}

-- 4 says hi, and 5 hangs up.
abbrev readings : ℕ → Option Reading
readings i = if i == 4 then some (text (codes "hi")) else if i == 5 then some closed else none

-- 6 is accepted in the same round.
abbrev three_clients : Selector
three_clients = record two_clients {
  read_set = move two_clients.read_set 6 true;
  max_fd = 6;
  is_open = move two_clients.is_open 6 true;
}

abbrev one_left : Selector
one_left = record three_clients {
  read_set = move three_clients.read_set 5 false;
  is_open = move three_clients.is_open 5 false;
}

select_round-Follows_example : Follows readings three_clients one_left 5
unfolding select_round accept_client c_string
select_round-Follows_example =
    select_round-Follows two_clients three_clients one_left (accepted 6) readings
      ((4, codes "hi" ++ (0 ∷ [])) ∷ []) 5 refl refl (omega arith) (omega arith)
