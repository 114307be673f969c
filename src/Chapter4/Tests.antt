-- ===== src/Chapter4/Tests.antt =====
-- The theorems on the servers of chapter_4 at small tables.
use nowcoder_linux_learning.Base.{ℕ, List, ◌≡◌, refl, true, [], ◌∷◌, ◌++◌, map, arith}
use nowcoder_linux_learning.CString.{codes}
use nowcoder_linux_learning.Http.Conn.{SockAddr}
use nowcoder_linux_learning.Chapter4.TcpServer.{
  ClientInfo, no_client, message, hang_up, frees, do_thread,
}
use nowcoder_linux_learning.Chapter4.TcpServer.Echo.{echo, do_thread-echo}

abbrev someone : SockAddr
someone = record { ip = 1; port = 80 }

abbrev client : ℕ → ClientInfo
client fd = record { c_sockfd = fd; tid = 0; addr = someone }

abbrev full : List ClientInfo
full = client 4 ∷ client 5 ∷ client 6 ∷ []

abbrev one_free : List ClientInfo
one_free = client 4 ∷ no_client ∷ client 6 ∷ []

do_thread-echo_example :
    do_thread (map (λ bs. message bs true) (codes "hi" ∷ codes "you" ∷ []) ++ (hang_up ∷ [])) []
    ≡ frees (map echo (codes "hi" ∷ codes "you" ∷ []))
do_thread-echo_example = do_thread-echo (codes "hi" ∷ codes "you" ∷ []) [] (
  (omega arith, omega arith, (refl, (refl, tt))),
  ((omega arith, omega arith, (refl, (refl, (refl, tt)))), tt),
)
