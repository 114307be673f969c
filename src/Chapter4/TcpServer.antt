-- ===== src/Chapter4/TcpServer.antt =====
-- chapter_4/tcp_server.cpp: the table of clients of main, and the thread of a client. What `read`
-- returns, and whether `write` works, is an argument. What is printed is left out.
pub mod Slots
pub mod Echo
pub mod Processes
use nowcoder_linux_learning.Base.{
  ℕ, zero, suc, ◌+◌, Bool, true, false, ◌==◌, if◌then◌else◌, Option, none, some, List, [], ◌∷◌,
  ◌++◌, set, take, length, replicate, overwrite, get_or,
}
use nowcoder_linux_learning.CString.{Bytes, codes, c_string}
use nowcoder_linux_learning.Http.Conn.{SockAddr}

abbrev pub max_client_num : ℕ
max_client_num = 3

pub record ClientInfo : Type 0 where
  pub c_sockfd : ℕ
  pub tid : ℕ
  pub addr : SockAddr

-- `memset` leaves such an entry.
abbrev pub no_client : ClientInfo
no_client = record { c_sockfd = 0; tid = 0; addr = record { ip = 0; port = 0 } }

abbrev pub no_clients : List ClientInfo
no_clients = replicate max_client_num no_client

-- The `for` loop of main, over the entries from the number `i` on.
unfoldable pub find_free : ℕ → List ClientInfo → Option ℕ
find_free i [] = none
find_free i (c ∷ cs) = let rest = find_free (i + 1) cs in if c.c_sockfd == 0 then some i else rest

-- A connection that was accepted. `none` while main sleeps, and looks again; `tid` is what
-- `pthread_create` stores.
unfoldable pub add_client : List ClientInfo → ℕ → ℕ → SockAddr → Option (List ClientInfo)
unfolding find_free
add_client cs fd tid addr = elim (find_free 0 cs) [
  | none ↦ none
  | some i ↦ some (set cs i (record { c_sockfd = fd; tid = tid; addr = addr }))
]

-- The end of do_thread: the entry is free again.
unfoldable pub free_client : List ClientInfo → ℕ → List ClientInfo
free_client cs i = set cs i (record (get_or cs i no_client) { c_sockfd = 0 })

abbrev pub recv_size : ℕ
recv_size = 1024

-- `recv_buf` behind `read`.
abbrev pub received : Bytes → Bytes
received bs = overwrite (replicate recv_size 0) 0 (take recv_size bs)

-- What is written for a buffer, with its NUL; without a NUL in the buffer `sprintf` is undefined.
unfoldable pub reply : Bytes → Option Bytes
reply recv_buf =
    let s = c_string recv_buf 0 in
    if length s == recv_size then none else some (codes "server received " ++ (s ++ (0 ∷ [])))

-- A result of `read`: bytes, and whether the `write` that follows works; the end; or an error.
pub data Incoming : Type 0 where
  message : Bytes → Bool → Incoming
  hang_up failure : Incoming

-- How a thread ends, with what it has written: it frees its entry, it ends the process, it does what
-- is undefined, or it still reads.
pub data Ending : Type 0 where
  frees exits reads : List Bytes → Ending
  undefined : Ending

unfoldable pub do_thread : List Incoming → List Bytes → Ending
unfolding reply
do_thread [] sent = reads sent
do_thread (hang_up ∷ rest) sent = frees sent
do_thread (failure ∷ rest) sent = exits sent
do_thread (message bs ok ∷ rest) sent =
    let text = reply (received bs) in
    let on : Bytes → Ending = λ t. do_thread rest (sent ++ (t ∷ [])) in
    if length bs == 0
    then frees sent
    else elim text [ none ↦ undefined | some t ↦ if ok then on t else exits sent ]

-- Not called.
unfoldable pub string_to_char_array : Bytes → Bytes → Bytes
string_to_char_array str buf = set (overwrite buf 0 str) (length str) 0
