-- ===== src/Chapter4/TcpServer/Echo.antt =====
-- What the thread of a client answers.
use nowcoder_linux_learning.Base.{
  ℕ, zero, suc, ◌<◌, ◌≤◌, ◌≡◌, refl, ap, ◌∙◌, true, false, ◌==◌, some, List, [], ◌∷◌, ◌++◌, map,
  take, length, replicate, overwrite, arith,
}
use mathlib.Core.List.{append-nil, append_assoc}
use nowcoder_linux_learning.CString.{Bytes, codes, c_string}
use nowcoder_linux_learning.CString.Words.{HasNoNul, c_string_behind}
use nowcoder_linux_learning.Chapter4.TcpServer.{
  received, recv_size, reply, message, hang_up, frees, do_thread,
}

-- A text that fits the buffer with its NUL.
abbrev pub IsText : Bytes → Type 0
IsText bs = (0 < length bs) × (length bs < recv_size) × HasNoNul bs

abbrev pub AllTexts : List Bytes → Type 0
AllTexts [] = Unit {0}
AllTexts (bs ∷ rest) = (IsText bs) × AllTexts rest

abbrev pub echo : Bytes → Bytes
echo bs = codes "server received " ++ (bs ++ (0 ∷ []))

take_all : (n : ℕ) (bs : Bytes) → length bs ≤ n → take n bs ≡ bs
take_all zero [] h = refl
take_all zero (x ∷ bs) h = absurd (omega arith)
take_all (suc n) [] h = refl
take_all (suc n) (x ∷ bs) h = ap (◌∷◌ x) (take_all n bs (omega arith))

pub received-c_string : (bs : Bytes) → IsText bs → c_string (received bs) 0 ≡ bs
received-c_string bs (_, b, c) =
    let short : length bs ≤ 1023 = omega arith in
    let fits : length bs ≤ 1024 = omega arith in
    let e : take 1024 bs ≡ take 1023 bs ++ [] =
      rw (take_all 1024 bs fits, take_all 1023 bs short, append-nil) in
    ap (λ t. c_string (overwrite (replicate 1024 0) 0 t) 0) e
    ∙ c_string_behind [] 1023 0 bs tt c
    ∙ take_all 1023 bs short

reply-received : (bs : Bytes) → IsText bs → reply (received bs) ≡ some (echo bs)
unfolding reply
reply-received bs h =
    let off : (length bs == 1024) ≡ false = ground (arith, h.1) in rw (received-c_string bs h, off)

-- do_thread of chapter_4/tcp_server.cpp answers each text, in their order, by `server received `
-- and the text with its NUL, and frees its entry when the client hangs up, provided that each text
-- comes with a read of its own, has a byte at least, has no NUL and is shorter than 1024 bytes, and
-- that each write works.
pub do_thread-echo :
    (texts sent : List Bytes)
    → AllTexts texts
    → do_thread (map (λ bs. message bs true) texts ++ (hang_up ∷ [])) sent
      ≡ frees (sent ++ map echo texts)
unfolding do_thread
do_thread-echo [] sent h = rw append-nil
do_thread-echo (bs ∷ rest) sent h =
    let on : (length bs == 0) ≡ false = ground (arith, h.0) in
    rw (on, reply-received bs h.0)
      (do_thread-echo rest (sent ++ (echo bs ∷ [])) h.1 ∙ rw append_assoc)
