-- ===== src/Chapter4/TcpServer/Processes/Reply.antt =====
-- What the child of a client answers, and what the parent keeps.
use nowcoder_linux_learning.Base.{
  ◌≡◌, ◌∙◌, true, false, ◌==◌, some, List, [], ◌∷◌, ◌++◌, map, length, arith,
}
use mathlib.Core.List.{append-nil, append_assoc}
use nowcoder_linux_learning.CString.{Bytes, codes}
use nowcoder_linux_learning.Chapter4.TcpServer.{received, message, hang_up}
use nowcoder_linux_learning.Chapter4.TcpServer.Echo.{IsText, AllTexts, received-c_string}
use nowcoder_linux_learning.Chapter4.TcpServer.Processes.{process_reply, exits_0, child_loop}

abbrev pub answer : Bytes → Bytes
answer bs = codes "received " ++ (bs ++ (0 ∷ []))

process_reply-received : (bs : Bytes) → IsText bs → process_reply (received bs) ≡ some (answer bs)
unfolding process_reply
process_reply-received bs h =
    let off : (length bs == 1024) ≡ false = ground (arith, h.1) in rw (received-c_string bs h, off)

-- The child of a client answers each text, in their order, by `received ` and the text with its NUL,
-- and exits with 0 when the client hangs up, provided that each text comes with a read of its own,
-- has a byte at least, has no NUL and is shorter than 1024 bytes, and that each write works.
pub child_loop-answer :
    (texts sent : List Bytes)
    → AllTexts texts
    → child_loop (map (λ bs. message bs true) texts ++ (hang_up ∷ [])) sent
      ≡ exits_0 (sent ++ map answer texts)
unfolding child_loop
child_loop-answer [] sent h = rw append-nil
child_loop-answer (bs ∷ rest) sent h =
    let on : (length bs == 0) ≡ false = ground (arith, h.0) in
    rw (on, process_reply-received bs h.0)
      (child_loop-answer rest (sent ++ (answer bs ∷ [])) h.1 ∙ rw append_assoc)
