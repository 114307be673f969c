-- ===== src/Http/Response/Append.antt =====
-- add_response appends its text, whole or not at all.
use nowcoder_linux_learning.Base.{
  ℕ, zero, suc, ◌+◌, ◌-◌, ◌≤◌, ◌<◌, ◌≡◌, refl, ap, sym, ◌∙◌, true, false, [], ◌∷◌, ◌++◌, take,
  length, overwrite, length-append, length-overwrite, arith,
}
use mathlib.Core.List.{append-nil, append_assoc}
use nowcoder_linux_learning.CString.{Bytes}
use nowcoder_linux_learning.Http.Conn.{write_buffer_size, HttpConn}
use nowcoder_linux_learning.Http.Response.{vsnprintf_bytes, add_response}

-- The part of the write buffer that is to be sent.
abbrev pub written : HttpConn → Bytes
written c = take c.write_idx c.write_buf

-- The write buffer has its size, and room for a NUL.
pub record IsWritable (c : HttpConn) : Type 0 where
  pub sized : length c.write_buf ≡ write_buffer_size
  pub in_bounds : c.write_idx < write_buffer_size - 1

take-overwrite_self : (buf : Bytes) (i : ℕ) (ys : Bytes) → take i (overwrite buf i ys) ≡ take i buf
take-overwrite_self [] zero ys = refl
take-overwrite_self [] (suc i) ys = refl
take-overwrite_self (x ∷ buf) zero ys = refl
take-overwrite_self (x ∷ buf) (suc i) ys = ap (◌∷◌ x) (take-overwrite_self buf i ys)

take-overwrite :
    (buf : Bytes) (i : ℕ) (t u : Bytes) (k : ℕ)
    → k ≡ i + length t
    → k ≤ length buf
    → take k (overwrite buf i (t ++ u)) ≡ take i buf ++ t
take-overwrite buf zero [] u zero e h = refl
take-overwrite buf zero [] u (suc k) e h = absurd (omega arith)
take-overwrite buf zero (y ∷ t) u zero e h = absurd (omega arith)
take-overwrite [] zero (y ∷ t) u (suc k) e h = absurd (omega arith)
take-overwrite (x ∷ buf) zero (y ∷ t) u (suc k) e h =
    ap (◌∷◌ y) (take-overwrite buf zero t u k (omega arith) (omega arith))
take-overwrite buf (suc i) t u zero e h = absurd (omega arith)
take-overwrite [] (suc i) t u (suc k) e h = absurd (omega arith)
take-overwrite (x ∷ buf) (suc i) t u (suc k) e h =
    ap (◌∷◌ x) (take-overwrite buf i t u k (omega arith) (omega arith))

take_all : (k : ℕ) (t : Bytes) → length t ≤ k → take k t ≡ t
take_all zero [] h = refl
take_all zero (x ∷ t) h = absurd (omega arith)
take_all (suc k) [] h = refl
take_all (suc k) (x ∷ t) h = ap (◌∷◌ x) (take_all k t (omega arith))

-- `d` is `c` with a text appended to what is to be sent.
pub record Appends (c : HttpConn) (text : Bytes) (d : HttpConn) : Type 0 where
  pub frame : d ≡ record c { write_buf = d.write_buf; write_idx = d.write_idx }
  pub appended : written d ≡ written c ++ text
  pub advanced : d.write_idx ≡ c.write_idx + length text
  pub writable : IsWritable d

module _ (c : HttpConn) (text : Bytes) (w : IsWritable c) where
  room : ℕ
  room = write_buffer_size - 1 - c.write_idx

  put : Bytes → Bytes
  put = overwrite c.write_buf c.write_idx

  fits_lem :
      c.write_idx + length text < write_buffer_size - 1
      → add_response c text ≡ (
        record c { write_buf = put (text ++ 0 ∷ []); write_idx = c.write_idx + length text },
        true,
      )
  unfolding add_response put
  fits_lem h =
      ground
        (arith, w.in_bounds, take_all (write_buffer_size - 1 - c.write_idx - 1) text (omega arith))

  full_lem :
      write_buffer_size - 1 ≤ c.write_idx + length text
      → add_response c text ≡ (record c { write_buf = put (vsnprintf_bytes text room) }, false)
  unfolding add_response put room
  full_lem h = ground (arith, w.in_bounds)

  -- add_response appends a text that is shorter than the room left in the write buffer: it returns
  -- true, the bytes to be sent are those from before and then the text, m_write_idx moves on by its
  -- length and stays in the buffer, and no other field changes.
  pub add_response-Appends :
      c.write_idx + length text < write_buffer_size - 1
      → ((add_response c text).1 ≡ true) × Appends c text (add_response c text).0
  unfolding put
  add_response-Appends h = rw (fits_lem h) (
    refl,
    record {
      frame = refl;
      appended =
          take-overwrite c.write_buf c.write_idx text (0 ∷ []) _ refl (omega (arith, w.sized));
      advanced = refl;
      writable = record {
        sized = length-overwrite c.write_buf c.write_idx (text ++ 0 ∷ []) ∙ w.sized;
        in_bounds = h;
      };
    },
  )

  -- add_response returns false for a text as long as the room left in the write buffer, or longer:
  -- the bytes to be sent and m_write_idx are what they were, the buffer keeps its size, and no
  -- other field changes.
  pub add_response_full :
      write_buffer_size - 1 ≤ c.write_idx + length text
      → ((add_response c text).1 ≡ false) × Appends c [] (add_response c text).0
  unfolding put
  add_response_full h = rw (full_lem h) (
    refl,
    record {
      frame = refl;
      appended = take-overwrite_self c.write_buf c.write_idx _ ∙ sym (append-nil _);
      advanced = omega arith;
      writable = record {
        sized = length-overwrite c.write_buf c.write_idx _ ∙ w.sized;
        in_bounds = w.in_bounds;
      };
    },
  )

-- Two texts in a row.
pub Appends-trans :
    {c d e : HttpConn} {s t : Bytes} → Appends c s d → Appends d t e → Appends c (s ++ t) e
Appends-trans {c} {d} {e} {s} {t} a b = record {
  frame =
      b.frame
      ∙ ap (λ (x : HttpConn). record x { write_buf = e.write_buf; write_idx = e.write_idx })
          a.frame;
  appended = b.appended ∙ ap (λ x. x ++ t) a.appended ∙ append_assoc (written c) s t;
  advanced = omega (arith, a.advanced, b.advanced, length-append s t);
  writable = b.writable;
}

-- A text that fits, behind others that do.
pub Appends-next :
    {c d : HttpConn} {s : Bytes} (t : Bytes)
    → Appends c s d
    → c.write_idx + length s + length t < write_buffer_size - 1
    → ((add_response d t).1 ≡ true) × Appends c (s ++ t) (add_response d t).0
Appends-next {c} {d} {s} t a h =
    let r = add_response-Appends d t a.writable (omega (arith, a.advanced)) in
    (r.0, Appends-trans a r.1)
