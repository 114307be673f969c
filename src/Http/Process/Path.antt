-- ===== src/Http/Process/Path.antt =====
-- The file that do_request looks for, and what it answers.
use nowcoder_linux_learning.Base.{
  ℕ, ◌-◌, ◌≡◌, refl, ap, ◌∙◌, if◌then◌else◌, Bool-cases, inl, inr, Option, none, some, [], ◌∷◌,
  ◌++◌, length, take, replicate, overwrite, arith,
}
use nowcoder_linux_learning.CString.{Bytes, c_string}
use nowcoder_linux_learning.CString.Words.{HasNoNul, c_string-HasNoNul, c_string_behind}
use nowcoder_linux_learning.Http.Conn.{
  filename_len, HttpConn, HttpCode, no_resource, forbidden_request, bad_request, file_request,
  FileStat,
}
use nowcoder_linux_learning.Http.Process.{
  Os, map_file, done, doc_root, strncpy_bytes, read_by_others, is_directory, serve_file,
  request_file, do_request,
}

-- What the answer to a path is, by the comment above do_request: the file is there, it is readable
-- for all, and it is no directory.
abbrev pub answer : Option FileStat → HttpCode
answer none = no_resource
answer (some st) =
    if read_by_others st
    then if is_directory st then bad_request else file_request
    else forbidden_request

-- The path that a URL names: as much of the URL as fits, behind the root of the documents.
abbrev pub path_of : Bytes → Bytes
path_of url = doc_root ++ take 163 url

file_name :
    (u : Bytes)
    → HasNoNul u
    → c_string
        (overwrite
          (overwrite (replicate filename_len 0) 0 (doc_root ++ (0 ∷ [])))
          (length doc_root)
          (strncpy_bytes u 163))
        0
      ≡ path_of u
unfolding strncpy_bytes
file_name u h = c_string_behind doc_root 163 (163 - length u) u root h
  where
    root : HasNoNul doc_root
    root = ground arith

serve_file-answer :
    (os : Os) (c : HttpConn) (o : Option FileStat)
    → (d : HttpConn) × (serve_file os c o ≡ done d (answer o)) × (d.real_file ≡ c.real_file)
unfolding serve_file
serve_file-answer os c none = (c, refl, refl)
serve_file-answer os c (some st) = elim (Bool-cases (read_by_others st)) [
  | inr a ↦ rw a (record c { file_stat = st }, refl, refl)
  | inl a ↦ elim (Bool-cases (is_directory st)) [
    | inl b ↦ rw (a, b) (record c { file_stat = st }, refl, refl)
    | inr b ↦
        rw (a, b)
          (
            record c {
              file_stat = st;
              file_address = map_file os (c_string c.real_file 0) st.st_size;
            },
            refl,
            refl,
          )
  ]
]

request_file-answer :
    (os : Os) (c : HttpConn) (u : ℕ)
    → c.real_file ≡ replicate filename_len 0
    → let path = path_of (c_string c.read_buf u) in
      (d : HttpConn) × (request_file os c u ≡ done d (answer (os.stat path)))
      × (c_string d.real_file 0 ≡ path)
unfolding request_file
request_file-answer os c u f =
    let s = c_string c.read_buf u in
    let root = overwrite c.real_file 0 (doc_root ++ (0 ∷ [])) in
    let c' = record c { real_file = overwrite root (length doc_root) (strncpy_bytes s 163) } in
    let path : c_string c'.real_file 0 ≡ path_of s =
      rw f (file_name s (c_string-HasNoNul c.read_buf u)) in
    let (d, ends, kept) = serve_file-answer os c' (os.stat (c_string c'.real_file 0)) in
    (d, ends ∙ ap (λ x. done d (answer (os.stat x))) path, ap (λ x. c_string x 0) kept ∙ path)

pub do_request-file :
    (os : Os) (c : HttpConn) (u : ℕ) → c.url ≡ some u → do_request os c ≡ request_file os c u
unfolding do_request
do_request-file os c u e = ground arith

-- With a URL, and m_real_file cleared by init, do_request comes to an end. It asks for the path
-- that is the root of the documents and the URL behind it, cut off after 163 bytes, and answers
-- NO_RESOURCE if stat fails there, FORBIDDEN_REQUEST if not all may read it, BAD_REQUEST if it is a
-- directory, and FILE_REQUEST otherwise; m_real_file holds the path.
pub do_request-answer :
    (os : Os) (c : HttpConn) (u : ℕ)
    → c.url ≡ some u
    → c.real_file ≡ replicate filename_len 0
    → let path = path_of (c_string c.read_buf u) in
      (d : HttpConn) × (do_request os c ≡ done d (answer (os.stat path)))
      × (c_string d.real_file 0 ≡ path)
do_request-answer os c u e f =
    let (d, ends, path) = request_file-answer os c u f in (d, do_request-file os c u e ∙ ends, path)
