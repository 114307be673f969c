-- ===== src/Http/Tests/Replies.antt =====
-- The theorems on responses at small connections.
use nowcoder_linux_learning.Base.{◌≡◌, refl, true, some, [], ◌∷◌, ◌++◌, arith}
use nowcoder_linux_learning.CString.{codes}
use nowcoder_linux_learning.Http.Conn.{HttpConn, no_resource, file_request}
use nowcoder_linux_learning.Http.Response.{
  error_400_title, error_400_form, error_403_title, error_403_form, add_response, process_write,
}
use nowcoder_linux_learning.Http.Response.Append.{IsWritable, Appends, add_response-Appends}
use nowcoder_linux_learning.Http.Response.Pages.{page, Sends}
use nowcoder_linux_learning.Http.Response.Codes.{
  process_write_no_resource, SendsFile, process_write-SendsFile,
}
use nowcoder_linux_learning.Http.Write.{
  sent, again, writev, epollout, modfd, iovecs, finish_write, write,
}
use nowcoder_linux_learning.Http.Write.Early.{sends, write_stops, write_again}
use nowcoder_linux_learning.Http.Tests.{blank_conn}
use nowcoder_linux_learning.Base.{true, map}

abbrev with_file : HttpConn
with_file = record blank_conn { file_stat = record { st_mode = 0o100644; st_size = 42 } }

with_file-IsWritable : IsWritable with_file
with_file-IsWritable = record { sized = refl; in_bounds = omega arith }

blank_conn-IsWritable : IsWritable blank_conn
blank_conn-IsWritable = record { sized = refl; in_bounds = omega arith }

process_write-SendsFile_example : SendsFile with_file (process_write with_file file_request)
process_write-SendsFile_example =
    process_write-SendsFile with_file with_file-IsWritable refl (ground arith)

process_write_no_resource_example :
    Sends blank_conn
      (page true 400 error_400_title error_400_form ++ page true 403 error_403_title error_403_form)
      (process_write blank_conn no_resource)
process_write_no_resource_example = process_write_no_resource blank_conn blank_conn-IsWritable refl

add_response-Appends_example :
    ((add_response blank_conn (codes "HTTP/1.1 200 OK")).1 ≡ true)
    × Appends blank_conn
        (codes "HTTP/1.1 200 OK")
        (add_response blank_conn (codes "HTTP/1.1 200 OK")).0
add_response-Appends_example =
    add_response-Appends blank_conn (codes "HTTP/1.1 200 OK") blank_conn-IsWritable (omega arith)

abbrev nearly_full : HttpConn
nearly_full = record blank_conn { write_idx = 1020 }

nearly_full-IsWritable : IsWritable nearly_full
nearly_full-IsWritable = record { sized = refl; in_bounds = omega arith }

-- A head of 60 bytes and a file of 42.
abbrev answering : HttpConn
answering = record with_file { write_idx = 60; iv_count = 2 }

write_stops_example :
    write (map sent (10 ∷ []) ++ (sent 20 ∷ [])) answering
    ≡ some
        (finish_write answering (sends answering (10 ∷ []) ++ (writev (iovecs answering) 20 ∷ [])))
write_stops_example = write_stops answering (10 ∷ []) [] (omega arith) 20 (omega arith)

write_again_example :
    write (map sent (10 ∷ []) ++ (again ∷ [])) answering
    ≡ some (record {
      conn = answering;
      effects = sends answering (10 ∷ []) ++ modfd (some 5) epollout;
      kept = true;
    })
write_again_example = write_again answering (10 ∷ []) [] (omega arith)
