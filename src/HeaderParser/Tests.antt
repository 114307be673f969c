-- ===== src/HeaderParser/Tests.antt =====
-- The theorems on the parser of chapter_5 at small buffers.
use nowcoder_linux_learning.Base.{ℕ, List, ◌≡◌, refl, ◌++◌, length, replicate}
use nowcoder_linux_learning.CString.{codes}
use nowcoder_linux_learning.Http.Line
use nowcoder_linux_learning.Http.Request
use nowcoder_linux_learning.Http.Tests.{holding}
use nowcoder_linux_learning.HeaderParser.{
  Parser, check_state_requestline, parse_line, parse_requestline,
}
use nowcoder_linux_learning.HeaderParser.Webserver.{
  code_of, Agree, parse_line-Agree, parse_requestline-Agree,
}

abbrev text : List ℕ
text = codes "GET http://a/b HTTP/1.1\r\nHo"

abbrev parser : Parser
parser = record {
  buffer = text ++ replicate 100 0;
  checked_index = 0;
  read_index = length text;
  start_line = 0;
  checkstate = check_state_requestline;
}

parser-Agree : Agree parser (holding text)
parser-Agree = record {
  same_buffer = refl;
  same_checked = refl;
  same_read = refl;
  same_start = refl;
  same_state = refl;
}

parse_line-Agree_example :
    Agree (parse_line parser).0 (Line.parse_line (holding text)).0
    × ((Line.parse_line (holding text)).1 ≡ (parse_line parser).1)
parse_line-Agree_example = parse_line-Agree parser (holding text) parser-Agree

parse_requestline-Agree_example :
    Agree (parse_requestline parser 0).0 (Request.parse_request_line (holding text) 0).0
    × ((Request.parse_request_line (holding text) 0).1 ≡ code_of (parse_requestline parser 0).1)
parse_requestline-Agree_example = parse_requestline-Agree parser (holding text) 0 parser-Agree
