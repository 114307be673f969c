-- ===== src/Http/Conn.antt =====
-- webserver/http_conn.h: the constants, the enums and the fields of http_conn, and
-- http_conn::init of webserver/http_conn.cpp.
-- A `char *` into the read buffer is an offset, and NULL is `none`; a socket of -1 is `none`.
use nowcoder_linux_learning.Base.{ℕ, Bool, true, Option, none, replicate, ℤ, pos}
use nowcoder_linux_learning.CString.{Bytes}

abbrev pub filename_len : ℕ
filename_len = 200

abbrev pub read_buffer_size : ℕ
read_buffer_size = 2048

abbrev pub write_buffer_size : ℕ
write_buffer_size = 1024

pub data Method : Type 0 where
  get post head put delete trace options connect patch : Method

pub data CheckState : Type 0 where
  check_state_requestline check_state_header check_state_content : CheckState

pub data LineStatus : Type 0 where
  line_ok line_bad line_open : LineStatus

pub data HttpCode : Type 0 where
  no_request get_request bad_request no_resource : HttpCode
  forbidden_request file_request internal_error closed_connection : HttpCode

pub record SockAddr : Type 0 where
  pub ip : ℕ
  pub port : ℕ

-- The fields of `struct stat` that the server reads.
pub record FileStat : Type 0 where
  pub st_mode : ℕ
  pub st_size : ℕ

-- `iov_base` points at the write buffer, or at an address of a mapped file.
pub data IovBase : Type 0 where
  write_buffer : IovBase
  address : ℕ → IovBase

pub record Iovec : Type 0 where
  pub iov_base : IovBase
  pub iov_len : ℕ

pub record HttpConn : Type 0 where
  pub sockfd : Option ℕ
  pub address : SockAddr
  pub read_buf : Bytes
  pub write_buf : Bytes
  pub read_idx : ℕ
  pub checked_idx : ℕ
  pub start_line : ℕ
  pub write_idx : ℕ
  pub check_state : CheckState
  pub method : Method
  pub real_file : Bytes
  pub url : Option ℕ
  pub host : Option ℕ
  pub version : Option ℕ
  pub content_length : ℤ
  pub linger : Bool
  pub file_address : ℕ
  pub file_stat : FileStat
  pub iv_0 : Iovec
  pub iv_1 : Iovec
  pub iv_count : ℕ

unfoldable pub init : HttpConn → HttpConn
init c = record c {
  check_state = check_state_requestline;
  linger = true;
  method = get;
  url = none;
  version = none;
  content_length = pos 0;
  host = none;
  start_line = 0;
  checked_idx = 0;
  read_idx = 0;
  write_idx = 0;
  read_buf = replicate read_buffer_size 0;
  write_buf = replicate write_buffer_size 0;
  real_file = replicate filename_len 0;
}
