-- ===== src/Http/Types.antt =====
-- The state of a connection, `HttpConn` of webserver/include/http_conn.h.
use my_tcp_cs.Base.{◌≡◌, refl, ℕ, Bool, false, Option, none, List, [], replicate, codes}

-- READ_BUFFER_SIZE_, WRITE_BUFFER_SIZE_ and FILENAME_LEN_.
abbrev pub read_buffer_size : ℕ
read_buffer_size = 2048

abbrev pub write_buffer_size : ℕ
write_buffer_size = 2048

abbrev pub filename_len : ℕ
filename_len = 200

abbrev pub doc_root : List ℕ
doc_root = codes "/home/lj/lession/webserver/resources"

pub data Method : Type 0 where
  get post head put delete trace options connect : Method

pub data CheckState : Type 0 where
  request_line header content : CheckState

pub data LineStatus : Type 0 where
  line_ok line_bad line_open : LineStatus

pub data HttpCode : Type 0 where
  no_request get_request bad_request no_resource : HttpCode
  forbidden_request file_request internal_error closed_connection : HttpCode

-- `struct stat`, as far as it is read: `st_mode & S_IROTH`, `S_ISDIR(st_mode)` and `st_size`.
pub record Stat : Type 0 where
  pub others_read : Bool
  pub is_dir : Bool
  pub size : ℕ

-- Where an `iovec` points: into `m_write_buf_`, into the mapped file, or in front of it.
pub data Base : Type 0 where
  buffer_at : ℕ → Base
  file_at : ℕ → Base
  before_file : ℕ → Base

pub record Iovec : Type 0 where
  pub base : Base
  pub len : ℕ

-- Pointers into `m_read_buf_` are offsets, and null is `none`. A file mapping is the file's bytes.
-- Of `m_write_buf_` the model keeps the bytes written, so that `m_write_idx_` is their number.
-- `sockfd` is `none` for -1, and `addr` names the client's address.
pub record HttpConn : Type 0 where
  pub sockfd : Option ℕ
  pub addr : ℕ
  pub timer : ℕ
  pub read_buf : List ℕ
  pub read_idx : ℕ
  pub checked_idx : ℕ
  pub start_of_line : ℕ
  pub write_buf : List ℕ
  pub iv0 : Iovec
  pub iv1 : Iovec
  pub iv_count : ℕ
  -- The words of `int`s.
  pub bytes_to_send : ℕ
  pub bytes_have_send : ℕ
  pub check_status : CheckState
  pub method : Method
  pub real_file : List ℕ
  pub real_file_stat : Stat
  pub file_address : Option (List ℕ)
  pub url : Option ℕ
  pub version : Option ℕ
  pub host : Option ℕ
  pub content_length : ℕ
  pub linger : Bool

-- `HttpConn::Init()`. The timer, the socket, the `iovec`s and the file mapping stay.
unfoldable pub init : HttpConn → HttpConn
init c = record c {
  bytes_have_send = 0;
  bytes_to_send = 0;
  write_buf = [];
  check_status = request_line;
  linger = false;
  method = get;
  url = none;
  version = none;
  host = none;
  content_length = 0;
  real_file = replicate filename_len 0;
  start_of_line = 0;
  checked_idx = 0;
  read_idx = 0;
  read_buf = replicate read_buffer_size 0;
}

-- `Init()` leaves the descriptor and the timer.
pub init_same : (c : HttpConn) → ((init c).sockfd ≡ c.sockfd) × ((init c).timer ≡ c.timer)
unfolding init
init_same c = (refl, refl)

-- `HttpConn()`, on memory that holds anything: it sets the descriptor, the address and the timer.
unfoldable pub new_conn : (before : HttpConn) → HttpConn
new_conn before = record before { sockfd = none; addr = 0; timer = 0 }

pub new_conn-closed : (before : HttpConn) → (new_conn before).sockfd ≡ none
unfolding new_conn
new_conn-closed before = refl
