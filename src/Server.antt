-- ===== src/Server.antt =====
-- internal/server/server.go with internal/middleware/logging.go and recover.go: the middlewares that give
-- every request an id, a line of the log and an answer, in the order in which `New` stacks them.
pub mod Laws
mod Tests
use lite_end_go.Base.{
  ℕ, suc, ◌≡◌, Bool, true, false, not, ◌&&◌, ◌||◌, Option, none, some, List, [], ◌∷◌, ◌++◌, leb,
  ltb, ◌==◌, if◌then◌else◌, length,
}
use lite_end_go.Strings.{Text, codes, within}
use lite_end_go.Net.{IpText}
use lite_end_go.Http.{Request, Response, write_error}
use lite_end_go.Logger.{Level, info_level, warn_level, error_level}
use lite_end_go.Middleware.RealIp.{real_ip}

-- `[A-Za-z0-9._-]`.
abbrev pub id_char : ℕ → Bool
id_char c =
    within b'A' b'Z' c
    || within b'a' b'z' c
    || within b'0' b'9' c
    || c == b'.'
    || c == b'_'
    || c == b'-'

unfoldable pub id_chars : Text → Bool
id_chars [] = true
id_chars (c ∷ s) = id_char c && id_chars s

-- `clientRequestID.MatchString`.
unfoldable pub client_request_id : Text → Bool
unfolding id_chars
client_request_id id = leb 1 (length id) && leb (length id) 128 && id_chars id

-- What `requestID` picks, given a fresh UUID.
unfoldable pub request_id : Text → Request → Text
unfolding client_request_id
request_id fresh r = if client_request_id r.request_id then r.request_id else fresh

-- A panic: `http.ErrAbortHandler`, or with any other value.
pub data Panic : Type 0 where
  abort : Panic
  value : Text → Panic

-- A line of the log, without the method, the size and the duration.
pub data Line : Type 0 where
  panic_recovered : Text → (path request_id : Text) → Line
  http_request : Level → (path : Text) → (status : ℕ) → (request_id remote : Text) → Line
  other_line : (request_id : Text) → Text → Line

-- How a handler is left: what it has logged, the answer that it has begun, and its panic.
pub record Served : Type 0 where
  pub lines : List Line
  pub answer : Option Response
  pub panic : Option Panic

-- A handler is given the request and its id.
abbrev pub Handler : Type 0
Handler = Text → Request → Served

-- An answer that has begun keeps its status; what is written after it is not followed.
abbrev pub begun_or : Option Response → Response → Response
begun_or none r = r
begun_or (some begun) r = begun

abbrev pub after_panic : Text → Request → Served → Option Panic → Served
after_panic id r s none = s
after_panic id r s (some abort) = s
after_panic id r s (some (value v)) = record {
  lines = s.lines ++ panic_recovered v r.path id ∷ [];
  answer = some (begun_or s.answer (write_error [] 500 (codes "Internal Server Error")));
  panic = none;
}

-- `Recoverer`.
unfoldable pub recoverer : Handler → Handler
recoverer next id r = after_panic id r (next id r) (next id r).panic

-- `statusLevel`.
unfoldable pub status_level : ℕ → Level
status_level status =
    if leb 500 status then error_level else if leb 400 status then warn_level else info_level

-- `ww.Status()`: 0 while no answer has begun.
abbrev pub status_of : Option Response → ℕ
status_of none = 0
status_of (some a) = a.status

abbrev pub logged : Text → Request → Served → Option Panic → Served
unfolding status_level
logged id r s (some p) = s
logged id r s none =
    let status = status_of s.answer in
    record s {
      lines = s.lines ++ http_request (status_level status) r.path status id r.remote_addr ∷ [];
    }

-- `RequestLogger`; a panic passes it by.
unfoldable pub request_logger : Handler → Handler
unfolding logged
request_logger next id r = logged id r (next id r) (next id r).panic

module _ (ip : IpText) where
  -- The stack of `New` down to `Recoverer`, outermost first; what follows is `next`. A fresh UUID and
  -- the trusted hops are arguments.
  unfoldable pub serve : Text → ℕ → Handler → Request → Served
  unfolding request_id request_logger recoverer
  serve fresh trusted_hops next r =
      request_logger (recoverer next) (request_id fresh r) (real_ip ip trusted_hops r)
