-- ===== src/StatusLine.antt =====
-- src/network-util.c: the reason phrase and the status line of `network_send_error`.
pub mod Laws
mod Tests
use alilua.Prelude.{
  ℕ, ◌+◌, ◌*◌, ◌/◌, ◌%◌, Option, none, some, List, [], ◌∷◌, ◌++◌, Bytes, codes, ltb, ◌==◌,
  if◌then◌else◌,
}

-- `code < 300`
pub reason_below_300 : ℕ → Option Bytes
reason_below_300 code =
    if code == 100
    then some (codes "Continue")
    else if code == 101
    then some (codes "Switching Protocols")
    else if code == 200
    then some (codes "OK")
    else if code == 201
    then some (codes "Created")
    else if code == 202
    then some (codes "Accepted")
    else if code == 203
    then some (codes "Non-Authoritative Information")
    else if code == 204
    then some (codes "No Content")
    else if code == 205
    then some (codes "Reset Content")
    else if code == 206
    then some (codes "Partial Content")
    else none

-- `code < 400`
pub reason_below_400 : ℕ → Option Bytes
reason_below_400 code =
    if code == 300
    then some (codes "Multiple Choices")
    else if code == 301
    then some (codes "Moved Permanently")
    else if code == 302
    then some (codes "Found")
    else if code == 303
    then some (codes "See Other")
    else if code == 304
    then some (codes "Not Modified")
    else if code == 305
    then some (codes "Use Proxy")
    else if code == 307
    then some (codes "Temporary Redirect")
    else none

-- `code < 500`
pub reason_below_500 : ℕ → Option Bytes
reason_below_500 code =
    if code == 400
    then some (codes "Bad Request")
    else if code == 401
    then some (codes "Unauthorized")
    else if code == 402
    then some (codes "Payment Required")
    else if code == 403
    then some (codes "Forbidden")
    else if code == 404
    then some (codes "Not Found")
    else if code == 405
    then some (codes "Method Not Allowed")
    else if code == 406
    then some (codes "Not Acceptable")
    else if code == 407
    then some (codes "Proxy Authentication Required")
    else if code == 408
    then some (codes "Request Timeout")
    else if code == 409
    then some (codes "Conflict")
    else if code == 410
    then some (codes "Gone")
    else if code == 411
    then some (codes "Length Required")
    else if code == 412
    then some (codes "Precondition Failed")
    else if code == 413
    then some (codes "Request Entity Too Large")
    else if code == 414
    then some (codes "Request-URI Too Long")
    else if code == 415
    then some (codes "Unsupported Media Type")
    else if code == 416
    then some (codes "Requested Range Not Satisfiable")
    else if code == 417
    then some (codes "Expectation Failed")
    else none

-- The codes from 500 on
pub reason_above : ℕ → Option Bytes
reason_above code =
    if code == 500
    then some (codes "Internal Server Error")
    else if code == 501
    then some (codes "Not Implemented")
    else if code == 502
    then some (codes "Bad Gateway")
    else if code == 503
    then some (codes "Service Unavailable")
    else if code == 504
    then some (codes "Gateway Timeout")
    else if code == 505
    then some (codes "HTTP Version Not Supported")
    else none

-- `code_`, which is `none` where it stays NULL.
pub reason : ℕ → Option Bytes
reason code =
    if ltb code 300
    then reason_below_300 code
    else if ltb code 400
    then reason_below_400 code
    else if ltb code 500
    then reason_below_500 code
    else reason_above code

-- `%d` of `sprintf`, for a number of three digits.
pub digits : ℕ → Bytes
digits n = (b'0' + n / 100 % 10) ∷ (b'0' + n / 10 % 10) ∷ (b'0' + n % 10) ∷ []

-- The header that is sent, for a code that has a reason phrase.
pub status_line : ℕ → Bytes → Bytes
status_line code code_ =
    codes "HTTP/1.1 "
    ++ (digits code ++ (b' ' ∷ code_ ++ codes "\r\nContent-Type: text/html; charset=UTF-8"))
