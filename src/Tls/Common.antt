-- ===== src/Tls/Common.antt =====
-- tls/common.c: the helpers that the endpoints and the benchmark client share.
pub mod Escape
pub mod Sending
use hybrid_tls_lab.Prelude.{
  ℕ, zero, suc, ◌+◌, ◌-◌, ◌^◌, ◌%◌, Bool, true, false, not, ◌&&◌, ◌||◌, Option, none, some, [], ◌∷◌,
  ◌++◌, ltb, leb, ◌==◌, if◌then◌else◌, length, take,
}
use hybrid_tls_lab.Prelude.Text.{Text, codes, is_empty, all_codes, contains}
use hybrid_tls_lab.Prelude.Text.Decimal.{str_of}
use hybrid_tls_lab.Prelude.Json.{drop_codes}

-- What a buffer of `size` characters holds after `snprintf` of a text: room is left for the NUL.
abbrev pub snprintf : (size : ℕ) → Text → Text
snprintf size s = take (size - 1) s

-- a - b of two uint64_t below 2 ^ 64
abbrev pub sub64 : ℕ → ℕ → ℕ
sub64 a b = (a + 2 ^ 64 - b) % 2 ^ 64

-- The round of `json_escape` for a character.
unfoldable pub escape_code : ℕ → Text
escape_code c =
    if c == b'"' || c == b'\\'
    then b'\\' ∷ c ∷ []
    else if c == 10 || c == 13 || c == 9
    then b' ' ∷ []
    else if leb 0x20 c
    then c ∷ []
    else []

-- The loop, from `target` on.
unfoldable pub escape_from : (input : Text) → (target output_size : ℕ) → Text
escape_from [] target output_size = []
escape_from (c ∷ input) target output_size =
    let rest = escape_from input (target + length (escape_code c)) output_size in
    if ltb (target + 2) output_size then escape_code c ++ rest else []

-- none where nothing is written, not even a NUL
unfoldable pub json_escape : (input : Text) → (output_size : ℕ) → Option Text
json_escape input output_size =
    if output_size == 0 then none else some (escape_from input 0 output_size)

abbrev pub is_identifier_code : ℕ → Bool
is_identifier_code c =
    (leb b'a' c && leb c b'z')
    || (leb b'A' c && leb c b'Z')
    || (leb b'0' c && leb c b'9')
    || c == b'_'
    || c == b'-'
    || c == b'.'

unfoldable pub valid_identifier : Text → Bool
valid_identifier value =
    let size = length value in
    if size == 0 || not (leb size 160) then false else all_codes is_identifier_code value

-- What the socket calls of one `post_json` return.
pub record Connection : Type 0 where
  -- `tcp_connect_host` yields a socket
  pub connects : Bool
  -- the result of the n-th `send` of some data, none if it is not positive
  pub send : ℕ → Text → Option ℕ
  -- what the one `recv` yields after a request, none if it is not positive
  pub recv : Text → Option Text

-- The loop of `send_all` from its n-th call on, with fuel for each character: whether all went out,
-- and what the socket took until then.
unfoldable pub send_loop : (ℕ → Text → Option ℕ) → (fuel n : ℕ) → (rest : Text) → Bool × Text
send_loop send zero n rest = (is_empty rest, [])
send_loop send (suc fuel) n [] = (true, [])
send_loop send (suc fuel) n (c ∷ rest) = elim (send n (c ∷ rest)) [
  | none ↦ (false, [])
  | some result ↦
      let (done, more) = send_loop send fuel (suc n) (drop_codes result (c ∷ rest)) in
      (done, take result (c ∷ rest) ++ more)
]

unfoldable pub send_all : (ℕ → Text → Option ℕ) → (n : ℕ) → Text → Bool × Text
send_all send n text = send_loop send (length text) n text

unfoldable pub header_text : (host path json : Text) → Text
header_text host path json =
    codes "POST "
    ++ (path
        ++ (codes " HTTP/1.1\r\nHost: "
            ++ (host
                ++ (codes "\r\nContent-Type: application/json\r\nContent-Length: "
                    ++ (str_of (length json) ++ codes "\r\nConnection: close\r\n\r\n")))))

-- `strstr(response, " 200 ")` or " 201 "
abbrev pub is_success : Text → Bool
is_success response = contains (codes " 200 ") response || contains (codes " 201 ") response

-- The test of what `recv` has put into the buffer.
abbrev pub accepted : Option Text → Bool
accepted none = false
accepted (some received) = is_success (take 255 received)

-- Whether `post_json` returns 0, and what it has sent by then. The n of the second `send_all` counts
-- on from the first, which has at most one call for each character.
unfoldable pub post_json : Connection → (host path json : Text) → Bool × Text
post_json connection host path json =
    let header = header_text host path json in
    if not connection.connects
    then (false, [])
    else if leb 1024 (length header)
    then (false, [])
    else let (head_sent, head) = send_all connection.send 0 header in
      let (body_sent, body) = send_all connection.send (length header) json in
      if not head_sent
      then (false, head)
      else if not body_sent
      then (false, head ++ body)
      else (accepted (connection.recv (head ++ body)), head ++ body)
