-- ===== src/Response/Commit.antt =====
-- `int_to_hex`, `commit` and `commit_headers` of http_response.cpp.
use server_coursework.Base.{
  ℕ, zero, suc, ◌+◌, ◌-◌, ◌*◌, ◌/◌, ◌%◌, none, some, [], ◌∷◌, ◌++◌, if◌then◌else◌, Bytes, codes,
  bytes_eq, length, take, drop,
}
use server_coursework.Text.Number.{to_string, to_hex}
use server_coursework.OrdMap.{lookup, insert}
use server_coursework.OrdMap.Keys.{bytes_Less}
use server_coursework.Message.{space, crlf}
use server_coursework.Message.Header.{print_headers}
use server_coursework.Response.{Response, transfer_encoding, chunked}

-- `std::setw(width) << std::setfill('0')`
pad : ℕ → Bytes → Bytes
pad zero s = s
pad (suc width) s = b'0' ∷ pad width s

-- `sizeof(T)` is 4 for the `int` and 8 for the `std::size_t` that it is called with.
unfoldable pub int_to_hex : ℕ → ℕ → Bytes
unfolding pad to_hex
int_to_hex size i = b'0' ∷ b'x' ∷ pad (size * 2 - length (to_hex i)) (to_hex i)

abbrev pub chunk_size : ℕ
chunk_size = 100

-- Rounds `i`, `i + 1`, … of the loop over the whole chunks; `chunk_size * i` is an `int`, and below
-- 2^31 as long as the body is shorter than that.
unfoldable pub whole_chunks : ℕ → ℕ → Bytes → Bytes
unfolding int_to_hex
whole_chunks zero i body = []
whole_chunks (suc rounds) i body =
    (int_to_hex 4 chunk_size ++ (crlf ++ (take chunk_size (drop (chunk_size * i) body) ++ crlf)))
    ++ whole_chunks rounds (i + 1) body

unfoldable pub commit_chunks : Bytes → Bytes
unfolding whole_chunks
commit_chunks body =
    whole_chunks (length body / chunk_size) 0 body
    ++ (int_to_hex 8 (length body % chunk_size)
        ++ (crlf ++ (drop (length body - length body % chunk_size) body ++ codes "\r\n0\r\n")))

unfoldable pub commit_headers : Response → Bytes
unfolding print_headers to_string
commit_headers r =
    (codes "HTTP/1.1 "
      ++ (to_string r.status_code.code ++ (space ++ (r.status_code.description ++ crlf))))
    ++ (print_headers r.headers ++ crlf)

-- `headers["Transfer-Encoding"]`: the value, and the headers with an entry made where there is none.
unfoldable pub touch_encoding : Response → Bytes × Response
touch_encoding r = elim (lookup transfer_encoding r.headers) [
  | some encoding ↦ (encoding, r)
  | none ↦ ([], record r { headers = insert transfer_encoding [] r.headers })
]

-- The text, and the response that `commit` leaves behind.
unfoldable pub commit : Response → Bytes × Response
unfolding commit_headers commit_chunks touch_encoding bytes_eq
commit r =
    let touched = touch_encoding r in
    (
      commit_headers r
          ++ ((if bytes_eq touched.0 chunked then commit_chunks r.body else r.body) ++ crlf),
      touched.1,
    )
