-- ===== src/Response/Tests.antt =====
-- Runs of the response parser, and the theorems about it at concrete responses.
use server_coursework.Base.{
  ◌≡◌, refl, All, List, bytes_eq, true, false, some, none, [], ◌∷◌, ◌++◌, ◌+◌, ◌==◌, if◌then◌else◌,
  arith, Bytes, codes, returns, throws, out_of_range, spins, pos, Ensures, length,
}
use server_coursework.Text.Find.{find, substr, substr_from}
use server_coursework.Text.Number.{stoi, stoul}
use server_coursework.OrdMap.{lookup, insert}
use server_coursework.OrdMap.Keys.{bytes_less, bytes_Less}
use server_coursework.Message.{crlf}
use server_coursework.Response.Trim.{trim, IsCut, trim-IsCut}
use server_coursework.Response.Commit.{commit_headers, commit, commit_chunks}
use server_coursework.Response.Chunks.{IsSize}
use server_coursework.Response.ChunkLoop.{IsWellFormed, fresh-IsWellFormed}
use server_coursework.Response.Termination.{
  append_response-IsWellFormed, append_response_complete-spins,
}
use server_coursework.Response.Encoded.{
  Chunk, IsChunk, reading, parse_chunks-encode, parse_chunks_cut-throws,
}
use server_coursework.Response.Written.{parse_chunks-commit_chunks, received}
use server_coursework.Message.{content_length}
use server_coursework.Message.Line.{Fits}
use server_coursework.Text.Number.{is_space}
use server_coursework.Response.Lines.{IsTitle}
use server_coursework.Response.Whole.{
  append_response_unmarked, append_data-commit, append_response_exact,
}
use server_coursework.Response.RoundTrip.{IsPrintable, at_body, append_response-commit_headers}
use server_coursework.Response.Twice.{commit_twice}
use server_coursework.Response.Bodies.{
  IsInBody, append_all, append_all_other, append_data_chunks-split,
}
use server_coursework.Response.Status.{status_ok}
use server_coursework.Response.{
  Response, fresh, is_complete, transfer_encoding, chunked, parse_chunks, parse_body, parse_loop,
  append_data, receive,
}

-- Behind its headers, of which `headers` is the only one.
abbrev in_body : Bytes → Bytes → Response
in_body name value = record (fresh (pos 200)) {
  status_code = status_ok;
  headers = (name, value) ∷ [];
  title_parsed = true;
  headers_parsed = true;
}

abbrev done : Response
done = record (in_body (codes "Host") (codes "h")) { body_parsed = true }

plain_read :
    append_data (fresh (pos 7)) (codes "HTTP/1.1 200 OK\r\nHost:  h \r\nHost: g\r\n\r\n")
    ≡ returns done
unfolding append_data find substr substr_from insert bytes_less lookup trim stoi
plain_read = refl

chunks_read :
    append_data (fresh (pos 7)) (
      codes "HTTP/1.1 200 OK\r\nTransfer-Encoding: chunked\r\n\r\n2\r\nhi\r\n0x1\r\n!\r\n0\r\n\r\n")
    ≡ returns
        (record (in_body transfer_encoding chunked) { body = codes "hi!"; body_parsed = true })
unfolding append_data find substr substr_from insert bytes_less lookup trim stoi stoul
chunks_read = refl

commit-done : (commit done).0 ≡ codes "HTTP/1.1 200 OK\r\nHost: h\r\n\r\n\r\n"
unfolding commit lookup bytes_less insert
commit-done = refl

append_response-IsWellFormed_example :
    Ensures IsWellFormed (append_data (fresh (pos 0)) (codes "HTTP/1.1 200 OK\r\nHo"))
append_response-IsWellFormed_example =
    append_response-IsWellFormed (fresh (pos 0)) (codes "HTTP/1.1 200 OK\r\nHo")
      (fresh-IsWellFormed (pos 0) []) refl (omega arith)

append_response_complete-spins_example :
    (parse_loop 1000 (receive done (codes "x")) ≡ spins) × (append_data done (codes "x") ≡ spins)
append_response_complete-spins_example = append_response_complete-spins done (codes "x") 1000 refl

abbrev chunking : Response
chunking = in_body transfer_encoding chunked

in_body-IsWellFormed : (name value : Bytes) → IsWellFormed (in_body name value)
in_body-IsWellFormed name value = record {
  title_first = λ _. refl;
  headers_first = λ _. refl;
  sorted = (tt, tt);
}

abbrev two_chunks : List Chunk
two_chunks =
    record { digits = codes "2"; piece = codes "hi" }
    ∷ record { digits = codes "1"; piece = codes "!" }
    ∷ []

two_chunks-IsChunk : All IsChunk two_chunks
unfolding stoul
two_chunks-IsChunk = (
  record { sized = record { one_line = omega arith; reads = refl }; nonempty = omega arith },
  (record { sized = record { one_line = omega arith; reads = refl }; nonempty = omega arith }, tt),
)

zero-IsSize : IsSize (codes "0") 0
unfolding stoul
zero-IsSize = record { one_line = omega arith; reads = refl }

five-IsSize : IsSize (codes "5") 5
unfolding stoul
five-IsSize = record { one_line = omega arith; reads = refl }

parse_chunks-encode_example :
    parse_chunks (reading chunking (codes "2\r\nhi\r\n1\r\n!\r\n0\r\n\r\nHTTP"))
    ≡ returns (record chunking { body = codes "hi!"; unparsed = codes "HTTP"; body_parsed = true })
parse_chunks-encode_example =
    parse_chunks-encode chunking (in_body-IsWellFormed transfer_encoding chunked) refl two_chunks
      (codes "0") 0 (codes "HTTP") two_chunks-IsChunk zero-IsSize refl (omega arith)

parse_chunks_cut-throws_example :
    parse_chunks (reading chunking (codes "2\r\nhi\r\n1\r\n!\r\n0\r\n\r")) ≡ throws out_of_range
parse_chunks_cut-throws_example =
    parse_chunks_cut-throws chunking (in_body-IsWellFormed transfer_encoding chunked) refl
      two_chunks (codes "0") 0 (codes "\r") two_chunks-IsChunk zero-IsSize refl (omega arith)
      (omega arith)

parse_chunks-commit_chunks_example :
    parse_chunks (reading chunking (commit_chunks (codes "hi!") ++ crlf))
    ≡ returns (received chunking (codes "hi!") (if 3 == 0 then codes "0\r\n\r\n" else []))
parse_chunks-commit_chunks_example =
    parse_chunks-commit_chunks chunking (codes "hi!")
      (in_body-IsWellFormed transfer_encoding chunked) refl (unfold commit_chunks in omega arith)

abbrev plain : Response
plain = in_body (codes "Host") (codes "h")

plain-IsInBody : IsInBody plain
unfolding lookup bytes_less
plain-IsInBody = record {
  well_formed = in_body-IsWellFormed (codes "Host") (codes "h");
  in_body = (refl, refl, refl);
  no_length = refl;
}

plain_no_encoding : lookup transfer_encoding plain.headers ≡ none
unfolding lookup bytes_less
plain_no_encoding = refl

commit_twice_example :
    (lookup transfer_encoding (commit done).1.headers ≡ some [])
    × (length (commit (commit done).1).0 ≡ length (commit done).0 + 21)
    × ((commit (commit done).1).1 ≡ (commit done).1)
commit_twice_example = commit_twice done (tt, tt) plain_no_encoding

abbrev zipped : Response
zipped = in_body transfer_encoding (codes "gzip")

zipped-IsInBody : IsInBody zipped
unfolding lookup bytes_less
zipped-IsInBody = record {
  well_formed = in_body-IsWellFormed transfer_encoding (codes "gzip");
  in_body = (refl, refl, refl);
  no_length = refl;
}

zipped_encoding : lookup transfer_encoding zipped.headers ≡ some (codes "gzip")
unfolding lookup bytes_less
zipped_encoding = refl

gzip_other : bytes_eq (codes "gzip") chunked ≡ false
unfolding bytes_eq
gzip_other = refl

append_all_other_example :
    (append_all zipped (codes "a" ∷ codes "b" ∷ []) ≡ returns (receive zipped (codes "ab")))
    × (is_complete (receive zipped (codes "ab")) ≡ false)
append_all_other_example =
    append_all_other zipped (codes "a" ∷ codes "b" ∷ []) (codes "gzip") zipped-IsInBody
      zipped_encoding gzip_other (omega arith)

chunking-IsInBody : IsInBody chunking
unfolding lookup bytes_less
chunking-IsInBody = record {
  well_formed = in_body-IsWellFormed transfer_encoding chunked;
  in_body = (refl, refl, refl);
  no_length = refl;
}

chunking_encoding : lookup transfer_encoding chunking.headers ≡ some chunked
unfolding lookup bytes_less
chunking_encoding = refl

append_data_chunks-split_example :
    (s : Response) × (append_data chunking (codes "2\r\nhi\r\n1\r\n!\r\n5\r\nth") ≡ returns s)
    × (s.body ≡ codes "hi!")
    × (append_data s (codes "ere\r\n0\r\n\r\n")
        ≡ append_data chunking (codes "2\r\nhi\r\n1\r\n!\r\n5\r\nthere\r\n0\r\n\r\n"))
append_data_chunks-split_example =
    append_data_chunks-split chunking two_chunks (codes "5") 5 (codes "th")
      (codes "ere\r\n0\r\n\r\n") chunking-IsInBody chunking_encoding refl two_chunks-IsChunk
      five-IsSize (omega arith) (omega arith) (omega arith) (omega arith)

trim-IsCut_example : IsCut (codes " \ta b\r") (trim (codes " \ta b\r"))
trim-IsCut_example = trim-IsCut (codes " \ta b\r")

in_body-IsTitle : (name value body : Bytes) → IsTitle (record (in_body name value) { body = body })
in_body-IsTitle name value body = record {
  number = 200;
  is_number = refl;
  three_digits = omega arith;
  reason_line = omega arith;
}

abbrev hello : Response
hello = record chunking { body = codes "hi!" }

hello-IsPrintable : IsPrintable hello
unfolding is_space
hello-IsPrintable = record {
  title_printable = in_body-IsTitle transfer_encoding chunked (codes "hi!");
  headers_printable =
      (record { no_colon = omega arith; name_line = omega arith; value_line = omega arith }, tt);
  trimmed = ((refl, refl), tt);
  sorted = (tt, tt);
}

chunking_no_length : lookup content_length hello.headers ≡ none
unfolding lookup bytes_less
chunking_no_length = refl

append_response-commit_headers_example :
    append_data (fresh (pos 7)) (commit_headers hello ++ codes "HTTP")
    ≡ parse_body (at_body chunking hello.headers (codes "HTTP"))
append_response-commit_headers_example =
    append_response-commit_headers hello (pos 7) (codes "HTTP") hello-IsPrintable
      (unfold commit_headers in omega arith)

commit-hello-Fits : Fits (commit hello).0
unfolding commit lookup bytes_less bytes_eq
commit-hello-Fits = omega arith

append_data-commit_example :
    append_data (fresh (pos 7)) (commit hello).0
    ≡ returns (
        received
          (at_body chunking hello.headers [])
          (codes "hi!")
          (if 3 == 0 then codes "0\r\n\r\n" else []))
append_data-commit_example =
    append_data-commit hello hello-IsPrintable chunking_no_length chunking_encoding
      commit-hello-Fits (pos 7)

abbrev pub sized : Response
sized = record (in_body content_length (codes "3")) { body = codes "hi!" }

pub sized-IsPrintable : IsPrintable sized
unfolding is_space
sized-IsPrintable = record {
  title_printable = in_body-IsTitle content_length (codes "3") (codes "hi!");
  headers_printable =
      (record { no_colon = omega arith; name_line = omega arith; value_line = omega arith }, tt);
  trimmed = ((refl, refl), tt);
  sorted = (tt, tt);
}

sized_length : lookup content_length sized.headers ≡ some (codes "3")
unfolding lookup bytes_less
sized_length = refl

pub three_read : stoi (codes "3") ≡ returns (pos 3)
unfolding stoi
three_read = refl

append_response_exact_example :
    append_data (fresh (pos 7)) (commit_headers sized ++ codes "hi!")
    ≡ returns (record (at_body sized sized.headers []) { body_parsed = true })
append_response_exact_example =
    append_response_exact sized (pos 7) sized-IsPrintable sized_length three_read
      (unfold commit_headers in omega arith)

plain-IsPrintable : IsPrintable plain
unfolding is_space
plain-IsPrintable = record {
  title_printable = in_body-IsTitle (codes "Host") (codes "h") [];
  headers_printable =
      (record { no_colon = omega arith; name_line = omega arith; value_line = omega arith }, tt);
  trimmed = ((refl, refl), tt);
  sorted = (tt, tt);
}

append_response_unmarked_example :
    append_data (fresh (pos 7)) (commit_headers plain ++ codes "hi")
    ≡ returns (record (at_body plain plain.headers (codes "hi")) { body_parsed = true })
append_response_unmarked_example =
    append_response_unmarked plain (pos 7) (codes "hi") plain-IsPrintable plain-IsInBody.no_length
      plain_no_encoding (unfold commit_headers in omega arith)
