-- ===== src/Response/Twice.antt =====
-- What `commit` does to the response, by its look at the transfer encoding.
use server_coursework.Base.{
  ℕ, ◌+◌, ◌≡◌, refl, ap, ◌∙◌, none, some, [], ◌∷◌, ◌++◌, arith, if◌then◌else◌, Bytes, codes,
  bytes_eq, length, length-append,
}
use server_coursework.OrdMap.{OrdMap, lookup, insert}
use server_coursework.OrdMap.Laws.{IsSorted, lookup-insert, same_refl}
use server_coursework.OrdMap.Keys.{bytes_Less}
use server_coursework.Text.Number.{to_string}
use server_coursework.Message.{crlf, space}
use server_coursework.Message.Header.{print_headers}
use server_coursework.Response.Commit.{commit_headers, touch_encoding, commit, commit_chunks}
use server_coursework.Response.{Response, transfer_encoding, chunked}

length-print_headers-cons :
    (k v : Bytes) (m : OrdMap Bytes Bytes)
    → length (print_headers ((k, v) ∷ m)) ≡ length (print_headers m) + (length k + (length v + 4))
unfolding print_headers
length-print_headers-cons k v m = omega (
  arith,
  length-append (k ++ (codes ": " ++ (v ++ crlf))) (print_headers m),
  length-append k (codes ": " ++ (v ++ crlf)),
  length-append v crlf,
)

-- A new header line is as long as its name, its value, and four bytes.
length-print_headers-insert :
    (k v : Bytes) (m : OrdMap Bytes Bytes)
    → lookup k m ≡ none
    → length (print_headers (insert k v m)) ≡ length (print_headers m) + (length k + (length v + 4))
unfolding insert lookup
length-print_headers-insert k v [] e = length-print_headers-cons k v []
length-print_headers-insert k v ((j, w) ∷ m) e = ground (
  arith,
  length-print_headers-cons k v ((j, w) ∷ m),
  length-print_headers-cons j w m,
  length-print_headers-cons j w (insert k v m),
  length-print_headers-insert k v m,
)

length-commit_headers :
    (r : Response) (m : OrdMap Bytes Bytes) (extra : ℕ)
    → length (print_headers m) ≡ length (print_headers r.headers) + extra
    → length (commit_headers (record r { headers = m })) ≡ length (commit_headers r) + extra
unfolding commit_headers
length-commit_headers r m extra e = omega (
  arith,
  e,
  length-append (first r) (print_headers m ++ crlf),
  length-append (first r) (print_headers r.headers ++ crlf),
  length-append (print_headers m) crlf,
  length-append (print_headers r.headers) crlf,
)
  where
    first : Response → Bytes
    first r =
        codes "HTTP/1.1 "
        ++ (to_string r.status_code.code ++ (space ++ (r.status_code.description ++ crlf)))

-- The text, by what the look at the encoding gave.
pub commit_touched :
    (r : Response) (encoding : Bytes) (after : Response)
    → touch_encoding r ≡ (encoding, after)
    → commit r ≡ (
      commit_headers r
          ++ ((if bytes_eq encoding chunked then commit_chunks r.body else r.body) ++ crlf),
      after,
    )
unfolding commit
commit_touched r encoding after e =
    ap
      (λ t. (
        commit_headers r
            ++ ((if bytes_eq t.0 chunked then commit_chunks r.body else r.body) ++ crlf),
        t.1,
      ))
      e

pub touch_none :
    (r : Response)
    → lookup transfer_encoding r.headers ≡ none
    → touch_encoding r ≡ ([], record r { headers = insert transfer_encoding [] r.headers })
unfolding touch_encoding
touch_none r e = rw (e, touch_encoding) refl

pub touch_some :
    (r : Response) (encoding : Bytes)
    → lookup transfer_encoding r.headers ≡ some encoding
    → touch_encoding r ≡ (encoding, r)
unfolding touch_encoding
touch_some r encoding e = rw (e, touch_encoding) refl

module _ (r : Response) (s : IsSorted r.headers)
    (e : lookup transfer_encoding r.headers ≡ none) where
  abbrev touched : Response
  touched = record r { headers = insert transfer_encoding [] r.headers }

  there : lookup transfer_encoding touched.headers ≡ some []
  there =
      lookup-insert transfer_encoding transfer_encoding [] r.headers s
      ∙ ap
          (λ b.
            if b
            then elim (lookup transfer_encoding r.headers) [ none ↦ some [] | some w ↦ some w ]
            else lookup transfer_encoding r.headers)
          (same_refl transfer_encoding)
      ∙ ap (λ o. elim o [ none ↦ some [] | some w ↦ some w ]) e

  headers_longer : length (commit_headers touched) ≡ length (commit_headers r) + 21
  headers_longer =
      length-commit_headers r touched.headers 21
        (length-print_headers-insert transfer_encoding [] r.headers e)

  first_text : commit r ≡ (commit_headers r ++ (r.body ++ crlf), touched)
  unfolding bytes_eq
  first_text = commit_touched r [] touched (touch_none r e)

  second_text : commit touched ≡ (commit_headers touched ++ (r.body ++ crlf), touched)
  unfolding bytes_eq
  second_text = commit_touched touched [] touched (touch_some touched [] there)

  -- Writing a response is not the same the second time: where it has no Transfer-Encoding, the first
  -- commit leaves an empty one in the headers, and the second text is longer by the line of it.
  pub commit_twice :
      (lookup transfer_encoding (commit r).1.headers ≡ some [])
      × (length (commit (commit r).1).0 ≡ length (commit r).0 + 21)
      × ((commit (commit r).1).1 ≡ (commit r).1)
  commit_twice = rw first_text (rw second_text (there, longer, refl))
    where
      longer :
          length (commit_headers touched ++ (r.body ++ crlf))
          ≡ length (commit_headers r ++ (r.body ++ crlf)) + 21
      longer = omega (
        arith,
        headers_longer,
        length-append (commit_headers touched) (r.body ++ crlf),
        length-append (commit_headers r) (r.body ++ crlf),
      )
