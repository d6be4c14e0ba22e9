-- ===== src/Message.antt =====
-- What http_request and http_response share: the delimiters, and one round of a `parse` loop.
pub mod Line
pub mod Loop
pub mod Header
pub mod Sound
use server_coursework.Base.{Bytes, codes, ◌∷◌, [], Outcome, returns, throws, spins}

abbrev pub space : Bytes
space = 32 ∷ []

abbrev pub crlf : Bytes
crlf = 13 ∷ 10 ∷ []

abbrev pub colon : Bytes
colon = 58 ∷ []

abbrev pub content_length : Bytes
content_length = codes "Content-Length"

-- A round of `while (true)`: the loop goes on, or it meets a `break`.
pub data Round (A : Type 0) : Type 0 where
  again : A → Round A
  leave : A → Round A

module _ {A : Type 0} where
  abbrev pub resume : (A → Outcome A) → Round A → Outcome A
  resume rest (again a) = rest a
  resume rest (leave a) = returns a
