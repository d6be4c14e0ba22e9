-- ===== src/Message/Header.antt =====
-- Header lines: how `commit_headers` writes them, and where they are cut.
use server_coursework.Base.{
  suc, ◌+◌, ◌≡◌, ◌∙◌, ap, [], ◌∷◌, ◌++◌, append_assoc, arith, Bytes, codes, length, length-append,
  All-append, Lacks, returns, add_size,
}
use server_coursework.Text.Find.{find, substr, substr_from}
use server_coursework.Text.Cut.{find-behind, substr_from_within, substr-find, drop-two}
use server_coursework.OrdMap.{OrdMap}
use server_coursework.Message.{crlf, colon}
use server_coursework.Message.Line.{Fits}

-- The loop over the headers in `commit_headers`.
unfoldable pub print_headers : OrdMap Bytes Bytes → Bytes
print_headers [] = []
print_headers ((name, value) ∷ m) = (name ++ (codes ": " ++ (value ++ crlf))) ++ print_headers m

-- A header that can be written on a line and read back.
pub record IsHeader (name value : Bytes) : Type 0 where
  pub no_colon : Lacks 58 name
  pub name_line : Lacks 13 name
  pub value_line : Lacks 13 value

-- The bytes of a header line, without its end.
abbrev pub line : Bytes → Bytes → Bytes
line name value = name ++ (codes ": " ++ value)

pub line-Lacks : (name value : Bytes) → IsHeader name value → Lacks 13 (line name value)
line-Lacks name value h =
    All-append _ name (codes ": " ++ value) h.name_line (omega arith, (omega arith, h.value_line))

-- Cutting a header line at its colon.
pub line-name :
    (name value : Bytes)
    → IsHeader name value
    → substr (line name value) 0 (find (line name value) colon) ≡ returns name
line-name name value h = substr-find name 58 [] (32 ∷ value) h.no_colon

pub line-value :
    (name value : Bytes)
    → IsHeader name value
    → Fits (line name value)
    → substr_from (line name value) (add_size (find (line name value) colon) 2) ≡ returns value
line-value name value h fits =
    ap (λ n. substr_from (line name value) (add_size n 2))
      (find-behind name 58 [] (32 ∷ value) h.no_colon)
    ∙ ap (substr_from (line name value)) sum
    ∙ substr_from_within (line name value) (length name + 2) (omega (arith, whole))
    ∙ ap returns (drop-two name (codes ": ") value)
  where
    whole : length (line name value) ≡ length name + suc (suc (length value))
    whole = length-append name (codes ": " ++ value)

    sum : add_size (length name) 2 ≡ length name + 2
    sum = omega (arith, whole)

abbrev pub AllHeaders : OrdMap Bytes Bytes → Type 0
AllHeaders [] = Unit
AllHeaders ((name, value) ∷ m) = IsHeader name value × AllHeaders m

pub print_headers-cons :
    (name value : Bytes) (m : OrdMap Bytes Bytes) (rest : Bytes)
    → print_headers ((name, value) ∷ m) ++ rest
      ≡ line name value ++ (crlf ++ (print_headers m ++ rest))
unfolding print_headers
print_headers-cons name value m rest = simp append_assoc
