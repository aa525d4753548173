-- ===== src/Tests/HttpTests.antt =====
-- Runs of the limits and heads of crates/mq-http.
use mqproxy.Prelude.{◌++◌, replicate, ℕ, ◌≤◌, ◌≡◌, refl, List, [], ◌∷◌, false, some, none, All, ◌↔◌}
use mqproxy.Http.Head
use mqproxy.Http.Head.{parse_content_length, content_length_from, length_max, write_header}
use mqproxy.Http.Head.Laws.{decimal, IsDigit, parse_content_length_lem}
use mqproxy.Prelude.Bytes

abbrev section : List (List ℕ × List ℕ)
section = (97 ∷ [], 98 ∷ 99 ∷ []) ∷ []

parse_content_length_lem_example : (parse_content_length (48 ∷ 52 ∷ 50 ∷ []) ≡ some 42) ↔ (
    (1 ≤ 3)
    × All IsDigit (48 ∷ 52 ∷ 50 ∷ [])
    × (decimal 0 (48 ∷ 52 ∷ 50 ∷ []) ≡ 42)
    × (42 ≤ length_max))
parse_content_length_lem_example = parse_content_length_lem (48 ∷ 52 ∷ 50 ∷ []) 42

-- "GET / HTTP/1.1", the header line "a: b", and a blank line.
head_run :
    Head.parse_head (
      71 ∷ 69 ∷ 84 ∷ 32 ∷ 47 ∷ 32 ∷ 72 ∷ 84 ∷ 84 ∷ 80 ∷ 47 ∷ 49 ∷ 46 ∷ 49 ∷ 13 ∷ 10 ∷ 97 ∷ 58 ∷ 32
      ∷ 98 ∷ 13 ∷ 10 ∷ 13 ∷ 10 ∷ [])
    ≡ Head.done 24 (record {
      method = 71 ∷ 69 ∷ 84 ∷ [];
      target = 47 ∷ [];
      headers = record { name = 97 ∷ []; value = 98 ∷ [] } ∷ [];
      content_length = none;
      has_chunked_te = false;
    })
unfolding Head.parse_head Head.parse_found Head.parse_complete Head.done_or_bad Head.request_line
    Head.after_method Head.method_and_target Head.is_method Head.is_target Head.header_lines
    Head.header_line Head.name_and_value Head.add_field Head.starts_with_ows Head.trim_ows
    Head.trim_start Head.trim_end Head.is_tchar Bytes.find Bytes.find_byte Bytes.starts_with
    Bytes.all Bytes.any Bytes.is_empty Bytes.same_ignoring_case
head_run = refl

-- A chunk of sixteen bytes starts with its length in hex.
chunk_run :
    Head.chunk_frame [] (replicate 16 7)
    ≡ some (49 ∷ 48 ∷ 13 ∷ 10 ∷ replicate 16 7 ++ (13 ∷ 10 ∷ []))
unfolding Head.chunk_frame Head.digits Bytes.is_empty
chunk_run = refl

status_run :
    Head.write_status [] 200 (79 ∷ 75 ∷ [])
    ≡ Head.status_start ++ (50 ∷ 48 ∷ 48 ∷ 32 ∷ 79 ∷ 75 ∷ 13 ∷ 10 ∷ [])
unfolding Head.write_status Head.digits
status_run = refl

abbrev no_fields : Head.Fields
no_fields = record { headers = []; content_length = none; has_chunked_te = false }

-- The header "a:b" and a blank line.
abbrev one_header : List ℕ
one_header = 97 ∷ 58 ∷ 98 ∷ 13 ∷ 10 ∷ 13 ∷ 10 ∷ []
