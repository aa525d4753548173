-- ===== src/Http/Head.antt =====
-- crates/mq-http/src/h1.rs: the HTTP/1.1 request heads and the serializer.
pub mod Laws
use mqproxy.Prelude.{
  ℕ, zero, suc, ◌+◌, ◌-◌, ◌*◌, ◌/◌, ◌%◌, ◌^◌, List, [], ◌∷◌, ◌++◌, Bool, true, false, not, ◌&&◌,
  ◌||◌, Option, none, some, ltb, leb, ◌==◌, if◌then◌else◌, length, take, drop, Result, ok, err,
}
use mqproxy.Prelude.Options.{◌>>=◌}
use mqproxy.Prelude.Bytes.{
  starts_with, find, find_byte, all, any, is_empty, is_digit, same_ignoring_case,
}

abbrev pub head_max : ℕ
head_max = 16 * 1024

abbrev pub max_headers : ℕ
max_headers = 64

abbrev pub method_max : ℕ
method_max = 15

abbrev pub path_max : ℕ
path_max = 1023

pub record Header : Type 0 where
  pub name : List ℕ
  pub value : List ℕ

pub record Head : Type 0 where
  pub method : List ℕ
  pub target : List ℕ
  pub headers : List Header
  pub content_length : Option ℕ
  pub has_chunked_te : Bool

pub data Progress : Type 0 where
  need : Progress
  too_large : Progress
  bad : Progress
  done : ℕ → Head → Progress

abbrev pub crlf : List ℕ
crlf = 13 ∷ 10 ∷ []

abbrev pub blank_line : List ℕ
blank_line = 13 ∷ 10 ∷ 13 ∷ 10 ∷ []

abbrev pub is_alphanumeric : ℕ → Bool
is_alphanumeric c = is_digit c || (leb 65 c && leb c 90) || (leb 97 c && leb c 122)

-- "!#$%&'*+-.^_`|~".
abbrev pub tchar_marks : List ℕ
tchar_marks = 33 ∷ 35 ∷ 36 ∷ 37 ∷ 38 ∷ 39 ∷ 42 ∷ 43 ∷ 45 ∷ 46 ∷ 94 ∷ 95 ∷ 96 ∷ 124 ∷ 126 ∷ []

unfoldable pub is_tchar : ℕ → Bool
unfolding any
is_tchar c = is_alphanumeric c || any (λ m. m == c) tchar_marks

abbrev pub is_ows : ℕ → Bool
is_ows c = (c == 32) || (c == 9)

-- The first loop of `trim_ows`.
unfoldable pub trim_start : List ℕ → List ℕ
trim_start [] = []
trim_start (c ∷ v) = if is_ows c then trim_start v else c ∷ v

-- The second loop: the spaces at the end go.
unfoldable pub trim_end : List ℕ → List ℕ
unfolding is_empty
trim_end [] = []
trim_end (c ∷ v) = let v' = trim_end v in if is_empty v' && is_ows c then [] else c ∷ v'

unfoldable pub trim_ows : List ℕ → List ℕ
unfolding trim_start trim_end
trim_ows v = trim_end (trim_start v)

-- `i64::MAX`.
abbrev pub length_max : ℕ
length_max = 2 ^ 63 - 1

-- `n` is what the digits so far amount to; the sum of a u64 that overflows is `none`.
unfoldable pub content_length_from : ℕ → List ℕ → Option ℕ
content_length_from n [] = some n
content_length_from n (c ∷ v) =
    let n' = n * 10 + (c - 48) in
    if not (is_digit c)
    then none
    else if leb (2 ^ 64) n'
    then none
    else if ltb length_max n'
    then none
    else content_length_from n' v

unfoldable pub parse_content_length : List ℕ → Option ℕ
unfolding content_length_from is_empty
parse_content_length v = if is_empty v then none else content_length_from 0 v

-- The parts between the commas.
unfoldable pub split_commas : List ℕ → List ℕ → List (List ℕ)
split_commas part [] = part ∷ []
split_commas part (c ∷ v) =
    if c == 44 then part ∷ split_commas [] v else split_commas (part ++ (c ∷ [])) v

-- "chunked".
abbrev pub chunked : List ℕ
chunked = 99 ∷ 104 ∷ 117 ∷ 110 ∷ 107 ∷ 101 ∷ 100 ∷ []

unfoldable pub any_chunked : List (List ℕ) → Bool
unfolding trim_ows same_ignoring_case
any_chunked [] = false
any_chunked (t ∷ ts) = same_ignoring_case (trim_ows t) chunked || any_chunked ts

unfoldable pub te_lists_chunked : List ℕ → Bool
unfolding any_chunked split_commas
te_lists_chunked v = any_chunked (split_commas [] v)

-- "content-length" and "transfer-encoding".
abbrev pub content_length_name : List ℕ
content_length_name =
    99 ∷ 111 ∷ 110 ∷ 116 ∷ 101 ∷ 110 ∷ 116 ∷ 45 ∷ 108 ∷ 101 ∷ 110 ∷ 103 ∷ 116 ∷ 104 ∷ []

abbrev pub transfer_encoding_name : List ℕ
transfer_encoding_name =
    116 ∷ 114 ∷ 97 ∷ 110 ∷ 115 ∷ 102 ∷ 101 ∷ 114 ∷ 45 ∷ 101 ∷ 110 ∷ 99 ∷ 111 ∷ 100 ∷ 105 ∷ 110 ∷ 103
    ∷ []

-- The headers so far.
pub record Fields : Type 0 where
  pub headers : List Header
  pub content_length : Option ℕ
  pub has_chunked_te : Bool

unfoldable pub first_length : Option ℕ → List ℕ → Option ℕ
unfolding parse_content_length
first_length (some n) value = none
first_length none value = parse_content_length value

-- The framing that a header changes; the header itself is added.
unfoldable pub add_field : Fields → List ℕ → List ℕ → Option Fields
unfolding first_length te_lists_chunked
add_field f name value =
    let headers = f.headers ++ (record { name = name; value = value } ∷ []) in
    if same_ignoring_case name content_length_name
    then (first_length f.content_length value >>= λ n.
        some (record f { headers = headers; content_length = some n }))
    else some (record f {
      headers = headers;
      has_chunked_te =
          if same_ignoring_case name transfer_encoding_name && te_lists_chunked value
          then true
          else f.has_chunked_te;
    })

-- The checks on a header's name and on what follows the colon.
unfoldable pub name_and_value : Fields → List ℕ → List ℕ → Option Fields
unfolding add_field trim_ows
name_and_value f name raw =
    if is_empty name || not (all is_tchar name)
    then none
    else if any (λ c. (c == 0) || (c == 13)) raw
    then none
    else add_field f name (trim_ows raw)

-- A header line, without its end.
unfoldable pub header_line : Fields → List ℕ → Option Fields
unfolding name_and_value
header_line f line =
    if leb max_headers (length f.headers)
    then none
    else (find_byte line 58 >>= λ colon. name_and_value f (take colon line) (drop (colon + 1) line))

unfoldable pub starts_with_ows : List ℕ → Bool
starts_with_ows [] = false
starts_with_ows (c ∷ v) = is_ows c

-- The loop on the header lines: `rest` is the head from `pos` on, whose last two bytes are the blank
-- line. A line takes two bytes at least, so the length of `rest` is enough fuel.
unfoldable pub header_lines : ℕ → Fields → List ℕ → Option Fields
unfolding header_line starts_with_ows
header_lines zero f rest = if leb (length rest) 2 then some f else none
header_lines (suc fuel) f rest = elim (leb (length rest) 2) [
  | true ↦ some f
  | false ↦ elim (starts_with_ows rest) [
    | true ↦ none
    | false ↦ do
      le ← find rest crlf
      f' ← header_line f (take le rest)
      header_lines fuel f' (drop (le + 2) rest)
  ]
]

-- "HTTP/".
abbrev pub http_slash : List ℕ
http_slash = 72 ∷ 84 ∷ 84 ∷ 80 ∷ 47 ∷ []

unfoldable pub is_method : List ℕ → Bool
unfolding is_empty
is_method m = not (is_empty m) && leb (length m) method_max && all is_tchar m

unfoldable pub is_target : List ℕ → Bool
is_target t =
    starts_with t (47 ∷ [])
    && leb (length t) path_max
    && not (any (λ c. ltb c 0x20 || (c == 0x7f)) t)

-- The method, with the target at the start of `rest`.
unfoldable pub method_and_target : List ℕ → List ℕ → ℕ → Option (List ℕ × List ℕ)
unfolding is_target
method_and_target method rest t_end =
    if not (is_target (take t_end rest)) || not (starts_with (drop (t_end + 1) rest) http_slash)
    then none
    else some (method, take t_end rest)

-- What follows the method.
unfoldable pub after_method : List ℕ → List ℕ → Option (List ℕ × List ℕ)
unfolding is_method method_and_target
after_method method rest =
    if not (is_method method) then none else (find_byte rest 32 >>= method_and_target method rest)

-- The method and the target.
unfoldable pub request_line : List ℕ → Option (List ℕ × List ℕ)
unfolding after_method
request_line line =
    find_byte line 32 >>= λ m_end. after_method (take m_end line) (drop (m_end + 1) line)

unfoldable pub parse_complete : List ℕ → Option Head
unfolding request_line header_lines
parse_complete head = do
  line_end ← find head crlf
  line ← request_line (take line_end head)
  f ←
      header_lines (length head)
        (record { headers = []; content_length = none; has_chunked_te = false })
        (drop (line_end + 2) head)
  some (record {
    method = line.0;
    target = line.1;
    headers = f.headers;
    content_length = f.content_length;
    has_chunked_te = f.has_chunked_te;
  })

unfoldable pub done_or_bad : ℕ → Option Head → Progress
done_or_bad n none = bad
done_or_bad n (some head) = done n head

unfoldable pub parse_found : List ℕ → Option ℕ → Progress
unfolding parse_complete done_or_bad
parse_found buf none = if leb head_max (length buf) then too_large else need
parse_found buf (some p) =
    if ltb head_max (p + 4)
    then too_large
    else done_or_bad (p + 4) (parse_complete (take (p + 4) buf))

unfoldable pub parse_head : List ℕ → Progress
unfolding parse_found
parse_head buf = parse_found buf (find buf blank_line)

-- `Err(BadHeaderBytes)` is `none`.
unfoldable pub write_header : List ℕ → List ℕ → List ℕ → Option (List ℕ)
write_header out name value =
    if any (λ c. (c == 13) || (c == 10) || (c == 0)) (name ++ value)
    then none
    else some (out ++ name ++ (58 ∷ 32 ∷ []) ++ value ++ crlf)

abbrev digit : ℕ → ℕ
digit d = if ltb d 10 then 48 + d else 87 + d

-- The digits of a number in a base, before `acc`; a u64 has at most twenty of them.
unfoldable pub digits : ℕ → ℕ → ℕ → List ℕ → List ℕ
digits zero base n acc = acc
digits (suc fuel) base n acc = elim (n / base == 0) [
  | true ↦ digit (n % base) ∷ acc
  | false ↦ digits fuel base (n / base) (digit (n % base) ∷ acc)
]

-- "HTTP/1.1 ".
abbrev pub status_start : List ℕ
status_start = 72 ∷ 84 ∷ 84 ∷ 80 ∷ 47 ∷ 49 ∷ 46 ∷ 49 ∷ 32 ∷ []

unfoldable pub write_status : List ℕ → ℕ → List ℕ → List ℕ
unfolding digits
write_status out code reason =
    out ++ status_start ++ digits 20 10 code [] ++ (32 ∷ []) ++ reason ++ crlf

-- `none` is the failed assertion of a debug build.
unfoldable pub chunk_frame : List ℕ → List ℕ → Option (List ℕ)
unfolding digits is_empty
chunk_frame out data_bytes =
    if is_empty data_bytes
    then none
    else some (out ++ digits 20 16 (length data_bytes) [] ++ crlf ++ data_bytes ++ crlf)

abbrev pub chunk_end : List ℕ → List ℕ
chunk_end out = out ++ (48 ∷ blank_line)

-- What `let _ = write_header(..)` leaves.
unfoldable pub or_same : List ℕ → Option (List ℕ) → List ℕ
or_same out none = out
or_same out (some out') = out'

-- "Connection", "close", "Content-Length", "0" and "X-Mq-Error".
abbrev pub reply_headers : List (List ℕ × List ℕ)
reply_headers =
    (67 ∷ 111 ∷ 110 ∷ 110 ∷ 101 ∷ 99 ∷ 116 ∷ 105 ∷ 111 ∷ 110 ∷ [], 99 ∷ 108 ∷ 111 ∷ 115 ∷ 101 ∷ [])
    ∷ (67 ∷ 111 ∷ 110 ∷ 116 ∷ 101 ∷ 110 ∷ 116 ∷ 45 ∷ 76 ∷ 101 ∷ 110 ∷ 103 ∷ 116 ∷ 104 ∷ [], 48 ∷ [])
    ∷ []

abbrev pub error_name : List ℕ
error_name = 88 ∷ 45 ∷ 77 ∷ 113 ∷ 45 ∷ 69 ∷ 114 ∷ 114 ∷ 111 ∷ 114 ∷ []

unfoldable pub write_all : List ℕ → List (List ℕ × List ℕ) → List ℕ
unfolding or_same write_header
write_all out [] = out
write_all out (h ∷ hs) = write_all (or_same out (write_header out h.0 h.1)) hs

abbrev with_error : Option (List ℕ) → List (List ℕ × List ℕ)
with_error none = reply_headers
with_error (some x) = reply_headers ++ ((error_name, x) ∷ [])

unfoldable pub error_reply : ℕ → List ℕ → Option (List ℕ) → List ℕ
unfolding write_all write_status
error_reply code reason xmq = write_all (write_status [] code reason) (with_error xmq) ++ crlf
