-- ===== src/Yenc/Lines.antt =====
-- crates/nzbd-yenc/src/lib.rs: the header and trailer lines `=ybegin`, `=ypart` and `=yend`.
use nzbd.Prelude.{
  ℕ, ◌%◌, ◌^◌, Bool, true, false, ◌&&◌, List, [], ◌∷◌, Option, none, some, leb, ◌==◌, if◌then◌else◌,
  length, drop, bytes_eq,
}
use nzbd.Types.Torrent.{Text}
use nzbd.Yenc.Data.{
  bad_size, bad_part, no_size, bad_part_range, bad_end_size, malformed, Result, ok, err, ◌>>=◌,
  ok_or, YencHeader, no_header, YencTrailer, no_trailer,
}
use nzbd.Yenc.StdText.{from_utf8_lossy, trim, parse_u64, parse_hex32}

-- `=ybegin `, `=ypart `, `=yend`, ` name=` and the keys.
abbrev pub ybegin_prefix : Text
ybegin_prefix = b'=' ∷ b'y' ∷ b'b' ∷ b'e' ∷ b'g' ∷ b'i' ∷ b'n' ∷ 32 ∷ []

abbrev pub ypart_prefix : Text
ypart_prefix = b'=' ∷ b'y' ∷ b'p' ∷ b'a' ∷ b'r' ∷ b't' ∷ 32 ∷ []

abbrev pub yend_prefix : Text
yend_prefix = b'=' ∷ b'y' ∷ b'e' ∷ b'n' ∷ b'd' ∷ []

abbrev pub name_mark : Text
name_mark = 32 ∷ b'n' ∷ b'a' ∷ b'm' ∷ b'e' ∷ b'=' ∷ []

abbrev pub size_key : Text
size_key = b's' ∷ b'i' ∷ b'z' ∷ b'e' ∷ []

abbrev pub part_key : Text
part_key = b'p' ∷ b'a' ∷ b'r' ∷ b't' ∷ []

abbrev pub total_key : Text
total_key = b't' ∷ b'o' ∷ b't' ∷ b'a' ∷ b'l' ∷ []

abbrev pub begin_key : Text
begin_key = b'b' ∷ b'e' ∷ b'g' ∷ b'i' ∷ b'n' ∷ []

abbrev pub end_key : Text
end_key = b'e' ∷ b'n' ∷ b'd' ∷ []

abbrev pub crc32_key : Text
crc32_key = b'c' ∷ b'r' ∷ b'c' ∷ b'3' ∷ b'2' ∷ []

abbrev pub pcrc32_key : Text
pcrc32_key = b'p' ∷ b'c' ∷ b'r' ∷ b'c' ∷ b'3' ∷ b'2' ∷ []

-- `<[u8]>::starts_with`.
unfoldable pub starts_with : List ℕ → List ℕ → Bool
starts_with xs [] = true
starts_with [] (p ∷ ps) = false
starts_with (x ∷ xs) (p ∷ ps) = x == p && starts_with xs ps

-- What stands before the first place where the needle starts, and what follows the needle there.
unfoldable pub find_subslice : List ℕ → List ℕ → Option (List ℕ × List ℕ)
unfolding starts_with
find_subslice [] needle = if starts_with [] needle then some ([], []) else none
find_subslice (x ∷ xs) needle =
    let later : Option (List ℕ × List ℕ) = elim (find_subslice xs needle) [
      | none ↦ none
      | some (before, after) ↦ some (x ∷ before, after)
    ] in
    if starts_with (x ∷ xs) needle then some ([], drop (length needle) (x ∷ xs)) else later

-- `line.split(|&b| b == b' ')`: the first token and the others.
unfoldable pub split_spaces : List ℕ → List ℕ × List (List ℕ)
split_spaces [] = ([], [])
split_spaces (b ∷ bs) =
    let (token, tokens) = split_spaces bs in
    if b == 32 then ([], token ∷ tokens) else (b ∷ token, tokens)

-- A token cut at its first `=`.
unfoldable pub split_eq : List ℕ → Option (Text × Text)
split_eq [] = none
split_eq (b ∷ bs) =
    let later : Option (Text × Text) = elim (split_eq bs) [
      | none ↦ none
      | some (k, v) ↦ some (b ∷ k, v)
    ] in
    if b == b'=' then some ([], bs) else later

unfoldable pub filter_split : List (List ℕ) → List (Text × Text)
unfolding split_eq
filter_split [] = []
filter_split (t ∷ ts) = elim (split_eq t) [
  | none ↦ filter_split ts
  | some kv ↦ kv ∷ filter_split ts
]

unfoldable pub kv_fields : List ℕ → List (Text × Text)
unfolding split_spaces filter_split
kv_fields line = let (token, tokens) = split_spaces line in filter_split (token ∷ tokens)

-- `n as u32`.
abbrev pub as_u32 : ℕ → ℕ
as_u32 n = n % 2 ^ 32

abbrev as_u32_of : Option ℕ → Option ℕ
as_u32_of none = none
as_u32_of (some n) = some (as_u32 n)

-- One round of the loop of `parse_begin`.
unfoldable pub begin_field : YencHeader → Text × Text → Result YencHeader
begin_field h (k, v) =
    if bytes_eq k size_key
    then ok_or (parse_u64 v) bad_size >>= (λ n. ok (record h { size = n }))
    else if bytes_eq k part_key
    then ok_or (parse_u64 v) bad_part >>= (λ n. ok (record h { part = some (as_u32 n) }))
    else if bytes_eq k total_key
    then ok (record h { total = as_u32_of (parse_u64 v) })
    else ok h

unfoldable pub begin_fields : YencHeader → List (Text × Text) → Result YencHeader
unfolding begin_field
begin_fields h [] = ok h
begin_fields h (kv ∷ kvs) = begin_field h kv >>= λ h'. begin_fields h' kvs

-- The attributes and the name: `name=` is last and may hold spaces and `=`.
abbrev pub split_name : List ℕ → List ℕ × List ℕ
split_name line = elim (find_subslice line name_mark) [
  | some (attrs, name) ↦ (attrs, name)
  | none ↦ (line, [])
]

unfoldable pub parse_begin : List ℕ → Result YencHeader
unfolding begin_fields
parse_begin line = do
  let parts = split_name line
  h ← begin_fields (record no_header { name = trim (from_utf8_lossy parts.1) }) (kv_fields parts.0)
  if h.size == 0 then err (malformed no_size) else ok h

unfoldable pub part_fields : Option ℕ × Option ℕ → List (Text × Text) → Option ℕ × Option ℕ
part_fields (begin, end) [] = (begin, end)
part_fields (begin, end) ((k, v) ∷ kvs) =
    part_fields
      (
        if bytes_eq k begin_key then parse_u64 v else begin,
        if bytes_eq k begin_key then end else if bytes_eq k end_key then parse_u64 v else end,
      )
      kvs

abbrev checked_range : Option ℕ → Option ℕ → Result (ℕ × ℕ)
checked_range none end = err (malformed bad_part_range)
checked_range (some b) none = err (malformed bad_part_range)
checked_range (some b) (some e) =
    if leb 1 b && leb b e then ok (b, e) else err (malformed bad_part_range)

unfoldable pub parse_part : List ℕ → Result (ℕ × ℕ)
unfolding part_fields
parse_part line =
    let (begin, end) = part_fields (none, none) (kv_fields line) in checked_range begin end

unfoldable pub end_field : YencTrailer → Text × Text → Result YencTrailer
end_field t (k, v) =
    if bytes_eq k size_key
    then ok_or (parse_u64 v) bad_end_size >>= (λ n. ok (record t { size = n }))
    else if bytes_eq k part_key
    then ok (record t { part = as_u32_of (parse_u64 v) })
    else if bytes_eq k pcrc32_key
    then ok (record t { pcrc32 = parse_hex32 v })
    else if bytes_eq k crc32_key
    then ok (record t { crc32 = parse_hex32 v })
    else ok t

unfoldable pub end_fields : YencTrailer → List (Text × Text) → Result YencTrailer
unfolding end_field
end_fields t [] = ok t
end_fields t (kv ∷ kvs) = end_field t kv >>= λ t'. end_fields t' kvs

unfoldable pub parse_end : List ℕ → Result YencTrailer
unfolding end_fields
parse_end line = end_fields no_trailer (kv_fields line)
