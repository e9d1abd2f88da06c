-- ===== src/Yenc/StdText.antt =====
-- What crates/nzbd-yenc/src/lib.rs uses of Rust's standard library on text: `from_utf8_lossy`,
-- `str::trim`, `str::parse::<u64>` and `u32::from_str_radix(_, 16)`, on UTF-8 bytes.
use nzbd.Prelude.{
  ℕ, ◌+◌, ◌-◌, ◌*◌, ◌^◌, Bool, ◌&&◌, ◌||◌, List, [], ◌∷◌, ◌++◌, reverse, Option, none, some, leb,
  ltb, ◌==◌, if◌then◌else◌,
}

abbrev pub within : ℕ → ℕ → ℕ → Bool
within lo hi b = leb lo b && leb b hi

-- A range of bytes, and the ranges that must follow the first byte of a character.
abbrev pub Ranges : Type 0
Ranges = List (ℕ × ℕ)

abbrev tail_byte : ℕ × ℕ
tail_byte = (0x80, 0xbf)

-- `none`: no character starts with this byte.
unfoldable pub followers : ℕ → Option Ranges
followers b =
    if leb b 0x7f
    then some []
    else if within 0xc2 0xdf b
    then some (tail_byte ∷ [])
    else if b == 0xe0
    then some ((0xa0, 0xbf) ∷ tail_byte ∷ [])
    else if b == 0xed
    then some ((0x80, 0x9f) ∷ tail_byte ∷ [])
    else if within 0xe1 0xef b
    then some (tail_byte ∷ tail_byte ∷ [])
    else if b == 0xf0
    then some ((0x90, 0xbf) ∷ tail_byte ∷ tail_byte ∷ [])
    else if within 0xf1 0xf3 b
    then some (tail_byte ∷ tail_byte ∷ tail_byte ∷ [])
    else if b == 0xf4
    then some ((0x80, 0x8f) ∷ tail_byte ∷ tail_byte ∷ [])
    else none

-- U+FFFD.
abbrev replacement : List ℕ
replacement = 0xef ∷ 0xbf ∷ 0xbd ∷ []

-- Text written, ranges still wanted, and the bytes of the unfinished character.
abbrev Progress : Type 0
Progress = List ℕ × Ranges × List ℕ

abbrev start_char : ℕ → Option Ranges → Progress
start_char b none = (replacement, [], [])
start_char b (some []) = (b ∷ [], [], [])
start_char b (some (r ∷ rs)) = ([], r ∷ rs, b ∷ [])

abbrev after_reject : Progress → Progress
after_reject (written, wanted, held) = (replacement ++ written, wanted, held)

abbrev lossy_step : Ranges → List ℕ → ℕ → Progress
lossy_step [] held b = start_char b (followers b)
lossy_step ((lo, hi) ∷ []) held b =
    if within lo hi b then (held ++ b ∷ [], [], []) else after_reject (start_char b (followers b))
lossy_step ((lo, hi) ∷ r ∷ rs) held b =
    if within lo hi b
    then ([], r ∷ rs, held ++ b ∷ [])
    else after_reject (start_char b (followers b))

abbrev lossy_end : Ranges → List ℕ
lossy_end [] = []
lossy_end (r ∷ rs) = replacement

pub lossy_from : Ranges → List ℕ → List ℕ → List ℕ
lossy_from wanted held [] = lossy_end wanted
lossy_from wanted held (b ∷ bs) =
    let (written, wanted', held') = lossy_step wanted held b in
    written ++ lossy_from wanted' held' bs

-- `String::from_utf8_lossy`: each maximal part of a broken character becomes one U+FFFD.
unfoldable pub from_utf8_lossy : List ℕ → List ℕ
unfolding lossy_from followers
from_utf8_lossy bs = lossy_from [] [] bs

abbrev ascii_space : ℕ → Bool
ascii_space b = b == 0x20 || within 0x09 0x0d b

abbrev space_e2 : ℕ → ℕ → Bool
space_e2 b c =
    (b == 0x80 && (within 0x80 0x8a c || c == 0xa8 || c == 0xa9 || c == 0xaf))
    || (b == 0x81 && c == 0x9f)

-- The three-byte characters with the property White_Space: U+1680, U+2000 to U+200A, U+2028, U+2029,
-- U+202F, U+205F and U+3000.
abbrev space_three : ℕ → ℕ → ℕ → Bool
space_three a b c =
    (a == 0xe1 && b == 0x9a && c == 0x80)
    || (a == 0xe2 && space_e2 b c)
    || (a == 0xe3 && b == 0x80 && c == 0x80)

-- U+0085 and U+00A0.
abbrev space_two : ℕ → ℕ → Bool
space_two a b = a == 0xc2 && (b == 0x85 || b == 0xa0)

unfoldable pub trim_start : List ℕ → List ℕ
trim_start [] = []
trim_start (a ∷ []) = if ascii_space a then [] else a ∷ []
trim_start (a ∷ b ∷ []) =
    let rest = trim_start (b ∷ []) in
    if ascii_space a then rest else if space_two a b then [] else a ∷ b ∷ []
trim_start (a ∷ b ∷ c ∷ l) =
    let one = trim_start (b ∷ c ∷ l) in
    let two = trim_start (c ∷ l) in
    let three = trim_start l in
    if ascii_space a
    then one
    else if space_two a b
    then two
    else if space_three a b c
    then three
    else a ∷ b ∷ c ∷ l

-- The same on reversed bytes, where a character's last byte comes first.
unfoldable pub trim_start_reversed : List ℕ → List ℕ
trim_start_reversed [] = []
trim_start_reversed (a ∷ []) = if ascii_space a then [] else a ∷ []
trim_start_reversed (a ∷ b ∷ []) =
    let rest = trim_start_reversed (b ∷ []) in
    if ascii_space a then rest else if space_two b a then [] else a ∷ b ∷ []
trim_start_reversed (a ∷ b ∷ c ∷ l) =
    let one = trim_start_reversed (b ∷ c ∷ l) in
    let two = trim_start_reversed (c ∷ l) in
    let three = trim_start_reversed l in
    if ascii_space a
    then one
    else if space_two b a
    then two
    else if space_three c b a
    then three
    else a ∷ b ∷ c ∷ l

unfoldable pub trim : List ℕ → List ℕ
unfolding trim_start trim_start_reversed
trim s = reverse (trim_start_reversed (reverse (trim_start s)))

abbrev pub digit_value : ℕ → ℕ → Option ℕ
digit_value radix c =
    let d =
      if within b'0' b'9' c
      then c - b'0'
      else if within b'a' b'z' c
      then c - b'a' + 10
      else if within b'A' b'Z' c
      then c - b'A' + 10
      else 99 in
    if ltb d radix then some d else none

-- The checked loop of the standard library's integer parser: `none` on a bad digit or past `top`.
unfoldable pub digits_from : ℕ → ℕ → ℕ → List ℕ → Option ℕ
digits_from radix top acc [] = some acc
digits_from radix top acc (c ∷ cs) = elim (digit_value radix c) [
  | none ↦ none
  | some d ↦
      let next = acc * radix + d in
      let rest = digits_from radix top next cs in if leb next top then rest else none
]

abbrev unsigned_digits : ℕ → ℕ → List ℕ → Option ℕ
unsigned_digits radix top [] = none
unsigned_digits radix top (c ∷ cs) = digits_from radix top 0 (c ∷ cs)

-- One leading `+` is accepted.
unfoldable pub parse_unsigned : ℕ → ℕ → List ℕ → Option ℕ
unfolding digits_from
parse_unsigned radix top [] = none
parse_unsigned radix top (c ∷ cs) =
    if c == b'+' then unsigned_digits radix top cs else digits_from radix top 0 (c ∷ cs)

-- `from_utf8(v).ok()?.trim().parse::<u64>().ok()`: a value that is not UTF-8 is not only digits
-- between white space either, so the first test needs no clause of its own.
unfoldable pub parse_u64 : List ℕ → Option ℕ
unfolding parse_unsigned trim
parse_u64 v = parse_unsigned 10 (2 ^ 64 - 1) (trim v)

unfoldable pub parse_hex32 : List ℕ → Option ℕ
unfolding parse_unsigned trim
parse_hex32 v = parse_unsigned 16 (2 ^ 32 - 1) (trim v)
