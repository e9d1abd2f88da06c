-- ===== src/Yenc.antt =====
-- crates/nzbd-yenc/src/lib.rs: the incremental yEnc decoder. The CRC hasher is the crate `crc32fast`,
-- a parameter. The bytes that a step appends to `out` are a part of its result, and a decoder that
-- has reported an error is not used again, so its state is left out of the error result.
pub mod Data
pub mod StdText
pub mod Lines
pub mod Chunks
pub mod Bounds
pub mod Accepted
pub mod Combine
pub mod RoundTrip
mod Scenarios
use nzbd.Prelude.{
  ℕ, zero, suc, ◌+◌, ◌-◌, ◌%◌, ◌≡◌, Bool, true, false, ◌&&◌, List, [], ◌∷◌, ◌++◌, Option, none,
  some, leb, ◌==◌, if◌then◌else◌, length, bytes_eq, is_some, is_empty, unwrap_or, reverse, min,
}
use Data.{
  line_too_long, expected_part, unexpected_control, not_yenc, premature_end, malformed, Result, ok,
  err, ◌>>=◌, YencHeader, no_header, YencTrailer, no_trailer, DecodeResult, Status, need_more,
  finished,
}
use Lines.{
  ybegin_prefix, ypart_prefix, yend_prefix, starts_with, parse_begin, parse_part, parse_end,
}

-- `crc32fast::Hasher`: a running checksum, which sees its input as one stream however it is cut.
pub record Hasher : Type 1 where
  pub State : Type 0
  pub start : State
  pub update : State → List ℕ → State
  pub finalize : State → ℕ
  pub update-nil : (s : State) → update s [] ≡ s
  pub update-append : (s : State) (xs ys : List ℕ) → update (update s xs) ys ≡ update s (xs ++ ys)

pub data State : Type 0 where
  pre expect_part body control drain : State

abbrev pub max_line : ℕ
max_line = 8192

abbrev pub cr : ℕ
cr = 13

abbrev pub lf : ℕ
lf = 10

abbrev pub dot_byte : ℕ
dot_byte = 46

-- `raw.wrapping_sub(k)` on bytes.
abbrev pub wrapping_sub : ℕ → ℕ → ℕ
wrapping_sub raw k = (raw + 256 - k) % 256

-- The fields of `YencDecoder` that a byte of the stream can change.
pub record Scanner : Type 0 where
  pub state : State
  pub line_buf : List ℕ
  pub header : YencHeader
  pub trailer : YencTrailer
  pub esc : Bool
  pub at_line_start : Bool
  pub pending_eq : Bool
  pub dot : ℕ
  pub done : Bool

unfoldable pub enter_body : Scanner → Scanner
enter_body d = record d {
  state = body;
  esc = false;
  pending_eq = false;
  dot = 0;
  at_line_start = true;
}

-- The line without one trailing CR.
abbrev pub strip_cr : List ℕ → List ℕ
strip_cr [] = []
strip_cr (b ∷ []) = if b == cr then [] else b ∷ []
strip_cr (b ∷ c ∷ bs) = b ∷ strip_cr (c ∷ bs)

abbrev pub one_dot : List ℕ
one_dot = dot_byte ∷ []

unfoldable pub line_in_pre : Scanner → List ℕ → Result Scanner
unfolding enter_body
line_in_pre d line =
    if starts_with line ybegin_prefix
    then parse_begin line >>= (λ h.
      let d' = record d { header = h } in
      ok (if is_some h.part then record d' { state = expect_part } else enter_body d'))
    else if bytes_eq line one_dot
    then err not_yenc
    else ok d

unfoldable pub line_in_expect_part : Scanner → List ℕ → Result Scanner
unfolding enter_body
line_in_expect_part d line =
    if starts_with line ypart_prefix
    then parse_part line >>= (λ r.
      ok (enter_body (record d { header = record d.header { begin = some r.0; end = some r.1 } })))
    else if is_empty line
    then ok (record d { state = expect_part })
    else err (malformed expected_part)

unfoldable pub line_in_control : Scanner → List ℕ → Result Scanner
line_in_control d line =
    if starts_with line yend_prefix
    then parse_end line >>= (λ t. ok (record d { trailer = t; state = drain }))
    else err (malformed unexpected_control)

unfoldable pub line_in_drain : Scanner → List ℕ → Result Scanner
line_in_drain d line = if bytes_eq line one_dot then ok (record d { done = true }) else ok d

-- The `match` of `take_line`. It is called in the four line states only: `body` is unreachable.
abbrev take_line_in : State → Scanner → List ℕ → Result Scanner
take_line_in pre d line = line_in_pre d line
take_line_in expect_part d line = line_in_expect_part d line
take_line_in control d line = line_in_control d line
take_line_in drain d line = line_in_drain d line
take_line_in body d line = ok d

unfoldable pub take_line : Scanner → Result Scanner
take_line d = take_line_in d.state (record d { line_buf = [] }) (strip_cr d.line_buf)

abbrev pub decoded : ℕ → ℕ
decoded raw = wrapping_sub raw 42

abbrev pub decoded_escape : ℕ → ℕ
decoded_escape raw = wrapping_sub raw 106

-- Step 4 of `body_byte`.
unfoldable pub ordinary : Scanner → ℕ → Scanner × List ℕ
ordinary d b =
    if b == b'='
    then (record d { esc = true }, [])
    else if b == cr
    then (d, [])
    else if b == lf
    then (record d { at_line_start = true }, [])
    else (record d { at_line_start = false }, decoded b ∷ [])

-- The tests at a line start, and then step 4.
unfoldable pub line_start_or_ordinary : Scanner → ℕ → Scanner × List ℕ
unfolding ordinary
line_start_or_ordinary d b =
    if d.at_line_start && b == dot_byte
    then (record d { dot = 1 }, [])
    else if d.at_line_start && b == b'='
    then (record d { pending_eq = true; at_line_start = false }, [])
    else ordinary d b

-- A lone leading dot is data: it is written, and `body_byte` is called again. That call finds `esc`,
-- `pending_eq` and `dot` clear and so goes on at the line-start tests.
unfoldable pub lone_dot : Scanner → ℕ → Scanner × List ℕ
unfolding line_start_or_ordinary
lone_dot d b =
    let (d', out) = line_start_or_ordinary (record d { dot = 0; at_line_start = false }) b in
    (d', decoded dot_byte ∷ out)

-- Step 1: a pending escape takes the next byte.
unfoldable pub take_escape : Scanner → ℕ → Scanner × List ℕ
take_escape d b =
    if b == cr
    then (d, [])
    else if b == lf
    then (record d { at_line_start = true }, [])
    else (record d { esc = false; at_line_start = false }, decoded_escape b ∷ [])

-- Step 2: what the byte after a line-start `=` makes of it.
unfoldable pub take_pending : Scanner → ℕ → Scanner × List ℕ
take_pending d b =
    let d' = record d { pending_eq = false } in
    if b == b'y'
    then (record d' { line_buf = b'=' ∷ b'y' ∷ []; state = control }, [])
    else if b == cr
    then (record d' { esc = true }, [])
    else if b == lf
    then (record d' { esc = true; at_line_start = true }, [])
    else (record d' { at_line_start = false }, decoded_escape b ∷ [])

-- Step 3 after a line-start dot, and after a dot and a CR.
unfoldable pub after_dot : Scanner → ℕ → Result (Scanner × List ℕ)
unfolding lone_dot
after_dot d b =
    if b == dot_byte
    then ok (record d { dot = 0; at_line_start = false }, decoded dot_byte ∷ [])
    else if b == cr
    then ok (record d { dot = 2 }, [])
    else if b == lf
    then err premature_end
    else ok (lone_dot d b)

unfoldable pub after_dot_cr : Scanner → ℕ → Result (Scanner × List ℕ)
unfolding lone_dot
after_dot_cr d b = if b == lf then err premature_end else ok (lone_dot d b)

unfoldable pub body_byte : Scanner → ℕ → Result (Scanner × List ℕ)
unfolding take_escape take_pending after_dot after_dot_cr line_start_or_ordinary
body_byte d b =
    if d.esc
    then ok (take_escape d b)
    else if d.pending_eq
    then ok (take_pending d b)
    else if d.dot == 1
    then after_dot d b
    else if d.dot == 2
    then after_dot_cr d b
    else ok (line_start_or_ordinary d b)

unfoldable pub line_byte : Scanner → ℕ → Result (Scanner × List ℕ)
unfolding take_line
line_byte d b =
    if b == lf
    then take_line d >>= (λ d'. ok (d', []))
    else if leb max_line (length d.line_buf)
    then err (malformed line_too_long)
    else ok (record d { line_buf = d.line_buf ++ b ∷ [] }, [])

abbrev byte_in : State → Scanner → ℕ → Result (Scanner × List ℕ)
byte_in body d b = body_byte d b
byte_in pre d b = line_byte d b
byte_in expect_part d b = line_byte d b
byte_in control d b = line_byte d b
byte_in drain d b = line_byte d b

-- One round of the loop of `push`.
unfoldable pub byte : Scanner → ℕ → Result (Scanner × List ℕ)
byte d b = byte_in d.state d b

pub record Fed : Type 0 where
  pub scanner : Scanner
  pub newly : List ℕ
  pub consumed : ℕ

abbrev pub then_fed : List ℕ → Fed → Fed
then_fed out r = record r { newly = out ++ r.newly; consumed = suc r.consumed }

-- The loop of `push`: what is written and how many bytes are consumed.
unfoldable pub feed : Scanner → List ℕ → Result Fed
feed d [] = ok (record { scanner = d; newly = []; consumed = 0 })
feed d (b ∷ bs) = elim d.done [
  | true ↦ ok (record { scanner = d; newly = []; consumed = 0 })
  | false ↦ byte d b >>= λ r. feed r.0 bs >>= λ s. ok (then_fed r.1 s)
]

unfoldable pub new_scanner : Scanner
new_scanner = record {
  state = pre;
  line_buf = [];
  header = no_header;
  trailer = no_trailer;
  esc = false;
  at_line_start = true;
  pending_eq = false;
  dot = 0;
  done = false;
}

module _ (H : Hasher) where
  open H use {State as HashState, start, update, finalize}

  pub record Decoder : Type 0 where
    pub scanner : Scanner
    pub hasher : HashState
    pub decoded_len : ℕ

  unfoldable pub new_decoder : Decoder
  new_decoder = record { scanner = new_scanner; hasher = start; decoded_len = 0 }

  pub record Pushed : Type 0 where
    pub decoder : Decoder
    pub newly : List ℕ
    pub status : Status
    pub consumed : ℕ

  abbrev pub account : Decoder → Scanner → List ℕ → Decoder
  account d s [] = record d { scanner = s }
  account d s (b ∷ bs) = record {
    scanner = s;
    hasher = update d.hasher (b ∷ bs);
    decoded_len = d.decoded_len + length (b ∷ bs);
  }

  -- After the loop: the new bytes are hashed and counted, and the status is read off.
  abbrev pub after_loop : Decoder → Fed → Pushed
  after_loop d r = record {
    decoder = account d r.scanner r.newly;
    newly = r.newly;
    status = if r.scanner.done then finished else need_more;
    consumed = r.consumed;
  }

  unfoldable pub push : Decoder → List ℕ → Result Pushed
  push d buf = feed d.scanner buf >>= λ r. ok (after_loop d r)

  abbrev expected_crc : YencTrailer → Option ℕ
  expected_crc t = if is_some t.pcrc32 then t.pcrc32 else t.crc32

  abbrev expected_len : YencHeader → Option ℕ → Option ℕ → ℕ
  expected_len h (some b) (some e) = if leb b e then e - b + 1 else h.size
  expected_len h (some b) none = h.size
  expected_len h none e = h.size

  abbrev matches_crc : Option ℕ → ℕ → Option Bool
  matches_crc none crc = none
  matches_crc (some c) crc = some (c == crc)

  abbrev offset_of : Option ℕ → ℕ
  offset_of none = 0
  offset_of (some b) = b - 1

  unfoldable pub take_result : Decoder → Option DecodeResult
  take_result d =
      let h = d.scanner.header in
      let t = d.scanner.trailer in
      let crc = finalize d.hasher in
      if d.scanner.done
      then some (record {
        header = h;
        trailer = t;
        offset = offset_of h.begin;
        decoded_len = d.decoded_len;
        crc32 = crc;
        crc_ok = matches_crc (expected_crc t) crc;
        len_ok = d.decoded_len == t.size && d.decoded_len == expected_len h h.begin h.end;
      })
      else none
