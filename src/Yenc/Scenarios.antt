-- ===== src/Yenc/Scenarios.antt =====
-- crates/nzbd-yenc/src/lib.rs: a small article, decoded whole and in chunks.
use mathlib.Core.List.{append-nil, append_assoc}
use Prim.Native.Char.{code}
use Prim.Native.String.{String}
use nzbd.Prelude.{
  ℕ, ◌+◌, ◌≤◌, ◌≡◌, ◌⊎◌, refl, true, List, [], ◌∷◌, ◌++◌, none, some, arith, length, bytes_eq,
}
use nzbd.Yenc.Combine.{times_from, combine_rounds, crc32_combine}
use nzbd.Yenc.Data.{ok, err, need_more, finished, premature_end, DecodeResult}
use nzbd.Yenc.StdText.{parse_u64, trim, from_utf8_lossy, parse_hex32}
use nzbd.Yenc.Lines.{parse_begin, parse_end, kv_fields, find_subslice, starts_with}
use nzbd.Yenc.{
  Hasher, Decoder, Pushed, max_line, new_decoder, new_scanner, push, take_result, line_in_pre,
  line_in_expect_part, line_in_control, line_in_drain, feed, byte, body_byte, line_byte,
}
use nzbd.Yenc.Chunks.{push_all, concat, push_all-concat}
use nzbd.Yenc.Bounds.{push_bounds, held_dot}
use nzbd.Yenc.RoundTrip.{idle, encode_lines, feed-encode_lines}
use nzbd.Yenc.Accepted.{accepted_is_intact}

abbrev codes : String → List ℕ
codes String.[] = []
codes (String.◌∷◌ c s) = code c ∷ codes s

abbrev crlf : List ℕ
crlf = 13 ∷ 10 ∷ []

-- A stand-in for the checksum: it keeps the stream, and sums it up by its length.
abbrev recorder : Hasher
recorder = record {
  State = List ℕ;
  start = [];
  update = λ s xs. s ++ xs;
  finalize = length;
  update-nil = append-nil;
  update-append = append_assoc;
}

abbrev article_head : List ℕ
article_head = codes "=ybegin line=128 size=3 name= a b" ++ crlf

-- The bytes 4, 5 and 19, which encode to a dot, to `/` and to an escape.
abbrev article_body : List ℕ
article_body = encode_lines ((4 ∷ 5 ∷ 19 ∷ []) ∷ [])

abbrev article_tail : List ℕ
article_tail = codes "=yend size=3 crc32=3" ++ crlf ++ codes "." ++ crlf

abbrev next_reply : List ℕ
next_reply = codes "222 0 body"

runs : Unit {0}
unfolding push feed byte body_byte line_byte new_decoder new_scanner encode_lines parse_begin
    parse_end parse_u64 parse_hex32 kv_fields find_subslice starts_with take_result from_utf8_lossy
    trim line_in_pre line_in_expect_part line_in_control line_in_drain bytes_eq
runs = tt

body_is_stuffed : article_body ≡ codes "../=}" ++ crlf
unfolding runs
body_is_stuffed = refl

abbrev article : List ℕ
article = article_head ++ article_body ++ article_tail

abbrev fresh : Decoder recorder
fresh = new_decoder recorder

abbrev pushed : Pushed recorder
pushed = elim (push recorder fresh article) [
  | ok p ↦ p
  | err e ↦ record { decoder = fresh; newly = []; status = need_more; consumed = 0 }
]

whole_push : push recorder fresh article ≡ ok pushed
unfolding runs
whole_push = refl

written : pushed.newly ≡ 4 ∷ 5 ∷ 19 ∷ []
unfolding runs
written = refl

answers_finished : pushed.status ≡ finished
unfolding runs
answers_finished = refl

early_end : push recorder fresh (article_head ++ codes "." ++ crlf) ≡ err premature_end
unfolding runs
early_end = refl

abbrev chunks : List (List ℕ)
chunks = (article_head ++ codes ".") ∷ codes "./=" ∷ (codes "}" ++ crlf ++ article_tail) ∷ []

push_all-concat_example :
    push_all recorder fresh chunks ≡ push recorder fresh (concat recorder chunks)
push_all-concat_example = push_all-concat recorder fresh chunks

push_bounds_example :
    (length pushed.newly + held_dot pushed.decoder.scanner
      ≤ pushed.consumed + held_dot fresh.scanner)
    × (length pushed.decoder.scanner.line_buf ≤ max_line)
    × (pushed.consumed ≤ length article)
    × ((pushed.status ≡ finished) ⊎ (pushed.consumed ≡ length article))
unfolding runs
push_bounds_example = push_bounds recorder fresh article pushed (omega arith) whole_push

feed-encode_lines_example :
    feed (idle new_scanner true) article_body
    ≡ ok (record {
      scanner = idle new_scanner true;
      newly = 4 ∷ 5 ∷ 19 ∷ [];
      consumed = length article_body;
    })
feed-encode_lines_example = feed-encode_lines new_scanner ((4 ∷ 5 ∷ 19 ∷ []) ∷ []) (omega arith)

abbrev report : DecodeResult
report = record {
  header = pushed.decoder.scanner.header;
  trailer = pushed.decoder.scanner.trailer;
  offset = 0;
  decoded_len = 3;
  crc32 = 3;
  crc_ok = some true;
  len_ok = true;
}

chunked : push_all recorder fresh chunks ≡ ok pushed
unfolding runs
chunked = refl

reported : take_result recorder pushed.decoder ≡ some report
unfolding runs
reported = refl

accepted_is_intact_example :
    (length pushed.newly ≡ report.trailer.size)
    × (report.crc32 ≡ recorder.finalize (recorder.update recorder.start pushed.newly))
    × ((report.trailer.pcrc32 ≡ some report.crc32)
        ⊎ ((report.trailer.pcrc32 ≡ none)
            × ((report.trailer.crc32 ≡ some report.crc32) ⊎ (report.trailer.crc32 ≡ none))))
accepted_is_intact_example =
    accepted_is_intact recorder chunks pushed report chunked reported (λ e. cc) refl

combine_runs : Unit {0}
unfolding times_from combine_rounds crc32_combine
combine_runs = tt

-- The checksums of `1234` and `56789` combine to that of `123456789`.
check_digits : crc32_combine 0x9be3e0a3 0x131da070 5 ≡ 0xcbf43926
unfolding combine_runs
check_digits = refl
