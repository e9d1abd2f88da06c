-- ===== src/Nntp/Reading.antt =====
-- crates/nzbd-nntp/src/lib.rs: what `MultilineReader` makes of a block, however it arrives.
use nzbd.Prelude.{
  ◌∙◌, Bool, all, ltb, leb, select, ℕ, ◌+◌, ◌≡◌, refl, ap, inl, inr, true, false, List, [], ◌∷◌,
  ◌++◌, arith, Bool-cases, if◌then◌else◌, ◌==◌, length, length-append, any, All, is_empty, not,
}
use mathlib.Core.List.{append-nil, append_assoc}
use nzbd.Types.Torrent.{Text}
use nzbd.Yenc.StdText.{from_utf8_lossy}
use nzbd.Nntp.{strip_crlf}
use nzbd.Nntp.Multiline.{
  clear, MultilineReader, reader, new_reader, take_byte, consume, push, split_lines, line_text,
  full_lines, into_lines,
}

consume-done : (r : MultilineReader) (buf : List ℕ) → r.is_done ≡ true → consume r buf ≡ (r, 0)
unfolding consume
consume-done r [] h = refl
consume-done r (b ∷ buf) h = rw h refl

consume-step :
    (r : MultilineReader) (b : ℕ) (buf : List ℕ)
    → r.is_done ≡ false
    → consume r (b ∷ buf)
      ≡ ((consume (take_byte r.dot b r) buf).0, (consume (take_byte r.dot b r) buf).1 + 1)
unfolding consume
consume-step r b buf h = rw h refl

consume-append :
    (r : MultilineReader) (a b : List ℕ)
    → let first = consume r a in
      let second = consume first.0 b in consume r (a ++ b) ≡ (second.0, first.1 + second.1)
consume-append r [] b = unfold consume in ground arith
consume-append r (x ∷ a) b = elim (Bool-cases r.is_done) [
  | inl t ↦
      rw (consume-done r (x ∷ (a ++ b)) t)
        (rw (consume-done r (x ∷ a) t) (rw (consume-done r b t) refl))
  | inr f ↦
      rw (consume-step r x (a ++ b) f)
        (rw (consume-step r x a f) (rw (consume-append (take_byte r.dot x r) a b) (ground arith)))
]

-- Chunk boundaries may fall anywhere: a reader that is pushed a buffer in two parts ends in the state
-- that it has after the whole, has consumed as many bytes in all, and answers the second time whether
-- the block is complete as it does after the whole.
pub push-append :
    (r : MultilineReader) (a b : List ℕ)
    → let first = push r a in
      let second = push first.0 b in push r (a ++ b) ≡ (second.0, first.1 + second.1, second.2)
unfolding push
push-append r a b = rw (consume-append r a b) refl

-- RFC 3977: a line that starts with a dot is sent with one more, and a dot alone ends the block.
unfoldable pub stuffed : List ℕ → List ℕ
stuffed [] = []
stuffed (b ∷ l) = if b == b'.' then b'.' ∷ b'.' ∷ l else b ∷ l

unfoldable pub wire : List (List ℕ) → List ℕ
wire [] = b'.' ∷ 13 ∷ 10 ∷ []
wire (l ∷ ls) = stuffed l ++ 13 ∷ 10 ∷ wire ls

-- What a reader holds of lines.
abbrev kept : List (List ℕ) → List ℕ
kept [] = []
kept (l ∷ ls) = l ++ 13 ∷ 10 ∷ kept ls

abbrev pub IsLine : List ℕ → Type 0
IsLine l = any (λ b. b == 10) l ≡ false

-- In the middle of a line bytes are taken as they are, up to the line feed.
consume-middle :
    (content l rest : List ℕ)
    → IsLine l
    → consume (reader content false clear false) (l ++ 13 ∷ 10 ∷ rest) ≡ (
      (consume (reader (content ++ (l ++ 13 ∷ 10 ∷ [])) true clear false) rest).0,
      (consume (reader (content ++ (l ++ 13 ∷ 10 ∷ [])) true clear false) rest).1 + (length l + 2),
    )
unfolding consume take_byte
consume-middle content [] rest h = rw (append_assoc content (13 ∷ []) (10 ∷ [])) (ground arith)
consume-middle content (b ∷ l) rest h = elim (Bool-cases (b == 10)) [
  | inl t ↦ absurd (let h' : true ≡ false = rw t at h in ground (arith, h'))
  | inr f ↦ rw f (
      rw (consume-middle (content ++ b ∷ []) l rest (rw f at h))
        (rw (append_assoc content (b ∷ []) (l ++ 13 ∷ 10 ∷ [])) (ground arith)))
]

consume-line :
    (content l rest : List ℕ)
    → IsLine l
    → consume (reader content true clear false) (stuffed l ++ 13 ∷ 10 ∷ rest) ≡ (
      (consume (reader (content ++ (l ++ 13 ∷ 10 ∷ [])) true clear false) rest).0,
      (consume (reader (content ++ (l ++ 13 ∷ 10 ∷ [])) true clear false) rest).1
          + (length (stuffed l) + 2),
    )
unfolding consume take_byte stuffed
consume-line content [] rest h = rw (append_assoc content (13 ∷ []) (10 ∷ [])) (ground arith)
consume-line content (b ∷ l) rest h = elim (Bool-cases (b == b'.')) [
  | inl t ↦
      let is_dot : b ≡ b'.' = ground (arith, t) in
      let line : IsLine l = ground (arith, h) in
      rw is_dot (
        rw (consume-middle (content ++ b'.' ∷ []) l rest line)
          (rw (append_assoc content (b'.' ∷ []) (l ++ 13 ∷ 10 ∷ [])) (ground arith)))
  | inr f ↦ elim (Bool-cases (b == 10)) [
    | inl t ↦ absurd (let h' : true ≡ false = rw t at h in ground (arith, h'))
    | inr g ↦ rw f (
        rw f (
          rw g (
            rw (consume-middle (content ++ b ∷ []) l rest (rw g at h))
              (rw (append_assoc content (b ∷ []) (l ++ 13 ∷ 10 ∷ [])) (ground arith)))))
  ]
]

consume-end :
    (content rest : List ℕ)
    → consume (reader content true clear false) (b'.' ∷ 13 ∷ 10 ∷ rest)
      ≡ (reader content true clear true, 3)
unfolding consume take_byte
consume-end content rest = rw (consume-done (reader content true clear true) rest refl) refl

consume-wire :
    (content : List ℕ) (lines : List (List ℕ)) (rest : List ℕ)
    → All IsLine lines
    → consume (reader content true clear false) (wire lines ++ rest)
      ≡ (reader (content ++ kept lines) true clear true, length (wire lines))
unfolding wire
consume-wire content [] rest h = rw append-nil (consume-end content rest)
consume-wire content (l ∷ ls) rest h = rw (append_assoc (stuffed l) (13 ∷ 10 ∷ wire ls) rest) (
    rw (consume-line content l (wire ls ++ rest) h.0) (
      rw (consume-wire (content ++ (l ++ 13 ∷ 10 ∷ [])) ls rest h.1) (
        rw (append_assoc content (l ++ 13 ∷ 10 ∷ []) (kept ls)) (
          rw (append_assoc l (13 ∷ 10 ∷ []) (kept ls))
            (ground (arith, length-append (stuffed l) (13 ∷ 10 ∷ wire ls)))))))

split_lines-line :
    (l m : List ℕ)
    → IsLine l
    → split_lines (l ++ 13 ∷ 10 ∷ m) ≡ (l ++ 13 ∷ [], (split_lines m).0 ∷ (split_lines m).1)
unfolding split_lines
split_lines-line [] m h = refl
split_lines-line (b ∷ l) m h = elim (Bool-cases (b == 10)) [
  | inl t ↦ absurd (let h' : true ≡ false = rw t at h in ground (arith, h'))
  | inr f ↦ rw f (rw (split_lines-line l m (rw f at h)) refl)
]

strip_crlf-cr : (l : List ℕ) → strip_crlf (l ++ 13 ∷ []) ≡ strip_crlf l
unfolding strip_crlf
strip_crlf-cr [] = refl
strip_crlf-cr (b ∷ l) = rw (strip_crlf-cr l) refl

lines-kept :
    (lines : List (List ℕ))
    → All IsLine lines
    → full_lines ((split_lines (kept lines)).0 ∷ (split_lines (kept lines)).1) ≡ full_lines lines
unfolding split_lines strip_crlf from_utf8_lossy
lines-kept [] h = refl
lines-kept (l ∷ ls) h =
    rw (split_lines-line l (kept ls) h.0)
      (rw (strip_crlf-cr l) (ap (keep (line_text l)) (lines-kept ls h.1)))
  where
    keep : Text → List Text → List Text
    keep t ts = if not (is_empty t) then t ∷ ts else ts

abbrev pub ends_with_cr : List ℕ → Bool
ends_with_cr [] = false
ends_with_cr (b ∷ []) = b == 13
ends_with_cr (b ∷ c ∷ l) = ends_with_cr (c ∷ l)

-- A line of ASCII text, without its end.
abbrev pub IsText : List ℕ → Type 0
IsText l = IsLine l × (ends_with_cr l ≡ false) × (all (λ b. ltb b 128) l ≡ true)

strip_crlf-text : (l : List ℕ) → IsLine l → ends_with_cr l ≡ false → strip_crlf l ≡ l
unfolding strip_crlf
strip_crlf-text [] h e = refl
strip_crlf-text (b ∷ []) h e = ground (arith, h, e)
strip_crlf-text (b ∷ c ∷ l) h e = rw (strip_crlf-text (c ∷ l) (ground (arith, h)) e) refl

from_utf8_lossy-ascii : (l : List ℕ) → all (λ b. ltb b 128) l ≡ true → from_utf8_lossy l ≡ l
unfolding from_utf8_lossy
from_utf8_lossy-ascii [] h = refl
from_utf8_lossy-ascii (b ∷ l) h =
    let low : leb b 0x7f ≡ true = ground (arith, h) in
    rw low (ap (λ k. b ∷ k) (from_utf8_lossy-ascii l (ground (arith, h))))

abbrev pub non_empty : List Text → List Text
non_empty = select λ (l : Text). not (is_empty l)

full_lines-text : (lines : List (List ℕ)) → All IsText lines → full_lines lines ≡ non_empty lines
full_lines-text [] h = refl
full_lines-text (l ∷ ls) h =
    let plain : line_text l ≡ l =
      ap from_utf8_lossy (strip_crlf-text l h.0.0 h.0.1) ∙ from_utf8_lossy-ascii l h.0.2 in
    rw plain (rw (full_lines-text ls h.1) refl)

text-lines : (lines : List (List ℕ)) → All IsText lines → All IsLine lines
text-lines [] h = tt
text-lines (l ∷ ls) h = (h.0.0, text-lines ls h.1)

-- A block reads back: the lines of a block, of ASCII text that has no line feed in it and no carriage
-- return at its end, sent with stuffed dots and the final dot, are exactly what a new reader yields,
-- but for the empty ones; it reports the block as complete, and consumes exactly the block's bytes,
-- whatever follows them in the buffer.
pub push-wire :
    (lines : List (List ℕ)) (rest : List ℕ)
    → All IsText lines
    → let r = push new_reader (wire lines ++ rest) in
      (into_lines r.0 ≡ non_empty lines) × (r.1 ≡ length (wire lines)) × (r.2 ≡ true)
unfolding push into_lines
push-wire lines rest h =
    let plain = text-lines lines h in
    let e = consume-wire [] lines rest plain in
    (
      rw e (lines-kept lines plain ∙ full_lines-text lines h),
      ap (λ (x : MultilineReader × ℕ). x.1) e,
      ap (λ (x : MultilineReader × ℕ). x.0.is_done) e,
    )
