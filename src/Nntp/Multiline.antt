-- ===== src/Nntp/Multiline.antt =====
-- crates/nzbd-nntp/src/lib.rs: `MultilineReader`, the incremental reader of dot-terminated blocks.
use nzbd.Prelude.{
  ℕ, ◌+◌, Bool, true, false, not, ◌&&◌, List, [], ◌∷◌, ◌++◌, map, if◌then◌else◌, ◌==◌, select,
  is_empty,
}
use nzbd.Types.Torrent.{Text}
use nzbd.Yenc.StdText.{from_utf8_lossy}
use nzbd.Nntp.{strip_crlf}

-- Nothing, a '.' at the start of a line, or ".\r".
pub data Dot : Type 0 where
  clear dot dot_cr : Dot

pub record MultilineReader : Type 0 where
  pub content : List ℕ
  pub at_line_start : Bool
  pub dot : Dot
  pub is_done : Bool

abbrev pub reader : List ℕ → Bool → Dot → Bool → MultilineReader
reader content start d finished = record {
  content = content;
  at_line_start = start;
  dot = d;
  is_done = finished;
}

abbrev pub new_reader : MultilineReader
new_reader = reader [] true clear false

-- One byte of a block that is not done.
unfoldable pub take_byte : Dot → ℕ → MultilineReader → MultilineReader
take_byte dot b r =
    if b == b'.'
    then reader (r.content ++ b'.' ∷ []) false clear r.is_done
    else if b == 13
    then reader r.content r.at_line_start dot_cr r.is_done
    else if b == 10
    then reader r.content r.at_line_start clear true
    else reader (r.content ++ b'.' ∷ b ∷ []) false clear r.is_done
take_byte dot_cr b r =
    if b == 10
    then reader r.content r.at_line_start clear true
    else reader (r.content ++ b'.' ∷ 13 ∷ b ∷ []) (b == 10) clear r.is_done
take_byte clear b r =
    if r.at_line_start && b == b'.'
    then reader r.content r.at_line_start dot r.is_done
    else reader (r.content ++ b ∷ []) (b == 10) clear r.is_done

-- The reader after the bytes, and how many it consumed.
unfoldable pub consume : MultilineReader → List ℕ → MultilineReader × ℕ
consume r [] = (r, 0)
consume r (b ∷ buf) =
    let (r', n) = consume (take_byte r.dot b r) buf in if r.is_done then (r, 0) else (r', n + 1)

unfoldable pub push : MultilineReader → List ℕ → MultilineReader × ℕ × Bool
push r buf = let (r', n) = consume r buf in (r', n, r'.is_done)

-- `split(|b| b == b'\n')`: the first piece and the others.
unfoldable pub split_lines : List ℕ → List ℕ × List (List ℕ)
split_lines [] = ([], [])
split_lines (b ∷ l) =
    let (piece, pieces) = split_lines l in
    if b == 10 then ([], piece ∷ pieces) else (b ∷ piece, pieces)

abbrev pub line_text : List ℕ → Text
line_text l = from_utf8_lossy (strip_crlf l)

abbrev pub full_lines : List (List ℕ) → List Text
full_lines pieces = select (λ (l : Text). not (is_empty l)) (map line_text pieces)

unfoldable pub into_lines : MultilineReader → List Text
into_lines r = let (piece, pieces) = split_lines r.content in full_lines (piece ∷ pieces)
