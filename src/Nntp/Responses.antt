-- ===== src/Nntp/Responses.antt =====
-- crates/nzbd-nntp/src/lib.rs: `Response`.
use nzbd.Prelude.{ℕ, ◌+◌, ◌-◌, ◌*◌, Bool, ◌&&◌, List, [], ◌∷◌, if◌then◌else◌, leb, ltb, member}
use nzbd.Types.Torrent.{Text}
use nzbd.Yenc.StdText.{from_utf8_lossy, within}
use nzbd.Nntp.{Result, ok, err, malformed_response, strip_crlf}

pub record Response : Type 0 where
  pub code : ℕ
  pub text : Text

abbrev is_digit : ℕ → Bool
is_digit b = within b'0' b'9' b

abbrev rest_of : List ℕ → List ℕ
rest_of [] = []
rest_of (sep ∷ text) = text

abbrev parse_line : List ℕ → Result Response
parse_line (a ∷ b ∷ c ∷ rest) =
    if is_digit a && is_digit b && is_digit c
    then ok (record {
      code = (a - 48) * 100 + (b - 48) * 10 + (c - 48);
      text = from_utf8_lossy (rest_of rest);
    })
    else err malformed_response
parse_line _ = err malformed_response

unfoldable pub parse : List ℕ → Result Response
unfolding strip_crlf
parse line = parse_line (strip_crlf line)

pub is_positive : Response → Bool
is_positive r = leb 200 r.code && ltb r.code 300

unfoldable pub is_article_missing : Response → Bool
is_article_missing r = member r.code (430 ∷ 420 ∷ 423 ∷ 421 ∷ 422 ∷ [])

pub expects_multiline : Response → Bool
expects_multiline r = member r.code (101 ∷ 220 ∷ 221 ∷ 222 ∷ 215 ∷ 224 ∷ 225 ∷ 230 ∷ 231 ∷ [])
