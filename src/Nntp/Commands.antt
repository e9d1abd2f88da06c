-- ===== src/Nntp/Commands.antt =====
-- crates/nzbd-nntp/src/lib.rs: `Command`. Texts are their UTF-8 bytes.
use Prim.Native.Char.{code}
use Prim.Native.String.{String}
use nzbd.Prelude.{ℕ, Bool, ◌||◌, [], ◌∷◌, ◌++◌, reverse, if◌then◌else◌, ◌==◌, any, is_empty}
use nzbd.Types.Torrent.{Text}
use nzbd.Yenc.StdText.{trim}
use nzbd.Nntp.{Result, ok, err, illegal_argument, ◌>>=◌}

pub data Command : Type 0 where
  capabilities mode_reader : Command
  auth_info_user auth_info_pass group : Text → Command
  body head article stat : Text → Command
  compress_deflate date quit : Command

-- The bytes of an ASCII text.
abbrev pub bytes_of : String → Text
bytes_of String.[] = []
bytes_of (String.◌∷◌ c s) = code c ∷ bytes_of s

abbrev pub is_illegal : ℕ → Bool
is_illegal b = b == 13 || b == 10 || b == 0

abbrev pub check : Text → Result Text
check arg = if any is_illegal arg then err illegal_argument else ok arg

-- `trim_start_matches`.
unfoldable pub trim_start_matches : ℕ → Text → Text
trim_start_matches c [] = []
trim_start_matches c (b ∷ l) = let rest = trim_start_matches c l in if b == c then rest else b ∷ l

abbrev pub trim_end_matches : ℕ → Text → Text
trim_end_matches c l = reverse (trim_start_matches c (reverse l))

abbrev pub bare : Text → Text
bare arg = trim_end_matches b'>' (trim_start_matches b'<' (trim arg))

unfoldable pub msgid : Text → Result Text
msgid arg = do
  a ← check arg
  if is_empty (bare a) then err illegal_argument else ok (b'<' ∷ bare a ++ b'>' ∷ [])

abbrev pub crlf : Text
crlf = 13 ∷ 10 ∷ []

abbrev pub line : String → Text → Text
line verb arg = (bytes_of verb ++ arg) ++ crlf

abbrev pub with_arg : String → Result Text → Result Text
with_arg verb (err e) = err e
with_arg verb (ok arg) = ok (line verb arg)

unfoldable pub encode : Command → Result Text
unfolding msgid
encode capabilities = ok (line "CAPABILITIES" [])
encode mode_reader = ok (line "MODE READER" [])
encode (auth_info_user u) = with_arg "AUTHINFO USER " (check u)
encode (auth_info_pass p) = with_arg "AUTHINFO PASS " (check p)
encode (group g) = with_arg "GROUP " (check g)
encode (body id) = with_arg "BODY " (msgid id)
encode (head id) = with_arg "HEAD " (msgid id)
encode (article id) = with_arg "ARTICLE " (msgid id)
encode (stat id) = with_arg "STAT " (msgid id)
encode compress_deflate = ok (line "COMPRESS DEFLATE" [])
encode date = ok (line "DATE" [])
encode quit = ok (line "QUIT" [])
