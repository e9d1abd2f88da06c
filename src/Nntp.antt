-- ===== src/Nntp.antt =====
-- crates/nzbd-nntp/src/lib.rs: the codec of NNTP. The transport over sockets is left out.
pub mod Responses
pub mod Commands
pub mod Injection
pub mod Multiline
pub mod Reading
mod Scenarios
use nzbd.Prelude.{ℕ, Bool, true, false, ◌||◌, List, [], ◌∷◌, if◌then◌else◌, ◌==◌, is_empty}

pub data NntpError : Type 0 where
  malformed_response illegal_argument : NntpError

pub data Result (A : Type 0) : Type 0 where
  ok : A → Result A
  err : NntpError → Result A

infixl 5 ◌>>=◌
abbrev pub ◌>>=◌ : {A B : Type 0} → Result A → (A → Result B) → Result B
ok a >>= f = f a
err e >>= f = err e

abbrev pub is_line_end : ℕ → Bool
is_line_end b = b == 13 || b == 10

-- Carriage returns and line feeds at the end are cut off.
unfoldable pub strip_crlf : List ℕ → List ℕ
strip_crlf [] = []
strip_crlf (b ∷ l) =
    let rest = strip_crlf l in
    if is_empty rest then if is_line_end b then [] else b ∷ [] else b ∷ rest
