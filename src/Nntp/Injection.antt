-- ===== src/Nntp/Injection.antt =====
-- crates/nzbd-nntp/src/lib.rs: an argument cannot smuggle in a command.
use Prim.Native.String.{String}
use nzbd.Prelude.{
  ℕ, ◌≡◌, ◌≢◌, ◌⊎◌, refl, sym, subst, inl, inr, Bool, true, false, [], ◌∷◌, ◌++◌, reverse, arith,
  Bool-cases, if◌then◌else◌, any, any-In, In, ◌==◌, All, is_empty,
}
use mathlib.Core.List.{reverse-append}
use nzbd.Types.Torrent.{Text}
use nzbd.Yenc.StdText.{trim, trim_start, trim_start_reversed}
use nzbd.Nntp.{Result, ok, err, illegal_argument}
use nzbd.Nntp.Commands.{
  Command, capabilities, mode_reader, auth_info_user, auth_info_pass, group, body, head, article,
  stat, compress_deflate, date, quit, is_illegal, check, trim_start_matches, bare, msgid, crlf,
  bytes_of, line, with_arg, encode,
}

-- A byte that ends no line and no text.
abbrev pub IsInner : ℕ → Type 0
IsInner b = (b ≢ 13) × (b ≢ 10) × (b ≢ 0)

is_illegal-IsInner : (b : ℕ) → is_illegal b ≡ false → IsInner b
is_illegal-IsInner b h = (
  λ e. absurd (ground (arith, h, e)),
  λ e. absurd (ground (arith, h, e)),
  λ e. absurd (ground (arith, h, e)),
)

unfoldable pub IsClean : Text → Type 0
IsClean l = All IsInner l

nil-IsClean : IsClean []
unfolding IsClean
nil-IsClean = tt

cons-IsClean : (b : ℕ) (l : Text) → IsInner b → IsClean l → IsClean (b ∷ l)
unfolding IsClean
cons-IsClean b l h k = (h, k)

head-IsClean : (b : ℕ) (l : Text) → IsClean (b ∷ l) → IsInner b
unfolding IsClean
head-IsClean b l h = h.0

tail-IsClean : (b : ℕ) (l : Text) → IsClean (b ∷ l) → IsClean l
unfolding IsClean
tail-IsClean b l h = h.1

any-IsClean : (l : Text) → any is_illegal l ≡ false → IsClean l
any-IsClean [] h = nil-IsClean
any-IsClean (b ∷ l) h =
    cons-IsClean b l (is_illegal-IsInner b (ground (arith, h))) (any-IsClean l (ground (arith, h)))

append-IsClean : (l m : Text) → IsClean l → IsClean m → IsClean (l ++ m)
append-IsClean [] m h k = k
append-IsClean (b ∷ l) m h k =
    cons-IsClean b (l ++ m) (head-IsClean b l h) (append-IsClean l m (tail-IsClean b l h) k)

reverse-IsClean : (l : Text) → IsClean l → IsClean (reverse l)
reverse-IsClean [] h = nil-IsClean
reverse-IsClean (b ∷ l) h = subst IsClean (sym (reverse-append (b ∷ []) l)) (
    append-IsClean (reverse l) (b ∷ []) (reverse-IsClean l (tail-IsClean b l h))
      (cons-IsClean b [] (head-IsClean b l h) nil-IsClean))

if-IsClean : (b : Bool) (l m : Text) → IsClean l → IsClean m → IsClean (if b then l else m)
if-IsClean true l m h k = h
if-IsClean false l m h k = k

trim_start-IsClean : (l : Text) → IsClean l → IsClean (trim_start l)
unfolding trim_start
trim_start-IsClean [] h = nil-IsClean
trim_start-IsClean (a ∷ []) h = if-IsClean _ _ _ nil-IsClean h
trim_start-IsClean (a ∷ b ∷ []) h =
    if-IsClean _ _ _ (trim_start-IsClean (b ∷ []) (tail-IsClean a (b ∷ []) h))
      (if-IsClean _ _ _ nil-IsClean h)
trim_start-IsClean (a ∷ b ∷ c ∷ l) h =
    let h1 = tail-IsClean a (b ∷ c ∷ l) h in
    let h2 = tail-IsClean b (c ∷ l) h1 in
    if-IsClean _ _ _ (trim_start-IsClean (b ∷ c ∷ l) h1) (
      if-IsClean _ _ _ (trim_start-IsClean (c ∷ l) h2)
        (if-IsClean _ _ _ (trim_start-IsClean l (tail-IsClean c l h2)) h))

trim_start_reversed-IsClean : (l : Text) → IsClean l → IsClean (trim_start_reversed l)
unfolding trim_start_reversed
trim_start_reversed-IsClean [] h = nil-IsClean
trim_start_reversed-IsClean (a ∷ []) h = if-IsClean _ _ _ nil-IsClean h
trim_start_reversed-IsClean (a ∷ b ∷ []) h =
    if-IsClean _ _ _ (trim_start_reversed-IsClean (b ∷ []) (tail-IsClean a (b ∷ []) h))
      (if-IsClean _ _ _ nil-IsClean h)
trim_start_reversed-IsClean (a ∷ b ∷ c ∷ l) h =
    let h1 = tail-IsClean a (b ∷ c ∷ l) h in
    let h2 = tail-IsClean b (c ∷ l) h1 in
    if-IsClean _ _ _ (trim_start_reversed-IsClean (b ∷ c ∷ l) h1) (
      if-IsClean _ _ _ (trim_start_reversed-IsClean (c ∷ l) h2)
        (if-IsClean _ _ _ (trim_start_reversed-IsClean l (tail-IsClean c l h2)) h))

trim-IsClean : (l : Text) → IsClean l → IsClean (trim l)
unfolding trim
trim-IsClean l h = reverse-IsClean (trim_start_reversed (reverse (trim_start l))) (
    trim_start_reversed-IsClean (reverse (trim_start l))
      (reverse-IsClean (trim_start l) (trim_start-IsClean l h)))

trim_start_matches-IsClean : (c : ℕ) (l : Text) → IsClean l → IsClean (trim_start_matches c l)
unfolding trim_start_matches
trim_start_matches-IsClean c [] h = nil-IsClean
trim_start_matches-IsClean c (b ∷ l) h =
    if-IsClean _ _ _ (trim_start_matches-IsClean c l (tail-IsClean b l h)) h

bare-IsClean : (l : Text) → IsClean l → IsClean (bare l)
bare-IsClean l h =
    let start = trim_start_matches-IsClean b'<' (trim l) (trim-IsClean l h) in
    reverse-IsClean _
      (trim_start_matches-IsClean b'>' _ (reverse-IsClean (trim_start_matches b'<' (trim l)) start))

-- An argument with a byte that ends a line or a text.
abbrev pub IsHarmful : Text → Type 0
IsHarmful arg = (b : ℕ) × In b arg × ((b ≡ 13) ⊎ (b ≡ 10) ⊎ (b ≡ 0))

is_illegal-IsHarmful : (arg : Text) → any is_illegal arg ≡ true → IsHarmful arg
is_illegal-IsHarmful arg h = let r = any-In is_illegal arg h in (r.0, r.1, which r.0 r.2)
  where
    which : (b : ℕ) → is_illegal b ≡ true → (b ≡ 13) ⊎ (b ≡ 10) ⊎ (b ≡ 0)
    which b t = elim (Bool-cases (b == 13)) [
      | inl x ↦ inl (ground (arith, x))
      | inr x ↦ elim (Bool-cases (b == 10)) [
        | inl y ↦ inr (inl (ground (arith, y)))
        | inr y ↦ inr (inr (ground (arith, x, y, t)))
      ]
    ]

-- Why a command may be refused: its argument is harmful, or is a message-id and empty without its
-- brackets.
pub IsRefusable : Command → Type 0
IsRefusable (auth_info_user u) = IsHarmful u
IsRefusable (auth_info_pass p) = IsHarmful p
IsRefusable (group g) = IsHarmful g
IsRefusable (body id) = IsHarmful id ⊎ (bare id ≡ [])
IsRefusable (head id) = IsHarmful id ⊎ (bare id ≡ [])
IsRefusable (article id) = IsHarmful id ⊎ (bare id ≡ [])
IsRefusable (stat id) = IsHarmful id ⊎ (bare id ≡ [])
IsRefusable _ = ⊥

-- Wire text that is one line, or a refusal with its reason.
abbrev pub IsOneLine : Type 0 → Result Text → Type 0
IsOneLine reason (ok w) = (l : Text) × (w ≡ l ++ crlf) × IsClean l
IsOneLine reason (err e) = reason × (e ≡ illegal_argument)

abbrev IsCleanResult : Type 0 → Result Text → Type 0
IsCleanResult reason (ok w) = IsClean w
IsCleanResult reason (err e) = reason × (e ≡ illegal_argument)

check-IsClean : (arg : Text) → IsCleanResult (IsHarmful arg) (check arg)
check-IsClean arg = elim (Bool-cases (any is_illegal arg)) [
  | inl t ↦ rw t (is_illegal-IsHarmful arg t, refl)
  | inr f ↦ rw f (any-IsClean arg f)
]

is_empty-eq-nil : (l : Text) → is_empty l ≡ true → l ≡ []
is_empty-eq-nil [] h = refl
is_empty-eq-nil (x ∷ l) h = absurd (ground (arith, h))

msgid-IsClean : (arg : Text) → IsCleanResult (IsHarmful arg ⊎ (bare arg ≡ [])) (msgid arg)
unfolding msgid
msgid-IsClean arg = elim (Bool-cases (any is_illegal arg)) [
  | inl t ↦ rw (t, check) (inl (is_illegal-IsHarmful arg t), refl)
  | inr f ↦
      rw (f, check)
        (elim (Bool-cases (is_empty (bare arg))) [
          | inl t ↦ rw t (inr (is_empty-eq-nil (bare arg) t), refl)
          | inr g ↦ rw g (
              cons-IsClean b'<' (bare arg ++ b'>' ∷ []) (is_illegal-IsInner b'<' refl) (
                append-IsClean (bare arg) (b'>' ∷ []) (bare-IsClean arg (any-IsClean arg f))
                  (cons-IsClean b'>' [] (is_illegal-IsInner b'>' refl) nil-IsClean)))
        ])
]

with_arg-IsOneLine :
    (reason : Type 0) (verb : String) (r : Result Text)
    → IsClean (bytes_of verb)
    → IsCleanResult reason r
    → IsOneLine reason (with_arg verb r)
with_arg-IsOneLine reason verb (err e) v h = h
with_arg-IsOneLine reason verb (ok arg) v h =
    (bytes_of verb ++ arg, refl, append-IsClean (bytes_of verb) arg v h)

plain-IsOneLine :
    (reason : Type 0) (verb : String)
    → IsClean (bytes_of verb)
    → IsOneLine reason (ok (line verb []))
plain-IsOneLine reason verb v =
    (bytes_of verb ++ [], refl, append-IsClean (bytes_of verb) [] v nil-IsClean)

-- No argument smuggles in a command: whatever the command and its argument are, what is encoded is one
-- line, that is text without carriage return, line feed or zero byte with one CRLF after it, or the
-- argument is refused as illegal, and then it has such a byte or is a message-id that is empty without
-- its brackets.
pub encode-IsOneLine : (c : Command) → IsOneLine (IsRefusable c) (encode c)
unfolding encode IsRefusable
encode-IsOneLine capabilities = plain-IsOneLine ⊥ "CAPABILITIES" (any-IsClean _ refl)
encode-IsOneLine mode_reader = plain-IsOneLine ⊥ "MODE READER" (any-IsClean _ refl)
encode-IsOneLine (auth_info_user u) =
    with_arg-IsOneLine _ "AUTHINFO USER " (check u) (any-IsClean _ refl) (check-IsClean u)
encode-IsOneLine (auth_info_pass p) =
    with_arg-IsOneLine _ "AUTHINFO PASS " (check p) (any-IsClean _ refl) (check-IsClean p)
encode-IsOneLine (group g) =
    with_arg-IsOneLine _ "GROUP " (check g) (any-IsClean _ refl) (check-IsClean g)
encode-IsOneLine (body id) =
    with_arg-IsOneLine _ "BODY " (msgid id) (any-IsClean _ refl) (msgid-IsClean id)
encode-IsOneLine (head id) =
    with_arg-IsOneLine _ "HEAD " (msgid id) (any-IsClean _ refl) (msgid-IsClean id)
encode-IsOneLine (article id) =
    with_arg-IsOneLine _ "ARTICLE " (msgid id) (any-IsClean _ refl) (msgid-IsClean id)
encode-IsOneLine (stat id) =
    with_arg-IsOneLine _ "STAT " (msgid id) (any-IsClean _ refl) (msgid-IsClean id)
encode-IsOneLine compress_deflate = plain-IsOneLine ⊥ "COMPRESS DEFLATE" (any-IsClean _ refl)
encode-IsOneLine date = plain-IsOneLine ⊥ "DATE" (any-IsClean _ refl)
encode-IsOneLine quit = plain-IsOneLine ⊥ "QUIT" (any-IsClean _ refl)
