-- ===== src/Yenc/RoundTrip.antt =====
-- crates/nzbd-yenc/src/lib.rs: decoding the body of an article gives back what was encoded.
use nzbd.Prelude.{
  ℕ, ◌+◌, ◌%◌, ◌<◌, ◌≡◌, ◌⊎◌, inl, inr, refl, sym, subst, ◌∙◌, ap, Bool, true, false, ◌||◌, List,
  [], ◌∷◌, ◌++◌, arith, Bool-cases, length, length-append, if◌then◌else◌, ◌==◌, All,
}
use nzbd.Yenc.Data.{Result, ok}
use nzbd.Yenc.{Scanner, body, Fed, byte, feed, body_byte, cr, lf, dot_byte, decoded}
use nzbd.Yenc.Chunks.{feed-append}

-- The encoding as the yEnc description has it: 42 is added to each byte, and a result that the
-- transport could not carry is written as `=` and the result plus 64.
abbrev pub is_critical : ℕ → Bool
is_critical e = e == 0 || e == 10 || e == 13 || e == b'='

abbrev pub encode_raw : ℕ → List ℕ
encode_raw e = if is_critical e then b'=' ∷ (e + 64) % 256 ∷ [] else e ∷ []

abbrev pub encode_byte : ℕ → List ℕ
encode_byte x = encode_raw ((x + 42) % 256)

-- NNTP doubles a dot that starts a line.
abbrev pub stuff : List ℕ → List ℕ
stuff [] = []
stuff (b ∷ bs) = if b == dot_byte then dot_byte ∷ b ∷ bs else b ∷ bs

abbrev pub line_break : List ℕ
line_break = cr ∷ lf ∷ []

abbrev pub encode_rest : List ℕ → List ℕ
encode_rest [] = line_break
encode_rest (x ∷ xs) = encode_byte x ++ encode_rest xs

abbrev pub encode_line : List ℕ → List ℕ
encode_line [] = line_break
encode_line (x ∷ xs) = stuff (encode_byte x) ++ encode_rest xs

-- A body is a sequence of lines of any lengths.
unfoldable pub encode_lines : List (List ℕ) → List ℕ
encode_lines [] = []
encode_lines (l ∷ ls) = encode_line l ++ encode_lines ls

abbrev pub joined_lines : List (List ℕ) → List ℕ
joined_lines [] = []
joined_lines (l ∷ ls) = l ++ joined_lines ls

abbrev pub Bytes : List ℕ → Type 0
Bytes = All (λ b. b < 256)

-- In the body, with nothing pending, at a line start or not.
abbrev pub idle : Scanner → Bool → Scanner
idle d start = record d {
  state = body;
  esc = false;
  at_line_start = start;
  pending_eq = false;
  dot = 0;
  done = false;
}

abbrev fed_as : Scanner → List ℕ → List ℕ → Result Fed
fed_as d out input = ok (record { scanner = d; newly = out; consumed = length input })

by_critical : (P : ℕ → Type 0) → P 0 → P 10 → P 13 → P b'=' → (e : ℕ) → is_critical e ≡ true → P e
by_critical P p0 p1 p2 p3 e h = elim (cases e h) [
  | inl k ↦ subst P (sym k) p0
  | inr (inl k) ↦ subst P (sym k) p1
  | inr (inr (inl k)) ↦ subst P (sym k) p2
  | inr (inr (inr k)) ↦ subst P (sym k) p3
]
  where
    cases : (e : ℕ) → is_critical e ≡ true → (e ≡ 0) ⊎ (e ≡ 10) ⊎ (e ≡ 13) ⊎ (e ≡ b'=')
    cases e h = ground arith

-- One encoded byte, inside a line.
abbrev RestDecodes : Scanner → ℕ → Type 0
RestDecodes d e =
    feed (idle d false) (encode_raw e) ≡ fed_as (idle d false) (decoded e ∷ []) (encode_raw e)

feed_rest_raw : (d : Scanner) (e : ℕ) → RestDecodes d e
unfolding feed byte body_byte
feed_rest_raw d e = elim (Bool-cases (is_critical e)) [
  | inl t ↦ by_critical (RestDecodes d) refl refl refl refl e t
  | inr f ↦ rw f (ground (arith, f))
]

-- One encoded byte at a line start, where a dot is doubled.
abbrev StartDecodes : Scanner → ℕ → Type 0
StartDecodes d e =
    feed (idle d true) (stuff (encode_raw e))
    ≡ fed_as (idle d false) (decoded e ∷ []) (stuff (encode_raw e))

feed_dot : (d : Scanner) → StartDecodes d dot_byte
unfolding feed byte body_byte
feed_dot d = refl

feed_start_raw : (d : Scanner) (e : ℕ) → StartDecodes d e
unfolding feed byte body_byte
feed_start_raw d e = elim (Bool-cases (is_critical e)) [
  | inl t ↦ by_critical (StartDecodes d) refl refl refl refl e t
  | inr f ↦ elim (Bool-cases (e == dot_byte)) [
    | inl t ↦
        let k : e ≡ dot_byte = ground (arith, t) in subst (StartDecodes d) (sym k) (feed_dot d)
    | inr g ↦ rw (f, g) (ground (arith, f, g))
  ]
]

feed_break :
    (d : Scanner) (start : Bool)
    → feed (idle d start) line_break ≡ fed_as (idle d true) [] line_break
unfolding feed byte body_byte
feed_break d true = refl
feed_break d false = refl

decoded_encoded : (x : ℕ) → x < 256 → decoded ((x + 42) % 256) ≡ x
decoded_encoded x h = omega arith

feed_joined :
    (d e f : Scanner) (out out' xs ys : List ℕ)
    → feed d xs ≡ fed_as e out xs
    → feed e ys ≡ fed_as f out' ys
    → feed d (xs ++ ys) ≡ fed_as f (out ++ out') (xs ++ ys)
feed_joined d e f out out' xs ys h k =
    feed-append d xs ys
    ∙ rw (h, k)
        (λ i.
          ok (record { scanner = f; newly = out ++ out'; consumed = sym (length-append xs ys) i }))

feed_rest :
    (d : Scanner) (xs : List ℕ)
    → Bytes xs
    → feed (idle d false) (encode_rest xs) ≡ fed_as (idle d true) xs (encode_rest xs)
feed_rest d [] h = feed_break d false
feed_rest d (x ∷ xs) h =
    feed_joined (idle d false) (idle d false) (idle d true) (x ∷ []) xs (encode_byte x)
      (encode_rest xs)
      (feed_rest_raw d ((x + 42) % 256)
        ∙ ap (λ y. fed_as (idle d false) (y ∷ []) (encode_byte x)) (decoded_encoded x h.0))
      (feed_rest d xs h.1)

feed_line :
    (d : Scanner) (xs : List ℕ)
    → Bytes xs
    → feed (idle d true) (encode_line xs) ≡ fed_as (idle d true) xs (encode_line xs)
feed_line d [] h = feed_break d true
feed_line d (x ∷ xs) h =
    feed_joined (idle d true) (idle d false) (idle d true) (x ∷ []) xs (stuff (encode_byte x))
      (encode_rest xs)
      (feed_start_raw d ((x + 42) % 256)
        ∙ ap (λ y. fed_as (idle d false) (y ∷ []) (stuff (encode_byte x))) (decoded_encoded x h.0))
      (feed_rest d xs h.1)

-- From the start of any line of the body, feeding the encoding of any lines of bytes, of whatever
-- lengths, writes exactly these bytes, consumes all the input, raises no error, and leaves the
-- decoder at a line start, with nothing pending.
pub feed-encode_lines :
    (d : Scanner) (ls : List (List ℕ))
    → All Bytes ls
    → feed (idle d true) (encode_lines ls)
      ≡ ok (record {
        scanner = idle d true;
        newly = joined_lines ls;
        consumed = length (encode_lines ls);
      })
unfolding encode_lines
feed-encode_lines d [] h = unfold feed in refl
feed-encode_lines d (l ∷ ls) h =
    feed_joined (idle d true) (idle d true) (idle d true) l (joined_lines ls) (encode_line l)
      (encode_lines ls) (feed_line d l h.0) (feed-encode_lines d ls h.1)
