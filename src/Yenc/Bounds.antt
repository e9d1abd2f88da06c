-- ===== src/Yenc/Bounds.antt =====
-- crates/nzbd-yenc/src/lib.rs: how much a call of `push` writes, keeps and consumes.
use nzbd.Prelude.{
  ℕ, ◌+◌, ◌≤◌, ◌≡◌, ◌⊎◌, inl, inr, refl, sym, subst, ◌∙◌, true, List, [], ◌∷◌, arith, Bool-cases,
  length, length-append, if◌then◌else◌, ◌==◌,
}
use nzbd.Yenc.Data.{ok, Result-cases, ok-injective, >>=-eq-ok, finished}
use nzbd.Yenc.Lines.{parse_begin, parse_part, parse_end}
use nzbd.Yenc.{
  Hasher, Scanner, State, pre, expect_part, body, control, drain, max_line, Fed, then_fed, byte,
  feed, body_byte, take_line_in, byte_in, line_byte, take_line, line_in_pre, line_in_expect_part,
  line_in_control, line_in_drain, Decoder, Pushed, push,
}
use nzbd.Yenc.Chunks.{feed-nil, feed_done, feed_step, account_scanner}

-- A dot at a line start is read before it is known to be data.
abbrev pub held_dot : Scanner → ℕ
held_dot d = if d.dot == 0 then 0 else 1

-- What a finished line leaves: nothing more is held back, and the line buffer is as it was.
abbrev Settles : Scanner → Scanner → Type 0
Settles d d' = (held_dot d' ≤ held_dot d) × (d'.line_buf ≡ d.line_buf)

line_in_pre-Settles : (d e : Scanner) (l : List ℕ) → line_in_pre d l ≡ ok e → Settles d e
unfolding line_in_pre
line_in_pre-Settles d e l h = ground (arith, Result-cases (parse_begin l))

line_in_expect_part-Settles :
    (d e : Scanner) (l : List ℕ) → line_in_expect_part d l ≡ ok e → Settles d e
unfolding line_in_expect_part
line_in_expect_part-Settles d e l h = ground (arith, Result-cases (parse_part l))

line_in_control-Settles : (d e : Scanner) (l : List ℕ) → line_in_control d l ≡ ok e → Settles d e
unfolding line_in_control
line_in_control-Settles d e l h = ground (arith, Result-cases (parse_end l))

line_in_drain-Settles : (d e : Scanner) (l : List ℕ) → line_in_drain d l ≡ ok e → Settles d e
unfolding line_in_drain
line_in_drain-Settles d e l h = ground arith

-- What one byte may do: write no more than it and a held dot account for, and keep the line buffer
-- within its limit.
abbrev ByteBound : Scanner → Scanner → List ℕ → Type 0
ByteBound d e out = (length out + held_dot e ≤ 1 + held_dot d) × (length e.line_buf ≤ max_line)

body_byte-bound :
    (d e : Scanner) (b : ℕ) (out : List ℕ)
    → length d.line_buf ≤ max_line
    → body_byte d b ≡ ok (e, out)
    → ByteBound d e out
unfolding body_byte
body_byte-bound d e b out k h = ground arith

take_line_in-Settles :
    (s : State) (d e : Scanner) (l : List ℕ) → take_line_in s d l ≡ ok e → Settles d e
take_line_in-Settles pre d e l h = line_in_pre-Settles d e l h
take_line_in-Settles expect_part d e l h = line_in_expect_part-Settles d e l h
take_line_in-Settles control d e l h = line_in_control-Settles d e l h
take_line_in-Settles drain d e l h = line_in_drain-Settles d e l h
take_line_in-Settles body d e l h = ground arith

take_line-bound :
    (d e : Scanner)
    → take_line d ≡ ok e
    → (held_dot e ≤ held_dot d) × (length e.line_buf ≤ max_line)
unfolding take_line
take_line-bound d e h =
    let k = take_line_in-Settles d.state (record d { line_buf = [] }) e _ h in
    (k.0, rw k.1 (omega arith))

line_byte-bound :
    (d e : Scanner) (b : ℕ) (out : List ℕ)
    → length d.line_buf ≤ max_line
    → line_byte d b ≡ ok (e, out)
    → ByteBound d e out
unfolding line_byte
line_byte-bound d e b out k h =
    ground
      (arith, take_line-bound d e, Result-cases (take_line d), length-append d.line_buf (b ∷ []))

byte_in-bound :
    (s : State) (d e : Scanner) (b : ℕ) (out : List ℕ)
    → length d.line_buf ≤ max_line
    → byte_in s d b ≡ ok (e, out)
    → ByteBound d e out
byte_in-bound body d e b out k h = body_byte-bound d e b out k h
byte_in-bound pre d e b out k h = line_byte-bound d e b out k h
byte_in-bound expect_part d e b out k h = line_byte-bound d e b out k h
byte_in-bound control d e b out k h = line_byte-bound d e b out k h
byte_in-bound drain d e b out k h = line_byte-bound d e b out k h

-- What a run of the loop may do.
pub record RunBound (d : Scanner) (bs : List ℕ) (r : Fed) : Type 0 where
  pub writes : length r.newly + held_dot r.scanner ≤ r.consumed + held_dot d
  pub line_fits : length r.scanner.line_buf ≤ max_line
  pub within : r.consumed ≤ length bs
  pub eats_all : (r.scanner.done ≡ true) ⊎ (r.consumed ≡ length bs)

RunBound-step :
    (d e : Scanner) (b : ℕ) (bs out : List ℕ) (s : Fed)
    → ByteBound d e out
    → RunBound e bs s
    → RunBound d (b ∷ bs) (then_fed out s)
RunBound-step d e b bs out s h k = record {
  writes = omega (arith, h.0, k.writes, length-append out s.newly);
  line_fits = k.line_fits;
  within = omega (arith, k.within);
  eats_all = elim k.eats_all [ inl t ↦ inl t | inr t ↦ inr (omega arith) ];
}

feed-bound :
    (d : Scanner) (bs : List ℕ) (r : Fed)
    → length d.line_buf ≤ max_line
    → feed d bs ≡ ok r
    → RunBound d bs r
feed-bound d [] r k h =
    subst (RunBound d []) (ok-injective (sym (feed-nil d) ∙ h))
      (record { writes = omega arith; line_fits = k; within = omega arith; eats_all = inr refl })
feed-bound d (b ∷ bs) r k h = elim (Bool-cases d.done) [
  | inl t ↦
      subst (RunBound d (b ∷ bs)) (ok-injective (sym (feed_done d (b ∷ bs) t) ∙ h))
        (record { writes = omega arith; line_fits = k; within = omega arith; eats_all = inl t })
  | inr f ↦
      let (x, e, h') = >>=-eq-ok (byte d b) _ (sym (feed_step d b bs f) ∙ h) in
      let (s, e', h'') = >>=-eq-ok (feed x.0 bs) _ h' in
      let q = byte_in-bound d.state d x.0 b x.1 k (unfold byte in e) in
      subst (RunBound d (b ∷ bs)) (ok-injective h'')
        (RunBound-step d x.0 b bs x.1 s q (feed-bound x.0 bs s q.1 e'))
]

module _ (H : Hasher) where
  -- Of a call of `push` that raises no error, on a decoder whose line buffer is within its limit: it
  -- writes at most as many bytes as it consumes, but for one dot that may have been held back before
  -- the call; the line buffer stays within 8192 bytes; it consumes no more than it is given; and
  -- when it answers "need more" it has consumed everything.
  pub push_bounds :
      (d : Decoder H) (buf : List ℕ) (p : Pushed H)
      → length d.scanner.line_buf ≤ max_line
      → push H d buf ≡ ok p
      → (length p.newly + held_dot p.decoder.scanner ≤ p.consumed + held_dot d.scanner)
        × (length p.decoder.scanner.line_buf ≤ max_line)
        × (p.consumed ≤ length buf)
        × ((p.status ≡ finished) ⊎ (p.consumed ≡ length buf))
  unfolding push
  push_bounds d buf p k h =
      let (r, e, h') = >>=-eq-ok (feed d.scanner buf) _ h in
      let q = feed-bound d.scanner buf r k e in
      subst
        (λ (p : Pushed H).
          (length p.newly + held_dot p.decoder.scanner ≤ p.consumed + held_dot d.scanner)
          × (length p.decoder.scanner.line_buf ≤ max_line)
          × (p.consumed ≤ length buf)
          × ((p.status ≡ finished) ⊎ (p.consumed ≡ length buf)))
        (ok-injective h')
        (rw (account_scanner H d r.scanner r.newly) (
          q.writes,
          q.line_fits,
          q.within,
          elim q.eats_all [ inl t ↦ inl (rw t refl) | inr t ↦ inr t ],
        ))
