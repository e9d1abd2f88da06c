-- ===== src/Yenc/Chunks.antt =====
-- crates/nzbd-yenc/src/lib.rs: decoding does not depend on how the stream is cut into chunks.
use mathlib.Core.List.{append-nil, append_assoc}
use nzbd.Prelude.{
  ℕ, suc, ◌+◌, ◌≡◌, inl, inr, refl, sym, subst, ◌∙◌, Bool, true, false, List, [], ◌∷◌, ◌++◌, arith,
  Bool-cases, length, length-append, if◌then◌else◌,
}
use nzbd.Yenc.Data.{Result, ok, err, ◌>>=◌, ok-injective, need_more, finished}
use nzbd.Yenc.{
  Hasher, Scanner, Fed, then_fed, byte, feed, Decoder, Pushed, account, after_loop, push,
}

-- The second run after the first, with what both write and consume.
abbrev pub joined : Fed → Fed → Fed
joined r s = record {
  scanner = s.scanner;
  newly = r.newly ++ s.newly;
  consumed = r.consumed + s.consumed;
}

pub feed-nil : (d : Scanner) → feed d [] ≡ ok (record { scanner = d; newly = []; consumed = 0 })
unfolding feed
feed-nil d = refl

pub feed_done :
    (d : Scanner) (bs : List ℕ)
    → d.done ≡ true
    → feed d bs ≡ ok (record { scanner = d; newly = []; consumed = 0 })
unfolding feed
feed_done d [] h = refl
feed_done d (b ∷ bs) h = ground (arith, h)

abbrev feed_both : Scanner → List ℕ → List ℕ → Result Fed
feed_both d xs ys = feed d xs >>= λ r. feed r.scanner ys >>= λ s. ok (joined r s)

joined_start :
    (d : Scanner) (m : Result Fed)
    → m ≡ (m >>= λ s. ok (joined (record { scanner = d; newly = []; consumed = 0 }) s))
joined_start d (err e) = refl
joined_start d (ok s) =
    let k : s.consumed ≡ 0 + s.consumed = omega arith in
    λ i. ok (record { scanner = s.scanner; newly = s.newly; consumed = k i })

joined_later :
    (out : List ℕ) (r : Fed) (m : Result Fed)
    → (m >>= (λ s. ok (joined r s)) >>= (λ s. ok (then_fed out s)))
      ≡ (m >>= λ s. ok (joined (then_fed out r) s))
joined_later out r (err e) = refl
joined_later out r (ok s) =
    let k : suc (r.consumed + s.consumed) ≡ suc r.consumed + s.consumed = omega arith in
    let l = sym (append_assoc out r.newly s.newly) in
    λ i. ok (record { scanner = s.scanner; newly = l i; consumed = k i })

pub feed_step :
    (d : Scanner) (b : ℕ) (bs : List ℕ)
    → d.done ≡ false
    → feed d (b ∷ bs) ≡ (byte d b >>= λ r. feed r.0 bs >>= λ s. ok (then_fed r.1 s))
unfolding feed
feed_step d b bs h = ground (arith, h)

-- Both sides of `feed-append` after their first byte.
after_byte :
    (xs ys : List ℕ) (m : Result (Scanner × List ℕ))
    → ((d : Scanner) → feed d (xs ++ ys) ≡ feed_both d xs ys)
    → (m >>= λ r. feed r.0 (xs ++ ys) >>= λ s. ok (then_fed r.1 s)) ≡ (
        (m >>= λ r. feed r.0 xs >>= λ s. ok (then_fed r.1 s))
        >>= (λ r. feed r.scanner ys >>= λ s. ok (joined r s)))
after_byte xs ys (err e) ih = refl
after_byte xs ys (ok (d, out)) ih = rw (ih d) (go (feed d xs))
  where
    go :
        (m : Result Fed)
        → ((m >>= λ r. feed r.scanner ys >>= λ s. ok (joined r s)) >>= λ s. ok (then_fed out s))
          ≡ ((m >>= λ s. ok (then_fed out s)) >>= λ r. feed r.scanner ys >>= λ s. ok (joined r s))
    go (err e) = refl
    go (ok r) = joined_later out r (feed r.scanner ys)

pub feed-append : (d : Scanner) (xs ys : List ℕ) → feed d (xs ++ ys) ≡ feed_both d xs ys
feed-append d [] ys = unfold feed in joined_start d (feed d ys)
feed-append d (b ∷ xs) ys = elim (Bool-cases d.done) [
  | inl t ↦ rw (feed_done d (b ∷ (xs ++ ys)) t, feed_done d (b ∷ xs) t) (rw (feed_done d ys t) refl)
  | inr f ↦
      rw (feed_step d b (xs ++ ys) f, feed_step d b xs f)
        (after_byte xs ys (byte d b) (λ d'. feed-append d' xs ys))
]

module _ (H : Hasher) where
  open H use {update-append}

  -- Two calls of `push`, one after the other.
  abbrev pub both_pushed : Pushed H → Pushed H → Pushed H
  both_pushed p q = record {
    decoder = q.decoder;
    newly = p.newly ++ q.newly;
    status = q.status;
    consumed = p.consumed + q.consumed;
  }

  abbrev pub push_both : Decoder H → List ℕ → List ℕ → Result (Pushed H)
  push_both d xs ys = push H d xs >>= λ p. push H p.decoder ys >>= λ q. ok (both_pushed p q)

  account_both :
      (d : Decoder H) (s t : Scanner) (xs ys : List ℕ)
      → account H (account H d s xs) t ys ≡ account H d t (xs ++ ys)
  account_both d s t [] [] = refl
  account_both d s t [] (y ∷ ys) = refl
  account_both d s t (x ∷ xs) [] = rw (append-nil xs) refl
  account_both d s t (x ∷ xs) (y ∷ ys) =
      let h = update-append d.hasher (x ∷ xs) (y ∷ ys) in
      let k : d.decoded_len + length (x ∷ xs) + length (y ∷ ys)
          ≡ d.decoded_len + length ((x ∷ xs) ++ (y ∷ ys)) =
        omega (arith, length-append (x ∷ xs) (y ∷ ys)) in
      λ i. record { scanner = t; hasher = h i; decoded_len = k i }

  pub account_scanner : (d : Decoder H) (s : Scanner) (xs : List ℕ) → (account H d s xs).scanner ≡ s
  account_scanner d s [] = refl
  account_scanner d s (x ∷ xs) = refl

  after_second :
      (d : Decoder H) (r : Fed) (m : Result Fed)
      → (m >>= (λ s. ok (joined r s)) >>= λ s. ok (after_loop H d s)) ≡ (
          m >>= (λ s. ok (after_loop H (after_loop H d r).decoder s)) >>= λ q.
          ok (both_pushed (after_loop H d r) q))
  after_second d r (err e) = refl
  after_second d r (ok s) =
      let e = sym (account_both d r.scanner s.scanner r.newly s.newly) in
      λ i. ok (record {
        decoder = e i;
        newly = r.newly ++ s.newly;
        status = if s.scanner.done then finished else need_more;
        consumed = r.consumed + s.consumed;
      })

  -- The decoder cannot tell how the stream was cut: pushing `xs` and then `ys` gives what pushing
  -- `xs ++ ys` at once gives, the decoder with its checksum and length, the bytes written, the
  -- status, the number of bytes consumed, and the error where there is one.
  pub push-append : (d : Decoder H) (xs ys : List ℕ) → push H d (xs ++ ys) ≡ push_both d xs ys
  unfolding push
  push-append d xs ys = rw (feed-append d.scanner xs ys) (go (feed d.scanner xs))
    where
      go :
          (m : Result Fed)
          → (m >>= (λ r. feed r.scanner ys >>= λ s. ok (joined r s)) >>= λ s. ok (after_loop H d s))
            ≡ (m >>= (λ r. ok (after_loop H d r)) >>= λ p.
                feed p.decoder.scanner ys >>= (λ r. ok (after_loop H p.decoder r)) >>= λ q.
                ok (both_pushed p q))
      go (err e) = refl
      go (ok r) = rw (account_scanner d r.scanner r.newly) (after_second d r (feed r.scanner ys))

  -- A whole article fed chunk by chunk.
  abbrev pub push_all : Decoder H → List (List ℕ) → Result (Pushed H)
  push_all d [] = push H d []
  push_all d (c ∷ cs) = push H d c >>= λ p. push_all p.decoder cs >>= λ q. ok (both_pushed p q)

  abbrev pub concat : List (List ℕ) → List ℕ
  concat [] = []
  concat (c ∷ cs) = c ++ concat cs

  -- However an article is cut into chunks, pushing them one after the other gives the result of pushing
  -- it whole.
  pub push_all-concat : (d : Decoder H) (cs : List (List ℕ)) → push_all d cs ≡ push H d (concat cs)
  push_all-concat d [] = refl
  push_all-concat d (c ∷ cs) =
      sym (push-append d c (concat cs) ∙ go (push H d c) (λ d'. push_all-concat d' cs))
    where
      go :
          (m : Result (Pushed H))
          → ((d' : Decoder H) → push_all d' cs ≡ push H d' (concat cs))
          → (m >>= λ p. push H p.decoder (concat cs) >>= λ q. ok (both_pushed p q))
            ≡ (m >>= λ p. push_all p.decoder cs >>= λ q. ok (both_pushed p q))
      go (err e) ih = refl
      go (ok p) ih = rw (ih p.decoder) refl

  pub finished_done :
      (d : Decoder H) (xs : List ℕ) (p : Pushed H)
      → push H d xs ≡ ok p
      → p.status ≡ finished
      → p.decoder.scanner.done ≡ true
  unfolding push
  finished_done d xs p h e = go (feed d.scanner xs) h
    where
      done_of : (b : Bool) → (if b then finished else need_more) ≡ finished → b ≡ true
      done_of b h = ground arith

      go :
          (m : Result Fed)
          → (m >>= λ r. ok (after_loop H d r)) ≡ ok p
          → p.decoder.scanner.done ≡ true
      go (err x) k = absurd (cc)
      go (ok r) k =
          let k' : after_loop H d r ≡ p = ok-injective k in
          subst (λ (q : Pushed H). q.status ≡ finished → q.decoder.scanner.done ≡ true) k'
            (λ s. rw (account_scanner d r.scanner r.newly) (done_of r.scanner.done s)) e

  -- Pipelining: once `push` has answered `finished`, bytes that follow in the same buffer change
  -- nothing, neither what is written, nor the decoder, nor the number of bytes consumed, which
  -- therefore stops at the article's terminator.
  finished-ignores_rest :
      (d : Decoder H) (xs ys : List ℕ) (p : Pushed H)
      → push H d xs ≡ ok p
      → p.status ≡ finished
      → push H d (xs ++ ys) ≡ ok p
  unfolding push
  finished-ignores_rest d xs ys p h e =
      push-append d xs ys
      ∙ rw h (rw (feed_done p.decoder.scanner ys (finished_done d xs p h e)) same)
    where
      status_of : (b : Bool) → b ≡ true → finished ≡ (if b then finished else need_more)
      status_of b h = ground arith

      same :
          ok (record {
            decoder = p.decoder;
            newly = p.newly ++ [];
            status = if p.decoder.scanner.done then finished else need_more;
            consumed = p.consumed + 0;
          })
          ≡ ok p
      same =
          let k : p.consumed + 0 ≡ p.consumed = omega arith in
          let t = sym (e ∙ status_of p.decoder.scanner.done (finished_done d xs p h e)) in
          λ i. ok (record {
            decoder = p.decoder;
            newly = append-nil p.newly i;
            status = t i;
            consumed = k i;
          })
