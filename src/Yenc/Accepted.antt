-- ===== src/Yenc/Accepted.antt =====
-- crates/nzbd-yenc/src/lib.rs: what the result of a whole article says of the bytes written.
use nzbd.Prelude.{
  ℕ, ◌≡◌, ◌≢◌, ◌⊎◌, refl, sym, subst, ◌∙◌, ap, true, false, List, [], ◌∷◌, none, some, arith,
  length,
}
use nzbd.Yenc.Data.{ok, ok-injective, >>=-eq-ok, DecodeResult}
use nzbd.Yenc.{Hasher, Scanner, feed, Decoder, Pushed, new_decoder, account, push, take_result}
use nzbd.Yenc.Chunks.{push_all, concat, push_all-concat}

module _ (H : Hasher) where
  open H use {start, update, finalize, update-nil}

  Accounts : Decoder H → List ℕ → Type 0
  Accounts d newly =
      (d.decoded_len ≡ length newly) × (finalize d.hasher ≡ finalize (update start newly))

  account_new : (s : Scanner) (newly : List ℕ) → Accounts (account H (new_decoder H) s newly) newly
  unfolding new_decoder Accounts
  account_new s [] = (refl, ap finalize (sym (update-nil start)))
  account_new s (x ∷ xs) = (omega arith, refl)

  whole_article :
      (cs : List (List ℕ)) (p : Pushed H)
      → push_all H (new_decoder H) cs ≡ ok p
      → Accounts p.decoder p.newly
  unfolding push
  whole_article cs p h =
      let (r, e, h') =
        >>=-eq-ok (feed (new_decoder H).scanner (concat H cs)) _
          (sym (push_all-concat H (new_decoder H) cs) ∙ h) in
      subst (λ (p : Pushed H). Accounts p.decoder p.newly) (ok-injective h')
        (account_new r.scanner r.newly)

  -- An article that its caller accepts, however it arrived in chunks, is intact: when the result's
  -- checksum verdict is not a mismatch and its length verdict is good, then as many bytes were
  -- written as the trailer says, the result's checksum is that of the bytes written, and the
  -- trailer's own checksum, the part's if there is one and else the file's, equals it or is absent.
  pub accepted_is_intact :
      (cs : List (List ℕ)) (p : Pushed H) (r : DecodeResult)
      → push_all H (new_decoder H) cs ≡ ok p
      → take_result H p.decoder ≡ some r
      → r.crc_ok ≢ some false
      → r.len_ok ≡ true
      → (length p.newly ≡ r.trailer.size)
        × (r.crc32 ≡ finalize (update start p.newly))
        × ((r.trailer.pcrc32 ≡ some r.crc32)
            ⊎ ((r.trailer.pcrc32 ≡ none)
                × ((r.trailer.crc32 ≡ some r.crc32) ⊎ (r.trailer.crc32 ≡ none))))
  unfolding take_result Accounts
  accepted_is_intact cs p r h t c l = let k = whole_article cs p h in ground (arith, k.0, k.1)
