-- ===== src/Yenc/Data.antt =====
-- crates/nzbd-yenc/src/lib.rs: errors, headers, trailers and results. The message that an error
-- carries is named by a constructor.
use nzbd.Prelude.{ℕ, ◌≡◌, refl, ap, ◌⊎◌, inl, inr, Bool, Option, none, []}
use nzbd.Types.Torrent.{Text}

pub data Fault : Type 0 where
  line_too_long expected_part unexpected_control bad_size bad_part no_size : Fault
  bad_part_range bad_end_size : Fault

pub data YencError : Type 0 where
  not_yenc premature_end : YencError
  malformed : Fault → YencError

-- What a decoding step answers: an error of the stream, or its value.
pub data Result {ℓ} (A : Type ℓ) : Type ℓ where
  err : YencError → Result A
  ok : A → Result A

module _ {ℓ κ} {A : Type ℓ} {B : Type κ} where
  infixl 5 ◌>>=◌
  -- The operator `?`, and the code that follows it.
  abbrev pub ◌>>=◌ : Result A → (A → Result B) → Result B
  err fault >>= later = err fault
  ok value >>= later = later value

  -- Code with a `?` succeeds only past it.
  pub >>=-eq-ok :
      (step : Result A) (later : A → Result B) {end : B}
      → (step >>= later) ≡ ok end
      → (value : A) × (step ≡ ok value) × (later value ≡ ok end)
  >>=-eq-ok (err fault) later succeeds = absurd (cc)
  >>=-eq-ok (ok value) later succeeds = (value, refl, succeeds)

module _ {ℓ} {A : Type ℓ} where
  pub Result-cases : (m : Result A) → ((a : A) × (m ≡ ok a)) ⊎ ((e : YencError) × (m ≡ err e))
  Result-cases (err e) = inr (e, refl)
  Result-cases (ok a) = inl (a, refl)

  pub ok-injective : {a b : A} → ok a ≡ ok b → a ≡ b
  ok-injective {a = a} h = ap (λ m. elim m [ ok x ↦ x | err e ↦ a ]) h

-- `Option::ok_or`.
abbrev pub ok_or {ℓ} : {A : Type ℓ} → Option A → Fault → Result A
ok_or (Option.some value) fault = ok value
ok_or none fault = err (malformed fault)

pub record YencHeader : Type 0 where
  pub name : Text
  pub size : ℕ
  pub part : Option ℕ
  pub total : Option ℕ
  pub begin : Option ℕ
  pub end : Option ℕ

abbrev pub no_header : YencHeader
no_header = record { name = []; size = 0; part = none; total = none; begin = none; end = none }

pub record YencTrailer : Type 0 where
  pub size : ℕ
  pub part : Option ℕ
  pub pcrc32 : Option ℕ
  pub crc32 : Option ℕ

abbrev pub no_trailer : YencTrailer
no_trailer = record { size = 0; part = none; pcrc32 = none; crc32 = none }

pub record DecodeResult : Type 0 where
  pub header : YencHeader
  pub trailer : YencTrailer
  pub offset : ℕ
  pub decoded_len : ℕ
  pub crc32 : ℕ
  pub crc_ok : Option Bool
  pub len_ok : Bool

pub data Status : Type 0 where
  need_more finished : Status
