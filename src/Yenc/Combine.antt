-- ===== src/Yenc/Combine.antt =====
-- crates/nzbd-yenc/src/lib.rs: the checksum of a concatenation, by zlib's matrices over two elements.
-- A matrix is the list of its 32 rows.
use Prim.Native.Nat.{bit_xor}
use nzbd.Prelude.{ℕ, zero, suc, ◌*◌, ◌/◌, ◌%◌, List, [], ◌∷◌, map, if◌then◌else◌, ◌==◌}

-- The loop of `gf2_matrix_times`, with the sum so far. A `u32` is spent within 32 rounds.
unfoldable pub times_from : ℕ → List ℕ → ℕ → ℕ
times_from sum [] vec = sum
times_from sum (m ∷ mat) vec =
    let rest = times_from (if vec % 2 == 1 then bit_xor sum m else sum) mat (vec / 2) in
    if vec == 0 then sum else rest

abbrev pub gf2_matrix_times : List ℕ → ℕ → ℕ
gf2_matrix_times mat vec = times_from 0 mat vec

abbrev pub gf2_matrix_square : List ℕ → List ℕ
gf2_matrix_square mat = map (gf2_matrix_times mat) mat

abbrev powers : ℕ → ℕ → List ℕ
powers zero row = []
powers (suc n) row = row ∷ powers n (row * 2)

-- The operator for one zero bit.
abbrev pub one_zero_bit : List ℕ
one_zero_bit = 0xEDB88320 ∷ powers 31 1

-- The loop of `crc32_combine`: the two matrices take turns, and a round squares the last one. The
-- length halves with each round, so that 64 rounds are enough for a `u64`.
unfoldable pub combine_rounds : ℕ → List ℕ → ℕ → ℕ → ℕ
combine_rounds zero mat crc1 len2 = crc1
combine_rounds (suc fuel) mat crc1 len2 =
    let next = gf2_matrix_square mat in
    let crc = if len2 % 2 == 1 then gf2_matrix_times next crc1 else crc1 in
    let rest = combine_rounds fuel next crc (len2 / 2) in if len2 / 2 == 0 then crc else rest

unfoldable pub crc32_combine : ℕ → ℕ → ℕ → ℕ
crc32_combine crc1 crc2 len2 =
    let four_zero_bits = gf2_matrix_square (gf2_matrix_square one_zero_bit) in
    if len2 == 0 then crc1 else bit_xor (combine_rounds 64 four_zero_bits crc1 len2) crc2
