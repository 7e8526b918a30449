-- ===== src/Escapes.antt =====
-- How many rolls let a chequer escape, engine-core/eval.c `anPoint`, `ComputeTable0`, `Escapes`,
-- `ComputeTable1`, `Escapes1`. A table of the code is a function of its index, whose loops over the
-- two dice, counted from 0, add up the rolls that pass a test.
pub mod Rolls
pub mod Bits
pub mod Counted
mod Examples
use gnubg_android.Base.{
  ℕ, zero, suc, ◌+◌, ◌-◌, ◌*◌, ◌^◌, Bool, not, ◌&&◌, List, [], ◌∷◌, ltb, ◌==◌, if◌then◌else◌,
  get_or,
}
use gnubg_android.Board.{point}
use gnubg_android.Position.Id.{bit_or_at}
use gnubg_android.MatchId.{bit_at}

-- `anPoint`: 0 for a blot or an empty point, 1 for up to 15 chequers.
abbrev pub an_point : ℕ → ℕ
an_point n = get_or (0 ∷ 0 ∷ 1 ∷ 1 ∷ 1 ∷ 1 ∷ 1 ∷ 1 ∷ 1 ∷ 1 ∷ 1 ∷ 1 ∷ 1 ∷ 1 ∷ 1 ∷ 1 ∷ []) n 0

-- `i & (1 << k)`, as a truth value.
abbrev pub has_bit : ℕ → ℕ → Bool
has_bit i k = bit_at i k == 1

-- Neither the end of the roll is blocked nor both of the points on the way.
abbrev pub passes : (ℕ → Bool) → ℕ → ℕ → Bool
passes blocked n0 n1 = not (blocked (n0 + n1 + 1)) && not (blocked n0 && blocked n1)

-- The loop over `n1`, below a bound: a roll of two different dice counts twice.
unfoldable pub row_count : (ℕ → ℕ → Bool) → ℕ → ℕ → ℕ
row_count test n0 zero = 0
row_count test n0 (suc n1) =
    row_count test n0 n1 + (if test n0 n1 then if n0 == n1 then 1 else 2 else 0)

-- The loop over `n0`, below a bound.
unfoldable pub table_count : (ℕ → ℕ → Bool) → ℕ → ℕ
table_count test zero = 0
table_count test (suc n0) = table_count test n0 + row_count test n0 (suc n0)

-- `anEscapes[i]`.
unfoldable pub an_escapes : ℕ → ℕ
an_escapes i = table_count (passes (has_bit i)) 6

-- `af`, after the first points: the points from 24 - `n` on that are blocked.
unfoldable pub point_bits : List ℕ → ℕ → ℕ → ℕ
point_bits row n zero = 0
point_bits row n (suc i) =
    bit_or_at 32 (point_bits row n i) (an_point (point row (24 + i - n)) * 2 ^ i)

unfoldable pub escapes : List ℕ → ℕ → ℕ
escapes row n = let m = if ltb n 12 then n else 12 in an_escapes (point_bits row n m)

-- The loop for `low`, of at most `fuel` rounds: an index of the table has its bits below 12.
unfoldable pub low_bit : ℕ → ℕ → ℕ → ℕ
low_bit zero i low = low
low_bit (suc fuel) i low =
    let rest = low_bit fuel i (low + 1) in if has_bit i low then low else rest

-- `anEscapes1[i]`.
unfoldable pub an_escapes1 : ℕ → ℕ
an_escapes1 zero = 0
an_escapes1 (suc i) =
    let low = low_bit 12 (suc i) 0 in
    table_count (λ n0 n1. ltb low (n0 + n1 + 1) && passes (has_bit (suc i)) n0 n1) 6

unfoldable pub escapes1 : List ℕ → ℕ → ℕ
escapes1 row n = let m = if ltb n 12 then n else 12 in an_escapes1 (point_bits row n m)
