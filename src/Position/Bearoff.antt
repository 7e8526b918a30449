-- ===== src/Position/Bearoff.antt =====
-- The numbers of bearoff positions, engine-core/positionid.c `InitCombination`, `Combination`,
-- `PositionF`, `PositionBearoff`, `PositionInv`, `PositionFromBearoff`, `PositionIndex`: a position is
-- a choice of `nPoints` among `nChequers + nPoints` bits. The flag `fCalculated`, which keeps the table
-- from being filled twice, is left out, and so are the assertions.
pub mod Choose
pub mod Rank
pub mod RoundTrip
mod Examples
use gnubg_android.Base.{
  ℕ, zero, suc, ◌+◌, ◌-◌, ◌*◌, ◌/◌, ◌%◌, ◌^◌, Bool, true, false, List, [], ◌∷◌, ltb, leb, ◌==◌,
  if◌then◌else◌, get_or, set, replicate, length,
}
use gnubg_android.Board.{u32, point}
use gnubg_android.Position.Id.{bit_or_at}

abbrev pub max_n : ℕ
max_n = 40

abbrev pub max_r : ℕ
max_r = 25

-- Row 0 of the table.
abbrev pub first_row : List ℕ
first_row = 1 ∷ replicate (max_r - 1) 0

-- The entries from column 1 on of the row after a row.
unfoldable pub sums : List ℕ → List ℕ
sums [] = []
sums (a ∷ []) = []
sums (a ∷ b ∷ row) = u32 (a + b) ∷ sums (b ∷ row)

-- Row `i` of the table.
unfoldable pub table_row : ℕ → List ℕ
table_row zero = first_row
table_row (suc i) = (suc i + 1) ∷ sums (table_row i)

-- `anCombination[n - 1][r - 1]`, for `n` and `r` from 1 on.
unfoldable pub combination : ℕ → ℕ → ℕ
combination n r = get_or (table_row (n - 1)) (r - 1) 0

-- `|` of two unsigned ints.
unfoldable pub or_word : ℕ → ℕ → ℕ
or_word a b = bit_or_at 32 a b

-- The recursion ends where `n == r`, at `n == 0` at the latest when at most `n` ones are looked for.
unfoldable pub position_f : ℕ → ℕ → ℕ → ℕ
position_f f_bits zero r = 0
position_f f_bits (suc n) r = elim (suc n == r) [
  | true ↦ 0
  | false ↦ elim (f_bits / 2 ^ n % 2 == 1) [
    | true ↦ u32 (combination n r + position_f f_bits n (r - 1))
    | false ↦ position_f f_bits n r
  ]
]

unfoldable pub position_inv : ℕ → ℕ → ℕ → ℕ
position_inv n_id zero r = 0
position_inv n_id (suc n) r = elim (r == 0) [
  | true ↦ 0
  | false ↦ elim (suc n == r) [
    | true ↦ 2 ^ suc n - 1
    | false ↦
        let n_c = combination n r in
        elim (leb n_c n_id) [
          | true ↦ or_word (2 ^ n) (position_inv (n_id - n_c) n (r - 1))
          | false ↦ position_inv n_id n r
        ]
  ]
]

-- The loop that sets a bit for each point but the first, which is given here with the bit below it.
unfoldable pub separators : List ℕ → ℕ → ℕ → ℕ
separators [] j f_bits = f_bits
separators (n ∷ []) j f_bits = f_bits
separators (n ∷ m ∷ row) j f_bits =
    separators (m ∷ row) (j - (n + 1)) (or_word f_bits (2 ^ (j - (n + 1))))

-- `j` before the loop: a bit for each point and chequer.
unfoldable pub top_bit : List ℕ → ℕ → ℕ
top_bit [] j = j
top_bit (n ∷ row) j = top_bit row (u32 (j + n))

-- The bits of a position, of `n_points` points.
unfoldable pub bearoff_bits : List ℕ → ℕ
bearoff_bits an_board =
    let j = top_bit an_board (length an_board - 1) in separators an_board j (2 ^ j)

-- `PositionBearoff` on the first `nPoints` points, at least one.
unfoldable pub position_bearoff : List ℕ → ℕ → ℕ
position_bearoff an_board n_chequers =
    position_f (bearoff_bits an_board) (n_chequers + length an_board) (length an_board)

-- The loop over `k` bits from bit `i` on, at point `j`.
unfoldable pub read_bits : ℕ → ℕ → ℕ → ℕ → List ℕ → List ℕ
read_bits zero f_bits i j an_board = an_board
read_bits (suc k) f_bits i j an_board = elim (f_bits / 2 ^ i % 2 == 1) [
  | true ↦ elim j [ zero ↦ an_board | suc j' ↦ read_bits k f_bits (i + 1) j' an_board ]
  | false ↦ read_bits k f_bits (i + 1) j (set an_board j (point an_board j + 1))
]

unfoldable pub position_from_bearoff : ℕ → ℕ → ℕ → List ℕ
position_from_bearoff us_id n_points n_chequers =
    read_bits (n_chequers + n_points) (position_inv us_id (n_chequers + n_points) n_points) 0
      (n_points - 1) (replicate n_points 0)

-- The first `g` points, with `unsigned short` for the result.
unfoldable pub position_index : List ℕ → ℕ
position_index an_board = position_f (bearoff_bits an_board) 15 (length an_board) % 2 ^ 16
