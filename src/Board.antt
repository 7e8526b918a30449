-- ===== src/Board.antt =====
-- The board of a game and the elementary operations on it, engine-core/eval.c (`ApplySubMove`,
-- `ApplyMove`, `LegalMove`, `PipCount`, `SwapSides`) and engine-core/positionid.c (`EqualBoards`).
-- `TanBoard` is `unsigned int [2][25]`: row 0 is the opponent, row 1 the player on roll, each from
-- its own side; index 24 is the bar.
pub mod Sums
pub mod Legal
pub mod SubMove
pub mod Play
pub mod BearOff
use gnubg_android.Base.{
  ℕ, zero, suc, ◌+◌, ◌-◌, ◌*◌, ◌%◌, ◌^◌, ◌≤◌, ◌<◌, ◌≡◌, Bool, true, false, not, ◌&&◌, ◌||◌, List,
  [], ◌∷◌, ltb, leb, ◌==◌, if◌then◌else◌, get_or, set, length,
}
use gnubg_android.Base.Int.{ℤ, pos, negsuc, ◌-ℤ◌, pos_part, is_neg, ltb_ℤ, eq_ℤ}
use gnubg_android.Base.Two.{Two}

abbrev pub TanBoard : Type 0
TanBoard = Two (List ℕ)

-- The chequers on a point.
abbrev pub point : List ℕ → ℕ → ℕ
point row i = get_or row i 0

-- `unsigned int`.
abbrev pub u32 : ℕ → ℕ
u32 n = n % 2 ^ 32

unfoldable pub swap_sides : TanBoard → TanBoard
swap_sides b = record { p0 = b.p1; p1 = b.p0 }

-- The sum of a row, each point weighted by its distance, which `PipCount` runs for both rows.
unfoldable pub pips_from : ℕ → List ℕ → ℕ → ℕ
pips_from i [] acc = acc
pips_from i (n ∷ row) acc = pips_from (i + 1) row (u32 (acc + n * (i + 1)))

unfoldable pub pip_count : TanBoard → Two ℕ
unfolding pips_from
pip_count b = record { p0 = pips_from 0 b.p0 0; p1 = pips_from 0 b.p1 0 }

-- What `ApplySubMove` does once the chequer has left its point: `dest` is a point of the board.
unfoldable pub land : TanBoard → ℕ → TanBoard × ℤ
land b dest =
    let there = point b.p0 (23 - dest) in
    if there == 0
    then (record b { p1 = set b.p1 dest (u32 (point b.p1 dest + 1)) }, pos 0)
    else if ltb 1 there
    then (b, negsuc 0)
    else (
      record {
        p0 = set (set b.p0 (23 - dest) 0) 24 (u32 (point (set b.p0 (23 - dest) 0) 24 + 1));
        p1 = set b.p1 dest 1;
      },
      pos 0,
    )

-- A sub-move from point `src` by `n_roll` pips. The tests on `iSrc` are made by the caller below.
unfoldable pub lift : TanBoard → ℕ → ℤ → TanBoard × ℤ
lift b src dest =
    let b' = record b { p1 = set b.p1 src (point b.p1 src - 1) } in
    if is_neg dest then (b', pos 0) else land b' (pos_part dest)

-- The board is left as the code leaves it, also where -1 is returned.
unfoldable pub apply_sub_move : TanBoard → ℤ → ℤ → Bool → TanBoard × ℤ
apply_sub_move b src n_roll check_legal =
    let dest = src -ℤ n_roll in
    if check_legal && (ltb_ℤ n_roll (pos 1) || ltb_ℤ (pos 6) n_roll)
    then (b, negsuc 0)
    else if is_neg src
        || ltb 24 (pos_part src)
        || not (ltb_ℤ dest src)
        || ltb (point b.p1 (pos_part src)) 1
    then (b, negsuc 0)
    else lift b (pos_part src) dest

-- A whole move, as pairs of a source and a destination. The array ends at a negative source or after
-- its eight entries.
unfoldable pub apply_move : TanBoard → List (ℤ × ℤ) → Bool → TanBoard × ℤ
apply_move b [] check_legal = (b, pos 0)
apply_move b ((src, dest) ∷ moves) check_legal =
    let (b', code) = apply_sub_move b src (src -ℤ dest) check_legal in
    let rest = apply_move b' moves check_legal in
    if is_neg src then (b, pos 0) else if is_neg code then (b', negsuc 0) else rest

-- `for (nBack = 24; nBack > 0; nBack--) if (anBoard[1][nBack] > 0) break;`
unfoldable pub back_from : List ℕ → ℕ → ℕ
back_from row zero = 0
back_from row (suc n) =
    let below = back_from row n in if ltb 0 (point row (suc n)) then suc n else below

-- A roll is at least 1, so that `23 - iDest` is a point of the row. For a roll of 0 from the bar, which
-- no caller passes, the code would read at index -1, and the model at 0.
unfoldable pub legal_move : TanBoard → ℤ → ℤ → Bool
legal_move b src n_pips =
    let dest = src -ℤ n_pips in
    let back = back_from b.p1 24 in
    if is_neg dest
    then leb back 5 && (eq_ℤ src (pos back) || eq_ℤ dest (negsuc 0))
    else ltb (point b.p0 (23 - pos_part dest)) 2

-- All 25 points of both rows agree.
equal_rows : ℕ → TanBoard → TanBoard → Bool
equal_rows zero a b = true
equal_rows (suc n) a b =
    let above = equal_rows n a b in
    (point a.p0 n == point b.p0 n) && ((point a.p1 n == point b.p1 n) && above)

unfoldable pub equal_boards : TanBoard → TanBoard → Bool
unfolding equal_rows
equal_boards a b = equal_rows 25 a b
