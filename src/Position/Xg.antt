-- ===== src/Position/Xg.antt =====
-- The position of an XGID, engine-core/positionid.c `PositionFromXG`. A string is the list of its
-- character codes; past its end stands the NUL. A write to an index that is not from 0 to 24, which is
-- out of the bounds of a row, is `none`.
pub mod Steps
pub mod Reads
use gnubg_android.Base.{
  ℕ, zero, suc, ◌+◌, ◌-◌, Bool, true, false, ◌&&◌, ◌||◌, Option, none, some, ◌>>=◌, List, leb, ◌==◌,
  if◌then◌else◌, get_or, set,
}
use gnubg_android.Base.Int.{ℤ, pos, negsuc, is_neg, pos_part}
use gnubg_android.Board.{TanBoard}

abbrev pub is_upper : ℕ → Bool
is_upper ch = leb 65 ch && leb ch 80

abbrev pub is_lower : ℕ → Bool
is_lower ch = leb 97 ch && leb ch 112

-- `anBoard[side][p] = v`, of a row of 25 points.
unfoldable pub store : List ℕ → ℤ → ℕ → Option (List ℕ)
store row p v = if is_neg p || leb 25 (pos_part p) then none else some (set row (pos_part p) v)

-- The write behind the test `p > -1`.
unfoldable pub put_if : ℤ → ℕ → List ℕ → Option (List ℕ)
put_if p v row = if is_neg p then some row else store row p v

-- The points that character `i` stands for, on the two sides.
abbrev pub p0_of : ℕ → ℤ
p0_of i = if i == 0 then pos 24 else if i == 25 then negsuc 0 else pos (24 - i)

abbrev pub p1_of : ℕ → ℤ
p1_of i = if i == 0 then negsuc 0 else if i == 25 then pos 24 else pos (i - 1)

-- One character, and whether the loop goes on.
unfoldable pub xg_step : TanBoard → ℕ → ℕ → Option (TanBoard × Bool)
xg_step b i ch =
    if is_upper ch
    then (do
      row0 ← put_if (p0_of i) 0 b.p0
      row1 ← store b.p1 (p1_of i) (ch - 65 + 1)
      some (record { p0 = row0; p1 = row1 }, true))
    else if is_lower ch
    then (do
      row0 ← store b.p0 (p0_of i) (ch - 97 + 1)
      row1 ← put_if (p1_of i) 0 b.p1
      some (record { p0 = row0; p1 = row1 }, true))
    else if ch == 45
    then (do
      row0 ← put_if (p0_of i) 0 b.p0
      row1 ← put_if (p1_of i) 0 b.p1
      some (record { p0 = row0; p1 = row1 }, true))
    else some (b, false)

-- `return 1` ends the loop.
unfoldable pub go_on :
    Option (TanBoard × Bool) → (TanBoard → Option (TanBoard × ℕ)) → Option (TanBoard × ℕ)
go_on none rest = none
go_on (some (b, false)) rest = some (b, 1)
go_on (some (b, true)) rest = rest b

unfoldable pub xg_from : ℕ → ℕ → List ℕ → TanBoard → Option (TanBoard × ℕ)
xg_from zero i sz b = some (b, 0)
xg_from (suc n) i sz b = go_on (xg_step b i (get_or sz i 0)) (xg_from n (i + 1) sz)

unfoldable pub position_from_xg : TanBoard → List ℕ → Option (TanBoard × ℕ)
position_from_xg b sz = xg_from 26 0 sz b
