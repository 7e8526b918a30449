-- ===== src/Position/Xg/Reads.antt =====
-- What `PositionFromXG` of engine-core/positionid.c reads, and that it stays within the board.
use gnubg_android.Base.{
  ℕ, suc, ◌-◌, ◌<◌, ◌≡◌, ◌⊎◌, true, false, Option, none, some, List, get_or, length,
}
use gnubg_android.Board.{TanBoard, point}
use gnubg_android.Position.Xg.Steps.{side0, side1, known}

-- Rows of 25 points.
record Rows (b : TanBoard) : Type 0 where
  row0 : length b.p0 ≡ 25
  row1 : length b.p1 ≡ 25

module _ (sz : List ℕ) where
  abbrev char : ℕ → ℕ
  char i = get_or sz i 0

  -- After the first `n` characters: those of them that stand for a point are on the board.
  record Held (n : ℕ) (b : TanBoard) : Type 0 where
    rows : Rows b
    held0 : (j : ℕ) → j < 25 → 24 - j < n → point b.p0 j ≡ side0 (char (24 - j))
    held1 : (j : ℕ) → j < 25 → suc j < n → point b.p1 j ≡ side1 (char (suc j))

  -- What is returned: nothing is written out of bounds, and either all 26 characters are known, and
  -- each point holds what its character says, or one of them is not, and the code is 1.
  abbrev pub IsRead : Option (TanBoard × ℕ) → Type 0
  IsRead none = ⊥
  IsRead (some (b, code)) =
      (length b.p0 ≡ 25)
      × (length b.p1 ≡ 25)
      × (((code ≡ 0)
            × ((i : ℕ) → i < 26 → known (char i) ≡ true)
            × ((j : ℕ)
                → j < 25
                → (point b.p0 j ≡ side0 (char (24 - j))) × (point b.p1 j ≡ side1 (char (suc j)))))
          ⊎ ((code ≡ 1) × (i : ℕ) × (i < 26) × (known (char i) ≡ false)))
