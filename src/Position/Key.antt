-- ===== src/Position/Key.antt =====
-- The key of a position, engine-core/positionid.c `PositionKey`, `PositionFromKey`,
-- `PositionFromKeySwapped`, and positionid.h `EqualKeys`: four bits for each point.
-- `(x >> 4 * k) & 0x0f` is written `x / 2 ^ (4 * k) % 16`, and `x << 4 * k` with its wrap-around.
pub mod Laws
use gnubg_android.Base.{ℕ, ◌+◌, ◌-◌, ◌*◌, ◌/◌, ◌%◌, ◌^◌, Bool, ◌&&◌, List, [], ◌∷◌, ◌++◌, ◌==◌}
use gnubg_android.Base.Two.{Two}
use gnubg_android.Board.{TanBoard, point, u32}

-- `positionkey`: seven 32-bit words.
pub record PositionKey : Type 0 where
  pub w0 : ℕ
  pub w1 : ℕ
  pub w2 : ℕ
  pub w3 : ℕ
  pub w4 : ℕ
  pub w5 : ℕ
  pub w6 : ℕ

-- Eight points of a row from point `j` on, in a word.
pack : List ℕ → ℕ → ℕ
pack row j = u32 (
    point row j
    + u32 (point row (j + 1) * 2 ^ 4)
    + u32 (point row (j + 2) * 2 ^ 8)
    + u32 (point row (j + 3) * 2 ^ 12)
    + u32 (point row (j + 4) * 2 ^ 16)
    + u32 (point row (j + 5) * 2 ^ 20)
    + u32 (point row (j + 6) * 2 ^ 24)
    + u32 (point row (j + 7) * 2 ^ 28))

unfoldable pub position_key : TanBoard → PositionKey
unfolding pack
position_key b = record {
  w0 = pack b.p1 0;
  w1 = pack b.p1 8;
  w2 = pack b.p1 16;
  w3 = pack b.p0 0;
  w4 = pack b.p0 8;
  w5 = pack b.p0 16;
  w6 = u32 (point b.p0 24 + u32 (point b.p1 24 * 2 ^ 4));
}

-- The eight points in a word.
unpack : ℕ → List ℕ
unpack w =
    w % 16
    ∷ w / 2 ^ 4 % 16
    ∷ w / 2 ^ 8 % 16
    ∷ w / 2 ^ 12 % 16
    ∷ w / 2 ^ 16 % 16
    ∷ w / 2 ^ 20 % 16
    ∷ w / 2 ^ 24 % 16
    ∷ w / 2 ^ 28 % 16
    ∷ []

unfoldable pub position_from_key : PositionKey → TanBoard
unfolding unpack
position_from_key k = record {
  p0 = unpack k.w3 ++ (unpack k.w4 ++ (unpack k.w5 ++ (k.w6 % 16 ∷ [])));
  p1 = unpack k.w0 ++ (unpack k.w1 ++ (unpack k.w2 ++ (k.w6 / 2 ^ 4 % 16 ∷ [])));
}

unfoldable pub position_from_key_swapped : PositionKey → TanBoard
unfolding unpack
position_from_key_swapped k = record {
  p0 = unpack k.w0 ++ (unpack k.w1 ++ (unpack k.w2 ++ (k.w6 / 2 ^ 4 % 16 ∷ [])));
  p1 = unpack k.w3 ++ (unpack k.w4 ++ (unpack k.w5 ++ (k.w6 % 16 ∷ [])));
}

abbrev pub equal_keys : PositionKey → PositionKey → Bool
equal_keys a b =
    (a.w0 == b.w0)
    && ((a.w1 == b.w1)
        && ((a.w2 == b.w2)
            && ((a.w3 == b.w3) && ((a.w4 == b.w4) && ((a.w5 == b.w5) && (a.w6 == b.w6))))))
