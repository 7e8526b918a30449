-- ===== src/Position/Encode.antt =====
-- The position ID of a board, engine-core/positionid.c `addBits`, `oldPositionKey`,
-- `oldPositionIDFromKey`, `PositionID`, `PositionIDFromKey`. The table `aszBase64` and the line of
-- code for three bytes are those of engine-core/matchid.c.
pub mod Bits
pub mod Unary
pub mod RoundTrip
mod Examples
use gnubg_android.Base.{
  ℕ, zero, suc, ◌+◌, ◌-◌, ◌*◌, ◌/◌, ◌%◌, ◌^◌, List, [], ◌∷◌, ◌++◌, ltb, ◌==◌, if◌then◌else◌, get_or,
  set, replicate,
}
use gnubg_android.Board.{TanBoard, u32}
use gnubg_android.Position.Id.{or_byte, u8}
use gnubg_android.Position.Key.{PositionKey, position_from_key}
use gnubg_android.MatchId.{four_chars, base64_chars}

-- `auchKey[k] |= v`
unfoldable pub or_into : List ℕ → ℕ → ℕ → List ℕ
or_into auch k v = set auch k (or_byte (get_or auch k 0) v)

-- `n_bits` ones from bit `bit_pos` on. The shift `1 << nBits` is defined in C below 32 bits.
unfoldable pub add_bits : List ℕ → ℕ → ℕ → List ℕ
add_bits auch bit_pos n_bits =
    let k = bit_pos / 8 in
    let r = bit_pos % 8 in
    let b = u32 ((2 ^ n_bits - 1) * 2 ^ r) in
    let a0 = or_into auch k (u8 b) in
    if ltb k 8
    then or_into (or_into a0 (k + 1) (u8 (b / 2 ^ 8))) (k + 2) (u8 (b / 2 ^ 16))
    else if k == 8
    then or_into a0 (k + 1) (u8 (b / 2 ^ 8))
    else a0

-- The loop over the points of a row: the key and `iBit`.
unfoldable pub add_row : List ℕ → List ℕ → ℕ → List ℕ × ℕ
add_row [] auch i_bit = (auch, i_bit)
add_row (zero ∷ row) auch i_bit = add_row row auch (i_bit + 1)
add_row (suc n ∷ row) auch i_bit = add_row row (add_bits auch i_bit (suc n)) (i_bit + (suc n + 1))

unfoldable pub old_position_key : TanBoard → List ℕ
old_position_key b =
    let (auch, i_bit) = add_row b.p0 (replicate 10 0) 0 in (add_row b.p1 auch i_bit).0

unfoldable pub old_position_id_from_key : List ℕ → List ℕ
old_position_id_from_key k =
    four_chars (get_or k 0 0) (get_or k 1 0) (get_or k 2 0)
    ++ (four_chars (get_or k 3 0) (get_or k 4 0) (get_or k 5 0)
        ++ (four_chars (get_or k 6 0) (get_or k 7 0) (get_or k 8 0)
            ++ (get_or base64_chars (get_or k 9 0 / 2 ^ 2) 0
                ∷ get_or base64_chars (get_or k 9 0 % 4 * 2 ^ 4) 0
                ∷ [])))

unfoldable pub position_id : TanBoard → List ℕ
position_id b = old_position_id_from_key (old_position_key b)

unfoldable pub position_id_from_key : PositionKey → List ℕ
position_id_from_key k = old_position_id_from_key (old_position_key (position_from_key k))
