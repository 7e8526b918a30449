-- ===== src/Position/Bearoff/Examples.antt =====
-- The numbers of some bearoff positions.
use gnubg_android.Base.{ℕ, ◌<◌, ◌≡◌, ◌+◌, ◌^◌, refl, List, [], ◌∷◌, length, arith}
use gnubg_android.Position.Bearoff.{
  sums, table_row, combination, or_word, position_f, position_inv, separators, top_bit,
  bearoff_bits, position_bearoff, read_bits, position_from_bearoff, position_index,
}
use gnubg_android.Position.Bearoff.Choose.{choose}
use gnubg_android.Position.Bearoff.Rank.{ones}
use gnubg_android.Position.Bearoff.Rank.Inverse.{position_f-position_inv}
use gnubg_android.Position.Bearoff.RoundTrip.{position_from_bearoff-position_bearoff}

-- Three chequers on the ace point, two on the third, one on the sixth.
abbrev some_position : List ℕ
some_position = 3 ∷ 0 ∷ 2 ∷ 0 ∷ 0 ∷ 1 ∷ []

position_bearoff_some : position_bearoff some_position 15 ≡ 501
unfolding position_bearoff bearoff_bits separators top_bit position_f combination table_row sums
    or_word
position_bearoff_some = refl

position_from_bearoff_some : position_from_bearoff 501 6 15 ≡ some_position
unfolding position_from_bearoff read_bits position_inv combination table_row sums or_word
position_from_bearoff_some = refl

-- The full and the empty board.
position_index_full : position_index (15 ∷ 0 ∷ 0 ∷ 0 ∷ 0 ∷ 0 ∷ []) ≡ 0
unfolding position_index bearoff_bits separators top_bit position_f combination table_row sums
    or_word
position_index_full = refl

position_from_bearoff-position_bearoff_example :
    (position_bearoff some_position 15 < choose (15 + length some_position) (length some_position))
    × (position_from_bearoff (position_bearoff some_position 15) (length some_position) 15
        ≡ some_position)
position_from_bearoff-position_bearoff_example =
    position_from_bearoff-position_bearoff some_position 15 (omega arith) (omega arith)
      (omega arith) (omega arith)

position_f-position_inv_example :
    (position_f 19 5 3 < choose 5 3)
    × (position_inv (position_f 19 5 3) 5 3 ≡ 19)
    × (position_inv 7 5 3 < 2 ^ 5)
    × (ones 5 (position_inv 7 5 3) ≡ 3)
    × (position_f (position_inv 7 5 3) 5 3 ≡ 7)
position_f-position_inv_example =
    position_f-position_inv 19 7 5 3 (omega arith) (omega arith) (omega arith) (omega arith)
      (omega arith) (omega arith)
