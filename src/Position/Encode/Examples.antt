-- ===== src/Position/Encode/Examples.antt =====
-- The position ID of the starting position.
use gnubg_android.Base.{◌≡◌, refl, [], ◌∷◌, arith}
use gnubg_android.Position.Key.{position_key}
use gnubg_android.Position.Key.Laws.{IsLegal-Fits}
use gnubg_android.Position.Check.{check_position}
use gnubg_android.Position.Examples.{start, start-IsLegal}
use gnubg_android.Position.Id.{position_from_id}
use gnubg_android.Position.Encode.{
  or_into, add_bits, add_row, old_position_key, old_position_id_from_key, position_id,
  position_id_from_key,
}
use gnubg_android.MatchId.{four_chars}
use gnubg_android.Position.Encode.RoundTrip.{position_from_id-position_id}

position_id-start :
    position_id start
    ≡ b'4' ∷ b'H' ∷ b'P' ∷ b'w' ∷ b'A' ∷ b'T' ∷ b'D' ∷ b'g' ∷ b'c' ∷ b'/' ∷ b'A' ∷ b'B' ∷ b'M'
      ∷ b'A' ∷ []
unfolding position_id old_position_id_from_key old_position_key add_row add_bits or_into four_chars
position_id-start = refl

position_from_id-position_id_example :
    (position_from_id (position_id start) ≡ (start, check_position start))
    × (position_id_from_key (position_key start) ≡ position_id start)
position_from_id-position_id_example =
    position_from_id-position_id start (IsLegal-Fits start start-IsLegal) (omega arith)
