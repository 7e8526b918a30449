-- ===== src/Position/Examples.antt =====
-- The starting position, and the theorems about boards, keys and legality at concrete positions.
use gnubg_android.Base.{ℕ, ◌≡◌, ◌↔◌, refl, none, some, true, List, [], ◌∷◌, set, arith}
use gnubg_android.Base.Int.{pos, ◌-ℤ◌}
use gnubg_android.Board.{TanBoard, apply_sub_move, legal_move, lift, land, back_from, swap_sides}
use gnubg_android.Board.Legal.{IsLegal}
use gnubg_android.Board.SubMove.{SubMoved, apply_sub_move_ok}
use gnubg_android.Board.Play.{legal_move-accepted}
use gnubg_android.Board.BearOff.{MayMove, legal_move_iff}
use gnubg_android.Position.Key.{
  position_key, position_from_key, position_from_key_swapped, equal_keys,
}
use gnubg_android.Position.Key.Laws.{IsLegal-Fits, position_from_key-position_key, equal_keys_iff}
use gnubg_android.Position.Check.{
  Sized, SomeoneMoves, check_position, check_position_iff, closest_legal_position, over_fifteen,
  shared_point, open_point,
}
use gnubg_android.Position.Xg.{position_from_xg, xg_from, go_on, xg_step, put_if, store}
use gnubg_android.Position.Closest.{check_position-closest_legal_position}

abbrev pub start_row : List ℕ
start_row =
    0 ∷ 0 ∷ 0 ∷ 0 ∷ 0 ∷ 5 ∷ 0 ∷ 3 ∷ 0 ∷ 0 ∷ 0 ∷ 0 ∷ 5 ∷ 0 ∷ 0 ∷ 0 ∷ 0 ∷ 0 ∷ 0 ∷ 0 ∷ 0 ∷ 0 ∷ 0 ∷ 2
    ∷ 0 ∷ []

abbrev pub start : TanBoard
start = record { p0 = start_row; p1 = start_row }

start-Sized : Sized start
start-Sized = record { row0 = refl; row1 = refl; small0 = omega arith; small1 = omega arith }

start_accepted : check_position start ≡ true
unfolding check_position over_fifteen shared_point open_point
start_accepted = refl

check_position_iff_example : (check_position start ≡ true) ↔ (IsLegal start × SomeoneMoves start)
check_position_iff_example = check_position_iff start start-Sized

pub start-IsLegal : IsLegal start
start-IsLegal = ((check_position_iff start start-Sized).0 start_accepted).0

-- Twenty chequers of player 0, three of them where player 1 has one.
abbrev crowded : TanBoard
crowded = record start {
  p0 =
      3 ∷ 17 ∷ 0 ∷ 0 ∷ 0 ∷ 0 ∷ 0 ∷ 0 ∷ 0 ∷ 0 ∷ 0 ∷ 0 ∷ 0 ∷ 0 ∷ 0 ∷ 0 ∷ 0 ∷ 0 ∷ 0 ∷ 0 ∷ 0 ∷ 0 ∷ 0 ∷ 0
      ∷ 4 ∷ [];
}

check_position-closest_legal_position_example :
    check_position (closest_legal_position crowded) ≡ true
check_position-closest_legal_position_example =
    check_position-closest_legal_position crowded refl refl

-- 8/5 from the start.
eight_five : (apply_sub_move start (pos 7) (pos 3) true).1 ≡ pos 0
unfolding apply_sub_move lift land ◌-ℤ◌
eight_five = refl

apply_sub_move_ok_example :
    (s r : ℕ) × (pos 7 ≡ pos s)
    × (pos 3 ≡ pos r)
    × SubMoved start s r (apply_sub_move start (pos 7) (pos 3) true).0
apply_sub_move_ok_example = apply_sub_move_ok start (pos 7) (pos 3) true start-IsLegal eight_five

eight_five_legal : legal_move start (pos 7) (pos 3) ≡ true
unfolding legal_move back_from ◌-ℤ◌
eight_five_legal = refl

legal_move-accepted_example : (apply_sub_move start (pos 7) (pos 3) true).1 ≡ pos 0
legal_move-accepted_example =
    legal_move-accepted start 7 3 start-IsLegal (omega arith) (omega arith) (omega arith)
      (omega arith) eight_five_legal

-- A chequer on the third point and one on the ace point, with a five.
abbrev bearing_off : TanBoard
bearing_off = record { p0 = start_row; p1 = 1 ∷ 0 ∷ 1 ∷ [] }

legal_move_iff_example : (legal_move bearing_off (pos 2) (pos 5) ≡ true) ↔ MayMove bearing_off 2 5
legal_move_iff_example = legal_move_iff bearing_off 2 5 (omega arith) (omega arith)

position_from_key-position_key_example :
    (position_from_key (position_key start) ≡ start)
    × (position_from_key_swapped (position_key start) ≡ swap_sides start)
position_from_key-position_key_example =
    position_from_key-position_key start (IsLegal-Fits start start-IsLegal)

equal_keys_iff_example :
    (equal_keys (position_key start) (position_key start) ≡ true) ↔ (start ≡ start)
equal_keys_iff_example =
    equal_keys_iff start start (IsLegal-Fits start start-IsLegal) (IsLegal-Fits start start-IsLegal)

-- "-b----E-C---eE---c-e----B-", the start.
abbrev start_xg : List ℕ
start_xg =
    45 ∷ 98 ∷ 45 ∷ 45 ∷ 45 ∷ 45 ∷ 69 ∷ 45 ∷ 67 ∷ 45 ∷ 45 ∷ 45 ∷ 101 ∷ 69 ∷ 45 ∷ 45 ∷ 45 ∷ 99 ∷ 45
    ∷ 101 ∷ 45 ∷ 45 ∷ 45 ∷ 45 ∷ 66 ∷ 45 ∷ []

-- Two rows to overwrite.
abbrev other_board : TanBoard
other_board = record { p0 = set start_row 0 7; p1 = set start_row 24 3 }

start_read : position_from_xg other_board start_xg ≡ some (start, 0)
unfolding position_from_xg xg_from go_on xg_step put_if store
start_read = refl

-- An upper case letter for the opponent's bar is written before the player's row.
out_of_bounds : position_from_xg start (65 ∷ start_xg) ≡ none
unfolding position_from_xg xg_from go_on xg_step put_if store
out_of_bounds = refl
