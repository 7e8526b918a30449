-- ===== src/Moves/Examples.antt =====
-- Moves at concrete positions, and the theorems about their generation at concrete inputs.
use gnubg_android.Base.{◌+◌, ◌≡◌, refl, inl, false, true, length, arith}
use gnubg_android.Base.Int.{◌-ℤ◌}
use gnubg_android.Board.{apply_sub_move, legal_move, lift, land, back_from}
use gnubg_android.Position.Key.{position_key}
use gnubg_android.Position.Examples.{start, start-IsLegal}
use gnubg_android.Moves.{
  dice_roll, max_depth, generate_moves, generate_moves_sub, generate_step, try_points, try_move,
  save_moves, insert_move,
}
use gnubg_android.Moves.Save.{AllMoves, Distinct, Uniform}
use gnubg_android.Moves.Sound.{generate_moves_sub_fuel}
use gnubg_android.Moves.Cover.{SomeMove, Covers}
use gnubg_android.Moves.Sound.Tried.{Allowed, after}
use gnubg_android.Moves.Sound.Complete.{both, generate_moves_complete}
use gnubg_android.Moves.Correct.{Playable, generate_moves_sound, generate_moves-Uniform}

-- The opening roll 31 has 16 plays.
count_31 : length (generate_moves start 3 1 false).moves ≡ 16
unfolding generate_moves generate_moves_sub generate_step try_points try_move save_moves insert_move
    apply_sub_move legal_move lift land back_from ◌-ℤ◌ position_key
count_31 = refl

generate_moves_sound_example :
    AllMoves (Playable start) (generate_moves start 3 1 true).moves
    × Distinct (generate_moves start 3 1 true).moves
generate_moves_sound_example =
    generate_moves_sound start 3 1 true start-IsLegal (omega arith) (omega arith)

generate_moves-Uniform_example : Uniform (generate_moves start 5 5 false)
generate_moves-Uniform_example =
    generate_moves-Uniform start 5 5 start-IsLegal (omega arith) (omega arith)

generate_moves_sub_fuel_example :
    generate_moves_sub (dice_roll 6 6) false (20 + max_depth) 0
    ≡ generate_moves_sub (dice_roll 6 6) false max_depth 0
generate_moves_sub_fuel_example =
    generate_moves_sub_fuel (dice_roll 6 6) false 20 max_depth 0 (omega arith)

-- 8/5 6/5.
play_three : Allowed start 3 7
play_three = record {
  on_board = omega arith;
  own = omega arith;
  bar_first = λ h. absurd (omega arith);
  may = inl (omega arith, omega arith);
}

play_one : Allowed (after start 3 7) 1 5
unfolding apply_sub_move lift land ◌-ℤ◌
play_one = record {
  on_board = omega arith;
  own = omega arith;
  bar_first = λ h. absurd (omega arith);
  may = inl (omega arith, omega arith);
}

generate_moves_complete_example :
    SomeMove (Covers 2 (3 + 1) (after (after start 3 7) 1 5)) (generate_moves start 3 1 false).moves
generate_moves_complete_example =
    generate_moves_complete start (after (after start 3 7) 1 5) 3 1 2 (3 + 1) start-IsLegal
      (omega arith) (omega arith) (omega arith) (omega arith) (ground arith)
      (inl (both 7 5 play_three play_one))
