-- ===== src/Game/Examples.antt =====
-- A game from the starting position, and the theorems about records at concrete states.
use gnubg_android.Base.{
  ◌+◌, ◌*◌, ◌<◌, ◌≡◌, ◌⊎◌, ◌↔◌, inl, refl, true, false, none, List, [], ◌∷◌, arith,
}
use gnubg_android.Base.Int.{ℤ, pos, negsuc, ◌-ℤ◌}
use gnubg_android.Board.{TanBoard, swap_sides, apply_move, apply_sub_move, lift, land}
use gnubg_android.Board.Sums.{total}
use gnubg_android.Board.Legal.{IsLegal}
use gnubg_android.Position.Check.{SomeoneMoves}
use gnubg_android.Position.Id.{
  position_from_id, old_position_from_key, key_bytes, key_bits, bits_of, digits, three_bytes,
  base64, fill,
}
use gnubg_android.Position.Id.Decoded.{Filled, position_from_id-IsLegal}
use gnubg_android.Position.Examples.{start, start-IsLegal}
use gnubg_android.Outcome.{standard, Databases, game_status}
use gnubg_android.Outcome.Status.{worth, game_status-worth}
use gnubg_android.Game.{
  MatchState, GameInfo, playing, drop, MoveRecord, normal, double, take_cube, drop_cube, resign,
  lnot, Replay, play_move, apply_move_record, calculate_board, gnubg_can_double,
}
use gnubg_android.Game.Start.{init_board, start_id}
use gnubg_android.Game.PlayMove.{play_move-apply_move}
use gnubg_android.Game.Cube.{CubeOk, calculate_board-CubeOk}
use gnubg_android.Game.Offer.{MayOffer, take_cube-double, drop_cube-double}
use gnubg_android.Game.Score.{GoesOn, Ends, apply_move_record_score}

-- The position ID of the start decodes to it.
start_decoded : init_board standard ≡ start
unfolding init_board start_id position_from_id old_position_from_key key_bytes key_bits bits_of
    digits three_bytes base64 fill
start_decoded = refl

position_from_id-IsLegal_example :
    Filled 80 (position_from_id (start_id standard)).0
    × (((position_from_id (start_id standard)).1 ≡ true) ↔ (
        IsLegal (position_from_id (start_id standard)).0
        × SomeoneMoves (position_from_id (start_id standard)).0))
position_from_id-IsLegal_example = position_from_id-IsLegal (start_id standard)

abbrev no_databases : Databases
no_databases = record { pbc_2 = none; pbc_ts = none; pbc_1 = none; pbc_os = none }

-- The loser still has all 15 chequers, two of them in the winner's home board.
abbrev lost_all : TanBoard
lost_all = record start {
  p0 =
      0 ∷ 0 ∷ 0 ∷ 0 ∷ 0 ∷ 0 ∷ 0 ∷ 0 ∷ 0 ∷ 0 ∷ 0 ∷ 0 ∷ 0 ∷ 0 ∷ 0 ∷ 0 ∷ 0 ∷ 0 ∷ 0 ∷ 0 ∷ 0 ∷ 0 ∷ 0 ∷ 0
      ∷ 0 ∷ [];
}

game_status-worth_example :
    ((game_status no_databases lost_all standard ≡ 0)
      ↔ ((0 < total lost_all.p0) × (0 < total lost_all.p1)))
    × (total lost_all.p0 ≡ 0
        → game_status no_databases lost_all standard ≡ worth standard lost_all.p1)
    × (0 < total lost_all.p0
        → total lost_all.p1 ≡ 0
        → game_status no_databases lost_all standard ≡ worth standard lost_all.p0)
game_status-worth_example =
    game_status-worth no_databases lost_all standard refl refl (omega arith) (omega arith)

worth_three : worth standard lost_all.p1 ≡ 3
worth_three = refl

-- Player 0 on roll in a match to 7, with the cube in the middle.
abbrev opening : MatchState
opening = record {
  an_board = start;
  an_dice = record { p0 = 0; p1 = 0 };
  f_turn = pos 0;
  f_resigned = 0;
  f_resignation_declined = 0;
  f_doubled = false;
  c_games = 0;
  f_move = pos 0;
  f_cube_owner = negsuc 0;
  f_crawford = false;
  f_post_crawford = false;
  n_match_to = 7;
  an_score = record { p0 = 2; p1 = 3 };
  n_cube = 1;
  c_beavers = 0;
  bgv = standard;
  f_cube_use = true;
  f_jacoby = false;
  gs = playing;
}

abbrev info : GameInfo
info = record {
  i = 0;
  n_match = 7;
  an_score = record { p0 = 2; p1 = 3 };
  f_crawford_game = false;
  f_jacoby = false;
  f_winner = negsuc 0;
  n_points = 0;
  f_resigned = false;
  n_auto_doubles = 0;
  bgv = standard;
  f_cube_use = true;
}

abbrev replay : Replay
replay = record { ms = opening; g = info }

-- 8/5 6/5.
abbrev make_five : List (ℤ × ℤ)
make_five = (pos 7, pos 4) ∷ (pos 5, pos 4) ∷ []

made_five : (apply_move start make_five true).1 ≡ pos 0
unfolding apply_move apply_sub_move lift land ◌-ℤ◌
made_five = refl

play_move-apply_move_example : play_move opening make_five (pos 0) ≡ record opening {
  an_board = swap_sides (apply_move start make_five true).0;
  f_move = lnot (pos 0);
  f_turn = lnot (pos 0);
}
play_move-apply_move_example =
    play_move-apply_move opening make_five (apply_move start make_five true).0 true start-IsLegal
      (λ k. ((apply_move start make_five true).0, made_five k))

opening-CubeOk : CubeOk opening
opening-CubeOk = record { power = (0, refl); most = omega arith; offered = λ e. omega arith }

-- A game: a double, a take, a redouble later on, and a resignation of a gammon.
abbrev records : List MoveRecord
records =
    double (pos 0)
    ∷ take_cube
    ∷ normal (pos 0) make_five
    ∷ double (pos 1)
    ∷ take_cube
    ∷ resign (pos 0) 2
    ∷ []

calculate_board-CubeOk_example : CubeOk (calculate_board no_databases 6 records replay).ms
calculate_board-CubeOk_example =
    calculate_board-CubeOk no_databases 6 records replay (tt, (tt, (tt, (tt, (tt, (tt, tt))))))
      opening-CubeOk

opening-MayOffer : MayOffer (record { p0 = true; p1 = false }) false opening
unfolding gnubg_can_double
opening-MayOffer = record { allowed = refl; once = refl; player = inl refl }

take_cube-double_example :
    apply_move_record no_databases take_cube
      (apply_move_record no_databases (double (pos 0)) replay)
    ≡ record replay { ms = record opening { n_cube = 1 * 2; f_cube_owner = lnot (pos 0) } }
take_cube-double_example =
    take_cube-double no_databases (record { p0 = true; p1 = false }) false replay opening-MayOffer

drop_cube-double_example :
    apply_move_record no_databases
      (drop_cube (lnot (pos 0)))
      (apply_move_record no_databases (double (pos 0)) replay)
    ≡ record {
      ms = record opening {
        gs = drop;
        f_turn = lnot (pos 0);
        an_score = record { p0 = 2 + 1; p1 = 3 };
        c_games = 0 + 1;
      };
      g = record info { n_points = 1; f_winner = pos 0 };
    }
drop_cube-double_example =
    drop_cube-double no_databases (record { p0 = true; p1 = false }) false replay opening-MayOffer

apply_move_record_score_example :
    GoesOn replay (apply_move_record no_databases (resign (pos 1) 2) replay)
    ⊎ Ends replay (apply_move_record no_databases (resign (pos 1) 2) replay)
apply_move_record_score_example =
    apply_move_record_score no_databases (resign (pos 1) 2) replay (omega arith)
