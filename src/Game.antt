-- ===== src/Game.antt =====
-- The record of a game and the match state that it is replayed to, engine-core/play.c `PlayMove`,
-- `ApplyGameOver`, `ApplyMoveRecord`, `FixMatchState`, `CalculateBoard`, `gnubg_can_double`, over the
-- types `matchstate` (engine-core/lib/gnubg-types.h), `xmovegameinfo` and `moverecord`
-- (engine-core/backgammon.h). Players and the owner of the cube are ints, -1 for nobody; flags are
-- Booleans; scores, points and the cube, which are never negative, are numbers.
pub mod Start
pub mod PlayMove
pub mod Cube
pub mod Offer
pub mod Score
mod Examples
use gnubg_android.Base.{
  ℕ, zero, suc, ◌+◌, ◌-◌, ◌*◌, ◌^◌, Bool, true, false, not, ◌&&◌, ◌||◌, List, [], ◌∷◌, ltb, leb,
  ◌==◌, if◌then◌else◌, set, get_or,
}
use gnubg_android.Base.Int.{ℤ, pos, negsuc, is_neg, pos_part, eq_ℤ, of_bool, truthy}
use gnubg_android.Base.Two.{Two, at, put}
use gnubg_android.Board.{TanBoard, point, u32, swap_sides}
use gnubg_android.Position.Key.{PositionKey, position_from_key}
use gnubg_android.Outcome.{Variation, Databases, game_status}
use gnubg_android.Game.Start.{init_board}

-- `gamestate`.
pub data GameState : Type 0 where
  no_game : GameState
  playing : GameState
  over : GameState
  resigned : GameState
  drop : GameState

pub record MatchState : Type 0 where
  pub an_board : TanBoard
  pub an_dice : Two ℕ
  pub f_turn : ℤ
  pub f_resigned : ℕ
  pub f_resignation_declined : ℕ
  pub f_doubled : Bool
  pub c_games : ℕ
  pub f_move : ℤ
  pub f_cube_owner : ℤ
  pub f_crawford : Bool
  pub f_post_crawford : Bool
  pub n_match_to : ℕ
  pub an_score : Two ℕ
  pub n_cube : ℕ
  pub c_beavers : ℕ
  pub bgv : Variation
  pub f_cube_use : Bool
  pub f_jacoby : Bool
  pub gs : GameState

-- `xmovegameinfo`, without its statistics and `fCrawford`, which no function here reads.
pub record GameInfo : Type 0 where
  pub i : ℕ
  pub n_match : ℕ
  pub an_score : Two ℕ
  pub f_crawford_game : Bool
  pub f_jacoby : Bool
  pub f_winner : ℤ
  pub n_points : ℕ
  pub f_resigned : Bool
  pub n_auto_doubles : ℕ
  pub bgv : Variation
  pub f_cube_use : Bool

-- `moverecord`: for each `mt` the fields that its case reads. A move is the pairs before its end, as
-- in the generation of moves.
pub data MoveRecord : Type 0 where
  game_info : GameInfo → MoveRecord
  normal : ℤ → List (ℤ × ℤ) → MoveRecord
  double : ℤ → MoveRecord
  take_cube : MoveRecord
  drop_cube : ℤ → MoveRecord
  resign : ℤ → ℕ → MoveRecord
  set_board : PositionKey → MoveRecord
  set_dice : ℤ → ℕ → ℕ → MoveRecord
  set_cube_val : ℕ → MoveRecord
  set_cube_pos : ℤ → MoveRecord

abbrev pub max_cube : ℕ
max_cube = 2 ^ 12

abbrev pub max_score : ℕ
max_score = 64

-- `!f`.
abbrev pub lnot : ℤ → ℤ
lnot f = of_bool (not (truthy f))

-- One pair of `PlayMove`.
unfoldable pub play_pair : TanBoard → ℕ → ℤ → TanBoard
play_pair b src dest =
    let row1 = set b.p1 src (point b.p1 src - 1) in
    let d = pos_part dest in
    let landed = set row1 d (u32 (point row1 d + 1)) in
    if point b.p1 src == 0
    then b
    else if is_neg dest
    then record b { p1 = row1 }
    else if leb d 23
    then record {
      p0 = set (set b.p0 24 (u32 (point b.p0 24 + point b.p0 (23 - d)))) (23 - d) 0;
      p1 = landed;
    }
    else record b { p1 = landed }

unfoldable pub play_pairs : TanBoard → List (ℤ × ℤ) → TanBoard
play_pairs b [] = b
play_pairs b ((src, dest) ∷ moves) =
    let rest = play_pairs (play_pair b (pos_part src) dest) moves in if is_neg src then b else rest

unfoldable pub play_move : MatchState → List (ℤ × ℤ) → ℤ → MatchState
play_move ms an_move f_player =
    let turned = not (eq_ℤ ms.f_move (negsuc 0)) && not (eq_ℤ f_player ms.f_move) in
    let b = if turned then swap_sides ms.an_board else ms.an_board in
    record ms {
      an_board = swap_sides (play_pairs b an_move);
      f_move = lnot f_player;
      f_turn = lnot f_player;
    }

-- What a record may change: the match state, and the game information at the head of the game.
pub record Replay : Type 0 where
  pub ms : MatchState
  pub g : GameInfo

-- The line that announces the score is output.
unfoldable pub apply_game_over : Replay → Replay
apply_game_over s =
    let winner = pos_part s.g.f_winner in
    if is_neg s.g.f_winner then s else record s {
      ms = record s.ms {
        an_score = put s.ms.an_score winner (at s.ms.an_score winner + s.g.n_points);
        c_games = s.ms.c_games + 1;
      };
    }

-- The game is won by `winner`, for `points`.
unfoldable pub end_game : GameState → ℤ → ℕ → Bool → Replay → Replay
end_game gs winner points f_resigned s = apply_game_over (record {
  ms = record s.ms { gs = gs };
  g = record s.g { n_points = points; f_winner = winner; f_resigned = f_resigned };
})

-- `MOVE_NORMAL`: gammons do not count on a centred cube in money play under the Jacoby rule.
unfoldable pub apply_normal : Databases → ℤ → List (ℤ × ℤ) → Replay → Replay
apply_normal dbs f_player an_move s =
    let played = play_move (record s.ms { f_doubled = false }) an_move f_player in
    let ms = record played { an_dice = record { p0 = 0; p1 = 0 } } in
    let n = game_status dbs ms.an_board ms.bgv in
    let jacoby = ms.f_jacoby && (eq_ℤ ms.f_cube_owner (negsuc 0) && ms.n_match_to == 0) in
    let s' = record s { ms = ms } in
    if n == 0 then s' else end_game over f_player (ms.n_cube * (if jacoby then 1 else n)) false s'

-- `MOVE_GAMEINFO`.
unfoldable pub apply_game_info : GameInfo → MatchState → MatchState
apply_game_info g ms =
    let near : ℕ → Bool = λ score. score + 1 == g.n_match in
    record ms {
      an_board = init_board g.bgv;
      n_match_to = g.n_match;
      an_score = g.an_score;
      c_games = g.i;
      gs = no_game;
      f_move = negsuc 0;
      f_turn = negsuc 0;
      f_cube_owner = negsuc 0;
      an_dice = record { p0 = 0; p1 = 0 };
      c_beavers = 0;
      f_doubled = false;
      n_cube = 2 ^ g.n_auto_doubles;
      f_crawford = g.f_crawford_game;
      f_post_crawford = not g.f_crawford_game && (near g.an_score.p0 || near g.an_score.p1);
      bgv = g.bgv;
      f_cube_use = g.f_cube_use;
      f_jacoby = g.f_jacoby;
    }

-- `MOVE_DOUBLE`: a double of a pending double is a beaver.
unfoldable pub apply_double : ℤ → MatchState → MatchState
apply_double f_player ms0 =
    let ms = if is_neg ms0.f_move then record ms0 { f_move = f_player } else ms0 in
    if leb max_cube ms.n_cube
    then ms
    else if ms.f_doubled
    then record ms {
      c_beavers = ms.c_beavers + 1;
      n_cube = ms.n_cube * 2;
      f_cube_owner = lnot ms.f_move;
      f_turn = lnot f_player;
    }
    else record ms { f_doubled = true; f_turn = lnot f_player }

-- `if (pms->fMove < 0) pms->fMove = 0;`
abbrev pub some_mover : MatchState → MatchState
some_mover ms = if is_neg ms.f_move then record ms { f_move = pos 0 } else ms

-- The `switch` on the type of the record.
unfoldable pub apply_case : Databases → MoveRecord → Replay → Replay
apply_case dbs (game_info g) s = record s { ms = apply_game_info g s.ms }
apply_case dbs (double f_player) s = record s { ms = apply_double f_player s.ms }
apply_case dbs take_cube s =
    if s.ms.f_doubled
    then record s {
      ms = record s.ms {
        n_cube = s.ms.n_cube * 2;
        c_beavers = 0;
        f_doubled = false;
        f_cube_owner = lnot s.ms.f_move;
        f_turn = s.ms.f_move;
      };
    }
    else s
apply_case dbs (drop_cube f_player) s =
    if s.ms.f_doubled
    then end_game drop (lnot f_player) s.ms.n_cube false
        (record s { ms = record s.ms { f_doubled = false; c_beavers = 0 } })
    else s
apply_case dbs (normal f_player an_move) s = apply_normal dbs f_player an_move s
apply_case dbs (resign f_player n_resigned) s =
    end_game resigned (lnot f_player) (s.ms.n_cube * n_resigned) true
      (record s { ms = record s.ms { f_resigned = n_resigned } })
apply_case dbs (set_board key) s =
    let ms = if is_neg s.ms.f_move then record s.ms { f_turn = pos 0; f_move = pos 0 } else s.ms in
    let b = position_from_key key in
    record s { ms = record ms { an_board = if truthy ms.f_move then swap_sides b else b } }
apply_case dbs (set_dice f_player n0 n1) s =
    let b = if eq_ℤ s.ms.f_move f_player then s.ms.an_board else swap_sides s.ms.an_board in
    record s {
      ms = record s.ms {
        an_dice = record { p0 = n0; p1 = n1 };
        an_board = b;
        f_turn = f_player;
        f_move = f_player;
        f_doubled = false;
      };
    }
apply_case dbs (set_cube_val n_cube) s =
    let ms = some_mover s.ms in
    record s { ms = record ms { n_cube = n_cube; f_doubled = false; f_turn = ms.f_move } }
apply_case dbs (set_cube_pos f_cube_owner) s =
    let ms = some_mover s.ms in
    record s {
      ms = record ms { f_cube_owner = f_cube_owner; f_doubled = false; f_turn = ms.f_move };
    }

unfoldable pub apply_move_record : Databases → MoveRecord → Replay → Replay
apply_move_record dbs pmr s =
    apply_case dbs pmr
      (record s { ms = record s.ms { gs = playing; f_resigned = 0; f_resignation_declined = 0 } })

-- Where a record is missing before a move or a double, the turn is passed.
unfoldable pub pass_to : ℤ → MatchState → MatchState
pass_to f_player ms =
    if eq_ℤ ms.f_turn f_player
    then ms
    else record ms { an_board = swap_sides ms.an_board; f_move = f_player; f_turn = f_player }

unfoldable pub fix_match_state : MoveRecord → MatchState → MatchState
fix_match_state (normal f_player an_move) ms = pass_to f_player ms
fix_match_state (double f_player) ms = pass_to f_player ms
fix_match_state _ ms = ms

-- The record after the one that was applied, if there is one.
unfoldable pub fix_next : List MoveRecord → Replay → Replay
fix_next [] s = s
fix_next (pmr ∷ rest) s = record s { ms = fix_match_state pmr s.ms }

-- `CalculateBoard`, over the records of the game; `last` of them are applied, up to `plLastMove`.
unfoldable pub calculate_board : Databases → ℕ → List MoveRecord → Replay → Replay
calculate_board dbs zero records s = s
calculate_board dbs (suc last) [] s = s
calculate_board dbs (suc last) (pmr ∷ rest) s =
    calculate_board dbs last rest (fix_next rest (apply_move_record dbs pmr s))

-- `PLAYER_HUMAN` or not; `fComputerDecision` is set while the engine decides.
unfoldable pub gnubg_can_double : Two Bool → Bool → MatchState → Bool
gnubg_can_double human f_computer_decision ms =
    let limit : ℕ = if ms.n_match_to == 0 then max_cube else max_score in
    (is_playing ms.gs)
    && ((at human (pos_part ms.f_turn) || f_computer_decision)
        && (not ms.f_crawford
            && (ms.f_cube_use
                && (eq_ℤ ms.f_turn ms.f_move
                    && (ms.an_dice.p0 == 0
                        && ((is_neg ms.f_cube_owner || eq_ℤ ms.f_cube_owner ms.f_turn)
                            && (ltb ms.n_cube limit
                                && (ms.n_match_to == 0
                                    || ltb (ms.n_cube + at ms.an_score (pos_part ms.f_turn))
                                        ms.n_match_to))))))))
  where
    is_playing : GameState → Bool
    is_playing playing = true
    is_playing _ = false
