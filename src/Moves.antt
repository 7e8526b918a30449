-- ===== src/Moves.antt =====
-- The generation of moves, engine-core/eval.c `SaveMoves`, `GenerateMovesSub` and `GenerateMoves`,
-- over the records `move` and `movelist` of engine-core/eval.h. The evaluation of a move (`arEvalMove`,
-- `rScore`, `esMove`, `cmark`) is set after the generation and is left out. An array of moves is a
-- list of pairs of a source and a destination: the code writes and reads the two entries of a pair
-- together. A recorded move is the list of the pairs before its terminating -1.
pub mod Save
pub mod Sound
pub mod Cover
pub mod Correct
mod Examples
use gnubg_android.Base.{
  ℕ, zero, suc, ◌+◌, ◌-◌, ◌<◌, Bool, true, false, not, ◌&&◌, ◌||◌, List, [], ◌∷◌, map, ltb, leb,
  ◌==◌, if◌then◌else◌, get_or, set, take, replicate,
}
use gnubg_android.Base.Int.{ℤ, pos, negsuc, ◌-ℤ◌, is_neg}
use gnubg_android.Base.Two.{Two}
use gnubg_android.Board.{TanBoard, point, apply_sub_move, legal_move}
use gnubg_android.Board.Play.{clamp}
use gnubg_android.Position.Key.{PositionKey, position_key, equal_keys}

abbrev pub MovePairs : Type 0
MovePairs = List (ℤ × ℤ)

pub record Move : Type 0 where
  pub an_move : MovePairs
  pub key : PositionKey
  pub c_moves : ℕ
  pub c_pips : ℕ

-- `cMoves` is the length of the list.
pub record MoveList : Type 0 where
  pub moves : List Move
  pub c_max_moves : ℕ
  pub c_max_pips : ℕ
  pub i_move_best : ℕ

-- `anMoves[i] > -1 ? anMoves[i] : -1`, for both entries of a pair.
abbrev pub clamp_pair : ℤ × ℤ → ℤ × ℤ
clamp_pair (src, dest) = (clamp src, clamp dest)

-- The loop over the moves already found: a move to the same position is replaced if the new one plays
-- more, and otherwise kept; a new position is added at the end.
unfoldable pub insert_move : Move → List Move → List Move
insert_move m [] = m ∷ []
insert_move m (old ∷ rest) =
    if equal_keys m.key old.key
    then (if ltb old.c_moves m.c_moves || ltb old.c_pips m.c_pips
        then record old { an_move = m.an_move; c_moves = m.c_moves; c_pips = m.c_pips }
        else old)
      ∷ rest
    else old ∷ insert_move m rest

abbrev max_of : ℕ → ℕ → ℕ
max_of a b = if ltb b a then a else b

-- The array of moves is unbounded here: that the code's has room for them, which its `g_assert` on
-- `MAX_INCOMPLETE_MOVES` checks, is left out.
unfoldable pub save_moves : MoveList → ℕ → ℕ → MovePairs → TanBoard → Bool → MoveList
save_moves ml c_moves c_pip an_moves b f_partial =
    let m : Move = record {
      an_move = map clamp_pair (take c_moves an_moves);
      key = position_key b;
      c_moves = c_moves;
      c_pips = c_pip;
    } in
    if f_partial
    then record ml {
      moves = insert_move m ml.moves;
      c_max_moves = max_of c_moves ml.c_max_moves;
      c_max_pips = max_of c_pip ml.c_max_pips;
    }
    else if ltb c_moves ml.c_max_moves || ltb c_pip ml.c_max_pips
    then ml
    else record ml {
      moves =
          insert_move m
            (if ltb ml.c_max_moves c_moves || ltb ml.c_max_pips c_pip then [] else ml.moves);
      c_max_moves = c_moves;
      c_max_pips = c_pip;
    }

-- What the recursion writes to: the list of moves, and the array `anMoves` of the move under way.
pub record Search : Type 0 where
  pub ml : MoveList
  pub an_moves : MovePairs

-- A call at some depth, with its `iPip`, `cPip` and board.
abbrev pub Deeper : Type 0
Deeper = ℕ → ℕ → TanBoard → Search → Search × Bool

module _ (roll : List ℕ) (f_partial : Bool) where
  -- One sub-move from `src`: it is noted, played, and followed as far as it goes.
  unfoldable pub try_move : Deeper → ℕ → ℕ → ℕ → TanBoard → ℕ → Search → Search
  try_move deeper depth i_pip c_pip b src s =
      let die = get_or roll depth 0 in
      let noted = record s { an_moves = set s.an_moves depth (pos src, pos src -ℤ pos die) } in
      let b' = (apply_sub_move b (pos src) (pos die) true).0 in
      let (s', ends) = deeper i_pip (c_pip + die) b' noted in
      if ends
      then record s' { ml = save_moves s'.ml (suc depth) (c_pip + die) s'.an_moves b' f_partial }
      else s'

  -- The loop over the points below `n`, from the highest.
  unfoldable pub try_points : Deeper → ℕ → ℕ → TanBoard → ℕ → Search → Bool → Search × Bool
  try_points deeper depth c_pip b zero s used = (s, used)
  try_points deeper depth c_pip b (suc i) s used =
      let legal = ltb 0 (point b.p1 i) && legal_move b (pos i) (pos (get_or roll depth 0)) in
      let i_pip = if get_or roll 0 0 == get_or roll 1 0 then i else 23 in
      try_points deeper depth c_pip b i
        (if legal then try_move deeper depth i_pip c_pip b i s else s) (used || legal)

  -- One call of `GenerateMovesSub` at `depth`, the recursive ones left open.
  unfoldable pub generate_step : Deeper → ℕ → Deeper
  generate_step deeper depth i_pip c_pip b s =
      let die = get_or roll depth 0 in
      if leb 4 depth || die == 0
      then (s, true)
      else if ltb 0 (point b.p1 24)
      then (if leb 2 (point b.p0 (die - 1))
          then (s, true)
          else (try_move deeper depth 23 c_pip b 24 s, f_partial))
      else (let (s', used) = try_points deeper depth c_pip b (i_pip + 1) s false in
          (s', not used || f_partial))

  -- `GenerateMovesSub`. A call at depth 4 returns at once, so `max_depth` calls are deep enough.
  unfoldable pub generate_moves_sub : ℕ → ℕ → Deeper
  generate_moves_sub zero depth i_pip c_pip b s = (s, true)
  generate_moves_sub (suc fuel) depth i_pip c_pip b s =
      generate_step (generate_moves_sub fuel (suc depth)) depth i_pip c_pip b s

abbrev pub max_depth : ℕ
max_depth = 5

abbrev pub dice_roll : ℕ → ℕ → List ℕ
dice_roll n0 n1 = let n : ℕ = if n0 == n1 then n0 else 0 in n0 ∷ n1 ∷ n ∷ n ∷ []

-- The entries of `anMoves` are not set before they are read.
abbrev pub fresh_search : Search
fresh_search = record {
  ml = record { moves = []; c_max_moves = 0; c_max_pips = 0; i_move_best = 0 };
  an_moves = replicate 4 (pos 0, pos 0);
}

unfoldable pub generate_moves : TanBoard → ℕ → ℕ → Bool → MoveList
generate_moves b n0 n1 f_partial =
    let first =
      (generate_moves_sub (dice_roll n0 n1) f_partial max_depth 0 23 0 b fresh_search).0 in
    let second = (generate_moves_sub (dice_roll n1 n0) f_partial max_depth 0 23 0 b first).0 in
    if n0 == n1 then first.ml else second.ml
