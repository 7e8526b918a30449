-- ===== src/Game/Score.antt =====
-- What a record does to the score of the match, engine-core/play.c `ApplyMoveRecord`,
-- `ApplyGameOver`.
use gnubg_android.Base.{
  ℕ, ◌+◌, ◌*◌, ◌≤◌, ◌≡◌, ◌⊎◌, inl, inr, refl, ◌∙◌, ap, Bool, Bool-cases, true, false, ◌&&◌, List,
  ◌==◌, if◌then◌else◌, arith,
}
use gnubg_android.Base.Int.{ℤ, negsuc, is_neg, pos_part, eq_ℤ}
use gnubg_android.Base.Two.{at, put}
use gnubg_android.Board.{TanBoard}
use gnubg_android.Outcome.{Databases, Variation, game_status}
use gnubg_android.Game.{
  GameState, playing, over, resigned, drop, MoveRecord, game_info, normal, double, take_cube,
  drop_cube, resign, set_board, set_dice, set_cube_val, set_cube_pos, lnot, play_move, Replay,
  apply_game_over, end_game, apply_normal, apply_double, apply_case, apply_move_record,
}

-- Within a game: not the record that starts one, with a player 0 or 1 and a resignation of at most
-- three points.
abbrev pub Within : MoveRecord → Type 0
Within (game_info g) = ⊥
Within (normal f_player an_move) = is_neg f_player ≡ false
Within (resign f_player n_resigned) = n_resigned ≤ 3
Within _ = Unit {0}

-- The game goes on with the score as it was.
pub record GoesOn (s s' : Replay) : Type 0 where
  pub state : s'.ms.gs ≡ playing
  pub score : s'.ms.an_score ≡ s.ms.an_score
  pub games : s'.ms.c_games ≡ s.ms.c_games

-- The game ends: the winner noted at its head scores the points noted there, the cube up to three
-- times.
pub record Ends (s s' : Replay) : Type 0 where
  pub state : (s'.ms.gs ≡ over) ⊎ ((s'.ms.gs ≡ resigned) ⊎ (s'.ms.gs ≡ drop))
  pub winner : is_neg s'.g.f_winner ≡ false
  pub score :
      s'.ms.an_score
      ≡ put s.ms.an_score
          (pos_part s'.g.f_winner)
          (at s.ms.an_score (pos_part s'.g.f_winner) + s'.g.n_points)
  pub games : s'.ms.c_games ≡ s.ms.c_games + 1
  pub points : (k : ℕ) × (k ≤ 3) × (s'.g.n_points ≡ s.ms.n_cube * k)

lnot-is_neg : (z : ℤ) → is_neg (lnot z) ≡ false
lnot-is_neg z = ground arith

-- How the end of a game is entered.
end_game_ms :
    (gs : GameState) (w : ℤ) (p : ℕ) (r : Bool) (s : Replay)
    → is_neg w ≡ false
    → end_game gs w p r s ≡ record {
      ms = record s.ms {
        gs = gs;
        an_score = put s.ms.an_score (pos_part w) (at s.ms.an_score (pos_part w) + p);
        c_games = s.ms.c_games + 1;
      };
      g = record s.g { n_points = p; f_winner = w; f_resigned = r };
    }
unfolding end_game apply_game_over
end_game_ms gs w p r s h = rw h refl

game_status_le : (dbs : Databases) (b : TanBoard) (bgv : Variation) → game_status dbs b bgv ≤ 3
unfolding game_status
game_status_le dbs b bgv = ground arith

-- What the score and the worth of the game rest on has not changed.
record SameScore (s t : Replay) : Type 0 where
  score : t.ms.an_score ≡ s.ms.an_score
  games : t.ms.c_games ≡ s.ms.c_games
  cube : t.ms.n_cube ≡ s.ms.n_cube

end_game-Ends :
    (gs : GameState) (w : ℤ) (p k : ℕ) (r : Bool) (s t : Replay)
    → p ≡ t.ms.n_cube * k
    → SameScore s t
    → (gs ≡ over) ⊎ ((gs ≡ resigned) ⊎ (gs ≡ drop))
    → is_neg w ≡ false
    → k ≤ 3
    → Ends s (end_game gs w p r t)
end_game-Ends gs w p k r s t e same kind h few = rw (end_game_ms gs w p r t h) (record {
  state = kind;
  winner = h;
  score = rw same.score refl;
  games = rw same.games refl;
  points = (k, few, e ∙ ap (λ c. c * k) same.cube);
})

-- The state after the move, before the end of the game is looked for.
abbrev moved : ℤ → List (ℤ × ℤ) → Replay → Replay
moved f_player an_move s =
    let played = play_move (record s.ms { f_doubled = false }) an_move f_player in
    record s { ms = record played { an_dice = record { p0 = 0; p1 = 0 } } }

moved-SameScore :
    (f_player : ℤ) (an_move : List (ℤ × ℤ)) (s t : Replay)
    → SameScore s t
    → t.ms.gs ≡ playing
    → SameScore s (moved f_player an_move t) × (moved f_player an_move t).ms.gs ≡ playing
unfolding play_move
moved-SameScore f_player an_move s t same on =
    (record { score = same.score; games = same.games; cube = same.cube }, on)

scored_normal :
    (dbs : Databases) (f_player : ℤ) (an_move : List (ℤ × ℤ)) (s t : Replay)
    → is_neg f_player ≡ false
    → t.ms.gs ≡ playing
    → SameScore s t
    → GoesOn s (apply_normal dbs f_player an_move t) ⊎ Ends s (apply_normal dbs f_player an_move t)
unfolding apply_normal
scored_normal dbs f_player an_move s t h on same0 = finish (n == 0) worth_le
  where
    m : Replay
    m = moved f_player an_move t

    n : ℕ
    n = game_status dbs m.ms.an_board m.ms.bgv

    same : SameScore s m
    same = (moved-SameScore f_player an_move s t same0 on).0

    k : ℕ
    k =
        if m.ms.f_jacoby && (eq_ℤ m.ms.f_cube_owner (negsuc 0) && m.ms.n_match_to == 0)
        then 1
        else n

    worth_le : k ≤ 3
    worth_le = ground (arith, game_status_le dbs m.ms.an_board m.ms.bgv)

    finish :
        (c : Bool)
        → k ≤ 3
        → let s' : Replay = if c then m else end_game over f_player (m.ms.n_cube * k) false m in
          GoesOn s s' ⊎ Ends s s'
    finish true few = inl (record {
      state = (moved-SameScore f_player an_move s t same0 on).1;
      score = same.score;
      games = same.games;
    })
    finish false few =
        inr (end_game-Ends over f_player (m.ms.n_cube * k) k false s m refl same (inl refl) h few)

scored_drop :
    (dbs : Databases) (f_player : ℤ) (s t : Replay)
    → SameScore s t
    → t.ms.gs ≡ playing
    → GoesOn s (apply_case dbs (drop_cube f_player) t)
      ⊎ Ends s (apply_case dbs (drop_cube f_player) t)
unfolding apply_case
scored_drop dbs f_player s t same on = elim (Bool-cases t.ms.f_doubled) [
  | inr none ↦ rw none (inl (record { state = on; score = same.score; games = same.games }))
  | inl doubled ↦
      let t' : Replay = record t { ms = record t.ms { f_doubled = false; c_beavers = 0 } } in
      let same' : SameScore s t' = record {
        score = same.score;
        games = same.games;
        cube = same.cube;
      } in
      rw doubled (
        inr (
          end_game-Ends drop (lnot f_player) t.ms.n_cube 1 false s t' (omega arith) same'
            (inr (inr refl)) (lnot-is_neg f_player) (omega arith)))
]

-- What every record sets first.
abbrev started : Replay → Replay
started s = record s {
  ms = record s.ms { gs = playing; f_resigned = 0; f_resignation_declined = 0 };
}

started-SameScore : (s : Replay) → SameScore s (started s)
started-SameScore s = record { score = refl; games = refl; cube = refl }

-- A record within a game, whose player is 0 or 1 and which gives up at most three times the cube,
-- leaves the game going with the score unchanged, or ends it: then one game more is counted, the
-- winner that it notes at the head of the game gains the points noted there, which are at most three
-- times the cube, and the other player none.
pub apply_move_record_score :
    (dbs : Databases) (pmr : MoveRecord) (s : Replay)
    → Within pmr
    → GoesOn s (apply_move_record dbs pmr s) ⊎ Ends s (apply_move_record dbs pmr s)
unfolding apply_move_record apply_case apply_double
apply_move_record_score dbs (game_info g) s h = absurd h
apply_move_record_score dbs (normal f_player an_move) s h =
    scored_normal dbs f_player an_move s (started s) h refl (started-SameScore s)
apply_move_record_score dbs (double f_player) s h =
    inl (record { state = ground arith; score = ground arith; games = ground arith })
apply_move_record_score dbs take_cube s h =
    inl (record { state = ground arith; score = ground arith; games = ground arith })
apply_move_record_score dbs (drop_cube f_player) s h =
    scored_drop dbs f_player s (started s) (started-SameScore s) refl
apply_move_record_score dbs (resign f_player n_resigned) s h =
    let t : Replay = record (started s) {
      ms = record (started s).ms { f_resigned = n_resigned };
    } in
    inr (
      end_game-Ends resigned (lnot f_player) (s.ms.n_cube * n_resigned) n_resigned true s t refl
        (record { score = refl; games = refl; cube = refl }) (inr (inl refl)) (lnot-is_neg f_player)
        h)
apply_move_record_score dbs (set_board key) s h =
    inl (record { state = ground arith; score = ground arith; games = ground arith })
apply_move_record_score dbs (set_dice f_player n0 n1) s h =
    inl (record { state = refl; score = refl; games = refl })
apply_move_record_score dbs (set_cube_val n_cube) s h =
    inl (record { state = ground arith; score = ground arith; games = ground arith })
apply_move_record_score dbs (set_cube_pos f_cube_owner) s h =
    inl (record { state = ground arith; score = ground arith; games = ground arith })
