-- ===== src/Game/Offer.antt =====
-- A double that is offered, and taken or dropped, engine-core/play.c `gnubg_can_double`,
-- `ApplyMoveRecord`.
use gnubg_android.Base.{
  ◌+◌, ◌*◌, ◌<◌, ◌≡◌, refl, sym, ◌∙◌, ap, Bool, true, false, leb, lt→not_leb, ◌⊎◌, inl, inr, arith,
}
use gnubg_android.Base.Int.{ℤ, pos, is_neg, pos_part, eq_ℤ}
use gnubg_android.Base.Two.{Two, at, put}
use gnubg_android.Outcome.{Databases}
use gnubg_android.Game.{
  MatchState, playing, drop, double, take_cube, drop_cube, lnot, max_cube, Replay, apply_game_over,
  end_game, apply_double, apply_case, apply_move_record, gnubg_can_double,
}

-- What is read off the tests of `gnubg_can_double`.
can_double_parts :
    (human : Two Bool) (comp : Bool) (ms : MatchState)
    → gnubg_can_double human comp ms ≡ true
    → (eq_ℤ ms.f_turn ms.f_move ≡ true) × (ms.n_cube < max_cube)
unfolding gnubg_can_double
can_double_parts human comp ms h = ground arith

abbrev pub IsPlayer : ℤ → Type 0
IsPlayer z = (z ≡ pos 0) ⊎ (z ≡ pos 1)

lnot-lnot : (z : ℤ) → IsPlayer z → lnot (lnot z) ≡ z
lnot-lnot z (inl e) = rw e refl
lnot-lnot z (inr e) = rw e refl

IsPlayer-is_neg : (z : ℤ) → IsPlayer z → is_neg z ≡ false
IsPlayer-is_neg z (inl e) = rw e refl
IsPlayer-is_neg z (inr e) = rw e refl

-- A first double.
apply_double_first :
    (f_player : ℤ) (ms : MatchState)
    → is_neg ms.f_move ≡ false
    → ms.n_cube < max_cube
    → ms.f_doubled ≡ false
    → apply_double f_player ms ≡ record ms { f_doubled = true; f_turn = lnot f_player }
unfolding apply_double
apply_double_first f_player ms h few once =
    let c : leb max_cube ms.n_cube ≡ false = lt→not_leb max_cube ms.n_cube few in
    simp (h, c, once) refl

-- The player on roll may double, and no double is pending.
pub record MayOffer (human : Two Bool) (comp : Bool) (ms : MatchState) : Type 0 where
  pub allowed : gnubg_can_double human comp ms ≡ true
  pub once : ms.f_doubled ≡ false
  pub player : IsPlayer ms.f_turn

module _ (dbs : Databases) (human : Two Bool) (comp : Bool) (s : Replay)
    (may : MayOffer human comp s.ms) where
  turn : s.ms.f_turn ≡ s.ms.f_move
  turn = let (e, few) = can_double_parts human comp s.ms may.allowed in ground arith

  -- After the double.
  offered : apply_move_record dbs (double s.ms.f_turn) s ≡ record s {
    ms = record s.ms {
      gs = playing;
      f_resigned = 0;
      f_resignation_declined = 0;
      f_doubled = true;
      f_turn = lnot s.ms.f_turn;
    };
  }
  unfolding apply_move_record apply_case
  offered =
      let (e, few) = can_double_parts human comp s.ms may.allowed in
      let there : is_neg s.ms.f_move ≡ false =
        ap is_neg (sym turn) ∙ IsPlayer-is_neg s.ms.f_turn may.player in
      ap (λ (m : MatchState). record s { ms = m })
        (apply_double_first s.ms.f_turn _ there few may.once)

  -- A player whom `gnubg_can_double` allows to double, with no double pending, doubles, and the
  -- opponent takes: the cube is doubled and goes to the opponent, the turn is back with the player,
  -- and board, dice and score are as before.
  pub take_cube-double :
      apply_move_record dbs take_cube (apply_move_record dbs (double s.ms.f_turn) s) ≡ record s {
        ms = record s.ms {
          gs = playing;
          f_resigned = 0;
          f_resignation_declined = 0;
          n_cube = s.ms.n_cube * 2;
          c_beavers = 0;
          f_doubled = false;
          f_cube_owner = lnot s.ms.f_turn;
        };
      }
  unfolding apply_move_record apply_case
  take_cube-double = ap (apply_move_record dbs take_cube) offered ∙ ap back (sym turn)
    where
      back : ℤ → Replay
      back z = record s {
        ms = record s.ms {
          gs = playing;
          f_resigned = 0;
          f_resignation_declined = 0;
          n_cube = s.ms.n_cube * 2;
          c_beavers = 0;
          f_doubled = false;
          f_cube_owner = lnot z;
          f_turn = z;
        };
      }

  -- A player whom `gnubg_can_double` allows to double, with no double pending, doubles, and the
  -- opponent drops: the game is over, the player wins the value of the cube before the double, and one
  -- game more is counted.
  pub drop_cube-double :
      apply_move_record dbs
        (drop_cube (lnot s.ms.f_turn))
        (apply_move_record dbs (double s.ms.f_turn) s)
      ≡ record {
        ms = record s.ms {
          gs = drop;
          f_resigned = 0;
          f_resignation_declined = 0;
          f_doubled = false;
          c_beavers = 0;
          f_turn = lnot s.ms.f_turn;
          an_score =
              put s.ms.an_score
                (pos_part s.ms.f_turn)
                (at s.ms.an_score (pos_part s.ms.f_turn) + s.ms.n_cube);
          c_games = s.ms.c_games + 1;
        };
        g = record s.g { n_points = s.ms.n_cube; f_winner = s.ms.f_turn; f_resigned = false };
      }
  unfolding apply_move_record apply_case end_game apply_game_over
  drop_cube-double =
      ap (apply_move_record dbs (drop_cube (lnot s.ms.f_turn))) offered
      ∙ rw (lnot-lnot s.ms.f_turn may.player) (rw (IsPlayer-is_neg s.ms.f_turn may.player) refl)
