-- ===== src/MatchId/Examples.antt =====
-- A match ID that is written and read, and the theorems about match IDs at concrete inputs.
use gnubg_android.Base.{ℕ, ◌≡◌, ◌⊎◌, ◌↔◌, refl, true, false, List, [], ◌∷◌, inl, inr, arith}
use gnubg_android.Base.Int.{pos, negsuc}
use gnubg_android.Position.Id.{digits, three_bytes, base64}
use gnubg_android.Position.Examples.{start}
use gnubg_android.Outcome.{standard}
use gnubg_android.Game.{MatchState, playing}
use gnubg_android.MatchId.{
  log_from, log_cube, set_bit, set_bits_from, get_bits_from, get_bits, four_chars,
  match_id_from_key, match_key, match_id_from_match_state, read_key, match_code, match_from_key,
  match_from_id,
}
use gnubg_android.MatchId.RoundTrip.{stored, match_from_id-match_id_from_match_state}
use gnubg_android.MatchId.Accepted.{Consistent, match_from_id_outcome}

-- Player 1 on roll with 5 and 2, in a match to 9, with the cube on 2 at player 0.
abbrev some_state : MatchState
some_state = record {
  an_board = start;
  an_dice = record { p0 = 2; p1 = 5 };
  f_turn = pos 1;
  f_resigned = 0;
  f_resignation_declined = 0;
  f_doubled = false;
  c_games = 0;
  f_move = pos 1;
  f_cube_owner = pos 0;
  f_crawford = false;
  f_post_crawford = false;
  n_match_to = 9;
  an_score = record { p0 = 2; p1 = 4 };
  n_cube = 2;
  c_beavers = 0;
  bgv = standard;
  f_cube_use = true;
  f_jacoby = true;
  gs = playing;
}

-- It is written and read back, the higher die first.
read_back : match_from_id (match_id_from_match_state some_state) ≡ (
  record {
    an_dice = record { p0 = 5; p1 = 2 };
    f_turn = 1;
    f_resigned = 0;
    f_doubled = 0;
    f_move = 1;
    f_cube_owner = pos 0;
    f_crawford = 0;
    n_match_to = 9;
    an_score = record { p0 = 2; p1 = 4 };
    n_cube = 2;
    f_jacoby = true;
    gs = 1;
  },
  pos 0,
)
unfolding match_from_id match_from_key match_code read_key get_bits get_bits_from set_bit
    match_id_from_match_state match_id_from_key four_chars match_key set_bits_from log_cube log_from
    digits three_bytes base64
read_back = refl

-- "cAkAAAAAAAAA".
abbrev money_id : List ℕ
money_id = 99 ∷ 65 ∷ 107 ∷ 65 ∷ 65 ∷ 65 ∷ 65 ∷ 65 ∷ 65 ∷ 65 ∷ 65 ∷ 65 ∷ []

match_from_id_outcome_example :
    (((match_from_id money_id).1 ≡ pos 0) ⊎ ((match_from_id money_id).1 ≡ negsuc 0))
    × (((match_from_id money_id).1 ≡ pos 0) ↔ Consistent (match_from_id money_id).0)
match_from_id_outcome_example = match_from_id_outcome money_id

match_from_id-match_id_from_match_state_example :
    match_from_id (match_id_from_match_state some_state)
    ≡ (stored some_state, match_code (stored some_state))
match_from_id-match_id_from_match_state_example =
    match_from_id-match_id_from_match_state some_state (record {
      cube = (1, omega arith, refl);
      owner = inr (inl refl);
      move = inr refl;
      turn = inr refl;
      gives_up = omega arith;
      dice = (omega arith, omega arith);
      points = omega arith;
      score = (omega arith, omega arith);
    })
