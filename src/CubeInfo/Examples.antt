-- ===== src/CubeInfo/Examples.antt =====
-- What the engine is told of the cube in some games.
use gnubg_android.Base.{◌≡◌, refl}
use gnubg_android.Base.Int.{ℤ, pos, negsuc, ◌-ℤ◌}
use gnubg_android.Base.Two.{Two}
use gnubg_android.MatchId.{log_from, log_cube}
use gnubg_android.CubeInfo.{
  post_crawford_price, no_price, cleared, set_cube_info_money, match_prices, set_cube_info_match,
  set_cube_info,
}

abbrev score : Two ℤ
score = record { p0 = pos 4; p1 = pos 2 }

-- Player 0 needs one point more of five, after the Crawford game.
after_crawford :
    (set_cube_info
      (pos 2)
      (pos 1)
      (pos 0)
      (pos 5)
      score
      (pos 0)
      (pos 0)
      (pos 0)
      0).0.ar_gammon_price
    ≡ post_crawford_price 1 (pos 2) 0
unfolding set_cube_info set_cube_info_match match_prices log_cube log_from ◌-ℤ◌
after_crawford = refl

-- With the Jacoby rule a centred cube makes gammons worthless.
jacoby :
    (set_cube_info
      (pos 1)
      (negsuc 0)
      (pos 0)
      (pos 0)
      score
      (pos 0)
      (pos 1)
      (pos 0)
      0).0.ar_gammon_price
    ≡ no_price
unfolding set_cube_info set_cube_info_money
jacoby = refl

score_too_high :
    set_cube_info (pos 1) (negsuc 0) (pos 0) (pos 3) score (pos 0) (pos 0) (pos 0) 0
    ≡ (cleared, negsuc 0)
unfolding set_cube_info set_cube_info_match
score_too_high = refl
