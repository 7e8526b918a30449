-- ===== src/CubeInfo/Checked.antt =====
-- Which arguments `SetCubeInfo` of engine-core/eval.c accepts, and where it reads the prices.
use gnubg_android.Base.{ℕ, zero, suc, ◌<◌, ◌≡◌, ◌⊎◌, Bool, true, false, not, ◌||◌}
use gnubg_android.Base.Int.{ℤ, pos, negsuc, ◌-ℤ◌, pos_part, truthy, ltb_ℤ, ◌≤ℤ◌}
use gnubg_android.Base.Two.{Two}
use gnubg_android.CubeInfo.{
  GammonPrices, no_price, whole_price, match_price, post_crawford_price, CubeInfo, max_score,
  max_cube_level, cleared, bad_cube,
}

-- A point count of a table: not negative, and below the size.
abbrev pub IsAway : ℤ → Type 0
IsAway away = (pos 0 ≤ℤ away) × (pos_part away < max_score)

-- The indices are within the tables, on both ends.
abbrev pub InTable : GammonPrices → Type 0
InTable no_price = Unit {0}
InTable whole_price = Unit {0}
InTable (match_price level a b) = (level < max_cube_level) × IsAway a × IsAway b
InTable (post_crawford_price level a who) = (level < max_cube_level) × IsAway a × (who < 2)

-- Which entries are read, for the points that the players still need, less one: those after the
-- Crawford game if one of them needs one point, of the other's need, and else those of both needs.
abbrev pub IsPlaced : ℤ → ℤ → ℤ → GammonPrices → Type 0
IsPlaced away0 away1 crawford no_price = Unit {0}
IsPlaced away0 away1 crawford whole_price = Unit {0}
IsPlaced away0 away1 crawford (match_price level a b) =
    (a ≡ away0)
    × (b ≡ away1)
    × ((truthy crawford ≡ true) ⊎ ((truthy away0 ≡ true) × (truthy away1 ≡ true)))
IsPlaced away0 away1 crawford (post_crawford_price level a zero) =
    (a ≡ away1) × (truthy away0 ≡ false) × (truthy crawford ≡ false)
IsPlaced away0 away1 crawford (post_crawford_price level a (suc who)) =
    (a ≡ away0) × (truthy away1 ≡ false) × (truthy crawford ≡ false)

-- The cube is a positive number, its owner a player or nobody, and the mover a player.
abbrev pub CubeOk : ℤ → ℤ → ℤ → Type 0
CubeOk n_cube owner move =
    (pos 1 ≤ℤ n_cube) × (negsuc 0 ≤ℤ owner) × (owner ≤ℤ pos 1) × (pos 0 ≤ℤ move) × (move ≤ℤ pos 1)

-- In a match each score is below the length.
abbrev pub ScoreOk : ℤ → Two ℤ → Type 0
ScoreOk n_match_to score =
    (n_match_to ≡ pos 0)
    ⊎ ((pos 1 ≤ℤ n_match_to)
        × (score.p0 ≤ℤ n_match_to -ℤ pos 1)
        × (score.p1 ≤ℤ n_match_to -ℤ pos 1))

abbrev bad_score : ℤ → Two ℤ → Bool
bad_score n_match_to score =
    ltb_ℤ n_match_to (pos 1) || not (ltb_ℤ score.p0 n_match_to) || not (ltb_ℤ score.p1 n_match_to)

-- What is told by 0 and by -1.
abbrev pub Outcome : ℤ → ℤ → ℤ → ℤ → Two ℤ → ℤ → CubeInfo × ℤ → Type 0
Outcome n_cube owner move n_match_to score crawford (ci, code) =
    ((code ≡ pos 0)
      × CubeOk n_cube owner move
      × ScoreOk n_match_to score
      × InTable ci.ar_gammon_price
      × IsPlaced (n_match_to -ℤ score.p0 -ℤ pos 1) (n_match_to -ℤ score.p1 -ℤ pos 1) crawford
          ci.ar_gammon_price
      × (ci.n_cube ≡ n_cube)
      × (ci.f_cube_owner ≡ owner)
      × (ci.f_move ≡ move)
      × (ci.n_match_to ≡ n_match_to))
    ⊎ ((code ≡ negsuc 0) × (ci ≡ cleared) × ¬ (CubeOk n_cube owner move × ScoreOk n_match_to score))

module _ (n_cube owner move n_match_to : ℤ) (score : Two ℤ) (crawford jacoby beavers : ℤ)
    (bgv : ℕ) where
  abbrev bad_match : Bool
  bad_match =
      bad_cube n_cube owner move
      || ltb_ℤ n_match_to (pos 1)
      || not (ltb_ℤ score.p0 n_match_to)
      || not (ltb_ℤ score.p1 n_match_to)
