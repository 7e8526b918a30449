-- ===== src/CubeInfo.antt =====
-- What the engine knows of the cube and the score when it evaluates a position, engine-core/eval.c
-- `SetCubeInfoMoney`, `SetCubeInfoMatch`, `SetCubeInfo`, and `cubeinfo` of engine-core/eval.h. The four
-- gammon prices are floats: here they are the place that they are copied from.
pub mod Checked
mod Examples
use gnubg_android.Base.{ℕ, ◌-◌, ◌*◌, Bool, true, false, not, ◌&&◌, ◌||◌, ltb, ◌==◌, if◌then◌else◌}
use gnubg_android.Base.Int.{ℤ, pos, negsuc, ◌-ℤ◌, pos_part, truthy, ltb_ℤ, eq_ℤ}
use gnubg_android.Base.Two.{Two}
use gnubg_android.MatchId.{log_cube}

-- All 0.0, all 1.0, and the entries of `aaaafGammonPrices` and `aaaafGammonPricesPostCrawford`, by
-- their three indices.
pub data GammonPrices : Type 0 where
  no_price whole_price : GammonPrices
  match_price : ℕ → ℤ → ℤ → GammonPrices
  post_crawford_price : ℕ → ℤ → ℕ → GammonPrices

pub record CubeInfo : Type 0 where
  pub n_cube : ℤ
  pub f_cube_owner : ℤ
  pub f_move : ℤ
  pub n_match_to : ℤ
  pub an_score : Two ℤ
  pub f_crawford : ℤ
  pub f_jacoby : ℤ
  pub f_beavers : ℤ
  pub ar_gammon_price : GammonPrices
  pub bgv : ℕ

abbrev pub max_score : ℕ
max_score = 64

abbrev pub max_cube_level : ℕ
max_cube_level = 7

-- After `memset`.
abbrev pub cleared : CubeInfo
cleared = record {
  n_cube = pos 0;
  f_cube_owner = pos 0;
  f_move = pos 0;
  n_match_to = pos 0;
  an_score = record { p0 = pos 0; p1 = pos 0 };
  f_crawford = pos 0;
  f_jacoby = pos 0;
  f_beavers = pos 0;
  ar_gammon_price = no_price;
  bgv = 0;
}

-- The test that both functions begin with.
abbrev pub bad_cube : ℤ → ℤ → ℤ → Bool
bad_cube n_cube f_cube_owner f_move =
    ltb_ℤ n_cube (pos 1)
    || ltb_ℤ f_cube_owner (negsuc 0)
    || ltb_ℤ (pos 1) f_cube_owner
    || ltb_ℤ f_move (pos 0)
    || ltb_ℤ (pos 1) f_move

unfoldable pub set_cube_info_money : ℤ → ℤ → ℤ → ℤ → ℤ → ℕ → CubeInfo × ℤ
set_cube_info_money n_cube f_cube_owner f_move f_jacoby f_beavers bgv =
    if bad_cube n_cube f_cube_owner f_move then (cleared, negsuc 0) else (
      record {
        n_cube = n_cube;
        f_cube_owner = f_cube_owner;
        f_move = f_move;
        n_match_to = pos 0;
        an_score = record { p0 = pos 0; p1 = pos 0 };
        f_crawford = pos 0;
        f_jacoby = f_jacoby;
        f_beavers = f_beavers;
        ar_gammon_price =
            if truthy f_jacoby && eq_ℤ f_cube_owner (negsuc 0) then no_price else whole_price;
        bgv = bgv;
      },
      pos 0,
    )

-- The prices at a score: `away0` and `away1` are the points that the players still need, less one.
unfoldable pub match_prices : ℤ → ℤ → ℤ → ℤ → GammonPrices
match_prices n_cube away0 away1 f_crawford =
    let level = log_cube (pos_part n_cube) in
    let n_cube_index = if ltb level (max_cube_level - 1) then level else max_cube_level - 1 in
    if (not (truthy away0) || not (truthy away1)) && not (truthy f_crawford)
    then if not (truthy away0)
      then post_crawford_price n_cube_index away1 0
      else post_crawford_price n_cube_index away0 1
    else match_price n_cube_index away0 away1

unfoldable pub set_cube_info_match : ℤ → ℤ → ℤ → ℤ → Two ℤ → ℤ → ℕ → CubeInfo × ℤ
set_cube_info_match n_cube f_cube_owner f_move n_match_to an_score f_crawford bgv =
    if bad_cube n_cube f_cube_owner f_move
      || ltb_ℤ n_match_to (pos 1)
      || not (ltb_ℤ an_score.p0 n_match_to)
      || not (ltb_ℤ an_score.p1 n_match_to)
    then (cleared, negsuc 0)
    else (
      record {
        n_cube = n_cube;
        f_cube_owner = f_cube_owner;
        f_move = f_move;
        n_match_to = n_match_to;
        an_score = an_score;
        f_crawford = f_crawford;
        f_jacoby = pos 0;
        f_beavers = pos 0;
        ar_gammon_price =
            match_prices n_cube (n_match_to -ℤ an_score.p0 -ℤ pos 1)
              (n_match_to -ℤ an_score.p1 -ℤ pos 1) f_crawford;
        bgv = bgv;
      },
      pos 0,
    )

unfoldable pub set_cube_info : ℤ → ℤ → ℤ → ℤ → Two ℤ → ℤ → ℤ → ℤ → ℕ → CubeInfo × ℤ
set_cube_info n_cube f_cube_owner f_move n_match_to an_score f_crawford f_jacoby f_beavers bgv =
    if truthy n_match_to
    then set_cube_info_match n_cube f_cube_owner f_move n_match_to an_score f_crawford bgv
    else set_cube_info_money n_cube f_cube_owner f_move f_jacoby f_beavers bgv
