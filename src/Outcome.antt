-- ===== src/Outcome.antt =====
-- Whether a game is over and what it counts, engine-core/eval.c `ClassifyPosition`, `EvalOver`,
-- `GameStatus`, and engine-core/bearoff.c `isBearoff`. `EvalOver` writes the floats 0 and 1, and
-- `GameStatus` tests them against 0: they are numbers here.
pub mod Status
use gnubg_android.Base.{
  ℕ, zero, suc, ◌+◌, ◌-◌, ◌^◌, Bool, true, false, not, ◌&&◌, ◌||◌, Option, none, some, List, [],
  ◌∷◌, ltb, leb, ◌==◌, if◌then◌else◌, get_or,
}
use gnubg_android.Base.Int.{ℤ, pos, negsuc, is_neg, pos_part}
use gnubg_android.Base.Two.{Two}
use gnubg_android.Board.{TanBoard, point, u32, back_from}

-- `bgvariation`.
pub data Variation : Type 0 where
  standard : Variation
  nackgammon : Variation
  hypergammon_1 : Variation
  hypergammon_2 : Variation
  hypergammon_3 : Variation

abbrev pub an_chequers : Variation → ℕ
an_chequers standard = 15
an_chequers nackgammon = 15
an_chequers hypergammon_1 = 1
an_chequers hypergammon_2 = 2
an_chequers hypergammon_3 = 3

-- The fields of `bearoffcontext` that `isBearoff` reads; `hypergammon` is its type.
pub record BearoffContext : Type 0 where
  pub hypergammon : Bool
  pub n_points : ℕ
  pub n_chequers : ℕ

-- The sum of the points from `n` down, as an `unsigned int`.
unfoldable pub sum_to : List ℕ → ℕ → ℕ
sum_to row zero = 0
sum_to row (suc n) = u32 (sum_to row n + point row n)

unfoldable pub is_bearoff : Option BearoffContext → TanBoard → Bool
is_bearoff none b = false
is_bearoff (some pbc) b =
    let opp_back = back_from b.p0 24 in
    let back = back_from b.p1 24 in
    if point b.p0 opp_back == 0 || point b.p1 back == 0
    then false
    else if ltb 22 (back + opp_back) && not pbc.hypergammon
    then false
    else leb (sum_to b.p1 (suc back)) pbc.n_chequers
      && (leb (sum_to b.p0 (suc opp_back)) pbc.n_chequers
          && (ltb back pbc.n_points && ltb opp_back pbc.n_points))

pub data PositionClass : Type 0 where
  over : PositionClass
  hypergammon_class_1 : PositionClass
  hypergammon_class_2 : PositionClass
  hypergammon_class_3 : PositionClass
  bearoff_2 : PositionClass
  bearoff_ts : PositionClass
  bearoff_1 : PositionClass
  bearoff_os : PositionClass
  race : PositionClass
  crashed : PositionClass
  contact : PositionClass

-- The four databases, each of which may not be loaded.
pub record Databases : Type 0 where
  pub pbc_2 : Option BearoffContext
  pub pbc_ts : Option BearoffContext
  pub pbc_1 : Option BearoffContext
  pub pbc_os : Option BearoffContext

-- The highest of the first `n` points with a chequer, or -1.
unfoldable pub last_of : List ℕ → ℕ → ℤ
last_of row zero = negsuc 0
last_of row (suc n) = let below = last_of row n in if ltb 0 (point row n) then pos n else below

-- A side that has few chequers but those on its two lowest points.
unfoldable pub side_crashed : List ℕ → Bool
side_crashed row =
    let tot = sum_to row 25 in
    if leb tot 6
    then true
    else if ltb 1 (point row 0)
    then leb tot (u32 (6 + point row 0))
      || (leb (u32 (1 + tot + 2 ^ 32 - u32 (point row 0 + point row 1))) 6 && ltb 1 (point row 1))
    else leb tot (u32 (6 + u32 (point row 1 + 2 ^ 32 - 1)))

-- The classes of normal backgammon, with and without contact.
unfoldable pub normal_class : Databases → TanBoard → Bool → PositionClass
normal_class dbs b touching =
    if touching
    then if side_crashed b.p0 || side_crashed b.p1 then crashed else contact
    else if is_bearoff dbs.pbc_2 b
    then bearoff_2
    else if is_bearoff dbs.pbc_ts b
    then bearoff_ts
    else if is_bearoff dbs.pbc_1 b
    then bearoff_1
    else if is_bearoff dbs.pbc_os b
    then bearoff_os
    else race

-- `switch (bgv)`.
unfoldable pub class_of : Databases → TanBoard → Bool → Variation → PositionClass
class_of dbs b touching standard = normal_class dbs b touching
class_of dbs b touching nackgammon = normal_class dbs b touching
class_of dbs b touching hypergammon_1 = hypergammon_class_1
class_of dbs b touching hypergammon_2 = hypergammon_class_2
class_of dbs b touching hypergammon_3 = hypergammon_class_3

unfoldable pub classify_position : Databases → TanBoard → Variation → PositionClass
classify_position dbs b bgv =
    let opp_back = last_of b.p0 25 in
    let back = last_of b.p1 25 in
    if is_neg back || is_neg opp_back
    then over
    else class_of dbs b (ltb 22 (pos_part back + pos_part opp_back)) bgv

-- `arOutput`.
pub record Outputs : Type 0 where
  pub win : ℕ
  pub win_gammon : ℕ
  pub win_backgammon : ℕ
  pub lose_gammon : ℕ
  pub lose_backgammon : ℕ

-- `n` points from point `i` on are empty.
unfoldable pub empty_from : List ℕ → ℕ → ℕ → Bool
empty_from row zero i = true
empty_from row (suc n) i = if ltb 0 (point row i) then false else empty_from row n (i + 1)

unfoldable pub eval_over : TanBoard → Outputs → Variation → Outputs
eval_over b ar bgv =
    let home_free0 = empty_from b.p0 7 18 in
    let home_free1 = empty_from b.p1 7 18 in
    if empty_from b.p0 25 0
    then (let lost = record ar { win = 0; win_gammon = 0; win_backgammon = 0 } in
        if sum_to b.p1 25 == an_chequers bgv
        then record lost { lose_gammon = 1; lose_backgammon = if home_free1 then 0 else 1 }
        else record lost { lose_gammon = 0; lose_backgammon = 0 })
    else if empty_from b.p1 25 0
    then (let won = record ar { win = 1; lose_gammon = 0; lose_backgammon = 0 } in
        if sum_to b.p0 25 == an_chequers bgv
        then record won { win_gammon = 1; win_backgammon = if home_free0 then 0 else 1 }
        else record won { win_gammon = 0; win_backgammon = 0 })
    else ar

abbrev pub no_outputs : Outputs
no_outputs = record {
  win = 0;
  win_gammon = 0;
  win_backgammon = 0;
  lose_gammon = 0;
  lose_backgammon = 0;
}

abbrev pub is_over : PositionClass → Bool
is_over over = true
is_over _ = false

unfoldable pub game_status : Databases → TanBoard → Variation → ℕ
game_status dbs b bgv =
    let ar = eval_over b no_outputs bgv in
    if not (is_over (classify_position dbs b bgv))
    then 0
    else if ltb 0 ar.win_backgammon || ltb 0 ar.lose_backgammon
    then 3
    else if ltb 0 ar.win_gammon || ltb 0 ar.lose_gammon
    then 2
    else 1
