-- ===== src/Game/Cube.antt =====
-- The value of the cube over a game, engine-core/play.c `ApplyMoveRecord`, `CalculateBoard`.
use native.Mathlib.Nat.{pow-suc}
use gnubg_android.Base.{
  ℕ, zero, suc, ◌+◌, ◌*◌, ◌^◌, ◌≤◌, ◌<◌, ◌≡◌, refl, sym, ◌∙◌, ap, Bool, true, false, List, [], ◌∷◌,
  leb, if◌then◌else◌, not_leb→lt, dec_lt, arith,
}
use gnubg_android.Base.Order.{power_le}
use gnubg_android.Base.Int.{ℤ, pos, is_neg, eq_ℤ}
use gnubg_android.Outcome.{Databases}
use gnubg_android.Game.{
  MatchState, GameState, playing, over, resigned, drop, MoveRecord, game_info, normal, double,
  take_cube, drop_cube, resign, set_board, set_dice, set_cube_val, set_cube_pos, lnot, max_cube,
  some_mover, play_move, Replay, apply_game_over, end_game, apply_normal, apply_game_info,
  apply_double, apply_case, apply_move_record, pass_to, fix_match_state, fix_next, calculate_board,
}

abbrev pub IsPower : ℕ → Type 0
IsPower n = (k : ℕ) × (n ≡ 2 ^ k)

-- The cube is a power of two of at most twice `MAX_CUBE`, and at most `MAX_CUBE` while a double is
-- pending.
pub record CubeOk (ms : MatchState) : Type 0 where
  pub power : IsPower ms.n_cube
  pub most : ms.n_cube ≤ 2 * max_cube
  pub offered : ms.f_doubled ≡ true → ms.n_cube ≤ max_cube

-- A record sets the cube to a power of two of at most twice `MAX_CUBE`, if at all.
abbrev pub SetsCube : MoveRecord → Type 0
SetsCube (game_info g) = g.n_auto_doubles ≤ 13
SetsCube (set_cube_val n_cube) = IsPower n_cube × (n_cube ≤ 2 * max_cube)
SetsCube _ = Unit {0}

abbrev pub AllSetCube : List MoveRecord → Type 0
AllSetCube [] = Unit {0}
AllSetCube (pmr ∷ rest) = SetsCube pmr × AllSetCube rest

-- Enough of two states agrees.
CubeOk-same :
    (ms ms' : MatchState)
    → ms'.n_cube ≡ ms.n_cube
    → (ms'.f_doubled ≡ true → ms.f_doubled ≡ true)
    → CubeOk ms
    → CubeOk ms'
CubeOk-same ms ms' e d c = record {
  power = (c.power.0, e ∙ c.power.1);
  most = omega (arith, c.most);
  offered = λ h. let m = c.offered (d h) in omega arith;
}

end_game_cube :
    (gs : GameState) (w : ℤ) (p : ℕ) (r : Bool) (s : Replay)
    → ((end_game gs w p r s).ms.n_cube ≡ s.ms.n_cube)
      × ((end_game gs w p r s).ms.f_doubled ≡ s.ms.f_doubled)
unfolding end_game apply_game_over
end_game_cube gs w p r s = (ground arith, ground arith)

twice-IsPower : (n : ℕ) → IsPower n → IsPower (n * 2)
twice-IsPower n (k, e) = (suc k, ap (λ m. m * 2) e ∙ sym (pow-suc 2 k))

settled-CubeOk :
    (ms : MatchState) (n : ℕ)
    → IsPower n
    → n ≤ 2 * max_cube
    → CubeOk (record ms { n_cube = n; f_doubled = false })
settled-CubeOk ms n p h = record { power = p; most = h; offered = λ e. absurd (cc) }

-- A power of two below `MAX_CUBE` can be doubled.
half_max : (n : ℕ) → IsPower n → n < max_cube → n * 2 ≤ max_cube
half_max n (k, e) h = elim (dec_lt k 12) [
  | yes low ↦
      let up = power_le (suc k) 12 (omega arith) in
      let e' : n * 2 ≡ 2 ^ suc k = ap (λ m. m * 2) e ∙ sym (pow-suc 2 k) in omega arith
  | no high ↦ absurd (let up = power_le 12 k (omega arith) in omega arith)
]

end_game-CubeOk :
    (gs : GameState) (w : ℤ) (p : ℕ) (r : Bool) (s : Replay)
    → CubeOk s.ms
    → CubeOk (end_game gs w p r s).ms
end_game-CubeOk gs w p r s c =
    let (cube, doubled) = end_game_cube gs w p r s in
    CubeOk-same s.ms (end_game gs w p r s).ms cube (λ h. sym doubled ∙ h) c

if-CubeOk : (b : Bool) (s t : Replay) → CubeOk s.ms → CubeOk t.ms → CubeOk (if b then s else t).ms
if-CubeOk true s t c d = c
if-CubeOk false s t c d = d

if_ms-CubeOk : (b : Bool) (s t : MatchState) → CubeOk s → CubeOk t → CubeOk (if b then s else t)
if_ms-CubeOk true s t c d = c
if_ms-CubeOk false s t c d = d

normal-CubeOk :
    (dbs : Databases) (f_player : ℤ) (an_move : List (ℤ × ℤ)) (s : Replay)
    → CubeOk s.ms
    → CubeOk (apply_normal dbs f_player an_move s).ms
unfolding apply_normal play_move
normal-CubeOk dbs f_player an_move s c =
    let d : CubeOk (record s.ms { f_doubled = false }) =
      settled-CubeOk s.ms s.ms.n_cube c.power c.most in
    let m : CubeOk (record (play_move (record s.ms { f_doubled = false }) an_move f_player) {
      an_dice = record { p0 = 0; p1 = 0 };
    }) =
      record { power = d.power; most = d.most; offered = d.offered } in
    if-CubeOk _ _ _ m (end_game-CubeOk over f_player _ false _ m)

double-CubeOk : (f_player : ℤ) (ms : MatchState) → CubeOk ms → CubeOk (apply_double f_player ms)
unfolding apply_double
double-CubeOk f_player ms c = doubled (leb max_cube m.n_cube) refl m.f_doubled refl
  where
    m : MatchState
    m = if is_neg ms.f_move then record ms { f_move = f_player } else ms

    cm : CubeOk m
    cm =
        if_ms-CubeOk (is_neg ms.f_move) _ ms
          (record { power = c.power; most = c.most; offered = c.offered }) c

    doubled :
        (full : Bool)
        → leb max_cube m.n_cube ≡ full
        → (d : Bool) → m.f_doubled ≡ d
        → CubeOk (
            if full
            then m
            else if d
            then record m {
              c_beavers = m.c_beavers + 1;
              n_cube = m.n_cube * 2;
              f_cube_owner = lnot m.f_move;
              f_turn = lnot f_player;
            }
            else record m { f_doubled = true; f_turn = lnot f_player })
    doubled true e d f = cm
    doubled false e true f =
        let few = not_leb→lt max_cube m.n_cube e in
        record {
          power = twice-IsPower m.n_cube cm.power;
          most = omega arith;
          offered = λ h. half_max m.n_cube cm.power few;
        }
    doubled false e false f =
        let few = not_leb→lt max_cube m.n_cube e in
        record { power = cm.power; most = cm.most; offered = λ h. omega arith }

some_mover-CubeOk : (ms : MatchState) → CubeOk ms → CubeOk (some_mover ms)
some_mover-CubeOk ms c =
    if_ms-CubeOk (is_neg ms.f_move) _ ms
      (record { power = c.power; most = c.most; offered = c.offered }) c

taken-CubeOk :
    (d : Bool) (s : Replay)
    → s.ms.f_doubled ≡ d
    → CubeOk s.ms
    → CubeOk
        (if d
          then record s {
            ms = record s.ms {
              n_cube = s.ms.n_cube * 2;
              c_beavers = 0;
              f_doubled = false;
              f_cube_owner = lnot s.ms.f_move;
              f_turn = s.ms.f_move;
            };
          }
          else s).ms
taken-CubeOk true s e c =
    let few = c.offered e in
    record {
      power = twice-IsPower s.ms.n_cube c.power;
      most = omega arith;
      offered = λ h. absurd (cc);
    }
taken-CubeOk false s e c = c

apply_case-CubeOk :
    (dbs : Databases) (pmr : MoveRecord) (s : Replay)
    → SetsCube pmr
    → CubeOk s.ms
    → CubeOk (apply_case dbs pmr s).ms
unfolding apply_case apply_game_info
apply_case-CubeOk dbs (game_info g) s h c = record {
  power = (g.n_auto_doubles, refl);
  most = power_le g.n_auto_doubles 13 h;
  offered = λ e. absurd (cc);
}
apply_case-CubeOk dbs (normal f_player an_move) s h c = normal-CubeOk dbs f_player an_move s c
apply_case-CubeOk dbs (double f_player) s h c = double-CubeOk f_player s.ms c
apply_case-CubeOk dbs take_cube s h c = taken-CubeOk s.ms.f_doubled s refl c
apply_case-CubeOk dbs (drop_cube f_player) s h c =
    if-CubeOk s.ms.f_doubled _ s
      (end_game-CubeOk drop (lnot f_player) s.ms.n_cube false _
        (record { power = c.power; most = c.most; offered = λ e. absurd (cc) }))
      c
apply_case-CubeOk dbs (resign f_player n_resigned) s h c =
    end_game-CubeOk resigned (lnot f_player) (s.ms.n_cube * n_resigned) true _
      (record { power = c.power; most = c.most; offered = c.offered })
apply_case-CubeOk dbs (set_board key) s h c =
    let m =
      if_ms-CubeOk (is_neg s.ms.f_move) (record s.ms { f_turn = pos 0; f_move = pos 0 }) s.ms
        (record { power = c.power; most = c.most; offered = c.offered }) c in
    record { power = m.power; most = m.most; offered = m.offered }
apply_case-CubeOk dbs (set_dice f_player n0 n1) s h c = record {
  power = c.power;
  most = c.most;
  offered = λ e. absurd (cc);
}
apply_case-CubeOk dbs (set_cube_val n_cube) s h c = record {
  power = h.0;
  most = h.1;
  offered = λ e. absurd (cc);
}
apply_case-CubeOk dbs (set_cube_pos f_cube_owner) s h c =
    let m = some_mover-CubeOk s.ms c in
    record { power = m.power; most = m.most; offered = λ e. absurd (cc) }

pass_to-CubeOk : (f_player : ℤ) (ms : MatchState) → CubeOk ms → CubeOk (pass_to f_player ms)
unfolding pass_to
pass_to-CubeOk f_player ms c =
    if_ms-CubeOk (eq_ℤ ms.f_turn f_player) ms _ c
      (record { power = c.power; most = c.most; offered = c.offered })

fixed-CubeOk : (pmr : MoveRecord) (ms : MatchState) → CubeOk ms → CubeOk (fix_match_state pmr ms)
unfolding fix_match_state
fixed-CubeOk (normal f_player an_move) ms c = pass_to-CubeOk f_player ms c
fixed-CubeOk (double f_player) ms c = pass_to-CubeOk f_player ms c
fixed-CubeOk (game_info g) ms c = c
fixed-CubeOk take_cube ms c = c
fixed-CubeOk (drop_cube f_player) ms c = c
fixed-CubeOk (resign f_player n_resigned) ms c = c
fixed-CubeOk (set_board key) ms c = c
fixed-CubeOk (set_dice f_player n0 n1) ms c = c
fixed-CubeOk (set_cube_val n_cube) ms c = c
fixed-CubeOk (set_cube_pos f_cube_owner) ms c = c

fix_next-CubeOk : (rest : List MoveRecord) (s : Replay) → CubeOk s.ms → CubeOk (fix_next rest s).ms
unfolding fix_next
fix_next-CubeOk [] s c = c
fix_next-CubeOk (pmr ∷ rest) s c = fixed-CubeOk pmr s.ms c

-- Over any records of a game the cube stays a power of two of at most twice `MAX_CUBE`, and at most
-- `MAX_CUBE` while a double is pending, so that doubling it never overflows an int; a record that sets
-- the cube sets it to such a value.
pub calculate_board-CubeOk :
    (dbs : Databases) (last : ℕ) (records : List MoveRecord) (s : Replay)
    → AllSetCube records
    → CubeOk s.ms
    → CubeOk (calculate_board dbs last records s).ms
unfolding calculate_board apply_move_record
calculate_board-CubeOk dbs zero records s h c = c
calculate_board-CubeOk dbs (suc last) [] s h c = c
calculate_board-CubeOk dbs (suc last) (pmr ∷ rest) s h c =
    let started : Replay = record s {
      ms = record s.ms { gs = playing; f_resigned = 0; f_resignation_declined = 0 };
    } in
    let applied =
      apply_case-CubeOk dbs pmr started h.0
        (record { power = c.power; most = c.most; offered = c.offered }) in
    calculate_board-CubeOk dbs last rest (fix_next rest (apply_case dbs pmr started)) h.1
      (fix_next-CubeOk rest (apply_case dbs pmr started) applied)
