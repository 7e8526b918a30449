-- ===== src/MatchId/Accepted.antt =====
-- What `LogCube` and `MatchFromID` of engine-core/matchid.c return.
use native.Mathlib.Nat.{pow-suc}
use gnubg_android.Base.{
  ℕ, zero, suc, ◌+◌, ◌*◌, ◌/◌, ◌^◌, ◌≤◌, ◌<◌, ◌≡◌, ◌⊎◌, ◌↔◌, ℕ_discrete, false, List, ◌==◌, arith,
}
use gnubg_android.Base.Int.{pos, negsuc}
use gnubg_android.Game.{max_score}
use gnubg_android.MatchId.{log_from, log_cube, MatchInfo, match_code, match_from_key, match_from_id}

-- The fields agree with each other.
pub record Consistent (m : MatchInfo) : Type 0 where
  pub dice : (m.an_dice.p0 ≤ 6) × (m.an_dice.p1 ≤ 6)
  pub score : (m.n_match_to ≤ max_score)
  pub match_play :
      0 < m.n_match_to → (m.an_score.p0 ≤ m.n_match_to) × (m.an_score.p1 ≤ m.n_match_to)
  pub money : m.n_match_to ≡ 0 → m.f_crawford ≡ 0

accepted : (m : MatchInfo) → Consistent m → match_code m ≡ pos 0
unfolding match_code
accepted m c = elim (ℕ_discrete m.n_match_to 0) [
  | yes money ↦ ground (arith, c.dice, c.score, c.money money)
  | no play ↦ ground (arith, c.dice, c.score, c.match_play (omega arith))
]

match_code-Consistent : (m : MatchInfo) → match_code m ≡ pos 0 → Consistent m
unfolding match_code
match_code-Consistent m h = record {
  dice = (ground arith, ground arith);
  score = ground arith;
  match_play = λ k. (ground arith, ground arith);
  money = λ k. ground arith;
}

code_values : (m : MatchInfo) → (match_code m ≡ pos 0) ⊎ (match_code m ≡ negsuc 0)
unfolding match_code
code_values m = ground arith

-- `MatchFromID`, whatever the string, returns 0 or -1, and 0 exactly when the fields that it stored
-- agree: dice of at most 6, a match of at most `MAXSCORE` points, scores within the match, and no
-- Crawford game in money play.
pub match_from_id_outcome :
    (sz : List ℕ)
    → (((match_from_id sz).1 ≡ pos 0) ⊎ ((match_from_id sz).1 ≡ negsuc 0))
      × (((match_from_id sz).1 ≡ pos 0) ↔ Consistent (match_from_id sz).0)
unfolding match_from_id match_from_key
match_from_id_outcome sz =
    let m = (match_from_id sz).0 in (code_values m, (match_code-Consistent m, accepted m))

log_from_bounds :
    (fuel n i : ℕ)
    → 0 < n
    → n ≤ fuel
    → (l : ℕ) × (log_from fuel n i ≡ i + l) × (2 ^ l ≤ n) × (n < 2 ^ suc l)
unfolding log_from
log_from_bounds zero n i h k = absurd (omega arith)
log_from_bounds (suc fuel) n i h k = elim (ℕ_discrete (n / 2) 0) [
  | yes last ↦ (0, rw last (omega arith), omega arith, omega arith)
  | no more ↦
      let (l, e, low, high) = log_from_bounds fuel (n / 2) (i + 1) (omega arith) (omega arith) in
      let c : (n / 2 == 0) ≡ false = ground arith in
      let twice : 2 ^ suc l ≡ 2 ^ l * 2 = pow-suc 2 l in
      let thrice : 2 ^ suc (suc l) ≡ 2 ^ suc l * 2 = pow-suc 2 (suc l) in
      (suc l, rw c (omega arith), omega arith, omega arith)
]

-- `LogCube` of a positive number is its logarithm to the base 2, rounded down.
pub log_cube_bounds : (n : ℕ) → 0 < n → (2 ^ log_cube n ≤ n) × (n < 2 ^ suc (log_cube n))
unfolding log_cube
log_cube_bounds n h =
    let (l, e, low, high) = log_from_bounds n n 0 h (omega arith) in
    let z : log_from n n 0 ≡ l = omega arith in rw z (low, high)
