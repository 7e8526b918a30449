-- ===== src/Game/PlayMove.antt =====
-- `PlayMove` of engine-core/play.c, which records are replayed with, against `ApplyMove` of
-- engine-core/eval.c, which checks a move.
use gnubg_android.Base.{
  ℕ, zero, suc, ◌+◌, ◌-◌, ◌≤◌, ◌<◌, ◌≡◌, ◌≢◌, refl, sym, ◌∙◌, ap, ap₂, Bool, Bool-cases, true,
  false, not, ◌&&◌, inl, inr, List, [], ◌∷◌, le→leb, ◌==◌, if◌then◌else◌, set, set_same, dec_lt,
  ℕ_discrete, arith,
}
use gnubg_android.Base.Int.{
  ℤ, pos, negsuc, ◌-ℤ◌, int_laws, eq_of_parts, -ℤ_parts, is_neg, pos_part, neg_part, eq_ℤ,
}
use gnubg_android.Board.{TanBoard, point, u32, swap_sides, land, lift, apply_sub_move, apply_move}
use gnubg_android.Board.Sums.{point-le-total}
use gnubg_android.Board.Legal.{IsLegal, land_free, land_hit, land_blocked}
use gnubg_android.Board.SubMove.{
  apply_sub_move_ok, ok_lift, lift_off, lift_on, lifted, lifted-IsLegal,
}
use gnubg_android.Board.Play.{apply_move_nil, step_goes, step_fails}
use gnubg_android.Game.{MatchState, play_pair, play_pairs, play_move, lnot}

set_comm : (xs : List ℕ) (i j v w : ℕ) → i ≢ j → set (set xs i v) j w ≡ set (set xs j w) i v
set_comm [] i j v w h = refl
set_comm (x ∷ xs) zero zero v w h = absurd (h refl)
set_comm (x ∷ xs) zero (suc j) v w h = refl
set_comm (x ∷ xs) (suc i) zero v w h = refl
set_comm (x ∷ xs) (suc i) (suc j) v w h = ap (λ r. x ∷ r) (set_comm xs i j v w (λ e. h (ap suc e)))

-- A chequer leaves the board, or lands on a point.
play_off :
    (b : TanBoard) (s : ℕ) (dest : ℤ)
    → 1 ≤ point b.p1 s
    → is_neg dest ≡ true
    → play_pair b s dest ≡ record b { p1 = set b.p1 s (point b.p1 s - 1) }
unfolding play_pair
play_off b s dest busy off = let c : (point b.p1 s == 0) ≡ false = ground arith in rw (c, off) refl

play_on :
    (b : TanBoard) (s d : ℕ)
    → 1 ≤ point b.p1 s
    → d < 24
    → play_pair b s (pos d) ≡ record {
      p0 = set (set b.p0 24 (u32 (point b.p0 24 + point b.p0 (23 - d)))) (23 - d) 0;
      p1 = let row1 = set b.p1 s (point b.p1 s - 1) in set row1 d (u32 (point row1 d + 1));
    }
unfolding play_pair
play_on b s d busy h =
    let c : (point b.p1 s == 0) ≡ false = ground arith in rw (c, le→leb d 23 (omega arith)) refl

module _ (b : TanBoard) (s : ℕ) (v : IsLegal b) (l : s < 25) (busy : 1 ≤ point b.p1 s) (d : ℕ)
    (h : d < 24) (ok : (land (lifted b s v l busy) d).1 ≡ pos 0) where
  legal : IsLegal (lifted b s v l busy)
  legal = lifted-IsLegal b s v l busy

  few : (point b.p0 24 ≤ 15) × (point (lifted b s v l busy).p1 d ≤ 15)
  few =
      let x = point-le-total b.p0 24 in
      let y = point-le-total (lifted b s v l busy).p1 d in
      (omega (arith, v.few0), omega (arith, legal.few1))

  abbrev row1 : List ℕ
  row1 = (lifted b s v l busy).p1

  small : u32 (point row1 d + 1) ≡ point row1 d + 1
  small = omega (arith, few.1)

  -- Nothing is hit: the bar and the point keep their chequers.
  row0_free :
      point b.p0 (23 - d) ≡ 0
      → set (set b.p0 24 (u32 (point b.p0 24 + point b.p0 (23 - d)))) (23 - d) 0 ≡ b.p0
  row0_free z =
      let bar : u32 (point b.p0 24 + point b.p0 (23 - d)) ≡ point b.p0 24 = omega (arith, few.0) in
      ap (λ n. set (set b.p0 24 n) (23 - d) 0) bar
      ∙ (ap (λ r. set r (23 - d) 0)
            (set_same b.p0 24 (point b.p0 24) 0 (omega (arith, v.row0)) refl)
          ∙ set_same b.p0 (23 - d) 0 0 (omega (arith, v.row0)) z)

  free_same : point b.p0 (23 - d) ≡ 0 → play_pair b s (pos d) ≡ (land (lifted b s v l busy) d).0
  free_same z =
      play_on b s d busy h
      ∙ (ap₂ (λ (x y : List ℕ). record { p0 = x; p1 = y }) (row0_free z) (ap (set row1 d) small)
          ∙ ap (λ (p : TanBoard × ℤ). p.0)
              (sym (
                land_free (lifted b s v l busy) d legal.row0 legal.row1 h legal.few0 legal.few1
                  legal.apart z)))

  -- A blot is hit: it goes to the bar, and the mover had no chequer on its point.
  row0_hit :
      point b.p0 (23 - d) ≡ 1
      → set (set b.p0 24 (u32 (point b.p0 24 + point b.p0 (23 - d)))) (23 - d) 0
        ≡ set (set b.p0 (23 - d) 0) 24 (point b.p0 24 + 1)
  row0_hit z =
      let bar : u32 (point b.p0 24 + point b.p0 (23 - d)) ≡ point b.p0 24 + 1 =
        omega (arith, few.0) in
      ap (λ n. set (set b.p0 24 n) (23 - d) 0) bar
      ∙ set_comm b.p0 24 (23 - d) (point b.p0 24 + 1) 0 (λ e. absurd (omega arith))

  hit_same : point b.p0 (23 - d) ≡ 1 → play_pair b s (pos d) ≡ (land (lifted b s v l busy) d).0
  hit_same z =
      let vacant : point row1 d ≡ 0 = ground (arith, legal.apart d h) in
      let one : u32 (point row1 d + 1) ≡ 1 = omega arith in
      play_on b s d busy h
      ∙ (ap₂ (λ (x y : List ℕ). record { p0 = x; p1 = y }) (row0_hit z) (ap (set row1 d) one)
          ∙ ap (λ (p : TanBoard × ℤ). p.0)
              (sym (
                land_hit (lifted b s v l busy) d legal.row0 legal.row1 h legal.few0 legal.few1
                  legal.apart z)))

  land_same : play_pair b s (pos d) ≡ (land (lifted b s v l busy) d).0
  land_same = elim (dec_lt 1 (point b.p0 (23 - d))) [
    | yes held ↦ absurd (blocked held)
    | no weak ↦ elim (ℕ_discrete (point b.p0 (23 - d)) 0) [
      | yes none ↦ free_same none
      | no some ↦ hit_same (omega arith)
    ]
  ]
    where
      blocked : 1 < point b.p0 (23 - d) → ⊥
      blocked held =
          let e =
            land_blocked (lifted b s v l busy) d legal.row0 legal.row1 h legal.few0 legal.few1
              legal.apart held in
          absurd (ground arith)

sub_sub : (a b : ℤ) → a -ℤ (a -ℤ b) ≡ b
sub_sub a b = eq_of_parts (a -ℤ (a -ℤ b)) b (omega int_laws)

lift_same :
    (b : TanBoard) (s r : ℕ) (dest : ℤ)
    → IsLegal b
    → 0 < r
    → s < 25
    → 1 ≤ point b.p1 s
    → pos s -ℤ pos r ≡ dest
    → (lift b s dest).1 ≡ pos 0
    → play_pair b s dest ≡ (lift b s dest).0
lift_same b s r (negsuc k) v hr l busy e ok =
    play_off b s (negsuc k) busy refl
    ∙ ap (λ (p : TanBoard × ℤ). p.0) (sym (lift_off b s (negsuc k) refl))
lift_same b s r (pos d) v hr l busy e ok =
    let there : d + r ≡ s = reached in
    land_same b s v l busy d (omega arith)
      (ap (λ (p : TanBoard × ℤ). p.1) (sym (lift_on b s d)) ∙ ok)
    ∙ ap (λ (p : TanBoard × ℤ). p.0) (sym (lift_on b s d))
  where
    reached : d + r ≡ s
    reached =
        let parts = -ℤ_parts (pos s) (pos r) in
        let x : pos_part (pos s -ℤ pos r) ≡ d = ap pos_part e in
        let y : neg_part (pos s -ℤ pos r) ≡ 0 = ap neg_part e in omega arith

-- A sub-move of `ApplySubMove` on a legal board is a pair of `PlayMove`.
play_pair-apply_sub_move :
    (b : TanBoard) (src dest : ℤ) (check : Bool)
    → IsLegal b
    → (apply_sub_move b src (src -ℤ dest) check).1 ≡ pos 0
    → play_pair b (pos_part src) dest ≡ (apply_sub_move b src (src -ℤ dest) check).0
play_pair-apply_sub_move b src dest check v ok =
    let (s, r, es, er, hr, l, busy, e) = ok_lift b src (src -ℤ dest) check ok in
    let there : pos s -ℤ pos r ≡ dest = ap₂ (λ x y. x -ℤ y) (sym es) (sym er) ∙ sub_sub src dest in
    let lifts : apply_sub_move b src (src -ℤ dest) check ≡ lift b s dest =
      e ∙ ap (lift b s) there in
    ap (λ x. play_pair b (pos_part x) dest) es
    ∙ (lift_same b s r dest v hr l busy there (ap (λ (p : TanBoard × ℤ). p.1) (sym lifts) ∙ ok)
        ∙ ap (λ (p : TanBoard × ℤ). p.0) (sym lifts))

accepted_code :
    (b : TanBoard) (src n_roll : ℤ) (check : Bool)
    → is_neg (apply_sub_move b src n_roll check).1 ≡ false
    → (apply_sub_move b src n_roll check).1 ≡ pos 0
unfolding apply_sub_move lift land
accepted_code b src n_roll check h = ground arith

play_pairs_stop :
    (b : TanBoard) (src dest : ℤ) (xs : List (ℤ × ℤ))
    → is_neg src ≡ true
    → play_pairs b ((src, dest) ∷ xs) ≡ b
unfolding play_pairs
play_pairs_stop b src dest xs h = rw h refl

play_pairs_step :
    (b : TanBoard) (src dest : ℤ) (xs : List (ℤ × ℤ))
    → is_neg src ≡ false
    → play_pairs b ((src, dest) ∷ xs) ≡ play_pairs (play_pair b (pos_part src) dest) xs
unfolding play_pairs
play_pairs_step b src dest xs h = rw h refl

apply_move_stop :
    (b : TanBoard) (src dest : ℤ) (xs : List (ℤ × ℤ)) (check : Bool)
    → is_neg src ≡ true
    → apply_move b ((src, dest) ∷ xs) check ≡ (b, pos 0)
unfolding apply_move
apply_move_stop b src dest xs check h = rw h refl

play_pairs-apply_move :
    (xs : List (ℤ × ℤ)) (b b' : TanBoard) (check : Bool)
    → IsLegal b
    → apply_move b xs check ≡ (b', pos 0)
    → play_pairs b xs ≡ b'
unfolding play_pairs
play_pairs-apply_move [] b b' check v e =
    ap (λ (p : TanBoard × ℤ). p.0) (sym (apply_move_nil b check) ∙ e)
play_pairs-apply_move ((src, dest) ∷ xs) b b' check v e = elim (Bool-cases (is_neg src)) [
  | inl stop ↦
      play_pairs_stop b src dest xs stop
      ∙ ap (λ (p : TanBoard × ℤ). p.0) (sym (apply_move_stop b src dest xs check stop) ∙ e)
  | inr go ↦ elim (Bool-cases (is_neg (apply_sub_move b src (src -ℤ dest) check).1)) [
    | inl bad ↦ absurd (
        let no =
          ap (λ (p : TanBoard × ℤ). is_neg p.1) (sym (step_fails b src dest xs check go bad) ∙ e) in
        cc)
    | inr good ↦
        let ok = accepted_code b src (src -ℤ dest) check good in
        let (s, r, es, er, m) = apply_sub_move_ok b src (src -ℤ dest) check v ok in
        play_pairs_step b src dest xs go
        ∙ (ap (λ x. play_pairs x xs) (play_pair-apply_sub_move b src dest check v ok)
            ∙ play_pairs-apply_move xs (apply_sub_move b src (src -ℤ dest) check).0 b' check m.legal
                (sym (step_goes b src dest xs check go good) ∙ e))
  ]
]

-- A move that `ApplyMove` accepts on a legal board, with or without checking the dice, is played by
-- `PlayMove`, for the player on roll, to the same board seen from the other side, and the turn passes.
pub play_move-apply_move :
    (ms : MatchState) (an_move : List (ℤ × ℤ)) (b' : TanBoard) (check : Bool)
    → IsLegal ms.an_board
    → apply_move ms.an_board an_move check ≡ (b', pos 0)
    → play_move ms an_move ms.f_move
      ≡ record ms { an_board = swap_sides b'; f_move = lnot ms.f_move; f_turn = lnot ms.f_move }
unfolding play_move
play_move-apply_move ms an_move b' check v e =
    let turned : Bool = not (eq_ℤ ms.f_move (negsuc 0)) && not (eq_ℤ ms.f_move ms.f_move) in
    let keep : (if turned then swap_sides ms.an_board else ms.an_board) ≡ ms.an_board =
      ground arith in
    ap
      (λ (b : TanBoard). record ms {
        an_board = swap_sides b;
        f_move = lnot ms.f_move;
        f_turn = lnot ms.f_move;
      })
      (ap (λ (b : TanBoard). play_pairs b an_move) keep
        ∙ play_pairs-apply_move an_move ms.an_board b' check v e)
