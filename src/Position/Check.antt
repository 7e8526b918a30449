-- ===== src/Position/Check.antt =====
-- Whether a position is legal, engine-core/positionid.c `CheckPosition`, and the nearest one that is,
-- `ClosestLegalPosition`. `errno`, which `CheckPosition` sets when it returns 0, is left out.
use gnubg_android.Base.{
  ℕ, zero, suc, ◌+◌, ◌-◌, ◌^◌, ◌≤◌, ◌<◌, ◌≡◌, lt→ltb, le→not_ltb, subst, refl, sym, ◌∙◌, Bool, true,
  false, ◌&&◌, ◌||◌, ◌⊎◌, inl, inr, ◌↔◌, List, [], ◌∷◌, ltb, leb, ◌==◌, if◌then◌else◌, set, length,
  dec_lt, ℕ_discrete, arith,
}
use gnubg_android.Board.{TanBoard, point, u32}
use gnubg_android.Board.Sums.{total}
use gnubg_android.Board.Legal.{IsLegal, Apart}

-- The running sums of both rows, in step, and whether one passes 15.
unfoldable pub over_fifteen : List ℕ → List ℕ → ℕ → ℕ → Bool
over_fifteen [] row1 ac0 ac1 = false
over_fifteen (x ∷ row0) [] ac0 ac1 = false
over_fifteen (x ∷ row0) (y ∷ row1) ac0 ac1 =
    let n0 = u32 (ac0 + x) in
    let n1 = u32 (ac1 + y) in ltb 15 n0 || (ltb 15 n1 || over_fifteen row0 row1 n0 n1)

-- Whether chequers of both players stand on one of the first `n` points of player 0.
unfoldable pub shared_point : TanBoard → ℕ → Bool
shared_point b zero = false
shared_point b (suc n) = (ltb 0 (point b.p0 n) && ltb 0 (point b.p1 (23 - n))) || shared_point b n

-- Whether a player has fewer than two chequers on one of the first `n` points.
unfoldable pub open_point : TanBoard → ℕ → Bool
open_point b zero = false
open_point b (suc n) = (ltb (point b.p0 n) 2 || ltb (point b.p1 n) 2) || open_point b n

unfoldable pub check_position : TanBoard → Bool
check_position b =
    if over_fifteen b.p0 b.p1 0 0
    then false
    else if shared_point b 24
    then false
    else if open_point b 6
    then true
    else point b.p0 24 == 0 || point b.p1 24 == 0

-- At most `ac` chequers in a row: the points past that are cut.
unfoldable pub limit_row : ℕ → List ℕ → List ℕ
limit_row ac [] = []
limit_row ac (x ∷ row) =
    (if leb x ac then x else ac) ∷ limit_row (if leb x ac then ac - x else 0) row

-- Where player 0 has a chequer on one of the first `n` points, player 1 has none.
unfoldable pub clear_shared : List ℕ → ℕ → List ℕ → List ℕ
clear_shared row0 zero row1 = row1
clear_shared row0 (suc n) row1 =
    clear_shared row0 n (if ltb 0 (point row0 n) then set row1 (23 - n) 0 else row1)

unfoldable pub closest_legal_position : TanBoard → TanBoard
closest_legal_position b =
    let row0 = limit_row 15 b.p0 in
    let row1 = clear_shared row0 24 (limit_row 15 b.p1) in
    let limited : TanBoard = record { p0 = row0; p1 = row1 } in
    if open_point limited 6
    then limited
    else if ltb 0 (point row0 24)
    then record limited { p1 = set row1 24 0 }
    else limited

-- Rows of 25 points, none so full that adding it to 15 would wrap.
abbrev pub Small : List ℕ → Type 0
Small [] = Unit {0}
Small (x ∷ row) = (x < 2 ^ 32 - 15) × Small row

pub record Sized (b : TanBoard) : Type 0 where
  pub row0 : length b.p0 ≡ 25
  pub row1 : length b.p1 ≡ 25
  pub small0 : Small b.p0
  pub small1 : Small b.p1

-- On one of the first `n` points of its own side a player has fewer than two chequers.
abbrev pub OpenBelow : TanBoard → ℕ → Type 0
OpenBelow b n = (i : ℕ) × (i < n) × ((point b.p0 i < 2) ⊎ (point b.p1 i < 2))

-- It is not the case that both home boards are closed with chequers of both players on the bar: one
-- of the six points of a home board is open, or one of the bars is empty.
abbrev pub SomeoneMoves : TanBoard → Type 0
SomeoneMoves b = OpenBelow b 6 ⊎ ((point b.p0 24 ≡ 0) ⊎ (point b.p1 24 ≡ 0))

open_point-OpenBelow : (b : TanBoard) (n : ℕ) → open_point b n ≡ true → OpenBelow b n
unfolding open_point
open_point-OpenBelow b zero h = absurd (cc)
open_point-OpenBelow b (suc n) h = elim (dec_lt (point b.p0 n) 2) [
  | yes few ↦ (n, omega arith, inl few)
  | no many0 ↦ elim (dec_lt (point b.p1 n) 2) [
    | yes few ↦ (n, omega arith, inr few)
    | no many1 ↦ let (i, l, few) = open_point-OpenBelow b n (ground arith) in (i, omega arith, few)
  ]
]

OpenBelow-open_point :
    (b : TanBoard) (n i : ℕ)
    → i < n
    → (point b.p0 i < 2) ⊎ (point b.p1 i < 2)
    → open_point b n ≡ true
unfolding open_point
OpenBelow-open_point b zero i l few = absurd (omega arith)
OpenBelow-open_point b (suc n) i l few = elim (ℕ_discrete i n) [
  | yes e ↦ let few' = subst (λ k. (point b.p0 k < 2) ⊎ (point b.p1 k < 2)) e few in ground arith
  | no ne ↦ let before = OpenBelow-open_point b n i (omega arith) few in ground arith
]

-- What the code's loop over the home boards finds.
pub open_point_iff : (b : TanBoard) (n : ℕ) → (open_point b n ≡ true) ↔ OpenBelow b n
open_point_iff b n = (open_point-OpenBelow b n, λ o. OpenBelow-open_point b n o.0 o.1 o.2)

over_fifteen-total :
    (r0 r1 : List ℕ) (a0 a1 : ℕ)
    → length r0 ≡ length r1
    → Small r0
    → Small r1
    → a0 ≤ 15
    → a1 ≤ 15
    → (over_fifteen r0 r1 a0 a1 ≡ false) ↔ ((a0 + total r0 ≤ 15) × (a1 + total r1 ≤ 15))
unfolding over_fifteen
over_fifteen-total [] [] a0 a1 e s t h k = (λ _. omega arith, λ _. refl)
over_fifteen-total [] (y ∷ r1) a0 a1 e s t h k = absurd (omega arith)
over_fifteen-total (x ∷ r0) [] a0 a1 e s t h k = absurd (omega arith)
over_fifteen-total (x ∷ r0) (y ∷ r1) a0 a1 e s t h k = elim (dec_lt 15 (a0 + x)) [
  | yes big ↦ rw (e0, lt→ltb 15 (a0 + x) big) (λ p. absurd (cc), λ q. absurd (omega arith))
  | no small ↦ elim (dec_lt 15 (a1 + y)) [
    | yes big ↦
        rw (e0, e1, le→not_ltb 15 (a0 + x) (omega arith), lt→ltb 15 (a1 + y) big)
          (λ p. absurd (cc), λ q. absurd (omega arith))
    | no few ↦
        let (to, from) =
          over_fifteen-total r0 r1 (a0 + x) (a1 + y) (omega arith) s.1 t.1 (omega arith)
            (omega arith) in
        rw (e0, e1, le→not_ltb 15 (a0 + x) (omega arith), le→not_ltb 15 (a1 + y) (omega arith))
          (λ p. let q = to p in (omega arith, omega arith), λ q. from (omega arith, omega arith))
  ]
]
  where
    e0 : u32 (a0 + x) ≡ a0 + x
    e0 = omega arith

    e1 : u32 (a1 + y) ≡ a1 + y
    e1 = omega arith

-- The first `n` points of player 0 are apart from player 1's.
abbrev pub ApartBelow : TanBoard → ℕ → Type 0
ApartBelow b n = (i : ℕ) → i < n → (point b.p0 i ≡ 0) ⊎ (point b.p1 (23 - i) ≡ 0)

shared_point_apart : (b : TanBoard) (n : ℕ) → shared_point b n ≡ false → ApartBelow b n
unfolding shared_point
shared_point_apart b zero h i l = elim l [ ]
shared_point_apart b (suc n) h i l = elim (ℕ_discrete i n) [
  | yes e ↦ rw e (ground arith)
  | no ne ↦ shared_point_apart b n (ground arith) i (omega arith)
]

apart_shared_point : (b : TanBoard) (n : ℕ) → ApartBelow b n → shared_point b n ≡ false
unfolding shared_point
apart_shared_point b zero h = refl
apart_shared_point b (suc n) h =
    ground (arith, h n (omega arith), apart_shared_point b n (λ i l. h i (omega arith)))

pub Apart-flip : (b : TanBoard) → ApartBelow b 24 → Apart b
Apart-flip b h i l =
    let back : 23 - (23 - i) ≡ i = omega arith in
    subst (λ k. (point b.p0 (23 - i) ≡ 0) ⊎ (point b.p1 k ≡ 0)) back (h (23 - i) (omega arith))

pub Apart-below : (b : TanBoard) → Apart b → ApartBelow b 24
Apart-below b h i l =
    let back : 23 - (23 - i) ≡ i = omega arith in
    subst (λ k. (point b.p0 k ≡ 0) ⊎ (point b.p1 (23 - i) ≡ 0)) back (h (23 - i) (omega arith))

module _ (b : TanBoard) (z : Sized b) where
  totals : (over_fifteen b.p0 b.p1 0 0 ≡ false) ↔ ((0 + total b.p0 ≤ 15) × (0 + total b.p1 ≤ 15))
  totals =
      over_fifteen-total b.p0 b.p1 0 0 (z.row0 ∙ sym z.row1) z.small0 z.small1 (omega arith)
        (omega arith)

  -- The code's own tests.
  abbrev Passes : Type 0
  Passes = (open_point b 6 ≡ true) ⊎ ((point b.p0 24 ≡ 0) ⊎ (point b.p1 24 ≡ 0))

  Passes_iff : Passes ↔ SomeoneMoves b
  Passes_iff = (to, from)
    where
      to : Passes → SomeoneMoves b
      to (inl way) = inl ((open_point_iff b 6).0 way)
      to (inr bar) = inr bar

      from : SomeoneMoves b → Passes
      from (inl way) = inl ((open_point_iff b 6).1 way)
      from (inr bar) = inr bar

  check_position_parts :
      (check_position b ≡ true)
      ↔ ((over_fifteen b.p0 b.p1 0 0 ≡ false) × (shared_point b 24 ≡ false) × Passes)
  unfolding check_position
  check_position_parts = (λ h. ground arith, λ h. ground arith)

  -- `CheckPosition` accepts a board of 25 points a side, whose entries do not overflow its sums,
  -- exactly when each side has at most 15 chequers, no point holds chequers of both, and it is not the
  -- case that both home boards are closed, with two chequers or more on each of their six points, and
  -- chequers of both players are on the bar.
  pub check_position_iff : (check_position b ≡ true) ↔ (IsLegal b × SomeoneMoves b)
  check_position_iff = (to, from)
    where
      to : check_position b ≡ true → IsLegal b × SomeoneMoves b
      to h =
          let (few, apart, moves) = check_position_parts.0 h in
          let t = totals.0 few in
          (
            record {
              row0 = z.row0;
              row1 = z.row1;
              few0 = omega arith;
              few1 = omega arith;
              apart = Apart-flip b (shared_point_apart b 24 apart);
            },
            Passes_iff.0 moves,
          )

      from : IsLegal b × SomeoneMoves b → check_position b ≡ true
      from (v, moves) = check_position_parts.1 (
        totals.1 (omega (arith, v.few0, v.few1), omega (arith, v.few0, v.few1)),
        apart_shared_point b 24 (Apart-below b v.apart),
        Passes_iff.1 moves,
      )
