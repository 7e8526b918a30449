-- ===== src/Board/Sums.antt =====
-- Sums over the points of a row: the chequers of a player, and the pips, engine-core/eval.c
-- `PipCount`.
use gnubg_android.Base.{
  ℕ, zero, suc, ◌+◌, ◌*◌, ◌^◌, ◌≤◌, ◌<◌, ◌≡◌, ◌∙◌, ap, List, [], ◌∷◌, set, length, arith,
}
use gnubg_android.Board.{TanBoard, point, u32, pips_from, pip_count}

-- The chequers of a row.
abbrev pub total : List ℕ → ℕ
total [] = 0
total (n ∷ row) = n + total row

-- The pips of a row whose first point is at distance `k`.
abbrev pub pips : ℕ → List ℕ → ℕ
pips k [] = 0
pips k (n ∷ row) = n * (k + 1) + pips (k + 1) row

pub point-le-total : (row : List ℕ) (i : ℕ) → point row i ≤ total row
point-le-total [] i = omega arith
point-le-total (n ∷ row) zero = omega arith
point-le-total (n ∷ row) (suc i) = omega (arith, point-le-total row i)

pub total-set :
    (row : List ℕ) (i v : ℕ) → i < length row → total (set row i v) + point row i ≡ total row + v
total-set [] i v h = elim h [ ]
total-set (n ∷ row) zero v h = omega arith
total-set (n ∷ row) (suc i) v h = omega (arith, total-set row i v (omega arith))

pub pips-set :
    (k : ℕ) (row : List ℕ) (i v : ℕ)
    → i < length row
    → pips k (set row i v) + point row i * (k + i + 1) ≡ pips k row + v * (k + i + 1)
pips-set k [] i v h = elim h [ ]
pips-set k (n ∷ row) zero v h = grind arith
pips-set k (n ∷ row) (suc i) v h = omega (arith, pips-set (k + 1) row i v (omega arith))

-- The same where the old value is known.
pub pips-set_of :
    (row : List ℕ) (i u v : ℕ)
    → i < length row
    → point row i ≡ u
    → pips 0 (set row i v) + u * (i + 1) ≡ pips 0 row + v * (i + 1)
pips-set_of row i u v h e = rw (← e) (
    ap (λ k. pips 0 (set row i v) + point row i * k) (omega arith)
    ∙ pips-set 0 row i v h
    ∙ ap (λ k. pips 0 row + v * k) (omega arith))

-- One chequer less.
pub pips_drop :
    (row : List ℕ) (i k : ℕ)
    → i < length row
    → point row i ≡ k + 1
    → pips 0 (set row i k) + (i + 1) ≡ pips 0 row
pips_drop row i k h e = omega (arith, pips-set_of row i (k + 1) k h e)

pub pips-le : (k n : ℕ) (row : List ℕ) → length row + k ≤ n → pips k row ≤ total row * n
pips-le k n [] h = omega arith
pips-le k n (m ∷ row) h = grind (arith, pips-le (k + 1) n row (omega arith))

pips_from-eq-pips :
    (i : ℕ) (row : List ℕ) (acc : ℕ)
    → acc + pips i row < 2 ^ 32
    → pips_from i row acc ≡ acc + pips i row
unfolding pips_from
pips_from-eq-pips i [] acc h = omega arith
pips_from-eq-pips i (n ∷ row) acc h =
    let small : u32 (acc + n * (i + 1)) ≡ acc + n * (i + 1) = omega arith in
    rw small (pips_from-eq-pips (i + 1) row (acc + n * (i + 1)) (omega arith) ∙ omega arith)

-- Up to 15 chequers on 25 points count no more than 375 pips.
pub row_pips-eq-pips :
    (row : List ℕ) → length row ≡ 25 → total row ≤ 15 → pips_from 0 row 0 ≡ pips 0 row
row_pips-eq-pips row len few =
    let bound = pips-le 0 25 row (omega arith) in
    pips_from-eq-pips 0 row 0 (omega arith) ∙ omega arith

pub pip_count-eq-pips :
    (b : TanBoard)
    → length b.p0 ≡ 25
    → length b.p1 ≡ 25
    → total b.p0 ≤ 15
    → total b.p1 ≤ 15
    → ((pip_count b).p0 ≡ pips 0 b.p0) × ((pip_count b).p1 ≡ pips 0 b.p1)
unfolding pip_count
pip_count-eq-pips b l0 l1 t0 t1 = (row_pips-eq-pips b.p0 l0 t0, row_pips-eq-pips b.p1 l1 t1)
