-- ===== src/Outcome/Status.antt =====
-- What `GameStatus` of engine-core/eval.c returns.
use gnubg_android.Base.{
  ℕ, zero, suc, ◌+◌, ◌^◌, ◌≤◌, ◌<◌, ◌≡◌, ◌↔◌, refl, sym, ◌∙◌, ap, Bool, Bool-cases, false, ◌||◌,
  inl, inr, List, [], ◌∷◌, ◌==◌, if◌then◌else◌, length, drop, ℕ_discrete, arith,
}
use gnubg_android.Base.Int.{is_neg}
use gnubg_android.Board.{TanBoard, point}
use gnubg_android.Board.Sums.{total}
use gnubg_android.Outcome.{
  Variation, an_chequers, sum_to, Databases, last_of, is_over, normal_class, class_of, standard,
  nackgammon, hypergammon_1, hypergammon_2, hypergammon_3, classify_position, empty_from, eval_over,
  game_status,
}

-- The points below `n`.
below : List ℕ → ℕ → ℕ
below row zero = 0
below row (suc n) = below row n + point row n

below-cons : (x : ℕ) (row : List ℕ) (n : ℕ) → below (x ∷ row) (suc n) ≡ x + below row n
unfolding below
below-cons x row zero = omega arith
below-cons x row (suc n) = omega (arith, below-cons x row n)

below_nil : (n : ℕ) → below [] n ≡ 0
unfolding below
below_nil zero = refl
below_nil (suc n) = omega (arith, below_nil n)

below_all : (row : List ℕ) (n : ℕ) → length row ≤ n → below row n ≡ total row
below_all [] n h = below_nil n
below_all (x ∷ row) zero h = absurd (omega arith)
below_all (x ∷ row) (suc n) h = omega (arith, below-cons x row n, below_all row n (omega arith))

below_mono : (row : List ℕ) (n : ℕ) → below row n ≤ total row
unfolding below
below_mono [] n = omega (arith, below_nil n)
below_mono (x ∷ row) zero = omega arith
below_mono (x ∷ row) (suc n) = omega (arith, below-cons x row n, below_mono row n)

sum_to-below : (row : List ℕ) (n : ℕ) → total row < 2 ^ 32 → sum_to row n ≡ below row n
unfolding sum_to below
sum_to-below row zero h = refl
sum_to-below row (suc n) h =
    let e = sum_to-below row n h in
    let m : below row n + point row n ≤ total row = below_mono row (suc n) in omega arith

last_of-below : (row : List ℕ) (n : ℕ) → is_neg (last_of row n) ≡ (below row n == 0)
unfolding last_of below
last_of-below row zero = refl
last_of-below row (suc n) = ground (arith, last_of-below row n)

-- `n` points from `i` on.
between : List ℕ → ℕ → ℕ → ℕ
between row zero i = 0
between row (suc n) i = point row i + between row n (i + 1)

empty_from-between : (row : List ℕ) (n i : ℕ) → empty_from row n i ≡ (between row n i == 0)
unfolding empty_from between
empty_from-between row zero i = refl
empty_from-between row (suc n) i = ground (arith, empty_from-between row n (i + 1))

between-cons : (x : ℕ) (row : List ℕ) (n i : ℕ) → between (x ∷ row) n (suc i) ≡ between row n i
unfolding between
between-cons x row zero i = refl
between-cons x row (suc n) i =
    let shift : suc i + 1 ≡ suc (i + 1) = omega arith in
    ap (λ m. point row i + m) (ap (between (x ∷ row) n) shift ∙ between-cons x row n (i + 1))

between_nil : (n i : ℕ) → between [] n i ≡ 0
unfolding between
between_nil zero i = refl
between_nil (suc n) i = omega (arith, between_nil n (i + 1))

between_all : (row : List ℕ) (n : ℕ) → length row ≤ n → between row n 0 ≡ total row
unfolding between
between_all [] n h = between_nil n 0
between_all (x ∷ row) zero h = absurd (omega arith)
between_all (x ∷ row) (suc n) h =
    ap (λ m. x + m) (between-cons x row n 0 ∙ between_all row n (omega arith))

between-drop : (row : List ℕ) (n i : ℕ) → length row ≤ i + n → between row n i ≡ total (drop i row)
between-drop row n zero h = between_all row n (omega arith)
between-drop [] n (suc i) h = between_nil n (suc i)
between-drop (x ∷ row) n (suc i) h = between-cons x row n i ∙ between-drop row n i (omega arith)

-- What a game is worth to the winner: three when the loser has all chequers, one of them in the
-- winner's home board or on the bar, two when the loser has all chequers, else one.
abbrev pub worth : Variation → List ℕ → ℕ
worth bgv row =
    if total row == an_chequers bgv then if total (drop 18 row) == 0 then 2 else 3 else 1

worth_pos : (bgv : Variation) (row : List ℕ) → 0 < worth bgv row
worth_pos bgv row = ground arith

normal_goes :
    (dbs : Databases) (b : TanBoard) (touching : Bool)
    → is_over (normal_class dbs b touching) ≡ false
unfolding normal_class
normal_goes dbs b touching = ground arith

class_goes :
    (dbs : Databases) (b : TanBoard) (touching : Bool) (bgv : Variation)
    → is_over (class_of dbs b touching bgv) ≡ false
unfolding class_of
class_goes dbs b touching standard = normal_goes dbs b touching
class_goes dbs b touching nackgammon = normal_goes dbs b touching
class_goes dbs b touching hypergammon_1 = refl
class_goes dbs b touching hypergammon_2 = refl
class_goes dbs b touching hypergammon_3 = refl

module _ (dbs : Databases) (b : TanBoard) (bgv : Variation) (l0 : length b.p0 ≡ 25)
    (l1 : length b.p1 ≡ 25) (h0 : total b.p0 < 2 ^ 32) (h1 : total b.p1 < 2 ^ 32) where
  sum0 : sum_to b.p0 25 ≡ total b.p0
  sum0 = sum_to-below b.p0 25 h0 ∙ below_all b.p0 25 (omega arith)

  sum1 : sum_to b.p1 25 ≡ total b.p1
  sum1 = sum_to-below b.p1 25 h1 ∙ below_all b.p1 25 (omega arith)

  none0 : empty_from b.p0 25 0 ≡ (total b.p0 == 0)
  none0 = empty_from-between b.p0 25 0 ∙ ap (λ n. n == 0) (between_all b.p0 25 (omega arith))

  none1 : empty_from b.p1 25 0 ≡ (total b.p1 == 0)
  none1 = empty_from-between b.p1 25 0 ∙ ap (λ n. n == 0) (between_all b.p1 25 (omega arith))

  home0 : empty_from b.p0 7 18 ≡ (total (drop 18 b.p0) == 0)
  home0 = empty_from-between b.p0 7 18 ∙ ap (λ n. n == 0) (between-drop b.p0 7 18 (omega arith))

  home1 : empty_from b.p1 7 18 ≡ (total (drop 18 b.p1) == 0)
  home1 = empty_from-between b.p1 7 18 ∙ ap (λ n. n == 0) (between-drop b.p1 7 18 (omega arith))

  last0 : is_neg (last_of b.p0 25) ≡ (total b.p0 == 0)
  last0 = last_of-below b.p0 25 ∙ ap (λ n. n == 0) (below_all b.p0 25 (omega arith))

  last1 : is_neg (last_of b.p1 25) ≡ (total b.p1 == 0)
  last1 = last_of-below b.p1 25 ∙ ap (λ n. n == 0) (below_all b.p1 25 (omega arith))

  is_over-classify_position :
      is_over (classify_position dbs b bgv) ≡ (total b.p1 == 0 || total b.p0 == 0)
  unfolding classify_position
  is_over-classify_position =
      elim (Bool-cases (is_neg (last_of b.p1 25) || is_neg (last_of b.p0 25))) [
        | inl ended ↦ rw ended (rw (← last0, ← last1) (sym ended))
        | inr goes ↦ rw goes (rw (← last0, ← last1) (class_goes dbs b _ bgv ∙ sym goes))
      ]

  lost : total b.p0 ≡ 0 → game_status dbs b bgv ≡ worth bgv b.p1
  unfolding game_status eval_over
  lost e = rw (is_over-classify_position, none0, sum1, home1, e) (ground arith)

  won : 0 < total b.p0 → total b.p1 ≡ 0 → game_status dbs b bgv ≡ worth bgv b.p0
  unfolding game_status eval_over
  won h e = rw (is_over-classify_position, none0, none1, sum0, home0, e) (ground arith)

  goes : 0 < total b.p0 → 0 < total b.p1 → game_status dbs b bgv ≡ 0
  unfolding game_status
  goes h k =
      let c : (total b.p1 == 0 || total b.p0 == 0) ≡ false = ground arith in
      rw (is_over-classify_position, c) refl

  -- `GameStatus` on a board of 25 points a side whose sums do not overflow, whatever bearoff databases
  -- are loaded: 0 exactly when both players have chequers, and otherwise what the game is worth,
  -- three, two or one points, by the loser's chequers.
  pub game_status-worth :
      ((game_status dbs b bgv ≡ 0) ↔ ((0 < total b.p0) × (0 < total b.p1)))
      × (total b.p0 ≡ 0 → game_status dbs b bgv ≡ worth bgv b.p1)
      × (0 < total b.p0 → total b.p1 ≡ 0 → game_status dbs b bgv ≡ worth bgv b.p0)
  game_status-worth = ((playing, on), lost, won)
    where
      playing : game_status dbs b bgv ≡ 0 → (0 < total b.p0) × (0 < total b.p1)
      playing z = elim (ℕ_discrete (total b.p0) 0) [
        | yes e ↦ absurd (let w = worth_pos bgv b.p1 in let v = lost e in omega arith)
        | no ne ↦ elim (ℕ_discrete (total b.p1) 0) [
          | yes e ↦
              absurd (let w = worth_pos bgv b.p0 in let v = won (omega arith) e in omega arith)
          | no nf ↦ (omega arith, omega arith)
        ]
      ]

      on : (0 < total b.p0) × (0 < total b.p1) → game_status dbs b bgv ≡ 0
      on (h, k) = goes h k
