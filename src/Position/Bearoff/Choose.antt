-- ===== src/Position/Bearoff/Choose.antt =====
-- The table of combinations, engine-core/positionid.c `InitCombination`, `Combination`.
use native.Mathlib.Nat.{pow-succ'}
use gnubg_android.Base.{
  ℕ, zero, suc, ◌+◌, ◌-◌, ◌^◌, ◌≤◌, ◌<◌, ◌≡◌, refl, ◌∙◌, ap, List, [], ◌∷◌, get_or, length, arith,
}
use gnubg_android.Base.Order.{power_le}
use gnubg_android.Board.{u32}
use gnubg_android.Position.Encode.Unary.{get_or-replicate}
use gnubg_android.Position.Bearoff.{sums, table_row, combination}

-- The number of ways to choose `r` of `n`.
abbrev pub choose : ℕ → ℕ → ℕ
choose n zero = 1
choose zero (suc r) = 0
choose (suc n) (suc r) = choose n r + choose n (suc r)

-- Half of all subsets at most.
choose_le : (n r : ℕ) → choose (suc n) r ≤ 2 ^ n
choose_le n zero = power_le 0 n (omega arith)
choose_le zero (suc zero) = omega arith
choose_le zero (suc (suc r)) = omega arith
choose_le (suc n) (suc r) =
    let p = pow-succ' 2 n in omega (arith, choose_le n r, choose_le n (suc r))

choose_above : (n d : ℕ) → choose n (n + suc d) ≡ 0
choose_above zero d = let e : 0 + suc d ≡ suc d = omega arith in ap (choose zero) e
choose_above (suc n) d =
    let e : suc n + suc d ≡ suc (n + suc d) = omega arith in
    let f : suc (n + suc d) ≡ n + suc (suc d) = omega arith in
    ap (choose (suc n)) e
    ∙ omega (arith, choose_above n d, ap (choose n) f ∙ choose_above n (suc d))

pub choose_self : (n : ℕ) → choose n n ≡ 1
choose_self zero = refl
choose_self (suc n) =
    let e : suc n ≡ n + 1 = omega arith in
    omega (arith, choose_self n, ap (choose n) e ∙ choose_above n 0)

-- A bound that leaves room in 32 bits.
pub choose_small : (n r : ℕ) → n ≤ 31 → choose (suc n) r < 2 ^ 32
choose_small n r h = let p = power_le n 31 h in omega (arith, choose_le n r)

length-sums : (row : List ℕ) → length (sums row) ≡ length row - 1
unfolding sums
length-sums [] = refl
length-sums (a ∷ []) = refl
length-sums (a ∷ b ∷ row) = omega (arith, length-sums (b ∷ row))

get_or-sums :
    (row : List ℕ) (j : ℕ)
    → j + 1 < length row
    → get_or (sums row) j 0 ≡ u32 (get_or row j 0 + get_or row (suc j) 0)
unfolding sums
get_or-sums [] j h = absurd (omega arith)
get_or-sums (a ∷ []) j h = absurd (omega arith)
get_or-sums (a ∷ b ∷ row) zero h = refl
get_or-sums (a ∷ b ∷ row) (suc j) h = get_or-sums (b ∷ row) j (omega arith)

length-table_row : (i : ℕ) → length (table_row i) ≡ 25
unfolding table_row
length-table_row zero = refl
length-table_row (suc i) = omega (arith, length-sums (table_row i), length-table_row i)

choose_one : (n : ℕ) → choose n 1 ≡ n
choose_one zero = refl
choose_one (suc n) = omega (arith, choose_one n)

get_or-table_row : (i j : ℕ) → i ≤ 31 → j < 25 → get_or (table_row i) j 0 ≡ choose (suc i) (suc j)
unfolding table_row
get_or-table_row zero zero h k = refl
get_or-table_row zero (suc j) h k = get_or-replicate {A = ℕ} 24 j 0 0 ∙ ground arith
get_or-table_row (suc i) zero h k = omega (arith, choose_one (suc (suc i)))
get_or-table_row (suc i) (suc j) h k =
    let len = length-table_row i in
    let a = get_or-table_row i j (omega arith) (omega arith) in
    let b = get_or-table_row i (suc j) (omega arith) k in
    let few = choose_small (suc i) (suc (suc j)) h in
    get_or-sums (table_row i) j (omega arith) ∙ omega arith

-- Within the table, and where the number fits in 32 bits, an entry is the number of choices.
pub combination-choose : (n r : ℕ) → 0 < n → 0 < r → n ≤ 32 → r ≤ 25 → combination n r ≡ choose n r
unfolding combination
combination-choose zero r a b h k = absurd (omega arith)
combination-choose (suc n) zero a b h k = absurd (omega arith)
combination-choose (suc n) (suc r) a b h k =
    let n' : suc n - 1 ≡ n = omega arith in
    let r' : suc r - 1 ≡ r = omega arith in
    rw (n', r') (get_or-table_row n r (omega arith) (omega arith))

pub choose-suc : (n r : ℕ) → 0 < r → choose (suc n) r ≡ choose n (r - 1) + choose n r
choose-suc n zero h = absurd (omega arith)
choose-suc n (suc r) h =
    let e : r ≡ suc r - 1 = omega arith in ap (λ k. choose n k + choose n (suc r)) e

pub choose_mono : (n r : ℕ) → choose n r ≤ choose (suc n) r
choose_mono n zero = omega arith
choose_mono n (suc r) = omega arith
