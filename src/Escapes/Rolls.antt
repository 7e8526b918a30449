-- ===== src/Escapes/Rolls.antt =====
-- The tables' loops count the 36 rolls, engine-core/eval.c `ComputeTable0`, `ComputeTable1`.
use gnubg_android.Base.{
  ℕ, zero, suc, ◌+◌, ◌*◌, ◌≤◌, ◌<◌, ◌≡◌, refl, ap, ap₂, Bool, true, ◌==◌, if◌then◌else◌, arith,
}
use gnubg_android.Escapes.{row_count, table_count}

-- How many numbers below `n` pass.
abbrev pub count : (ℕ → Bool) → ℕ → ℕ
count test zero = 0
count test (suc n) = count test n + (if test n then 1 else 0)

-- How many pairs of numbers below `n` and `m` pass.
abbrev pub pairs : (ℕ → ℕ → Bool) → ℕ → ℕ → ℕ
pairs test zero m = 0
pairs test (suc n) m = pairs test n m + count (test n) m

row_count_twice :
    (test : ℕ → ℕ → Bool) (n0 k : ℕ) → k ≤ n0 → row_count test n0 k ≡ 2 * count (test n0) k
unfolding row_count
row_count_twice test n0 zero h = refl
row_count_twice test n0 (suc k) h = let ih = row_count_twice test n0 k (omega arith) in ground arith

pairs-suc :
    (test : ℕ → ℕ → Bool) (n m : ℕ)
    → pairs test n (suc m) ≡ pairs test n m + count (λ i. test i m) n
pairs-suc test zero m = refl
pairs-suc test (suc n) m = let ih = pairs-suc test n m in omega arith

count_same : (p q : ℕ → Bool) (n : ℕ) → ((i : ℕ) → i < n → p i ≡ q i) → count p n ≡ count q n
count_same p q zero h = refl
count_same p q (suc n) h =
    ap₂ (λ a b. a + b) (count_same p q n (λ i l. h i (omega arith)))
      (ap (λ t. if t then 1 else 0) (h n (omega arith)))

pub pairs_same :
    (p q : ℕ → ℕ → Bool) (n m : ℕ)
    → ((i j : ℕ) → i < n → j < m → p i j ≡ q i j)
    → pairs p n m ≡ pairs q n m
pairs_same p q zero m h = refl
pairs_same p q (suc n) m h =
    ap₂ (λ a b. a + b) (pairs_same p q n m (λ i j l. h i j (omega arith)))
      (count_same (p n) (q n) m (λ j. h n j (omega arith)))

-- The triangle of a symmetric test, with its off-diagonal entries twice, is the square.
pub table_count-pairs :
    (test : ℕ → ℕ → Bool) (n : ℕ)
    → ((i j : ℕ) → test i j ≡ test j i)
    → table_count test n ≡ pairs test n n
unfolding table_count row_count
table_count-pairs test zero s = refl
table_count-pairs test (suc n) s =
    let ih = table_count-pairs test n s in
    let square = pairs-suc test n n in
    let across = count_same (λ i. test i n) (test n) n (λ i l. s i n) in
    let row = row_count_twice test n n (omega arith) in
    let diagonal : (n == n) ≡ true = ground arith in rw diagonal (omega arith)
