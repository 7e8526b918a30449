-- ===== src/Escapes/Counted.antt =====
-- What `Escapes` and `Escapes1` of engine-core/eval.c count.
use gnubg_android.Base.{
  ℕ, zero, suc, ◌+◌, ◌-◌, ◌≤◌, ◌<◌, ◌≡◌, inl, inr, refl, sym, ◌∙◌, ap, ap₂, Bool, true, false, not,
  ◌&&◌, ◌||◌, List, Bool-cases, ltb, ◌==◌, if◌then◌else◌, arith,
}
use gnubg_android.Board.Sums.{total, point-le-total}
use gnubg_android.Escapes.{
  has_bit, passes, an_escapes, point_bits, escapes, low_bit, an_escapes1, escapes1,
}
use gnubg_android.Escapes.Rolls.{pairs, pairs_same, table_count-pairs}
use gnubg_android.Escapes.Bits.{stops, index_bit}

-- How many of the 36 rolls of two dice pass.
abbrev pub rolls_that : (ℕ → ℕ → Bool) → ℕ
rolls_that test = pairs (λ i j. test (suc i) (suc j)) 6 6

-- A chequer can move by both dice, with one of them first: the row holds neither the point where it
-- ends nor both of the points on the way.
abbrev pub free_roll : List ℕ → ℕ → ℕ → ℕ → Bool
free_roll row n d0 d1 = not (stops row n (d0 + d1)) && not (stops row n d0 && stops row n d1)

-- One of the numbers below `k` passes.
abbrev pub any : (ℕ → Bool) → ℕ → Bool
any test zero = false
any test (suc k) = any test k || test k

-- A point nearer than `d` is held.
abbrev pub passed : List ℕ → ℕ → ℕ → Bool
passed row n d = any (λ k. stops row n (suc k)) (d - 1)

-- The tests do not tell the dice apart.
passes_sym : (b : ℕ → Bool) (i j : ℕ) → passes b i j ≡ passes b j i
passes_sym b i j = let e : i + j + 1 ≡ j + i + 1 = omega arith in rw e (ground arith)

any-false : (b : ℕ → Bool) (low k : ℕ) → any b low ≡ false → k ≤ low → any b k ≡ false
any-false b zero k h l = let e : k ≡ 0 = omega arith in rw e refl
any-false b (suc low) k h l = elim (Bool-cases (k == suc low)) [
  | inl last ↦ let e : k ≡ suc low = ground arith in rw e h
  | inr before ↦ any-false b low k (ground arith) (ground arith)
]

any-true : (b : ℕ → Bool) (low k : ℕ) → b low ≡ true → low < k → any b k ≡ true
any-true b low zero h l = absurd (omega arith)
any-true b low (suc k) h l = elim (Bool-cases (low == k)) [
  | inl last ↦
      let e : low ≡ k = ground arith in let t : b k ≡ true = ap b (sym e) ∙ h in ground arith
  | inr before ↦ let ih = any-true b low k h (ground arith) in ground arith
]

-- A number is above the lowest bit exactly if one of the bits below it is set.
low_bit_lem :
    (fuel i low k : ℕ)
    → any (has_bit i) low ≡ false
    → k ≤ low + fuel
    → ltb (low_bit fuel i low) k ≡ any (has_bit i) k
unfolding low_bit
low_bit_lem zero i low k none_yet h =
    let none_below = any-false (has_bit i) low k none_yet (omega arith) in
    rw none_below (ground arith)
low_bit_lem (suc fuel) i low k none_yet h = elim (Bool-cases (has_bit i low)) [
  | inl here ↦ rw here (elim (Bool-cases (ltb low k)) [
    | inl above ↦ above ∙ sym (any-true (has_bit i) low k here (ground arith))
    | inr below ↦ below ∙ sym (any-false (has_bit i) low k none_yet (ground arith))
  ])
  | inr absent ↦
      let e : suc low ≡ low + 1 = omega arith in
      rw absent
        (low_bit_lem fuel i (low + 1) k (ap (any (has_bit i)) (sym e) ∙ ground arith) (omega arith))
]

-- The entries of the tables, over the 36 rolls.
an_escapes_lem : (i : ℕ) → an_escapes i ≡ pairs (passes (has_bit i)) 6 6
unfolding an_escapes
an_escapes_lem i = table_count-pairs (passes (has_bit i)) 6 (passes_sym (has_bit i))

abbrev jumps : (ℕ → Bool) → ℕ → ℕ → Bool
jumps b n0 n1 = any b (n0 + n1 + 1) && passes b n0 n1

an_escapes1_lem : (i : ℕ) → an_escapes1 i ≡ pairs (jumps (has_bit i)) 6 6
unfolding an_escapes1
an_escapes1_lem zero = refl
an_escapes1_lem (suc i) =
    let low = low_bit 12 (suc i) 0 in
    let b = has_bit (suc i) in
    let test : ℕ → ℕ → Bool = λ n0 n1. ltb low (n0 + n1 + 1) && passes b n0 n1 in
    table_count-pairs test 6
      (λ n0 n1. ap₂ (λ x y. ltb low x && y) (omega arith) (passes_sym b n0 n1))
    ∙ pairs_same test (jumps b) 6 6 (λ n0 n1 h0 h1.
      ap (λ x. x && passes b n0 n1) (low_bit_lem 12 (suc i) 0 (n0 + n1 + 1) refl (omega arith)))

any_same : (p q : ℕ → Bool) (k : ℕ) → ((i : ℕ) → i < k → p i ≡ q i) → any p k ≡ any q k
any_same p q zero h = refl
any_same p q (suc k) h =
    ap₂ (λ a b. a || b) (any_same p q k (λ i l. h i (omega arith))) (h k (omega arith))

module _ (row : List ℕ) (n : ℕ) (few : total row ≤ 15) where
  between : (i j : ℕ) → i + j + 1 ≡ suc i + suc j - 1
  between i j = omega arith

  index : ℕ
  index = point_bits row n (if ltb n 12 then n else 12)

  bits : (k : ℕ) → k < 12 → has_bit index k ≡ stops row n (suc k)
  unfolding index
  bits k h = index_bit row n (λ i. let p = point-le-total row i in omega arith) k h

  free :
      (n0 n1 : ℕ)
      → n0 < 6
      → n1 < 6
      → passes (has_bit index) n0 n1 ≡ free_roll row n (suc n0) (suc n1)
  free n0 n1 h0 h1 =
      let e : suc (n0 + n1 + 1) ≡ suc n0 + suc n1 = omega arith in
      ap₂ (λ x y. not x && not y) (bits (n0 + n1 + 1) (omega arith) ∙ ap (stops row n) e)
        (ap₂ (λ x y. x && y) (bits n0 (omega arith)) (bits n1 (omega arith)))

  escapes_count : escapes row n ≡ rolls_that (free_roll row n)
  unfolding escapes index
  escapes_count =
      an_escapes_lem index
      ∙ pairs_same (passes (has_bit index)) (λ i j. free_roll row n (suc i) (suc j)) 6 6 free

  escapes1_count :
      escapes1 row n ≡ rolls_that (λ d0 d1. passed row n (d0 + d1) && free_roll row n d0 d1)
  unfolding escapes1 index
  escapes1_count =
      an_escapes1_lem index
      ∙ pairs_same (jumps (has_bit index))
          (λ i j. passed row n (suc i + suc j) && free_roll row n (suc i) (suc j)) 6 6
          (λ i j hi hj.
            ap₂ (λ x y. x && y)
              (any_same (has_bit index) (λ k. stops row n (suc k)) (i + j + 1)
                  (λ k l. bits k (omega arith))
                ∙ ap (any (λ k. stops row n (suc k))) (between i j))
              (free i j hi hj))

-- For a chequer on point `n` of the side against `row`, which has at most 15 chequers, `Escapes` is how
-- many of the 36 rolls let it move by both dice, and `Escapes1` how many of them also take it past a
-- point that the row holds. The tables are indexed by the 12 points ahead of the chequer, or as many
-- as there are.
pub escapes_counted :
    (row : List ℕ) (n : ℕ)
    → total row ≤ 15
    → n ≤ 24
    → (escapes row n ≡ rolls_that (free_roll row n))
      × (escapes1 row n ≡ rolls_that (λ d0 d1. passed row n (d0 + d1) && free_roll row n d0 d1))
escapes_counted row n few h = (escapes_count row n few, escapes1_count row n few)
