-- ===== src/Position/Bearoff/RoundTrip.antt =====
-- `PositionFromBearoff` of engine-core/positionid.c on the number that `PositionBearoff` gives.
use native.Mathlib.Nat.{pow-succ', pow-suc, mul_assoc, div-div-eq-div-mul}
use gnubg_android.Base.{
  ℕ, zero, suc, ◌+◌, ◌-◌, ◌*◌, ◌/◌, ◌%◌, ◌^◌, ◌≤◌, ◌<◌, ◌≡◌, refl, sym, ◌∙◌, ap, subst, true, false,
  List, [], ◌∷◌, ◌++◌, ◌==◌, set, length, replicate, arith,
}
use gnubg_android.Board.{u32, point}
use gnubg_android.Board.Sums.{total}
use gnubg_android.MatchId.Bits.{bit_at_zero, bit_at-suc}
use gnubg_android.Base.Order.{power_le, power_add}
use gnubg_android.Position.Bearoff.{
  or_word, separators, top_bit, bearoff_bits, position_bearoff, read_bits, position_from_bearoff,
}
use gnubg_android.Position.Bearoff.Choose.{choose}
use gnubg_android.Position.Bearoff.Rank.{ones, or_word_sum, ones_none, position_f-Ranked}

-- A list of points in reverse on top of another.
abbrev onto : List ℕ → List ℕ → List ℕ
onto [] below = below
onto (n ∷ row) below = onto row (n ∷ below)

onto-onto : (b d e : List ℕ) → onto (onto b d) e ≡ onto d (b ++ e)
onto-onto [] d e = refl
onto-onto (n ∷ b) d e = onto-onto b (n ∷ d) e

length-onto : (b d : List ℕ) → length (onto b d) ≡ length b + length d
length-onto [] d = omega arith
length-onto (n ∷ b) d = omega (arith, length-onto b (n ∷ d))

total-onto : (b d : List ℕ) → total (onto b d) ≡ total b + total d
total-onto [] d = omega arith
total-onto (n ∷ b) d = omega (arith, total-onto b (n ∷ d))

append_empty : (b : List ℕ) → b ++ [] ≡ b
append_empty [] = refl
append_empty (n ∷ b) = ap (λ r. n ∷ r) (append_empty b)

-- The bits of points in reverse: as many zeros as chequers, and a one.
abbrev packed : List ℕ → ℕ
packed [] = 0
packed (n ∷ low) = 2 ^ n * (1 + 2 * packed low)

double_packed : (n : ℕ) (low : List ℕ) → packed (suc n ∷ low) ≡ 2 * packed (n ∷ low)
double_packed n low =
    ap (λ k. k * (1 + 2 * packed low)) (pow-succ' 2 n) ∙ mul_assoc 2 (2 ^ n) (1 + 2 * packed low)

packed-lt : (low : List ℕ) → packed low < 2 ^ (total low + length low)
packed-lt [] = omega arith
packed-lt (zero ∷ low) =
    let e : total (zero ∷ low) + length (zero ∷ low) ≡ suc (total low + length low) = omega arith in
    let p = pow-succ' 2 (total low + length low) in
    let q = ap (λ k. 2 ^ k) e in omega (arith, packed-lt low)
packed-lt (suc n ∷ low) =
    let e : total (suc n ∷ low) + length (suc n ∷ low) ≡ suc (total (n ∷ low) + length (n ∷ low)) =
      omega arith in
    let p = pow-succ' 2 (total (n ∷ low) + length (n ∷ low)) in
    let q = ap (λ k. 2 ^ k) e in omega (arith, packed-lt (n ∷ low), double_packed n low)

-- Ones counted from the lowest bit.
ones_half : (m f : ℕ) → ones (suc m) f ≡ f % 2 + ones m (f / 2)
ones_half zero f = omega (arith, bit_at_zero f)
ones_half (suc m) f = omega (arith, ones_half m f, bit_at-suc f m)

ones-packed : (low : List ℕ) (m : ℕ) → total low + length low ≤ m → ones m (packed low) ≡ length low
ones-packed [] m h = ones_none m
ones-packed (n ∷ low) zero h = absurd (omega arith)
ones-packed (zero ∷ low) (suc m) h =
    let half : packed (zero ∷ low) / 2 ≡ packed low = omega arith in
    ones_half m (packed (zero ∷ low))
    ∙ omega (arith, ap (ones m) half ∙ ones-packed low m (omega arith))
ones-packed (suc n ∷ low) (suc m) h =
    let d = double_packed n low in
    let half : packed (suc n ∷ low) / 2 ≡ packed (n ∷ low) = omega arith in
    ones_half m (packed (suc n ∷ low))
    ∙ omega (arith, ap (ones m) half ∙ ones-packed (n ∷ low) m (omega arith))

shifted_packed :
    (n j j' : ℕ) (low : List ℕ) → j ≡ suc n + j' → packed (j ∷ low) ≡ packed (n ∷ low) * 2 ^ suc j'
shifted_packed n j j' low e =
    let split : j ≡ n + suc j' = omega arith in
    let p : 2 ^ j ≡ 2 ^ n * 2 ^ suc j' = ap (λ k. 2 ^ k) split ∙ power_add n (suc j') in
    ap (λ k. k * (1 + 2 * packed low)) p ∙ grind arith

one_in_front : (j v : ℕ) → j * (1 + 2 * v) ≡ v * (2 * j) + j
one_in_front j v = grind arith

-- The loop that builds the bits.
separators-packed :
    (row low : List ℕ) (n j f : ℕ)
    → j ≡ total (n ∷ row) + length row
    → j + total low + length low + 1 ≤ 32
    → f ≡ packed (j ∷ low)
    → separators (n ∷ row) j f ≡ packed (onto (n ∷ row) low)
unfolding separators
separators-packed [] low n j f e h g = g ∙ ap (λ k. packed (k ∷ low)) (omega arith)
separators-packed (m ∷ row) low n j f e h g =
    let j' = j - (n + 1) in
    let split : j ≡ suc n + j' = omega arith in
    let p = pow-succ' 2 j' in
    let some = power_le 0 j' (omega arith) in
    let all : packed (j ∷ low) ≡ packed (n ∷ low) * 2 ^ suc j' = shifted_packed n j j' low split in
    let next : packed (j' ∷ n ∷ low) ≡ packed (n ∷ low) * 2 ^ suc j' + 2 ^ j' =
      one_in_front (2 ^ j') (packed (n ∷ low)) ∙ ap (λ k. packed (n ∷ low) * k + 2 ^ j') (sym p) in
    let size : total (j' ∷ n ∷ low) + length (j' ∷ n ∷ low) ≤ 32 = omega arith in
    let room = power_le (total (j' ∷ n ∷ low) + length (j' ∷ n ∷ low)) 32 size in
    let few : packed (j' ∷ n ∷ low) < 2 ^ 32 = omega (arith, packed-lt (j' ∷ n ∷ low), room) in
    let f' : or_word f (2 ^ j') ≡ packed (j' ∷ n ∷ low) =
      ap (λ k. or_word k (2 ^ j')) (g ∙ all)
      ∙ (or_word_sum (suc j') (packed (n ∷ low)) (2 ^ j') (omega arith)
            (subst (λ k. k < 2 ^ 32) next few)
          ∙ sym next) in
    separators-packed row (n ∷ low) m j' (or_word f (2 ^ j')) (omega arith) (omega arith) f'

top_bit_sum : (row : List ℕ) (j : ℕ) → j + total row < 2 ^ 32 → top_bit row j ≡ j + total row
unfolding top_bit
top_bit_sum [] j h = omega arith
top_bit_sum (n ∷ row) j h =
    let e : u32 (j + n) ≡ j + n = omega arith in
    rw e (top_bit_sum row (j + n) (omega arith) ∙ omega arith)

replicate_snoc :
    (n : ℕ) (x : ℕ) (tail : List ℕ) → replicate (suc n) x ++ tail ≡ replicate n x ++ (x ∷ tail)
replicate_snoc zero x tail = refl
replicate_snoc (suc n) x tail = ap (λ r. x ∷ r) (replicate_snoc n x tail)

zeros_point : (n x : ℕ) (tail : List ℕ) → point (replicate n 0 ++ (x ∷ tail)) n ≡ x
zeros_point zero x tail = refl
zeros_point (suc n) x tail = zeros_point n x tail

zeros-set :
    (n x v : ℕ) (tail : List ℕ)
    → set (replicate n 0 ++ (x ∷ tail)) n v ≡ replicate n 0 ++ (v ∷ tail)
zeros-set zero x v tail = refl
zeros-set (suc n) x v tail = ap (λ r. 0 ∷ r) (zeros-set n x v tail)

next_half : (f i : ℕ) → f / 2 ^ (i + 1) ≡ f / 2 ^ i / 2
next_half f i =
    ap (λ m. f / m) (ap (λ k. 2 ^ k) (omega arith) ∙ pow-suc 2 i)
    ∙ sym (div-div-eq-div-mul f (2 ^ i) 2)

-- The loop that reads them.
read_bits-packed :
    (k f i : ℕ) (low tail : List ℕ) (n x : ℕ)
    → total (n ∷ low) + length (n ∷ low) ≤ k
    → f / 2 ^ i ≡ packed (n ∷ low)
    → read_bits k f i (length low) (replicate (length low) 0 ++ (x ∷ tail))
      ≡ onto low ((x + n) ∷ tail)
unfolding read_bits
read_bits-packed zero f i low tail n x h e = absurd (omega arith)
read_bits-packed (suc k) f i low tail (suc n) x h e =
    let d = double_packed n low in
    let half = next_half f i in
    let even : f / 2 ^ i % 2 ≡ 0 = omega arith in
    let b : (f / 2 ^ i % 2 == 1) ≡ false = ground arith in
    rw (b, read_bits, zeros_point (length low) x tail, zeros-set (length low) x (x + 1) tail)
      (read_bits-packed k f (i + 1) low tail n (x + 1) (omega arith) (omega arith)
        ∙ ap (λ y. onto low (y ∷ tail)) (omega arith))
read_bits-packed (suc k) f i [] tail zero x h e =
    let odd : f / 2 ^ i % 2 ≡ 1 = omega arith in
    let b : (f / 2 ^ i % 2 == 1) ≡ true = ground arith in
    rw (b, read_bits) (ap (λ y. y ∷ tail) (omega arith))
read_bits-packed (suc k) f i (n ∷ low) tail zero x h e =
    let half = next_half f i in
    let odd : f / 2 ^ i % 2 ≡ 1 = omega arith in
    let b : (f / 2 ^ i % 2 == 1) ≡ true = ground arith in
    let same : x + 0 ≡ x = omega arith in
    rw (b, read_bits, same, replicate_snoc (length low) 0 (x ∷ tail))
      (read_bits-packed k f (i + 1) low (x ∷ tail) n 0 (omega arith) (omega arith)
        ∙ ap (λ y. onto low (y ∷ x ∷ tail)) (omega arith))

-- The whole of both: the bits of a position, and the position read from them.
bearoff_bits-packed :
    (n : ℕ) (row : List ℕ)
    → total (n ∷ row) + length (n ∷ row) ≤ 32
    → bearoff_bits (n ∷ row) ≡ packed (onto (n ∷ row) [])
unfolding bearoff_bits
bearoff_bits-packed n row h =
    let e : length (n ∷ row) - 1 ≡ length row = omega arith in
    let j = top_bit_sum (n ∷ row) (length row) (omega arith) in
    rw (e, j)
      (separators-packed row [] n (length row + total (n ∷ row)) _ (omega arith) (omega arith)
        (omega arith))

position_of-packed :
    (low : List ℕ) (k : ℕ)
    → 0 < length low
    → total low + length low ≤ k
    → read_bits k (packed low) 0 (length low - 1) (replicate (length low) 0) ≡ onto low []
position_of-packed [] k some h = absurd (omega arith)
position_of-packed (n ∷ low) k some h =
    let e : length (n ∷ low) - 1 ≡ length low = omega arith in
    let z : replicate (length (n ∷ low)) 0 ≡ replicate (length low) 0 ++ (0 ∷ []) =
      sym (append_empty _) ∙ replicate_snoc (length low) 0 [] in
    rw (e, z)
      (read_bits-packed k (packed (n ∷ low)) 0 low [] n 0 h (omega arith)
        ∙ ap (λ y. onto low (y ∷ [])) (omega arith))

-- A position of up to 25 points, at least one, with at most `n_chequers` chequers, points and chequers
-- together no more than 32: the number that `PositionBearoff` gives it is below the number of ways to
-- choose the points' bits, and `PositionFromBearoff` finds the position again.
pub position_from_bearoff-position_bearoff :
    (b : List ℕ) (n_chequers : ℕ)
    → 0 < length b
    → length b ≤ 25
    → n_chequers + length b ≤ 32
    → total b ≤ n_chequers
    → (position_bearoff b n_chequers < choose (n_chequers + length b) (length b))
      × (position_from_bearoff (position_bearoff b n_chequers) (length b) n_chequers ≡ b)
unfolding position_bearoff position_from_bearoff
position_from_bearoff-position_bearoff [] n_chequers some few room fits = absurd (omega arith)
position_from_bearoff-position_bearoff (n ∷ row) n_chequers some few room fits =
    let low = onto (n ∷ row) [] in
    let bits = bearoff_bits-packed n row (omega arith) in
    let len : length low ≡ length (n ∷ row) = length-onto (n ∷ row) [] ∙ omega arith in
    let sum : total low ≡ total (n ∷ row) = total-onto (n ∷ row) [] ∙ omega arith in
    let size = n_chequers + length (n ∷ row) in
    let more = power_le (total low + length low) size (omega arith) in
    let ranked =
      position_f-Ranked size (packed low) (length (n ∷ row)) room few (omega (arith, packed-lt low))
        (ones-packed low size (omega arith) ∙ len) in
    (
      rw bits ranked.below,
      rw (bits, ranked.back)
          (ap (λ l. read_bits size (packed low) 0 (l - 1) (replicate l 0)) (sym len)
            ∙ (position_of-packed low size (omega arith) (omega arith)
                ∙ (onto-onto (n ∷ row) [] [] ∙ append_empty (n ∷ row)))),
    )
