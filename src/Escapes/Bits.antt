-- ===== src/Escapes/Bits.antt =====
-- The index of the tables, engine-core/eval.c `Escapes`, `Escapes1`.
use gnubg_android.Base.{
  ℕ, zero, suc, ◌+◌, ◌-◌, ◌*◌, ◌^◌, ◌<◌, ◌≡◌, refl, ◌∙◌, ap, ap₂, Bool, true, false, ◌&&◌, List,
  ltb, leb, ◌==◌, if◌then◌else◌, arith, ℕ_discrete,
}
use gnubg_android.Board.{point}
use gnubg_android.Position.Encode.Bits.{or_bit, bit_at-bit_or_at, bit_at_ones, bit_at_run}
use gnubg_android.MatchId.{bit_at}
use gnubg_android.Escapes.{an_point, point_bits, has_bit}

-- The point at distance `d` is held by at least two chequers of the row.
abbrev pub stops : List ℕ → ℕ → ℕ → Bool
stops row n d = leb d n && leb 2 (point row (23 + d - n))

an_point_lem : (n : ℕ) → n < 16 → an_point n ≡ (if leb 2 n then 1 else 0)
an_point_lem n h = ground arith

-- One bit, at its place.
bit_at_place :
    (b : Bool) (i k : ℕ) → bit_at ((if b then 1 else 0) * 2 ^ i) k ≡ (if b && i == k then 1 else 0)
bit_at_place true i k = bit_at_run 1 i k ∙ ground arith
bit_at_place false i k = ap (λ m. bit_at m k) (omega arith) ∙ (bit_at_ones 0 k ∙ ground arith)

-- One more bit.
one_more :
    (f : ℕ → Bool) (m k : ℕ)
    → or_bit (if ltb k m && f k then 1 else 0) (if f m && m == k then 1 else 0)
      ≡ (if ltb k (suc m) && f k then 1 else 0)
one_more f m k = elim (ℕ_discrete m k) [
  | yes e ↦
      let same : f m ≡ f k = ap f e in
      let t : (m == k) ≡ true = ground arith in
      let less : ltb k m ≡ false = ground arith in
      let next : ltb k (suc m) ≡ true = ground arith in rw (same, t, less, next) (ground arith)
  | no ne ↦
      let t : (m == k) ≡ false = ground arith in
      let next : ltb k (suc m) ≡ ltb k m = ground arith in rw (t, next) (ground arith)
]

module _ (row : List ℕ) (n : ℕ) (few : (i : ℕ) → point row i < 16) where
  bit_at-point_bits :
      (m k : ℕ)
      → k < 32
      → bit_at (point_bits row n m) k ≡ (if ltb k m && leb 2 (point row (24 + k - n)) then 1 else 0)
  unfolding point_bits
  bit_at-point_bits zero k h = bit_at_ones 0 k ∙ ground arith
  bit_at-point_bits (suc m) k h =
      let there = point row (24 + m - n) in
      let p : an_point there ≡ (if leb 2 there then 1 else 0) =
        an_point_lem there (few (24 + m - n)) in
      bit_at-bit_or_at 32 (point_bits row n m) _ k h
      ∙ (ap₂ or_bit (bit_at-point_bits m k h)
            (ap (λ x. bit_at (x * 2 ^ m) k) p ∙ bit_at_place (leb 2 there) m k)
          ∙ one_more (λ i. leb 2 (point row (24 + i - n))) m k)

  -- Each of the first points has its bit.
  has_bit-point_bits :
      (m k : ℕ)
      → k < 32
      → has_bit (point_bits row n m) k ≡ (ltb k m && leb 2 (point row (24 + k - n)))
  has_bit-point_bits m k h =
      ap (λ b. b == 1) (bit_at-point_bits m k h) ∙ one (ltb k m && leb 2 (point row (24 + k - n)))
    where
      one : (b : Bool) → ((if b then 1 else 0) == 1) ≡ b
      one true = refl
      one false = refl

  -- The bits of the index that the loops test.
  pub index_bit :
      (k : ℕ)
      → k < 12
      → has_bit (point_bits row n (if ltb n 12 then n else 12)) k ≡ stops row n (suc k)
  index_bit k h =
      has_bit-point_bits (if ltb n 12 then n else 12) k (omega arith)
      ∙ ap₂ (λ a b. a && leb 2 (point row b)) (ground arith) (omega arith)
