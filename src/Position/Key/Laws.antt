-- ===== src/Position/Key/Laws.antt =====
-- Keys and boards correspond, engine-core/positionid.c.
use gnubg_android.Base.{
  ℕ, zero, suc, ◌+◌, ◌*◌, ◌/◌, ◌%◌, ◌^◌, ◌≤◌, ◌<◌, ◌≡◌, refl, sym, ◌∙◌, ap, ap₂, true, List, [],
  ◌∷◌, ◌++◌, length, ◌↔◌, arith,
}
use gnubg_android.Board.{TanBoard, point, u32, swap_sides}
use gnubg_android.Board.Sums.{total}
use gnubg_android.Board.Legal.{IsLegal}
use gnubg_android.Position.Key.{
  PositionKey, pack, unpack, position_key, position_from_key, position_from_key_swapped, equal_keys,
}

-- `n` points of a row from point `i` on.
abbrev pub points_from : ℕ → ℕ → List ℕ → List ℕ
points_from zero i row = []
points_from (suc n) i row = point row i ∷ points_from n (i + 1) row

points_from-cons :
    (n i : ℕ) (x : ℕ) (row : List ℕ) → points_from n (suc i) (x ∷ row) ≡ points_from n i row
points_from-cons zero i x row = refl
points_from-cons (suc n) i x row =
    ap₂ ◌∷◌ refl
      (ap (λ k. points_from n k (x ∷ row)) (omega arith) ∙ points_from-cons n (i + 1) x row)

pub points_from_all : (row : List ℕ) → points_from (length row) 0 row ≡ row
points_from_all [] = refl
points_from_all (x ∷ row) =
    ap (λ r. x ∷ r)
      (ap (λ k. points_from (length row) k (x ∷ row)) (omega arith)
        ∙ points_from-cons (length row) 0 x row
        ∙ points_from_all row)

-- Every point holds fewer than 16 chequers, as four bits do.
abbrev pub Nibbles : List ℕ → Type 0
Nibbles [] = Unit {0}
Nibbles (n ∷ row) = (n < 16) × Nibbles row

point-lt : (row : List ℕ) (i : ℕ) → Nibbles row → point row i < 16
point-lt [] i h = omega arith
point-lt (n ∷ row) zero h = h.0
point-lt (n ∷ row) (suc i) h = point-lt row i h.1

-- The digits of a word.
module _ (a b c d e f g h : ℕ) (ha : a < 16) (hb : b < 16) (hc : c < 16) (hd : d < 16) (he : e < 16)
    (hf : f < 16) (hg : g < 16) (hh : h < 16) where
  abbrev word : ℕ
  word = u32 (
      a
      + u32 (b * 2 ^ 4)
      + u32 (c * 2 ^ 8)
      + u32 (d * 2 ^ 12)
      + u32 (e * 2 ^ 16)
      + u32 (f * 2 ^ 20)
      + u32 (g * 2 ^ 24)
      + u32 (h * 2 ^ 28))

  abbrev plain : ℕ
  plain = a + b * 2 ^ 4 + c * 2 ^ 8 + d * 2 ^ 12 + e * 2 ^ 16 + f * 2 ^ 20 + g * 2 ^ 24 + h * 2 ^ 28

  word-plain : word ≡ plain
  word-plain = omega arith

  digits_of_word :
      (word % 16 ≡ a)
      × (word / 2 ^ 4 % 16 ≡ b)
      × (word / 2 ^ 8 % 16 ≡ c)
      × (word / 2 ^ 12 % 16 ≡ d)
      × (word / 2 ^ 16 % 16 ≡ e)
      × (word / 2 ^ 20 % 16 ≡ f)
      × (word / 2 ^ 24 % 16 ≡ g)
      × (word / 2 ^ 28 % 16 ≡ h)
  digits_of_word = rw word-plain (omega arith)

  unpack-word : unpack word ≡ a ∷ b ∷ c ∷ d ∷ e ∷ f ∷ g ∷ h ∷ []
  unfolding unpack
  unpack-word =
      let (p, q, r, s, t, u, v, w) = digits_of_word in
      λ i. p i ∷ q i ∷ r i ∷ s i ∷ t i ∷ u i ∷ v i ∷ w i ∷ []

module _ (row : List ℕ) (n : Nibbles row) where
  pack_word :
      (j : ℕ)
      → unpack (pack row j)
        ≡ point row j
          ∷ point row (j + 1)
          ∷ point row (j + 2)
          ∷ point row (j + 3)
          ∷ point row (j + 4)
          ∷ point row (j + 5)
          ∷ point row (j + 6)
          ∷ point row (j + 7)
          ∷ []
  unfolding pack
  pack_word j =
      unpack-word (point row j) (point row (j + 1)) (point row (j + 2)) (point row (j + 3))
        (point row (j + 4)) (point row (j + 5)) (point row (j + 6)) (point row (j + 7))
        (point-lt row j n) (point-lt row (j + 1) n) (point-lt row (j + 2) n)
        (point-lt row (j + 3) n) (point-lt row (j + 4) n) (point-lt row (j + 5) n)
        (point-lt row (j + 6) n) (point-lt row (j + 7) n)

  -- Three words and the bar make up the row.
  row_of_words :
      (bar : ℕ)
      → length row ≡ 25
      → bar ≡ point row 24
      → unpack (pack row 0) ++ (unpack (pack row 8) ++ (unpack (pack row 16) ++ (bar ∷ []))) ≡ row
  row_of_words bar len e =
      (λ i. pack_word 0 i ++ (pack_word 8 i ++ (pack_word 16 i ++ (e i ∷ []))))
      ∙ (ap (λ k. points_from k 0 row) (sym len) ∙ points_from_all row)

-- Two rows of 25 points that four bits hold.
pub record Fits (b : TanBoard) : Type 0 where
  pub row0 : length b.p0 ≡ 25
  pub row1 : length b.p1 ≡ 25
  pub small0 : Nibbles b.p0
  pub small1 : Nibbles b.p1

module _ (b : TanBoard) (f : Fits b) where
  bars :
      let w = u32 (point b.p0 24 + u32 (point b.p1 24 * 2 ^ 4)) in
      (w % 16 ≡ point b.p0 24) × (w / 2 ^ 4 % 16 ≡ point b.p1 24)
  bars = omega (arith, point-lt b.p0 24 f.small0, point-lt b.p1 24 f.small1)

  -- The key of a board with 25 points a side and fewer than 16 chequers on each is decoded to the
  -- board, and by the swapping decoder to the board with its sides swapped.
  pub position_from_key-position_key :
      (position_from_key (position_key b) ≡ b)
      × (position_from_key_swapped (position_key b) ≡ swap_sides b)
  unfolding position_from_key position_from_key_swapped position_key swap_sides
  position_from_key-position_key =
      let own = row_of_words b.p1 f.small1 _ f.row1 bars.1 in
      let other = row_of_words b.p0 f.small0 _ f.row0 bars.0 in
      (λ i. record { p0 = other i; p1 = own i }, λ i. record { p0 = own i; p1 = other i })

pub equal_keys-eq : (k l : PositionKey) → equal_keys k l ≡ true → k ≡ l
equal_keys-eq k l h = ground arith

pub equal_keys_refl : (k : PositionKey) → equal_keys k k ≡ true
equal_keys_refl k = ground arith

-- The keys of two boards with 25 points a side and fewer than 16 chequers on each are equal exactly
-- when the boards are.
pub equal_keys_iff :
    (a b : TanBoard)
    → Fits a
    → Fits b
    → (equal_keys (position_key a) (position_key b) ≡ true) ↔ (a ≡ b)
equal_keys_iff a b fa fb = (same, λ e. rw e (equal_keys_refl (position_key b)))
  where
    same : equal_keys (position_key a) (position_key b) ≡ true → a ≡ b
    same h =
        sym (position_from_key-position_key a fa).0
        ∙ (ap position_from_key (equal_keys-eq (position_key a) (position_key b) h)
            ∙ (position_from_key-position_key b fb).0)

total_small : (row : List ℕ) → total row ≤ 15 → Nibbles row
total_small [] h = tt
total_small (n ∷ row) h = (omega arith, total_small row (omega arith))

-- A legal board fits.
pub IsLegal-Fits : (b : TanBoard) → IsLegal b → Fits b
IsLegal-Fits b v = record {
  row0 = v.row0;
  row1 = v.row1;
  small0 = total_small b.p0 v.few0;
  small1 = total_small b.p1 v.few1;
}
