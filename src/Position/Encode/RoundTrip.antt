-- ===== src/Position/Encode/RoundTrip.antt =====
-- Position IDs that are written and read, engine-core/positionid.c.
use mathlib.Core.List.{append_assoc}
use gnubg_android.Base.{
  ℕ, zero, suc, ◌+◌, ◌-◌, ◌*◌, ◌/◌, ◌%◌, ◌^◌, ◌≤◌, ◌<◌, ◌≡◌, refl, sym, ◌∙◌, ap, ap₂, Bool, true,
  false, List, [], ◌∷◌, ◌++◌, leb, ◌==◌, if◌then◌else◌, get_or, set, length, length-append,
  replicate, ℕ_discrete, arith,
}
use gnubg_android.Base.Two.{Two, at, put}
use gnubg_android.Board.{TanBoard, u32}
use gnubg_android.Board.Sums.{total}
use gnubg_android.Position.Key.Laws.{
  Nibbles, Fits, points_from, points_from_all, position_from_key-position_key,
}
use gnubg_android.Position.Key.{position_key}
use gnubg_android.Position.Check.{check_position}
use gnubg_android.Position.Id.{
  fill, key_bytes, digits, base64, or_byte, u8, empty_board, old_position_from_key,
  position_from_id,
}
use gnubg_android.Position.Id.Decoded.{length-key_bits}
use gnubg_android.Position.Encode.{
  old_position_key, old_position_id_from_key, position_id, position_id_from_key,
}
use gnubg_android.Position.Encode.Bits.{AllBytes}
use gnubg_android.Position.Encode.Unary.{
  code, point_code, length-code, Written, add_row-Written, key_bits-Written, get_or-replicate,
}
use gnubg_android.MatchId.{bit_at, base64_chars, four_chars}
use gnubg_android.MatchId.Fields.{no_bits}
use gnubg_android.MatchId.Text.{group, char_back, or_sum}

module _ {ℓ} {A : Type ℓ} where
  pub get_or_middle : (done zs : List A) (x d : A) → get_or (done ++ (x ∷ zs)) (length done) d ≡ x
  get_or_middle [] zs x d = refl
  get_or_middle (y ∷ done) zs x d = get_or_middle done zs x d

  pub set_middle :
      (done zs : List A) (x v : A) → set (done ++ (x ∷ zs)) (length done) v ≡ done ++ (v ∷ zs)
  set_middle [] zs x v = refl
  set_middle (y ∷ done) zs x v = ap (λ r. y ∷ r) (set_middle done zs x v)

  at-put : (b : Two A) (i : ℕ) (r : A) → at (put b i r) i ≡ r
  at-put b i r = both (i == 0)
    where
      both :
          (c : Bool)
          → (if c
              then (if c then record b { p0 = r } else record b { p1 = r }).p0
              else (if c then record b { p0 = r } else record b { p1 = r }).p1)
            ≡ r
      both true = refl
      both false = refl

  put-put : (b : Two A) (i : ℕ) (r s : A) → put (put b i r) i s ≡ put b i s
  put-put b i r s = both (i == 0)
    where
      both :
          (c : Bool)
          → (let b' : Two A = if c then record b { p0 = r } else record b { p1 = r } in
              if c then record b' { p0 = s } else record b' { p1 = s })
            ≡ (if c then record b { p0 = s } else record b { p1 = s })
      both true = refl
      both false = refl

-- Reading the code of a row on side `i`.
module _ (b : TanBoard) (i : ℕ) (side : leb 2 i ≡ false) where
  -- A chequer more on the point.
  one_more :
      (rest : List Bool) (done zs : List ℕ) (x : ℕ)
      → x + 1 < 2 ^ 32
      → fill (true ∷ rest) i (length done) (put b i (done ++ (x ∷ zs)))
        ≡ fill rest i (length done) (put b i (done ++ ((x + 1) ∷ zs)))
  unfolding fill
  one_more rest done zs x h =
      let small : u32 (x + 1) ≡ x + 1 = omega arith in
      rw
        (
          side,
          at-put b i (done ++ (x ∷ zs)),
          get_or_middle done zs x 0,
          small,
          set_middle done zs x (x + 1),
          put-put b i (done ++ (x ∷ zs)) (done ++ ((x + 1) ∷ zs)),
        )
        refl

  fill-ones :
      (n : ℕ) (rest : List Bool) (done zs : List ℕ) (x : ℕ)
      → x + n < 2 ^ 32
      → fill (replicate n true ++ rest) i (length done) (put b i (done ++ (x ∷ zs)))
        ≡ fill rest i (length done) (put b i (done ++ ((x + n) ∷ zs)))
  fill-ones zero rest done zs x h =
      ap (λ y. fill rest i (length done) (put b i (done ++ (y ∷ zs)))) (omega arith)
  fill-ones (suc n) rest done zs x h =
      one_more (replicate n true ++ rest) done zs x (omega arith)
      ∙ (fill-ones n rest done zs (x + 1) (omega arith)
          ∙ ap (λ y. fill rest i (length done) (put b i (done ++ (y ∷ zs)))) (omega arith))

  fill-point_code :
      (n : ℕ) (rest : List Bool) (done zs : List ℕ)
      → n < 2 ^ 32
      → fill (point_code n ++ rest) i (length done) (put b i (done ++ (0 ∷ zs)))
        ≡ fill (false ∷ rest) i (length done) (put b i (done ++ (n ∷ zs)))
  fill-point_code n rest done zs h =
      ap (λ l. fill l i (length done) (put b i (done ++ (0 ∷ zs))))
        (append_assoc (replicate n true) (false ∷ []) rest)
      ∙ (fill-ones n (false ∷ rest) done zs 0 (omega arith)
          ∙ ap (λ y. fill (false ∷ rest) i (length done) (put b i (done ++ (y ∷ zs))))
              (omega arith))

  -- Up to the 0 that ends the point.
  head_of_code :
      (row done : List ℕ) (x : ℕ) (rest : List Bool)
      → x < 16
      → fill
          (code (x ∷ row) ++ rest)
          i
          (length done)
          (put b i (done ++ replicate (suc (length row)) 0))
        ≡ fill
            (false ∷ (code row ++ rest))
            i
            (length done)
            (put b i (done ++ (x ∷ replicate (length row) 0)))
  head_of_code row done x rest h =
      ap (λ l. fill l i (length done) (put b i (done ++ replicate (suc (length row)) 0)))
        (append_assoc (point_code x) (code row) rest)
      ∙ fill-point_code x (code row ++ rest) done (replicate (length row) 0) (omega arith)

  fill-code :
      (row done : List ℕ) (x : ℕ) (rest : List Bool)
      → length done + suc (length row) ≡ 25
      → Nibbles (x ∷ row)
      → fill
          (code (x ∷ row) ++ rest)
          i
          (length done)
          (put b i (done ++ replicate (suc (length row)) 0))
        ≡ fill rest (i + 1) 0 (put b i (done ++ (x ∷ row)))
  unfolding fill
  fill-code [] done x rest len small =
      let t : (length done + 1 == 25) ≡ true = ground arith in
      head_of_code [] done x rest small.0 ∙ rw t refl
  fill-code (y ∷ row) done x rest len small =
      let t : (length done + 1 == 25) ≡ false = ground arith in
      let l = length-append done (x ∷ []) in
      let j : length done + 1 ≡ length (done ++ (x ∷ [])) = omega arith in
      let before = append_assoc done (x ∷ []) (replicate (suc (length row)) 0) in
      let after = append_assoc done (x ∷ []) (y ∷ row) in
      head_of_code (y ∷ row) done x rest small.0
      ∙ rw (t, j, ← before, ← after) (fill-code row (done ++ (x ∷ [])) y rest (omega arith) small.1)

-- Zeros change nothing.
fill_zeros : (n i j : ℕ) (b : TanBoard) → fill (replicate n false) i j b ≡ b
unfolding fill
fill_zeros zero i j b = refl
fill_zeros (suc n) i j b =
    rw (fill_zeros n (i + 1) 0 b, fill_zeros n i (j + 1) b)
      (elim (ℕ_discrete (j + 1) 25) [ yes e ↦ ground arith | no ne ↦ ground arith ])

zero_byte : (i : ℕ) → get_or {A = ℕ} (replicate 10 0) i 0 ≡ 0
zero_byte i = get_or-replicate {A = ℕ} 10 i 0 0 ∙ ground arith

-- A whole row of 25 points.
fill-row :
    (b : TanBoard) (i : ℕ) (row : List ℕ) (rest : List Bool)
    → leb 2 i ≡ false
    → length row ≡ 25
    → Nibbles row
    → fill (code row ++ rest) i 0 (put b i (replicate 25 0)) ≡ fill rest (i + 1) 0 (put b i row)
fill-row b i [] rest side len small = absurd (omega arith)
fill-row b i (x ∷ row) rest side len small =
    ap (λ n. fill (code (x ∷ row) ++ rest) i 0 (put b i (replicate n 0))) (sym len)
    ∙ fill-code b i side row [] x rest (omega arith) small

-- Two rows of 25 points that four bits hold, with at most 30 chequers.
module _ (b : TanBoard) (f : Fits b) (few : total b.p0 + total b.p1 ≤ 30) where
  abbrev both : List Bool
  both = code b.p0 ++ code b.p1

  length-both : length both ≡ 50 + (total b.p0 + total b.p1)
  length-both =
      length-append (code b.p0) (code b.p1)
      ∙ omega (arith, length-code b.p0, length-code b.p1, f.row0, f.row1)

  old_position_key-Written : Written (old_position_key b) both
  unfolding old_position_key
  old_position_key-Written =
      let start : Written (replicate 10 0) [] = record {
        ten = refl;
        small = λ i. omega (arith, zero_byte i);
        bits = λ j.
            ap (λ m. bit_at m (j % 8)) (zero_byte (j / 8))
            ∙ no_bits 0 0 (j % 8) (omega arith) (omega arith);
      } in
      let (w, i) =
        add_row-Written b.p0 (replicate 10 0) [] 0 refl f.small0 (omega (arith, f.row0)) start in
      let len = length-code b.p0 in
      (add_row-Written b.p1 _ (code b.p0) _ (omega arith) f.small1 (omega (arith, f.row0, f.row1))
        w).0

  -- The key is read back.
  old_position_from_key-old_position_key : old_position_from_key (old_position_key b) ≡ b
  unfolding old_position_from_key
  old_position_from_key-old_position_key =
      let w = old_position_key-Written in
      let bits = length-key_bits (old_position_key b) ∙ ap (λ n. 8 * n) w.ten in
      let all = key_bits-Written (old_position_key b) both (omega (arith, length-both)) bits w in
      let zeros = replicate (80 - length both) false in
      ap (λ l. fill l 0 0 empty_board) (all ∙ append_assoc (code b.p0) (code b.p1) zeros)
      ∙ (fill-row empty_board 0 b.p0 (code b.p1 ++ zeros) refl f.row0 f.small0
          ∙ (fill-row (put empty_board 0 b.p0) 1 b.p1 zeros refl f.row1 f.small1
              ∙ fill_zeros _ 2 0 _))

-- The text of a key of ten bytes.
ten_bytes : (k : List ℕ) → length k ≡ 10 → points_from 10 0 k ≡ k
ten_bytes k h = ap (λ n. points_from n 0 k) (sym h) ∙ points_from_all k

last_byte :
    (p : ℕ)
    → p < 256
    → or_byte
        (u8 (base64 (get_or base64_chars (p / 2 ^ 2) 0) * 2 ^ 2))
        (base64 (get_or base64_chars (p % 4 * 2 ^ 4) 0) / 2 ^ 4)
      ≡ p
last_byte p h =
    let a : u8 (p / 2 ^ 2 * 2 ^ 2) ≡ p / 2 ^ 2 * 2 ^ 2 = omega arith in
    let b : p % 4 * 2 ^ 4 / 2 ^ 4 ≡ p % 4 = omega arith in
    rw (char_back (p / 2 ^ 2) (omega arith), char_back (p % 4 * 2 ^ 4) (omega arith))
      (ap₂ or_byte a b ∙ (or_sum 8 2 (p / 2 ^ 2) (p % 4) (omega arith) (omega arith) ∙ omega arith))

key_bytes-old_position_id_from_key :
    (k : List ℕ)
    → length k ≡ 10
    → AllBytes k
    → key_bytes (digits 14 (old_position_id_from_key k)) ≡ k
unfolding key_bytes old_position_id_from_key four_chars digits
key_bytes-old_position_id_from_key k len s =
    ap₂ (λ x y. x ++ y) (group (get_or k 0 0) (get_or k 1 0) (get_or k 2 0) (s 0) (s 1) (s 2))
      (ap₂ (λ x y. x ++ y) (group (get_or k 3 0) (get_or k 4 0) (get_or k 5 0) (s 3) (s 4) (s 5))
        (ap₂ (λ x y. x ++ y) (group (get_or k 6 0) (get_or k 7 0) (get_or k 8 0) (s 6) (s 7) (s 8))
          (ap (λ z. z ∷ []) (last_byte (get_or k 9 0) (s 9)))))
    ∙ ten_bytes k len

-- A board with 25 points a side, fewer than 16 chequers on each and at most 30 in all: the position ID
-- that `PositionID` writes for it is read by `PositionFromID` as the same board, with the verdict of
-- `CheckPosition` on it, and `PositionIDFromKey` writes the same ID for the key of the board.
pub position_from_id-position_id :
    (b : TanBoard)
    → Fits b
    → total b.p0 + total b.p1 ≤ 30
    → (position_from_id (position_id b) ≡ (b, check_position b))
      × (position_id_from_key (position_key b) ≡ position_id b)
unfolding position_from_id position_id position_id_from_key
position_from_id-position_id b f few =
    let w = old_position_key-Written b f few in
    let read =
      ap old_position_from_key
        (key_bytes-old_position_id_from_key (old_position_key b) w.ten w.small)
      ∙ old_position_from_key-old_position_key b f few in
    (
      ap (λ b'. (b', check_position b')) read,
      ap (λ b'. old_position_id_from_key (old_position_key b'))
          (position_from_key-position_key b f).0,
    )
