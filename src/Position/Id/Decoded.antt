-- ===== src/Position/Id/Decoded.antt =====
-- What `PositionFromID` of engine-core/positionid.c accepts.
use gnubg_android.Base.{
  ℕ, zero, suc, ◌+◌, ◌*◌, ◌/◌, ◌≤◌, ◌<◌, ◌≡◌, ◌↔◌, refl, ◌∙◌, ap, Bool, true, false, List, [], ◌∷◌,
  leb, ◌==◌, if◌then◌else◌, set, length, length-set, ℕ_discrete, arith,
}
use gnubg_android.Base.Two.{at, put}
use gnubg_android.Board.{TanBoard, point, u32}
use gnubg_android.Board.Sums.{total, total-set}
use gnubg_android.Board.Legal.{IsLegal}
use gnubg_android.Position.Check.{check_position_iff, Sized, Small, SomeoneMoves}
use gnubg_android.Position.Id.{
  fill, bits_of, key_bits, key_bytes, digits, l_position_id, three_bytes, old_position_from_key,
  position_from_id,
}

-- Rows of 25 points with at most `n` chequers each.
pub record Filled (n : ℕ) (b : TanBoard) : Type 0 where
  pub row0 : length b.p0 ≡ 25
  pub row1 : length b.p1 ≡ 25
  pub few0 : total b.p0 ≤ n
  pub few1 : total b.p1 ≤ n

Filled-more : (n m : ℕ) (b : TanBoard) → n ≤ m → Filled n b → Filled m b
Filled-more n m b h f = record {
  row0 = f.row0;
  row1 = f.row1;
  few0 = omega (arith, f.few0);
  few1 = omega (arith, f.few1);
}

total-set_more :
    (row : List ℕ) (j n : ℕ)
    → length row ≡ 25
    → j < 25
    → total row ≤ n
    → total (set row j (u32 (point row j + 1))) ≤ n + 1
total-set_more row j n l h t =
    let step = total-set row j (u32 (point row j + 1)) (omega arith) in omega arith

-- One chequer more on a side.
more-Filled :
    (c : Bool) (j n : ℕ) (b : TanBoard)
    → j < 25
    → Filled n b
    → let row : List ℕ = if c then b.p0 else b.p1 in
      let row' : List ℕ = set row j (u32 (point row j + 1)) in
      Filled (n + 1) (if c then record b { p0 = row' } else record b { p1 = row' })
more-Filled true j n b h f = record {
  row0 = length-set b.p0 j (u32 (point b.p0 j + 1)) ∙ f.row0;
  row1 = f.row1;
  few0 = total-set_more b.p0 j n f.row0 h f.few0;
  few1 = omega (arith, f.few1);
}
more-Filled false j n b h f = record {
  row0 = f.row0;
  row1 = length-set b.p1 j (u32 (point b.p1 j + 1)) ∙ f.row1;
  few0 = omega (arith, f.few0);
  few1 = total-set_more b.p1 j n f.row1 h f.few1;
}

put-Filled :
    (i j n : ℕ) (b : TanBoard)
    → j < 25
    → Filled n b
    → Filled (n + 1) (put b i (set (at b i) j (u32 (point (at b i) j + 1))))
put-Filled i j n b h f = more-Filled (i == 0) j n b h f

if-Filled :
    (c : Bool) (n : ℕ) (a b : TanBoard) → Filled n a → Filled n b → Filled n (if c then a else b)
if-Filled true n a b f g = f
if-Filled false n a b f g = g

fill-Filled :
    (bits : List Bool) (i j n : ℕ) (b : TanBoard)
    → j < 25
    → Filled n b
    → Filled (n + length bits) (fill bits i j b)
unfolding fill
fill-Filled [] i j n b h f = Filled-more n (n + 0) b (omega arith) f
fill-Filled (true ∷ bits) i j n b h f =
    let b' : TanBoard = put b i (set (at b i) j (u32 (point (at b i) j + 1))) in
    let more = fill-Filled bits i j (n + 1) b' h (put-Filled i j n b h f) in
    if-Filled (leb 2 i) (n + suc (length bits)) b (fill bits i j b')
      (Filled-more n (n + suc (length bits)) b (omega arith) f)
      (Filled-more (n + 1 + length bits) (n + suc (length bits)) (fill bits i j b') (omega arith)
        more)
fill-Filled (false ∷ bits) i j n b h f = elim (ℕ_discrete (j + 1) 25) [
  | yes e ↦ rw e (wider (fill bits (i + 1) 0 b) (fill-Filled bits (i + 1) 0 n b (omega arith) f))
  | no ne ↦
      let c : (j + 1 == 25) ≡ false = ground arith in
      rw c (wider (fill bits i (j + 1) b) (fill-Filled bits i (j + 1) n b (omega arith) f))
]
  where
    wider : (a : TanBoard) → Filled (n + length bits) a → Filled (n + suc (length bits)) a
    wider a g = Filled-more (n + length bits) (n + suc (length bits)) a (omega arith) g

length-bits_of : (n cur : ℕ) (after : List Bool) → length (bits_of n cur after) ≡ n + length after
unfolding bits_of
length-bits_of zero cur after = omega arith
length-bits_of (suc n) cur after = omega (arith, length-bits_of n (cur / 2) after)

pub length-key_bits : (auch : List ℕ) → length (key_bits auch) ≡ 8 * length auch
unfolding key_bits
length-key_bits [] = refl
length-key_bits (cur ∷ auch) =
    omega (arith, length-bits_of 8 cur (key_bits auch), length-key_bits auch)

length-key_bytes : (ach : List ℕ) → length (key_bytes ach) ≡ 10
unfolding key_bytes three_bytes
length-key_bytes ach = refl

Small-few : (row : List ℕ) → total row ≤ 80 → Small row
Small-few [] h = tt
Small-few (x ∷ row) h = (omega arith, Small-few row (omega arith))

-- Whatever the string, the board that `PositionFromID` leaves has 25 points a side and at most 80
-- chequers on each; it returns true exactly when the board is legal: at most 15 chequers a side, no
-- point with chequers of both, and not both players on the bar against closed home boards.
pub position_from_id-IsLegal :
    (sz : List ℕ)
    → Filled 80 (position_from_id sz).0
      × (((position_from_id sz).1 ≡ true)
          ↔ (IsLegal (position_from_id sz).0 × SomeoneMoves (position_from_id sz).0))
unfolding position_from_id old_position_from_key
position_from_id-IsLegal sz = (
  Filled-more (0 + length (key_bits auch)) 80 b (let e = eighty in omega arith) filled,
  check_position_iff b sized,
)
  where
    auch : List ℕ
    auch = key_bytes (digits l_position_id sz)

    b : TanBoard
    b = old_position_from_key auch

    filled : Filled (0 + length (key_bits auch)) b
    filled =
        fill-Filled (key_bits auch) 0 0 0 _ (omega arith)
          (record { row0 = refl; row1 = refl; few0 = omega arith; few1 = omega arith })

    eighty : length (key_bits auch) ≡ 80
    eighty = length-key_bits auch ∙ ap (λ n. 8 * n) (length-key_bytes (digits l_position_id sz))

    sized : Sized b
    sized = record {
      row0 = filled.row0;
      row1 = filled.row1;
      small0 = Small-few b.p0 (omega (arith, filled.few0, eighty));
      small1 = Small-few b.p1 (omega (arith, filled.few1, eighty));
    }
