-- ===== src/Position/Xg/Steps.antt =====
-- One character in the loop of `PositionFromXG`, engine-core/positionid.c.
use gnubg_android.Base.{
  ℕ, ◌+◌, ◌-◌, ◌<◌, ◌≡◌, ◌≢◌, refl, ◌∙◌, inl, inr, Bool, true, false, ◌||◌, Bool-cases, Option,
  some, ◌>>=◌, List, leb, ◌==◌, if◌then◌else◌, set, arith,
}
use gnubg_android.Base.Int.{ℤ, is_neg}
use gnubg_android.Board.{TanBoard}
use gnubg_android.Position.Xg.{is_upper, is_lower, store, put_if, p0_of, p1_of, xg_step}

-- The chequers of the two sides that a character stands for, and whether it is one that is read.
abbrev pub side0 : ℕ → ℕ
side0 ch = if is_lower ch then ch - 96 else 0

abbrev pub side1 : ℕ → ℕ
side1 ch = if is_upper ch then ch - 64 else 0

abbrev pub known : ℕ → Bool
known ch = is_upper ch || is_lower ch || ch == 45

-- The board after a character that is read.
abbrev pub written : TanBoard → ℕ → ℕ → TanBoard
written b i ch = record {
  p0 = if i == 25 then b.p0 else set b.p0 (24 - i) (side0 ch);
  p1 = if i == 0 then b.p1 else set b.p1 (i - 1) (side1 ch);
}

put_if_p0 :
    (i v : ℕ) (row : List ℕ)
    → i < 26
    → put_if (p0_of i) v row ≡ some (if i == 25 then row else set row (24 - i) v)
unfolding put_if store
put_if_p0 i v row h = elim (Bool-cases (i == 25)) [
  | inl last ↦ let t : (i == 0) ≡ false = ground arith in rw (t, last) refl
  | inr before ↦ elim (Bool-cases (i == 0)) [
    | inl first ↦ let e : 24 - i ≡ 24 = ground arith in rw (first, before) (rw e refl)
    | inr after ↦ let t : leb 25 (24 - i) ≡ false = ground arith in rw (after, before) (rw t refl)
  ]
]

put_if_p1 :
    (i v : ℕ) (row : List ℕ)
    → i < 26
    → put_if (p1_of i) v row ≡ some (if i == 0 then row else set row (i - 1) v)
unfolding put_if store
put_if_p1 i v row h = elim (Bool-cases (i == 0)) [
  | inl first ↦ rw first refl
  | inr after ↦ elim (Bool-cases (i == 25)) [
    | inl last ↦ let e : i - 1 ≡ 24 = ground arith in rw (after, last) (rw e refl)
    | inr before ↦ let t : leb 25 (i - 1) ≡ false = ground arith in rw (after, before) (rw t refl)
  ]
]

-- A write without the test is one with it, where the index is not -1.
store-put_if : (p : ℤ) (v : ℕ) (row : List ℕ) → is_neg p ≡ false → store row p v ≡ put_if p v row
unfolding put_if
store-put_if p v row h = rw h refl

-- The two writes of a step, one after the other.
abbrev going : List ℕ → List ℕ → Option (TanBoard × Bool)
going row0 row1 = some (record { p0 = row0; p1 = row1 }, true)

both :
    (r0 r1 : Option (List ℕ)) (row0 row1 : List ℕ)
    → r0 ≡ some row0
    → r1 ≡ some row1
    → (r0 >>= λ x. r1 >>= λ y. going x y) ≡ going row0 row1
both r0 r1 row0 row1 e0 e1 = rw (e0, e1) refl

module _ (b : TanBoard) (i ch : ℕ) (h : i < 26) where
  step_upper : is_upper ch ≡ true → i ≢ 0 → xg_step b i ch ≡ some (written b i ch, true)
  unfolding xg_step
  step_upper u ne =
      let low : is_lower ch ≡ false = ground arith in
      let inside : is_neg (p1_of i) ≡ false = ground arith in
      let v : ch - 65 + 1 ≡ ch - 64 = ground arith in
      rw (u, low, v)
        (both _ _ _ _ (put_if_p0 i 0 b.p0 h)
          (store-put_if (p1_of i) (ch - 64) b.p1 inside ∙ put_if_p1 i (ch - 64) b.p1 h))

  step_lower : is_lower ch ≡ true → i ≢ 25 → xg_step b i ch ≡ some (written b i ch, true)
  unfolding xg_step
  step_lower l ne =
      let up : is_upper ch ≡ false = ground arith in
      let inside : is_neg (p0_of i) ≡ false = ground arith in
      let v : ch - 97 + 1 ≡ ch - 96 = ground arith in
      rw (l, up, v)
        (both _ _ _ _ (store-put_if (p0_of i) (ch - 96) b.p0 inside ∙ put_if_p0 i (ch - 96) b.p0 h)
          (put_if_p1 i 0 b.p1 h))

  step_dash :
      is_upper ch ≡ false
      → is_lower ch ≡ false
      → (ch == 45) ≡ true
      → xg_step b i ch ≡ some (written b i ch, true)
  unfolding xg_step
  step_dash u l d = rw (u, l, d) (both _ _ _ _ (put_if_p0 i 0 b.p0 h) (put_if_p1 i 0 b.p1 h))

  pub step_known :
      known ch ≡ true
      → (i ≡ 0 → is_upper ch ≡ false)
      → (i ≡ 25 → is_lower ch ≡ false)
      → xg_step b i ch ≡ some (written b i ch, true)
  step_known k first last = elim (Bool-cases (is_upper ch)) [
    | inl u ↦ step_upper u (λ e. let z = first e in absurd (cc))
    | inr u ↦ elim (Bool-cases (is_lower ch)) [
      | inl l ↦ step_lower l (λ e. let z = last e in absurd (cc))
      | inr l ↦ step_dash u l (ground arith)
    ]
  ]

  pub step_other : known ch ≡ false → xg_step b i ch ≡ some (b, false)
  unfolding xg_step
  step_other k =
      let u : is_upper ch ≡ false = ground arith in
      let l : is_lower ch ≡ false = ground arith in
      let d : (ch == 45) ≡ false = ground arith in rw (u, l, d) refl
