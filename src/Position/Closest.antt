-- ===== src/Position/Closest.antt =====
-- `ClosestLegalPosition` of engine-core/positionid.c against `CheckPosition`.
use gnubg_android.Base.{
  ℕ, zero, suc, ◌-◌, ◌≤◌, ◌<◌, ◌≡◌, refl, ◌∙◌, ap, Bool-cases, true, inl, inr, List, [], ◌∷◌, ltb,
  leb, not_ltb→le, le→leb, if◌then◌else◌, get_or-set, set, set_same, length, length-set, ℕ_discrete,
  arith,
}
use gnubg_android.Board.{TanBoard, point}
use gnubg_android.Board.Sums.{total, total-set}
use gnubg_android.Position.Check.{
  limit_row, clear_shared, closest_legal_position, open_point, check_position, Sized, Small,
  SomeoneMoves, open_point_iff, ApartBelow, Apart-flip, Apart-below, check_position_iff,
}

length-limit_row : (ac : ℕ) (row : List ℕ) → length (limit_row ac row) ≡ length row
unfolding limit_row
length-limit_row ac [] = refl
length-limit_row ac (x ∷ row) = ap suc (length-limit_row (if leb x ac then ac - x else 0) row)

total-limit_row : (ac : ℕ) (row : List ℕ) → total (limit_row ac row) ≤ ac
unfolding limit_row
total-limit_row ac [] = omega arith
total-limit_row ac (x ∷ row) = ground (arith, total-limit_row (if leb x ac then ac - x else 0) row)

limit_row_id : (ac : ℕ) (row : List ℕ) → total row ≤ ac → limit_row ac row ≡ row
unfolding limit_row
limit_row_id ac [] h = refl
limit_row_id ac (x ∷ row) h =
    rw (le→leb x ac (omega arith)) (ap (λ r. x ∷ r) (limit_row_id (ac - x) row (omega arith)))

-- One step of the loop.
abbrev cleared : List ℕ → ℕ → List ℕ → List ℕ
cleared row0 n row1 = if ltb 0 (point row0 n) then set row1 (23 - n) 0 else row1

length-cleared :
    (row0 : List ℕ) (n : ℕ) (row1 : List ℕ) → length (cleared row0 n row1) ≡ length row1
length-cleared row0 n row1 = ground (arith, length-set row1 (23 - n) 0)

point-cleared :
    (row0 : List ℕ) (n : ℕ) (row1 : List ℕ) (j : ℕ)
    → length row1 ≡ 25
    → point (cleared row0 n row1) j ≤ point row1 j
point-cleared row0 n row1 j l = ground (arith, get_or-set row1 (23 - n) j 0 0 (omega arith))

total-cleared :
    (row0 : List ℕ) (n : ℕ) (row1 : List ℕ)
    → length row1 ≡ 25
    → total (cleared row0 n row1) ≤ total row1
total-cleared row0 n row1 l = ground (arith, total-set row1 (23 - n) 0 (omega arith))

length-clear_shared :
    (row0 : List ℕ) (n : ℕ) (row1 : List ℕ) → length (clear_shared row0 n row1) ≡ length row1
unfolding clear_shared
length-clear_shared row0 zero row1 = refl
length-clear_shared row0 (suc n) row1 =
    length-clear_shared row0 n (cleared row0 n row1) ∙ length-cleared row0 n row1

point-clear_shared :
    (row0 : List ℕ) (n : ℕ) (row1 : List ℕ) (j : ℕ)
    → length row1 ≡ 25
    → point (clear_shared row0 n row1) j ≤ point row1 j
unfolding clear_shared
point-clear_shared row0 zero row1 j l = omega arith
point-clear_shared row0 (suc n) row1 j l =
    let inner =
      point-clear_shared row0 n (cleared row0 n row1) j (length-cleared row0 n row1 ∙ l) in
    let outer = point-cleared row0 n row1 j l in omega arith

total-clear_shared :
    (row0 : List ℕ) (n : ℕ) (row1 : List ℕ)
    → length row1 ≡ 25
    → total (clear_shared row0 n row1) ≤ total row1
unfolding clear_shared
total-clear_shared row0 zero row1 l = omega arith
total-clear_shared row0 (suc n) row1 l =
    let inner = total-clear_shared row0 n (cleared row0 n row1) (length-cleared row0 n row1 ∙ l) in
    let outer = total-cleared row0 n row1 l in omega arith

clear_shared_apart :
    (row0 : List ℕ) (n : ℕ) (row1 : List ℕ)
    → n ≤ 24
    → length row1 ≡ 25
    → ApartBelow (record { p0 = row0; p1 = clear_shared row0 n row1 }) n
unfolding clear_shared
clear_shared_apart row0 zero row1 h l i lt = elim lt [ ]
clear_shared_apart row0 (suc n) row1 h l i lt = elim (ℕ_discrete i n) [
  | no ne ↦
      clear_shared_apart row0 n (cleared row0 n row1) (omega arith) (length-cleared row0 n row1 ∙ l)
        i (omega arith)
  | yes e ↦ elim (Bool-cases (ltb 0 (point row0 n))) [
    | inr zero_here ↦ inl (rw e (let z = not_ltb→le 0 (point row0 n) zero_here in omega arith))
    | inl here ↦ inr (rw (e, here) (cleared_there row0 n row1 l (omega arith)))
  ]
]
  where
    cleared_there :
        (row0 : List ℕ) (n : ℕ) (row1 : List ℕ)
        → length row1 ≡ 25
        → n < 24
        → point (clear_shared row0 n (set row1 (23 - n) 0)) (23 - n) ≡ 0
    cleared_there row0 n row1 l k =
        let below =
          point-clear_shared row0 n (set row1 (23 - n) 0) (23 - n)
            (length-set row1 (23 - n) 0 ∙ l) in
        let there : point (set row1 (23 - n) 0) (23 - n) ≡ 0 =
          get_or-set row1 (23 - n) (23 - n) 0 0 (omega arith) ∙ ground arith in
        omega arith

clear_shared_id :
    (row0 : List ℕ) (n : ℕ) (row1 : List ℕ)
    → n ≤ 24
    → length row1 ≡ 25
    → ApartBelow (record { p0 = row0; p1 = row1 }) n
    → clear_shared row0 n row1 ≡ row1
unfolding clear_shared
clear_shared_id row0 zero row1 h l a = refl
clear_shared_id row0 (suc n) row1 h l a =
    ap (clear_shared row0 n) same
    ∙ clear_shared_id row0 n row1 (omega arith) l (λ i k. a i (omega arith))
  where
    same : cleared row0 n row1 ≡ row1
    same = ground (arith, a n (omega arith), set_same row1 (23 - n) 0 0 (omega arith))

Small-total : (row : List ℕ) → total row ≤ 15 → Small row
Small-total [] h = tt
Small-total (x ∷ row) h = (omega arith, Small-total row (omega arith))

-- What the limits on the two rows leave.
accepted :
    (row0 row1 : List ℕ)
    → length row0 ≡ 25
    → length row1 ≡ 25
    → total row0 ≤ 15
    → total row1 ≤ 15
    → ApartBelow (record { p0 = row0; p1 = row1 }) 24
    → SomeoneMoves (record { p0 = row0; p1 = row1 })
    → check_position (record { p0 = row0; p1 = row1 }) ≡ true
accepted row0 row1 l0 l1 t0 t1 a moves =
    let b : TanBoard = record { p0 = row0; p1 = row1 } in
    (check_position_iff b (record {
      row0 = l0;
      row1 = l1;
      small0 = Small-total row0 t0;
      small1 = Small-total row1 t1;
    })).1
      (record { row0 = l0; row1 = l1; few0 = t0; few1 = t1; apart = Apart-flip b a }, moves)

module _ (b : TanBoard) (l0 : length b.p0 ≡ 25) (l1 : length b.p1 ≡ 25) where
  abbrev row0 : List ℕ
  row0 = limit_row 15 b.p0

  abbrev row1 : List ℕ
  row1 = clear_shared row0 24 (limit_row 15 b.p1)

  limited_length : length (limit_row 15 b.p1) ≡ 25
  limited_length = length-limit_row 15 b.p1 ∙ l1

  row0_length : length row0 ≡ 25
  row0_length = length-limit_row 15 b.p0 ∙ l0

  row1_length : length row1 ≡ 25
  row1_length = length-clear_shared row0 24 (limit_row 15 b.p1) ∙ limited_length

  row1_total : total row1 ≤ 15
  row1_total =
      let cut = total-limit_row 15 b.p1 in
      let fewer = total-clear_shared row0 24 (limit_row 15 b.p1) limited_length in omega arith

  row1_apart : ApartBelow (record { p0 = row0; p1 = row1 }) 24
  row1_apart = clear_shared_apart row0 24 (limit_row 15 b.p1) (omega arith) limited_length

  no_bar_apart : ApartBelow (record { p0 = row0; p1 = set row1 24 0 }) 24
  no_bar_apart i lt = elim (row1_apart i lt) [
    | inl free ↦ inl free
    | inr free ↦
        inr (get_or-set row1 24 (23 - i) 0 0 (omega (arith, row1_length)) ∙ ground (arith, free))
  ]

  -- On any board of 25 points a side, whatever numbers they hold, `ClosestLegalPosition` leaves a
  -- board that `CheckPosition` accepts.
  pub check_position-closest_legal_position : check_position (closest_legal_position b) ≡ true
  unfolding closest_legal_position
  check_position-closest_legal_position =
      elim (Bool-cases (open_point (record { p0 = row0; p1 = row1 }) 6)) [
        | inl way ↦ rw way (
            accepted row0 row1 row0_length row1_length (total-limit_row 15 b.p0) row1_total
              row1_apart (inl ((open_point_iff _ 6).0 way)))
        | inr shut ↦ elim (Bool-cases (ltb 0 (point row0 24))) [
          | inl bar ↦
              rw (shut, bar)
                (accepted row0 (set row1 24 0) row0_length (length-set row1 24 0 ∙ row1_length)
                  (total-limit_row 15 b.p0)
                  (let fewer = total-set row1 24 0 (omega (arith, row1_length)) in
                    omega (arith, row1_total))
                  no_bar_apart
                  (inr
                    (inr (get_or-set row1 24 24 0 0 (omega (arith, row1_length)) ∙ ground arith))))
          | inr bar ↦
              rw (shut, bar)
                (accepted row0 row1 row0_length row1_length (total-limit_row 15 b.p0) row1_total
                  row1_apart (inr (inl (let z = not_ltb→le 0 (point row0 24) bar in omega arith))))
        ]
      ]

-- The last test of `ClosestLegalPosition`, on rows that its limits leave as they are.
abbrev kept : TanBoard → TanBoard
kept b =
    if open_point b 6
    then b
    else if ltb 0 (point b.p0 24)
    then record b { p1 = set b.p1 24 0 }
    else b

kept_id : (b : TanBoard) → SomeoneMoves b → (point b.p1 24 ≡ 0 → set b.p1 24 0 ≡ b.p1) → kept b ≡ b
kept_id b (inl way) same = rw ((open_point_iff b 6).1 way) refl
kept_id b (inr (inl none)) same = rw none (ground arith)
kept_id b (inr (inr none)) same = rw (same none) (ground arith)

-- `ClosestLegalPosition` leaves a board of 25 points a side that `CheckPosition` accepts, and whose
-- entries do not overflow its sums, as it is.
closest_legal_position_id :
    (b : TanBoard) → Sized b → check_position b ≡ true → closest_legal_position b ≡ b
unfolding closest_legal_position
closest_legal_position_id b z h =
    let (v, moves) = (check_position_iff b z).0 h in
    let e0 : limit_row 15 b.p0 ≡ b.p0 = limit_row_id 15 b.p0 v.few0 in
    let e1 : limit_row 15 b.p1 ≡ b.p1 = limit_row_id 15 b.p1 v.few1 in
    let e2 : clear_shared b.p0 24 b.p1 ≡ b.p1 =
      clear_shared_id b.p0 24 b.p1 (omega arith) z.row1 (Apart-below b v.apart) in
    let e : closest_legal_position b ≡ kept b = rw (e0, e1, e2) refl in
    e ∙ kept_id b moves (set_same b.p1 24 0 0 (omega (arith, z.row1)))
