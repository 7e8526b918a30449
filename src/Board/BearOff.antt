-- ===== src/Board/BearOff.antt =====
-- When `LegalMove` of engine-core/eval.c lets a chequer be borne off.
use gnubg_android.Base.{
  ℕ, zero, suc, ◌+◌, ◌-◌, ◌≤◌, ◌<◌, ◌≡◌, ◌⊎◌, ◌↔◌, inl, inr, refl, Bool-cases, true, List, ltb,
  ltb→lt, not_ltb→le, dec_lt, ℕ_discrete, arith,
}
use gnubg_android.Base.Int.{pos, negsuc, ◌-ℤ◌}
use gnubg_android.Board.{TanBoard, point, legal_move, back_from}
use gnubg_android.Board.SubMove.{sub_on}

back_from_le : (row : List ℕ) (n : ℕ) → back_from row n ≤ n
unfolding back_from
back_from_le row zero = omega arith
back_from_le row (suc n) = ground (arith, back_from_le row n)

-- Nothing stands behind the rearmost chequer,
behind_back : (row : List ℕ) (n i : ℕ) → i ≤ n → back_from row n < i → point row i ≡ 0
unfolding back_from
behind_back row zero i h k = absurd (omega arith)
behind_back row (suc n) i h k = elim (Bool-cases (ltb 0 (point row (suc n)))) [
  | inl here ↦ absurd (let e : back_from row (suc n) ≡ suc n = rw here refl in omega arith)
  | inr free ↦
      let e : back_from row (suc n) ≡ back_from row n = rw free refl in
      elim (ℕ_discrete i (suc n)) [
        | yes top ↦ rw top (let z = not_ltb→le 0 (point row (suc n)) free in omega arith)
        | no below ↦ behind_back row n i (omega arith) (omega arith)
      ]
]

-- and it stands on a point, unless it is the ace point that is found for want of another.
back_occupied : (row : List ℕ) (n : ℕ) → 0 < back_from row n → 1 ≤ point row (back_from row n)
unfolding back_from
back_occupied row zero h = absurd (omega arith)
back_occupied row (suc n) h = elim (Bool-cases (ltb 0 (point row (suc n)))) [
  | inl here ↦ let z = ltb→lt 0 (point row (suc n)) here in rw here (omega arith)
  | inr free ↦
      let e : back_from row (suc n) ≡ back_from row n = rw free refl in
      rw free (back_occupied row n (omega arith))
]

-- No chequer of the row stands from point `i` on.
abbrev pub NoneFrom : List ℕ → ℕ → Type 0
NoneFrom row i = (j : ℕ) → i ≤ j → j ≤ 24 → point row j ≡ 0

NoneFrom-iff : (row : List ℕ) (i : ℕ) → 0 < i → (back_from row 24 < i) ↔ NoneFrom row i
NoneFrom-iff row i h = (
  λ k j l m. behind_back row 24 j m (omega arith),
  λ none. elim (dec_lt (back_from row 24) i) [
    | yes before ↦ before
    | no after ↦ absurd (
        let busy = back_occupied row 24 (omega arith) in
        let free = none (back_from row 24) (omega arith) (back_from_le row 24) in omega arith)
  ],
)

sub_below : (s r : ℕ) → s < r → pos s -ℤ pos r ≡ negsuc (r - s - 1)
unfolding ◌-ℤ◌
sub_below s r h = ground arith

tests_off :
    (b : TanBoard) (s r : ℕ)
    → s < r
    → (legal_move b (pos s) (pos r) ≡ true)
      ↔ ((back_from b.p1 24 < 6) × ((s ≡ back_from b.p1 24) ⊎ (s + 1 ≡ r)))
unfolding legal_move
tests_off b s r h = rw (sub_below s r h) (λ e. ground arith, λ e. ground arith)

tests_on :
    (b : TanBoard) (s r : ℕ)
    → r ≤ s
    → (legal_move b (pos s) (pos r) ≡ true) ↔ (point b.p0 (23 - (s - r)) ≤ 1)
unfolding legal_move
tests_on b s r h = rw (sub_on s r h) (λ e. ground arith, λ e. ground arith)

rear_iff :
    (row : List ℕ) (s : ℕ)
    → s ≤ 24
    → 1 ≤ point row s
    → (s ≡ back_from row 24) ↔ NoneFrom row (s + 1)
rear_iff row s h busy =
    let (to, from) = NoneFrom-iff row (s + 1) (omega arith) in
    (
      λ e. to (omega arith),
      λ none. elim (dec_lt (back_from row 24) s) [
        | yes past ↦ absurd (let free = behind_back row 24 s h past in omega arith)
        | no reached ↦ let near = from none in omega arith
      ],
    )

borne_off_iff :
    (b : TanBoard) (s r : ℕ)
    → s ≤ 24
    → 1 ≤ point b.p1 s
    → s < r
    → (legal_move b (pos s) (pos r) ≡ true)
      ↔ (NoneFrom b.p1 6 × ((s + 1 ≡ r) ⊎ NoneFrom b.p1 (s + 1)))
borne_off_iff b s r h busy off = (there, back)
  where
    there :
        legal_move b (pos s) (pos r) ≡ true
        → NoneFrom b.p1 6 × ((s + 1 ≡ r) ⊎ NoneFrom b.p1 (s + 1))
    there e =
        let (home, rear) = (tests_off b s r off).0 e in
        (
          (NoneFrom-iff b.p1 6 (omega arith)).0 home,
          elim rear [ inl last ↦ inr ((rear_iff b.p1 s h busy).0 last) | inr exact ↦ inl exact ],
        )

    back :
        NoneFrom b.p1 6 × ((s + 1 ≡ r) ⊎ NoneFrom b.p1 (s + 1))
        → legal_move b (pos s) (pos r) ≡ true
    back (home, inl exact) =
        (tests_off b s r off).1 ((NoneFrom-iff b.p1 6 (omega arith)).1 home, inr exact)
    back (home, inr last) =
        (tests_off b s r off).1
          ((NoneFrom-iff b.p1 6 (omega arith)).1 home, inl ((rear_iff b.p1 s h busy).1 last))

-- Whether a chequer may be moved from `s` by `r`: within the board, or off it.
abbrev pub MayMove : TanBoard → ℕ → ℕ → Type 0
MayMove b s r =
    ((r ≤ s) × (point b.p0 (23 - (s - r)) ≤ 1))
    ⊎ ((s < r) × (NoneFrom b.p1 6 × ((s + 1 ≡ r) ⊎ NoneFrom b.p1 (s + 1))))

-- `LegalMove` on a chequer that stands on `s`, on a board of any contents. Within the board it asks
-- that the opponent does not hold the point of arrival with two chequers or more. Past the end it
-- asks that all chequers are on the six home points, and that the roll is exact or nothing stands
-- behind `s`.
pub legal_move_iff :
    (b : TanBoard) (s r : ℕ)
    → s ≤ 24
    → 1 ≤ point b.p1 s
    → (legal_move b (pos s) (pos r) ≡ true) ↔ MayMove b s r
legal_move_iff b s r h busy = (there, back)
  where
    there : legal_move b (pos s) (pos r) ≡ true → MayMove b s r
    there e = elim (dec_lt s r) [
      | yes off ↦ inr (off, (borne_off_iff b s r h busy off).0 e)
      | no stays ↦ inl (omega arith, (tests_on b s r (omega arith)).0 e)
    ]

    back : MayMove b s r → legal_move b (pos s) (pos r) ≡ true
    back (inl (stays, free)) = (tests_on b s r stays).1 free
    back (inr (off, borne)) = (borne_off_iff b s r h busy off).1 borne
