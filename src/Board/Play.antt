-- ===== src/Board/Play.antt =====
-- Whole moves on a board, engine-core/eval.c `ApplyMove`, and when a sub-move is accepted,
-- `LegalMove` against `ApplySubMove`.
use gnubg_android.Base.{
  ℕ, ◌+◌, ◌-◌, ◌≤◌, ◌<◌, ◌≡◌, refl, sym, ◌∙◌, ap, inl, inr, Bool, Bool-cases, true, false, List, [],
  ◌∷◌, ◌++◌, if◌then◌else◌, dec_lt, arith,
}
use gnubg_android.Base.Int.{ℤ, pos, negsuc, ◌-ℤ◌, -ℤ_parts, is_neg}
use gnubg_android.Board.{TanBoard, point, apply_sub_move, apply_move, legal_move, lift}
use gnubg_android.Board.Legal.{IsLegal, land_ok}
use gnubg_android.Board.SubMove.{sub_off, sub_on, lift_off, lift_on, lifted, lifted-IsLegal}

-- The tests of `ApplySubMove` are passed.
passes :
    (b : TanBoard) (s r : ℕ) (check : Bool)
    → 0 < r
    → r ≤ 6
    → s < 25
    → 1 ≤ point b.p1 s
    → apply_sub_move b (pos s) (pos r) check ≡ lift b s (pos s -ℤ pos r)
unfolding apply_sub_move
passes b s r check h k l m = let parts = -ℤ_parts (pos s) (pos r) in ground arith

back_one : (n : ℕ) → pos n -ℤ negsuc 0 ≡ pos (n + 1)
unfolding ◌-ℤ◌
back_one n = ground arith

legal_on :
    (b : TanBoard) (s r : ℕ)
    → r ≤ s
    → legal_move b (pos s) (pos r) ≡ true
    → point b.p0 (23 - (s - r)) ≤ 1
unfolding legal_move
legal_on b s r le h = let e = sub_on s r le in ground arith

-- What is recorded of a pair: a negative entry becomes -1.
abbrev pub clamp : ℤ → ℤ
clamp z = if is_neg z then negsuc 0 else z

-- Bearing off by more pips than needed is bearing off.
clamped_off :
    (b : TanBoard) (s r : ℕ)
    → 0 < r
    → r ≤ 6
    → s < r
    → s < 25
    → 1 ≤ point b.p1 s
    → apply_sub_move b (pos s) (pos s -ℤ negsuc 0) true ≡ apply_sub_move b (pos s) (pos r) true
clamped_off b s r h k off l m =
    let e : pos s -ℤ negsuc 0 ≡ pos (s + 1) = back_one s in
    rw e (
      passes b s (s + 1) true (omega arith) (omega arith) l m
      ∙ (lift_off b s (pos s -ℤ pos (s + 1)) (sub_off s (s + 1) (omega arith))
          ∙ (sym (lift_off b s (pos s -ℤ pos r) (sub_off s r off))
              ∙ sym (passes b s r true h k l m))))

-- The chequer leaves the point, and lands where one of the opponent's at most stands.
pub sub_move_accepted :
    (b : TanBoard) (s r : ℕ)
    → IsLegal b
    → 0 < r
    → r ≤ 6
    → s < 25
    → 1 ≤ point b.p1 s
    → (r ≤ s → point b.p0 (23 - (s - r)) ≤ 1)
    → (apply_sub_move b (pos s) (pos r) true).1 ≡ pos 0
sub_move_accepted b s r v h k l m free = elim (dec_lt s r) [
  | yes off ↦
      ap (λ p. p.1) (passes b s r true h k l m ∙ lift_off b s (pos s -ℤ pos r) (sub_off s r off))
  | no stays ↦
      let on = lifted-IsLegal b s v l m in
      ap (λ p. p.1)
        (passes b s r true h k l m
          ∙ (ap (lift b s) (sub_on s r (omega arith)) ∙ lift_on b s (s - r)))
      ∙ land_ok (lifted b s v l m) (s - r) on.row0 on.row1 (omega arith) on.few0 on.few1 on.apart
          (free (omega arith))
]

-- On a legal board a sub-move that `LegalMove` allows from an occupied point, with a die from 1 to 6,
-- is accepted by `ApplySubMove` with the dice checked.
pub legal_move-accepted :
    (b : TanBoard) (s r : ℕ)
    → IsLegal b
    → 0 < r
    → r ≤ 6
    → s < 25
    → 1 ≤ point b.p1 s
    → legal_move b (pos s) (pos r) ≡ true
    → (apply_sub_move b (pos s) (pos r) true).1 ≡ pos 0
legal_move-accepted b s r v h k l m legal = sub_move_accepted b s r v h k l m open_point
  where
    open_point : r ≤ s → point b.p0 (23 - (s - r)) ≤ 1
    open_point le = legal_on b s r le legal

-- The sources before the terminator.
abbrev pub Forward : List (ℤ × ℤ) → Type 0
Forward [] = Unit {0}
Forward ((src, dest) ∷ moves) = (is_neg src ≡ false) × Forward moves

pub Forward-snoc :
    (xs : List (ℤ × ℤ)) (src dest : ℤ)
    → Forward xs
    → is_neg src ≡ false
    → Forward (xs ++ ((src, dest) ∷ []))
Forward-snoc [] src dest h k = (k, tt)
Forward-snoc (x ∷ xs) src dest h k = (h.0, Forward-snoc xs src dest h.1 k)

pub apply_move_nil : (b : TanBoard) (check : Bool) → apply_move b [] check ≡ (b, pos 0)
unfolding apply_move
apply_move_nil b check = refl

module _ (b : TanBoard) (s d : ℤ) (xs : List (ℤ × ℤ)) (check : Bool) (h : is_neg s ≡ false) where
  pub step_fails :
      is_neg (apply_sub_move b s (s -ℤ d) check).1 ≡ true
      → apply_move b ((s, d) ∷ xs) check ≡ ((apply_sub_move b s (s -ℤ d) check).0, negsuc 0)
  unfolding apply_move
  step_fails bad = rw h (rw bad refl)

  pub step_goes :
      is_neg (apply_sub_move b s (s -ℤ d) check).1 ≡ false
      → apply_move b ((s, d) ∷ xs) check ≡ apply_move (apply_sub_move b s (s -ℤ d) check).0 xs check
  unfolding apply_move
  step_goes good = rw h (rw good refl)

-- One more sub-move at the end of a move that was applied.
pub apply_move_snoc :
    (xs : List (ℤ × ℤ)) (b b' : TanBoard) (src dest : ℤ) (check : Bool)
    → Forward xs
    → apply_move b xs check ≡ (b', pos 0)
    → apply_move b (xs ++ ((src, dest) ∷ [])) check ≡ apply_move b' ((src, dest) ∷ []) check
apply_move_snoc [] b b' src dest check h e =
    ap (λ (x : TanBoard). apply_move x ((src, dest) ∷ []) check)
      (ap (λ (p : TanBoard × ℤ). p.0) (sym (apply_move_nil b check) ∙ e))
apply_move_snoc ((s, d) ∷ xs) b b' src dest check h e =
    let (b1, code) = apply_sub_move b s (s -ℤ d) check in
    elim (Bool-cases (is_neg code)) [
      | inl bad ↦ cc (step_fails b s d xs check h.0 bad, e)
      | inr good ↦
          step_goes b s d (xs ++ ((src, dest) ∷ [])) check h.0 good
          ∙ apply_move_snoc xs b1 b' src dest check h.1
              (sym (step_goes b s d xs check h.0 good) ∙ e)
    ]

-- The recorded pair plays what the search played.
recorded_same :
    (b : TanBoard) (s r : ℕ)
    → 0 < r
    → r ≤ 6
    → s < 25
    → 1 ≤ point b.p1 s
    → apply_sub_move b (pos s) (pos s -ℤ clamp (pos s -ℤ pos r)) true
      ≡ apply_sub_move b (pos s) (pos r) true
recorded_same b s r h k l m = elim (dec_lt s r) [
  | yes off ↦ rw (sub_off s r off) (clamped_off b s r h k off l m)
  | no stays ↦
      let back : s - (s - r) ≡ r = omega arith in
      rw (sub_on s r (omega arith)) (rw (sub_on s (s - r) (omega arith), back) refl)
]

pub apply_move_single :
    (b : TanBoard) (s r : ℕ)
    → 0 < r
    → r ≤ 6
    → s < 25
    → 1 ≤ point b.p1 s
    → (apply_sub_move b (pos s) (pos r) true).1 ≡ pos 0
    → apply_move b ((pos s, clamp (pos s -ℤ pos r)) ∷ []) true
      ≡ ((apply_sub_move b (pos s) (pos r) true).0, pos 0)
apply_move_single b s r h k l m ok =
    let same = recorded_same b s r h k l m in
    let good : is_neg (apply_sub_move b (pos s) (pos s -ℤ clamp (pos s -ℤ pos r)) true).1 ≡ false =
      rw same (rw ok refl) in
    step_goes b (pos s) (clamp (pos s -ℤ pos r)) [] true refl good
    ∙ (apply_move_nil _ true ∙ ap (λ (p : TanBoard × ℤ). (p.0, pos 0)) same)
