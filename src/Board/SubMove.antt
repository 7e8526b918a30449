-- ===== src/Board/SubMove.antt =====
-- What a sub-move does to a legal board, engine-core/eval.c `ApplySubMove` and `PipCount`.
use gnubg_android.Base.{
  ℕ, ◌+◌, ◌-◌, ◌≤◌, ◌<◌, ◌≡◌, refl, ◌∙◌, Bool, true, ◌||◌, get_or-set, set, length-set, ltb, ◌==◌,
  lt→ltb, le→not_ltb, if◌then◌else◌, dec_lt, arith, min,
}
use gnubg_android.Base.Int.{ℤ, pos, negsuc, ◌-ℤ◌, -ℤ_parts, is_neg}
use gnubg_android.Board.{TanBoard, point, apply_sub_move, lift, land, pip_count}
use gnubg_android.Board.Sums.{total, pips, total-set, pips_drop, pip_count-eq-pips}
use gnubg_android.Board.Legal.{IsLegal, Landed, land-Landed}

-- What a sub-move from point `s` by `r` pips changes on a legal board. The mover loses `r` pips, or
-- all those of the chequer if it is borne off. A blot that is hit goes to the bar and adds the pips
-- from there to the opponent's count.
pub record SubMoved (b : TanBoard) (s r : ℕ) (b' : TanBoard) : Type 0 where
  pub legal : IsLegal b'
  pub own : total b'.p1 + (if ltb s r then 1 else 0) ≡ total b.p1
  pub own_pips : (pip_count b').p1 + min r (s + 1) ≡ (pip_count b).p1
  pub other : total b'.p0 ≡ total b.p0
  pub other_pips :
      (pip_count b').p0
      ≡ (pip_count b).p0 + (if ltb s r || point b.p0 (23 - (s - r)) == 0 then 0 else s - r + 1)

pip_count-IsLegal :
    (b : TanBoard) → IsLegal b → ((pip_count b).p0 ≡ pips 0 b.p0) × ((pip_count b).p1 ≡ pips 0 b.p1)
pip_count-IsLegal b v = pip_count-eq-pips b v.row0 v.row1 v.few0 v.few1

module _ (b : TanBoard) (s : ℕ) (v : IsLegal b) (h : s < 25) (busy : 1 ≤ point b.p1 s) where
  abbrev pub lifted : TanBoard
  lifted = record b { p1 = set b.p1 s (point b.p1 s - 1) }

  lifted_total : total lifted.p1 + 1 ≡ total b.p1
  lifted_total = omega (arith, total-set b.p1 s (point b.p1 s - 1) (omega arith))

  lifted_pips : pips 0 lifted.p1 + (s + 1) ≡ pips 0 b.p1
  lifted_pips = pips_drop b.p1 s (point b.p1 s - 1) (omega arith) (omega arith)

  pub lifted-IsLegal : IsLegal lifted
  lifted-IsLegal = record {
    row0 = v.row0;
    row1 = length-set b.p1 s (point b.p1 s - 1) ∙ v.row1;
    few0 = v.few0;
    few1 = omega (arith, lifted_total);
    apart = λ i hi.
        ground (arith, v.apart i hi, get_or-set b.p1 s i (point b.p1 s - 1) 0 (omega arith));
  }

  counts : ((pip_count b).p0 ≡ pips 0 b.p0) × ((pip_count b).p1 ≡ pips 0 b.p1)
  counts = pip_count-IsLegal b v

  borne_off : (r : ℕ) → s < r → SubMoved b s r lifted
  borne_off r off =
      let after = pip_count-IsLegal lifted lifted-IsLegal in
      let away = lt→ltb s r off in
      record {
        legal = lifted-IsLegal;
        own = rw away lifted_total;
        own_pips = omega (arith, lifted_pips, counts);
        other = refl;
        other_pips = rw away (omega (arith, counts));
      }

  module _ (r : ℕ) (stays : r ≤ s) (moves : 0 < r) (b' : TanBoard)
      (on : Landed lifted (s - r) b') where
    landed-IsLegal : IsLegal b'
    landed-IsLegal = record {
      row0 = on.row0 ∙ v.row0;
      row1 = on.row1 ∙ lifted-IsLegal.row1;
      few0 = omega (arith, on.other, v.few0);
      few1 = omega (arith, on.own, lifted_total, v.few1);
      apart = on.apart;
    }

    moved_on : SubMoved b s r b'
    moved_on =
        let after = pip_count-IsLegal b' landed-IsLegal in
        let here = le→not_ltb s r stays in
        record {
          legal = landed-IsLegal;
          own = rw here (omega (arith, on.own, lifted_total));
          own_pips = omega (arith, on.own_pips, lifted_pips, counts);
          other = on.other;
          other_pips = rw here (omega (arith, on.other_pips, counts));
        }

-- The step from the tests of `ApplySubMove` to `lift`.
pub ok_lift :
    (b : TanBoard) (src n_roll : ℤ) (check : Bool)
    → (apply_sub_move b src n_roll check).1 ≡ pos 0
    → (s r : ℕ) × (src ≡ pos s)
      × (n_roll ≡ pos r)
      × (0 < r)
      × (s < 25)
      × (1 ≤ point b.p1 s)
      × (apply_sub_move b src n_roll check ≡ lift b s (pos s -ℤ pos r))
unfolding apply_sub_move
ok_lift b (pos s) (pos r) check ok =
    let parts = -ℤ_parts (pos s) (pos r) in
    (s, r, refl, refl, ground arith, ground arith, ground arith, ground arith)
ok_lift b (pos s) (negsuc r) check ok =
    let parts = -ℤ_parts (pos s) (negsuc r) in absurd (ground arith)
ok_lift b (negsuc s) n_roll check ok = absurd (ground arith)

-- Where the chequer goes.
pub sub_off : (s r : ℕ) → s < r → is_neg (pos s -ℤ pos r) ≡ true
unfolding ◌-ℤ◌
sub_off s r h = ground arith

pub sub_on : (s r : ℕ) → r ≤ s → pos s -ℤ pos r ≡ pos (s - r)
unfolding ◌-ℤ◌
sub_on s r h = ground arith

pub lift_off :
    (b : TanBoard) (s : ℕ) (z : ℤ)
    → is_neg z ≡ true
    → lift b s z ≡ (record b { p1 = set b.p1 s (point b.p1 s - 1) }, pos 0)
unfolding lift
lift_off b s z h = rw h refl

pub lift_on :
    (b : TanBoard) (s d : ℕ)
    → lift b s (pos d) ≡ land (record b { p1 = set b.p1 s (point b.p1 s - 1) }) d
unfolding lift
lift_on b s d = refl

lift-SubMoved :
    (b : TanBoard) (s r : ℕ)
    → IsLegal b
    → 0 < r
    → s < 25
    → 1 ≤ point b.p1 s
    → (lift b s (pos s -ℤ pos r)).1 ≡ pos 0
    → SubMoved b s r (lift b s (pos s -ℤ pos r)).0
lift-SubMoved b s r v hr hs busy = elim (dec_lt s r) [
  | yes off ↦
      rw (lift_off b s (pos s -ℤ pos r) (sub_off s r off)) (λ _. borne_off b s v hs busy r off)
  | no stays ↦
      let on = lifted-IsLegal b s v hs busy in
      rw (sub_on s r (omega arith)) (
        rw (lift_on b s (s - r)) (λ ok. moved_on b s v hs busy r (omega arith) hr _ (
          land-Landed (lifted b s v hs busy) (s - r) on.row0 on.row1 (omega arith) on.few0 on.few1
            on.apart ok)))
]

-- A sub-move that `ApplySubMove` accepts on a legal board, whether or not it checks the dice: it
-- moves one chequer of the mover, by `r` pips or off the board; the board stays legal; the mover's
-- pip count falls by `r`, or by all the pips of a chequer that is borne off; the opponent keeps all
-- chequers, and a blot that is hit adds the pips from the bar.
pub apply_sub_move_ok :
    (b : TanBoard) (src n_roll : ℤ) (check : Bool)
    → IsLegal b
    → (apply_sub_move b src n_roll check).1 ≡ pos 0
    → (s r : ℕ) × (src ≡ pos s)
      × (n_roll ≡ pos r)
      × SubMoved b s r (apply_sub_move b src n_roll check).0
apply_sub_move_ok b src n_roll check v ok =
    let (s, r, es, er, hr, hs, busy, e) = ok_lift b src n_roll check ok in
    (s, r, es, er, rw e (lift-SubMoved b s r v hr hs busy (rw (← e) ok)))
