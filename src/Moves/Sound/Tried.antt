-- ===== src/Moves/Sound/Tried.antt =====
-- What one call of `GenerateMovesSub` of engine-core/eval.c tries, for two different dice.
use gnubg_android.Base.{
  ℕ, zero, suc, ◌-◌, ◌≤◌, ◌<◌, ◌≡◌, inl, inr, refl, sym, subst, ◌∙◌, ap₂, not, Bool, Bool-cases,
  true, false, ◌&&◌, ◌||◌, List, ltb, leb, ◌==◌, if◌then◌else◌, get_or, lt→ltb, not_ltb→le,
  not_leb→lt, lt→not_leb, ℕ_discrete, arith,
}
use gnubg_android.Base.Int.{pos}
use gnubg_android.Board.{TanBoard, point, apply_sub_move, legal_move}
use gnubg_android.Board.BearOff.{MayMove, legal_move_iff}
use gnubg_android.Board.Play.{legal_move-accepted}
use gnubg_android.Moves.{
  MoveList, MovePairs, save_moves, Search, Deeper, try_move, try_points, generate_step,
  generate_moves_sub,
}
use gnubg_android.Moves.Cover.{Backed, save_moves-Backed}
use gnubg_android.Moves.Sound.{
  Reached, Reached-prefix, Kept, try_move-Kept, try_points-Kept, generate_moves_sub-Kept, occupied,
  within, and_left, and_right,
}

-- A chequer may be moved from `src` by `die`: it is the player's, it is one on the bar if there is
-- any, and it arrives at a point that is not held or is borne off as the rules say.
pub record Allowed (b : TanBoard) (die src : ℕ) : Type 0 where
  pub on_board : src ≤ 24
  pub own : 1 ≤ point b.p1 src
  pub bar_first : 1 ≤ point b.p1 24 → src ≡ 24
  pub may : MayMove b src die

-- The board after it.
abbrev pub after : TanBoard → ℕ → ℕ → TanBoard
after b die src = (apply_sub_move b (pos src) (pos die) true).0

pub Allowed-legal :
    (b : TanBoard) (die src : ℕ) → Allowed b die src → legal_move b (pos src) (pos die) ≡ true
Allowed-legal b die src a = (legal_move_iff b src die a.on_board a.own).1 a.may

module _ (start : TanBoard) (roll : List ℕ) (dice : (i : ℕ) → get_or roll i 0 ≤ 6)
    (unequal : (get_or roll 0 0 == get_or roll 1 0) ≡ false) where
  abbrev pub Keeps : (MoveList → Type 0) → Type 0
  Keeps P =
      (ml : MoveList) (c_moves c_pip : ℕ) (am : MovePairs) (b : TanBoard)
      → Reached start c_moves am b
      → P ml
      → P (save_moves ml c_moves c_pip am b false)

  pub keep-Backed : Keeps Backed
  keep-Backed ml c_moves c_pip am b r k = save_moves-Backed ml c_moves c_pip am b k

  -- A sub-move that gets the list to have a property, tried at some depth.
  module _ (Q : MoveList → Type 0) (keep : Keeps Q) (fuel depth : ℕ) (room : depth < 4)
      (h : 0 < get_or roll depth 0) where
    abbrev pub deeper : Deeper
    deeper = generate_moves_sub roll false fuel (suc depth)

    abbrev pub die : ℕ
    die = get_or roll depth 0

    -- Whatever the list was before, the sub-move from `src` gets it there.
    abbrev pub Gets : ℕ → TanBoard → ℕ → Type 0
    Gets c b src =
        (s : Search)
        → Reached start depth s.an_moves b
        → Backed s.ml
        → Q (try_move roll false deeper depth 23 c b src s).ml

    abbrev may_play : TanBoard → ℕ → Bool
    may_play b src = ltb 0 (point b.p1 src) && legal_move b (pos src) (pos die)

    try_points_step :
        (i c : ℕ) (b : TanBoard) (s : Search) (used : Bool)
        → try_points roll false deeper depth c b (suc i) s used
          ≡ try_points roll false deeper depth c b i
              (if may_play b i then try_move roll false deeper depth 23 c b i s else s)
              (used || may_play b i)
    unfolding try_points
    try_points_step i c b s used = rw (try_points, unequal) refl

    -- A sub-move that is tried keeps the list sound, and the pairs of the levels above.
    tried-Kept :
        (c : ℕ) (b : TanBoard) (src : ℕ) (s : Search)
        → Reached start depth s.an_moves b
        → Backed s.ml
        → may_play b src ≡ true
        → Kept Backed depth s (try_move roll false deeper depth 23 c b src s)
    tried-Kept c b src s r k legal =
        let busy = occupied b.p1 src (and_left _ _ legal) in
        let l = within b.p1 src r.legal.row1 busy in
        try_move-Kept start roll false dice Backed keep-Backed deeper depth 23 c b src s
          (generate_moves_sub-Kept start roll false dice Backed keep-Backed fuel (suc depth)) r k
          room h l busy
          (legal_move-accepted b src die r.legal h (dice depth) l busy (and_right _ _ legal))

    still-Reached :
        (s s' : Search) (b : TanBoard)
        → Reached start depth s.an_moves b
        → Kept Backed depth s s'
        → Reached start depth s'.an_moves b
    still-Reached s s' b r k = Reached-prefix start depth s.an_moves s'.an_moves b r k.prefix k.len

    try_points_gets :
        (n c : ℕ) (b : TanBoard) (s : Search) (used : Bool) (src : ℕ)
        → Reached start depth s.an_moves b
        → Backed s.ml
        → src < n
        → may_play b src ≡ true
        → Gets c b src
        → Q (try_points roll false deeper depth c b n s used).0.ml
    try_points_gets zero c b s used src r k l legal gets = absurd (omega arith)
    try_points_gets (suc i) c b s used src r k l legal gets =
        rw (try_points_step i c b s used) (elim (ℕ_discrete src i) [
          | yes e ↦
              let tried = try_move roll false deeper depth 23 c b i s in
              let here = subst (λ j. may_play b j ≡ true) e legal in
              let q : Q tried.ml =
                subst (λ j. Q (try_move roll false deeper depth 23 c b j s).ml) e (gets s r k) in
              let r' = still-Reached s tried b r (tried-Kept c b i s r k here) in
              rw here (
                (try_points-Kept start roll false dice Q keep deeper depth
                  (generate_moves_sub-Kept start roll false dice Q keep fuel (suc depth)) room h i c
                  b tried (used || true) r' q).list)
          | no ne ↦ elim (Bool-cases (may_play b i)) [
            | inl other ↦
                let tried = try_move roll false deeper depth 23 c b i s in
                let kept = tried-Kept c b i s r k other in
                rw other (
                  try_points_gets i c b tried (used || true) src (still-Reached s tried b r kept)
                    kept.list (omega arith) legal gets)
            | inr blocked ↦
                rw blocked
                  (try_points_gets i c b s (used || false) src r k (omega arith) legal gets)
          ]
        ])

    -- The ways a call of `GenerateMovesSub` goes.
    goes_on : (leb 4 depth || die == 0) ≡ false
    goes_on = ground (arith, room, h)

    from_bar :
        (c : ℕ) (b : TanBoard) (s : Search)
        → ltb 0 (point b.p1 24) ≡ true
        → leb 2 (point b.p0 (die - 1)) ≡ false
        → generate_step roll false deeper depth 23 c b s
          ≡ (try_move roll false deeper depth 23 c b 24 s, false)
    unfolding generate_step
    from_bar c b s bar free = rw (goes_on, bar, free) refl

    stuck_on_bar :
        (c : ℕ) (b : TanBoard) (s : Search)
        → ltb 0 (point b.p1 24) ≡ true
        → leb 2 (point b.p0 (die - 1)) ≡ true
        → generate_step roll false deeper depth 23 c b s ≡ (s, true)
    unfolding generate_step
    stuck_on_bar c b s bar shut = rw (goes_on, bar, shut) refl

    from_points :
        (c : ℕ) (b : TanBoard) (s : Search)
        → ltb 0 (point b.p1 24) ≡ false
        → generate_step roll false deeper depth 23 c b s ≡ (
          (try_points roll false deeper depth c b 24 s false).0,
          not (try_points roll false deeper depth c b 24 s false).1 || false,
        )
    unfolding generate_step
    from_points c b s none_on_bar = rw (goes_on, none_on_bar) refl

    -- Entering from the bar is the rule of `LegalMove` there.
    may_enter : (b : TanBoard) → MayMove b 24 die → point b.p0 (die - 1) ≤ 1
    may_enter b (inl (l, free)) =
        let e : 23 - (24 - die) ≡ die - 1 = omega (arith, dice depth, h) in
        subst (λ i. point b.p0 i ≤ 1) e free
    may_enter b (inr (off, borne)) = absurd (omega (arith, dice depth))

    -- One call of `GenerateMovesSub` tries every sub-move that is allowed.
    pub call_gets :
        (c : ℕ) (b : TanBoard) (s : Search) (src : ℕ)
        → Reached start depth s.an_moves b
        → Backed s.ml
        → Allowed b die src
        → Gets c b src
        → Q (generate_step roll false deeper depth 23 c b s).0.ml
    call_gets c b s src r k a gets = elim (Bool-cases (ltb 0 (point b.p1 24))) [
      | inl bar ↦
          let e = a.bar_first (occupied b.p1 24 bar) in
          let free =
            lt→not_leb 2 (point b.p0 (die - 1))
              (omega (arith, may_enter b (subst (λ j. MayMove b j die) e a.may))) in
          rw (from_bar c b s bar free)
            (subst (λ j. Q (try_move roll false deeper depth 23 c b j s).ml) e (gets s r k))
      | inr none_on_bar ↦
          let none_there = not_ltb→le 0 (point b.p1 24) none_on_bar in
          let inner : src < 24 = elim (ℕ_discrete src 24) [
            | yes e ↦ absurd (let own = subst (λ j. 1 ≤ point b.p1 j) e a.own in omega arith)
            | no ne ↦ omega (arith, a.on_board)
          ] in
          let legal : may_play b src ≡ true =
            ap₂ ◌&&◌ (lt→ltb 0 (point b.p1 src) a.own) (Allowed-legal b die src a) in
          rw (from_points c b s none_on_bar)
            (try_points_gets 24 c b s false src r k inner legal gets)
    ]

    -- Where none is allowed, the move ends here.
    no_points :
        (n c : ℕ) (b : TanBoard) (s : Search)
        → n ≤ 24
        → point b.p1 24 ≡ 0
        → ((src : ℕ) → ¬ Allowed b die src)
        → try_points roll false deeper depth c b n s false ≡ (s, false)
    unfolding try_points
    no_points zero c b s l bar none_allowed = refl
    no_points (suc i) c b s l bar none_allowed = elim (Bool-cases (may_play b i)) [
      | inl legal ↦
          let busy = occupied b.p1 i (and_left _ _ legal) in
          let may : MayMove b i die =
            (legal_move_iff b i die (omega arith) busy).0 (and_right _ _ legal) in
          absurd (
            none_allowed i (record {
              on_board = omega arith;
              own = busy;
              bar_first = λ on_bar. absurd (omega arith);
              may = may;
            }))
      | inr blocked ↦
          try_points_step i c b s false
          ∙ rw blocked (no_points i c b s (omega arith) bar none_allowed)
    ]

    pub call_ends :
        (c : ℕ) (b : TanBoard) (s : Search)
        → ((src : ℕ) → ¬ Allowed b die src)
        → generate_step roll false deeper depth 23 c b s ≡ (s, true)
    call_ends c b s none_allowed = elim (Bool-cases (ltb 0 (point b.p1 24))) [
      | inl bar ↦ elim (Bool-cases (leb 2 (point b.p0 (die - 1)))) [
        | inl shut ↦ stuck_on_bar c b s bar shut
        | inr free ↦
            let e : 23 - (24 - die) ≡ die - 1 = omega (arith, dice depth, h) in
            let few : point b.p0 (die - 1) ≤ 1 =
              omega (arith, not_leb→lt 2 (point b.p0 (die - 1)) free) in
            absurd (
              none_allowed 24 (record {
                on_board = omega arith;
                own = occupied b.p1 24 bar;
                bar_first = λ on_bar. refl;
                may = inl (omega (arith, dice depth), subst (λ i. point b.p0 i ≤ 1) (sym e) few);
              }))
      ]
      | inr none_on_bar ↦
          let none_there = not_ltb→le 0 (point b.p1 24) none_on_bar in
          from_points c b s none_on_bar
          ∙ rw (no_points 24 c b s (omega arith) (omega arith) none_allowed) refl
    ]
