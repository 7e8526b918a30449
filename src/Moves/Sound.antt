-- ===== src/Moves/Sound.antt =====
-- The search of `GenerateMovesSub`, engine-core/eval.c: what it keeps along the way, and its depth.
pub mod Tried
pub mod Complete
use gnubg_android.Base.{
  ℕ, zero, suc, ◌+◌, ◌-◌, ◌≤◌, ◌<◌, ◌≡◌, refl, sym, subst, ◌∙◌, ap, Bool, Bool-cases, true, false,
  ◌&&◌, ◌||◌, inl, inr, List, [], ◌∷◌, ◌++◌, map, ltb, leb, ◌==◌, if◌then◌else◌, get_or,
  get_or_past, set, take, length, length-set, take-set_snoc, take-take, take-set_before, dec_lt,
  ltb→lt, not_leb→lt, le→leb, fun_ext, arith,
}
use gnubg_android.Base.Int.{ℤ, pos, ◌-ℤ◌, is_neg}
use gnubg_android.Board.{TanBoard, point, apply_sub_move, apply_move, legal_move}
use gnubg_android.Board.Legal.{IsLegal}
use gnubg_android.Board.SubMove.{apply_sub_move_ok}
use gnubg_android.Board.Play.{
  clamp, Forward, Forward-snoc, apply_move_snoc, apply_move_single, legal_move-accepted,
  sub_move_accepted,
}
use gnubg_android.Moves.{
  MoveList, MovePairs, clamp_pair, save_moves, Search, Deeper, try_move, try_points, generate_step,
  generate_moves_sub,
}

clamp_forward : (z : ℤ) → is_neg z ≡ false → is_neg (clamp z) ≡ false
clamp_forward z h = ground arith

Forward-map : (xs : MovePairs) → Forward xs → Forward (map clamp_pair xs)
Forward-map [] h = tt
Forward-map ((s, d) ∷ xs) h = (clamp_forward s h.0, Forward-map xs h.1)

map-snoc :
    (xs : MovePairs) (x : ℤ × ℤ)
    → map clamp_pair (xs ++ (x ∷ [])) ≡ map clamp_pair xs ++ (clamp_pair x ∷ [])
map-snoc [] x = refl
map-snoc (y ∷ xs) x = ap (λ r. clamp_pair y ∷ r) (map-snoc xs x)

-- The first `depth` pairs of the array, played from `start`, lead to the legal board `b`.
pub record Reached (start : TanBoard) (depth : ℕ) (an_moves : MovePairs) (b : TanBoard)
    : Type 0 where
  pub len : length an_moves ≡ 4
  pub forward : Forward (take depth an_moves)
  pub played : apply_move start (map clamp_pair (take depth an_moves)) true ≡ (b, pos 0)
  pub legal : IsLegal b

module _ (start : TanBoard) (depth : ℕ) (am : MovePairs) (b : TanBoard)
    (r : Reached start depth am b) (room : depth < 4) (src die : ℕ) (h : 0 < die) (k : die ≤ 6)
    (l : src < 25) (busy : 1 ≤ point b.p1 src)
    (ok : (apply_sub_move b (pos src) (pos die) true).1 ≡ pos 0) where
  abbrev pair : ℤ × ℤ
  pair = (pos src, pos src -ℤ pos die)

  noted_prefix : take (suc depth) (set am depth pair) ≡ take depth am ++ (pair ∷ [])
  noted_prefix = take-set_snoc depth am pair (omega (arith, r.len))

  next_played :
      apply_move start (map clamp_pair (take (suc depth) (set am depth pair))) true
      ≡ ((apply_sub_move b (pos src) (pos die) true).0, pos 0)
  next_played =
      ap (λ xs. apply_move start (map clamp_pair xs) true) noted_prefix
      ∙ (ap (λ xs. apply_move start xs true) (map-snoc (take depth am) pair)
          ∙ (apply_move_snoc (map clamp_pair (take depth am)) start b (pos src)
                (clamp (pos src -ℤ pos die)) true (Forward-map (take depth am) r.forward) r.played
              ∙ apply_move_single b src die h k l busy ok))

  pub next-Reached :
      Reached start (suc depth) (set am depth pair) (apply_sub_move b (pos src) (pos die) true).0
  next-Reached = record {
    len = length-set am depth pair ∙ r.len;
    forward =
        subst Forward (sym noted_prefix)
          (Forward-snoc (take depth am) (pos src) (pos src -ℤ pos die) r.forward refl);
    played = next_played;
    legal =
        let (s, n, es, en, moved) = apply_sub_move_ok b (pos src) (pos die) true r.legal ok in
        moved.legal;
  }

-- Another array with the same first pairs.
Reached-prefix :
    (start : TanBoard) (depth : ℕ) (am am' : MovePairs) (b : TanBoard)
    → Reached start depth am b
    → take depth am' ≡ take depth am
    → length am' ≡ 4
    → Reached start depth am' b
Reached-prefix start depth am am' b r e len = record {
  len = len;
  forward = subst Forward (sym e) r.forward;
  played = ap (λ xs. apply_move start (map clamp_pair xs) true) e ∙ r.played;
  legal = r.legal;
}

-- What the search keeps: a property of the list, the pairs of the levels above, and the array.
pub record Kept (P : MoveList → Type 0) (depth : ℕ) (s s' : Search) : Type 0 where
  pub list : P s'.ml
  pub prefix : take depth s'.an_moves ≡ take depth s.an_moves
  pub len : length s'.an_moves ≡ 4

and_left : (a b : Bool) → (a && b) ≡ true → a ≡ true
and_left a b h = ground arith

and_right : (a b : Bool) → (a && b) ≡ true → b ≡ true
and_right a b h = ground arith

occupied : (row : List ℕ) (i : ℕ) → ltb 0 (point row i) ≡ true → 1 ≤ point row i
occupied row i h = ltb→lt 0 (point row i) h

-- An occupied point is one of the 25.
within : (row : List ℕ) (i : ℕ) → length row ≡ 25 → 1 ≤ point row i → i < 25
within row i len busy = elim (dec_lt i 25) [
  | yes l ↦ l
  | no past ↦ absurd (omega (arith, get_or_past row i 0 (omega arith)))
]

Kept-trans :
    {P : MoveList → Type 0} (depth : ℕ) (s t u : Search)
    → Kept P depth s t
    → Kept P depth t u
    → Kept P depth s u
Kept-trans depth s t u h k = record { list = k.list; prefix = k.prefix ∙ h.prefix; len = k.len }

module _ (start : TanBoard) (roll : List ℕ) (fp : Bool) (dice : (i : ℕ) → get_or roll i 0 ≤ 6)
    (P : MoveList → Type 0)
    (keep : (ml : MoveList) (c_moves c_pip : ℕ) (am : MovePairs) (b : TanBoard)
      → Reached start c_moves am b
      → P ml
      → P (save_moves ml c_moves c_pip am b fp)) where
  abbrev Good : ℕ → Deeper → Type 0
  Good depth deeper =
      (i c : ℕ) (b : TanBoard) (s : Search)
      → Reached start depth s.an_moves b
      → P s.ml
      → Kept P depth s (deeper i c b s).0

  try_move-Kept :
      (deeper : Deeper) (depth i c : ℕ) (b : TanBoard) (src : ℕ) (s : Search)
      → Good (suc depth) deeper
      → Reached start depth s.an_moves b
      → P s.ml
      → depth < 4
      → 0 < get_or roll depth 0
      → src < 25
      → 1 ≤ point b.p1 src
      → (apply_sub_move b (pos src) (pos (get_or roll depth 0)) true).1 ≡ pos 0
      → Kept P depth s (try_move roll fp deeper depth i c b src s)
  unfolding try_move
  try_move-Kept deeper depth i c b src s good r p room h l busy ok =
      finish (deeper i (c + die) b' noted).1
    where
      die : ℕ
      die = get_or roll depth 0

      noted : Search
      noted = record s { an_moves = set s.an_moves depth (pos src, pos src -ℤ pos die) }

      b' : TanBoard
      b' = (apply_sub_move b (pos src) (pos die) true).0

      s' : Search
      s' = (deeper i (c + die) b' noted).0

      next : Reached start (suc depth) noted.an_moves b'
      next = next-Reached start depth s.an_moves b r room src die h (dice depth) l busy ok

      kept : Kept P (suc depth) noted s'
      kept = good i (c + die) b' noted next p

      above : take depth s'.an_moves ≡ take depth s.an_moves
      above =
          sym (take-take depth s'.an_moves)
          ∙ (ap (take depth) kept.prefix
              ∙ (take-take depth noted.an_moves
                  ∙ take-set_before depth s.an_moves (pos src, pos src -ℤ pos die)))

      finish :
          (ends : Bool)
          → Kept P depth s (
              if ends
              then record s' { ml = save_moves s'.ml (suc depth) (c + die) s'.an_moves b' fp }
              else s')
      finish true = record {
        list =
            keep s'.ml (suc depth) (c + die) s'.an_moves b'
              (Reached-prefix start (suc depth) noted.an_moves s'.an_moves b' next kept.prefix
                kept.len)
              kept.list;
        prefix = above;
        len = kept.len;
      }
      finish false = record { list = kept.list; prefix = above; len = kept.len }

  module _ (deeper : Deeper) (depth : ℕ) (good : Good (suc depth) deeper) (room : depth < 4)
      (h : 0 < get_or roll depth 0) where
    try_points-Kept :
        (n c : ℕ) (b : TanBoard) (s : Search) (used : Bool)
        → Reached start depth s.an_moves b
        → P s.ml
        → Kept P depth s (try_points roll fp deeper depth c b n s used).0
    unfolding try_points
    try_points-Kept zero c b s used r p = record { list = p; prefix = refl; len = r.len }
    try_points-Kept (suc i) c b s used r p = onward (try_points-Kept i c b) legal refl
      where
        legal : Bool
        legal = ltb 0 (point b.p1 i) && legal_move b (pos i) (pos (get_or roll depth 0))

        i_pip : ℕ
        i_pip = if get_or roll 0 0 == get_or roll 1 0 then i else 23

        tried : Search
        tried = try_move roll fp deeper depth i_pip c b i s

        Rest : Search → Bool → Type 0
        Rest s1 u = Kept P depth s (try_points roll fp deeper depth c b i s1 u).0

        after :
            ((s1 : Search) (u : Bool)
              → Reached start depth s1.an_moves b
              → P s1.ml
              → Kept P depth s1 (try_points roll fp deeper depth c b i s1 u).0)
            → (u : Bool) → Kept P depth s tried
            → Rest tried u
        after rec u k = Kept-trans depth s tried _ k (
            rec tried u (Reached-prefix start depth s.an_moves tried.an_moves b r k.prefix k.len)
              k.list)

        onward :
            ((s1 : Search) (u : Bool)
              → Reached start depth s1.an_moves b
              → P s1.ml
              → Kept P depth s1 (try_points roll fp deeper depth c b i s1 u).0)
            → (t : Bool) → legal ≡ t
            → Rest (if t then tried else s) (used || t)
        onward rec true e =
            let busy = occupied b.p1 i (and_left _ _ e) in
            let l = within b.p1 i r.legal.row1 busy in
            after rec (used || true) (
              try_move-Kept deeper depth i_pip c b i s good r p room h l busy (
                legal_move-accepted b i (get_or roll depth 0) r.legal h (dice depth) l busy
                  (and_right _ _ e)))
        onward rec false e = rec s (used || false) r p

  enter_open :
      (b : TanBoard) (die : ℕ)
      → 0 < die
      → die ≤ 6
      → leb 2 (point b.p0 (die - 1)) ≡ false
      → point b.p0 (23 - (24 - die)) ≤ 1
  enter_open b die h k free =
      let e : 23 - (24 - die) ≡ die - 1 = omega arith in
      rw e (omega (arith, not_leb→lt 2 (point b.p0 (die - 1)) free))

  generate_step-Kept :
      (deeper : Deeper) (depth : ℕ)
      → Good (suc depth) deeper
      → Good depth (generate_step roll fp deeper depth)
  unfolding generate_step
  generate_step-Kept deeper depth good i c b s r p =
      elim (Bool-cases (leb 4 depth || get_or roll depth 0 == 0)) [
        | inl stop ↦ rw stop (record { list = p; prefix = refl; len = r.len })
        | inr go ↦
            let room : depth < 4 = ground arith in
            let h : 0 < get_or roll depth 0 = ground arith in
            rw go (elim (Bool-cases (ltb 0 (point b.p1 24))) [
              | inl bar ↦ rw bar (elim (Bool-cases (leb 2 (point b.p0 (get_or roll depth 0 - 1)))) [
                | inl shut ↦ rw shut (record { list = p; prefix = refl; len = r.len })
                | inr free ↦
                    let busy = occupied b.p1 24 bar in
                    rw free (
                      try_move-Kept deeper depth 23 c b 24 s good r p room h (omega arith) busy (
                        sub_move_accepted b 24 (get_or roll depth 0) r.legal h (dice depth)
                          (omega arith) busy
                          (λ _. enter_open b (get_or roll depth 0) h (dice depth) free)))
              ])
              | inr none_on_bar ↦
                  rw none_on_bar (try_points-Kept deeper depth good room h (i + 1) c b s false r p)
            ])
      ]

  -- The whole search keeps the property, whatever its fuel.
  pub generate_moves_sub-Kept :
      (fuel depth : ℕ) → Good depth (generate_moves_sub roll fp fuel depth)
  unfolding generate_moves_sub
  generate_moves_sub-Kept zero depth i c b s r p = record { list = p; prefix = refl; len = r.len }
  generate_moves_sub-Kept (suc fuel) depth i c b s r p =
      generate_step-Kept (generate_moves_sub roll fp fuel (suc depth)) depth
        (generate_moves_sub-Kept fuel (suc depth)) i c b s r p

module _ (roll : List ℕ) (fp : Bool) where
  ends_deep :
      (deeper : Deeper) (depth i c : ℕ) (b : TanBoard) (s : Search)
      → 4 ≤ depth
      → generate_step roll fp deeper depth i c b s ≡ (s, true)
  unfolding generate_step
  ends_deep deeper depth i c b s h = rw (le→leb 4 depth h) refl

  one_more :
      (fuel depth : ℕ)
      → 4 ≤ depth + fuel
      → generate_moves_sub roll fp fuel depth ≡ generate_moves_sub roll fp (suc fuel) depth
  unfolding generate_moves_sub
  one_more zero depth h =
      fun_ext
        λ i. fun_ext λ c. fun_ext λ b. fun_ext λ s. sym (ends_deep _ depth i c b s (omega arith))
  one_more (suc fuel) depth h =
      ap (λ deeper. generate_step roll fp deeper depth) (one_more fuel (suc depth) (omega arith))

  -- Fuel for the levels down to depth 4 is enough for `GenerateMovesSub`: more fuel gives the same search.
  pub generate_moves_sub_fuel :
      (more fuel depth : ℕ)
      → 4 ≤ depth + fuel
      → generate_moves_sub roll fp (more + fuel) depth ≡ generate_moves_sub roll fp fuel depth
  generate_moves_sub_fuel zero fuel depth h =
      ap (λ n. generate_moves_sub roll fp n depth) (omega arith)
  generate_moves_sub_fuel (suc more) fuel depth h =
      ap (λ n. generate_moves_sub roll fp n depth) (omega arith)
      ∙ (sym (one_more (more + fuel) depth (omega arith))
          ∙ generate_moves_sub_fuel more fuel depth h)
