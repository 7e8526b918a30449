-- ===== src/Moves/Sound/Complete.antt =====
-- No move is missed by `GenerateMoves` of engine-core/eval.c, for two different dice.
use gnubg_android.Base.{
  ℕ, zero, suc, ◌+◌, ◌≤◌, ◌<◌, ◌≡◌, ◌≢◌, ◌⊎◌, inl, inr, refl, sym, subst, Bool, true, false, List,
  ◌==◌, if◌then◌else◌, get_or, set, arith,
}
use gnubg_android.Base.Int.{pos, ◌-ℤ◌}
use gnubg_android.Board.{TanBoard}
use gnubg_android.Board.Legal.{IsLegal}
use gnubg_android.Board.Play.{legal_move-accepted}
use gnubg_android.Moves.{
  MoveList, MovePairs, save_moves, Search, Deeper, try_move, generate_step, generate_moves_sub,
  generate_moves, fresh_search, dice_roll, max_depth,
}
use gnubg_android.Moves.Cover.{
  SomeMove, Covers, Covered, Backed, save_moves-Covered, save_moves_covers, save_moves-Backed,
}
use gnubg_android.Moves.Correct.{roll_small, start-Reached}
use gnubg_android.Moves.Sound.{Reached, next-Reached, Kept, generate_moves_sub-Kept}
use gnubg_android.Moves.Sound.Tried.{
  Allowed, Allowed-legal, after, Keeps, keep-Backed, call_gets, call_ends,
}

-- The complete moves with the dice in one order: with the chequers and pips they play, and the board
-- they lead to.
pub data Complete (b : TanBoard) (first second : ℕ) : ℕ → ℕ → TanBoard → Type 0 where
  both :
      (src src' : ℕ)
      → Allowed b first src
      → Allowed (after b first src) second src'
      → Complete b first second 2 (first + second) (after (after b first src) second src')
  single :
      (src : ℕ)
      → Allowed b first src
      → ((src' : ℕ) → ¬ Allowed (after b first src) second src')
      → Complete b first second 1 first (after b first src)

-- What the list is to hold.
abbrev Found : ℕ → ℕ → TanBoard → MoveList → Type 0
Found c p e ml = Backed ml × Covered c p e ml

save_moves-Found :
    (c p : ℕ) (e : TanBoard) (ml : MoveList) (c_moves c_pip : ℕ) (am : MovePairs) (b : TanBoard)
    → Found c p e ml
    → Found c p e (save_moves ml c_moves c_pip am b false)
save_moves-Found c p e ml c_moves c_pip am b (k, h) = (
  save_moves-Backed ml c_moves c_pip am b k,
  save_moves-Covered ml c_moves c_pip am b c p e k.uniform h,
)

save_moves_finds :
    (ml : MoveList) (c_moves c_pip : ℕ) (am : MovePairs) (b : TanBoard)
    → Backed ml
    → Found c_moves c_pip b (save_moves ml c_moves c_pip am b false)
save_moves_finds ml c_moves c_pip am b k =
    (save_moves-Backed ml c_moves c_pip am b k, save_moves_covers ml c_moves c_pip am b k)

module _ (start : TanBoard) (roll : List ℕ) (dice : (i : ℕ) → get_or roll i 0 ≤ 6)
    (unequal : (get_or roll 0 0 == get_or roll 1 0) ≡ false) (two : get_or roll 2 0 ≡ 0)
    (some0 : 0 < get_or roll 0 0) (some1 : 0 < get_or roll 1 0) where
  abbrev first : ℕ
  first = get_or roll 0 0

  abbrev second : ℕ
  second = get_or roll 1 0

  -- There is no third die.
  stops :
      (fuel i c : ℕ) (b : TanBoard) (s : Search)
      → generate_moves_sub roll false fuel 2 i c b s ≡ (s, true)
  unfolding generate_moves_sub generate_step
  stops zero i c b s = refl
  stops (suc fuel) i c b s = let t : (get_or roll 2 0 == 0) ≡ true = ground arith in rw t refl

  -- A sub-move after which the move ends is saved.
  saved_there :
      (deeper : Deeper) (depth c : ℕ) (b : TanBoard) (src : ℕ) (s : Search)
      → Backed s.ml
      → ((noted : Search)
          → deeper 23 (c + get_or roll depth 0) (after b (get_or roll depth 0) src) noted
            ≡ (noted, true))
      → Found
          (suc depth)
          (c + get_or roll depth 0)
          (after b (get_or roll depth 0) src)
          (try_move roll false deeper depth 23 c b src s).ml
  unfolding try_move
  saved_there deeper depth c b src s k ends =
      rw
        (ends (record s {
          an_moves = set s.an_moves depth (pos src, pos src -ℤ pos (get_or roll depth 0));
        }))
        (save_moves_finds s.ml (suc depth) (c + get_or roll depth 0) _ _ k)

  keep-Found : (n p : ℕ) (e : TanBoard) → Keeps start roll dice unequal (Found n p e)
  keep-Found n p e ml c_moves c_pip am b r = save_moves-Found n p e ml c_moves c_pip am b

  -- What a deeper call finds stays found.
  abbrev noted : Search → ℕ → Search
  noted s src = record s { an_moves = set s.an_moves 0 (pos src, pos src -ℤ pos first) }

  deeper-Found :
      (n p : ℕ) (e : TanBoard) (deeper : Deeper) (b : TanBoard) (src : ℕ) (s : Search)
      → Found n p e (deeper 23 (0 + first) (after b first src) (noted s src)).0.ml
      → Found n p e (try_move roll false deeper 0 23 0 b src s).ml
  unfolding try_move
  deeper-Found n p e deeper b src s finds =
      finish (deeper 23 (0 + first) (after b first src) (noted s src)).1
    where
      s' : Search
      s' = (deeper 23 (0 + first) (after b first src) (noted s src)).0

      finish :
          (ends : Bool)
          → Found n p e
              (if ends
                then record s' {
                  ml = save_moves s'.ml 1 (0 + first) s'.an_moves (after b first src) false;
                }
                else s').ml
      finish true = save_moves-Found n p e s'.ml 1 (0 + first) s'.an_moves (after b first src) finds
      finish false = finds

  -- After a first sub-move.
  module _ (b : TanBoard) (src : ℕ) (a : Allowed b first src) where
    abbrev b1 : TanBoard
    b1 = after b first src

    noted-Reached :
        (s : Search) → Reached start 0 s.an_moves b → Reached start 1 (noted s src).an_moves b1
    noted-Reached s r =
        next-Reached start 0 s.an_moves b r (omega arith) src first some0 (dice 0)
          (omega (arith, a.on_board)) a.own
          (legal_move-accepted b src first r.legal some0 (dice 0) (omega (arith, a.on_board)) a.own
            (Allowed-legal b first src a))

    second-Found :
        (fuel src' : ℕ) (s : Search)
        → Reached start 0 s.an_moves b
        → Backed s.ml
        → Allowed b1 second src'
        → Found 2
            (0 + first + second)
            (after b1 second src')
            (try_move roll false (generate_moves_sub roll false (suc fuel) 1) 0 23 0 b src s).ml
    unfolding generate_moves_sub
    second-Found fuel src' s r k a' =
        let Q = Found 2 (0 + first + second) (after b1 second src') in
        deeper-Found 2 (0 + first + second) (after b1 second src') _ b src s (
          call_gets start roll dice unequal Q
            (keep-Found 2 (0 + first + second) (after b1 second src')) fuel 1 (omega arith) some1
            (0 + first) b1 (noted s src) src' (noted-Reached s r) k a'
            (λ s r k.
              saved_there (generate_moves_sub roll false fuel 2) 1 (0 + first) b1 src' s k
                (λ noted. stops fuel 23 _ _ noted)))

    single-Found :
        (fuel : ℕ) (s : Search)
        → Backed s.ml
        → ((src' : ℕ) → ¬ Allowed b1 second src')
        → Found 1
            (0 + first)
            b1
            (try_move roll false (generate_moves_sub roll false (suc fuel) 1) 0 23 0 b src s).ml
    unfolding generate_moves_sub
    single-Found fuel s k none_allowed =
        saved_there (generate_moves_sub roll false (suc fuel) 1) 0 0 b src s k (λ noted.
          call_ends start roll dice unequal Backed (keep-Backed start roll dice unequal) fuel 1
            (omega arith) some1 (0 + first) b1 noted none_allowed)

  -- One order of the dice.
  order-Found :
      (c p : ℕ) (e : TanBoard) (s : Search)
      → Reached start 0 s.an_moves start
      → Backed s.ml
      → Complete start first second c p e
      → Found c p e (generate_moves_sub roll false max_depth 0 23 0 start s).0.ml
  unfolding generate_moves_sub
  order-Found c p e s r k (both src src' a a') =
      let sum : 0 + first + second ≡ first + second = omega arith in
      let e = after (after start first src) second src' in
      rw (← sum) (
        call_gets start roll dice unequal (Found 2 (0 + first + second) e)
          (keep-Found 2 (0 + first + second) e) 4 0 (omega arith) some0 0 start s src r k a
          (λ s r k. second-Found start src a 3 src' s r k a'))
  order-Found c p e s r k (single src a none_allowed) =
      let sum : 0 + first ≡ first = omega arith in
      let e = after start first src in
      subst (λ q. Found 1 q e (generate_moves_sub roll false max_depth 0 23 0 start s).0.ml) sum
        (call_gets start roll dice unequal (Found 1 (0 + first) e) (keep-Found 1 (0 + first) e) 4 0
          (omega arith) some0 0 start s src r k a
          (λ s r k. single-Found start src a 3 s k none_allowed))

  -- What an order of the dice leaves for the other.
  order-Kept :
      (P : MoveList → Type 0) (s : Search)
      → Keeps start roll dice unequal P
      → Reached start 0 s.an_moves start
      → P s.ml
      → Kept P 0 s (generate_moves_sub roll false max_depth 0 23 0 start s).0
  order-Kept P s keep r p =
      generate_moves_sub-Kept start roll false dice P keep max_depth 0 23 0 start s r p

-- On a legal board, with two different dice from 1 to 6, no complete move is missed: whatever sequence
-- of allowed sub-moves plays the dice in one order or the other, both of them or one after which the
-- other cannot be played, the list that `GenerateMoves` returns has a move that plays more chequers,
-- or more pips, or that leads to the same position with no fewer chequers and pips.
pub generate_moves_complete :
    (b e : TanBoard) (n0 n1 c p : ℕ)
    → IsLegal b
    → 0 < n0
    → n0 ≤ 6
    → 0 < n1
    → n1 ≤ 6
    → n0 ≢ n1
    → Complete b n0 n1 c p e ⊎ Complete b n1 n0 c p e
    → SomeMove (Covers c p e) (generate_moves b n0 n1 false).moves
unfolding generate_moves
generate_moves_complete b e n0 n1 c p v h k l m ne played =
    let t : (n0 == n1) ≡ false = ground arith in
    let u : (n1 == n0) ≡ false = ground arith in
    let third : get_or (dice_roll n0 n1) 2 0 ≡ 0 = rw t refl in
    let third' : get_or (dice_roll n1 n0) 2 0 ≡ 0 = rw u refl in
    let small = roll_small n0 n1 k m in
    let small' = roll_small n1 n0 m k in
    let none_yet : Backed fresh_search.ml = record { uniform = tt; shown = inl (refl, refl) } in
    let r = start-Reached b fresh_search.an_moves v refl in
    let s = (generate_moves_sub (dice_roll n0 n1) false max_depth 0 23 0 b fresh_search).0 in
    let backed =
      order-Kept b (dice_roll n0 n1) small t third h l Backed fresh_search
        (keep-Backed b (dice_roll n0 n1) small t) r none_yet in
    let r' = start-Reached b s.an_moves v backed.len in
    let s' = (generate_moves_sub (dice_roll n1 n0) false max_depth 0 23 0 b s).0 in
    let found : SomeMove (Covers c p e) s'.ml.moves = elim played [
      | inl one ↦
          let found =
            order-Found b (dice_roll n0 n1) small t third h l c p e fresh_search r none_yet one in
          (order-Kept b (dice_roll n1 n0) small' u third' l h (Found c p e) s
            (keep-Found b (dice_roll n1 n0) small' u third' l h c p e) r' found).list.1
      | inr other ↦
          (order-Found b (dice_roll n1 n0) small' u third' l h c p e s r' backed.list other).1
    ] in
    subst (λ same. SomeMove (Covers c p e) (if same then s.ml else s'.ml).moves) (sym t) found
