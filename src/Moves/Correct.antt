-- ===== src/Moves/Correct.antt =====
-- The list of moves that `GenerateMoves` returns, engine-core/eval.c.
use gnubg_android.Base.{
  ℕ, zero, suc, ◌≤◌, ◌≡◌, refl, sym, ◌∙◌, ap, Bool, Bool-cases, true, false, ◌||◌, inl, inr, ltb,
  ◌==◌, if◌then◌else◌, get_or, length, arith,
}
use gnubg_android.Base.Int.{pos}
use gnubg_android.Board.{TanBoard, apply_move}
use gnubg_android.Board.Legal.{IsLegal}
use gnubg_android.Position.Key.{position_key, position_from_key, equal_keys}
use gnubg_android.Position.Key.Laws.{equal_keys-eq, IsLegal-Fits, position_from_key-position_key}
use gnubg_android.Moves.{
  Move, MoveList, MovePairs, save_moves, Search, fresh_search, dice_roll, max_depth, generate_moves,
  generate_moves_sub,
}
use gnubg_android.Moves.Save.{
  AllMoves, Distinct, Uniform, replaced, recorded, save_moves-AllMoves, save_moves-Distinct,
  save_moves-Uniform,
}
use gnubg_android.Moves.Sound.{Reached, Kept, generate_moves_sub-Kept}

-- A recorded move can be played from `b` with the dice checked, and leads to the legal position of
-- its key.
abbrev pub Playable : TanBoard → Move → Type 0
Playable b m =
    (b' : TanBoard) × IsLegal b'
    × (apply_move b m.an_move true ≡ (b', pos 0))
    × (m.key ≡ position_key b')
    × (position_from_key m.key ≡ b')

replaced-Playable :
    (b : TanBoard) (m old : Move)
    → Playable b m
    → Playable b old
    → equal_keys m.key old.key ≡ true
    → Playable b (replaced m old)
replaced-Playable b m old p q same =
    elim (Bool-cases (ltb old.c_moves m.c_moves || ltb old.c_pips m.c_pips)) [
      | inl more ↦
          let (b', legal, played, key, decoded) = p in
          let e = equal_keys-eq m.key old.key same in
          rw more (b', legal, played, sym e ∙ key, ap position_from_key (sym e) ∙ decoded)
      | inr less ↦ rw less q
    ]

Reached-Playable :
    (start : TanBoard) (c_moves c_pip : ℕ) (am : MovePairs) (b : TanBoard)
    → Reached start c_moves am b
    → Playable start (recorded c_moves c_pip am b)
Reached-Playable start c_moves c_pip am b r =
    (b, r.legal, r.played, refl, (position_from_key-position_key b (IsLegal-Fits b r.legal)).0)

-- What holds of the list all the time.
record Sound (start : TanBoard) (ml : MoveList) : Type 0 where
  distinct : Distinct ml.moves
  playable : AllMoves (Playable start) ml.moves

save_moves-Sound :
    (start : TanBoard) (fp : Bool) (ml : MoveList) (c_moves c_pip : ℕ) (am : MovePairs)
    (b : TanBoard)
    → Reached start c_moves am b
    → Sound start ml
    → Sound start (save_moves ml c_moves c_pip am b fp)
save_moves-Sound start fp ml c_moves c_pip am b r s = record {
  distinct = save_moves-Distinct ml c_moves c_pip am b fp s.distinct;
  playable =
      save_moves-AllMoves ml c_moves c_pip am b (Playable start) fp
        (Reached-Playable start c_moves c_pip am b r)
        (λ old p same.
          replaced-Playable start (recorded c_moves c_pip am b) old
            (Reached-Playable start c_moves c_pip am b r) p same)
        s.playable;
}

pub roll_small : (n0 n1 : ℕ) → n0 ≤ 6 → n1 ≤ 6 → (i : ℕ) → get_or (dice_roll n0 n1) i 0 ≤ 6
roll_small n0 n1 h k zero = h
roll_small n0 n1 h k (suc zero) = k
roll_small n0 n1 h k (suc (suc zero)) = ground arith
roll_small n0 n1 h k (suc (suc (suc zero))) = ground arith
roll_small n0 n1 h k (suc (suc (suc (suc i)))) = omega arith

pub start-Reached : (b : TanBoard) (am : MovePairs) → IsLegal b → length am ≡ 4 → Reached b 0 am b
unfolding apply_move
start-Reached b am v len = record { len = len; forward = tt; played = refl; legal = v }

module _ (b : TanBoard) (n0 n1 : ℕ) (fp : Bool) (v : IsLegal b) (h : n0 ≤ 6) (k : n1 ≤ 6)
    (P : MoveList → Type 0)
    (keep : (ml : MoveList) (c_moves c_pip : ℕ) (am : MovePairs) (b' : TanBoard)
      → Reached b c_moves am b'
      → P ml
      → P (save_moves ml c_moves c_pip am b' fp))
    (empty : P fresh_search.ml) where
  -- Both orders of the dice keep what `SaveMoves` keeps.
  generate_moves-keeps : P (generate_moves b n0 n1 fp)
  unfolding generate_moves
  generate_moves-keeps = finish (n0 == n1)
    where
      first : Search
      first = (generate_moves_sub (dice_roll n0 n1) fp max_depth 0 23 0 b fresh_search).0

      once : Kept P 0 fresh_search first
      once =
          generate_moves_sub-Kept b (dice_roll n0 n1) fp (roll_small n0 n1 h k) P keep max_depth 0
            23 0 b fresh_search (start-Reached b fresh_search.an_moves v refl) empty

      second : Search
      second = (generate_moves_sub (dice_roll n1 n0) fp max_depth 0 23 0 b first).0

      twice : Kept P 0 first second
      twice =
          generate_moves_sub-Kept b (dice_roll n1 n0) fp (roll_small n1 n0 k h) P keep max_depth 0
            23 0 b first (start-Reached b first.an_moves v once.len) once.list

      finish : (same : Bool) → P (if same then first.ml else second.ml)
      finish true = once.list
      finish false = twice.list

-- On a legal board, with dice up to 6, every move that `GenerateMoves` lists, complete or partial, can
-- be played by `ApplyMove` with the dice checked; it leads to a legal board, whose key is the key
-- recorded with the move and decodes to that board; and no two moves of the list lead to the same
-- position.
pub generate_moves_sound :
    (b : TanBoard) (n0 n1 : ℕ) (fp : Bool)
    → IsLegal b
    → n0 ≤ 6
    → n1 ≤ 6
    → AllMoves (Playable b) (generate_moves b n0 n1 fp).moves
      × Distinct (generate_moves b n0 n1 fp).moves
generate_moves_sound b n0 n1 fp v h k =
    let s =
      generate_moves-keeps b n0 n1 fp v h k (Sound b) (save_moves-Sound b fp)
        (record { distinct = tt; playable = tt }) in
    (s.playable, s.distinct)

-- On a legal board, with dice up to 6, all the complete moves that `GenerateMoves` lists play the same
-- number of chequers and of pips, those of `cMaxMoves` and `cMaxPips`.
pub generate_moves-Uniform :
    (b : TanBoard) (n0 n1 : ℕ)
    → IsLegal b
    → n0 ≤ 6
    → n1 ≤ 6
    → Uniform (generate_moves b n0 n1 false)
generate_moves-Uniform b n0 n1 v h k =
    generate_moves-keeps b n0 n1 false v h k Uniform
      (λ ml c p am b' r u. save_moves-Uniform ml c p am b' u) tt
