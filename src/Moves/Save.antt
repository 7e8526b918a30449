-- ===== src/Moves/Save.antt =====
-- What `SaveMoves` keeps of a list of moves, engine-core/eval.c.
use gnubg_android.Base.{
  ℕ, ◌≡◌, refl, sym, subst, Bool, Bool-cases, true, false, ◌||◌, inl, inr, List, [], ◌∷◌, map, ltb,
  if◌then◌else◌, take, arith,
}
use gnubg_android.Board.{TanBoard}
use gnubg_android.Position.Key.{PositionKey, position_key, equal_keys}
use gnubg_android.Moves.{Move, MoveList, MovePairs, clamp_pair, insert_move, save_moves}

-- Every move of a list has a property.
abbrev pub AllMoves {ℓ} : (Move → Type ℓ) → List Move → Type ℓ
AllMoves P [] = Unit
AllMoves P (m ∷ ms) = P m × AllMoves P ms

-- No move of the list leads to the position with the key.
abbrev pub Absent : PositionKey → List Move → Type 0
Absent k = AllMoves (λ m. equal_keys k m.key ≡ false)

-- No two moves lead to the same position.
abbrev pub Distinct : List Move → Type 0
Distinct [] = Unit {0}
Distinct (m ∷ ms) = Absent m.key ms × Distinct ms

equal_keys_comm : (a b : PositionKey) → equal_keys a b ≡ false → equal_keys b a ≡ false
equal_keys_comm a b h = ground arith

-- What `insert_move` writes at an old move of the same position.
abbrev pub replaced : Move → Move → Move
replaced m old =
    if ltb old.c_moves m.c_moves || ltb old.c_pips m.c_pips
    then record old { an_move = m.an_move; c_moves = m.c_moves; c_pips = m.c_pips }
    else old

pub insert_same :
    (m old : Move) (ms : List Move)
    → equal_keys m.key old.key ≡ true
    → insert_move m (old ∷ ms) ≡ replaced m old ∷ ms
unfolding insert_move
insert_same m old ms h = rw h refl

pub insert_other :
    (m old : Move) (ms : List Move)
    → equal_keys m.key old.key ≡ false
    → insert_move m (old ∷ ms) ≡ old ∷ insert_move m ms
unfolding insert_move
insert_other m old ms h = rw h refl

pub key-replaced : (m old : Move) → (replaced m old).key ≡ old.key
key-replaced m old = ground arith

insert_move-AllMoves {ℓ} :
    (P : Move → Type ℓ) (m : Move) (ms : List Move)
    → P m
    → ((old : Move) → P old → equal_keys m.key old.key ≡ true → P (replaced m old))
    → AllMoves P ms
    → AllMoves P (insert_move m ms)
unfolding insert_move
insert_move-AllMoves P m [] p keep h = (p, tt)
insert_move-AllMoves P m (old ∷ ms) p keep h = elim (Bool-cases (equal_keys m.key old.key)) [
  | inl same ↦ subst (AllMoves P) (sym (insert_same m old ms same)) (keep old h.0 same, h.1)
  | inr other ↦
      subst (AllMoves P) (sym (insert_other m old ms other))
        (h.0, insert_move-AllMoves P m ms p keep h.1)
]

insert_move-Absent :
    (k : PositionKey) (m : Move) (ms : List Move)
    → equal_keys k m.key ≡ false
    → Absent k ms
    → Absent k (insert_move m ms)
insert_move-Absent k m ms h a =
    insert_move-AllMoves (λ x. equal_keys k x.key ≡ false) m ms h
      (λ old p same. rw (key-replaced m old) p) a

insert_move-Distinct : (m : Move) (ms : List Move) → Distinct ms → Distinct (insert_move m ms)
unfolding insert_move
insert_move-Distinct m [] h = (tt, tt)
insert_move-Distinct m (old ∷ ms) h = elim (Bool-cases (equal_keys m.key old.key)) [
  | inl same ↦ subst Distinct (sym (insert_same m old ms same)) (rw (key-replaced m old) h.0, h.1)
  | inr other ↦ subst Distinct (sym (insert_other m old ms other)) (
    insert_move-Absent old.key m ms (equal_keys_comm m.key old.key other) h.0,
    insert_move-Distinct m ms h.1,
  )
]

-- The move that `SaveMoves` records.
abbrev pub recorded : ℕ → ℕ → MovePairs → TanBoard → Move
recorded c_moves c_pip an_moves b = record {
  an_move = map clamp_pair (take c_moves an_moves);
  key = position_key b;
  c_moves = c_moves;
  c_pips = c_pip;
}

module _ (ml : MoveList) (c_moves c_pip : ℕ) (an_moves : MovePairs) (b : TanBoard) where
  -- A property that the new move has, and that a replaced one keeps, holds of the whole list.
  pub save_moves-AllMoves {ℓ} :
      (P : Move → Type ℓ) (f_partial : Bool)
      → P (recorded c_moves c_pip an_moves b)
      → ((old : Move)
          → P old
          → equal_keys (position_key b) old.key ≡ true
          → P (replaced (recorded c_moves c_pip an_moves b) old))
      → AllMoves P ml.moves
      → AllMoves P (save_moves ml c_moves c_pip an_moves b f_partial).moves
  unfolding save_moves
  save_moves-AllMoves P true p keep h = insert_move-AllMoves P _ ml.moves p keep h
  save_moves-AllMoves P false p keep h =
      elim (Bool-cases (ltb c_moves ml.c_max_moves || ltb c_pip ml.c_max_pips)) [
        | inl less ↦ rw less h
        | inr most ↦ rw most (
            insert_move-AllMoves P (recorded c_moves c_pip an_moves b) _ p keep
              (kept (ltb ml.c_max_moves c_moves || ltb ml.c_max_pips c_pip)))
      ]
    where
      kept : (more : Bool) → AllMoves P (if more then [] else ml.moves)
      kept true = tt
      kept false = h

  pub save_moves-Distinct :
      (f_partial : Bool)
      → Distinct ml.moves
      → Distinct (save_moves ml c_moves c_pip an_moves b f_partial).moves
  unfolding save_moves
  save_moves-Distinct true h = insert_move-Distinct _ ml.moves h
  save_moves-Distinct false h =
      elim (Bool-cases (ltb c_moves ml.c_max_moves || ltb c_pip ml.c_max_pips)) [
        | inl less ↦ rw less h
        | inr most ↦ rw most (
            insert_move-Distinct (recorded c_moves c_pip an_moves b) _
              (kept (ltb ml.c_max_moves c_moves || ltb ml.c_max_pips c_pip)))
      ]
    where
      kept : (more : Bool) → Distinct (if more then [] else ml.moves)
      kept true = tt
      kept false = h

-- Every move of the list plays as many chequers and pips as the list says at most.
abbrev pub Plays : ℕ → ℕ → Move → Type 0
Plays c_moves c_pips m = (m.c_moves ≡ c_moves) × (m.c_pips ≡ c_pips)

abbrev pub Uniform : MoveList → Type 0
Uniform ml = AllMoves (Plays ml.c_max_moves ml.c_max_pips) ml.moves

replaced-Plays : (c p : ℕ) (m old : Move) → Plays c p m → Plays c p old → Plays c p (replaced m old)
replaced-Plays c p m old h k = ground arith

pub save_moves-Uniform :
    (ml : MoveList) (c_moves c_pip : ℕ) (an_moves : MovePairs) (b : TanBoard)
    → Uniform ml
    → Uniform (save_moves ml c_moves c_pip an_moves b false)
unfolding save_moves
save_moves-Uniform ml c_moves c_pip an_moves b h =
    elim (Bool-cases (ltb c_moves ml.c_max_moves || ltb c_pip ml.c_max_pips)) [
      | inl less ↦ rw less h
      | inr most ↦ rw most (
          insert_move-AllMoves (Plays c_moves c_pip) (recorded c_moves c_pip an_moves b) _
            (refl, refl)
            (λ old p same.
              replaced-Plays c_moves c_pip (recorded c_moves c_pip an_moves b) old (refl, refl) p)
            (elim (Bool-cases (ltb ml.c_max_moves c_moves || ltb ml.c_max_pips c_pip)) [
              | inl more ↦ rw more tt
              | inr equal ↦
                  let moves : ml.c_max_moves ≡ c_moves = ground arith in
                  let pips : ml.c_max_pips ≡ c_pip = ground arith in
                  rw equal (rw (moves, pips) at h)
            ]))
    ]
