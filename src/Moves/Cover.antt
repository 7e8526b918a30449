-- ===== src/Moves/Cover.antt =====
-- What `SaveMoves` of engine-core/eval.c does not lose: a move is given up only for one that plays
-- more, or for one that leads to the same position.
use gnubg_android.Base.{
  ℕ, ◌≤◌, ◌<◌, ◌≡◌, ◌⊎◌, inl, inr, refl, sym, Bool-cases, true, false, ◌||◌, List, [], ◌∷◌, ltb,
  arith,
}
use gnubg_android.Board.{TanBoard}
use gnubg_android.Position.Key.{position_key, equal_keys}
use gnubg_android.Position.Key.Laws.{equal_keys-eq}
use gnubg_android.Moves.{Move, MoveList, MovePairs, insert_move, save_moves}
use gnubg_android.Moves.Save.{
  AllMoves, Plays, Uniform, recorded, replaced, insert_same, insert_other, save_moves-Uniform,
}

-- Some move of a list has a property.
abbrev pub SomeMove : (Move → Type 0) → List Move → Type 0
SomeMove P [] = ⊥
SomeMove P (m ∷ ms) = P m ⊎ SomeMove P ms

pub SomeMove-map :
    (P Q : Move → Type 0) (ms : List Move)
    → ((m : Move) → P m → Q m)
    → SomeMove P ms
    → SomeMove Q ms
SomeMove-map P Q [] f h = absurd h
SomeMove-map P Q (m ∷ ms) f (inl p) = inl (f m p)
SomeMove-map P Q (m ∷ ms) f (inr h) = inr (SomeMove-map P Q ms f h)

-- A property that some move has, and one that all have.
pub SomeMove-with :
    (P Q : Move → Type 0) (ms : List Move)
    → AllMoves Q ms
    → SomeMove P ms
    → SomeMove (λ m. P m × Q m) ms
SomeMove-with P Q [] all h = absurd h
SomeMove-with P Q (m ∷ ms) all (inl p) = inl (p, all.0)
SomeMove-with P Q (m ∷ ms) all (inr h) = inr (SomeMove-with P Q ms all.1 h)

-- A list of moves that all play the same is nowhere changed.
replaced_same : (c p : ℕ) (m old : Move) → Plays c p m → Plays c p old → replaced m old ≡ old
replaced_same c p m old h k = ground arith

insert_move-SomeMove :
    (P : Move → Type 0) (c p : ℕ) (m : Move) (ms : List Move)
    → Plays c p m
    → AllMoves (Plays c p) ms
    → SomeMove P ms
    → SomeMove P (insert_move m ms)
insert_move-SomeMove P c p m [] h all some = absurd some
insert_move-SomeMove P c p m (old ∷ ms) h all some = elim (Bool-cases (equal_keys m.key old.key)) [
  | inl same ↦ rw (insert_same m old ms same, replaced_same c p m old h all.0) some
  | inr other ↦ rw (insert_other m old ms other) (elim some [
    | inl here ↦ inl here
    | inr there ↦ inr (insert_move-SomeMove P c p m ms h all.1 there)
  ])
]

-- The position of the new move is in the list.
insert_move_found :
    (c p : ℕ) (m : Move) (ms : List Move)
    → Plays c p m
    → AllMoves (Plays c p) ms
    → SomeMove (λ x. (x.key ≡ m.key) × Plays c p x) (insert_move m ms)
unfolding insert_move
insert_move_found c p m [] h all = inl (refl, h)
insert_move_found c p m (old ∷ ms) h all = elim (Bool-cases (equal_keys m.key old.key)) [
  | inl same ↦
      rw (insert_same m old ms same, replaced_same c p m old h all.0)
        (inl (sym (equal_keys-eq m.key old.key same), all.0))
  | inr other ↦ rw (insert_other m old ms other) (inr (insert_move_found c p m ms h all.1))
]

-- A move that plays more than `c` chequers, or more than `p` pips, or leads to the position of `e`.
abbrev pub Covers : ℕ → ℕ → TanBoard → Move → Type 0
Covers c p e m =
    (c < m.c_moves)
    ⊎ ((p < m.c_pips) ⊎ ((m.key ≡ position_key e) × (c ≤ m.c_moves) × (p ≤ m.c_pips)))

abbrev pub Covered : ℕ → ℕ → TanBoard → MoveList → Type 0
Covered c p e ml = SomeMove (Covers c p e) ml.moves

-- Moves that all play the same, with a move that shows how much.
pub record Backed (ml : MoveList) : Type 0 where
  pub uniform : Uniform ml
  pub shown : ((ml.c_max_moves ≡ 0) × (ml.c_max_pips ≡ 0)) ⊎ SomeMove (λ m. Unit {0}) ml.moves

-- Three cases of `SaveMoves` on complete moves.
module _ (ml : MoveList) (c_moves c_pip : ℕ) (am : MovePairs) (b : TanBoard) where
  abbrev saved : MoveList
  saved = save_moves ml c_moves c_pip am b false

  abbrev new : Move
  new = recorded c_moves c_pip am b

  -- Kept as it is, since the move plays less.
  save_less : (ltb c_moves ml.c_max_moves || ltb c_pip ml.c_max_pips) ≡ true → saved ≡ ml
  unfolding save_moves
  save_less less = rw less refl

  -- A list that begins anew.
  save_more :
      (ltb c_moves ml.c_max_moves || ltb c_pip ml.c_max_pips) ≡ false
      → (ltb ml.c_max_moves c_moves || ltb ml.c_max_pips c_pip) ≡ true
      → saved.moves ≡ new ∷ []
  unfolding save_moves insert_move
  save_more enough more = rw (enough, more) refl

  save_equal :
      (ltb c_moves ml.c_max_moves || ltb c_pip ml.c_max_pips) ≡ false
      → (ltb ml.c_max_moves c_moves || ltb ml.c_max_pips c_pip) ≡ false
      → saved.moves ≡ insert_move new ml.moves
  unfolding save_moves
  save_equal enough equal = rw (enough, equal) refl

  more-Covers :
      (c p : ℕ) (e : TanBoard) (m : Move)
      → (ltb c_moves ml.c_max_moves || ltb c_pip ml.c_max_pips) ≡ false
      → (ltb ml.c_max_moves c_moves || ltb ml.c_max_pips c_pip) ≡ true
      → Covers c p e m
      → Plays ml.c_max_moves ml.c_max_pips m
      → Covers c p e new
  more-Covers c p e m enough more (inl a) k = inl (ground (arith, k))
  more-Covers c p e m enough more (inr (inl a)) k = inr (inl (ground (arith, k)))
  more-Covers c p e m enough more (inr (inr (same, a, b))) k =
      elim (Bool-cases (ltb ml.c_max_moves c_moves)) [
        | inl longer ↦ inl (ground (arith, k))
        | inr same_length ↦ inr (inl (ground (arith, k)))
      ]

  began :
      (c p : ℕ) (e : TanBoard) (ms : List Move)
      → (ltb c_moves ml.c_max_moves || ltb c_pip ml.c_max_pips) ≡ false
      → (ltb ml.c_max_moves c_moves || ltb ml.c_max_pips c_pip) ≡ true
      → SomeMove (λ m. Covers c p e m × Plays ml.c_max_moves ml.c_max_pips m) ms
      → Covers c p e new
  began c p e [] enough more h = absurd h
  began c p e (m ∷ ms) enough more (inl (a, k)) = more-Covers c p e m enough more a k
  began c p e (m ∷ ms) enough more (inr h) = began c p e ms enough more h

  pub save_moves-Covered :
      (c p : ℕ) (e : TanBoard) → Uniform ml → Covered c p e ml → Covered c p e saved
  save_moves-Covered c p e u h =
      elim (Bool-cases (ltb c_moves ml.c_max_moves || ltb c_pip ml.c_max_pips)) [
        | inl less ↦ rw (save_less less) h
        | inr enough ↦ elim (Bool-cases (ltb ml.c_max_moves c_moves || ltb ml.c_max_pips c_pip)) [
          | inl more ↦ rw (save_more enough more) (
              inl (
                began c p e ml.moves enough more
                  (SomeMove-with (Covers c p e) (Plays ml.c_max_moves ml.c_max_pips) ml.moves u h)))
          | inr equal ↦
              let moves : c_moves ≡ ml.c_max_moves = ground arith in
              let pips : c_pip ≡ ml.c_max_pips = ground arith in
              rw (save_equal enough equal) (
                insert_move-SomeMove (Covers c p e) ml.c_max_moves ml.c_max_pips new ml.moves
                  (moves, pips) u h)
        ]
      ]

  -- What is saved is covered afterwards.
  pub save_moves_covers : Backed ml → Covered c_moves c_pip b saved
  save_moves_covers k = elim (Bool-cases (ltb c_moves ml.c_max_moves || ltb c_pip ml.c_max_pips)) [
    | inl less ↦ rw (save_less less) (elim k.shown [
      | inl none_yet ↦ absurd (ground (arith, none_yet))
      | inr some ↦
          SomeMove-map (λ m. Unit × Plays ml.c_max_moves ml.c_max_pips m) (Covers c_moves c_pip b)
            ml.moves (λ m h. less_covers m less h.1)
            (SomeMove-with (λ m. Unit) (Plays ml.c_max_moves ml.c_max_pips) ml.moves k.uniform some)
    ])
    | inr enough ↦ elim (Bool-cases (ltb ml.c_max_moves c_moves || ltb ml.c_max_pips c_pip)) [
      | inl more ↦ rw (save_more enough more) (inl (inr (inr (refl, omega arith, omega arith))))
      | inr equal ↦
          let moves : c_moves ≡ ml.c_max_moves = ground arith in
          let pips : c_pip ≡ ml.c_max_pips = ground arith in
          rw (save_equal enough equal) (
            SomeMove-map (λ x. (x.key ≡ new.key) × Plays ml.c_max_moves ml.c_max_pips x)
              (Covers c_moves c_pip b) (insert_move new ml.moves)
              (λ m h. inr (inr (h.0, omega (arith, h.1), omega (arith, h.1))))
              (insert_move_found ml.c_max_moves ml.c_max_pips new ml.moves (moves, pips) k.uniform))
    ]
  ]
    where
      less_covers :
          (m : Move)
          → (ltb c_moves ml.c_max_moves || ltb c_pip ml.c_max_pips) ≡ true
          → Plays ml.c_max_moves ml.c_max_pips m
          → Covers c_moves c_pip b m
      less_covers m less h = elim (Bool-cases (ltb c_moves ml.c_max_moves)) [
        | inl fewer ↦ inl (ground (arith, h))
        | inr as_many ↦ inr (inl (ground (arith, h)))
      ]

pub save_moves-Backed :
    (ml : MoveList) (c_moves c_pip : ℕ) (am : MovePairs) (b : TanBoard)
    → Backed ml
    → Backed (save_moves ml c_moves c_pip am b false)
save_moves-Backed ml c_moves c_pip am b k = record {
  uniform = save_moves-Uniform ml c_moves c_pip am b k.uniform;
  shown = inr (
      SomeMove-map (Covers c_moves c_pip b) (λ m. Unit) _ (λ m h. tt)
        (save_moves_covers ml c_moves c_pip am b k));
}
