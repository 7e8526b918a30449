-- ===== src/MatchId/RoundTrip.antt =====
-- `MatchFromID` of engine-core/matchid.c on what `MatchIDFromMatchState` wrote.
use native.Mathlib.Nat.{pow-suc, mod-eq_of_lt}
use gnubg_android.Base.{
  subst, ℕ, zero, suc, ◌+◌, ◌*◌, ◌/◌, ◌%◌, ◌^◌, ◌≤◌, ◌<◌, ◌≡◌, ◌⊎◌, inl, inr, refl, sym, ◌∙◌, ap,
  Bool, not, List, [], ◌∷◌, replicate, ltb, leb, ◌==◌, if◌then◌else◌, length, get_or, get_or-set,
  dec_lt, ℕ_discrete, arith,
}
use gnubg_android.Base.Int.{ℤ, pos, negsuc, pos_part}
use gnubg_android.Base.Order.{power_le}
use gnubg_android.Game.{MatchState, GameState}
use gnubg_android.Game.Offer.{IsPlayer}
use gnubg_android.MatchId.Text.{Bytes9, match_from_id-match_id_from_key}
use gnubg_android.MatchId.{
  bit_at, set_bit, set_bits_from, match_id_from_match_state, match_code, match_from_key,
  match_from_id, set_bits, get_bits, log_cube, int_bits, flag, gs_code, match_key, MatchInfo,
  read_key,
}
use gnubg_android.MatchId.Accepted.{log_cube_bounds}
use gnubg_android.MatchId.Bits.{
  bit, put_bit, bit_at_lt, length-set_bit, length-set_bits_from, bit-set_bits_outside,
  bit-set_bits_inside,
}
use gnubg_android.MatchId.Fields.{get_bits_value, put_bit-lt}

-- A field: its first bit, its width and its content.
abbrev Field : Type 0
Field = ℕ × ℕ × ℕ

abbrev write_fields : List Field → List ℕ → List ℕ
write_fields [] pc = pc
write_fields ((p, n, x) ∷ rest) pc = write_fields rest (set_bits pc p n x)

-- The fields follow each other from bit `from` on, within `size` bits.
abbrev Ordered : ℕ → ℕ → List Field → Type 0
Ordered from size [] = Unit {0}
Ordered from size ((p, n, x) ∷ rest) = (from ≤ p) × ((p + n ≤ size) × Ordered (p + n) size rest)

-- Every field is read from the key as it was written, if its content fits.
abbrev Holds : List ℕ → List Field → Type 0
Holds key [] = Unit {0}
Holds key ((p, n, x) ∷ rest) = (n ≤ 16 → x < 2 ^ n → get_bits key p n ≡ x) × Holds key rest

bit-write_fields :
    (fs : List Field) (pc : List ℕ) (from j : ℕ)
    → Ordered from (8 * length pc) fs
    → j < from
    → bit (write_fields fs pc) j ≡ bit pc j
bit-write_fields [] pc from j o h = refl
bit-write_fields ((p, n, x) ∷ rest) pc from j (a, (b, o)) h =
    let len : 8 * length pc ≡ 8 * length (set_bits pc p n x) =
      ap (λ l. 8 * l) (sym (length-set_bits_from n 0 pc p x)) in
    bit-write_fields rest (set_bits pc p n x) (p + n) j (subst (λ l. Ordered (p + n) l rest) len o)
      (omega arith)
    ∙ bit-set_bits_outside n 0 pc p x j (omega arith) (inl (omega arith))

write_fields-Holds :
    (fs : List Field) (pc : List ℕ) (from : ℕ)
    → Ordered from (8 * length pc) fs
    → Holds (write_fields fs pc) fs
write_fields-Holds [] pc from o = tt
write_fields-Holds ((p, n, x) ∷ rest) pc from (a, (b, o)) =
    let len : 8 * length pc ≡ 8 * length (set_bits pc p n x) =
      ap (λ l. 8 * l) (sym (length-set_bits_from n 0 pc p x)) in
    let o' = subst (λ l. Ordered (p + n) l rest) len o in
    (
      λ few h. get_bits_value (write_fields rest (set_bits pc p n x)) p n x few h (λ k l.
          bit-write_fields rest (set_bits pc p n x) (p + n) (p + k) o' (omega arith)
          ∙ bit-set_bits_inside n 0 pc p x k (omega arith) (omega arith) (omega arith)),
      write_fields-Holds rest (set_bits pc p n x) (p + n) o',
    )

-- The fields of a match ID.
abbrev fields : MatchState → List Field
fields ms =
    let larger = if leb ms.an_dice.p1 ms.an_dice.p0 then ms.an_dice.p0 else ms.an_dice.p1 in
    let smaller = if leb ms.an_dice.p1 ms.an_dice.p0 then ms.an_dice.p1 else ms.an_dice.p0 in
    (0, 4, log_cube ms.n_cube)
    ∷ (4, 2, int_bits ms.f_cube_owner % 4)
    ∷ (6, 1, int_bits ms.f_move)
    ∷ (7, 1, flag ms.f_crawford)
    ∷ (8, 3, gs_code ms.gs)
    ∷ (11, 1, int_bits ms.f_turn)
    ∷ (12, 1, flag ms.f_doubled)
    ∷ (13, 2, ms.f_resigned)
    ∷ (15, 3, larger % 8)
    ∷ (18, 3, smaller % 8)
    ∷ (21, 15, ms.n_match_to % 2 ^ 15)
    ∷ (36, 15, ms.an_score.p0 % 2 ^ 15)
    ∷ (51, 15, ms.an_score.p1 % 2 ^ 15)
    ∷ (66, 1, flag (not ms.f_jacoby))
    ∷ []

match_key-fields : (ms : MatchState) → match_key ms ≡ write_fields (fields ms) (replicate 9 0)
unfolding match_key
match_key-fields ms = refl

match_key-Holds : (ms : MatchState) → Holds (match_key ms) (fields ms)
match_key-Holds ms =
    rw (match_key-fields ms) (write_fields-Holds (fields ms) (replicate 9 0) 0 (omega arith))

-- A match state whose fields the ID has room for: a cube of up to 2^15, the players 0 and 1, the cube
-- with one of them or in the middle, dice of three bits, numbers of 15 bits.
pub record Encodable (ms : MatchState) : Type 0 where
  pub cube : (c : ℕ) × (c < 16) × (ms.n_cube ≡ 2 ^ c)
  pub owner : (ms.f_cube_owner ≡ negsuc 0) ⊎ IsPlayer ms.f_cube_owner
  pub move : IsPlayer ms.f_move
  pub turn : IsPlayer ms.f_turn
  pub gives_up : ms.f_resigned < 4
  pub dice : (ms.an_dice.p0 < 8) × (ms.an_dice.p1 < 8)
  pub points : ms.n_match_to < 2 ^ 15
  pub score : (ms.an_score.p0 < 2 ^ 15) × (ms.an_score.p1 < 2 ^ 15)

-- What is read back: the higher die first, and flags as 0 and 1.
abbrev pub stored : MatchState → MatchInfo
stored ms = record {
  an_dice = record {
    p0 = if leb ms.an_dice.p1 ms.an_dice.p0 then ms.an_dice.p0 else ms.an_dice.p1;
    p1 = if leb ms.an_dice.p1 ms.an_dice.p0 then ms.an_dice.p1 else ms.an_dice.p0;
  };
  f_turn = pos_part ms.f_turn;
  f_resigned = ms.f_resigned;
  f_doubled = flag ms.f_doubled;
  f_move = pos_part ms.f_move;
  f_cube_owner = ms.f_cube_owner;
  f_crawford = flag ms.f_crawford;
  n_match_to = ms.n_match_to;
  an_score = ms.an_score;
  n_cube = ms.n_cube;
  f_jacoby = ms.f_jacoby;
  gs = gs_code ms.gs;
}

log_cube-pow : (c : ℕ) → log_cube (2 ^ c) ≡ c
log_cube-pow c =
    let (low, high) = log_cube_bounds (2 ^ c) (power_le 0 c (omega arith)) in
    elim (ℕ_discrete (log_cube (2 ^ c)) c) [
      | yes e ↦ e
      | no ne ↦ elim (dec_lt (log_cube (2 ^ c)) c) [
        | yes before ↦ absurd (let up = power_le (suc (log_cube (2 ^ c))) c before in omega arith)
        | no after ↦ absurd (
            let up = power_le (suc c) (log_cube (2 ^ c)) (omega arith) in
            let twice = pow-suc 2 c in let some = power_le 0 c (omega arith) in omega arith)
      ]
    ]

player_bits : (z : ℤ) → IsPlayer z → (int_bits z < 2 ^ 1) × (int_bits z ≡ pos_part z)
player_bits z (inl e) = rw e (omega arith, refl)
player_bits z (inr e) = rw e (omega arith, refl)

flag_small : (b : Bool) → flag b < 2 ^ 1
flag_small b = ground arith

-- The owner of the cube in two bits.
abbrev owner_of : ℕ → ℤ
owner_of owner = if ltb 1 owner then negsuc 0 else pos owner

owner_back : (z : ℤ) → (z ≡ negsuc 0) ⊎ IsPlayer z → owner_of (int_bits z % 4) ≡ z
owner_back z (inl e) = rw e refl
owner_back z (inr (inl e)) = rw e refl
owner_back z (inr (inr e)) = rw e refl

jacoby_back : (b : Bool) → (flag (not b) == 0) ≡ b
jacoby_back b = ground arith

gs_code-lt : (gs : GameState) → gs_code gs < 2 ^ 3
gs_code-lt gs = ground arith

-- A match state whose fields fit is written by `MatchID` to a key that `MatchFromKey` reads back: all
-- the fields, with the higher die first.
pub read_key-match_key : (ms : MatchState) → Encodable ms → read_key (match_key ms) ≡ stored ms
unfolding read_key
read_key-match_key ms v =
    let (
      cube,
      (
        owner,
        (
          move,
          (
            crawford,
            (
              gs,
              (
                turn,
                (doubled, (gives_up, (die0, (die1, (points, (score0, (score1, (jacoby, _)))))))),
              ),
            ),
          ),
        ),
      ),
    ) =
      match_key-Holds ms in
    let (c, few, e) = v.cube in
    let log : log_cube ms.n_cube ≡ c = ap log_cube e ∙ log_cube-pow c in
    let cube' = ap (λ n. 2 ^ n) (cube (omega arith) (omega arith) ∙ log) ∙ sym e in
    let owner' =
      ap owner_of (owner (omega arith) (omega arith)) ∙ owner_back ms.f_cube_owner v.owner in
    let (move_fits, move_kept) = player_bits ms.f_move v.move in
    let (turn_fits, turn_kept) = player_bits ms.f_turn v.turn in
    let move' = move (omega arith) move_fits ∙ move_kept in
    let turn' = turn (omega arith) turn_fits ∙ turn_kept in
    let crawford' = crawford (omega arith) (flag_small ms.f_crawford) in
    let doubled' = doubled (omega arith) (flag_small ms.f_doubled) in
    let jacoby' =
      ap (λ n. n == 0) (jacoby (omega arith) (flag_small (not ms.f_jacoby)))
      ∙ jacoby_back ms.f_jacoby in
    let gs' = gs (omega arith) (gs_code-lt ms.gs) in
    let gives_up' = gives_up (omega arith) (omega (arith, v.gives_up)) in
    let high : (stored ms).an_dice.p0 < 8 = ground (arith, v.dice) in
    let low : (stored ms).an_dice.p1 < 8 = ground (arith, v.dice) in
    let die0' = die0 (omega arith) (omega arith) ∙ mod-eq_of_lt high in
    let die1' = die1 (omega arith) (omega arith) ∙ mod-eq_of_lt low in
    let points' = points (omega arith) (omega arith) ∙ mod-eq_of_lt v.points in
    let score0' = score0 (omega arith) (omega arith) ∙ mod-eq_of_lt v.score.0 in
    let score1' = score1 (omega arith) (omega arith) ∙ mod-eq_of_lt v.score.1 in
    λ i. record {
      an_dice = record { p0 = die0' i; p1 = die1' i };
      f_turn = turn' i;
      f_resigned = gives_up' i;
      f_doubled = doubled' i;
      f_move = move' i;
      f_cube_owner = owner' i;
      f_crawford = crawford' i;
      n_match_to = points' i;
      an_score = record { p0 = score0' i; p1 = score1' i };
      n_cube = cube' i;
      f_jacoby = jacoby' i;
      gs = gs' i;
    }

-- Bits are set within bytes.
set_bit_small :
    (pc : List ℕ) (p t i : ℕ)
    → p / 8 < length pc
    → ((k : ℕ) → get_or pc k 0 < 256)
    → (k : ℕ) → get_or (set_bit pc p t i) k 0 < 256
unfolding set_bit
set_bit_small pc p t i h small k =
    let byte = put_bit (get_or pc (p / 8) 0) (p % 8) (bit_at t i) in
    let few =
      put_bit-lt 8 (get_or pc (p / 8) 0) (p % 8) (bit_at t i) (small (p / 8)) (omega arith)
        (bit_at_lt t i) in
    ground (arith, small k, get_or-set pc (p / 8) k byte 0 h)

set_bits_small :
    (n i : ℕ) (pc : List ℕ) (p x : ℕ)
    → p + i + n ≤ 8 * length pc
    → ((k : ℕ) → get_or pc k 0 < 256)
    → (k : ℕ) → get_or (set_bits_from n i pc p x) k 0 < 256
unfolding set_bits_from
set_bits_small zero i pc p x h small = small
set_bits_small (suc n) i pc p x h small =
    let len = length-set_bit pc (p + i) x i in
    set_bits_small n (i + 1) (set_bit pc (p + i) x i) p x (omega arith)
      (set_bit_small pc (p + i) x i (omega arith) small)

write_fields-Bytes9 :
    (fs : List Field) (pc : List ℕ) (from : ℕ)
    → Ordered from 72 fs
    → Bytes9 pc
    → Bytes9 (write_fields fs pc)
write_fields-Bytes9 [] pc from o b = b
write_fields-Bytes9 ((p, n, x) ∷ rest) pc from (low, (fits, o)) b =
    write_fields-Bytes9 rest (set_bits pc p n x) (p + n) o (record {
      nine = length-set_bits_from n 0 pc p x ∙ b.nine;
      small = set_bits_small n 0 pc p x (omega (arith, b.nine)) b.small;
    })

zeros-Bytes9 : Bytes9 (replicate 9 0)
zeros-Bytes9 = record { nine = refl; small = λ i. zeros 9 i }
  where
    zeros : (n i : ℕ) → get_or (replicate n 0) i 0 < 256
    zeros zero i = omega arith
    zeros (suc n) zero = omega arith
    zeros (suc n) (suc i) = zeros n i

match_key-Bytes9 : (ms : MatchState) → Bytes9 (match_key ms)
match_key-Bytes9 ms =
    rw (match_key-fields ms)
      (write_fields-Bytes9 (fields ms) (replicate 9 0) 0 (omega arith) zeros-Bytes9)

-- The match ID of a match state, whose fields it has room for, is read back by `MatchFromID` as the
-- same fields, with the higher die first; the code that is returned is that of its tests on these
-- fields.
pub match_from_id-match_id_from_match_state :
    (ms : MatchState)
    → Encodable ms
    → match_from_id (match_id_from_match_state ms) ≡ (stored ms, match_code (stored ms))
unfolding match_id_from_match_state match_from_key
match_from_id-match_id_from_match_state ms v =
    match_from_id-match_id_from_key (match_key ms) (match_key-Bytes9 ms)
    ∙ ap (λ (m : MatchInfo). (m, match_code m)) (read_key-match_key ms v)
