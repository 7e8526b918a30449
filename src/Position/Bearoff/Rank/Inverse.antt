-- ===== src/Position/Bearoff/Rank/Inverse.antt =====
-- `PositionInv` and `PositionF` of engine-core/positionid.c are inverse to each other.
use native.Mathlib.Nat.{pow-succ'}
use gnubg_android.Base.{
  ℕ, zero, suc, ◌+◌, ◌-◌, ◌*◌, ◌^◌, ◌≤◌, ◌<◌, ◌≡◌, refl, sym, ◌∙◌, ap, subst, dec_lt, ℕ_discrete,
  arith,
}
use gnubg_android.Base.Order.{power_le}
use gnubg_android.Board.{u32}
use gnubg_android.MatchId.{bit_at}
use gnubg_android.MatchId.Fields.{high_bits, no_bits}
use gnubg_android.Position.Bearoff.{combination, position_f, position_inv, or_word}
use gnubg_android.Position.Bearoff.Choose.{
  choose, choose_self, choose_small, choose-suc, combination-choose,
}
use gnubg_android.Position.Bearoff.Rank.{
  ones, ones_none, ones_full, ones_low, or_top, position_f_all, position_f_one, position_f_none,
  position_f_low, position_inv_all, position_inv_empty, position_inv_one, position_inv_none,
  position_f-Ranked,
}

-- A word of `n` bits with `r` ones, whose number is `id`.
record Chosen (id n r f : ℕ) : Type 0 where
  word : f < 2 ^ n
  chosen : ones n f ≡ r
  number : position_f f n r ≡ id

position_f_nothing : (n : ℕ) → position_f 0 n 0 ≡ 0
unfolding position_f
position_f_nothing zero = refl
position_f_nothing (suc n) =
    position_f_none 0 n 0 (λ e. omega arith) (no_bits 0 0 n (omega arith) (omega arith))
    ∙ position_f_nothing n

nothing-Chosen : (id n : ℕ) → id < choose n 0 → Chosen id n 0 0
nothing-Chosen id n h =
    let some = power_le 0 n (omega arith) in
    record { word = omega arith; chosen = ones_none n; number = position_f_nothing n ∙ omega arith }

all-Chosen : (id n : ℕ) → id < choose (suc n) (suc n) → Chosen id (suc n) (suc n) (2 ^ suc n - 1)
all-Chosen id n h =
    let some = power_le 0 (suc n) (omega arith) in
    record {
      word = omega arith;
      chosen = ones_full (suc n);
      number = position_f_all (2 ^ suc n - 1) n (suc n) refl ∙ omega (arith, choose_self (suc n));
    }

-- A bit in front, and none.
set-Chosen :
    (id n r g : ℕ)
    → r ≤ n
    → 0 < r
    → suc n ≤ 32
    → r ≤ 25
    → combination n r ≤ id
    → id < choose (suc n) r
    → Chosen (id - combination n r) n (r - 1) g
    → Chosen id (suc n) r (or_word (2 ^ n) g)
set-Chosen id n r g le some h k above below c =
    let p = pow-succ' 2 n in
    let e : or_word (2 ^ n) g ≡ g + 2 ^ n * 1 = or_top n g (omega arith) c.word ∙ omega arith in
    let same : n ≡ n + 0 = omega arith in
    let one : bit_at (g + 2 ^ n * 1) n ≡ 1 =
      ap (bit_at (g + 2 ^ n * 1)) same ∙ high_bits n g 1 0 c.word in
    let fits = choose_small n r (omega arith) in
    let rest = position_f_low n n g 1 (r - 1) (omega arith) ∙ c.number in
    let total : u32 (combination n r + (id - combination n r)) ≡ id = omega arith in
    rw e (record {
      word = omega (arith, c.word);
      chosen = omega (arith, one, ones_low n g 1, c.chosen);
      number =
          position_f_one (g + 2 ^ n * 1) n r (λ e. omega arith) one
          ∙ (ap (λ x. u32 (combination n r + x)) rest ∙ total);
    })

unset-Chosen : (id n r g : ℕ) → r ≤ n → Chosen id n r g → Chosen id (suc n) r g
unset-Chosen id n r g le c =
    let p = pow-succ' 2 n in
    let z = no_bits n g n c.word (omega arith) in
    record {
      word = omega (arith, c.word);
      chosen = omega (arith, z, c.chosen);
      number = position_f_none g n r (λ e. omega arith) z ∙ c.number;
    }

position_inv-Chosen :
    (id n r : ℕ) → r ≤ n → n ≤ 32 → r ≤ 25 → id < choose n r → Chosen id n r (position_inv id n r)
unfolding position_inv
position_inv-Chosen id zero r le h k below =
    let none_left : r ≡ 0 = omega arith in
    rw none_left (nothing-Chosen id 0 (subst (λ s. id < choose 0 s) none_left below))
position_inv-Chosen id (suc n) r le h k below = elim (ℕ_discrete r 0) [
  | yes none_left ↦
      rw (none_left, position_inv_empty id (suc n) 0)
        (nothing-Chosen id (suc n) (subst (λ s. id < choose (suc n) s) none_left below))
  | no some ↦ elim (ℕ_discrete (suc n) r) [
    | yes all ↦
        rw (position_inv_all id n r all, ← all)
          (all-Chosen id n (subst (λ s. id < choose (suc n) s) (sym all) below))
    | no ne ↦
        let c = combination-choose n r (omega arith) (omega arith) (omega arith) k in
        let next = choose-suc n r (omega arith) in
        elim (dec_lt id (combination n r)) [
          | yes low ↦ rw (position_inv_none id n r (omega arith) ne low) (
              unset-Chosen id n r _ (omega arith)
                (position_inv-Chosen id n r (omega arith) (omega arith) k (omega arith)))
          | no high ↦ rw (position_inv_one id n r (omega arith) ne (omega arith)) (
              set-Chosen id n r _ (omega arith) (omega arith) h k (omega arith) below (
                position_inv-Chosen (id - combination n r) n (r - 1) (omega arith) (omega arith)
                  (omega arith) (omega arith)))
        ]
  ]
]

-- For up to 32 bits, of which up to 25 are ones, `PositionF` and `PositionInv` are inverse to each
-- other: a word of `n` bits with `r` ones has a number below the number of ways to choose `r` of `n`,
-- from which `PositionInv` finds the word, and for a number below it `PositionInv` returns a word of
-- `n` bits with `r` ones that has this number.
pub position_f-position_inv :
    (f id n r : ℕ)
    → r ≤ n
    → n ≤ 32
    → r ≤ 25
    → f < 2 ^ n
    → ones n f ≡ r
    → id < choose n r
    → (position_f f n r < choose n r)
      × (position_inv (position_f f n r) n r ≡ f)
      × (position_inv id n r < 2 ^ n)
      × (ones n (position_inv id n r) ≡ r)
      × (position_f (position_inv id n r) n r ≡ id)
position_f-position_inv f id n r le h k word e below =
    let a = position_f-Ranked n f r h k word e in
    let b = position_inv-Chosen id n r le h k below in (a.below, a.back, b.word, b.chosen, b.number)
