-- ===== src/Position/Bearoff/Rank.antt =====
-- The number of a choice of bits, engine-core/positionid.c `PositionF` and `PositionInv`.
pub mod Inverse
use native.Mathlib.Nat.{pow-succ'}
use gnubg_android.Base.{
  ℕ, zero, suc, ◌+◌, ◌-◌, ◌*◌, ◌/◌, ◌%◌, ◌^◌, ◌≤◌, ◌<◌, ◌≡◌, ◌≢◌, ◌⊎◌, inl, inr, refl, sym, ◌∙◌,
  subst, ap, ap₂, Bool, true, false, Bool-cases, List, ltb, leb, ◌==◌, le→leb, lt→not_leb,
  if◌then◌else◌, dec_lt, ℕ_discrete, arith,
}
use gnubg_android.Base.Order.{power_le}
use gnubg_android.Board.{u32}
use gnubg_android.MatchId.{bit_at}
use gnubg_android.MatchId.Bits.{bit_at_lt, bit_at_zero, bit_at-suc}
use gnubg_android.MatchId.Fields.{low_bits, high_bits, no_bits}
use gnubg_android.MatchId.Text.{or_sum}
use gnubg_android.Position.Bearoff.{combination, position_f, position_inv, or_word}
use gnubg_android.Position.Bearoff.Choose.{
  choose, choose_self, choose_small, choose-suc, choose_mono, combination-choose,
}

-- The ones among the lowest `n` bits.
abbrev pub ones : ℕ → ℕ → ℕ
ones zero f = 0
ones (suc n) f = bit_at f n + ones n f

ones_le : (n f : ℕ) → ones n f ≤ n
ones_le zero f = omega arith
ones_le (suc n) f = omega (arith, bit_at_lt f n, ones_le n f)

-- The highest bit, and the number below it.
data Top (n f : ℕ) : Type 0 where
  unset : f < 2 ^ n → bit_at f n ≡ 0 → Top n f
  set : (g : ℕ) → g < 2 ^ n → f ≡ g + 2 ^ n * 1 → bit_at f n ≡ 1 → Top n f

top : (n f : ℕ) → f < 2 ^ suc n → Top n f
top n f h = elim (dec_lt f (2 ^ n)) [
  | yes below ↦ unset below (no_bits n f n below (omega arith))
  | no above ↦
      let p = pow-succ' 2 n in
      let g = f - 2 ^ n in
      let e : f ≡ g + 2 ^ n * 1 = omega arith in
      let few : g < 2 ^ n = omega arith in
      let same : n ≡ n + 0 = omega arith in
      set g few e (ap₂ bit_at e same ∙ (high_bits n g 1 0 few ∙ refl))
]

-- Only the lowest `n` bits count.
ones_low : (n f y : ℕ) → ones n (f + 2 ^ n * y) ≡ ones n f
ones_low n f y = go n n f y (omega arith)
  where
    go : (n m f y : ℕ) → n ≤ m → ones n (f + 2 ^ m * y) ≡ ones n f
    go zero m f y h = refl
    go (suc n) m f y h = ap₂ ◌+◌ (low_bits m f y n (omega arith)) (go n m f y (omega arith))

ones_all : (n f : ℕ) → f < 2 ^ n → ones n f ≡ n → f ≡ 2 ^ n - 1
ones_all zero f l h = omega arith
ones_all (suc n) f l h = elim (top n f l) [
  | unset below z ↦ absurd (omega (arith, ones_le n f))
  | set g few e one ↦
      let p = pow-succ' 2 n in
      let ih = ones_all n g few (sym (ones_low n g 1) ∙ (ap (ones n) (sym e) ∙ omega arith)) in
      let some = power_le 0 n (omega arith) in omega arith
]

pub ones_none : (n : ℕ) → ones n 0 ≡ 0
ones_none zero = refl
ones_none (suc n) = omega (arith, ones_none n, no_bits 0 0 n (omega arith) (omega arith))

ones_full : (n : ℕ) → ones n (2 ^ n - 1) ≡ n
ones_full zero = refl
ones_full (suc n) =
    let p = pow-succ' 2 n in
    let some = power_le 0 n (omega arith) in
    let e : 2 ^ suc n - 1 ≡ 2 ^ n - 1 + 2 ^ n * 1 = omega arith in
    let same : n ≡ n + 0 = omega arith in
    let one = ap₂ bit_at e same ∙ high_bits n (2 ^ n - 1) 1 0 (omega arith) in
    omega (arith, one, ap (ones n) e ∙ (ones_low n (2 ^ n - 1) 1 ∙ ones_full n))

-- One step of `PositionF`, in its three cases.
module _ (f n r : ℕ) where
  position_f_all : suc n ≡ r → position_f f (suc n) r ≡ 0
  unfolding position_f
  position_f_all e = let t : (suc n == r) ≡ true = ground arith in rw (t, position_f) refl

  position_f_one :
      suc n ≢ r
      → bit_at f n ≡ 1
      → position_f f (suc n) r ≡ u32 (combination n r + position_f f n (r - 1))
  unfolding position_f
  position_f_one ne one =
      let t : (suc n == r) ≡ false = ground arith in
      let b : (f / 2 ^ n % 2 == 1) ≡ true = ground arith in rw (t, b, position_f) refl

  position_f_none : suc n ≢ r → bit_at f n ≡ 0 → position_f f (suc n) r ≡ position_f f n r
  unfolding position_f
  position_f_none ne none_here =
      let t : (suc n == r) ≡ false = ground arith in
      let b : (f / 2 ^ n % 2 == 1) ≡ false = ground arith in rw (t, b, position_f) refl

-- Only the lowest bits count for `PositionF` too.
position_f_low : (n m f y r : ℕ) → n ≤ m → position_f (f + 2 ^ m * y) n r ≡ position_f f n r
unfolding position_f
position_f_low zero m f y r h = refl
position_f_low (suc n) m f y r h =
    let same = low_bits m f y n (omega arith) in
    elim (ℕ_discrete (suc n) r) [
      | yes e ↦ position_f_all (f + 2 ^ m * y) n r e ∙ sym (position_f_all f n r e)
      | no ne ↦ elim (ℕ_discrete (bit_at f n) 1) [
        | yes one ↦
            position_f_one (f + 2 ^ m * y) n r ne (same ∙ one)
            ∙ (ap (λ k. u32 (combination n r + k)) (position_f_low n m f y (r - 1) (omega arith))
                ∙ sym (position_f_one f n r ne one))
        | no nb ↦
            let none_here : bit_at f n ≡ 0 = omega (arith, bit_at_lt f n) in
            position_f_none (f + 2 ^ m * y) n r ne (same ∙ none_here)
            ∙ (position_f_low n m f y r (omega arith) ∙ sym (position_f_none f n r ne none_here))
      ]
    ]

-- One step of `PositionInv`.
module _ (id n r : ℕ) where
  position_inv_empty : position_inv id n 0 ≡ 0
  unfolding position_inv
  position_inv_empty = elim n as (λ k. position_inv id k 0 ≡ 0) [ zero ↦ refl | suc k ↦ refl ]

  position_inv_all : suc n ≡ r → position_inv id (suc n) r ≡ 2 ^ suc n - 1
  unfolding position_inv
  position_inv_all e =
      let z : (r == 0) ≡ false = ground arith in
      let t : (suc n == r) ≡ true = ground arith in rw (z, t, position_inv) refl

  position_inv_one :
      0 < r
      → suc n ≢ r
      → combination n r ≤ id
      → position_inv id (suc n) r ≡ or_word (2 ^ n) (position_inv (id - combination n r) n (r - 1))
  unfolding position_inv
  position_inv_one some ne above =
      let z : (r == 0) ≡ false = ground arith in
      let t : (suc n == r) ≡ false = ground arith in
      rw (z, t, le→leb (combination n r) id above, position_inv) refl

  position_inv_none :
      0 < r → suc n ≢ r → id < combination n r → position_inv id (suc n) r ≡ position_inv id n r
  unfolding position_inv
  position_inv_none some ne below =
      let z : (r == 0) ≡ false = ground arith in
      let t : (suc n == r) ≡ false = ground arith in
      rw (z, t, lt→not_leb (combination n r) id below, position_inv) refl

-- Parts that share no bit.
pub or_word_sum :
    (m a b : ℕ) → b < 2 ^ m → a * 2 ^ m + b < 2 ^ 32 → or_word (a * 2 ^ m) b ≡ a * 2 ^ m + b
unfolding or_word
or_word_sum m a b h k = or_sum 32 m a b h k

-- The bit that `PositionInv` puts in front.
or_top : (n g : ℕ) → n ≤ 31 → g < 2 ^ n → or_word (2 ^ n) g ≡ 2 ^ n + g
or_top n g h l =
    let p = pow-succ' 2 n in
    let q = power_le (suc n) 32 (omega arith) in
    let e : 2 ^ n ≡ 1 * 2 ^ n = omega arith in
    ap (λ k. or_word k g) e ∙ (or_word_sum n 1 g l (omega arith) ∙ omega arith)

-- A word of `n` bits with `r` ones gets a number below the number of choices, from which the word is
-- found again.
pub record Ranked (f n r : ℕ) : Type 0 where
  pub below : position_f f n r < choose n r
  pub back : position_inv (position_f f n r) n r ≡ f

unset_case :
    (n f r : ℕ)
    → r ≤ n
    → suc n ≤ 32
    → r ≤ 25
    → suc n ≢ r
    → bit_at f n ≡ 0
    → Ranked f n r
    → Ranked f (suc n) r
unset_case n f r le h k ne z ih =
    let same = position_f_none f n r ne z in
    record {
      below = omega (arith, ih.below, choose_mono n r);
      back = rw same (elim (ℕ_discrete r 0) [
        | yes none_left ↦ rw none_left (
            position_inv_empty (position_f f n 0) (suc n) 0
            ∙ (sym (position_inv_empty (position_f f n 0) n 0)
                ∙ subst (λ s. position_inv (position_f f n s) n s ≡ f) none_left ih.back))
        | no some ↦
            let c = combination-choose n r (omega arith) (omega arith) (omega arith) k in
            position_inv_none (position_f f n r) n r (omega arith) ne (omega (arith, ih.below))
            ∙ ih.back
      ]);
    }

set_case :
    (n f g r : ℕ)
    → r ≤ n
    → 0 < r
    → suc n ≤ 32
    → r ≤ 25
    → suc n ≢ r
    → g < 2 ^ n
    → f ≡ g + 2 ^ n * 1
    → bit_at f n ≡ 1
    → Ranked g n (r - 1)
    → Ranked f (suc n) r
set_case n f g r le some h k ne few e one ih =
    let c = combination-choose n r (omega arith) some (omega arith) k in
    let next = choose-suc n r some in
    let fits = choose_small n r (omega arith) in
    let same = ap (λ w. position_f w n (r - 1)) e ∙ position_f_low n n g 1 (r - 1) (omega arith) in
    let id = position_f g n (r - 1) in
    let sum : u32 (combination n r + position_f f n (r - 1)) ≡ combination n r + id =
      omega (arith, ih.below) in
    let step = position_f_one f n r ne one ∙ sum in
    let off : combination n r + id - combination n r ≡ id = omega arith in
    record {
      below = omega (arith, ih.below);
      back = rw step (
          position_inv_one (combination n r + id) n r some ne (omega arith)
          ∙ (ap (λ i. or_word (2 ^ n) (position_inv i n (r - 1))) off
              ∙ (ap (or_word (2 ^ n)) ih.back ∙ (or_top n g (omega arith) few ∙ omega arith))));
    }

pub position_f-Ranked : (n f r : ℕ) → n ≤ 32 → r ≤ 25 → f < 2 ^ n → ones n f ≡ r → Ranked f n r
unfolding position_f position_inv
position_f-Ranked zero f r h k l e = rw (← e) (record { below = omega arith; back = omega arith })
position_f-Ranked (suc n) f r h k l e = elim (ℕ_discrete (suc n) r) [
  | yes all ↦
      let zero_id = position_f_all f n r all in
      let one = ap (choose (suc n)) (sym all) ∙ choose_self (suc n) in
      record {
        below = omega arith;
        back = position_inv_all _ n r all ∙ sym (ones_all (suc n) f l (omega arith));
      }
  | no ne ↦ elim (top n f l) [
    | unset below z ↦
        unset_case n f r (omega (arith, ones_le n f)) h k ne z
          (position_f-Ranked n f r (omega arith) k below (omega arith))
    | set g few e1 one ↦
        let fewer : ones n g ≡ r - 1 =
          sym (ones_low n g 1) ∙ (ap (ones n) (sym e1) ∙ omega arith) in
        set_case n f g r (omega (arith, ones_le n f)) (omega arith) h k ne few e1 one
          (position_f-Ranked n g (r - 1) (omega arith) (omega arith) few fewer)
  ]
]
