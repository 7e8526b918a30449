-- ===== src/MatchId/Bits.antt =====
-- Fields of bits that are written and read, engine-core/matchid.c `SetBit`, `SetBits`, `GetBits`.
use native.Mathlib.Nat.{pow-succ', mul_left_comm, div-div-eq-div-mul}
use gnubg_android.Base.{
  ℕ, zero, suc, ◌+◌, ◌-◌, ◌*◌, ◌/◌, ◌%◌, ◌^◌, ◌≤◌, ◌<◌, ◌≡◌, ◌⊎◌, inl, inr, refl, sym, ◌∙◌, ap,
  Bool, true, false, List, ◌==◌, if◌then◌else◌, get_or, get_or-set, suc-==, length, length-set,
  ℕ_discrete, arith,
}
use gnubg_android.MatchId.{bit_at, set_bit, set_bits_from}

pub bit_at_zero : (n : ℕ) → bit_at n 0 ≡ n % 2
bit_at_zero n = omega arith

pub bit_at-suc : (n i : ℕ) → bit_at n (suc i) ≡ bit_at (n / 2) i
bit_at-suc n i =
    ap (λ m. m % 2) (ap (λ m. n / m) (pow-succ' 2 i) ∙ sym (div-div-eq-div-mul n 2 (2 ^ i)))

pub bit_at_lt : (n i : ℕ) → bit_at n i < 2
bit_at_lt n i = omega arith

-- A number with bit `r` set to `c`.
abbrev pub put_bit : ℕ → ℕ → ℕ → ℕ
put_bit old r c = old - bit_at old r * 2 ^ r + c * 2 ^ r

pub twice_bit : (m r : ℕ) → m * 2 ^ suc r ≡ 2 * (m * 2 ^ r)
twice_bit m r = ap (λ k. m * k) (pow-succ' 2 r) ∙ mul_left_comm m 2 (2 ^ r)

-- The bit that is taken off a number, with its weight.
taken_suc : (n r : ℕ) → bit_at n (suc r) * 2 ^ suc r ≡ 2 * (bit_at (n / 2) r * 2 ^ r)
taken_suc n r = twice_bit (bit_at n (suc r)) r ∙ ap (λ b. 2 * (b * 2 ^ r)) (bit_at-suc n r)

taken_le : (n r : ℕ) → bit_at n r * 2 ^ r ≤ n
taken_le n zero = omega arith
taken_le n (suc r) = let e = taken_suc n r in let ih = taken_le (n / 2) r in omega arith

-- Halving goes under the change of a bit, whose lowest bit stays.
pub put_bit-suc :
    (n r c : ℕ)
    → (put_bit n (suc r) c / 2 ≡ put_bit (n / 2) r c) × (put_bit n (suc r) c % 2 ≡ n % 2)
put_bit-suc n r c =
    let e = taken_suc n r in
    let f = twice_bit c r in let low = taken_le (n / 2) r in (omega arith, omega arith)

pub put_bit_zero : (n c : ℕ) → c < 2 → (put_bit n 0 c / 2 ≡ n / 2) × (put_bit n 0 c % 2 ≡ c)
put_bit_zero n c h = (omega arith, omega arith)

-- Setting a bit sets that bit, and leaves the others.
bit_at-put_bit :
    (n r c s : ℕ) → c < 2 → bit_at (put_bit n r c) s ≡ (if r == s then c else bit_at n s)
bit_at-put_bit n zero c zero h = bit_at_zero (put_bit n 0 c) ∙ (put_bit_zero n c h).1
bit_at-put_bit n zero c (suc s) h =
    bit_at-suc (put_bit n 0 c) s
    ∙ (ap (λ m. bit_at m s) (put_bit_zero n c h).0 ∙ (sym (bit_at-suc n s) ∙ ground arith))
bit_at-put_bit n (suc r) c zero h =
    bit_at_zero (put_bit n (suc r) c)
    ∙ ((put_bit-suc n r c).1 ∙ (sym (bit_at_zero n) ∙ ground arith))
bit_at-put_bit n (suc r) c (suc s) h =
    bit_at-suc (put_bit n (suc r) c) s
    ∙ (ap (λ m. bit_at m s) (put_bit-suc n r c).0
        ∙ (bit_at-put_bit (n / 2) r c s h
            ∙ (ap (λ m. if r == s then c else m) (sym (bit_at-suc n s))
                ∙ ap (λ t. if t then c else bit_at n (suc s)) (suc-== r s))))

-- A bit of an array of bytes.
abbrev pub bit : List ℕ → ℕ → ℕ
bit pc j = bit_at (get_or pc (j / 8) 0) (j % 8)

pub bit-set_bit :
    (pc : List ℕ) (p t i j : ℕ)
    → p / 8 < length pc
    → bit (set_bit pc p t i) j ≡ (if p == j then bit_at t i else bit pc j)
unfolding set_bit
bit-set_bit pc p t i j h =
    ap (λ m. bit_at m (j % 8)) (get_or-set pc (p / 8) (j / 8) _ 0 h) ∙ pick (p / 8 == j / 8) refl
  where
    old : ℕ
    old = get_or pc (p / 8) 0

    pick :
        (same : Bool)
        → (p / 8 == j / 8) ≡ same
        → bit_at (if same then put_bit old (p % 8) (bit_at t i) else get_or pc (j / 8) 0) (j % 8)
          ≡ (if p == j then bit_at t i else bit pc j)
    pick true e =
        let byte : p / 8 ≡ j / 8 = ground arith in
        let tests : (p % 8 == j % 8) ≡ (p == j) = ground arith in
        bit_at-put_bit old (p % 8) (bit_at t i) (j % 8) (bit_at_lt t i)
        ∙ (ap (λ b. if b then bit_at t i else bit_at old (j % 8)) tests
            ∙ ap (λ k. if p == j then bit_at t i else bit_at (get_or pc k 0) (j % 8)) byte)
    pick false e = let tests : (p == j) ≡ false = ground arith in rw tests refl

pub length-set_bit : (pc : List ℕ) (p t i : ℕ) → length (set_bit pc p t i) ≡ length pc
unfolding set_bit
length-set_bit pc p t i = length-set pc (p / 8) _

pub length-set_bits_from :
    (n i : ℕ) (pc : List ℕ) (p x : ℕ) → length (set_bits_from n i pc p x) ≡ length pc
unfolding set_bits_from
length-set_bits_from zero i pc p x = refl
length-set_bits_from (suc n) i pc p x =
    length-set_bits_from n (i + 1) (set_bit pc (p + i) x i) p x ∙ length-set_bit pc (p + i) x i

-- Outside the field the bits stay,
pub bit-set_bits_outside :
    (n i : ℕ) (pc : List ℕ) (p x j : ℕ)
    → p + i + n ≤ 8 * length pc
    → (j < p + i) ⊎ (p + i + n ≤ j)
    → bit (set_bits_from n i pc p x) j ≡ bit pc j
unfolding set_bits_from
bit-set_bits_outside zero i pc p x j h o = refl
bit-set_bits_outside (suc n) i pc p x j h o =
    let len = length-set_bit pc (p + i) x i in
    let other : (p + i == j) ≡ false = ground arith in
    bit-set_bits_outside n (i + 1) (set_bit pc (p + i) x i) p x j (omega arith) (later o)
    ∙ (bit-set_bit pc (p + i) x i j (omega arith) ∙ rw other refl)
  where
    later : (j < p + i) ⊎ (p + i + suc n ≤ j) → (j < p + (i + 1)) ⊎ (p + (i + 1) + n ≤ j)
    later (inl l) = inl (omega arith)
    later (inr l) = inr (omega arith)

-- and inside they are those of the content.
pub bit-set_bits_inside :
    (n i : ℕ) (pc : List ℕ) (p x k : ℕ)
    → p + i + n ≤ 8 * length pc
    → i ≤ k
    → k < i + n
    → bit (set_bits_from n i pc p x) (p + k) ≡ bit_at x k
unfolding set_bits_from
bit-set_bits_inside zero i pc p x k h a b = absurd (omega arith)
bit-set_bits_inside (suc n) i pc p x k h a b = elim (ℕ_discrete i k) [
  | yes e ↦
      let len = length-set_bit pc (p + i) x i in
      let here : (p + i == p + k) ≡ true = ground arith in
      bit-set_bits_outside n (i + 1) (set_bit pc (p + i) x i) p x (p + k) (omega arith)
        (inl (omega arith))
      ∙ (bit-set_bit pc (p + i) x i (p + k) (omega arith) ∙ rw here (ap (bit_at x) e))
  | no ne ↦
      let len = length-set_bit pc (p + i) x i in
      bit-set_bits_inside n (i + 1) (set_bit pc (p + i) x i) p x k (omega arith) (omega arith)
        (omega arith)
]
