-- ===== src/Position/Encode/Bits.antt =====
-- The bits that `addBits` of engine-core/positionid.c sets.
use native.Mathlib.Nat.{pow-succ', div-div-eq-div-mul, mul-le-mul}
use gnubg_android.Base.{
  ℕ, zero, suc, ◌+◌, ◌-◌, ◌*◌, ◌/◌, ◌%◌, ◌^◌, ◌≤◌, ◌<◌, ◌≡◌, inl, inr, refl, sym, ◌∙◌, ap, ap₂,
  Bool, true, false, ◌&&◌, List, Bool-cases, ltb, leb, ◌==◌, if◌then◌else◌, get_or, get_or-set,
  length, length-set, ℕ_discrete, arith,
}
use gnubg_android.Base.Order.{power_le}
use gnubg_android.Board.{u32}
use gnubg_android.Position.Id.{bit_or_at, or_byte, u8}
use gnubg_android.Position.Encode.{or_into, add_bits}
use gnubg_android.MatchId.{bit_at}
use gnubg_android.MatchId.Bits.{bit_at_zero, bit_at-suc, bit_at_lt, bit, twice_bit}
use gnubg_android.MatchId.Fields.{low_bits}

-- `|` of two bits.
abbrev pub or_bit : ℕ → ℕ → ℕ
or_bit x y = if x + y == 0 then 0 else 1

pub or_bit_zero : (x : ℕ) → x < 2 → or_bit x 0 ≡ x
or_bit_zero x h = ground arith

or_bit_one : (x : ℕ) → or_bit x 1 ≡ 1
or_bit_one x = ground arith

pub bit_at-bit_or_at :
    (n a b i : ℕ) → i < n → bit_at (bit_or_at n a b) i ≡ or_bit (bit_at a i) (bit_at b i)
bit_at-bit_or_at zero a b i h = absurd (omega arith)
bit_at-bit_or_at (suc n) a b zero h =
    bit_at_zero (bit_or_at (suc n) a b)
    ∙ (ground arith ∙ sym (ap₂ or_bit (bit_at_zero a) (bit_at_zero b)))
bit_at-bit_or_at (suc n) a b (suc i) h =
    let half : bit_or_at (suc n) a b / 2 ≡ bit_or_at n (a / 2) (b / 2) = ground arith in
    bit_at-suc (bit_or_at (suc n) a b) i
    ∙ (ap (λ m. bit_at m i) half
        ∙ (bit_at-bit_or_at n (a / 2) (b / 2) i (omega arith)
            ∙ sym (ap₂ or_bit (bit_at-suc a i) (bit_at-suc b i))))

pub bit_or_at-lt : (n a b : ℕ) → bit_or_at n a b < 2 ^ n
bit_or_at-lt zero a b = omega arith
bit_or_at-lt (suc n) a b =
    let p = pow-succ' 2 n in let ih = bit_or_at-lt n (a / 2) (b / 2) in ground (arith, ih)

-- A shift to the right moves the bits.
bit_at_shifted : (s b i : ℕ) → bit_at (b / 2 ^ s) i ≡ bit_at b (s + i)
bit_at_shifted zero b i = ap₂ bit_at (omega arith) (omega arith)
bit_at_shifted (suc s) b i =
    let e : b / 2 ^ suc s ≡ b / 2 / 2 ^ s =
      ap (λ m. b / m) (pow-succ' 2 s) ∙ sym (div-div-eq-div-mul b 2 (2 ^ s)) in
    ap (λ m. bit_at m i) e
    ∙ (bit_at_shifted s (b / 2) i ∙ (sym (bit_at-suc b (s + i)) ∙ ap (bit_at b) (omega arith)))

bit_at-u8 : (b i : ℕ) → i < 8 → bit_at (u8 b) i ≡ bit_at b i
bit_at-u8 b i h = sym (low_bits 8 (u8 b) (b / 2 ^ 8) i h) ∙ ap (λ m. bit_at m i) (omega arith)

-- `n` ones,
pub bit_at_ones : (n i : ℕ) → bit_at (2 ^ n - 1) i ≡ (if ltb i n then 1 else 0)
bit_at_ones zero zero = refl
bit_at_ones zero (suc i) = bit_at-suc 0 i ∙ (bit_at_ones zero i ∙ ground arith)
bit_at_ones (suc n) zero =
    let p = pow-succ' 2 n in
    let some = power_le 0 n (omega arith) in bit_at_zero (2 ^ suc n - 1) ∙ ground arith
bit_at_ones (suc n) (suc i) =
    let p = pow-succ' 2 n in
    let some = power_le 0 n (omega arith) in
    let half : (2 ^ suc n - 1) / 2 ≡ 2 ^ n - 1 = omega arith in
    bit_at-suc (2 ^ suc n - 1) i ∙ (ap (λ m. bit_at m i) half ∙ (bit_at_ones n i ∙ ground arith))

-- from bit `r` on.
pub bit_at_run :
    (n r i : ℕ) → bit_at ((2 ^ n - 1) * 2 ^ r) i ≡ (if leb r i && ltb i (r + n) then 1 else 0)
bit_at_run n zero i = ap (λ m. bit_at m i) (omega arith) ∙ (bit_at_ones n i ∙ ground arith)
bit_at_run n (suc r) zero =
    let p = twice_bit (2 ^ n - 1) r in
    let even : (2 ^ n - 1) * 2 ^ suc r % 2 ≡ 0 = omega arith in
    bit_at_zero ((2 ^ n - 1) * 2 ^ suc r) ∙ (even ∙ ground arith)
bit_at_run n (suc r) (suc i) =
    let p = twice_bit (2 ^ n - 1) r in
    let half : (2 ^ n - 1) * 2 ^ suc r / 2 ≡ (2 ^ n - 1) * 2 ^ r = omega arith in
    bit_at-suc ((2 ^ n - 1) * 2 ^ suc r) i
    ∙ (ap (λ m. bit_at m i) half ∙ (bit_at_run n r i ∙ ground arith))

-- The bits of `b` go to `m` bytes from byte `k` on.
abbrev or_run : List ℕ → ℕ → ℕ → ℕ → List ℕ
or_run auch k b zero = auch
or_run auch k b (suc m) = or_into (or_run auch k b m) (k + m) (u8 (b / 2 ^ (8 * m)))

pub length-or_into : (auch : List ℕ) (k v : ℕ) → length (or_into auch k v) ≡ length auch
unfolding or_into
length-or_into auch k v = length-set auch k _

length-or_run : (auch : List ℕ) (k b m : ℕ) → length (or_run auch k b m) ≡ length auch
length-or_run auch k b zero = refl
length-or_run auch k b (suc m) =
    length-or_into (or_run auch k b m) (k + m) _ ∙ length-or_run auch k b m

bit-or_into :
    (auch : List ℕ) (k v j : ℕ)
    → k < length auch
    → bit (or_into auch k v) j
      ≡ (if k == j / 8 then or_bit (bit auch j) (bit_at v (j % 8)) else bit auch j)
unfolding or_into
bit-or_into auch k v j h =
    ap (λ m. bit_at m (j % 8)) (get_or-set auch k (j / 8) _ 0 h) ∙ elim (ℕ_discrete k (j / 8)) [
      | yes e ↦
          let t : (k == j / 8) ≡ true = ground arith in
          rw t (
            bit_at-bit_or_at 8 (get_or auch k 0) v (j % 8) (omega arith)
            ∙ ap (λ i. or_bit (bit_at (get_or auch i 0) (j % 8)) (bit_at v (j % 8))) e)
      | no ne ↦ let t : (k == j / 8) ≡ false = ground arith in rw t refl
    ]

bit-or_run :
    (auch : List ℕ) (k b m j : ℕ)
    → k + m ≤ length auch
    → bit (or_run auch k b m) j ≡ (
        if leb k (j / 8) && ltb (j / 8) (k + m)
        then or_bit (bit auch j) (bit_at b (j - 8 * k))
        else bit auch j)
bit-or_run auch k b zero j h = ground arith
bit-or_run auch k b (suc m) j h =
    bit-or_into (or_run auch k b m) (k + m) _ j (omega (arith, length-or_run auch k b m))
    ∙ elim (ℕ_discrete (k + m) (j / 8)) [
      | yes e ↦
          let t : (k + m == j / 8) ≡ true = ground arith in
          let u : (leb k (j / 8) && ltb (j / 8) (k + suc m)) ≡ true = ground arith in
          let v : (leb k (j / 8) && ltb (j / 8) (k + m)) ≡ false = ground arith in
          rw (t, u, bit-or_run auch k b m j (omega arith), v)
            (ap (or_bit (bit auch j)) (
              bit_at-u8 (b / 2 ^ (8 * m)) (j % 8) (omega arith)
              ∙ (bit_at_shifted (8 * m) b (j % 8) ∙ ap (bit_at b) (omega arith))))
      | no ne ↦
          let t : (k + m == j / 8) ≡ false = ground arith in
          let u : (leb k (j / 8) && ltb (j / 8) (k + suc m))
              ≡ (leb k (j / 8) && ltb (j / 8) (k + m)) =
            ground arith in
          rw (t, u, bit-or_run auch k b m j (omega arith)) refl
    ]

-- How many bytes `addBits` writes.
abbrev bytes_from : ℕ → ℕ
bytes_from k = if ltb k 8 then 3 else if k == 8 then 2 else 1

run_small : (n r : ℕ) → n ≤ 15 → r < 8 → u32 ((2 ^ n - 1) * 2 ^ r) ≡ (2 ^ n - 1) * 2 ^ r
run_small n r h l =
    let p = power_le n 15 h in
    let q = power_le r 7 (omega arith) in
    let both : (2 ^ n - 1) * 2 ^ r ≤ 2 ^ 15 * 2 ^ 7 = mul-le-mul {n₂ = 2 ^ 15} (omega arith) q in
    omega arith

add_bits-or_run :
    (auch : List ℕ) (p n : ℕ)
    → n ≤ 15
    → add_bits auch p n ≡ or_run auch (p / 8) ((2 ^ n - 1) * 2 ^ (p % 8)) (bytes_from (p / 8))
unfolding add_bits
add_bits-or_run auch p n h =
    rw (run_small n (p % 8) h (omega arith))
      (pick (p / 8) ((2 ^ n - 1) * 2 ^ (p % 8)) (ltb (p / 8) 8) (p / 8 == 8))
  where
    first : (k b : ℕ) → or_into auch k (u8 b) ≡ or_run auch k b 1
    first k b = ap₂ (or_into auch) (omega arith) (ap u8 (omega arith))

    pick :
        (k b : ℕ) (t u : Bool)
        → (let a0 = or_into auch k (u8 b) in
            if t
            then or_into (or_into a0 (k + 1) (u8 (b / 2 ^ 8))) (k + 2) (u8 (b / 2 ^ 16))
            else if u
            then or_into a0 (k + 1) (u8 (b / 2 ^ 8))
            else a0)
          ≡ or_run auch k b (if t then 3 else if u then 2 else 1)
    pick k b true u =
        ap (λ a. or_into (or_into a (k + 1) (u8 (b / 2 ^ 8))) (k + 2) (u8 (b / 2 ^ 16))) (first k b)
    pick k b false true = ap (λ a. or_into a (k + 1) (u8 (b / 2 ^ 8))) (first k b)
    pick k b false false = first k b

-- Bytes stay bytes.
abbrev pub AllBytes : List ℕ → Type 0
AllBytes auch = (i : ℕ) → get_or auch i 0 < 256

or_into-AllBytes :
    (auch : List ℕ) (k v : ℕ) → k < length auch → AllBytes auch → AllBytes (or_into auch k v)
unfolding or_into
or_into-AllBytes auch k v h small i =
    let few = bit_or_at-lt 8 (get_or auch k 0) v in
    rw (get_or-set auch k i (or_byte (get_or auch k 0) v) 0 h) (elim (ℕ_discrete k i) [
      | yes e ↦ let t : (k == i) ≡ true = ground arith in rw t few
      | no ne ↦ let t : (k == i) ≡ false = ground arith in rw t (small i)
    ])

or_run-AllBytes :
    (auch : List ℕ) (k b m : ℕ) → k + m ≤ length auch → AllBytes auch → AllBytes (or_run auch k b m)
or_run-AllBytes auch k b zero h small = small
or_run-AllBytes auch k b (suc m) h small =
    or_into-AllBytes (or_run auch k b m) (k + m) _ (omega (arith, length-or_run auch k b m))
      (or_run-AllBytes auch k b m (omega arith) small)

-- Bits of a key: those that `addBits` sets, and the others, which stay.
module _ (auch : List ℕ) (p n : ℕ) (len : length auch ≡ 10) (few : n ≤ 15) (room : p + n ≤ 80)
    (some : p < 80) where
  pub length-add_bits : length (add_bits auch p n) ≡ 10
  length-add_bits = ap length (add_bits-or_run auch p n few) ∙ (length-or_run auch _ _ _ ∙ len)

  inside_key : p / 8 + bytes_from (p / 8) ≤ length auch
  inside_key = ground (arith, len)

  pub bit-add_bits :
      (j : ℕ) → bit (add_bits auch p n) j ≡ (if leb p j && ltb j (p + n) then 1 else bit auch j)
  bit-add_bits j =
      ap (λ a. bit a j) (add_bits-or_run auch p n few)
      ∙ (bit-or_run auch (p / 8) ((2 ^ n - 1) * 2 ^ (p % 8)) (bytes_from (p / 8)) j inside_key
          ∙ elim (Bool-cases (leb p j && ltb j (p + n))) [
            | inl within ↦
                let covered : (leb (p / 8) (j / 8) && ltb (j / 8) (p / 8 + bytes_from (p / 8)))
                    ≡ true =
                  ground (arith) in
                let one : (leb (p % 8) (j - 8 * (p / 8)) && ltb (j - 8 * (p / 8)) (p % 8 + n))
                    ≡ true =
                  ground (arith) in
                rw (covered, within, bit_at_run n (p % 8) (j - 8 * (p / 8)), one)
                  (or_bit_one (bit auch j))
            | inr without ↦
                elim (Bool-cases
                  (leb (p / 8) (j / 8) && ltb (j / 8) (p / 8 + bytes_from (p / 8)))) [
                    | inl covered ↦
                        let zero : (leb (p % 8) (j - 8 * (p / 8))
                              && ltb (j - 8 * (p / 8)) (p % 8 + n))
                            ≡ false =
                          ground (arith) in
                        rw (covered, without, bit_at_run n (p % 8) (j - 8 * (p / 8)), zero)
                          (or_bit_zero (bit auch j) (bit_at_lt _ _))
                    | inr past ↦ rw (past, without) refl
                  ]
          ])

  pub add_bits-AllBytes : AllBytes auch → AllBytes (add_bits auch p n)
  add_bits-AllBytes small =
      rw (add_bits-or_run auch p n few) (or_run-AllBytes auch (p / 8) _ _ inside_key small)
