-- ===== src/Cache/Create/Size.antt =====
-- The size of a cache, engine-core/lib/cache.c `CacheCreate`: the loop over the lowest bits.
use native.Mathlib.Nat.{pow-suc}
use Prim.Native.Nat.{bit_and, bit_and-bitwise, digits, min}
use gnubg_android.Base.{
  ℕ, zero, suc, ◌+◌, ◌-◌, ◌*◌, ◌/◌, ◌%◌, ◌^◌, ◌≤◌, ◌<◌, ◌≡◌, ◌≢◌, refl, sym, subst, ◌∙◌, ap, inl,
  inr, false, ltb, ◌==◌, if◌then◌else◌, arith, Bool-cases,
}
use gnubg_android.Base.Order.{power_le}
use gnubg_android.Board.{u32}
use gnubg_android.Cache.Create.{pred_u32, clear_lowest, cache_size}

abbrev and_digits : ℕ → ℕ → ℕ → ℕ
and_digits n a b = digits (λ b. 0) min n a b

digits_fuel : (n m a b : ℕ) → a ≤ n → a ≤ m → and_digits n a b ≡ and_digits m a b
digits_fuel zero zero a b h k = refl
digits_fuel zero (suc m) zero b h k = refl
digits_fuel zero (suc m) (suc a) b h k = absurd (omega arith)
digits_fuel (suc n) zero zero b h k = refl
digits_fuel (suc n) zero (suc a) b h k = absurd (omega arith)
digits_fuel (suc n) (suc m) zero b h k = refl
digits_fuel (suc n) (suc m) (suc a) b h k =
    ap (λ d. d * 2 + min (suc a % 2) (b % 2))
      (digits_fuel n m (suc a / 2) (b / 2) (omega arith) (omega arith))

-- `bit_and` by the lowest bit and the others.
bit_and_step : (a b : ℕ) → bit_and a b ≡ bit_and (a / 2) (b / 2) * 2 + min (a % 2) (b % 2)
bit_and_step zero b =
    let e : bit_and 0 b ≡ 0 = bit_and-bitwise 0 b in
    let e' : bit_and (0 / 2) (b / 2) ≡ 0 = bit_and-bitwise 0 (b / 2) in omega arith
bit_and_step (suc a) b =
    bit_and-bitwise (suc a) b
    ∙ ap (λ d. d * 2 + min (suc a % 2) (b % 2))
        (digits_fuel a (suc a / 2) (suc a / 2) (b / 2) (omega arith) (omega arith)
          ∙ sym (bit_and-bitwise (suc a / 2) (b / 2)))

bit_and_self : (n a : ℕ) → a ≤ n → bit_and a a ≡ a
bit_and_self zero zero h = bit_and-bitwise 0 0
bit_and_self zero (suc a) h = absurd (omega arith)
bit_and_self (suc n) a h =
    bit_and_step a a
    ∙ (ap (λ d. d * 2 + min (a % 2) (a % 2)) (bit_and_self n (a / 2) (omega arith)) ∙ omega arith)

-- `2 ^ j` is the highest power of two in `s`.
abbrev Top : ℕ → ℕ → Type 0
Top s j = (2 ^ j ≤ s) × (s < 2 ^ suc j)

-- What is left of `s` without its lowest bit.
record Lowest (s r : ℕ) : Type 0 where
  less : r < s
  lone : r ≡ 0 → (j : ℕ) × (s ≡ 2 ^ j)
  same : r ≢ 0 → (j : ℕ) → Top r j → Top s j

twice_top : (k j : ℕ) → k ≢ 0 → Top (k * 2) j → (i : ℕ) × (j ≡ suc i) × Top k i
twice_top k zero h t = absurd (h (omega arith))
twice_top k (suc j) h t =
    let e : 2 ^ suc j ≡ 2 ^ j * 2 = pow-suc 2 j in
    let e' : 2 ^ suc (suc j) ≡ 2 ^ suc j * 2 = pow-suc 2 (suc j) in (j, refl, omega arith)

even_Lowest : (k r : ℕ) → Lowest k r → Lowest (k * 2) (r * 2)
even_Lowest k r low = record {
  less = let h = low.less in omega arith;
  lone = λ e. let (j, f) = low.lone (omega arith) in (suc j, ap (λ x. x * 2) f ∙ sym (pow-suc 2 j));
  same = λ h j t.
      let h' : r ≢ 0 = λ e. h (ap (λ x. x * 2) e) in
      let (i, e, t') = twice_top r j h' t in
      let u = low.same h' i t' in
      let p : 2 ^ suc i ≡ 2 ^ i * 2 = pow-suc 2 i in
      let p' : 2 ^ suc (suc i) ≡ 2 ^ suc i * 2 = pow-suc 2 (suc i) in
      subst (λ x. Top (k * 2) x) (sym e) (omega arith);
}

odd_Lowest : (k : ℕ) → Lowest (suc (k * 2)) (k * 2)
odd_Lowest k = record {
  less = omega arith;
  lone = λ e. (0, omega arith);
  same = λ h j t.
      let h' : k ≢ 0 = λ e. h (ap (λ x. x * 2) e) in
      let (i, e, t') = twice_top k j h' t in
      let p : 2 ^ suc i ≡ 2 ^ i * 2 = pow-suc 2 i in
      let p' : 2 ^ suc (suc i) ≡ 2 ^ suc i * 2 = pow-suc 2 (suc i) in
      subst (λ x. Top (suc (k * 2)) x) (sym e) (omega arith);
}

at_Lowest : (k s r t : ℕ) → k ≡ s → t ≡ r → Lowest k r → Lowest s t
at_Lowest k s r t e f low = subst (λ x. Lowest s x) (sym f) (subst (λ x. Lowest x r) e low)

lowest : (n s : ℕ) → 0 < s → s ≤ n → Lowest s (bit_and s (s - 1))
lowest zero s h le = absurd (omega arith)
lowest (suc n) s h le = elim (Bool-cases (s % 2 == 0)) [
  | inl even ↦
      let k = s / 2 in
      let half : (s - 1) / 2 ≡ k - 1 = ground arith in
      let bits : min (s % 2) ((s - 1) % 2) ≡ 0 = ground arith in
      at_Lowest (k * 2) s (bit_and k (k - 1) * 2) (bit_and s (s - 1)) (ground arith)
        (bit_and_step s (s - 1) ∙ rw (half, bits) (omega arith))
        (even_Lowest k (bit_and k (k - 1)) (lowest n k (ground arith) (ground arith)))
  | inr odd ↦
      let k = s / 2 in
      let half : (s - 1) / 2 ≡ k = ground arith in
      let bits : min (s % 2) ((s - 1) % 2) ≡ 0 = ground arith in
      at_Lowest (suc (k * 2)) s (k * 2) (bit_and s (s - 1)) (ground arith)
        (bit_and_step s (s - 1) ∙ rw (half, bits, bit_and_self k k (omega arith)) (omega arith))
        (odd_Lowest k)
]

pub pred_u32_positive : (s : ℕ) → 0 < s → s < 2 ^ 32 → pred_u32 s ≡ s - 1
pred_u32_positive s h l = omega arith

-- The loop ends with the highest power of two.
clear_lowest_top :
    (fuel s : ℕ) → 0 < s → s ≤ fuel → s < 2 ^ 32 → (j : ℕ) × (clear_lowest fuel s ≡ 2 ^ j) × Top s j
unfolding clear_lowest
clear_lowest_top zero s h f w = absurd (omega arith)
clear_lowest_top (suc fuel) s h f w =
    rw (pred_u32_positive s h w) (elim (Bool-cases (bit_and s (s - 1) == 0)) [
      | inl last ↦
          let (j, e) = low.lone (ground arith) in
          let p : 2 ^ suc j ≡ 2 ^ j * 2 = pow-suc 2 j in (j, rw last e, omega arith)
      | inr more ↦
          let some_bit : bit_and s (s - 1) ≢ 0 = λ e. ground arith in
          let (j, e, t) =
            clear_lowest_top fuel (bit_and s (s - 1)) (ground arith) (omega (arith, low.less))
              (omega (arith, low.less)) in
          (j, rw more e, low.same some_bit j t)
    ])
  where
    low : Lowest s (bit_and s (s - 1))
    low = lowest s s h (omega arith)

-- `size` is the least power of two, from 2, that is not below `asked`.
pub record RoundedUp (asked size : ℕ) : Type 0 where
  pub exponent : ℕ
  pub power : size ≡ 2 ^ suc exponent
  pub enough : asked ≤ size
  pub least : (k : ℕ) → asked ≤ 2 ^ suc k → size ≤ 2 ^ suc k

below_power : (s j k : ℕ) → 2 ^ j < s → s ≤ 2 ^ suc k → 2 ^ suc j ≤ 2 ^ suc k
below_power s j k h l = elim (Bool-cases (ltb k j)) [
  | inl less ↦ let p = power_le (suc k) j (ground arith) in absurd (omega arith)
  | inr more ↦ power_le (suc j) (suc k) (ground arith)
]

-- The size for `s` asked for, from its highest power of two `p`.
abbrev size_above : ℕ → ℕ → ℕ
size_above p s = if ltb p s then u32 (2 * p) else p

rounded : (j s : ℕ) → 2 ≤ s → s ≤ 2 ^ 31 → Top s j → RoundedUp s (size_above (2 ^ j) s)
rounded zero s h l t = absurd (omega arith)
rounded (suc j) s h l t = elim (Bool-cases (ltb (2 ^ suc j) s)) [
  | inl less ↦
      let p : 2 ^ suc (suc j) ≡ 2 ^ suc j * 2 = pow-suc 2 (suc j) in
      let half : 2 ^ suc j < s = ground arith in
      let low : 2 ^ suc (suc j) ≤ 2 ^ 31 = below_power s (suc j) 30 half l in
      let e : u32 (2 * 2 ^ suc j) ≡ 2 ^ suc (suc j) = omega arith in
      rw (less, e)
        (record {
          exponent = suc j;
          power = refl;
          enough = omega arith;
          least = λ k asked. below_power s (suc j) k half asked;
        })
  | inr same ↦
      let e : s ≡ 2 ^ suc j = ground arith in
      rw same (record {
        exponent = j;
        power = refl;
        enough = omega arith;
        least = λ k asked. omega arith;
      })
]

from_two : (s : ℕ) → 2 ≤ s → s ≤ 2 ^ 31 → RoundedUp s (size_above (clear_lowest s s) s)
from_two s h l =
    let (j, e, t) = clear_lowest_top s s (omega arith) (omega arith) (omega arith) in
    subst (λ p. RoundedUp s (size_above p s)) (sym e) (rounded j s h l t)

from_one : (size : ℕ) → RoundedUp 2 size → RoundedUp 1 size
from_one size up = record {
  exponent = up.exponent;
  power = up.power;
  enough = let e = up.enough in omega arith;
  least = λ k asked. up.least k (power_le 1 (suc k) (omega arith));
}

pub cache_size-RoundedUp :
    (asked : ℕ) → 0 < asked → asked ≤ 2 ^ 31 → RoundedUp asked (cache_size asked)
unfolding cache_size
cache_size-RoundedUp zero h l = absurd (omega arith)
cache_size-RoundedUp (suc zero) h l = from_one _ (from_two 2 (omega arith) (omega arith))
cache_size-RoundedUp (suc (suc n)) h l =
    let e : (suc (suc n) == 1) ≡ false = ground arith in
    rw e (from_two (suc (suc n)) (omega arith) l)
