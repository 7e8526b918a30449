-- ===== src/Base/Order.antt =====
-- Powers of two grow with their exponents.
use native.Mathlib.Nat.{pow-suc, pow-succ', mul_assoc}
use gnubg_android.Base.{ℕ, zero, suc, ◌+◌, ◌-◌, ◌*◌, ◌^◌, ◌≤◌, ◌≡◌, sym, subst, ap, ◌∙◌, arith}

power_mono : (d k : ℕ) → 2 ^ k ≤ 2 ^ (d + k)
power_mono zero k =
    let e : 0 + k ≡ k = omega arith in subst (λ n. 2 ^ k ≤ 2 ^ n) (sym e) (omega arith)
power_mono (suc d) k =
    let step : 2 ^ (suc d + k) ≡ 2 ^ (d + k) * 2 =
      ap (λ n. 2 ^ n) (omega arith) ∙ pow-suc 2 (d + k) in
    omega (arith, power_mono d k)

pub power_le : (k m : ℕ) → k ≤ m → 2 ^ k ≤ 2 ^ m
power_le k m h =
    let e : m - k + k ≡ m = omega arith in subst (λ n. 2 ^ k ≤ 2 ^ n) e (power_mono (m - k) k)

pub power_add : (n m : ℕ) → 2 ^ (n + m) ≡ 2 ^ n * 2 ^ m
power_add zero m = let e : 0 + m ≡ m = omega arith in ap (λ k. 2 ^ k) e ∙ omega arith
power_add (suc n) m =
    let e : suc n + m ≡ suc (n + m) = omega arith in
    ap (λ k. 2 ^ k) e
    ∙ (pow-succ' 2 (n + m)
        ∙ (ap (λ k. 2 * k) (power_add n m)
            ∙ (sym (mul_assoc 2 (2 ^ n) (2 ^ m)) ∙ ap (λ k. k * 2 ^ m) (sym (pow-succ' 2 n)))))
