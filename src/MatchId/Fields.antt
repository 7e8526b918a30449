-- ===== src/MatchId/Fields.antt =====
-- `GetBits` of engine-core/matchid.c on what `SetBits` wrote.
use native.Mathlib.Nat.{pow-succ', mul_assoc}
use gnubg_android.Base.{
  ℕ, zero, suc, ◌+◌, ◌-◌, ◌*◌, ◌/◌, ◌%◌, ◌^◌, ◌≤◌, ◌<◌, ◌≡◌, ◌⊎◌, inl, inr, refl, sym, ◌∙◌, ap, ap₂,
  true, false, List, [], ◌∷◌, ◌==◌, if◌then◌else◌, get_or, get_or-set, set, length, length-set,
  dec_lt, ℕ_discrete, arith,
}
use gnubg_android.Base.Order.{power_le}
use gnubg_android.MatchId.{bit_at, set_bit, get_bits_from, get_bits}
use gnubg_android.MatchId.Bits.{
  bit_at_zero, bit_at-suc, bit_at_lt, put_bit, put_bit-suc, put_bit_zero, bit, bit-set_bit,
}

-- Numbers below 2^n with the same n bits are equal.
same_bits :
    (n a b : ℕ) → a < 2 ^ n → b < 2 ^ n → ((k : ℕ) → k < n → bit_at a k ≡ bit_at b k) → a ≡ b
same_bits zero a b h k e = omega arith
same_bits (suc n) a b h k e =
    let p = pow-succ' 2 n in
    let low : a % 2 ≡ b % 2 = sym (bit_at_zero a) ∙ (e 0 (omega arith) ∙ bit_at_zero b) in
    let high =
      same_bits n (a / 2) (b / 2) (omega arith) (omega arith)
        (λ j l. sym (bit_at-suc a j) ∙ (e (suc j) (omega arith) ∙ bit_at-suc b j)) in
    omega arith

-- Bits above a bound are zero,
pub no_bits : (n x k : ℕ) → x < 2 ^ n → n ≤ k → bit_at x k ≡ 0
no_bits zero x zero h l = bit_at_zero x ∙ omega arith
no_bits zero x (suc k) h l = bit_at-suc x k ∙ no_bits zero (x / 2) k (omega arith) (omega arith)
no_bits (suc n) x zero h l = absurd (omega arith)
no_bits (suc n) x (suc k) h l =
    let p = pow-succ' 2 n in bit_at-suc x k ∙ no_bits n (x / 2) k (omega arith) (omega arith)

-- bits below 2^m do not see what is added above,
pub low_bits : (m n y k : ℕ) → k < m → bit_at (n + 2 ^ m * y) k ≡ bit_at n k
low_bits zero n y k h = absurd (omega arith)
low_bits (suc m) n y zero h =
    let p : 2 ^ suc m * y ≡ 2 * (2 ^ m * y) =
      ap (λ k. k * y) (pow-succ' 2 m) ∙ mul_assoc 2 (2 ^ m) y in
    bit_at_zero (n + 2 ^ suc m * y) ∙ (omega arith ∙ sym (bit_at_zero n))
low_bits (suc m) n y (suc k) h =
    let p : 2 ^ suc m * y ≡ 2 * (2 ^ m * y) =
      ap (λ k. k * y) (pow-succ' 2 m) ∙ mul_assoc 2 (2 ^ m) y in
    let q : (n + 2 ^ suc m * y) / 2 ≡ n / 2 + 2 ^ m * y = omega arith in
    bit_at-suc (n + 2 ^ suc m * y) k
    ∙ (ap (λ z. bit_at z k) q ∙ (low_bits m (n / 2) y k (omega arith) ∙ sym (bit_at-suc n k)))

-- and those above are the bits of what is added.
pub high_bits : (m n y k : ℕ) → n < 2 ^ m → bit_at (n + 2 ^ m * y) (m + k) ≡ bit_at y k
high_bits zero n y k h = ap₂ bit_at (omega arith) (omega arith)
high_bits (suc m) n y k h =
    let p : 2 ^ suc m * y ≡ 2 * (2 ^ m * y) =
      ap (λ k. k * y) (pow-succ' 2 m) ∙ mul_assoc 2 (2 ^ m) y in
    let w = pow-succ' 2 m in
    let q : (n + 2 ^ suc m * y) / 2 ≡ n / 2 + 2 ^ m * y = omega arith in
    ap (bit_at (n + 2 ^ suc m * y)) (omega arith)
    ∙ (bit_at-suc (n + 2 ^ suc m * y) (m + k)
        ∙ (ap (λ z. bit_at z (m + k)) q ∙ high_bits m (n / 2) y k (omega arith)))

-- A bit set below 2^m stays below.
pub put_bit-lt : (m n r c : ℕ) → n < 2 ^ m → r < m → c < 2 → put_bit n r c < 2 ^ m
put_bit-lt zero n r c h l k = absurd (omega arith)
put_bit-lt (suc m) n zero c h l k =
    let p = pow-succ' 2 m in let (half, low) = put_bit_zero n c k in omega arith
put_bit-lt (suc m) n (suc r) c h l k =
    let p = pow-succ' 2 m in
    let (half, low) = put_bit-suc n r c in
    let ih = put_bit-lt m (n / 2) r c (omega arith) (omega arith) k in omega arith

-- The two bytes that `GetBits` fills.
record Bytes (c : List ℕ) : Type 0 where
  two : length c ≡ 2
  low : get_or c 0 0 < 2 ^ 8
  high : get_or c 1 0 < 2 ^ 8

set_bit-Bytes : (c : List ℕ) (i t r : ℕ) → i < 16 → Bytes c → Bytes (set_bit c i t r)
unfolding set_bit
set_bit-Bytes c i t r h b = record {
  two = length-set c (i / 8) _ ∙ b.two;
  low = kept 0 b.low;
  high = kept 1 b.high;
}
  where
    byte : ℕ
    byte = put_bit (get_or c (i / 8) 0) (i % 8) (bit_at t r)

    small : (k : ℕ) → get_or c k 0 < 2 ^ 8 → (i / 8 ≡ k) → byte < 2 ^ 8
    small k l e =
        put_bit-lt 8 (get_or c (i / 8) 0) (i % 8) (bit_at t r) (rw e l) (omega arith)
          (bit_at_lt t r)

    kept : (k : ℕ) → get_or c k 0 < 2 ^ 8 → get_or (set c (i / 8) byte) k 0 < 2 ^ 8
    kept k l = elim (ℕ_discrete (i / 8) k) [
      | yes e ↦
          let at_k : get_or (set c (i / 8) byte) k 0 ≡ byte =
            get_or-set c (i / 8) k byte 0 (omega (arith, b.two)) ∙ ground arith in
          let few = small k l e in omega arith
      | no ne ↦
          let at_k : get_or (set c (i / 8) byte) k 0 ≡ get_or c k 0 =
            get_or-set c (i / 8) k byte 0 (omega (arith, b.two)) ∙ ground arith in
          omega arith
    ]

-- Bits `i` to `i + n` are those of the key from `p + i` on, the others as they were.
record Read (n i : ℕ) (c c' pc : List ℕ) (p : ℕ) : Type 0 where
  bytes : Bytes c'
  inside : (k : ℕ) → i ≤ k → k < i + n → bit c' k ≡ bit pc (p + k)
  outside : (k : ℕ) → (k < i) ⊎ (i + n ≤ k) → bit c' k ≡ bit c k

Read-step :
    (n i : ℕ) (c pc c' : List ℕ) (p : ℕ)
    → i + suc n ≤ 16
    → Bytes c
    → Read n (i + 1) (set_bit c i (get_or pc ((p + i) / 8) 0) ((p + i) % 8)) c' pc p
    → Read (suc n) i c c' pc p
Read-step n i c pc c' p h b rest = record {
  bytes = rest.bytes;
  inside = λ k l m. elim (ℕ_discrete i k) [
    | yes e ↦ rest.outside k (inl (omega arith)) ∙ (bit-set_bit c i _ _ k room ∙ hit k e)
    | no ne ↦ rest.inside k (omega arith) (omega arith)
  ];
  outside = λ k o. rest.outside k (later k o) ∙ (bit-set_bit c i _ _ k room ∙ miss k o);
}
  where
    room : i / 8 < length c
    room = omega (arith, b.two)

    hit : (k : ℕ) → i ≡ k → (if i == k then bit pc (p + i) else bit c k) ≡ bit pc (p + k)
    hit k e = let t : (i == k) ≡ true = ground arith in rw t (ap (λ j. bit pc (p + j)) e)

    later : (k : ℕ) → (k < i) ⊎ (i + suc n ≤ k) → (k < i + 1) ⊎ (i + 1 + n ≤ k)
    later k (inl l) = inl (omega arith)
    later k (inr l) = inr (omega arith)

    miss :
        (k : ℕ) → (k < i) ⊎ (i + suc n ≤ k) → (if i == k then bit pc (p + i) else bit c k) ≡ bit c k
    miss k o = let t : (i == k) ≡ false = ground arith in rw t refl

get_bits_from-Read :
    (n i : ℕ) (c pc : List ℕ) (p : ℕ)
    → i + n ≤ 16
    → Bytes c
    → Read n i c (get_bits_from n i c pc p) pc p
unfolding get_bits_from
get_bits_from-Read zero i c pc p h b = record {
  bytes = b;
  inside = λ k l m. absurd (omega arith);
  outside = λ k o. refl;
}
get_bits_from-Read (suc n) i c pc p h b =
    let c1 = set_bit c i (get_or pc ((p + i) / 8) 0) ((p + i) % 8) in
    Read-step n i c pc (get_bits_from n (i + 1) c1 pc p) p h b
      (get_bits_from-Read n (i + 1) c1 pc p (omega arith) (set_bit-Bytes c i _ _ (omega arith) b))

-- The bits of the number that two bytes make up.
bit_at-Bytes :
    (c : List ℕ) (k : ℕ)
    → Bytes c
    → k < 16
    → bit_at (get_or c 0 0 + get_or c 1 0 * 2 ^ 8) k ≡ bit c k
bit_at-Bytes c k b h = ap (λ m. bit_at (get_or c 0 0 + m) k) (omega arith) ∙ elim (dec_lt k 8) [
  | yes low ↦
      let q : k / 8 ≡ 0 = omega arith in
      let r : k % 8 ≡ k = omega arith in
      low_bits 8 (get_or c 0 0) (get_or c 1 0) k low ∙ rw (q, r) refl
  | no high ↦
      let e : k ≡ 8 + (k - 8) = omega arith in
      let q : k / 8 ≡ 1 = omega arith in
      let r : k % 8 ≡ k - 8 = omega arith in
      ap (bit_at (get_or c 0 0 + 2 ^ 8 * get_or c 1 0)) e
      ∙ (high_bits 8 (get_or c 0 0) (get_or c 1 0) (k - 8) b.low ∙ rw (q, r) refl)
]

-- The value of a field is the number with its bits.
pub get_bits_value :
    (pc : List ℕ) (p n x : ℕ)
    → n ≤ 16
    → x < 2 ^ n
    → ((k : ℕ) → k < n → bit pc (p + k) ≡ bit_at x k)
    → get_bits pc p n ≡ x
unfolding get_bits
get_bits_value pc p n x few h same =
    let c = get_bits_from n 0 (0 ∷ 0 ∷ []) pc p in
    let zeros : Bytes (0 ∷ 0 ∷ []) = record { two = refl; low = omega arith; high = omega arith } in
    let r = get_bits_from-Read n 0 (0 ∷ 0 ∷ []) pc p (omega arith) zeros in
    let up = power_le n 16 few in
    let b = r.bytes in
    same_bits 16 (get_or c 0 0 + get_or c 1 0 * 2 ^ 8) x (omega (arith, b.low, b.high))
      (omega arith)
      (λ k l. bit_at-Bytes c k b l ∙ elim (dec_lt k n) [
        | yes before ↦ r.inside k (omega arith) (omega arith) ∙ same k before
        | no after ↦
            r.outside k (inr (omega arith)) ∙ (empty k l ∙ sym (no_bits n x k h (omega arith)))
      ])
  where
    empty : (k : ℕ) → k < 16 → bit (0 ∷ 0 ∷ []) k ≡ 0
    empty k l = elim (dec_lt k 8) [
      | yes low ↦
          let q : k / 8 ≡ 0 = omega arith in rw q (no_bits 0 0 (k % 8) (omega arith) (omega arith))
      | no high ↦
          let q : k / 8 ≡ 1 = omega arith in rw q (no_bits 0 0 (k % 8) (omega arith) (omega arith))
    ]
