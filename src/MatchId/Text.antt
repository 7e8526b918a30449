-- ===== src/MatchId/Text.antt =====
-- The text of a match ID, engine-core/matchid.c `MatchIDFromKey` and `MatchFromID`.
use native.Mathlib.Nat.{pow-suc}
use gnubg_android.Base.{
  ℕ, zero, suc, ◌+◌, ◌*◌, ◌/◌, ◌%◌, ◌^◌, ◌<◌, ◌≡◌, refl, sym, ◌∙◌, ap, ap₂, Bool, true, ◌&&◌, List,
  [], ◌∷◌, ◌++◌, ◌==◌, if◌then◌else◌, get_or, length, ℕ_discrete, arith,
}
use gnubg_android.Position.Id.{base64, digits, bit_or_at, or_byte, u8, three_bytes}
use gnubg_android.Position.Key.Laws.{points_from, points_from_all}
use gnubg_android.MatchId.Bits.{twice_bit}
use gnubg_android.MatchId.{
  base64_chars, four_chars, match_id_from_key, match_from_key, match_from_id,
}

-- The table and `Base64` agree, on the first `n` digits.
table_agrees : ℕ → Bool
table_agrees zero = true
table_agrees (suc n) = (base64 (get_or base64_chars n 0) == n) && table_agrees n

table_agrees_64 : table_agrees 64 ≡ true
unfolding table_agrees base64
table_agrees_64 = refl

base64-char_of : (n d : ℕ) → table_agrees n ≡ true → d < n → base64 (get_or base64_chars d 0) ≡ d
unfolding table_agrees
base64-char_of zero d h l = absurd (omega arith)
base64-char_of (suc n) d h l = elim (ℕ_discrete d n) [
  | yes e ↦ rw e (ground arith)
  | no ne ↦ base64-char_of n d (ground arith) (omega arith)
]

pub char_back : (d : ℕ) → d < 64 → base64 (get_or base64_chars d 0) ≡ d
char_back d h = base64-char_of 64 d table_agrees_64 h

-- `|` of parts that share no bit is their sum.
or_zero : (n a : ℕ) → a < 2 ^ n → bit_or_at n a 0 ≡ a
or_zero zero a h = omega arith
or_zero (suc n) a h =
    let p = pow-suc 2 n in let ih = or_zero n (a / 2) (omega arith) in ground (arith, ih)

pub or_sum :
    (n m a b : ℕ) → b < 2 ^ m → a * 2 ^ m + b < 2 ^ n → bit_or_at n (a * 2 ^ m) b ≡ a * 2 ^ m + b
or_sum zero m a b h k = omega arith
or_sum (suc n) zero a b h k =
    let e0 : b ≡ 0 = omega arith in
    let e1 : a * 2 ^ 0 ≡ a = omega arith in
    ap₂ (bit_or_at (suc n)) e1 e0 ∙ (or_zero (suc n) a (omega arith) ∙ omega arith)
or_sum (suc n) (suc m) a b h k =
    let p = pow-suc 2 n in
    let q : a * 2 ^ suc m ≡ 2 * (a * 2 ^ m) = twice_bit a m in
    let half : a * 2 ^ suc m / 2 ≡ a * 2 ^ m = omega arith in
    let w = pow-suc 2 m in
    let ih = or_sum n m a (b / 2) (omega arith) (omega arith) in
    let rest : bit_or_at n (a * 2 ^ suc m / 2) (b / 2) ≡ a * 2 ^ m + b / 2 =
      ap (λ k. bit_or_at n k (b / 2)) half ∙ ih in
    ap (λ k. (if a * 2 ^ suc m % 2 + b % 2 == 0 then 0 else 1) + 2 * k) rest ∙ ground arith

-- Three bytes are decoded from their four characters.
module _ (p0 p1 p2 : ℕ) (h0 : p0 < 256) (h1 : p1 < 256) (h2 : p2 < 256) where
  -- The digits in between.
  abbrev d1 : ℕ
  d1 = or_byte (p0 % 4 * 2 ^ 4) (p1 / 2 ^ 4)

  abbrev d2 : ℕ
  d2 = or_byte (p1 % 16 * 2 ^ 2) (p2 / 2 ^ 6)

  d1_sum : d1 ≡ p0 % 4 * 2 ^ 4 + p1 / 2 ^ 4
  d1_sum = or_sum 8 4 (p0 % 4) (p1 / 2 ^ 4) (omega arith) (omega arith)

  d2_sum : d2 ≡ p1 % 16 * 2 ^ 2 + p2 / 2 ^ 6
  d2_sum = or_sum 8 2 (p1 % 16) (p2 / 2 ^ 6) (omega arith) (omega arith)

  byte0 : or_byte (u8 (p0 / 2 ^ 2 * 2 ^ 2)) (d1 / 2 ^ 4) ≡ p0
  byte0 =
      let a : u8 (p0 / 2 ^ 2 * 2 ^ 2) ≡ p0 / 2 ^ 2 * 2 ^ 2 = omega arith in
      let b : d1 / 2 ^ 4 ≡ p0 % 4 = ap (λ k. k / 2 ^ 4) d1_sum ∙ omega arith in
      ap₂ or_byte a b ∙ (or_sum 8 2 (p0 / 2 ^ 2) (p0 % 4) (omega arith) (omega arith) ∙ omega arith)

  byte1 : or_byte (u8 (d1 * 2 ^ 4)) (d2 / 2 ^ 2) ≡ p1
  byte1 =
      let a : u8 (d1 * 2 ^ 4) ≡ p1 / 2 ^ 4 * 2 ^ 4 =
        ap (λ k. u8 (k * 2 ^ 4)) d1_sum ∙ omega arith in
      let b : d2 / 2 ^ 2 ≡ p1 % 16 = ap (λ k. k / 2 ^ 2) d2_sum ∙ omega arith in
      ap₂ or_byte a b
      ∙ (or_sum 8 4 (p1 / 2 ^ 4) (p1 % 16) (omega arith) (omega arith) ∙ omega arith)

  byte2 : or_byte (u8 (d2 * 2 ^ 6)) (p2 % 64) ≡ p2
  byte2 =
      let a : u8 (d2 * 2 ^ 6) ≡ p2 / 2 ^ 6 * 2 ^ 6 =
        ap (λ k. u8 (k * 2 ^ 6)) d2_sum ∙ omega arith in
      ap (λ k. or_byte k (p2 % 64)) a
      ∙ (or_sum 8 6 (p2 / 2 ^ 6) (p2 % 64) (omega arith) (omega arith) ∙ omega arith)

  -- The characters of a group, and their digits.
  abbrev pub char : ℕ → ℕ
  char d = base64 (get_or base64_chars d 0)

  pub group :
      three_bytes (char (p0 / 2 ^ 2)) (char d1) (char d2) (char (p2 % 64)) ≡ p0 ∷ p1 ∷ p2 ∷ []
  unfolding three_bytes
  group =
      rw
        (
          char_back (p0 / 2 ^ 2) (omega arith),
          char_back d1 (omega (arith, d1_sum)),
          char_back d2 (omega (arith, d2_sum)),
          char_back (p2 % 64) (omega arith),
        )
        (λ i. byte0 i ∷ byte1 i ∷ byte2 i ∷ [])

-- Nine bytes.
pub record Bytes9 (k : List ℕ) : Type 0 where
  pub nine : length k ≡ 9
  pub small : (i : ℕ) → get_or k i 0 < 256

bytes_of :
    (k : List ℕ)
    → length k ≡ 9
    → get_or k 0 0
        ∷ get_or k 1 0
        ∷ get_or k 2 0
        ∷ get_or k 3 0
        ∷ get_or k 4 0
        ∷ get_or k 5 0
        ∷ get_or k 6 0
        ∷ get_or k 7 0
        ∷ get_or k 8 0
        ∷ []
      ≡ k
bytes_of k h = ap (λ n. points_from n 0 k) (sym h) ∙ points_from_all k

-- `MatchFromID` on the text of a key reads that key.
pub match_from_id-match_id_from_key :
    (k : List ℕ) → Bytes9 k → match_from_id (match_id_from_key k) ≡ match_from_key k
unfolding match_from_id match_id_from_key four_chars digits
match_from_id-match_id_from_key k b =
    let s = b.small in
    ap match_from_key (
      ap₂ (λ x y. x ++ y) (group (get_or k 0 0) (get_or k 1 0) (get_or k 2 0) (s 0) (s 1) (s 2))
        (ap₂ (λ x y. x ++ y) (group (get_or k 3 0) (get_or k 4 0) (get_or k 5 0) (s 3) (s 4) (s 5))
          (group (get_or k 6 0) (get_or k 7 0) (get_or k 8 0) (s 6) (s 7) (s 8)))
      ∙ bytes_of k b.nine)
