-- ===== src/Base/Decimal.antt =====
-- Decimal text as C's formatted input and output writes and reads it: `%llu` and `%d` of `printf`,
-- and the same conversions of `scanf`. Text is a list of bytes.
use gnubg_android.Base.{
  ℕ, zero, suc, ◌+◌, ◌-◌, ◌*◌, ◌/◌, ◌%◌, ◌^◌, ◌≤◌, ◌<◌, ◌≡◌, refl, ◌∙◌, ap, lt→ltb, le→not_ltb,
  dec_lt, sym, subst, Bool, true, false, ◌&&◌, ◌||◌, Option, none, some, List, [], ◌∷◌, leb, ltb,
  ◌==◌, if◌then◌else◌, arith,
}
use gnubg_android.Base.Int.{ℤ, pos, negsuc}
use mathlib.Core.Option

-- The digits of `n` in front of `rest`; the fuel is enough when it is above `n`.
pub digits : ℕ → ℕ → List ℕ → List ℕ
digits zero n rest = rest
digits (suc fuel) n rest = elim (ltb n 10) [
  | true ↦ (b'0' + n) ∷ rest
  | false ↦ digits fuel (n / 10) ((b'0' + n % 10) ∷ rest)
]

-- `%llu`.
unfoldable pub print_llu : ℕ → List ℕ → List ℕ
unfolding digits
print_llu n rest = digits (suc n) n rest

-- `%d`.
unfoldable pub print_d : ℤ → List ℕ → List ℕ
unfolding print_llu
print_d (pos n) rest = print_llu n rest
print_d (negsuc n) rest = b'-' ∷ print_llu (suc n) rest

abbrev pub is_digit : ℕ → Bool
is_digit c = leb b'0' c && leb c b'9'

-- The white space of `isspace`.
abbrev pub is_space : ℕ → Bool
is_space c = c == b' ' || (leb 9 c && leb c 13)

unfoldable pub skip_spaces : List ℕ → List ℕ
skip_spaces [] = []
skip_spaces (c ∷ s) = if is_space c then skip_spaces s else c ∷ s

-- The value of the digits that a text begins with, after those that make up `acc`.
unfoldable pub read_digits : ℕ → List ℕ → ℕ × List ℕ
read_digits acc [] = (acc, [])
read_digits acc (c ∷ s) =
    let more = read_digits (acc * 10 + (c - b'0')) s in if is_digit c then more else (acc, c ∷ s)

-- A number with at least one digit.
unfoldable pub scan_number : List ℕ → Option (ℕ × List ℕ)
unfolding read_digits
scan_number [] = none
scan_number (c ∷ s) = if is_digit c then some (read_digits 0 (c ∷ s)) else none

abbrev pub negate : ℕ → ℤ
negate zero = pos 0
negate (suc n) = negsuc n

-- The sign and the digits of `%d`. A value out of the range of the type has no defined conversion
-- in C; here it stays as it is written.
unfoldable pub scan_signed : List ℕ → Option (ℤ × List ℕ)
unfolding scan_number
scan_signed [] = none
scan_signed (c ∷ s) =
    if c == b'-'
    then Option.map (λ r. (negate r.0, r.1)) (scan_number s)
    else Option.map (λ r. (pos r.0, r.1)) (scan_number (if c == b'+' then s else c ∷ s))

unfoldable pub scan_d : List ℕ → Option (ℤ × List ℕ)
unfolding scan_signed skip_spaces
scan_d s = scan_signed (skip_spaces s)

abbrev pub to_u64 : ℤ → ℕ
to_u64 (pos n) = n
to_u64 (negsuc n) = 2 ^ 64 - suc n

-- `%llu`: a minus sign gives the value modulo 2^64.
unfoldable pub scan_llu : List ℕ → Option (ℕ × List ℕ)
unfolding scan_d
scan_llu s = Option.map (λ r. (to_u64 r.0, r.1)) (scan_d s)

-- A text that no number goes on into.
abbrev pub StopsNumber : List ℕ → Type 0
StopsNumber [] = Unit {0}
StopsNumber (c ∷ s) = is_digit c ≡ false

read_digits-stop : (n : ℕ) (rest : List ℕ) → StopsNumber rest → read_digits n rest ≡ (n, rest)
unfolding read_digits
read_digits-stop n [] h = refl
read_digits-stop n (c ∷ s) h = rw h refl

is_digit_of_lt : (d : ℕ) → d < 10 → is_digit (b'0' + d) ≡ true
is_digit_of_lt d h = ground arith

read_digits-digit :
    (acc d : ℕ) (rest : List ℕ)
    → d < 10
    → read_digits acc ((b'0' + d) ∷ rest) ≡ read_digits (acc * 10 + d) rest
unfolding read_digits
read_digits-digit acc d rest h =
    rw (is_digit_of_lt d h) (ap (λ k. read_digits k rest) (omega arith))

digits_small : (fuel n : ℕ) (rest : List ℕ) → n < 10 → digits (suc fuel) n rest ≡ (b'0' + n) ∷ rest
unfolding digits
digits_small fuel n rest h = rw (lt→ltb n 10 h, digits) refl

digits_large :
    (fuel n : ℕ) (rest : List ℕ)
    → 10 ≤ n
    → digits (suc fuel) n rest ≡ digits fuel (n / 10) ((b'0' + n % 10) ∷ rest)
unfolding digits
digits_large fuel n rest h = rw (le→not_ltb n 10 h, digits) refl

read_digits-digits :
    (fuel n : ℕ) (rest : List ℕ)
    → n < fuel
    → read_digits 0 (digits fuel n rest) ≡ read_digits n rest
read_digits-digits zero n rest h = elim h [ ]
read_digits-digits (suc fuel) n rest h = elim (dec_lt n 10) [
  | yes small ↦
      rw (digits_small fuel n rest small)
        (read_digits-digit 0 n rest small ∙ ap (λ k. read_digits k rest) (omega arith))
  | no large ↦ rw (digits_large fuel n rest (omega arith)) (
      read_digits-digits fuel (n / 10) ((b'0' + n % 10) ∷ rest) (omega arith)
      ∙ (read_digits-digit (n / 10) (n % 10) rest (omega arith)
          ∙ ap (λ k. read_digits k rest) (omega arith)))
]

-- A printed number begins with a digit.
abbrev StartsDigit : List ℕ → Type 0
StartsDigit [] = ⊥
StartsDigit (c ∷ s) = is_digit c ≡ true

digits-StartsDigit : (fuel n : ℕ) (rest : List ℕ) → n < fuel → StartsDigit (digits fuel n rest)
digits-StartsDigit zero n rest h = elim h [ ]
digits-StartsDigit (suc fuel) n rest h = elim (dec_lt n 10) [
  | yes small ↦ subst StartsDigit (sym (digits_small fuel n rest small)) (is_digit_of_lt n small)
  | no large ↦
      subst StartsDigit (sym (digits_large fuel n rest (omega arith)))
        (digits-StartsDigit fuel (n / 10) ((b'0' + n % 10) ∷ rest) (omega arith))
]

scan_number_lem : (s : List ℕ) → StartsDigit s → scan_number s ≡ some (read_digits 0 s)
unfolding scan_number
scan_number_lem [] h = absurd h
scan_number_lem (c ∷ s) h = rw h refl

print_llu-StartsDigit : (n : ℕ) (rest : List ℕ) → StartsDigit (print_llu n rest)
unfolding print_llu
print_llu-StartsDigit n rest = digits-StartsDigit (suc n) n rest (omega arith)

scan_number-print_llu :
    (n : ℕ) (rest : List ℕ) → StopsNumber rest → scan_number (print_llu n rest) ≡ some (n, rest)
unfolding print_llu
scan_number-print_llu n rest h =
    scan_number_lem (digits (suc n) n rest) (digits-StartsDigit (suc n) n rest (omega arith))
    ∙ ap some (read_digits-digits (suc n) n rest (omega arith) ∙ read_digits-stop n rest h)

skip_spaces_digit : (s : List ℕ) → StartsDigit s → skip_spaces s ≡ s
unfolding skip_spaces
skip_spaces_digit [] h = refl
skip_spaces_digit (c ∷ s) h = ground arith

scan_signed_digit :
    (s : List ℕ) → StartsDigit s → scan_signed s ≡ Option.map (λ r. (pos r.0, r.1)) (scan_number s)
unfolding scan_signed
scan_signed_digit [] h = absurd h
scan_signed_digit (c ∷ s) h = ground arith

scan_signed-print_llu :
    (n : ℕ) (rest : List ℕ) → StopsNumber rest → scan_signed (print_llu n rest) ≡ some (pos n, rest)
scan_signed-print_llu n rest h =
    scan_signed_digit (print_llu n rest) (print_llu-StartsDigit n rest)
    ∙ ap (Option.map (λ r. (pos r.0, r.1))) (scan_number-print_llu n rest h)

pub scan_d-print_d :
    (z : ℤ) (rest : List ℕ) → StopsNumber rest → scan_d (b' ' ∷ print_d z rest) ≡ some (z, rest)
unfolding print_d scan_d scan_signed skip_spaces
scan_d-print_d (pos n) rest h =
    ap scan_signed (skip_spaces_digit (print_llu n rest) (print_llu-StartsDigit n rest))
    ∙ scan_signed-print_llu n rest h
scan_d-print_d (negsuc n) rest h =
    ap (Option.map (λ r. (negate r.0, r.1))) (scan_number-print_llu (suc n) rest h)

pub scan_llu-print_llu :
    (n : ℕ) (rest : List ℕ) → StopsNumber rest → scan_llu (b' ' ∷ print_llu n rest) ≡ some (n, rest)
unfolding scan_llu print_d
scan_llu-print_llu n rest h =
    ap (Option.map (λ r. (to_u64 r.0, r.1))) (scan_d-print_d (pos n) rest h)
