-- ===== src/Position/Encode/Unary.antt =====
-- The code of a row, a chequer for each 1 and a point for each 0, engine-core/positionid.c
-- `oldPositionKey` and `oldPositionFromKey`.
use mathlib.Core.List.{append_assoc, append-nil}
use gnubg_android.Base.{
  ℕ, zero, suc, ◌+◌, ◌-◌, ◌/◌, ◌%◌, ◌≤◌, ◌<◌, ◌≡◌, refl, sym, ◌∙◌, ap, ap₂, subst, Bool, true,
  false, List, [], ◌∷◌, ◌++◌, ltb, ◌==◌, if◌then◌else◌, get_or, get_or_past, length, length-append,
  length-replicate, replicate, lt→ltb, le→not_ltb, dec_lt, arith,
}
use gnubg_android.Board.Sums.{total}
use gnubg_android.Position.Key.Laws.{Nibbles}
use gnubg_android.Position.Id.{bits_of, key_bits}
use gnubg_android.Position.Encode.{add_bits, add_row}
use gnubg_android.Position.Encode.Bits.{bit-add_bits, length-add_bits, add_bits-AllBytes, AllBytes}
use gnubg_android.MatchId.{bit_at, flag}
use gnubg_android.MatchId.Bits.{bit_at_zero, bit_at-suc, bit}

module _ {ℓ} {A : Type ℓ} where
  get_or-append :
      (xs ys : List A) (j : ℕ) (d : A)
      → get_or (xs ++ ys) j d
        ≡ (if ltb j (length xs) then get_or xs j d else get_or ys (j - length xs) d)
  get_or-append [] ys j d =
      let e : j ≡ j - 0 = omega arith in ap (λ k. get_or ys k d) e ∙ ground arith
  get_or-append (x ∷ xs) ys zero d = ground arith
  get_or-append (x ∷ xs) ys (suc j) d = get_or-append xs ys j d ∙ ground arith

  pub get_or-replicate :
      (n j : ℕ) (a d : A) → get_or (replicate n a) j d ≡ (if ltb j n then a else d)
  get_or-replicate zero j a d = ground arith
  get_or-replicate (suc n) zero a d = ground arith
  get_or-replicate (suc n) (suc j) a d = get_or-replicate n j a d ∙ ground arith

  -- Lists that agree at every index are equal.
  pub same_list :
      (xs ys : List A) (d : A)
      → length xs ≡ length ys
      → ((j : ℕ) → get_or xs j d ≡ get_or ys j d)
      → xs ≡ ys
  same_list [] [] d l h = refl
  same_list [] (y ∷ ys) d l h = absurd (omega arith)
  same_list (x ∷ xs) [] d l h = absurd (omega arith)
  same_list (x ∷ xs) (y ∷ ys) d l h =
      ap₂ ◌∷◌ (h 0) (same_list xs ys d (omega arith) (λ j. h (suc j)))

-- The code of a point, and of a row.
abbrev pub point_code : ℕ → List Bool
point_code n = replicate n true ++ (false ∷ [])

abbrev pub code : List ℕ → List Bool
code [] = []
code (n ∷ row) = point_code n ++ code row

length-point_code : (n : ℕ) → length (point_code n) ≡ n + 1
length-point_code n =
    length-append (replicate n true) (false ∷ []) ∙ omega (arith, length-replicate n true)

pub length-code : (row : List ℕ) → length (code row) ≡ total row + length row
length-code [] = refl
length-code (n ∷ row) =
    length-append (point_code n) (code row) ∙ omega (arith, length-point_code n, length-code row)

get_or-point_code : (n j : ℕ) → get_or (point_code n) j false ≡ ltb j n
get_or-point_code zero zero = refl
get_or-point_code zero (suc j) = ground arith
get_or-point_code (suc n) zero = ground arith
get_or-point_code (suc n) (suc j) = get_or-point_code n j ∙ ground arith

-- The key begins with these bits, and zeros follow.
pub record Written (auch : List ℕ) (l : List Bool) : Type 0 where
  pub ten : length auch ≡ 10
  pub small : AllBytes auch
  pub bits : (j : ℕ) → bit auch j ≡ flag (get_or l j false)

Written-add_bits :
    (auch : List ℕ) (l : List Bool) (n : ℕ)
    → n ≤ 15
    → length l + n < 80
    → Written auch l
    → Written (add_bits auch (length l) n) (l ++ point_code n)
Written-add_bits auch l n few room w = record {
  ten = length-add_bits auch (length l) n w.ten few (omega arith) (omega arith);
  small = add_bits-AllBytes auch (length l) n w.ten few (omega arith) (omega arith) w.small;
  bits = λ j.
      bit-add_bits auch (length l) n w.ten few (omega arith) (omega arith) j
      ∙ (rw (w.bits j, get_or-append l (point_code n) j false, get_or-point_code n (j - length l))
          (elim (dec_lt j (length l)) [
            | yes before ↦ ground arith
            | no after ↦ let past = get_or_past l j false (omega arith) in rw past (ground arith)
          ]));
}

Written-point : (auch : List ℕ) (l : List Bool) → Written auch l → Written auch (l ++ point_code 0)
Written-point auch l w = record {
  ten = w.ten;
  small = w.small;
  bits = λ j.
      w.bits j
      ∙ (rw (get_or-append l (point_code 0) j false, get_or-point_code 0 (j - length l))
          (elim (dec_lt j (length l)) [
            | yes before ↦ ground arith
            | no after ↦ let past = get_or_past l j false (omega arith) in rw past (ground arith)
          ]));
}

-- What the loop over a row leaves.
pub add_row-Written :
    (row auch : List ℕ) (l : List Bool) (i : ℕ)
    → i ≡ length l
    → Nibbles row
    → length l + (total row + length row) ≤ 80
    → Written auch l
    → Written (add_row row auch i).0 (l ++ code row)
      × ((add_row row auch i).1 ≡ length l + (total row + length row))
unfolding add_row
add_row-Written [] auch l i e small room w =
    (subst (Written auch) (sym (append-nil l)) w, omega arith)
add_row-Written (zero ∷ row) auch l i e small room w =
    let len = length-append l (point_code 0) in
    let (w', i') =
      add_row-Written row auch (l ++ point_code 0) (i + 1) (omega arith) small.1 (omega arith)
        (Written-point auch l w) in
    (subst (Written _) (append_assoc l (point_code 0) (code row)) w', omega arith)
add_row-Written (suc n ∷ row) auch l i e small room w =
    let len = length-append l (point_code (suc n)) in
    let more = length-point_code (suc n) in
    let start = Written-add_bits auch l (suc n) (omega (arith, small.0)) (omega arith) w in
    let (w', i') =
      add_row-Written row (add_bits auch i (suc n)) (l ++ point_code (suc n)) (i + (suc n + 1))
        (omega arith) small.1 (omega arith) (rw e start) in
    (subst (Written _) (append_assoc l (point_code (suc n)) (code row)) w', omega arith)

-- The bits of a byte, and of a key.
get_or-bits_of :
    (n cur : ℕ) (after : List Bool) (j : ℕ)
    → get_or (bits_of n cur after) j false
      ≡ (if ltb j n then bit_at cur j == 1 else get_or after (j - n) false)
unfolding bits_of
get_or-bits_of zero cur after j =
    let e : j ≡ j - 0 = omega arith in ap (λ k. get_or after k false) e ∙ ground arith
get_or-bits_of (suc n) cur after zero = ap (λ b. b == 1) (sym (bit_at_zero cur)) ∙ ground arith
get_or-bits_of (suc n) cur after (suc j) =
    get_or-bits_of n (cur / 2) after j ∙ rw (bit_at-suc cur j) (ground arith)

get_or-key_bits : (auch : List ℕ) (j : ℕ) → get_or (key_bits auch) j false ≡ (bit auch j == 1)
unfolding key_bits
get_or-key_bits [] j = ground arith
get_or-key_bits (cur ∷ auch) j = get_or-bits_of 8 cur (key_bits auch) j ∙ elim (dec_lt j 8) [
  | yes low ↦
      let q : j / 8 ≡ 0 = omega arith in
      let r : j % 8 ≡ j = omega arith in rw (lt→ltb j 8 low, q, r) refl
  | no high ↦
      let q : j / 8 ≡ suc ((j - 8) / 8) = omega arith in
      let r : j % 8 ≡ (j - 8) % 8 = omega arith in
      rw (le→not_ltb j 8 (omega arith), q, r) (get_or-key_bits auch (j - 8))
]

flag_back : (b : Bool) → (flag b == 1) ≡ b
flag_back true = refl
flag_back false = refl

-- The bits of a key, in order.
pub key_bits-Written :
    (auch : List ℕ) (l : List Bool)
    → length l ≤ 80
    → length (key_bits auch) ≡ 80
    → Written auch l
    → key_bits auch ≡ l ++ replicate (80 - length l) false
key_bits-Written auch l few len w =
    let zeros = length-replicate (80 - length l) false in
    let both = length-append l (replicate (80 - length l) false) in
    same_list (key_bits auch) _ false (omega arith) (λ j.
      get_or-key_bits auch j
      ∙ (ap (λ b. b == 1) (w.bits j)
          ∙ (flag_back (get_or l j false)
              ∙ (rw
                  (
                    get_or-append l (replicate (80 - length l) false) j false,
                    get_or-replicate (80 - length l) (j - length l) false false,
                  )
                  (elim (dec_lt j (length l)) [
                    | yes before ↦ ground arith
                    | no after ↦
                        let past = get_or_past l j false (omega arith) in rw past (ground arith)
                  ])))))
