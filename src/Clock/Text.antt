-- ===== src/Clock/Text.antt =====
-- The clock as a line of text, engine-core/timecontrol.c `tc_serialize` and `tc_deserialize`.
-- A line is a list of bytes without its final NUL.
use gnubg_android.Base.{
  ℕ, zero, suc, ◌-◌, ◌<◌, ◌≡◌, refl, ◌∙◌, ap, ◌⊎◌, inl, inr, true, false, not, ◌||◌, Option, none,
  some, List, [], ◌∷◌, ◌==◌, if◌then◌else◌, arith, length, take, take_all,
}
use gnubg_android.Base.Int.{ℤ, pos, negsuc, ltb_ℤ}
use gnubg_android.Base.Decimal.{
  print_d, print_llu, scan_d, scan_llu, scan_d-print_d, scan_llu-print_llu,
}
use gnubg_android.Clock.{TimeControl, tc_players}

-- The line "tc1 %d %d %d %llu %llu %llu %llu %d %d %llu".
unfoldable pub clock_line : TimeControl → List ℕ
clock_line c =
    b't'
    ∷ b'c'
    ∷ b'1'
    ∷ b' '
    ∷ print_d c.f_active (
        b' '
        ∷ print_d c.f_paused (
            b' '
            ∷ print_d c.n_active_side (
                b' '
                ∷ print_llu c.ms_delay (
                    b' '
                    ∷ print_llu c.ms_delay_left (
                        b' '
                        ∷ print_llu c.ams_reserve.p0 (
                            b' '
                            ∷ print_llu c.ams_reserve.p1 (
                                b' '
                                ∷ print_d c.af_flagged.p0 (
                                    b' '
                                    ∷ print_d c.af_flagged.p1
                                        (b' ' ∷ print_llu c.ms_last [])))))))))

-- What `snprintf` stores in a buffer of `cch` bytes, and what it returns.
unfoldable pub tc_serialize : TimeControl → ℕ → List ℕ × ℕ
unfolding clock_line
tc_serialize c cch = (take (cch - 1) (clock_line c), length (clock_line c))

-- `do` blocks over `Option`: a conversion that fails ends `sscanf`.
infixl 5 ◌>>=◌
abbrev ◌>>=◌ : {A B : Type 0} → Option A → (A → Option B) → Option B
none >>= f = none
some a >>= f = f a

scan_byte : ℕ → List ℕ → Option (List ℕ)
scan_byte b [] = none
scan_byte b (c ∷ s) = if c == b then some s else none

-- The `sscanf` call with all ten conversions made, or `none`. White space in the format takes any
-- white space of the text, and every conversion skips it.
-- A number that is out of the range of its conversion, which C leaves undefined, is read in full.
unfoldable pub scan_line : List ℕ → Option TimeControl
unfolding scan_byte
scan_line s = do
  s ← scan_byte b't' s
  s ← scan_byte b'c' s
  s ← scan_byte b'1' s
  (active, s) ← scan_d s
  (paused, s) ← scan_d s
  (side, s) ← scan_d s
  (delay, s) ← scan_llu s
  (delay_left, s) ← scan_llu s
  (reserve0, s) ← scan_llu s
  (reserve1, s) ← scan_llu s
  (flagged0, s) ← scan_d s
  (flagged1, s) ← scan_d s
  (last, s) ← scan_llu s
  some (record {
    f_active = active;
    f_paused = paused;
    n_active_side = side;
    ms_delay = delay;
    ms_delay_left = delay_left;
    ams_reserve = record { p0 = reserve0; p1 = reserve1 };
    af_flagged = record { p0 = flagged0; p1 = flagged1 };
    ms_last = last;
  })

-- The range check and the copy into `*ptc`, on what was read.
accept_line : TimeControl → Option TimeControl → TimeControl × ℤ
accept_line old none = (old, negsuc 0)
accept_line old (some c) =
    if ltb_ℤ c.n_active_side (negsuc 0) || not (ltb_ℤ c.n_active_side (pos tc_players))
    then (old, negsuc 0)
    else (c, pos 0)

unfoldable pub tc_deserialize : TimeControl → List ℕ → TimeControl × ℤ
unfolding accept_line
tc_deserialize old s = accept_line old (scan_line s)

-- `-1`, `0` and `1`.
abbrev pub IsSide : ℤ → Type 0
IsSide z = (z ≡ negsuc 0) ⊎ ((z ≡ pos 0) ⊎ (z ≡ pos 1))

scan_line-clock_line : (c : TimeControl) → scan_line (clock_line c) ≡ some c
unfolding clock_line scan_line
scan_line-clock_line c =
    simp (scan_d-print_d, scan_llu-print_llu) (rw (scan_llu-print_llu c.ms_last [] tt))

abbrev Outcome : TimeControl → Option TimeControl → TimeControl × ℤ → Type 0
Outcome old o (c, code) =
    ((code ≡ negsuc 0) × (c ≡ old)) ⊎ ((code ≡ pos 0) × (o ≡ some c) × IsSide c.n_active_side)

-- The check lets through what `IsSide` says.
IsSide-check :
    (z : ℤ)
    → ((ltb_ℤ z (negsuc 0) || not (ltb_ℤ z (pos tc_players))) ≡ true)
      ⊎ (((ltb_ℤ z (negsuc 0) || not (ltb_ℤ z (pos tc_players))) ≡ false) × IsSide z)
IsSide-check (pos zero) = inr (refl, inr (inl refl))
IsSide-check (pos (suc zero)) = inr (refl, inr (inr refl))
IsSide-check (pos (suc (suc n))) = inl (ground arith)
IsSide-check (negsuc zero) = inr (refl, inl refl)
IsSide-check (negsuc (suc n)) = inl (ground arith)

accept_line-Outcome :
    (old : TimeControl) (o : Option TimeControl) → Outcome old o (accept_line old o)
unfolding accept_line
accept_line-Outcome old none = inl (refl, refl)
accept_line-Outcome old (some c) = elim (IsSide-check c.n_active_side) [
  | inl bad ↦ rw bad (inl (refl, refl))
  | inr (good, side) ↦ rw good (inr (refl, refl, side))
]

-- `tc_deserialize` on any text: it returns -1 and leaves the clock as it was, or it returns 0 and the
-- clock is what the ten conversions read, with a running side that is -1, 0 or 1.
pub tc_deserialize_outcome :
    (old : TimeControl) (s : List ℕ)
    → let (c, code) = tc_deserialize old s in
      ((code ≡ negsuc 0) × (c ≡ old))
      ⊎ ((code ≡ pos 0) × (scan_line s ≡ some c) × IsSide c.n_active_side)
unfolding tc_deserialize
tc_deserialize_outcome old s = accept_line-Outcome old (scan_line s)

accept_side : (old c : TimeControl) → IsSide c.n_active_side → accept_line old (some c) ≡ (c, pos 0)
unfolding accept_line
accept_side old c (inl e) = rw e refl
accept_side old c (inr (inl e)) = rw e refl
accept_side old c (inr (inr e)) = rw e refl

-- A clock whose running side is -1, 0 or 1, written into a buffer that the whole line and its NUL
-- fit into, is read back as it was, over any clock.
pub tc_deserialize-tc_serialize :
    (c old : TimeControl) (cch : ℕ)
    → IsSide c.n_active_side
    → (tc_serialize c cch).1 < cch
    → tc_deserialize old (tc_serialize c cch).0 ≡ (c, pos 0)
unfolding tc_deserialize tc_serialize
tc_deserialize-tc_serialize c old cch side fits =
    ap (λ s. accept_line old (scan_line s)) (take_all (cch - 1) (clock_line c) (omega arith))
    ∙ (ap (accept_line old) (scan_line-clock_line c) ∙ accept_side old c side)
