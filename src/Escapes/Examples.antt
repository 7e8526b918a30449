-- ===== src/Escapes/Examples.antt =====
-- A prime, and the rolls that escape it.
use gnubg_android.Base.{◌+◌, ◌≡◌, refl, ◌&&◌, List, [], ◌∷◌, ℕ, arith}
use gnubg_android.Escapes.{
  row_count, table_count, an_escapes, point_bits, escapes, low_bit, an_escapes1, escapes1,
}
use gnubg_android.Escapes.Counted.{rolls_that, free_roll, passed, escapes_counted}

-- Five points in a row, from the fourth to the eighth, and the rest of the chequers on the bar.
abbrev prime : List ℕ
prime =
    0 ∷ 0 ∷ 0 ∷ 2 ∷ 2 ∷ 2 ∷ 2 ∷ 2 ∷ 0 ∷ 0 ∷ 0 ∷ 0 ∷ 0 ∷ 0 ∷ 0 ∷ 0 ∷ 0 ∷ 0 ∷ 0 ∷ 0 ∷ 0 ∷ 0 ∷ 0 ∷ 0
    ∷ 5 ∷ []

-- From the edge of the prime the rolls with a six escape.
at_the_edge : (escapes prime 21 ≡ 11) × (escapes1 prime 21 ≡ 11)
unfolding escapes an_escapes escapes1 an_escapes1 point_bits low_bit row_count table_count
at_the_edge = (refl, refl)

-- With no point ahead every roll is free, and none passes a point.
nothing_ahead : (escapes prime 8 ≡ 36) × (escapes1 prime 8 ≡ 0)
unfolding escapes an_escapes escapes1 an_escapes1 point_bits low_bit row_count table_count
nothing_ahead = (refl, refl)

escapes_counted_example :
    (escapes prime 21 ≡ rolls_that (free_roll prime 21))
    × (escapes1 prime 21
        ≡ rolls_that (λ d0 d1. passed prime 21 (d0 + d1) && free_roll prime 21 d0 d1))
escapes_counted_example = escapes_counted prime 21 (omega arith) (omega arith)
