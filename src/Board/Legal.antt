-- ===== src/Board/Legal.antt =====
-- Legal boards, and what a sub-move does to one, engine-core/eval.c `ApplySubMove`.
use gnubg_android.Base.{
  ℕ, ◌+◌, ◌-◌, ◌≤◌, ◌<◌, ◌≡◌, refl, ◌∙◌, ap, ◌⊎◌, inl, List, get_or-set, set, length, length-set,
  ◌==◌, if◌then◌else◌, ℕ_discrete, arith,
}
use gnubg_android.Base.Int.{pos, negsuc}
use gnubg_android.Board.{TanBoard, point, u32, land}
use gnubg_android.Board.Sums.{total, pips, total-set, pips-set, pips-set_of, point-le-total}

-- No point holds chequers of both players.
abbrev pub Apart : TanBoard → Type 0
Apart b = (i : ℕ) → i < 24 → (point b.p0 (23 - i) ≡ 0) ⊎ (point b.p1 i ≡ 0)

-- Rows of 25 points, at most 15 chequers a side, no point with chequers of both.
pub record IsLegal (b : TanBoard) : Type 0 where
  pub row0 : length b.p0 ≡ 25
  pub row1 : length b.p1 ≡ 25
  pub few0 : total b.p0 ≤ 15
  pub few1 : total b.p1 ≤ 15
  pub apart : Apart b

-- What landing on point `d` adds: a chequer and its pips, and the pips of a blot that is hit.
pub record Landed (b : TanBoard) (d : ℕ) (b' : TanBoard) : Type 0 where
  pub own : total b'.p1 ≡ total b.p1 + 1
  pub own_pips : pips 0 b'.p1 ≡ pips 0 b.p1 + d + 1
  pub other : total b'.p0 ≡ total b.p0
  pub other_pips : pips 0 b'.p0 ≡ pips 0 b.p0 + (if point b.p0 (23 - d) == 0 then 0 else d + 1)
  pub row0 : length b'.p0 ≡ length b.p0
  pub row1 : length b'.p1 ≡ length b.p1
  pub apart : Apart b'

module _ (b : TanBoard) (d : ℕ) (l : length b.p0 ≡ 25) (m : length b.p1 ≡ 25) (h : d < 24)
    (fit0 : total b.p0 ≤ 15) (fit1 : total b.p1 ≤ 15) (apart : Apart b) where
  -- The three ways to land.
  pub land_free :
      point b.p0 (23 - d) ≡ 0 → land b d ≡ (record b { p1 = set b.p1 d (point b.p1 d + 1) }, pos 0)
  unfolding land
  land_free z =
      let small : u32 (point b.p1 d + 1) ≡ point b.p1 d + 1 =
        omega (arith, point-le-total b.p1 d) in
      rw small (ground arith)

  free-Landed :
      point b.p0 (23 - d) ≡ 0 → Landed b d (record b { p1 = set b.p1 d (point b.p1 d + 1) })
  free-Landed z = record {
    own = omega (arith, total-set b.p1 d (point b.p1 d + 1) (omega arith));
    own_pips = omega (arith, pips-set 0 b.p1 d (point b.p1 d + 1) (omega arith));
    other = refl;
    other_pips = ground arith;
    row0 = refl;
    row1 = length-set b.p1 d (point b.p1 d + 1);
    apart = λ i hi. elim (ℕ_discrete d i) [
      | yes e ↦ inl (rw (← e) z)
      | no ne ↦ ground (arith, apart i hi, get_or-set b.p1 d i (point b.p1 d + 1) 0 (omega arith))
    ];
  }

  -- The board after a hit.
  abbrev pub hit_board : TanBoard
  hit_board = record { p0 = set (set b.p0 (23 - d) 0) 24 (point b.p0 24 + 1); p1 = set b.p1 d 1 }

  bar-set : point (set b.p0 (23 - d) 0) 24 ≡ point b.p0 24
  bar-set = get_or-set b.p0 (23 - d) 24 0 0 (omega arith) ∙ ground arith

  pub land_hit : point b.p0 (23 - d) ≡ 1 → land b d ≡ (hit_board, pos 0)
  unfolding land
  land_hit z =
      let small : u32 (point b.p0 24 + 1) ≡ point b.p0 24 + 1 =
        omega (arith, point-le-total b.p0 24) in
      rw (bar-set, small, z) refl

  pub land_blocked : 1 < point b.p0 (23 - d) → land b d ≡ (b, negsuc 0)
  unfolding land
  land_blocked z = ground arith

  hit-Landed : point b.p0 (23 - d) ≡ 1 → Landed b d hit_board
  hit-Landed z =
      let row : List ℕ = set b.p0 (23 - d) 0 in
      let len : length row ≡ 25 = length-set b.p0 (23 - d) 0 ∙ l in
      let vacant : point b.p1 d ≡ 0 = ground (arith, apart d h) in
      record {
        own = omega (arith, total-set b.p1 d 1 (omega arith));
        own_pips = omega (arith, pips-set_of b.p1 d 0 1 (omega arith) vacant);
        other = omega (
          arith,
          total-set b.p0 (23 - d) 0 (omega arith),
          total-set row 24 (point b.p0 24 + 1) (omega arith),
          bar-set,
        );
        other_pips = rw z (
            omega (
              arith,
              pips-set_of b.p0 (23 - d) 1 0 (omega arith) z,
              pips-set_of row 24 (point b.p0 24) (point b.p0 24 + 1) (omega arith) bar-set,
            ));
        row0 = length-set row 24 (point b.p0 24 + 1) ∙ length-set b.p0 (23 - d) 0;
        row1 = length-set b.p1 d 1;
        apart = λ i hi. elim (ℕ_discrete d i) [
          | yes e ↦ inl (
              rw (← e) (
                ground (
                  arith,
                  get_or-set row 24 (23 - d) (point b.p0 24 + 1) 0 (omega arith),
                  get_or-set b.p0 (23 - d) (23 - d) 0 0 (omega arith),
                )))
          | no ne ↦ ground (
            arith,
            apart i hi,
            get_or-set row 24 (23 - i) (point b.p0 24 + 1) 0 (omega arith),
            get_or-set b.p0 (23 - d) (23 - i) 0 0 (omega arith),
            get_or-set b.p1 d i 1 0 (omega arith),
          )
        ];
      }

  -- Where landing succeeds, its effect.
  pub land-Landed : (land b d).1 ≡ pos 0 → Landed b d (land b d).0
  land-Landed ok = elim (ℕ_discrete (point b.p0 (23 - d)) 0) [
    | yes z ↦ rw (land_free z) (free-Landed z)
    | no nz ↦ elim (ℕ_discrete (point b.p0 (23 - d)) 1) [
      | yes one ↦ rw (land_hit one) (hit-Landed one)
      | no more ↦ cc (ok, ap (λ p. p.1) (land_blocked (omega arith)))
    ]
  ]

  pub land_ok : point b.p0 (23 - d) ≤ 1 → (land b d).1 ≡ pos 0
  land_ok few = elim (ℕ_discrete (point b.p0 (23 - d)) 0) [
    | yes z ↦ ap (λ p. p.1) (land_free z)
    | no nz ↦ ap (λ p. p.1) (land_hit (omega arith))
  ]
