-- ===== src/Clock/Settle.antt =====
-- Settling the elapsed time, engine-core/timecontrol.c `settle`: in one step and in several, and what
-- is charged.
use gnubg_android.Base.{
  ℕ, ◌+◌, ◌-◌, ◌≤◌, ◌<◌, ◌≡◌, refl, ◌∙◌, ◌||◌, dec_lt, le→leb, lt→not_leb, Bool-cases, true, false,
  ◌⊎◌, inl, inr, ◌==◌, arith,
}
use gnubg_android.Base.Int.{pos_part, truthy, is_neg}
use gnubg_android.Clock.{
  TcEvent, event_none, flag_player0, flag_player1, TimeControl, settle, charge, charge_reserve,
}

-- The event of two calls, the first that is not `event_none`.
abbrev pub first_event : TcEvent → TcEvent → TcEvent
first_event event_none e = e
first_event flag_player0 e = flag_player0
first_event flag_player1 e = flag_player1

pub first_event_none : (e : TcEvent) → first_event e event_none ≡ e
first_event_none event_none = refl
first_event_none flag_player0 = refl
first_event_none flag_player1 = refl

zero_or_suc : (n : ℕ) → ((n == 0) ≡ true) ⊎ ((n == 0) ≡ false)
zero_or_suc n = Bool-cases (n == 0)

-- Twice over the reserve, with the second charge dated `t`.
charge_reserve_twice :
    (c : TimeControl) (a b t : ℕ)
    → let (c1, e1) = charge_reserve c a in
      let (c2, e2) = charge_reserve (record c1 { ms_last = t }) b in
      let (d, e) = charge_reserve (record c { ms_last = t }) (a + b) in
      (c2 ≡ d) × (first_event e1 e2 ≡ e)
unfolding charge_reserve
charge_reserve_twice c a b t = elim (zero_or_suc (pos_part c.n_active_side)) [
  | inl z ↦ rw z (ground arith)
  | inr nz ↦ rw nz (ground arith)
]

-- Charging leaves everything but the reserves and the flags alone.
record SameTurn (c d : TimeControl) : Type 0 where
  active : d.f_active ≡ c.f_active
  paused : d.f_paused ≡ c.f_paused
  side : d.n_active_side ≡ c.n_active_side
  delay : d.ms_delay ≡ c.ms_delay
  delay_left : d.ms_delay_left ≡ c.ms_delay_left
  last : d.ms_last ≡ c.ms_last

charge_reserve-SameTurn : (c : TimeControl) (a : ℕ) → SameTurn c (charge_reserve c a).0
unfolding charge_reserve
charge_reserve-SameTurn c a = ground arith

charge_zero : (c : TimeControl) → charge c 0 ≡ (c, event_none)
unfolding charge
charge_zero c = ground arith

charge_idle :
    (c : TimeControl) (a : ℕ)
    → (truthy c.f_paused || is_neg c.n_active_side) ≡ true
    → charge c a ≡ (c, event_none)
unfolding charge
charge_idle c a h = rw h

charge_late :
    (c : TimeControl) (a : ℕ)
    → (truthy c.f_paused || is_neg c.n_active_side) ≡ false
    → c.ms_delay_left < a
    → charge c a ≡ charge_reserve (record c { ms_delay_left = 0 }) (a - c.ms_delay_left)
unfolding charge
charge_late c a h l = rw h (ground arith)

charge_early :
    (c : TimeControl) (a : ℕ)
    → (truthy c.f_paused || is_neg c.n_active_side) ≡ false
    → a ≤ c.ms_delay_left
    → charge c a ≡ (record c { ms_delay_left = c.ms_delay_left - a }, event_none)
unfolding charge
charge_early c a h l = rw h (ground arith)

charge_drained :
    (c : TimeControl) (a : ℕ)
    → (truthy c.f_paused || is_neg c.n_active_side) ≡ false
    → c.ms_delay_left ≡ 0
    → 0 < a
    → charge c a ≡ charge_reserve c a
charge_drained c a live z pos_a = charge_late c a live (omega arith) ∙ (ground arith)

-- Two charges, the second dated `t`, are one charge of the sum.
abbrev Splits : TimeControl → ℕ → ℕ → ℕ → Type 0
Splits c a b t =
    let (c1, e1) = charge c a in
    let (c2, e2) = charge (record c1 { ms_last = t }) b in
    let (d, e) = charge (record c { ms_last = t }) (a + b) in (c2 ≡ d) × (first_event e1 e2 ≡ e)

module _ (c : TimeControl) (a b t : ℕ) (hb : 0 < b) where
  charge_twice_idle : (truthy c.f_paused || is_neg c.n_active_side) ≡ true → Splits c a b t
  charge_twice_idle idle =
      rw
        (
          charge_idle c a idle,
          charge_idle (record c { ms_last = t }) b idle,
          charge_idle (record c { ms_last = t }) (a + b) idle,
        )
        (refl, refl)

  module _ (live : (truthy c.f_paused || is_neg c.n_active_side) ≡ false) where
    both_early : a + b ≤ c.ms_delay_left → Splits c a b t
    both_early h = rw (charge_early c a live (omega arith)) (
        rw
          (charge_early (record c { ms_last = t; ms_delay_left = c.ms_delay_left - a }) b live
            (omega arith))
          (rw (charge_early (record c { ms_last = t }) (a + b) live h) (ground arith)))

    between : a ≤ c.ms_delay_left → c.ms_delay_left < a + b → Splits c a b t
    between h k = rw (charge_early c a live h) (
        rw
          (charge_late (record c { ms_last = t; ms_delay_left = c.ms_delay_left - a }) b live
            (omega arith))
          (rw (charge_late (record c { ms_last = t }) (a + b) live k) (ground arith)))

    both_late : c.ms_delay_left < a → Splits c a b t
    both_late h =
        let s = charge_reserve-SameTurn (record c { ms_delay_left = 0 }) (a - c.ms_delay_left) in
        let c1 = (charge_reserve (record c { ms_delay_left = 0 }) (a - c.ms_delay_left)).0 in
        rw (charge_late c a live h) (
          rw
            (charge_drained (record c1 { ms_last = t }) b (rw (s.paused, s.side) live) s.delay_left
              hb)
            (rw (charge_late (record c { ms_last = t }) (a + b) live (omega arith)) (
              rw sum at
                (charge_reserve_twice (record c { ms_delay_left = 0 }) (a - c.ms_delay_left) b t))))
      where
        sum : a - c.ms_delay_left + b ≡ a + b - c.ms_delay_left
        sum = omega arith

charge_twice : (c : TimeControl) (a b t : ℕ) → 0 < b → Splits c a b t
charge_twice c a b t hb = elim (Bool-cases (truthy c.f_paused || is_neg c.n_active_side)) [
  | inl idle ↦ charge_twice_idle c a b t hb idle
  | inr live ↦ elim (dec_lt c.ms_delay_left a) [
    | yes late ↦ both_late c a b t hb live late
    | no early ↦ elim (dec_lt c.ms_delay_left (a + b)) [
      | yes k ↦ between c a b t hb live (omega arith) k
      | no k ↦ both_early c a b t hb live (omega arith)
    ]
  ]
]

ms_last-charge : (c : TimeControl) (a : ℕ) → (charge c a).0.ms_last ≡ c.ms_last
unfolding charge charge_reserve
ms_last-charge c a = ground arith

settle_stale : (c : TimeControl) (now : ℕ) → now ≤ c.ms_last → settle c now ≡ (c, event_none)
unfolding settle
settle_stale c now h = rw (le→leb _ _ h)

settle_fresh :
    (c : TimeControl) (now : ℕ)
    → c.ms_last < now
    → settle c now ≡ charge (record c { ms_last = now }) (now - c.ms_last)
unfolding settle
settle_fresh c now h = rw (lt→not_leb _ _ h)

pub ms_last-settle : (c : TimeControl) (now : ℕ) → c.ms_last ≤ now → (settle c now).0.ms_last ≡ now
ms_last-settle c now h = elim (dec_lt c.ms_last now) [
  | yes lt ↦
      rw (settle_fresh c now lt) (ms_last-charge (record c { ms_last = now }) (now - c.ms_last))
  | no ge ↦ rw (settle_stale c now (omega arith)) (omega arith)
]

module _ (c : TimeControl) (t1 t2 : ℕ) (fresh : c.ms_last < t1) (later : t1 < t2) where
  settle-settle_later :
      let (c1, e1) = settle c t1 in
      let (c2, e2) = settle c1 t2 in (c2 ≡ (settle c t2).0) × (first_event e1 e2 ≡ (settle c t2).1)
  settle-settle_later =
      let a : ℕ = t1 - c.ms_last in
      let c1 = (charge (record c { ms_last = t1 }) a).0 in
      let dated : c1.ms_last ≡ t1 = ms_last-charge (record c { ms_last = t1 }) a in
      let sum : a + (t2 - t1) ≡ t2 - c.ms_last = omega arith in
      rw (settle_fresh c t1 fresh) (
        rw (settle_fresh c1 t2 (omega arith)) (
          rw (settle_fresh c t2 (omega arith)) (
            rw (dated, ← sum)
              (charge_twice (record c { ms_last = t1 }) a (t2 - t1) t2 (omega arith)))))

-- Settling at `t1` and then at `t2` is settling once at `t2`.
pub settle-settle :
    (c : TimeControl) (t1 t2 : ℕ)
    → t1 ≤ t2
    → let (c1, e1) = settle c t1 in
      let (c2, e2) = settle c1 t2 in (c2 ≡ (settle c t2).0) × (first_event e1 e2 ≡ (settle c t2).1)
settle-settle c t1 t2 h = elim (dec_lt c.ms_last t1) [
  | no stale ↦ rw (settle_stale c t1 (omega arith)) (refl, refl)
  | yes fresh ↦ elim (dec_lt t1 t2) [
    | no same ↦
        let e : t2 ≡ t1 = omega arith in
        rw e (
          rw
            (settle_stale (settle c t1).0 t1 (
              let l : (settle c t1).0.ms_last ≡ t1 = ms_last-settle c t1 (omega arith) in
              omega arith))
            (refl, first_event_none (settle c t1).1))
    | yes later ↦ settle-settle_later c t1 t2 fresh later
  ]
]
