-- ===== src/Clock/Turn.antt =====
-- What a turn, a pause and a row of polls charge, engine-core/timecontrol.c.
use gnubg_android.Base.{
  ℕ, zero, suc, ◌+◌, ◌-◌, ◌≡◌, true, false, ltb, leb, ◌==◌, if◌then◌else◌, arith, ◌&&◌, ◌||◌, not,
}
use gnubg_android.Base.Int.{pos, truthy}
use gnubg_android.Base.Two.{at}
use gnubg_android.Clock.{
  TcEvent, event_none, flag_player0, flag_player1, TimeControl, settle, tc_settle,
}
use gnubg_android.Clock.Run.{IsValid}

-- The flag event of a player.
abbrev pub flag_event : ℕ → TcEvent
flag_event i = if i == 0 then flag_player0 else flag_player1

-- Player `i` is to move, and the clock is running.
pub record Runs (c : TimeControl) (i : ℕ) : Type 0 where
  pub active : truthy c.f_active ≡ true
  pub unpaused : truthy c.f_paused ≡ false
  pub side : c.n_active_side ≡ pos i

-- What the rules of a tournament clock say of the time from `c` to the settling `(c', e)` at `now`.
abbrev pub Charged : TimeControl → ℕ → ℕ → TimeControl × TcEvent → Type 0
Charged c now i (c', e) =
    let elapsed = now - c.ms_last in
    let over = elapsed - c.ms_delay_left in
    let reserve = at c.ams_reserve i in
    let down = truthy (at c.af_flagged i) in
    let falls = not down && (ltb 0 over && leb reserve over) in
    (c'.ms_last ≡ c.ms_last + elapsed)
    × (c'.ms_delay_left ≡ c.ms_delay_left - elapsed)
    × (at c'.ams_reserve i ≡ reserve - over)
    × (at c'.ams_reserve (1 - i) ≡ at c.ams_reserve (1 - i))
    × (truthy (at c'.af_flagged i) ≡ (down || falls))
    × (at c'.af_flagged (1 - i) ≡ at c.af_flagged (1 - i))
    × (e ≡ (if falls then flag_event i else event_none))

module _ (c : TimeControl) (now : ℕ) (v : IsValid c) where
  charges_0 : Runs c 0 → Charged c now 0 (tc_settle c now)
  unfolding tc_settle settle
  charges_0 r = ground arith

  charges_1 : Runs c 1 → Charged c now 1 (tc_settle c now)
  unfolding tc_settle settle
  charges_1 r = ground arith

-- `tc_settle` on a clock that runs for player `i`, for any timestamp: with the time elapsed since
-- the last settling (none if the timestamp is older) the delay goes first, what is left over goes to
-- the reserve of `i`, which stops at 0; the flag of `i` falls, with its event, exactly when it was up
-- and time beyond the delay has used up the reserve. The other player's reserve and flag stay.
pub tc_settle_charges :
    (c : TimeControl) (now i : ℕ) → IsValid c → Runs c i → Charged c now i (tc_settle c now)
tc_settle_charges c now zero v r = charges_0 c now v r
tc_settle_charges c now (suc zero) v r = charges_1 c now v r
tc_settle_charges c now (suc (suc i)) v r = absurd (ground (arith, v.side, r.side))
