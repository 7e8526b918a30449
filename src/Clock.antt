-- ===== src/Clock.antt =====
-- The match clock, engine-core/timecontrol.c and timecontrol.h: the state and its operations.
-- A function that writes `*ptc` returns the new state beside the event.
-- `int` fields are integers, `uint64_t` fields are numbers: the code only subtracts below a test,
-- so nothing wraps.
pub mod Settle
pub mod Run
pub mod Turn
pub mod Polls
pub mod Flags
pub mod Text
pub mod Mobile
mod Examples
use gnubg_android.Base.{ℕ, ◌-◌, Bool, ◌||◌, List, [], ◌∷◌, ltb, leb, ◌==◌, if◌then◌else◌}
use gnubg_android.Base.Int.{ℤ, pos, negsuc, pos_part, truthy, is_neg}
use gnubg_android.Base.Two.{Two, at, put}

pub data TcEvent : Type 0 where
  event_none flag_player0 flag_player1 : TcEvent

pub record TimeControl : Type 0 where
  pub f_active : ℤ
  pub f_paused : ℤ
  pub n_active_side : ℤ
  pub ms_delay : ℕ
  pub ms_delay_left : ℕ
  pub ams_reserve : Two ℕ
  pub af_flagged : Two ℤ
  pub ms_last : ℕ

abbrev pub tc_players : ℕ
tc_players = 2

unfoldable pub tc_init : ℕ → ℕ → ℕ → TimeControl
tc_init delay reserve0 reserve1 = record {
  f_active = pos 1;
  f_paused = pos 0;
  n_active_side = negsuc 0;
  ms_delay = delay;
  ms_delay_left = 0;
  ams_reserve = record { p0 = reserve0; p1 = reserve1 };
  af_flagged = record { p0 = pos 0; p1 = pos 0 };
  ms_last = 0;
}

-- What `settle` does once the delay is used up: `elapsed` is what is left to charge.
charge_reserve : TimeControl → ℕ → TimeControl × TcEvent
charge_reserve c elapsed =
    let side = pos_part c.n_active_side in
    if truthy (at c.af_flagged side)
    then (c, event_none)
    else if ltb elapsed (at c.ams_reserve side)
    then (
      record c { ams_reserve = put c.ams_reserve side (at c.ams_reserve side - elapsed) },
      event_none,
    )
    else (
      record c {
        ams_reserve = put c.ams_reserve side 0;
        af_flagged = put c.af_flagged side (pos 1);
      },
      if side == 0 then flag_player0 else flag_player1,
    )

-- What `settle` does with the elapsed time.
charge : TimeControl → ℕ → TimeControl × TcEvent
unfolding charge_reserve
charge c elapsed =
    if truthy c.f_paused || is_neg c.n_active_side
    then (c, event_none)
    else if leb elapsed c.ms_delay_left
    then (record c { ms_delay_left = c.ms_delay_left - elapsed }, event_none)
    else charge_reserve (record c { ms_delay_left = 0 }) (elapsed - c.ms_delay_left)

unfoldable pub settle : TimeControl → ℕ → TimeControl × TcEvent
unfolding charge
settle c now =
    if leb now c.ms_last
    then (c, event_none)
    else charge (record c { ms_last = now }) (now - c.ms_last)

unfoldable pub tc_settle : TimeControl → ℕ → TimeControl × TcEvent
tc_settle c now = if truthy c.f_active then settle c now else (c, event_none)

-- Whose turn it is, and with what delay.
hand_over : TimeControl → ℤ → TimeControl
hand_over c side =
    if is_neg side || leb tc_players (pos_part side)
    then record c { n_active_side = negsuc 0; ms_delay_left = 0 }
    else record c { n_active_side = side; ms_delay_left = c.ms_delay }

unfoldable pub tc_start_turn : TimeControl → ℤ → ℕ → TimeControl × TcEvent
unfolding hand_over
tc_start_turn c side now =
    if truthy c.f_active
    then (let (c', ev) = settle c now in (hand_over c' side, ev))
    else (c, event_none)

unfoldable pub tc_pause : TimeControl → ℕ → TimeControl × TcEvent
tc_pause c now =
    if truthy c.f_active
    then if truthy c.f_paused
      then (c, event_none)
      else (let (c', ev) = settle c now in (record c' { f_paused = pos 1 }, ev))
    else (c, event_none)

unfoldable pub tc_resume : TimeControl → ℕ → TimeControl
tc_resume c now =
    if truthy c.f_active
    then if truthy c.f_paused
      then record c { f_paused = pos 0; ms_last = if ltb c.ms_last now then now else c.ms_last }
      else c
    else c

-- `tcstate`, the snapshot for a display.
pub record TcState : Type 0 where
  pub f_active : ℤ
  pub f_paused : ℤ
  pub n_active_side : ℤ
  pub ms_delay_left : ℕ
  pub ams_reserve : Two ℕ
  pub af_flagged : Two ℤ

unfoldable pub tc_state : TimeControl → TcState
tc_state c = record {
  f_active = c.f_active;
  f_paused = c.f_paused;
  n_active_side = c.n_active_side;
  ms_delay_left = c.ms_delay_left;
  ams_reserve = c.ams_reserve;
  af_flagged = c.af_flagged;
}
