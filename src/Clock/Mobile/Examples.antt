-- ===== src/Clock/Mobile/Examples.antt =====
-- The clock of a game on the phone, in a few calls.
use gnubg_android.Base.{ℕ, ◌≤◌, ◌≡◌, refl, List, [], ◌∷◌, arith}
use gnubg_android.Base.Int.{pos, negsuc}
use gnubg_android.Clock.{tc_init, settle, tc_settle, tc_start_turn, tc_pause, tc_resume, tc_state}
use gnubg_android.Clock.Mobile.{
  Timespec, tc_cbg_now, clock_arm, clock_off, clock_hand, clock_settle, clock_pause, clock_resume,
  clock_state, MobileCall, switch_off, hand_to, settle_now, pause_now, resume_now, after_call,
  after_calls,
}
use gnubg_android.Clock.Mobile.Display.{clock_state_exact}

-- `s` seconds and a half.
abbrev half_past : ℕ → Timespec
half_past s = record { tv_sec = s; tv_nsec = 500000000 }

-- Player 0 plays for four seconds, a pause lasts an hour, and player 1 is polled after a second.
abbrev evening : List MobileCall
evening =
    hand_to (pos 0) (half_past 10)
    ∷ pause_now (half_past 14)
    ∷ resume_now (half_past 3614)
    ∷ hand_to (pos 1) (half_past 3614)
    ∷ settle_now (half_past 3615)
    ∷ []

shown :
    clock_state (after_calls (clock_arm (pos 3000) (pos 60000)) evening)
    ≡ pos 1 ∷ pos 0 ∷ pos 1 ∷ pos 2000 ∷ pos 59000 ∷ pos 60000 ∷ pos 0 ∷ pos 0 ∷ []
unfolding clock_state tc_state after_call clock_arm clock_hand clock_settle clock_pause clock_resume
    tc_cbg_now tc_init tc_settle tc_start_turn tc_pause tc_resume settle
shown = refl

-- A clock that is off shows the same times.
shown_off :
    clock_state (after_call (clock_arm (pos 3000) (pos 60000)) switch_off)
    ≡ pos 0 ∷ pos 0 ∷ negsuc 0 ∷ pos 0 ∷ pos 60000 ∷ pos 60000 ∷ pos 0 ∷ pos 0 ∷ []
unfolding clock_state tc_state after_call clock_arm clock_off tc_init
shown_off = refl

clock_state_exact_example :
    let c = after_calls (clock_arm (pos 3000) (pos 60000)) evening in
    (clock_state c
      ≡ c.f_active
        ∷ c.f_paused
        ∷ c.n_active_side
        ∷ pos c.ms_delay_left
        ∷ pos c.ams_reserve.p0
        ∷ pos c.ams_reserve.p1
        ∷ c.af_flagged.p0
        ∷ c.af_flagged.p1
        ∷ [])
    × (c.ms_delay_left ≤ 3000)
    × (c.ams_reserve.p0 ≤ 60000)
    × (c.ams_reserve.p1 ≤ 60000)
clock_state_exact_example = clock_state_exact evening 3000 60000 (omega arith) (omega arith)
