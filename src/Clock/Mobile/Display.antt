-- ===== src/Clock/Mobile/Display.antt =====
-- What `gnubg_mobile_clock_state` of jni-bridge/src/gnubg_mobile.c shows: its values fit an int.
use gnubg_android.Base.{ℕ, ◌^◌, ◌≤◌, ◌<◌, ◌≡◌, refl, ◌∙◌, List, [], ◌∷◌, arith}
use gnubg_android.Base.Int.{pos}
use gnubg_android.Clock.{
  TimeControl, tc_init, tc_settle, tc_start_turn, tc_pause, tc_resume, tc_state,
}
use gnubg_android.Clock.Run.{
  ClockOp, start_turn, poll, pause, resume, time_of, step, IsValid, step-IsValid, step_reserve_le,
}
use gnubg_android.Clock.Polls.{settle-Settled}
use gnubg_android.Clock.Mobile.{
  Timespec, int_of_u64, tc_cbg_now, clock_arm, clock_off, clock_hand, clock_settle, clock_pause,
  clock_resume, clock_state, MobileCall, switch_off, hand_to, settle_now, pause_now, resume_now,
  after_call, after_calls,
}

-- What the calls keep, of a clock that was armed with a delay and a reserve.
record Fits (delay reserve : ℕ) (c : TimeControl) : Type 0 where
  valid : IsValid c
  delay_set : c.ms_delay ≡ delay
  reserve0 : c.ams_reserve.p0 ≤ reserve
  reserve1 : c.ams_reserve.p1 ≤ reserve

step-delay : (c : TimeControl) (op : ClockOp) → (step c op).0.ms_delay ≡ c.ms_delay
unfolding step tc_settle tc_start_turn tc_pause tc_resume
step-delay c (start_turn side now) = ground (arith, settle-Settled c now)
step-delay c (poll now) = ground (arith, settle-Settled c now)
step-delay c (pause now) = ground (arith, settle-Settled c now)
step-delay c (resume now) = ground arith

now_fits : (ts : Timespec) → tc_cbg_now ts < 2 ^ 64
unfolding tc_cbg_now
now_fits ts = omega arith

module _ (delay reserve : ℕ) where
  step-Fits :
      (c : TimeControl) (op : ClockOp)
      → time_of op < 2 ^ 64
      → Fits delay reserve c
      → Fits delay reserve (step c op).0
  step-Fits c op h f =
      let r = step_reserve_le c op f.valid in
      record {
        valid = step-IsValid c op h f.valid;
        delay_set = step-delay c op ∙ f.delay_set;
        reserve0 = let p = f.reserve0 in omega arith;
        reserve1 = let p = f.reserve1 in omega arith;
      }

  after_call-Fits :
      (c : TimeControl) (call : MobileCall)
      → Fits delay reserve c
      → Fits delay reserve (after_call c call)
  unfolding after_call clock_off clock_hand clock_settle clock_pause clock_resume step
  after_call-Fits c switch_off f = record {
    valid = let v = f.valid in ground arith;
    delay_set = f.delay_set;
    reserve0 = f.reserve0;
    reserve1 = f.reserve1;
  }
  after_call-Fits c (hand_to side ts) f =
      step-Fits c (start_turn side (tc_cbg_now ts)) (now_fits ts) f
  after_call-Fits c (settle_now ts) f = step-Fits c (poll (tc_cbg_now ts)) (now_fits ts) f
  after_call-Fits c (pause_now ts) f = step-Fits c (pause (tc_cbg_now ts)) (now_fits ts) f
  after_call-Fits c (resume_now ts) f = step-Fits c (resume (tc_cbg_now ts)) (now_fits ts) f

  after_calls-Fits :
      (calls : List MobileCall) (c : TimeControl)
      → Fits delay reserve c
      → Fits delay reserve (after_calls c calls)
  after_calls-Fits [] c f = f
  after_calls-Fits (call ∷ calls) c f =
      after_calls-Fits calls (after_call c call) (after_call-Fits c call f)

  clock_arm-Fits :
      delay < 2 ^ 31 → reserve < 2 ^ 31 → Fits delay reserve (clock_arm (pos delay) (pos reserve))
  unfolding clock_arm tc_init
  clock_arm-Fits h k = record {
    valid = ground arith;
    delay_set = refl;
    reserve0 = omega arith;
    reserve1 = omega arith;
  }

-- The number as it is.
small_int : (n : ℕ) → n < 2 ^ 31 → int_of_u64 n ≡ pos n
small_int n h = ground arith

-- After a clock is armed with a delay and a reserve that are not negative, and after any calls at any
-- times, the eight ints that `gnubg_mobile_clock_state` shows are the state of the clock: no conversion
-- to an int changes a value. The delay left is at most the delay, and the reserves at most the reserve.
pub clock_state_exact :
    (calls : List MobileCall) (delay reserve : ℕ)
    → delay < 2 ^ 31
    → reserve < 2 ^ 31
    → let c = after_calls (clock_arm (pos delay) (pos reserve)) calls in
      (clock_state c
        ≡ c.f_active
          ∷ c.f_paused
          ∷ c.n_active_side
          ∷ pos c.ms_delay_left
          ∷ pos c.ams_reserve.p0
          ∷ pos c.ams_reserve.p1
          ∷ c.af_flagged.p0
          ∷ c.af_flagged.p1
          ∷ [])
      × (c.ms_delay_left ≤ delay)
      × (c.ams_reserve.p0 ≤ reserve)
      × (c.ams_reserve.p1 ≤ reserve)
unfolding clock_state tc_state
clock_state_exact calls delay reserve h k =
    let f =
      after_calls-Fits delay reserve calls (clock_arm (pos delay) (pos reserve))
        (clock_arm-Fits delay reserve h k) in
    let c = after_calls (clock_arm (pos delay) (pos reserve)) calls in
    let e = f.delay_set in
    let left = f.valid.delay_left in
    let r0 = f.reserve0 in
    let r1 = f.reserve1 in
    (
      rw
          (
            small_int c.ms_delay_left (omega arith),
            small_int c.ams_reserve.p0 (omega arith),
            small_int c.ams_reserve.p1 (omega arith),
          )
          refl,
      omega arith,
      r0,
      r1,
    )
