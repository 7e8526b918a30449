-- ===== src/Clock/Mobile.antt =====
-- The clock of a game on the phone, jni-bridge/src/gnubg_mobile.c `tc_cbg` and the functions
-- `gnubg_mobile_clock_...`. Each of them does its work between taking and releasing one lock, so
-- the calls of all threads are a sequence. `clock_gettime` is a parameter: what it gives is an
-- argument of the call.
pub mod Display
mod Examples
use gnubg_android.Base.{ℕ, ◌+◌, ◌-◌, ◌*◌, ◌/◌, ◌%◌, ◌^◌, List, [], ◌∷◌, ltb, if◌then◌else◌}
use gnubg_android.Base.Int.{ℤ, pos, negsuc}
use gnubg_android.Clock.{
  TcEvent, event_none, flag_player0, flag_player1, TimeControl, tc_init, tc_settle, tc_start_turn,
  tc_pause, tc_resume, tc_state,
}

pub record Timespec : Type 0 where
  pub tv_sec : ℕ
  pub tv_nsec : ℕ

-- `(uint64_t)` of an int.
abbrev pub u64_of : ℤ → ℕ
u64_of (pos n) = n
u64_of (negsuc n) = 2 ^ 64 - 1 - n

-- `(int)` of a `uint64_t`, which keeps the low 32 bits.
abbrev pub int_of_u64 : ℕ → ℤ
int_of_u64 n =
    let low = n % 2 ^ 32 in if ltb low (2 ^ 31) then pos low else negsuc (2 ^ 32 - 1 - low)

-- `(int)` of an event.
abbrev pub int_of_event : TcEvent → ℤ
int_of_event event_none = pos 0
int_of_event flag_player0 = pos 1
int_of_event flag_player1 = pos 2

unfoldable pub tc_cbg_now : Timespec → ℕ
tc_cbg_now ts = (ts.tv_sec * 1000 + ts.tv_nsec / 1000000) % 2 ^ 64

unfoldable pub clock_arm : ℤ → ℤ → TimeControl
clock_arm delay_ms reserve_ms = tc_init (u64_of delay_ms) (u64_of reserve_ms) (u64_of reserve_ms)

unfoldable pub clock_off : TimeControl → TimeControl
clock_off tc_cbg = record tc_cbg { f_active = pos 0 }

unfoldable pub clock_hand : TimeControl → ℤ → Timespec → TimeControl × ℤ
clock_hand tc_cbg side ts =
    let (c, ev) = tc_start_turn tc_cbg side (tc_cbg_now ts) in (c, int_of_event ev)

unfoldable pub clock_settle : TimeControl → Timespec → TimeControl × ℤ
clock_settle tc_cbg ts = let (c, ev) = tc_settle tc_cbg (tc_cbg_now ts) in (c, int_of_event ev)

unfoldable pub clock_pause : TimeControl → Timespec → TimeControl × ℤ
clock_pause tc_cbg ts = let (c, ev) = tc_pause tc_cbg (tc_cbg_now ts) in (c, int_of_event ev)

unfoldable pub clock_resume : TimeControl → Timespec → TimeControl
clock_resume tc_cbg ts = tc_resume tc_cbg (tc_cbg_now ts)

-- The array `out`.
unfoldable pub clock_state : TimeControl → List ℤ
clock_state tc_cbg =
    let s = tc_state tc_cbg in
    s.f_active
    ∷ s.f_paused
    ∷ s.n_active_side
    ∷ int_of_u64 s.ms_delay_left
    ∷ int_of_u64 s.ams_reserve.p0
    ∷ int_of_u64 s.ams_reserve.p1
    ∷ s.af_flagged.p0
    ∷ s.af_flagged.p1
    ∷ []

-- The calls that the app makes while a clock is armed. `gnubg_mobile_clock_state` changes nothing.
pub data MobileCall : Type 0 where
  switch_off : MobileCall
  hand_to : ℤ → Timespec → MobileCall
  settle_now : Timespec → MobileCall
  pause_now : Timespec → MobileCall
  resume_now : Timespec → MobileCall

unfoldable pub after_call : TimeControl → MobileCall → TimeControl
after_call c switch_off = clock_off c
after_call c (hand_to side ts) = (clock_hand c side ts).0
after_call c (settle_now ts) = (clock_settle c ts).0
after_call c (pause_now ts) = (clock_pause c ts).0
after_call c (resume_now ts) = clock_resume c ts

abbrev pub after_calls : TimeControl → List MobileCall → TimeControl
after_calls c [] = c
after_calls c (call ∷ calls) = after_calls (after_call c call) calls
