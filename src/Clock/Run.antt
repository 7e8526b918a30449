-- ===== src/Clock/Run.antt =====
-- Sequences of calls of the clock, engine-core/timecontrol.c, and what holds along them.
use gnubg_android.Base.{
  ℕ, zero, suc, if◌then◌else◌, ◌+◌, ◌^◌, ◌≤◌, ◌<◌, ◌≡◌, ap, ◌⊎◌, true, List, [], ◌∷◌, arith,
}
use gnubg_android.Base.Int.{ℤ, pos, negsuc, truthy}
use gnubg_android.Clock.{
  TcEvent, event_none, flag_player0, flag_player1, TimeControl, settle, tc_settle, tc_start_turn,
  tc_pause, tc_resume,
}

-- A call of the clock, with its arguments.
pub data ClockOp : Type 0 where
  start_turn : ℤ → ℕ → ClockOp
  poll : ℕ → ClockOp
  pause : ℕ → ClockOp
  resume : ℕ → ClockOp

unfoldable pub step : TimeControl → ClockOp → TimeControl × TcEvent
step c (start_turn side now) = tc_start_turn c side now
step c (poll now) = tc_settle c now
step c (pause now) = tc_pause c now
step c (resume now) = (tc_resume c now, event_none)

-- The state after a list of calls, and the events that they returned.
unfoldable pub run : TimeControl → List ClockOp → TimeControl × List TcEvent
run c [] = (c, [])
run c (op ∷ ops) = let (c1, e) = step c op in let (c2, es) = run c1 ops in (c2, e ∷ es)

-- A run whose first call is known.
pub run_cons :
    (c : TimeControl) (op : ClockOp) (ops : List ClockOp) (c1 : TimeControl) (e : TcEvent)
    → step c op ≡ (c1, e)
    → run c (op ∷ ops) ≡ ((run c1 ops).0, e ∷ (run c1 ops).1)
unfolding run
run_cons c op ops c1 e h = ap (λ p. ((run p.0 ops).0, p.1 ∷ (run p.0 ops).1)) h

-- 1 if an event is of the given kind.
abbrev pub is_event : TcEvent → TcEvent → ℕ
is_event flag_player0 flag_player0 = 1
is_event flag_player1 flag_player1 = 1
is_event event_none event_none = 1
is_event _ _ = 0

-- The timestamp of a call.
abbrev pub time_of : ClockOp → ℕ
time_of (start_turn side now) = now
time_of (poll now) = now
time_of (pause now) = now
time_of (resume now) = now

-- What the calls keep: the running side is a player or nobody, the delay left is within the
-- delay, a fallen flag goes with an empty reserve, and every `uint64_t` is in range.
pub record IsValid (c : TimeControl) : Type 0 where
  pub side : (c.n_active_side ≡ negsuc 0) ⊎ ((c.n_active_side ≡ pos 0) ⊎ (c.n_active_side ≡ pos 1))
  pub delay_left : c.ms_delay_left ≤ c.ms_delay
  pub empty0 : truthy c.af_flagged.p0 ≡ true → c.ams_reserve.p0 ≡ 0
  pub empty1 : truthy c.af_flagged.p1 ≡ true → c.ams_reserve.p1 ≡ 0
  pub delay_fits : c.ms_delay < 2 ^ 64
  pub fits0 : c.ams_reserve.p0 < 2 ^ 64
  pub fits1 : c.ams_reserve.p1 < 2 ^ 64
  pub last_fits : c.ms_last < 2 ^ 64

settle-IsValid : (c : TimeControl) (now : ℕ) → now < 2 ^ 64 → IsValid c → IsValid (settle c now).0
unfolding settle
settle-IsValid c now h v = ground arith

pub tc_start_turn-IsValid :
    (c : TimeControl) (side : ℤ) (now : ℕ)
    → now < 2 ^ 64
    → IsValid c
    → IsValid (tc_start_turn c side now).0
unfolding tc_start_turn
tc_start_turn-IsValid c (pos zero) now h v = ground (arith, settle-IsValid c now h v)
tc_start_turn-IsValid c (pos (suc zero)) now h v = ground (arith, settle-IsValid c now h v)
tc_start_turn-IsValid c (pos (suc (suc n))) now h v = ground (arith, settle-IsValid c now h v)
tc_start_turn-IsValid c (negsuc n) now h v = ground (arith, settle-IsValid c now h v)

-- Every call keeps the invariant, at timestamps that fit in a `uint64_t`.
pub step-IsValid :
    (c : TimeControl) (op : ClockOp) → time_of op < 2 ^ 64 → IsValid c → IsValid (step c op).0
unfolding step tc_settle tc_pause tc_resume
step-IsValid c (start_turn side now) h v = tc_start_turn-IsValid c side now h v
step-IsValid c (poll now) h v = ground (arith, settle-IsValid c now h v)
step-IsValid c (pause now) h v = ground (arith, settle-IsValid c now h v)
step-IsValid c (resume now) h v = ground arith

-- The number of events of a kind.
abbrev pub count : TcEvent → List TcEvent → ℕ
count e [] = 0
count e (x ∷ xs) = is_event e x + count e xs

-- The flag of a player, as a number.
abbrev pub raised : ℤ → ℕ
raised f = if truthy f then 1 else 0

settle-flags :
    (c : TimeControl) (now : ℕ)
    → IsValid c
    → let (c', e) = settle c now in
      (raised c'.af_flagged.p0 ≡ raised c.af_flagged.p0 + is_event flag_player0 e)
      × (raised c'.af_flagged.p1 ≡ raised c.af_flagged.p1 + is_event flag_player1 e)
unfolding settle
settle-flags c now v = ground arith

step-flags :
    (c : TimeControl) (op : ClockOp)
    → IsValid c
    → let (c', e) = step c op in
      (raised c'.af_flagged.p0 ≡ raised c.af_flagged.p0 + is_event flag_player0 e)
      × (raised c'.af_flagged.p1 ≡ raised c.af_flagged.p1 + is_event flag_player1 e)
unfolding step tc_settle tc_start_turn tc_pause tc_resume
step-flags c (start_turn side now) v = ground (arith, settle-flags c now v)
step-flags c (poll now) v = ground (arith, settle-flags c now v)
step-flags c (pause now) v = ground (arith, settle-flags c now v)
step-flags c (resume now) v = ground arith

-- The timestamps of the calls fit in a `uint64_t`.
abbrev pub AllFit : List ClockOp → Type 0
AllFit [] = Unit {0}
AllFit (op ∷ ops) = (time_of op < 2 ^ 64) × AllFit ops

-- Any calls of the clock keep the invariant: the running side is a player or nobody, the delay left
-- is at most the delay, a player whose flag has fallen has an empty reserve, and the delay, the
-- reserves and the last timestamp stay below 2^64. The timestamps are below 2^64; they may decrease.
pub run-IsValid :
    (ops : List ClockOp) (c : TimeControl) → AllFit ops → IsValid c → IsValid (run c ops).0
unfolding run
run-IsValid [] c fit v = v
run-IsValid (op ∷ ops) c fit v = run-IsValid ops (step c op).0 fit.1 (step-IsValid c op fit.0 v)

raised-le-one : (f : ℤ) → raised f ≤ 1
raised-le-one f = ground arith

run-flags :
    (ops : List ClockOp) (c : TimeControl)
    → AllFit ops
    → IsValid c
    → let (c', es) = run c ops in
      (raised c'.af_flagged.p0 ≡ raised c.af_flagged.p0 + count flag_player0 es)
      × (raised c'.af_flagged.p1 ≡ raised c.af_flagged.p1 + count flag_player1 es)
unfolding run
run-flags [] c fit v = omega arith
run-flags (op ∷ ops) c fit v =
    let now = step-flags c op v in
    let later = run-flags ops (step c op).0 fit.1 (step-IsValid c op fit.0 v) in
    (omega arith, omega arith)

-- Over any calls with timestamps below 2^64, from a state that meets the invariant, each player's
-- flag event is returned at most once. It is returned exactly when the flag goes from down to up:
-- a flag that is up stays up, and its event does not come again.
pub run_flags_once :
    (ops : List ClockOp) (c : TimeControl)
    → AllFit ops
    → IsValid c
    → let (c', es) = run c ops in
      (count flag_player0 es ≤ 1)
      × (count flag_player1 es ≤ 1)
      × (raised c'.af_flagged.p0 ≡ raised c.af_flagged.p0 + count flag_player0 es)
      × (raised c'.af_flagged.p1 ≡ raised c.af_flagged.p1 + count flag_player1 es)
run_flags_once ops c fit v =
    let f = run-flags ops c fit v in
    let b0 = raised-le-one (run c ops).0.af_flagged.p0 in
    let b1 = raised-le-one (run c ops).0.af_flagged.p1 in (omega arith, omega arith, f.0, f.1)

settle_reserve_le :
    (c : TimeControl) (now : ℕ)
    → IsValid c
    → ((settle c now).0.ams_reserve.p0 ≤ c.ams_reserve.p0)
      × ((settle c now).0.ams_reserve.p1 ≤ c.ams_reserve.p1)
      × (c.ms_last ≤ (settle c now).0.ms_last)
unfolding settle
settle_reserve_le c now v = ground arith

pub step_reserve_le :
    (c : TimeControl) (op : ClockOp)
    → IsValid c
    → ((step c op).0.ams_reserve.p0 ≤ c.ams_reserve.p0)
      × ((step c op).0.ams_reserve.p1 ≤ c.ams_reserve.p1)
      × (c.ms_last ≤ (step c op).0.ms_last)
unfolding step tc_settle tc_start_turn tc_pause tc_resume
step_reserve_le c (start_turn side now) v = ground (arith, settle_reserve_le c now v)
step_reserve_le c (poll now) v = ground (arith, settle_reserve_le c now v)
step_reserve_le c (pause now) v = ground (arith, settle_reserve_le c now v)
step_reserve_le c (resume now) v = ground arith

-- Over any calls with timestamps below 2^64, decreasing ones included, from a state that meets the
-- invariant, no reserve grows or wraps, and the clock's own time does not go back.
run_reserve_le :
    (ops : List ClockOp) (c : TimeControl)
    → AllFit ops
    → IsValid c
    → let c' = (run c ops).0 in
      (c'.ams_reserve.p0 ≤ c.ams_reserve.p0)
      × (c'.ams_reserve.p1 ≤ c.ams_reserve.p1)
      × (c.ms_last ≤ c'.ms_last)
unfolding run
run_reserve_le [] c fit v = omega arith
run_reserve_le (op ∷ ops) c fit v =
    let now = step_reserve_le c op v in
    let later = run_reserve_le ops (step c op).0 fit.1 (step-IsValid c op fit.0 v) in
    (omega arith, omega arith, omega arith)
