-- ===== src/Clock/Examples.antt =====
-- The theorems about the clock at concrete inputs, and runs of the code.
use gnubg_android.Base.{
  ◌+◌, ◌-◌, if◌then◌else◌, false, ◌≤◌, ◌≡◌, refl, ◌⊎◌, inl, inr, some, List, [], ◌∷◌, ◌++◌, arith,
}
use gnubg_android.Base.Int.{pos, negsuc, truthy}
use gnubg_android.Base.Two.{at}
use gnubg_android.Base.Decimal.{print_d}
use gnubg_android.Clock.{
  event_none, flag_player0, flag_player1, TimeControl, tc_init, settle, tc_settle, tc_start_turn,
}
use gnubg_android.Clock.Run.{
  ClockOp, start_turn, poll, pause, resume, step, run, IsValid, count, raised, run-IsValid,
  run_flags_once,
}
use gnubg_android.Clock.Turn.{Runs, flag_event, Charged, tc_settle_charges}
use gnubg_android.Clock.Polls.{polls, first_of, polls_once, pause_free, turn_free}
use gnubg_android.Clock.Flags.{used_up, flag_falls}
use gnubg_android.Clock.Text.{
  tc_serialize, tc_deserialize, scan_line, tc_deserialize-tc_serialize, tc_deserialize_outcome,
  IsSide,
}

-- Player 0 to move since 1000, with one second of delay and five of reserve.
abbrev ticking : TimeControl
ticking = record {
  f_active = pos 1;
  f_paused = pos 0;
  n_active_side = pos 0;
  ms_delay = 1000;
  ms_delay_left = 1000;
  ams_reserve = record { p0 = 5000; p1 = 8000 };
  af_flagged = record { p0 = pos 0; p1 = pos 0 };
  ms_last = 1000;
}

ticking_starts : (tc_start_turn (tc_init 1000 5000 8000) (pos 0) 1000).0 ≡ ticking
unfolding tc_init tc_start_turn settle
ticking_starts = refl

ticking-IsValid : IsValid ticking
ticking-IsValid = ground arith

ticking-Runs : Runs ticking 0
ticking-Runs = record { active = refl; unpaused = refl; side = refl }

-- One millisecond before the flag, the flag, and a poll after it.
abbrev flag_script : List ClockOp
flag_script = poll 6999 ∷ poll 7000 ∷ poll 9000 ∷ start_turn (pos 1) 9000 ∷ []

flag_script_events :
    (run ticking flag_script).1 ≡ event_none ∷ flag_player0 ∷ event_none ∷ event_none ∷ []
unfolding run step tc_settle tc_start_turn settle
flag_script_events = refl

run-IsValid_example : IsValid (run ticking flag_script).0
run-IsValid_example = run-IsValid flag_script ticking (omega arith) ticking-IsValid

run_flags_once_example :
    let (c', es) = run ticking flag_script in
    (count flag_player0 es ≤ 1)
    × (count flag_player1 es ≤ 1)
    × (raised c'.af_flagged.p0 ≡ 0 + count flag_player0 es)
    × (raised c'.af_flagged.p1 ≡ 0 + count flag_player1 es)
run_flags_once_example = run_flags_once flag_script ticking (omega arith) ticking-IsValid

tc_settle_charges_example : Charged ticking 4000 0 (tc_settle ticking 4000)
tc_settle_charges_example = tc_settle_charges ticking 4000 0 ticking-IsValid ticking-Runs

polls_once_example :
    let (c', es) = run ticking (polls (1500 ∷ 3000 ∷ 2000 ∷ []) ++ (poll 9000 ∷ [])) in
    (c' ≡ (tc_settle ticking 9000).0) × (first_of es ≡ (tc_settle ticking 9000).1)
polls_once_example = polls_once (1500 ∷ 3000 ∷ 2000 ∷ []) ticking 9000 (omega arith)

pause_free_example :
    let (c1, e1) = tc_settle ticking 3000 in
    let (c', es) = run ticking (pause 3000 ∷ polls (4000 ∷ 5000 ∷ []) ++ (resume 60000 ∷ [])) in
    (c' ≡ record c1 { ms_last = 60000 }) × (first_of es ≡ e1)
pause_free_example =
    pause_free (4000 ∷ 5000 ∷ []) ticking 3000 60000 (omega arith) (omega arith) (omega arith) refl
      refl

turn_free_example :
    let c1 = (tc_start_turn ticking (pos 1) 1500).0 in
    let (c', es) = run c1 (polls (1600 ∷ 2499 ∷ []) ++ (start_turn (pos 0) 2500 ∷ [])) in
    (c'.ams_reserve ≡ c1.ams_reserve) × (c'.af_flagged ≡ c1.af_flagged) × (first_of es ≡ event_none)
turn_free_example =
    turn_free (1600 ∷ 2499 ∷ []) ticking 1 1500 2500 (pos 0) (omega arith) refl refl (omega arith)
      (omega arith) (omega arith)

tc_deserialize-tc_serialize_example :
    tc_deserialize (tc_init 0 0 0) (tc_serialize ticking 256).0 ≡ (ticking, pos 0)
unfolding tc_serialize print_d
tc_deserialize-tc_serialize_example =
    tc_deserialize-tc_serialize ticking (tc_init 0 0 0) 256 (inr (inl refl)) (omega arith)

tc_deserialize_outcome_example :
    let (c, code) = tc_deserialize ticking (b't' ∷ b'c' ∷ []) in
    ((code ≡ negsuc 0) × (c ≡ ticking))
    ⊎ ((code ≡ pos 0) × (scan_line (b't' ∷ b'c' ∷ []) ≡ some c) × IsSide c.n_active_side)
tc_deserialize_outcome_example = tc_deserialize_outcome ticking (b't' ∷ b'c' ∷ [])

flag_up : truthy (at (tc_start_turn ticking (pos 0) 1000).0.af_flagged 0) ≡ false
unfolding tc_start_turn settle
flag_up = refl

-- The turn that began at 1000 has a second of delay and five of reserve: polled at 1500, 3000 and 9000.
flag_falls_example :
    let c1 = (tc_start_turn ticking (pos 0) 1000).0 in
    let reserve = at c1.ams_reserve 0 in
    let (c', es) = run c1 (polls (1500 ∷ 3000 ∷ []) ++ (poll 9000 ∷ [])) in
    (first_of es ≡ (if used_up 1000 1000 reserve 9000 then flag_event 0 else event_none))
    × (truthy (at c'.af_flagged 0) ≡ used_up 1000 1000 reserve 9000)
    × (at c'.ams_reserve 0 ≡ reserve - (9000 - 1000 - 1000))
flag_falls_example =
    flag_falls (1500 ∷ 3000 ∷ []) ticking 0 1000 9000 ticking-IsValid (omega arith) refl refl
      (omega arith) (omega arith) flag_up (omega arith)
