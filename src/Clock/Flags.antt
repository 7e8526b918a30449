-- ===== src/Clock/Flags.antt =====
-- When a flag falls in a turn, engine-core/timecontrol.c.
use gnubg_android.Base.{
  ℕ, zero, suc, ◌+◌, ◌-◌, ◌^◌, ◌≤◌, ◌<◌, ◌≡◌, ◌∙◌, ap, ap₂, Bool, true, false, not, ◌&&◌, ◌||◌,
  List, [], ◌∷◌, ◌++◌, ltb, leb, if◌then◌else◌, arith,
}
use gnubg_android.Base.Int.{pos, truthy}
use gnubg_android.Base.Two.{at}
use gnubg_android.Clock.{event_none, TimeControl, tc_settle, tc_start_turn}
use gnubg_android.Clock.Settle.{ms_last-settle}
use gnubg_android.Clock.Run.{run, poll, IsValid, tc_start_turn-IsValid}
use gnubg_android.Clock.Turn.{Runs, Charged, flag_event, tc_settle_charges}
use gnubg_android.Clock.Polls.{polls, AllLe, first_of, polls_once, settle-Settled, begin-Within}

-- Whether the delay and the reserve of a turn that began at `now` are used up at `t`.
abbrev pub used_up : ℕ → ℕ → ℕ → ℕ → Bool
used_up now delay reserve t = ltb (now + delay) t && leb (now + delay + reserve) t

-- The clock at the beginning of a turn.
record Begun (c c1 : TimeControl) (i now : ℕ) : Type 0 where
  runs : Runs c1 i
  dated : c1.ms_last ≡ now
  full : c1.ms_delay_left ≡ c.ms_delay

delay_full :
    (c : TimeControl) (i now : ℕ)
    → i < 2
    → truthy c.f_active ≡ true
    → (tc_start_turn c (pos i) now).0.ms_delay_left ≡ c.ms_delay
unfolding tc_start_turn
delay_full c zero now h on = rw on ((settle-Settled c now).delay)
delay_full c (suc zero) now h on = rw on ((settle-Settled c now).delay)
delay_full c (suc (suc i)) now h on = absurd (omega arith)

tc_start_turn-Begun :
    (c : TimeControl) (i now : ℕ)
    → i < 2
    → truthy c.f_active ≡ true
    → truthy c.f_paused ≡ false
    → c.ms_last ≤ now
    → Begun c (tc_start_turn c (pos i) now).0 i now
unfolding tc_start_turn
tc_start_turn-Begun c i now h on off l = record {
  runs = (begin-Within c i now h on off l).runs;
  dated = rw on (ground (arith, ms_last-settle c now l));
  full = delay_full c i now h on;
}

tests :
    (now delay reserve t : ℕ)
    → (ltb 0 (t - now - delay) && leb reserve (t - now - delay)) ≡ used_up now delay reserve t
tests now delay reserve t = ground arith

-- The test of `Charged`, on a flag that is up.
falls_now :
    (now delay reserve t over : ℕ) (down : Bool)
    → over ≡ t - now - delay
    → down ≡ false
    → ((down || (not down && (ltb 0 over && leb reserve over))) ≡ used_up now delay reserve t)
      × ((not down && (ltb 0 over && leb reserve over)) ≡ used_up now delay reserve t)
falls_now now delay reserve t over down e up =
    rw (up, e) (tests now delay reserve t, tests now delay reserve t)

-- A turn of player `i`, whose flag is up, begins at `now`, and the clock is polled at any times up to
-- `t` and then at `t`, with no other call: once more than the delay has passed, and all the reserve
-- beyond it, the flag of `i` has fallen, and the first event of the polls was its event; before, the
-- flag is up and no poll has raised an event. What has passed beyond the delay is off the reserve.
-- The clock meets the invariant, is active and not paused, and `now` is below 2^64 and not before its
-- time.
pub flag_falls :
    (ts : List ℕ) (c : TimeControl) (i now t : ℕ)
    → IsValid c
    → i < 2
    → truthy c.f_active ≡ true
    → truthy c.f_paused ≡ false
    → c.ms_last ≤ now
    → now < 2 ^ 64
    → truthy (at (tc_start_turn c (pos i) now).0.af_flagged i) ≡ false
    → AllLe ts t
    → let c1 = (tc_start_turn c (pos i) now).0 in
      let reserve = at c1.ams_reserve i in
      let (c', es) = run c1 (polls ts ++ (poll t ∷ [])) in
      (first_of es ≡ (if used_up now c.ms_delay reserve t then flag_event i else event_none))
      × (truthy (at c'.af_flagged i) ≡ used_up now c.ms_delay reserve t)
      × (at c'.ams_reserve i ≡ reserve - (t - now - c.ms_delay))
flag_falls ts c i now t v h on off l fits up before =
    let c1 = (tc_start_turn c (pos i) now).0 in
    let b = tc_start_turn-Begun c i now h on off l in
    let (state, event) = polls_once ts c1 t before in
    let charged : Charged c1 t i (tc_settle c1 t) =
      tc_settle_charges c1 t i (tc_start_turn-IsValid c (pos i) now fits v) b.runs in
    let over : t - c1.ms_last - c1.ms_delay_left ≡ t - now - c.ms_delay =
      ap₂ (λ x y. t - x - y) b.dated b.full in
    let (_, _, taken, _, down, _, raised) = charged in
    let (fallen, falls) = falls_now now c.ms_delay (at c1.ams_reserve i) t _ _ over up in
    (
      event ∙ (raised ∙ ap (λ f. if f then flag_event i else event_none) falls),
      ap (λ (k : TimeControl). truthy (at k.af_flagged i)) state ∙ (down ∙ fallen),
      ap (λ (k : TimeControl). at k.ams_reserve i) state
          ∙ (taken ∙ ap (λ x. at c1.ams_reserve i - x) over),
    )
