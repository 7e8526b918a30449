-- ===== src/Clock/Polls.antt =====
-- How a display polls the clock, engine-core/timecontrol.c: polls before a settling, within a turn and
-- within a pause.
use gnubg_android.Base.{
  ℕ, ◌+◌, ◌≤◌, ◌<◌, ◌≡◌, refl, sym, subst, ◌∙◌, ap, inl, inr, true, false, List, [], ◌∷◌, ◌++◌, leb,
  if◌then◌else◌, arith, map, Bool-cases,
}
use gnubg_android.Base.Int.{ℤ, pos, truthy}
use gnubg_android.Clock.{
  TcEvent, event_none, TimeControl, settle, tc_settle, tc_start_turn, tc_pause, tc_resume,
}
use gnubg_android.Clock.Settle.{first_event, first_event_none, settle-settle, ms_last-settle}
use gnubg_android.Clock.Run.{ClockOp, poll, pause, resume, start_turn, step, run, run_cons}
use gnubg_android.Clock.Turn.{Runs}

abbrev pub polls : List ℕ → List ClockOp
polls ts = map poll ts

abbrev pub AllLe : List ℕ → ℕ → Type 0
AllLe [] t = Unit {0}
AllLe (x ∷ xs) t = (x ≤ t) × AllLe xs t

-- The first event of a list that is not `event_none`.
abbrev pub first_of : List TcEvent → TcEvent
first_of [] = event_none
first_of (e ∷ es) = first_event e (first_of es)

f_active-settle : (c : TimeControl) (t : ℕ) → (settle c t).0.f_active ≡ c.f_active
unfolding settle
f_active-settle c t = ground arith

tc_settle_twice :
    (c : TimeControl) (t1 t2 : ℕ)
    → t1 ≤ t2
    → let (c1, e1) = tc_settle c t1 in
      let (c2, e2) = tc_settle c1 t2 in
      (c2 ≡ (tc_settle c t2).0) × (first_event e1 e2 ≡ (tc_settle c t2).1)
unfolding tc_settle
tc_settle_twice c t1 t2 h = elim (Bool-cases (truthy c.f_active)) [
  | inl on ↦ rw on (rw (f_active-settle c t1) (rw on (settle-settle c t1 t2 h)))
  | inr off ↦ rw off (rw off (refl, refl))
]

-- Polling at any times up to `t`, in any order, and then at `t` leaves the same clock as settling
-- once at `t`, and the first event among the polls' is the event of that one settling.
pub polls_once :
    (ts : List ℕ) (c : TimeControl) (t : ℕ)
    → AllLe ts t
    → let (c', es) = run c (polls ts ++ (poll t ∷ [])) in
      (c' ≡ (tc_settle c t).0) × (first_of es ≡ (tc_settle c t).1)
unfolding run step
polls_once [] c t h = (refl, first_event_none (tc_settle c t).1)
polls_once (x ∷ xs) c t h =
    let (state, event) = polls_once xs (tc_settle c x).0 t h.1 in
    let twice = tc_settle_twice c x t h.0 in
    (state ∙ twice.0, ap (first_event (tc_settle c x).1) event ∙ twice.1)

paused_settle :
    (c : TimeControl) (t : ℕ)
    → truthy c.f_active ≡ true
    → truthy c.f_paused ≡ true
    → tc_settle c t ≡ (record c { ms_last = if leb t c.ms_last then c.ms_last else t }, event_none)
unfolding tc_settle settle
paused_settle c t on off = ground arith

paused_polls :
    (ts : List ℕ) (c : TimeControl) (t : ℕ)
    → AllLe ts t
    → c.ms_last ≤ t
    → truthy c.f_active ≡ true
    → truthy c.f_paused ≡ true
    → let (c', es) = run c (polls ts ++ (resume t ∷ [])) in
      (c' ≡ record c { f_paused = pos 0; ms_last = t }) × (first_of es ≡ event_none)
unfolding run step tc_resume
paused_polls [] c t h l on off = ground arith
paused_polls (x ∷ xs) c t h l on off =
    subst
      (λ p. ((run p.0 rest).0 ≡ over) × (first_event p.1 (first_of (run p.0 rest).1) ≡ event_none))
      (sym (paused_settle c x on off))
      (paused_polls xs (record c { ms_last = if leb x c.ms_last then c.ms_last else x }) t h.1
        (ground arith) on off)
  where
    rest : List ClockOp
    rest = polls xs ++ (resume t ∷ [])

    over : TimeControl
    over = record c { f_paused = pos 0; ms_last = t }

-- What pausing keeps.
pub record Settled (c : TimeControl) (t : ℕ) : Type 0 where
  active : (settle c t).0.f_active ≡ c.f_active
  paused : (settle c t).0.f_paused ≡ c.f_paused
  pub delay : (settle c t).0.ms_delay ≡ c.ms_delay

pub settle-Settled : (c : TimeControl) (t : ℕ) → Settled c t
unfolding settle
settle-Settled c t = ground arith

tc_pause_running :
    (c : TimeControl) (t : ℕ)
    → truthy c.f_active ≡ true
    → c.f_paused ≡ pos 0
    → step c (pause t) ≡ (record (settle c t).0 { f_paused = pos 1 }, (settle c t).1)
unfolding step tc_pause
tc_pause_running c t on off = rw on (rw off refl)

tc_settle_active : (c : TimeControl) (t : ℕ) → truthy c.f_active ≡ true → tc_settle c t ≡ settle c t
unfolding tc_settle
tc_settle_active c t on = rw on refl

-- A clock that is paused at `t1`, polled at any times up to `t2`, and resumed at `t2` is the clock
-- settled at `t1` with its time set to `t2`: the pause is charged to nobody, and the polls in it
-- raise no event. The clock is active, not paused, and `t1` is not before its time.
pub pause_free :
    (ts : List ℕ) (c : TimeControl) (t1 t2 : ℕ)
    → AllLe ts t2
    → c.ms_last ≤ t1
    → t1 ≤ t2
    → truthy c.f_active ≡ true
    → c.f_paused ≡ pos 0
    → let (c1, e1) = tc_settle c t1 in
      let (c', es) = run c (pause t1 ∷ polls ts ++ (resume t2 ∷ [])) in
      (c' ≡ record c1 { ms_last = t2 }) × (first_of es ≡ e1)
pause_free ts c t1 t2 h l le on off =
    let keeps = settle-Settled c t1 in
    let (c1, e1) = settle c t1 in
    let paused = record c1 { f_paused = pos 1 } in
    let dated : c1.ms_last ≡ t1 = ms_last-settle c t1 l in
    let (state, event) = paused_polls ts paused t2 h (omega arith) (rw (keeps.active) on) refl in
    let kept : record c1 { f_paused = pos 0; ms_last = t2 } ≡ record c1 { ms_last = t2 } =
      ap (λ p. record c1 { f_paused = p; ms_last = t2 }) (sym (keeps.paused ∙ off)) in
    rw
      (
        tc_settle_active c t1 on,
        run_cons c (pause t1) (polls ts ++ (resume t2 ∷ [])) paused e1
            (tc_pause_running c t1 on off),
      )
      (state ∙ kept, ap (first_event e1) event ∙ first_event_none e1)

-- The clock runs for player `i`, and the delay left reaches up to `deadline`.
pub record Within (c : TimeControl) (i deadline : ℕ) : Type 0 where
  pub runs : Runs c i
  pub reach : deadline ≤ c.ms_last + c.ms_delay_left

-- What a step keeps that charges no reserve.
abbrev Free : TimeControl → TimeControl × TcEvent → Type 0
Free c (c', e) =
    (c'.ams_reserve ≡ c.ams_reserve) × (c'.af_flagged ≡ c.af_flagged) × (e ≡ event_none)

settle-Free :
    (c : TimeControl) (i deadline t : ℕ)
    → Within c i deadline
    → t ≤ deadline
    → Free c (settle c t) × Within (settle c t).0 i deadline
unfolding settle
settle-Free c i deadline t w h =
    ground (arith, w.runs.unpaused, w.runs.side, w.runs.active, w.reach)

tc_settle-Free :
    (c : TimeControl) (i deadline t : ℕ)
    → Within c i deadline
    → t ≤ deadline
    → Free c (tc_settle c t) × Within (tc_settle c t).0 i deadline
tc_settle-Free c i deadline t w h =
    rw (tc_settle_active c t w.runs.active) (settle-Free c i deadline t w h)

start_turn-Free :
    (c : TimeControl) (i deadline t : ℕ) (side : ℤ)
    → Within c i deadline
    → t ≤ deadline
    → Free c (tc_start_turn c side t)
unfolding tc_start_turn
start_turn-Free c i deadline t side w h =
    rw (w.runs.active) (ground (arith, settle-Free c i deadline t w h))

turn-Free :
    (ts : List ℕ) (c : TimeControl) (i deadline t : ℕ) (side : ℤ)
    → Within c i deadline
    → AllLe ts deadline
    → t ≤ deadline
    → let (c', es) = run c (polls ts ++ (start_turn side t ∷ [])) in Free c (c', first_of es)
unfolding run step
turn-Free [] c i deadline t side w h le =
    let (r, f, e) = start_turn-Free c i deadline t side w le in
    (r, f, ap (λ x. first_event x event_none) e)
turn-Free (x ∷ xs) c i deadline t side w h le =
    let ((r, f, e), w') = tc_settle-Free c i deadline x w h.0 in
    let later = first_of (run (tc_settle c x).0 (polls xs ++ (start_turn side t ∷ []))).1 in
    let (r', f', e') = turn-Free xs (tc_settle c x).0 i deadline t side w' h.1 le in
    (r' ∙ r, f' ∙ f, ap (λ y. first_event y later) e ∙ e')

pub begin-Within :
    (c : TimeControl) (i now : ℕ)
    → i < 2
    → truthy c.f_active ≡ true
    → truthy c.f_paused ≡ false
    → c.ms_last ≤ now
    → Within (tc_start_turn c (pos i) now).0 i (now + c.ms_delay)
unfolding tc_start_turn
begin-Within c i now lt on off l =
    rw on (ground (arith, settle-Settled c now, ms_last-settle c now l))

-- A turn of player `i` that begins at `now`, is polled at any times within the delay, and ends within
-- it, by the hand-over to `side` or to nobody, charges nothing: the reserves and the flags are as
-- they were when the turn began, and no call raises an event. The clock is active and not paused, and
-- `now` is not before its time.
pub turn_free :
    (ts : List ℕ) (c : TimeControl) (i now t : ℕ) (side : ℤ)
    → i < 2
    → truthy c.f_active ≡ true
    → truthy c.f_paused ≡ false
    → c.ms_last ≤ now
    → AllLe ts (now + c.ms_delay)
    → t ≤ now + c.ms_delay
    → let c1 = (tc_start_turn c (pos i) now).0 in
      let (c', es) = run c1 (polls ts ++ (start_turn side t ∷ [])) in
      (c'.ams_reserve ≡ c1.ams_reserve)
      × (c'.af_flagged ≡ c1.af_flagged)
      × (first_of es ≡ event_none)
turn_free ts c i now t side lt on off l h le =
    turn-Free ts (tc_start_turn c (pos i) now).0 i (now + c.ms_delay) t side
      (begin-Within c i now lt on off l) h le
