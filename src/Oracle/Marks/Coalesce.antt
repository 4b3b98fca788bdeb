-- ===== src/Oracle/Marks/Coalesce.antt =====
-- oracle/src/services/mark-publisher/coalesced-tick.ts: triggers from several sources become
-- ticks, one at a time.
--
-- The state is that of the closure, and of the event loop as far as it belongs to the closure:
-- the timers that are armed and the ticks whose promise has not settled. Timers are numbered as
-- they are made.
use irsforge.Base.{
  ℕ, suc, ◌-◌, ◌≡◌, Option, none, some, List, [], ◌∷◌, Bool, true, false, not, ◌&&◌, eqb,
  if◌then◌else◌, filter,
}
use mathlib.Core.List.{Memᴰ}
pub mod Laws

pub record Coalesced : Type 0 where
  pub running : Bool
  pub queued : Bool
  pub pending_timer : Option ℕ
  pub stopped : Bool
  pub timers : List ℕ
  pub in_flight : ℕ
  pub next_timer : ℕ

abbrev pub idle : Coalesced
idle = record {
  running = false;
  queued = false;
  pending_timer = none;
  stopped = false;
  timers = [];
  in_flight = 0;
  next_timer = 0;
}

-- `clearTimeout`
abbrev pub clear : Option ℕ → List ℕ → List ℕ
clear none ts = ts
clear (some t) ts = filter (λ u. not (eqb u t)) ts

abbrev armed : Coalesced → Coalesced
armed s = record s {
  pending_timer = some s.next_timer;
  timers = s.next_timer ∷ clear s.pending_timer s.timers;
  next_timer = suc s.next_timer;
}

unfoldable pub trigger : Coalesced → Coalesced
trigger s = if s.stopped then s else if s.running then record s { queued = true } else armed s

-- The callback of the timer `t`, up to the first wait: the timer is spent, and a tick runs.
unfoldable pub fire : ℕ → Coalesced → Coalesced
fire t s = record s {
  pending_timer = none;
  timers = filter (λ u. not (eqb u t)) s.timers;
  running = true;
  in_flight = suc s.in_flight;
}

-- `finally`, when the tick's promise settles, either way.
unfoldable pub finish : Coalesced → Coalesced
unfolding trigger
finish s =
    let done = record s { running = false; in_flight = s.in_flight - 1 } in
    if s.queued && not s.stopped then trigger (record done { queued = false }) else done

unfoldable pub stop : Coalesced → Coalesced
stop s = record s { stopped = true; timers = clear s.pending_timer s.timers; pending_timer = none }

-- What can happen next: a caller triggers or stops, an armed timer fires, a tick in flight ends.
pub data Step : Coalesced → Coalesced → Type 0 where
  a_trigger : (s : Coalesced) → Step s (trigger s)
  a_fire : (s : Coalesced) (t : ℕ) → Memᴰ t s.timers → Step s (fire t s)
  a_finish : (s : Coalesced) (n : ℕ) → s.in_flight ≡ suc n → Step s (finish s)
  a_stop : (s : Coalesced) → Step s (stop s)

pub data Reach : Coalesced → Type 0 where
  start : Reach idle
  next : {s t : Coalesced} → Reach s → Step s t → Reach t
