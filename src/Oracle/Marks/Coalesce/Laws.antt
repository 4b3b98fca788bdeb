-- ===== src/Oracle/Marks/Coalesce/Laws.antt =====
-- At most one tick runs, at most one timer waits, and nothing starts after a stop.
use irsforge.Base.{
  ℕ, suc, ◌≤◌, ◌≡◌, refl, sym, ap, Option, none, some, List, [], ◌∷◌, true, false, if◌then◌else◌,
  arith, length, Bool-cases, Option-cases, inl, inr, ◌⊎◌,
}
use mathlib.Core.List.{Memᴰ}
use mathlib.Core.Path.{subst}
use irsforge.Oracle.Marks.Coalesce.{
  Coalesced, trigger, fire, finish, stop, Step, a_trigger, a_fire, a_finish, a_stop, Reach, start,
  next,
}

-- The timers that are armed are the one that the closure remembers, or none.
abbrev pub armed_by : Option ℕ → List ℕ
armed_by none = []
armed_by (some t) = t ∷ []

-- A tick runs just when `running` says so; the armed timer is the remembered one; none is armed
-- while a tick runs or after a stop; and only a running tick has a follow-up queued, but for a stop.
pub record IsValid (s : Coalesced) : Type 0 where
  pub one_tick : s.in_flight ≡ (if s.running then 1 else 0)
  pub one_timer : s.timers ≡ armed_by s.pending_timer
  pub no_timer_running : s.running ≡ true → s.pending_timer ≡ none
  pub no_timer_stopped : s.stopped ≡ true → s.pending_timer ≡ none
  pub queued_running : s.queued ≡ true → (s.running ≡ true) ⊎ (s.stopped ≡ true)

trigger-IsValid : (s : Coalesced) → IsValid s → IsValid (trigger s)
unfolding trigger
trigger-IsValid s v = elim (Option-cases s.pending_timer) [
  | inl nothing ↦ ground arith
  | inr (t, waits) ↦ ground arith
]

stop-IsValid : (s : Coalesced) → IsValid s → IsValid (stop s)
unfolding stop
stop-IsValid s v = elim (Option-cases s.pending_timer) [
  | inl nothing ↦ ground arith
  | inr (t, waits) ↦ ground arith
]

finish-IsValid : (s : Coalesced) (n : ℕ) → s.in_flight ≡ suc n → IsValid s → IsValid (finish s)
unfolding finish
finish-IsValid s n some_tick v = ground arith

mem-armed : (t : ℕ) (p : Option ℕ) → Memᴰ t (armed_by p) → p ≡ some t
mem-armed t none m = elim m [ ]
mem-armed t (some u) (Memᴰ.head same) = ap some (sym same)
mem-armed t (some u) (Memᴰ.tail m) = elim m [ ]

fire-IsValid : (s : Coalesced) (t : ℕ) → Memᴰ t s.timers → IsValid s → IsValid (fire t s)
unfolding fire
fire-IsValid s t m v =
    let waits : s.pending_timer ≡ some t =
      mem-armed t s.pending_timer (subst (λ ts. Memᴰ t ts) v.one_timer m) in
    ground arith

Step-IsValid : {s t : Coalesced} → Step s t → IsValid s → IsValid t
Step-IsValid (a_trigger s) v = trigger-IsValid s v
Step-IsValid (a_fire s t m) v = fire-IsValid s t m v
Step-IsValid (a_finish s n e) v = finish-IsValid s n e v
Step-IsValid (a_stop s) v = stop-IsValid s v

-- Whatever callers and the event loop do: at most one tick is in flight, at most one timer is
-- armed and it is the one that the closure remembers, and none is armed while a tick runs or
-- after a stop.
pub Reach-IsValid : {s : Coalesced} → Reach s → IsValid s
Reach-IsValid start = record {
  one_tick = refl;
  one_timer = refl;
  no_timer_running = λ h. refl;
  no_timer_stopped = λ h. refl;
  queued_running = λ h. absurd (ground arith);
}
Reach-IsValid (next r st) = Step-IsValid st (Reach-IsValid r)

-- A trigger before any stop is not lost: it leaves one armed timer, or a tick in flight with a
-- follow-up queued, and a further trigger adds neither a timer nor a follow-up.
pub trigger_kept :
    (s : Coalesced)
    → Reach s
    → s.stopped ≡ false
    → let t = trigger s in
      ((s.running ≡ false) × (length t.timers ≡ 1) × (length (trigger t).timers ≡ 1))
      ⊎ ((s.running ≡ true) × (t.queued ≡ true) × (trigger t ≡ t))
unfolding trigger
trigger_kept s r live =
    let v = Reach-IsValid r in
    elim (Bool-cases s.running) [
      | inl busy ↦ inr (busy, ground arith, ground arith)
      | inr free ↦ elim (Option-cases s.pending_timer) [
        | inl nothing ↦ inl (free, ground arith, ground arith)
        | inr (t, waits) ↦ inl (free, ground arith, ground arith)
      ]
    ]

-- When the tick in flight ends, a queued trigger becomes one armed timer, and with nothing queued
-- none is armed; either way nothing is in flight and nothing is queued any more.
pub finish_follows :
    (s : Coalesced) (n : ℕ)
    → Reach s
    → s.stopped ≡ false
    → s.in_flight ≡ suc n
    → let t = finish s in
      (t.in_flight ≡ 0) × (t.queued ≡ false) × (length t.timers ≡ (if s.queued then 1 else 0))
unfolding finish
finish_follows s n r live some_tick =
    let v = Reach-IsValid r in
    let busy : s.running ≡ true = ground arith in
    let nothing : s.pending_timer ≡ none = v.no_timer_running busy in
    (ground arith, ground arith, ground arith)

no_timers : (s : Coalesced) → IsValid s → s.stopped ≡ true → s.timers ≡ []
no_timers s v halted = ground (arith, v.no_timer_stopped halted)

not-nil : {t : ℕ} → Memᴰ t [] → ⊥
not-nil m = elim m [ ]

-- After a stop no timer is ever armed and no further tick starts.
pub Step-stopped :
    {s t : Coalesced}
    → Reach s
    → Step s t
    → s.stopped ≡ true
    → (t.stopped ≡ true) × (t.timers ≡ []) × (t.in_flight ≤ s.in_flight)
unfolding trigger fire finish stop
Step-stopped r (a_trigger s) halted =
    (ground arith, ground (arith, no_timers s (Reach-IsValid r) halted), ground arith)
Step-stopped r (a_fire s t m) halted =
    let none_armed = no_timers s (Reach-IsValid r) halted in
    absurd (not-nil (subst (λ ts. Memᴰ t ts) none_armed m))
Step-stopped r (a_finish s n e) halted =
    (ground arith, ground (arith, no_timers s (Reach-IsValid r) halted), ground arith)
Step-stopped r (a_stop s) halted =
    let v = Reach-IsValid r in
    (refl, ground (arith, no_timers s v halted, v.no_timer_stopped halted), omega arith)
