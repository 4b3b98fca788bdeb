-- ===== src/Oracle/Lifecycle/Trigger/Laws.antt =====
-- Which swaps are triggered, and with which event.
use irsforge.Base.{
  ℕ, suc, ◌+◌, ◌≡◌, ◌∙◌, refl, sym, Option, none, some, String, List, [], ◌∷◌, Bool, not, true,
  if◌then◌else◌, arith, length, Bool-cases, inl, inr, ◌⊎◌, All, All-snoc, All-map, length-snoc,
}
use mathlib.Core.List.{Memᴰ}
use irsforge.Base.Members.{All-listed}
use irsforge.Oracle.Lifecycle.Rows.{Swap, effect_exists_for, no_result}
use irsforge.Oracle.Lifecycle.Trigger.{
  Trigger, Ledger, Loop, trigger_one, trigger_all, trigger_lifecycle_tick, fire_with, with_event,
  with_answer,
}

-- A swap whose instrument has no effect dated today.
abbrev pub is_due : Ledger → String → Swap → Bool
is_due ledger today swap = not (effect_exists_for ledger.effects swap.instrument_key.id today)

-- What holds of a command that was sent: it is for a due swap, with all the observables and the
-- event of this tick.
pub record IsDue (ledger : Ledger) (today : String) (event : Option String) (t : Trigger)
    : Type 0 where
  pub swap : Swap
  pub listed : Memᴰ swap ledger.swaps
  pub for_swap : t.swap_cid ≡ swap.contract_id
  pub due : is_due ledger today swap ≡ true
  pub all_observables : t.observable_cids ≡ ledger.observations
  pub same_event : event ≡ some t.event_cid

module _ (ledger : Ledger) (today : String) where
  abbrev AllDue : Loop → Type 0
  AllDue s = All (IsDue ledger today s.event_cid) s.sent

  moved_event :
      {e e' : Option String} (t : Trigger)
      → e ≡ e'
      → IsDue ledger today e t
      → IsDue ledger today e' t
  moved_event t h d = record {
    swap = d.swap;
    listed = d.listed;
    for_swap = d.for_swap;
    due = d.due;
    all_observables = d.all_observables;
    same_event = sym h ∙ d.same_event;
  }

  fire_with-AllDue :
      (swap : Swap) (cid : String) (s : Loop)
      → Memᴰ swap ledger.swaps
      → is_due ledger today swap ≡ true
      → (s.event_cid ≡ some cid) ⊎ (s.sent ≡ [])
      → AllDue s
      → AllDue (fire_with ledger today swap cid s)
  fire_with-AllDue swap cid s m due kept h =
      All-snoc (IsDue ledger today (some cid)) s.sent _ (before kept) (record {
        swap = swap;
        listed = m;
        for_swap = refl;
        due = due;
        all_observables = refl;
        same_event = refl;
      })
    where
      before : (s.event_cid ≡ some cid) ⊎ (s.sent ≡ []) → All (IsDue ledger today (some cid)) s.sent
      before (inl same) = All-map (λ t d. moved_event t same d) s.sent h
      before (inr nothing) = rw nothing tt

  -- Nothing was sent before there is an event.
  abbrev IsReady : Loop → Type 0
  IsReady s = AllDue s × ((s.event_cid ≡ none) → s.sent ≡ [])

  module _ (swap : Swap) (m : Memᴰ swap ledger.swaps) (due : is_due ledger today swap ≡ true) where
    with_answer-IsReady :
        (answer : Option String) (s : Loop)
        → s.event_cid ≡ none
        → s.sent ≡ []
        → IsReady s
        → IsReady (with_answer ledger today swap answer s)
    with_answer-IsReady none s no_event empty r = r
    with_answer-IsReady (some cid) s no_event empty (h, quiet) =
        (fire_with-AllDue swap cid s m due (inr empty) h, λ e. absurd (ground arith))

    with_event-IsReady :
        (e : Option String) (s : Loop)
        → s.event_cid ≡ e
        → IsReady s
        → IsReady (with_event ledger today swap e s)
    with_event-IsReady (some cid) s has (h, quiet) =
        (fire_with-AllDue swap cid s m due (inl has) h, λ e. absurd (ground arith))
    with_event-IsReady none s no_event (h, quiet) =
        with_answer-IsReady _ (record s { requests = suc s.requests }) no_event (quiet no_event)
          (h, quiet)

  trigger_one-IsReady :
      (swap : Swap) (s : Loop)
      → Memᴰ swap ledger.swaps
      → IsReady s
      → IsReady (trigger_one ledger today swap s)
  unfolding trigger_one
  trigger_one-IsReady swap s m r =
      elim (Bool-cases (effect_exists_for ledger.effects swap.instrument_key.id today)) [
        | inl done ↦ rw (done, trigger_one) r
        | inr todo ↦
            rw (todo, trigger_one) (with_event-IsReady swap m (rw todo refl) s.event_cid s refl r)
      ]

  trigger_all-IsReady :
      (swaps : List Swap) (s : Loop)
      → All (λ w. Memᴰ w ledger.swaps) swaps
      → IsReady s
      → IsReady (trigger_all ledger today swaps s)
  unfolding trigger_all
  trigger_all-IsReady [] s ms r = r
  trigger_all-IsReady (w ∷ ws) s (m, ms) r =
      trigger_all-IsReady ws (trigger_one ledger today w s) ms (trigger_one-IsReady w s m r)

  -- Every trigger that a tick sends is for a swap of the ledger with no effect dated today, with
  -- all the observables, and all triggers of the tick share one fixing event.
  pub trigger_lifecycle_tick_sound :
      let s = trigger_lifecycle_tick ledger today in All (IsDue ledger today s.event_cid) s.sent
  unfolding trigger_lifecycle_tick
  trigger_lifecycle_tick_sound =
      (trigger_all-IsReady ledger.swaps _ (All-listed ledger.swaps) (tt, λ e. refl)).0

  -- The swaps of a list that are due.
  abbrev pub due_count : List Swap → ℕ
  due_count [] = 0
  due_count (w ∷ ws) = if is_due ledger today w then suc (due_count ws) else due_count ws

  with_event-counts :
      (swap : Swap) (e : Option String) (s : Loop)
      → let r = (with_event ledger today swap e s).result in
        (r.fired + length r.errors ≡ suc (s.result.fired + length s.result.errors))
        × (r.skipped ≡ s.result.skipped)
  with_event-counts swap (some cid) s = ground (arith, length-snoc s.result.errors swap.contract_id)
  with_event-counts swap none s = ground (arith, length-snoc s.result.errors swap.contract_id)

  trigger_all-counts :
      (swaps : List Swap) (s : Loop)
      → let r = (trigger_all ledger today swaps s).result in
        (r.fired + length r.errors ≡ due_count swaps + (s.result.fired + length s.result.errors))
        × (r.skipped + due_count swaps ≡ length swaps + s.result.skipped)
  unfolding trigger_all trigger_one
  trigger_all-counts [] s = (omega arith, omega arith)
  trigger_all-counts (w ∷ ws) s = ground (
    arith,
    trigger_all-counts ws (trigger_one ledger today w s),
    with_event-counts w s.event_cid s,
  )

  -- Each swap of the ledger is counted once: the due ones as fired or as errors, the others as
  -- skipped.
  pub trigger_lifecycle_tick_counts :
      let r = (trigger_lifecycle_tick ledger today).result in
      (r.fired + length r.errors ≡ due_count ledger.swaps)
      × (r.skipped + due_count ledger.swaps ≡ length ledger.swaps)
  unfolding trigger_lifecycle_tick
  trigger_lifecycle_tick_counts =
      let (a, b) =
        trigger_all-counts ledger.swaps
          (record { event_cid = none; requests = 0; sent = []; result = no_result }) in
      (omega (arith, a), omega (arith, b))
