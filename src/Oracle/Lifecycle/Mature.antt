-- ===== src/Oracle/Lifecycle/Mature.antt =====
-- oracle/src/services/scheduler/mature.ts and instrument-maturity.ts
use irsforge.Base.{
  ℕ, suc, ◌+◌, Option, none, some, String, List, [], ◌∷◌, ◌++◌, map, Bool, true, false, not, ◌&&◌,
  ◌||◌, ◌==◌, if◌then◌else◌, any, includes,
}
use irsforge.Base.Dict.{Dict, lookup, insert}
use irsforge.Oracle.Lifecycle.Rows.{
  InstrumentKey, Swap, Effect, Batch, consumed_by, TickResult, no_result, add_fired, add_skipped,
  add_error,
}
use Prim.Native.String.{compare}
use Prim.Native.Nat.{Ordering}
pub mod Laws

-- A row of one of the five instrument templates, with the two places where a maturity can stand.
pub record InstrumentRow : Type 0 where
  pub id : String
  pub termination_date : Option String
  pub maturity_date : Option String

-- `r.payload.periodicSchedule?.terminationDate ?? r.payload.maturityDate ?? null`
abbrev pub maturity_of : InstrumentRow → Option String
maturity_of r = elim r.termination_date [ some d ↦ some d | none ↦ r.maturity_date ]

-- A date that JavaScript takes for true.
abbrev pub add_maturity : String → Option String → Dict String → Dict String
add_maturity id none m = m
add_maturity id (some d) m = if d == "" then m else insert id d m

-- `fetchAllMaturityDates`, on the rows of the five templates in their order.
unfoldable pub all_maturity_dates : List InstrumentRow → Dict String → Dict String
unfolding insert
all_maturity_dates [] m = m
all_maturity_dates (r ∷ rs) m = all_maturity_dates rs (add_maturity r.id (maturity_of r) m)

-- `a > b` on texts of ASCII characters.
abbrev pub is_later : String → String → Bool
is_later a b = elim (compare a b) [ Ordering.gt ↦ true | _ ↦ false ]

-- `MatureByScheduler` on a swap.
pub record Mature : Type 0 where
  pub swap_cid : String
  pub maturity_date : String
  pub actual_maturity_date : String

-- The ledger during one tick; `matured` holds the instrument ids of the `MaturedSwap` contracts.
pub record Ledger : Type 0 where
  pub swaps : List Swap
  pub matured : List String
  pub effects : List Effect
  pub batches : List Batch
  pub instruments : List InstrumentRow
  pub exercise : Mature → Bool

pub record Loop : Type 0 where
  pub sent : List Mature
  pub result : TickResult

module _ (ledger : Ledger) (now_iso : String) where
  unfoldable pub has_unsettled : String → Bool
  unfolding consumed_by
  has_unsettled inst_id =
      any (λ e. e.target == inst_id && not (includes e.contract_id (consumed_by ledger.batches)))
        ledger.effects

  abbrev skip : Loop → Loop
  skip s = record s { result = add_skipped s.result }

  abbrev retire : Swap → String → Loop → Loop
  retire swap maturity_date s =
      let command : Mature = record {
        swap_cid = swap.contract_id;
        maturity_date = maturity_date;
        actual_maturity_date = now_iso;
      } in
      record {
        sent = s.sent ++ command ∷ [];
        result =
            if ledger.exercise command
            then add_fired s.result
            else add_error swap.contract_id s.result;
      }

  abbrev mature_on : Swap → Option String → Loop → Loop
  mature_on swap none s = skip s
  mature_on swap (some d) s =
      if d == "" || is_later d now_iso
      then skip s
      else if has_unsettled swap.instrument_key.id
      then skip s
      else retire swap d s

  unfoldable pub mature_one : Swap → Loop → Loop
  unfolding lookup all_maturity_dates
  mature_one swap s =
      let id = swap.instrument_key.id in
      if includes id ledger.matured
      then skip s
      else mature_on swap (lookup id (all_maturity_dates ledger.instruments [])) s

  unfoldable pub mature_all : List Swap → Loop → Loop
  mature_all [] s = s
  mature_all (swap ∷ swaps) s = mature_all swaps (mature_one swap s)

  unfoldable pub mature_tick : Loop
  mature_tick = mature_all ledger.swaps (record { sent = []; result = no_result })
