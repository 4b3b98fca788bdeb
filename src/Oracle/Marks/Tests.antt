-- ===== src/Oracle/Marks/Tests.antt =====
-- The theorems on the mark publisher at concrete inputs.
use irsforge.Base.{◌*◌, ◌≤◌, ◌<◌, ◌≡◌, ◌⊎◌, refl, Option, none, some, String, [], ◌∷◌, arith, true}
use mathlib.Core.List.{Memᴰ}
use irsforge.Base.Int.{ℤ, pos, negsuc, neg, abs, ◌+ℤ◌, ◌-ℤ◌, ◌*ℤ◌}
use irsforge.Base.Dict.{Dict, lookup, insert}
use irsforge.Base.Double.FixedPoint.{fixed_point, fixed_point-IsDoubleDivision}
use irsforge.Oracle.Marks.Formula.{gate_call, contract_gate_call}
use irsforge.Oracle.Marks.Formula.Laws.{gate_call_nearest, gate_call_agrees, gate_call_tie}
use irsforge.Oracle.Marks.Netting.{SwapWorkflow, NettingSetEntry, MarkComputation, compute_mark}
use irsforge.Oracle.Marks.Netting.Laws.{compute_mark_turned, exposure_of, negated, entry}
use irsforge.Oracle.Marks.Csa.{
  CsaPayload, DecodedCsa, active, decode_csa, from_pairs, split_posted, post_one,
}
use irsforge.Oracle.Marks.Csa.Laws.{decode_csa-posted, posted_net}
use irsforge.Oracle.Marks.Publisher.{LedgerClient, Published}
use irsforge.Oracle.Marks.Publisher.Tick.{TickDeps}
use irsforge.Oracle.Marks.Coalesce.{
  Coalesced, idle, trigger, fire, a_trigger, a_fire, Reach, start, next,
}
use irsforge.Oracle.Marks.Coalesce.Laws.{IsValid, Reach-IsValid}

gate_call_nearest_example :
    ((abs (pos 123) < 100) × (gate_call (pos 123) 100 50 ≡ pos 0))
    ⊎ ((100 ≤ abs (pos 123))
        × ((n : ℤ) × (gate_call (pos 123) 100 50 ≡ n *ℤ pos 50)
            × (2 * abs (pos 123 -ℤ gate_call (pos 123) 100 50) ≤ 50)))
unfolding abs
gate_call_nearest_example =
    gate_call_nearest fixed_point-IsDoubleDivision (pos 123) 100 50
      (omega arith, (omega arith, omega arith))

gate_call_agrees_example : gate_call (negsuc 122) 100 50 ≡ contract_gate_call (negsuc 122) 100 50
unfolding abs
gate_call_agrees_example =
    gate_call_agrees fixed_point-IsDoubleDivision (negsuc 122) 100 50 (omega arith) (omega arith)
      (λ tie. absurd (omega (arith, tie.2)))

gate_call_tie_example :
    gate_call (negsuc 124) 100 50 ≡ contract_gate_call (negsuc 124) 100 50 +ℤ pos 50
unfolding abs
gate_call_tie_example =
    gate_call_tie fixed_point-IsDoubleDivision (negsuc 124) 100 50 (omega arith) (omega arith)
      (omega arith, omega arith, refl)

abbrev swap : SwapWorkflow
swap = record { contract_id = "w1"; party_a = "A"; party_b = "B"; swap_type = "IRS" }

abbrev price : String → Option ℤ
price cid = some (pos 70)

compute_mark_turned_example :
    exposure_of price (compute_mark price (entry price (swap ∷ []) "c" "B" "A") "t")
    ≡ negated price
        (exposure_of price (compute_mark price (entry price (swap ∷ []) "c" "A" "B") "t"))
compute_mark_turned_example = compute_mark_turned price (swap ∷ []) "c" "A" "B" "t" refl

abbrev netted : NettingSetEntry
netted = entry price (swap ∷ []) "c" "A" "B"

abbrev computed : MarkComputation
computed = record {
  exposure = negsuc 69;
  as_of = "t";
  swap_pvs = record { swap_cid = "w1"; pv = pos 70 } ∷ [];
}

abbrev thresholds : Dict ℤ
thresholds = ("DirA", pos 0) ∷ ("DirB", pos 0) ∷ []

abbrev balances : Dict ℤ
balances = ("USD", pos 5) ∷ ("EUR", negsuc 2) ∷ []

abbrev payload : CsaPayload
payload = record {
  party_a = "A";
  party_b = "B";
  threshold = some thresholds;
  csb = some balances;
  mta = 10;
  rounding = 5;
  valuation_ccy = "USD";
  state = active;
}

abbrev decoded : DecodedCsa
decoded = record {
  contract_id = "c";
  party_a = "A";
  party_b = "B";
  threshold_dir_a = pos 0;
  threshold_dir_b = pos 0;
  mta = 10;
  rounding = 5;
  valuation_ccy = "USD";
  posted_by_a = ("USD", pos 5) ∷ [];
  posted_by_b = ("EUR", pos 3) ∷ [];
  state = active;
}

decode_csa-posted_example : posted_net "EUR" (decoded.posted_by_a, decoded.posted_by_b) ≡ negsuc 2
unfolding decode_csa from_pairs split_posted post_one lookup insert neg
decode_csa-posted_example =
    decode_csa-posted "c" "EUR" payload balances decoded refl (refl, (refl, tt)) refl

abbrev client : LedgerClient
client = record {
  publish = λ cid as_of exposure snapshot. some (record { csa_cid = "c2"; mark_cid = "m" });
  settle = λ cid. true;
}

abbrev published : Published
published = record { csa_cid = "c2"; mark_cid = "m" }

abbrev deps : TickDeps
deps = record {
  client = client;
  csas = ("c", payload) ∷ [];
  workflows = swap ∷ [];
  curve_cids = [];
  index_cids = [];
  query_fx = none;
  as_of = λ cid. "t";
  price_in = λ key ccy. some price;
  build_snapshot = λ key. "s";
}

-- A trigger, its timer, and a trigger during the tick.
abbrev busy : Coalesced
busy = fire 0 (trigger idle)

busy-Reach : Reach busy
unfolding trigger
busy-Reach = next (next start (a_trigger idle)) (a_fire (trigger idle) 0 (Memᴰ.head refl))

Reach-IsValid_example : IsValid busy
Reach-IsValid_example = Reach-IsValid busy-Reach
