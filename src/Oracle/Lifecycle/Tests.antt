-- ===== src/Oracle/Lifecycle/Tests.antt =====
-- The theorems on the scheduler's ticks at concrete inputs.
use irsforge.Base.{◌≡◌, ◌==◌, refl, ap, arith, none, some, [], ◌∷◌, true, All, map}
use mathlib.Core.List.{Memᴰ}
use irsforge.Base.Dict.{lookup, insert}
use irsforge.Oracle.Lifecycle.Rows.{consumed_by}
use irsforge.Oracle.Lifecycle.Holdings.{push_to, group_by}
use irsforge.Oracle.Lifecycle.Rows.{InstrumentKey, Swap, Effect}
use irsforge.Oracle.Lifecycle.Trigger.{Ledger}
use irsforge.Oracle.Lifecycle.Mature
use irsforge.Oracle.Lifecycle.SettleNet
use irsforge.Oracle.Lifecycle.SettleNet.Complete.{IsSent, settle_net_tick_complete}
use irsforge.Oracle.Lifecycle.SettleNet.Sound.{IsNet, settle_net_tick_sound}
use irsforge.Oracle.Lifecycle.Mature.Laws.{
  IsRipe, retirement, mature_tick_sound, mature_tick_complete,
}

abbrev key : InstrumentKey
key = record {
  depository = "D";
  issuer = "I";
  id = "i1";
  version = "0";
  holding_standard = "TransferableFungible";
}

abbrev swap : Swap
swap = record { contract_id = "w1"; party_a = "A"; party_b = "B"; instrument_key = key }

abbrev ledger : Ledger
ledger = record {
  swaps = swap ∷ [];
  effects = [];
  observations = "o1" ∷ [];
  events = [];
  create = λ n. some (some "e1");
  exercise = λ t. true;
}

abbrev ended : Mature.Ledger
ended = record {
  swaps = swap ∷ [];
  matured = [];
  effects = record { contract_id = "f0"; target = "i1"; event_time = "2026-04-01" } ∷ [];
  batches = record { settled_effects = "f0" ∷ [] } ∷ [];
  instruments =
      record { id = "i1"; termination_date = some "2026-04-01"; maturity_date = none } ∷ [];
  exercise = λ m. true;
}

mature_tick_sound_example :
    All (IsRipe ended "2026-04-20") (Mature.mature_tick ended "2026-04-20").sent
mature_tick_sound_example = mature_tick_sound ended "2026-04-20"

settled_in : (e : Effect) → Memᴰ e ended.effects → Memᴰ e.contract_id ("f0" ∷ [])
settled_in e (Memᴰ.head same) = Memᴰ.head (ap (λ x. x.contract_id) same)
settled_in e (Memᴰ.tail m) = elim m [ ]

mature_tick_complete_example :
    Memᴰ
      (retirement ended "2026-04-20" swap "2026-04-01")
      (Mature.mature_tick ended "2026-04-20").sent
unfolding Mature.all_maturity_dates Mature.has_unsettled lookup
mature_tick_complete_example =
    mature_tick_complete ended "2026-04-20" swap "2026-04-01" (Memᴰ.head refl) (record {
      not_retired = λ m. elim m [ ];
      dated = record {
        before = [];
        row = record { id = "i1"; termination_date = some "2026-04-01"; maturity_date = none };
        after = [];
        listed = refl;
        of_id = refl;
        at_date = refl;
        some_date = λ e. absurd (ground (arith, ap (λ t. t == "") e));
        last = tt;
      };
      reached = refl;
      settled =
          λ e m same. (record { settled_effects = "f0" ∷ [] }, (Memᴰ.head refl, settled_in e m));
    })

abbrev csa : SettleNet.CsaRow
csa = record { contract_id = "c1"; party_a = "B"; party_b = "A" }

abbrev effect : Effect
effect = record { contract_id = "f1"; target = "i1"; event_time = "2026-04-20T00:00:00Z" }

abbrev to_settle : SettleNet.Ledger
to_settle = record {
  csas = csa ∷ [];
  swaps = swap ∷ [];
  effects = effect ∷ [];
  batches = [];
  holdings = λ cid. some [];
  exercise = λ c. true;
}

settle_net_tick_sound_example : All (IsNet to_settle) (SettleNet.settle_net_tick to_settle).sent
settle_net_tick_sound_example = settle_net_tick_sound to_settle

settle_net_tick_complete_example : IsSent to_settle csa effect (SettleNet.settle_net_tick to_settle)
unfolding SettleNet.in_csa consumed_by
settle_net_tick_complete_example =
    settle_net_tick_complete to_settle csa swap effect [] (Memᴰ.head refl)
      (record {
        swap_listed = Memᴰ.head refl;
        paired = refl;
        effect_listed = Memᴰ.head refl;
        of_swap = refl;
        unsettled = refl;
      })
      refl

-- The tick sends one settlement, of one reversed entry.
settles_one :
    map (λ c. map (λ n. n.effect_cids) c.entries) (SettleNet.settle_net_tick to_settle).sent
    ≡ (("f1" ∷ []) ∷ []) ∷ []
unfolding SettleNet.settle_net_tick SettleNet.settle_all SettleNet.settle_one SettleNet.in_csa
    SettleNet.unsettled_of SettleNet.inst_to_swap SettleNet.settle_bins SettleNet.build_entries
    SettleNet.by_swap SettleNet.entries_of lookup insert push_to group_by consumed_by
settles_one = refl
