-- ===== src/App/Tests.antt =====
-- The theorem on the drawer's call at a concrete contract.
use irsforge.Base.{refl, some, [], ◌∷◌}
use irsforge.Base.Int.{pos}
use irsforge.Base.Double.FixedPoint.{fixed_point}
use irsforge.Oracle.Marks.Csa.{CsaPayload, DecodedCsa, active}
use irsforge.Oracle.Marks.Publisher.{gated_call}
use irsforge.Oracle.Marks.Csa.{decode_csa, split_posted, post_one}
use irsforge.App.CallAmount.{decode_view}
use irsforge.App.CallAmount.{CsaViewModel, compute_call_signal}
use irsforge.App.CallAmount.Laws.{Shows, compute_call_signal-Shows}

abbrev payload : CsaPayload
payload = record {
  party_a = "a";
  party_b = "b";
  threshold = some (("DirA", pos 100) ∷ ("DirB", pos 50) ∷ []);
  csb = some (("USD", pos 20) ∷ []);
  mta = 10;
  rounding = 25;
  valuation_ccy = "USD";
  state = active;
}

abbrev decoded : DecodedCsa
decoded = record {
  contract_id = "c";
  party_a = "a";
  party_b = "b";
  threshold_dir_a = pos 100;
  threshold_dir_b = pos 50;
  mta = 10;
  rounding = 25;
  valuation_ccy = "USD";
  posted_by_a = ("USD", pos 20) ∷ [];
  posted_by_b = [];
  state = active;
}

abbrev view : CsaViewModel
view = record {
  threshold_dir_a = pos 100;
  threshold_dir_b = pos 50;
  mta = 10;
  rounding = 25;
  valuation_ccy = "USD";
  posted_by_a = ("USD", pos 20) ∷ [];
  posted_by_b = [];
  state = active;
}

compute_call_signal-Shows_example :
    Shows (compute_call_signal view (pos 500)) (gated_call decoded (pos 500))
unfolding decode_csa decode_view split_posted post_one
compute_call_signal-Shows_example =
    compute_call_signal-Shows "c" payload (pos 500) decoded view refl refl
