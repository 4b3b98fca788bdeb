-- ===== src/Config/Tests.antt =====
-- The theorems on the configuration at concrete inputs.
use irsforge.Base.{none, some, String, List, [], ◌∷◌, true, false}
use irsforge.Auth.Provider.{Org, Role, trader, operator, regulator}
use irsforge.Config.{Currency}
use irsforge.Config.Seeds.{HintedOrg, CsaPairSeed}

abbrev org : String → Role → Org
org name role = record {
  id = name;
  party = name;
  role = role;
  subdomain = none;
  allowed_subjects = some (name ∷ []);
  allowed_groups = none;
}

abbrev orgs : List Org
orgs = org "o" operator ∷ org "r" regulator ∷ org "a" trader ∷ org "b" trader ∷ []

abbrev currencies : List Currency
currencies =
    record { code = "USD"; is_default = true } ∷ record { code = "EUR"; is_default = false } ∷ []

abbrev traders : List HintedOrg
traders = record { hint = "A"; role = trader } ∷ record { hint = "B"; role = trader } ∷ []

abbrev pairs : List CsaPairSeed
pairs = record { trader_a_hint = "A"; trader_b_hint = "B" } ∷ []
