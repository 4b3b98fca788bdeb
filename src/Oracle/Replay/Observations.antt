-- ===== src/Oracle/Replay/Observations.antt =====
-- Theorems on `flattenObservations` and on what a context takes from its snapshot.
use irsforge.Base.{
  ◌≡◌, refl, ap, String, List, [], ◌∷◌, ◌++◌, map, filter, Bool, if◌then◌else◌, leb, ◌==◌,
  Bool-cases, inl, inr,
}
use mathlib.Core.List.{Permᴰ}
use mathlib.Core.Path.{subst}
use irsforge.Pricing.Types.{Platform, RateObservation}
use irsforge.Pricing.Cashflows.{sort_by}
use irsforge.Pricing.Cashflows.Sort.{IsAscending, sort_by-IsAscending, sort_by-Perm}
use irsforge.Pricing.Fpml.{TextReader}
use irsforge.Oracle.Replay.{Row, ObservationPayload, until, collected, flatten_observations}

-- All the observations of an index, in the order of the rows.
abbrev pub observations_of : String → List (Row ObservationPayload) → List (String × String)
observations_of index_id [] = []
observations_of index_id (r ∷ rs) =
    let others = observations_of index_id rs in
    if r.payload.id == index_id then r.payload.observations ++ others else others

module _ ⦃platform : Platform⦄ where
  -- The time is not after the cutoff.
  abbrev pub in_time : String → String × String → Bool
  in_time cutoff_iso o = leb (platform.parse o.0) (platform.parse cutoff_iso)

module _ {N : Type 0} ⦃reader : TextReader N⦄ ⦃platform : Platform⦄ where
  abbrev pub read_observation : String × String → RateObservation N
  read_observation o = record { date = platform.parse o.0; rate = reader.parse_float o.1 }

  until-map :
      (cutoff : String) (os : List (String × String)) (rest : List (String × String))
      → until (platform.parse cutoff) os ++ map read_observation (filter (in_time cutoff) rest)
        ≡ map read_observation (filter (in_time cutoff) (os ++ rest))
  unfolding until
  until-map cutoff [] rest = refl
  until-map cutoff ((t, v) ∷ os) rest =
      elim (Bool-cases (leb (platform.parse t) (platform.parse cutoff))) [
        | inl early ↦ rw early (ap (λ l. read_observation (t, v) ∷ l) (until-map cutoff os rest))
        | inr late ↦ rw late (until-map cutoff os rest)
      ]

  collected-map :
      (rows : List (Row ObservationPayload)) (index_id cutoff : String)
      → collected rows index_id (platform.parse cutoff)
        ≡ map read_observation (filter (in_time cutoff) (observations_of index_id rows))
  unfolding collected
  collected-map [] index_id cutoff = refl
  collected-map (r ∷ rs) index_id cutoff = elim (Bool-cases (r.payload.id == index_id)) [
    | inl own ↦
        rw (own, collected-map rs index_id cutoff)
          (until-map cutoff r.payload.observations (observations_of index_id rs))
    | inr other ↦ rw other (collected-map rs index_id cutoff)
  ]

  -- The observations that a context is given ascend in time, and are, each as often as it is on
  -- the ledger, those of the index that are not after the cutoff.
  pub flatten_observations_sound :
      (rows : List (Row ObservationPayload)) (index_id cutoff : String)
      → IsAscending (λ o. o.date) (flatten_observations {N = N} rows index_id cutoff)
        × Permᴰ
            (flatten_observations {N = N} rows index_id cutoff)
            (map read_observation (filter (in_time cutoff) (observations_of index_id rows)))
  unfolding flatten_observations
  flatten_observations_sound rows index_id cutoff =
      let found : List (RateObservation N) = collected rows index_id (platform.parse cutoff) in
      (
        sort_by-IsAscending (λ o. o.date) found,
        subst (λ l. Permᴰ (sort_by (λ o. o.date) found) l) (collected-map rows index_id cutoff)
            (sort_by-Perm (λ o. o.date) found),
      )
