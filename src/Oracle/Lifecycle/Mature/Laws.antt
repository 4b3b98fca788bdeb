-- ===== src/Oracle/Lifecycle/Mature/Laws.antt =====
-- Which swaps are retired.
use irsforge.Base.{
  ◌≡◌, ◌≢◌, refl, ap, ◌∙◌, ◌⊎◌, Option, none, some, String, List, [], ◌∷◌, ◌++◌, true, false, not,
  ◌&&◌, ◌||◌, ◌==◌, eq_iff, includes, arith, All, All-snoc, Bool-cases, inl, inr,
}
use mathlib.Core.List.{Memᴰ}
use mathlib.Core.Path.{subst}
use irsforge.Base.Dict.{Dict, lookup, lookup-insert, lookup-insert_self}
use irsforge.Oracle.Lifecycle.Rows.{Swap, Effect, Batch, consumed_by}
use irsforge.Base.Members.{
  All-listed, mem-snoc, mem-snoc_last, any-false, any-mem, mem-left, mem-right, mem-includes,
  includes-false,
}
use irsforge.Oracle.Lifecycle.Mature.{
  InstrumentRow, maturity_of, add_maturity, Mature, Ledger, Loop, is_later, all_maturity_dates,
  has_unsettled, mature_one, mature_all, mature_tick, mature_on,
}

-- What a retirement rests on.
pub record IsRipe (ledger : Ledger) (now : String) (m : Mature) : Type 0 where
  pub swap : Swap
  pub listed : Memᴰ swap ledger.swaps
  pub for_swap : m.swap_cid ≡ swap.contract_id
  pub today : m.actual_maturity_date ≡ now
  pub not_retired : includes swap.instrument_key.id ledger.matured ≡ false
  pub dated :
      lookup swap.instrument_key.id (all_maturity_dates ledger.instruments [])
      ≡ some m.maturity_date
  pub reached : is_later m.maturity_date now ≡ false
  pub settled :
      (e : Effect)
      → Memᴰ e ledger.effects
      → e.target ≡ swap.instrument_key.id
      → includes e.contract_id (consumed_by ledger.batches) ≡ true

unequal : (s t : String) → s ≢ t → (s == t) ≡ false
unequal s t h = ground (arith, h, eq_iff s t)

module _ (ledger : Ledger) (now : String) where
  all_settled :
      (id : String)
      → has_unsettled ledger now id ≡ false
      → (e : Effect) → Memᴰ e ledger.effects
      → e.target ≡ id
      → includes e.contract_id (consumed_by ledger.batches) ≡ true
  unfolding has_unsettled
  all_settled id h e m same =
      let f =
        any-false (λ x. x.target == id && not (includes x.contract_id (consumed_by ledger.batches)))
          ledger.effects h e m in
      ground (arith, f, eq_iff e.target id)

  abbrev AllRipe : Loop → Type 0
  AllRipe s = All (IsRipe ledger now) s.sent

  mature_on-AllRipe :
      (swap : Swap) (d : Option String) (s : Loop)
      → Memᴰ swap ledger.swaps
      → includes swap.instrument_key.id ledger.matured ≡ false
      → lookup swap.instrument_key.id (all_maturity_dates ledger.instruments []) ≡ d
      → AllRipe s
      → AllRipe (mature_on ledger now swap d s)
  mature_on-AllRipe swap none s m fresh at h = h
  mature_on-AllRipe swap (some d) s m fresh at h = elim (Bool-cases (d == "" || is_later d now)) [
    | inl early ↦ rw early h
    | inr late ↦ elim (Bool-cases (has_unsettled ledger now swap.instrument_key.id)) [
      | inl open_effects ↦ rw (late, open_effects) h
      | inr closed ↦
          rw (late, closed)
            (All-snoc (IsRipe ledger now) s.sent _ h (record {
              swap = swap;
              listed = m;
              for_swap = refl;
              today = refl;
              not_retired = fresh;
              dated = at;
              reached = ground arith;
              settled = all_settled swap.instrument_key.id closed;
            }))
    ]
  ]

  mature_one-AllRipe :
      (swap : Swap) (s : Loop)
      → Memᴰ swap ledger.swaps
      → AllRipe s
      → AllRipe (mature_one ledger now swap s)
  unfolding mature_one
  mature_one-AllRipe swap s m h =
      elim (Bool-cases (includes swap.instrument_key.id ledger.matured)) [
        | inl retired ↦ rw retired h
        | inr fresh ↦ rw fresh (mature_on-AllRipe swap _ s m fresh refl h)
      ]

  mature_all-AllRipe :
      (swaps : List Swap) (s : Loop)
      → All (λ w. Memᴰ w ledger.swaps) swaps
      → AllRipe s
      → AllRipe (mature_all ledger now swaps s)
  unfolding mature_all
  mature_all-AllRipe [] s ms h = h
  mature_all-AllRipe (w ∷ ws) s (m, ms) h =
      mature_all-AllRipe ws (mature_one ledger now w s) ms (mature_one-AllRipe w s m h)

  -- Every swap that a tick retires is on the ledger, not yet retired, not before its maturity date, and
  -- each effect on its instrument has been settled by a batch.
  pub mature_tick_sound : All (IsRipe ledger now) (mature_tick ledger now).sent
  unfolding mature_tick
  mature_tick_sound = mature_all-AllRipe ledger.swaps _ (All-listed ledger.swaps) tt

  -- What was sent stays sent.
  mature_on-sent :
      (swap : Swap) (d : Option String) (s : Loop) (c : Mature)
      → Memᴰ c s.sent
      → Memᴰ c (mature_on ledger now swap d s).sent
  mature_on-sent swap none s c m = m
  mature_on-sent swap (some d) s c m = elim (Bool-cases (d == "" || is_later d now)) [
    | inl early ↦ rw early m
    | inr late ↦ elim (Bool-cases (has_unsettled ledger now swap.instrument_key.id)) [
      | inl open_effects ↦ rw (late, open_effects) m
      | inr closed ↦ rw (late, closed) (mem-snoc _ s.sent m)
    ]
  ]

  mature_all-sent :
      (swaps : List Swap) (s : Loop) (c : Mature)
      → Memᴰ c s.sent
      → Memᴰ c (mature_all ledger now swaps s).sent
  unfolding mature_all mature_one
  mature_all-sent [] s c m = m
  mature_all-sent (w ∷ ws) s c m =
      mature_all-sent ws (mature_one ledger now w s) c
        (elim (Bool-cases (includes w.instrument_key.id ledger.matured)) [
          | inl retired ↦ rw retired m
          | inr fresh ↦ rw fresh (
              mature_on-sent w
                (lookup w.instrument_key.id (all_maturity_dates ledger.instruments [])) s c m)
        ])

  -- The rows of the instrument's id after some place set no other maturity.
  abbrev pub SetsNone : String → InstrumentRow → Type 0
  SetsNone id r = (r.id ≡ id) → (maturity_of r ≡ none) ⊎ (maturity_of r ≡ some "")

  -- The last row with a maturity for the instrument has this date.
  pub record IsDated (id date : String) : Type 0 where
    pub before : List InstrumentRow
    pub row : InstrumentRow
    pub after : List InstrumentRow
    pub listed : ledger.instruments ≡ before ++ row ∷ after
    pub of_id : row.id ≡ id
    pub at_date : maturity_of row ≡ some date
    pub some_date : date ≢ ""
    pub last : All (SetsNone id) after

  -- When a swap is to be retired: its instrument has no `MaturedSwap`, its maturity date is not
  -- later than today, and every effect on it is among those that some batch has settled.
  pub record IsEligible (swap : Swap) (date : String) : Type 0 where
    pub not_retired : ¬ (Memᴰ swap.instrument_key.id ledger.matured)
    pub dated : IsDated swap.instrument_key.id date
    pub reached : is_later date now ≡ false
    pub settled :
        (e : Effect)
        → Memᴰ e ledger.effects
        → e.target ≡ swap.instrument_key.id
        → (b : Batch) × (Memᴰ b ledger.batches × Memᴰ e.contract_id b.settled_effects)

  add_maturity-none :
      (id : String) (r : InstrumentRow) (m : Dict String)
      → SetsNone id r
      → lookup id (add_maturity r.id (maturity_of r) m) ≡ lookup id m
  add_maturity-none id r m h =
      elim (maturity_of r)
          as (λ d.
            ((r.id ≡ id) → (d ≡ none) ⊎ (d ≡ some ""))
            → lookup id (add_maturity r.id d m) ≡ lookup id m) [
              | none ↦ λ k. refl
              | some d ↦ λ k. elim (Bool-cases (r.id == id)) [
                | inl same ↦ elim (k ((eq_iff r.id id).0 same)) [
                  | inl gone ↦ absurd (ground arith)
                  | inr blank ↦ let nothing : d ≡ "" = ground (arith, blank) in rw nothing refl
                ]
                | inr other ↦ elim (Bool-cases (d == "")) [
                  | inl blank ↦ rw blank refl
                  | inr dated ↦ rw (dated, lookup-insert r.id id d m, other) refl
                ]
              ]
            ]
        h

  -- Rows that set no maturity of the instrument leave its date.
  all_maturity_dates-none :
      (id : String) (rs : List InstrumentRow) (m : Dict String)
      → All (SetsNone id) rs
      → lookup id (all_maturity_dates rs m) ≡ lookup id m
  unfolding all_maturity_dates
  all_maturity_dates-none id [] m h = refl
  all_maturity_dates-none id (r ∷ rs) m (h, hs) =
      all_maturity_dates-none id rs (add_maturity r.id (maturity_of r) m) hs
      ∙ add_maturity-none id r m h

  all_maturity_dates-last :
      (id date : String) (before after : List InstrumentRow) (r : InstrumentRow) (m : Dict String)
      → r.id ≡ id
      → maturity_of r ≡ some date
      → date ≢ ""
      → All (SetsNone id) after
      → lookup id (all_maturity_dates (before ++ r ∷ after) m) ≡ some date
  unfolding all_maturity_dates
  all_maturity_dates-last id date (b ∷ bs) after r m same at given h =
      all_maturity_dates-last id date bs after r (add_maturity b.id (maturity_of b) m) same at given
        h
  all_maturity_dates-last id date [] after r m same at given h =
      all_maturity_dates-none id after (add_maturity r.id (maturity_of r) m) h
      ∙ rw (at, unequal date "" given, same) (lookup-insert_self id date m)

  consumed_by-mem :
      (x : String) (bs : List Batch) (b : Batch)
      → Memᴰ b bs
      → Memᴰ x b.settled_effects
      → Memᴰ x (consumed_by bs)
  unfolding consumed_by
  consumed_by-mem x [] b m k = elim m [ ]
  consumed_by-mem x (c ∷ cs) b (Memᴰ.head same) k =
      mem-left (consumed_by cs) (subst (λ y. Memᴰ x y.settled_effects) same k)
  consumed_by-mem x (c ∷ cs) b (Memᴰ.tail m) k =
      mem-right c.settled_effects (consumed_by-mem x cs b m k)

  eligible-settled :
      (id : String)
      → ((e : Effect)
          → Memᴰ e ledger.effects
          → e.target ≡ id
          → (b : Batch) × (Memᴰ b ledger.batches × Memᴰ e.contract_id b.settled_effects))
      → has_unsettled ledger now id ≡ false
  unfolding has_unsettled
  eligible-settled id h = elim (Bool-cases (has_unsettled ledger now id)) [
    | inr closed ↦ closed
    | inl some_open ↦
        let (e, m, open_effect) =
          any-mem (λ x. x.target == id && not (includes x.contract_id (consumed_by ledger.batches)))
            ledger.effects some_open in
        let same : e.target ≡ id = ground (arith, open_effect, eq_iff e.target id) in
        let (b, (listed, within)) = h e m same in
        let settled =
          mem-includes e.contract_id (consumed_by ledger.batches)
            (consumed_by-mem e.contract_id ledger.batches b listed within) in
        absurd (ground (arith, open_effect, settled))
  ]

  abbrev pub retirement : Swap → String → Mature
  retirement swap date = record {
    swap_cid = swap.contract_id;
    maturity_date = date;
    actual_maturity_date = now;
  }

  mature_all_complete :
      (swaps : List Swap) (s : Loop) (swap : Swap) (date : String)
      → Memᴰ swap swaps
      → IsEligible swap date
      → Memᴰ (retirement swap date) (mature_all ledger now swaps s).sent
  unfolding mature_all mature_one
  mature_all_complete [] s swap date m el = elim m [ ]
  mature_all_complete (w ∷ ws) s swap date (Memᴰ.tail m) el =
      mature_all_complete ws (mature_one ledger now w s) swap date m el
  mature_all_complete (w ∷ ws) s swap date (Memᴰ.head same) el =
      let id = swap.instrument_key.id in
      let fresh : includes id ledger.matured ≡ false =
        includes-false id ledger.matured el.not_retired in
      let dated : lookup id (all_maturity_dates ledger.instruments []) ≡ some date =
        ap (λ rs. lookup id (all_maturity_dates rs [])) el.dated.listed
        ∙ all_maturity_dates-last id date el.dated.before el.dated.after el.dated.row []
            el.dated.of_id el.dated.at_date el.dated.some_date el.dated.last in
      let given = unequal date "" el.dated.some_date in
      mature_all-sent ws (mature_one ledger now w s) (retirement swap date) (
        subst (λ x. Memᴰ (retirement swap date) (mature_one ledger now x s).sent) same
          (rw (fresh, dated, mature_one)
            (rw (given, el.reached, eligible-settled id el.settled) (mem-snoc_last s.sent _))))

  -- A tick sends the command that retires a swap for every swap of the ledger whose instrument has
  -- no `MaturedSwap`, whose maturity date, the last that the rows of its instrument give, has been
  -- reached, and each of whose effects is listed by a batch, whatever the ledger answers to the
  -- commands before.
  pub mature_tick_complete :
      (swap : Swap) (date : String)
      → Memᴰ swap ledger.swaps
      → IsEligible swap date
      → Memᴰ (retirement swap date) (mature_tick ledger now).sent
  unfolding mature_tick
  mature_tick_complete swap date m el = mature_all_complete ledger.swaps _ swap date m el
