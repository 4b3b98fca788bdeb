-- ===== src/Oracle/Lifecycle/SettleNet/Groups.antt =====
-- The maps and groups of a netted settlement leave nothing out.
use irsforge.Base.{
  ◌≡◌, ◌∙◌, sym, ap, some, String, List, [], ◌∷◌, ◌++◌, Bool, true, ◌==◌, eq_refl, filter, All,
  Bool-cases, Option-cases, inl, inr, arith,
}
use mathlib.Core.List.{Memᴰ}
use mathlib.Core.Path.{subst}
use irsforge.Base.Dict.{Dict, lookup, insert, lookup-insert}
use irsforge.Oracle.Lifecycle.Rows.{Swap, Effect}
use irsforge.Oracle.Lifecycle.Holdings.{push_to}
use irsforge.Oracle.Lifecycle.Holdings.Laws.{StandsIn, push_to-StandsIn, push_to-StandsIn_new}
use irsforge.Oracle.Lifecycle.SettleNet.{inst_to_swap, by_swap, add_to_swap}

-- An element of a list that passes the test is kept by a filter.
pub mem-filter :
    {A : Type 0} (p : A → Bool) (xs : List A) (x : A)
    → Memᴰ x xs
    → p x ≡ true
    → Memᴰ x (filter p xs)
mem-filter p [] x m h = elim m [ ]
mem-filter p (y ∷ ys) x (Memᴰ.head same) h = rw (sym (ap p same) ∙ h) (Memᴰ.head same)
mem-filter p (y ∷ ys) x (Memᴰ.tail m) h = elim (Bool-cases (p y)) [
  | inl kept ↦ rw kept (Memᴰ.tail (mem-filter p ys x m h))
  | inr dropped ↦ rw dropped (mem-filter p ys x m h)
]

-- A swap of the list is not missing from the map of its instruments.
abbrev pub Known : Dict Swap → String → Type 0
Known m k = (w : Swap) × (lookup k m ≡ some w)

insert-Known : (k : String) (v : Swap) (m : Dict Swap) → Known (insert k v m) k
insert-Known k v m = (v, ground (arith, lookup-insert k k v m, eq_refl k))

keep-Known : (j k : String) (v : Swap) (m : Dict Swap) → Known m k → Known (insert j v m) k
keep-Known j k v m (w, at) = elim (Bool-cases (j == k)) [
  | inl same ↦ (v, ground (arith, lookup-insert j k v m))
  | inr other ↦ (w, ground (arith, lookup-insert j k v m))
]

inst_to_swap-kept :
    (ws : List Swap) (m : Dict Swap) (k : String) → Known m k → Known (inst_to_swap ws m) k
unfolding inst_to_swap
inst_to_swap-kept [] m k h = h
inst_to_swap-kept (v ∷ ws) m k h =
    inst_to_swap-kept ws (insert v.instrument_key.id v m) k (keep-Known v.instrument_key.id k v m h)

pub inst_to_swap-Known :
    (ws : List Swap) (m : Dict Swap) (w : Swap)
    → Memᴰ w ws
    → Known (inst_to_swap ws m) w.instrument_key.id
unfolding inst_to_swap
inst_to_swap-Known [] m w h = elim h [ ]
inst_to_swap-Known (v ∷ ws) m w (Memᴰ.head same) =
    subst (λ z. Known (inst_to_swap ws (insert v.instrument_key.id v m)) z.instrument_key.id)
      (sym same)
      (inst_to_swap-kept ws (insert v.instrument_key.id v m) v.instrument_key.id
        (insert-Known v.instrument_key.id v m))
inst_to_swap-Known (v ∷ ws) m w (Memᴰ.tail h) =
    inst_to_swap-Known ws (insert v.instrument_key.id v m) w h

-- Each effect of a known instrument stands in the group of that instrument's swap.
by_swap-kept :
    (insts : Dict Swap) (es : List Effect) (x : Effect) (k : String) (m : Dict (List Effect))
    → StandsIn x k m
    → StandsIn x k (by_swap insts es m)
unfolding by_swap
by_swap-kept insts [] x k m h = h
by_swap-kept insts (e ∷ es) x k m h = elim (Option-cases (lookup e.target insts)) [
  | inl unknown ↦ rw unknown (by_swap-kept insts es x k m h)
  | inr (w, at) ↦ rw at (
      by_swap-kept insts es x k (push_to w.contract_id e m)
        (push_to-StandsIn w.contract_id e x k m h))
]

pub by_swap-StandsIn :
    (insts : Dict Swap) (es : List Effect) (x : Effect) (w : Swap) (m : Dict (List Effect))
    → Memᴰ x es
    → lookup x.target insts ≡ some w
    → StandsIn x w.contract_id (by_swap insts es m)
unfolding by_swap
by_swap-StandsIn insts [] x w m h at = elim h [ ]
by_swap-StandsIn insts (e ∷ es) x w m (Memᴰ.head same) at =
    let here : lookup e.target insts ≡ some w = sym (ap (λ z. lookup z.target insts) same) ∙ at in
    rw here (
      subst (λ z. StandsIn z w.contract_id (by_swap insts es (push_to w.contract_id e m)))
        (sym same)
        (by_swap-kept insts es e w.contract_id (push_to w.contract_id e m)
          (push_to-StandsIn_new w.contract_id e m)))
by_swap-StandsIn insts (e ∷ es) x w m (Memᴰ.tail h) at =
    by_swap-StandsIn insts es x w (add_to_swap e (lookup e.target insts) m) h at

-- A group starts with an effect of a known instrument.
abbrev pub Starts : Dict Swap → List Effect → Type 0
Starts insts [] = ⊥
Starts insts (e ∷ es) = Known insts e.target

snoc-Starts :
    (insts : Dict Swap) (xs : List Effect) (x : Effect)
    → Starts insts xs
    → Starts insts (xs ++ x ∷ [])
snoc-Starts insts [] x h = absurd h
snoc-Starts insts (y ∷ ys) x h = h

push_to-Starts :
    (insts : Dict Swap) (k : String) (x : Effect) (m : Dict (List Effect))
    → Known insts x.target
    → All (λ g. Starts insts g.1) m
    → All (λ g. Starts insts g.1) (push_to k x m)
unfolding push_to
push_to-Starts insts k x [] p h = (p, tt)
push_to-Starts insts k x ((j, xs) ∷ m) p (q, h) = elim (Bool-cases (j == k)) [
  | inl same ↦ rw same (snoc-Starts insts xs x q, h)
  | inr other ↦ rw other (q, push_to-Starts insts k x m p h)
]

pub by_swap-Starts :
    (insts : Dict Swap) (es : List Effect) (m : Dict (List Effect))
    → All (λ g. Starts insts g.1) m
    → All (λ g. Starts insts g.1) (by_swap insts es m)
unfolding by_swap
by_swap-Starts insts [] m h = h
by_swap-Starts insts (e ∷ es) m h = elim (Option-cases (lookup e.target insts)) [
  | inl unknown ↦ rw unknown (by_swap-Starts insts es m h)
  | inr (w, at) ↦ rw at (
      by_swap-Starts insts es (push_to w.contract_id e m)
        (push_to-Starts insts w.contract_id e m (w, at) h))
]
