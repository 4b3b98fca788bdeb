-- ===== src/Oracle/Replay/Snapshot.antt =====
-- oracle/src/services/mark-publisher/snapshot.ts: the key that is published with a mark. The text
-- itself is `JSON.stringify` of it.
use irsforge.Base.{
  ℕ, ◌≡◌, refl, ap, ◌∙◌, Option, none, some, String, List, [], ◌∷◌, Bool, true, false, ◌&&◌, ◌||◌,
  ltb, eqb, if◌then◌else◌, arith, Bool-cases, ◌⊎◌, inl, inr,
}
use Prim.Native.Char.{code}
use Prim.Native.String.{[] as empty, ◌∷◌ as cons}
use mathlib.Core.List.Permᴰ
use mathlib.Core.List.{Permᴰ}
use text.Mathlib.TextEquality.{codes_equal}
use irsforge.Oracle.Replay.{SnapshotKey}

abbrev codes : String → List ℕ
codes empty = []
codes (cons c s) = code c ∷ codes s

-- The order of `Array.prototype.sort` on texts without characters beyond the basic plane.
abbrev codes_leb : List ℕ → List ℕ → Bool
codes_leb [] ds = true
codes_leb (c ∷ cs) [] = false
codes_leb (c ∷ cs) (d ∷ ds) = ltb c d || (eqb c d && codes_leb cs ds)

unfoldable pub text_leb : String → String → Bool
text_leb s t = codes_leb (codes s) (codes t)

abbrev pub insert_text : String → List String → List String
insert_text x [] = x ∷ []
insert_text x (y ∷ ys) =
    let rest = insert_text x ys in if text_leb x y then x ∷ y ∷ ys else y ∷ rest

-- `[...texts].sort()`
unfoldable pub sorted : List String → List String
unfolding text_leb
sorted [] = []
sorted (x ∷ xs) = insert_text x (sorted xs)

-- `if (cids?.length) out.cids = [...cids].sort()`
abbrev pub sorted_given : Option (List String) → Option (List String)
sorted_given none = none
sorted_given (some []) = none
sorted_given (some (cid ∷ cids)) = some (sorted (cid ∷ cids))

-- `buildSnapshot`
unfoldable pub build_snapshot : SnapshotKey → SnapshotKey
unfolding sorted
build_snapshot s = record {
  curve_cids = sorted s.curve_cids;
  index_cids = sorted s.index_cids;
  observation_cutoff = s.observation_cutoff;
  swap_cids = sorted s.swap_cids;
  book_curve_cids = sorted_given s.book_curve_cids;
  fx_spot_cids = sorted_given s.fx_spot_cids;
  cds_curve_cids = sorted_given s.cds_curve_cids;
}

codes_total : (cs ds : List ℕ) → (codes_leb cs ds ≡ true) ⊎ (codes_leb ds cs ≡ true)
codes_total [] ds = inl refl
codes_total (c ∷ cs) [] = inr refl
codes_total (c ∷ cs) (d ∷ ds) = let rest = codes_total cs ds in ground arith

codes_antisym : (cs ds : List ℕ) → codes_leb cs ds ≡ true → codes_leb ds cs ≡ true → cs ≡ ds
codes_antisym [] [] h k = refl
codes_antisym [] (d ∷ ds) h k = absurd (ground arith)
codes_antisym (c ∷ cs) [] h k = absurd (ground arith)
codes_antisym (c ∷ cs) (d ∷ ds) h k =
    let tails : cs ≡ ds = codes_antisym cs ds (ground arith) (ground arith) in ground arith

codes_trans :
    (cs ds es : List ℕ) → codes_leb cs ds ≡ true → codes_leb ds es ≡ true → codes_leb cs es ≡ true
codes_trans [] ds es h k = refl
codes_trans (c ∷ cs) [] es h k = absurd (ground arith)
codes_trans (c ∷ cs) (d ∷ ds) [] h k = absurd (ground arith)
codes_trans (c ∷ cs) (d ∷ ds) (e ∷ es) h k = let rest = codes_trans cs ds es in ground (arith)

codes_injective : (s t : String) → codes s ≡ codes t → s ≡ t
codes_injective empty empty h = refl
codes_injective empty (cons d t) h = absurd (ground arith)
codes_injective (cons c s) empty h = absurd (ground arith)
codes_injective (cons c s) (cons d t) h =
    let heads : code c ≡ code d = ground arith in
    let tails : codes s ≡ codes t = ground arith in
    let same : c ≡ d = codes_equal c d (ground arith) in
    ap (λ x. cons x s) same ∙ ap (cons d) (codes_injective s t tails)

text_antisym : (s t : String) → text_leb s t ≡ true → text_leb t s ≡ true → s ≡ t
unfolding text_leb
text_antisym s t h k = codes_injective s t (codes_antisym (codes s) (codes t) h k)

-- Two texts may be inserted in either order.
insert_text_comm :
    (a b : String) (xs : List String)
    → insert_text a (insert_text b xs) ≡ insert_text b (insert_text a xs)
unfolding text_leb
insert_text_comm a b [] = ground (arith, codes_total (codes a) (codes b), text_antisym a b)
insert_text_comm a b (x ∷ xs) =
    let rest = insert_text_comm a b xs in
    ground (
      arith,
      rest,
      codes_total (codes a) (codes b),
      codes_total (codes a) (codes x),
      codes_total (codes b) (codes x),
      text_antisym a b,
      codes_trans (codes a) (codes b) (codes x),
      codes_trans (codes b) (codes a) (codes x),
    )

sorted-Perm : {xs ys : List String} → Permᴰ xs ys → sorted xs ≡ sorted ys
unfolding sorted
sorted-Perm Permᴰ.nil = refl
sorted-Perm (Permᴰ.cons {a = a} {b = b} {l₁ = l} same p) =
    ap (λ x. insert_text x (sorted l)) same ∙ ap (insert_text b) (sorted-Perm p)
sorted-Perm (Permᴰ.swap {a = a} {b = b} {b' = b'} {l = l} first second) =
    insert_text_comm a b (sorted l)
    ∙ ap (λ x. insert_text b (insert_text x (sorted l))) first
    ∙ ap (λ x. insert_text x (insert_text b' (sorted l))) second
sorted-Perm (Permᴰ.trans p q) = sorted-Perm p ∙ sorted-Perm q

-- The same contracts in another order, where they are given.
abbrev AreReordered : Option (List String) → Option (List String) → Type 0
AreReordered none none = Unit
AreReordered (some xs) (some ys) = Permᴰ xs ys
AreReordered _ _ = ⊥

insert_text-cons :
    (x : String) (xs : List String)
    → (y : String) × ((ys : List String) × (insert_text x xs ≡ y ∷ ys))
insert_text-cons x [] = (x, ([], refl))
insert_text-cons x (y ∷ ys) = elim (Bool-cases (text_leb x y)) [
  | inl here ↦ (x, (y ∷ ys, rw here refl))
  | inr after ↦ (y, (insert_text x ys, rw after refl))
]

-- No list with a text is a reordering of the empty list.
Perm-nil : (y : String) (ys : List String) → Permᴰ [] (y ∷ ys) → ⊥
unfolding sorted
Perm-nil y ys p =
    let e : [] ≡ insert_text y (sorted ys) = sorted-Perm p in
    let (z, (zs, made)) = insert_text-cons y (sorted ys) in ground (arith, e, made)

sorted_given-Reordered :
    (xs ys : Option (List String)) → AreReordered xs ys → sorted_given xs ≡ sorted_given ys
sorted_given-Reordered none none h = refl
sorted_given-Reordered none (some ys) h = absurd h
sorted_given-Reordered (some xs) none h = absurd h
sorted_given-Reordered (some []) (some []) h = refl
sorted_given-Reordered (some []) (some (y ∷ ys)) h = absurd (Perm-nil y ys h)
sorted_given-Reordered (some (x ∷ xs)) (some []) h = absurd (Perm-nil x xs (Permᴰ.symm h))
sorted_given-Reordered (some (x ∷ xs)) (some (y ∷ ys)) h = ap some (sorted-Perm h)

pub record IsReordering (s t : SnapshotKey) : Type 0 where
  pub curves : Permᴰ s.curve_cids t.curve_cids
  pub indices : Permᴰ s.index_cids t.index_cids
  pub cutoff : s.observation_cutoff ≡ t.observation_cutoff
  pub swaps : Permᴰ s.swap_cids t.swap_cids
  pub book_curves : AreReordered s.book_curve_cids t.book_curve_cids
  pub fx_spots : AreReordered s.fx_spot_cids t.fx_spot_cids
  pub cds_curves : AreReordered s.cds_curve_cids t.cds_curve_cids

-- The published key does not depend on the order in which the contracts were found: two snapshots
-- of the same contracts, each as often, with one cutoff, have the same key.
pub build_snapshot-reordered :
    (s t : SnapshotKey) → IsReordering s t → build_snapshot s ≡ build_snapshot t
unfolding build_snapshot
build_snapshot-reordered s t h =
    rw
      (
        sorted-Perm h.curves,
        sorted-Perm h.indices,
        h.cutoff,
        sorted-Perm h.swaps,
        sorted_given-Reordered s.book_curve_cids t.book_curve_cids h.book_curves,
        sorted_given-Reordered s.fx_spot_cids t.fx_spot_cids h.fx_spots,
        sorted_given-Reordered s.cds_curve_cids t.cds_curve_cids h.cds_curves,
      )
      refl
