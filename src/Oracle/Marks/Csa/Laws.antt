-- ===== src/Oracle/Marks/Csa/Laws.antt =====
-- The split of the signed balance into what each party posted loses nothing.
use irsforge.Base.{
  ◌≡◌, ◌∙◌, sym, ap, refl, none, some, String, [], ◌∷◌, false, ◌==◌, eq_iff, arith, Option-cases,
  Bool-cases, eq-cases, inl, inr,
}
use mathlib.Core.Path.{ap₂}
use irsforge.Base.Int.{ℤ, pos, neg, ltb_ℤ, ◌-ℤ◌, int_laws, neg_parts, pos_part, neg_part, one_part}
use irsforge.Base.Dict.{Dict, lookup, lookup-insert, lookup-insert_self}
use irsforge.Oracle.Marks.Csa.{
  DecodedCsa, CsaPayload, post_one, split_posted, decode_csa, or_zero, from_pairs,
}

-- What stands posted in a currency, as A's balance less B's.
abbrev pub posted_net : String → Dict ℤ × Dict ℤ → ℤ
posted_net ccy (a, b) = or_zero (lookup ccy a) -ℤ or_zero (lookup ccy b)

-- Each key occurs once, as in a map of the ledger.
abbrev pub IsMap : Dict ℤ → Type 0
IsMap [] = Unit
IsMap ((k, v) ∷ m) = (lookup k m ≡ none) × IsMap m

-- Nothing is posted yet in a currency.
abbrev IsFree : String → Dict ℤ × Dict ℤ → Type 0
IsFree ccy (a, b) = (lookup ccy a ≡ none) × (lookup ccy b ≡ none)

post_one-other :
    (j k : String) (n : ℤ) (p : Dict ℤ × Dict ℤ)
    → (j == k) ≡ false
    → (lookup k (post_one j n p).0 ≡ lookup k p.0) × (lookup k (post_one j n p).1 ≡ lookup k p.1)
unfolding post_one
post_one-other j k n (a, b) h = ground (
  arith,
  lookup-insert j k n a,
  lookup-insert j k (neg n) b,
  lookup-insert j k (pos 0) a,
  lookup-insert j k (pos 0) b,
)

is_zero_of : (n : ℤ) → ltb_ℤ (pos 0) n ≡ false → ltb_ℤ n (pos 0) ≡ false → pos 0 -ℤ pos 0 ≡ n
is_zero_of n h k = let e : pos_part n ≡ neg_part n = ground arith in omega (int_laws, one_part n, e)

post_one_self :
    (k : String) (n : ℤ) (p : Dict ℤ × Dict ℤ) → IsFree k p → posted_net k (post_one k n p) ≡ n
unfolding post_one
post_one_self k n (a, b) (fa, fb) = elim (Bool-cases (ltb_ℤ (pos 0) n)) [
  | inl plus ↦ rw (plus, post_one) (rw (lookup-insert_self k n a, fb) (omega int_laws))
  | inr not_plus ↦ elim (Bool-cases (ltb_ℤ n (pos 0))) [
    | inl minus ↦
        rw (not_plus, minus, post_one)
          (rw (lookup-insert_self k (neg n) b, fa) (omega (int_laws, neg_parts n)))
    | inr not_minus ↦
        rw (not_plus, not_minus, post_one)
          (rw (lookup-insert_self k (pos 0) a, lookup-insert_self k (pos 0) b)
            (is_zero_of n not_plus not_minus))
  ]
]

post_one-net_other :
    (j k : String) (n : ℤ) (p : Dict ℤ × Dict ℤ)
    → (j == k) ≡ false
    → posted_net k (post_one j n p) ≡ posted_net k p
post_one-net_other j k n p h =
    let (a, b) = post_one-other j k n p h in ap₂ (λ x y. or_zero x -ℤ or_zero y) a b

none_posted : pos 0 -ℤ pos 0 ≡ pos 0
none_posted = omega int_laws

split_posted-absent :
    (k : String) (csb : Dict ℤ) (p : Dict ℤ × Dict ℤ)
    → lookup k csb ≡ none
    → posted_net k (split_posted csb p) ≡ posted_net k p
unfolding split_posted lookup
split_posted-absent k [] p h = refl
split_posted-absent k ((j, v) ∷ csb) p h = elim (Bool-cases (j == k)) [
  | inl same ↦ absurd (ground arith)
  | inr other ↦
      split_posted-absent k csb (post_one j v p) (ground arith) ∙ post_one-net_other j k v p other
]

split_posted-present :
    (k : String) (csb : Dict ℤ) (p : Dict ℤ × Dict ℤ) (n : ℤ)
    → IsMap csb
    → IsFree k p
    → lookup k csb ≡ some n
    → posted_net k (split_posted csb p) ≡ n
unfolding split_posted lookup
split_posted-present k [] p n m f h = cc
split_posted-present k ((j, v) ∷ csb) p n (fresh, m) f h = elim (eq-cases j k) [
  | inl same ↦
      let gone : lookup k csb ≡ none = ap (λ t. lookup t csb) (sym same) ∙ fresh in
      let e : v ≡ n = ground (arith, eq_iff j k) in
      split_posted-absent k csb (post_one j v p) gone
      ∙ ap (λ t. posted_net k (post_one t v p)) same
      ∙ post_one_self k v p f
      ∙ e
  | inr other ↦
      let (a, b) = post_one-other j k v p other in
      split_posted-present k csb (post_one j v p) n m (a ∙ f.0, b ∙ f.1) (ground arith)
]

decode_csa-split :
    (cid : String) (p : CsaPayload) (csb : Dict ℤ) (d : DecodedCsa)
    → p.csb ≡ some csb
    → decode_csa cid p ≡ some d
    → (d.posted_by_a ≡ (split_posted csb ([], [])).0)
      × (d.posted_by_b ≡ (split_posted csb ([], [])).1)
unfolding decode_csa
decode_csa-split cid p csb d has e = elim (Option-cases p.threshold) [
  | inl missing ↦ absurd (ground arith)
  | inr (pairs, there) ↦ elim (Option-cases (lookup "DirA" (from_pairs pairs []))) [
    | inl no_a ↦ absurd (ground arith)
    | inr (ta, ea) ↦ elim (Option-cases (lookup "DirB" (from_pairs pairs []))) [
      | inl no_b ↦ absurd (ground arith)
      | inr (tb, eb) ↦ (ground arith, ground arith)
    ]
  ]
]

-- What the decoder makes of a contract whose balance is a map: in each currency A's posted
-- balance less B's is the signed balance of the contract, and zero where it has none.
pub decode_csa-posted :
    (cid ccy : String) (p : CsaPayload) (csb : Dict ℤ) (d : DecodedCsa)
    → p.csb ≡ some csb
    → IsMap csb
    → decode_csa cid p ≡ some d
    → posted_net ccy (d.posted_by_a, d.posted_by_b) ≡ or_zero (lookup ccy csb)
unfolding lookup
decode_csa-posted cid ccy p csb d has m e =
    let (a, b) = decode_csa-split cid p csb d has e in
    ap₂ (λ x y. posted_net ccy (x, y)) a b ∙ (elim (Option-cases (lookup ccy csb)) [
      | inl nothing ↦ split_posted-absent ccy csb ([], []) nothing ∙ rw nothing none_posted
      | inr (n, there) ↦
          split_posted-present ccy csb ([], []) n m (refl, refl) there ∙ rw there refl
    ])
