-- ===== src/Auth/OauthToken/Laws.antt =====
-- Who gets a service token, and what a request without one is told.
use irsforge.Base.{
  ℕ, ◌≡◌, ◌≢◌, Option, none, some, String, List, [], ◌∷◌, Bool, true, ◌==◌, eq_iff, arith, find,
  Option-cases, inl, inr,
}
use mathlib.Core.List.{Memᴰ}
use irsforge.Base.Dict.{Dict, lookup, insert, lookup-insert}
use irsforge.Auth.Token.{Settings, Claims}
use irsforge.Auth.Http.{Reply}
use irsforge.Auth.OauthToken.{
  ServiceAccountEntry, ServiceAccountMetadata, OauthTokenRequest, add_entries, new_registry,
  token_reply,
}

module _ (compare : String → String → Bool) (dummy_hash : String) (settings : Settings)
    (sign : Claims → String) (registry : Dict ServiceAccountEntry)
    (accounts : List ServiceAccountMetadata) (req : OauthTokenRequest) (now : ℕ) where
  -- What a service token rests on.
  pub record IsClient (r : Reply) : Type 0 where
    pub id : String
    pub secret : String
    pub entry : ServiceAccountEntry
    pub account : ServiceAccountMetadata
    pub grant : lookup "grant_type" req.params ≡ some "client_credentials"
    pub named : lookup "client_id" req.params ≡ some id
    pub given : lookup "client_secret" req.params ≡ some secret
    pub registered : lookup id registry ≡ some entry
    pub right : compare secret entry.client_secret_hash ≡ true
    pub listed : Memᴰ account accounts
    pub same : account.id ≡ id
    pub issued : r ≡ token_reply compare dummy_hash settings sign account id now

abbrev with_id : String → ServiceAccountEntry → Bool
with_id k e = e.id == k

abbrev or_found :
    Option ServiceAccountEntry → Option ServiceAccountEntry → Option ServiceAccountEntry
or_found none o = o
or_found (some e) o = some e

-- No entry's id is that of an earlier one, or of one that is there already.
abbrev pub IsDistinct : Dict ServiceAccountEntry → List ServiceAccountEntry → Type 0
IsDistinct by_id [] = Unit
IsDistinct by_id (e ∷ es) = (lookup e.id by_id ≡ none) × IsDistinct (insert e.id e by_id) es

add_entries_sound :
    (by_id : Dict ServiceAccountEntry) (es : List ServiceAccountEntry)
    (m : Dict ServiceAccountEntry)
    → add_entries by_id es ≡ some m
    → IsDistinct by_id es
      × ((k : String) → lookup k m ≡ or_found (lookup k by_id) (find (with_id k) es))
unfolding add_entries
add_entries_sound by_id [] m h = (tt, λ k. ground arith)
add_entries_sound by_id (e ∷ es) m h = elim (Option-cases (lookup e.id by_id)) [
  | inr (x, taken) ↦ absurd (ground arith)
  | inl free ↦
      let (d, all) = add_entries_sound (insert e.id e by_id) es m (ground arith) in
      ((free, d), λ k. ground (arith, all k, lookup-insert e.id k e by_id, eq_iff e.id k))
]

add_entries_complete :
    (by_id : Dict ServiceAccountEntry) (es : List ServiceAccountEntry)
    → IsDistinct by_id es
    → add_entries by_id es ≢ none
unfolding add_entries
add_entries_complete by_id [] d = cc
add_entries_complete by_id (e ∷ es) d =
    ground (arith, add_entries_complete (insert e.id e by_id) es d.1)

-- A registry that is built has no repeated id, and it finds for each id the one entry of that id,
-- and for an id with no entry nothing.
pub new_registry_sound :
    (es : List ServiceAccountEntry) (m : Dict ServiceAccountEntry)
    → new_registry es ≡ some m
    → IsDistinct [] es × ((k : String) → lookup k m ≡ find (λ e. e.id == k) es)
unfolding new_registry lookup
new_registry_sound es m h =
    let (d, all) = add_entries_sound [] es m h in (d, λ k. ground (arith, all k))

-- The constructor does not throw where no id is repeated.
pub new_registry_complete :
    (es : List ServiceAccountEntry) → IsDistinct [] es → new_registry es ≢ none
unfolding new_registry
new_registry_complete es d = add_entries_complete [] es d
