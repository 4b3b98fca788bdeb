-- ===== src/Auth/StateStore/Laws.antt =====
-- A pending authorization request is found once, in time, and never again.
use irsforge.Base.{ℕ, ◌+◌, ◌≡◌, none, some, String, ◌==◌, eq_refl, ltb, if◌then◌else◌, arith, false}
use irsforge.Base.Dict.{lookup, lookup-insert, lookup-erase}
use irsforge.Auth.StateStore.{Pending, OidcStateStore, put_state, consume_state}

-- A request that was put under a state is found under it until its time is up.
pub consume_state-put_state :
    (k : String) (p : Pending) (t t' : ℕ) (s : OidcStateStore)
    → (consume_state k t' (put_state k p t s)).0 ≡ (if ltb (t + s.ttl_ms) t' then none else some p)
unfolding consume_state put_state
consume_state-put_state k p t t' s = ground (
  arith,
  lookup-insert k k (record { pending = p; expires_at = t + s.ttl_ms }) s.store,
  eq_refl k,
)

-- Whatever the first call gave, a second one finds nothing.
pub consume_state-consume_state :
    (k : String) (t t' : ℕ) (s : OidcStateStore)
    → (consume_state k t' (consume_state k t s).1).0 ≡ none
unfolding consume_state
consume_state-consume_state k t t' s = ground (arith, lookup-erase k k s.store, eq_refl k)

-- Other states stay as they were.
pub lookup-consume_state_ne :
    (j k : String) (t : ℕ) (s : OidcStateStore)
    → (j == k) ≡ false
    → lookup k (consume_state j t s).1.store ≡ lookup k s.store
unfolding consume_state
lookup-consume_state_ne j k t s h = ground (arith, lookup-erase j k s.store)
