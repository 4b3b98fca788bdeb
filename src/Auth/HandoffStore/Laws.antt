-- ===== src/Auth/HandoffStore/Laws.antt =====
-- What a handoff code can be redeemed for, and how often.
use irsforge.Base.{
  ℕ, suc, ◌+◌, ◌≤◌, ◌≡◌, Option, none, some, String, ◌==◌, eq_iff, eq_refl, ltb, if◌then◌else◌,
  List, [], ◌∷◌, arith,
}
use irsforge.Base.Dict.{lookup, lookup-insert, lookup-erase}
use irsforge.Auth.HandoffStore.{
  Grant, HandoffStore, new_handoff_store, put_handoff, consume_handoff,
}

-- A grant that was put under a code is what the code is redeemed for until its time is up, and
-- nothing afterwards.
pub consume_handoff-put_handoff :
    (h : String) (g : Grant) (t t' : ℕ) (s : HandoffStore)
    → (consume_handoff h t' (put_handoff h g t s)).0
      ≡ (if ltb (t + s.ttl_ms) t' then none else some g)
unfolding consume_handoff put_handoff
consume_handoff-put_handoff h g t t' s =
    ground (
      arith,
      lookup-insert h h (record { grant = g; expires_at = t + s.ttl_ms }) s.store,
      eq_refl h,
    )

-- What the calls on a store can be, with the clock's reading.
pub data Call : Type 0 where
  put : String → Grant → ℕ → Call
  consume : String → ℕ → Call

abbrev pub run_call : Call → HandoffStore → HandoffStore
run_call (put h g t) s = put_handoff h g t s
run_call (consume h t) s = (consume_handoff h t s).1

abbrev pub run_calls : List Call → HandoffStore → HandoffStore
run_calls [] s = s
run_calls (c ∷ cs) s = run_calls cs (run_call c s)

abbrev pub redeems : String → Option Grant → ℕ
redeems h none = 0
redeems h (some _) = 1

-- How often the calls redeem a code, and how often they put something under it.
abbrev pub redeemed : String → List Call → HandoffStore → ℕ
redeemed h [] s = 0
redeemed h (put j g t ∷ cs) s = redeemed h cs (put_handoff j g t s)
redeemed h (consume j t ∷ cs) s =
    let (r, s') = consume_handoff j t s in
    if j == h then redeems h r + redeemed h cs s' else redeemed h cs s'

abbrev pub puts : String → List Call → ℕ
puts h [] = 0
puts h (put j g t ∷ cs) = if j == h then suc (puts h cs) else puts h cs
puts h (consume j t ∷ cs) = puts h cs

abbrev pub held : String → HandoffStore → ℕ
held h s = elim (lookup h s.store) [ none ↦ 0 | some _ ↦ 1 ]

held-put :
    (h j : String) (g : Grant) (t : ℕ) (s : HandoffStore)
    → held h (put_handoff j g t s) ≤ held h s + (if j == h then 1 else 0)
unfolding put_handoff
held-put h j g t s =
    ground (arith, lookup-insert j h (record { grant = g; expires_at = t + s.ttl_ms }) s.store)

held-consume :
    (h j : String) (t : ℕ) (s : HandoffStore)
    → (if j == h then redeems h (consume_handoff j t s).0 else 0) + held h (consume_handoff j t s).1
      ≤ held h s
unfolding consume_handoff
held-consume h j t s = ground (arith, eq_iff j h, lookup-erase j h s.store)

-- Along any sequence of calls, a code is redeemed at most once for each time that something was
-- put under it, and once more if it was held at the start.
pub redeemed-le-puts :
    (h : String) (cs : List Call) (s : HandoffStore) → redeemed h cs s ≤ held h s + puts h cs
redeemed-le-puts h [] s = omega arith
redeemed-le-puts h (put j g t ∷ cs) s =
    ground (arith, redeemed-le-puts h cs (put_handoff j g t s), held-put h j g t s)
redeemed-le-puts h (consume j t ∷ cs) s =
    ground (arith, redeemed-le-puts h cs (consume_handoff j t s).1, held-consume h j t s)

-- From a new store, a code that was put once is redeemed at most once, whatever else is called.
pub redeemed_once :
    (h : String) (cs : List Call) (ttl_seconds : ℕ)
    → puts h cs ≤ 1
    → redeemed h cs (new_handoff_store ttl_seconds) ≤ 1
unfolding new_handoff_store lookup
redeemed_once h cs ttl_seconds p =
    omega (arith, redeemed-le-puts h cs (new_handoff_store ttl_seconds))
