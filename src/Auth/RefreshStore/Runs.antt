-- ===== src/Auth/RefreshStore/Runs.antt =====
-- Runs of the refresh token store: any sequence of calls, and the same calls on a function from
-- tokens to entries that never forgets a token because it has expired.
use irsforge.Base.{
  ℕ, ◌+◌, ◌≤◌, ◌≡◌, refl, ap, sym, ◌∙◌, ◌⊎◌, inl, inr, Option, none, some, String, List, [], ◌∷◌,
  ◌==◌, eq_iff, leb, Bool-cases, eq-cases, if◌then◌else◌, arith,
}
use irsforge.Base.Dict.{Dict, lookup, insert, erase, lookup-insert, lookup-erase}
use irsforge.Auth.RefreshStore.{
  RefreshSession, TokenEntry, RefreshTokenStore, seconds, create, validate, rotate, revoke,
}

-- A call, with the token that it makes and the times that it reads.
pub data Call : Type 0 where
  creates : (token : String) (now : ℕ) (session : RefreshSession) → Call
  validates : (token : String) (now : ℕ) → Call
  rotates : (old_token token : String) (now now' : ℕ) → Call
  revokes : (token : String) → Call

pub data Answer : Type 0 where
  made : (token : String) → Answer
  session : Option RefreshSession → Answer
  rotated : Option String → Answer
  revoked : Answer

unfoldable pub call : Call → RefreshTokenStore → Answer × RefreshTokenStore
unfolding create validate rotate revoke
call (creates token now x) s = let (t, s') = create token now x s in (made t, s')
call (validates token now) s = let (x, s') = validate token now s in (session x, s')
call (rotates old token now now') s = let (t, s') = rotate old token now now' s in (rotated t, s')
call (revokes token) s = (revoked, revoke token s)

-- The answers to a sequence of calls.
unfoldable pub run : List Call → RefreshTokenStore → List Answer
unfolding call
run [] s = []
run (c ∷ cs) s = let (a, s') = call c s in a ∷ run cs s'

-- The specification's state.
abbrev pub Entries : Type 0
Entries = String → Option TokenEntry

abbrev pub update : String → Option TokenEntry → Entries → Entries
update token entry f asked = if token == asked then entry else f asked

-- The entry of a token that has not expired.
abbrev pub live : ℕ → Option TokenEntry → Option TokenEntry
live now none = none
live now (some e) = if leb e.expires_at (seconds now) then none else some e

abbrev pub entry_from : ℕ → ℕ → RefreshSession → TokenEntry
entry_from ttl now x = record { session = x; expires_at = seconds now + ttl }

abbrev pub moved : ℕ → String → String → ℕ → Option TokenEntry → Entries → Answer × Entries
moved ttl old token now' none f = (rotated none, f)
moved ttl old token now' (some e) f =
    (rotated (some token), update token (some (entry_from ttl now' e.session)) (update old none f))

abbrev pub session_of : Option TokenEntry → Option RefreshSession
session_of none = none
session_of (some e) = some e.session

-- A call on the specification: a token is good for its session until it expires, is revoked or
-- is rotated.
unfoldable pub specified : ℕ → Call → Entries → Answer × Entries
specified ttl (creates token now x) f = (made token, update token (some (entry_from ttl now x)) f)
specified ttl (validates token now) f = (session (session_of (live now (f token))), f)
specified ttl (rotates old token now now') f = moved ttl old token now' (live now (f old)) f
specified ttl (revokes token) f = (revoked, update token none f)

unfoldable pub specified_run : ℕ → List Call → Entries → List Answer
unfolding specified
specified_run ttl [] f = []
specified_run ttl (c ∷ cs) f = let (a, f') = specified ttl c f in a ∷ specified_run ttl cs f'

-- The clock does not go back: the calls read times from `t` on, in order.
abbrev pub InOrder : ℕ → List Call → Type 0
InOrder t [] = Unit
InOrder t (creates token now x ∷ cs) = (t ≤ now) × InOrder now cs
InOrder t (validates token now ∷ cs) = (t ≤ now) × InOrder now cs
InOrder t (rotates old token now now' ∷ cs) = (t ≤ now) × (now ≤ now') × InOrder now' cs
InOrder t (revokes token ∷ cs) = InOrder t cs

-- What the store holds of a token, against the specification: the same, or nothing where the
-- specification holds an entry that has expired by the time `t`.
abbrev pub Agree : ℕ → Option TokenEntry → Option TokenEntry → Type 0
Agree t held entry =
    (held ≡ entry)
    ⊎ ((held ≡ none) × ((e : TokenEntry) × (entry ≡ some e) × (e.expires_at ≤ seconds t)))

abbrev pub Agrees : ℕ → Dict TokenEntry → Entries → Type 0
Agrees t m f = (k : String) → Agree t (lookup k m) (f k)

Agree-later : (t u : ℕ) (a b : Option TokenEntry) → t ≤ u → Agree t a b → Agree u a b
Agree-later t u a b h (inl same) = inl same
Agree-later t u a b h (inr (gone, (e, at, late))) = inr (gone, (e, at, omega (arith, late, h)))

pub Agrees-later :
    (t u : ℕ) (m : Dict TokenEntry) (f : Entries) → t ≤ u → Agrees t m f → Agrees u m f
Agrees-later t u m f h agrees k = Agree-later t u (lookup k m) (f k) h (agrees k)

pub insert-Agrees :
    (t : ℕ) (token : String) (e : TokenEntry) (m : Dict TokenEntry) (f : Entries)
    → Agrees t m f
    → Agrees t (insert token e m) (update token (some e) f)
insert-Agrees t token e m f agrees k = elim (Bool-cases (token == k)) [
  | inl same ↦ rw (lookup-insert token k e m, same) (inl refl)
  | inr other ↦ rw (lookup-insert token k e m, other) (agrees k)
]

pub erase-Agrees :
    (t : ℕ) (token : String) (m : Dict TokenEntry) (f : Entries)
    → Agrees t m f
    → Agrees t (erase token m) (update token none f)
erase-Agrees t token m f agrees k = elim (Bool-cases (token == k)) [
  | inl same ↦ rw (lookup-erase token k m, same) (inl refl)
  | inr other ↦ rw (lookup-erase token k m, other) (agrees k)
]

-- A token that has expired may be dropped.
pub expire-Agrees :
    (t : ℕ) (token : String) (e : TokenEntry) (m : Dict TokenEntry) (f : Entries)
    → f token ≡ some e
    → e.expires_at ≤ seconds t
    → Agrees t m f
    → Agrees t (erase token m) f
expire-Agrees t token e m f at late agrees k = elim (eq-cases token k) [
  | inl same ↦
      rw (lookup-erase token k m, (eq_iff token k).1 same)
        (inr (refl, (e, ap f (sym same) ∙ at, late)))
  | inr other ↦ rw (lookup-erase token k m, other) (agrees k)
]
