-- ===== src/Streams/Restart.antt =====
-- negotiator.go: the addresses of a stream that is started again. The Info of what comes in keeps
-- its
-- addresses over a restart: LocalAddr and RemoteAddr read them before the new header is read.
use xmpp.Prelude.{
  if◌then◌else◌, Bool, true, false, not, ◌&&◌, List, ◌≡◌, ◌⊎◌, inl, inr, refl, subst, Result, ok,
  err, ok-injective, arith, if-cases,
}
use xmpp.Jid.{Jid, Prep, zero_jid, equal}
use xmpp.Xml.{Token}
use xmpp.Streams.Header.{Info, StreamError, expect}

pub data RestartError : Type 0 where
  bad_header : StreamError → RestartError
  origin_changed : RestartError
  location_changed : RestartError

-- The checks of the side that receives a stream, `origin` and `location` from before; `s2s` is
-- that bit.
unfoldable pub check_received : Bool → Jid → Jid → Info → Result RestartError Info
check_received s2s origin location i =
    if not (not s2s && equal origin zero_jid) && not (equal origin i.from)
    then err origin_changed
    else if not (equal location zero_jid) && not (equal location i.to)
    then err location_changed
    else ok i

-- The checks of the side that initiates it.
unfoldable pub check_initiated : Jid → Jid → Info → Result RestartError Info
check_initiated origin location i =
    if not (equal location i.from)
    then err location_changed
    else if not (equal i.to zero_jid) && not (equal origin i.to)
    then err origin_changed
    else ok i

-- The header is read, and its addresses are compared with those from before.
unfoldable pub restart_stream :
    Prep → (List Token → Bool) → Bool → Bool → Bool → Info → List Token → Result RestartError Info
restart_stream p skip received s2s ws i tokens = elim (expect p skip received ws i tokens) [
  | err e ↦ err (bad_header e)
  | ok i' ↦ if received then check_received s2s i.from i.to i' else check_initiated i.to i.from i'
]

either_holds : (a b : Bool) → (not a && not b) ≡ false → (a ≡ true) ⊎ (b ≡ true)
either_holds true b e = inl refl
either_holds false true e = inr refl
either_holds false false e = absurd (ground arith)

both_hold : (a b : Bool) → (a && b) ≡ true → (a ≡ true) × (b ≡ true)
both_hold a b e = (ground arith, ground arith)

branch_taken :
    {A : Type 0} (b : Bool) {x y z : A}
    → (if b then x else y) ≡ z
    → (b ≡ false → y ≡ z) × (b ≡ true → x ≡ z)
branch_taken true e = (λ h. absurd (cc h), λ _. e)
branch_taken false e = (λ _. e, λ h. absurd (cc h))

abbrev pub IsSame : Info → Info → Type 0
IsSame i i' =
    (equal i.from i'.from ≡ true) × ((equal i.to i'.to ≡ true) ⊎ (equal i'.to zero_jid ≡ true))

abbrev pub IsKnown : Bool → Info → Info → Type 0
IsKnown s2s i i' =
    ((equal i.from i'.from ≡ true) ⊎ ((s2s ≡ false) × (equal i.from zero_jid ≡ true)))
    × ((equal i.to i'.to ≡ true) ⊎ (equal i.to zero_jid ≡ true))

initiated-IsSame : (i j i' : Info) → check_initiated i.to i.from j ≡ ok i' → IsSame i i'
unfolding check_initiated
initiated-IsSame i j i' e =
    if-cases Sound (not (equal i.from j.from)) (λ _ f. absurd (cc f))
      (λ same.
        if-cases Sound (not (equal j.to zero_jid) && not (equal i.to j.to)) (λ _ f. absurd (cc f))
          (λ kept f. subst (IsSame i) (ok-injective f) (
            ground arith,
            elim (either_holds (equal j.to zero_jid) (equal i.to j.to) kept) [
              | inl a ↦ inr a
              | inr b ↦ inl b
            ],
          )))
      e
  where
    Sound : Result RestartError Info → Type 0
    Sound x = x ≡ ok i' → IsSame i i'

received-IsKnown :
    (s2s : Bool) (i j i' : Info) → check_received s2s i.from i.to j ≡ ok i' → IsKnown s2s i i'
unfolding check_received
received-IsKnown s2s i j i' e =
    if-cases Sound (not (not s2s && equal i.from zero_jid) && not (equal i.from j.from))
      (λ _ f. absurd (cc f))
      (λ origin.
        if-cases Sound (not (equal i.to zero_jid) && not (equal i.to j.to)) (λ _ f. absurd (cc f))
          (λ location f. subst (IsKnown s2s i) (ok-injective f) (
            (elim (either_holds (not s2s && equal i.from zero_jid) (equal i.from j.from) origin) [
              | inl a ↦
                  let (client, unset) = both_hold (not s2s) (equal i.from zero_jid) a in
                  inr (ground arith, unset)
              | inr b ↦ inl b
            ]),
            elim (either_holds (equal i.to zero_jid) (equal i.to j.to) location) [
              | inl a ↦ inr a
              | inr b ↦ inl b
            ],
          )))
      e
  where
    Sound : Result RestartError Info → Type 0
    Sound x = x ≡ ok i' → IsKnown s2s i i'

-- A restart that succeeds has not changed who the two sides are: the side that initiates finds
-- the other where it was, and itself unchanged or not named; the side that receives finds both as
-- they were, but what was not known may be set: where the stream goes to, and who it comes from
-- if that is a client.
pub restart_keeps :
    (p : Prep) (skip : List Token → Bool) (received s2s ws : Bool) (i i' : Info)
    (tokens : List Token)
    → restart_stream p skip received s2s ws i tokens ≡ ok i'
    → (received ≡ false
        → (equal i.from i'.from ≡ true)
          × ((equal i.to i'.to ≡ true) ⊎ (equal i'.to zero_jid ≡ true)))
      × (received ≡ true
          → ((equal i.from i'.from ≡ true) ⊎ ((s2s ≡ false) × (equal i.from zero_jid ≡ true)))
            × ((equal i.to i'.to ≡ true) ⊎ (equal i.to zero_jid ≡ true)))
unfolding restart_stream
restart_keeps p skip received s2s ws i i' tokens e =
    by_header (expect p skip received ws i tokens) e
  where
    by_header :
        (x : Result StreamError Info)
        → (elim x as (λ _. Result RestartError Info) [
          | err f ↦ err (bad_header f)
          | ok j ↦
              if received then check_received s2s i.from i.to j else check_initiated i.to i.from j
        ])
          ≡ ok i'
        → (received ≡ false → IsSame i i') × (received ≡ true → IsKnown s2s i i')
    by_header (err f) g = absurd (cc g)
    by_header (ok j) g =
        let (initiated, known) = branch_taken received g in
        (
          λ side. initiated-IsSame i j i' (initiated side),
          λ side. received-IsKnown s2s i j i' (known side),
        )
