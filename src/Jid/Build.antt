-- ===== src/Jid/Build.antt =====
-- What `New` builds: an address from three prepared parts.
use xmpp.Prelude.{
  ◌+◌, if◌then◌else◌, Bool, true, not, ◌||◌, none, [], ◌∷◌, ◌++◌, ◌≡◌, refl, sym, inl, inr, ◌∙◌,
  append_assoc, append-nil, Bytes, is_empty, length, drop, Result, ok, err, ◌>>=◌, arith,
  Result-cases, length-append, take_prefix, drop_prefix, subst,
}
use xmpp.Jid.{
  Error, invalid_utf8, Jid, Prep, local_checks, resource_checks, unless, append_prepared, localpart,
  domainpart, resourcepart, new_unsafe, normalize_domainpart, new,
}

-- A part that may be left out is prepared only if it is there.
abbrev pub prepared : (Bytes → Result Error Bytes) → Bytes → Result Error Bytes
prepared profile s = if is_empty s then ok [] else profile s

pub append_prepared_lem :
    (profile : Bytes → Result Error Bytes) (buf s : Bytes)
    → append_prepared profile buf s ≡ (prepared profile s >>= λ o. ok (buf ++ o))
unfolding append_prepared
append_prepared_lem profile buf [] = rw append-nil
append_prepared_lem profile buf (c ∷ s) = refl

-- The parts of an address are read back from its octets.
pub localpart-new_unsafe : (l d r : Bytes) → localpart (new_unsafe l d r) ≡ l
unfolding localpart new_unsafe
localpart-new_unsafe l d r = take_prefix l (d ++ r)

pub domainpart-new_unsafe : (l d r : Bytes) → domainpart (new_unsafe l d r) ≡ d
unfolding domainpart new_unsafe
domainpart-new_unsafe l d r = rw (drop_prefix l (d ++ r)) (take_prefix d r)

pub drop_two : (l d r : Bytes) → drop (length l + length d) (l ++ (d ++ r)) ≡ r
drop_two l d r =
    subst (λ n. drop n (l ++ (d ++ r)) ≡ r) (length-append l d)
      (rw (← append_assoc l d r) (drop_prefix (l ++ d) r))

pub resourcepart-new_unsafe : (l d r : Bytes) → resourcepart (new_unsafe l d r) ≡ r
unfolding resourcepart new_unsafe
resourcepart-new_unsafe l d r = drop_two l d r

module _ (p : Prep) where
  open p use {valid_utf8, username_case_mapped, opaque_string}

  -- The result of `New` once its parts are prepared.
  finish : Bytes → Bytes → Bytes → Result Error Jid
  finish local d' res = do
    a ← unless (local_checks local) (local ++ (d' ++ res))
    b ← unless (resource_checks res) (local ++ (d' ++ res))
    ok (new_unsafe local d' res)

  new-prepared :
      (l d r : Bytes) {local d' res : Bytes}
      → prepared username_case_mapped l ≡ ok local
      → normalize_domainpart p d ≡ ok d'
      → prepared opaque_string r ≡ ok res
      → new p l d r ≡ (
          if not (valid_utf8 l) || not (valid_utf8 r)
          then err invalid_utf8
          else finish local d' res)
  unfolding new finish new_unsafe
  new-prepared l d r {local} {d'} {res} el ed er =
      rw (ed, append_prepared_lem username_case_mapped [] l, el)
        (rw (append_prepared_lem opaque_string (local ++ d') r, er)
          (rw (append_assoc local d' res, take_prefix local (d' ++ res), drop_two local d' res)))

  -- What a result of `New` is: the parts prepared, checked and put one behind the other.
  pub record Built (l d r : Bytes) (j : Jid) : Type 0 where
    pub local_utf8 : valid_utf8 l ≡ true
    pub resource_utf8 : valid_utf8 r ≡ true
    pub local_prepared : prepared username_case_mapped l ≡ ok (localpart j)
    pub domain_prepared : normalize_domainpart p d ≡ ok (domainpart j)
    pub resource_prepared : prepared opaque_string r ≡ ok (resourcepart j)
    pub local_passes : local_checks (localpart j) ≡ none
    pub resource_passes : resource_checks (resourcepart j) ≡ none
    pub in_order : new_unsafe (localpart j) (domainpart j) (resourcepart j) ≡ j

  finish-ok :
      (a b : Bool) (local d' res : Bytes) {j : Jid}
      → (if not a || not b then err invalid_utf8 else finish local d' res) ≡ ok j
      → (a ≡ true)
        × (b ≡ true)
        × (local_checks local ≡ none)
        × (resource_checks res ≡ none)
        × (new_unsafe local d' res ≡ j)
  unfolding finish
  finish-ok a b local d' res h = ground arith

  domain_fails :
      (l d r : Bytes) {e : Error} {j : Jid}
      → normalize_domainpart p d ≡ err e
      → new p l d r ≡ ok j
      → ⊥
  unfolding new
  domain_fails l d r ed h = ground arith

  local_fails :
      (l d r : Bytes) {e : Error} {j : Jid}
      → prepared username_case_mapped l ≡ err e
      → new p l d r ≡ ok j
      → ⊥
  unfolding new
  local_fails l d r el h = ground (arith, append_prepared_lem username_case_mapped [] l)

  resource_fails :
      (l d r : Bytes) {local d' : Bytes} {e : Error} {j : Jid}
      → prepared username_case_mapped l ≡ ok local
      → normalize_domainpart p d ≡ ok d'
      → prepared opaque_string r ≡ err e
      → new p l d r ≡ ok j
      → ⊥
  unfolding new
  resource_fails l d r {local} {d'} el ed er h = ground (
    arith,
    append_prepared_lem username_case_mapped [] l,
    append_prepared_lem opaque_string (local ++ d') r,
  )

  -- `New` succeeds only with prepared parts.
  Built-prepared :
      (l d r : Bytes) {local d' res : Bytes} {j : Jid}
      → prepared username_case_mapped l ≡ ok local
      → normalize_domainpart p d ≡ ok d'
      → prepared opaque_string r ≡ ok res
      → new p l d r ≡ ok j
      → Built l d r j
  Built-prepared l d r {local} {d'} {res} {j} el ed er h =
      let (vl, vr, cl, cr, same) =
        finish-ok (valid_utf8 l) (valid_utf8 r) local d' res
          (sym (new-prepared l d r el ed er) ∙ h) in
      subst (Built l d r) same (record {
        local_utf8 = vl;
        resource_utf8 = vr;
        local_prepared = rw localpart-new_unsafe el;
        domain_prepared = rw domainpart-new_unsafe ed;
        resource_prepared = rw resourcepart-new_unsafe er;
        local_passes = rw localpart-new_unsafe cl;
        resource_passes = rw resourcepart-new_unsafe cr;
        in_order = rw (localpart-new_unsafe, domainpart-new_unsafe, resourcepart-new_unsafe);
      })

  -- A result of `New` is built of its prepared and checked parts.
  pub new-Built : (l d r : Bytes) {j : Jid} → new p l d r ≡ ok j → Built l d r j
  new-Built l d r h = elim (Result-cases (normalize_domainpart p d)) [
    | inr (e, ed) ↦ absurd (domain_fails l d r ed h)
    | inl (d', ed) ↦ elim (Result-cases (prepared username_case_mapped l)) [
      | inr (e, el) ↦ absurd (local_fails l d r el h)
      | inl (local, el) ↦ elim (Result-cases (prepared opaque_string r)) [
        | inr (e, er) ↦ absurd (resource_fails l d r el ed er h)
        | inl (res, er) ↦ Built-prepared l d r el ed er h
      ]
    ]
  ]

  -- Parts that can be prepared and pass the checks are accepted.
  pub Built-new : (l d r : Bytes) {j : Jid} → Built l d r j → new p l d r ≡ ok j
  unfolding finish
  Built-new l d r b =
      new-prepared l d r b.local_prepared b.domain_prepared b.resource_prepared
      ∙ rw (b.local_utf8, b.resource_utf8, b.local_passes, b.resource_passes, b.in_order)
