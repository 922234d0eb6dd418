-- ===== src/Jid/WellFormed.antt =====
-- The invariant of an address, and the operations that keep it.
use xmpp.Prelude.{
  ◌-◌, ◌≤◌, true, not, ◌&&◌, none, some, [], ◌≡◌, sym, ap, subst, ◌∙◌, ◌↔◌, inl, inr, Bytes,
  is_empty, length, take, drop, ok, arith, Lacks, index_by-none, index_by-Lacks, length-take,
  length-drop, Bool-cases, Result-cases,
}
use xmpp.Jid.{
  Ip, v4, v6, Jid, Prep, is_forbidden, local_checks, resource_checks, localpart, domainpart,
  resourcepart, new_unsafe, bare, with_local, with_domain, with_resource, normalize_domainpart, new,
  is_ipv6, is_ipv4,
}
use xmpp.Jid.Build.{
  prepared, append_prepared_lem, localpart-new_unsafe, domainpart-new_unsafe,
  resourcepart-new_unsafe, new-Built,
}
use xmpp.Jid.Parts.{
  Fits, new_unsafe-Fits, new_unsafe-parts, with_local_parts, with_domain_parts, with_resource_parts,
}

-- What the code relies on: a textual IP address has at least one and at most 45 bytes.
pub record PrepLaws (p : Prep) : Type 0 where
  pub ip_bounds : (s : Bytes) {k : Ip} → p.parse_ip s ≡ some k → (1 ≤ length s) × (length s ≤ 45)

-- The limits of RFC 7622 that the code enforces.
pub record ValidParts (l d r : Bytes) : Type 0 where
  pub local_short : length l ≤ 1023
  pub local_clean : Lacks is_forbidden l
  pub domain_there : 1 ≤ length d
  pub domain_short : length d ≤ 1023
  pub resource_short : length r ≤ 1023

pub record IsValid (j : Jid) : Type 0 where
  pub fits : Fits j
  pub parts : ValidParts (localpart j) (domainpart j) (resourcepart j)

pub new_unsafe-IsValid : {l d r : Bytes} → ValidParts l d r → IsValid (new_unsafe l d r)
new_unsafe-IsValid {l} {d} {r} v = record {
  fits = new_unsafe-Fits l d r;
  parts = rw (localpart-new_unsafe, domainpart-new_unsafe, resourcepart-new_unsafe) v;
}

-- The checks pass exactly on parts within the limits.
pub local_checks_iff :
    (s : Bytes) → (local_checks s ≡ none) ↔ ((length s ≤ 1023) × Lacks is_forbidden s)
unfolding local_checks
local_checks_iff s = (
  λ h. (ground arith, index_by-none is_forbidden s (ground arith)),
  λ (short, clean). ground (arith, index_by-Lacks is_forbidden s clean),
)

pub resource_checks_iff : (s : Bytes) → (resource_checks s ≡ none) ↔ (length s ≤ 1023)
unfolding resource_checks
resource_checks_iff s = (λ h. ground arith, λ h. ground arith)

module _ (p : Prep) (laws : PrepLaws p) where
  ipv6_bounds : (s : Bytes) → is_ipv6 p s ≡ true → (1 ≤ length s) × (length s ≤ 1023)
  unfolding is_ipv6
  ipv6_bounds s h =
      let inner = take (length s - 1 - 1) (drop 1 s) in
      ground (
        arith,
        laws.ip_bounds inner {k = v6},
        length-take (length s - 1 - 1) (drop 1 s),
        length-drop 1 s,
      )

  ipv4_bounds : (s : Bytes) → is_ipv4 p s ≡ true → (1 ≤ length s) × (length s ≤ 1023)
  unfolding is_ipv4
  ipv4_bounds s h = ground (arith, laws.ip_bounds s {k = v4})

  pub normalize_bounds :
      (s : Bytes) {d : Bytes} → normalize_domainpart p s ≡ ok d → (1 ≤ length d) × (length d ≤ 1023)
  unfolding normalize_domainpart
  normalize_bounds s {d} h = ground (arith, ipv6_bounds s, ipv4_bounds s)

  -- If only texts of 1 to 45 bytes are taken for IP addresses, `New` returns only well-formed
  -- addresses: their lengths lie within the octets, the domainpart has 1 to 1023 bytes, the other
  -- two parts at most 1023, and the localpart no forbidden byte.
  pub new-IsValid : (l d r : Bytes) {j : Jid} → new p l d r ≡ ok j → IsValid j
  new-IsValid l d r {j} h =
      let b = new-Built p l d r h in
      let (short, clean) = (local_checks_iff (localpart j)).0 b.local_passes in
      let (there, domain_short) = normalize_bounds d b.domain_prepared in
      subst IsValid b.in_order (
        new_unsafe-IsValid (record {
          local_short = short;
          local_clean = clean;
          domain_there = there;
          domain_short = domain_short;
          resource_short = (resource_checks_iff (resourcepart j)).0 b.resource_passes;
        }))

  -- Each operation on parts: what it returns beside a nil error.
  with_local_inv :
      (l d r x : Bytes) {j : Jid}
      → with_local p (new_unsafe l d r) x ≡ (j, none)
      → (y : Bytes) × (prepared p.username_case_mapped x ≡ ok y)
        × (local_checks y ≡ none)
        × (new_unsafe y d r ≡ j)
  unfolding with_local
  with_local_inv l d r x h = elim (Bool-cases (not (is_empty x) && not (p.valid_utf8 x))) [
    | inl g ↦ absurd (ground arith)
    | inr g ↦ elim (Result-cases (prepared p.username_case_mapped x)) [
      | inr (e, bad) ↦ absurd (ground (arith, append_prepared_lem p.username_case_mapped [] x))
      | inl (y, good) ↦
          (y, good, cc (with_local_parts p l d r x g good), cc (with_local_parts p l d r x g good))
    ]
  ]

  with_resource_inv :
      (l d r x : Bytes) {j : Jid}
      → with_resource p (new_unsafe l d r) x ≡ (j, none)
      → (y : Bytes) × (prepared p.opaque_string x ≡ ok y)
        × (resource_checks y ≡ none)
        × (new_unsafe l d y ≡ j)
  unfolding with_resource
  with_resource_inv l d r x h = elim (Bool-cases (not (is_empty x) && not (p.valid_utf8 x))) [
    | inl g ↦ absurd (ground arith)
    | inr g ↦ elim (Result-cases (prepared p.opaque_string x)) [
      | inr (e, bad) ↦
          absurd
            (ground (arith, append_prepared_lem p.opaque_string (bare (new_unsafe l d r)).octets x))
      | inl (y, good) ↦ (
        y,
        good,
        cc (with_resource_parts p l d r x g good),
        cc (with_resource_parts p l d r x g good),
      )
    ]
  ]

  with_domain_inv :
      (l d r x : Bytes) {j : Jid}
      → with_domain p (new_unsafe l d r) x ≡ (j, none)
      → (y : Bytes) × (normalize_domainpart p x ≡ ok y) × (new_unsafe l y r ≡ j)
  unfolding with_domain
  with_domain_inv l d r x h = elim (Result-cases (normalize_domainpart p x)) [
    | inr (e, bad) ↦ absurd (ground arith)
    | inl (y, good) ↦ (y, good, cc (with_domain_parts p l d r x good))
  ]

  -- A change that returns the address of these parts has these parts.
  module _ (l d r : Bytes) {k : Jid} (same : new_unsafe l d r ≡ k) where
    of_parts :
        ValidParts l d r → IsValid k × (localpart k ≡ l) × (domainpart k ≡ d) × (resourcepart k ≡ r)
    of_parts v =
        subst (λ i. IsValid i × (localpart i ≡ l) × (domainpart i ≡ d) × (resourcepart i ≡ r)) same
          (
            new_unsafe-IsValid v,
            localpart-new_unsafe l d r,
            domainpart-new_unsafe l d r,
            resourcepart-new_unsafe l d r,
          )

  -- If only texts of 1 to 45 bytes are taken for IP addresses: `WithLocal`, with no error, keeps a
  -- well-formed address well-formed, sets the localpart to the prepared text and leaves the other
  -- parts alone.
  pub with_local_effect :
      (j : Jid) (x : Bytes) {k : Jid}
      → IsValid j
      → with_local p j x ≡ (k, none)
      → IsValid k
        × (prepared p.username_case_mapped x ≡ ok (localpart k))
        × (domainpart k ≡ domainpart j)
        × (resourcepart k ≡ resourcepart j)
  with_local_effect j x {k} v h =
      let (y, prep, passes, same) =
        with_local_inv (localpart j) (domainpart j) (resourcepart j) x
          (subst (λ i. with_local p i x ≡ (k, none)) (sym (new_unsafe-parts j v.fits)) h) in
      let (short, clean) = (local_checks_iff y).0 passes in
      let (valid, el, ed, er) = of_parts y (domainpart j) (resourcepart j) same (record {
        local_short = short;
        local_clean = clean;
        domain_there = v.parts.domain_there;
        domain_short = v.parts.domain_short;
        resource_short = v.parts.resource_short;
      }) in
      (valid, prep ∙ ap ok (sym el), ed, er)

  -- If only texts of 1 to 45 bytes are taken for IP addresses: `WithDomain`, with no error, keeps a
  -- well-formed address well-formed, sets the domainpart to the normalized text and leaves the
  -- other parts alone.
  pub with_domain_effect :
      (j : Jid) (x : Bytes) {k : Jid}
      → IsValid j
      → with_domain p j x ≡ (k, none)
      → IsValid k
        × (normalize_domainpart p x ≡ ok (domainpart k))
        × (localpart k ≡ localpart j)
        × (resourcepart k ≡ resourcepart j)
  with_domain_effect j x {k} v h =
      let (y, norm, same) =
        with_domain_inv (localpart j) (domainpart j) (resourcepart j) x
          (subst (λ i. with_domain p i x ≡ (k, none)) (sym (new_unsafe-parts j v.fits)) h) in
      let (there, short) = normalize_bounds x norm in
      let (valid, el, ed, er) = of_parts (localpart j) y (resourcepart j) same (record {
        local_short = v.parts.local_short;
        local_clean = v.parts.local_clean;
        domain_there = there;
        domain_short = short;
        resource_short = v.parts.resource_short;
      }) in
      (valid, norm ∙ ap ok (sym ed), el, er)

  -- If only texts of 1 to 45 bytes are taken for IP addresses: `WithResource`, with no error, keeps
  -- a well-formed address well-formed, sets the resourcepart to the prepared text and leaves the
  -- other parts alone.
  pub with_resource_effect :
      (j : Jid) (x : Bytes) {k : Jid}
      → IsValid j
      → with_resource p j x ≡ (k, none)
      → IsValid k
        × (prepared p.opaque_string x ≡ ok (resourcepart k))
        × (localpart k ≡ localpart j)
        × (domainpart k ≡ domainpart j)
  with_resource_effect j x {k} v h =
      let (y, prep, passes, same) =
        with_resource_inv (localpart j) (domainpart j) (resourcepart j) x
          (subst (λ i. with_resource p i x ≡ (k, none)) (sym (new_unsafe-parts j v.fits)) h) in
      let (valid, el, ed, er) = of_parts (localpart j) (domainpart j) y same (record {
        local_short = v.parts.local_short;
        local_clean = v.parts.local_clean;
        domain_there = v.parts.domain_there;
        domain_short = v.parts.domain_short;
        resource_short = (resource_checks_iff y).0 passes;
      }) in
      (valid, prep ∙ ap ok (sym er), el, ed)
