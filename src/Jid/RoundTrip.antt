-- ===== src/Jid/RoundTrip.antt =====
-- Printing an address and parsing it again.
use mathlib.Core.Bool.{and-false}
use xmpp.Prelude.{
  ◌&&◌, ◌↔◌, inl, inr, Result-cases, ℕ, Bool, true, false, none, [], ◌∷◌, ◌≡◌, refl, sym, ap, subst,
  ◌∙◌, Bytes, is_empty, Result, ok, err, arith, Lacks, not,
}
use xmpp.Jid.{
  Error, Jid, Prep, is_forbidden, is_slash, is_at, localpart, domainpart, resourcepart, new_unsafe,
  string, split_string, new, parse, normalize_domainpart, with_local, with_resource,
}
use xmpp.Jid.Split.{AreParts, join_parts, split_complete, split_sound}
use xmpp.Jid.Build.{prepared, Built, Built-new, new-Built}
use xmpp.Jid.Parts.{
  Fits, new_unsafe-parts, string-new_unsafe, with_local_parts, with_resource_parts,
}
use xmpp.Jid.WellFormed.{IsValid, local_checks_iff, resource_checks_iff}

-- The parts of an address that preparing again leaves as they are.
pub record IsStable (p : Prep) (j : Jid) : Type 0 where
  pub local_utf8 : p.valid_utf8 (localpart j) ≡ true
  pub resource_utf8 : p.valid_utf8 (resourcepart j) ≡ true
  pub local_stable : prepared p.username_case_mapped (localpart j) ≡ ok (localpart j)
  pub domain_stable : normalize_domainpart p (domainpart j) ≡ ok (domainpart j)
  pub resource_stable : prepared p.opaque_string (resourcepart j) ≡ ok (resourcepart j)

-- No separator in the domainpart is taken for one between the parts: it holds no slash and, if
-- there is no localpart, no at sign.
pub record IsUncut (j : Jid) : Type 0 where
  pub domain_slash : Lacks is_slash (domainpart j)
  pub domain_at : (localpart j ≡ []) → Lacks is_at (domainpart j)

-- A localpart that passes the checks holds neither separator.
forbidden_slash : (c : ℕ) → is_forbidden c ≡ false → is_slash c ≡ false
unfolding is_forbidden
forbidden_slash c h = ground arith

forbidden_at : (c : ℕ) → is_forbidden c ≡ false → is_at c ≡ false
unfolding is_forbidden
forbidden_at c h = ground arith

Lacks-weaken :
    (f g : ℕ → Bool) → ((c : ℕ) → f c ≡ false → g c ≡ false) → (s : Bytes) → Lacks f s → Lacks g s
Lacks-weaken f g w [] h = tt
Lacks-weaken f g w (c ∷ s) (h, t) = (w c h, Lacks-weaken f g w s t)

pub string_parts :
    (j : Jid) → Fits j → string j ≡ join_parts (localpart j) (domainpart j) (resourcepart j)
string_parts j h =
    ap string (sym (new_unsafe-parts j h))
    ∙ string-new_unsafe (localpart j) (domainpart j) (resourcepart j)

module _ (p : Prep) where
  valid-AreParts :
      (j : Jid) → IsValid j → IsUncut j → AreParts (localpart j) (domainpart j) (resourcepart j)
  valid-AreParts j v u = record {
    local_slash =
        Lacks-weaken is_forbidden is_slash forbidden_slash (localpart j) v.parts.local_clean;
    local_at = Lacks-weaken is_forbidden is_at forbidden_at (localpart j) v.parts.local_clean;
    domain_slash = u.domain_slash;
    domain_at = u.domain_at;
  }

  stable-Built :
      (j : Jid) → IsValid j → IsStable p j → Built p (localpart j) (domainpart j) (resourcepart j) j
  stable-Built j v s = record {
    local_utf8 = s.local_utf8;
    resource_utf8 = s.resource_utf8;
    local_prepared = s.local_stable;
    domain_prepared = s.domain_stable;
    resource_prepared = s.resource_stable;
    local_passes = (local_checks_iff (localpart j)).1 (v.parts.local_short, v.parts.local_clean);
    resource_passes = (resource_checks_iff (resourcepart j)).1 v.parts.resource_short;
    in_order = new_unsafe-parts j v.fits;
  }

  -- A well-formed address is parsed back from its text if its parts are stable under preparation,
  -- and its domainpart holds no slash and, where there is no localpart, no at sign.
  pub parse-string : (j : Jid) → IsValid j → IsStable p j → IsUncut j → parse p (string j) ≡ ok j
  unfolding parse
  parse-string j v s u =
      rw
        (
          string_parts j v.fits,
          split_complete (localpart j) (domainpart j) (resourcepart j) (valid-AreParts j v u),
        )
        (Built-new p (localpart j) (domainpart j) (resourcepart j) (stable-Built j v s))

  parse_step : (s l d r : Bytes) → split_string s true ≡ ok (l, d, r) → parse p s ≡ new p l d r
  unfolding parse
  parse_step s l d r e = rw e

  parse_fails :
      (s : Bytes) {e : Error} {j : Jid} → split_string s true ≡ err e → parse p s ≡ ok j → ⊥
  unfolding parse
  parse_fails s e h = ground arith

  -- `Parse` returns an address exactly if the text is that of three parts that no separator in
  -- them would cut elsewhere, and the address is built of these parts prepared and checked.
  pub parse_iff :
      (s : Bytes) (j : Jid)
      → (parse p s ≡ ok j) ↔ (
          (l : Bytes) × (d : Bytes) × (r : Bytes) × (s ≡ join_parts l d r)
          × AreParts l d r
          × Built p l d r j)
  parse_iff s j = (
    λ h. elim (Result-cases (split_string s true)) [
      | inr (e, bad) ↦ absurd (parse_fails s bad h)
      | inl ((l, d, r), good) ↦
          let (text, parts) = split_sound s good in
          (l, d, r, text, parts, new-Built p l d r (sym (parse_step s l d r good) ∙ h))
    ],
    λ (l, d, r, text, parts, built).
        parse_step s l d r (ap (λ t. split_string t true) text ∙ split_complete l d r parts)
        ∙ Built-new p l d r built,
  )

  ok_path : {a b : Bytes} {x : Result Error Bytes} → x ≡ ok a → x ≡ ok b → a ≡ b
  ok_path h k = cc

  guard_off :
      (x : Bytes) → p.valid_utf8 x ≡ true → (not (is_empty x) && not (p.valid_utf8 x)) ≡ false
  guard_off x h = rw (h, and-false)

  -- An address can be built at once or part by part: if `New` accepts the domainpart alone, and the
  -- three parts, then `WithLocal` and behind it `WithResource` succeed on the first address and
  -- lead to the second.
  pub new-with :
      (l d r : Bytes) {i j : Jid}
      → new p [] d [] ≡ ok i
      → new p l d r ≡ ok j
      → (k : Jid) × (with_local p i l ≡ (k, none)) × (with_resource p k r ≡ (j, none))
  new-with l d r {i} {j} hi hj =
      let bi = new-Built p [] d [] hi in
      let bj = new-Built p l d r hj in
      let start : new_unsafe [] (domainpart j) [] ≡ i =
        rw
          (
            ok_path bi.local_prepared refl,
            ok_path bi.domain_prepared bj.domain_prepared,
            ok_path bi.resource_prepared refl,
          )
          at bi.in_order in
      (
        new_unsafe (localpart j) (domainpart j) [],
        subst (λ x. with_local p x l ≡ (new_unsafe (localpart j) (domainpart j) [], none)) start
            (with_local_parts p [] (domainpart j) [] l (guard_off l bj.local_utf8) bj.local_prepared
              ∙ λ t. (new_unsafe (localpart j) (domainpart j) [], bj.local_passes t)),
        with_resource_parts p (localpart j) (domainpart j) [] r (guard_off r bj.resource_utf8)
              bj.resource_prepared
            ∙ λ t. (bj.in_order t, bj.resource_passes t),
      )
