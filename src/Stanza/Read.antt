-- ===== src/Stanza/Read.antt =====
-- How the attributes that a stanza writes are read.
use xmpp.Prelude.{
  if◌then◌else◌, false, not, Option, none, some, List, [], ◌∷◌, ◌++◌, ◌≡◌, ◌⊎◌, inl, inr, refl, sym,
  ap, subst, ◌∙◌, ◌≤◌, Bytes, codes, text_eq, is_empty, length, ok, arith, Bool-cases,
}
use xmpp.Jid.{Error, Jid, Prep, zero_jid, equal, string, parse, localpart, domainpart, resourcepart}
use xmpp.Jid.Split.{join_parts}
use xmpp.Jid.Parts.{equal_iff}
use xmpp.Jid.WellFormed.{IsValid}
use xmpp.Jid.RoundTrip.{string_parts}
use xmpp.Xml.{Name, Attr, ns_xml}
use xmpp.Stanza.{Stanza, set_attr, set_attrs, attribute, jid_attr, shared_attrs}

-- An address that is not set, or that is well formed and is parsed back from its text.
abbrev pub IsAddress : Prep → Jid → Type 0
IsAddress p j = (j ≡ zero_jid) ⊎ (IsValid j × (parse p (string j) ≡ ok j))

join_parts-nonempty : (l d r : Bytes) → 1 ≤ length d → is_empty (join_parts l d r) ≡ false
join_parts-nonempty l [] r h = absurd (omega arith)
join_parts-nonempty [] (c ∷ d) [] h = refl
join_parts-nonempty [] (c ∷ d) (x ∷ r) h = refl
join_parts-nonempty (b ∷ l) (c ∷ d) [] h = refl
join_parts-nonempty (b ∷ l) (c ∷ d) (x ∷ r) h = refl

pub string-nonempty : (j : Jid) → IsValid j → is_empty (string j) ≡ false
string-nonempty j v =
    rw (string_parts j v.fits)
      (join_parts-nonempty (localpart j) (domainpart j) (resourcepart j) v.parts.domain_there)

valid-ne-zero : (j : Jid) → IsValid j → equal j zero_jid ≡ false
unfolding domainpart
valid-ne-zero j v = elim (Bool-cases (equal j zero_jid)) [
  | inr e ↦ e
  | inl e ↦ absurd (omega (arith, ap (λ k. length (domainpart k)) ((equal_iff j zero_jid).0 e)))
]

-- A Go result with its error taken apart.
pub outcome {ℓ} :
    {A : Type ℓ} (r : A × Option Error)
    → ((a : A) × (r ≡ (a, none))) ⊎ ((a : A) × (x : Error) × (r ≡ (a, some x)))
outcome (a, none) = inl (a, refl)
outcome (a, some x) = inr (a, x, refl)

module _ (p : Prep) (on_type : Bytes → Bytes) (start : Name) where
  pub set_attrs_step :
      (a : Attr) (xs : List Attr) (v : Stanza) {w : Stanza}
      → set_attr p on_type start a v ≡ (w, none)
      → set_attrs p on_type start (a ∷ xs) v ≡ set_attrs p on_type start xs w
  unfolding set_attrs
  set_attrs_step a xs v h =
      rw (ap (λ (r : Stanza × Option Error). r.1) h, set_attrs)
        (ap (λ r. set_attrs p on_type start xs r.0) h)

  pub set_attrs_stop :
      (a : Attr) (xs : List Attr) (v : Stanza) {w : Stanza} {x : Error}
      → set_attr p on_type start a v ≡ (w, some x)
      → set_attrs p on_type start (a ∷ xs) v ≡ (w, some x)
  unfolding set_attrs
  set_attrs_stop a xs v {x = x} h =
      rw (ap (λ (r : Stanza × Option Error). r.1) h, set_attrs) (λ i. ((h i).0, some x))

  set_attrs_nil : (v : Stanza) → set_attrs p on_type start [] v ≡ (v, none)
  unfolding set_attrs
  set_attrs_nil v = refl

  set_attrs-append :
      (xs ys : List Attr) (v : Stanza) {w : Stanza}
      → set_attrs p on_type start xs v ≡ (w, none)
      → set_attrs p on_type start (xs ++ ys) v ≡ set_attrs p on_type start ys w
  set_attrs-append [] ys v h =
      ap (λ r. set_attrs p on_type start ys r.0) (sym (set_attrs_nil v) ∙ h)
  set_attrs-append (a ∷ xs) ys v {w} h = elim (outcome (set_attr p on_type start a v)) [
    | inl (u, e) ↦
        set_attrs_step a (xs ++ ys) v e
        ∙ set_attrs-append xs ys u (sym (set_attrs_step a xs v e) ∙ h)
    | inr (u, x, e) ↦ absurd (cc (set_attrs_stop a xs v e))
  ]

  read_one :
      (a : Attr) (v : Stanza) {w : Stanza}
      → set_attr p on_type start a v ≡ (w, none)
      → set_attrs p on_type start (a ∷ []) v ≡ (w, none)
  read_one a v {w} h = set_attrs_step a [] v h ∙ set_attrs_nil w

  pub read_type :
      (t : Bytes) (v : Stanza)
      → set_attr p on_type start (attribute (codes "type") t) v
        ≡ (record v { type = on_type t }, none)
  unfolding set_attr text_eq
  read_type t v = refl

  set_to :
      (t : Bytes) (v : Stanza) {j : Jid}
      → is_empty t ≡ false
      → parse p t ≡ ok j
      → set_attr p on_type start (attribute (codes "to") t) v ≡ (record v { to = j }, none)
  unfolding set_attr text_eq
  set_to t v h e = ground (arith, h, e)

  set_from :
      (t : Bytes) (v : Stanza) {j : Jid}
      → is_empty t ≡ false
      → parse p t ≡ ok j
      → set_attr p on_type start (attribute (codes "from") t) v ≡ (record v { from = j }, none)
  unfolding set_attr text_eq
  set_from t v h e = ground (arith, h, e)

  read_to :
      (j : Jid) (v : Stanza)
      → IsAddress p j
      → v.to ≡ zero_jid
      → set_attrs p on_type start (jid_attr (codes "to") j) v ≡ (record v { to = j }, none)
  unfolding set_attrs equal text_eq
  read_to j v (inl e) h =
      subst
        (λ k. set_attrs p on_type start (jid_attr (codes "to") k) v ≡ (record v { to = k }, none))
        (sym e) (λ i. (record v { to = h i }, none))
  read_to j v (inr (valid, read_back)) h = rw (valid-ne-zero j valid) (
      read_one (attribute (codes "to") (string j)) v
        (set_to (string j) v (string-nonempty j valid) read_back))

  read_from :
      (j : Jid) (v : Stanza)
      → IsAddress p j
      → v.from ≡ zero_jid
      → set_attrs p on_type start (jid_attr (codes "from") j) v ≡ (record v { from = j }, none)
  unfolding set_attrs equal text_eq
  read_from j v (inl e) h =
      subst
        (λ k.
          set_attrs p on_type start (jid_attr (codes "from") k) v ≡ (record v { from = k }, none))
        (sym e) (λ i. (record v { from = h i }, none))
  read_from j v (inr (valid, read_back)) h = rw (valid-ne-zero j valid) (
      read_one (attribute (codes "from") (string j)) v
        (set_from (string j) v (string-nonempty j valid) read_back))

  read_id :
      (t : Bytes) (v : Stanza)
      → v.id ≡ []
      → set_attrs p on_type start (if not (is_empty t) then attribute (codes "id") t ∷ [] else []) v
        ≡ (record v { id = t }, none)
  unfolding set_attrs set_attr text_eq
  read_id [] v h = λ i. (record v { id = h i }, none)
  read_id (c ∷ t) v h = refl

  read_lang :
      (t : Bytes) (v : Stanza)
      → v.lang ≡ []
      → set_attrs p on_type start
          (if not (is_empty t)
            then record { name = record { space = ns_xml; local = codes "lang" }; value = t } ∷ []
            else [])
          v
        ≡ (record v { lang = t }, none)
  unfolding set_attrs set_attr text_eq
  read_lang [] v h = λ i. (record v { lang = h i }, none)
  read_lang (c ∷ t) v h = refl

  -- The attributes behind the type set the four other fields.
  pub read_shared :
      (s v : Stanza)
      → IsAddress p s.to
      → IsAddress p s.from
      → v.to ≡ zero_jid
      → v.from ≡ zero_jid
      → v.id ≡ []
      → v.lang ≡ []
      → set_attrs p on_type start (shared_attrs s) v
        ≡ (record v { to = s.to; from = s.from; id = s.id; lang = s.lang }, none)
  unfolding shared_attrs
  read_shared s v good_to good_from no_to no_from no_id no_lang =
      set_attrs-append (jid_attr (codes "to") s.to) _ v (read_to s.to v good_to no_to)
      ∙ set_attrs-append (jid_attr (codes "from") s.from) _ (record v { to = s.to })
          (read_from s.from (record v { to = s.to }) good_from no_from)
      ∙ set_attrs-append (if not (is_empty s.id) then attribute (codes "id") s.id ∷ [] else []) _
          (record v { to = s.to; from = s.from })
          (read_id s.id (record v { to = s.to; from = s.from }) no_id)
      ∙ read_lang s.lang (record v { to = s.to; from = s.from; id = s.id }) no_lang
