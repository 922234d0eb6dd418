-- ===== src/Streams/Carried.antt =====
-- Where the data of a header comes from: FromStartElement of stream/stream.go.
use xmpp.Prelude.{
  true, false, Option, none, some, List, [], ◌∷◌, ◌++◌, ◌≡◌, ◌≢◌, ◌⊎◌, inl, inr, refl, sym, ap,
  subst, ◌∙◌, Bytes, codes, text_eq, All, Result, ok, err, ok-injective, Bool-cases, Option-cases,
  if-cases, Result-cases,
}
use xmpp.Jid.{Jid, Prep}
use xmpp.Xml.{Name, name_eq, name_eq_iff, Attr, StartElement}
use xmpp.Streams.Version.{Version, parse_version}
use xmpp.Streams.Header.{
  Info, StreamError, improper_addressing, bad_format, plain_name, read_address, set_info, set_infos,
  from_start_element,
}

-- A value is read from the last attribute of the name, or there is none and it is the earlier one.
abbrev pub Carries : {A : Type 0} → Name → (Bytes → A → Type 0) → List Attr → A → A → Type 0
Carries n reads attrs old new =
    ((front : List Attr) × (a : Attr) × (back : List Attr) × (attrs ≡ front ++ a ∷ back)
      × (a.name ≡ n)
      × All (λ b. b.name ≢ n) back
      × reads a.value new)
    ⊎ (All (λ b. b.name ≢ n) attrs × (new ≡ old))

-- What one attribute does to a value.
abbrev Takes : {A : Type 0} → Name → (Bytes → A → Type 0) → Attr → A → A → Type 0
Takes n reads a old new = ((a.name ≡ n) × reads a.value new) ⊎ ((a.name ≢ n) × (new ≡ old))

abbrev pub IsText : Bytes → Bytes → Type 0
IsText value x = x ≡ value

abbrev pub IsVersion : Bytes → Version → Type 0
IsVersion value v = parse_version value ≡ some v

Carries-step :
    {A : Type 0} (n : Name) (reads : Bytes → A → Type 0) (a : Attr) (attrs : List Attr)
    {old mid new : A}
    → Takes n reads a old mid
    → Carries n reads attrs mid new
    → Carries n reads (a ∷ attrs) old new
Carries-step n reads a attrs takes (inl (front, b, back, e, named, others, r)) =
    inl (a ∷ front, b, back, ap (λ l. a ∷ l) e, named, others, r)
Carries-step n reads a attrs (inl (named, r)) (inr (others, e)) =
    inl ([], a, attrs, refl, named, others, subst (reads a.value) (sym e) r)
Carries-step n reads a attrs (inr (other, e)) (inr (others, e')) = inr ((other, others), e' ∙ e)

takes :
    {A : Type 0} (n : Name) (reads : Bytes → A → Type 0) (a : Attr) {old new : A}
    → (a.name ≡ n → reads a.value new)
    → (name_eq a.name n ≡ false → new ≡ old)
    → Takes n reads a old new
takes n reads a hit miss = elim (Bool-cases (name_eq a.name n)) [
  | inl e ↦ let named = (name_eq_iff a.name n).0 e in inl (named, hit named)
  | inr e ↦ inr (λ named. cc ((name_eq_iff a.name n).1 named), miss e)
]

abbrev pub xmlns_name : Name
xmlns_name = plain_name (codes "xmlns")

abbrev pub id_name : Name
id_name = plain_name (codes "id")

abbrev pub version_name : Name
version_name = plain_name (codes "version")

module _ (p : Prep) (a : Attr) (i : Info) where
  set_xmlns : a.name ≡ xmlns_name → set_info p a i ≡ ok (record i { xmlns = a.value })
  unfolding set_info name_eq text_eq
  set_xmlns h = rw h refl

  set_id : a.name ≡ id_name → set_info p a i ≡ ok (record i { id = a.value })
  unfolding set_info name_eq text_eq
  set_id h = rw h refl

  set_version :
      {i' : Info} → a.name ≡ version_name → set_info p a i ≡ ok i' → IsVersion a.value i'.version
  unfolding set_info name_eq text_eq
  set_version h e = elim (Option-cases (parse_version a.value)) [
    | inl n ↦ absurd (cc (rw (h, n) at e))
    | inr (v, s) ↦ s ∙ ap (λ (j : Info). some j.version) (ok-injective (rw (h, s) at e))
  ]

-- The data but for the addresses, each part from the attribute of its name.
abbrev pub CarriesAll : List Attr → Info → Info → Type 0
CarriesAll attrs i i' =
    Carries xmlns_name IsText attrs i.xmlns i'.xmlns
    × Carries id_name IsText attrs i.id i'.id
    × Carries version_name IsVersion attrs i.version i'.version

abbrev Keeps : Attr → Info → Info → Type 0
Keeps a i i' =
    (name_eq a.name xmlns_name ≡ false → i'.xmlns ≡ i.xmlns)
    × (name_eq a.name id_name ≡ false → i'.id ≡ i.id)
    × (name_eq a.name version_name ≡ false → i'.version ≡ i.version)

-- A result that keeps what the attribute does not name.
abbrev Good : Attr → Info → Result StreamError Info → Type 0
Good a i r = (i' : Info) → r ≡ ok i' → Keeps a i i'

good : (a : Attr) (i j : Info) → Keeps a i j → Good a i (ok j)
good a i j h i' e = subst (Keeps a i) (ok-injective e) h

bad : (a : Attr) (i : Info) (e : StreamError) → Good a i (err e)
bad a i e i' h = absurd (cc h)

set_info-Good : (p : Prep) (a : Attr) (i : Info) → Good a i (set_info p a i)
unfolding set_info
set_info-Good p a i =
    if-cases (Good a i) (name_eq a.name xmlns_name)
      (λ h. good a i _ (λ n. absurd (cc (sym h ∙ n)), λ _. refl, λ _. refl))
      (λ _.
        if-cases (Good a i) (name_eq a.name (plain_name (codes "to")))
          (λ _.
            address (read_address p a.value i.to) (λ j. record i { to = j })
              (λ j. (λ _. refl, λ _. refl, λ _. refl)))
          (λ _.
            if-cases (Good a i) (name_eq a.name (plain_name (codes "from")))
              (λ _.
                address (read_address p a.value i.from) (λ j. record i { from = j })
                  (λ j. (λ _. refl, λ _. refl, λ _. refl)))
              (λ _.
                if-cases (Good a i) (name_eq a.name id_name)
                  (λ h. good a i _ (λ _. refl, λ n. absurd (cc (sym h ∙ n)), λ _. refl))
                  (λ _.
                    if-cases (Good a i) (name_eq a.name version_name)
                      (λ h. version h (parse_version a.value))
                      (λ _.
                        if-cases (Good a i)
                          (name_eq a.name (record { space = codes "xml"; local = codes "lang" }))
                          (λ _. good a i _ (λ _. refl, λ _. refl, λ _. refl))
                          (λ _. good a i i (λ _. refl, λ _. refl, λ _. refl)))))))
  where
    address :
        (o : Option Jid) (f : Jid → Info)
        → ((j : Jid) → Keeps a i (f j))
        → Good a i (elim o as (λ _. Result StreamError Info) [
          | some j ↦ ok (f j)
          | none ↦ err improper_addressing
        ])
    address none f h = bad a i improper_addressing
    address (some j) f h = good a i (f j) (h j)

    version :
        name_eq a.name version_name ≡ true
        → (o : Option Version)
        → Good a i (elim o as (λ _. Result StreamError Info) [
          | some v ↦ ok (record i { version = v })
          | none ↦ err bad_format
        ])
    version h none = bad a i bad_format
    version h (some v) =
        good a i (record i { version = v }) (λ _. refl, λ _. refl, λ n. absurd (cc (sym h ∙ n)))

info_path : {x : Result StreamError Info} {j i' : Info} → x ≡ ok j → x ≡ ok i' → i' ≡ j
info_path h e = ok-injective (sym e ∙ h)

set_infos-Carries :
    (p : Prep) (attrs : List Attr) (i : Info) {i' : Info}
    → set_infos p attrs i ≡ ok i'
    → CarriesAll attrs i i'
unfolding set_infos
set_infos-Carries p [] i e =
    let same = ok-injective e in
    (
      inr (tt, ap (λ (j : Info). j.xmlns) (sym same)),
      inr (tt, ap (λ (j : Info). j.id) (sym same)),
      inr (tt, ap (λ (j : Info). j.version) (sym same)),
    )
set_infos-Carries p (a ∷ attrs) i {i'} e = elim (Result-cases (set_info p a i)) [
  | inr (x, q) ↦ absurd (cc (rw (q, set_infos) at e))
  | inl (j, q) ↦
      let (xmlns, id, version) = set_infos-Carries p attrs j (rw (q, set_infos) at e) in
      let (xmlns', id', version') = set_info-Good p a i j q in
      (
        Carries-step xmlns_name IsText a attrs
            (takes xmlns_name IsText a
              (λ h. ap (λ (k : Info). k.xmlns) (info_path (set_xmlns p a i h) q)) xmlns')
            xmlns,
        Carries-step id_name IsText a attrs
            (takes id_name IsText a (λ h. ap (λ (k : Info). k.id) (info_path (set_id p a i h) q))
              id')
            id,
        Carries-step version_name IsVersion a attrs
            (takes version_name IsVersion a (λ h. set_version p a i h q) version') version,
      )
]

pub from_start_element-Carries :
    (p : Prep) (s : StartElement) (i : Info) {i' : Info}
    → from_start_element p s i ≡ ok i'
    → CarriesAll s.attrs i i'
unfolding from_start_element
from_start_element-Carries p s i e = set_infos-Carries p s.attrs (record i { name = s.name }) e
