-- ===== src/Session/Encoder/Attrs.antt =====
-- What the loops of the encoder do to a list of attributes.
use xmpp.Prelude.{
  if◌then◌else◌, Bool, true, false, not, ◌&&◌, ◌||◌, List, [], ◌∷◌, ◌++◌, ◌≡◌, inl, inr, refl, sym,
  ap, Bytes, codes, text_eq, text_eq_iff, is_empty, All, arith, Bool-cases,
}
use xmpp.Xml.{Name, Attr}
use xmpp.Session.Encoder.{is_named, scan_attrs, drop_xmlns}

-- Some attribute of this name has a value that is not empty.
unfoldable pub has : Bytes → List Attr → Bool
has local [] = false
has local (a ∷ attrs) = (is_named local a && not (is_empty a.value)) || has local attrs

-- An identifier or a sender with an empty value.
unfoldable pub is_blank : Attr → Bool
is_blank a = (is_named (codes "id") a || is_named (codes "from") a) && is_empty a.value

-- The attributes that the encoder has no interest in.
unfoldable pub others : List Attr → List Attr
others [] = []
others (a ∷ attrs) =
    let rest = others attrs in
    if is_named (codes "id") a || (is_named (codes "from") a || is_named (codes "xmlns") a)
    then rest
    else a ∷ rest

unfoldable pub keep : List Attr → List Attr
keep [] = []
keep (a ∷ attrs) = let rest = keep attrs in if is_blank a then rest else a ∷ rest

or_assoc : (a b c : Bool) → ((a || b) || c) ≡ (a || (b || c))
or_assoc true b c = refl
or_assoc false b c = refl

or_false : (b : Bool) → (b || false) ≡ b
or_false true = refl
or_false false = refl

double_not : (b : Bool) → not (not b) ≡ b
double_not true = refl
double_not false = refl

pub scan_attrs-keep :
    (attrs : List Attr) (i f : Bool)
    → scan_attrs attrs i f
      ≡ (keep attrs, i || has (codes "id") attrs, f || has (codes "from") attrs)
unfolding scan_attrs keep has is_blank
scan_attrs-keep [] i f = λ k. ([], sym (or_false i) k, sym (or_false f) k)
scan_attrs-keep (a ∷ attrs) i f =
    let there = not (is_empty a.value) in
    let is_id = is_named (codes "id") a in
    let is_from = is_named (codes "from") a in
    rw (scan_attrs-keep attrs (i || (is_id && there)) (f || (is_from && there))) (λ k. (
      (if (is_id || is_from) && double_not (is_empty a.value) k
          then keep attrs
          else a ∷ keep attrs),
      or_assoc i (is_id && there) (has (codes "id") attrs) k,
      or_assoc f (is_from && there) (has (codes "from") attrs) k,
    ))

module _ (local : Bytes) where
  pub has-append : (xs ys : List Attr) → has local (xs ++ ys) ≡ (has local xs || has local ys)
  unfolding has
  has-append [] ys = refl
  has-append (a ∷ xs) ys =
      rw (has-append xs ys)
        (sym (or_assoc (is_named local a && not (is_empty a.value)) (has local xs) (has local ys)))

  pub has-keep : (xs : List Attr) → has local (keep xs) ≡ has local xs
  unfolding has keep is_blank
  has-keep [] = refl
  has-keep (a ∷ xs) = let ih = has-keep xs in ground arith

  pub has-drop_xmlns :
      (name : Name) (xs : List Attr)
      → text_eq (codes "xmlns") local ≡ false
      → has local (drop_xmlns name xs) ≡ has local xs
  unfolding has drop_xmlns
  has-drop_xmlns name [] other = refl
  has-drop_xmlns name (a ∷ xs) other =
      let ih = has-drop_xmlns name xs other in
      elim (Bool-cases (is_named (codes "xmlns") a)) [
        | inl e ↦
            let no : is_named local a ≡ false =
              rw ((text_eq_iff a.name.local (codes "xmlns")).0 e) other in
            ground arith
        | inr e ↦ ground arith
      ]

abbrev pub Sound : List Attr → Type 0
Sound = All (λ a. is_blank a ≡ false)

pub keep-Sound : (xs : List Attr) → Sound (keep xs)
unfolding keep
keep-Sound [] = tt
keep-Sound (a ∷ xs) = elim (Bool-cases (is_blank a)) [
  | inl e ↦ rw e (keep-Sound xs)
  | inr e ↦ rw e (e, keep-Sound xs)
]

pub drop_xmlns-Sound : (name : Name) (xs : List Attr) → Sound xs → Sound (drop_xmlns name xs)
unfolding drop_xmlns
drop_xmlns-Sound name [] h = tt
drop_xmlns-Sound name (a ∷ xs) (e, h) =
    elim (Bool-cases (is_named (codes "xmlns") a && not (is_empty name.space))) [
      | inl c ↦ rw c (drop_xmlns-Sound name xs h)
      | inr c ↦ rw c (e, drop_xmlns-Sound name xs h)
    ]

pub others-append : (xs ys : List Attr) → others (xs ++ ys) ≡ others xs ++ others ys
unfolding others
others-append [] ys = refl
others-append (a ∷ xs) ys =
    let ih = others-append xs ys in
    elim (Bool-cases
      (is_named (codes "id") a || (is_named (codes "from") a || is_named (codes "xmlns") a))) [
        | inl e ↦ rw e ih
        | inr e ↦ rw e (ap (λ r. a ∷ r) ih)
      ]

pub others-keep : (xs : List Attr) → others (keep xs) ≡ others xs
unfolding others keep is_blank
others-keep [] = refl
others-keep (a ∷ xs) = let ih = others-keep xs in ground arith

pub others-drop_xmlns : (name : Name) (xs : List Attr) → others (drop_xmlns name xs) ≡ others xs
unfolding others drop_xmlns
others-drop_xmlns name [] = refl
others-drop_xmlns name (a ∷ xs) = let ih = others-drop_xmlns name xs in ground arith
