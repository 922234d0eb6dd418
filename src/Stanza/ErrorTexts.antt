-- ===== src/Stanza/ErrorTexts.antt =====
-- The map of the texts of a stanza error, in the order of its keys (stanza/error.go).
use xmpp.Prelude.{
  if◌then◌else◌, true, false, List, [], ◌∷◌, ◌++◌, ◌≡◌, inl, inr, refl, sym, subst, ◌∙◌,
  append_assoc, append-nil, Bytes, text_eq, is_empty, All, All-append_inv, Bool-cases, arith,
}
use xmpp.Stanza.ErrorRead.{text_less, set_text, set_texts}

-- The languages of the texts, each before those behind it: the keys of a Go map in their order.
abbrev pub Precedes : Bytes × Bytes → Bytes × Bytes → Type 0
Precedes a b = text_less a.0 b.0 ≡ true

abbrev pub IsSorted : List (Bytes × Bytes) → Type 0
IsSorted [] = Unit
IsSorted (t ∷ ts) = All (Precedes t) ts × IsSorted ts

pub text_less_apart :
    (a b : Bytes) → text_less a b ≡ true → (text_eq a b ≡ false) × (text_less b a ≡ false)
unfolding text_less text_eq
text_less_apart [] [] h = absurd (cc h)
text_less_apart [] (b ∷ bs) h = (refl, refl)
text_less_apart (a ∷ as') [] h = absurd (cc h)
text_less_apart (a ∷ as') (b ∷ bs) h =
    let ih = text_less_apart as' bs in
    elim (Bool-cases (text_less as' bs)) [ inl e ↦ ground (arith, ih e) | inr e ↦ ground arith ]

set_text_last :
    (lang value : Bytes) (m : List (Bytes × Bytes))
    → All (λ a. Precedes a (lang, value)) m
    → set_text lang value m ≡ m ++ (lang, value) ∷ []
unfolding set_text
set_text_last lang value [] h = refl
set_text_last lang value ((l, d) ∷ m) (h, hs) =
    let (apart, after) = text_less_apart l lang h in
    rw (apart, after, set_text_last lang value m hs) refl

-- The texts that are not empty.
unfoldable pub shown : List (Bytes × Bytes) → List (Bytes × Bytes)
shown [] = []
shown ((lang, value) ∷ ts) =
    let rest = shown ts in if is_empty value then rest else (lang, value) ∷ rest

shown-All : (P : Bytes × Bytes → Type 0) (ts : List (Bytes × Bytes)) → All P ts → All P (shown ts)
unfolding shown
shown-All P [] h = tt
shown-All P ((lang, value) ∷ ts) (h, hs) = elim (Bool-cases (is_empty value)) [
  | inl e ↦ rw e (shown-All P ts hs)
  | inr e ↦ rw e (h, shown-All P ts hs)
]

before_middle :
    (m : List (Bytes × Bytes)) (t : Bytes × Bytes) (ts : List (Bytes × Bytes))
    → IsSorted (m ++ t ∷ ts)
    → All (λ a. Precedes a t) m
before_middle [] t ts h = tt
before_middle (a ∷ m) t ts (h, hs) =
    ((All-append_inv (Precedes a) m (t ∷ ts) h).1.0, before_middle m t ts hs)

abbrev pub IsShown : Bytes × Bytes → Type 0
IsShown t = is_empty t.1 ≡ false

pub set_texts-append :
    (m ts : List (Bytes × Bytes)) → IsSorted (m ++ ts) → All IsShown ts → set_texts m ts ≡ m ++ ts
unfolding set_texts
set_texts-append m [] h s = sym (append-nil m)
set_texts-append m ((lang, value) ∷ ts) h (s, ss) =
    rw (s, set_text_last lang value m (before_middle m (lang, value) ts h))
      (set_texts-append (m ++ (lang, value) ∷ []) ts
          (subst IsSorted (sym (append_assoc m ((lang, value) ∷ []) ts)) h) ss
        ∙ append_assoc m ((lang, value) ∷ []) ts)

pub shown-IsSorted :
    (ts : List (Bytes × Bytes)) → IsSorted ts → IsSorted (shown ts) × All IsShown (shown ts)
unfolding shown
shown-IsSorted [] h = (tt, tt)
shown-IsSorted ((lang, value) ∷ ts) (h, hs) =
    let (sorted, full) = shown-IsSorted ts hs in
    elim (Bool-cases (is_empty value)) [
      | inl e ↦ rw e (sorted, full)
      | inr e ↦ rw e ((shown-All (Precedes (lang, value)) ts h, sorted), (e, full))
    ]
