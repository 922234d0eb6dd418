-- ===== src/Stanza/ErrorShown.antt =====
-- Is and Error of stanza/error.go.
use xmpp.Prelude.{
  if◌then◌else◌, Bool, true, false, ◌&&◌, some, List, [], ◌∷◌, ◌≡◌, ◌⊎◌, ◌↔◌, inl, inr, refl, Bytes,
  text_eq, text_eq_iff, is_empty, map_get, arith,
}
use xmpp.Stanza.Failure.{StanzaError}
use xmpp.Stanza.ErrorRead.{error_is, last_text, error_string}

-- The text is empty, or it is the other.
abbrev pub IsWildcard : Bytes → Bytes → Type 0
IsWildcard a b = (a ≡ []) ⊎ (a ≡ b)

empty_or_equal :
    (a b : Bytes) → ((if is_empty a then true else text_eq a b) ≡ true) ↔ IsWildcard a b
empty_or_equal [] b = (λ _. inl refl, λ _. refl)
empty_or_equal (c ∷ a) b = (
  λ e. inr ((text_eq_iff (c ∷ a) b).0 e),
  λ h. elim h [ inl e ↦ absurd (cc e) | inr e ↦ (text_eq_iff (c ∷ a) b).1 e ],
)

both_tests :
    (t c : Bytes) (x y : Bool)
    → (if is_empty t && is_empty c
        then true
        else if is_empty t
        then y
        else if is_empty c
        then x
        else y && x)
      ≡ ((if is_empty t then true else x) && (if is_empty c then true else y))
both_tests [] [] x y = refl
both_tests [] (b ∷ c) x y = refl
both_tests (a ∷ t) [] true y = refl
both_tests (a ∷ t) [] false y = refl
both_tests (a ∷ t) (b ∷ c) true true = refl
both_tests (a ∷ t) (b ∷ c) true false = refl
both_tests (a ∷ t) (b ∷ c) false true = refl
both_tests (a ∷ t) (b ∷ c) false false = refl

-- An error is another one just if the type and the condition of that are the error's, where each
-- may be left out.
pub error_is_iff :
    (se e : StanzaError)
    → (error_is se (some e) ≡ true)
      ↔ (IsWildcard e.type se.type × IsWildcard e.condition se.condition)
unfolding error_is
error_is_iff se e =
    rw (both_tests e.type e.condition (text_eq e.type se.type) (text_eq e.condition se.condition))
      (ground (arith, empty_or_equal e.type se.type, empty_or_equal e.condition se.condition))

last_text_default :
    (order : List (Bytes × Bytes)) (before : Bytes) {t : Bytes}
    → map_get text_eq [] order ≡ some t
    → last_text order before ≡ t
unfolding map_get last_text text_eq
last_text_default [] before h = absurd (cc h)
last_text_default (([], txt) ∷ order) before h = cc h
last_text_default ((c ∷ lang, txt) ∷ order) before h = last_text_default order txt h

-- If a map of texts has one without a language, it is the text that Error returns, in whatever
-- order the map is gone through.
pub error_string_default :
    (se : StanzaError) (order : List (Bytes × Bytes)) {t : Bytes}
    → map_get text_eq [] order ≡ some t
    → error_string se order ≡ t
unfolding error_string map_get
error_string_default se [] h = absurd (cc h)
error_string_default se (x ∷ order) h = last_text_default (x ∷ order) [] h
