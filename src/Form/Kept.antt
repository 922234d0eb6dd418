-- ===== src/Form/Kept.antt =====
-- The values that a field is written with (form/fields.go).
use xmpp.Prelude.{
  Bool, true, false, not, ◌&&◌, List, [], ◌∷◌, ◌≡◌, ◌⊎◌, ◌≤◌, inl, inr, refl, Bytes, is_empty,
  length, All, if-cases, Bool-cases, arith,
}
use xmpp.Jid.{Prep}
use xmpp.Form.{FieldType}
use xmpp.Form.Write.{kept_values, is_kept, is_multi}

-- A value that is not empty and that the type lets through.
abbrev pub IsKept : Prep → FieldType → Bytes → Type 0
IsKept p t v = (is_empty v ≡ false) × (is_kept p t v ≡ true)

kept_values-IsKept :
    (p : Prep) (t : FieldType) (first : Bool) (vs : List Bytes)
    → All (IsKept p t) (kept_values p t first vs)
unfolding kept_values
kept_values-IsKept p t first [] = tt
kept_values-IsKept p t first (v ∷ vs) =
    if-cases (All (IsKept p t)) (is_empty v) (λ _. kept_values-IsKept p t first vs)
      (λ e.
        if-cases (All (IsKept p t)) (first && not (is_multi t)) (λ _. tt)
          (λ _.
            if-cases (All (IsKept p t)) (is_kept p t v)
              (λ k. ((e, k), kept_values-IsKept p t true vs))
              (λ _. kept_values-IsKept p t first vs)))

none_after :
    (p : Prep) (t : FieldType) (vs : List Bytes) → is_multi t ≡ false → kept_values p t true vs ≡ []
unfolding kept_values
none_after p t [] h = refl
none_after p t (v ∷ vs) h =
    if-cases (λ ws. ws ≡ []) (is_empty v) (λ _. none_after p t vs h) (λ _. rw h refl)

abbrev AtMostOne : List Bytes → Type 0
AtMostOne ws = length ws ≤ 1

one_at_most :
    (p : Prep) (t : FieldType) (vs : List Bytes)
    → is_multi t ≡ false
    → length (kept_values p t false vs) ≤ 1
unfolding kept_values
one_at_most p t [] h = omega arith
one_at_most p t (v ∷ vs) h =
    if-cases AtMostOne (is_empty v) (λ _. one_at_most p t vs h)
      (λ _.
        if-cases AtMostOne (is_kept p t v) {x = v ∷ kept_values p t true vs}
          {y = kept_values p t false vs} (λ _. rw (none_after p t vs h) (omega arith))
          (λ _. one_at_most p t vs h))

-- A field is written with values that are not empty and that its type lets through, and with at
-- most one if its type is not one of the three for several values.
pub kept_values_bound :
    (p : Prep) (t : FieldType) (vs : List Bytes)
    → All (IsKept p t) (kept_values p t false vs)
      × ((is_multi t ≡ true) ⊎ (length (kept_values p t false vs) ≤ 1))
kept_values_bound p t vs = (
  kept_values-IsKept p t false vs,
  elim (Bool-cases (is_multi t)) [ inl e ↦ inl e | inr e ↦ inr (one_at_most p t vs e) ],
)
