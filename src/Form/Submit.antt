-- ===== src/Form/Submit.antt =====
-- When the tokens of a form can be written, and what Submit says of it (form/form.go).
use xmpp.Prelude.{
  suc, if◌then◌else◌, Bool, true, false, not, ◌&&◌, ◌||◌, some, List, [], ◌∷◌, ◌++◌, ◌≡◌, ◌⊎◌, ◌↔◌,
  inl, inr, refl, sym, ap, subst, ◌∙◌, Bytes, length, All, Bool-cases, arith,
}
use mathlib.Core.Bool.{and-false, and-or_distrib_left}
use xmpp.Jid.{Prep}
use xmpp.Xml.{Token}
use xmpp.Stanza.Failure.{XmlStream}
use xmpp.Form.{
  FieldType, FormField, Value, nil, other_value, bool_value, string_value, strings_value, jid_value,
  jids_value, Data, get, is_fixed,
}
use xmpp.Form.Write.{
  Outcome, written, panicked, and_then, text_lines, submit_value, submit_field, is_text_multi,
  written_fields, form_tokens, is_submit, all_set, submission_data, submit,
}
use xmpp.Form.Lines.{ends_open, pieces, lines_split}

-- The outcome that the flag foretells: a panic if it is true, and something written if not.
abbrev pub Settles : {A : Type 0} → Bool → Outcome A → Type 0
Settles breaks o =
    ((breaks ≡ true) × (o ≡ panicked)) ⊎ ((breaks ≡ false) × (a : _) × (o ≡ written a))

-- Whether a value is the text of a text-multi field that is empty, or that ends in a line end.
unfoldable pub is_unwritable : FieldType → Value → Bool
is_unwritable t (string_value s) = is_text_multi t && ends_open s
is_unwritable t _ = false

-- Whether a field of a submission has such a value. It counts if it is required or is set.
unfoldable pub breaks : Prep → Data → FormField → Bool
breaks p d f =
    if is_fixed f.typ
    then false
    else let (vv, is_set) = get p d f.var_name in
      if not f.required && not is_set then false else is_unwritable f.typ vv

unfoldable pub any_breaks : Prep → Data → List FormField → Bool
any_breaks p d [] = false
any_breaks p d (f ∷ fs) = breaks p d f || any_breaks p d fs

settled : {A : Type 0} (a : A) → Settles false (written a)
settled a = inr (refl, a, refl)

module _ {A B : Type 0} where
  Settles-map :
      (b : Bool) (o : Outcome A) (f : A → B)
      → Settles b o
      → Settles b (and_then o (λ a. written (f a)))
  unfolding and_then
  Settles-map b o f (inl (t, e)) = inl (t, ap (λ o'. and_then o' (λ a. written (f a))) e)
  Settles-map b o f (inr (n, a, e)) = inr (n, f a, ap (λ o'. and_then o' (λ c. written (f c))) e)

  Settles-and_then :
      (b c : Bool) (o : Outcome A) (f : A → Outcome B)
      → Settles b o
      → ((a : A) → Settles c (f a))
      → Settles (b || c) (and_then o f)
  unfolding and_then
  Settles-and_then b c o f (inl (t, e)) h = inl (ground (arith, t), ap (λ o'. and_then o' f) e)
  Settles-and_then b c o f (inr (n, a, e)) h =
      subst (λ r. Settles (b || c) r) (sym (ap (λ o'. and_then o' f) e))
        (subst (λ k. Settles (k || c) (f a)) (sym n) (h a))

text_lines-Settles : (s : Bytes) → Settles (ends_open s) (text_lines (suc (length s)) s)
text_lines-Settles s = elim (Bool-cases (ends_open s)) [
  | inl e ↦ inl (e, (lines_split s).1 ∙ rw e refl)
  | inr e ↦ inr (e, pieces s, (lines_split s).1 ∙ rw e refl)
]

submit_value-Settles :
    (t : FieldType) (v : Value) (vs : List Bytes)
    → Settles (is_unwritable t v) (submit_value t v vs)
unfolding is_unwritable submit_value
submit_value-Settles t (string_value s) vs = elim (Bool-cases (is_text_multi t)) [
  | inl e ↦ rw e (text_lines-Settles s)
  | inr e ↦ rw e (settled (s ∷ []))
]
submit_value-Settles t (strings_value s) vs = settled s
submit_value-Settles t (jid_value j) vs = settled _
submit_value-Settles t (jids_value js) vs = settled _
submit_value-Settles t (bool_value b) vs = settled _
submit_value-Settles t nil vs = settled vs
submit_value-Settles t other_value vs = settled vs

submit_field-Settles :
    (p : Prep) (d : Data) (f : FormField) → Settles (breaks p d f) (submit_field p d f)
unfolding breaks submit_field
submit_field-Settles p d f = elim (Bool-cases (is_fixed f.typ)) [
  | inl e ↦ rw e (settled [])
  | inr e ↦ elim (Bool-cases (not f.required && not (get p d f.var_name).1)) [
    | inl u ↦ rw (e, u) (settled [])
    | inr u ↦
        rw (e, u)
          (Settles-map _ _ (λ vs. record f { value = vs } ∷ [])
            (submit_value-Settles f.typ (get p d f.var_name).0 f.value))
  ]
]

written_fields-Settles :
    (p : Prep) (d : Data) (fs : List FormField)
    → Settles (is_submit d.typ && any_breaks p d fs) (written_fields p d fs)
unfolding any_breaks written_fields
written_fields-Settles p d [] =
    subst (λ b. Settles {A = List FormField} b (written [])) (sym (and-false (is_submit d.typ)))
      (settled [])
written_fields-Settles p d (f ∷ fs) =
    subst (λ b. Settles b (written_fields p d (f ∷ fs)))
      (sym (and-or_distrib_left (is_submit d.typ) (breaks p d f) (any_breaks p d fs)))
      (Settles-and_then (is_submit d.typ && breaks p d f) (is_submit d.typ && any_breaks p d fs)
        (if is_submit d.typ then submit_field p d f else written (f ∷ [])) _ here
        (λ a.
          Settles-map (is_submit d.typ && any_breaks p d fs) (written_fields p d fs)
            (λ rest. a ++ rest) (written_fields-Settles p d fs)))
  where
    here :
        Settles
          (is_submit d.typ && breaks p d f)
          (if is_submit d.typ then submit_field p d f else written (f ∷ []))
    here = elim (Bool-cases (is_submit d.typ)) [
      | inl e ↦ rw e (submit_field-Settles p d f)
      | inr e ↦ rw e (settled (f ∷ []))
    ]

form_tokens-Settles :
    (x : XmlStream) (p : Prep) (d : Data)
    → Settles (is_submit d.typ && any_breaks p d d.fields) (form_tokens x p d)
unfolding form_tokens
form_tokens-Settles x p d =
    Settles-and_then false (is_submit d.typ && any_breaks p d d.fields) _ _
      (inr (refl, _, (lines_split d.instructions).0))
      (λ lines.
        Settles-map (is_submit d.typ && any_breaks p d d.fields) (written_fields p d d.fields) _
          (written_fields-Settles p d d.fields))

-- A field that is not required, or for which Get finds a value.
abbrev pub IsFilled : Prep → Data → FormField → Type 0
IsFilled p d f = (f.required ≡ false) ⊎ ((get p d f.var_name).1 ≡ true)

filled_iff :
    (required is_set rest : Bool) {P : Type 0}
    → (rest ≡ true) ↔ P
    → ((if required then (if is_set then rest else false) else rest) ≡ true)
      ↔ (((required ≡ false) ⊎ (is_set ≡ true)) × P)
filled_iff false s rest (to, from) = (λ e. (inl refl, to e), λ h. from h.1)
filled_iff true true rest (to, from) = (λ e. (inr refl, to e), λ h. from h.1)
filled_iff true false rest (to, from) = (λ e. absurd (cc e), λ h. absurd (unset h.0))
  where
    unset : (true ≡ false) ⊎ (false ≡ true) → ⊥
    unset (inl e) = cc e
    unset (inr e) = cc e

all_set_iff :
    (p : Prep) (d : Data) (fs : List FormField) → (all_set p d fs ≡ true) ↔ All (IsFilled p d) fs
unfolding all_set
all_set_iff p d [] = (λ _. tt, λ _. refl)
all_set_iff p d (f ∷ fs) =
    filled_iff f.required (get p d f.var_name).1 (all_set p d fs) (all_set_iff p d fs)

written-Shows :
    {A B : Type 0} (P : B → Type 0) (b : Bool) (o : Outcome A) (f : A → B)
    → Settles b o
    → ((a : A) → P (f a))
    → ((b ≡ true) × (and_then o (λ a. written (f a)) ≡ panicked))
      ⊎ ((b ≡ false) × (c : B) × (and_then o (λ a. written (f a)) ≡ written c) × P c)
unfolding and_then
written-Shows P b o f (inl (t, e)) h = inl (t, ap (λ o'. and_then o' (λ a. written (f a))) e)
written-Shows P b o f (inr (n, a, e)) h =
    inr (n, f a, ap (λ o'. and_then o' (λ c. written (f c))) e, h a)

-- Submit panics just if a field that is required or set, and not fixed, is of the type text-multi
-- and has a text that is empty or ends in a line end. Otherwise it returns tokens, and says that the
-- form can be submitted just if each field that is required has a value.
pub submit_outcome :
    (x : XmlStream) (p : Prep) (d : Data)
    → ((any_breaks p (submission_data d) d.fields ≡ true) × (submit x p (some d) ≡ panicked))
      ⊎ ((any_breaks p (submission_data d) d.fields ≡ false)
          × (r : List Token × Bool) × (submit x p (some d) ≡ written r)
          × ((r.1 ≡ true) ↔ All (IsFilled p (submission_data d)) d.fields))
unfolding submit
submit_outcome x p d =
    written-Shows (λ r. (r.1 ≡ true) ↔ All (IsFilled p (submission_data d)) d.fields)
      (any_breaks p (submission_data d) d.fields) (form_tokens x p (submission_data d))
      (λ tokens. (tokens, all_set p (submission_data d) d.fields))
      (form_tokens-Settles x p (submission_data d))
      (λ tokens. all_set_iff p (submission_data d) d.fields)
