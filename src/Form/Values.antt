-- ===== src/Form/Values.antt =====
-- Get and Set of form/form.go: what is looked up after something was set, and the types of values.
use xmpp.Prelude.{
  Bool, true, false, ◌||◌, Option, none, some, List, [], ◌∷◌, ◌≡◌, ◌≢◌, inl, inr, refl, sym, ap,
  subst, ◌∙◌, Bytes, codes, text_eq, text_eq_iff, Result-cases, map_get, map_set, map_get-map_set,
  map_get-map_set_other, map_get-All, All, if-cases, Bool-cases, Option-cases,
}
use xmpp.Jid.{Prep, parse}
use xmpp.Form.{
  FieldType, type_boolean, type_fixed, type_hidden, type_jid_multi, type_jid, type_list_multi,
  type_list, type_text_multi, type_text_private, type_text, other_type, FormField, Value, Data,
  find_field, default_bool, default_string, default_jid, field_default, set_value, value_or_default,
  default_of, get, done, accepts, store, set_as, set, is_some, is_fixed,
}

-- A value that a field of the type can have.
abbrev pub Fits : FieldType → Value → Type 0
Fits t v = (is_fixed t ≡ false) × (accepts t v ≡ true)

-- The entry of a field has a value for its type; other names may have any.
abbrev pub IsTypedEntry : List FormField → Bytes × Value → Type 0
IsTypedEntry fields (id, v) = elim (find_field id fields) [ none ↦ Unit | some f ↦ Fits f.typ v ]

abbrev pub IsTypedMap : List FormField → Option (List (Bytes × Value)) → Type 0
IsTypedMap fields none = Unit
IsTypedMap fields (some m) = All (λ e. IsTypedEntry fields e) m

-- Each value that was set has its field's type.
abbrev pub IsTyped : Data → Type 0
IsTyped d = IsTypedMap d.fields d.values

store_done :
    (values : Option (List (Bytes × Value))) (known : Bool) (d : Data) (id : Bytes) (v : Value)
    {k : Bool} {d' : Data}
    → store values known d id v ≡ done k d'
    → (m : List (Bytes × Value)) × (values ≡ some m)
      × (record d { values = some (map_set text_eq id v m) } ≡ d')
      × (known ≡ k)
unfolding store
store_done none known d id v e = absurd (cc e)
store_done (some m) known d id v e = (m, refl, cc e, cc e)

-- What a value that was set has gone through: the type of its field, if there is one.
set_as_done :
    (t : FieldType) (d : Data) (id : Bytes) (v : Value) {k : Bool} {d' : Data}
    → set_as t d id v ≡ done k d'
    → Fits t v × (store d.values true d id v ≡ done k d')
unfolding set_as
set_as_done t d id v {k} {d'} e = elim (Bool-cases (is_fixed t)) [
  | inl f ↦ absurd (cc (rw f at e))
  | inr f ↦ elim (Bool-cases (accepts t v)) [
    | inl a ↦ ((f, a), rw (f, a) at e)
    | inr a ↦ absurd (cc (rw (f, a) at e))
  ]
]

abbrev pub is_known : Data → Bytes → Bool
is_known d id = is_some (find_field id d.fields)

set_done :
    (d : Data) (id : Bytes) (v : Value) {k : Bool} {d' : Data}
    → set d id v ≡ done k d'
    → IsTypedEntry d.fields (id, v) × (store d.values (is_known d id) d id v ≡ done k d')
unfolding set
set_done d id v {k} {d'} e = elim (Option-cases (find_field id d.fields)) [
  | inl n ↦ rw (n, IsTypedEntry) (tt, rw (n, set) at e)
  | inr (f, s) ↦ rw (s, IsTypedEntry) (set_as_done f.typ d id v (rw (s, set) at e))
]

-- If Set succeeds, Get returns the value, under any other name it returns what it did before, and
-- Set says that it knows the name just if a field has it.
pub get-set :
    (p : Prep) (d : Data) (id : Bytes) (v : Value) {k : Bool} {d' : Data} (other : Bytes)
    → set d id v ≡ done k d'
    → other ≢ id
    → (get p d' id ≡ (v, true)) × (get p d' other ≡ get p d other) × (k ≡ is_known d id)
unfolding get set_value value_or_default
get-set p d id v {k} {d'} other e differs =
    let (fits, stored) = set_done d id v e in
    let (m, there, same, known) = store_done d.values (is_known d id) d id v stored in
    (
      subst (λ c. get p c id ≡ (v, true)) same
          (ap (value_or_default p d.fields id) (map_get-map_set text_eq text_eq_iff id v m)),
      subst (λ c. get p c other ≡ get p d other) same
          (ap (value_or_default p d.fields other) (
            map_get-map_set_other text_eq text_eq_iff other id v m differs
            ∙ ap (λ values. set_value values other) (sym there))),
      sym known,
    )

-- A value that was found, with the flag that it was.
abbrev Sound : FieldType → Value × Bool → Type 0
Sound t r = r.1 ≡ true → Fits t r.0

default_bool-Sound : (vs : List Bytes) → Sound type_boolean (default_bool vs)
unfolding default_bool accepts
default_bool-Sound [] = λ e. absurd (cc e)
default_bool-Sound (b ∷ vs) =
    if-cases (Sound type_boolean) (text_eq b (codes "false") || text_eq b (codes "0"))
      (λ _ _. (refl, refl))
      (λ _.
        if-cases (Sound type_boolean) (text_eq b (codes "true") || text_eq b (codes "1"))
          (λ _ _. (refl, refl)) (λ _. default_bool-Sound vs))

default_jid-Sound : (p : Prep) (vs : List Bytes) → Sound type_jid (default_jid p vs)
unfolding default_jid accepts
default_jid-Sound p [] = λ e. absurd (cc e)
default_jid-Sound p (b ∷ vs) = elim (Result-cases (parse p b)) [
  | inl (j, q) ↦ rw (q, Sound, default_jid) (λ _. (refl, refl))
  | inr (x, q) ↦ rw (q, Sound, default_jid) (default_jid-Sound p vs)
]

default-Sound : (p : Prep) (t : FieldType) (vs : List Bytes) → Sound t (field_default p t vs)
unfolding field_default default_string accepts
default-Sound p type_fixed vs = λ e. absurd (cc e)
default-Sound p type_boolean vs = default_bool-Sound vs
default-Sound p type_jid vs = default_jid-Sound p vs
default-Sound p (other_type t) vs = λ _. (refl, refl)
default-Sound p type_jid_multi vs = λ _. (refl, refl)
default-Sound p type_text_multi vs = λ _. (refl, refl)
default-Sound p type_list_multi vs = λ _. (refl, refl)
default-Sound p type_text [] = λ e. absurd (cc e)
default-Sound p type_text (s ∷ vs) = λ _. (refl, refl)
default-Sound p type_text_private [] = λ e. absurd (cc e)
default-Sound p type_text_private (s ∷ vs) = λ _. (refl, refl)
default-Sound p type_hidden [] = λ e. absurd (cc e)
default-Sound p type_hidden (s ∷ vs) = λ _. (refl, refl)
default-Sound p type_list [] = λ e. absurd (cc e)
default-Sound p type_list (s ∷ vs) = λ _. (refl, refl)

entry-Fits :
    (fields : List FormField) (id : Bytes) (v : Value) {f : FormField}
    → find_field id fields ≡ some f
    → IsTypedEntry fields (id, v)
    → Fits f.typ v
entry-Fits fields id v {f} found h =
    subst (λ (o : Option FormField). elim o [ none ↦ Unit | some g ↦ Fits g.typ v ]) found h

abbrev IsTypedValue : List FormField → Bytes → Option Value → Type 0
IsTypedValue fields id none = Unit
IsTypedValue fields id (some v) = IsTypedEntry fields (id, v)

set_value-IsTypedValue :
    (fields : List FormField) (values : Option (List (Bytes × Value))) (id : Bytes)
    → IsTypedMap fields values
    → IsTypedValue fields id (set_value values id)
unfolding set_value
set_value-IsTypedValue fields none id h = tt
set_value-IsTypedValue fields (some m) id h = elim (Option-cases (map_get text_eq id m)) [
  | inl n ↦ rw (n, IsTypedValue) tt
  | inr (v, g) ↦ rw (g, IsTypedValue) (map_get-All (λ e. IsTypedEntry fields e) id m h g)
]

value-Fits :
    (p : Prep) (fields : List FormField) (id : Bytes) (o : Option Value) {f : FormField} {v : Value}
    → IsTypedValue fields id o
    → find_field id fields ≡ some f
    → value_or_default p fields id o ≡ (v, true)
    → Fits f.typ v
unfolding value_or_default default_of
value-Fits p fields id (some w) {f} {v} h found e =
    subst (λ (u : Value). Fits f.typ u) (ap (λ (r : Value × Bool). r.0) e)
      (entry-Fits fields id w found h)
value-Fits p fields id none {f} {v} h found e =
    let r : field_default p f.typ f.value ≡ (v, true) = sym (ap (default_of p) found) ∙ e in
    subst (λ (u : Value). Fits f.typ u) (ap (λ (r : Value × Bool). r.0) r)
      (default-Sound p f.typ f.value (ap (λ (r : Value × Bool). r.1) r))

-- If the values of a form have the types of their fields, then what Get finds under the name of a
-- field, set or by default, is of the type that Set asks of that field, and the field is not fixed.
pub get-Fits :
    (p : Prep) (d : Data) (id : Bytes) {f : FormField} {v : Value}
    → IsTyped d
    → find_field id d.fields ≡ some f
    → get p d id ≡ (v, true)
    → Fits f.typ v
unfolding get
get-Fits p d id {f} {v} typed found e =
    value-Fits p d.fields id (set_value d.values id)
      (set_value-IsTypedValue d.fields d.values id typed) found e
