-- ===== src/Form/ReadFields.antt =====
-- What UnmarshalXML makes of the fields of a form (form/form.go, form/fields.go).
use xmpp.Prelude.{
  if◌then◌else◌, Bool, true, false, not, some, map, List, [], ◌∷◌, ◌++◌, ◌≡◌, refl, sym, ap, ◌∙◌,
  append_assoc, append-nil, Bytes, codes, text_eq, is_empty, All,
}
use xmpp.Jid.{Prep}
use xmpp.Xml.{Content, done, element}
use xmpp.Xml.Decode.{last_attr}
use xmpp.Stanza.{attribute}
use xmpp.Form.{
  FieldType, type_boolean, type_fixed, type_hidden, type_jid_multi, type_jid, type_list_multi,
  type_list, type_text_multi, type_text_private, type_text, other_type, type_string, FieldOpt,
  FormField, Data,
}
use xmpp.Form.Write.{plain_start, kept_values, has_options, field_start}
use xmpp.Form.Content.{leaf_content, leaves, options, field_content, fields_content}
use xmpp.Form.Read.{
  field_type, last_value, read_member, read_members, read_field, text_by_default, default_type,
  read_children,
}

-- A type that is a constant of the package.
abbrev pub IsNamed : FieldType → Type 0
IsNamed (other_type t) = ⊥
IsNamed t = Unit

field_type_named : (t : FieldType) → IsNamed t → default_type (field_type (type_string t)) ≡ t
unfolding field_type type_string default_type text_eq
field_type_named type_boolean h = refl
field_type_named type_fixed h = refl
field_type_named type_hidden h = refl
field_type_named type_jid_multi h = refl
field_type_named type_jid h = refl
field_type_named type_list_multi h = refl
field_type_named type_list h = refl
field_type_named type_text_multi h = refl
field_type_named type_text_private h = refl
field_type_named type_text h = refl
field_type_named (other_type t) h = absurd h

-- The attributes of a field, read one by one.
field_attrs :
    (t v l : Bytes)
    → let attrs =
        attribute (codes "type") t
        ∷ ((if not (is_empty v) then attribute (codes "var") v ∷ [] else [])
            ++ (if not (is_empty l) then attribute (codes "label") l ∷ [] else [])) in
      (last_attr (codes "type") attrs [] ≡ t)
      × (last_attr (codes "var") attrs [] ≡ v)
      × (last_attr (codes "label") attrs [] ≡ l)
unfolding last_attr text_eq
field_attrs t [] [] = (refl, refl, refl)
field_attrs t [] (c ∷ l) = (refl, refl, refl)
field_attrs t (b ∷ v) [] = (refl, refl, refl)
field_attrs t (b ∷ v) (c ∷ l) = (refl, refl, refl)

read_values :
    (vs : List Bytes) (r : Content) (f : FormField)
    → read_members (leaves (codes "value") vs r) f
      ≡ read_members r (record f { value = f.value ++ vs })
unfolding leaves read_members read_member text_eq
read_values [] r f =
    ap (λ (vs : List Bytes). read_members r (record f { value = vs })) (sym (append-nil f.value))
read_values (v ∷ vs) r f =
    rw (append-nil v, read_members)
      (read_values vs r (record f { value = f.value ++ v ∷ [] })
        ∙ ap (λ (ws : List Bytes). read_members r (record f { value = ws }))
            (append_assoc f.value (v ∷ []) vs))

read_options :
    (os : List FieldOpt) (f : FormField)
    → read_members (options os done) f ≡ record f { option = f.option ++ os }
unfolding options read_members read_member last_value last_attr text_eq
read_options [] f =
    ap (λ (os : List FieldOpt). record f { option = os }) (sym (append-nil f.option))
read_options (o ∷ os) f =
    rw (append-nil o.value, read_members)
      (read_options os (record f { option = f.option ++ o ∷ [] })
        ∙ ap (λ (ws : List FieldOpt). record f { option = ws }) (append_assoc f.option (o ∷ []) os))

-- A field as it is read back: with the values and the options that are written.
unfoldable pub kept_field : Prep → FormField → FormField
kept_field p f = record f {
  value = kept_values p f.typ false f.value;
  option = if has_options f.typ then f.option else [];
}

abbrev blank : FieldType → Bytes → Bytes → Bytes → Bool → FormField
blank t v l d q = record {
  typ = t;
  var_name = v;
  label = l;
  desc = d;
  value = [];
  option = [];
  required = q;
}

read_desc :
    (s : Bytes) (r : Content) (t : FieldType) (v l : Bytes)
    → read_members
        (if not (is_empty s) then leaf_content (codes "desc") s r else r)
        (blank t v l [] false)
      ≡ read_members r (blank t v l s false)
unfolding read_members read_member text_eq
read_desc [] r t v l = refl
read_desc (c ∷ s) r t v l = rw (append-nil s, read_members) refl

read_required :
    (b : Bool) (r : Content) (t : FieldType) (v l d : Bytes)
    → read_members
        (if b then element (plain_start (codes "required") []) done r else r)
        (blank t v l d false)
      ≡ read_members r (blank t v l d b)
unfolding read_members read_member text_eq
read_required false r t v l d = refl
read_required true r t v l d = refl

read_listed :
    (b : Bool) (os : List FieldOpt) (f : FormField)
    → f.option ≡ []
    → read_members (if b then options os done else done) f
      ≡ record f { option = if b then os else [] }
unfolding read_members
read_listed false os f h = ap (λ (os : List FieldOpt). record f { option = os }) h
read_listed true os f h =
    read_options os f ∙ ap (λ (before : List FieldOpt). record f { option = before ++ os }) h

read_field-field_content :
    (p : Prep) (f : FormField)
    → IsNamed f.typ
    → text_by_default (read_field (field_start f).attrs (field_content p f)) ≡ kept_field p f
unfolding read_field field_start kept_field field_content text_by_default
read_field-field_content p f h =
    let (typ_read, var_read, label_read) = field_attrs (type_string f.typ) f.var_name f.label in
    let vals = kept_values p f.typ false f.value in
    ap text_by_default (λ i.
      read_members (field_content p f)
        (blank (field_type (typ_read i)) (var_read i) (label_read i) [] false))
    ∙ ap text_by_default (
        read_desc f.desc _ (field_type (type_string f.typ)) f.var_name f.label
        ∙ read_required f.required _ (field_type (type_string f.typ)) f.var_name f.label f.desc
        ∙ read_values vals _
            (blank (field_type (type_string f.typ)) f.var_name f.label f.desc f.required)
        ∙ read_listed (has_options f.typ) f.option
            (record (blank (field_type (type_string f.typ)) f.var_name f.label f.desc f.required) {
              value = vals;
            })
            refl)
    ∙ ap (λ (t : FieldType). record (kept_field p f) { typ = t }) (field_type_named f.typ h)

pub read_fields :
    (p : Prep) (fs : List FormField) (d : Data)
    → All (λ f. IsNamed f.typ) fs
    → read_children (fields_content p fs) d
      ≡ some (record d { fields = d.fields ++ map (kept_field p) fs })
unfolding fields_content read_children text_eq field_start
read_fields p [] d h =
    ap (λ (fs : List FormField). some (record d { fields = fs })) (sym (append-nil d.fields))
read_fields p (f ∷ fs) d (h, hs) =
    ap
      (λ (g : FormField).
        read_children (fields_content p fs) (record d { fields = d.fields ++ g ∷ [] }))
      (read_field-field_content p f h)
    ∙ read_fields p fs (record d { fields = d.fields ++ kept_field p f ∷ [] }) hs
    ∙ ap (λ (gs : List FormField). some (record d { fields = gs }))
        (append_assoc d.fields (kept_field p f ∷ []) (map (kept_field p) fs))
