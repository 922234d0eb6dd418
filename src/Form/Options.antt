-- ===== src/Form/Options.antt =====
-- form/options.go, form/form.go and form/fields.go: how forms and fields are built.
use xmpp.Prelude.{true, false, some, List, [], ◌∷◌, ◌++◌, Bytes}
use xmpp.Form.{
  type_boolean, type_fixed, type_hidden, type_jid_multi, type_jid, type_list_multi, type_list,
  type_text_multi, type_text_private, type_text, FieldType, FormField, form_type, cancel_type,
  result_type, Data,
}

-- `Required`, `Desc`, `Value`, `Label` and `ListItem`.
unfoldable pub required : FormField → FormField
required f = record f { required = true }

unfoldable pub desc : Bytes → FormField → FormField
desc s f = record f { desc = s }

unfoldable pub value : Bytes → FormField → FormField
value s f = record f { value = f.value ++ s ∷ [] }

unfoldable pub label : Bytes → FormField → FormField
label s f = record f { label = s }

unfoldable pub list_item : Bytes → Bytes → FormField → FormField
list_item l v f = record f { option = f.option ++ record { label = l; value = v } ∷ [] }

unfoldable pub get_field_opts : FormField → List (FormField → FormField) → FormField
get_field_opts f [] = f
get_field_opts f (o ∷ opts) = get_field_opts (o f) opts

-- `newField`, which each constructor of a field calls with its type; `Fixed` has the empty name.
unfoldable pub new_field : FieldType → Bytes → List (FormField → FormField) → Data → Data
new_field t id opts d =
    let f : FormField = record {
      typ = t;
      var_name = id;
      label = [];
      desc = [];
      value = [];
      option = [];
      required = false;
    } in
    record d { fields = d.fields ++ get_field_opts f opts ∷ [] }

-- `Title`, `Instructions` and `Result`.
unfoldable pub title : Bytes → Data → Data
title s d = record d { title = s }

unfoldable pub instructions : Bytes → Data → Data
instructions s d = record d { instructions = s }

unfoldable pub result : Data → Data
result d = record d { typ = result_type }

-- `New` and `Cancel`.
unfoldable pub apply_fields : List (Data → Data) → Data → Data
apply_fields [] d = d
apply_fields (f ∷ fs) d = apply_fields fs (f d)

unfoldable pub new : List (Data → Data) → Data
new fs =
    apply_fields fs
      (record { title = []; instructions = []; typ = form_type; fields = []; values = some [] })

unfoldable pub cancel : Bytes → Bytes → Data
cancel t i = record (new (title t ∷ instructions i ∷ [])) { typ = cancel_type }

-- The constructors of fields.
unfoldable pub boolean : Bytes → List (FormField → FormField) → Data → Data
boolean id opts = new_field type_boolean id opts

unfoldable pub fixed : List (FormField → FormField) → Data → Data
fixed opts = new_field type_fixed [] opts

unfoldable pub hidden : Bytes → List (FormField → FormField) → Data → Data
hidden id opts = new_field type_hidden id opts

unfoldable pub jid_multi : Bytes → List (FormField → FormField) → Data → Data
jid_multi id opts = new_field type_jid_multi id opts

unfoldable pub jid_single : Bytes → List (FormField → FormField) → Data → Data
jid_single id opts = new_field type_jid id opts

unfoldable pub list_multi : Bytes → List (FormField → FormField) → Data → Data
list_multi id opts = new_field type_list_multi id opts

unfoldable pub list_single : Bytes → List (FormField → FormField) → Data → Data
list_single id opts = new_field type_list id opts

unfoldable pub text_multi : Bytes → List (FormField → FormField) → Data → Data
text_multi id opts = new_field type_text_multi id opts

unfoldable pub text_private : Bytes → List (FormField → FormField) → Data → Data
text_private id opts = new_field type_text_private id opts

unfoldable pub text_single : Bytes → List (FormField → FormField) → Data → Data
text_single id opts = new_field type_text id opts
