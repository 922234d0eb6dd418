-- ===== src/Form/Read.antt =====
-- UnmarshalXML of form/form.go and form/fields.go, on the well-formed content of the element: what
-- the decoder returns until its end element. Of encoding/xml it uses the decoding of structs: the
-- attributes and children that a tag names, in any namespace, the last of several where the field
-- holds one.
use xmpp.Prelude.{
  if◌then◌else◌, true, false, Option, none, some, List, [], ◌∷◌, ◌++◌, Bytes, codes, text_eq,
  is_empty,
}
use xmpp.Xml.{Attr, StartElement, Content, done, text, skip, element}
use xmpp.Xml.Decode.{own_text, last_attr}
use xmpp.Form.{
  FieldType, type_boolean, type_fixed, type_hidden, type_jid_multi, type_jid, type_list_multi,
  type_list, type_text_multi, type_text_private, type_text, other_type, FormField, FormType,
  form_type, submit_type, cancel_type, result_type, other_form, Data,
}

-- A text as a `FieldType`.
unfoldable pub field_type : Bytes → FieldType
field_type t =
    if text_eq t (codes "boolean")
    then type_boolean
    else if text_eq t (codes "fixed")
    then type_fixed
    else if text_eq t (codes "hidden")
    then type_hidden
    else if text_eq t (codes "jid-multi")
    then type_jid_multi
    else if text_eq t (codes "jid-single")
    then type_jid
    else if text_eq t (codes "list-multi")
    then type_list_multi
    else if text_eq t (codes "list-single")
    then type_list
    else if text_eq t (codes "text-multi")
    then type_text_multi
    else if text_eq t (codes "text-private")
    then type_text_private
    else if text_eq t (codes "text-single")
    then type_text
    else other_type t

-- A text as a `Type`.
unfoldable pub form_type_of : Bytes → FormType
form_type_of t =
    if text_eq t (codes "form")
    then form_type
    else if text_eq t (codes "submit")
    then submit_type
    else if text_eq t (codes "cancel")
    then cancel_type
    else if text_eq t (codes "result")
    then result_type
    else other_form t

-- The value of an option.
unfoldable pub last_value : Content → Bytes → Bytes
last_value done v = v
last_value (text s r) v = last_value r v
last_value (skip r) v = last_value r v
last_value (element s c r) v =
    last_value r (if text_eq s.name.local (codes "value") then own_text c else v)

-- One child of a field.
unfoldable pub read_member : StartElement → Content → FormField → FormField
read_member s c f =
    if text_eq s.name.local (codes "desc")
    then record f { desc = own_text c }
    else if text_eq s.name.local (codes "required")
    then record f { required = true }
    else if text_eq s.name.local (codes "value")
    then record f { value = f.value ++ own_text c ∷ [] }
    else if text_eq s.name.local (codes "option")
    then record f {
      option =
          f.option
          ++ record { label = last_attr (codes "label") s.attrs []; value = last_value c [] } ∷ [];
    }
    else f

unfoldable pub read_members : Content → FormField → FormField
read_members done f = f
read_members (text s r) f = read_members r f
read_members (skip r) f = read_members r f
read_members (element s c r) f = read_members r (read_member s c f)

-- `UnmarshalXML` of a field.
unfoldable pub read_field : List Attr → Content → FormField
read_field attrs c = read_members c (record {
  typ = field_type (last_attr (codes "type") attrs []);
  var_name = last_attr (codes "var") attrs [];
  label = last_attr (codes "label") attrs [];
  desc = [];
  value = [];
  option = [];
  required = false;
})

-- `if f.typ == "" { f.typ = TypeText }`.
unfoldable pub default_type : FieldType → FieldType
default_type (other_type t) = if is_empty t then type_text else other_type t
default_type t = t

unfoldable pub text_by_default : FormField → FormField
text_by_default f = record f { typ = default_type f.typ }

-- The loop of `UnmarshalXML` over the children of a form; `none` is an error.
unfoldable pub read_children : Content → Data → Option Data
read_children done d = some d
read_children (text s r) d = read_children r d
read_children (skip r) d = none
read_children (element s c r) d =
    if text_eq s.name.local (codes "title")
    then read_children r (record d { title = own_text c })
    else if text_eq s.name.local (codes "instructions")
    then read_children r (record d {
      instructions =
          if is_empty d.instructions then own_text c else d.instructions ++ 10 ∷ own_text c;
    })
    else if text_eq s.name.local (codes "field")
    then read_children r
        (record d { fields = d.fields ++ text_by_default (read_field s.attrs c) ∷ [] })
    else none

-- The first attribute named `type`, of any namespace.
unfoldable pub first_type : List Attr → FormType → FormType
first_type [] t = t
first_type (a ∷ attrs) t =
    if text_eq a.name.local (codes "type") then form_type_of a.value else first_type attrs t

-- `UnmarshalXML` of a form.
unfoldable pub unmarshal : List Attr → Content → Data → Option Data
unmarshal attrs c d = read_children c (record d { typ = first_type attrs d.typ; values = some [] })
