-- ===== src/Form.antt =====
-- form/form.go and form/fields.go: data forms, their fields, and the values that are
-- set and looked up.
pub mod Options
pub mod Write
pub mod Lines
pub mod Values
pub mod Submit
pub mod Read
pub mod Content
pub mod Kept
pub mod ReadFields
pub mod ReadBack
pub mod Survive
pub mod Tests
use xmpp.Prelude.{
  ℕ, zero, suc, if◌then◌else◌, Bool, true, false, not, ◌&&◌, ◌||◌, Option, none, some, List, [],
  ◌∷◌, ◌++◌, Bytes, codes, text_eq, is_empty, Result, ok, err, length, map_get, map_set,
}
use xmpp.Jid.{Jid, Prep, zero_jid, parse}

-- `FieldType`: the constants of the package, and any other text.
pub data FieldType : Type 0 where
  type_boolean type_fixed type_hidden type_jid_multi type_jid type_list_multi type_list : FieldType
  type_text_multi type_text_private type_text : FieldType
  other_type : Bytes → FieldType

unfoldable pub type_string : FieldType → Bytes
type_string type_boolean = codes "boolean"
type_string type_fixed = codes "fixed"
type_string type_hidden = codes "hidden"
type_string type_jid_multi = codes "jid-multi"
type_string type_jid = codes "jid-single"
type_string type_list_multi = codes "list-multi"
type_string type_list = codes "list-single"
type_string type_text_multi = codes "text-multi"
type_string type_text_private = codes "text-private"
type_string type_text = codes "text-single"
type_string (other_type t) = t

-- `FieldOpt`.
pub record FieldOpt : Type 0 where
  pub label : Bytes
  pub value : Bytes

-- `field`.
pub record FormField : Type 0 where
  pub typ : FieldType
  pub var_name : Bytes
  pub label : Bytes
  pub desc : Bytes
  pub value : List Bytes
  pub option : List FieldOpt
  pub required : Bool

-- What an `interface{}` holds that the package looks into; `other_value` is of any other type.
pub data Value : Type 0 where
  nil other_value : Value
  bool_value : Bool → Value
  string_value : Bytes → Value
  strings_value : List Bytes → Value
  jid_value : Jid → Value
  jids_value : List Jid → Value

-- `Type`: the type of a form.
pub data FormType : Type 0 where
  form_type submit_type cancel_type result_type : FormType
  other_form : Bytes → FormType

unfoldable pub form_type_string : FormType → Bytes
form_type_string form_type = codes "form"
form_type_string submit_type = codes "submit"
form_type_string cancel_type = codes "cancel"
form_type_string result_type = codes "result"
form_type_string (other_form t) = t

-- `Data`; a nil map of values is `none`.
pub record Data : Type 0 where
  pub title : Bytes
  pub instructions : Bytes
  pub typ : FormType
  pub fields : List FormField
  pub values : Option (List (Bytes × Value))

-- The first field with a name, which the loops of the methods look for.
unfoldable pub find_field : Bytes → List FormField → Option FormField
find_field id [] = none
find_field id (f ∷ fs) = if text_eq f.var_name id then some f else find_field id fs

-- `Len`, `Raw` and `GetOptions`; a nil form is `none`.
unfoldable pub len : Option Data → ℕ
len none = 0
len (some d) = length d.fields

unfoldable pub raw : Option Data → Bytes → Option (List Bytes)
raw none id = none
raw (some d) id = elim (find_field id d.fields) [ none ↦ none | some f ↦ some f.value ]

unfoldable pub get_options : Data → Bytes → Option (List FieldOpt)
get_options d id = elim (find_field id d.fields) [ none ↦ none | some f ↦ some f.option ]

-- The loops of `Get` over the values of a field.
unfoldable pub default_bool : List Bytes → Value × Bool
default_bool [] = (bool_value false, false)
default_bool (v ∷ vs) =
    if text_eq v (codes "false") || text_eq v (codes "0")
    then (bool_value false, true)
    else if text_eq v (codes "true") || text_eq v (codes "1")
    then (bool_value true, true)
    else default_bool vs

unfoldable pub default_string : List Bytes → Value × Bool
default_string [] = (string_value [], false)
default_string (v ∷ vs) = (string_value v, true)

unfoldable pub default_jid : Prep → List Bytes → Value × Bool
default_jid p [] = (jid_value zero_jid, false)
default_jid p (v ∷ vs) = elim (parse p v) [ ok j ↦ (jid_value j, true) | err e ↦ default_jid p vs ]

unfoldable pub parse_jids : Prep → List Bytes → List Jid
parse_jids p [] = []
parse_jids p (v ∷ vs) = elim (parse p v) [ ok j ↦ j ∷ parse_jids p vs | err e ↦ parse_jids p vs ]

abbrev pub is_nil {ℓ} : {A : Type ℓ} → List A → Bool
is_nil [] = true
is_nil (x ∷ xs) = false

-- The values behind the first, each behind a line feed.
unfoldable pub join_rest : List Bytes → Bytes
join_rest [] = []
join_rest (v ∷ vs) = 10 ∷ (v ++ join_rest vs)

unfoldable pub join_lines : List Bytes → Bytes
join_lines [] = []
join_lines (v ∷ vs) = v ++ join_rest vs

-- The `switch` of `Get`: a field's default.
unfoldable pub field_default : Prep → FieldType → List Bytes → Value × Bool
field_default p type_fixed vs = (string_value [], false)
field_default p type_boolean vs = default_bool vs
field_default p type_text vs = default_string vs
field_default p type_text_private vs = default_string vs
field_default p type_hidden vs = default_string vs
field_default p type_list vs = default_string vs
field_default p type_jid vs = default_jid p vs
field_default p type_jid_multi vs =
    let jids = parse_jids p vs in (jids_value jids, not (is_nil jids))
field_default p type_text_multi vs = (string_value (join_lines vs), not (is_nil vs))
field_default p type_list_multi vs = (strings_value vs, not (is_nil vs))
field_default p (other_type t) vs = if is_empty t then default_string vs else (nil, false)

unfoldable pub set_value : Option (List (Bytes × Value)) → Bytes → Option Value
set_value none id = none
set_value (some m) id = map_get text_eq id m

unfoldable pub default_of : Prep → Option FormField → Value × Bool
default_of p none = (nil, false)
default_of p (some f) = field_default p f.typ f.value

unfoldable pub value_or_default : Prep → List FormField → Bytes → Option Value → Value × Bool
value_or_default p fields id (some v) = (v, true)
value_or_default p fields id none = default_of p (find_field id fields)

-- `Get`.
unfoldable pub get : Prep → Data → Bytes → Value × Bool
get p d id = value_or_default p d.fields id (set_value d.values id)

-- The type assertions of `GetBool`, `GetString`, `GetStrings`, `GetJID` and `GetJIDs`: the value,
-- and `none` where `ok` is false.
abbrev pub as_bool : Value → Option Bool
as_bool (bool_value b) = some b
as_bool _ = none

abbrev pub as_string : Value → Option Bytes
as_string (string_value s) = some s
as_string _ = none

abbrev pub as_strings : Value → Option (List Bytes)
as_strings (strings_value s) = some s
as_strings _ = none

abbrev pub as_jid : Value → Option Jid
as_jid (jid_value j) = some j
as_jid _ = none

abbrev pub as_jids : Value → Option (List Jid)
as_jids (jids_value j) = some j
as_jids _ = none

abbrev asserted {ℓ} : {A : Type ℓ} → (Value → Option A) → Value × Bool → Option A
asserted assert (v, true) = assert v
asserted assert (v, false) = none

unfoldable pub get_bool : Prep → Data → Bytes → Option Bool
get_bool p d id = asserted as_bool (get p d id)

unfoldable pub get_string : Prep → Data → Bytes → Option Bytes
get_string p d id = asserted as_string (get p d id)

unfoldable pub get_strings : Prep → Data → Bytes → Option (List Bytes)
get_strings p d id = asserted as_strings (get p d id)

unfoldable pub get_jid : Prep → Data → Bytes → Option Jid
get_jid p d id = asserted as_jid (get p d id)

unfoldable pub get_jids : Prep → Data → Bytes → Option (List Jid)
get_jids p d id = asserted as_jids (get p d id)

-- What `Set` comes to: the form and `ok`, an error, or writing to a nil map.
pub data Setting : Type 0 where
  done : Bool → Data → Setting
  cannot_set_fixed wrong_type : Setting
  panicked : Setting

abbrev pub is_some {ℓ} : {A : Type ℓ} → Option A → Bool
is_some none = false
is_some (some a) = true

-- The type assertions of `Set`.
unfoldable pub accepts : FieldType → Value → Bool
accepts type_boolean v = is_some (as_bool v)
accepts type_text v = is_some (as_string v)
accepts type_text_private v = is_some (as_string v)
accepts type_hidden v = is_some (as_string v)
accepts type_list v = is_some (as_string v)
accepts type_text_multi v = is_some (as_string v)
accepts type_jid v = is_some (as_jid v)
accepts type_jid_multi v = is_some (as_jids v)
accepts type_list_multi v = is_some (as_strings v)
accepts type_fixed v = true
accepts (other_type t) v = true

unfoldable pub store : Option (List (Bytes × Value)) → Bool → Data → Bytes → Value → Setting
store none known d id v = panicked
store (some m) known d id v = done known (record d { values = some (map_set text_eq id v m) })

abbrev pub is_fixed : FieldType → Bool
is_fixed type_fixed = true
is_fixed _ = false

unfoldable pub set_as : FieldType → Data → Bytes → Value → Setting
set_as t d id v =
    if is_fixed t
    then cannot_set_fixed
    else if accepts t v
    then store d.values true d id v
    else wrong_type

-- `Set`.
unfoldable pub set : Data → Bytes → Value → Setting
set d id v = elim (find_field id d.fields) [
  | none ↦ store d.values false d id v
  | some f ↦ set_as f.typ d id v
]
