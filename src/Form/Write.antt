-- ===== src/Form/Write.antt =====
-- form/form.go and form/fields.go: the tokens of a form and of its fields, and Submit. A loop over
-- the lines of a text has fuel, one more than the text has bytes: each round that goes on leaves a
-- shorter text.
use xmpp.Prelude.{
  ℕ, zero, suc, if◌then◌else◌, Bool, true, false, not, ◌&&◌, ◌||◌, ◌==◌, Option, none, some, map,
  List, [], ◌∷◌, ◌++◌, Bytes, codes, text_eq, is_empty, ok, err, length, take, drop, index_by,
}
use xmpp.Jid.{Prep, parse, string}
use xmpp.Xml.{Attr, StartElement, Token, char_data}
use xmpp.Stanza.Failure.{XmlStream}
use xmpp.Stanza.{attribute}
use xmpp.Form.Options.{new}
use xmpp.Form.{
  FieldType, type_boolean, type_jid_multi, type_jid, type_list_multi, type_list, type_text_multi,
  type_string, FieldOpt, FormField, Value, nil, other_value, bool_value, string_value,
  strings_value, jid_value, jids_value, FormType, submit_type, other_form, form_type_string, Data,
  get, is_fixed,
}

-- What writing comes to: `panicked` is a slice out of range.
pub data Outcome (A : Type 0) : Type 0 where
  written : A → Outcome A
  panicked : Outcome A
  out_of_fuel : Outcome A

unfoldable pub and_then : {A B : Type 0} → Outcome A → (A → Outcome B) → Outcome B
and_then (written a) f = f a
and_then panicked f = panicked
and_then out_of_fuel f = out_of_fuel

abbrev pub is_line_end : ℕ → Bool
is_line_end c = c == 10 || c == 13

-- `spaceReplacer.Replace`: the pairs of a carriage return and a line feed are looked for first.
unfoldable pub replace_spaces : Bytes → Bytes
replace_spaces [] = []
replace_spaces (c ∷ []) = if is_line_end c then 32 ∷ [] else c ∷ []
replace_spaces (c ∷ d ∷ s) =
    let pair = replace_spaces s in
    let single = replace_spaces (d ∷ s) in
    if c == 13 && d == 10 || c == 10 && d == 13
    then 32 ∷ pair
    else if is_line_end c
    then 32 ∷ single
    else c ∷ single

-- The loop over the instructions: the lines that are not empty.
unfoldable pub instruction_lines : ℕ → Bytes → Outcome (List Bytes)
instruction_lines zero s = out_of_fuel
instruction_lines (suc fuel) s = elim (index_by is_line_end s) [
  | none ↦ written (if is_empty s then [] else s ∷ [])
  | some idx ↦
      let line = take idx s in
      let rest = instruction_lines fuel (drop (suc idx) s) in
      if is_empty line then rest else and_then rest (λ lines. written (line ∷ lines))
]

-- The loop over the text of a text-multi field. Where no line end is left, an empty rest is not the
-- end of the loop: it is cut at the index -1.
unfoldable pub text_lines : ℕ → Bytes → Outcome (List Bytes)
text_lines zero typed = out_of_fuel
text_lines (suc fuel) typed = elim (index_by is_line_end typed) [
  | none ↦ if is_empty typed then panicked else written (typed ∷ [])
  | some idx ↦
      and_then (text_lines fuel (drop (suc idx) typed)) (λ lines. written (take idx typed ∷ lines))
]

unfoldable pub format_bool : Bool → Bytes
format_bool true = codes "true"
format_bool false = codes "false"

abbrev pub is_text_multi : FieldType → Bool
is_text_multi type_text_multi = true
is_text_multi _ = false

-- The type switch: the texts that a field is submitted with.
unfoldable pub submit_value : FieldType → Value → List Bytes → Outcome (List Bytes)
submit_value t (strings_value typed) vs = written typed
submit_value t (string_value typed) vs =
    if is_text_multi t then text_lines (suc (length typed)) typed else written (typed ∷ [])
submit_value t (jid_value j) vs = written (string j ∷ [])
submit_value t (jids_value js) vs = written (map string js)
submit_value t (bool_value b) vs = written (format_bool b ∷ [])
submit_value t nil vs = written vs
submit_value t other_value vs = written vs

abbrev pub plain_start : Bytes → List Attr → StartElement
plain_start local attrs = record { name = record { space = []; local = local }; attrs = attrs }

-- An element with a text.
abbrev pub leaf : XmlStream → Bytes → Bytes → List Token
leaf x local s = x.wrap (char_data s ∷ []) (plain_start local [])

unfoldable pub is_multi : FieldType → Bool
is_multi type_list_multi = true
is_multi type_jid_multi = true
is_multi type_text_multi = true
is_multi _ = false

unfoldable pub is_kept : Prep → FieldType → Bytes → Bool
is_kept p type_boolean val =
    text_eq val (codes "true")
    || (text_eq val (codes "false") || (text_eq val (codes "0") || text_eq val (codes "1")))
is_kept p type_jid val = elim (parse p val) [ ok j ↦ true | err e ↦ false ]
is_kept p type_jid_multi val = elim (parse p val) [ ok j ↦ true | err e ↦ false ]
is_kept p _ val = true

-- The loop over the values of a field; the flag says that one was written.
unfoldable pub kept_values : Prep → FieldType → Bool → List Bytes → List Bytes
kept_values p t first_val [] = []
kept_values p t first_val (val ∷ vals) =
    if is_empty val
    then kept_values p t first_val vals
    else if first_val && not (is_multi t)
    then []
    else if is_kept p t val
    then val ∷ kept_values p t true vals
    else kept_values p t first_val vals

unfoldable pub has_options : FieldType → Bool
has_options type_list = true
has_options type_list_multi = true
has_options _ = false

unfoldable pub option_tokens : XmlStream → FieldOpt → List Token
option_tokens x opt =
    x.wrap (leaf x (codes "value") opt.value)
      (plain_start (codes "option") (attribute (codes "label") opt.label ∷ []))

unfoldable pub field_start : FormField → StartElement
field_start f = plain_start (codes "field") (
    attribute (codes "type") (type_string f.typ)
    ∷ ((if not (is_empty f.var_name) then attribute (codes "var") f.var_name ∷ [] else [])
        ++ (if not (is_empty f.label) then attribute (codes "label") f.label ∷ [] else [])))

-- `TokenReader` of a field.
unfoldable pub field_tokens : XmlStream → Prep → FormField → List Token
field_tokens x p f =
    x.wrap
      (x.multi_reader (
        (if not (is_empty f.desc) then leaf x (codes "desc") f.desc ∷ [] else [])
        ++ ((if f.required then x.wrap [] (plain_start (codes "required") []) ∷ [] else [])
            ++ (map (λ v. leaf x (codes "value") v) (kept_values p f.typ false f.value)
                ++ (if has_options f.typ then map (λ o. option_tokens x o) f.option else [])))))
      (field_start f)

abbrev pub is_submit : FormType → Bool
is_submit submit_type = true
is_submit _ = false

-- The body of the loop over the fields of a submission: the fields that are written.
unfoldable pub submit_field : Prep → Data → FormField → Outcome (List FormField)
submit_field p d f =
    if is_fixed f.typ
    then written []
    else let (vv, is_set) = get p d f.var_name in
      if not f.required && not is_set
      then written []
      else and_then (submit_value f.typ vv f.value) (λ vs. written (record f { value = vs } ∷ []))

unfoldable pub written_fields : Prep → Data → List FormField → Outcome (List FormField)
written_fields p d [] = written []
written_fields p d (f ∷ fs) =
    and_then (if is_submit d.typ then submit_field p d f else written (f ∷ []))
      (λ here. and_then (written_fields p d fs) (λ rest. written (here ++ rest)))

unfoldable pub form_start : FormType → StartElement
form_start t = record {
  name = record { space = codes "jabber:x:data"; local = codes "x" };
  attrs = attribute (codes "type") (form_type_string t) ∷ [];
}

-- `TokenReader` of a form.
unfoldable pub form_tokens : XmlStream → Prep → Data → Outcome (List Token)
form_tokens x p d =
    and_then (instruction_lines (suc (length d.instructions)) d.instructions) (λ lines.
      and_then (written_fields p d d.fields) (λ fs. written (
        x.wrap
          (x.multi_reader (
            (if not (is_empty d.title)
              then leaf x (codes "title") (replace_spaces d.title) ∷ []
              else [])
            ++ (map (λ l. leaf x (codes "instructions") l) lines
                ++ map (λ f. field_tokens x p f) fs)))
          (form_start d.typ))))

-- The loop of `Submit`: whether each required field is set.
unfoldable pub all_set : Prep → Data → List FormField → Bool
all_set p d [] = true
all_set p d (f ∷ fs) =
    let rest = all_set p d fs in
    if f.required then (if (get p d f.var_name).1 then rest else false) else rest

abbrev pub zero_data : Data
zero_data = record {
  title = [];
  instructions = [];
  typ = other_form [];
  fields = [];
  values = none;
}

abbrev pub submission_data : Data → Data
submission_data d = record (new []) { values = d.values; fields = d.fields; typ = submit_type }

abbrev given : Option Data → Data
given none = zero_data
given (some d) = d

-- `Submit`; a nil form is `none`.
unfoldable pub submit : XmlStream → Prep → Option Data → Outcome (List Token × Bool)
submit x p o =
    let d = submission_data (given o) in
    and_then (form_tokens x p d) (λ tokens. written (tokens, all_set p d d.fields))
