-- ===== src/Form/ReadBack.antt =====
-- What UnmarshalXML makes of the tokens of a form (form/form.go, form/fields.go).
use xmpp.Prelude.{
  if◌then◌else◌, false, not, none, some, map, List, [], ◌∷◌, ◌++◌, ◌≡◌, refl, sym, ap, ◌∙◌,
  append_assoc, append-nil, Bytes, codes, text_eq, is_empty, All, Bool-cases, inl, inr,
}
use xmpp.Jid.{Prep}
use xmpp.Xml.{start_element, end_element, Content, tokens}
use xmpp.Stanza.Failure.{XmlStream, WrapLaw, MultiLaw}
use xmpp.Form.{FormField, form_type_string, Data, join_lines, join_rest}
use xmpp.Form.Write.{written, replace_spaces, written_fields, form_start, form_tokens}
use xmpp.Form.Lines.{pieces, non_empty}
use xmpp.Form.Content.{leaf_content, leaves, fields_content, form_content, form-tokens}
use xmpp.Form.Read.{form_type_of, read_children, first_type, unmarshal}
use xmpp.Form.ReadFields.{IsNamed, kept_field, read_fields}

-- The instructions, line by line.
unfoldable add_lines : Bytes → List Bytes → Bytes
add_lines i [] = i
add_lines i (l ∷ ls) = add_lines (if is_empty i then l else i ++ 10 ∷ l) ls

read_instructions :
    (ls : List Bytes) (r : Content) (d : Data)
    → read_children (leaves (codes "instructions") ls r) d
      ≡ read_children r (record d { instructions = add_lines d.instructions ls })
unfolding leaves read_children text_eq add_lines
read_instructions [] r d = refl
read_instructions (l ∷ ls) r d =
    rw (append-nil l, read_children)
      (read_instructions ls r (record d {
        instructions = if is_empty d.instructions then l else d.instructions ++ 10 ∷ l;
      }))

add_rest : (i : Bytes) (ls : List Bytes) → is_empty i ≡ false → add_lines i ls ≡ i ++ join_rest ls
unfolding add_lines join_rest
add_rest i [] h = sym (append-nil i)
add_rest i (l ∷ ls) h =
    rw h (add_rest (i ++ 10 ∷ l) ls (nonempty i l h) ∙ append_assoc i (10 ∷ l) (join_rest ls))
  where
    nonempty : (i l : Bytes) → is_empty i ≡ false → is_empty (i ++ 10 ∷ l) ≡ false
    nonempty [] l h = refl
    nonempty (c ∷ i) l h = refl

add_lines-join_lines : (ls : List Bytes) → add_lines [] (non_empty ls) ≡ join_lines (non_empty ls)
unfolding add_lines join_lines non_empty
add_lines-join_lines [] = refl
add_lines-join_lines (l ∷ ls) = elim (Bool-cases (is_empty l)) [
  | inl e ↦ rw e (add_lines-join_lines ls)
  | inr e ↦ rw e (add_rest l (non_empty ls) e)
]

-- The form that is read back: the title on one line, the lines of the instructions that are not
-- empty, and the fields that were written.
unfoldable pub read_back : Prep → Data → List FormField → Data
read_back p d fs = record {
  title = replace_spaces d.title;
  instructions = join_lines (non_empty (pieces d.instructions));
  typ = form_type_of (form_type_string d.typ);
  fields = map (kept_field p) fs;
  values = some [];
}

read_title :
    (t : Bytes) (r : Content) (d : Data)
    → d.title ≡ []
    → read_children
        (if not (is_empty t) then leaf_content (codes "title") (replace_spaces t) r else r)
        d
      ≡ read_children r (record d { title = replace_spaces t })
unfolding read_children text_eq replace_spaces
read_title [] r d h = ap (λ (t : Bytes). read_children r (record d { title = t })) h
read_title (c ∷ t) r d h = rw (append-nil (replace_spaces (c ∷ t)), read_children) refl

abbrev pub zero_form : Data
zero_form = record {
  title = [];
  instructions = [];
  typ = form_type_of [];
  fields = [];
  values = none;
}

read_form_content :
    (p : Prep) (d : Data) (fs : List FormField)
    → All (λ f. IsNamed f.typ) fs
    → unmarshal (form_start d.typ).attrs (form_content p d fs) zero_form ≡ some (read_back p d fs)
unfolding unmarshal form_content read_back first_type form_start text_eq
read_form_content p d fs h =
    let e : Data = record zero_form {
      typ = form_type_of (form_type_string d.typ);
      values = some [];
    } in
    read_title d.title _ e refl
    ∙ read_instructions (non_empty (pieces d.instructions)) (fields_content p fs)
        (record e { title = replace_spaces d.title })
    ∙ ap
        (λ (i : Bytes).
          read_children (fields_content p fs)
            (record e { title = replace_spaces d.title; instructions = i }))
        (add_lines-join_lines (pieces d.instructions))
    ∙ read_fields p fs
        (record e {
          title = replace_spaces d.title;
          instructions = join_lines (non_empty (pieces d.instructions));
        })
        h

-- With a Wrap and a MultiReader that keep their laws: if the fields of a form are written as
-- certain fields, all of types that the package names, then the form's tokens are those of an
-- element of well-formed content, and reading it into a new form gives the title on one line, the
-- lines of the instructions that are not empty, the type, and the fields with the values and
-- options that are kept.
pub form_read_back :
    (x : XmlStream) (p : Prep) (d : Data) (fs : List FormField)
    → WrapLaw x
    → MultiLaw x
    → written_fields p d d.fields ≡ written fs
    → All (λ f. IsNamed f.typ) fs
    → (form_tokens x p d
        ≡ written (
            start_element (form_start d.typ)
            ∷ (tokens (form_content p d fs) ++ end_element (form_start d.typ).name ∷ [])))
      × (unmarshal (form_start d.typ).attrs (form_content p d fs) zero_form
          ≡ some (read_back p d fs))
form_read_back x p d fs w m h named = (form-tokens x w m p d fs h, read_form_content p d fs named)
