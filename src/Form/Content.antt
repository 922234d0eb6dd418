-- ===== src/Form/Content.antt =====
-- The tokens of a form as well-formed content (form/form.go, form/fields.go).
use xmpp.Prelude.{
  if◌then◌else◌, Bool, true, false, not, map, List, [], ◌∷◌, ◌++◌, ◌≡◌, refl, ap, ◌∙◌, append_assoc,
  Bytes, codes, is_empty,
}
use xmpp.Jid.{Prep}
use xmpp.Xml.{Token, start_element, end_element, char_data, Content, done, text, element, tokens}
use xmpp.Stanza.{attribute}
use xmpp.Stanza.Failure.{XmlStream, WrapLaw, MultiLaw}
use xmpp.Form.{FieldOpt, FormField, Data}
use xmpp.Form.Write.{
  written, and_then, replace_spaces, plain_start, leaf, kept_values, has_options, option_tokens,
  field_start, field_tokens, written_fields, form_start, form_tokens,
}
use xmpp.Form.Lines.{pieces, non_empty, lines_split}

-- The content of the elements that are written, in front of what follows.
abbrev pub leaf_content : Bytes → Bytes → Content → Content
leaf_content local s r = element (plain_start local []) (text s done) r

unfoldable pub leaves : Bytes → List Bytes → Content → Content
leaves local [] r = r
leaves local (v ∷ vs) r = leaf_content local v (leaves local vs r)

unfoldable pub options : List FieldOpt → Content → Content
options [] r = r
options (o ∷ os) r =
    element (plain_start (codes "option") (attribute (codes "label") o.label ∷ []))
      (leaf_content (codes "value") o.value done) (options os r)

unfoldable pub field_content : Prep → FormField → Content
field_content p f =
    let opts = if has_options f.typ then options f.option done else done in
    let vals = leaves (codes "value") (kept_values p f.typ false f.value) opts in
    let req = if f.required then element (plain_start (codes "required") []) done vals else vals in
    if not (is_empty f.desc) then leaf_content (codes "desc") f.desc req else req

unfoldable pub fields_content : Prep → List FormField → Content
fields_content p [] = done
fields_content p (f ∷ fs) = element (field_start f) (field_content p f) (fields_content p fs)

-- The content of a form that writes these fields.
unfoldable pub form_content : Prep → Data → List FormField → Content
form_content p d fs =
    let rest =
      leaves (codes "instructions") (non_empty (pieces d.instructions)) (fields_content p fs) in
    if not (is_empty d.title)
    then leaf_content (codes "title") (replace_spaces d.title) rest
    else rest

-- Both ways of a list of readers: MultiReader reads them one after the other.
module _ (x : XmlStream) (w : WrapLaw x) (m : MultiLaw x) where
  leaves-tokens :
      (local : Bytes) (vs : List Bytes) (rs : List (List Token)) (r : Content)
      → x.multi_reader rs ≡ tokens r
      → x.multi_reader (map (λ v. leaf x local v) vs ++ rs) ≡ tokens (leaves local vs r)
  unfolding leaves tokens
  leaves-tokens local [] rs r h = h
  leaves-tokens local (v ∷ vs) rs r h =
      rw
        (
          m.then_tokens (leaf x local v) (map (λ v. leaf x local v) vs ++ rs),
          w.wrap_tokens (char_data v ∷ []) (plain_start local []),
          leaves-tokens local vs rs r h,
        )
        refl

  options-tokens :
      (os : List FieldOpt)
      → x.multi_reader (map (λ o. option_tokens x o) os) ≡ tokens (options os done)
  unfolding options tokens option_tokens
  options-tokens [] = m.no_tokens
  options-tokens (o ∷ os) =
      m.then_tokens (option_tokens x o) (map (λ o. option_tokens x o) os)
      ∙ rw
          (
            w.wrap_tokens (leaf x (codes "value") o.value)
                (plain_start (codes "option") (attribute (codes "label") o.label ∷ [])),
            w.wrap_tokens (char_data o.value ∷ []) (plain_start (codes "value") []),
            options-tokens os,
          )
          refl

  -- A child that is written under a condition.
  child-tokens :
      (b : Bool) (child : List Token) (rs : List (List Token)) (r r' : Content)
      → child ++ tokens r ≡ tokens r'
      → x.multi_reader rs ≡ tokens r
      → x.multi_reader ((if b then child ∷ [] else []) ++ rs) ≡ tokens (if b then r' else r)
  child-tokens false child rs r r' e h = h
  child-tokens true child rs r r' e h = m.then_tokens child rs ∙ ap (λ ts. child ++ ts) h ∙ e

  leaf-tokens :
      (local s : Bytes) (r : Content) → leaf x local s ++ tokens r ≡ tokens (leaf_content local s r)
  unfolding tokens
  leaf-tokens local s r = rw (w.wrap_tokens (char_data s ∷ []) (plain_start local [])) refl

  field-tokens :
      (p : Prep) (f : FormField)
      → field_tokens x p f
        ≡ start_element (field_start f)
          ∷ (tokens (field_content p f) ++ end_element (field_start f).name ∷ [])
  unfolding field_tokens field_content tokens
  field-tokens p f =
      w.wrap_tokens _ (field_start f)
      ∙ ap (λ ts. start_element (field_start f) ∷ (ts ++ end_element (field_start f).name ∷ []))
          (child-tokens (not (is_empty f.desc)) (leaf x (codes "desc") f.desc) _ _ _
            (leaf-tokens (codes "desc") f.desc _)
            (child-tokens f.required (x.wrap [] (plain_start (codes "required") [])) _ _ _
              (empty-tokens _)
              (leaves-tokens (codes "value") (kept_values p f.typ false f.value) _ _
                (opts (has_options f.typ)))))
    where
      opts :
          (b : Bool)
          → x.multi_reader (if b then map (λ o. option_tokens x o) f.option else [])
            ≡ tokens (if b then options f.option done else done)
      opts true = options-tokens f.option
      opts false = m.no_tokens

      empty-tokens :
          (r : Content)
          → x.wrap [] (plain_start (codes "required") []) ++ tokens r
            ≡ tokens (element (plain_start (codes "required") []) done r)
      empty-tokens r =
          ap (λ ts. ts ++ tokens r) (w.wrap_tokens [] (plain_start (codes "required") []))

  fields-tokens :
      (p : Prep) (fs : List FormField)
      → x.multi_reader (map (λ f. field_tokens x p f) fs) ≡ tokens (fields_content p fs)
  unfolding fields_content tokens
  fields-tokens p [] = m.no_tokens
  fields-tokens p (f ∷ fs) =
      m.then_tokens (field_tokens x p f) (map (λ f. field_tokens x p f) fs)
      ∙ rw (field-tokens p f, fields-tokens p fs)
          (ap (λ ts. start_element (field_start f) ∷ ts)
            (append_assoc (tokens (field_content p f)) (end_element (field_start f).name ∷ [])
              (tokens (fields_content p fs))))

  -- The tokens of a form whose fields are written as `fs`.
  pub form-tokens :
      (p : Prep) (d : Data) (fs : List FormField)
      → written_fields p d d.fields ≡ written fs
      → form_tokens x p d
        ≡ written (
            start_element (form_start d.typ)
            ∷ (tokens (form_content p d fs) ++ end_element (form_start d.typ).name ∷ []))
  unfolding form_tokens form_content and_then
  form-tokens p d fs h =
      rw ((lines_split d.instructions).0, h)
        (ap written (
          w.wrap_tokens _ (form_start d.typ)
          ∙ ap
              (λ ts.
                start_element (form_start d.typ) ∷ (ts ++ end_element (form_start d.typ).name ∷ []))
              (child-tokens (not (is_empty d.title))
                (leaf x (codes "title") (replace_spaces d.title)) _ _ _
                (leaf-tokens (codes "title") (replace_spaces d.title) _)
                (leaves-tokens (codes "instructions") (non_empty (pieces d.instructions)) _ _
                  (fields-tokens p fs)))))
