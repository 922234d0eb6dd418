-- ===== src/Stanza/ErrorBack.antt =====
-- What UnmarshalXML of stanza/error.go makes of the tokens of Wrap.
use xmpp.Prelude.{
  if◌then◌else◌, true, false, not, List, [], ◌∷◌, ◌++◌, ◌≡◌, ◌≢◌, ◌⊎◌, inl, inr, refl, sym, ap,
  subst, ◌∙◌, append-nil, Bytes, codes, text_eq, text_eq_iff, is_empty, Result, ok, ◌>>=◌,
  Bool-cases,
}
use xmpp.Jid.{Error, Jid, Prep, zero_jid, parse, string}
use xmpp.Stanza.Read.{IsAddress, string-nonempty}
use xmpp.Xml.{
  Attr, StartElement, ns_xml, Token, start_element, end_element, char_data, Content, done, text,
  element, tokens,
}
use xmpp.Xml.Decode.{last_attr, lang_of}
use xmpp.Stanza.Failure.{
  XmlStream, WrapLaw, MultiLaw, ns_error, undefined_condition, StanzaError, text_tokens,
  error_start, error_wrap,
}
use xmpp.Stanza.ErrorRead.{
  set_texts, conditions_of, texts_of, first_condition, read_by, unmarshal_error,
}
use xmpp.Stanza.ErrorTexts.{IsSorted, shown, shown-IsSorted, set_texts-append}

-- The children of an error: the condition and the texts.
abbrev text_attrs : Bytes → List Attr
text_attrs lang =
    if not (is_empty lang)
    then record { name = record { space = ns_xml; local = codes "lang" }; value = lang } ∷ []
    else []

unfoldable pub texts_content : List (Bytes × Bytes) → Content
texts_content [] = done
texts_content ((lang, value) ∷ ts) =
    element
      (record { name = record { space = ns_error; local = codes "text" }; attrs = text_attrs lang })
      (text value done) (texts_content ts)

abbrev pub condition_of : StanzaError → Bytes
condition_of se = if is_empty se.condition then undefined_condition else se.condition

abbrev condition_start : StanzaError → StartElement
condition_start se = record {
  name = record { space = ns_error; local = condition_of se };
  attrs = [];
}

abbrev pub error_content : StanzaError → Content
error_content se = element (condition_start se) done (texts_content (shown se.text))

module _ (x : XmlStream) (w : WrapLaw x) (m : MultiLaw x) where
  texts-tokens :
      (ts : List (Bytes × Bytes))
      → x.multi_reader (text_tokens x ts) ≡ tokens (texts_content (shown ts))
  unfolding text_tokens texts_content shown tokens
  texts-tokens [] = m.no_tokens
  texts-tokens ((lang, value) ∷ ts) = elim (Bool-cases (is_empty value)) [
    | inl e ↦ rw e (texts-tokens ts)
    | inr e ↦ rw e (
        m.then_tokens
          (x.wrap (char_data value ∷ []) (record {
            name = record { space = ns_error; local = codes "text" };
            attrs = text_attrs lang;
          }))
          (text_tokens x ts)
        ∙ rw
            (
              w.wrap_tokens (char_data value ∷ []) (record {
                name = record { space = ns_error; local = codes "text" };
                attrs = text_attrs lang;
              }),
              texts-tokens ts,
            )
            refl)
  ]

  both : (a b : List Token) → x.multi_reader (a ∷ b ∷ [] ∷ []) ≡ a ++ b
  both a b =
      rw
        (
          m.then_tokens a (b ∷ [] ∷ []),
          m.then_tokens b ([] ∷ []),
          m.then_tokens [] [],
          m.no_tokens,
          append-nil b,
        )
        refl

  error-tokens :
      (se : StanzaError)
      → error_wrap x se []
        ≡ start_element (error_start se)
          ∷ (tokens (error_content se) ++ end_element (error_start se).name ∷ [])
  unfolding error_wrap tokens
  error-tokens se =
      w.wrap_tokens _ (error_start se)
      ∙ ap (λ ts. start_element (error_start se) ∷ (ts ++ end_element (error_start se).name ∷ []))
          inner
    where
      inner :
          x.multi_reader
            (x.wrap [] (condition_start se) ∷ x.multi_reader (text_tokens x se.text) ∷ [] ∷ [])
          ≡ tokens (error_content se)
      inner =
          both (x.wrap [] (condition_start se)) (x.multi_reader (text_tokens x se.text))
          ∙ rw (w.wrap_tokens [] (condition_start se), texts-tokens se.text) refl

read_texts :
    (ts : List (Bytes × Bytes))
    → (texts_of (texts_content ts) ≡ ts) × (conditions_of (texts_content ts) ≡ [])
unfolding texts_of conditions_of texts_content text_eq lang_of
read_texts [] = (refl, refl)
read_texts (([], value) ∷ ts) = (rw (append-nil value, (read_texts ts).0) refl, (read_texts ts).1)
read_texts ((c ∷ lang, value) ∷ ts) =
    (rw (append-nil value, (read_texts ts).0) refl, (read_texts ts).1)

-- The text of an address and what is read from it: nothing, or the address.
abbrev Reads : Prep → Bytes → Jid → Type 0
Reads p s j = ((is_empty s ≡ true) × (j ≡ zero_jid)) ⊎ ((is_empty s ≡ false) × (parse p s ≡ ok j))

address-Reads : (p : Prep) (j : Jid) → IsAddress p j → Reads p (string j) j
unfolding string
address-Reads p j (inl e) = subst (λ k. Reads p (string k) k) (sym e) (inl (refl, refl))
address-Reads p j (inr (valid, read_back)) = inr (string-nonempty j valid, read_back)

abbrev by_attrs : Bytes → List Attr
by_attrs s =
    if not (is_empty s)
    then record { name = record { space = []; local = codes "by" }; value = s } ∷ []
    else []

read_address :
    (p : Prep) (s : Bytes) (j : Jid)
    → Reads p s j
    → (read_by p (by_attrs s) zero_jid ≡ ok j)
      × ((t : Bytes) → last_attr (codes "type") (by_attrs s) t ≡ t)
unfolding read_by last_attr text_eq
read_address p s j (inl (e, z)) = rw e (ap ok (sym z), λ t. refl)
read_address p s j (inr (e, q)) = (rw (e, q, read_by) (rw e refl), λ t. rw e refl)

abbrev type_attrs : Bytes → List Attr
type_attrs t =
    if not (is_empty t)
    then record { name = record { space = []; local = codes "type" }; value = t } ∷ []
    else []

type_in_front :
    (p : Prep) (t : Bytes) (attrs : List Attr)
    → (read_by p (type_attrs t ++ attrs) zero_jid ≡ read_by p attrs zero_jid)
      × (last_attr (codes "type") (type_attrs t ++ attrs) [] ≡ last_attr (codes "type") attrs t)
unfolding read_by last_attr text_eq
type_in_front p [] attrs = (refl, refl)
type_in_front p (c ∷ t) attrs = (refl, refl)

read_start :
    (p : Prep) (se : StanzaError)
    → IsAddress p se.by
    → (read_by p (error_start se).attrs zero_jid ≡ ok se.by)
      × (last_attr (codes "type") (error_start se).attrs [] ≡ se.type)
unfolding error_start
read_start p se h =
    let (by_there, type_there) = type_in_front p se.type (by_attrs (string se.by)) in
    let (by_read, type_read) = read_address p (string se.by) se.by (address-Reads p se.by h) in
    (by_there ∙ by_read, type_there ∙ type_read se.type)

abbrev pub zero_error : StanzaError
zero_error = record { by = zero_jid; type = []; condition = []; text = [] }

other_name :
    (c : Bytes)
    → c ≢ codes "text"
    → text_eq (if is_empty c then undefined_condition else c) (codes "text") ≡ false
unfolding text_eq
other_name [] h = refl
other_name (b ∷ c) h = elim (Bool-cases (text_eq (b ∷ c) (codes "text"))) [
  | inl e ↦ absurd (h ((text_eq_iff (b ∷ c) (codes "text")).0 e))
  | inr e ↦ e
]

read_content :
    (se : StanzaError)
    → IsSorted se.text
    → se.condition ≢ codes "text"
    → (first_condition (conditions_of (error_content se)) [] ≡ condition_of se)
      × (set_texts [] (texts_of (error_content se)) ≡ shown se.text)
unfolding conditions_of texts_of first_condition text_eq
read_content se sorted named =
    let (texts_read, none_left) = read_texts (shown se.text) in
    let (in_order, full) = shown-IsSorted se.text sorted in
    let other : text_eq (condition_of se) (codes "text") ≡ false = other_name se.condition named in
    (rw other refl, rw (other, texts_read) (set_texts-append [] (shown se.text) in_order full))

-- With a Wrap and a MultiReader that keep their laws: a stanza error whose address is unset, or well
-- formed and parsed back from its text, whose texts stand in the order of their languages and whose condition is not named
-- text is written as an element of well-formed content, and reading that gives it back, without
-- the empty texts, and with undefined-condition for no condition.
pub unmarshal-error_wrap :
    (x : XmlStream) (p : Prep) (se : StanzaError)
    → WrapLaw x
    → MultiLaw x
    → IsAddress p se.by
    → IsSorted se.text
    → se.condition ≢ codes "text"
    → (error_wrap x se []
        ≡ start_element (error_start se)
          ∷ (tokens (error_content se) ++ end_element (error_start se).name ∷ []))
      × (unmarshal_error p (error_start se).attrs (error_content se) zero_error
          ≡ ok (record se { condition = condition_of se; text = shown se.text }))
unfolding unmarshal_error
unmarshal-error_wrap x p se w m address sorted named =
    let (by_read, type_read) = read_start p se address in
    let (condition_read, text_read) = read_content se sorted named in
    (
      error-tokens x w m se,
      ap
            (λ (r : Result Error Jid). r >>= λ by. ok (record {
              by = by;
              type = last_attr (codes "type") (error_start se).attrs [];
              condition = first_condition (conditions_of (error_content se)) [];
              text = set_texts [] (texts_of (error_content se));
            }))
            by_read
          ∙ λ i. ok (record {
            by = se.by;
            type = type_read i;
            condition = condition_read i;
            text = text_read i;
          }),
    )
