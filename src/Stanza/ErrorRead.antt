-- ===== src/Stanza/ErrorRead.antt =====
-- stanza/error.go: how a stanza error is read, compared and shown. The well-formed content of the
-- element is what the decoder returns until its end element.
use xmpp.Prelude.{
  if◌then◌else◌, Bool, true, false, not, ◌&&◌, ltb, ◌==◌, Option, none, some, List, [], ◌∷◌, Bytes,
  codes, text_eq, is_empty, Result, ok, ◌>>=◌,
}
use xmpp.Jid.{Error, Jid, Prep, zero_jid, parse}
use xmpp.Xml.{Name, Attr, Content, done, text, skip, element}
use xmpp.Xml.Decode.{own_text, last_attr, lang_of}
use xmpp.Stanza.Failure.{StanzaError, ns_error}

-- `ErrorType`.
abbrev pub error_types : List Bytes
error_types = codes "cancel" ∷ codes "auth" ∷ codes "continue" ∷ codes "modify" ∷ codes "wait" ∷ []

-- The constants of `Condition`, in the order of the source.
abbrev pub request_conditions : List Bytes
request_conditions =
    codes "bad-request"
    ∷ codes "conflict"
    ∷ codes "feature-not-implemented"
    ∷ codes "forbidden"
    ∷ codes "gone"
    ∷ codes "internal-server-error"
    ∷ codes "item-not-found"
    ∷ codes "jid-malformed"
    ∷ codes "not-acceptable"
    ∷ codes "not-allowed"
    ∷ codes "not-authorized"
    ∷ []

abbrev pub service_conditions : List Bytes
service_conditions =
    codes "policy-violation"
    ∷ codes "recipient-unavailable"
    ∷ codes "redirect"
    ∷ codes "registration-required"
    ∷ codes "remote-server-not-found"
    ∷ codes "remote-server-timeout"
    ∷ codes "resource-constraint"
    ∷ codes "service-unavailable"
    ∷ codes "subscription-required"
    ∷ codes "undefined-condition"
    ∷ codes "unexpected-request"
    ∷ []

-- `Is`, where `none` is an error of another type.
unfoldable pub error_is : StanzaError → Option StanzaError → Bool
error_is se none = false
error_is se (some e) =
    if is_empty e.type && is_empty e.condition
    then true
    else if is_empty e.type
    then text_eq e.condition se.condition
    else if is_empty e.condition
    then text_eq e.type se.type
    else text_eq e.condition se.condition && text_eq e.type se.type

-- The loop of `Error` over the texts, in the order in which it meets them.
unfoldable pub last_text : List (Bytes × Bytes) → Bytes → Bytes
last_text [] txt = txt
last_text ((lang, txt) ∷ order) before =
    let rest = last_text order txt in if is_empty lang then txt else rest

-- `Error`.
unfoldable pub error_string : StanzaError → List (Bytes × Bytes) → Bytes
error_string se [] = se.condition
error_string se (t ∷ order) = last_text (t ∷ order) []

-- `a < b` on strings.
unfoldable pub text_less : Bytes → Bytes → Bool
text_less [] [] = false
text_less [] (b ∷ bs) = true
text_less (a ∷ as') [] = false
text_less (a ∷ as') (b ∷ bs) = if ltb a b then true else (a == b && text_less as' bs)

-- `se.Text[lang] = data`: the entries stand in the order of their languages.
unfoldable pub set_text : Bytes → Bytes → List (Bytes × Bytes) → List (Bytes × Bytes)
set_text lang value [] = (lang, value) ∷ []
set_text lang value ((l, d) ∷ m) =
    let rest = set_text lang value m in
    if text_eq l lang
    then (lang, value) ∷ m
    else if text_less lang l
    then (lang, value) ∷ (l, d) ∷ m
    else (l, d) ∷ rest

unfoldable pub set_texts : List (Bytes × Bytes) → List (Bytes × Bytes) → List (Bytes × Bytes)
set_texts m [] = m
set_texts m ((lang, d) ∷ ts) =
    if is_empty d then set_texts m ts else set_texts (set_text lang d m) ts

-- The children that the struct takes as conditions, by their names, and its texts.
unfoldable pub conditions_of : Content → List Name
conditions_of done = []
conditions_of (text s r) = conditions_of r
conditions_of (skip r) = conditions_of r
conditions_of (element s c r) =
    let rest = conditions_of r in
    if text_eq s.name.local (codes "text") && text_eq s.name.space ns_error
    then rest
    else s.name ∷ rest

unfoldable pub texts_of : Content → List (Bytes × Bytes)
texts_of done = []
texts_of (text s r) = texts_of r
texts_of (skip r) = texts_of r
texts_of (element s c r) =
    let rest = texts_of r in
    if text_eq s.name.local (codes "text") && text_eq s.name.space ns_error
    then (lang_of s.attrs [], own_text c) ∷ rest
    else rest

-- The loop over the conditions: the first of the namespace.
unfoldable pub first_condition : List Name → Bytes → Bytes
first_condition [] before = before
first_condition (n ∷ ns) before =
    if text_eq n.space ns_error then n.local else first_condition ns before

-- `UnmarshalXMLAttr` of an address, for each attribute named by.
unfoldable pub read_by : Prep → List Attr → Jid → Result Error Jid
read_by p [] j = ok j
read_by p (a ∷ attrs) j =
    if text_eq a.name.local (codes "by") && not (is_empty a.value)
    then (parse p a.value >>= λ k. read_by p attrs k)
    else read_by p attrs j

-- `UnmarshalXML`.
unfoldable pub unmarshal_error : Prep → List Attr → Content → StanzaError → Result Error StanzaError
unmarshal_error p attrs c se = read_by p attrs zero_jid >>= λ by. ok (record {
  by = by;
  type = last_attr (codes "type") attrs [];
  condition = first_condition (conditions_of c) se.condition;
  text = set_texts se.text (texts_of c);
})
