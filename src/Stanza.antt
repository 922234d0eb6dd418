-- ===== src/Stanza.antt =====
-- stanza/stanza.go, stanza/iq.go, stanza/message.go and stanza/presence.go: the start element of a
-- stanza, read and written. The three structs have the same fields: they are one record, `Stanza`.
-- A type such as `IQType` is a string in the source, and is one here.
pub mod Read
pub mod RoundTrip
pub mod Failure
pub mod ErrorRead
pub mod ErrorTexts
pub mod ErrorBack
pub mod ErrorShown
pub mod ErrorTests
pub mod Tests
use xmpp.Prelude.{
  if◌then◌else◌, Bool, true, false, not, ◌&&◌, ◌||◌, Option, none, some, List, [], ◌∷◌, ◌++◌, Bytes,
  codes, text_eq, is_empty, Result, ok, err,
}
use xmpp.Jid.{Error, Jid, Prep, zero_jid, equal, string, parse}
use xmpp.Xml.{Name, Attr, StartElement, ns_xml}

abbrev pub ns_client : Bytes
ns_client = codes "jabber:client"

abbrev pub ns_server : Bytes
ns_server = codes "jabber:server"

pub record Stanza : Type 0 where
  pub xml_name : Name
  pub id : Bytes
  pub to : Jid
  pub from : Jid
  pub lang : Bytes
  pub type : Bytes

-- `Is`.
unfoldable pub is : Name → Bytes → Bool
is name stanza_ns =
    (text_eq name.local (codes "iq")
      || (text_eq name.local (codes "message") || text_eq name.local (codes "presence")))
    && (is_empty stanza_ns || text_eq name.space stanza_ns)

-- The attributes that the three structs share, by local name; `on_type` reads the type.
module _ (p : Prep) (on_type : Bytes → Bytes) where
  set_local : Bytes → Bytes → Stanza → Stanza × Option Error
  set_local local value v =
      if text_eq local (codes "id")
      then (record v { id = value }, none)
      else if text_eq local (codes "to")
      then (if is_empty value then (v, none) else elim (parse p value) [
        | ok j ↦ (record v { to = j }, none)
        | err e ↦ (record v { to = zero_jid }, some e)
      ])
      else if text_eq local (codes "from")
      then (if is_empty value then (v, none) else elim (parse p value) [
        | ok j ↦ (record v { from = j }, none)
        | err e ↦ (record v { from = zero_jid }, some e)
      ])
      else if text_eq local (codes "type")
      then (record v { type = on_type value }, none)
      else (v, none)

  -- The body of the loop over the attributes; the first name is the element's.
  unfoldable pub set_attr : Name → Attr → Stanza → Stanza × Option Error
  unfolding set_local
  set_attr start attr v =
      if text_eq attr.name.local (codes "lang") && text_eq attr.name.space ns_xml
      then (record v { lang = attr.value }, none)
      else if not (is_empty attr.name.space) && not (text_eq attr.name.space start.space)
      then (v, none)
      else set_local attr.name.local attr.value v

  -- The loop: it ends at the first error.
  unfoldable pub set_attrs : Name → List Attr → Stanza → Stanza × Option Error
  set_attrs start [] v = (v, none)
  set_attrs start (a ∷ attrs) v =
      let (w, e) = set_attr start a v in
      elim e [ none ↦ set_attrs start attrs w | some x ↦ (w, some x) ]

abbrev pub empty_stanza : Name → Bytes → Stanza
empty_stanza name type = record {
  xml_name = name;
  id = [];
  to = zero_jid;
  from = zero_jid;
  lang = [];
  type = type;
}

-- `NewIQ`.
unfoldable pub new_iq : Prep → StartElement → Stanza × Option Error
new_iq p start = set_attrs p (λ t. t) start.name start.attrs (empty_stanza start.name [])

-- `MessageType.UnmarshalXMLAttr`.
unfoldable pub message_type : Bytes → Bytes
message_type t =
    if text_eq t (codes "normal")
    then codes "normal"
    else if text_eq t (codes "chat")
    then codes "chat"
    else if text_eq t (codes "error")
    then codes "error"
    else if text_eq t (codes "groupchat")
    then codes "groupchat"
    else if text_eq t (codes "headline")
    then codes "headline"
    else codes "normal"

-- `NewMessage`.
unfoldable pub new_message : Prep → StartElement → Stanza × Option Error
new_message p start =
    set_attrs p message_type start.name start.attrs (empty_stanza start.name (codes "normal"))

-- `NewPresence`.
unfoldable pub new_presence : Prep → StartElement → Stanza × Option Error
new_presence p start = set_attrs p (λ t. t) start.name start.attrs (empty_stanza start.name [])

abbrev pub attribute : Bytes → Bytes → Attr
attribute local value = record { name = record { space = []; local = local }; value = value }

-- `if !j.Equal(jid.JID{}) { append … }`.
abbrev pub jid_attr : Bytes → Jid → List Attr
jid_attr local j = if not (equal j zero_jid) then attribute local (string j) ∷ [] else []

-- The attributes behind the type, in the order of the source.
unfoldable pub shared_attrs : Stanza → List Attr
shared_attrs v =
    jid_attr (codes "to") v.to
    ++ (jid_attr (codes "from") v.from
        ++ ((if not (is_empty v.id) then attribute (codes "id") v.id ∷ [] else [])
            ++ (if not (is_empty v.lang)
                then record {
                  name = record { space = ns_xml; local = codes "lang" };
                  value = v.lang;
                }
                  ∷ []
                else [])))

-- `StartElement` of an IQ, a message and a presence: the namespace of the name is kept.
unfoldable pub iq_start : Stanza → StartElement
iq_start v = record {
  name = record { space = v.xml_name.space; local = codes "iq" };
  attrs = attribute (codes "type") v.type ∷ shared_attrs v;
}

unfoldable pub message_start : Stanza → StartElement
message_start v = record {
  name = record { space = v.xml_name.space; local = codes "message" };
  attrs = attribute (codes "type") v.type ∷ shared_attrs v;
}

unfoldable pub presence_start : Stanza → StartElement
presence_start v = record {
  name = record { space = v.xml_name.space; local = codes "presence" };
  attrs =
      (if not (is_empty v.type) then attribute (codes "type") v.type ∷ [] else [])
      ++ shared_attrs v;
}

-- What `Result` and `Error` send instead of the stanza that they answer.
unfoldable pub iq_result : Stanza → Stanza
iq_result v = record v { type = codes "result"; from = v.to; to = v.from }

unfoldable pub iq_error : Stanza → Stanza
iq_error v = record v { type = codes "error"; from = v.to; to = v.from }

-- `IQType.MarshalText` and `MessageType.MarshalText`.
unfoldable pub iq_marshal_text : Bytes → Bytes
iq_marshal_text t = if is_empty t then codes "get" else t

unfoldable pub message_marshal_text : Bytes → Bytes
message_marshal_text t =
    if not (text_eq t (codes "normal"))
      && (not (text_eq t (codes "chat"))
          && (not (text_eq t (codes "error"))
              && (not (text_eq t (codes "groupchat")) && not (text_eq t (codes "headline")))))
    then codes "normal"
    else t
