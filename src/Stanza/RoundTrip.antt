-- ===== src/Stanza/RoundTrip.antt =====
-- Writing the start element of a stanza and reading it again; answers to an IQ.
use xmpp.Prelude.{
  if◌then◌else◌, false, not, none, List, [], ◌∷◌, ◌++◌, ◌≡◌, ◌≢◌, inl, inr, refl, sym, ap, ◌∙◌,
  Bytes, codes, text_eq_iff, is_empty, arith,
}
use xmpp.Jid.{Prep}
use xmpp.Xml.{Name, Attr, ns_xml}
use xmpp.Stanza.{
  Stanza, set_attr, set_attrs, attribute, shared_attrs, empty_stanza, new_iq, new_message,
  new_presence, message_type, message_marshal_text, iq_start, message_start, presence_start,
  iq_result, iq_error,
}
use xmpp.Stanza.Read.{IsAddress, outcome, set_attrs_step, set_attrs_stop, read_type, read_shared}

-- What the attributes of a stanza, its type first, make of an empty stanza.
read_start :
    (p : Prep) (on_type : Bytes → Bytes) (start : Name) (initial : Bytes) (v : Stanza)
    → IsAddress p v.to
    → IsAddress p v.from
    → set_attrs p on_type start
        (attribute (codes "type") v.type ∷ shared_attrs v)
        (empty_stanza start initial)
      ≡ (record v { xml_name = start; type = on_type v.type }, none)
read_start p on_type start initial v to_ok from_ok =
    set_attrs_step p on_type start (attribute (codes "type") v.type) (shared_attrs v)
      (empty_stanza start initial) (read_type p on_type start v.type (empty_stanza start initial))
    ∙ read_shared p on_type start v (empty_stanza start (on_type v.type)) to_ok from_ok refl refl
        refl refl

abbrev named : Stanza → Bytes → Name
named v local = record { space = v.xml_name.space; local = local }

-- The start element of an IQ is read back as the IQ with the localname "iq", if each address is
-- unset, or well formed and parsed back from its text.
pub new_iq-start :
    (p : Prep) (v : Stanza)
    → IsAddress p v.to
    → IsAddress p v.from
    → new_iq p (iq_start v) ≡ (record v { xml_name = named v (codes "iq") }, none)
unfolding new_iq iq_start
new_iq-start p v = read_start p (λ t. t) (named v (codes "iq")) [] v

-- The start element of a message is read back as the message with the localname "message" and the
-- type as `MessageType` knows it, if each address is unset, or well formed and parsed back from its
-- text.
pub new_message-start :
    (p : Prep) (v : Stanza)
    → IsAddress p v.to
    → IsAddress p v.from
    → new_message p (message_start v)
      ≡ (record v { xml_name = named v (codes "message"); type = message_type v.type }, none)
unfolding new_message message_start
new_message-start p v = read_start p message_type (named v (codes "message")) (codes "normal") v

-- The start element of a presence is read back as the presence with the localname "presence", if
-- each address is unset, or well formed and parsed back from its text.
pub new_presence-start :
    (p : Prep) (v : Stanza)
    → IsAddress p v.to
    → IsAddress p v.from
    → new_presence p (presence_start v) ≡ (record v { xml_name = named v (codes "presence") }, none)
unfolding new_presence presence_start
new_presence-start p v to_ok from_ok = written v.type refl
  where
    written :
        (t : Bytes)
        → v.type ≡ t
        → set_attrs p
            (λ x. x)
            (named v (codes "presence"))
            ((if not (is_empty v.type) then attribute (codes "type") v.type ∷ [] else [])
              ++ shared_attrs v)
            (empty_stanza (named v (codes "presence")) [])
          ≡ (record v { xml_name = named v (codes "presence") }, none)
    written [] e = rw (ap is_empty e) (
        read_shared p (λ x. x) (named v (codes "presence")) v
          (empty_stanza (named v (codes "presence")) []) to_ok from_ok refl refl refl refl
        ∙ λ i. (record v { xml_name = named v (codes "presence"); type = sym e i }, none))
    written (c ∷ t) e =
        rw (ap is_empty e) (read_start p (λ x. x) (named v (codes "presence")) [] v to_ok from_ok)

-- The start elements of an IQ, a message and a presence are read back as the stanza, with the
-- localname "iq", "message" or "presence" and, for a message, the type as `MessageType` knows it, if
-- each address is unset, or well formed and parsed back from its text.
pub starts_read_back :
    (p : Prep) (v : Stanza)
    → IsAddress p v.to
    → IsAddress p v.from
    → (new_iq p (iq_start v) ≡ (record v { xml_name = named v (codes "iq") }, none))
      × (new_message p (message_start v)
          ≡ (record v { xml_name = named v (codes "message"); type = message_type v.type }, none))
      × (new_presence p (presence_start v)
          ≡ (record v { xml_name = named v (codes "presence") }, none))
starts_read_back p v to_ok from_ok = (
  new_iq-start p v to_ok from_ok,
  new_message-start p v to_ok from_ok,
  new_presence-start p v to_ok from_ok,
)

-- The type that a message is written with by `MarshalText` is the one that it is read with.
pub message_type-marshal : (t : Bytes) → message_marshal_text t ≡ message_type t
unfolding message_marshal_text message_type
message_type-marshal t = ground (
  arith,
  text_eq_iff t (codes "normal"),
  text_eq_iff t (codes "chat"),
  text_eq_iff t (codes "error"),
  text_eq_iff t (codes "groupchat"),
  text_eq_iff t (codes "headline"),
)

-- An answer to an IQ is read as an IQ with the id of the request, its addresses exchanged and the
-- type "result" or "error", if each address is unset, or well formed and parsed back from its text.
pub iq_answers :
    (p : Prep) (v : Stanza)
    → IsAddress p v.to
    → IsAddress p v.from
    → (new_iq p (iq_start (iq_result v)) ≡ (
      record v { xml_name = named v (codes "iq"); to = v.from; from = v.to; type = codes "result" },
      none,
    ))
      × (new_iq p (iq_start (iq_error v)) ≡ (
        record v {
          xml_name = named v (codes "iq");
          to = v.from;
          from = v.to;
          type = codes "error";
        },
        none,
      ))
unfolding iq_result iq_error
iq_answers p v to_ok from_ok =
    (new_iq-start p (iq_result v) from_ok to_ok, new_iq-start p (iq_error v) from_ok to_ok)

nonempty : (s : Bytes) → s ≢ [] → is_empty s ≡ false
nonempty [] h = absurd (h refl)
nonempty (c ∷ s) h = refl

module _ (p : Prep) (on_type : Bytes → Bytes) (start : Name) where
  -- Attributes of a foreign namespace change nothing.
  foreign_attr :
      (a : Attr) (v : Stanza)
      → a.name.space ≢ []
      → a.name.space ≢ start.space
      → a.name.space ≢ ns_xml
      → set_attr p on_type start a v ≡ (v, none)
  unfolding set_attr
  foreign_attr a v some_space not_start not_xml = ground (
    arith,
    nonempty a.name.space some_space,
    text_eq_iff a.name.space ns_xml,
    text_eq_iff a.name.space start.space,
  )

  -- An attribute of a foreign namespace, neither empty nor the element's nor that of `xml:lang`,
  -- can
  -- be taken out of the list without a change of the stanza or of the error.
  pub foreign_attr_ignored :
      (xs ys : List Attr) (a : Attr) (v : Stanza)
      → a.name.space ≢ []
      → a.name.space ≢ start.space
      → a.name.space ≢ ns_xml
      → set_attrs p on_type start (xs ++ a ∷ ys) v ≡ set_attrs p on_type start (xs ++ ys) v
  foreign_attr_ignored [] ys a v some_space not_start not_xml =
      set_attrs_step p on_type start a ys v (foreign_attr a v some_space not_start not_xml)
  foreign_attr_ignored (x ∷ xs) ys a v some_space not_start not_xml =
      elim (outcome (set_attr p on_type start x v)) [
        | inl (u, e) ↦
            set_attrs_step p on_type start x (xs ++ a ∷ ys) v e
            ∙ foreign_attr_ignored xs ys a u some_space not_start not_xml
            ∙ sym (set_attrs_step p on_type start x (xs ++ ys) v e)
        | inr (u, y, e) ↦
            set_attrs_stop p on_type start x (xs ++ a ∷ ys) v e
            ∙ sym (set_attrs_stop p on_type start x (xs ++ ys) v e)
      ]
