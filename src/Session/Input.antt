-- ===== src/Session/Input.antt =====
-- session.go, handleInputStream: what happens to one top-level element of the input stream.
-- A handler is a function to the attributes that it leaves in the start element, the tokens that it
-- writes and its error; the waiting calls of sendResp
-- are a table by identifier. Writing to the stream succeeds. `read` is what reading the next token
-- returns, with `none` for an error; the rest of the element is what handlers and waiters read.
pub mod Answer
pub mod Deliver
use xmpp.Prelude.{
  map_get, if◌then◌else◌, Bool, true, false, not, ◌&&◌, ◌||◌, Option, none, some, List, [], ◌∷◌,
  ◌++◌, Bytes, codes, text_eq, is_empty, Result, ok, err, pos,
}
use xmpp.Jid.{Error, Jid, Prep, zero_jid, bare, string, parse}
use xmpp.Xml.{Name, name_eq, Attr, StartElement, Token, start_element, end_element, char_data, misc}
use xmpp.Stanza.{Stanza, is, iq_start}
use xmpp.Stanza.Failure.{XmlStream, StanzaError, error_wrap}
use xmpp.Session.{is_iq}
use xmpp.Session.Response.{get_id_typ, ResponseChecker, check_all}

-- `attr.Get`, its value.
unfoldable pub attr_get : Bytes → List Attr → Bytes
attr_get local [] = []
attr_get local (a ∷ attrs) = if text_eq a.name.local local then a.value else attr_get local attrs

pub record Session : Type 0 where
  pub xmlns : Bytes
  pub local_addr : Jid
  pub sent_stanzas : List (Bytes × Name)

pub data StreamError (E : Type 0) : Type 0 where
  read_error bad_state : StreamError E
  handler_error : E → StreamError E
  bad_from : Error → StreamError E

-- `keepalive` is white space; `delivered` is an element that a waiting call is offered, by the
-- identifier; `nil_waiter` is a panic; `handled` is what was written and the error returned.
pub data Handled (E : Type 0) : Type 0 where
  failed : StreamError E → Handled E
  keepalive nil_waiter : Handled E
  delivered : Bytes → Handled E
  handled : List Token → Option (StreamError E) → Handled E

-- The loop over the attributes of a stanza: the first sender is emptied if it is this entity.
unfoldable pub normalize_from : Bytes → List Attr → List Attr
normalize_from local [] = []
normalize_from local (a ∷ attrs) =
    let rest = normalize_from local attrs in
    if text_eq a.name.local (codes "from")
    then (if text_eq a.value local then record a { value = [] } else a) ∷ attrs
    else a ∷ rest

unfoldable pub normalize_start : Session → StartElement → StartElement
normalize_start s start =
    if is start.name s.xmlns
    then record start { attrs = normalize_from (string (bare s.local_addr)) start.attrs }
    else start

-- The IQ that answers a request for the handler.
unfoldable pub default_iq : Bytes → Jid → Stanza
default_iq id to = record {
  xml_name = record { space = []; local = [] };
  id = id;
  to = to;
  from = zero_jid;
  lang = [];
  type = codes "error";
}

unfoldable pub default_payload : XmlStream → List Token
default_payload x =
    error_wrap x
      (record {
        by = zero_jid;
        type = codes "cancel";
        condition = codes "service-unavailable";
        text = [];
      })
      []

unfoldable pub default_reply : XmlStream → Bytes → Jid → List Token
default_reply x id to = x.wrap (default_payload x) (iq_start (default_iq id to))

-- Whether the table's entry, if there is one, is for this element: the condition of the code, with
-- its precedence. A missing entry is Go's zero value, whose name is empty.
pub data Waiting : Type 0 where
  no_waiter waiter missing_waiter : Waiting

unfoldable pub find_waiter : Session → Bytes → Name → Waiting
find_waiter s id name =
    let empty_space : Name = record { space = []; local = name.local } in
    elim (map_get text_eq id s.sent_stanzas) [
      | some sent ↦ if name_eq sent name || name_eq sent empty_space then waiter else no_waiter
      | none ↦
          if name_eq (record { space = []; local = [] }) empty_space
          then missing_waiter
          else no_waiter
    ]

module _ {E : Type 0} (p : Prep) (x : XmlStream) (s : Session)
    (handler : StartElement → List Attr × List Token × Option E) where
  -- The default response, if one is due behind what the handler wrote.
  unfoldable pub respond : List Attr → Bytes → List Token → Handled E
  respond attrs id written =
      let from_attr = attr_get (codes "from") attrs in
      if is_empty from_attr
      then handled (written ++ default_reply x id zero_jid) none
      else elim (parse p from_attr) [
        | ok to ↦ handled (written ++ default_reply x id to) none
        | err e ↦ handled written (some (bad_from e))
      ]

  -- What follows the call of the handler, which left attributes of the start element, wrote some
  -- tokens and returned an error or none. Whether the element is an IQ was asked before.
  unfoldable pub finish : Bool → Bytes → Bytes → List Attr × List Token × Option E → Handled E
  finish iq_ok id typ (attrs, written, some a) = handled written (some (handler_error a))
  finish iq_ok id typ (attrs, written, none) =
      let rw = check_all (record { id = id; wrote_resp = false; level = pos 0 }) written in
      let needs_resp = text_eq typ (codes "get") || text_eq typ (codes "set") in
      if iq_ok && (needs_resp && not rw.wrote_resp)
      then respond attrs id written
      else handled written none

  unfoldable pub call_handler : StartElement → Bytes → Bytes → Handled E
  call_handler start id typ = finish (is_iq start.name) id typ (handler start)

  unfoldable pub handle_element : StartElement → Handled E
  handle_element start =
      let (i, t) = get_id_typ start.attrs in
      if text_eq t.1 (codes "result") || text_eq t.1 (codes "error")
      then elim (find_waiter s i.1 start.name) [
        | waiter ↦ delivered i.1
        | missing_waiter ↦ nil_waiter
        | no_waiter ↦ call_handler start i.1 t.1
      ]
      else call_handler start i.1 t.1

  unfoldable pub handle_input_stream : Option Token → Handled E
  handle_input_stream none = failed read_error
  handle_input_stream (some (start_element start)) = handle_element (normalize_start s start)
  handle_input_stream (some (char_data _)) = keepalive
  handle_input_stream (some (end_element _)) = failed bad_state
  handle_input_stream (some misc) = failed bad_state
