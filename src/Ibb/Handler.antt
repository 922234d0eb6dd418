-- ===== src/Ibb/Handler.antt =====
-- ibb/ibb.go: the handler of the stanzas that open, carry and close streams. The maps of streams
-- and
-- listeners are association lists; a stream that the application holds is its entry there. What the
-- handler writes succeeds.
use xmpp.Prelude.{
  ℕ, ◌+◌, ◌==◌, if◌then◌else◌, Bool, true, not, ◌&&◌, Option, none, some, List, [], ◌++◌, Bytes,
  codes, text_eq, length, map_get, map_set, map_delete,
}
use xmpp.Jid.{string}
use xmpp.Xml.{StartElement}
use xmpp.Session.Input.{attr_get}
use xmpp.Stanza.{Stanza}
use xmpp.Ibb.Stream.{
  clean, corrupt, broken, Base64, OpenPayload, OpenIq, DataPayload, next_seq, below, positive,
  default_max_buffer_size, Conn, new_conn,
}

-- The sessions that a listener expects, by address and identifier, each with its channel, a number.
pub record Listener : Type 0 where
  pub expected : List (Bytes × ℕ)

pub record Handler : Type 0 where
  pub streams : List (Bytes × Conn)
  pub listeners : List (Bytes × Listener)

-- What is written: an error of a type and a condition, a result, or nothing; or an error is
-- returned.
pub data Reply : Type 0 where
  rejected : Bytes → Bytes → Reply
  accepted : Reply
  silent : Reply
  failed : Reply

abbrev pub item_not_found : Reply
item_not_found = rejected (codes "cancel") (codes "item-not-found")

abbrev pub unexpected_request : Reply
unexpected_request = rejected (codes "cancel") (codes "unexpected-request")

abbrev pub resource_constraint : Reply
resource_constraint = rejected (codes "wait") (codes "resource-constraint")

abbrev pub bad_request : Reply
bad_request = rejected (codes "cancel") (codes "bad-request")

unfoldable pub add_stream : Bytes → Conn → Handler → Handler
add_stream sid conn h = record h { streams = map_set text_eq sid conn h.streams }

unfoldable pub rm_stream : Bytes → Handler → Handler
rm_stream sid h = record h { streams = map_delete text_eq sid h.streams }

-- What `handlePayload` does behind the check of the sequence number; IQs are answered.
unfoldable pub take_data : Base64 → Bool → Bytes → Conn → Conn × Reply
take_data b is_iq block conn =
    let (bytes, ending) = b.decode block in
    if positive conn.max_buf_size
      && below conn.max_buf_size (length conn.read_buf + b.decoded_len (length block))
    then (conn, resource_constraint)
    else (
      record conn { read_buf = conn.read_buf ++ bytes },
      elim ending [
        | corrupt ↦ bad_request
        | broken ↦ failed
        | clean ↦ if is_iq then accepted else silent
      ],
    )

unfoldable pub handle_payload : Base64 → Bool → DataPayload → Handler → Handler × Reply
handle_payload b is_iq p h = elim (map_get text_eq p.sid h.streams) [
  | none ↦ (h, item_not_found)
  | some conn ↦
      if not (p.seq == conn.seq)
      then (h, unexpected_request)
      else let (conn', reply) =
          take_data b is_iq p.block (record conn { seq = next_seq conn.seq }) in
        (record h { streams = map_set text_eq p.sid conn' h.streams }, reply)
]

-- Who gets a stream that was opened.
pub data Receiver : Type 0 where
  to_nobody : Receiver
  to_accept : Receiver
  to_expect : ℕ → Receiver

-- A listener for all addresses has the empty one.
unfoldable pub find_listener : Bytes → Handler → Option (Bytes × Listener)
find_listener to h = elim (map_get text_eq to h.listeners) [
  | some l ↦ some (to, l)
  | none ↦ elim (map_get text_eq [] h.listeners) [ some l ↦ some ([], l) | none ↦ none ]
]

unfoldable pub expect_key : OpenIq → Bytes
expect_key iq = string iq.iq.from ++ (codes ":" ++ iq.payload.sid)

unfoldable pub handle_open : OpenIq → Handler → Handler × Reply × Receiver
handle_open iq h = elim (find_listener (string iq.iq.to) h) [
  | none ↦ (h, rejected (codes "cancel") (codes "not-acceptable"), to_nobody)
  | some (at, l) ↦
      let opened = add_stream iq.payload.sid (new_conn iq true default_max_buffer_size) h in
      elim (map_get text_eq (expect_key iq) l.expected) [
        | some c ↦ (
          record opened {
            listeners =
                map_set text_eq at
                  (record l { expected = map_delete text_eq (expect_key iq) l.expected })
                  opened.listeners;
          },
          accepted,
          to_expect c,
        )
        | none ↦ (opened, accepted, to_accept)
      ]
]

-- `closeNoNotify` on the stream of an identifier: it is not done twice. The flags say whether
-- flushing
-- and closing the encoder succeed.
unfoldable pub close_no_notify : Bool → Bool → Conn → Handler → Handler × Reply
close_no_notify flushed finished conn h =
    if conn.closed
    then (h, accepted)
    else (rm_stream conn.writer.sid h, if flushed && finished then accepted else failed)

unfoldable pub handle_close : Bool → Bool → Bytes → Handler → Handler × Reply
handle_close flushed finished sid h = elim (map_get text_eq sid h.streams) [
  | none ↦ (h, item_not_found)
  | some conn ↦ close_no_notify flushed finished conn h
]

-- `HandleIQ`: `read_open` and `read_data` are what encoding/xml makes of the payload, `none` at an
-- error.
unfoldable pub handle_iq :
    Base64
    → (StartElement → Option OpenPayload)
    → (StartElement → Option DataPayload)
    → Bool
    → Bool
    → Stanza
    → StartElement
    → Handler
    → Handler × Reply
handle_iq b read_open read_data flushed finished iq start h =
    if text_eq start.name.local (codes "open")
    then elim (read_open start) [
      | none ↦ (h, failed)
      | some p ↦
          let (h', reply, receiver) = handle_open (record { iq = iq; payload = p }) h in (h', reply)
    ]
    else if text_eq start.name.local (codes "close")
    then handle_close flushed finished (attr_get (codes "sid") start.attrs) h
    else if text_eq start.name.local (codes "data")
    then elim (read_data start) [ none ↦ (h, failed) | some p ↦ handle_payload b true p h ]
    else (h, rejected (codes "modify") (codes "feature-not-implemented"))
