-- ===== src/Ibb/Transfer.antt =====
-- A writer and the stream that it writes to, on the other side's handler: sequences of writes there
-- and reads here.
pub mod Whole
pub mod Stall
use xmpp.Prelude.{
  ℕ, zero, suc, ◌+◌, ◌%◌, ◌^◌, ◌==◌, ◌≤◌, ◌<◌, if◌then◌else◌, Bool, true, false, not, ◌&&◌, Option,
  none, some, List, [], ◌∷◌, ◌++◌, append-nil, append_assoc, ◌≡◌, ◌≢◌, inl, inr, refl, sym, ap, ◌∙◌,
  Bytes, codes, text_eq, text_eq_iff, length, take, drop, take-append-drop, map_get, map_set,
  map_get-map_set, arith, Bool-cases, if-cases,
}
use xmpp.Stanza.{Stanza, empty_stanza}
use xmpp.Ibb.Stream.{
  Ending, clean, Base64, DataPayload, DataStanza, data_iq, data_message, next_seq, StanzaWriter,
  data_stanza, write, below, positive, Conn, read,
}
use xmpp.Ibb.Handler.{
  Handler, Reply, accepted, rejected, silent, failed, unexpected_request, resource_constraint,
  take_data, handle_payload,
}

-- `failures` counts the writes that have returned an error, `got` is what was read.
pub record Link : Type 0 where
  pub writer : StanzaWriter
  pub handler : Handler
  pub got : Bytes
  pub failures : ℕ

-- A write of a base64 text, or a read into a slice of some length.
pub data Event : Type 0 where
  writes : Bytes → Event
  reads : ℕ → Event

-- The other side handles a stanza.
abbrev pub deliver : Base64 → DataStanza → Handler → Handler × Reply
deliver b (data_iq iq p) h = handle_payload b true p h
deliver b (data_message msg p) h = handle_payload b false p h

-- What the sender sees: an IQ is answered, a message is not waited for.
abbrev pub outcome : DataStanza → Reply → Option Reply
outcome (data_message msg p) reply = none
outcome (data_iq iq p) accepted = none
outcome (data_iq iq p) reply = some reply

abbrev pub failed_writes : Option Reply → ℕ → ℕ
failed_writes none n = n
failed_writes (some reply) n = suc n

unfoldable pub step : Base64 → Link → Event → Link
step b l (writes text) =
    let sent = data_stanza l.writer text in
    let (h, reply) = deliver b sent l.handler in
    let (result, w) = write (λ s. outcome s (deliver b s l.handler).1) l.writer text in
    record { writer = w; handler = h; got = l.got; failures = failed_writes result.1 l.failures }
step b l (reads n) = elim (map_get text_eq l.writer.sid l.handler.streams) [
  | none ↦ l
  | some c ↦
      let (result, c') = read c n in
      record l {
        handler = record l.handler { streams = map_set text_eq l.writer.sid c' l.handler.streams };
        got = l.got ++ result.0;
      }
]

unfoldable pub run : Base64 → Link → List Event → Link
run b l [] = l
run b l (e ∷ events) = run b (step b l e) events

-- The stream at the other end; what it has received is what was read and what is left in its
-- buffer.
abbrev pub IsStream : Link → Conn → Type 0
IsStream l c = map_get text_eq l.writer.sid l.handler.streams ≡ some c

abbrev pub received : Link → Conn → Bytes
received l c = l.got ++ c.read_buf

-- The bytes that some writes are to transfer.
unfoldable pub sent_bytes : Base64 → List Event → Bytes
sent_bytes b [] = []
sent_bytes b (writes text ∷ events) = (b.decode text).0 ++ sent_bytes b events
sent_bytes b (reads n ∷ events) = sent_bytes b events

unfoldable pub count_writes : List Event → ℕ
count_writes [] = 0
count_writes (writes text ∷ events) = suc (count_writes events)
count_writes (reads n ∷ events) = count_writes events

-- The texts that are written are base64.
abbrev pub AllClean : Base64 → List Event → Type 0
AllClean b [] = Unit
AllClean b (writes text ∷ events) = ((b.decode text).1 ≡ clean) × AllClean b events
AllClean b (reads n ∷ events) = AllClean b events

pub read-received :
    (l : Link) (c : Conn) (n : ℕ) → (l.got ++ take n c.read_buf) ++ drop n c.read_buf ≡ received l c
read-received l c n =
    append_assoc l.got (take n c.read_buf) (drop n c.read_buf)
    ∙ ap (λ s. l.got ++ s) (take-append-drop n c.read_buf)

abbrev pub payload : StanzaWriter → Bytes → DataPayload
payload w text = record { seq = w.seq; sid = w.sid; block = text }

pub data_stanza-acked :
    (w : StanzaWriter) (text : Bytes)
    → w.acked ≡ true
    → (iq : Stanza) × (data_stanza w text ≡ data_iq iq (payload w text))
unfolding data_stanza
data_stanza-acked w text acked = (
  record (empty_stanza (record { space = []; local = [] }) (codes "set")) { to = w.to },
  rw acked refl,
)

data_stanza-plain :
    (w : StanzaWriter) (text : Bytes)
    → w.acked ≡ false
    → (msg : Stanza) × (data_stanza w text ≡ data_message msg (payload w text))
unfolding data_stanza
data_stanza-plain w text plain =
    (record (empty_stanza (record { space = []; local = [] }) []) { to = w.to }, rw plain refl)

module _ (b : Base64) where
  -- A read moves bytes from the buffer to the reader.
  pub read-step :
      (l : Link) (c : Conn) (n : ℕ)
      → IsStream l c
      → step b l (reads n) ≡ record l {
        handler = record l.handler {
          streams =
              map_set text_eq l.writer.sid
                (record c { read_buf = drop n c.read_buf })
                l.handler.streams;
        };
        got = l.got ++ take n c.read_buf;
      }
  unfolding step read
  read-step l c n at = rw (at, step) refl

  -- What the other side makes of a write in step, and out of step.
  payload_taken :
      (l : Link) (c : Conn) (text : Bytes) (is_iq : Bool)
      → IsStream l c
      → c.seq ≡ l.writer.seq
      → positive c.max_buf_size ≡ false
      → (b.decode text).1 ≡ clean
      → handle_payload b is_iq (payload l.writer text) l.handler ≡ (
        record l.handler {
          streams =
              map_set text_eq l.writer.sid
                (record c { seq = next_seq c.seq; read_buf = c.read_buf ++ (b.decode text).0 })
                l.handler.streams;
        },
        if is_iq then accepted else silent,
      )
  unfolding handle_payload take_data
  payload_taken l c text is_iq at same open_end fine =
      let equal : (l.writer.seq == c.seq) ≡ true = ground arith in
      rw (at, handle_payload) (rw equal (rw open_end (rw fine refl)))

  payload_refused :
      (l : Link) (c : Conn) (text : Bytes) (is_iq : Bool)
      → IsStream l c
      → c.seq ≢ l.writer.seq
      → handle_payload b is_iq (payload l.writer text) l.handler ≡ (l.handler, unexpected_request)
  unfolding handle_payload
  payload_refused l c text is_iq at differ =
      let unequal : (l.writer.seq == c.seq) ≡ false = ground arith in
      rw (at, handle_payload) (rw unequal refl)

  -- A write that the other side accepts: both count it.
  pub accepted-step :
      (l : Link) (c : Conn) (text : Bytes)
      → IsStream l c
      → c.seq ≡ l.writer.seq
      → positive c.max_buf_size ≡ false
      → (b.decode text).1 ≡ clean
      → step b l (writes text) ≡ record l {
        writer = record l.writer { seq = next_seq l.writer.seq };
        handler = record l.handler {
          streams =
              map_set text_eq l.writer.sid
                (record c { seq = next_seq c.seq; read_buf = c.read_buf ++ (b.decode text).0 })
                l.handler.streams;
        };
      }
  unfolding step write
  accepted-step l c text at same open_end fine = elim (Bool-cases l.writer.acked) [
    | inl acked ↦
        let (iq, e) = data_stanza-acked l.writer text acked in
        rw (e, payload_taken l c text true at same open_end fine, step, write) refl
    | inr plain ↦
        let (msg, e) = data_stanza-plain l.writer text plain in
        rw (e, payload_taken l c text false at same open_end fine, step, write) refl
  ]

  -- A write out of step is refused, and changes nothing.
  pub refused-step :
      (l : Link) (c : Conn) (text : Bytes)
      → IsStream l c
      → c.seq ≢ l.writer.seq
      → l.writer.acked ≡ true
      → step b l (writes text) ≡ record l { failures = suc l.failures }
  unfolding step write
  refused-step l c text at differ acked =
      let (iq, e) = data_stanza-acked l.writer text acked in
      rw (e, payload_refused l c text true at differ, step, write) refl
