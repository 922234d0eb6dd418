-- ===== src/Ibb/Stream.antt =====
-- ibb/conn.go and ibb/payloads.go: a stream and the writer of its stanzas. Base64 is a parameter,
-- and
-- so is what becomes of a stanza that is sent. Buffers of bufio and bytes are lists of bytes.
use xmpp.Prelude.{
  ℕ, suc, ◌+◌, ◌*◌, ◌%◌, ◌^◌, ◌==◌, ltb, if◌then◌else◌, Bool, true, false, not, ◌&&◌, ◌||◌, Option,
  none, some, [], Bytes, codes, text_eq, is_empty, length, take, drop, ℤ, pos, negsuc,
}
use xmpp.Jid.{Jid}
use xmpp.Stanza.{Stanza, empty_stanza}

-- How the reading of a base64 text ends: at its end, at base64.CorruptInputError, or at another
-- error.
pub data Ending : Type 0 where
  clean : Ending
  corrupt : Ending
  broken : Ending

-- base64.StdEncoding: `decode` is what NewDecoder's reader returns until it ends, and how it ends;
-- `decoded_len` is DecodedLen.
pub record Base64 : Type 0 where
  pub decode : Bytes → Bytes × Ending
  pub decoded_len : ℕ → ℕ

pub record OpenPayload : Type 0 where
  pub block_size : ℕ
  pub sid : Bytes
  pub stanza : Bytes

pub record OpenIq : Type 0 where
  pub iq : Stanza
  pub payload : OpenPayload

pub record DataPayload : Type 0 where
  pub seq : ℕ
  pub sid : Bytes
  pub block : Bytes

-- dataIQ and dataMessage.
pub data DataStanza : Type 0 where
  data_iq : Stanza → DataPayload → DataStanza
  data_message : Stanza → DataPayload → DataStanza

-- `seq++` on a uint16.
unfoldable pub next_seq : ℕ → ℕ
next_seq n = (n + 1) % 2 ^ 16

pub record StanzaWriter : Type 0 where
  pub sid : Bytes
  pub acked : Bool
  pub seq : ℕ
  pub to : Jid

unfoldable pub data_stanza : StanzaWriter → Bytes → DataStanza
data_stanza w p =
    let payload : DataPayload = record { seq = w.seq; sid = w.sid; block = p } in
    if w.acked
    then data_iq
        (record (empty_stanza (record { space = []; local = [] }) (codes "set")) { to = w.to })
        payload
    else data_message (record (empty_stanza (record { space = []; local = [] }) []) { to = w.to })
        payload

-- `stanzaWriter.Write`; `send` sends a stanza, and returns an error if it has failed.
unfoldable pub write :
    {E : Type 0} → (DataStanza → Option E) → StanzaWriter → Bytes → (ℕ × Option E) × StanzaWriter
write send w p = elim (send (data_stanza w p)) [
  | some e ↦ ((0, some e), w)
  | none ↦ ((length p, none), record w { seq = next_seq w.seq })
]

-- The stream: the initial size of its buffer is the block size, and a limit that is not positive is
-- none.
pub record Conn : Type 0 where
  pub read_buf : Bytes
  pub seq : ℕ
  pub closed : Bool
  pub writer : StanzaWriter
  pub block_size : ℕ
  pub max_buf_size : ℤ

-- `max < n` and `max > 0`.
unfoldable pub below : ℤ → ℕ → Bool
below (pos m) n = ltb m n
below (negsuc m) n = true

unfoldable pub positive : ℤ → Bool
positive (pos (suc m)) = true
positive _ = false

abbrev pub default_block_size : ℕ
default_block_size = 2 ^ 11

abbrev pub default_max_buffer_size : ℤ
default_max_buffer_size = pos (2 ^ 18)

unfoldable pub new_conn : OpenIq → Bool → ℤ → Conn
new_conn iq recv max_buf_size = record {
  read_buf = [];
  seq = 0;
  closed = false;
  writer = record {
    sid = iq.payload.sid;
    acked = text_eq iq.payload.stanza (codes "iq") || is_empty iq.payload.stanza;
    seq = 0;
    to = if recv then iq.iq.from else iq.iq.to;
  };
  block_size = if iq.payload.block_size == 0 then default_block_size else iq.payload.block_size;
  max_buf_size =
      if below max_buf_size iq.payload.block_size && positive max_buf_size
      then pos (2 * iq.payload.block_size)
      else max_buf_size;
}

-- `Conn.Read` into a slice of length n, once it does not wait: the bytes, and whether they end
-- there.
unfoldable pub read : Conn → ℕ → (Bytes × Bool) × Conn
read c n = (
  (take n c.read_buf, is_empty c.read_buf && not (n == 0)),
  record c { read_buf = drop n c.read_buf },
)

unfoldable pub set_read_buffer : ℤ → Conn → Conn
set_read_buffer max c = record c {
  max_buf_size = if below max c.block_size && positive max then pos c.block_size else max;
}

-- `Conn.Close`, with the errors of flushing, of closing the encoder and of the request to the other
-- side, each none if there is none. The flag is set whatever fails.
unfoldable pub close : {E : Type 0} → Option E → Option E → Option E → Conn → Option E × Conn
close flush encoder request c = if c.closed then (none, c) else elim flush [
  | some e ↦ (some e, record c { closed = true })
  | none ↦ elim encoder [
    | some e ↦ (some e, record c { closed = true })
    | none ↦ (request, record c { closed = true })
  ]
]
