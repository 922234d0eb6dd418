-- ===== src/Ibb/Tests.antt =====
-- Runs of a stream, with a base64 in which a block stands for itself.
use xmpp.Prelude.{
  suc, ◌+◌, true, false, none, some, List, [], ◌∷◌, ◌++◌, ◌≡◌, refl, codes, text_eq, map_get,
  map_set, pos, arith,
}
use xmpp.Jid.{string, zero_jid}
use xmpp.Stanza.{empty_stanza}
use xmpp.Ibb.Stream.{
  clean, next_seq, data_stanza, write, read, Base64, OpenIq, StanzaWriter, below, positive,
  default_max_buffer_size, Conn, new_conn,
}
use xmpp.Ibb.Handler.{
  Handler, accepted, find_listener, take_data, handle_payload, handle_open, handle_iq,
}
use xmpp.Ibb.Registry.{Base64Laws, AllSound, handle_iq-AllSound}
use xmpp.Ibb.Transfer.{
  Link, Event, writes, reads, step, run, IsStream, received, sent_bytes, count_writes,
}
use xmpp.Ibb.Transfer.Whole.{transfer_whole}
use xmpp.Ibb.Transfer.Stall.{wait_stalls}

-- A code that is its own decoding.
abbrev plain : Base64
plain = record { decode = λ text. (text, clean); decoded_len = λ n. n }

plain_laws : Base64Laws plain
plain_laws = record { decoded_bound = λ text. omega arith }

abbrev iq : OpenIq
iq = record {
  iq = empty_stanza (record { space = []; local = codes "iq" }) (codes "set");
  payload = record { block_size = 16; sid = codes "s"; stanza = codes "iq" };
}

abbrev listening : Handler
listening = record { streams = []; listeners = ([], record { expected = [] }) ∷ [] }

abbrev opened : Conn
opened = new_conn iq true default_max_buffer_size

handle_iq-AllSound_example :
    AllSound
      (handle_iq plain
        (λ start. some iq.payload)
        (λ start. none)
        true
        true
        iq.iq
        (record { name = record { space = []; local = codes "open" }; attrs = [] })
        listening).0
handle_iq-AllSound_example =
    handle_iq-AllSound plain plain_laws (λ start. some iq.payload) (λ start. none) true true iq.iq
      (record { name = record { space = []; local = codes "open" }; attrs = [] }) listening
      (λ sid c e. unfold map_get in absurd (cc e))

test_opened : (handle_open iq listening).1 ≡ accepted
unfolding handle_open find_listener map_get text_eq string
test_opened = refl

-- A writer at its last sequence number, and the stream at the other end with a limit or without.
abbrev last_writer : StanzaWriter
last_writer = record { sid = codes "s"; acked = true; seq = 65535; to = zero_jid }

abbrev stream : Conn
stream = record {
  read_buf = codes "a";
  seq = 65535;
  closed = false;
  writer = last_writer;
  block_size = 16;
  max_buf_size = pos 0;
}

abbrev small : Conn
small = record stream { max_buf_size = pos 2 }

abbrev link : Conn → Link
link c = record {
  writer = last_writer;
  handler = record { streams = (codes "s", c) ∷ []; listeners = [] };
  got = [];
  failures = 0;
}

abbrev events : List Event
events = writes (codes "bc") ∷ reads 2 ∷ writes (codes "d") ∷ []

transfer_whole_example :
    (c' : Conn) × IsStream (run plain (link stream) events) c'
    × (c'.seq ≡ (run plain (link stream) events).writer.seq)
    × (received (run plain (link stream) events) c'
        ≡ received (link stream) stream ++ sent_bytes plain events)
    × ((run plain (link stream) events).failures ≡ 0)
transfer_whole_example =
    transfer_whole plain (link stream) stream events (unfold map_get text_eq in refl) refl
      (unfold positive in refl) (refl, (refl, tt))

test_wrapped : (run plain (link stream) events).writer.seq ≡ 1
unfolding run step data_stanza write handle_payload take_data map_get map_set text_eq read next_seq
    positive
test_wrapped = refl

wait_stalls_example :
    (c' : Conn) × IsStream (run plain (link small) (writes (codes "bc") ∷ events)) c'
    × (received (run plain (link small) (writes (codes "bc") ∷ events)) c'
        ≡ received (link small) small)
    × ((run plain (link small) (writes (codes "bc") ∷ events)).failures
        ≡ suc (count_writes events) + 0)
wait_stalls_example =
    wait_stalls plain (link small) small (codes "bc") events (unfold map_get text_eq in refl) refl
      (omega arith) refl (unfold positive in refl) (unfold below in ground arith)
