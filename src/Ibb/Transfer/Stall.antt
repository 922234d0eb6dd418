-- ===== src/Ibb/Transfer/Stall.antt =====
-- ibb: what a sender makes of being asked to wait.
use xmpp.Prelude.{
  ℕ, suc, ◌+◌, ◌^◌, ◌==◌, ◌<◌, true, List, [], ◌∷◌, ◌++◌, ◌≡◌, ◌≢◌, refl, sym, ◌∙◌, Bytes, text_eq,
  text_eq_iff, length, take, drop, map_set, map_get-map_set, arith,
}
use xmpp.Ibb.Stream.{Base64, next_seq, write, below, positive, Conn}
use xmpp.Ibb.Handler.{resource_constraint, take_data, handle_payload}
use xmpp.Ibb.Transfer.{
  Link, Event, writes, reads, step, run, IsStream, received, count_writes, read-step, refused-step,
  read-received, data_stanza-acked, payload,
}

next_seq_moves : (n : ℕ) → n < 2 ^ 16 → next_seq n ≢ n
unfolding next_seq
next_seq_moves n word e = omega (arith, word, e)

module _ (b : Base64) where
  -- A write out of step: every later write fails, and nothing more arrives.
  out_of_step :
      (l : Link) (c : Conn) (events : List Event)
      → IsStream l c
      → c.seq ≢ l.writer.seq
      → l.writer.acked ≡ true
      → (c' : Conn) × IsStream (run b l events) c'
        × (received (run b l events) c' ≡ received l c)
        × ((run b l events).failures ≡ count_writes events + l.failures)
  unfolding run count_writes
  out_of_step l c [] at differ acked = (c, at, refl, omega arith)
  out_of_step l c (writes text ∷ events) at differ acked =
      let (c', at', whole, fails) =
        out_of_step (record l { failures = suc l.failures }) c events at differ acked in
      rw (refused-step b l c text at differ acked, run) (c', at', whole, omega (arith, fails))
  out_of_step l c (reads n ∷ events) at differ acked =
      let c1 : Conn = record c { read_buf = drop n c.read_buf } in
      let l1 : Link = record l {
        handler = record l.handler { streams = map_set text_eq l.writer.sid c1 l.handler.streams };
        got = l.got ++ take n c.read_buf;
      } in
      let (c', at', whole, fails) =
        out_of_step l1 c1 events
          (map_get-map_set text_eq text_eq_iff l.writer.sid c1 l.handler.streams) differ acked in
      rw (read-step b l c n at, run) (c', at', whole ∙ read-received l c n, fails)

  -- A write that is to go into a full buffer: only the other side counts it.
  payload_delayed :
      (l : Link) (c : Conn) (text : Bytes)
      → IsStream l c
      → c.seq ≡ l.writer.seq
      → positive c.max_buf_size ≡ true
      → below c.max_buf_size (length c.read_buf + b.decoded_len (length text)) ≡ true
      → handle_payload b true (payload l.writer text) l.handler ≡ (
        record l.handler {
          streams =
              map_set text_eq l.writer.sid (record c { seq = next_seq c.seq }) l.handler.streams;
        },
        resource_constraint,
      )
  unfolding handle_payload take_data
  payload_delayed l c text at same limited full =
      let equal : (l.writer.seq == c.seq) ≡ true = ground arith in
      rw (at, handle_payload) (rw equal (rw limited (rw full refl)))

  -- On a stream whose stanzas are acknowledged, in step: if a block does not fit into the buffer
  -- of the other side, which asks the sender to wait, then that write fails, and so does every
  -- write after it, whatever is read meanwhile; nothing more ever arrives.
  pub wait_stalls :
      (l : Link) (c : Conn) (text : Bytes) (events : List Event)
      → IsStream l c
      → c.seq ≡ l.writer.seq
      → c.seq < 2 ^ 16
      → l.writer.acked ≡ true
      → positive c.max_buf_size ≡ true
      → below c.max_buf_size (length c.read_buf + b.decoded_len (length text)) ≡ true
      → (c' : Conn) × IsStream (run b l (writes text ∷ events)) c'
        × (received (run b l (writes text ∷ events)) c' ≡ received l c)
        × ((run b l (writes text ∷ events)).failures ≡ suc (count_writes events) + l.failures)
  unfolding run step write
  wait_stalls l c text events at same word acked limited full =
      let (iq, e) = data_stanza-acked l.writer text acked in
      let c1 : Conn = record c { seq = next_seq c.seq } in
      let l1 : Link = record l {
        handler = record l.handler { streams = map_set text_eq l.writer.sid c1 l.handler.streams };
        failures = suc l.failures;
      } in
      let stepped : step b l (writes text) ≡ l1 =
        rw (e, payload_delayed l c text at same limited full, step, write) refl in
      let (c', at', whole, fails) =
        out_of_step l1 c1 events
          (map_get-map_set text_eq text_eq_iff l.writer.sid c1 l.handler.streams)
          (λ again. absurd (next_seq_moves c.seq word (again ∙ sym same))) acked in
      rw (stepped, run) (c', at', whole, omega (arith, fails))
