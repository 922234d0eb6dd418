-- ===== src/Ibb/Transfer/Whole.antt =====
-- ibb: a stream transfers what is written, whole and in order.
use xmpp.Prelude.{
  false, List, [], ◌∷◌, ◌++◌, append-nil, append_assoc, ◌≡◌, refl, sym, ap, ◌∙◌, text_eq,
  text_eq_iff, take, drop, map_set, map_get-map_set,
}
use xmpp.Ibb.Stream.{Base64, next_seq, positive, Conn}
use xmpp.Ibb.Transfer.{
  Link, Event, writes, reads, run, IsStream, received, sent_bytes, AllClean, read-step,
  accepted-step, read-received,
}

module _ (b : Base64) where
  -- With no limit on the buffer, both ends in step and blocks that are base64: whatever writes
  -- and reads there are, in whatever order, no write fails and the bytes that the writes transfer
  -- arrive one behind the other: they are what was read and what the buffer holds. Both ends are
  -- in step again, as often as the sequence number has wrapped around.
  pub transfer_whole :
      (l : Link) (c : Conn) (events : List Event)
      → IsStream l c
      → c.seq ≡ l.writer.seq
      → positive c.max_buf_size ≡ false
      → AllClean b events
      → (c' : Conn) × IsStream (run b l events) c'
        × (c'.seq ≡ (run b l events).writer.seq)
        × (received (run b l events) c' ≡ received l c ++ sent_bytes b events)
        × ((run b l events).failures ≡ l.failures)
  unfolding run sent_bytes
  transfer_whole l c [] at same open_end fine = (c, at, same, sym (append-nil (received l c)), refl)
  transfer_whole l c (writes text ∷ events) at same open_end (fine, later) =
      let c1 : Conn = record c {
        seq = next_seq c.seq;
        read_buf = c.read_buf ++ (b.decode text).0;
      } in
      let l1 : Link = record l {
        writer = record l.writer { seq = next_seq l.writer.seq };
        handler = record l.handler { streams = map_set text_eq l.writer.sid c1 l.handler.streams };
      } in
      let (c', at', same', whole, none_failed) =
        transfer_whole l1 c1 events
          (map_get-map_set text_eq text_eq_iff l.writer.sid c1 l.handler.streams) (ap next_seq same)
          open_end later in
      rw (accepted-step b l c text at same open_end fine, run)
        (
          c',
          at',
          same',
          whole
              ∙ ap (λ s. s ++ sent_bytes b events)
                  (sym (append_assoc l.got c.read_buf (b.decode text).0))
              ∙ append_assoc (received l c) (b.decode text).0 (sent_bytes b events),
          none_failed,
        )
  transfer_whole l c (reads n ∷ events) at same open_end fine =
      let c1 : Conn = record c { read_buf = drop n c.read_buf } in
      let l1 : Link = record l {
        handler = record l.handler { streams = map_set text_eq l.writer.sid c1 l.handler.streams };
        got = l.got ++ take n c.read_buf;
      } in
      let (c', at', same', whole, none_failed) =
        transfer_whole l1 c1 events
          (map_get-map_set text_eq text_eq_iff l.writer.sid c1 l.handler.streams) same open_end
          fine in
      rw (read-step b l c n at, run)
        (
          c',
          at',
          same',
          whole ∙ ap (λ s. s ++ sent_bytes b events) (read-received l c n),
          none_failed,
        )
