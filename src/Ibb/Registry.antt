-- ===== src/Ibb/Registry.antt =====
-- What the handler keeps true of its streams, and what becomes of the streams that an element is
-- not
-- about.
use xmpp.Prelude.{
  ℕ, zero, suc, ◌+◌, ◌^◌, ◌==◌, ◌≤◌, ◌<◌, Bool, true, false, not, ◌&&◌, Option, none, some, ◌++◌,
  ◌≡◌, inl, inr, refl, sym, Bytes, codes, text_eq, text_eq_iff, length, length-append, map_get,
  map_set, map_get-map_set, map_get-map_delete, map_set_inv, map_delete_inv, subst, arith,
  Option-cases, if-cases, pos, negsuc, ℤ,
}
use xmpp.Jid.{string}
use xmpp.Xml.{StartElement}
use xmpp.Session.Input.{attr_get}
use xmpp.Stanza.{Stanza}
use xmpp.Ibb.Stream.{
  Base64, OpenPayload, OpenIq, DataPayload, next_seq, below, positive, default_max_buffer_size,
  Conn, new_conn,
}
use xmpp.Ibb.Handler.{
  Listener, Handler, Reply, accepted, rejected, failed, item_not_found, add_stream, rm_stream,
  take_data, handle_payload, find_listener, expect_key, handle_open, close_no_notify, handle_close,
  handle_iq,
}

-- What encoding/base64 says of DecodedLen: no more is decoded.
pub record Base64Laws (b : Base64) : Type 0 where
  pub decoded_bound : (text : Bytes) → length (b.decode text).0 ≤ b.decoded_len (length text)

-- The sequence numbers are words of 16 bits, and the buffer has not outgrown its limit.
abbrev pub IsSound : Conn → Type 0
IsSound c =
    (c.seq < 2 ^ 16)
    × (c.writer.seq < 2 ^ 16)
    × (positive c.max_buf_size ≡ true → below c.max_buf_size (length c.read_buf) ≡ false)

abbrev pub AllSound : Handler → Type 0
AllSound h = (sid : Bytes) (c : Conn) → map_get text_eq sid h.streams ≡ some c → IsSound c

below_mono : (m : ℤ) (n k : ℕ) → n ≤ k → below m k ≡ false → below m n ≡ false
unfolding below
below_mono (pos m) n k h e = ground arith
below_mono (negsuc m) n k h e = e

nothing_below : (m : ℤ) → positive m ≡ true → below m 0 ≡ false
unfolding positive below
nothing_below (pos (suc m)) e = ground arith
nothing_below (pos zero) e = absurd (ground arith)
nothing_below (negsuc m) e = absurd (ground arith)

new_conn-IsSound : (iq : OpenIq) (recv : Bool) (m : ℤ) → IsSound (new_conn iq recv m)
unfolding new_conn
new_conn-IsSound iq recv m = (omega arith, omega arith, λ e. nothing_below _ e)

take_data-IsSound :
    (b : Base64)
    → Base64Laws b
    → (is_iq : Bool) (block : Bytes) (c : Conn) → IsSound c
    → IsSound (take_data b is_iq block c).0
unfolding take_data
take_data-IsSound b laws is_iq block c (low, lower, fits) =
    let bytes = (b.decode block).0 in
    let size = length c.read_buf + b.decoded_len (length block) in
    let bound = laws.decoded_bound block in
    if-cases (λ (r : Conn × Reply). IsSound r.0)
      (positive c.max_buf_size && below c.max_buf_size size) (λ _. (low, lower, fits))
      (λ e. (
        low,
        lower,
        λ p.
            below_mono c.max_buf_size (length (c.read_buf ++ bytes)) size
              (omega (arith, bound, length-append c.read_buf bytes)) (ground arith),
      ))

add_stream-AllSound :
    (sid : Bytes) (c : Conn) (h : Handler) → IsSound c → AllSound h → AllSound (add_stream sid c h)
unfolding add_stream
add_stream-AllSound sid c h sound all i c' e =
    elim (map_set_inv text_eq text_eq_iff i sid c c' h.streams e) [
      | inl same ↦ subst IsSound (sym same) sound
      | inr old ↦ all i c' old
    ]

rm_stream-AllSound : (sid : Bytes) (h : Handler) → AllSound h → AllSound (rm_stream sid h)
unfolding rm_stream
rm_stream-AllSound sid h all i c e =
    all i c (map_delete_inv text_eq text_eq_iff i sid c h.streams e)

pub handle_payload-AllSound :
    (b : Base64)
    → Base64Laws b
    → (is_iq : Bool) (p : DataPayload) (h : Handler) → AllSound h
    → AllSound (handle_payload b is_iq p h).0
unfolding handle_payload add_stream
handle_payload-AllSound b laws is_iq p h all =
    elim (Option-cases (map_get text_eq p.sid h.streams)) [
      | inl e ↦ rw (e, handle_payload) all
      | inr (c, e) ↦
          rw (e, handle_payload)
            (if-cases (λ (r : Handler × Reply). AllSound r.0) (not (p.seq == c.seq)) (λ _. all)
              (λ _.
                let sound = all p.sid c e in
                let c' : Conn = record c { seq = next_seq c.seq } in
                add_stream-AllSound p.sid (take_data b is_iq p.block c').0 h
                  (take_data-IsSound b laws is_iq p.block c'
                    (unfold next_seq in omega arith, sound.1, sound.2))
                  all))
    ]

handle_open-AllSound : (iq : OpenIq) (h : Handler) → AllSound h → AllSound (handle_open iq h).0
unfolding handle_open
handle_open-AllSound iq h all = elim (Option-cases (find_listener (string iq.iq.to) h)) [
  | inl e ↦ rw (e, handle_open) all
  | inr ((at, l), e) ↦
      let opened =
        add_stream-AllSound iq.payload.sid (new_conn iq true default_max_buffer_size) h
          (new_conn-IsSound iq true default_max_buffer_size) all in
      rw (e, handle_open)
        (elim (Option-cases (map_get text_eq (expect_key iq) l.expected)) [
          | inl none_expected ↦ rw none_expected opened
          | inr (k, f) ↦ rw f opened
        ])
]

handle_close-AllSound :
    (f g : Bool) (sid : Bytes) (h : Handler) → AllSound h → AllSound (handle_close f g sid h).0
unfolding handle_close close_no_notify
handle_close-AllSound f g sid h all = elim (Option-cases (map_get text_eq sid h.streams)) [
  | inl e ↦ rw (e, handle_close) all
  | inr (c, e) ↦
      rw (e, handle_close)
        (if-cases (λ (r : Handler × Reply). AllSound r.0) c.closed (λ _. all)
          (λ _. rm_stream-AllSound c.writer.sid h all))
]

-- With an implementation of base64 that decodes no more than it says, the streams that a handler
-- knows stay sound whatever IQ it handles: every sequence number is a word of 16 bits, and no
-- buffer has outgrown its limit, if it has one.
pub handle_iq-AllSound :
    (b : Base64)
    → Base64Laws b
    → (read_open : StartElement → Option OpenPayload)
      (read_data : StartElement → Option DataPayload)
    → (flushed finished : Bool) (iq : Stanza) (start : StartElement) (h : Handler) → AllSound h
    → AllSound (handle_iq b read_open read_data flushed finished iq start h).0
unfolding handle_iq
handle_iq-AllSound b laws read_open read_data flushed finished iq start h all =
    if-cases Holds (text_eq start.name.local (codes "open")) (λ _. opened (read_open start))
      (λ _.
        if-cases Holds (text_eq start.name.local (codes "close"))
          (λ _. handle_close-AllSound flushed finished (attr_get (codes "sid") start.attrs) h all)
          (λ _.
            if-cases Holds (text_eq start.name.local (codes "data"))
              (λ _. carried (read_data start)) (λ _. all)))
  where
    Holds : Handler × Reply → Type 0
    Holds r = AllSound r.0

    opened :
        (o : Option OpenPayload)
        → Holds (elim o as (λ _. Handler × Reply) [
          | none ↦ (h, failed)
          | some p ↦
              let (h', reply, receiver) = handle_open (record { iq = iq; payload = p }) h in
              (h', reply)
        ])
    opened none = all
    opened (some p) = handle_open-AllSound (record { iq = iq; payload = p }) h all

    carried :
        (o : Option DataPayload)
        → Holds (elim o as (λ _. Handler × Reply) [
          | none ↦ (h, failed)
          | some p ↦ handle_payload b true p h
        ])
    carried none = all
    carried (some p) = handle_payload-AllSound b laws true p h all

open_streams :
    (iq : OpenIq) (h : Handler)
    → (handle_open iq h).1 ≡ accepted
    → (handle_open iq h).0.streams
      ≡ map_set text_eq iq.payload.sid (new_conn iq true default_max_buffer_size) h.streams
unfolding handle_open add_stream
open_streams iq h e = by_listener (find_listener (string iq.iq.to) h) refl
  where
    by_listener :
        (o : Option (Bytes × Listener))
        → find_listener (string iq.iq.to) h ≡ o
        → (handle_open iq h).0.streams
          ≡ map_set text_eq iq.payload.sid (new_conn iq true default_max_buffer_size) h.streams
    by_listener none f =
        let refused : (handle_open iq h).1 ≡ rejected (codes "cancel") (codes "not-acceptable") =
          rw (f, handle_open) refl in
        absurd (cc (refused, e))
    by_listener (some (at, l)) f =
        elim (Option-cases (map_get text_eq (expect_key iq) l.expected)) [
          | inl g ↦ rw (f, handle_open) (rw g refl)
          | inr (c, g) ↦ rw (f, handle_open) (rw g refl)
        ]

closed_is_gone :
    (b : Base64) (flushed finished is_iq : Bool) (p : DataPayload) (c : Conn) (h : Handler)
    → map_get text_eq p.sid h.streams ≡ some c
    → c.writer.sid ≡ p.sid
    → c.closed ≡ false
    → (handle_payload b is_iq p (handle_close flushed finished p.sid h).0).1 ≡ item_not_found
unfolding handle_payload handle_close close_no_notify rm_stream
closed_is_gone b flushed finished is_iq p c h there own not_closed =
    let gone : map_get text_eq p.sid (handle_close flushed finished p.sid h).0.streams ≡ none =
      rw (there, handle_close)
        (rw (not_closed, own) (map_get-map_delete text_eq text_eq_iff p.sid h.streams)) in
    rw (gone, handle_payload) refl

-- A stream whose opening is accepted is registered: it is empty, goes back to the sender of the
-- request and expects the number 0. Once the other side has closed it, whether that could be
-- flushed or not, data for it is refused as not found.
pub opened_until_closed :
    (b : Base64) (iq : OpenIq) (h : Handler)
    → (handle_open iq h).1 ≡ accepted
    → (map_get text_eq iq.payload.sid (handle_open iq h).0.streams
        ≡ some (new_conn iq true default_max_buffer_size))
      × ((flushed finished is_iq : Bool) (p : DataPayload)
          → p.sid ≡ iq.payload.sid
          → (handle_payload b is_iq p
              (handle_close flushed finished iq.payload.sid (handle_open iq h).0).0).1
            ≡ item_not_found)
unfolding new_conn
opened_until_closed b iq h e =
    let c = new_conn iq true default_max_buffer_size in
    let there : map_get text_eq iq.payload.sid (handle_open iq h).0.streams ≡ some c =
      rw (open_streams iq h e) (map_get-map_set text_eq text_eq_iff iq.payload.sid c h.streams) in
    (
      there,
      λ flushed finished is_iq p same.
          subst
            (λ sid.
              (handle_payload b is_iq p
                (handle_close flushed finished sid (handle_open iq h).0).0).1
              ≡ item_not_found)
            same
            (closed_is_gone b flushed finished is_iq p c (handle_open iq h).0 (rw same there)
              (sym same) refl),
    )
