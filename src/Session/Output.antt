-- ===== src/Session/Output.antt =====
-- session.go: what is written to a session and how its streams are closed. `pending` is what the
-- encoder holds until it is flushed, `wire` what was written to the connection. The errors of the
-- encoder and of the connection, and Copy of the package xmlstream, are parameters: `Output`.
-- What stanzaEncoder makes of a token is Session/Encoder.
pub mod Once
pub mod Order
pub mod Tests
use xmpp.Prelude.{if◌then◌else◌, Bool, true, false, Option, none, some, List, [], ◌∷◌, ◌++◌, map}
use xmpp.Xml.{StartElement, Token, start_element, end_element}
use xmpp.Features.{SessionState}
use xmpp.Stanza.Failure.{XmlStream}
use xmpp.Streams.Failure.{Error, with_err, token_reader}
use xmpp.Prelude.{codes}

pub data Wire : Type 0 where
  token_out : Token → Wire
  stream_close : Wire

-- Errors: `output_closed` is ErrOutputStreamClosed, `eof` is io.EOF.
pub data Failure (E : Type 0) : Type 0 where
  output_closed eof : Failure E
  failure : E → Failure E

pub record Output (E : Type 0) : Type 0 where
  pub encode : Token → Option E
  pub write : List Wire → Option E

pub record Session : Type 0 where
  pub state : SessionState
  pub pending : List Token
  pub wire : List Wire
  pub locked : Bool

-- `lockWriteCloser`: a session and the error that ends the writer's use.
pub record LockWriteCloser (E : Type 0) : Type 0 where
  pub w : Session
  pub err : Option (Failure E)

-- The stream error that is sent: that in the error, or the one for an undefined condition.
abbrev pub error_to_send : Option Error → Error
error_to_send none = with_err (codes "undefined-condition")
error_to_send (some se) = se

module _ {E : Type 0} (o : Output E) where
  unfoldable pub add_token : Token → Session → Session × Option (Failure E)
  add_token t s = elim (o.encode t) [
    | some e ↦ (s, some (failure e))
    | none ↦ (record s { pending = s.pending ++ t ∷ [] }, none)
  ]

  unfoldable pub flush_out : Session → Session × Option (Failure E)
  flush_out s = elim (o.write s.wire) [
    | some e ↦ (s, some (failure e))
    | none ↦ (record s { pending = []; wire = s.wire ++ map token_out s.pending }, none)
  ]

  unfoldable pub unless_failed :
      (Session → Session × Option (Failure E))
      → Session × Option (Failure E)
      → Session × Option (Failure E)
  unless_failed next (s, some e) = (s, some e)
  unless_failed next (s, none) = next s

  -- `xmlstream.Copy`: it writes the tokens until an error and then flushes.
  unfoldable pub copy : List Token → Session → Session × Option (Failure E)
  copy [] s = flush_out s
  copy (t ∷ ts) s = unless_failed (λ s'. copy ts s') (add_token t s)

  -- `TokenWriter`, once it has the lock.
  unfoldable pub token_writer : Session → LockWriteCloser E
  token_writer s = record { w = record s { locked = true }; err = none }

  unfoldable pub encode_token : Token → LockWriteCloser E → LockWriteCloser E × Option (Failure E)
  encode_token t lwc = elim lwc.err [
    | some e ↦ (lwc, some e)
    | none ↦
        if lwc.w.state.output_stream_closed
        then (lwc, some output_closed)
        else (record lwc { w = (add_token t lwc.w).0 }, (add_token t lwc.w).1)
  ]

  unfoldable pub flush : LockWriteCloser E → LockWriteCloser E × Option (Failure E)
  flush lwc = elim lwc.err [
    | some e ↦ (lwc, none)
    | none ↦
        if lwc.w.state.output_stream_closed
        then (lwc, some output_closed)
        else (record lwc { w = (flush_out lwc.w).0 }, (flush_out lwc.w).1)
  ]

  abbrev pub ended : LockWriteCloser E × Option (Failure E) → LockWriteCloser E × Option (Failure E)
  ended (lwc, some e) = (record { w = record lwc.w { locked = false }; err = some e }, some e)
  ended (lwc, none) = (record { w = record lwc.w { locked = false }; err = some eof }, none)

  -- `Close` of a writer.
  unfoldable pub close_writer : LockWriteCloser E → LockWriteCloser E × Option (Failure E)
  close_writer lwc = elim lwc.err [ some e ↦ (lwc, none) | none ↦ ended (flush lwc) ]

  -- `closeSession`: the closing tag is written to the connection itself.
  unfoldable pub close_session : Session → Session × Option (Failure E)
  close_session s =
      if s.state.output_stream_closed
      then (s, none)
      else let closed : Session = record s {
        state = record s.state { output_stream_closed = true };
      } in
        elim (o.write s.wire) [
          | some e ↦ (closed, some (failure e))
          | none ↦ (record closed { wire = s.wire ++ stream_close ∷ [] }, none)
        ]

  -- `closeInputStream`.
  unfoldable pub close_input_stream : Session → Session
  close_input_stream s = record s { state = record s.state { input_stream_closed = true } }

  -- `send`, once it has a start element: of the methods that write, Send, SendElement and the
  -- encoding methods do not look at the state.
  unfoldable pub send : List Token → StartElement → Session → Session × Option (Failure E)
  send payload start s = unless_failed flush_out (
      unless_failed (add_token (end_element start.name))
        (unless_failed (copy payload) (add_token (start_element start) s)))

  unfoldable pub closed_error : Failure E → Session × Option (Failure E) → Session × Failure E
  closed_error e (s, some f) = (s, f)
  closed_error e (s, none) = (s, e)

  unfoldable pub sent_error : Failure E → Session × Option (Failure E) → Session × Failure E
  sent_error e (s, some f) = (s, f)
  sent_error e (s, none) = closed_error e (close_session s)

  -- `sendError`; `as_stream` is what errors.As finds in the error.
  unfoldable pub send_error : XmlStream → Failure E → Option Error → Session → Session × Failure E
  send_error x e as_stream s =
      if s.state.output_stream_closed
      then (s, e)
      else sent_error e (copy (token_reader x (error_to_send as_stream)) s)

  -- What is done with a session by handlers and by others, one call at a time.
  pub data Call : Type 0 where
    close_call : Call
    send_call : List Token → StartElement → Call
    writer_call : List Token → Call

  unfoldable pub encode_tokens : List Token → LockWriteCloser E → LockWriteCloser E
  encode_tokens [] lwc = lwc
  encode_tokens (t ∷ ts) lwc = encode_tokens ts (encode_token t lwc).0

  unfoldable pub run : Call → Session → Session
  run close_call s = (close_session s).0
  run (send_call payload start) s = (send payload start s).0
  run (writer_call ts) s = (close_writer (encode_tokens ts (token_writer s))).0.w

  unfoldable pub run_all : List Call → Session → Session
  run_all [] s = s
  run_all (c ∷ cs) s = run_all cs (run c s)

-- What comes of a round of Serve: the element was handled, the input has ended, or an error, with
-- the stream error in it; meanwhile calls were made.
pub data Round (E : Type 0) : Type 0 where
  element_handled input_ended : Round E
  round_failed : Failure E → Option Error → Round E
  context_done : Failure E → Round E

-- `Serve`: it has returned, or the rounds are not at their end.
pub data Serving (E : Type 0) : Type 0 where
  served : Session → Option (Failure E) → Serving E
  serving : Session → Serving E

module _ {E : Type 0} (o : Output E) where
  -- The deferred function.
  unfoldable pub end_serve : Session → Option (Failure E) → Serving E
  end_serve s e =
      let (s', f) = close_session o (close_input_stream o s) in
      served s' (elim e [ some x ↦ some x | none ↦ f ])

  unfoldable pub serve : XmlStream → List (List (Call o) × Round E) → Session → Serving E
  serve x [] s = serving s
  serve x ((calls, element_handled) ∷ rounds) s = serve x rounds (run_all o calls s)
  serve x ((calls, input_ended) ∷ rounds) s = end_serve (run_all o calls s) none
  serve x ((calls, round_failed e as_stream) ∷ rounds) s =
      let (s', f) = send_error o x e as_stream (run_all o calls s) in end_serve s' (some f)
  serve x ((calls, context_done e) ∷ rounds) s = end_serve (run_all o calls s) (some e)
