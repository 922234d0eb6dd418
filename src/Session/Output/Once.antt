-- ===== src/Session/Output/Once.antt =====
-- How often the closing tag of a stream is written (session.go).
use xmpp.Prelude.{
  ℕ, suc, ◌+◌, ◌≤◌, if◌then◌else◌, true, Option, none, some, List, [], ◌∷◌, ◌++◌, ◌≡◌, map, refl,
  sym, ap, subst, ◌∙◌, inl, inr, Option-cases, if-cases, arith,
}
use xmpp.Xml.{StartElement, Token, start_element, end_element}
use xmpp.Features.{SessionState}
use xmpp.Stanza.Failure.{XmlStream}
use xmpp.Streams.Failure.{Error, token_reader}
use xmpp.Session.Output.{
  Wire, token_out, stream_close, Failure, Output, Session, LockWriteCloser, add_token, flush_out,
  unless_failed, copy, token_writer, encode_token, flush, close_writer, close_session,
  close_input_stream, send, send_error, sent_error, closed_error, error_to_send, Call, close_call,
  send_call, writer_call, encode_tokens, ended, run, run_all, Round, element_handled, input_ended,
  round_failed, context_done, Serving, served, serving, end_serve, serve,
}

-- How often the closing tag was written.
unfoldable pub closes : List Wire → ℕ
closes [] = 0
closes (token_out t ∷ w) = closes w
closes (stream_close ∷ w) = suc (closes w)

-- At most once, and not before the bit is set.
abbrev pub IsOnce : Session → Type 0
IsOnce s = closes s.wire ≤ (if s.state.output_stream_closed then 1 else 0)

closes-append : (v w : List Wire) → closes (v ++ w) ≡ closes v + closes w
unfolding closes
closes-append [] w = omega arith
closes-append (token_out t ∷ v) w = closes-append v w
closes-append (stream_close ∷ v) w = omega (arith, closes-append v w)

closes-tokens : (ts : List Token) → closes (map token_out ts) ≡ 0
unfolding closes
closes-tokens [] = refl
closes-tokens (t ∷ ts) = closes-tokens ts

append_close : (w : List Wire) → closes (w ++ stream_close ∷ []) ≡ suc (closes w)
unfolding closes
append_close w = closes-append w (stream_close ∷ []) ∙ omega arith

-- The state is kept and no closing tag is written.
abbrev Keeps : Session → Session → Type 0
Keeps s s' = (s'.state ≡ s.state) × (closes s'.wire ≡ closes s.wire)

both : (a b c : Session) → Keeps a b → Keeps b c → Keeps a c
both a b c (x, y) (u, v) = (u ∙ x, v ∙ y)

kept : (s s' : Session) → Keeps s s' → IsOnce s → IsOnce s'
kept s s' (same, count) h =
    let bit : s'.state.output_stream_closed ≡ s.state.output_stream_closed =
      ap (λ (st : SessionState). st.output_stream_closed) same in
    subst (λ b. closes s'.wire ≤ (if b then 1 else 0)) (sym bit)
      (subst (λ n. n ≤ (if s.state.output_stream_closed then 1 else 0)) (sym count) h)

module _ {E : Type 0} (o : Output E) where
  add_token-Keeps : (t : Token) (s : Session) → Keeps s (add_token o t s).0
  unfolding add_token
  add_token-Keeps t s = elim (Option-cases (o.encode t)) [
    | inl n ↦ rw (n, add_token) (refl, refl)
    | inr (e, q) ↦ rw (q, add_token) (refl, refl)
  ]

  flush_out-Keeps : (s : Session) → Keeps s (flush_out o s).0
  unfolding flush_out
  flush_out-Keeps s = elim (Option-cases (o.write s.wire)) [
    | inl n ↦
        rw (n, flush_out)
          (
            refl,
            omega (arith, closes-append s.wire (map token_out s.pending), closes-tokens s.pending),
          )
    | inr (e, q) ↦ rw (q, flush_out) (refl, refl)
  ]

  unless_failed-Keeps :
      (next : Session → Session × Option (Failure E)) (s : Session)
      (r : Session × Option (Failure E))
      → ((s' : Session) → Keeps s' (next s').0)
      → Keeps s r.0
      → Keeps s (unless_failed o next r).0
  unfolding unless_failed
  unless_failed-Keeps next s (s', some e) h k = k
  unless_failed-Keeps next s (s', none) h k = both s s' (next s').0 k (h s')

  copy-Keeps : (ts : List Token) (s : Session) → Keeps s (copy o ts s).0
  unfolding copy
  copy-Keeps [] s = flush_out-Keeps s
  copy-Keeps (t ∷ ts) s =
      unless_failed-Keeps (λ s'. copy o ts s') s (add_token o t s) (copy-Keeps ts)
        (add_token-Keeps t s)

  abbrev KeepsWriter : Session → LockWriteCloser E × Option (Failure E) → Type 0
  KeepsWriter s r = Keeps s r.0.w

  encode_token-Keeps :
      (t : Token) (lwc : LockWriteCloser E) → Keeps lwc.w (encode_token o t lwc).0.w
  unfolding encode_token
  encode_token-Keeps t lwc = elim (Option-cases lwc.err) [
    | inr (e, q) ↦ rw (q, encode_token) (refl, refl)
    | inl n ↦
        rw (n, encode_token)
          (if-cases (KeepsWriter lwc.w) lwc.w.state.output_stream_closed (λ _. (refl, refl))
            (λ _. add_token-Keeps t lwc.w))
  ]

  flush-Keeps : (lwc : LockWriteCloser E) → Keeps lwc.w (flush o lwc).0.w
  unfolding flush
  flush-Keeps lwc = elim (Option-cases lwc.err) [
    | inr (e, q) ↦ rw (q, flush) (refl, refl)
    | inl n ↦
        rw (n, flush)
          (if-cases (KeepsWriter lwc.w) lwc.w.state.output_stream_closed (λ _. (refl, refl))
            (λ _. flush_out-Keeps lwc.w))
  ]

  ended-Keeps :
      (s : Session) (r : LockWriteCloser E × Option (Failure E))
      → Keeps s r.0.w
      → Keeps s (ended o r).0.w
  ended-Keeps s (lwc, none) h = h
  ended-Keeps s (lwc, some e) h = h

  close_writer-Keeps : (lwc : LockWriteCloser E) → Keeps lwc.w (close_writer o lwc).0.w
  unfolding close_writer
  close_writer-Keeps lwc = elim (Option-cases lwc.err) [
    | inr (e, q) ↦ rw (q, close_writer) (refl, refl)
    | inl n ↦ rw (n, close_writer) (ended-Keeps lwc.w (flush o lwc) (flush-Keeps lwc))
  ]

  close_session-IsOnce : (s : Session) → IsOnce s → IsOnce (close_session o s).0
  unfolding close_session
  close_session-IsOnce s h =
      if-cases (λ (r : Session × Option (Failure E)). IsOnce r.0) s.state.output_stream_closed
        (λ _. h)
        (λ b.
          let none_yet : closes s.wire ≤ 0 =
            subst (λ c. closes s.wire ≤ (if c then 1 else 0)) b h in
          elim (Option-cases (o.write s.wire)) [
            | inl n ↦ rw n (omega (arith, none_yet, append_close s.wire))
            | inr (e, q) ↦ rw q (omega (arith, none_yet))
          ])

  close_session_closed : (s : Session) → (close_session o s).0.state.output_stream_closed ≡ true
  unfolding close_session
  close_session_closed s =
      if-cases (λ (r : Session × Option (Failure E)). r.0.state.output_stream_closed ≡ true)
        s.state.output_stream_closed (λ b. b)
        (λ _. elim (Option-cases (o.write s.wire)) [ inl n ↦ rw n refl | inr (e, q) ↦ rw q refl ])

  close_session_input :
      (s : Session)
      → s.state.input_stream_closed ≡ true
      → (close_session o s).0.state.input_stream_closed ≡ true
  unfolding close_session
  close_session_input s h =
      if-cases (λ (r : Session × Option (Failure E)). r.0.state.input_stream_closed ≡ true)
        s.state.output_stream_closed (λ _. h)
        (λ _. elim (Option-cases (o.write s.wire)) [ inl n ↦ rw n h | inr (e, q) ↦ rw q h ])

  encode_tokens-Keeps :
      (ts : List Token) (lwc : LockWriteCloser E) → Keeps lwc.w (encode_tokens o ts lwc).w
  unfolding encode_tokens
  encode_tokens-Keeps [] lwc = (refl, refl)
  encode_tokens-Keeps (t ∷ ts) lwc =
      both lwc.w (encode_token o t lwc).0.w (encode_tokens o ts (encode_token o t lwc).0).w
        (encode_token-Keeps t lwc) (encode_tokens-Keeps ts (encode_token o t lwc).0)

  send-Keeps :
      (payload : List Token) (start : StartElement) (s : Session)
      → Keeps s (send o payload start s).0
  unfolding send
  send-Keeps payload start s = unless_failed-Keeps (flush_out o) s _ flush_out-Keeps (
      unless_failed-Keeps (add_token o (end_element start.name)) s _
        (add_token-Keeps (end_element start.name))
        (unless_failed-Keeps (copy o payload) s (add_token o (start_element start) s)
          (copy-Keeps payload) (add_token-Keeps (start_element start) s)))

  run-IsOnce : (c : Call o) (s : Session) → IsOnce s → IsOnce (run o c s)
  unfolding run token_writer
  run-IsOnce close_call s h = close_session-IsOnce s h
  run-IsOnce (send_call payload start) s h =
      kept s (send o payload start s).0 (send-Keeps payload start s) h
  run-IsOnce (writer_call ts) s h =
      let opened = encode_tokens o ts (token_writer o s) in
      let closed = (close_writer o opened).0.w in
      kept s closed
        (both s opened.w closed (encode_tokens-Keeps ts (token_writer o s))
          (close_writer-Keeps opened))
        h

  run_all-IsOnce : (cs : List (Call o)) (s : Session) → IsOnce s → IsOnce (run_all o cs s)
  unfolding run_all
  run_all-IsOnce [] s h = h
  run_all-IsOnce (c ∷ cs) s h = run_all-IsOnce cs (run o c s) (run-IsOnce c s h)

  closed_error-IsOnce :
      (e : Failure E) (r : Session × Option (Failure E))
      → IsOnce r.0
      → IsOnce (closed_error o e r).0
  unfolding closed_error
  closed_error-IsOnce e (s, some f) h = h
  closed_error-IsOnce e (s, none) h = h

  sent_error-IsOnce :
      (e : Failure E) (r : Session × Option (Failure E)) → IsOnce r.0 → IsOnce (sent_error o e r).0
  unfolding sent_error
  sent_error-IsOnce e (s, some f) h = h
  sent_error-IsOnce e (s, none) h =
      closed_error-IsOnce e (close_session o s) (close_session-IsOnce s h)

  send_error-IsOnce :
      (x : XmlStream) (e : Failure E) (as_stream : Option Error) (s : Session)
      → IsOnce s
      → IsOnce (send_error o x e as_stream s).0
  unfolding send_error
  send_error-IsOnce x e as_stream s h =
      let ts = token_reader x (error_to_send as_stream) in
      if-cases (λ (r : Session × Failure E). IsOnce r.0) s.state.output_stream_closed (λ _. h)
        (λ _. sent_error-IsOnce e (copy o ts s) (kept s (copy o ts s).0 (copy-Keeps ts s) h))

  -- Where Serve has returned, both streams are closed and the closing tag was written once at most.
  abbrev pub IsEnded : Serving E → Type 0
  IsEnded (served s e) =
      IsOnce s × (s.state.output_stream_closed ≡ true) × (s.state.input_stream_closed ≡ true)
  IsEnded (serving s) = IsOnce s

  end_serve-IsEnded : (s : Session) (e : Option (Failure E)) → IsOnce s → IsEnded (end_serve o s e)
  unfolding end_serve close_input_stream
  end_serve-IsEnded s e h =
      (close_session-IsOnce _ h, close_session_closed _, close_session_input _ refl)

  -- If the closing tag has not been written more than once, nor before the output stream was marked
  -- as closed, then this stays so whatever rounds Serve goes through and whatever calls are made
  -- meanwhile, also by other users of the session; and once Serve returns, both streams are marked
  -- as closed.
  pub serve-IsEnded :
      (x : XmlStream) (rounds : List (List (Call o) × Round E)) (s : Session)
      → IsOnce s
      → IsEnded (serve o x rounds s)
  unfolding serve
  serve-IsEnded x [] s h = h
  serve-IsEnded x ((calls, element_handled) ∷ rounds) s h =
      serve-IsEnded x rounds (run_all o calls s) (run_all-IsOnce calls s h)
  serve-IsEnded x ((calls, input_ended) ∷ rounds) s h =
      end_serve-IsEnded (run_all o calls s) none (run_all-IsOnce calls s h)
  serve-IsEnded x ((calls, round_failed e as_stream) ∷ rounds) s h =
      end_serve-IsEnded _ _
        (send_error-IsOnce x e as_stream (run_all o calls s) (run_all-IsOnce calls s h))
  serve-IsEnded x ((calls, context_done e) ∷ rounds) s h =
      end_serve-IsEnded (run_all o calls s) (some e) (run_all-IsOnce calls s h)
