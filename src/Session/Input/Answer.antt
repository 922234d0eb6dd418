-- ===== src/Session/Input/Answer.antt =====
-- That every request is answered, and which responses reach the call that waits for them.
use xmpp.Prelude.{
  Bool, if◌then◌else◌, true, false, ◌||◌, Option, none, some, List, [], ◌∷◌, ◌++◌, append-nil, ◌≡◌,
  ◌⊎◌, inl, inr, refl, sym, ap, ◌∙◌, Bytes, codes, text_eq, text_eq_iff, text_eq_refl, is_empty,
  Result, ok, pos, ok-injective, arith, Bool-cases,
}
use xmpp.Jid.{Error, Jid, Prep, zero_jid, parse}
use xmpp.Xml.{Attr, StartElement, Token, start_element, end_element, Content, tokens}
use xmpp.Stanza.{iq_start}
use xmpp.Stanza.Failure.{XmlStream, WrapLaw}
use xmpp.Session.{is_iq, is_iq_empty_space}
use xmpp.Session.Response.{get_id_typ, is_response, responds, check_all-tokens, get_id_typ-iq_start}
use xmpp.Session.Input.{
  attr_get, Session, handled, normalize_start, default_iq, default_payload, default_reply, respond,
  finish, call_handler, handle_element, handle_input_stream,
}

-- The address that a response goes to: none, or that of the attribute.
unfoldable pub sender : Prep → List Attr → Result Error Jid
sender p attrs =
    let from_attr = attr_get (codes "from") attrs in
    if is_empty from_attr then ok zero_jid else parse p from_attr

sender_unset :
    (p : Prep) (attrs : List Attr)
    → is_empty (attr_get (codes "from") attrs) ≡ true
    → sender p attrs ≡ ok zero_jid
unfolding sender
sender_unset p attrs e = rw e refl

sender_set :
    (p : Prep) (attrs : List Attr)
    → is_empty (attr_get (codes "from") attrs) ≡ false
    → sender p attrs ≡ parse p (attr_get (codes "from") attrs)
unfolding sender
sender_set p attrs e = rw e refl

is_request :
    (typ : Bytes)
    → (typ ≡ codes "get") ⊎ (typ ≡ codes "set")
    → (text_eq typ (codes "get") || text_eq typ (codes "set")) ≡ true
is_request typ request =
    ground (arith, text_eq_iff typ (codes "get"), text_eq_iff typ (codes "set"))

-- The default reply is a response to the request: an IQ with its identifier that is no request.
reply-IsResponse :
    (tok : StartElement) (id typ : Bytes)
    → is_iq_empty_space tok.name ≡ true
    → (get_id_typ tok.attrs).0.1 ≡ id
    → (get_id_typ tok.attrs).1.1 ≡ typ
    → text_eq typ (codes "get") ≡ false
    → text_eq typ (codes "set") ≡ false
    → is_response id tok ≡ true
unfolding is_response
reply-IsResponse tok id typ iq i t not_get not_set =
    rw (iq, i, t, not_get, not_set, text_eq_refl id) refl

default_is_response : (id : Bytes) (to : Jid) → is_response id (iq_start (default_iq id to)) ≡ true
unfolding default_iq
default_is_response id to =
    let (i, t) = get_id_typ-iq_start (default_iq id to) in
    reply-IsResponse (iq_start (default_iq id to)) id (codes "error")
      (unfold iq_start is_iq_empty_space text_eq in refl) i t (unfold text_eq in refl)
      (unfold text_eq in refl)

module _ {E : Type 0} (p : Prep) (x : XmlStream) (s : Session)
    (handler : StartElement → List Attr × List Token × Option E) where
  respond_to :
      (attrs : List Attr) (id : Bytes) (written : List Token) {to : Jid}
      → sender p attrs ≡ ok to
      → respond p x s handler attrs id written ≡ handled (written ++ default_reply x id to) none
  unfolding respond sender
  respond_to attrs id written {to} from =
      elim (Bool-cases (is_empty (attr_get (codes "from") attrs))) [
        | inl e ↦ rw e (
            ap (λ t. handled (written ++ default_reply x id t) none)
              (ok-injective (sym (sender_unset p attrs e) ∙ from)))
        | inr e ↦ rw e (rw (sym (sender_set p attrs e) ∙ from) refl)
      ]

  request_finished :
      (iq_ok : Bool) (id typ : Bytes) (attrs : List Attr) (c : Content) {to : Jid}
      → iq_ok ≡ true
      → (typ ≡ codes "get") ⊎ (typ ≡ codes "set")
      → sender p attrs ≡ ok to
      → finish p x s handler iq_ok id typ (attrs, tokens c, none)
        ≡ handled (tokens c ++ (if responds id c then [] else default_reply x id to)) none
  unfolding finish
  request_finished iq_ok id typ attrs c iq request from =
      let checked =
        check_all-tokens (record { id = id; wrote_resp = false; level = pos 0 }) c refl in
      rw (iq, is_request typ request, checked)
        (elim (Bool-cases (responds id c)) [
          | inl e ↦ rw e (ap (λ t. handled t none) (sym (append-nil (tokens c))))
          | inr e ↦ rw e (respond_to attrs id (tokens c) from)
        ])

  not_answer :
      (typ : Bytes)
      → (typ ≡ codes "get") ⊎ (typ ≡ codes "set")
      → (text_eq typ (codes "result") || text_eq typ (codes "error")) ≡ false
  unfolding text_eq
  not_answer typ (inl e) = rw e refl
  not_answer typ (inr e) = rw e refl

  -- A request, that is an IQ of type "get" or "set" as it is read, which the handler handles without
  -- an error, with well-formed content `c` written and with a sender left in the start element that
  -- is unset or parses, is answered: if no element of `c` responds to it, the default reply is
  -- written behind `c`, and nothing else is. The default reply, for a `Wrap` that wraps, is one
  -- element, an IQ with the identifier of the request that is itself no request.
  pub request_answered :
      (start tok : StartElement) (attrs : List Attr) (c : Content) {to : Jid}
      → WrapLaw x
      → normalize_start s start ≡ tok
      → is_iq tok.name ≡ true
      → ((get_id_typ tok.attrs).1.1 ≡ codes "get") ⊎ ((get_id_typ tok.attrs).1.1 ≡ codes "set")
      → handler tok ≡ (attrs, tokens c, none)
      → sender p attrs ≡ ok to
      → let id = (get_id_typ tok.attrs).0.1 in
        let reply = iq_start (default_iq id to) in
        (handle_input_stream p x s handler (some (start_element start))
          ≡ handled (tokens c ++ (if responds id c then [] else default_reply x id to)) none)
        × (default_reply x id to
            ≡ start_element reply ∷ (default_payload x ++ (end_element reply.name ∷ [])))
        × (is_response id reply ≡ true)
  unfolding handle_input_stream handle_element call_handler default_reply
  request_answered start tok attrs c {to} law same iq request h from =
      let id = (get_id_typ tok.attrs).0.1 in
      let typ = (get_id_typ tok.attrs).1.1 in
      (
        rw (same, not_answer typ request, h)
            (request_finished (is_iq tok.name) id typ attrs c iq request from),
        law.wrap_tokens (default_payload x) (iq_start (default_iq id to)),
        default_is_response id to,
      )
