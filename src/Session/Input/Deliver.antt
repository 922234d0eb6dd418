-- ===== src/Session/Input/Deliver.antt =====
-- Which responses reach the call that waits for them.
use xmpp.Prelude.{
  Bool, map_get, true, false, not, ◌&&◌, ◌||◌, Option, none, some, List, [], ◌++◌, ◌≡◌, ◌≢◌, ◌⊎◌,
  ◌↔◌, inl, inr, refl, sym, ap, ◌∙◌, Bytes, codes, text_eq, text_eq_iff, is_empty, pos, arith,
  Bool-cases, Option-cases, Result-cases,
}
use xmpp.Jid.{Prep, zero_jid, parse}
use xmpp.Xml.{Name, name_eq, name_eq_iff, Attr, StartElement, Token, start_element}
use xmpp.Stanza.Failure.{XmlStream}
use xmpp.Session.{is_iq}
use xmpp.Session.Response.{get_id_typ, check_all}
use xmpp.Session.Input.{
  attr_get, Session, StreamError, Handled, delivered, nil_waiter, handled, handler_error, bad_from,
  normalize_start, default_reply, Waiting, waiter, no_waiter, missing_waiter, find_waiter, respond,
  finish, call_handler, handle_element, handle_input_stream,
}

-- The entry of the table that waits for an element: its name is that of the element, or that
-- without
-- its namespace.
abbrev pub IsWaiting : Session → Bytes → Name → Name → Type 0
IsWaiting s id name sent =
    (map_get text_eq id s.sent_stanzas ≡ some sent)
    × ((sent ≡ name) ⊎ (sent ≡ record { space = []; local = name.local }))

found_waiter :
    (s : Session) (id : Bytes) (name sent : Name)
    → IsWaiting s id name sent
    → find_waiter s id name ≡ waiter
unfolding find_waiter
found_waiter s id name sent (there, same) =
    let hit : (name_eq sent name || name_eq sent (record { space = []; local = name.local }))
        ≡ true =
      ground (
        arith,
        name_eq_iff sent name,
        name_eq_iff sent (record { space = []; local = name.local }),
      ) in
    rw (there, find_waiter) (rw hit refl)

waiter_found :
    (s : Session) (id : Bytes) (name : Name)
    → find_waiter s id name ≡ waiter
    → (sent : Name) × IsWaiting s id name sent
unfolding find_waiter
waiter_found s id name e = elim (Option-cases (map_get text_eq id s.sent_stanzas)) [
  | inl missing ↦ absurd (ground arith)
  | inr (sent, there) ↦ (
    sent,
    (
      there,
      ground (
        arith,
        name_eq_iff sent name,
        name_eq_iff sent (record { space = []; local = name.local }),
      ),
    ),
  )
]

no_missing :
    (s : Session) (id : Bytes) (name : Name)
    → is_empty name.local ≡ false
    → find_waiter s id name ≢ missing_waiter
unfolding find_waiter
no_missing s id name named e = elim (Option-cases (map_get text_eq id s.sent_stanzas)) [
  | inl missing ↦
      let unnamed : name_eq (record { space = []; local = [] })
            (record { space = []; local = name.local })
          ≡ true =
        ground arith in
      absurd (
        cc (
          ap (λ (n : Name). is_empty n.local)
            ((name_eq_iff (record { space = []; local = [] })
                (record { space = []; local = name.local })).0
              unnamed)))
  | inr (sent, there) ↦ absurd (ground arith)
]

waiting_cases : (w : Waiting) → (w ≡ waiter) ⊎ ((w ≡ missing_waiter) ⊎ (w ≡ no_waiter))
waiting_cases waiter = inl refl
waiting_cases missing_waiter = inr (inl refl)
waiting_cases no_waiter = inr (inr refl)

is_answer :
    (typ : Bytes)
    → (typ ≡ codes "result") ⊎ (typ ≡ codes "error")
    → (text_eq typ (codes "result") || text_eq typ (codes "error")) ≡ true
is_answer typ answer =
    ground (arith, text_eq_iff typ (codes "result"), text_eq_iff typ (codes "error"))

module _ {E : Type 0} (p : Prep) (x : XmlStream) (s : Session)
    (handler : StartElement → List Attr × List Token × Option E) where
  -- The handler was called: something was written, or nothing, and an error returned, or none.
  abbrev IsHandled : Handled E → Type 0
  IsHandled o = (written : List Token) × (e : Option (StreamError E)) × (o ≡ handled written e)

  finish-IsHandled :
      (iq_ok : Bool) (id typ : Bytes) (r : List Attr × List Token × Option E)
      → IsHandled (finish p x s handler iq_ok id typ r)
  unfolding finish respond
  finish-IsHandled iq_ok id typ (attrs, written, some a) = (written, some (handler_error a), refl)
  finish-IsHandled iq_ok id typ (attrs, written, none) =
      elim (Bool-cases (
        iq_ok
        && ((text_eq typ (codes "get") || text_eq typ (codes "set"))
            && not
                (check_all (record { id = id; wrote_resp = false; level = pos 0 })
                  written).wrote_resp))) [
                    | inr e ↦ rw e (written, none, refl)
                    | inl e ↦ rw e (elim (Bool-cases (is_empty (attr_get (codes "from") attrs))) [
                      | inl h ↦ rw h (written ++ default_reply x id zero_jid, none, refl)
                      | inr h ↦
                          rw h (elim (Result-cases (parse p (attr_get (codes "from") attrs))) [
                            | inl (to, parsed) ↦
                                rw parsed (written ++ default_reply x id to, none, refl)
                            | inr (bad, parsed) ↦ rw parsed (written, some (bad_from bad), refl)
                          ])
                    ])
                  ]

  abbrev decide : StartElement → Bytes → Bytes → Waiting → Handled E
  decide tok id typ waiter = delivered id
  decide tok id typ missing_waiter = nil_waiter
  decide tok id typ no_waiter = finish p x s handler (is_iq tok.name) id typ (handler tok)

  decided :
      (tok : StartElement)
      → ((get_id_typ tok.attrs).1.1 ≡ codes "result") ⊎ ((get_id_typ tok.attrs).1.1 ≡ codes "error")
      → handle_element p x s handler tok
        ≡ decide tok
            (get_id_typ tok.attrs).0.1
            (get_id_typ tok.attrs).1.1
            (find_waiter s (get_id_typ tok.attrs).0.1 tok.name)
  unfolding handle_element call_handler
  decided tok answer =
      rw (is_answer (get_id_typ tok.attrs).1.1 answer)
        (elim (waiting_cases (find_waiter s (get_id_typ tok.attrs).0.1 tok.name)) [
          | inl e ↦ rw e refl
          | inr (inl e) ↦ rw e refl
          | inr (inr e) ↦ rw e refl
        ])

  -- An element of type "result" or "error", as it is read, that has a localname: it is offered to
  -- the
  -- call that waits for its identifier exactly if the name waited for is its name, or that without
  -- the namespace; the session never panics for want of a waiting call.
  pub response_delivered :
      (start tok : StartElement)
      → normalize_start s start ≡ tok
      → is_empty tok.name.local ≡ false
      → ((get_id_typ tok.attrs).1.1 ≡ codes "result") ⊎ ((get_id_typ tok.attrs).1.1 ≡ codes "error")
      → let id = (get_id_typ tok.attrs).0.1 in
        let o = handle_input_stream p x s handler (some (start_element start)) in
        ((o ≡ delivered id) ↔ ((sent : Name) × IsWaiting s id tok.name sent)) × (o ≢ nil_waiter)
  unfolding handle_input_stream handle_element call_handler
  response_delivered start tok same named answer =
      let id = (get_id_typ tok.attrs).0.1 in
      let typ = (get_id_typ tok.attrs).1.1 in
      let o = ap (handle_element p x s handler) same ∙ decided tok answer in
      elim (waiting_cases (find_waiter s id tok.name)) [
        | inl e ↦
            let yes = o ∙ ap (decide tok id typ) e in
            ((λ _. waiter_found s id tok.name e, λ _. yes), λ b. absurd (cc (sym yes ∙ b)))
        | inr (inl e) ↦ absurd (no_missing s id tok.name named e)
        | inr (inr e) ↦
            let (written, bad, f) = finish-IsHandled (is_iq tok.name) id typ (handler tok) in
            let no = o ∙ ap (decide tok id typ) e ∙ f in
            (
              (
                λ b. absurd (cc (sym no ∙ b)),
                λ (sent, h). absurd (cc (sym e ∙ found_waiter s id tok.name sent h)),
              ),
              λ b. absurd (cc (sym no ∙ b)),
            )
      ]
