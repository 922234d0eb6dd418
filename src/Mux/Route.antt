-- ===== src/Mux/Route.antt =====
-- How an incoming IQ is routed, and what answers one that no handler is registered for.
use xmpp.Prelude.{
  if◌then◌else◌, Bool, false, ◌||◌, none, some, [], ◌≡◌, ◌≢◌, inl, inr, refl, ap, ◌∙◌, Bytes, codes,
  text_eq, text_eq_iff, Bool-cases, arith,
}
use xmpp.Jid.{Prep}
use xmpp.Xml.{Name, StartElement}
use xmpp.Stanza.{Stanza, new_iq}
use xmpp.Mux.{
  ServeMux, Chosen, iq_fallback, iq_stanza, best_match, iq_handler, fallback_answer, start_token,
  no_token, eof, bad_read, dispatched, read_fails, route_payload, route_read, route_iq,
}
use xmpp.Mux.Best.{NoneApplies, none_best}

-- The error that is sent for an IQ: the addresses exchanged, the type "error", all else as it was.
abbrev pub refusal : Stanza → Stanza
refusal v = record v { to = v.from; from = v.to; type = codes "error" }

-- The default handler answers every IQ but a result or an error, by an error to its sender, and it
-- never answers such an error: two entities cannot answer each other for ever.
pub fallback_answers :
    (v : Stanza)
    → (fallback_answer v ≡ (
        if text_eq v.type (codes "error") || text_eq v.type (codes "result")
        then none
        else some (refusal v)))
      × (fallback_answer (refusal v) ≡ none)
unfolding fallback_answer text_eq
fallback_answers v = (refl, refl)

iq_handler_miss :
    {H : Type 0} (m : ServeMux H) (type : Bytes) (name : Name)
    → best_match m.iq_patterns iq_stanza type name ≡ none
    → iq_handler m type name ≡ (iq_fallback, false)
unfolding iq_handler
iq_handler_miss m type name e = rw (e, iq_handler)

-- An IQ that is read without an error, is neither of type "error" nor of type "result", and has a
-- payload for which no registered pattern applies, goes to the default handler, whatever else is
-- registered; an error is sent to its sender, and that error is answered by nobody's default
-- handler.
pub unhandled_iq :
    {H : Type 0} (p : Prep) (m : ServeMux H) (start : StartElement) (name : Name) {v : Stanza}
    → new_iq p start ≡ (v, none)
    → NoneApplies m.iq_patterns iq_stanza v.type name
    → v.type ≢ codes "error"
    → v.type ≢ codes "result"
    → (route_iq p m start (start_token name) none ≡ dispatched iq_fallback v name)
      × (fallback_answer v ≡ some (refusal v))
      × (fallback_answer (refusal v) ≡ none)
unfolding route_iq fallback_answer read_fails route_read route_payload
unhandled_iq {H} p m start name {v} e free not_error not_result = (
  ap (λ r. route_read m r (start_token name) none) e
      ∙ ap (λ (c : Chosen H × Bool). dispatched c.0 v name)
          (iq_handler_miss m v.type name (none_best m.iq_patterns iq_stanza v.type name free)),
  ground (arith, text_eq_iff v.type (codes "error"), text_eq_iff v.type (codes "result")),
  (fallback_answers v).1,
)

-- An IQ that is read without an error and has no payload, so that its content ends at once, is
-- handed to a handler exactly if it is a result; else the end of the content is an error.
pub empty_iq :
    {H : Type 0} (p : Prep) (m : ServeMux H) (start : StartElement) {v : Stanza}
    → new_iq p start ≡ (v, none)
    → route_iq p m start no_token (some eof) ≡ (
        if text_eq v.type (codes "result")
        then dispatched
            (iq_handler m v.type (record { space = []; local = [] })).0
            v
            (record { space = []; local = [] })
        else bad_read eof)
unfolding route_iq read_fails route_read route_payload
empty_iq p m start {v} e =
    ap (λ r. route_read m r no_token (some eof)) e
    ∙ elim (Bool-cases (text_eq v.type (codes "result"))) [
      | inl h ↦ rw (h, route_read, read_fails) refl
      | inr h ↦ rw (h, route_read, read_fails) refl
    ]
