-- ===== src/Mux/Lookup.antt =====
-- Which handler a lookup returns: that of the registered pattern which the code tries first.
use xmpp.Prelude.{Bool, true, false, none, some, List, ◌≡◌, ◌⊎◌, inl, inr, Bytes, Option-cases}
use xmpp.Xml.{Name}
use xmpp.Mux.{
  Pattern, ServeMux, Chosen, registered, iq_fallback, nop_handler, iq_stanza, msg_stanza,
  pres_stanza, best_match, iq_handler, message_handler, presence_handler,
}
use xmpp.Mux.Best.{IsBest, NoneApplies, best_match_found, best_match_none}

module _ {H : Type 0} (table : List (Pattern × H)) (stanza type : Bytes) (payload : Name) where
  -- What a lookup with a default promises of its result.
  abbrev pub Promises : Chosen H → Chosen H × Bool → Type 0
  Promises default r =
      ((h : H) × (q : Pattern) × (r ≡ (registered h, true)) × IsBest table stanza type payload h q)
      ⊎ ((r ≡ (default, false)) × NoneApplies table stanza type payload)

  promised :
      (default : Chosen H) (r : Chosen H × Bool)
      → ((h : H) → best_match table stanza type payload ≡ some h → r ≡ (registered h, true))
      → (best_match table stanza type payload ≡ none → r ≡ (default, false))
      → Promises default r
  promised default r hit miss = elim (Option-cases (best_match table stanza type payload)) [
    | inl e ↦ inr (miss e, best_match_none table stanza type payload e)
    | inr (h, e) ↦
        let (q, best) = best_match_found table stanza type payload h e in inl (h, q, hit h e, best)
  ]

-- Each of the three lookups returns the handler of a registered pattern for such stanzas that
-- applies to the payload, and true; or, only if no registered pattern applies, the default handler
-- and false. Of several that apply it is the first in the order: namespace and localname, localname
-- in any namespace, any localname in the namespace, neither. The comment of ServeMux and the design
-- document put the third before the second.
pub handlers_best :
    {H : Type 0} (m : ServeMux H) (type : Bytes) (payload : Name)
    → Promises m.iq_patterns iq_stanza type payload iq_fallback (iq_handler m type payload)
      × Promises m.msg_patterns msg_stanza type payload nop_handler (message_handler m type payload)
      × Promises m.presence_patterns pres_stanza type payload nop_handler
          (presence_handler m type payload)
unfolding iq_handler message_handler presence_handler
handlers_best m type payload = (
  promised m.iq_patterns iq_stanza type payload iq_fallback (iq_handler m type payload)
      (λ h e. rw (e, iq_handler)) (λ e. rw (e, iq_handler)),
  promised m.msg_patterns msg_stanza type payload nop_handler (message_handler m type payload)
      (λ h e. rw (e, message_handler)) (λ e. rw (e, message_handler)),
  promised m.presence_patterns pres_stanza type payload nop_handler
      (presence_handler m type payload) (λ h e. rw (e, presence_handler))
      (λ e. rw (e, presence_handler)),
)
