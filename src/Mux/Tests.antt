-- ===== src/Mux/Tests.antt =====
-- Runs of the multiplexer on a table of two handlers, whose values are numbers.
use xmpp.Prelude.{
  map_get, ℕ, Bool, true, false, Option, none, some, List, [], ◌++◌, All, ◌∷◌, ◌≡◌, refl, Bytes,
  codes, text_eq, ok, err, arith,
}
use xmpp.Jid.{zero_jid}
use xmpp.Jid.Samples.{ascii, juliet, runs}
use xmpp.Xml.{Name, name_eq, StartElement, Token, start_element, end_element, char_data}
use xmpp.Stanza.{Stanza, is, set_attr, set_attrs, new_iq}
use xmpp.Mux.{
  Pattern, pattern_eq, ServeMux, Chosen, stanza_name, registered, iq_fallback, nop_handler,
  iq_router, iq_stanza, msg_stanza, pres_stanza, best_match, iq_handler, message_handler,
  presence_handler, handler, add_pattern, iq, handle, new, fallback_answer, start_token, dispatched,
  route_iq,
}
use xmpp.Mux.Children.{SawWhole, for_children, for_children-SawWhole}
use xmpp.Mux.Best.{NoneApplies}
use xmpp.Mux.Lookup.{Promises, handlers_best}
use xmpp.Mux.Route.{refusal, unhandled_iq}

abbrev ping : Name
ping = record { space = codes "urn:xmpp:ping"; local = codes "ping" }

abbrev empty_mux : ServeMux ℕ
empty_mux = record {
  patterns = [];
  iq_patterns = [];
  msg_patterns = [];
  presence_patterns = [];
  features = [];
  idents = [];
  stanza_ns = codes "jabber:client";
}

-- Handler 1 for the localname "ping" in any namespace, 2 for any name in the namespace of pings.
abbrev two_handlers : ServeMux ℕ
two_handlers = record empty_mux {
  iq_patterns =
      (record { payload = record ping { local = [] }; stanza = iq_stanza; type = codes "get" }, 2)
      ∷ (record { payload = record ping { space = [] }; stanza = iq_stanza; type = codes "get" }, 1)
      ∷ [];
}

unfoldable looks : Bool
unfolding best_match map_get pattern_eq name_eq text_eq iq_handler handler is handle add_pattern iq
looks = true

built :
    new (codes "jabber:client") (
      iq (codes "get") (record ping { space = [] }) (some 1)
      ∷ iq (codes "get") (record ping { local = [] }) (some 2)
      ∷ [])
    ≡ ok two_handlers
unfolding looks new
built = refl

-- The pattern with a localname wins over the one with a namespace.
local_wins : iq_handler two_handlers (codes "get") ping ≡ (registered 1, true)
unfolding looks
local_wins = refl

no_match : iq_handler two_handlers (codes "set") ping ≡ (iq_fallback, false)
unfolding looks
no_match = refl

stanza_routed :
    handler two_handlers (record { space = codes "jabber:client"; local = codes "iq" })
    ≡ (iq_router, true)
unfolding looks
stanza_routed = refl

stanza_of_server :
    handler two_handlers (record { space = codes "jabber:server"; local = codes "iq" })
    ≡ (nop_handler, false)
unfolding looks
stanza_of_server = refl

stanza_refused :
    handle (record { space = codes "any"; local = codes "iq" }) (some 5) two_handlers
    ≡ err stanza_name
unfolding looks
stanza_refused = refl

handlers_best_example :
    Promises two_handlers.iq_patterns iq_stanza
      (codes "get")
      ping
      iq_fallback
      (iq_handler two_handlers (codes "get") ping)
    × Promises two_handlers.msg_patterns msg_stanza
        (codes "get")
        ping
        nop_handler
        (message_handler two_handlers (codes "get") ping)
    × Promises two_handlers.presence_patterns pres_stanza
        (codes "get")
        ping
        nop_handler
        (presence_handler two_handlers (codes "get") ping)
handlers_best_example = handlers_best two_handlers (codes "get") ping

abbrev set_ping : Pattern
set_ping = record { payload = ping; stanza = iq_stanza; type = codes "set" }

abbrev three_handlers : ServeMux ℕ
three_handlers = record two_handlers { iq_patterns = (set_ping, 3) ∷ two_handlers.iq_patterns }

-- An IQ from juliet, of a type.
abbrev from_juliet : Bytes → Stanza
from_juliet type = record {
  xml_name = record { space = codes "jabber:client"; local = codes "iq" };
  id = codes "1";
  to = zero_jid;
  from = juliet;
  lang = [];
  type = type;
}

abbrev juliet_attrs : Bytes → StartElement
juliet_attrs type = record {
  name = record { space = codes "jabber:client"; local = codes "iq" };
  attrs =
      record { name = record { space = []; local = codes "type" }; value = type }
      ∷ record {
        name = record { space = []; local = codes "from" };
        value = codes "juliet@example.net/balcony";
      }
      ∷ record { name = record { space = []; local = codes "id" }; value = codes "1" }
      ∷ [];
}

reads_set : new_iq ascii (juliet_attrs (codes "set")) ≡ (from_juliet (codes "set"), none)
unfolding runs new_iq set_attrs set_attr
reads_set = refl

reads_result : new_iq ascii (juliet_attrs (codes "result")) ≡ (from_juliet (codes "result"), none)
unfolding runs new_iq set_attrs set_attr
reads_result = refl

-- The table has no handler for IQs of type "set".
free_set : NoneApplies two_handlers.iq_patterns iq_stanza (codes "set") ping
unfolding looks
free_set q a =
    let other : text_eq (codes "get") q.type ≡ false = rw a.same_type refl in ground arith

unhandled_iq_example :
    (route_iq ascii two_handlers (juliet_attrs (codes "set")) (start_token ping) none
      ≡ dispatched iq_fallback (from_juliet (codes "set")) ping)
    × (fallback_answer (from_juliet (codes "set")) ≡ some (refusal (from_juliet (codes "set"))))
    × (fallback_answer (refusal (from_juliet (codes "set"))) ≡ none)
unhandled_iq_example =
    unhandled_iq ascii two_handlers (juliet_attrs (codes "set")) ping reads_set free_set
      (λ e. ground arith) (λ e. ground arith)

abbrev first_handler : Name → Chosen ℕ
first_handler n = registered 1

abbrev reads_two : Chosen ℕ → ℕ × Option ℕ
reads_two h = (2, none)

-- A message with one child: its handler reads two tokens, then the iterator goes on.
abbrev hello : List Token
hello = char_data (codes "hello") ∷ end_element ping ∷ []

for_children-SawWhole_example :
    All
      (SawWhole first_handler reads_two (start_element (juliet_attrs []) ∷ hello))
      (for_children first_handler reads_two
        ((1, some ping) ∷ [])
        1
        none
        (start_element (juliet_attrs []))
        hello).0
for_children-SawWhole_example =
    for_children-SawWhole first_handler reads_two ((1, some ping) ∷ []) 1 none
      (start_element (juliet_attrs [])) hello

-- Every handler adds its number to what was collected.
abbrev collect : ℕ → Option (List ℕ → List ℕ × Option Bool)
collect h = some (λ s. (s ++ h ∷ [], none))
