-- ===== src/Session/Tests.antt =====
-- Runs of a session on small elements.
use xmpp.Prelude.{
  map_get, ℕ, if◌then◌else◌, Bool, true, false, ◌||◌, Option, none, some, List, [], ◌∷◌, ◌++◌, ◌≡◌,
  ◌≢◌, ◌↔◌, inl, refl, codes, text_eq, pos,
}
use xmpp.Jid.{zero_jid}
use xmpp.Jid.Samples.{ascii, juliet, runs}
use xmpp.Xml.{
  Attr, ns_xml, Name, StartElement, Token, start_element, end_element, Content, done, text, element,
  tokens,
}
use xmpp.Stanza.{Stanza, is, iq_start, iq_result, shared_attrs, attribute}
use xmpp.Stanza.Failure.{XmlStream, WrapLaw}
use xmpp.Session.{is_iq, is_iq_empty_space, is_stanza_empty_space}
use xmpp.Session.Encoder.{
  strip, complete_stanza, drop_xmlns, complete_name, complete_attrs, scan_attrs, StanzaEncoder,
  encode_token, encode_all,
}
use xmpp.Session.Encoder.Complete.{IsComplete, encode_token-IsComplete}
use xmpp.Session.Encoder.Stream.{strip_content, encode_all_stanza}
use xmpp.Session.Response.{
  get_id_typ, scan_id_typ, is_response, ResponseChecker, check_all, check_token, responds,
  check_all-tokens,
}
use xmpp.Session.Input.{
  Session, delivered, nil_waiter, handled, normalize_start, normalize_from, default_iq,
  default_payload, default_reply, attr_get, handle_input_stream,
}
use xmpp.Session.Input.Answer.{sender, request_answered}
use xmpp.Session.Input.Deliver.{IsWaiting, response_delivered}

abbrev server : StanzaEncoder
server = record { depth = pos 0; from = juliet; ns = codes "jabber:server" }

abbrev bare_message : StartElement
bare_message = record {
  name = record { space = []; local = codes "message" };
  attrs = attribute (codes "id") [] ∷ [];
}

abbrev body : Content
body =
    element
      (record {
        name = record { space = codes "urn:x"; local = codes "body" };
        attrs = attribute (codes "xmlns") (codes "urn:x") ∷ [];
      })
      (text (codes "hi") done) done

encode_token-IsComplete_example :
    (out : StartElement) × (encode_token server (codes "r") (start_element bare_message)
      ≡ (start_element out, record server { depth = pos 1 }))
    × IsComplete server bare_message out
encode_token-IsComplete_example =
    encode_token-IsComplete server (codes "r") bare_message refl
      (unfold is_stanza_empty_space text_eq in refl) refl

encode_all_stanza_example :
    (out : StartElement) × (encode_all server
        (λ n. codes "r")
        0
        (tokens (element bare_message body done))
      ≡ (tokens (element out (strip_content body) done), server))
    × IsComplete server bare_message out
encode_all_stanza_example =
    encode_all_stanza (λ n. codes "r") server 0 bare_message body refl
      (unfold is_stanza_empty_space text_eq in refl) refl

-- A request, and the answer to it.
abbrev request : Stanza
request = record {
  xml_name = record { space = codes "jabber:client"; local = codes "iq" };
  id = codes "1";
  to = zero_jid;
  from = juliet;
  lang = [];
  type = codes "get";
}

abbrev answer : Content
answer = element (iq_start (iq_result request)) done done

abbrev fresh_checker : ResponseChecker
fresh_checker = record { id = codes "1"; wrote_resp = false; level = pos 0 }

check_all-tokens_example :
    check_all fresh_checker (tokens answer)
    ≡ record fresh_checker { wrote_resp = false || responds (codes "1") answer }
check_all-tokens_example = check_all-tokens fresh_checker answer refl

unfoldable flows : Bool
unfolding get_id_typ scan_id_typ is_response responds check_all check_token tokens is_iq
    is_iq_empty_space is_stanza_empty_space text_eq iq_start iq_result shared_attrs normalize_start
    normalize_from is attr_get sender map_get
flows = true

answers : responds (codes "1") answer ≡ true
unfolding flows runs
answers = refl

-- A response inside another element is none.
forwarded : responds (codes "1") (element bare_message answer done) ≡ false
unfolding flows runs
forwarded = refl

-- Wrap as it is described, and MultiReader.
concat : List (List Token) → List Token
concat [] = []
concat (x ∷ xs) = x ++ concat xs

abbrev stream : XmlStream
stream = record {
  wrap = λ payload start. start_element start ∷ (payload ++ (end_element start.name ∷ []));
  multi_reader = concat;
}

stream-WrapLaw : WrapLaw stream
stream-WrapLaw = record { wrap_tokens = λ payload start. refl }

-- A session that waits for the response to one request.
abbrev session : Session
session = record {
  xmlns = codes "jabber:client";
  local_addr = juliet;
  sent_stanzas = (codes "7", record { space = []; local = codes "iq" }) ∷ [];
}

-- A handler that does nothing.
abbrev idle : StartElement → List Attr × List Token × Option ℕ
idle start = (start.attrs, [], none)

request_answered_example :
    (handle_input_stream ascii stream session idle (some (start_element (iq_start request)))
      ≡ handled
          (tokens done
            ++ (if responds (get_id_typ (iq_start request).attrs).0.1 done
                then []
                else default_reply stream (get_id_typ (iq_start request).attrs).0.1 juliet))
          none)
    × (default_reply stream (get_id_typ (iq_start request).attrs).0.1 juliet
        ≡ start_element (iq_start (default_iq (get_id_typ (iq_start request).attrs).0.1 juliet))
          ∷ (default_payload stream
              ++ (end_element
                    (iq_start (default_iq (get_id_typ (iq_start request).attrs).0.1 juliet)).name
                  ∷ [])))
    × (is_response
          (get_id_typ (iq_start request).attrs).0.1
          (iq_start (default_iq (get_id_typ (iq_start request).attrs).0.1 juliet))
        ≡ true)
request_answered_example =
    request_answered ascii stream session idle (iq_start request) (iq_start request)
      (iq_start request).attrs done {to = juliet} stream-WrapLaw (unfold flows runs in refl)
      (unfold flows runs in refl) (inl (unfold flows runs in refl)) (unfold flows runs in refl)
      (unfold flows runs in refl)

abbrev response : StartElement
response = iq_start (record request { id = codes "7"; type = codes "result" })

response_delivered_example :
    ((handle_input_stream ascii stream session idle (some (start_element response))
        ≡ delivered (get_id_typ response.attrs).0.1)
      ↔ ((sent : Name) × IsWaiting session (get_id_typ response.attrs).0.1 response.name sent))
    × (handle_input_stream ascii stream session idle (some (start_element response)) ≢ nil_waiter)
response_delivered_example =
    response_delivered ascii stream session idle response response (unfold flows runs in refl)
      (unfold flows runs in refl) (inl (unfold flows runs in refl))

-- An attribute `xml:id` keeps the encoder from adding an identifier.
abbrev marked : StartElement
marked = record bare_message {
  attrs = record { name = record { space = ns_xml; local = codes "id" }; value = codes "m" } ∷ [];
}

marked_unidentified :
    encode_token (record server { from = zero_jid }) (codes "r") (start_element marked) ≡ (
      start_element (record marked {
        name = record { space = codes "jabber:server"; local = codes "message" };
      }),
      record server { depth = pos 1; from = zero_jid },
    )
unfolding flows runs encode_token strip complete_stanza drop_xmlns complete_name complete_attrs
    scan_attrs
marked_unidentified = refl
