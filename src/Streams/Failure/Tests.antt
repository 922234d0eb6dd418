-- ===== src/Streams/Failure/Tests.antt =====
-- Runs of stream errors.
use xmpp.Prelude.{true, some, none, List, [], ◌∷◌, ◌++◌, ◌≡◌, ◌≢◌, refl, codes, text_eq, drop}
use xmpp.Xml.{Token, StartElement, start_element, end_element, char_data}
use xmpp.Xml.Decode.{skip_element}
use xmpp.Stanza.Failure.{XmlStream, WrapLaw, MultiLaw}
use xmpp.Streams.Failure.{
  Error, with_err, is, token_reader, returned, failed, unmarshal, error_start, see_other_host_error,
  read_child, read_children,
}
use xmpp.Streams.Failure.ReadBack.{text_tokens, zero_error, after_condition, unmarshal-token_reader}
use xmpp.Streams.Failure.Payload.{flat_element, payload_stops}

unfoldable pub all_tokens : List (List Token) → List Token
all_tokens [] = []
all_tokens (r ∷ rs) = r ++ all_tokens rs

abbrev pub stream : XmlStream
stream = record {
  wrap = λ payload start. start_element start ∷ (payload ++ (end_element start.name ∷ []));
  multi_reader = all_tokens;
}

pub stream-WrapLaw : WrapLaw stream
stream-WrapLaw = record { wrap_tokens = λ payload start. refl }

pub stream-MultiLaw : MultiLaw stream
unfolding all_tokens
stream-MultiLaw = record { no_tokens = refl; then_tokens = λ r rs. refl }

abbrev overloaded : Error
overloaded = record {
  err = codes "conflict";
  text = (codes "en", codes "Too many") ∷ ([], codes "!") ∷ [];
  content = [];
  payload = none;
}

differs_from_text : codes "conflict" ≢ codes "text"
differs_from_text e = cc e

unmarshal-token_reader_example :
    unmarshal zero_error (drop 1 (token_reader stream overloaded ++ []))
    ≡ returned (record (after_condition overloaded) { text = overloaded.text }) []
unmarshal-token_reader_example =
    unmarshal-token_reader stream stream-WrapLaw stream-MultiLaw overloaded [] differs_from_text
      refl

abbrev quota : StartElement
quota = record { name = record { space = codes "urn:x"; local = codes "quota" }; attrs = [] }

foreign : quota.name.space ≢ codes "urn:ietf:params:xml:ns:xmpp-streams"
foreign e = cc e

payload_stops_example :
    unmarshal zero_error (
      drop 1 (
        token_reader stream
          (record overloaded { payload = some (flat_element quota (char_data (codes "5") ∷ [])) })
        ++ []))
    ≡ returned
        (after_condition overloaded)
        (text_tokens overloaded.text ++ end_element error_start.name ∷ [])
payload_stops_example =
    payload_stops stream stream-WrapLaw stream-MultiLaw
      (record overloaded { payload = some (flat_element quota (char_data (codes "5") ∷ [])) }) quota
      (char_data (codes "5") ∷ []) [] differs_from_text refl foreign (tt, tt)

-- An address of the sixth version stands in brackets; an error without a condition is any error.
host_in_brackets : (see_other_host_error (λ a. true) (codes "::1")).content ≡ codes "[::1]"
unfolding see_other_host_error
host_in_brackets = refl

any_error : is overloaded (some (with_err [])) ≡ true
unfolding is
any_error = refl

-- A child that is not closed is an error, the end of the input between children is none.
unclosed :
    (unmarshal zero_error (
        start_element (record {
          name = record {
            space = codes "urn:ietf:params:xml:ns:xmpp-streams";
            local = codes "reset";
          };
          attrs = [];
        })
        ∷ [])
      ≡ failed)
    × (unmarshal zero_error [] ≡ returned zero_error [])
unfolding unmarshal read_children read_child text_eq skip_element
unclosed = (refl, refl)
