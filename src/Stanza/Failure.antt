-- ===== src/Stanza/Failure.antt =====
-- stanza/error.go: the tokens of a stanza error.
-- `XmlStream` holds the readers of the xmlstream package: `wrap` and `multi_reader` are its Wrap
-- and MultiReader, on the tokens that a reader returns.
use xmpp.Prelude.{if◌then◌else◌, not, List, [], ◌∷◌, ◌++◌, ◌≡◌, Bytes, codes, is_empty}
use xmpp.Jid.{Jid, string}
use xmpp.Xml.{StartElement, ns_xml, Token, start_element, end_element, char_data}

pub record XmlStream : Type 0 where
  pub wrap : List Token → StartElement → List Token
  pub multi_reader : List (List Token) → List Token

-- What xmlstream says of Wrap: the payload stands between the start element and its end.
pub record WrapLaw (x : XmlStream) : Type 0 where
  pub wrap_tokens :
      (payload : List Token) (start : StartElement)
      → x.wrap payload start ≡ start_element start ∷ (payload ++ (end_element start.name ∷ []))

-- What it says of MultiReader: the readers are read one after the other.
pub record MultiLaw (x : XmlStream) : Type 0 where
  pub no_tokens : x.multi_reader [] ≡ []
  pub then_tokens :
      (r : List Token) (rs : List (List Token)) → x.multi_reader (r ∷ rs) ≡ r ++ x.multi_reader rs

abbrev pub ns_error : Bytes
ns_error = codes "urn:ietf:params:xml:ns:xmpp-stanzas"

abbrev pub undefined_condition : Bytes
undefined_condition = codes "undefined-condition"

-- A Go map of texts is the list of its keys and values in the order of the keys.
pub record StanzaError : Type 0 where
  pub by : Jid
  pub type : Bytes
  pub condition : Bytes
  pub text : List (Bytes × Bytes)

-- The loop over the texts.
unfoldable pub text_tokens : XmlStream → List (Bytes × Bytes) → List (List Token)
text_tokens x [] = []
text_tokens x ((lang, value) ∷ rest) =
    let others = text_tokens x rest in
    if is_empty value
    then others
    else x.wrap (char_data value ∷ []) (record {
      name = record { space = ns_error; local = codes "text" };
      attrs =
          if not (is_empty lang)
          then record { name = record { space = ns_xml; local = codes "lang" }; value = lang } ∷ []
          else [];
    })
      ∷ others

unfoldable pub error_start : StanzaError → StartElement
error_start se = record {
  name = record { space = []; local = codes "error" };
  attrs =
      (if not (is_empty se.type)
        then record { name = record { space = []; local = codes "type" }; value = se.type } ∷ []
        else [])
      ++ (if not (is_empty (string se.by))
          then record { name = record { space = []; local = codes "by" }; value = string se.by }
            ∷ []
          else []);
}

-- `Error.Wrap`.
unfoldable pub error_wrap : XmlStream → StanzaError → List Token → List Token
error_wrap x se payload =
    let condition = if is_empty se.condition then undefined_condition else se.condition in
    x.wrap
      (x.multi_reader (
        x.wrap [] (record { name = record { space = ns_error; local = condition }; attrs = [] })
        ∷ x.multi_reader (text_tokens x se.text)
        ∷ payload
        ∷ []))
      (error_start se)
