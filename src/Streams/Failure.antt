-- ===== src/Streams/Failure.antt =====
-- stream/error.go: stream errors, written and read. A list of tokens is what the decoder returns,
-- at its end where it returns io.EOF.
pub mod ReadBack
pub mod Payload
pub mod Defined
pub mod Tests
use xmpp.Prelude.{
  ℕ, zero, suc, if◌then◌else◌, Bool, true, false, not, ◌&&◌, Option, none, some, map, List, [], ◌∷◌,
  ◌++◌, Bytes, codes, text_eq, is_empty, length,
}
use xmpp.Xml.{Name, Attr, StartElement, ns_xml, Token, start_element, end_element, char_data, misc}
use xmpp.Xml.Decode.{skip_element, decode_text, lang_of}
use xmpp.Stanza.Failure.{XmlStream}
use xmpp.Features.{ns_stream}

abbrev pub ns_error : Bytes
ns_error = codes "urn:ietf:params:xml:ns:xmpp-streams"

-- `Error`; a text is its language and its value, the payload the tokens of its reader.
pub record Error : Type 0 where
  pub err : Bytes
  pub text : List (Bytes × Bytes)
  pub content : Bytes
  pub payload : Option (List Token)

abbrev pub with_err : Bytes → Error
with_err e = record { err = e; text = []; content = []; payload = none }

-- The errors that the package defines.
abbrev pub first_errors : List Bytes
first_errors =
    codes "bad-format"
    ∷ codes "bad-namespace-prefix"
    ∷ codes "conflict"
    ∷ codes "connection-timeout"
    ∷ codes "host-gone"
    ∷ codes "host-unknown"
    ∷ codes "improper-addressing"
    ∷ codes "internal-server-error"
    ∷ codes "invalid-from"
    ∷ codes "invalid-namespace"
    ∷ codes "invalid-xml"
    ∷ codes "not-authorized"
    ∷ codes "not-well-formed"
    ∷ []

abbrev pub other_errors : List Bytes
other_errors =
    codes "policy-violation"
    ∷ codes "remote-connection-failed"
    ∷ codes "reset"
    ∷ codes "resource-constraint"
    ∷ codes "restricted-xml"
    ∷ codes "see-other-host"
    ∷ codes "system-shutdown"
    ∷ codes "undefined-condition"
    ∷ codes "unsupported-encoding"
    ∷ codes "unsupported-feature"
    ∷ codes "unsupported-stanza-type"
    ∷ codes "unsupported-version"
    ∷ []

unfoldable pub defined_errors : List Error
defined_errors = map with_err (first_errors ++ other_errors)

-- `SeeOtherHostError` for the text of an address. `ipv6` says of a text that net.ParseIP returns an
-- address of 16 bytes that is none of 4.
unfoldable pub see_other_host_error : (Bytes → Bool) → Bytes → Error
see_other_host_error ipv6 addr =
    let cdata = if ipv6 addr then codes "[" ++ (addr ++ codes "]") else addr in
    record { err = codes "see-other-host"; text = []; content = cdata; payload = none }

-- `Is`, where `none` is an error of another type.
unfoldable pub is : Error → Option Error → Bool
is s none = false
is s (some se) = if is_empty se.err then true else text_eq se.err s.err

-- `ApplicationError`.
unfoldable pub application_error : Error → List Token → Error
application_error s r = record s { payload = some r }

abbrev pub condition_start : Bytes → StartElement
condition_start e = record { name = record { space = ns_error; local = e }; attrs = [] }

abbrev pub text_start : Bytes → StartElement
text_start lang = record {
  name = record { space = ns_error; local = codes "text" };
  attrs =
      if not (is_empty lang)
      then record { name = record { space = ns_xml; local = codes "lang" }; value = lang } ∷ []
      else [];
}

-- The loop over the texts.
unfoldable pub add_texts : XmlStream → List Token → List (Bytes × Bytes) → List Token
add_texts x inner [] = inner
add_texts x inner ((lang, value) ∷ txts) =
    add_texts x (x.multi_reader (inner ∷ x.wrap (char_data value ∷ []) (text_start lang) ∷ [])) txts

unfoldable pub add_payload : XmlStream → List Token → Option (List Token) → List Token
add_payload x inner none = inner
add_payload x inner (some p) = x.multi_reader (inner ∷ p ∷ [])

abbrev pub error_start : StartElement
error_start = record { name = record { space = ns_stream; local = codes "error" }; attrs = [] }

-- `TokenReader`.
unfoldable pub token_reader : XmlStream → Error → List Token
token_reader x s =
    let inner = x.wrap (char_data s.content ∷ []) (condition_start s.err) in
    x.wrap (add_texts x (add_payload x inner s.payload) s.text) error_start

-- What reading comes to: the error that was read and the tokens that are left, or an error.
pub data Reading : Type 0 where
  returned : Error → List Token → Reading
  failed : Reading
  out_of_fuel : Reading

-- The `switch` on the start element of a child; `next` is the next round of the loop.
unfoldable pub read_child :
    (Error → List Token → Reading) → Error → StartElement → List Token → Reading
read_child next s start ts =
    if text_eq start.name.local (codes "see-other-host") && text_eq start.name.space ns_error
    then elim (decode_text 0 [] ts) [
      | none ↦ failed
      | some (t, rest) ↦ next (record s { err = start.name.local; content = t }) rest
    ]
    else if text_eq start.name.local (codes "text") && text_eq start.name.space ns_error
    then elim (decode_text 0 [] ts) [
      | none ↦ failed
      | some (t, rest) ↦ next (record s { text = s.text ++ (lang_of start.attrs [], t) ∷ [] }) rest
    ]
    else if text_eq start.name.space ns_error
    then elim (skip_element 0 ts) [
      | none ↦ failed
      | some rest ↦ next (record s { err = start.name.local }) rest
    ]
    else next s ts

-- The loop of `UnmarshalXML`.
unfoldable pub read_children : ℕ → Error → List Token → Reading
read_children zero s ts = out_of_fuel
read_children (suc fuel) s [] = returned s []
read_children (suc fuel) s (start_element start ∷ ts) =
    read_child (λ s' rest. read_children fuel s' rest) s start ts
read_children (suc fuel) s (end_element n ∷ ts) = returned s ts
read_children (suc fuel) s (char_data t ∷ ts) = read_children fuel s ts
read_children (suc fuel) s (misc ∷ ts) = read_children fuel s ts

-- `UnmarshalXML`: a round of the loop that goes on has read a token.
unfoldable pub unmarshal : Error → List Token → Reading
unmarshal s ts = read_children (suc (length ts)) s ts
