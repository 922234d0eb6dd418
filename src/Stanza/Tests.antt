-- ===== src/Stanza/Tests.antt =====
-- Runs of the stanza code, and its theorems at concrete stanzas.
use xmpp.Prelude.{true, none, [], ◌≡◌, refl, inl, inr, Bytes, codes, text_eq}
use xmpp.Jid.{zero_jid}
use xmpp.Jid.Samples.{ascii, juliet, juliet-IsValid, juliet_read_back}
use xmpp.Xml.{Name}
use xmpp.Stanza.{
  Stanza, is, new_iq, new_message, new_presence, message_type, iq_start, message_start,
  presence_start, ns_client,
}
use xmpp.Stanza.Read.{IsAddress}
use xmpp.Stanza.RoundTrip.{starts_read_back}

abbrev ping : Stanza
ping = record {
  xml_name = record { space = ns_client; local = [] };
  id = codes "a1";
  to = juliet;
  from = zero_jid;
  lang = codes "en";
  type = codes "get";
}

abbrev as_name : Bytes → Name
as_name local = record { space = ns_client; local = local }

juliet-IsAddress : IsAddress ascii juliet
juliet-IsAddress = inr (juliet-IsValid, juliet_read_back)

zero-IsAddress : IsAddress ascii zero_jid
zero-IsAddress = inl refl

starts_read_back_example :
    (new_iq ascii (iq_start ping) ≡ (record ping { xml_name = as_name (codes "iq") }, none))
    × (new_message ascii (message_start ping) ≡ (
      record ping { xml_name = as_name (codes "message"); type = message_type (codes "get") },
      none,
    ))
    × (new_presence ascii (presence_start ping)
        ≡ (record ping { xml_name = as_name (codes "presence") }, none))
starts_read_back_example = starts_read_back ascii ping juliet-IsAddress zero-IsAddress

is_iq : is (as_name (codes "iq")) ns_client ≡ true
unfolding is text_eq
is_iq = refl
