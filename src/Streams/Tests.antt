-- ===== src/Streams/Tests.antt =====
-- Runs of versions, headers and restarts.
use xmpp.Prelude.{
  true, false, List, [], ◌∷◌, ◌++◌, ◌≡◌, refl, Bytes, codes, text_eq, All, ok, index_by,
}
use xmpp.Jid.{zero_jid, equal}
use xmpp.Jid.Samples.{ascii}
use xmpp.Xml.{name_eq, Attr, StartElement, Token, start_element, char_data}
use xmpp.Stanza.{ns_client}
use xmpp.Streams.Version.{default_version, parse_version, digits_value, parse_uint8}
use xmpp.Streams.Header.{
  Info, plain_name, set_info, set_infos, from_start_element, is_whitespace, read_start, read_token,
  stream_name, check_info, expect_start, expect_token, expect_from, expect,
}
use xmpp.Streams.Expected.{IsNoStart, IsHeader, expect-IsHeader}
use xmpp.Streams.Restart.{restart_stream, check_initiated, IsSame, IsKnown, restart_keeps}

abbrev unset : Info
unset = record {
  name = plain_name [];
  xmlns = [];
  to = zero_jid;
  from = zero_jid;
  id = [];
  version = record { major = 0; minor = 0 };
  lang = [];
}

abbrev attr : Bytes → Bytes → Attr
attr name value = record { name = plain_name name; value = value }

abbrev header : List Token
header =
    char_data (codes " ")
    ∷ start_element (record {
      name = stream_name;
      attrs =
          attr (codes "xmlns") ns_client
          ∷ attr (codes "id") (codes "x")
          ∷ attr (codes "version") (codes "1.0")
          ∷ [];
    })
    ∷ []

abbrev known : Info
known = record unset {
  name = stream_name;
  xmlns = ns_client;
  id = codes "x";
  version = default_version;
}

test_header : expect ascii (λ ts. true) false false unset header ≡ ok known
unfolding expect expect_from expect_token expect_start from_start_element set_infos set_info
    check_info read_token read_start is_whitespace name_eq text_eq parse_version parse_uint8
    digits_value index_by
test_header = refl

expect-IsHeader_example :
    (before : List Token) × (s : StartElement) × (rest : List Token) × (header
      ≡ before ++ start_element s ∷ rest)
    × All IsNoStart before
    × IsHeader ascii (λ ts. true) false false unset s known
expect-IsHeader_example =
    expect-IsHeader ascii (λ ts. true) false false unset header known test_header

test_restart : restart_stream ascii (λ ts. true) false false false unset header ≡ ok known
unfolding restart_stream check_initiated equal text_eq
test_restart = rw (test_header, restart_stream) refl

restart_keeps_example :
    (false ≡ false → IsSame unset known) × (false ≡ true → IsKnown false unset known)
restart_keeps_example =
    restart_keeps ascii (λ ts. true) false false false unset known header test_restart
