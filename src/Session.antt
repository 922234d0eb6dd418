-- ===== src/Session.antt =====
-- session.go: what a session makes of the tokens that are written to it and read from it.
pub mod Encoder
pub mod Response
pub mod Output
pub mod Input
pub mod Tests
use xmpp.Prelude.{Bool, ◌&&◌, ◌||◌, codes, text_eq, is_empty}
use xmpp.Xml.{Name}
use xmpp.Stanza.{ns_client, ns_server}

-- `isIQ`.
unfoldable pub is_iq : Name → Bool
is_iq name =
    text_eq name.local (codes "iq")
    && (text_eq name.space ns_client || text_eq name.space ns_server)

-- `isIQEmptySpace`.
unfoldable pub is_iq_empty_space : Name → Bool
is_iq_empty_space name =
    text_eq name.local (codes "iq")
    && (is_empty name.space || (text_eq name.space ns_client || text_eq name.space ns_server))

-- `isStanzaEmptySpace`.
unfoldable pub is_stanza_empty_space : Name → Bool
is_stanza_empty_space name =
    (text_eq name.local (codes "iq")
      || (text_eq name.local (codes "message") || text_eq name.local (codes "presence")))
    && (text_eq name.space ns_client || (text_eq name.space ns_server || is_empty name.space))
