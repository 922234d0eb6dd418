-- ===== src/Streams/Header.antt =====
-- stream/stream.go, and Expect and its reader of internal/stream: the header of a stream. The
-- tokens are
-- those that decl.Skip lets through; `skip` says whether xmlstream.Skip succeeds on the rest.
use xmpp.Prelude.{
  ℕ, ◌+◌, ◌-◌, ◌%◌, ◌^◌, ◌==◌, if◌then◌else◌, Bool, true, not, ◌&&◌, ◌||◌, Option, none, some, List,
  [], ◌∷◌, Bytes, codes, text_eq, is_empty, Result, ok, err,
}
use xmpp.Jid.{Jid, Prep, parse}
use xmpp.Xml.{Name, name_eq, Attr, StartElement, Token, start_element, end_element, char_data, misc}
use xmpp.Stanza.{ns_client, ns_server}
use xmpp.Features.{ns_stream}
use xmpp.Streams.Version.{Version, parse_version}

pub record Info : Type 0 where
  pub name : Name
  pub xmlns : Bytes
  pub to : Jid
  pub from : Jid
  pub id : Bytes
  pub version : Version
  pub lang : Bytes

pub data StreamError : Type 0 where
  improper_addressing : StreamError
  bad_format : StreamError
  invalid_namespace : StreamError
  unsupported_version : StreamError
  unexpected_text : StreamError
  unexpected_restart : StreamError
  unknown_element : StreamError
  remote_error : StreamError
  disallowed : StreamError
  end_of_stream : StreamError
  read_failed : StreamError

abbrev pub plain_name : Bytes → Name
plain_name local = record { space = []; local = local }

module _ (p : Prep) where
  -- An address in an attribute: an empty one changes nothing. Behind an error the whole header is
  -- refused.
  unfoldable pub read_address : Bytes → Jid → Option Jid
  read_address value j =
      if is_empty value then some j else elim (parse p value) [ ok k ↦ some k | err e ↦ none ]

  -- The body of the loop over the attributes.
  unfoldable pub set_info : Attr → Info → Result StreamError Info
  set_info a i =
      if name_eq a.name (plain_name (codes "xmlns"))
      then ok (record i { xmlns = a.value })
      else if name_eq a.name (plain_name (codes "to"))
      then elim (read_address a.value i.to) [
        | some j ↦ ok (record i { to = j })
        | none ↦ err improper_addressing
      ]
      else if name_eq a.name (plain_name (codes "from"))
      then elim (read_address a.value i.from) [
        | some j ↦ ok (record i { from = j })
        | none ↦ err improper_addressing
      ]
      else if name_eq a.name (plain_name (codes "id"))
      then ok (record i { id = a.value })
      else if name_eq a.name (plain_name (codes "version"))
      then elim (parse_version a.value) [
        | some v ↦ ok (record i { version = v })
        | none ↦ err bad_format
      ]
      else if name_eq a.name (record { space = codes "xml"; local = codes "lang" })
      then ok (record i { lang = a.value })
      else ok i

  unfoldable pub set_infos : List Attr → Info → Result StreamError Info
  set_infos [] i = ok i
  set_infos (a ∷ attrs) i = elim (set_info a i) [ ok i' ↦ set_infos attrs i' | err e ↦ err e ]

  unfoldable pub from_start_element : StartElement → Info → Result StreamError Info
  from_start_element s i = set_infos s.attrs (record i { name = s.name })

-- The reader of stream-level tokens; the depth is a uint64.
pub record Reader : Type 0 where
  pub depth : ℕ
  pub negotiating : Bool
  pub ws : Bool

abbrev pub ws_namespace : Bytes
ws_namespace = codes "urn:ietf:params:xml:ns:xmpp-framing"

unfoldable pub is_whitespace : Bytes → Bool
is_whitespace [] = true
is_whitespace (c ∷ s) = (c == 32 || (c == 9 || (c == 13 || c == 10))) && is_whitespace s

unfoldable pub read_start : Reader → StartElement → Result StreamError Token
read_start r s =
    if r.ws && (text_eq s.name.space ws_namespace && not r.negotiating)
    then err unexpected_restart
    else if not (text_eq s.name.space ns_stream)
    then ok (start_element s)
    else if text_eq s.name.local (codes "error")
    then err remote_error
    else if text_eq s.name.local (codes "stream")
    then (if r.negotiating then ok (start_element s) else err unexpected_restart)
    else err unknown_element

unfoldable pub read_token : Reader → Token → Result StreamError Token × Reader
read_token r (char_data s) =
    (if r.depth == 0 && not (is_whitespace s) then err unexpected_text else ok (char_data s), r)
read_token r (start_element s) = (read_start r s, record r { depth = (r.depth + 1) % 2 ^ 64 })
read_token r (end_element n) = (
  if not (text_eq n.space ns_stream)
      then ok (end_element n)
      else if text_eq n.local (codes "stream")
      then err end_of_stream
      else err bad_format,
  record r { depth = (r.depth + (2 ^ 64 - 1)) % 2 ^ 64 },
)
read_token r misc = (err disallowed, r)

abbrev pub stream_name : Name
stream_name = record { space = ns_stream; local = codes "stream" }

abbrev pub open_name : Name
open_name = record { space = ws_namespace; local = codes "open" }

module _ (p : Prep) (skip : List Token → Bool) (recv ws : Bool) where
  -- What Expect asks of the data of a header.
  unfoldable pub check_info : Info → Result StreamError Info
  check_info i =
      if not (i.version.major == 1 && i.version.minor == 0)
      then err unsupported_version
      else if not ws && (not (text_eq i.xmlns ns_client) && not (text_eq i.xmlns ns_server))
      then err invalid_namespace
      else if not recv && is_empty i.id
      then err bad_format
      else ok i

  unfoldable pub expect_start : Info → StartElement → List Token → Result StreamError Info
  expect_start i s rest =
      if name_eq s.name (record { space = ns_stream; local = codes "error" })
      then err remote_error
      else if not ws && not (name_eq s.name stream_name)
      then err invalid_namespace
      else if ws && not (name_eq s.name open_name)
      then err invalid_namespace
      else if ws && not (skip rest)
      then err read_failed
      else elim (from_start_element p s i) [ ok i' ↦ check_info i' | err e ↦ err e ]

  -- The loop: a token that is no start element is passed over.
  unfoldable pub expect_token :
      Info → Token → List Token → Result StreamError Info → Result StreamError Info
  expect_token i (start_element s) rest next = expect_start i s rest
  expect_token i _ rest next = next

  unfoldable pub expect_from : Info → Reader → List Token → Result StreamError Info
  expect_from i r [] = err read_failed
  expect_from i r (t ∷ rest) =
      let next = expect_from i (read_token r t).1 rest in
      elim (read_token r t).0 [ err e ↦ err e | ok t' ↦ expect_token i t' rest next ]

  unfoldable pub expect : Info → List Token → Result StreamError Info
  expect i tokens = expect_from i (record { depth = 0; negotiating = true; ws = ws }) tokens
