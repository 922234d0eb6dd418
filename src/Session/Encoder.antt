-- ===== src/Session/Encoder.antt =====
-- session.go, stanzaEncoder: what is written is completed on its way out.
-- The slices of attributes are values here: that the code reuses the array of the caller's slice is
-- not modelled. A random identifier is an argument, one for each token.
pub mod Attrs
pub mod Complete
pub mod Stream
use xmpp.Prelude.{
  ℕ, suc, if◌then◌else◌, Bool, true, false, not, ◌&&◌, ◌||◌, List, [], ◌∷◌, ◌++◌, Bytes, codes,
  text_eq, is_empty, ℤ, increase, decrease, is_one,
}
use xmpp.Jid.{Jid, string}
use xmpp.Xml.{Name, Attr, StartElement, Token, start_element, end_element, char_data, misc}
use xmpp.Session.{is_stanza_empty_space}

pub record StanzaEncoder : Type 0 where
  pub depth : ℤ
  pub from : Jid
  pub ns : Bytes

abbrev pub is_named : Bytes → Attr → Bool
is_named local a = text_eq a.name.local local

-- The loop over the attributes of a stanza: those that are kept, and whether an identifier and a
-- sender were found.
unfoldable pub scan_attrs : List Attr → Bool → Bool → List Attr × Bool × Bool
scan_attrs [] found_id found_from = ([], found_id, found_from)
scan_attrs (a ∷ attrs) found_id found_from =
    let is_id = is_named (codes "id") a in
    let is_from = is_named (codes "from") a in
    let there = not (is_empty a.value) in
    let (kept, i, f) =
      scan_attrs attrs (found_id || (is_id && there)) (found_from || (is_from && there)) in
    (if (is_id || is_from) && not there then kept else a ∷ kept, i, f)

abbrev pub plain_attr : Bytes → Bytes → Attr
plain_attr local value = record { name = record { space = []; local = local }; value = value }

-- The attributes that a stanza is sent with.
unfoldable pub complete_attrs : StanzaEncoder → Bytes → List Attr → List Attr
complete_attrs se random_id attrs =
    let (kept, found_id, found_from) = scan_attrs attrs false false in
    let f = string se.from in
    let with_from =
      kept
      ++ (if not (is_empty f) && not found_from then plain_attr (codes "from") f ∷ [] else []) in
    with_from ++ (if not found_id then plain_attr (codes "id") random_id ∷ [] else [])

-- An empty namespace is replaced by that of the stream.
unfoldable pub complete_name : StanzaEncoder → Name → Name
complete_name se name = if is_empty name.space then record name { space = se.ns } else name

unfoldable pub complete_stanza : StanzaEncoder → Bytes → StartElement → StartElement
complete_stanza se random_id tok = record {
  name = complete_name se tok.name;
  attrs = complete_attrs se random_id tok.attrs;
}

-- The loop that drops the attributes `xmlns`.
unfoldable pub drop_xmlns : Name → List Attr → List Attr
drop_xmlns name [] = []
drop_xmlns name (a ∷ attrs) =
    let rest = drop_xmlns name attrs in
    if is_named (codes "xmlns") a && not (is_empty name.space) then rest else a ∷ rest

unfoldable pub strip : StartElement → StartElement
strip tok = record tok { attrs = drop_xmlns tok.name tok.attrs }

-- `EncodeToken`: the token that is passed on, and the encoder behind it.
unfoldable pub encode_token : StanzaEncoder → Bytes → Token → Token × StanzaEncoder
encode_token se random_id (start_element tok) =
    let depth = increase se.depth in
    (
      start_element (
          strip (
            if is_one depth && is_stanza_empty_space tok.name
            then complete_stanza se random_id tok
            else tok)),
      record se { depth = depth },
    )
encode_token se random_id (end_element name) = (
  end_element (
      if is_one se.depth && (is_empty name.space && is_stanza_empty_space name)
      then record name { space = se.ns }
      else name),
  record se { depth = decrease se.depth },
)
encode_token se random_id t = (t, se)

-- A sequence of calls; `random_id n` is what the n-th of them draws.
unfoldable pub encode_all :
    StanzaEncoder → (ℕ → Bytes) → ℕ → List Token → List Token × StanzaEncoder
encode_all se random_id n [] = ([], se)
encode_all se random_id n (t ∷ ts) =
    let (t', se') = encode_token se (random_id n) t in
    let (ts', se'') = encode_all se' random_id (suc n) ts in (t' ∷ ts', se'')
