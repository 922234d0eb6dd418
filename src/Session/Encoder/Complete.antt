-- ===== src/Session/Encoder/Complete.antt =====
-- What the start element of a stanza has when it is sent.
use xmpp.Prelude.{
  if◌then◌else◌, true, false, not, ◌&&◌, ◌||◌, List, [], ◌∷◌, ◌++◌, append-nil, ◌≡◌, inl, inr, refl,
  ◌∙◌, Bytes, codes, text_eq, is_empty, All-append, pos, arith, Bool-cases,
}
use xmpp.Jid.{string}
use xmpp.Xml.{Attr, StartElement, start_element}
use xmpp.Session.{is_stanza_empty_space}
use xmpp.Session.Encoder.{
  StanzaEncoder, plain_attr, complete_attrs, complete_name, complete_stanza, drop_xmlns, strip,
  encode_token,
}
use xmpp.Session.Encoder.Attrs.{
  has, is_blank, others, keep, scan_attrs-keep, has-append, has-keep, has-drop_xmlns, Sound,
  keep-Sound, drop_xmlns-Sound, others-append, others-keep, others-drop_xmlns,
}

-- How a stanza goes out: with its own name in its own namespace or that of the stream, with an
-- identifier, and with a sender if it had one or the encoder knows one; no identifier and no sender
-- is empty, and all other attributes but `xmlns` are there in their order. As in the code, only the
-- local names of attributes count: `xml:id` is taken for an identifier.
pub record IsComplete (se : StanzaEncoder) (tok out : StartElement) : Type 0 where
  pub name_there : out.name ≡ complete_name se tok.name
  pub id_there : has (codes "id") out.attrs ≡ true
  pub from_there :
      has (codes "from") out.attrs
      ≡ (has (codes "from") tok.attrs || not (is_empty (string se.from)))
  pub none_blank : Sound out.attrs
  pub rest_there : others out.attrs ≡ others tok.attrs

complete_attrs-keep :
    (se : StanzaEncoder) (random_id : Bytes) (attrs : List Attr)
    → complete_attrs se random_id attrs
      ≡ (keep attrs
          ++ (if not (is_empty (string se.from)) && not (has (codes "from") attrs)
              then plain_attr (codes "from") (string se.from) ∷ []
              else []))
        ++ (if not (has (codes "id") attrs) then plain_attr (codes "id") random_id ∷ [] else [])
unfolding complete_attrs
complete_attrs-keep se random_id attrs = rw (scan_attrs-keep attrs false false) refl

module _ (se : StanzaEncoder) (random_id : Bytes) (attrs : List Attr) where
  abbrev from_attr : List Attr
  from_attr =
      if not (is_empty (string se.from)) && not (has (codes "from") attrs)
      then plain_attr (codes "from") (string se.from) ∷ []
      else []

  abbrev id_attr : List Attr
  id_attr = if not (has (codes "id") attrs) then plain_attr (codes "id") random_id ∷ [] else []

  has_completed :
      (local : Bytes)
      → has local (complete_attrs se random_id attrs)
        ≡ ((has local attrs || has local from_attr) || has local id_attr)
  has_completed local =
      rw
        (
          complete_attrs-keep se random_id attrs,
          has-append local (keep attrs ++ from_attr) id_attr,
          has-append local (keep attrs) from_attr,
          has-keep local attrs,
        )
        refl

  completed_id :
      is_empty random_id ≡ false → has (codes "id") (complete_attrs se random_id attrs) ≡ true
  unfolding has text_eq
  completed_id e = has_completed (codes "id") ∙ ground arith

  completed_from :
      has (codes "from") (complete_attrs se random_id attrs)
      ≡ (has (codes "from") attrs || not (is_empty (string se.from)))
  unfolding has text_eq
  completed_from = has_completed (codes "from") ∙ ground arith

  from_Sound : Sound from_attr
  unfolding is_blank text_eq
  from_Sound =
      elim (Bool-cases (not (is_empty (string se.from)) && not (has (codes "from") attrs))) [
        | inl h ↦ rw h (ground arith, tt)
        | inr h ↦ rw h tt
      ]

  id_Sound : is_empty random_id ≡ false → Sound id_attr
  unfolding is_blank text_eq
  id_Sound e = elim (Bool-cases (not (has (codes "id") attrs))) [
    | inl h ↦ rw h (e, tt)
    | inr h ↦ rw h tt
  ]

  completed_Sound : is_empty random_id ≡ false → Sound (complete_attrs se random_id attrs)
  unfolding is_blank text_eq
  completed_Sound e = rw (complete_attrs-keep se random_id attrs) (
      All-append (λ a. is_blank a ≡ false) (keep attrs ++ from_attr) id_attr
        (All-append (λ a. is_blank a ≡ false) (keep attrs) from_attr (keep-Sound attrs) from_Sound)
        (id_Sound e))

  others_from : others from_attr ≡ []
  unfolding others text_eq
  others_from =
      elim (Bool-cases (not (is_empty (string se.from)) && not (has (codes "from") attrs))) [
        | inl h ↦ rw h refl
        | inr h ↦ rw h refl
      ]

  others_id : others id_attr ≡ []
  unfolding others text_eq
  others_id = elim (Bool-cases (not (has (codes "id") attrs))) [
    | inl h ↦ rw h refl
    | inr h ↦ rw h refl
  ]

  completed_others : others (complete_attrs se random_id attrs) ≡ others attrs
  completed_others =
      rw
        (
          complete_attrs-keep se random_id attrs,
          others-append (keep attrs ++ from_attr) id_attr,
          others-append (keep attrs) from_attr,
          others-keep attrs,
          others_from,
          others_id,
        )
        (append-nil (others attrs ++ []) ∙ append-nil (others attrs))

-- The start element of a stanza that is written at depth 0, with a non-empty random identifier at
-- hand, goes out complete, and the encoder is at depth 1 behind it.
pub encode_token-IsComplete :
    (se : StanzaEncoder) (random_id : Bytes) (tok : StartElement)
    → se.depth ≡ pos 0
    → is_stanza_empty_space tok.name ≡ true
    → is_empty random_id ≡ false
    → (out : StartElement) × (encode_token se random_id (start_element tok)
        ≡ (start_element out, record se { depth = pos 1 }))
      × IsComplete se tok out
unfolding encode_token strip complete_stanza
encode_token-IsComplete se random_id tok top stanza there =
    let attrs = complete_attrs se random_id tok.attrs in
    let name = complete_name se tok.name in
    (
      record { name = name; attrs = drop_xmlns name attrs },
      rw (top, stanza) refl,
      record {
        name_there = refl;
        id_there =
            has-drop_xmlns (codes "id") name attrs (unfold text_eq in refl)
            ∙ completed_id se random_id tok.attrs there;
        from_there =
            has-drop_xmlns (codes "from") name attrs (unfold text_eq in refl)
            ∙ completed_from se random_id tok.attrs;
        none_blank = drop_xmlns-Sound name attrs (completed_Sound se random_id tok.attrs there);
        rest_there = others-drop_xmlns name attrs ∙ completed_others se random_id tok.attrs;
      },
    )
