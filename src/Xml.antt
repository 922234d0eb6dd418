-- ===== src/Xml.antt =====
-- The names, attributes, start elements and tokens of encoding/xml that the library uses.
pub mod Decode
use xmpp.Prelude.{
  Bool, true, ◌&&◌, List, [], ◌∷◌, ◌++◌, Bytes, codes, text_eq, text_eq_iff, ◌≡◌, ◌↔◌, arith,
}

pub record Name : Type 0 where
  pub space : Bytes
  pub local : Bytes

pub record Attr : Type 0 where
  pub name : Name
  pub value : Bytes

pub record StartElement : Type 0 where
  pub name : Name
  pub attrs : List Attr

-- xml.Token: comments, directives and processing instructions are all `misc`.
pub data Token : Type 0 where
  start_element : StartElement → Token
  end_element : Name → Token
  char_data : Bytes → Token
  misc : Token

-- Well-formed content: elements, each with its content, and other tokens between them.
pub data Content : Type 0 where
  done : Content
  text : Bytes → Content → Content
  skip : Content → Content
  element : StartElement → Content → Content → Content

unfoldable pub tokens : Content → List Token
tokens done = []
tokens (text s r) = char_data s ∷ tokens r
tokens (skip r) = misc ∷ tokens r
tokens (element s c r) = start_element s ∷ (tokens c ++ (end_element s.name ∷ tokens r))

-- `a == b` on names.
unfoldable pub name_eq : Name → Name → Bool
name_eq a b = text_eq a.space b.space && text_eq a.local b.local

pub name_eq_iff : (a b : Name) → (name_eq a b ≡ true) ↔ (a ≡ b)
unfolding name_eq
name_eq_iff a b = (
  λ h. ground (arith, text_eq_iff a.space b.space, text_eq_iff a.local b.local),
  λ e. ground (arith, text_eq_iff a.space b.space, text_eq_iff a.local b.local),
)

-- The namespace of `xml:lang`.
abbrev pub ns_xml : Bytes
ns_xml = codes "http://www.w3.org/XML/1998/namespace"
