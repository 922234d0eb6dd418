-- ===== src/Xml/Decode.antt =====
-- What the library uses of xml.Decoder: Skip, and DecodeElement into a struct whose one field is
-- the element's character data. Both are called behind a start element, and read until its end
-- element; `none` is an error: the tokens end before.
use xmpp.Prelude.{
  if◌then◌else◌, ◌&&◌, text_eq, codes, zero, suc, ℕ, Option, none, some, List, [], ◌∷◌, ◌++◌, ◌≡◌,
  refl, ap, ◌∙◌, append_assoc, append-nil, Bytes, length, ◌≤◌, arith,
}
use xmpp.Xml.{
  Attr, ns_xml, Token, start_element, end_element, char_data, misc, Content, done, text, skip,
  element, tokens,
}

-- `d.Skip()`, with the number of elements that were opened since.
unfoldable pub skip_element : ℕ → List Token → Option (List Token)
skip_element depth [] = none
skip_element depth (start_element e ∷ ts) = skip_element (suc depth) ts
skip_element zero (end_element n ∷ ts) = some ts
skip_element (suc depth) (end_element n ∷ ts) = skip_element depth ts
skip_element depth (char_data s ∷ ts) = skip_element depth ts
skip_element depth (misc ∷ ts) = skip_element depth ts

-- `d.DecodeElement`: the text of the elements inside does not count.
unfoldable pub decode_text : ℕ → Bytes → List Token → Option (Bytes × List Token)
decode_text depth read [] = none
decode_text depth read (start_element e ∷ ts) = decode_text (suc depth) read ts
decode_text zero read (end_element n ∷ ts) = some (read, ts)
decode_text (suc depth) read (end_element n ∷ ts) = decode_text depth read ts
decode_text zero read (char_data s ∷ ts) = decode_text zero (read ++ s) ts
decode_text (suc depth) read (char_data s ∷ ts) = decode_text (suc depth) read ts
decode_text depth read (misc ∷ ts) = decode_text depth read ts

-- The attribute that a struct with a field for `xml:lang` takes its language from: of several, the
-- last.
unfoldable pub lang_of : List Attr → Bytes → Bytes
lang_of [] lang = lang
lang_of (a ∷ attrs) lang =
    lang_of attrs
      (if text_eq a.name.space ns_xml && text_eq a.name.local (codes "lang") then a.value else lang)

-- The attribute that a struct takes a field from.
unfoldable pub last_attr : Bytes → List Attr → Bytes → Bytes
last_attr local [] v = v
last_attr local (a ∷ attrs) v =
    last_attr local attrs (if text_eq a.name.local local then a.value else v)

-- The text of the element whose content this is.
abbrev pub own_text : Content → Bytes
own_text done = []
own_text (text s r) = s ++ own_text r
own_text (skip r) = own_text r
own_text (element s c r) = own_text r

skip_element_past :
    (c : Content) (depth : ℕ) (ts : List Token)
    → skip_element depth (tokens c ++ ts) ≡ skip_element depth ts
unfolding skip_element tokens
skip_element_past done depth ts = refl
skip_element_past (text s r) depth ts = skip_element_past r depth ts
skip_element_past (skip r) depth ts = skip_element_past r depth ts
skip_element_past (element s c r) depth ts =
    rw (append_assoc (tokens c) (end_element s.name ∷ tokens r) ts) (
      skip_element_past c (suc depth) (end_element s.name ∷ (tokens r ++ ts))
      ∙ skip_element_past r depth ts)

pub skip_element-tokens :
    (c : Content) (n : _) (ts : List Token)
    → skip_element 0 (tokens c ++ end_element n ∷ ts) ≡ some ts
unfolding skip_element
skip_element-tokens c n ts = skip_element_past c 0 (end_element n ∷ ts)

decode_text_past :
    (c : Content) (depth : ℕ) (read : Bytes) (ts : List Token)
    → decode_text (suc depth) read (tokens c ++ ts) ≡ decode_text (suc depth) read ts
unfolding decode_text tokens
decode_text_past done depth read ts = refl
decode_text_past (text s r) depth read ts = decode_text_past r depth read ts
decode_text_past (skip r) depth read ts = decode_text_past r depth read ts
decode_text_past (element s c r) depth read ts =
    rw (append_assoc (tokens c) (end_element s.name ∷ tokens r) ts) (
      decode_text_past c (suc depth) read (end_element s.name ∷ (tokens r ++ ts))
      ∙ decode_text_past r depth read ts)

decode_text_inside :
    (c : Content) (read : Bytes) (ts : List Token)
    → decode_text 0 read (tokens c ++ ts) ≡ decode_text 0 (read ++ own_text c) ts
unfolding decode_text tokens
decode_text_inside done read ts = rw (append-nil read) refl
decode_text_inside (text s r) read ts =
    decode_text_inside r (read ++ s) ts
    ∙ ap (λ t. decode_text 0 t ts) (append_assoc read s (own_text r))
decode_text_inside (skip r) read ts = decode_text_inside r read ts
decode_text_inside (element s c r) read ts =
    rw (append_assoc (tokens c) (end_element s.name ∷ tokens r) ts) (
      decode_text_past c 0 read (end_element s.name ∷ (tokens r ++ ts))
      ∙ decode_text_inside r read ts)

pub decode_text-tokens :
    (c : Content) (n : _) (ts : List Token)
    → decode_text 0 [] (tokens c ++ end_element n ∷ ts) ≡ some (own_text c, ts)
unfolding decode_text
decode_text-tokens c n ts = decode_text_inside c [] (end_element n ∷ ts)

-- Both leave less than they were given.
pub skip_element_shrinks :
    (depth : ℕ) (ts : List Token) {rest : List Token}
    → skip_element depth ts ≡ some rest
    → suc (length rest) ≤ length ts
unfolding skip_element
skip_element_shrinks depth [] e = absurd (cc e)
skip_element_shrinks depth (start_element s ∷ ts) e =
    omega (arith, skip_element_shrinks (suc depth) ts e)
skip_element_shrinks zero (end_element n ∷ ts) {rest} e =
    let same : ts ≡ rest = cc e in omega (arith, ap length same)
skip_element_shrinks (suc depth) (end_element n ∷ ts) e =
    omega (arith, skip_element_shrinks depth ts e)
skip_element_shrinks depth (char_data s ∷ ts) e = omega (arith, skip_element_shrinks depth ts e)
skip_element_shrinks depth (misc ∷ ts) e = omega (arith, skip_element_shrinks depth ts e)

pub decode_text_shrinks :
    (depth : ℕ) (read : Bytes) (ts : List Token) {t : Bytes} {rest : List Token}
    → decode_text depth read ts ≡ some (t, rest)
    → suc (length rest) ≤ length ts
unfolding decode_text
decode_text_shrinks depth read [] e = absurd (cc e)
decode_text_shrinks depth read (start_element s ∷ ts) e =
    omega (arith, decode_text_shrinks (suc depth) read ts e)
decode_text_shrinks zero read (end_element n ∷ ts) {rest = rest} e =
    let same : ts ≡ rest = ground arith in omega (arith, ap length same)
decode_text_shrinks (suc depth) read (end_element n ∷ ts) e =
    omega (arith, decode_text_shrinks depth read ts e)
decode_text_shrinks zero read (char_data s ∷ ts) e =
    omega (arith, decode_text_shrinks zero (read ++ s) ts e)
decode_text_shrinks (suc depth) read (char_data s ∷ ts) e =
    omega (arith, decode_text_shrinks (suc depth) read ts e)
decode_text_shrinks depth read (misc ∷ ts) e = omega (arith, decode_text_shrinks depth read ts e)
