-- ===== src/Streams/Failure/ReadBack.antt =====
-- What UnmarshalXML of stream/error.go makes of the tokens of TokenReader.
use xmpp.Prelude.{
  ℕ, zero, suc, if◌then◌else◌, false, ◌&&◌, Option, none, some, List, [], ◌∷◌, ◌++◌, ◌≡◌, ◌≢◌, refl,
  sym, ap, ◌∙◌, Bytes, codes, text_eq, text_eq_iff, length, length-append, drop, ◌≤◌, arith,
  append_assoc, append-nil, if-cases, Bool-cases, Option-cases, inl, inr,
}
use xmpp.Xml.{Name, StartElement, Token, start_element, end_element, char_data, misc}
use xmpp.Xml.Decode.{lang_of, skip_element, decode_text, skip_element_shrinks, decode_text_shrinks}
use xmpp.Stanza.Failure.{XmlStream, WrapLaw, MultiLaw}
use xmpp.Streams.Failure.{
  ns_error, Error, condition_start, text_start, add_texts, add_payload, error_start, token_reader,
  Reading, returned, out_of_fuel, read_child, read_children, unmarshal,
}

-- More fuel than tokens is enough: `next` need not run out on what is shorter.
module _ (next : Error → List Token → Reading) where
  read_child_ends :
      (s : Error) (start : StartElement) (ts : List Token)
      → ((s' : Error) (rest : List Token) → length rest ≤ length ts → next s' rest ≢ out_of_fuel)
      → read_child next s start ts ≢ out_of_fuel
  unfolding read_child
  read_child_ends s start ts h =
      if-cases Ends
        (text_eq start.name.local (codes "see-other-host") && text_eq start.name.space ns_error)
        (λ _. elim (Option-cases (decode_text 0 [] ts)) [
          | inl e ↦ rw (e, Ends) (λ q. cc q)
          | inr ((t, rest), e) ↦
              rw (e, Ends) (h _ rest (omega (arith, decode_text_shrinks 0 [] ts e)))
        ])
        (λ _.
          if-cases Ends
            (text_eq start.name.local (codes "text") && text_eq start.name.space ns_error)
            (λ _. elim (Option-cases (decode_text 0 [] ts)) [
              | inl e ↦ rw (e, Ends) (λ q. cc q)
              | inr ((t, rest), e) ↦
                  rw (e, Ends) (h _ rest (omega (arith, decode_text_shrinks 0 [] ts e)))
            ])
            (λ _.
              if-cases Ends (text_eq start.name.space ns_error)
                (λ _. elim (Option-cases (skip_element 0 ts)) [
                  | inl e ↦ rw (e, Ends) (λ q. cc q)
                  | inr (rest, e) ↦
                      rw (e, Ends) (h _ rest (omega (arith, skip_element_shrinks 0 ts e)))
                ])
                (λ _. h s ts (omega arith))))
    where
      Ends : Reading → Type 0
      Ends r = r ≢ out_of_fuel

read_children_ends :
    (fuel : ℕ) (s : Error) (ts : List Token)
    → suc (length ts) ≤ fuel
    → read_children fuel s ts ≢ out_of_fuel
unfolding read_children
read_children_ends zero s ts h = absurd (omega arith)
read_children_ends (suc fuel) s [] h = λ q. cc q
read_children_ends (suc fuel) s (start_element e ∷ ts) h =
    read_child_ends (λ s' rest. read_children fuel s' rest) s e ts
      (λ s' rest le. read_children_ends fuel s' rest (omega arith))
read_children_ends (suc fuel) s (end_element n ∷ ts) h = λ q. cc q
read_children_ends (suc fuel) s (char_data t ∷ ts) h = read_children_ends fuel s ts (omega arith)
read_children_ends (suc fuel) s (misc ∷ ts) h = read_children_ends fuel s ts (omega arith)

-- Whatever tokens the decoder returns, the loop of UnmarshalXML comes to its end.
pub unmarshal_ends : (s : Error) (ts : List Token) → unmarshal s ts ≢ out_of_fuel
unfolding unmarshal
unmarshal_ends s ts = read_children_ends (suc (length ts)) s ts (omega arith)

-- The tokens of the texts.
unfoldable pub text_tokens : List (Bytes × Bytes) → List Token
text_tokens [] = []
text_tokens ((lang, value) ∷ txts) =
    start_element (text_start lang)
    ∷ char_data value
    ∷ end_element (text_start lang).name
    ∷ text_tokens txts

lang_of_start : (lang : Bytes) → lang_of (text_start lang).attrs [] ≡ lang
unfolding lang_of text_eq
lang_of_start [] = refl
lang_of_start (c ∷ lang) = refl

read_texts :
    (fuel : ℕ) (s : Error) (txts : List (Bytes × Bytes)) (n : Name) (rest : List Token)
    → suc (length (text_tokens txts)) ≤ fuel
    → read_children fuel s (text_tokens txts ++ end_element n ∷ rest)
      ≡ returned (record s { text = s.text ++ txts }) rest
unfolding read_children text_tokens read_child decode_text text_eq
read_texts zero s txts n rest h = absurd (omega arith)
read_texts (suc fuel) s [] n rest h = rw (append-nil s.text) refl
read_texts (suc fuel) s ((lang, value) ∷ txts) n rest h = rw (lang_of_start lang) (
    read_texts fuel (record s { text = s.text ++ (lang, value) ∷ [] }) txts n rest (omega arith)
    ∙ ap (λ (t : List (Bytes × Bytes)). returned (record s { text = t }) rest)
        (append_assoc s.text ((lang, value) ∷ []) txts))

abbrev pub payload_tokens : Option (List Token) → List Token
payload_tokens none = []
payload_tokens (some p) = p

abbrev condition_part : Error → List Token
condition_part s =
    start_element (condition_start s.err)
    ∷ char_data s.content
    ∷ end_element (condition_start s.err).name
    ∷ []

abbrev pub flat_tokens : Error → List Token
flat_tokens s = condition_part s ++ (payload_tokens s.payload ++ text_tokens s.text)

module _ (x : XmlStream) (w : WrapLaw x) (m : MultiLaw x) where
  multi_two : (a b : List Token) → x.multi_reader (a ∷ b ∷ []) ≡ a ++ b
  multi_two a b = rw (m.then_tokens a (b ∷ []), m.then_tokens b [], m.no_tokens, append-nil b) refl

  add_texts-text_tokens :
      (inner : List Token) (txts : List (Bytes × Bytes))
      → add_texts x inner txts ≡ inner ++ text_tokens txts
  unfolding add_texts text_tokens
  add_texts-text_tokens inner [] = sym (append-nil inner)
  add_texts-text_tokens inner ((lang, value) ∷ txts) =
      add_texts-text_tokens
        (x.multi_reader (inner ∷ x.wrap (char_data value ∷ []) (text_start lang) ∷ [])) txts
      ∙ rw
          (
            multi_two inner (x.wrap (char_data value ∷ []) (text_start lang)),
            w.wrap_tokens (char_data value ∷ []) (text_start lang),
          )
          (append_assoc inner _ (text_tokens txts))

  condition_tokens :
      (s : Error) → x.wrap (char_data s.content ∷ []) (condition_start s.err) ≡ condition_part s
  condition_tokens s = w.wrap_tokens (char_data s.content ∷ []) (condition_start s.err)

  add_payload-payload_tokens :
      (inner : List Token) (p : Option (List Token))
      → add_payload x inner p ≡ inner ++ payload_tokens p
  unfolding add_payload
  add_payload-payload_tokens inner none = sym (append-nil inner)
  add_payload-payload_tokens inner (some p) = multi_two inner p

  -- The tokens of an error behind the first: the condition, the payload, the texts and the end.
  pub token_reader_flat :
      (s : Error)
      → token_reader x s
        ≡ start_element error_start ∷ (flat_tokens s ++ end_element error_start.name ∷ [])
  unfolding token_reader
  token_reader_flat s =
      let inner : add_texts x
            (add_payload x (x.wrap (char_data s.content ∷ []) (condition_start s.err)) s.payload)
            s.text
          ≡ flat_tokens s =
        rw (condition_tokens s) (
          add_texts-text_tokens (add_payload x (condition_part s) s.payload) s.text
          ∙ ap (λ ts. ts ++ text_tokens s.text)
              (add_payload-payload_tokens (condition_part s) s.payload)) in
      w.wrap_tokens
        (add_texts x
          (add_payload x (x.wrap (char_data s.content ∷ []) (condition_start s.err)) s.payload)
          s.text)
        error_start
      ∙ ap (λ ts. start_element error_start ∷ (ts ++ end_element error_start.name ∷ [])) inner

-- The content that is read back: only a see-other-host has it.
abbrev pub content_of : Error → Bytes
content_of s = if text_eq s.err (codes "see-other-host") then s.content else []

abbrev pub zero_error : Error
zero_error = record { err = []; text = []; content = []; payload = none }

abbrev pub after_condition : Error → Error
after_condition s = record { err = s.err; text = []; content = content_of s; payload = none }

-- What is read of the condition is the name, and the content of a see-other-host.
pub read_condition :
    (fuel : ℕ) (s : Error) (ts : List Token)
    → s.err ≢ codes "text"
    → read_children (suc fuel) zero_error (
        start_element (condition_start s.err)
        ∷ char_data s.content
        ∷ end_element (condition_start s.err).name
        ∷ ts)
      ≡ read_children fuel (after_condition s) ts
unfolding read_children read_child text_eq decode_text skip_element
read_condition fuel s ts h =
    let other : text_eq s.err (codes "text") ≡ false =
      elim (Bool-cases (text_eq s.err (codes "text"))) [
        | inl e ↦ absurd (h ((text_eq_iff s.err (codes "text")).0 e))
        | inr e ↦ e
      ] in
    elim (Bool-cases (text_eq s.err (codes "see-other-host"))) [
      | inl e ↦ rw e refl
      | inr e ↦ rw (e, other) refl
    ]

module _ (x : XmlStream) (w : WrapLaw x) (m : MultiLaw x) where
  -- With a Wrap and a MultiReader that keep their laws: an error without a payload whose condition
  -- is not named text is read back from its tokens, with the content of a see-other-host and of no
  -- other condition, and its end element is the last that is read.
  pub unmarshal-token_reader :
      (s : Error) (rest : List Token)
      → s.err ≢ codes "text"
      → s.payload ≡ none
      → unmarshal zero_error (drop 1 (token_reader x s ++ rest))
        ≡ returned (record (after_condition s) { text = s.text }) rest
  unfolding unmarshal
  unmarshal-token_reader s rest h none_there = rw (token_reader_flat x w m s) (
      ap (λ ts. unmarshal zero_error ts)
        (rw (ap payload_tokens none_there) (
          ap
            (λ ts.
              start_element (condition_start s.err)
              ∷ char_data s.content
              ∷ end_element (condition_start s.err).name
              ∷ ts)
            (append_assoc (text_tokens s.text) (end_element error_start.name ∷ []) rest)))
      ∙ read_condition _ s _ h
      ∙ read_texts _ (after_condition s) s.text error_start.name rest
          (omega (arith, length-append (text_tokens s.text) (end_element error_start.name ∷ rest))))
