-- ===== src/Streams/Failure/Payload.antt =====
-- What becomes of an application-specific payload of a stream error when the error is read.
use xmpp.Prelude.{
  zero, suc, ℕ, length-append, some, List, [], ◌∷◌, ◌++◌, ◌≡◌, ◌≢◌, refl, ap, ◌∙◌, codes, text_eq,
  text_eq_iff, All, length, drop, arith, append_assoc, ◌≤◌, Bool-cases, inl, inr,
}
use mathlib.Core.Bool.{and-false}
use xmpp.Xml.{StartElement, Token, start_element, end_element, char_data, misc}
use xmpp.Stanza.Failure.{XmlStream, WrapLaw, MultiLaw}
use xmpp.Streams.Failure.{
  ns_error, Error, condition_start, error_start, token_reader, returned, read_child, read_children,
  unmarshal,
}
use xmpp.Streams.Failure.ReadBack.{
  text_tokens, payload_tokens, token_reader_flat, zero_error, after_condition, read_condition,
}

abbrev pub IsText : Token → Type 0
IsText (start_element e) = ⊥
IsText (end_element n) = ⊥
IsText (char_data s) = Unit
IsText misc = Unit

-- An element with nothing but text inside.
abbrev pub flat_element : StartElement → List Token → List Token
flat_element e inner = start_element e ∷ (inner ++ end_element e.name ∷ [])

read_text :
    (fuel : ℕ) (s : Error) (inner : List Token) (n : _) (rest : List Token)
    → All IsText inner
    → suc (length inner) ≤ fuel
    → read_children fuel s (inner ++ end_element n ∷ rest) ≡ returned s rest
unfolding read_children
read_text zero s inner n rest t h = absurd (omega arith)
read_text (suc fuel) s [] n rest t h = refl
read_text (suc fuel) s (start_element e ∷ inner) n rest (t, ts) h = absurd t
read_text (suc fuel) s (end_element m ∷ inner) n rest (t, ts) h = absurd t
read_text (suc fuel) s (char_data c ∷ inner) n rest (t, ts) h =
    read_text fuel s inner n rest ts (omega arith)
read_text (suc fuel) s (misc ∷ inner) n rest (t, ts) h =
    read_text fuel s inner n rest ts (omega arith)

read_payload :
    (fuel : ℕ) (s : Error) (e : StartElement) (inner : List Token) (rest : List Token)
    → e.name.space ≢ ns_error
    → All IsText inner
    → suc (suc (length inner)) ≤ fuel
    → read_children fuel s (flat_element e inner ++ rest) ≡ returned s rest
unfolding read_children read_child
read_payload zero s e inner rest h t le = absurd (omega arith)
read_payload (suc fuel) s e inner rest h t le = elim (Bool-cases (text_eq e.name.space ns_error)) [
  | inl q ↦ absurd (h ((text_eq_iff e.name.space ns_error).0 q))
  | inr q ↦
      rw
        (
          q,
          and-false (text_eq e.name.local (codes "see-other-host")),
          and-false (text_eq e.name.local (codes "text")),
          append_assoc inner (end_element e.name ∷ []) rest,
        )
        (read_text fuel s inner e.name rest t (omega arith))
]

module _ (x : XmlStream) (w : WrapLaw x) (m : MultiLaw x) where
  -- With a Wrap and a MultiReader that keep their laws: if an error whose condition is not named
  -- text has an element of another namespace with only text inside as its payload, reading it
  -- stops at the end of that element: no text of the error is read, and the tokens of the texts
  -- are left, with the error's end element.
  pub payload_stops :
      (s : Error) (e : StartElement) (inner rest : List Token)
      → s.err ≢ codes "text"
      → s.payload ≡ some (flat_element e inner)
      → e.name.space ≢ ns_error
      → All IsText inner
      → unmarshal zero_error (drop 1 (token_reader x s ++ rest))
        ≡ returned (after_condition s) (text_tokens s.text ++ end_element error_start.name ∷ rest)
  unfolding unmarshal
  payload_stops s e inner rest h there other t = rw (token_reader_flat x w m s) (
      ap (λ ts. unmarshal zero_error ts)
        (rw (ap payload_tokens there) (
          ap
            (λ ts.
              start_element (condition_start s.err)
              ∷ char_data s.content
              ∷ end_element (condition_start s.err).name
              ∷ ts)
            (append_assoc (flat_element e inner ++ text_tokens s.text)
                (end_element error_start.name ∷ []) rest
              ∙ append_assoc (flat_element e inner) (text_tokens s.text)
                  (end_element error_start.name ∷ rest))))
      ∙ read_condition _ s
          (flat_element e inner ++ (text_tokens s.text ++ end_element error_start.name ∷ rest)) h
      ∙ read_payload _ (after_condition s) e inner
          (text_tokens s.text ++ end_element error_start.name ∷ rest) other t
          (omega (
            arith,
            length-append (inner ++ end_element e.name ∷ [])
                (text_tokens s.text ++ end_element error_start.name ∷ rest),
            length-append inner (end_element e.name ∷ []),
          )))
