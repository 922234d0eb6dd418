-- ===== src/Session/Encoder/Stream.antt =====
-- What a whole element is sent as.
use xmpp.Prelude.{
  ℕ, suc, ◌+◌, if◌then◌else◌, true, false, ◌&&◌, List, [], ◌∷◌, ◌++◌, ◌≡◌, inl, inr, refl, sym, ◌∙◌,
  Bytes, is_empty, length, pos, arith, Bool-cases,
}
use xmpp.Xml.{
  StartElement, Token, start_element, end_element, char_data, misc, Content, done, text, skip,
  element, tokens,
}
use xmpp.Session.{is_stanza_empty_space}
use xmpp.Session.Encoder.{StanzaEncoder, complete_name, strip, encode_token, encode_all}
use xmpp.Session.Encoder.Complete.{IsComplete, encode_token-IsComplete}

-- Content without the attributes `xmlns` of its elements.
unfoldable pub strip_content : Content → Content
strip_content done = done
strip_content (text s r) = text s (strip_content r)
strip_content (skip r) = skip (strip_content r)
strip_content (element s c r) = element (strip s) (strip_content c) (strip_content r)

module _ (random_id : ℕ → Bytes) where
  encode_all-cons :
      (se : StanzaEncoder) (n : ℕ) (t : Token) (ts : List Token) {u : Token} {us : List Token}
      {se' se'' : StanzaEncoder}
      → encode_token se (random_id n) t ≡ (u, se')
      → encode_all se' random_id (suc n) ts ≡ (us, se'')
      → encode_all se random_id n (t ∷ ts) ≡ (u ∷ us, se'')
  unfolding encode_all
  encode_all-cons se n t ts {u} e f =
      (λ k. let rest = encode_all (e k).1 random_id (suc n) ts in ((e k).0 ∷ rest.0, rest.1)) ∙ λ k.
      (u ∷ (f k).0, (f k).1)

  encode_all-append :
      (se : StanzaEncoder) (n : ℕ) (xs ys : List Token)
      → encode_all se random_id n (xs ++ ys) ≡ (
          let first = encode_all se random_id n xs in
          let second = encode_all first.1 random_id (n + length xs) ys in
          (first.0 ++ second.0, second.1))
  unfolding encode_all
  encode_all-append se n [] ys =
      let count : n ≡ n + 0 = omega arith in λ k. encode_all se random_id (count k) ys
  encode_all-append se n (x ∷ xs) ys =
      let count : suc n + length xs ≡ n + suc (length xs) = omega arith in
      let (u, se') = encode_token se (random_id n) x in
      encode_all-cons se n x (xs ++ ys) refl (encode_all-append se' (suc n) xs ys) ∙ λ k.
      let first = encode_all se' random_id (suc n) xs in
      let second = encode_all first.1 random_id (count k) ys in
      (u ∷ (first.0 ++ second.0), second.1)

  encode_all_then :
      (se : StanzaEncoder) (n : ℕ) (xs ys : List Token) {us vs : List Token}
      {se' se'' : StanzaEncoder}
      → encode_all se random_id n xs ≡ (us, se')
      → encode_all se' random_id (n + length xs) ys ≡ (vs, se'')
      → encode_all se random_id n (xs ++ ys) ≡ (us ++ vs, se'')
  encode_all_then se n xs ys {us} e f =
      encode_all-append se n xs ys
      ∙ (λ k.
          let second = encode_all (e k).1 random_id (n + length xs) ys in
          ((e k).0 ++ second.0, second.1))
      ∙ λ k. (us ++ (f k).0, (f k).1)

  -- Inside an element.
  encode_inner :
      (se : StanzaEncoder) (k n : ℕ) (c : Content)
      → se.depth ≡ pos (suc k)
      → encode_all se random_id n (tokens c) ≡ (tokens (strip_content c), se)
  unfolding encode_all tokens strip_content encode_token strip
  encode_inner se k n done inside = refl
  encode_inner se k n (text s r) inside =
      encode_all-cons se n (char_data s) (tokens r) refl (encode_inner se k (suc n) r inside)
  encode_inner se k n (skip r) inside =
      encode_all-cons se n misc (tokens r) refl (encode_inner se k (suc n) r inside)
  encode_inner se k n (element s c r) inside =
      let se' = record se { depth = pos (suc (suc k)) } in
      encode_all-cons se n (start_element s) (tokens c ++ (end_element s.name ∷ tokens r))
        (rw inside refl)
        (encode_all_then se' (suc n) (tokens c) (end_element s.name ∷ tokens r)
          (encode_inner se' (suc k) (suc n) c refl)
          (encode_all-cons se' (suc n + length (tokens c)) (end_element s.name) (tokens r)
            (λ i. (end_element s.name, record se { depth = sym inside i }))
            (encode_inner se k (suc (suc n + length (tokens c))) r inside)))

  end_there :
      (se : StanzaEncoder) (n : ℕ) (tok out : StartElement)
      → se.depth ≡ pos 0
      → is_stanza_empty_space tok.name ≡ true
      → IsComplete se tok out
      → encode_token (record se { depth = pos 1 }) (random_id n) (end_element tok.name)
        ≡ (end_element out.name, se)
  unfolding encode_token complete_name
  end_there se n tok out top stanza complete =
      let same : (if is_empty tok.name.space && is_stanza_empty_space tok.name
            then record tok.name { space = se.ns }
            else tok.name)
          ≡ out.name =
        rw (complete.name_there, stanza)
          (elim (Bool-cases (is_empty tok.name.space)) [ inl e ↦ rw e refl | inr e ↦ rw e refl ]) in
      λ k. (end_element (same k), record se { depth = sym top k })

  -- A stanza that is written at depth 0 with all its content, with a non-empty random identifier
  -- for
  -- its start element at hand, goes out as one element: its start element is complete, its end
  -- element has the same name, the elements inside it are unchanged but for attributes `xmlns`, and
  -- the encoder is as it was.
  pub encode_all_stanza :
      (se : StanzaEncoder) (n : ℕ) (tok : StartElement) (c : Content)
      → se.depth ≡ pos 0
      → is_stanza_empty_space tok.name ≡ true
      → is_empty (random_id n) ≡ false
      → (out : StartElement) × (encode_all se random_id n (tokens (element tok c done))
          ≡ (tokens (element out (strip_content c) done), se))
        × IsComplete se tok out
  unfolding tokens encode_all
  encode_all_stanza se n tok c top stanza there =
      let (out, first, complete) = encode_token-IsComplete se (random_id n) tok top stanza there in
      let se' = record se { depth = pos 1 } in
      (
        out,
        encode_all-cons se n (start_element tok) (tokens c ++ (end_element tok.name ∷ [])) first (
            encode_all_then se' (suc n) (tokens c) (end_element tok.name ∷ [])
              (encode_inner se' 0 (suc n) c refl)
              (encode_all-cons se' (suc n + length (tokens c)) (end_element tok.name) []
                (end_there se (suc n + length (tokens c)) tok out top stanza complete) refl)),
        complete,
      )
