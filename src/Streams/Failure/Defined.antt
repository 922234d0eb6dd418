-- ===== src/Streams/Failure/Defined.antt =====
-- The errors that stream/error.go defines, written and read.
use xmpp.Prelude.{
  Bool, true, false, if◌then◌else◌, none, some, List, [], ◌∷◌, ◌++◌, map, ◌≡◌, refl, sym, ap, ◌∙◌,
  Bytes, codes, text_eq, text_eq_refl, text_eq_iff, All, All-append, drop, if-cases, append-nil,
  is_empty, arith, Option,
}
use xmpp.Xml.{Token}
use xmpp.Stanza.Failure.{XmlStream, WrapLaw, MultiLaw}
use xmpp.Streams.Failure.{
  Error, with_err, first_errors, other_errors, defined_errors, see_other_host_error, is,
  token_reader, returned, unmarshal,
}
use xmpp.Streams.Failure.ReadBack.{zero_error, unmarshal-token_reader, content_of}

-- A condition of its own: not the name of a text.
abbrev IsOwn : Bytes → Type 0
IsOwn e = text_eq e (codes "text") ≡ false

unfoldable all_own : List Bytes → Bool
all_own [] = true
all_own (e ∷ es) = let rest = all_own es in if text_eq e (codes "text") then false else rest

all_own-IsOwn : (es : List Bytes) → all_own es ≡ true → All IsOwn es
unfolding all_own
all_own-IsOwn [] h = tt
all_own-IsOwn (e ∷ es) h = (ground arith, all_own-IsOwn es (ground arith))

errors-IsOwn : All IsOwn (first_errors ++ other_errors)
unfolding all_own text_eq
errors-IsOwn = all_own-IsOwn (first_errors ++ other_errors) refl

-- Read back unchanged, and by Is the error that was written.
abbrev pub IsReadBack : XmlStream → Error → Type 0
IsReadBack x s =
    (unmarshal zero_error (drop 1 (token_reader x s)) ≡ returned s []) × (is s (some s) ≡ true)

module _ (x : XmlStream) (w : WrapLaw x) (m : MultiLaw x) where
  is_refl : (s : Error) → is s (some s) ≡ true
  unfolding is
  is_refl s = if-cases (λ b. b ≡ true) (is_empty s.err) (λ _. refl) (λ _. text_eq_refl s.err)

  read_back :
      (s : Error)
      → IsOwn s.err
      → s.payload ≡ none
      → content_of s ≡ s.content
      → unmarshal zero_error (drop 1 (token_reader x s)) ≡ returned s []
  read_back s h none_there same = rw (sym (append-nil (token_reader x s))) (
      unmarshal-token_reader x w m s []
        (λ e. absurd (cc (h, (text_eq_iff s.err (codes "text")).1 e))) none_there
      ∙ ap
          (λ (p : Bytes × Option (List Token)).
            returned (record s { content = p.0; payload = p.1 }) [])
          (λ i. (same i, gone i)))
    where
      gone : none ≡ s.payload
      gone = sym none_there

  defined-IsReadBack : (es : List Bytes) → All IsOwn es → All (IsReadBack x) (map with_err es)
  defined-IsReadBack [] own = tt
  defined-IsReadBack (e ∷ es) (h, own) = (
    (
      read_back (with_err e) h refl
          (if-cases (λ c. c ≡ []) (text_eq e (codes "see-other-host")) (λ _. refl) (λ _. refl)),
      is_refl (with_err e),
    ),
    defined-IsReadBack es own,
  )

  -- Each error that the package defines, and each see-other-host with the text of an address, is
  -- read back unchanged from its tokens, and is the same error to Is.
  pub errors-IsReadBack :
      (ipv6 : Bytes → Bool) (addr : Bytes)
      → All (IsReadBack x) (defined_errors ++ see_other_host_error ipv6 addr ∷ [])
  unfolding defined_errors see_other_host_error
  errors-IsReadBack ipv6 addr =
      All-append (IsReadBack x) defined_errors (see_other_host_error ipv6 addr ∷ [])
        (defined-IsReadBack (first_errors ++ other_errors) errors-IsOwn)
        (
          (
            read_back (see_other_host_error ipv6 addr) (unfold text_eq in refl) refl
                (unfold text_eq in refl),
            is_refl (see_other_host_error ipv6 addr),
          ),
          tt,
        )
