-- ===== src/Streams/Expected.antt =====
-- What Expect promises of a header that it accepts.
use xmpp.Prelude.{
  ◌==◌, if◌then◌else◌, Bool, true, false, not, ◌&&◌, List, [], ◌∷◌, ◌++◌, ◌≡◌, ◌≢◌, ◌⊎◌, inl, inr,
  refl, ap, subst, ◌∙◌, codes, text_eq, text_eq_iff, is_empty, All, Result, ok, err, ok-injective,
  arith, Bool-cases, if-cases,
}
use xmpp.Jid.{Prep}
use xmpp.Xml.{
  name_eq, name_eq_iff, StartElement, Token, start_element, end_element, char_data, misc,
}
use xmpp.Stanza.{ns_client, ns_server}
use xmpp.Features.{ns_stream}
use xmpp.Streams.Version.{default_version}
use xmpp.Streams.Carried.{CarriesAll, from_start_element-Carries}
use xmpp.Streams.Header.{
  Info, StreamError, read_failed, from_start_element, Reader, is_whitespace, read_start, read_token,
  ws_namespace, stream_name, open_name, check_info, expect_start, expect_token, expect_from, expect,
}

abbrev pub IsNoStart : Token → Type 0
IsNoStart t = (s : StartElement) → t ≢ start_element s

err_differs :
    {A B : Type 0} {a : A} (e : StreamError) → ◌≡◌ {A = Result StreamError A} (err e) (ok a) → B
err_differs e h = absurd (cc h)

-- A result that passes on a token.
abbrev Passes : Token → Token → Result StreamError Token → Type 0
Passes t t' x = x ≡ ok t' → t ≡ t'

read_ok : (r : Reader) (t : Token) {t' : Token} → (read_token r t).0 ≡ ok t' → t ≡ t'
unfolding read_token read_start
read_ok r (char_data s) {t'} e =
    if-cases (Passes (char_data s) t') (r.depth == 0 && not (is_whitespace s))
      (λ _ f. err_differs _ f) (λ _ f. ok-injective f) e
read_ok r (end_element n) {t'} e =
    if-cases (Passes (end_element n) t') (not (text_eq n.space ns_stream)) (λ _ f. ok-injective f)
      (λ _.
        if-cases (Passes (end_element n) t') (text_eq n.local (codes "stream"))
          (λ _ f. err_differs _ f) (λ _ f. err_differs _ f))
      e
read_ok r misc e = err_differs _ e
read_ok r (start_element s) {t'} e =
    if-cases Sound (r.ws && (text_eq s.name.space ws_namespace && not r.negotiating))
      (λ _ f. err_differs _ f)
      (λ _.
        if-cases Sound (not (text_eq s.name.space ns_stream)) (λ _ f. ok-injective f)
          (λ _.
            if-cases Sound (text_eq s.name.local (codes "error")) (λ _ f. err_differs _ f)
              (λ _.
                if-cases Sound (text_eq s.name.local (codes "stream"))
                  (λ _.
                    if-cases Sound r.negotiating (λ _ f. ok-injective f) (λ _ f. err_differs _ f))
                  (λ _ f. err_differs _ f))))
      e
  where
    Sound : Result StreamError Token → Type 0
    Sound = Passes (start_element s) t'

module _ (p : Prep) (skip : List Token → Bool) (recv ws : Bool) where
  -- What Expect asks of the data that result, merged over those that were known before.
  abbrev pub IsAcceptable : Info → Type 0
  IsAcceptable i =
      (i.version ≡ default_version)
      × (ws ≡ false → (i.xmlns ≡ ns_client) ⊎ (i.xmlns ≡ ns_server))
      × (recv ≡ false → i.id ≢ [])

  check_info-IsAcceptable :
      (i : Info) {i' : Info} → check_info p skip recv ws i ≡ ok i' → (i ≡ i') × IsAcceptable i'
  unfolding check_info
  check_info-IsAcceptable i {i'} e =
      if-cases Sound (not (i.version.major == 1 && i.version.minor == 0)) (λ _ f. err_differs _ f)
        (λ version.
          if-cases Sound
            (not ws && (not (text_eq i.xmlns ns_client) && not (text_eq i.xmlns ns_server)))
            (λ _ f. err_differs _ f)
            (λ spaces.
              if-cases Sound (not recv && is_empty i.id) (λ _ f. err_differs _ f)
                (λ named f.
                  let same : i ≡ i' = ok-injective f in
                  let one : i.version.major ≡ 1 = ground arith in
                  let zero' : i.version.minor ≡ 0 = ground arith in
                  (
                    same,
                    subst IsAcceptable same (
                      (λ k. record { major = one k; minor = zero' k }),
                      space spaces,
                      λ initiating empty. ground (arith, ap is_empty empty),
                    ),
                  ))))
        e
    where
      Sound : Result StreamError Info → Type 0
      Sound x = x ≡ ok i' → (i ≡ i') × IsAcceptable i'

      space :
          (not ws && (not (text_eq i.xmlns ns_client) && not (text_eq i.xmlns ns_server))) ≡ false
          → ws ≡ false
          → (i.xmlns ≡ ns_client) ⊎ (i.xmlns ≡ ns_server)
      space spaces plain = elim (Bool-cases (text_eq i.xmlns ns_client)) [
        | inl e' ↦ inl ((text_eq_iff i.xmlns ns_client).0 e')
        | inr e' ↦ inr ((text_eq_iff i.xmlns ns_server).0 (ground arith))
      ]

  -- An element that Expect accepts.
  abbrev pub IsHeader : Info → StartElement → Info → Type 0
  IsHeader i s i' =
      (s.name ≡ (if ws then open_name else stream_name))
      × (from_start_element p s i ≡ ok i')
      × CarriesAll s.attrs i i'
      × IsAcceptable i'

  expect_start-IsHeader :
      (i : Info) (s : StartElement) (rest : List Token) {i' : Info}
      → expect_start p skip recv ws i s rest ≡ ok i'
      → IsHeader i s i'
  unfolding expect_start
  expect_start-IsHeader i s rest {i'} e =
      if-cases Sound (name_eq s.name (record { space = ns_stream; local = codes "error" }))
        (λ _ f. err_differs _ f)
        (λ _.
          if-cases Sound (not ws && not (name_eq s.name stream_name)) (λ _ f. err_differs _ f)
            (λ plain.
              if-cases Sound (ws && not (name_eq s.name open_name)) (λ _ f. err_differs _ f)
                (λ web.
                  if-cases Sound (ws && not (skip rest)) (λ _ f. err_differs _ f)
                    (λ _. checked (named plain web) (from_start_element p s i) refl))))
        e
    where
      Sound : Result StreamError Info → Type 0
      Sound x = x ≡ ok i' → IsHeader i s i'

      named :
          (not ws && not (name_eq s.name stream_name)) ≡ false
          → (ws && not (name_eq s.name open_name)) ≡ false
          → s.name ≡ (if ws then open_name else stream_name)
      named plain web =
          if-cases (λ n. s.name ≡ n) ws (λ w. (name_eq_iff s.name open_name).0 (ground arith))
            (λ w. (name_eq_iff s.name stream_name).0 (ground arith))

      checked :
          s.name ≡ (if ws then open_name else stream_name)
          → (x : Result StreamError Info) → from_start_element p s i ≡ x
          → Sound (elim x as (λ _. Result StreamError Info) [
            | ok j ↦ check_info p skip recv ws j
            | err e' ↦ err e'
          ])
      checked is_named (err e') set f = err_differs e' f
      checked is_named (ok j) set f =
          let (same, acceptable) = check_info-IsAcceptable j f in
          let merged = set ∙ ap ok same in
          (is_named, merged, from_start_element-Carries p s i merged, acceptable)

  expect_from-IsHeader :
      (i : Info) (r : Reader) (tokens : List Token) {i' : Info}
      → expect_from p skip recv ws i r tokens ≡ ok i'
      → (before : List Token) × (s : StartElement) × (rest : List Token) × (tokens
          ≡ before ++ start_element s ∷ rest)
        × All IsNoStart before
        × IsHeader i s i'
  unfolding expect_from expect_token
  expect_from-IsHeader i r [] e = err_differs read_failed e
  expect_from-IsHeader i r (t ∷ rest) {i'} e =
      read (λ f. expect_from-IsHeader i (read_token r t).1 rest f) ((read_token r t).0) refl e
    where
      Found : List Token → Type 0
      Found tokens =
          (before : List Token) × (s : StartElement) × (rest' : List Token) × (tokens
            ≡ before ++ start_element s ∷ rest')
          × All IsNoStart before
          × IsHeader i s i'

      next : Result StreamError Info
      next = expect_from p skip recv ws i (read_token r t).1 rest

      pass : (u : Token) → t ≡ u → IsNoStart u → Found rest → Found (t ∷ rest)
      pass u same no_start (before, s, rest', e', all, header) =
          (u ∷ before, s, rest', (λ k. same k ∷ e' k), (no_start, all), header)

      token :
          (next ≡ ok i' → Found rest)
          → (u : Token) → t ≡ u
          → expect_token p skip recv ws i u rest next ≡ ok i'
          → Found (t ∷ rest)
      token later (start_element s) same f =
          ([], s, rest, ap (λ u. u ∷ rest) same, tt, expect_start-IsHeader i s rest f)
      token later (char_data s) same f = pass (char_data s) same (λ s' h. cc h) (later f)
      token later (end_element n) same f = pass (end_element n) same (λ s' h. cc h) (later f)
      token later misc same f = pass misc same (λ s' h. cc h) (later f)

      read :
          (next ≡ ok i' → Found rest)
          → (x : Result StreamError Token) → (read_token r t).0 ≡ x
          → (elim x as (λ _. Result StreamError Info) [
            | err e' ↦ err e'
            | ok t' ↦ expect_token p skip recv ws i t' rest next
          ])
            ≡ ok i'
          → Found (t ∷ rest)
      read later (err e') taken f = err_differs e' f
      read later (ok t') taken f = token later t' (read_ok r t taken) f

  -- Expect accepts a header only if it is the first start element that is read, and is the stream's
  -- element, or that of WebSockets there. Each of the version, the default namespace and the
  -- identifier that result is that of the header's last attribute of the name, or, if the header has
  -- none, the one that was known before. What results is version 1.0; the default namespace of
  -- clients or servers, except for WebSockets; and, if this side has initiated the stream, an
  -- identifier that is not empty.
  pub expect-IsHeader :
      (i : Info) (tokens : List Token) (i' : Info)
      → expect p skip recv ws i tokens ≡ ok i'
      → (before : List Token) × (s : StartElement) × (rest : List Token) × (tokens
          ≡ before ++ start_element s ∷ rest)
        × All IsNoStart before
        × IsHeader i s i'
  unfolding expect
  expect-IsHeader i tokens i' e =
      expect_from-IsHeader i (record { depth = 0; negotiating = true; ws = ws }) tokens e
