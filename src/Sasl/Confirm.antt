-- ===== src/Sasl/Confirm.antt =====
-- sasl.go: what a client takes for authentication.
use xmpp.Prelude.{
  Bool, true, false, not, ◌&&◌, ◌||◌, Option, none, some, List, [], ◌∷◌, ◌≡◌, ◌⊎◌, inl, inr, refl,
  ap, Bytes, codes, text_eq, text_eq_iff, arith, Bool-cases, if-cases,
}
use xmpp.Xml.{Name, name_eq, name_eq_iff}
use xmpp.Sasl.{
  StepResult, stepped, not_authorized, step_error, SaslLibrary, Incoming, element, undecodable,
  no_element, Sent, no_mechanisms, library_error, Outcome, authenticated, failed, sasl_name,
}
use xmpp.Sasl.Client.{
  Challenge, decoded, wrong, awaited, select_mechanism, decode_challenge, answer_challenge,
  take_challenge, answer_challenges, await_success, begin_client, negotiate_client,
}
use xmpp.Sasl.Accept.{failed_differs}

-- A negotiator takes a step with each challenge, until a step says that there is no more to do.
pub data Answers {M S : Type 0} (lib : SaslLibrary M S) : S → List Incoming → Type 0 where
  ends_here :
      {s : S} {i : Incoming} {bytes resp : Bytes} {is_success : Bool} {s' : S}
      {rest : List Incoming}
      → decode_challenge lib true i ≡ decoded bytes is_success
      → lib.step s bytes ≡ stepped false resp s'
      → Answers lib s (i ∷ rest)
  answered :
      {s : S} {i : Incoming} {bytes resp : Bytes} {is_success : Bool} {s' : S}
      {rest : List Incoming}
      → decode_challenge lib true i ≡ decoded bytes is_success
      → lib.step s bytes ≡ stepped true resp s'
      → Answers lib s' rest
      → Answers lib s (i ∷ rest)

module _ {M S : Type 0} (lib : SaslLibrary M S) where
  answers :
      (s : S) (incoming : List Incoming)
      → (answer_challenges lib s incoming).1 ≡ authenticated
      → Answers lib s incoming
  unfolding answer_challenges answer_challenge take_challenge
  answers s [] e = failed_differs _ e
  answers s (i ∷ rest) e = taken (λ s'. answers s' rest) (decode_challenge lib true i) refl e
    where
      Later : Type 0
      Later = (s' : S) → (answer_challenges lib s' rest).1 ≡ authenticated → Answers lib s' rest

      stepped_on :
          {bytes : Bytes} {is_success : Bool}
          → Later
          → decode_challenge lib true i ≡ decoded bytes is_success
          → (r : StepResult S) → lib.step s bytes ≡ r
          → (answer_challenge lib r is_success (λ s'. answer_challenges lib s' rest)).1
            ≡ authenticated
          → Answers lib s (i ∷ rest)
      stepped_on next read not_authorized step f = failed_differs _ f
      stepped_on next read step_error step f = failed_differs _ f
      stepped_on next read (stepped false resp s') step f = ends_here read step
      stepped_on next read (stepped true resp s') step f = answered read step (next s' f)

      taken :
          Later
          → (c : Challenge) → decode_challenge lib true i ≡ c
          → (take_challenge lib s c (λ s'. answer_challenges lib s' rest)).1 ≡ authenticated
          → Answers lib s (i ∷ rest)
      taken next (wrong why) read f = failed_differs why f
      taken next (decoded bytes is_success) read f = stepped_on next read (lib.step s bytes) refl f

  -- The next element is success.
  abbrev pub IsSuccess : List Incoming → Type 0
  IsSuccess incoming =
      (mech : Bytes) × (text : Bytes) × (rest : List Incoming) × (incoming
        ≡ element (sasl_name (codes "success")) mech text ∷ rest)

  success_named :
      (name : Name)
      → (name_eq name (sasl_name (codes "challenge")) || name_eq name (sasl_name (codes "success")))
        ≡ true
      → text_eq name.local (codes "challenge") ≡ false
      → name ≡ sasl_name (codes "success")
  success_named name either other = elim (Bool-cases (name_eq name (sasl_name (codes "success")))) [
    | inl same ↦ (name_eq_iff name (sasl_name (codes "success"))).0 same
    | inr differs ↦
        let named : name ≡ sasl_name (codes "challenge") =
          (name_eq_iff name (sasl_name (codes "challenge"))).0 (ground arith) in
        let same : text_eq name.local (codes "challenge") ≡ true =
          (text_eq_iff name.local (codes "challenge")).1 (ap (λ n. n.local) named) in
        absurd (ground arith)
  ]

  await_success-IsSuccess :
      (incoming : List Incoming) → await_success lib incoming ≡ authenticated → IsSuccess incoming
  unfolding await_success decode_challenge awaited
  await_success-IsSuccess [] e = failed_differs _ e
  await_success-IsSuccess (no_element ∷ rest) e = failed_differs _ e
  await_success-IsSuccess (undecodable name ∷ rest) e = failed_differs _ e
  await_success-IsSuccess (element name mech text ∷ rest) e =
      if-cases Sound
        (name_eq name (sasl_name (codes "challenge")) || name_eq name (sasl_name (codes "success")))
        (λ either.
          if-cases Sound (not false && text_eq name.local (codes "challenge"))
            (λ _ f. failed_differs _ f)
            (λ other. decoding (lib.decode text) (success_named name either (ground arith))))
        (λ _.
          if-cases Sound (name_eq name (sasl_name (codes "failure"))) (λ _ f. failed_differs _ f)
            (λ _ f. failed_differs _ f))
        e
    where
      Sound : Challenge → Type 0
      Sound c = awaited c ≡ authenticated → IsSuccess (element name mech text ∷ rest)

      decoding :
          (o : Option Bytes)
          → name ≡ sasl_name (codes "success")
          → Sound (elim o as (λ _. Challenge) [
            | none ↦ wrong library_error
            | some bytes ↦ decoded bytes (text_eq name.local (codes "success"))
          ])
      decoding none named f = failed_differs _ f
      decoding (some bytes) named f = (mech, text, rest, ap (λ n. element n mech text ∷ rest) named)

  -- The two ways in which an exchange ends with authentication.
  abbrev pub IsConfirmed : List M → List Bytes → List Incoming → Type 0
  IsConfirmed ms names incoming =
      (m : M) × (resp : Bytes) × (s : S) × (select_mechanism lib ms names ≡ some m)
      × (((lib.step (lib.new_client m) [] ≡ stepped false resp s) × IsSuccess incoming)
          ⊎ ((lib.step (lib.new_client m) [] ≡ stepped true resp s) × Answers lib s incoming))

  -- A client reports authentication only with the first of its own mechanisms that the server
  -- offers, and only in one of two ways: the mechanism has nothing more to do at once and the
  -- server's next element is success; or the mechanism has taken a step with each challenge until
  -- it had nothing more to do.
  pub client_authenticates :
      (ms : List M) (names : List Bytes) (incoming : List Incoming)
      → (negotiate_client lib ms names incoming).1 ≡ authenticated
      → IsConfirmed ms names incoming
  unfolding negotiate_client begin_client
  client_authenticates ms names incoming e = chosen (select_mechanism lib ms names) refl e
    where
      begun :
          (m : M)
          → select_mechanism lib ms names ≡ some m
          → (r : StepResult S) → lib.step (lib.new_client m) [] ≡ r
          → (begin_client lib (lib.mech_name m) r incoming).1 ≡ authenticated
          → IsConfirmed ms names incoming
      begun m found not_authorized first f = failed_differs _ f
      begun m found step_error first f = failed_differs _ f
      begun m found (stepped false resp s) first f =
          (m, resp, s, found, inl (first, await_success-IsSuccess incoming f))
      begun m found (stepped true resp s) first f =
          (m, resp, s, found, inr (first, answers s incoming f))

      chosen :
          (o : Option M)
          → select_mechanism lib ms names ≡ o
          → (elim o as (λ _. List Sent × Outcome) [
            | none ↦ ([], failed no_mechanisms)
            | some m ↦ begin_client lib (lib.mech_name m) (lib.step (lib.new_client m) []) incoming
          ]).1
            ≡ authenticated
          → IsConfirmed ms names incoming
      chosen none found f = failed_differs _ f
      chosen (some m) found f = begun m found (lib.step (lib.new_client m) []) refl f

  -- If the first step of the selected mechanism has more to do, and its step with the server's
  -- first challenge does not, the client reports authentication without having read success:
  -- whatever the server sends after that challenge, failure included.
  pub client_unconfirmed :
      (ms : List M) (names : List Bytes) (m : M) (mech text bytes resp resp' : Bytes) (s s' : S)
      (rest : List Incoming)
      → select_mechanism lib ms names ≡ some m
      → lib.step (lib.new_client m) [] ≡ stepped true resp s
      → lib.decode text ≡ some bytes
      → lib.step s bytes ≡ stepped false resp' s'
      → (negotiate_client lib ms names (element (sasl_name (codes "challenge")) mech text ∷ rest)).1
        ≡ authenticated
  unfolding negotiate_client begin_client answer_challenges take_challenge decode_challenge name_eq
      text_eq answer_challenge
  client_unconfirmed ms names m mech text bytes resp resp' s s' rest selected first read second =
      rw (selected, negotiate_client) (rw (first, read, second) refl)
