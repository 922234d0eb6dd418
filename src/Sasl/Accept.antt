-- ===== src/Sasl/Accept.antt =====
-- sasl.go: what an exchange that ends with authentication has been.
use xmpp.Prelude.{
  true, false, Option, none, some, List, [], ◌∷◌, ◌++◌, ◌≡◌, ◌⊎◌, inl, inr, refl, sym, ap, subst,
  Bytes, codes, text_eq, if-cases,
}
use xmpp.Xml.{name_eq, name_eq_iff}
use xmpp.Sasl.{
  StepResult, stepped, not_authorized, step_error, SaslLibrary, Incoming, element, undecodable,
  no_element, Sent, failure, Reason, no_mechanisms, unexpected_payload, Outcome, authenticated,
  failed, sasl_name,
}
use xmpp.Sasl.Server.{
  Choice, ends, steps, find_mechanism, choose, payload_data, answer_step, take_step, follow,
  negotiate_server,
}

pub failed_differs : (why : Reason) {A : Type 0} → failed why ≡ authenticated → A
failed_differs why e = absurd (cc e)

-- A negotiator takes a step with a payload, and is done; or it goes on with the payload of a
-- response that comes next.
pub data Completes {M S : Type 0} (lib : SaslLibrary M S) : S → Bytes → List Incoming → Type 0 where
  done :
      {s : S} {payload bytes resp : Bytes} {s' : S} {rest : List Incoming}
      → payload_data lib payload ≡ some bytes
      → lib.step s bytes ≡ stepped false resp s'
      → Completes lib s payload rest
  goes_on :
      {s : S} {payload bytes resp : Bytes} {s' : S} {mech next : Bytes} {rest : List Incoming}
      → payload_data lib payload ≡ some bytes
      → lib.step s bytes ≡ stepped true resp s'
      → Completes lib s' next rest
      → Completes lib s payload (element (sasl_name (codes "response")) mech next ∷ rest)

module _ {M S : Type 0} (lib : SaslLibrary M S) (ms : List M) where
  -- The exchange that ends is one that was begun with a mechanism of the list.
  abbrev pub IsBegun : List Incoming → Type 0
  IsBegun incoming =
      (before : List Incoming) × (mech : Bytes) × (payload : Bytes) × (rest : List Incoming)
      × (m : M) × (incoming ≡ before ++ element (sasl_name (codes "auth")) mech payload ∷ rest)
      × (find_mechanism lib mech ms ≡ some m)
      × Completes lib (lib.new_server m) payload rest

  abbrev IsGoingOn : Option S → List Incoming → Type 0
  IsGoingOn server incoming =
      (s : S) × (mech : Bytes) × (payload : Bytes) × (rest : List Incoming) × (server ≡ some s)
      × (incoming ≡ element (sasl_name (codes "response")) mech payload ∷ rest)
      × Completes lib s payload rest

  later : (i : Incoming) (incoming : List Incoming) → IsBegun incoming → IsBegun (i ∷ incoming)
  later i incoming (before, mech, payload, rest, m, e, found, completes) =
      (i ∷ before, mech, payload, rest, m, ap (λ l. i ∷ l) e, found, completes)

  -- The elements on which a negotiator takes a step.
  IsChosen : Option S → Incoming → S → Bytes → Type 0
  IsChosen server i s payload =
      ((mech : Bytes) × (m : M) × (i ≡ element (sasl_name (codes "auth")) mech payload)
        × (find_mechanism lib mech ms ≡ some m)
        × (s ≡ lib.new_server m))
      ⊎ ((mech : Bytes) × (i ≡ element (sasl_name (codes "response")) mech payload)
          × (server ≡ some s))

  choose-IsChosen :
      (server : Option S) (i : Incoming) {s : S} {payload : Bytes}
      → choose lib ms server i ≡ steps s payload
      → IsChosen server i s payload
  unfolding choose IsChosen
  choose-IsChosen server no_element e = absurd (cc e)
  choose-IsChosen server (undecodable name) e = absurd (cc e)
  choose-IsChosen server (element name mech text) {s} {payload} e =
      if-cases Sound (name_eq name (sasl_name (codes "failure"))) (λ _ f. absurd (cc f))
        (λ _.
          if-cases Sound (name_eq name (sasl_name (codes "auth")))
            (λ same f. began same (find_mechanism lib mech ms) refl f)
            (λ _.
              if-cases Sound (name_eq name (sasl_name (codes "abort"))) (λ _ f. absurd (cc f))
                (λ _.
                  if-cases Sound (name_eq name (sasl_name (codes "response")))
                    (λ same f. went_on same server refl f) (λ _ f. absurd (cc f)))))
        e
    where
      Sound : Choice S → Type 0
      Sound x = x ≡ steps s payload → IsChosen server (element name mech text) s payload

      began :
          name_eq name (sasl_name (codes "auth")) ≡ true
          → (o : Option M) → find_mechanism lib mech ms ≡ o
          → Sound (elim o as (λ _. Choice S) [
            | none ↦ ends (failure (codes "invalid-mechanism") ∷ []) no_mechanisms
            | some m ↦ steps (lib.new_server m) text
          ])
      began same none found f = absurd (cc f)
      began same (some m) found f =
          let named : name ≡ sasl_name (codes "auth") =
            (name_eq_iff name (sasl_name (codes "auth"))).0 same in
          inl (mech, m, cc (named, f), found, cc f)

      went_on :
          name_eq name (sasl_name (codes "response")) ≡ true
          → (o : Option S) → server ≡ o
          → Sound (elim o as (λ _. Choice S) [
            | none ↦ ends (failure (codes "malformed-request") ∷ []) unexpected_payload
            | some s' ↦ steps s' text
          ])
      went_on same none known f = absurd (cc f)
      went_on same (some s') known f =
          let named : name ≡ sasl_name (codes "response") =
            (name_eq_iff name (sasl_name (codes "response"))).0 same in
          inr (mech, cc (named, f), cc (known, f))

  -- The rest of an exchange is authenticated only if it is begun or going on.
  abbrev Later : List Incoming → Type 0
  Later rest =
      (s : S)
      → (negotiate_server lib ms (some s) rest).1 ≡ authenticated
      → IsBegun rest ⊎ IsGoingOn (some s) rest

  follow_cases :
      (server : Option S) (i : Incoming) (rest : List Incoming)
      → Later rest
      → (x : Choice S) → choose lib ms server i ≡ x
      → (follow lib x (λ s. negotiate_server lib ms (some s) rest)).1 ≡ authenticated
      → IsBegun rest
        ⊎ ((s : S) × (payload : Bytes) × IsChosen server i s payload × Completes lib s payload rest)
  unfolding follow answer_step take_step
  follow_cases server i rest next (ends sent why) chosen e = failed_differs why e
  follow_cases server i rest next (steps s payload) chosen e =
      data_read (payload_data lib payload) refl e
    where
      After : List Sent × Outcome → Type 0
      After r =
          r.1 ≡ authenticated
          → IsBegun rest ⊎ ((t : S) × (p : Bytes) × IsChosen server i t p × Completes lib t p rest)

      step_taken :
          (bytes : Bytes)
          → payload_data lib payload ≡ some bytes
          → (r : StepResult S) → lib.step s bytes ≡ r
          → After (answer_step lib r (λ t. negotiate_server lib ms (some t) rest))
      step_taken bytes read not_authorized taken f = failed_differs _ f
      step_taken bytes read step_error taken f = failed_differs _ f
      step_taken bytes read (stepped false resp s') taken f =
          inr (s, payload, choose-IsChosen server i chosen, done read taken)
      step_taken bytes read (stepped true resp s') taken f = elim (next s' f) [
        | inl begun ↦ inl begun
        | inr (t, mech, p, rest', known, e', completes) ↦
            let same : s' ≡ t = cc known in
            let after =
              goes_on read taken (subst (λ u. Completes lib u p rest') (sym same) completes) in
            inr (
              s,
              payload,
              choose-IsChosen server i chosen,
              subst (λ l. Completes lib s payload l) (sym e') after,
            )
      ]

      data_read :
          (o : Option Bytes)
          → payload_data lib payload ≡ o
          → After (take_step lib s o (λ t. negotiate_server lib ms (some t) rest))
      data_read none read f = failed_differs _ f
      data_read (some bytes) read f = step_taken bytes read (lib.step s bytes) refl f

  conclude :
      (server : Option S) (i : Incoming) (rest : List Incoming) (s : S) (payload : Bytes)
      → IsChosen server i s payload
      → Completes lib s payload rest
      → IsBegun (i ∷ rest) ⊎ IsGoingOn server (i ∷ rest)
  unfolding IsChosen
  conclude server i rest s payload (inl (mech, m, e, found, same)) completes = inl (
    [],
    mech,
    payload,
    rest,
    m,
    ap (λ j. j ∷ rest) e,
    found,
    subst (λ t. Completes lib t payload rest) same completes,
  )
  conclude server i rest s payload (inr (mech, e, known)) completes =
      inr (s, mech, payload, rest, known, ap (λ j. j ∷ rest) e, completes)

  accepted :
      (server : Option S) (incoming : List Incoming)
      → (negotiate_server lib ms server incoming).1 ≡ authenticated
      → IsBegun incoming ⊎ IsGoingOn server incoming
  unfolding negotiate_server
  accepted server [] e = failed_differs _ e
  accepted server (i ∷ rest) e =
      elim (follow_cases server i rest (λ s. accepted (some s) rest) (choose lib ms server i) refl
        e) [
          | inl begun ↦ inl (later i rest begun)
          | inr (s, payload, chosen, completes) ↦ conclude server i rest s payload chosen completes
        ]

  -- The server reports that a client is authenticated only if a mechanism of its list was begun
  -- and has completed: a negotiator for it has taken a step with the payload of the client's
  -- "auth" element and with those of the "response" elements right behind it, in order, and the
  -- last of these steps has said, without an error, that there is no more to do.
  pub server_authenticates :
      (incoming : List Incoming)
      → (negotiate_server lib ms none incoming).1 ≡ authenticated
      → IsBegun incoming
  server_authenticates incoming e = elim (accepted none incoming e) [
    | inl begun ↦ begun
    | inr (s, mech, payload, rest, nobody, more, completes) ↦ absurd (cc nobody)
  ]

  taken-Completes :
      {s : S} {payload : Bytes} {rest : List Incoming}
      → Completes lib s payload rest
      → (take_step lib s (payload_data lib payload) (λ t. negotiate_server lib ms (some t) rest)).1
        ≡ authenticated
  unfolding take_step answer_step negotiate_server follow choose name_eq text_eq
  taken-Completes (done read taken) = rw (read, taken) refl
  taken-Completes (goes_on read taken completes) = rw (read, taken) (taken-Completes completes)

  -- A client that begins with a mechanism of the list and completes it is authenticated.
  pub server_lets_in :
      (mech payload : Bytes) (rest : List Incoming) (m : M)
      → find_mechanism lib mech ms ≡ some m
      → Completes lib (lib.new_server m) payload rest
      → (negotiate_server lib ms none (element (sasl_name (codes "auth")) mech payload ∷ rest)).1
        ≡ authenticated
  unfolding negotiate_server choose name_eq text_eq follow
  server_lets_in mech payload rest m found completes = rw found (taken-Completes completes)
