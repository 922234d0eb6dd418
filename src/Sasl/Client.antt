-- ===== src/Sasl/Client.antt =====
-- sasl.go, negotiateClient: the choice of a mechanism, and the loop over the server's elements.
-- What is
-- written succeeds, and the context is not done.
use xmpp.Prelude.{
  if◌then◌else◌, Bool, true, false, not, ◌&&◌, ◌||◌, Option, none, some, List, [], ◌∷◌, Bytes,
  codes, text_eq, is_empty,
}
use xmpp.Xml.{name_eq}
use xmpp.Sasl.{
  StepResult, stepped, not_authorized, step_error, SaslLibrary, Incoming, element, undecodable,
  no_element, Sent, auth, response, Reason, no_mechanisms, unexpected_payload, remote_failure,
  library_error, read_error, Outcome, authenticated, failed, sasl_name, encode_response,
}

-- What decodeSASLChallenge returns: the data and whether they came with success, or an error.
pub data Challenge : Type 0 where
  decoded : Bytes → Bool → Challenge
  wrong : Reason → Challenge

unfoldable pub offers : Bytes → List Bytes → Bool
offers name [] = false
offers name (other ∷ names) = text_eq other name || offers name names

unfoldable pub awaited : Challenge → Outcome
awaited (wrong why) = failed why
awaited (decoded bytes is_success) = authenticated

module _ {M S : Type 0} (lib : SaslLibrary M S) where
  -- The client's order counts; a mechanism without a name counts as none.
  unfoldable pub select_mechanism : List M → List Bytes → Option M
  select_mechanism [] names = none
  select_mechanism (m ∷ ms) names =
      let rest = select_mechanism ms names in
      if offers (lib.mech_name m) names
      then (if is_empty (lib.mech_name m) then none else some m)
      else rest

  unfoldable pub decode_challenge : Bool → Incoming → Challenge
  decode_challenge allow no_element = wrong unexpected_payload
  decode_challenge allow (undecodable name) = wrong (
      if (name_eq name (sasl_name (codes "challenge")) && allow)
        || (name_eq name (sasl_name (codes "success"))
            || name_eq name (sasl_name (codes "failure")))
      then read_error
      else unexpected_payload)
  decode_challenge allow (element name mech text) =
      if name_eq name (sasl_name (codes "challenge")) || name_eq name (sasl_name (codes "success"))
      then (if not allow && text_eq name.local (codes "challenge")
          then wrong unexpected_payload
          else elim (lib.decode text) [
            | none ↦ wrong library_error
            | some bytes ↦ decoded bytes (text_eq name.local (codes "success"))
          ])
      else if name_eq name (sasl_name (codes "failure"))
      then wrong remote_failure
      else wrong unexpected_payload

  -- What is made of a step, behind a challenge or success; the loop goes on with `next`.
  unfoldable pub answer_challenge :
      StepResult S → Bool → (S → List Sent × Outcome) → List Sent × Outcome
  answer_challenge not_authorized is_success next = ([], failed library_error)
  answer_challenge step_error is_success next = ([], failed library_error)
  answer_challenge (stepped true resp client) is_success next =
      let (sent, outcome) = next client in
      (response (encode_response lib.encode resp) ∷ sent, outcome)
  answer_challenge (stepped false resp client) is_success next =
      if is_success
      then ([], authenticated)
      else (response (encode_response lib.encode resp) ∷ [], authenticated)

  unfoldable pub take_challenge : S → Challenge → (S → List Sent × Outcome) → List Sent × Outcome
  take_challenge client (wrong why) next = ([], failed why)
  take_challenge client (decoded bytes is_success) next =
      answer_challenge (lib.step client bytes) is_success next

  -- The loop, as long as there is more to do.
  unfoldable pub answer_challenges : S → List Incoming → List Sent × Outcome
  answer_challenges client [] = ([], failed read_error)
  answer_challenges client (i ∷ rest) =
      take_challenge client (decode_challenge true i) (λ client'. answer_challenges client' rest)

  -- The mechanism is done at once: only success is let through.
  unfoldable pub await_success : List Incoming → Outcome
  await_success [] = failed read_error
  await_success (i ∷ rest) = awaited (decode_challenge false i)

  -- What is made of the first step of a mechanism.
  unfoldable pub begin_client : Bytes → StepResult S → List Incoming → List Sent × Outcome
  begin_client name not_authorized incoming = ([], failed library_error)
  begin_client name step_error incoming = ([], failed library_error)
  begin_client name (stepped false resp client) incoming =
      (auth name (encode_response lib.encode resp) ∷ [], await_success incoming)
  begin_client name (stepped true resp client) incoming =
      let (sent, outcome) = answer_challenges client incoming in
      (auth name (encode_response lib.encode resp) ∷ sent, outcome)

  unfoldable pub negotiate_client : List M → List Bytes → List Incoming → List Sent × Outcome
  negotiate_client ms names incoming = elim (select_mechanism ms names) [
    | none ↦ ([], failed no_mechanisms)
    | some m ↦ begin_client (lib.mech_name m) (lib.step (lib.new_client m) []) incoming
  ]
