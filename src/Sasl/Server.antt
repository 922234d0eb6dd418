-- ===== src/Sasl/Server.antt =====
-- sasl.go, negotiateServer: the loop over the client's elements. What is written succeeds.
use xmpp.Prelude.{
  if◌then◌else◌, ltb, true, false, Option, none, some, List, [], ◌∷◌, Bytes, codes, text_eq,
  is_empty, length,
}
use xmpp.Xml.{name_eq}
use xmpp.Sasl.{
  StepResult, stepped, not_authorized, step_error, SaslLibrary, Incoming, element, undecodable,
  no_element, Sent, challenge, success, failure, Reason, no_mechanisms, unexpected_payload,
  terminated, remote_failure, refused_credentials, library_error, read_error, Outcome,
  authenticated, failed, sasl_name, encode_response,
}

-- One element: it ends the exchange, or a negotiator takes a step with its payload.
pub data Choice (S : Type 0) : Type 0 where
  ends : List Sent → Reason → Choice S
  steps : S → Bytes → Choice S

module _ {M S : Type 0} (lib : SaslLibrary M S) where
  -- The loop over the mechanisms; one without a name counts as none.
  unfoldable pub find_mechanism : Bytes → List M → Option M
  find_mechanism name [] = none
  find_mechanism name (m ∷ ms) =
      let rest = find_mechanism name ms in
      if text_eq name (lib.mech_name m)
      then (if is_empty (lib.mech_name m) then none else some m)
      else rest

  unfoldable pub choose : List M → Option S → Incoming → Choice S
  choose ms server no_element = ends [] unexpected_payload
  choose ms server (undecodable name) = ends [] read_error
  choose ms server (element name mech payload) =
      if name_eq name (sasl_name (codes "failure"))
      then ends [] remote_failure
      else if name_eq name (sasl_name (codes "auth"))
      then elim (find_mechanism mech ms) [
        | none ↦ ends (failure (codes "invalid-mechanism") ∷ []) no_mechanisms
        | some m ↦ steps (lib.new_server m) payload
      ]
      else if name_eq name (sasl_name (codes "abort"))
      then ends (failure (codes "aborted") ∷ []) terminated
      else if name_eq name (sasl_name (codes "response"))
      then elim server [
        | none ↦ ends (failure (codes "malformed-request") ∷ []) unexpected_payload
        | some s ↦ steps s payload
      ]
      else ends (failure (codes "malformed-request") ∷ []) unexpected_payload

  -- An empty payload, or "=", is no data.
  unfoldable pub payload_data : Bytes → Option Bytes
  payload_data payload =
      if ltb 1 (lib.decoded_len (length payload)) then lib.decode payload else some []

  -- What is made of a step; the loop goes on with `next`.
  unfoldable pub answer_step : StepResult S → (S → List Sent × Outcome) → List Sent × Outcome
  answer_step not_authorized next =
      (failure (codes "not-authorized") ∷ [], failed refused_credentials)
  answer_step step_error next = ([], failed library_error)
  answer_step (stepped false resp s) next = (success (lib.encode resp) ∷ [], authenticated)
  answer_step (stepped true resp s) next =
      let (sent, outcome) = next s in (challenge (encode_response lib.encode resp) ∷ sent, outcome)

  unfoldable pub take_step : S → Option Bytes → (S → List Sent × Outcome) → List Sent × Outcome
  take_step s none next = ([], failed library_error)
  take_step s (some bytes) next = answer_step (lib.step s bytes) next

  unfoldable pub follow : Choice S → (S → List Sent × Outcome) → List Sent × Outcome
  follow (ends sent why) next = (sent, failed why)
  follow (steps s payload) next = take_step s (payload_data payload) next

  unfoldable pub negotiate_server : List M → Option S → List Incoming → List Sent × Outcome
  negotiate_server ms server [] = ([], failed read_error)
  negotiate_server ms server (i ∷ rest) =
      follow (choose ms server i) (λ s. negotiate_server ms (some s) rest)
