-- ===== src/Sasl.antt =====
-- sasl.go: authentication. What the two sides share: the library of mechanisms is a parameter, and
-- the elements of an exchange are what encoding/xml makes of them.
pub mod Server
pub mod Client
pub mod Accept
pub mod Confirm
pub mod Tests
use xmpp.Prelude.{
  ℕ, if◌then◌else◌, ltb, Bool, Option, none, some, List, [], ◌∷◌, Bytes, codes, is_empty, length,
}
use xmpp.Xml.{Name}

-- What a step of a mechanism returns: whether there is more to do, a response, and the mechanism as
-- the step leaves it; or sasl.ErrAuthn, or another error.
pub data StepResult (S : Type 0) : Type 0 where
  stepped : Bool → Bytes → S → StepResult S
  not_authorized : StepResult S
  step_error : StepResult S

-- The package sasl, with the credentials and options that it is given, and base64.StdEncoding,
-- whose
-- Decode is `none` at an error. `M` are the mechanisms, `S` the negotiators.
pub record SaslLibrary (M S : Type 0) : Type 0 where
  pub mech_name : M → Bytes
  pub new_server : M → S
  pub new_client : M → S
  pub step : S → Bytes → StepResult S
  pub decoded_len : ℕ → ℕ
  pub decode : Bytes → Option Bytes
  pub encode : Bytes → Bytes

-- A token that is read: an element with its mechanism attribute and its text, one that cannot be
-- decoded, or no start element.
pub data Incoming : Type 0 where
  element : Name → Bytes → Bytes → Incoming
  undecodable : Name → Incoming
  no_element : Incoming

-- An element that is sent: a mechanism and a payload, a payload, or a condition.
pub data Sent : Type 0 where
  auth : Bytes → Bytes → Sent
  challenge : Bytes → Sent
  response : Bytes → Sent
  success : Bytes → Sent
  failure : Bytes → Sent

pub data Reason : Type 0 where
  no_mechanisms : Reason
  unexpected_payload : Reason
  terminated : Reason
  remote_failure : Reason
  refused_credentials : Reason
  library_error : Reason
  read_error : Reason

-- The session gets the bit Authn, or an error.
pub data Outcome : Type 0 where
  authenticated : Outcome
  failed : Reason → Outcome

abbrev pub ns_sasl : Bytes
ns_sasl = codes "urn:ietf:params:xml:ns:xmpp-sasl"

abbrev pub sasl_name : Bytes → Name
sasl_name local = record { space = ns_sasl; local = local }

-- A response of no bytes is an equals sign.
unfoldable pub encode_response : (Bytes → Bytes) → Bytes → Bytes
encode_response encode resp = if is_empty resp then codes "=" else encode resp
