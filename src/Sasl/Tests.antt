-- ===== src/Sasl/Tests.antt =====
-- Runs with mechanisms that are numbers: they take as many steps.
use xmpp.Prelude.{
  ℕ, zero, suc, true, false, none, some, List, [], ◌∷◌, ◌≡◌, refl, Bytes, codes, text_eq,
}
use xmpp.Xml.{name_eq}
use xmpp.Sasl.{
  StepResult, stepped, not_authorized, SaslLibrary, Incoming, element, authenticated, sasl_name,
}
use xmpp.Sasl.Server.{
  find_mechanism, choose, payload_data, answer_step, take_step, follow, negotiate_server,
}
use xmpp.Sasl.Client.{
  offers, select_mechanism, decode_challenge, answer_challenge, take_challenge, answer_challenges,
  begin_client, negotiate_client,
}
use xmpp.Sasl.Accept.{done, goes_on, IsBegun, server_authenticates, server_lets_in}
use xmpp.Sasl.Confirm.{IsConfirmed, client_authenticates, client_unconfirmed}

-- A step is the last one if the number has come to one, and is refused if it has come to zero.
abbrev counted : ℕ → Bytes → StepResult ℕ
counted zero data' = not_authorized
counted (suc zero) data' = stepped false [] 0
counted (suc (suc n)) data' = stepped true data' (suc n)

abbrev numbers : SaslLibrary ℕ ℕ
numbers = record {
  mech_name = λ m. codes "M";
  new_server = λ m. m;
  new_client = λ m. m;
  step = counted;
  decoded_len = λ n. n;
  decode = λ text. some text;
  encode = λ text. text;
}

abbrev say : Bytes → Bytes → Incoming
say local text = element (sasl_name local) (codes "M") text

abbrev exchange : List Incoming
exchange = say (codes "auth") (codes "pw") ∷ say (codes "response") (codes "pw") ∷ []

test_exchange : (negotiate_server numbers (2 ∷ []) none exchange).1 ≡ authenticated
unfolding negotiate_server follow take_step answer_step choose find_mechanism payload_data name_eq
    text_eq
test_exchange = refl

server_authenticates_example : IsBegun numbers (2 ∷ []) exchange
server_authenticates_example = server_authenticates numbers (2 ∷ []) exchange test_exchange

test_data : payload_data numbers (codes "pw") ≡ some (codes "pw")
unfolding payload_data
test_data = refl

test_lets_in : (negotiate_server numbers (2 ∷ []) none exchange).1 ≡ authenticated
test_lets_in =
    server_lets_in numbers (2 ∷ []) (codes "M") (codes "pw")
      (say (codes "response") (codes "pw") ∷ []) 2 (unfold find_mechanism text_eq in refl)
      (goes_on test_data refl (done test_data refl))

-- The server refuses, but the client has stopped reading.
abbrev refusal : List Incoming
refusal = say (codes "challenge") (codes "c") ∷ say (codes "failure") [] ∷ []

test_refusal : (negotiate_client numbers (2 ∷ []) (codes "M" ∷ []) refusal).1 ≡ authenticated
unfolding negotiate_client begin_client answer_challenges take_challenge answer_challenge
    decode_challenge select_mechanism offers name_eq text_eq
test_refusal = refl

client_authenticates_example : IsConfirmed numbers (2 ∷ []) (codes "M" ∷ []) refusal
client_authenticates_example =
    client_authenticates numbers (2 ∷ []) (codes "M" ∷ []) refusal test_refusal

client_unconfirmed_example :
    (negotiate_client numbers (2 ∷ []) (codes "M" ∷ []) refusal).1 ≡ authenticated
client_unconfirmed_example =
    client_unconfirmed numbers (2 ∷ []) (codes "M" ∷ []) 2 (codes "M") (codes "c") (codes "c") [] []
      1 0 (say (codes "failure") [] ∷ []) (unfold select_mechanism offers text_eq in refl) refl refl
      refl
