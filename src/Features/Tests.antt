-- ===== src/Features/Tests.antt =====
-- Runs of the selection of features, with numbers as errors and texts as the features' data.
use xmpp.Prelude.{
  arith, ℕ, Bool, true, false, Option, none, some, List, [], ◌∷◌, ◌≡◌, ◌⊎◌, refl, Bytes, codes,
  text_eq, map_get, map_set, ok,
}
use xmpp.Xml.{Name, name_eq, StartElement, Token, start_element, end_element}
use xmpp.Features.{
  SessionState, has_all, has_none, ns_starttls, ns_stream, StreamFeature, SfData,
  StreamFeaturesList, contains_starttls, get_feature, is_allowed, empty_list, list_features,
  read_feature, read_features, read_stream_features, do_starttls, select, client_choice, go_on,
  check_list, server_accepts,
}
use xmpp.Features.Client.{
  ready_bit, returned, is_done, client_loop, client_loop_ends, error_dropped,
}
use xmpp.Features.Server.{feature_request, server_loop, IsListed, server_keeps_list}
use xmpp.Features.Select.{NoneOpen, Selected, client_choice_best, starttls_forced}
use xmpp.Features.Read.{IsEntry}

abbrev no_bits : SessionState
no_bits = record {
  secure = false;
  authn = false;
  ready = false;
  received = false;
  output_stream_closed = false;
  input_stream_closed = false;
  s2s = false;
}

-- StartTLS: it asks for a connection that is not secure, and makes it so.
abbrev starttls : StreamFeature ℕ Bytes
starttls = record {
  name = record { space = ns_starttls; local = codes "starttls" };
  necessary = no_bits;
  prohibited = record no_bits { secure = true };
  list = ok true;
  parse = λ start. ok (true, []);
  negotiate = some (λ value. (record no_bits { secure = true }, true, none));
}

-- A feature that asks for a secure connection.
abbrev sasl : StreamFeature ℕ Bytes
sasl = record {
  name = record { space = codes "urn:ietf:params:xml:ns:xmpp-sasl"; local = codes "mechanisms" };
  necessary = record no_bits { secure = true };
  prohibited = no_bits;
  list = ok true;
  parse = λ start. ok (true, codes "PLAIN");
  negotiate = some (λ value. (record no_bits { authn = true }, true, none));
}

abbrev optional : SfData ℕ Bytes
optional = record { req = false; feature = sasl }

abbrev required : SfData ℕ Bytes
required = record { req = true; feature = starttls }

unfoldable lists : Bool
unfolding text_eq name_eq map_get map_set has_all has_none contains_starttls get_feature is_allowed
    list_features read_feature read_features read_stream_features do_starttls select client_choice
    check_list server_accepts
lists = true

optional_first : client_choice none [] (required ∷ optional ∷ []) ≡ some optional
unfolding lists
optional_first = refl

client_choice_best_example :
    ((client_choice none [] (required ∷ optional ∷ []) ≡ none)
      × NoneOpen [] (required ∷ optional ∷ []))
    ⊎ Selected [] (required ∷ optional ∷ []) (client_choice none [] (required ∷ optional ∷ []))
client_choice_best_example = client_choice_best [] (required ∷ optional ∷ [])

starttls_forced_example :
    (check_list (do_starttls true no_bits (sasl ∷ starttls ∷ []) empty_list) empty_list ≡ go_on)
    × (client_choice (do_starttls true no_bits (sasl ∷ starttls ∷ []) empty_list) [] []
        ≡ some (record { req = true; feature = starttls }))
    × (starttls.name.space ≡ ns_starttls)
starttls_forced_example =
    starttls_forced no_bits (sasl ∷ starttls ∷ []) empty_list [] [] refl (unfold lists in refl)
      (unfold lists in refl)

abbrev features_start : StartElement
features_start = record {
  name = record { space = ns_stream; local = codes "features" };
  attrs = [];
}

abbrev feature_start : Name → StartElement
feature_start name = record { name = name; attrs = [] }

-- Both features are listed, and StartTLS is the only one that may be negotiated now.
abbrev read_list : StreamFeaturesList ℕ Bytes × List (Bytes × Option Bytes)
read_list = (
  record { total = 2; req = true; cache = (ns_starttls, required) ∷ [] },
  (ns_starttls, some []) ∷ (sasl.name.space, none) ∷ [],
)

abbrev list_tokens : List (Option Token)
list_tokens =
    some (start_element (feature_start starttls.name))
    ∷ some (start_element (feature_start sasl.name))
    ∷ some (end_element features_start.name)
    ∷ []

list_read :
    read_stream_features no_bits features_start (starttls ∷ sasl ∷ []) list_tokens [] ≡ ok read_list
unfolding lists
list_read = refl

client_loop_ends_example :
    is_done (client_loop none read_list.0 [] (λ n. required ∷ optional ∷ []) 3 no_bits []) ≡ true
client_loop_ends_example =
    client_loop_ends read_list.0 [] (λ n. required ∷ optional ∷ []) (required ∷ optional ∷ []) none
      3 no_bits [] (λ n v there. there) (omega arith)

-- An optional feature whose negotiation fails.
abbrev failing : SfData ℕ Bytes
failing = record {
  req = false;
  feature = record sasl { negotiate = some (λ value. (no_bits, false, some 7)) };
}

error_dropped_example :
    client_loop none empty_list [] (λ n. failing ∷ []) 2 no_bits []
    ≡ returned ready_bit false none no_bits (failing.feature.name.space ∷ [])
error_dropped_example =
    error_dropped empty_list [] (λ n. failing ∷ []) [] 0 no_bits [] failing (unfold lists in refl)
      refl refl refl refl (unfold lists in refl)

-- A client asks for StartTLS twice.
server_keeps_list_example :
    IsListed
      (list_features no_bits (starttls ∷ []) empty_list).0
      []
      (server_loop
        (list_features no_bits (starttls ∷ []) empty_list).0
        []
        (feature_request ns_starttls ∷ feature_request ns_starttls ∷ [])
        no_bits
        []).negotiated
    × ((space : Bytes) (d : SfData ℕ Bytes)
        → map_get text_eq space (list_features no_bits (starttls ∷ []) empty_list).0.cache ≡ some d
        → IsEntry no_bits (starttls ∷ []) (space, d))
server_keeps_list_example =
    server_keeps_list no_bits (starttls ∷ []) []
      (feature_request ns_starttls ∷ feature_request ns_starttls ∷ []) no_bits
