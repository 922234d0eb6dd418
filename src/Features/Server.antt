-- ===== src/Features/Server.antt =====
-- features.go, negotiateFeatures: the loop of a server, which lets the client negotiate one feature
-- after another. A request is the namespace of the element that is read, or of the payload of an
-- IQ.
use xmpp.Prelude.{
  if◌then◌else◌, Bool, true, false, not, ◌||◌, Option, none, some, List, [], ◌∷◌, ◌≡◌, refl, sym,
  ap, subst, ◌∙◌, Bytes, text_eq, map_get, arith, if-cases,
}
use xmpp.Features.{
  SessionState, StreamFeature, SfData, StreamFeaturesList, is_negotiated, can_negotiate,
  server_accepts, empty_list, list_features,
}
use xmpp.Features.Read.{IsEntry, listed-IsEntry}
use xmpp.Features.Client.{ready_bit, union}

pub data Request : Type 0 where
  feature_request : Bytes → Request
  invalid_request : Request

-- What the loop returns: as in the client's loop, or an error of its own. The session is left
-- with a
-- state and the negotiated namespaces.
pub data Verdict (E : Type 0) : Type 0 where
  finished : SessionState → Bool → Option E → Verdict E
  invalid_start : Verdict E
  policy_violation : Verdict E
  read_failed : Verdict E

pub record Served (E : Type 0) : Type 0 where
  pub result : Verdict E
  pub state : SessionState
  pub negotiated : List Bytes

module _ {E D : Type 0} (list : StreamFeaturesList E D) (known : List (Bytes × Option D)) where
  -- The feature's own part, if it has one: the bits, whether there is a new connection, the error.
  unfoldable pub negotiate_feature : SfData E D → Option (SessionState × Bool × Option E)
  negotiate_feature d = elim d.feature.negotiate [
    | none ↦ none
    | some negotiate ↦ some (
        negotiate
          (elim (map_get text_eq d.feature.name.space known) [ some value ↦ value | none ↦ none ]))
  ]

  unfoldable pub end_of_list : SessionState → SessionState
  end_of_list mask = if not list.req then union mask ready_bit else mask

  unfoldable pub server_round :
      SfData E D
      → Option (SessionState × Bool × Option E)
      → SessionState
      → List Bytes
      → (SessionState → List Bytes → Served E)
      → Served E
  server_round d none state negotiated next = record {
    result = policy_violation;
    state = state;
    negotiated = negotiated;
  }
  server_round d (some (mask, restarts, e)) state negotiated next =
      let state' : SessionState = elim e [ none ↦ union state mask | some _ ↦ state ] in
      let negotiated' = d.feature.name.space ∷ negotiated in
      if restarts || d.req
      then record {
        result = finished (end_of_list mask) restarts e;
        state = state';
        negotiated = negotiated';
      }
      else next state' negotiated'

  unfoldable pub server_choice :
      Option (SfData E D)
      → SessionState
      → List Bytes
      → (SessionState → List Bytes → Served E)
      → Served E
  server_choice none state negotiated next = record {
    result = policy_violation;
    state = state;
    negotiated = negotiated;
  }
  server_choice (some d) state negotiated next =
      server_round d (negotiate_feature d) state negotiated next

  unfoldable pub server_loop : List Request → SessionState → List Bytes → Served E
  server_loop [] state negotiated = record {
    result = read_failed;
    state = state;
    negotiated = negotiated;
  }
  server_loop (invalid_request ∷ rest) state negotiated = record {
    result = invalid_start;
    state = state;
    negotiated = negotiated;
  }
  server_loop (feature_request space ∷ rest) state negotiated =
      server_choice (server_accepts negotiated list space) state negotiated (server_loop rest)

  -- Every namespace is one that the list holds, and none is there twice.
  abbrev pub IsListed : List Bytes → Type 0
  IsListed [] = Unit
  IsListed (space ∷ spaces) =
      ((d : SfData E D) × (map_get text_eq space list.cache ≡ some d) × (can_negotiate d ≡ true))
      × (is_negotiated spaces space ≡ false)
      × IsListed spaces

  accepted_entry :
      (negotiated : List Bytes) (space : Bytes) (d : SfData E D)
      → server_accepts negotiated list space ≡ some d
      → (map_get text_eq space list.cache ≡ some d)
        × (is_negotiated negotiated space ≡ false)
        × (can_negotiate d ≡ true)
  unfolding server_accepts
  accepted_entry negotiated space d e = by_entry (map_get text_eq space list.cache) refl e
    where
      by_entry :
          (o : Option (SfData E D))
          → map_get text_eq space list.cache ≡ o
          → (elim o as (λ _. Option (SfData E D)) [
            | none ↦ none
            | some k ↦
                if is_negotiated negotiated space || not (can_negotiate k) then none else some k
          ])
            ≡ some d
          → (map_get text_eq space list.cache ≡ some d)
            × (is_negotiated negotiated space ≡ false)
            × (can_negotiate d ≡ true)
      by_entry none found f = absurd (cc f)
      by_entry (some k) found f =
          if-cases
            (λ (o : Option (SfData E D)).
              o ≡ some d
              → (map_get text_eq space list.cache ≡ some d)
                × (is_negotiated negotiated space ≡ false)
                × (can_negotiate d ≡ true))
            (is_negotiated negotiated space || not (can_negotiate k)) (λ _ g. absurd (cc g))
            (λ free g.
              let same : k ≡ d = cc g in
              (
                found ∙ g,
                ground arith,
                sym (ap (λ (u : SfData E D). can_negotiate u) same) ∙ ground arith,
              ))
            f

  -- One round: its feature is listed, and so are those of the rounds after it.
  server_round-IsListed :
      (d : SfData E D) (o : Option (SessionState × Bool × Option E)) (state : SessionState)
      (negotiated : List Bytes)
      → (next : SessionState → List Bytes → Served E)
      → ((state' : SessionState) (negotiated' : List Bytes)
          → IsListed negotiated'
          → IsListed (next state' negotiated').negotiated)
      → IsListed negotiated
      → IsListed (d.feature.name.space ∷ negotiated)
      → IsListed (server_round d o state negotiated next).negotiated
  unfolding server_round
  server_round-IsListed d none state negotiated next later h more = h
  server_round-IsListed d (some (mask, restarts, e)) state negotiated next later h more =
      if-cases (λ (s : Served E). IsListed s.negotiated) (restarts || d.req) (λ _. more)
        (λ _.
          later (elim e [ none ↦ union state mask | some _ ↦ state ])
            (d.feature.name.space ∷ negotiated) more)

  server_choice-IsListed :
      (keyed : (space : Bytes) (d : SfData E D)
        → map_get text_eq space list.cache ≡ some d
        → d.feature.name.space ≡ space)
      → (space : Bytes) (o : Option (SfData E D)) (state : SessionState) (negotiated : List Bytes)
      → server_accepts negotiated list space ≡ o
      → (next : SessionState → List Bytes → Served E)
      → ((state' : SessionState) (negotiated' : List Bytes)
          → IsListed negotiated'
          → IsListed (next state' negotiated').negotiated)
      → IsListed negotiated
      → IsListed (server_choice o state negotiated next).negotiated
  unfolding server_choice
  server_choice-IsListed keyed space none state negotiated e next later h = h
  server_choice-IsListed keyed space (some d) state negotiated e next later h =
      let (found, free, possible) = accepted_entry negotiated space d e in
      let named = keyed space d found in
      server_round-IsListed d (negotiate_feature d) state negotiated next later h
        (subst (λ n. IsListed (n ∷ negotiated)) (sym named) ((d, found, possible), free, h))

  server_loop-IsListed :
      (keyed : (space : Bytes) (d : SfData E D)
        → map_get text_eq space list.cache ≡ some d
        → d.feature.name.space ≡ space)
      → (requests : List Request) (state : SessionState) (negotiated : List Bytes)
      → IsListed negotiated
      → IsListed (server_loop requests state negotiated).negotiated
  unfolding server_loop
  server_loop-IsListed keyed [] state negotiated h = h
  server_loop-IsListed keyed (invalid_request ∷ rest) state negotiated h = h
  server_loop-IsListed keyed (feature_request space ∷ rest) state negotiated h =
      server_choice-IsListed keyed space (server_accepts negotiated list space) state negotiated
        refl (server_loop rest)
        (λ state' negotiated' h'. server_loop-IsListed keyed rest state' negotiated' h') h

-- Whatever a client asks for, a server that has written a list of its features lets it negotiate
-- only features of that list: each was one of the server's own, allowed by the state in which the
-- list was written, is not merely informational, and none is negotiated twice.
pub server_keeps_list :
    {E D : Type 0} (written : SessionState) (features : List (StreamFeature E D))
    (known : List (Bytes × Option D))
    → (requests : List Request) (state : SessionState)
    → IsListed
        (list_features written features empty_list).0
        known
        (server_loop
          (list_features written features empty_list).0
          known
          requests
          state
          []).negotiated
      × ((space : Bytes) (d : SfData E D)
          → map_get text_eq space (list_features written features empty_list).0.cache ≡ some d
          → IsEntry written features (space, d))
server_keeps_list written features known requests state = (
  server_loop-IsListed (list_features written features empty_list).0 known
      (λ space d e. (listed-IsEntry written features space {d = d} e).space) requests state [] tt,
  λ space d e. listed-IsEntry written features space {d = d} e,
)
