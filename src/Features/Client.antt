-- ===== src/Features/Client.antt =====
-- features.go, negotiateFeatures: the loop of a client, which negotiates one feature after another.
-- `orders` gives the order in which each round meets the entries of the cache.
use xmpp.Prelude.{
  ℕ, zero, suc, ◌+◌, ◌<◌, ◌≤◌, if◌then◌else◌, Bool, true, false, not, ◌||◌, Option, none, some,
  List, [], ◌∷◌, ◌≡◌, inl, inr, refl, sym, ap, ◌∙◌, Bytes, is_empty, text_eq, text_eq_iff, map_get,
  length, arith, Bool-cases, Option-cases,
}
use xmpp.Features.{SessionState, StreamFeature, SfData, StreamFeaturesList, client_choice}
use xmpp.Features.Select.{is_open, IsIn, client_choice_best}

abbrev pub ready_bit : SessionState
ready_bit = record {
  secure = false;
  authn = false;
  ready = true;
  received = false;
  output_stream_closed = false;
  input_stream_closed = false;
  s2s = false;
}

-- `state | mask`.
unfoldable pub union : SessionState → SessionState → SessionState
union a b = record {
  secure = a.secure || b.secure;
  authn = a.authn || b.authn;
  ready = a.ready || b.ready;
  received = a.received || b.received;
  output_stream_closed = a.output_stream_closed || b.output_stream_closed;
  input_stream_closed = a.input_stream_closed || b.input_stream_closed;
  s2s = a.s2s || b.s2s;
}

-- What the loop returns: the bits, whether there is a new connection, the error, and the state and
-- the negotiated namespaces that the session is left with; or the call of a nil function.
pub data Outcome (E : Type 0) : Type 0 where
  returned : SessionState → Bool → Option E → SessionState → List Bytes → Outcome E
  panicked out_of_fuel : Outcome E

abbrev pub is_done : {E : Type 0} → Outcome E → Bool
is_done out_of_fuel = false
is_done _ = true

module _ {E D : Type 0} (forced : Option (StreamFeature E D)) (list : StreamFeaturesList E D)
    (known : List (Bytes × Option D)) (orders : ℕ → List (SfData E D)) where
  -- The data that Parse left for a feature; a missing key gives nil.
  abbrev data_of : Bytes → Option D
  data_of space = elim (map_get text_eq space known) [ some value ↦ value | none ↦ none ]

  unfoldable pub client_loop : ℕ → SessionState → List Bytes → Outcome E
  client_loop zero state negotiated = out_of_fuel
  client_loop (suc fuel) state negotiated = elim (client_choice forced negotiated (orders fuel)) [
    | none ↦ returned ready_bit false none state negotiated
    | some d ↦ elim (is_empty d.feature.name.local) [
      | true ↦ returned ready_bit false none state negotiated
      | false ↦ elim d.feature.negotiate [
        | none ↦ panicked
        | some negotiate ↦
            let (mask, rw, e) = negotiate (data_of d.feature.name.space) in
            let state' : SessionState = elim e [ none ↦ union state mask | some _ ↦ state ] in
            let negotiated' = d.feature.name.space ∷ negotiated in
            elim (rw || d.req) [
              | true ↦
                  returned (if not list.req then union mask ready_bit else mask) rw e state'
                    negotiated'
              | false ↦ client_loop fuel state' negotiated'
            ]
      ]
    ]
  ]

module _ {E D : Type 0} where
  -- How many entries can still be negotiated.
  unfoldable pub open_count : List Bytes → List (SfData E D) → ℕ
  open_count negotiated [] = 0
  open_count negotiated (v ∷ vs) =
      (if is_open negotiated v then 1 else 0) + open_count negotiated vs

  open_count_bound :
      (negotiated : List Bytes) (vs : List (SfData E D)) → open_count negotiated vs ≤ length vs
  unfolding open_count
  open_count_bound negotiated [] = omega arith
  open_count_bound negotiated (v ∷ vs) = let ih = open_count_bound negotiated vs in ground arith

  open_count_more :
      (negotiated : List Bytes) (space : Bytes) (vs : List (SfData E D))
      → open_count (space ∷ negotiated) vs ≤ open_count negotiated vs
  unfolding open_count
  open_count_more negotiated space [] = omega arith
  open_count_more negotiated space (v ∷ vs) =
      let ih = open_count_more negotiated space vs in ground arith

  open_count_less :
      (negotiated : List Bytes) (v : SfData E D) (vs : List (SfData E D))
      → IsIn v vs
      → is_open negotiated v ≡ true
      → open_count (v.feature.name.space ∷ negotiated) vs < open_count negotiated vs
  unfolding open_count
  open_count_less negotiated v [] there free = absurd there
  open_count_less negotiated v (u ∷ us) (inl e) free =
      let free' : is_open negotiated u ≡ true = sym (ap (λ k. is_open negotiated k) e) ∙ free in
      let hit : text_eq v.feature.name.space u.feature.name.space ≡ true =
        (text_eq_iff v.feature.name.space u.feature.name.space).1
          (ap (λ (k : SfData E D). k.feature.name.space) e) in
      let more = open_count_more negotiated v.feature.name.space us in ground arith
  open_count_less negotiated v (u ∷ us) (inr there) free =
      let ih = open_count_less negotiated v us there free in ground arith

  module _ (list : StreamFeaturesList E D) (known : List (Bytes × Option D))
      (orders : ℕ → List (SfData E D)) (entries : List (SfData E D)) where
    loop_ends :
        (fuel : ℕ) (state : SessionState) (negotiated : List Bytes)
        → ((n : ℕ) (v : SfData E D) → IsIn v (orders n) → IsIn v entries)
        → open_count negotiated entries < fuel
        → is_done (client_loop none list known orders fuel state negotiated) ≡ true
    unfolding client_loop
    loop_ends zero state negotiated within enough = absurd (omega (arith, enough))
    loop_ends (suc fuel) state negotiated within enough =
        elim (client_choice_best negotiated (orders fuel)) [
          | inl (nothing, h) ↦ rw (nothing, client_loop) refl
          | inr (v, chosen, there, free, best) ↦
              let less = open_count_less negotiated v entries (within fuel v there) free in
              rw (chosen, client_loop)
                (elim (Bool-cases (is_empty v.feature.name.local)) [
                  | inl e ↦ rw e refl
                  | inr e ↦ rw e (elim (Option-cases v.feature.negotiate) [
                    | inl n ↦ rw n refl
                    | inr (f, n) ↦
                        rw n
                          (elim (Bool-cases (
                            (f (data_of none list known orders v.feature.name.space)).1 || v.req)) [
                              | inl r ↦ rw r refl
                              | inr r ↦ rw r (
                                  loop_ends fuel _ (v.feature.name.space ∷ negotiated) within
                                    (omega (arith, less, enough)))
                            ])
                  ])
                ])
        ]

    forced_ends :
        (f : StreamFeature E D) (fuel : ℕ) (state : SessionState) (negotiated : List Bytes)
        → is_done (client_loop (some f) list known orders (suc fuel) state negotiated) ≡ true
    unfolding client_loop client_choice
    forced_ends f fuel state negotiated = elim (Bool-cases (is_empty f.name.local)) [
      | inl e ↦ rw (e, is_done, client_loop) refl
      | inr e ↦
          rw (e, is_done, client_loop)
            (elim (Option-cases f.negotiate) [
              | inl n ↦ rw n refl
              | inr (g, n) ↦
                  rw n
                    (elim (Bool-cases ((g (data_of (some f) list known orders f.name.space)).1)) [
                      | inl r ↦ rw r refl
                      | inr r ↦ rw r refl
                    ])
            ])
    ]

    -- The client's loop ends: if each round meets only entries of a list, in any order, more rounds
    -- than the list has entries are never needed, whatever Negotiate returns.
    pub client_loop_ends :
        (forced : Option (StreamFeature E D)) (fuel : ℕ) (state : SessionState)
        (negotiated : List Bytes)
        → ((n : ℕ) (v : SfData E D) → IsIn v (orders n) → IsIn v entries)
        → length entries < fuel
        → is_done (client_loop forced list known orders fuel state negotiated) ≡ true
    client_loop_ends none fuel state negotiated within enough =
        loop_ends fuel state negotiated within
          (omega (arith, open_count_bound negotiated entries, enough))
    client_loop_ends (some f) zero state negotiated within enough = absurd (omega (arith, enough))
    client_loop_ends (some f) (suc fuel) state negotiated within enough =
        forced_ends f fuel state negotiated

    -- If an optional feature with a localname is selected, its Negotiate returns an error and no
    -- new
    -- connection, and nothing is left to select behind it, then the client returns Ready and no
    -- error.
    pub error_dropped :
        (fuel : ℕ) (state : SessionState) (negotiated : List Bytes) (v : SfData E D)
        {f : Option D → SessionState × Bool × Option E} {mask : SessionState} {bad : E}
        → client_choice none negotiated (orders (suc fuel)) ≡ some v
        → is_empty v.feature.name.local ≡ false
        → v.feature.negotiate ≡ some f
        → f (data_of none list known orders v.feature.name.space) ≡ (mask, false, some bad)
        → v.req ≡ false
        → client_choice none (v.feature.name.space ∷ negotiated) (orders fuel) ≡ none
        → client_loop none list known orders (suc (suc fuel)) state negotiated
          ≡ returned ready_bit false none state (v.feature.name.space ∷ negotiated)
    unfolding client_loop
    error_dropped fuel state negotiated v chosen named has_negotiate fails optional nothing =
        let no_restart = ap (λ (r : SessionState × Bool × Option E). r.1) fails in
        let failed = ap (λ (r : SessionState × Bool × Option E). r.2) fails in
        rw (chosen, client_loop)
          (rw named (
            rw has_negotiate
              (rw (no_restart, optional) (rw (nothing, client_loop) (rw failed refl)))))
