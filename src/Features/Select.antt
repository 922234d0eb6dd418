-- ===== src/Features/Select.antt =====
-- Which feature a client selects, whatever the order of its loop over the map.
use xmpp.Prelude.{
  Bool, true, false, not, ◌||◌, Option, none, some, List, [], ◌∷◌, ◌≡◌, ◌⊎◌, inl, inr, refl, sym,
  ap, ◌∙◌, Bytes, text_eq, text_eq_iff, map_get, All, arith, Bool-cases,
}
use xmpp.Features.{
  SessionState, StreamFeature, SfData, StreamFeaturesList, ns_starttls, contains_starttls,
  do_starttls, was_negotiated, can_negotiate, select, client_choice, go_on, check_list,
}

module _ {E D : Type 0} where
  -- Neither negotiated before nor informational.
  abbrev pub is_open : List Bytes → SfData E D → Bool
  is_open negotiated v = not (was_negotiated negotiated v || not (can_negotiate v))

  abbrev pub IsIn : SfData E D → List (SfData E D) → Type 0
  IsIn v [] = ⊥
  IsIn v (u ∷ us) = (v ≡ u) ⊎ IsIn v us

  module _ (negotiated : List Bytes) where
    -- No entry can be selected, or none that is optional.
    abbrev pub NoneOpen : List (SfData E D) → Type 0
    NoneOpen = All (λ u. is_open negotiated u ≡ false)

    abbrev pub NoneOptional : List (SfData E D) → Type 0
    NoneOptional = All (λ u. (is_open negotiated u ≡ false) ⊎ (u.req ≡ true))

    abbrev pub Selected : List (SfData E D) → Option (SfData E D) → Type 0
    Selected order r =
        (v : SfData E D) × (r ≡ some v)
        × IsIn v order
        × (is_open negotiated v ≡ true)
        × ((v.req ≡ false) ⊎ NoneOptional order)

    weaken : (order : List (SfData E D)) → NoneOpen order → NoneOptional order
    weaken [] h = tt
    weaken (u ∷ us) (e, h) = (inl e, weaken us h)

    select_skip :
        (v : SfData E D) (order : List (SfData E D)) (chosen : Option (SfData E D))
        → is_open negotiated v ≡ false
        → select negotiated (v ∷ order) chosen ≡ select negotiated order chosen
    unfolding select
    select_skip v order chosen e = ground arith

    select_optional :
        (v : SfData E D) (order : List (SfData E D)) (chosen : Option (SfData E D))
        → is_open negotiated v ≡ true
        → v.req ≡ false
        → select negotiated (v ∷ order) chosen ≡ some v
    unfolding select
    select_optional v order chosen e o = ground arith

    select_required :
        (v : SfData E D) (order : List (SfData E D)) (chosen : Option (SfData E D))
        → is_open negotiated v ≡ true
        → v.req ≡ true
        → select negotiated (v ∷ order) chosen ≡ select negotiated order (some v)
    unfolding select
    select_required v order chosen e q = ground arith

    select_cases :
        (order : List (SfData E D)) (chosen : Option (SfData E D))
        → ((select negotiated order chosen ≡ chosen) × NoneOpen order)
          ⊎ Selected order (select negotiated order chosen)
    select_cases [] chosen = inl (unfold select in refl, tt)
    select_cases (v ∷ order) chosen = elim (Bool-cases (is_open negotiated v)) [
      | inr e ↦
          let next = select_skip v order chosen e in
          elim (select_cases order chosen) [
            | inl (same, h) ↦ inl (next ∙ same, (e, h))
            | inr (w, r, there, free, best) ↦
                inr (
                  w,
                  next ∙ r,
                  inr there,
                  free,
                  elim best [ inl o ↦ inl o | inr h ↦ inr (inl e, h) ],
                )
          ]
      | inl e ↦ elim (Bool-cases v.req) [
        | inr o ↦ inr (v, select_optional v order chosen e o, inl refl, e, inl o)
        | inl q ↦
            let next = select_required v order chosen e q in
            elim (select_cases order (some v)) [
              | inl (same, h) ↦ inr (v, next ∙ same, inl refl, e, inr (inr q, weaken order h))
              | inr (w, r, there, free, best) ↦ inr (
                w,
                next ∙ r,
                inr there,
                free,
                elim best [ inl o ↦ inl o | inr h ↦ inr (inr q, h) ],
              )
            ]
      ]
    ]

    -- Without StartTLS forced, the client selects an entry of the cache that is open, that is
    -- neither
    -- negotiated before nor informational, in any order of the loop: an optional one if there is an
    -- open optional one, else a required one; it selects nothing exactly if no entry is open.
    pub client_choice_best :
        (order : List (SfData E D))
        → ((client_choice none negotiated order ≡ none) × NoneOpen order)
          ⊎ Selected order (client_choice none negotiated order)
    unfolding client_choice
    client_choice_best order = select_cases order none

  contains_space :
      (features : List (StreamFeature E D)) {f : StreamFeature E D}
      → contains_starttls features ≡ some f
      → f.name.space ≡ ns_starttls
  unfolding contains_starttls
  contains_space [] e = absurd (cc e)
  contains_space (g ∷ features) {f} e = elim (Bool-cases (text_eq g.name.space ns_starttls)) [
    | inl h ↦
        let same : g ≡ f = ground arith in
        sym (ap (λ (k : StreamFeature E D). k.name.space) same)
        ∙ (text_eq_iff g.name.space ns_starttls).0 h
    | inr h ↦ contains_space features {f = f} (ground arith)
  ]

  -- On a first list without StartTLS, read on a connection that is not secure, by a client that has
  -- the feature: whatever the list holds, the client neither stops nor fails at the list, and
  -- what it
  -- selects next is StartTLS, as required.
  pub starttls_forced :
      (state : SessionState) (features : List (StreamFeature E D)) (list : StreamFeaturesList E D)
      (negotiated : List Bytes) (order : List (SfData E D)) {f : StreamFeature E D}
      → state.secure ≡ false
      → map_get text_eq ns_starttls list.cache ≡ none
      → contains_starttls features ≡ some f
      → (check_list (do_starttls true state features list) list ≡ go_on)
        × (client_choice (do_starttls true state features list) negotiated order
            ≡ some (record { req = true; feature = f }))
        × (f.name.space ≡ ns_starttls)
  unfolding do_starttls check_list client_choice
  starttls_forced state features list negotiated order {f} insecure absent found =
      let forced : do_starttls true state features list ≡ some f = forced_by in
      (rw (forced, check_list) refl, rw (forced, client_choice) refl, contains_space features found)
    where
      forced_by : do_starttls true state features list ≡ some f
      forced_by = rw (absent, do_starttls) (rw insecure found)
