-- ===== src/Mux/Best.antt =====
-- The registered pattern that serves a payload best, and the lookup that finds it.
use xmpp.Prelude.{
  map_get, ℕ, ◌+◌, ◌≤◌, if◌then◌else◌, false, Option, none, some, List, [], ◌∷◌, ◌≡◌, ◌⊎◌, inl, inr,
  refl, ap, subst, ◌∙◌, Bytes, is_empty, arith,
}
use xmpp.Xml.{Name}
use xmpp.Mux.{Pattern, pattern_eq, best_match}

-- The place of a pattern in the code's order: first one with both names, then one without the
-- namespace, then one without the localname, then one without either. The documentation has the
-- two in the middle the other way round.
abbrev pub rank : Pattern → ℕ
rank q = (if is_empty q.payload.space then 1 else 0) + (if is_empty q.payload.local then 2 else 0)

-- The pattern is for such stanzas, and each part of its name is left off or that of the payload.
pub record Applies (stanza type : Bytes) (payload : Name) (q : Pattern) : Type 0 where
  pub same_stanza : q.stanza ≡ stanza
  pub same_type : q.type ≡ type
  pub space_matches : (q.payload.space ≡ []) ⊎ (q.payload.space ≡ payload.space)
  pub local_matches : (q.payload.local ≡ []) ⊎ (q.payload.local ≡ payload.local)

empty_cases : (s : Bytes) → (s ≡ []) ⊎ (is_empty s ≡ false)
empty_cases [] = inl refl
empty_cases (c ∷ s) = inr refl

module _ {H : Type 0} (table : List (Pattern × H)) (stanza type : Bytes) (payload : Name) where
  abbrev pub key : Bytes → Bytes → Pattern
  key space local = record {
    payload = record { space = space; local = local };
    stanza = stanza;
    type = type;
  }

  abbrev pub get : Pattern → Option H
  get q = map_get pattern_eq q table

  -- What a lookup that found a handler promises.
  abbrev pub IsBest : H → Pattern → Type 0
  IsBest h q =
      (get q ≡ some h)
      × Applies stanza type payload q
      × ((q' : Pattern) (h' : H)
          → get q' ≡ some h'
          → Applies stanza type payload q'
          → rank q ≤ rank q')

  Pattern_path :
      (q : Pattern) {space local : Bytes}
      → Applies stanza type payload q
      → q.payload.space ≡ space
      → q.payload.local ≡ local
      → q ≡ key space local
  Pattern_path q a e f = λ i. record {
    payload = record { space = e i; local = f i };
    stanza = a.same_stanza i;
    type = a.same_type i;
  }

  -- A pattern that applies is one of the four that are looked up.
  four_keys :
      (q : Pattern)
      → Applies stanza type payload q
      → (q ≡ key payload.space payload.local)
        ⊎ ((q ≡ key [] payload.local) ⊎ ((q ≡ key payload.space []) ⊎ (q ≡ key [] [])))
  four_keys q a = elim a.space_matches [
    | inl e ↦ elim a.local_matches [
      | inl f ↦ inr (inr (inr (Pattern_path q a e f)))
      | inr f ↦ inr (inl (Pattern_path q a e f))
    ]
    | inr e ↦ elim a.local_matches [
      | inl f ↦ inr (inr (inl (Pattern_path q a e f)))
      | inr f ↦ inl (Pattern_path q a e f)
    ]
  ]

  key-Applies :
      (space local : Bytes)
      → (space ≡ []) ⊎ (space ≡ payload.space)
      → (local ≡ []) ⊎ (local ≡ payload.local)
      → Applies stanza type payload (key space local)
  key-Applies space local s l = record {
    same_stanza = refl;
    same_type = refl;
    space_matches = s;
    local_matches = l;
  }

  absent : (q q' : Pattern) {h : H} → get q ≡ none → get q' ≡ some h → q' ≡ q → ⊥
  absent q q' missing found same = cc

  -- The lookups one after the other: each finds the best pattern if those before it found none.
  IsBest-1 :
      {h : H}
      → get (key payload.space payload.local) ≡ some h
      → IsBest h (key payload.space payload.local)
  IsBest-1 {h} e = (
    e,
    key-Applies payload.space payload.local (inr refl) (inr refl),
    λ q' h' g a. elim (four_keys q' a) [
      | inl f ↦ rw f (ground arith)
      | inr (inl f) ↦ rw f (ground arith)
      | inr (inr (inl f)) ↦ rw f (ground arith)
      | inr (inr (inr f)) ↦ rw f (ground arith)
    ],
  )

  -- Where the payload has no localname, the third pattern is the first.
  same_key :
      get (key payload.space payload.local) ≡ none
      → payload.local ≡ []
      → get (key payload.space []) ≡ none
  same_key missing e = subst (λ l. get (key payload.space l) ≡ none) e missing

  IsBest-2 :
      {h : H}
      → get (key payload.space payload.local) ≡ none
      → get (key [] payload.local) ≡ some h
      → IsBest h (key [] payload.local)
  IsBest-2 {h} missing e = (
    e,
    key-Applies [] payload.local (inl refl) (inr refl),
    λ q' h' g a. elim (four_keys q' a) [
      | inl f ↦ absurd (absent (key payload.space payload.local) q' missing g f)
      | inr (inl f) ↦ rw f (ground arith)
      | inr (inr (inl f)) ↦ elim (empty_cases payload.local) [
        | inl none_left ↦ absurd (absent (key payload.space []) q' (same_key missing none_left) g f)
        | inr some_left ↦ rw f (ground arith)
      ]
      | inr (inr (inr f)) ↦ rw f (ground arith)
    ],
  )

  IsBest-3 :
      {h : H}
      → get (key payload.space payload.local) ≡ none
      → get (key [] payload.local) ≡ none
      → get (key payload.space []) ≡ some h
      → IsBest h (key payload.space [])
  IsBest-3 {h} missing missing' e = (
    e,
    key-Applies payload.space [] (inr refl) (inl refl),
    λ q' h' g a. elim (four_keys q' a) [
      | inl f ↦ absurd (absent (key payload.space payload.local) q' missing g f)
      | inr (inl f) ↦ absurd (absent (key [] payload.local) q' missing' g f)
      | inr (inr (inl f)) ↦ rw f (ground arith)
      | inr (inr (inr f)) ↦ rw f (ground arith)
    ],
  )

  IsBest-4 :
      {h : H}
      → get (key payload.space payload.local) ≡ none
      → get (key [] payload.local) ≡ none
      → get (key payload.space []) ≡ none
      → get (key [] []) ≡ some h
      → IsBest h (key [] [])
  IsBest-4 {h} missing missing' missing'' e = (
    e,
    key-Applies [] [] (inl refl) (inl refl),
    λ q' h' g a. elim (four_keys q' a) [
      | inl f ↦ absurd (absent (key payload.space payload.local) q' missing g f)
      | inr (inl f) ↦ absurd (absent (key [] payload.local) q' missing' g f)
      | inr (inr (inl f)) ↦ absurd (absent (key payload.space []) q' missing'' g f)
      | inr (inr (inr f)) ↦ rw f (ground arith)
    ],
  )

  found :
      (h : H)
      → best_match table stanza type payload ≡ some h
      → (get (key payload.space payload.local) ≡ some h)
        ⊎ (((get (key payload.space payload.local) ≡ none) × (get (key [] payload.local) ≡ some h))
            ⊎ (((get (key payload.space payload.local) ≡ none)
                  × (get (key [] payload.local) ≡ none)
                  × (get (key payload.space []) ≡ some h))
                ⊎ ((get (key payload.space payload.local) ≡ none)
                    × (get (key [] payload.local) ≡ none)
                    × (get (key payload.space []) ≡ none)
                    × (get (key [] []) ≡ some h))))
  unfolding best_match
  found h e = ground arith

  not_found :
      best_match table stanza type payload ≡ none
      → (get (key payload.space payload.local) ≡ none)
        × (get (key [] payload.local) ≡ none)
        × (get (key payload.space []) ≡ none)
        × (get (key [] []) ≡ none)
  unfolding best_match
  not_found e = ground arith

  pub best_match_found :
      (h : H) → best_match table stanza type payload ≡ some h → (q : Pattern) × IsBest h q
  best_match_found h e = elim (found h e) [
    | inl a ↦ (key payload.space payload.local, IsBest-1 a)
    | inr (inl (a, b)) ↦ (key [] payload.local, IsBest-2 a b)
    | inr (inr (inl (a, b, c))) ↦ (key payload.space [], IsBest-3 a b c)
    | inr (inr (inr (a, b, c, d))) ↦ (key [] [], IsBest-4 a b c d)
  ]

  -- No registered pattern applies.
  abbrev pub NoneApplies : Type 0
  NoneApplies = (q : Pattern) → Applies stanza type payload q → get q ≡ none

  pub none_best : NoneApplies → best_match table stanza type payload ≡ none
  unfolding best_match
  none_best free = rw (
    free (key payload.space payload.local)
        (key-Applies payload.space payload.local (inr refl) (inr refl)),
    free (key [] payload.local) (key-Applies [] payload.local (inl refl) (inr refl)),
    free (key payload.space []) (key-Applies payload.space [] (inr refl) (inl refl)),
    free (key [] []) (key-Applies [] [] (inl refl) (inl refl)),
    best_match,
  )

  pub best_match_none : best_match table stanza type payload ≡ none → NoneApplies
  best_match_none e q a =
      let (e1, e2, e3, e4) = not_found e in
      elim (four_keys q a) [
        | inl f ↦ ap get f ∙ e1
        | inr (inl f) ↦ ap get f ∙ e2
        | inr (inr (inl f)) ↦ ap get f ∙ e3
        | inr (inr (inr f)) ↦ ap get f ∙ e4
      ]
