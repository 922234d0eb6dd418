-- ===== src/Mux/Register.antt =====
-- What an option adds to a multiplexer.
use xmpp.Prelude.{
  map_get, true, false, none, some, List, ◌∷◌, ◌≡◌, refl, sym, ◌∙◌, Bytes, text_eq_iff, ok, err,
  arith, Option-cases, Result-cases, inl, inr, subst, ok-injective,
}
use xmpp.Xml.{Name, name_eq_iff}
use xmpp.Mux.{
  Pattern, pattern_eq, ServeMux, registered_twice, registered, iq_stanza, best_match, iq_handler,
  add_pattern, iq,
}

pub pattern_eq_refl : (q : Pattern) → pattern_eq q q ≡ true
unfolding pattern_eq
pattern_eq_refl q = ground (
  arith,
  name_eq_iff q.payload q.payload,
  text_eq_iff q.stanza q.stanza,
  text_eq_iff q.type q.type,
)

module _ {H : Type 0} where
  added :
      (pat : Pattern) (h : H) (table : List (Pattern × H))
      → map_get pattern_eq pat table ≡ none
      → add_pattern pat (some h) table ≡ ok ((pat, h) ∷ table)
  unfolding add_pattern
  added pat h table e = rw (e, add_pattern)

  refused :
      (pat : Pattern) (h : H) (table : List (Pattern × H)) {old : H}
      → map_get pattern_eq pat table ≡ some old
      → add_pattern pat (some h) table ≡ err (registered_twice pat)
  unfolding add_pattern
  refused pat h table e = rw (e, add_pattern)

  -- An addition that succeeds puts the pattern in front of a table that did not have it.
  add_ok :
      (pat : Pattern) (h : H) (table : List (Pattern × H)) {table' : List (Pattern × H)}
      → add_pattern pat (some h) table ≡ ok table'
      → (map_get pattern_eq pat table ≡ none) × (table' ≡ (pat, h) ∷ table)
  add_ok pat h table e = elim (Option-cases (map_get pattern_eq pat table)) [
    | inl absent ↦ (absent, ok-injective (sym e ∙ added pat h table absent))
    | inr (old, there) ↦ absurd (cc (refused pat h table there))
  ]

  get_self :
      (pat : Pattern) (h : H) (table : List (Pattern × H))
      → map_get pattern_eq pat ((pat, h) ∷ table) ≡ some h
  unfolding map_get
  get_self pat h table = rw (pattern_eq_refl pat)

  get_other :
      (pat q : Pattern) (h : H) (table : List (Pattern × H))
      → pattern_eq pat q ≡ false
      → map_get pattern_eq q ((pat, h) ∷ table) ≡ map_get pattern_eq q table
  unfolding map_get
  get_other pat q h table e = rw e

  best_match_self :
      (stanza type : Bytes) (payload : Name) (h : H) (table : List (Pattern × H))
      → best_match
          ((record { payload = payload; stanza = stanza; type = type }, h) ∷ table)
          stanza
          type
          payload
        ≡ some h
  unfolding best_match
  best_match_self stanza type payload h table =
      rw (get_self (record { payload = payload; stanza = stanza; type = type }) h table, best_match)

  -- What an option does to the table of one kind of stanza: `before` and `after` are the tables,
  -- `again` registers a handler for the same pattern once more, `found` is the lookup afterwards.
  abbrev pub Registered : Pattern → H → List (Pattern × H) → List (Pattern × H) → Type 0
  Registered pat h before after =
      (map_get pattern_eq pat before ≡ none)
      × (map_get pattern_eq pat after ≡ some h)
      × ((q : Pattern)
          → pattern_eq pat q ≡ false
          → map_get pattern_eq q after ≡ map_get pattern_eq q before)
      × ((h' : H) → add_pattern pat (some h') after ≡ err (registered_twice pat))

  add-Registered :
      (pat : Pattern) (h : H) (table : List (Pattern × H)) {table' : List (Pattern × H)}
      → add_pattern pat (some h) table ≡ ok table'
      → Registered pat h table table'
  add-Registered pat h table {table'} e =
      let (absent, same) = add_ok pat h table e in
      subst (Registered pat h table) (sym same) (
        absent,
        get_self pat h table,
        λ q other. get_other pat q h table other,
        λ h'. refused pat h' ((pat, h) ∷ table) (get_self pat h table),
      )

module _ {H : Type 0} (type : Bytes) (payload : Name) (h : H) (m : ServeMux H) where
  iq_adds :
      {m' : ServeMux H}
      → iq type payload (some h) m ≡ ok m'
      → (table : List (Pattern × H)) × (add_pattern
            (record { payload = payload; stanza = iq_stanza; type = type })
            (some h)
            m.iq_patterns
          ≡ ok table)
        × (m' ≡ record m { iq_patterns = table })
  unfolding iq
  iq_adds {m'} e =
      elim (Result-cases (
        add_pattern (record { payload = payload; stanza = iq_stanza; type = type }) (some h)
          m.iq_patterns)) [
            | inl (table, a) ↦ (table, a, ok-injective (sym e ∙ rw a))
            | inr (x, a) ↦ absurd (ground arith)
          ]

  -- An IQ option with a handler that does not panic registers the handler under its pattern, which
  -- had none: the lookup for this type and payload returns it, other patterns keep their handlers,
  -- the rest of the multiplexer is unchanged, and another registration of the pattern panics.
  pub iq_registers :
      {m' : ServeMux H}
      → iq type payload (some h) m ≡ ok m'
      → Registered
          (record { payload = payload; stanza = iq_stanza; type = type })
          h
          m.iq_patterns
          m'.iq_patterns
        × (iq_handler m' type payload ≡ (registered h, true))
        × (m' ≡ record m { iq_patterns = m'.iq_patterns })
  unfolding iq_handler
  iq_registers e =
      let (table, a, same) = iq_adds e in
      let pat : Pattern = record { payload = payload; stanza = iq_stanza; type = type } in
      let (absent, front) = add_ok pat h m.iq_patterns a in
      subst
        (λ n.
          Registered pat h m.iq_patterns n.iq_patterns
          × (iq_handler n type payload ≡ (registered h, true))
          × (n ≡ record m { iq_patterns = n.iq_patterns }))
        (sym same)
        (
          add-Registered pat h m.iq_patterns a,
          rw (front, best_match_self iq_stanza type payload h m.iq_patterns, iq_handler),
          refl,
        )
