-- ===== src/Mux/Iterate.antt =====
-- mux/mux.go: ForItems, ForFeatures, ForIdentities and ForForms. An iterator acts on the state of
-- the caller's function and may end with an error; `iter` says which handlers have one. The order
-- in which a map is gone through is that of its entries here.
use xmpp.Prelude.{Option, none, some, List, [], ◌∷◌, ◌++◌, ◌≡◌, refl, sym, ap, ◌∙◌, map}
use xmpp.Mux.{ServeMux}

module _ {H S E : Type 0} (iter : H → Option (S → S × Option E)) where
  abbrev pub unless_failed : (S → S × Option E) → S × Option E → S × Option E
  unless_failed next (s, some e) = (s, some e)
  unless_failed next (s, none) = next s

  abbrev pub iterate : Option (S → S × Option E) → S → S × Option E
  iterate none s = (s, none)
  iterate (some f) s = f s

  -- The loop over some handlers, up to the first error.
  unfoldable pub for_all : List H → S → S × Option E
  for_all [] s = (s, none)
  for_all (h ∷ hs) s = unless_failed (λ s'. for_all hs s') (iterate (iter h) s)

  abbrev pub handlers {ℓ} : {K : Type ℓ} → List (K × H) → List H
  handlers table = map (λ e. e.1) table

  -- The loops over the four tables, which each of the functions has.
  unfoldable pub for_tables : ServeMux H → S → S × Option E
  for_tables m s = unless_failed (for_all (handlers m.presence_patterns)) (
      unless_failed (for_all (handlers m.msg_patterns))
        (unless_failed (for_all (handlers m.iq_patterns)) (for_all (handlers m.patterns) s)))

  unfoldable pub for_items : ServeMux H → S → S × Option E
  for_items m s = for_tables m s

  unfoldable pub for_forms : ServeMux H → S → S × Option E
  for_forms m s = for_tables m s

  -- `ForFeatures` and `ForIdentities`, which end with what was registered by itself.
  unfoldable pub for_features : ServeMux H → S → S × Option E
  for_features m s = unless_failed (for_all m.features) (for_tables m s)

  unfoldable pub for_identities : ServeMux H → S → S × Option E
  for_identities m s = unless_failed (for_all m.idents) (for_tables m s)

  for_all_more :
      (gs hs : List H) (r : S × Option E)
      → ((s : S) → for_all (gs ++ hs) s ≡ unless_failed (for_all hs) (for_all gs s))
      → unless_failed (for_all (gs ++ hs)) r
        ≡ unless_failed (for_all hs) (unless_failed (for_all gs) r)
  for_all_more gs hs (s, some e) h = refl
  for_all_more gs hs (s, none) h = h s

  for_all-append :
      (gs hs : List H) (s : S) → for_all (gs ++ hs) s ≡ unless_failed (for_all hs) (for_all gs s)
  unfolding for_all
  for_all-append [] hs s = refl
  for_all-append (g ∷ gs) hs s =
      for_all_more gs hs (iterate (iter g) s) (λ s'. for_all-append gs hs s')

  abbrev pub all_handlers : ServeMux H → List H
  all_handlers m =
      ((handlers m.patterns ++ handlers m.iq_patterns) ++ handlers m.msg_patterns)
      ++ handlers m.presence_patterns

  for_tables_all : (m : ServeMux H) (s : S) → for_tables m s ≡ for_all (all_handlers m) s
  unfolding for_tables
  for_tables_all m s = sym (
      for_all-append ((handlers m.patterns ++ handlers m.iq_patterns) ++ handlers m.msg_patterns)
        (handlers m.presence_patterns) s
      ∙ ap (unless_failed (for_all (handlers m.presence_patterns))) (
          for_all-append (handlers m.patterns ++ handlers m.iq_patterns) (handlers m.msg_patterns) s
          ∙ ap (unless_failed (for_all (handlers m.msg_patterns)))
              (for_all-append (handlers m.patterns) (handlers m.iq_patterns) s)))

  -- Items and forms are those of all registered handlers, up to the first error, in the order of
  -- the four tables; features and identities have those that were registered by themselves behind
  -- them.
  pub iterators_all :
      (m : ServeMux H) (s : S)
      → (for_items m s ≡ for_all (all_handlers m) s)
        × (for_forms m s ≡ for_all (all_handlers m) s)
        × (for_features m s ≡ for_all (all_handlers m ++ m.features) s)
        × (for_identities m s ≡ for_all (all_handlers m ++ m.idents) s)
  unfolding for_items for_forms for_features for_identities
  iterators_all m s = (
    for_tables_all m s,
    for_tables_all m s,
    ap (unless_failed (for_all m.features)) (for_tables_all m s)
        ∙ sym (for_all-append (all_handlers m) m.features s),
    ap (unless_failed (for_all m.idents)) (for_tables_all m s)
        ∙ sym (for_all-append (all_handlers m) m.idents s),
  )
