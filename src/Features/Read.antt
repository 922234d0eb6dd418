-- ===== src/Features/Read.antt =====
-- What the lists of features hold that the server writes and the client reads.
use xmpp.Prelude.{
  suc, if◌then◌else◌, true, false, not, ◌&&◌, ◌||◌, Option, none, some, List, [], ◌∷◌, ◌≡◌, ◌⊎◌,
  inl, inr, refl, sym, ap, subst, ◌∙◌, Bytes, codes, text_eq, text_eq_iff, map_get, map_set-All,
  map_get-All, All, Result, ok, err, Result-cases, Option-cases, arith, Bool-cases,
}
use xmpp.Xml.{
  Name, name_eq, name_eq_iff, StartElement, Token, start_element, end_element, char_data, misc,
}
use xmpp.Features.{
  SessionState, StreamFeature, SfData, StreamFeaturesList, ListError, get_feature, is_allowed,
  empty_list, add_data, list_features, read_feature, read_features, read_stream_features, ns_stream,
  is_negotiated, can_negotiate, server_accepts,
}

module _ {E D : Type 0} (state : SessionState) (features : List (StreamFeature E D)) where
  abbrev pub IsAmong : StreamFeature E D → List (StreamFeature E D) → Type 0
  IsAmong f [] = ⊥
  IsAmong f (g ∷ gs) = (f ≡ g) ⊎ IsAmong f gs

  -- An entry of the cache: a feature of the session under its namespace, whose bits allow it.
  pub record IsEntry (e : Bytes × SfData E D) : Type 0 where
    pub among : IsAmong e.1.feature features
    pub space : e.1.feature.name.space ≡ e.0
    pub allowed : is_allowed state e.1.feature ≡ true

  abbrev pub IsCache : StreamFeaturesList E D → Type 0
  IsCache sf = All IsEntry sf.cache

  get_feature-IsAmong :
      (name : Name) (gs : List (StreamFeature E D)) {f : StreamFeature E D}
      → get_feature name gs ≡ some f
      → IsAmong f gs × (f.name ≡ name)
  unfolding get_feature
  get_feature-IsAmong name [] e = absurd (cc e)
  get_feature-IsAmong name (g ∷ gs) {f} e = elim (Bool-cases (name_eq g.name name)) [
    | inl h ↦
        let same : g ≡ f = ground arith in
        (
          inl (sym same),
          sym (ap (λ (k : StreamFeature E D). k.name) same) ∙ (name_eq_iff g.name name).0 h,
        )
    | inr h ↦
        let (there, named) = get_feature-IsAmong name gs {f = f} (ground arith) in
        (inr there, named)
  ]

  entry-IsCache :
      (k : Bytes) (d : SfData E D) (sf : StreamFeaturesList E D)
      → IsEntry (k, d)
      → IsCache sf
      → IsCache (add_data k d sf)
  entry-IsCache k d sf h c = map_set-All IsEntry k d sf.cache h c

  -- A list that was read without an error is a cache of entries.
  abbrev IsRead : Result (ListError E) (StreamFeaturesList E D × List (Bytes × Option D)) → Type 0
  IsRead (ok r) = IsCache r.0
  IsRead (err e) = Unit

  read_feature-IsRead :
      (tok : StartElement) (sf : StreamFeaturesList E D) (known : List (Bytes × Option D))
      → IsCache sf
      → IsRead (read_feature state features tok sf known)
  unfolding read_feature
  read_feature-IsRead tok sf known h = elim (Option-cases (get_feature tok.name features)) [
    | inl missing ↦ rw (missing, IsRead, read_feature) h
    | inr (f, found) ↦
        rw (found, IsRead, read_feature)
          (elim (Result-cases (f.parse tok)) [
            | inr (x, parsed) ↦ rw (parsed, IsRead) tt
            | inl ((r, value), parsed) ↦
                rw (parsed, IsRead)
                  (elim (Bool-cases (is_allowed state f)) [
                    | inr a ↦ rw (a, IsRead) h
                    | inl a ↦
                        let (there, named) = get_feature-IsAmong tok.name features {f = f} found in
                        rw (a, IsRead)
                          (entry-IsCache tok.name.space (record { req = r; feature = f })
                            (record sf { total = suc sf.total })
                            (record {
                              among = there;
                              space = ap (λ (n : Name). n.space) named;
                              allowed = a;
                            })
                            h)
                  ])
          ])
  ]

  read_features-IsRead :
      (ts : List (Option Token)) (sf : StreamFeaturesList E D) (known : List (Bytes × Option D))
      → IsCache sf
      → IsRead (read_features state features ts sf known)
  unfolding read_features
  read_features-IsRead [] sf known h = tt
  read_features-IsRead (none ∷ ts) sf known h = tt
  read_features-IsRead (some (start_element tok) ∷ ts) sf known h =
      elim (Result-cases (read_feature state features tok sf known)) [
        | inl ((sf', known'), e) ↦
            rw (e, IsRead, read_features)
              (read_features-IsRead ts sf' known'
                (subst IsRead e (read_feature-IsRead tok sf known h)))
        | inr (x, e) ↦ rw (e, IsRead, read_features) tt
      ]
  read_features-IsRead (some (end_element name) ∷ ts) sf known h =
      elim (Bool-cases (text_eq name.local (codes "features") && text_eq name.space ns_stream)) [
        | inl e ↦ rw (e, IsRead) h
        | inr e ↦ rw (e, IsRead) tt
      ]
  read_features-IsRead (some (char_data _) ∷ ts) sf known h = tt
  read_features-IsRead (some misc ∷ ts) sf known h = tt

  list_features-IsCache :
      (gs : List (StreamFeature E D)) (sf : StreamFeaturesList E D)
      → ((g : StreamFeature E D) → IsAmong g gs → IsAmong g features)
      → IsCache sf
      → IsCache (list_features state gs sf).0
  unfolding list_features
  list_features-IsCache [] sf below h = h
  list_features-IsCache (g ∷ gs) sf below h = elim (Bool-cases (is_allowed state g)) [
    | inr a ↦ rw a (list_features-IsCache gs sf (λ k there. below k (inr there)) h)
    | inl a ↦ rw a (elim (Result-cases g.list) [
      | inr (x, e) ↦ rw e h
      | inl (r, e) ↦ rw e (
          list_features-IsCache gs
            (record (add_data g.name.space (record { req = r; feature = g }) sf) {
              total = suc sf.total;
            })
            (λ k there. below k (inr there))
            (entry-IsCache g.name.space (record { req = r; feature = g }) sf
              (record { among = below g (inl refl); space = refl; allowed = a }) h))
    ])
  ]

  -- A list that the client reads without an error began with the start element of stream features,
  -- and each entry of its cache is one of the client's features, under its namespace, whose bits
  -- the
  -- session's state allows.
  pub read_stream_features-IsCache :
      (start : StartElement) (ts : List (Option Token)) (known : List (Bytes × Option D))
      {r : StreamFeaturesList E D × List (Bytes × Option D)}
      → read_stream_features state start features ts known ≡ ok r
      → IsCache r.0 × (start.name.local ≡ codes "features") × (start.name.space ≡ ns_stream)
  unfolding read_stream_features
  read_stream_features-IsCache start ts known {r} e =
      elim (Bool-cases (text_eq start.name.local (codes "features"))) [
        | inr l ↦ absurd (ground arith)
        | inl l ↦ elim (Bool-cases (text_eq start.name.space ns_stream)) [
          | inr n ↦ absurd (ground arith)
          | inl n ↦
              let same : read_features state features ts empty_list known ≡ ok r = ground arith in
              (
                subst IsRead same (read_features-IsRead ts empty_list known tt),
                (text_eq_iff start.name.local (codes "features")).0 l,
                (text_eq_iff start.name.space ns_stream).0 n,
              )
        ]
      ]

  server_miss :
      (negotiated : List Bytes) (sf : StreamFeaturesList E D) (space : Bytes)
      → map_get text_eq space sf.cache ≡ none
      → server_accepts negotiated sf space ≡ none
  unfolding server_accepts
  server_miss negotiated sf space e = rw (e, server_accepts) refl

  server_hit :
      (negotiated : List Bytes) (sf : StreamFeaturesList E D) (space : Bytes) {d : SfData E D}
      → map_get text_eq space sf.cache ≡ some d
      → server_accepts negotiated sf space
        ≡ (if is_negotiated negotiated space || not (can_negotiate d) then none else some d)
  unfolding server_accepts
  server_hit negotiated sf space e = rw (e, server_accepts) refl

  -- The entries of the list that a server writes.
  pub listed-IsEntry :
      (space : Bytes) {d : SfData E D}
      → map_get text_eq space (list_features state features empty_list).0.cache ≡ some d
      → IsEntry (space, d)
  listed-IsEntry space {d} found =
      map_get-All IsEntry space (list_features state features empty_list).0.cache {v = d}
        (list_features-IsCache features empty_list (λ g there. there) tt) found

  -- A feature that the server lets a client negotiate, out of the list that it wrote, is one of the
  -- server's features with the namespace that the client named; the session's state allowed it, it
  -- was not negotiated before, and it is not merely informational.
  pub server_accepts_listed :
      (negotiated : List Bytes) (space : Bytes) {d : SfData E D}
      → server_accepts negotiated (list_features state features empty_list).0 space ≡ some d
      → IsEntry (space, d) × (is_negotiated negotiated space ≡ false) × (can_negotiate d ≡ true)
  server_accepts_listed negotiated space {d} e =
      let sf = (list_features state features empty_list).0 in
      elim (Option-cases (map_get text_eq space sf.cache)) [
        | inl missing ↦ absurd (cc (sym e ∙ server_miss negotiated sf space missing))
        | inr (d', found) ↦
            let same : (if is_negotiated negotiated space || not (can_negotiate d')
                  then none
                  else some d')
                ≡ some d =
              sym (server_hit negotiated sf space {d = d'} found) ∙ e in
            let equal : d' ≡ d = ground arith in
            (
              subst (λ (k : SfData E D). IsEntry (space, k)) equal
                  (map_get-All IsEntry space sf.cache {v = d'}
                    (list_features-IsCache features empty_list (λ g there. there) tt) found),
              ground arith,
              ap (λ (k : SfData E D). can_negotiate k) (sym equal) ∙ ground arith,
            )
      ]
