-- ===== src/Prelude/Map.antt =====
-- A Go map as an association list: of two entries with one key, the first counts.
use mathlib.Core.Bool.{Bool, true, false, true≢false}
use mathlib.Core.Option.{Option, none, some}
use mathlib.Core.List.{List, [], ◌∷◌}
use mathlib.Core.Path.{◌≡◌, refl, sym, subst, ◌∙◌}
use mathlib.Core.Logic.{◌≢◌, ◌↔◌, ◌⊎◌, inl, inr}
use native.Mathlib.Omega.{arith}
use xmpp.Prelude.Text.{Bytes, text_eq, text_eq_iff, All}
use xmpp.Prelude.Tests.{if◌then◌else◌, Bool-cases, if-cases}

differs {ℓ} :
    {K : Type ℓ} (eq : K → K → Bool)
    → ((a b : K) → (eq a b ≡ true) ↔ (a ≡ b))
    → (i k : K) → i ≢ k
    → eq k i ≡ false
differs eq eq_iff i k h = elim (Bool-cases (eq k i)) [
  | inl e ↦ absurd (h (sym ((eq_iff k i).0 e)))
  | inr e ↦ e
]

-- `m[k]`, where `eq` compares keys.
module _ {ℓ κ} {K : Type ℓ} {V : Type κ} (eq : K → K → Bool) where
  unfoldable pub map_get : K → List (K × V) → Option V
  map_get k [] = none
  map_get k ((j, v) ∷ m) = if eq j k then some v else map_get k m

  -- `m[k] = v`.
  unfoldable pub map_set : K → V → List (K × V) → List (K × V)
  map_set k v [] = (k, v) ∷ []
  map_set k v ((j, w) ∷ m) =
      let rest = map_set k v m in if eq j k then (k, v) ∷ m else (j, w) ∷ rest

  -- `delete(m, k)`.
  unfoldable pub map_delete : K → List (K × V) → List (K × V)
  map_delete k [] = []
  map_delete k ((j, w) ∷ m) = let rest = map_delete k m in if eq j k then rest else (j, w) ∷ rest

  -- What the maps promise if `eq` decides equality.
  module _ (eq_iff : (a b : K) → (eq a b ≡ true) ↔ (a ≡ b)) where
    pub map_get-map_set : (k : K) (v : V) (m : List (K × V)) → map_get k (map_set k v m) ≡ some v
    unfolding map_get map_set
    map_get-map_set k v [] = rw ((eq_iff k k).1 refl) refl
    map_get-map_set k v ((j, w) ∷ m) =
        if-cases (λ n. map_get k n ≡ some v) (eq j k) (λ _. rw ((eq_iff k k).1 refl) refl)
          (λ e. rw e (map_get-map_set k v m))

    pub map_get-map_set_other :
        (i k : K) (v : V) (m : List (K × V)) → i ≢ k → map_get i (map_set k v m) ≡ map_get i m
    unfolding map_get map_set
    map_get-map_set_other i k v [] h =
        if-cases (λ (o : Option V). o ≡ none) (eq k i) (λ e. absurd (h (sym ((eq_iff k i).0 e))))
          (λ _. refl)
    map_get-map_set_other i k v ((j, w) ∷ m) h =
        if-cases (λ n. map_get i n ≡ map_get i ((j, w) ∷ m)) (eq j k)
          (λ e.
            rw (differs eq eq_iff i k h, differs eq eq_iff i j (λ ij. h (ij ∙ (eq_iff j k).0 e)))
              refl)
          (λ _. rw (map_get-map_set_other i k v m h) refl)

    pub map_get-map_delete : (k : K) (m : List (K × V)) → map_get k (map_delete k m) ≡ none
    unfolding map_get map_delete
    map_get-map_delete k [] = refl
    map_get-map_delete k ((j, w) ∷ m) =
        if-cases (λ n. map_get k n ≡ none) (eq j k) (λ _. map_get-map_delete k m)
          (λ e. rw e (map_get-map_delete k m))

    pub map_get-map_delete_other :
        (i k : K) (m : List (K × V)) → i ≢ k → map_get i (map_delete k m) ≡ map_get i m
    unfolding map_get map_delete
    map_get-map_delete_other i k [] h = refl
    map_get-map_delete_other i k ((j, w) ∷ m) h =
        if-cases (λ n. map_get i n ≡ map_get i ((j, w) ∷ m)) (eq j k)
          (λ e.
            rw (differs eq eq_iff i j (λ ij. h (ij ∙ (eq_iff j k).0 e)))
              (map_get-map_delete_other i k m h))
          (λ _. rw (map_get-map_delete_other i k m h) refl)

    pub map_set_inv :
        (i k : K) (v w : V) (m : List (K × V))
        → map_get i (map_set k v m) ≡ some w
        → (w ≡ v) ⊎ (map_get i m ≡ some w)
    map_set_inv i k v w m e = elim (Bool-cases (eq i k)) [
      | inl same ↦
          let found : map_get i (map_set k v m) ≡ some v =
            rw ((eq_iff i k).0 same) (map_get-map_set k v m) in
          inl (cc (found, e))
      | inr other ↦ inr (sym (map_get-map_set_other i k v m (differ other)) ∙ e)
    ]
      where
        differ : eq i k ≡ false → i ≢ k
        differ other ik = absurd (true≢false (sym ((eq_iff i k).1 ik) ∙ other))

    pub map_delete_inv :
        (i k : K) (w : V) (m : List (K × V))
        → map_get i (map_delete k m) ≡ some w
        → map_get i m ≡ some w
    map_delete_inv i k w m e = elim (Bool-cases (eq i k)) [
      | inl same ↦
          let gone : map_get i (map_delete k m) ≡ none =
            rw ((eq_iff i k).0 same) (map_get-map_delete k m) in
          absurd (cc (gone, e))
      | inr other ↦ sym (map_get-map_delete_other i k m (differ other)) ∙ e
    ]
      where
        differ : eq i k ≡ false → i ≢ k
        differ other ik = absurd (true≢false (sym ((eq_iff i k).1 ik) ∙ other))

-- A property of all entries of a map whose keys are texts.
module _ {ℓ κ} {V : Type ℓ} (P : Bytes × V → Type κ) where
  pub map_set-All :
      (k : Bytes) (v : V) (m : List (Bytes × V))
      → P (k, v)
      → All P m
      → All P (map_set text_eq k v m)
  unfolding map_set
  map_set-All k v [] h _ = (h, tt)
  map_set-All k v ((j, w) ∷ m) h (hw, hm) = elim (Bool-cases (text_eq j k)) [
    | inl e ↦ rw e (h, hm)
    | inr e ↦ rw e (hw, map_set-All k v m h hm)
  ]

  pub map_get-All :
      (k : Bytes) (m : List (Bytes × V)) {v : V} → All P m → map_get text_eq k m ≡ some v → P (k, v)
  unfolding map_get
  map_get-All k [] _ e = absurd (cc e)
  map_get-All k ((j, w) ∷ m) {v} (hw, hm) e = elim (Bool-cases (text_eq j k)) [
    | inl h ↦
        let same : w ≡ v = ground arith in
        subst (λ (u : V). P (k, u)) same
          (subst (λ (i : Bytes). P (i, w)) ((text_eq_iff j k).0 h) hw)
    | inr h ↦ map_get-All k m {v = v} hm (ground arith)
  ]
