-- ===== src/Prelude/Text.antt =====
-- Text as its bytes: equality, and Go's searches for a byte.
use Prim.Native.Nat.{ℕ, suc}
use Prim.Native.Char.{code}
use Prim.Native.String.{String}
use mathlib.Core.Path.{◌≡◌, refl, ap, ◌∙◌}
use mathlib.Core.Logic.{◌↔◌, ◌⊎◌, inl, inr}
use mathlib.Core.Bool.{Bool, true, false, ◌&&◌}
use mathlib.Core.List.{List, [], ◌∷◌, ◌++◌}
use mathlib.Core.Option.{Option, none, some}
use mathlib.Core.Option
use native.Mathlib.Omega.{arith}
use xmpp.Prelude.Tests.{◌==◌, if◌then◌else◌, Bool-cases, ==_iff}
use xmpp.Prelude.Lists.{length}

abbrev pub Bytes : Type 0
Bytes = List ℕ

-- The code points of a literal: its bytes, since the literals here are ASCII.
abbrev pub codes : String → Bytes
codes String.[] = []
codes (String.◌∷◌ c s) = code c ∷ codes s

-- `a == b` on strings.
unfoldable pub text_eq : Bytes → Bytes → Bool
text_eq [] [] = true
text_eq [] (b ∷ bs) = false
text_eq (a ∷ as') [] = false
text_eq (a ∷ as') (b ∷ bs) = a == b && text_eq as' bs

pub text_eq_iff : (a b : Bytes) → (text_eq a b ≡ true) ↔ (a ≡ b)
unfolding text_eq
text_eq_iff [] [] = (λ _. refl, λ _. refl)
text_eq_iff [] (b ∷ bs) = (λ h. cc, λ h. cc)
text_eq_iff (a ∷ as') [] = (λ h. cc, λ h. cc)
text_eq_iff (a ∷ as') (b ∷ bs) =
    (λ h. ground (arith, text_eq_iff as' bs), λ h. ground (arith, text_eq_iff as' bs))

pub text_eq_refl : (a : Bytes) → text_eq a a ≡ true
text_eq_refl a = (text_eq_iff a a).1 refl

-- `s == ""`.
abbrev pub is_empty : Bytes → Bool
is_empty [] = true
is_empty (c ∷ s) = false

module _ {ℓ κ} {A : Type ℓ} (P : A → Type κ) where
  abbrev pub All : List A → Type κ
  All [] = Unit
  All (x ∷ xs) = P x × All xs

  pub All-append : (xs ys : List A) → All xs → All ys → All (xs ++ ys)
  All-append [] ys _ hy = hy
  All-append (x ∷ xs) ys (px, hx) hy = (px, All-append xs ys hx hy)

  pub All-append_inv : (xs ys : List A) → All (xs ++ ys) → All xs × All ys
  All-append_inv [] ys h = (tt, h)
  All-append_inv (x ∷ xs) ys (px, h) = let (hx, hy) = All-append_inv xs ys h in ((px, hx), hy)

-- No byte of the text passes the test.
abbrev pub Lacks : (ℕ → Bool) → Bytes → Type 0
Lacks p = All (λ c. p c ≡ false)

-- The first place where a byte passes: `strings.Index` and `bytes.IndexAny`; -1 is `none`.
unfoldable pub index_by : (ℕ → Bool) → Bytes → Option ℕ
index_by p [] = none
index_by p (c ∷ s) = if p c then some 0 else Option.map suc (index_by p s)

module _ (p : ℕ → Bool) where
  pub index_by-none : (s : Bytes) → index_by p s ≡ none → Lacks p s
  unfolding index_by
  index_by-none [] h = tt
  index_by-none (c ∷ s) h = (ground arith, index_by-none s (ground arith))

  pub index_by-Lacks : (s : Bytes) → Lacks p s → index_by p s ≡ none
  unfolding index_by
  index_by-Lacks [] h = refl
  index_by-Lacks (c ∷ s) (h, t) = rw (h, index_by-Lacks s t)

  pub index_by_hit :
      (s : Bytes) (c : ℕ) (r : Bytes)
      → Lacks p s
      → p c ≡ true
      → index_by p (s ++ c ∷ r) ≡ some (length s)
  unfolding index_by
  index_by_hit [] c r h e = rw e
  index_by_hit (d ∷ s) c r (h, t) e = rw (h, index_by_hit s c r t e)

-- A text has no byte that passes, or is the part before the first, that byte and the rest.
pub cut_by :
    (p : ℕ → Bool) (s : Bytes)
    → Lacks p s
      ⊎ ((a : Bytes) × (c : ℕ) × (r : Bytes) × (s ≡ a ++ c ∷ r) × Lacks p a × (p c ≡ true))
cut_by p [] = inl tt
cut_by p (c ∷ s) = elim (Bool-cases (p c)) [
  | inl e ↦ inr ([], c, s, refl, tt, e)
  | inr e ↦ elim (cut_by p s) [
    | inl l ↦ inl (e, l)
    | inr (a, d, r, q, l, h) ↦ inr (c ∷ a, d, r, ap (λ t. c ∷ t) q, (e, l), h)
  ]
]

-- The same for the first place of a given byte.
pub cut_cases :
    (b : ℕ) (s : Bytes)
    → Lacks (λ c. c == b) s ⊎ ((a : Bytes) × (r : Bytes) × (s ≡ a ++ b ∷ r) × Lacks (λ c. c == b) a)
cut_cases b s = elim (cut_by (λ c. c == b) s) [
  | inl l ↦ inl l
  | inr (a, c, r, q, l, h) ↦ inr (a, r, q ∙ ap (λ (d : ℕ). a ++ d ∷ r) ((==_iff c b).0 h), l)
]
