-- ===== src/Jid/Split.antt =====
-- What `SplitString` accepts, and what it cuts.
use mathlib.Core.List.{cons-ne-nil}
use xmpp.Prelude.{
  ◌↔◌, ℕ, ◌-◌, ◌==◌, if◌then◌else◌, Bool, true, false, ◌&&◌, [], ◌∷◌, ◌++◌, ◌≡◌, inl, inr, refl,
  sym, ap, subst, ◌∙◌, ok-injective, All-append, All-append_inv, Bytes, is_empty, length, ok, err,
  arith, Lacks, cut_cases, index_by_hit, index_by-Lacks, length-append, take_prefix, drop_past,
}
use xmpp.Jid.{no_localpart, no_resourcepart, is_slash, is_at, split_local, split_string}

-- The text of an address, from its parts: `local@domain/resource`.
abbrev pub with_at : Bytes → Bytes → Bytes
with_at l d = if is_empty l then d else l ++ (b'@' ∷ d)

abbrev pub join_parts : Bytes → Bytes → Bytes → Bytes
join_parts l d r = if is_empty r then with_at l d else with_at l d ++ (b'/' ∷ r)

-- Parts that a text can name: no separator stands where the split would find it first.
pub record AreParts (l d r : Bytes) : Type 0 where
  pub local_slash : Lacks is_slash l
  pub local_at : Lacks is_at l
  pub domain_slash : Lacks is_slash d
  pub domain_at : (l ≡ []) → Lacks is_at d

at_last : (a : Bytes) (c : ℕ) (r : Bytes) → (length a == length (a ++ c ∷ r) - 1) ≡ is_empty r
at_last a c [] = ground (arith, length-append a (c ∷ []))
at_last a c (x ∷ r) = ground (arith, length-append a (c ∷ x ∷ r))

at_front : (a : Bytes) → (length a == 0) ≡ is_empty a
at_front [] = refl
at_front (c ∷ a) = ground arith

split_local_hit :
    (safe : Bool) (a d r : Bytes)
    → Lacks is_at a
    → split_local safe (a ++ b'@' ∷ d) r
      ≡ (if safe && is_empty a then err no_localpart else ok (a, d, r))
unfolding split_local
split_local_hit safe a d r h =
    rw (index_by_hit is_at a b'@' d h refl, split_local)
      (rw (at_front a, take_prefix a (b'@' ∷ d), drop_past a b'@' d))

split_local_miss :
    (safe : Bool) (d r : Bytes) → Lacks is_at d → split_local safe d r ≡ ok ([], d, r)
unfolding split_local
split_local_miss safe d r h = rw (index_by-Lacks is_at d h, split_local)

split_string_hit :
    (safe : Bool) (a r : Bytes)
    → Lacks is_slash a
    → split_string (a ++ b'/' ∷ r) safe
      ≡ (if safe && is_empty r then err no_resourcepart else split_local safe a r)
unfolding split_string
split_string_hit safe a r h =
    rw (index_by_hit is_slash a b'/' r h refl, split_string)
      (rw (at_last a b'/' r, take_prefix a (b'/' ∷ r), drop_past a b'/' r))

split_string_miss :
    (safe : Bool) (s : Bytes) → Lacks is_slash s → split_string s safe ≡ split_local safe s []
unfolding split_string
split_string_miss safe s h = rw (index_by-Lacks is_slash s h, split_string)

-- What a successful second step says of its input.
abbrev LocalCut : Bytes → Bytes → Bytes × Bytes × Bytes → Type 0
LocalCut s r (l, d, r') = (s ≡ with_at l d) × (r' ≡ r) × Lacks is_at l × ((l ≡ []) → Lacks is_at d)

split_local_hit_sound :
    (a t r : Bytes) {l d r' : Bytes}
    → Lacks is_at a
    → split_local true (a ++ b'@' ∷ t) r ≡ ok (l, d, r')
    → LocalCut (a ++ b'@' ∷ t) r (l, d, r')
split_local_hit_sound [] t r _ h = cc (split_local_hit true [] t r tt)
split_local_hit_sound (c ∷ a) t r {l} {d} {r'} lacks h =
    subst (λ q. LocalCut ((c ∷ a) ++ b'@' ∷ t) r q)
      (ok-injective (sym (split_local_hit true (c ∷ a) t r lacks) ∙ h))
      (refl, refl, lacks, λ empty. absurd (cons-ne-nil c a empty))

split_local_sound :
    (s r : Bytes) {l d r' : Bytes} → split_local true s r ≡ ok (l, d, r') → LocalCut s r (l, d, r')
split_local_sound s r {l} {d} {r'} h = elim (cut_cases b'@' s) [
  | inl lacks ↦
      subst (λ q. LocalCut s r q) (ok-injective (sym (split_local_miss true s r lacks) ∙ h))
        (refl, refl, tt, λ _. lacks)
  | inr (a, t, e, lacks) ↦
      subst (λ x. LocalCut x r (l, d, r')) (sym e)
        (split_local_hit_sound a t r lacks (subst (λ x. split_local true x r ≡ ok (l, d, r')) e h))
]

with_at-Lacks :
    (p : ℕ → Bool) (l d : Bytes) → p b'@' ≡ false → Lacks p l → Lacks p d → Lacks p (with_at l d)
with_at-Lacks p [] d at hl hd = hd
with_at-Lacks p (c ∷ l) d at hl hd = All-append _ (c ∷ l) (b'@' ∷ d) hl (at, hd)

with_at-Lacks_inv : (p : ℕ → Bool) (l d : Bytes) → Lacks p (with_at l d) → Lacks p l × Lacks p d
with_at-Lacks_inv p [] d h = (tt, h)
with_at-Lacks_inv p (c ∷ l) d h = let (hl, hd) = All-append_inv _ (c ∷ l) (b'@' ∷ d) h in (hl, hd.1)

split_local-with_at :
    (l d r : Bytes) → AreParts l d r → split_local true (with_at l d) r ≡ ok (l, d, r)
split_local-with_at [] d r h = split_local_miss true d r (h.domain_at refl)
split_local-with_at (c ∷ l) d r h = split_local_hit true (c ∷ l) d r h.local_at

-- Three parts, of which none holds a separator where the split would find it first, are what the
-- split of their text returns.
pub split_complete :
    (l d r : Bytes) → AreParts l d r → split_string (join_parts l d r) true ≡ ok (l, d, r)
split_complete l d [] h =
    split_string_miss true (with_at l d) (with_at-Lacks _ l d refl h.local_slash h.domain_slash)
    ∙ split_local-with_at l d [] h
split_complete l d (x ∷ r) h =
    split_string_hit true (with_at l d) (x ∷ r)
      (with_at-Lacks _ l d refl h.local_slash h.domain_slash)
    ∙ split_local-with_at l d (x ∷ r) h

-- What a successful split says of its input.
abbrev Cut : Bytes → Bytes × Bytes × Bytes → Type 0
Cut s (l, d, r) = (s ≡ join_parts l d r) × AreParts l d r

LocalCut-Cut :
    (s r : Bytes) {l d r' : Bytes}
    → Lacks is_slash s
    → LocalCut s r (l, d, r')
    → (join_parts l d r ≡ join_parts l d r') × (s ≡ with_at l d) × AreParts l d r'
LocalCut-Cut s r {l} {d} {r'} lacks (text, rest, at_l, at_d) =
    let (sl, sd) = with_at-Lacks_inv is_slash l d (subst (Lacks is_slash) text lacks) in
    (
      ap (join_parts l d) (sym rest),
      text,
      record { local_slash = sl; local_at = at_l; domain_slash = sd; domain_at = at_d },
    )

split_hit_sound :
    (a r : Bytes) {l d r' : Bytes}
    → Lacks is_slash a
    → split_string (a ++ b'/' ∷ r) true ≡ ok (l, d, r')
    → Cut (a ++ b'/' ∷ r) (l, d, r')
split_hit_sound a [] {l} {d} {r'} lacks h = cc (split_string_hit true a [] lacks)
split_hit_sound a (x ∷ r) {l} {d} {r'} lacks h =
    let (rest, text, parts) =
      LocalCut-Cut a (x ∷ r) lacks
        (split_local_sound a (x ∷ r) (sym (split_string_hit true a (x ∷ r) lacks) ∙ h)) in
    (ap (λ t. t ++ b'/' ∷ x ∷ r) text ∙ rest, parts)

-- A safe split that succeeds returns parts of which none holds a separator where the split would
-- find it first, and the text was the text of these parts.
pub split_sound :
    (s : Bytes) {l d r : Bytes}
    → split_string s true ≡ ok (l, d, r)
    → (s ≡ join_parts l d r) × AreParts l d r
split_sound s {l} {d} {r} h = elim (cut_cases b'/' s) [
  | inl lacks ↦
      let (rest, text, parts) =
        LocalCut-Cut s [] lacks
          (split_local_sound s [] (sym (split_string_miss true s lacks) ∙ h)) in
      (text ∙ rest, parts)
  | inr (a, t, e, lacks) ↦
      subst (λ x. Cut x (l, d, r)) (sym e)
        (split_hit_sound a t lacks (subst (λ x. split_string x true ≡ ok (l, d, r)) e h))
]

-- A safe split returns three parts exactly if none of them holds a separator where the split would
-- find it first, and the text is the text of these parts.
pub split_iff :
    (s l d r : Bytes)
    → (split_string s true ≡ ok (l, d, r)) ↔ ((s ≡ join_parts l d r) × AreParts l d r)
split_iff s l d r = (
  λ h. split_sound s h,
  λ (text, parts). ap (λ t. split_string t true) text ∙ split_complete l d r parts,
)
