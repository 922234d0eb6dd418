-- ===== src/Jid/Parts.antt =====
-- The operations of an address in terms of its parts.
use xmpp.Prelude.{
  ℕ, zero, suc, ◌+◌, ◌≤◌, ◌==◌, ltb, true, false, not, ◌&&◌, none, [], ◌∷◌, ◌++◌, ◌≡◌, refl, sym,
  ap, subst, ◌∙◌, ◌↔◌, append_assoc, append-nil, Bytes, text_eq_iff, text_eq_refl, is_empty, length,
  take, drop, ok, arith, length-append, take_prefix, drop_prefix, take-append-drop, length-take,
  length-drop, drop_all,
}
use native.Mathlib.Nat.{add_comm}
use xmpp.Jid.{
  Jid, Prep, local_checks, resource_checks, localpart, domainpart, resourcepart, new_unsafe, bare,
  domain, string, equal, with_local, with_domain, with_resource, normalize_domainpart,
}
use xmpp.Jid.Split.{join_parts}
use xmpp.Jid.Build.{prepared, append_prepared_lem, drop_two}

-- The two lengths lie within the octets.
abbrev pub Fits : Jid → Type 0
Fits j = j.locallen + j.domainlen ≤ length j.octets

pub new_unsafe-Fits : (l d r : Bytes) → Fits (new_unsafe l d r)
unfolding new_unsafe
new_unsafe-Fits l d r = omega (arith, length-append l (d ++ r), length-append d r)

Jid_path :
    {j k : Jid} → j.locallen ≡ k.locallen → j.domainlen ≡ k.domainlen → j.octets ≡ k.octets → j ≡ k
Jid_path p q r = λ i. record { locallen = p i; domainlen = q i; octets = r i }

drop_add : (m n : ℕ) (s : Bytes) → drop (m + n) s ≡ drop n (drop m s)
drop_add zero n s = ap (λ (k : ℕ). drop k s) (omega arith)
drop_add (suc m) n [] = drop_all (suc m + n) [] (omega arith) ∙ sym (drop_all n [] (omega arith))
drop_add (suc m) n (c ∷ s) = ap (λ (k : ℕ). drop k (c ∷ s)) e ∙ drop_add m n s
  where
    e : suc m + n ≡ suc (m + n)
    e = omega arith

take_two : (l d r : Bytes) → take (length l + length d) (l ++ (d ++ r)) ≡ l ++ d
take_two l d r =
    subst (λ n. take n (l ++ (d ++ r)) ≡ l ++ d) (length-append l d)
      (rw (← append_assoc l d r) (take_prefix (l ++ d) r))

-- An address is its parts, one behind the other.
pub new_unsafe-parts :
    (j : Jid) → Fits j → new_unsafe (localpart j) (domainpart j) (resourcepart j) ≡ j
unfolding new_unsafe localpart domainpart resourcepart
new_unsafe-parts j h =
    Jid_path (omega (arith, length-take j.locallen j.octets))
      (omega (
        arith,
        length-take j.domainlen (drop j.locallen j.octets),
        length-drop j.locallen j.octets,
      ))
      (rw (drop_add, take-append-drop, take-append-drop))

bare_octets : (l d r : Bytes) → take (length d + length l) (l ++ (d ++ r)) ≡ l ++ d
bare_octets l d r = rw (add_comm (length d) (length l)) (take_two l d r)

pub bare-new_unsafe : (l d r : Bytes) → bare (new_unsafe l d r) ≡ new_unsafe l d []
unfolding bare new_unsafe
bare-new_unsafe l d r = Jid_path refl refl (rw (bare_octets l d r, append-nil))

pub domain-new_unsafe : (l d r : Bytes) → domain (new_unsafe l d r) ≡ new_unsafe [] d []
unfolding domain new_unsafe
domain-new_unsafe l d r =
    Jid_path refl refl (rw (drop_prefix l (d ++ r), take_prefix d r, append-nil))

zero_lt : (n : ℕ) → ltb 0 (suc n) ≡ true
zero_lt n = ground arith

same_length : (l r : Bytes) → (length l == length (l ++ r) + 0) ≡ is_empty r
same_length l [] = ground (arith, length-append l [])
same_length l (c ∷ r) = ground (arith, length-append l (c ∷ r))

same_length_at :
    (l d r : Bytes) → (length (l ++ b'@' ∷ d) == length (l ++ (d ++ r)) + 1) ≡ is_empty r
same_length_at l d [] =
    ground (arith, length-append l (b'@' ∷ d), length-append l (d ++ []), length-append d [])
same_length_at l d (c ∷ r) =
    ground
      (arith, length-append l (b'@' ∷ d), length-append l (d ++ c ∷ r), length-append d (c ∷ r))

-- An address prints as the text of its parts.
pub string-new_unsafe : (l d r : Bytes) → string (new_unsafe l d r) ≡ join_parts l d r
unfolding string new_unsafe
string-new_unsafe [] d r = rw (take_prefix d r, drop_two [] d r) (rw (same_length d r))
string-new_unsafe (c ∷ l) d r =
    rw (take_prefix l (d ++ r), drop_prefix l (d ++ r), take_prefix d r, drop_two (c ∷ l) d r)
      (rw (zero_lt (length l)) (rw (same_length_at (c ∷ l) d r)))

-- `Equal` decides equality: no two different addresses pass it.
pub equal_iff : (j k : Jid) → (equal j k ≡ true) ↔ (j ≡ k)
unfolding equal
equal_iff j k = (
  λ h. Jid_path (ground arith) (ground arith) ((text_eq_iff j.octets k.octets).0 (ground arith)),
  λ e. ground (arith, text_eq_refl j.octets),
)

module _ (p : Prep) (l d r : Bytes) where
  open p use {valid_utf8, username_case_mapped, opaque_string}

  pub with_local_parts :
      (x : Bytes) {y : Bytes}
      → (not (is_empty x) && not (valid_utf8 x)) ≡ false
      → prepared username_case_mapped x ≡ ok y
      → with_local p (new_unsafe l d r) x ≡ (new_unsafe y d r, local_checks y)
  unfolding with_local new_unsafe
  with_local_parts x {y} g e =
      rw (g, append_prepared_lem username_case_mapped [] x, e, with_local)
        (rw (drop_prefix l (d ++ r), take_prefix y (d ++ r)))

  pub with_domain_parts :
      (x : Bytes) {y : Bytes}
      → normalize_domainpart p x ≡ ok y
      → with_domain p (new_unsafe l d r) x ≡ (new_unsafe l y r, none)
  unfolding with_domain new_unsafe
  with_domain_parts x {y} e = rw (e, with_domain) (rw (take_prefix l (d ++ r), drop_two l d r))

  pub with_resource_parts :
      (x : Bytes) {y : Bytes}
      → (not (is_empty x) && not (valid_utf8 x)) ≡ false
      → prepared opaque_string x ≡ ok y
      → with_resource p (new_unsafe l d r) x ≡ (new_unsafe l d y, resource_checks y)
  unfolding with_resource new_unsafe bare
  with_resource_parts x {y} g e =
      rw (g, bare_octets l d r, append_prepared_lem opaque_string (l ++ d) x, e, with_resource)
        (rw (append_assoc l d y, drop_two l d y))
