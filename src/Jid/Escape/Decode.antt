-- ===== src/Jid/Escape/Decode.antt =====
-- `Unescape`: a round that finds a sequence, and texts on which the code reads out of range.

use xmpp.Prelude.{
  ℕ, suc, ◌+◌, ◌-◌, ◌≤◌, ◌==◌, Bool, true, false, [], ◌∷◌, ◌++◌, ◌≡◌, refl, ap, ◌∙◌, Bytes,
  index_by_hit, Lacks, length, take_prefix, take_all, length-append, arith,
}
use xmpp.Jid.Escape.{
  Outcome, panicked, is_backslash, byte_at, should_unescape, unescape_sequence, unescape_round,
  unescape_loop, unescape_transform,
}

byte_at_shift : (a : Bytes) (k : ℕ) (s : Bytes) → byte_at (a ++ s) (length a + k) ≡ byte_at s k
byte_at_shift [] k s = ap (byte_at s) (omega arith)
byte_at_shift (c ∷ a) k s = ap (byte_at (c ∷ (a ++ s))) (e (length a)) ∙ byte_at_shift a k s
  where
    e : (n : ℕ) → suc n + k ≡ suc (n + k)
    e n = omega arith

-- Three more bytes stand behind the plain ones.
three_behind :
    (a : Bytes) (x y : ℕ) (r : Bytes) → length (a ++ (b'\\' ∷ x ∷ y ∷ r)) ≡ length a + 3 + length r
three_behind a x y r = omega (arith, length-append a (b'\\' ∷ x ∷ y ∷ r))

not_last :
    (a : Bytes) (x y : ℕ) (r : Bytes) → (length a == length (a ++ (b'\\' ∷ x ∷ y ∷ r)) - 1) ≡ false
not_last a x y r = ground (arith, three_behind a x y r)

not_last_but_one :
    (a : Bytes) (x y : ℕ) (r : Bytes) → (length a == length (a ++ (b'\\' ∷ x ∷ y ∷ r)) - 2) ≡ false
not_last_but_one a x y r = ground (arith, three_behind a x y r)

module _ (at_eof : Bool) (again : ℕ → Bytes → ℕ → Bytes → Outcome) (room n_src : ℕ)
    (out : Bytes) where
  -- A round that finds a sequence behind plain bytes.
  pub round_sequence :
      (a : Bytes) (x y : ℕ) (r : Bytes)
      → Lacks is_backslash a
      → should_unescape x y ≡ true
      → unescape_round at_eof again room (a ++ (b'\\' ∷ x ∷ y ∷ r)) n_src out
        ≡ unescape_sequence again room (a ++ (b'\\' ∷ x ∷ y ∷ r)) (length a) n_src out
  unfolding unescape_round
  round_sequence a x y r lacks hit =
      rw (index_by_hit is_backslash a b'\\' (x ∷ y ∷ r) lacks refl, unescape_round)
        (rw (
          not_last a x y r,
          not_last_but_one a x y r,
          byte_at_shift a 1 (b'\\' ∷ x ∷ y ∷ r),
          byte_at_shift a 2 (b'\\' ∷ x ∷ y ∷ r),
          hit,
        ))

  -- Behind two plain bytes or more, the code reads too far to the right.
  sequence_panics :
      (a : Bytes) (x y : ℕ) (r : Bytes)
      → 2 ≤ length a
      → length r + 2 ≤ length a
      → length a ≤ room
      → unescape_sequence again room (a ++ (b'\\' ∷ x ∷ y ∷ r)) (length a) n_src out ≡ panicked
  unfolding unescape_sequence
  sequence_panics a x y r long few fits =
      rw (take_prefix a (b'\\' ∷ x ∷ y ∷ r), take_all room a fits, three_behind a x y r)
        (ground arith)

-- If a sequence stands behind bytes that are no backslashes, at least two more of them than bytes
-- follow it, and the buffer has room for these bytes, then the call reads out of range, at the end of
-- the input or not.
pub unescape_panics :
    (at_eof : Bool) (room : ℕ) (a : Bytes) (x y : ℕ) (r : Bytes)
    → Lacks is_backslash a
    → should_unescape x y ≡ true
    → length r + 2 ≤ length a
    → length a ≤ room
    → unescape_transform at_eof room (a ++ (b'\\' ∷ x ∷ y ∷ r)) ≡ panicked
unfolding unescape_transform unescape_loop
unescape_panics at_eof room [] x y r lacks hit few fits = absurd (omega arith)
unescape_panics at_eof room (c ∷ a) x y r lacks hit few fits =
    let again = unescape_loop (length ((c ∷ a) ++ (b'\\' ∷ x ∷ y ∷ r))) at_eof in
    round_sequence at_eof again room 0 [] (c ∷ a) x y r lacks hit
    ∙ sequence_panics at_eof again room 0 [] (c ∷ a) x y r (omega arith) few fits
