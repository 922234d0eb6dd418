-- ===== src/Jid/Escape/RoundTrip.antt =====
-- `Unescape` on texts that `Escape` has written.

use native.Mathlib.Nat.{add-zero}
use xmpp.Prelude.{
  Option, some, ◌⊎◌, take, length-take, ◌*◌, ◌/◌, ◌%◌, codes, ==_iff, ℕ, zero, suc, ◌+◌, ◌-◌, ◌≤◌,
  ◌<◌, ◌==◌, Bool, true, false, ◌||◌, none, [], ◌∷◌, ◌++◌, ◌≡◌, inl, inr, refl, sym, ap, subst, ◌∙◌,
  append-nil, append_assoc, Bytes, index_by-Lacks, Lacks, length, take_all, length-append,
  Bool-cases, arith,
}
use xmpp.Jid.Escape.{
  TransformError, short_dst, escape_transform, Outcome, returned, is_escaped, is_backslash, byte_at,
  escape_bytes, should_unescape, decode_byte, unescape_sequence, unescape_round, unescape_loop,
  unescape_transform,
}
use xmpp.Jid.Escape.Encode.{escape_text, escape_text-Lacks, length-escape_bytes, transform_escapes}
use xmpp.Jid.Escape.Resume.{resume, resume_escapes}
use xmpp.Jid.Escape.Decode.{round_sequence}

-- Texts in which at most one plain byte stands in front of an escapable one.
pub data Spaced : Bytes → Type 0 where
  plain : {s : Bytes} → Lacks is_escaped s → Spaced s
  escaped : {c : ℕ} {s : Bytes} → is_escaped c ≡ true → Spaced s → Spaced (c ∷ s)
  one_plain :
      {b c : ℕ} {s : Bytes}
      → is_escaped b ≡ false
      → is_escaped c ≡ true
      → Spaced s
      → Spaced (b ∷ c ∷ s)

-- What holds of the bytes that a test names holds of every byte that passes it.
named :
    (P : ℕ → Type 0) (k c : ℕ) (rest : Bool)
    → P k
    → (rest ≡ true → P c)
    → (c == k || rest) ≡ true
    → P c
named P k c rest here later h = elim (Bool-cases (c == k)) [
  | inl e ↦ subst P (sym ((==_iff c k).0 e)) here
  | inr e ↦ later (rw e at h)
]

abbrev high : ℕ → ℕ
high c = byte_at (codes "0123456789abcdef") (c / 16)

abbrev low : ℕ → ℕ
low c = byte_at (codes "0123456789abcdef") (c % 16)

-- The digits of an escapable byte are one of the ten sequences, and stand for the byte.
abbrev Digits : ℕ → Type 0
Digits c = (should_unescape (high c) (low c) ≡ true) × (decode_byte (high c) (low c) ≡ c)

is_escaped-Digits : (c : ℕ) → is_escaped c ≡ true → Digits c
unfolding is_escaped should_unescape decode_byte
is_escaped-Digits c =
    named Digits b' ' c _ (refl, refl)
      (named Digits 0x22 c _ (refl, refl)
        (named Digits b'&' c _ (refl, refl)
          (named Digits 0x27 c _ (refl, refl)
            (named Digits b'/' c _ (refl, refl)
              (named Digits b':' c _ (refl, refl)
                (named Digits b'<' c _ (refl, refl)
                  (named Digits b'>' c _ (refl, refl)
                    (named Digits b'@' c _ (refl, refl)
                      (λ h. subst Digits (sym ((==_iff c b'\\').0 h)) (refl, refl))))))))))

module _ (at_eof : Bool) (again : ℕ → Bytes → ℕ → Bytes → Outcome) (room n_src : ℕ)
    (out : Bytes) where
  -- A sequence behind no plain byte, or one, is decoded.
  sequence_decodes :
      (a : Bytes) (x y : ℕ) (r : Bytes)
      → length a ≤ 1
      → length a + 1 ≤ room
      → unescape_sequence again room (a ++ (b'\\' ∷ x ∷ y ∷ r)) (length a) n_src out
        ≡ again (room - length a - 1) r (n_src + length a + 3) (out ++ (a ++ decode_byte x y ∷ []))
  unfolding unescape_sequence
  sequence_decodes [] x y r short fits =
      rw
        (
          take_all {A = ℕ} room [] (omega arith),
          take_all (room - 0) (decode_byte x y ∷ []) (omega arith),
        )
        (ground arith)
  sequence_decodes (c ∷ []) x y r short fits =
      rw
        (
          take_all room (c ∷ []) (omega arith),
          take_all (room - 1) (decode_byte x y ∷ []) (omega arith),
        )
        (ground arith)
  sequence_decodes (c ∷ d ∷ a) x y r short fits = absurd (omega arith)

  round_decodes :
      (a : Bytes) (c : ℕ) (r : Bytes)
      → Lacks is_backslash a
      → length a ≤ 1
      → length a + 1 ≤ room
      → is_escaped c ≡ true
      → unescape_round at_eof again room (a ++ (b'\\' ∷ high c ∷ low c ∷ r)) n_src out
        ≡ again (room - length a - 1) r (n_src + length a + 3) (out ++ (a ++ c ∷ []))
  round_decodes a c r lacks short fits hit =
      let (sequence, byte) = is_escaped-Digits c hit in
      round_sequence at_eof again room n_src out a (high c) (low c) r lacks sequence
      ∙ sequence_decodes a (high c) (low c) r short fits
      ∙ ap (λ d. again (room - length a - 1) r (n_src + length a + 3) (out ++ (a ++ d ∷ []))) byte

returned_path :
    {o o' : Bytes} {n n' : ℕ} → o ≡ o' → n ≡ n' → returned o n none ≡ returned o' n' none
returned_path p q = λ i. returned (p i) (q i) none

length-escape_text_hit :
    (c : ℕ) (s : Bytes)
    → is_escaped c ≡ true
    → length (escape_text (c ∷ s)) ≡ 3 + length (escape_text s)
length-escape_text_hit c s hit =
    rw hit (omega (arith, length-append (escape_bytes c) (escape_text s), length-escape_bytes c))

length-escape_text_miss :
    (c : ℕ) (s : Bytes)
    → is_escaped c ≡ false
    → length (escape_text (c ∷ s)) ≡ 1 + length (escape_text s)
length-escape_text_miss c s miss = rw miss (omega arith)

escape_text_hit :
    (c : ℕ) (s : Bytes)
    → is_escaped c ≡ true
    → escape_text (c ∷ s) ≡ escape_bytes c ++ escape_text s
escape_text_hit c s hit = rw hit

escape_text_miss :
    (c : ℕ) (s : Bytes) → is_escaped c ≡ false → escape_text (c ∷ s) ≡ c ∷ escape_text s
escape_text_miss c s miss = rw miss

plain_fuel :
    (s : Bytes) (f : ℕ) → Lacks is_escaped s → length (escape_text s) < suc f → length s < suc f
plain_fuel s f lacks h = omega (arith, ap length (escape_text-Lacks s lacks))

plain_backslash : (c : ℕ) → is_escaped c ≡ false → is_backslash c ≡ false
unfolding is_escaped
plain_backslash c h = ground arith

Lacks-backslash : (s : Bytes) → Lacks is_escaped s → Lacks is_backslash s
Lacks-backslash [] h = tt
Lacks-backslash (c ∷ s) (h, t) = (plain_backslash c h, Lacks-backslash s t)

module _ (at_eof : Bool) where
  plain_decodes :
      (s : Bytes) (fuel room n_src : ℕ) (out : Bytes)
      → Lacks is_escaped s
      → length s < fuel
      → length s ≤ room
      → unescape_loop fuel at_eof room s n_src out ≡ returned (out ++ s) (n_src + length s) none
  unfolding unescape_loop unescape_round
  plain_decodes s zero room n_src out lacks fuel fits = absurd (omega arith)
  plain_decodes [] (suc f) room n_src out lacks fuel fits = rw (append-nil, add-zero)
  plain_decodes (b ∷ s) (suc f) room n_src out lacks fuel fits =
      rw (index_by-Lacks is_backslash (b ∷ s) (Lacks-backslash (b ∷ s) lacks), unescape_round)
        (rw (take_all room (b ∷ s) fits) (ground arith))

  step_decodes :
      (f room n_src : ℕ) (out a : Bytes) (c : ℕ) (t : Bytes) {o : Outcome}
      → Lacks is_backslash a
      → length a ≤ 1
      → length a + 1 ≤ room
      → is_escaped c ≡ true
      → unescape_loop f at_eof (room - length a - 1) t (n_src + length a + 3) (out ++ (a ++ c ∷ []))
        ≡ o
      → unescape_loop (suc f) at_eof room (a ++ (escape_bytes c ++ t)) n_src out ≡ o
  unfolding unescape_loop escape_bytes
  step_decodes f room n_src out [] c t lacks short fits hit rest =
      round_decodes at_eof (unescape_loop f at_eof) room n_src out [] c t lacks short fits hit
      ∙ rest
  step_decodes f room n_src out (b ∷ a) c t lacks short fits hit rest =
      round_decodes at_eof (unescape_loop f at_eof) room n_src out (b ∷ a) c t lacks short fits hit
      ∙ rest

  loop_decodes :
      {s : Bytes} (spaced : Spaced s) (fuel room n_src : ℕ) (out : Bytes)
      → length (escape_text s) < fuel
      → length s ≤ room
      → unescape_loop fuel at_eof room (escape_text s) n_src out
        ≡ returned (out ++ s) (n_src + length (escape_text s)) none
  loop_decodes spaced zero room n_src out fuel fits = absurd (omega arith)
  loop_decodes (plain {s = s} lacks) (suc f) room n_src out fuel fits =
      rw (escape_text-Lacks s lacks)
        (plain_decodes s (suc f) room n_src out lacks (plain_fuel s f lacks fuel) fits)
  loop_decodes (escaped {c = c} {s = s} hit rest) (suc f) room n_src out fuel fits =
      let size = length-escape_text_hit c s hit in
      subst
        (λ t.
          unescape_loop (suc f) at_eof room t n_src out
          ≡ returned (out ++ c ∷ s) (n_src + length (escape_text (c ∷ s))) none)
        (sym (escape_text_hit c s hit))
        (step_decodes f room n_src out [] c (escape_text s) tt (omega arith) (omega arith) hit (
          loop_decodes rest f (room - 0 - 1) (n_src + 0 + 3) (out ++ c ∷ []) (omega arith)
            (omega arith)
          ∙ returned_path (append_assoc out (c ∷ []) s) (omega arith)))
  loop_decodes (one_plain {b = b} {c = c} {s = s} miss hit rest) (suc f) room n_src out fuel fits =
      let size = length-escape_text_hit c s hit in
      let size' = length-escape_text_miss b (c ∷ s) miss in
      subst
        (λ t.
          unescape_loop (suc f) at_eof room t n_src out
          ≡ returned (out ++ b ∷ c ∷ s) (n_src + length (escape_text (b ∷ c ∷ s))) none)
        (sym (escape_text_miss b (c ∷ s) miss ∙ ap (λ t. b ∷ t) (escape_text_hit c s hit)))
        (step_decodes f room n_src out (b ∷ []) c (escape_text s) (plain_backslash b miss, tt)
          (omega arith) (omega arith) hit
          (loop_decodes rest f (room - 1 - 1) (n_src + 1 + 3) (out ++ b ∷ c ∷ []) (omega arith)
              (omega arith)
            ∙ returned_path (append_assoc out (b ∷ c ∷ []) s) (omega arith)))

unescape-escape_text :
    (at_eof : Bool) (room : ℕ) (s : Bytes)
    → Spaced s
    → length s ≤ room
    → unescape_transform at_eof room (escape_text s) ≡ returned s (length (escape_text s)) none
unfolding unescape_transform
unescape-escape_text at_eof room s spaced fits =
    loop_decodes at_eof spaced (suc (length (escape_text s))) room 0 [] (omega arith) fits
    ∙ returned_path refl (omega arith)

take-Lacks : (f : ℕ → Bool) (n : ℕ) (s : Bytes) → Lacks f s → Lacks f (take n s)
take-Lacks f zero s h = tt
take-Lacks f (suc n) [] h = tt
take-Lacks f (suc n) (c ∷ s) (h, t) = (h, take-Lacks f n s t)

take-Spaced : {s : Bytes} → Spaced s → (n : ℕ) → Spaced (take n s)
take-Spaced (plain {s = s} lacks) n = plain (take-Lacks is_escaped n s lacks)
take-Spaced (escaped hit rest) zero = plain tt
take-Spaced (escaped hit rest) (suc n) = escaped hit (take-Spaced rest n)
take-Spaced (one_plain miss hit rest) zero = plain tt
take-Spaced (one_plain miss hit rest) (suc zero) = plain (miss, tt)
take-Spaced (one_plain miss hit rest) (suc (suc n)) = one_plain miss hit (take-Spaced rest n)

-- What Unescape makes of a text: the one given, all of it read and no error.
abbrev pub IsUnescaped : Bool → ℕ → Bytes → Bytes → Type 0
IsUnescaped at_eof room t s = unescape_transform at_eof room t ≡ returned s (length t) none

-- In a text let at most one plain byte stand in front of an escapable one. If Escape has room for
-- three bytes for each byte of the text, and Unescape for the text, then Unescape reads back, whole
-- and with no error: from what one call of Escape has written the bytes that the call has read,
-- which are all of them if it returns no error and else, with ErrShortDst, at least one; and from
-- what a caller collects who calls Escape again behind those bytes the text, after at most one call
-- for each byte and one.
pub unescape-escape :
    (at_eof : Bool) (room room' : ℕ) (s : Bytes)
    → Spaced s
    → 3 * length s ≤ room'
    → length s ≤ room
    → ((t : Bytes) × (n : ℕ) × (e : Option TransformError) × (escape_transform room' s
          ≡ returned t n e)
        × IsUnescaped at_eof room t (take n s)
        × (((e ≡ none) × (n ≡ length s)) ⊎ ((e ≡ some short_dst) × (0 < n))))
      × ((t : Bytes) × (resume (suc (length s)) room' s ≡ some t) × IsUnescaped at_eof room t s)
unescape-escape at_eof room room' s spaced wide fits =
    let (n, e, result, short, end) = transform_escapes room' s wide in
    (
      (
        escape_text (take n s),
        n,
        e,
        result,
        unescape-escape_text at_eof room (take n s) (take-Spaced spaced n)
            (omega (arith, length-take n s)),
        end,
      ),
      (
        escape_text s,
        resume_escapes (suc (length s)) room' s (omega arith) wide,
        unescape-escape_text at_eof room s spaced fits,
      ),
    )
