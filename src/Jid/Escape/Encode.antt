-- ===== src/Jid/Escape/Encode.antt =====
-- `Escape`: what its calls write, and what a caller that resumes after ErrShortDst gets.
use native.Mathlib.Numerals.{add-one}
use native.Mathlib.Nat.{suc-add, zero-add, add-zero}
use xmpp.Prelude.{
  ℕ, zero, suc, ◌+◌, ◌-◌, ◌*◌, ◌≤◌, ◌<◌, ◌==◌, if◌then◌else◌, true, false, not, Option, none, some,
  [], ◌∷◌, ◌++◌, ◌≡◌, ◌⊎◌, inl, inr, refl, sym, ap, subst, ◌∙◌, append-nil, append_assoc, Bytes,
  index_by-Lacks, index_by_hit, Lacks, cut_by, length, take, take_prefix, take_all, drop_past,
  length-append, Bool-cases, arith,
}
use xmpp.Jid.Escape.{
  TransformError, short_dst, Outcome, returned, is_escaped, byte_at, escape_bytes, escape_round,
  escape_loop, escape_transform,
}

-- The escaping of a text, byte by byte.
abbrev pub escape_text : Bytes → Bytes
escape_text [] = []
escape_text (c ∷ s) = (if is_escaped c then escape_bytes c else c ∷ []) ++ escape_text s

pub escape_text-append : (s t : Bytes) → escape_text (s ++ t) ≡ escape_text s ++ escape_text t
escape_text-append [] t = refl
escape_text-append (c ∷ s) t = rw (escape_text-append s t, append_assoc)

pub escape_text-Lacks : (s : Bytes) → Lacks is_escaped s → escape_text s ≡ s
escape_text-Lacks [] h = refl
escape_text-Lacks (c ∷ s) (h, t) = rw (h, escape_text-Lacks s t)

-- A call that starts at `n_src` with `rest` to read and has written `out` returns the escaping of
-- the first `m` bytes of the rest: of all of them with no error, or of some with ErrShortDst.
abbrev Escapes : Bytes → ℕ → Bytes → Outcome → Type 0
Escapes rest n_src out o =
    (m : ℕ) × (e : Option TransformError) × (o
      ≡ returned (out ++ escape_text (take m rest)) (n_src + m) e)
    × (m ≤ length rest)
    × (((e ≡ none) × (m ≡ length rest)) ⊎ ((e ≡ some short_dst) × (0 < n_src + m)))

byte_at_past : (a : Bytes) (c : ℕ) (r : Bytes) → byte_at (a ++ c ∷ r) (length a) ≡ c
byte_at_past [] c r = refl
byte_at_past (b ∷ a) c r = byte_at_past a c r

pub length-escape_bytes : (c : ℕ) → length (escape_bytes c) ≡ 3
unfolding escape_bytes
length-escape_bytes c = refl

module _ (again : ℕ → Bytes → ℕ → Bytes → Outcome) (room n_src : ℕ) (out : Bytes) where
  -- The two ways in which a round goes, by the first escaped byte of the rest.
  round_miss :
      (s : Bytes)
      → Lacks is_escaped s
      → length s ≤ room
      → escape_round again room s n_src out ≡ returned (out ++ s) (n_src + length s) none
  unfolding escape_round
  round_miss s lacks fits =
      rw (index_by-Lacks is_escaped s lacks, escape_round)
        (rw (take_all room s fits) (ground arith))

  round_hit :
      (a : Bytes) (c : ℕ) (r : Bytes)
      → Lacks is_escaped a
      → is_escaped c ≡ true
      → length a + 3 ≤ room
      → escape_round again room (a ++ c ∷ r) n_src out ≡ (
          if not (length a + (n_src + length a) == length a)
          then returned (out ++ a) (n_src + length a) (some short_dst)
          else again (room - length a - 3) r (n_src + length a + 1) (out ++ (a ++ escape_bytes c)))
  unfolding escape_round
  round_hit a c r lacks hit fits =
      rw (index_by_hit is_escaped a c r lacks hit, escape_round)
        (rw (take_prefix a (c ∷ r), take_all room a (omega arith), byte_at_past a c r)
          (rw (
            take_all (room - length a) (escape_bytes c) (omega (arith, length-escape_bytes c)),
            length-escape_bytes c,
            add-one (length a),
            drop_past a c r,
          )))

regroup : (n l m : ℕ) → n + l + 1 + m ≡ n + (l + suc m)
regroup n l m = omega arith

take_past :
    (a : Bytes) (c : ℕ) (r : Bytes) (m : ℕ)
    → take (length a + suc m) (a ++ c ∷ r) ≡ a ++ c ∷ take m r
take_past [] c r m = rw zero-add
take_past (b ∷ a) c r m = rw (suc-add (length a) (suc m)) (ap (λ t. b ∷ t) (take_past a c r m))

escape_text_past :
    (a : Bytes) (c : ℕ) (t : Bytes)
    → Lacks is_escaped a
    → is_escaped c ≡ true
    → escape_text (a ++ c ∷ t) ≡ a ++ (escape_bytes c ++ escape_text t)
escape_text_past a c t lacks hit = rw (escape_text-append a (c ∷ t), escape_text-Lacks a lacks, hit)

module _ (again : ℕ → Bytes → ℕ → Bytes → Outcome) (room n_src : ℕ) (out : Bytes) where
  miss-Escapes :
      (s : Bytes)
      → Lacks is_escaped s
      → 3 * length s ≤ room
      → Escapes s n_src out (escape_round again room s n_src out)
  miss-Escapes s lacks fits = (
    length s,
    none,
    rw (take_all (length s) s (omega arith), escape_text-Lacks s lacks)
        (round_miss again room n_src out s lacks (omega arith)),
    omega arith,
    inl (refl, refl),
  )

  -- The round goes on only at the very start of a call.
  hit_on :
      (a : Bytes) (c : ℕ) (r : Bytes)
      → Lacks is_escaped a
      → is_escaped c ≡ true
      → (length a + (n_src + length a) == length a) ≡ true
      → 3 * length (a ++ c ∷ r) ≤ room
      → Escapes r
          (n_src + length a + 1)
          (out ++ (a ++ escape_bytes c))
          (again (room - length a - 3) r (n_src + length a + 1) (out ++ (a ++ escape_bytes c)))
      → Escapes (a ++ c ∷ r) n_src out (escape_round again room (a ++ c ∷ r) n_src out)
  hit_on a c r lacks hit test fits (m, e, result, short, end) = (
    length a + suc m,
    e,
    rw
        (
          round_hit again room n_src out a c r lacks hit (omega (arith, length-append a (c ∷ r))),
          test,
          result,
          take_past a c r m,
          escape_text_past a c (take m r) lacks hit,
        )
        (rw (
          append_assoc out (a ++ escape_bytes c) (escape_text (take m r)),
          append_assoc a (escape_bytes c) (escape_text (take m r)),
          regroup n_src (length a) m,
        )),
    omega (arith, length-append a (c ∷ r)),
    elim end [
      | inl (none_left, all) ↦ inl (none_left, omega (arith, length-append a (c ∷ r)))
      | inr (stopped, moved) ↦ inr (stopped, omega arith)
    ],
  )

  hit_off :
      (a : Bytes) (c : ℕ) (r : Bytes)
      → Lacks is_escaped a
      → is_escaped c ≡ true
      → (length a + (n_src + length a) == length a) ≡ false
      → 3 * length (a ++ c ∷ r) ≤ room
      → Escapes (a ++ c ∷ r) n_src out (escape_round again room (a ++ c ∷ r) n_src out)
  hit_off a c r lacks hit test fits = (
    length a,
    some short_dst,
    rw (
      round_hit again room n_src out a c r lacks hit (omega (arith, length-append a (c ∷ r))),
      test,
      take_prefix a (c ∷ r),
      escape_text-Lacks a lacks,
    ),
    omega (arith, length-append a (c ∷ r)),
    inr (refl, ground arith),
  )

  round-Escapes :
      (rest : Bytes)
      → ((room' : ℕ) (rest' : Bytes) (n_src' : ℕ) (out' : Bytes)
          → length rest' < length rest
          → 3 * length rest' ≤ room'
          → Escapes rest' n_src' out' (again room' rest' n_src' out'))
      → 3 * length rest ≤ room
      → Escapes rest n_src out (escape_round again room rest n_src out)
  round-Escapes rest ih fits = elim (cut_by is_escaped rest) [
    | inl lacks ↦ miss-Escapes rest lacks fits
    | inr (a, c, r, e, lacks, hit) ↦
        let sizes : length rest ≡ length a + suc (length r) =
          ap length e ∙ length-append a (c ∷ r) in
        let fits' : 3 * length (a ++ c ∷ r) ≤ room = subst (λ t. 3 * length t ≤ room) e fits in
        subst (λ t. Escapes t n_src out (escape_round again room t n_src out)) (sym e)
          (elim (Bool-cases (length a + (n_src + length a) == length a)) [
            | inr stop ↦ hit_off a c r lacks hit stop fits'
            | inl on ↦ hit_on a c r lacks hit on fits' (
                ih (room - length a - 3) r (n_src + length a + 1) (out ++ (a ++ escape_bytes c))
                  (omega arith) (omega arith))
          ])
  ]

loop-Escapes :
    (fuel room : ℕ) (rest : Bytes) (n_src : ℕ) (out : Bytes)
    → length rest < fuel
    → 3 * length rest ≤ room
    → Escapes rest n_src out (escape_loop fuel room rest n_src out)
unfolding escape_loop
loop-Escapes zero room rest n_src out fuel fits = elim fuel [ ]
loop-Escapes (suc f) room [] n_src out fuel fits =
    (0, none, rw (append-nil, add-zero), omega arith, inl (refl, refl))
loop-Escapes (suc f) room (b ∷ s) n_src out fuel fits =
    round-Escapes (escape_loop f) room n_src out (b ∷ s)
      (λ room' rest' n_src' out' less fits'.
        loop-Escapes f room' rest' n_src' out' (omega arith) fits')
      fits

-- A call with room for three bytes for each byte to read returns: what it has written is the
-- escaping of the bytes that it has read. With no error these are all bytes; the only error is
-- ErrShortDst, and then at least one byte was read.
pub transform_escapes :
    (room : ℕ) (src : Bytes)
    → 3 * length src ≤ room
    → (n : ℕ) × (e : Option TransformError) × (escape_transform room src
        ≡ returned (escape_text (take n src)) n e)
      × (n ≤ length src)
      × (((e ≡ none) × (n ≡ length src)) ⊎ ((e ≡ some short_dst) × (0 < n)))
unfolding escape_transform
transform_escapes room src fits =
    let (m, e, result, short, end) =
      loop-Escapes (suc (length src)) room src 0 [] (omega arith) fits in
    (
      m,
      e,
      result ∙ ap (λ k. returned (escape_text (take m src)) k e) (zero-add m),
      short,
      elim end [ inl h ↦ inl h | inr (stopped, moved) ↦ inr (stopped, omega arith) ],
    )
