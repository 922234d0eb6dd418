-- ===== src/Styling/Sound.antt =====
-- What the split functions of one level promise: they return a non-empty start of the text, and ask
-- for more only if there may be more.
use xmpp.Prelude.{
  ℕ, zero, suc, ◌+◌, ◌==◌, ◌≤◌, ◌<◌, ltb, leb, if◌then◌else◌, Bool, true, false, not, ◌&&◌, ◌||◌,
  Option, none, some, [], ◌∷◌, ◌≡◌, ◌⊎◌, inl, inr, refl, sym, ap, Bytes, text_eq_iff, index_by,
  Lacks, index_by-none, Bool-cases, subst, ◌∙◌, length, take, drop, take_all, length-take,
  length-drop, get_elem?, arith, Option-cases, if-cases,
}
use xmpp.Styling.Style
use xmpp.Styling.Style.{has_bits}
use xmpp.Styling.Layer.{
  Unicode, Layer, Step, more_data, split, prefix, fence, has_prefix, is_newline, quote_length,
  starts_block_quote, scan_pre, is_directive, close_span, Decision, stop, go_on, scan_directive,
  scan_byte, scan_span_from, scan_span,
}

-- What unicode/utf8 says of DecodeRune: at least one byte is read of a text that is not empty, and
-- none behind its end.
pub record RuneLaws (u : Unicode) : Type 0 where
  pub size_pos : (c : ℕ) (text : Bytes) → 1 ≤ (u.decode_rune (c ∷ text)).1
  pub size_le : (text : Bytes) → (u.decode_rune text).1 ≤ length text

-- A start of the text that is not empty, as count and token.
abbrev pub IsStart : Bytes → Step → Type 0
IsStart text step = (n : ℕ) × (step ≡ split n (take n text)) × (1 ≤ n) × (n ≤ length text)

-- Such a start, or the wish for more, on a text without a newline that may go on.
abbrev pub IsProgress : Bytes → Bool → Step → Type 0
IsProgress text at_eof step =
    ((step ≡ more_data) × (at_eof ≡ false) × Lacks is_newline text) ⊎ IsStart text step

pub prefix-IsStart : (n : ℕ) (text : Bytes) → 1 ≤ n → n ≤ length text → IsStart text (prefix n text)
unfolding prefix
prefix-IsStart n text low high =
    let fits : leb n (length text) ≡ true = ground arith in (n, rw fits refl, low, high)

pub whole-IsStart : (text : Bytes) → 1 ≤ length text → IsStart text (split (length text) text)
whole-IsStart text there = (
  length text,
  ap (split (length text)) (sym (take_all (length text) text (omega arith))),
  there,
  omega arith,
)

pub index_by_bound :
    (p : ℕ → Bool) (text : Bytes) {k : ℕ} → index_by p text ≡ some k → k < length text
unfolding index_by
index_by_bound p [] e = absurd (cc e)
index_by_bound p (c ∷ text) {k} e = elim (Option-cases (index_by p text)) [
  | inl missing ↦ ground arith
  | inr (i, found) ↦ let h = index_by_bound p text {k = i} found in ground arith
]

has_prefix-length : (text p : Bytes) → has_prefix text p ≡ true → length p ≤ length text
unfolding has_prefix
has_prefix-length text p e =
    omega
      (arith, length-take (length p) text, ap length ((text_eq_iff (take (length p) text) p).0 e))

module _ (u : Unicode) (laws : RuneLaws u) where
  quote_length_bound :
      (fuel : ℕ) (text : Bytes) (l : ℕ)
      → (l ≤ quote_length u fuel text l) × (quote_length u fuel text l ≤ l + length text)
  unfolding quote_length
  quote_length_bound zero text l = (omega arith, omega arith)
  quote_length_bound (suc fuel) [] l = (omega arith, omega arith)
  quote_length_bound (suc fuel) (c ∷ text) l =
      let r = u.decode_rune (c ∷ text) in
      let (low, high) = quote_length_bound fuel (drop r.1 (c ∷ text)) (l + r.1) in
      let room = laws.size_le (c ∷ text) in
      let left = length-drop r.1 (c ∷ text) in
      if-cases (λ n. (l ≤ n) × (n ≤ l + suc (length text))) (not (u.is_space r.0))
        (λ e. (omega arith, omega arith))
        (λ e. (omega (arith, low), omega (arith, high, room, left)))

  pub starts_block_quote_bound : (text : Bytes) → starts_block_quote u text ≤ length text
  unfolding starts_block_quote
  starts_block_quote_bound [] = omega arith
  starts_block_quote_bound (c ∷ text) =
      let h = (quote_length_bound (length text) text 1).1 in ground arith

only_fence : (text : Bytes) → has_prefix text fence ≡ true → length text ≡ 3 → Lacks is_newline text
unfolding has_prefix
only_fence text hit short =
    subst (Lacks is_newline)
      (sym ((text_eq_iff (take 3 text) fence).0 hit) ∙ take_all 3 text (omega (arith, short)))
      (refl, (refl, (refl, tt)))

pub scan_pre-IsProgress :
    (d : Layer) (text : Bytes) (at_eof : Bool)
    → 1 ≤ length text
    → IsProgress text at_eof (scan_pre d text at_eof).0
unfolding scan_pre
scan_pre-IsProgress d text at_eof there =
    let hit = has_prefix text fence in
    if-cases (λ (r : Step × Layer). IsProgress text at_eof r.0)
      (hit && (not at_eof && length text == 3))
      (λ e. inl (refl, ground arith, only_fence text (ground arith) (ground arith)))
      (λ _.
        if-cases (λ (r : Step × Layer). IsProgress text at_eof r.0)
          (hit && (at_eof || (ltb 3 (length text) && next_is_newline)))
          (λ e. inr (
            if-cases (λ n. IsStart text (prefix n text)) (not at_eof)
              (λ f. prefix-IsStart 4 text (omega arith) (ground arith))
              (λ f.
                prefix-IsStart 3 text (omega arith) (has_prefix-length text fence (ground arith)))))
          (λ _.
            if-cases (λ (r : Step × Layer). IsProgress text at_eof r.0) at_eof
              (λ _. inr (whole-IsStart text there))
              (λ e. elim (Option-cases (index_by is_newline text)) [
                | inl f ↦ rw f (inl (refl, e, index_by-none is_newline text f))
                | inr (k, f) ↦ rw f (
                    inr (
                      prefix-IsStart (suc k) text (omega arith)
                        (omega (arith, index_by_bound is_newline text {k = k} f))))
              ])))
  where
    next_is_newline : Bool
    next_is_newline = elim (get_elem? text 3) [ some c ↦ is_newline c | none ↦ false ]

-- A start directive that was found lies in front of the place.
abbrev IsBefore : ℕ → Option (ℕ × ℕ) → Type 0
IsBefore i none = Unit
IsBefore i (some (at, b)) = at < i

abbrev IsSound : Bytes → ℕ → Decision → Type 0
IsSound text i (stop step d) = IsStart text step
IsSound text i (go_on start) = IsBefore (suc i) start

scan_directive-IsSound :
    (u : Unicode) (d : Layer) (text : Bytes) (i b : ℕ) (start : Option (ℕ × ℕ))
    → i < length text
    → IsBefore i start
    → IsSound text i (scan_directive u d text i b start)
unfolding scan_directive
scan_directive-IsSound u d text i b none inside before =
    if-cases (IsSound text i) (not (has_bits d.mask Style.span_pre))
      (λ _.
        if-cases (IsSound text i)
          ((i == 0 || u.is_space (u.last_rune (take i text)))
            && not (u.is_space (u.decode_rune (drop (suc i) text)).0))
          (λ _.
            if-cases (IsSound text i)
              (elim (get_elem? text (suc i)) [ some c ↦ c == b | none ↦ false ]) (λ _. tt)
              (λ _. omega arith))
          (λ _. tt))
      (λ _. tt)
scan_directive-IsSound u d text i b (some (at, directive)) inside before =
    if-cases (IsSound text i)
      (b == directive && (not (u.is_space (u.last_rune (take i text))) && ltb (suc at) i))
      (λ _.
        if-cases (IsSound text i) (ltb 0 at)
          (λ positive. prefix-IsStart at text (ground arith) (omega arith))
          (λ _. prefix-IsStart 1 text (omega arith) (omega arith)))
      (λ _. omega arith)

scan_byte-IsSound :
    (u : Unicode) (d : Layer) (text : Bytes) (i b : ℕ) (start : Option (ℕ × ℕ))
    → i < length text
    → IsBefore i start
    → IsSound text i (scan_byte u d text i b start)
unfolding scan_byte
scan_byte-IsSound u d text i b start inside before =
    if-cases (IsSound text i) (is_newline b)
      (λ _. prefix-IsStart (suc i) text (omega arith) (omega (arith, inside)))
      (λ _.
        if-cases (IsSound text i) (not (is_directive b)) (λ _. later start before)
          (λ _. by_stack d.span_stack))
  where
    later : (start' : Option (ℕ × ℕ)) → IsBefore i start' → IsBefore (suc i) start'
    later none h = tt
    later (some (at, c)) h = omega (arith, h)

    by_stack :
        (stack : Bytes)
        → IsSound text i (elim stack [
          | [] ↦ scan_directive u d text i b start
          | top ∷ stack' ↦
              if b == top
              then (if i == 0
                  then stop (prefix 1 text) (close_span d b stack')
                  else stop (prefix i text) d)
              else scan_directive u d text i b start
        ])
    by_stack [] = scan_directive-IsSound u d text i b start inside before
    by_stack (top ∷ stack') =
        if-cases (IsSound text i) (b == top)
          (λ _.
            if-cases (IsSound text i) (i == 0)
              (λ _. prefix-IsStart 1 text (omega arith) (omega (arith, inside)))
              (λ e. prefix-IsStart i text (ground arith) (omega (arith, inside))))
          (λ _. scan_directive-IsSound u d text i b start inside before)

goes_on_in_line :
    (u : Unicode) (d : Layer) (text : Bytes) (i b : ℕ) (start : Option (ℕ × ℕ))
    {start' : Option (ℕ × ℕ)}
    → scan_byte u d text i b start ≡ go_on start'
    → is_newline b ≡ false
unfolding scan_byte
goes_on_in_line u d text i b start e = elim (Bool-cases (is_newline b)) [
  | inl h ↦ absurd (cc (rw (h, scan_byte) at e))
  | inr h ↦ h
]

scan_span_from-IsProgress :
    (u : Unicode) (d : Layer) (text : Bytes) (at_eof : Bool) (i : ℕ) (rest : Bytes)
    (start : Option (ℕ × ℕ))
    → 1 ≤ length text
    → i + length rest ≡ length text
    → IsBefore i start
    → (Lacks is_newline rest → Lacks is_newline text)
    → IsProgress text at_eof (scan_span_from u d text at_eof i rest start).0
unfolding scan_span_from
scan_span_from-IsProgress u d text at_eof i [] start there place before lacks =
    if-cases (IsProgress text at_eof) at_eof (λ _. inr (whole-IsStart text there))
      (λ e. inl (refl, e, lacks tt))
scan_span_from-IsProgress u d text at_eof i (b ∷ rest) start there place before lacks =
    decided (scan_byte u d text i b start)
      (scan_byte-IsSound u d text i b start (omega (arith, place)) before)
      (λ start' q h.
        scan_span_from-IsProgress u d text at_eof (suc i) rest start' there (omega (arith, place)) h
          (λ t. lacks (goes_on_in_line u d text i b start q, t)))
      refl
  where
    decided :
        (x : Decision)
        → IsSound text i x
        → ((start' : Option (ℕ × ℕ))
            → scan_byte u d text i b start ≡ go_on start'
            → IsBefore (suc i) start'
            → IsProgress text at_eof (scan_span_from u d text at_eof (suc i) rest start').0)
        → scan_byte u d text i b start ≡ x
        → IsProgress text at_eof
            (elim x as (λ _. Step × Layer) [
              | stop step d' ↦ (step, d')
              | go_on start' ↦ scan_span_from u d text at_eof (suc i) rest start'
            ]).0
    decided (stop step d') h next q = inr h
    decided (go_on start') h next q = next start' q h

pub scan_span-IsProgress :
    (u : Unicode) (d : Layer) (text : Bytes) (at_eof : Bool)
    → 1 ≤ length text
    → IsProgress text at_eof (scan_span u d text at_eof).0
unfolding scan_span
scan_span-IsProgress u d text at_eof there =
    scan_span_from-IsProgress u d text at_eof 0 text none there (omega arith) tt (λ t. t)
