-- ===== src/Styling/Keeps.antt =====
-- What splitting text at one level leaves as it was: whether a quotation has started. And what
-- scan_block promises of a block.
use xmpp.Prelude.{
  ℕ, zero, suc, ◌≤◌, ◌<◌, ◌==◌, take, drop, get_elem?, ltb, if◌then◌else◌, Bool, true, false, not,
  Lacks, index_by-none, ◌&&◌, ◌||◌, Option, none, some, [], ◌∷◌, ◌≡◌, inl, inr, refl, Bytes,
  index_by, length, arith, if-cases,
}
use xmpp.Styling.Style
use xmpp.Styling.Style.{with_bits, has_bits}
use xmpp.Styling.Layer.{
  Unicode, Layer, Step, more_data, split, panicked, prefix, fence, has_prefix, is_newline, scan_pre,
  is_directive, close_span, open_span, Decision, stop, go_on, scan_directive, scan_byte,
  scan_span_from, scan_span,
}
use xmpp.Styling.Decoder.{restart_layer, prepare, scan_block, remember}
use xmpp.Styling.Sound.{
  IsProgress, prefix-IsStart, whole-IsStart, index_by_bound, scan_span-IsProgress,
}

-- No decoder at a level keeps the bit `quote_started`, unless one is inside it.
abbrev pub Keeps : Layer → Layer → Type 0
Keeps l l' = l'.quote_started ≡ l.quote_started

-- What keeps the bit where it is.
abbrev DecisionKeeps : Layer → Decision → Type 0
DecisionKeeps l (stop step d) = Keeps l d
DecisionKeeps l (go_on start) = Unit

scan_directive-Keeps :
    (u : Unicode) (d : Layer) (text : Bytes) (i b : ℕ) (start : Option (ℕ × ℕ))
    → DecisionKeeps d (scan_directive u d text i b start)
unfolding scan_directive open_span
scan_directive-Keeps u d text i b none =
    if-cases (DecisionKeeps d) (not (has_bits d.mask Style.span_pre))
      (λ _.
        if-cases (DecisionKeeps d)
          ((i == 0 || u.is_space (u.last_rune (take i text)))
            && not (u.is_space (u.decode_rune (drop (suc i) text)).0))
          (λ _.
            if-cases (DecisionKeeps d)
              (elim (get_elem? text (suc i)) [ some c ↦ c == b | none ↦ false ]) (λ _. tt)
              (λ _. tt))
          (λ _. tt))
      (λ _. tt)
scan_directive-Keeps u d text i b (some (at, directive)) =
    if-cases (DecisionKeeps d)
      (b == directive && (not (u.is_space (u.last_rune (take i text))) && ltb (suc at) i))
      (λ _. if-cases (DecisionKeeps d) (ltb 0 at) (λ _. refl) (λ _. refl)) (λ _. tt)

scan_byte-Keeps :
    (u : Unicode) (d : Layer) (text : Bytes) (i b : ℕ) (start : Option (ℕ × ℕ))
    → DecisionKeeps d (scan_byte u d text i b start)
unfolding scan_byte close_span
scan_byte-Keeps u d text i b start =
    if-cases (DecisionKeeps d) (is_newline b) (λ _. refl)
      (λ _.
        if-cases (DecisionKeeps d) (not (is_directive b)) (λ _. tt) (λ _. by_stack d.span_stack))
  where
    by_stack :
        (stack : Bytes)
        → DecisionKeeps d (elim stack [
          | [] ↦ scan_directive u d text i b start
          | top ∷ stack' ↦
              if b == top
              then (if i == 0
                  then stop (prefix 1 text) (close_span d b stack')
                  else stop (prefix i text) d)
              else scan_directive u d text i b start
        ])
    by_stack [] = scan_directive-Keeps u d text i b start
    by_stack (top ∷ stack') =
        if-cases (DecisionKeeps d) (b == top)
          (λ _. if-cases (DecisionKeeps d) (i == 0) (λ _. refl) (λ _. refl))
          (λ _. scan_directive-Keeps u d text i b start)

scan_span_from-Keeps :
    (u : Unicode) (d : Layer) (text : Bytes) (at_eof : Bool) (i : ℕ) (rest : Bytes)
    (start : Option (ℕ × ℕ))
    → Keeps d (scan_span_from u d text at_eof i rest start).1
unfolding scan_span_from
scan_span_from-Keeps u d text at_eof i [] start = refl
scan_span_from-Keeps u d text at_eof i (b ∷ rest) start =
    decided (scan_byte u d text i b start) (scan_byte-Keeps u d text i b start)
      (λ start'. scan_span_from-Keeps u d text at_eof (suc i) rest start')
  where
    decided :
        (x : Decision)
        → DecisionKeeps d x
        → ((start' : Option (ℕ × ℕ))
            → Keeps d (scan_span_from u d text at_eof (suc i) rest start').1)
        → Keeps d
            (elim x as (λ _. Step × Layer) [
              | stop step d' ↦ (step, d')
              | go_on start' ↦ scan_span_from u d text at_eof (suc i) rest start'
            ]).1
    decided (stop step d') h next = h
    decided (go_on start') h next = next start'

pub scan_span-Keeps :
    (u : Unicode) (l : Layer) (text : Bytes) (at_eof : Bool) → Keeps l (scan_span u l text at_eof).1
unfolding scan_span
scan_span-Keeps u l text at_eof = scan_span_from-Keeps u l text at_eof 0 text none

pub scan_pre-Keeps : (l : Layer) (text : Bytes) (at_eof : Bool) → Keeps l (scan_pre l text at_eof).1
unfolding scan_pre
scan_pre-Keeps l text at_eof =
    if-cases (λ (r : Step × Layer). Keeps l r.1)
      (has_prefix text fence && (not at_eof && length text == 3)) (λ _. refl)
      (λ _.
        if-cases (λ (r : Step × Layer). Keeps l r.1)
          (has_prefix text fence && (at_eof || (ltb 3 (length text) && next_is_newline)))
          (λ _. refl)
          (λ _.
            if-cases (λ (r : Step × Layer). Keeps l r.1) at_eof (λ _. refl)
              (λ _. by_newline (index_by is_newline text))))
  where
    next_is_newline : Bool
    next_is_newline = elim (get_elem? text 3) [ some c ↦ is_newline c | none ↦ false ]

    by_newline :
        (o : Option ℕ)
        → Keeps l
            (elim o as (λ _. Step × Layer) [
              | some idx ↦ (prefix (suc idx) text, l)
              | none ↦ (more_data, l)
            ]).1
    by_newline none = refl
    by_newline (some idx) = refl

pub remember-Keeps : (step : Step) (l : Layer) → Keeps l (remember step l)
unfolding remember
remember-Keeps more_data l = refl
remember-Keeps panicked l = refl
remember-Keeps (split n token) l = ground arith

pub prepare_keeps_level : (l : Layer) → l.quote_started ≡ false → (prepare l).quote_started ≡ false
unfolding prepare restart_layer
prepare_keeps_level l e =
    if-cases (λ (d : Layer). d.quote_started ≡ false) l.last_newline (λ _. refl) (λ _. e)

pub scan_block-IsProgress :
    (u : Unicode) (l : Layer) (text : Bytes) (at_eof : Bool)
    → 1 ≤ length text
    → IsProgress text at_eof (scan_block u l text at_eof).0
unfolding scan_block
scan_block-IsProgress u l text at_eof there =
    let d = record l { has_run = true } in
    if-cases (λ (r : Step × Layer). IsProgress text at_eof r.0) (has_prefix text fence)
      (λ _.
        by_newline (index_by is_newline text) (λ k e. index_by_bound is_newline text {k = k} e)
          (λ e. index_by-none is_newline text e))
      (λ _. scan_span-IsProgress u d text at_eof there)
  where
    started : Layer
    started = record l {
      has_run = true;
      mask = with_bits (with_bits l.mask Style.block_pre) Style.block_pre_start;
      clear_mask = with_bits l.clear_mask Style.block_pre_start;
    }

    by_newline :
        (o : Option ℕ)
        → ((k : ℕ) → o ≡ some k → k < length text)
        → (o ≡ none → Lacks is_newline text)
        → IsProgress text at_eof
            (elim o as (λ _. Step × Layer) [
              | some zero ↦
                  (if at_eof
                    then (split (length text) text, started)
                    else scan_span u (record l { has_run = true }) text at_eof)
              | some (suc idx) ↦ (prefix (suc (suc idx)) text, started)
              | none ↦
                  if at_eof
                  then (split (length text) text, started)
                  else (more_data, record l { has_run = true })
            ]).0
    by_newline none bound lacks =
        if-cases (λ (r : Step × Layer). IsProgress text at_eof r.0) at_eof
          (λ _. inr (whole-IsStart text there)) (λ e. inl (refl, e, lacks refl))
    by_newline (some zero) bound lacks =
        if-cases (λ (r : Step × Layer). IsProgress text at_eof r.0) at_eof
          (λ _. inr (whole-IsStart text there))
          (λ e. scan_span-IsProgress u (record l { has_run = true }) text at_eof there)
    by_newline (some (suc idx)) bound lacks =
        inr
          (prefix-IsStart (suc (suc idx)) text (omega arith) (omega (arith, bound (suc idx) refl)))

pub scan_block-Keeps :
    (u : Unicode) (l : Layer) (text : Bytes) (at_eof : Bool)
    → Keeps l (scan_block u l text at_eof).1
unfolding scan_block
scan_block-Keeps u l text at_eof =
    if-cases (λ (r : Step × Layer). Keeps l r.1) (has_prefix text fence)
      (λ _. by_newline (index_by is_newline text))
      (λ _. scan_span-Keeps u (record l { has_run = true }) text at_eof)
  where
    started : Layer
    started = record l {
      has_run = true;
      mask = with_bits (with_bits l.mask Style.block_pre) Style.block_pre_start;
      clear_mask = with_bits l.clear_mask Style.block_pre_start;
    }

    by_newline :
        (o : Option ℕ)
        → Keeps l
            (elim o as (λ _. Step × Layer) [
              | some zero ↦
                  (if at_eof
                    then (split (length text) text, started)
                    else scan_span u (record l { has_run = true }) text at_eof)
              | some (suc idx) ↦ (prefix (suc (suc idx)) text, started)
              | none ↦
                  if at_eof
                  then (split (length text) text, started)
                  else (more_data, record l { has_run = true })
            ]).1
    by_newline none = if-cases (λ (r : Step × Layer). Keeps l r.1) at_eof (λ _. refl) (λ _. refl)
    by_newline (some zero) =
        if-cases (λ (r : Step × Layer). Keeps l r.1) at_eof (λ _. refl)
          (λ _. scan_span-Keeps u (record l { has_run = true }) text at_eof)
    by_newline (some (suc idx)) = refl
