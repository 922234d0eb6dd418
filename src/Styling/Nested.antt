-- ===== src/Styling/Nested.antt =====
-- What the split function of a decoder promises, with all the quotations inside one another.
use xmpp.Prelude.{
  ◌≤◌, ltb, if◌then◌else◌, Bool, true, false, not, ◌&&◌, [], ◌∷◌, ◌≡◌, inr, refl, ◌∙◌, Bytes,
  is_empty, length, arith, if-cases,
}
use xmpp.Styling.Style
use xmpp.Styling.Style.{with_bits, has_bits}
use xmpp.Styling.Layer.{Unicode, Layer, Step, prefix, starts_block_quote, scan_pre, scan_span}
use xmpp.Styling.Decoder.{
  Decoder, flat, quoting, restart_layer, restart, prepare, scan_block, scan_flat, scan_quoting,
  scan,
}
use xmpp.Styling.Sound.{
  RuneLaws, IsStart, IsProgress, prefix-IsStart, starts_block_quote_bound, scan_pre-IsProgress,
  scan_span-IsProgress,
}
use xmpp.Styling.Keeps.{
  scan_span-Keeps, scan_pre-Keeps, remember-Keeps, prepare_keeps_level, scan_block-IsProgress,
  scan_block-Keeps,
}

-- A quotation that has started at some level has a decoder inside that level.
abbrev pub IsWell : Decoder → Type 0
IsWell (flat l) = l.quote_started ≡ false
IsWell (quoting l inner) = IsWell inner

restart-IsWell : (d : Decoder) → IsWell (restart d)
unfolding restart restart_layer
restart-IsWell (flat l) = refl
restart-IsWell (quoting l inner) = restart-IsWell inner

-- What a call of the split function keeps: progress, and a well-formed decoder.
abbrev pub IsGood : Bytes → Bool → Step × Decoder → Type 0
IsGood text at_eof r = IsProgress text at_eof r.0 × IsWell r.1

module _ (u : Unicode) (laws : RuneLaws u) (text : Bytes) (at_eof : Bool)
    (there : 1 ≤ length text) where
  begin_quote-IsStart :
      ltb 0 (starts_block_quote u text) ≡ true
      → IsStart text (prefix (starts_block_quote u text) text)
  begin_quote-IsStart e =
      prefix-IsStart (starts_block_quote u text) text (ground arith)
        (starts_block_quote_bound u laws text)

  scan_flat-IsGood :
      (l : Layer) → l.quote_started ≡ false → IsGood text at_eof (scan_flat u l text at_eof)
  unfolding scan_flat
  scan_flat-IsGood l e =
      if-cases (IsGood text at_eof) (not (is_empty l.span_stack))
        (λ _. (
          scan_span-IsProgress u l text at_eof there,
          remember-Keeps (scan_span u l text at_eof).0 (scan_span u l text at_eof).1
              ∙ scan_span-Keeps u l text at_eof
              ∙ e,
        ))
        (λ _.
          if-cases (IsGood text at_eof) (has_bits l.mask Style.block_pre)
            (λ _.
              let d = record l { has_run = true } in
              let r = scan_pre d text at_eof in
              (
                scan_pre-IsProgress d text at_eof there,
                remember-Keeps r.0 r.1 ∙ scan_pre-Keeps d text at_eof ∙ e,
              ))
            (λ _.
              if-cases (IsGood text at_eof) (ltb 0 (starts_block_quote u text))
                (λ h.
                  if-cases (IsGood text at_eof) (not l.quote_started)
                    (λ _. (inr (begin_quote-IsStart h), refl)) (λ f. absurd (ground arith)))
                (λ _.
                  let r = scan_block u l text at_eof in
                  (
                    scan_block-IsProgress u l text at_eof there,
                    remember-Keeps r.0 r.1 ∙ scan_block-Keeps u l text at_eof ∙ e,
                  ))))

  scan_quoting-IsGood :
      (l : Layer) (inner : Decoder) (delegated : Step × Decoder)
      → IsWell inner
      → IsGood text at_eof delegated
      → IsGood text at_eof (scan_quoting u l inner delegated text at_eof)
  unfolding scan_quoting
  scan_quoting-IsGood l inner delegated well (good, well') =
      if-cases (IsGood text at_eof) (not (is_empty l.span_stack))
        (λ _. (scan_span-IsProgress u l text at_eof there, well))
        (λ _.
          if-cases (IsGood text at_eof) (has_bits l.mask Style.block_pre)
            (λ _. (scan_pre-IsProgress (record l { has_run = true }) text at_eof there, well))
            (λ _.
              if-cases (IsGood text at_eof) l.quote_started (λ _. (good, well'))
                (λ e.
                  if-cases (IsGood text at_eof) (ltb 0 (starts_block_quote u text))
                    (λ h. (inr (begin_quote-IsStart h), well))
                    (λ _.
                      let r = scan_block u l text at_eof in
                      (
                        scan_block-IsProgress u l text at_eof there,
                        remember-Keeps r.0 r.1 ∙ scan_block-Keeps u l text at_eof ∙ e,
                      )))))

  not_ended : (at_eof && is_empty text) ≡ false
  not_ended = filled text there
    where
      filled : (s : Bytes) → 1 ≤ length s → (at_eof && is_empty s) ≡ false
      filled [] h = absurd (omega arith)
      filled (c ∷ s) h = ground arith

  -- On a text that is not empty, with a well-formed decoder: the split function does not panic, it
  -- returns a start of the text that is not empty, as count and as token, or it asks for more data,
  -- the text holds no newline and is not known to end there; and it leaves a well-formed decoder.
  pub scan-IsGood : (d : Decoder) → IsWell d → IsGood text at_eof (scan u d text at_eof)
  unfolding scan
  scan-IsGood (flat l) well =
      rw not_ended (scan_flat-IsGood (prepare l) (prepare_keeps_level l well))
  scan-IsGood (quoting l inner) well = rw not_ended (
      scan_quoting-IsGood (prepare l) (if l.last_newline then restart inner else inner)
        (scan u inner text at_eof)
        (if-cases IsWell l.last_newline (λ _. restart-IsWell inner) (λ _. well))
        (scan-IsGood inner well))
