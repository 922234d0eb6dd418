-- ===== src/Styling/Decoder.antt =====
-- styling/styling.go: the decoder of nested quotations, its split function, and its tokens.
use xmpp.Prelude.{
  ℕ, zero, suc, ◌+◌, ◌-◌, ltb, if◌then◌else◌, Bool, true, false, not, ◌&&◌, none, some, List, [],
  ◌∷◌, Bytes, is_empty, index_by, length, take, drop,
}
use xmpp.Styling.Style
use xmpp.Styling.Style.{with_bits, without_bits, has_bits}
use xmpp.Styling.Layer.{
  Unicode, Layer, Step, more_data, split, panicked, prefix, fence, has_prefix, is_newline,
  starts_block_quote, scan_pre, scan_span,
}

-- A decoder, with or without another one inside it, `quoteSplit`.
pub data Decoder : Type 0 where
  flat : Layer → Decoder
  quoting : Layer → Decoder → Decoder

abbrev pub fresh_layer : Layer
fresh_layer = record {
  clear_mask = 0;
  mask = 0;
  quote_started = false;
  last_newline = false;
  has_run = false;
  span_stack = [];
}

-- `&Decoder{}`.
abbrev pub fresh : Decoder
fresh = flat fresh_layer

-- The loop behind a newline, over a decoder and those inside it.
unfoldable pub restart_layer : Layer → Layer
restart_layer l = record l { quote_started = false; has_run = false }

unfoldable pub restart : Decoder → Decoder
restart (flat l) = flat (restart_layer l)
restart (quoting l inner) = quoting (restart_layer l) (restart inner)

-- The end of a line is seen to, and the bits that were to be cleared are.
unfoldable pub prepare : Layer → Layer
prepare l =
    let d =
      if l.last_newline
      then record (restart_layer l) {
        mask = without_bits l.mask Style.block_quote;
        last_newline = false;
      }
      else l in
    record d { mask = without_bits d.mask d.clear_mask; clear_mask = 0 }

-- A block that is no quotation begins, or text goes on.
unfoldable pub scan_block : Unicode → Layer → Bytes → Bool → Step × Layer
scan_block u l text at_eof =
    let d = record l { has_run = true } in
    let started = record d {
      mask = with_bits (with_bits d.mask Style.block_pre) Style.block_pre_start;
      clear_mask = with_bits d.clear_mask Style.block_pre_start;
    } in
    if has_prefix text fence
    then elim (index_by is_newline text) [
      | some zero ↦
          (if at_eof then (split (length text) text, started) else scan_span u d text at_eof)
      | some (suc idx) ↦ (prefix (suc (suc idx)) text, started)
      | none ↦ if at_eof then (split (length text) text, started) else (more_data, d)
    ]
    else scan_span u d text at_eof

unfoldable pub begin_quote : Layer → Layer
begin_quote l = record l {
  mask = with_bits (with_bits l.mask Style.block_quote) Style.block_quote_start;
  clear_mask = with_bits l.clear_mask Style.block_quote_start;
  quote_started = true;
  has_run = true;
}

-- The deferred function: a token that ends a line is remembered.
unfoldable pub ends_line : Bytes → Bool
ends_line [] = false
ends_line (c ∷ []) = is_newline c
ends_line (c ∷ d ∷ text) = ends_line (d ∷ text)

unfoldable pub remember : Step → Layer → Layer
remember (split n token) l = if ends_line token then record l { last_newline = true } else l
remember _ l = l

-- What is done with the text once a line's end is seen to: inside a span or a preformatted block it
-- goes on, and else a quotation or a block begins. A method call on a nil decoder is a panic.
unfoldable pub scan_flat : Unicode → Layer → Bytes → Bool → Step × Decoder
scan_flat u l text at_eof =
    let n = starts_block_quote u text in
    if not (is_empty l.span_stack)
    then (let (step, l') = scan_span u l text at_eof in (step, flat (remember step l')))
    else if has_bits l.mask Style.block_pre
    then (let (step, l') = scan_pre (record l { has_run = true }) text at_eof in
        (step, flat (remember step l')))
    else if ltb 0 n
    then (if not l.quote_started
        then (let step = prefix n text in (step, quoting (remember step (begin_quote l)) fresh))
        else (panicked, flat l))
    else (let (step, l') = scan_block u l text at_eof in (step, flat (remember step l')))

unfoldable pub scan_quoting :
    Unicode → Layer → Decoder → (Step × Decoder) → Bytes → Bool → Step × Decoder
scan_quoting u l inner delegated text at_eof =
    let n = starts_block_quote u text in
    if not (is_empty l.span_stack)
    then (let (step, l') = scan_span u l text at_eof in (step, quoting (remember step l') inner))
    else if has_bits l.mask Style.block_pre
    then (let (step, l') = scan_pre (record l { has_run = true }) text at_eof in
        (step, quoting (remember step l') inner))
    else if l.quote_started
    then (let (step, inner') = delegated in (step, quoting (remember step l) inner'))
    else if ltb 0 n
    then (let step = prefix n text in (step, quoting (remember step (begin_quote l)) inner))
    else (let (step, l') = scan_block u l text at_eof in (step, flat (remember step l')))

-- `Decoder.scan`, the split function. Behind a newline no quotation has started, and the inner
-- decoder
-- is restarted but not asked; the two calls of its split function are one call here.
unfoldable pub scan : Unicode → Decoder → Bytes → Bool → Step × Decoder
scan u (flat l) text at_eof =
    if at_eof && is_empty text then (more_data, flat l) else scan_flat u (prepare l) text at_eof
scan u (quoting l inner) text at_eof =
    let delegated = scan u inner text at_eof in
    if at_eof && is_empty text
    then (more_data, quoting l inner)
    else scan_quoting u (prepare l) (if l.last_newline then restart inner else inner) delegated text
        at_eof

-- `Quote`, without the block end that Next may insert: the count of levels that have started. A
-- started level without a decoder inside it would be a panic.
unfoldable pub quote : Decoder → ℕ
quote (flat l) = if l.quote_started then 1 else 0
quote (quoting l inner) = if l.quote_started then suc (quote inner) else 0

-- `Style`, without that block end.
unfoldable pub style : Decoder → ℕ
style (flat l) = if l.has_run then l.mask else 0
style (quoting l inner) = if l.has_run then with_bits l.mask (style inner) else 0

-- A token of the package.
pub record Token : Type 0 where
  pub text : Bytes
  pub info : Bytes

-- What Next makes of a token, by the decoder that the split function left.
unfoldable pub token_of : Decoder → Bytes → Token
token_of d text =
    let newline_len = if ends_line text then 1 else 0 in
    record {
      text = text;
      info =
          if has_bits (style d) Style.block_pre_start && ltb (3 + newline_len) (length text)
          then take (length text - newline_len - 3) (drop 3 text)
          else [];
    }

-- `Next` and `Token`: the split function has returned a token; if the level of quotation has
-- dropped
-- an empty token ends the quotation first.
unfoldable pub emit : ℕ → Decoder → Bytes → List Token
emit level d text =
    if ltb (quote d) level
    then record { text = []; info = [] } ∷ record { text = text; info = [] } ∷ []
    else token_of d text ∷ []
