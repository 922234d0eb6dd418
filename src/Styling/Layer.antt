-- ===== src/Styling/Layer.antt =====
-- styling/styling.go, scanPre, scanSpan and startsBlockQuote: how text at one level of quotation is
-- split. What the package unicode says of runes is a parameter, `Unicode`; a span stack has its top
-- first; a slice that is cut out of range is the outcome `panicked`.
use xmpp.Prelude.{
  ℕ, zero, suc, ◌+◌, ◌==◌, ltb, leb, if◌then◌else◌, Bool, false, not, ◌&&◌, ◌||◌, Option, none,
  some, [], ◌∷◌, Bytes, codes, text_eq, index_by, length, take, drop, get_elem?,
}
use xmpp.Styling.Style
use xmpp.Styling.Style.{with_bits, without_bits, has_bits}

-- `decode_rune` is utf8.DecodeRune, the rune and its size; `last_rune` is the rune that
-- utf8.DecodeLastRune returns; `is_space` is isSpace, two lookups in the tables of unicode.
pub record Unicode : Type 0 where
  pub decode_rune : Bytes → ℕ × ℕ
  pub last_rune : Bytes → ℕ
  pub is_space : ℕ → Bool

-- The fields of a Decoder that the split function uses, without the decoder inside it.
pub record Layer : Type 0 where
  pub clear_mask : ℕ
  pub mask : ℕ
  pub quote_started : Bool
  pub last_newline : Bool
  pub has_run : Bool
  pub span_stack : Bytes

-- What a split function returns: a request for more data, or the count of bytes to advance and the
-- token.
pub data Step : Type 0 where
  more_data : Step
  split : ℕ → Bytes → Step
  panicked : Step

-- `return n, data[:n], nil`.
unfoldable pub prefix : ℕ → Bytes → Step
prefix n text = if leb n (length text) then split n (take n text) else panicked

abbrev pub fence : Bytes
fence = codes "```"

unfoldable pub has_prefix : Bytes → Bytes → Bool
has_prefix text p = text_eq (take (length p) text) p

abbrev pub is_newline : ℕ → Bool
is_newline c = c == 10

-- The loop of `startsBlockQuote` behind the first byte; the fuel is the length of the text.
unfoldable pub quote_length : Unicode → ℕ → Bytes → ℕ → ℕ
quote_length u zero text l = l
quote_length u (suc fuel) [] l = l
quote_length u (suc fuel) (c ∷ text) l =
    let (r, size) = u.decode_rune (c ∷ text) in
    if not (u.is_space r) then l else quote_length u fuel (drop size (c ∷ text)) (l + size)

unfoldable pub starts_block_quote : Unicode → Bytes → ℕ
starts_block_quote u [] = 0
starts_block_quote u (c ∷ text) = if not (c == b'>') then 0 else quote_length u (length text) text 1

unfoldable pub scan_pre : Layer → Bytes → Bool → Step × Layer
scan_pre d text at_eof =
    let idx_zero = has_prefix text fence in
    let newline_next : Bool = elim (get_elem? text 3) [ some c ↦ is_newline c | none ↦ false ] in
    if idx_zero && (not at_eof && length text == 3)
    then (more_data, d)
    else if idx_zero && (at_eof || (ltb 3 (length text) && newline_next))
    then (
      prefix (if not at_eof then 4 else 3) text,
      record d {
        mask = with_bits d.mask Style.block_pre_end;
        clear_mask = with_bits (with_bits d.clear_mask Style.block_pre) Style.block_pre_end;
      },
    )
    else if at_eof
    then (split (length text) text, d)
    else elim (index_by is_newline text) [
      | some idx ↦ (prefix (suc idx) text, d)
      | none ↦ (more_data, d)
    ]

abbrev pub is_directive : ℕ → Bool
is_directive b = b == b'*' || (b == b'_' || (b == b'`' || b == b'~'))

-- The bits of a span's style, and of its start and its end.
unfoldable pub span_bits : ℕ → ℕ × ℕ × ℕ
span_bits b =
    if b == b'*'
    then (Style.span_strong, Style.span_strong_start, Style.span_strong_end)
    else if b == b'_'
    then (Style.span_emph, Style.span_emph_start, Style.span_emph_end)
    else if b == b'~'
    then (Style.span_strike, Style.span_strike_start, Style.span_strike_end)
    else (Style.span_pre, Style.span_pre_start, Style.span_pre_end)

-- The end directive of the innermost span: the rest of the stack is left.
unfoldable pub close_span : Layer → ℕ → Bytes → Layer
close_span d b stack =
    let (bits, start, stop) = span_bits b in
    record d {
      mask = with_bits d.mask stop;
      clear_mask = with_bits (with_bits d.clear_mask bits) stop;
      span_stack = stack;
    }

unfoldable pub open_span : Layer → ℕ → Layer
open_span d b =
    let (bits, start, stop) = span_bits b in
    record d {
      mask = with_bits (with_bits d.mask bits) start;
      clear_mask = with_bits d.clear_mask start;
      span_stack = b ∷ d.span_stack;
    }

-- One byte in the loop of `scanSpan`: it returns, or goes on with the place and the byte of the
-- start directive that was found, if one was.
pub data Decision : Type 0 where
  stop : Step → Layer → Decision
  go_on : Option (ℕ × ℕ) → Decision

-- The byte is a directive.
unfoldable pub scan_directive : Unicode → Layer → Bytes → ℕ → ℕ → Option (ℕ × ℕ) → Decision
scan_directive u d text i b start =
    let next_space = u.is_space (u.decode_rune (drop (suc i) text)).0 in
    let prev_space = u.is_space (u.last_rune (take i text)) in
    let doubled : Bool = elim (get_elem? text (suc i)) [ some c ↦ c == b | none ↦ false ] in
    elim start [
      | none ↦
          if not (has_bits d.mask Style.span_pre)
          then (if (i == 0 || prev_space) && not next_space
              then (if doubled then go_on none else go_on (some (i, b)))
              else go_on none)
          else go_on none
      | some (at, directive) ↦
          if b == directive && (not prev_space && ltb (suc at) i)
          then (if ltb 0 at then stop (prefix at text) d else stop (prefix 1 text) (open_span d b))
          else go_on (some (at, directive))
    ]

unfoldable pub scan_byte : Unicode → Layer → Bytes → ℕ → ℕ → Option (ℕ × ℕ) → Decision
scan_byte u d text i b start =
    if is_newline b
    then stop (prefix (suc i) text) d
    else if not (is_directive b)
    then go_on start
    else elim d.span_stack [
      | [] ↦ scan_directive u d text i b start
      | top ∷ stack ↦
          if b == top
          then (if i == 0
              then stop (prefix 1 text) (close_span d b stack)
              else stop (prefix i text) d)
          else scan_directive u d text i b start
    ]

-- The loop: `rest` is what is left of the text at the place `i`.
unfoldable pub scan_span_from :
    Unicode → Layer → Bytes → Bool → ℕ → Bytes → Option (ℕ × ℕ) → Step × Layer
scan_span_from u d text at_eof i [] start =
    (if at_eof then split (length text) text else more_data, d)
scan_span_from u d text at_eof i (b ∷ rest) start = elim (scan_byte u d text i b start) [
  | stop step d' ↦ (step, d')
  | go_on start' ↦ scan_span_from u d text at_eof (suc i) rest start'
]

unfoldable pub scan_span : Unicode → Layer → Bytes → Bool → Step × Layer
scan_span u d text at_eof = scan_span_from u d text at_eof 0 text none
