-- ===== src/Styling/Tests.antt =====
-- Runs of the decoder, over ASCII: a rune is a byte.
use xmpp.Prelude.{
  drop, ℕ, ◌==◌, ◌≤◌, true, false, ◌||◌, List, [], ◌∷◌, ◌≡◌, refl, Bytes, codes, text_eq, index_by,
  length, arith,
}
use xmpp.Styling.Style.{has_bits, with_bits, without_bits}
use xmpp.Styling.Layer.{
  Unicode, split, prefix, has_prefix, quote_length, starts_block_quote, scan_pre,
}
use xmpp.Styling.Decoder.{fresh_layer, fresh, prepare, scan_flat, remember, ends_line, scan}
use xmpp.Styling.Sound.{RuneLaws}
use xmpp.Styling.Nested.{IsGood, scan-IsGood}
use xmpp.Styling.Text.{Piece, max_token, put_back}

abbrev first_rune : Bytes → ℕ × ℕ
first_rune [] = (0xfffd, 0)
first_rune (c ∷ text) = (c, 1)

abbrev final_rune : Bytes → ℕ
final_rune [] = 0xfffd
final_rune (c ∷ []) = c
final_rune (c ∷ d ∷ text) = final_rune (d ∷ text)

abbrev ascii : Unicode
ascii = record {
  decode_rune = first_rune;
  last_rune = final_rune;
  is_space = λ r. r == 32 || (r == 10 || r == 9);
}

ascii_laws : RuneLaws ascii
ascii_laws = record { size_pos = λ c text. omega arith; size_le = in_bounds }
  where
    in_bounds : (text : Bytes) → (first_rune text).1 ≤ length text
    in_bounds [] = omega arith
    in_bounds (c ∷ text) = omega arith

-- A quotation is split behind its sign.
test_quote : (scan ascii fresh (codes "> a\nb") false).0 ≡ split 2 (codes "> ")
unfolding scan scan_flat prepare has_bits without_bits starts_block_quote quote_length prefix
    remember ends_line
test_quote = refl

-- A line that goes on behind a fence does not end a preformatted block, unless the reader is at its
-- end: then the fence itself is the token.
test_fence_read : (scan_pre fresh_layer (codes "```go\n") false).0 ≡ split 6 (codes "```go\n")
unfolding scan_pre has_prefix text_eq index_by prefix
test_fence_read = refl

test_fence_at_eof : (scan_pre fresh_layer (codes "```go\n") true).0 ≡ split 3 (codes "```")
unfolding scan_pre has_prefix text_eq index_by prefix with_bits
test_fence_at_eof = refl

scan-IsGood_example : IsGood (codes "> a\nb") false (scan ascii fresh (codes "> a\nb") false)
scan-IsGood_example = scan-IsGood ascii ascii_laws (codes "> a\nb") false (omega arith) fresh refl

abbrev pieces : List Piece
pieces = (b' ', codes "*b") ∷ (b'*', []) ∷ []

-- Each piece is what a read returns, if the buffer has room for it.
test_read : put_back (drop max_token (codes "a")) pieces ≡ pieces
unfolding put_back
test_read = refl
