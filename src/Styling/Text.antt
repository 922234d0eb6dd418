-- ===== src/Styling/Text.antt =====
-- A whole text through a Decoder: `Next` and `Token` over a bufio.Scanner with the split function.
-- The scanner's buffer holds at most `max_token` bytes: if it is full and the split function asks for
-- more, the end is ErrTooLong. The reader returns the text in pieces of at least one byte, of which a
-- read takes what the buffer has room for. That it grows by doubling only makes the pieces smaller.
use mathlib.Core.Option
use xmpp.Prelude.{
  ℕ, zero, suc, ◌+◌, ◌-◌, ◌*◌, ◌≤◌, if◌then◌else◌, Bool, true, false, Option, none, some, List, [],
  ◌∷◌, ◌++◌, Lacks, ◌≡◌, ◌⊎◌, Bytes, leb, length, take, drop,
}
use xmpp.Styling.Layer.{Unicode, is_newline, more_data, split, panicked}
use xmpp.Styling.Decoder.{Decoder, quote, scan, Token, emit}

-- bufio.MaxScanTokenSize.
abbrev pub max_token : ℕ
max_token = 65536

-- A piece of text: its first byte and the others.
abbrev pub Piece : Type 0
Piece = ℕ × Bytes

abbrev pub bytes_of : Piece → Bytes
bytes_of (c, s) = c ∷ s

-- What a read did not take is there for the next.
unfoldable pub put_back : Bytes → List Piece → List Piece
put_back [] pieces = pieces
put_back (c ∷ s) pieces = (c, s) ∷ pieces

-- Why Next returns false: the error of the decoder is io.EOF or bufio.ErrTooLong.
pub data Ending : Type 0 where
  finished too_long : Ending

-- The tokens that calls of Next and Token return, until Next returns false, and why it does:
-- `buffer` is what was read and is not used up, `pieces` is what the reader has left, and the text is
-- at its end if the reader has said so. There is none if the split function panics, or the fuel runs
-- out.
unfoldable pub tokens_from :
    Unicode → ℕ → Decoder → Bytes → List Piece → Bool → Option (List Token × Ending)
tokens_from u zero d buffer pieces at_eof = none
tokens_from u (suc fuel) d [] [] at_eof = some ([], finished)
tokens_from u (suc fuel) d [] (piece ∷ pieces) at_eof =
    tokens_from u fuel d (take max_token (bytes_of piece))
      (put_back (drop max_token (bytes_of piece)) pieces) false
tokens_from u (suc fuel) d (c ∷ buffer) pieces at_eof =
    let (step, d') = scan u d (c ∷ buffer) at_eof in
    elim step [
      | panicked ↦ none
      | split n text ↦
          Option.map (λ (ts, ending). (emit (quote d) d' text ++ ts, ending))
            (tokens_from u fuel d' (drop n (c ∷ buffer)) pieces at_eof)
      | more_data ↦
          if at_eof
          then some ([], finished)
          else if leb max_token (length (c ∷ buffer))
          then some ([], too_long)
          else elim pieces [
            | [] ↦ tokens_from u fuel d' (c ∷ buffer) [] true
            | piece ∷ pieces' ↦
                let space = max_token - length (c ∷ buffer) in
                tokens_from u fuel d' ((c ∷ buffer) ++ take space (bytes_of piece))
                  (put_back (drop space (bytes_of piece)) pieces') false
          ]
    ]

unfoldable pub concat : List Piece → Bytes
concat [] = []
concat (piece ∷ pieces) = bytes_of piece ++ concat pieces

-- The text of some tokens.
unfoldable pub text_of : List Token → Bytes
text_of [] = []
text_of (t ∷ ts) = t.text ++ text_of ts

-- What is left to do.
unfoldable pub to_read : List Piece → ℕ
to_read [] = 0
to_read (piece ∷ pieces) = 3 * length (bytes_of piece) + 1 + to_read pieces

unfoldable pub work : Bytes → List Piece → Bool → ℕ
work buffer pieces at_eof = length buffer + to_read pieces + (if at_eof then 0 else 1)

-- Text that begins with a full buffer without a newline, for which the split function asks for more.
abbrev pub IsStuck : Unicode → Bytes → Type 0
IsStuck u rest =
    (d : Decoder) × (held : Bytes) × (left : Bytes) × (rest ≡ held ++ left)
    × (max_token ≤ length held)
    × Lacks is_newline held
    × ((scan u d held false).0 ≡ more_data)

-- The text behind the tokens: none, or such that it cannot go on.
abbrev pub IsEnd : Unicode → Ending → Bytes → Type 0
IsEnd u ending rest = ((ending ≡ finished) × (rest ≡ [])) ⊎ ((ending ≡ too_long) × IsStuck u rest)

-- The tokens come, and their texts one behind the other are the text up to its end.
abbrev Comes : Unicode → Option (List Token × Ending) → Bytes → Type 0
Comes u result text =
    (ts : List Token) × (ending : Ending) × (rest : Bytes) × (result ≡ some (ts, ending))
    × (text ≡ text_of ts ++ rest)
    × IsEnd u ending rest
