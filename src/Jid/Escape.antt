-- ===== src/Jid/Escape.antt =====
-- jid/escape.go: the XEP-0106 escaping of a localpart, one call of `Transform` or `Span` at a time.
-- `room` is `len(dst)`; what a call writes is the list that it returns, and `nDst` its length.
-- A loop runs on fuel, one more than the bytes to read: each round reads at least one.
pub mod Encode
pub mod Resume
pub mod Decode
pub mod RoundTrip
pub mod Tests
use Prim.Native.Nat.{bit_or}
use xmpp.Prelude.{
  ℕ, zero, suc, ◌+◌, ◌-◌, ◌*◌, ◌/◌, ◌%◌, ◌==◌, ltb, leb, if◌then◌else◌, Bool, true, false, not,
  ◌&&◌, ◌||◌, Option, none, some, [], ◌∷◌, ◌++◌, Bytes, codes, index_by, length, take, drop,
  get_elem?,
}

pub data TransformError : Type 0 where
  short_dst short_src end_of_span : TransformError

-- What a call of `Transform` comes to: the bytes written, the number of bytes read and the error;
-- or an index out of range; or fuel that does not suffice.
pub data Outcome : Type 0 where
  returned : Bytes → ℕ → Option TransformError → Outcome
  panicked : Outcome
  out_of_fuel : Outcome

-- A byte of ` "&'/:<>@\`.
unfoldable pub is_escaped : ℕ → Bool
is_escaped c =
    c == b' '
    || (c == 0x22
        || (c == b'&'
            || (c == 0x27
                || (c == b'/'
                    || (c == b':' || (c == b'<' || (c == b'>' || (c == b'@' || c == b'\\'))))))))

abbrev pub is_backslash : ℕ → Bool
is_backslash c = c == b'\\'

-- `s[i]`, where the index is in range.
abbrev pub byte_at : Bytes → ℕ → ℕ
byte_at s i = elim (get_elem? s i) [ some c ↦ c | none ↦ 0 ]

-- The three bytes that stand for an escaped byte.
unfoldable pub escape_bytes : ℕ → Bytes
escape_bytes c =
    b'\\'
    ∷ byte_at (codes "0123456789abcdef") (c / 16)
    ∷ byte_at (codes "0123456789abcdef") (c % 16)
    ∷ []

-- `escapeMapping.Span`.
unfoldable pub escape_span : Bytes → ℕ × Option TransformError
escape_span src = elim (index_by is_escaped src) [
  | none ↦ (length src, none)
  | some idx ↦ (idx, some end_of_span)
]

-- A round of the loop of `escapeMapping.Transform`; `again` makes the rounds that follow. `rest` is
-- `src[nSrc:]`, `room` what is left of `dst`.
unfoldable pub escape_round : (ℕ → Bytes → ℕ → Bytes → Outcome) → ℕ → Bytes → ℕ → Bytes → Outcome
escape_round again room rest n_src out = elim (index_by is_escaped rest) [
  | none ↦
      let copied = take room rest in
      let n = length copied in
      if ltb n (length rest)
      then returned (out ++ copied) (n_src + n) (some short_dst)
      else returned (out ++ copied) (n_src + n) none
  | some idx ↦
      let copied = take room (take idx rest) in
      let n = length copied in
      let sequence = take (room - n) (escape_bytes (byte_at rest n)) in
      if not (n + (n_src + n) == idx)
      then returned (out ++ copied) (n_src + n) (some short_dst)
      else if not (length sequence == 3)
      then returned (out ++ (copied ++ sequence)) (n_src + n + 1) (some short_dst)
      else again (room - n - 3) (drop (n + 1) rest) (n_src + n + 1) (out ++ (copied ++ sequence))
]

-- The loop: `for nSrc < len(src)`.
unfoldable pub escape_loop : ℕ → ℕ → Bytes → ℕ → Bytes → Outcome
escape_loop zero room rest n_src out = out_of_fuel
escape_loop (suc fuel) room [] n_src out = returned out n_src none
escape_loop (suc fuel) room (b ∷ s) n_src out =
    escape_round (escape_loop fuel) room (b ∷ s) n_src out

unfoldable pub escape_transform : ℕ → Bytes → Outcome
escape_transform room src = escape_loop (suc (length src)) room src 0 []

unfoldable pub is_hex : ℕ → Bool
is_hex c = (leb b'0' c && leb c b'9') || ((leb b'a' c && leb c b'f') || (leb b'A' c && leb c b'F'))

unfoldable pub unhex : ℕ → ℕ
unhex c =
    if leb b'0' c && leb c b'9'
    then c - b'0'
    else if leb b'a' c && leb c b'f'
    then c - b'a' + 10
    else if leb b'A' c && leb c b'F'
    then c - b'A' + 10
    else 0

-- The two bytes behind a backslash that are one of the ten sequences.
unfoldable pub should_unescape : ℕ → ℕ → Bool
should_unescape a b =
    (a == b'2'
      && (b == b'0' || (b == b'2' || (b == b'6' || (b == b'7' || (b == b'f' || b == b'F'))))))
    || ((a == b'3'
          && (b == b'a' || (b == b'A' || (b == b'c' || (b == b'C' || (b == b'e' || b == b'E'))))))
        || ((a == b'4' && b == b'0') || (a == b'5' && (b == b'c' || b == b'C'))))

-- `unhex(a)<<4 | unhex(b)`, in bytes.
unfoldable pub decode_byte : ℕ → ℕ → ℕ
unfolding unhex
decode_byte a b = bit_or ((unhex a * 16) % 256) (unhex b)

-- Copy all of `rest` and return.
copy_rest : ℕ → Bytes → ℕ → Bytes → Outcome
copy_rest room rest n_src out =
    let copied = take room rest in
    let n = length copied in
    if ltb n (length rest)
    then returned (out ++ copied) (n_src + n) (some short_dst)
    else returned (out ++ copied) (n_src + n) none

-- Copy the bytes in front of the backslash and ask for more input.
copy_short : ℕ → Bytes → ℕ → ℕ → Bytes → Outcome
copy_short room rest idx n_src out =
    let copied = take room (take idx rest) in
    let n = length copied in
    returned (out ++ copied) (n_src + n) (some (if n == idx then short_src else short_dst))

-- A sequence in `rest` behind `idx` plain bytes. After `nSrc += n` the code reads `src[nSrc+n]` and
-- `src[nSrc+n+1]`, with `n` set to 1 if it was 0: the places `n + m` and `n + m + 1` of `rest`.
unfoldable pub unescape_sequence :
    (ℕ → Bytes → ℕ → Bytes → Outcome) → ℕ → Bytes → ℕ → ℕ → Bytes → Outcome
unescape_sequence again room rest idx n_src out =
    let copied = take room (take idx rest) in
    let n = length copied in
    let m = if n == 0 then 1 else n in
    let decoded =
      take (room - n) (decode_byte (byte_at rest (n + m)) (byte_at rest (n + m + 1)) ∷ []) in
    if not (n == idx)
    then returned (out ++ copied) (n_src + n) (some short_dst)
    else if leb (length rest) (n + m + 1)
    then panicked
    else if not (length decoded == 1)
    then returned (out ++ (copied ++ decoded)) (n_src + n + 3) (some short_dst)
    else again (room - n - 1) (drop (n + 3) rest) (n_src + n + 3) (out ++ (copied ++ decoded))

-- A backslash that begins no sequence is copied with the bytes in front of it.
unfoldable pub unescape_plain :
    (ℕ → Bytes → ℕ → Bytes → Outcome) → ℕ → Bytes → ℕ → ℕ → Bytes → Outcome
unescape_plain again room rest idx n_src out =
    let copied = take room (take (idx + 1) rest) in
    let n = length copied in
    if not (n == idx + 1)
    then returned (out ++ copied) (n_src + n) (some short_dst)
    else again (room - n) (drop n rest) (n_src + n) (out ++ copied)

-- A round of the loop of `unescapeMapping.Transform`.
unfoldable pub unescape_round :
    Bool → (ℕ → Bytes → ℕ → Bytes → Outcome) → ℕ → Bytes → ℕ → Bytes → Outcome
unfolding copy_rest copy_short
unescape_round at_eof again room rest n_src out = elim (index_by is_backslash rest) [
  | none ↦ copy_rest room rest n_src out
  | some idx ↦
      if idx == length rest - 1
      then (if at_eof then copy_rest room rest n_src out else copy_short room rest idx n_src out)
      else if idx == length rest - 2
      then (if at_eof || not (is_hex (byte_at rest (idx + 1)))
          then copy_rest room rest n_src out
          else copy_short room rest idx n_src out)
      else if should_unescape (byte_at rest (idx + 1)) (byte_at rest (idx + 2))
      then unescape_sequence again room rest idx n_src out
      else unescape_plain again room rest idx n_src out
]

-- The loop: `for nSrc < len(src)`.
unfoldable pub unescape_loop : ℕ → Bool → ℕ → Bytes → ℕ → Bytes → Outcome
unescape_loop zero at_eof room rest n_src out = out_of_fuel
unescape_loop (suc fuel) at_eof room [] n_src out = returned out n_src none
unescape_loop (suc fuel) at_eof room (b ∷ s) n_src out =
    unescape_round at_eof (unescape_loop fuel at_eof) room (b ∷ s) n_src out

unfoldable pub unescape_transform : Bool → ℕ → Bytes → Outcome
unescape_transform at_eof room src = unescape_loop (suc (length src)) at_eof room src 0 []
