-- ===== src/Styling/Style.antt =====
-- styling/styling.go, Style: a set of bits in a uint32.
use Prim.Native.Nat.{bit_and, bit_or, bit_xor}
use xmpp.Prelude.{ℕ, ◌==◌, Bool}

abbrev pub block_pre : ℕ
block_pre = 0x1

abbrev pub block_quote : ℕ
block_quote = 0x2

abbrev pub span_emph : ℕ
span_emph = 0x4

abbrev pub span_strong : ℕ
span_strong = 0x8

abbrev pub span_strike : ℕ
span_strike = 0x10

abbrev pub span_pre : ℕ
span_pre = 0x20

abbrev pub block_pre_start : ℕ
block_pre_start = 0x40

abbrev pub block_pre_end : ℕ
block_pre_end = 0x80

abbrev pub block_quote_start : ℕ
block_quote_start = 0x100

abbrev pub block_quote_end : ℕ
block_quote_end = 0x200

abbrev pub span_emph_start : ℕ
span_emph_start = 0x400

abbrev pub span_emph_end : ℕ
span_emph_end = 0x800

abbrev pub span_strong_start : ℕ
span_strong_start = 0x1000

abbrev pub span_strong_end : ℕ
span_strong_end = 0x2000

abbrev pub span_strike_start : ℕ
span_strike_start = 0x4000

abbrev pub span_strike_end : ℕ
span_strike_end = 0x8000

abbrev pub span_pre_start : ℕ
span_pre_start = 0x1_0000

abbrev pub span_pre_end : ℕ
span_pre_end = 0x2_0000

-- `mask |= bits`.
unfoldable pub with_bits : ℕ → ℕ → ℕ
with_bits mask bits = bit_or mask bits

-- `mask &^= bits`.
unfoldable pub without_bits : ℕ → ℕ → ℕ
without_bits mask bits = bit_and mask (bit_xor 0xffff_ffff bits)

-- `mask&bits == bits`.
unfoldable pub has_bits : ℕ → ℕ → Bool
has_bits mask bits = bit_and mask bits == bits
