-- ===== src/Jid/Escape/Tests.antt =====
-- Runs of the escaping code, and its theorems at concrete texts.
use xmpp.Prelude.{
  ℕ, Option, ◌⊎◌, ◌<◌, Bytes, ◌≡◌, ◌≢◌, refl, Bool, true, false, none, some, [], ◌∷◌, ◌++◌, codes,
  index_by, index_by-none, take, arith,
}
use xmpp.Jid.Escape.{
  TransformError, short_dst, short_src, end_of_span, returned, panicked, is_escaped, is_backslash,
  escape_bytes, escape_span, escape_round, escape_loop, escape_transform, is_hex, should_unescape,
  decode_byte, unescape_sequence, unescape_plain, unescape_round, unescape_loop, unescape_transform,
}
use xmpp.Jid.Escape.Encode.{escape_text}
use xmpp.Jid.Escape.Resume.{resume, escape_loses}
use xmpp.Jid.Escape.Decode.{unescape_panics}
use xmpp.Jid.Escape.RoundTrip.{plain, one_plain, IsUnescaped, unescape-escape}

-- What a run has to see through.
runs : Bool
unfolding is_escaped escape_bytes escape_span escape_round escape_loop escape_transform is_hex
    should_unescape decode_byte unescape_sequence unescape_plain unescape_round unescape_loop
    unescape_transform index_by resume
runs = true

-- The cases of escape_test.go.
unescape_all :
    unescape_transform true 100 (codes "\\20\\22\\26\\27\\2f\\3a\\3c\\3e\\40\\5c")
    ≡ returned (codes " \"&'/:<>@\\") 30 none
unfolding runs
unescape_all = refl

unescape_short :
    unescape_transform false 100 (codes "aa\\2") ≡ returned (codes "aa") 2 (some short_src)
unfolding runs
unescape_short = refl

unescape_plain_backslash :
    unescape_transform false 100 (codes "a\\a\\20") ≡ returned (codes "a\\a ") 6 none
unfolding runs
unescape_plain_backslash = refl

escape_span_case : escape_span (codes "a ") ≡ (1, some end_of_span)
unfolding runs
escape_span_case = refl

-- A call stops at the first escapable byte that is not the first of the input.
escape_stops : escape_transform 100 (codes "a ") ≡ returned (codes "a") 1 (some short_dst)
unfolding runs
escape_stops = refl

escape_loses_example :
    (escape_transform 1 (b'@' ∷ codes "b")
      ≡ returned (take 1 (escape_bytes b'@')) 1 (some short_dst))
    × (take 1 (escape_bytes b'@') ++ escape_text (codes "b") ≢ escape_text (b'@' ∷ codes "b"))
escape_loses_example = escape_loses 1 b'@' (codes "b") (unfold runs in refl) (omega arith)

unescape_panics_example :
    unescape_transform true 100 (codes "ab" ++ (b'\\' ∷ b'2' ∷ b'0' ∷ [])) ≡ panicked
unescape_panics_example =
    unescape_panics true 100 (codes "ab") b'2' b'0' []
      (index_by-none is_backslash (codes "ab") (unfold runs in refl)) (unfold runs in refl)
      (omega arith) (omega arith)

unescape-escape_example :
    ((t : Bytes) × (n : ℕ) × (e : Option TransformError) × (escape_transform 9 (codes "a b")
        ≡ returned t n e)
      × IsUnescaped true 3 t (take n (codes "a b"))
      × (((e ≡ none) × (n ≡ 3)) ⊎ ((e ≡ some short_dst) × (0 < n))))
    × ((t : Bytes) × (resume 4 9 (codes "a b") ≡ some t) × IsUnescaped true 3 t (codes "a b"))
unescape-escape_example =
    unescape-escape true 3 9 (codes "a b")
      (one_plain {b = b'a'} {c = b' '} (unfold runs in refl) (unfold runs in refl)
        (plain (index_by-none is_escaped (codes "b") (unfold runs in refl))))
      (omega arith) (omega arith)
