-- ===== src/Jid/Escape/Resume.antt =====
-- `Escape` for a caller that calls again after ErrShortDst, and for one with too little room.

use mathlib.Core.Option
use xmpp.Prelude.{
  ℕ, zero, suc, ◌*◌, ◌≤◌, ◌<◌, true, Option, none, some, [], ◌∷◌, ◌++◌, ◌≡◌, ◌≢◌, inl, inr, ap,
  Bytes, index_by_hit, length, take, drop, take_all, length-append, length-take, length-drop,
  take-append-drop, arith,
}
use xmpp.Jid.Escape.{
  short_dst, returned, is_escaped, escape_bytes, escape_round, escape_loop, escape_transform,
}
use xmpp.Jid.Escape.Encode.{escape_text, escape_text-append, length-escape_bytes, transform_escapes}

-- A caller that keeps what a call has written and, after ErrShortDst, calls again for the rest of
-- the text with a buffer of the same size. The first number is fuel, for the calls.
unfoldable pub resume : ℕ → ℕ → Bytes → Option Bytes
resume zero room src = none
resume (suc calls) room src = elim (escape_transform room src) [
  | returned out n none ↦ some out
  | returned out n (some short_dst) ↦ Option.map (λ t. out ++ t) (resume calls room (drop n src))
  | _ ↦ none
]

-- A caller with a buffer of three bytes for each byte of the text, who calls again behind the bytes
-- that were read as long as ErrShortDst is returned, gets the escaping of the whole text, after at
-- most one call for each byte and one.
pub resume_escapes :
    (calls room : ℕ) (src : Bytes)
    → length src < calls
    → 3 * length src ≤ room
    → resume calls room src ≡ some (escape_text src)
unfolding resume
resume_escapes zero room src fuel fits = elim fuel [ ]
resume_escapes (suc calls) room src fuel fits =
    let (n, e, result, short, end) = transform_escapes room src fits in
    elim end [
      | inl (e_none, all) ↦
          rw (result, resume) (rw (e_none, all, take_all (length src) src (omega arith)))
      | inr (stopped, moved) ↦
          rw (result, resume)
            (rw (
              stopped,
              resume_escapes calls room (drop n src) (omega (arith, length-drop n src))
                  (omega (arith, length-drop n src)),
              ← escape_text-append (take n src) (drop n src),
              take-append-drop n src,
            ))
    ]

cut_sequence :
    (room c : ℕ) (src : Bytes)
    → is_escaped c ≡ true
    → room < 3
    → take room (escape_bytes c) ++ escape_text src ≢ escape_text (c ∷ src)
cut_sequence room c src hit less e = omega (
  arith,
  ap length (rw hit at e),
  length-append (take room (escape_bytes c)) (escape_text src),
  length-append (escape_bytes c) (escape_text src),
  length-take room (escape_bytes c),
  length-escape_bytes c,
)

-- With fewer than three bytes of room, an escapable byte at the front counts as read although its
-- sequence is cut: no caller can then get the escaping of the text by appending what follows.
pub escape_loses :
    (room c : ℕ) (src : Bytes)
    → is_escaped c ≡ true
    → room < 3
    → (escape_transform room (c ∷ src) ≡ returned (take room (escape_bytes c)) 1 (some short_dst))
      × (take room (escape_bytes c) ++ escape_text src ≢ escape_text (c ∷ src))
unfolding escape_transform escape_loop escape_round escape_bytes
escape_loses zero c src hit less =
    (rw (index_by_hit is_escaped [] c src tt hit, escape_round), cut_sequence zero c src hit less)
escape_loses (suc zero) c src hit less =
    (rw (index_by_hit is_escaped [] c src tt hit, escape_round), cut_sequence 1 c src hit less)
escape_loses (suc (suc zero)) c src hit less =
    (rw (index_by_hit is_escaped [] c src tt hit, escape_round), cut_sequence 2 c src hit less)
escape_loses (suc (suc (suc room))) c src hit less = absurd (omega arith)
