-- ===== src/Mux/Replay.antt =====
-- mux/mux.go: bufReader, which keeps the tokens that are read for the next reader.
use xmpp.Prelude.{
  ℕ, zero, suc, ◌≤◌, if◌then◌else◌, ltb, Option, none, some, List, [], ◌∷◌, ◌++◌, ◌≡◌, ◌⊎◌,
  if-cases, refl, sym, ap, subst, ◌∙◌, length, length-append, get_elem?, take, drop, drop_prefix,
  drop_past, append_assoc, arith, inl, inr,
}
use xmpp.Xml.{Token}

pub record BufReader : Type 0 where
  pub r : List Token
  pub buf : List Token
  pub offset : ℕ

-- The next token of the stream, which is kept.
unfoldable pub read_on : List Token → BufReader → Option Token × BufReader
read_on [] b = (none, b)
read_on (t ∷ ts) b = (some t, record { r = ts; buf = b.buf ++ t ∷ []; offset = suc b.offset })

-- `Token`: a token that was read before, or the next of the stream.
unfoldable pub token : BufReader → Option Token × BufReader
token b =
    if ltb b.offset (length b.buf)
    then (get_elem? b.buf b.offset, record b { offset = suc b.offset })
    else read_on b.r b

unfoldable pub read_more :
    (BufReader → List Token × BufReader) → Option Token × BufReader → List Token × BufReader
read_more next (none, b) = ([], b)
read_more next (some t, b) = (t ∷ (next b).0, (next b).1)

-- Some tokens, one after the other.
unfoldable pub reads : ℕ → BufReader → List Token × BufReader
reads zero b = ([], b)
reads (suc n) b = read_more (λ b'. reads n b') (token b)

-- The tokens of the stanza: those that were read, and those that follow.
abbrev pub whole : BufReader → List Token
whole b = b.buf ++ b.r

-- A reader does not stand behind what was read.
abbrev pub IsWithin : BufReader → Type 0
IsWithin b = b.offset ≤ length b.buf

get_elem-drop :
    (xs ys : List Token) (i : ℕ)
    → suc i ≤ length xs
    → (t : Token) × (get_elem? xs i ≡ some t) × (drop i (xs ++ ys) ≡ t ∷ drop (suc i) (xs ++ ys))
get_elem-drop [] ys i h = absurd (omega arith)
get_elem-drop (x ∷ xs) ys zero h = (x, refl, refl)
get_elem-drop (x ∷ xs) ys (suc i) h = get_elem-drop xs ys i (omega arith)

drop_end : (xs ys : List Token) (i : ℕ) → i ≡ length xs → drop i (xs ++ ys) ≡ ys
drop_end [] ys i h = rw h refl
drop_end (x ∷ xs) ys zero h = absurd (omega arith)
drop_end (x ∷ xs) ys (suc i) h = drop_end xs ys i (omega arith)

-- What a call of Token returns at the end, and before it.
abbrev AtEnd : BufReader → Option Token × BufReader → Type 0
AtEnd b r = (drop b.offset (whole b) ≡ []) × (r ≡ (none, b))

abbrev IsRead : BufReader → Option Token × BufReader → Type 0
IsRead b r =
    (t : Token) × (r.0 ≡ some t)
    × (drop b.offset (whole b) ≡ t ∷ drop (suc b.offset) (whole b))
    × (whole r.1 ≡ whole b)
    × (r.1.offset ≡ suc b.offset)
    × IsWithin r.1
    × (length b.buf ≤ length r.1.buf)

abbrev IsToken : BufReader → Option Token × BufReader → Type 0
IsToken b r = AtEnd b r ⊎ IsRead b r

read_on-IsToken :
    (r buf : List Token) (offset : ℕ)
    → offset ≡ length buf
    → IsToken
        (record { r = r; buf = buf; offset = offset })
        (read_on r (record { r = r; buf = buf; offset = offset }))
unfolding read_on
read_on-IsToken [] buf offset h = inl (drop_end buf [] offset h, refl)
read_on-IsToken (t ∷ ts) buf offset h = inr (
  t,
  refl,
  rw (h, drop_prefix buf (t ∷ ts), drop_past buf t ts) refl,
  append_assoc buf (t ∷ []) ts,
  refl,
  omega (arith, length-append buf (t ∷ [])),
  omega (arith, length-append buf (t ∷ [])),
)

token-IsToken :
    (r buf : List Token) (offset : ℕ)
    → offset ≤ length buf
    → IsToken
        (record { r = r; buf = buf; offset = offset })
        (token (record { r = r; buf = buf; offset = offset }))
unfolding token
token-IsToken r buf offset h =
    if-cases (IsToken (record { r = r; buf = buf; offset = offset })) (ltb offset (length buf))
      (λ e.
        let (t, found, at) = get_elem-drop buf r offset (ground arith) in
        inr (t, found, at, refl, refl, ground arith, omega arith))
      (λ e. read_on-IsToken r buf offset (ground arith))

abbrev pub IsReads : ℕ → BufReader → List Token × BufReader → Type 0
IsReads n b r =
    (r.0 ≡ take n (drop b.offset (whole b)))
    × (whole r.1 ≡ whole b)
    × IsWithin r.1
    × (length b.buf ≤ length r.1.buf)

read_more-IsReads :
    (n : ℕ) (b : BufReader) (r : Option Token × BufReader)
    → IsWithin b
    → IsToken b r
    → (IsWithin r.1 → IsReads n r.1 (reads n r.1))
    → IsReads (suc n) b (read_more (λ b'. reads n b') r)
unfolding read_more
read_more-IsReads n b r h (inl (e, q)) rest =
    subst (λ r'. IsReads (suc n) b (read_more (λ b'. reads n b') r')) (sym q)
      (rw e refl, refl, h, omega arith)
read_more-IsReads n b (got, b') h (inr (t, f, at, w, o, k, g)) rest =
    let (seen, kept, within, grown) = rest k in
    subst (λ got'. IsReads (suc n) b (read_more (λ c. reads n c) (got', b'))) (sym f)
      (
        ap (λ ts. t ∷ ts) (seen ∙ rw (o, w) refl) ∙ sym (ap (λ ts. take (suc n) ts) at),
        kept ∙ w,
        within,
        omega (arith, g, grown),
      )

-- The reads of a reader return the stanza's tokens from its offset on.
pub reads-IsReads : (n : ℕ) (b : BufReader) → IsWithin b → IsReads n b (reads n b)
unfolding reads
reads-IsReads zero b h = (refl, refl, h, omega arith)
reads-IsReads (suc n) b h =
    read_more-IsReads n b (token b) h (token-IsToken b.r b.buf b.offset h)
      (λ k. reads-IsReads n (token b).1 k)
