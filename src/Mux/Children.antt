-- ===== src/Mux/Children.antt =====
-- mux/mux.go: forChildren, which hands a message or a presence to a handler for each of
-- its children. `rounds` is what xmlstream.Iter does: how many tokens it reads up to a child, and
-- the child's name, or none; `last` is what it reads before it ends, and `failed` its error. A
-- handler is how many tokens it reads, and its error.
use xmpp.Prelude.{
  ℕ, ◌==◌, if◌then◌else◌, Option, none, some, List, [], ◌∷◌, ◌++◌, ◌≡◌, refl, subst, ◌∙◌, length,
  take, All, All-append, arith, if-cases, Bool, Bytes, Result, ok, err,
}
use xmpp.Jid.{Error, Prep}
use xmpp.Xml.{Name, StartElement, Token, start_element}
use xmpp.Stanza.{Stanza, new_message, new_presence}
use xmpp.Mux.{Chosen, ServeMux, message_handler, presence_handler}
use xmpp.Mux.Replay.{BufReader, reads, whole, IsWithin, reads-IsReads}

-- A handler for a child, with the tokens that it reads from a reader of its own.
pub record Visit (H : Type 0) : Type 0 where
  pub chosen : Chosen H
  pub seen : List Token

-- What becomes of a stanza: the iterator's error, those of the handlers, or what the one handler
-- for a stanza without content returns.
pub data Routed (E : Type 0) : Type 0 where
  iterator_error : E → Routed E
  multi_err : List E → Routed E
  routed : Option E → Routed E

module _ {H E : Type 0} (lookup : Name → Chosen H) (handle : Chosen H → ℕ × Option E) where
  -- A handler with a reader that begins at the start element and shares the buffer.
  unfoldable pub visit : Name → BufReader → Visit H × BufReader
  visit name b =
      let (seen, br) = reads (handle (lookup name)).0 (record b { offset = 0 }) in
      (record { chosen = lookup name; seen = seen }, record br { offset = b.offset })

  -- The loop over the children: the visits, the errors and the reader.
  unfoldable pub children_loop :
      List (ℕ × Option Name) → BufReader → List (Visit H) × List E × BufReader
  children_loop [] b = ([], [], b)
  children_loop ((n, none) ∷ rounds) b = children_loop rounds (reads n b).1
  children_loop ((n, some name) ∷ rounds) b =
      let (v, b') = visit name (reads n b).1 in
      let (vs, es, b'') = children_loop rounds b' in
      (v ∷ vs, elim (handle (lookup name)).1 [ none ↦ es | some e ↦ e ∷ es ], b'')

  -- What follows the loop.
  unfoldable pub end_children : Option E → List E → BufReader → List (Visit H) × Routed E
  end_children (some e) es b = ([], iterator_error e)
  end_children none (e ∷ es) b = ([], multi_err (e ∷ es))
  end_children none [] b =
      if length b.buf == 2
      then (
        (visit (record { space = []; local = [] }) (record b { offset = 0 })).0 ∷ [],
        routed (handle (lookup (record { space = []; local = [] }))).1,
      )
      else ([], routed none)

  -- `forChildren`: the buffer begins with the start element, which the iterator has behind it.
  unfoldable pub for_children :
      List (ℕ × Option Name) → ℕ → Option E → Token → List Token → List (Visit H) × Routed E
  for_children rounds last failed start stream =
      let (vs, es, b) =
        children_loop rounds (record { r = stream; buf = start ∷ []; offset = 1 }) in
      let (ws, r) = end_children failed es (reads last b).1 in (vs ++ ws, r)

  -- A visit that saw the stanza from its start element on, as far as its handler read.
  abbrev pub SawWhole : List Token → Visit H → Type 0
  SawWhole ts v = v.seen ≡ take (handle v.chosen).0 ts

  visit-SawWhole :
      (name : Name) (b : BufReader)
      → IsWithin b
      → SawWhole (whole b) (visit name b).0
        × (whole (visit name b).1 ≡ whole b)
        × IsWithin (visit name b).1
  unfolding visit
  visit-SawWhole name b h =
      let (seen, kept, within, grown) =
        reads-IsReads (handle (lookup name)).0 (record b { offset = 0 }) (omega arith) in
      (seen, kept, omega (arith, h, grown))

  children_loop-SawWhole :
      (rounds : List (ℕ × Option Name)) (b : BufReader)
      → IsWithin b
      → All (SawWhole (whole b)) (children_loop rounds b).0
        × (whole (children_loop rounds b).2 ≡ whole b)
        × IsWithin (children_loop rounds b).2
  unfolding children_loop
  children_loop-SawWhole [] b h = (tt, refl, h)
  children_loop-SawWhole ((n, none) ∷ rounds) b h =
      let (_, kept, within, _) = reads-IsReads n b h in
      let (saw, kept', within') = children_loop-SawWhole rounds (reads n b).1 within in
      (
        subst (λ ts. All (SawWhole ts) (children_loop rounds (reads n b).1).0) kept saw,
        kept' ∙ kept,
        within',
      )
  children_loop-SawWhole ((n, some name) ∷ rounds) b h =
      let (_, kept, within, _) = reads-IsReads n b h in
      let (here, kept', within') = visit-SawWhole name (reads n b).1 within in
      let b' = (visit name (reads n b).1).1 in
      let (saw, kept'', within'') = children_loop-SawWhole rounds b' within' in
      (
        (
          subst (λ ts. SawWhole ts (visit name (reads n b).1).0) kept here,
          subst (λ ts. All (SawWhole ts) (children_loop rounds b').0) (kept' ∙ kept) saw,
        ),
        kept'' ∙ kept' ∙ kept,
        within'',
      )

  end_children-SawWhole :
      (failed : Option E) (es : List E) (b : BufReader)
      → All (SawWhole (whole b)) (end_children failed es b).0
  unfolding end_children
  end_children-SawWhole (some e) es b = tt
  end_children-SawWhole none (e ∷ es) b = tt
  end_children-SawWhole none [] b =
      if-cases (λ (r : List (Visit H) × Routed E). All (SawWhole (whole b)) r.0) (length b.buf == 2)
        (λ _. (
          (visit-SawWhole (record { space = []; local = [] }) (record b { offset = 0 })
              (omega arith)).0,
          tt,
        ))
        (λ _. tt)

  -- Each handler that a message or a presence is handed to reads the stanza's own tokens from the
  -- start element on, as many as it asks for if there are so many, whatever the handlers before it
  -- and the iterator have read.
  pub for_children-SawWhole :
      (rounds : List (ℕ × Option Name)) (last : ℕ) (failed : Option E) (start : Token)
      (stream : List Token)
      → All (SawWhole (start ∷ stream)) (for_children rounds last failed start stream).0
  unfolding for_children
  for_children-SawWhole rounds last failed start stream =
      let b : BufReader = record { r = stream; buf = start ∷ []; offset = 1 } in
      let (saw, kept, within) = children_loop-SawWhole rounds b (omega arith) in
      let (_, kept', within', _) = reads-IsReads last (children_loop rounds b).2 within in
      All-append (SawWhole (start ∷ stream)) (children_loop rounds b).0 _ saw (
        subst
          (λ ts.
            All (SawWhole ts)
              (end_children failed (children_loop rounds b).1
                (reads last (children_loop rounds b).2).1).0)
          (kept' ∙ kept)
          (end_children-SawWhole failed (children_loop rounds b).1
            (reads last (children_loop rounds b).2).1))

module _ {H E : Type 0} (p : Prep) (m : ServeMux H) (handle : Chosen H → ℕ × Option E) where
  abbrev routed_children :
      (Bytes → Name → Chosen H × Bool)
      → Stanza × Option Error
      → List (ℕ × Option Name)
      → ℕ
      → Option E
      → StartElement
      → List Token
      → Result Error (List (Visit H) × Routed E)
  routed_children lookup (v, some x) rounds last failed start stream = err x
  routed_children lookup (v, none) rounds last failed start stream = ok (
      for_children (λ name. (lookup v.type name).0) handle rounds last failed (start_element start)
        stream)

  -- `msgRouter` and `presenceRouter`.
  unfoldable pub route_message :
      List (ℕ × Option Name)
      → ℕ
      → Option E
      → StartElement
      → List Token
      → Result Error (List (Visit H) × Routed E)
  route_message rounds last failed start stream =
      routed_children (message_handler m) (new_message p start) rounds last failed start stream

  unfoldable pub route_presence :
      List (ℕ × Option Name)
      → ℕ
      → Option E
      → StartElement
      → List Token
      → Result Error (List (Visit H) × Routed E)
  route_presence rounds last failed start stream =
      routed_children (presence_handler m) (new_presence p start) rounds last failed start stream
