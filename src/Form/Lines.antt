-- ===== src/Form/Lines.antt =====
-- The loops over the lines of a text in form/form.go, beside a text's split at its line ends.
use xmpp.Prelude.{
  ℕ, zero, suc, if◌then◌else◌, Bool, true, false, List, [], ◌∷◌, ◌++◌, ◌≡◌, ◌≤◌, refl, sym, ap,
  subst, ◌∙◌, inl, inr, Bytes, is_empty, append-nil, append_assoc, length, length-append,
  take_prefix, drop_past, index_by_hit, index_by-Lacks, Lacks, cut_by, if-cases, Bool-cases, arith,
}
use xmpp.Form.Write.{written, panicked, and_then, is_line_end, instruction_lines, text_lines}

-- A text between its line ends: one piece more than there are line ends.
unfoldable pub pieces_from : Bytes → Bytes → List Bytes
pieces_from line [] = line ∷ []
pieces_from line (c ∷ s) =
    if is_line_end c then line ∷ pieces_from [] s else pieces_from (line ++ c ∷ []) s

abbrev pub pieces : Bytes → List Bytes
pieces s = pieces_from [] s

unfoldable pub non_empty : List Bytes → List Bytes
non_empty [] = []
non_empty (l ∷ ls) = if is_empty l then non_empty ls else l ∷ non_empty ls

-- Whether a text is empty, or its last byte is a line end.
unfoldable pub ends_open : Bytes → Bool
ends_open [] = true
ends_open (c ∷ []) = is_line_end c
ends_open (c ∷ d ∷ s) = ends_open (d ∷ s)

pieces_from-Lacks : (line s : Bytes) → Lacks is_line_end s → pieces_from line s ≡ (line ++ s) ∷ []
unfolding pieces_from
pieces_from-Lacks line [] h = (ap (λ (l : Bytes). l ∷ []) (sym (append-nil line)))
pieces_from-Lacks line (c ∷ s) (h, t) = rw h (
    pieces_from-Lacks (line ++ c ∷ []) s t
    ∙ ap (λ (l : Bytes). l ∷ []) (append_assoc line (c ∷ []) s))

pieces_from_cut :
    (line a : Bytes) (c : ℕ) (r : Bytes)
    → Lacks is_line_end a
    → is_line_end c ≡ true
    → pieces_from line (a ++ c ∷ r) ≡ (line ++ a) ∷ pieces r
unfolding pieces_from
pieces_from_cut line [] c r l h = rw h (ap (λ (l : Bytes). l ∷ pieces r) (sym (append-nil line)))
pieces_from_cut line (d ∷ a) c r (h', l) h = rw h' (
    pieces_from_cut (line ++ d ∷ []) a c r l h
    ∙ ap (λ (b : Bytes). b ∷ pieces r) (append_assoc line (d ∷ []) a))

ends_open-Lacks : (c : ℕ) (s : Bytes) → Lacks is_line_end (c ∷ s) → ends_open (c ∷ s) ≡ false
unfolding ends_open
ends_open-Lacks c [] (h, t) = h
ends_open-Lacks c (d ∷ s) (h, t) = ends_open-Lacks d s t

ends_open_cut :
    (a : Bytes) (c : ℕ) (r : Bytes) → is_line_end c ≡ true → ends_open (a ++ c ∷ r) ≡ ends_open r
unfolding ends_open
ends_open_cut [] c [] h = h
ends_open_cut [] c (d ∷ r) h = refl
ends_open_cut (b ∷ []) c r h = ends_open_cut [] c r h
ends_open_cut (b ∷ d ∷ a) c r h = ends_open_cut (d ∷ a) c r h

-- A property of a text and the fuel for it, from the rest behind the first line end to the whole.
by_lines :
    (P : ℕ → Bytes → Type 0)
    → ((fuel : ℕ) (s : Bytes) → Lacks is_line_end s → P (suc fuel) s)
    → ((fuel : ℕ) (a : Bytes) (c : ℕ) (r : Bytes)
        → Lacks is_line_end a
        → is_line_end c ≡ true
        → P fuel r
        → P (suc fuel) (a ++ c ∷ r))
    → (fuel : ℕ) (s : Bytes) → suc (length s) ≤ fuel
    → P fuel s
by_lines P last step zero s h = absurd (omega arith)
by_lines P last step (suc fuel) s h = elim (cut_by is_line_end s) [
  | inl l ↦ last fuel s l
  | inr (a, c, r, q, l, e) ↦ subst (P (suc fuel)) (sym q) (
      step fuel a c r l e
        (by_lines P last step fuel r (omega (arith, ap length q, length-append a (c ∷ r)))))
]

abbrev IsInstructions : ℕ → Bytes → Type 0
IsInstructions fuel s = instruction_lines fuel s ≡ written (non_empty (pieces s))

last-IsInstructions : (fuel : ℕ) (s : Bytes) → Lacks is_line_end s → IsInstructions (suc fuel) s
unfolding instruction_lines non_empty
last-IsInstructions fuel s l =
    rw (index_by-Lacks is_line_end s l, pieces_from-Lacks [] s l, instruction_lines)
      (if-cases (λ o. written o ≡ written (non_empty (s ∷ []))) (is_empty s) (λ e. rw e refl)
        (λ e. rw e refl))

step-IsInstructions :
    (fuel : ℕ) (a : Bytes) (c : ℕ) (r : Bytes)
    → Lacks is_line_end a
    → is_line_end c ≡ true
    → IsInstructions fuel r
    → IsInstructions (suc fuel) (a ++ c ∷ r)
unfolding instruction_lines non_empty and_then
step-IsInstructions fuel a c r l e h =
    rw
      (
        index_by_hit is_line_end a c r l e,
        pieces_from_cut [] a c r l e,
        take_prefix a (c ∷ r),
        drop_past a c r,
        h,
        instruction_lines,
      )
      (if-cases (λ o. o ≡ written (non_empty (a ∷ pieces r))) (is_empty a) (λ f. rw f refl)
        (λ f. rw f refl))

abbrev IsText : ℕ → Bytes → Type 0
IsText fuel s = text_lines fuel s ≡ (if ends_open s then panicked else written (pieces s))

last-IsText : (fuel : ℕ) (s : Bytes) → Lacks is_line_end s → IsText (suc fuel) s
unfolding text_lines ends_open pieces_from
last-IsText fuel [] l = rw (index_by-Lacks is_line_end [] l, text_lines) refl
last-IsText fuel (c ∷ s) l =
    rw
      (
        index_by-Lacks is_line_end (c ∷ s) l,
        ends_open-Lacks c s l,
        pieces_from-Lacks [] (c ∷ s) l,
        text_lines,
      )
      refl

step-IsText :
    (fuel : ℕ) (a : Bytes) (c : ℕ) (r : Bytes)
    → Lacks is_line_end a
    → is_line_end c ≡ true
    → IsText fuel r
    → IsText (suc fuel) (a ++ c ∷ r)
unfolding text_lines and_then
step-IsText fuel a c r l e h =
    rw
      (
        index_by_hit is_line_end a c r l e,
        pieces_from_cut [] a c r l e,
        ends_open_cut a c r e,
        take_prefix a (c ∷ r),
        drop_past a c r,
        h,
        text_lines,
      )
      (elim (Bool-cases (ends_open r)) [ inl f ↦ rw f refl | inr f ↦ rw f refl ])

-- The lines of the instructions are the pieces between line ends that are not empty. The text of a
-- text-multi field is submitted as all its pieces, and the loop panics if it is empty or its last
-- byte is a line end.
pub lines_split :
    (s : Bytes)
    → (instruction_lines (suc (length s)) s ≡ written (non_empty (pieces s)))
      × (text_lines (suc (length s)) s ≡ (if ends_open s then panicked else written (pieces s)))
lines_split s = (
  by_lines IsInstructions last-IsInstructions step-IsInstructions (suc (length s)) s (omega arith),
  by_lines IsText last-IsText step-IsText (suc (length s)) s (omega arith),
)
