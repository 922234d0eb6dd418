-- ===== src/Form/Survive.antt =====
-- The value of a field through Submit, writing and reading (form/form.go, form/fields.go).
use mathlib.Core.Bool.{and-false}
use xmpp.Prelude.{
  ℕ, ◌==◌, append_assoc, if-cases, Bool-cases, arith, ◌++◌, Bool, true, false, not, some, List, [],
  ◌∷◌, ◌≡◌, ◌⊎◌, inl, inr, refl, ap, ◌∙◌, Bytes, is_empty, ok, All, Lacks, map, text_eq,
}
use xmpp.Jid.{Jid, Prep, parse, string}
use xmpp.Form.{
  FieldType, type_boolean, type_fixed, type_hidden, type_jid_multi, type_jid, type_list_multi,
  type_list, type_text_multi, type_text_private, type_text, other_type, FormField, Value, nil,
  other_value, bool_value, string_value, strings_value, jid_value, jids_value, Data, find_field,
  get, is_nil, is_some, as_bool, as_string, as_strings, as_jid, as_jids, accepts, field_default,
  default_bool, default_string, default_jid, parse_jids, join_lines, join_rest,
}
use xmpp.Form.Write.{
  written, and_then, submit_value, submit_field, format_bool, is_text_multi, is_line_end, is_multi,
  is_kept, kept_values,
}
use xmpp.Form.Lines.{pieces, pieces_from, ends_open, lines_split}
use xmpp.Form.Kept.{IsKept}
use xmpp.Form.Values.{IsTyped, Fits, get-Fits}
use xmpp.Form.ReadFields.{IsNamed, kept_field}

-- An address that its text is parsed to.
abbrev pub IsParsed : Prep → Jid → Type 0
IsParsed p j = (is_empty (string j) ≡ false) × (parse p (string j) ≡ ok j)

abbrev pub IsFull : Bytes → Type 0
IsFull s = is_empty s ≡ false

-- A text of lines that are not empty, with a line feed between two of them and no carriage return.
abbrev pub IsLines : Bytes → Type 0
IsLines s = Lacks (λ c. c == 13) s × All IsFull (pieces s)

-- A value that can be submitted: texts are not empty, that of a text-multi field is lines that are
-- not empty, addresses are parsed from their texts, and lists are not empty.
abbrev pub Survives : Prep → FieldType → Value → Type 0
Survives p t (bool_value b) = Unit
Survives p t (string_value s) = IsFull s × ((is_text_multi t ≡ false) ⊎ IsLines s)
Survives p t (jid_value j) = IsParsed p j
Survives p t (jids_value js) = (is_nil js ≡ false) × All (IsParsed p) js
Survives p t (strings_value vs) = (is_nil vs ≡ false) × All IsFull vs
Survives p t nil = ⊥
Survives p t other_value = ⊥

keep_one :
    (p : Prep) (t : FieldType) (s : Bytes) → IsKept p t s → kept_values p t false (s ∷ []) ≡ s ∷ []
unfolding kept_values
keep_one p t s (full, kept) = rw (full, kept) refl

kept_list :
    (p : Prep) (t : FieldType) (first : Bool) (vs : List Bytes)
    → is_multi t ≡ true
    → All (IsKept p t) vs
    → kept_values p t first vs ≡ vs
unfolding kept_values
kept_list p t first [] m h = refl
kept_list p t first (v ∷ vs) m ((full, kept), hs) =
    rw (full, m, and-false first, kept, kept_list p t true vs m hs) refl

-- What a field is submitted with, and what it is by default when that is read back.
abbrev Kept : Prep → FieldType → Value → List Bytes → Type 0
Kept p t v raw =
    (vs : List Bytes) × (submit_value t v raw ≡ written vs)
    × (field_default p t (kept_values p t false vs) ≡ (v, true))

bool-Kept : (p : Prep) (b : Bool) (raw : List Bytes) → Kept p type_boolean (bool_value b) raw
unfolding submit_value field_default kept_values is_kept default_bool format_bool text_eq
bool-Kept p true raw = (_, refl, refl)
bool-Kept p false raw = (_, refl, refl)

jid-Kept :
    (p : Prep) (j : Jid) (raw : List Bytes) → IsParsed p j → Kept p type_jid (jid_value j) raw
unfolding submit_value field_default is_kept default_jid
jid-Kept p j raw (full, parsed) = (
  string j ∷ [],
  refl,
  rw (keep_one p type_jid (string j) (full, rw (parsed, is_kept) refl), parsed, default_jid) refl,
)

parsed_back :
    (p : Prep) (js : List Jid)
    → All (IsParsed p) js
    → (parse_jids p (map string js) ≡ js) × All (IsKept p type_jid_multi) (map string js)
unfolding parse_jids is_kept
parsed_back p [] h = (refl, tt)
parsed_back p (j ∷ js) ((full, parsed), hs) =
    let (back, kept) = parsed_back p js hs in
    (
      rw (parsed, parse_jids) (ap (λ (l : List Jid). j ∷ l) back),
      ((full, rw (parsed, is_kept) refl), kept),
    )

jids-Kept :
    (p : Prep) (js : List Jid) (raw : List Bytes)
    → is_nil js ≡ false
    → All (IsParsed p) js
    → Kept p type_jid_multi (jids_value js) raw
unfolding submit_value field_default is_multi
jids-Kept p js raw some_there h =
    let (back, kept) = parsed_back p js h in
    (
      map string js,
      refl,
      rw (kept_list p type_jid_multi false (map string js) refl kept, back, some_there) refl,
    )

full-IsKept :
    (p : Prep) (t : FieldType) (vs : List Bytes)
    → ((v : Bytes) → is_kept p t v ≡ true)
    → All IsFull vs
    → All (IsKept p t) vs
full-IsKept p t [] kept h = tt
full-IsKept p t (v ∷ vs) kept (h, hs) = ((h, kept v), full-IsKept p t vs kept hs)

strings-Kept :
    (p : Prep) (vs raw : List Bytes)
    → is_nil vs ≡ false
    → All IsFull vs
    → Kept p type_list_multi (strings_value vs) raw
unfolding submit_value field_default is_multi is_kept
strings-Kept p vs raw some_there h = (
  vs,
  refl,
  rw
      (
        kept_list p type_list_multi false vs refl (full-IsKept p type_list_multi vs (λ v. refl) h),
        some_there,
      )
      refl,
)

pieces_rest :
    (line s : Bytes) → join_rest (pieces_from line s) ≡ 10 ∷ join_lines (pieces_from line s)
unfolding pieces_from join_lines join_rest
pieces_rest line [] = refl
pieces_rest line (c ∷ s) =
    if-cases (λ ps. join_rest ps ≡ 10 ∷ join_lines ps) (is_line_end c) (λ _. refl)
      (λ _. pieces_rest (line ++ c ∷ []) s)

feed : (c : ℕ) → is_line_end c ≡ true → (c == 13) ≡ false → c ≡ 10
feed c e h = grind (arith, e, h)

pieces_join :
    (line s : Bytes) → Lacks (λ c. c == 13) s → join_lines (pieces_from line s) ≡ line ++ s
unfolding pieces_from join_lines join_rest
pieces_join line [] h = refl
pieces_join line (c ∷ s) (h, hs) = elim (Bool-cases (is_line_end c)) [
  | inl e ↦
      rw e (ap (λ r. line ++ r) (pieces_rest [] s ∙ rw (pieces_join [] s hs, feed c e h) refl))
  | inr e ↦ rw e (pieces_join (line ++ c ∷ []) s hs ∙ append_assoc line (c ∷ []) s)
]

pieces-ends_open :
    (line : Bytes) (c : ℕ) (s : Bytes)
    → All IsFull (pieces_from line (c ∷ s))
    → ends_open (c ∷ s) ≡ false
unfolding pieces_from ends_open
pieces-ends_open line c [] h = elim (Bool-cases (is_line_end c)) [
  | inl e ↦ let (_, (empty, _)) = rw e at h in absurd (cc empty)
  | inr e ↦ e
]
pieces-ends_open line c (d ∷ s) h = elim (Bool-cases (is_line_end c)) [
  | inl e ↦ pieces-ends_open [] d s (rw e at h).1
  | inr e ↦ pieces-ends_open (line ++ c ∷ []) d s (rw e at h)
]

some_piece : (line s : Bytes) → is_nil (pieces_from line s) ≡ false
unfolding pieces_from
some_piece line [] = refl
some_piece line (c ∷ s) =
    if-cases (λ (ps : List Bytes). is_nil ps ≡ false) (is_line_end c) (λ _. refl)
      (λ _. some_piece (line ++ c ∷ []) s)

lines-Kept :
    (p : Prep) (s : Bytes) (raw : List Bytes)
    → IsFull s
    → IsLines s
    → Kept p type_text_multi (string_value s) raw
unfolding submit_value field_default is_multi is_kept
lines-Kept p [] raw full lines = absurd (cc full)
lines-Kept p (c ∷ s) raw full (no_return, lines) = (
  pieces (c ∷ s),
  (lines_split (c ∷ s)).1 ∙ rw (pieces-ends_open [] c s lines) refl,
  rw
      (
        kept_list p type_text_multi false (pieces (c ∷ s)) refl
            (full-IsKept p type_text_multi (pieces (c ∷ s)) (λ v. refl) lines),
        pieces_join [] (c ∷ s) no_return,
        some_piece [] (c ∷ s),
      )
      refl,
)

multi-Kept :
    (p : Prep) (s : Bytes) (raw : List Bytes)
    → Survives p type_text_multi (string_value s)
    → Kept p type_text_multi (string_value s) raw
multi-Kept p s raw (full, inl single) = absurd (cc single)
multi-Kept p s raw (full, inr lines) = lines-Kept p s raw full lines

-- A type whose default is the first value that the field is written with.
module _ (p : Prep) (s : Bytes) (raw : List Bytes) (full : IsFull s) where
  text-Kept : Kept p type_text (string_value s) raw
  unfolding submit_value field_default is_kept default_string
  text-Kept = (s ∷ [], refl, rw (keep_one p type_text s (full, refl)) refl)

  text_private-Kept : Kept p type_text_private (string_value s) raw
  unfolding submit_value field_default is_kept default_string
  text_private-Kept = (s ∷ [], refl, rw (keep_one p type_text_private s (full, refl)) refl)

  hidden-Kept : Kept p type_hidden (string_value s) raw
  unfolding submit_value field_default is_kept default_string
  hidden-Kept = (s ∷ [], refl, rw (keep_one p type_hidden s (full, refl)) refl)

  list-Kept : Kept p type_list (string_value s) raw
  unfolding submit_value field_default is_kept default_string
  list-Kept = (s ∷ [], refl, rw (keep_one p type_list s (full, refl)) refl)

-- A value that has the form that its type asks for.
module _ (P : Value → Type 0) where
  by_bool : ((a : Bool) → P (bool_value a)) → (v : Value) → is_some (as_bool v) ≡ true → P v
  by_bool h (bool_value b) e = h b
  by_bool h (string_value s) e = absurd (cc e)
  by_bool h (strings_value vs) e = absurd (cc e)
  by_bool h (jid_value j) e = absurd (cc e)
  by_bool h (jids_value js) e = absurd (cc e)
  by_bool h nil e = absurd (cc e)
  by_bool h other_value e = absurd (cc e)

  by_string : ((a : Bytes) → P (string_value a)) → (v : Value) → is_some (as_string v) ≡ true → P v
  by_string h (bool_value b) e = absurd (cc e)
  by_string h (string_value s) e = h s
  by_string h (strings_value vs) e = absurd (cc e)
  by_string h (jid_value j) e = absurd (cc e)
  by_string h (jids_value js) e = absurd (cc e)
  by_string h nil e = absurd (cc e)
  by_string h other_value e = absurd (cc e)

  by_jid : ((a : Jid) → P (jid_value a)) → (v : Value) → is_some (as_jid v) ≡ true → P v
  by_jid h (bool_value b) e = absurd (cc e)
  by_jid h (string_value s) e = absurd (cc e)
  by_jid h (strings_value vs) e = absurd (cc e)
  by_jid h (jid_value j) e = h j
  by_jid h (jids_value js) e = absurd (cc e)
  by_jid h nil e = absurd (cc e)
  by_jid h other_value e = absurd (cc e)

  by_strings :
      ((a : List Bytes) → P (strings_value a)) → (v : Value) → is_some (as_strings v) ≡ true → P v
  by_strings h (bool_value b) e = absurd (cc e)
  by_strings h (string_value s) e = absurd (cc e)
  by_strings h (strings_value vs) e = h vs
  by_strings h (jid_value j) e = absurd (cc e)
  by_strings h (jids_value js) e = absurd (cc e)
  by_strings h nil e = absurd (cc e)
  by_strings h other_value e = absurd (cc e)

  by_jids : ((a : List Jid) → P (jids_value a)) → (v : Value) → is_some (as_jids v) ≡ true → P v
  by_jids h (bool_value b) e = absurd (cc e)
  by_jids h (string_value s) e = absurd (cc e)
  by_jids h (strings_value vs) e = absurd (cc e)
  by_jids h (jid_value j) e = absurd (cc e)
  by_jids h (jids_value js) e = h js
  by_jids h nil e = absurd (cc e)
  by_jids h other_value e = absurd (cc e)

-- What is kept if it can be submitted.
module _ (p : Prep) (raw : List Bytes) where
  abbrev Goal : FieldType → Value → Type 0
  Goal t v = Survives p t v → Kept p t v raw

  value-Kept : (t : FieldType) (v : Value) → IsNamed t → Fits t v → Goal t v
  unfolding accepts
  value-Kept (other_type t) v named e = absurd named
  value-Kept type_fixed v named (f, e) = absurd (cc f)
  value-Kept type_boolean v named (f, e) =
      by_bool (Goal type_boolean) (λ b h. bool-Kept p b raw) v e
  value-Kept type_jid v named (f, e) = by_jid (Goal type_jid) (λ j h. jid-Kept p j raw h) v e
  value-Kept type_jid_multi v named (f, e) =
      by_jids (Goal type_jid_multi) (λ js (some_there, h). jids-Kept p js raw some_there h) v e
  value-Kept type_list_multi v named (f, e) =
      by_strings (Goal type_list_multi) (λ vs (some_there, h). strings-Kept p vs raw some_there h) v
        e
  value-Kept type_text v named (f, e) =
      by_string (Goal type_text) (λ s (full, o). text-Kept p s raw full) v e
  value-Kept type_text_private v named (f, e) =
      by_string (Goal type_text_private) (λ s (full, o). text_private-Kept p s raw full) v e
  value-Kept type_hidden v named (f, e) =
      by_string (Goal type_hidden) (λ s (full, o). hidden-Kept p s raw full) v e
  value-Kept type_list v named (f, e) =
      by_string (Goal type_list) (λ s (full, o). list-Kept p s raw full) v e
  value-Kept type_text_multi v named (f, e) =
      by_string (Goal type_text_multi) (λ s h. multi-Kept p s raw h) v e

-- In a form whose values have the types of their fields, let Get find a value for a field that is
-- the first of its name and whose type is a constant of the package. If its texts and lists are not
-- empty, its addresses are parsed from their texts, which are not empty, and the text of a
-- text-multi field is lines that are not empty, with a line feed between them and no carriage return
-- at all, then Submit gives the field values for which, written and read back, the default of its
-- type is that value again.
pub submit_field_read_back :
    (p : Prep) (d : Data) (f : FormField) (v : Value)
    → IsTyped d
    → IsNamed f.typ
    → find_field f.var_name d.fields ≡ some f
    → get p d f.var_name ≡ (v, true)
    → Survives p f.typ v
    → (vs : List Bytes) × (submit_field p d f ≡ written (record f { value = vs } ∷ []))
      × (field_default p f.typ (kept_field p (record f { value = vs })).value ≡ (v, true))
unfolding submit_field kept_field and_then
submit_field_read_back p d f v typed named found got survives =
    let (fixed, accepted) = get-Fits p d f.var_name typed found got in
    let (vs, submitted, back) = value-Kept p f.value f.typ v named (fixed, accepted) survives in
    (vs, rw (fixed, got, submitted, and-false (not f.required)) refl, back)
