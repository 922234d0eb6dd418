-- ===== src/Session/Response.antt =====
-- session.go, responseChecker: whether a handler writes the response to an IQ.
use xmpp.Prelude.{
  ℕ, suc, if◌then◌else◌, Bool, true, false, not, ◌&&◌, ◌||◌, Option, none, some, List, [], ◌∷◌,
  ◌++◌, ◌≡◌, inl, inr, refl, sym, ap, ◌∙◌, Bytes, codes, text_eq, is_empty, ℤ, pos, increase,
  decrease, below_one, Bool-cases,
}
use xmpp.Jid.{equal, string, zero_jid}
use xmpp.Xml.{
  Attr, StartElement, Token, start_element, end_element, Content, done, text, skip, element, tokens,
  ns_xml,
}
use xmpp.Stanza.{Stanza, iq_start, shared_attrs, attribute, jid_attr}
use xmpp.Session.{is_iq_empty_space}

abbrev pub Found : Type 0
Found = Option ℕ × Bytes

abbrev pub is_found : Found → Bool
is_found (none, value) = false
is_found (some idx, value) = true

-- The loop of `getIDTyp`: an index and a value for each of the two attributes; -1 is `none`. It
-- ends
-- when both are found.
unfoldable pub scan_id_typ : ℕ → List Attr → Found → Found → Found × Found
scan_id_typ idx [] id typ = (id, typ)
scan_id_typ idx (a ∷ attrs) id typ =
    let is_id = text_eq a.name.local (codes "id") in
    let id' = if is_id then (some idx, a.value) else id in
    let typ' =
      if not is_id && text_eq a.name.local (codes "type") then (some idx, a.value) else typ in
    let rest = scan_id_typ (suc idx) attrs id' typ' in
    if is_found id' && is_found typ' then (id', typ') else rest

unfoldable pub get_id_typ : List Attr → Found × Found
get_id_typ attrs = scan_id_typ 0 attrs (none, []) (none, [])

pub record ResponseChecker : Type 0 where
  pub id : Bytes
  pub wrote_resp : Bool
  pub level : ℤ

-- An IQ with this identifier that is not itself a request.
unfoldable pub is_response : Bytes → StartElement → Bool
is_response id tok =
    let (i, t) = get_id_typ tok.attrs in
    is_iq_empty_space tok.name
    && (text_eq i.1 id && (not (text_eq t.1 (codes "get")) && not (text_eq t.1 (codes "set"))))

-- `EncodeToken`, which passes every token on.
unfoldable pub check_token : ResponseChecker → Token → ResponseChecker
check_token rw (start_element tok) = record rw {
  wrote_resp = if below_one rw.level && is_response rw.id tok then true else rw.wrote_resp;
  level = increase rw.level;
}
check_token rw (end_element name) = record rw { level = decrease rw.level }
check_token rw t = rw

unfoldable pub check_all : ResponseChecker → List Token → ResponseChecker
check_all rw [] = rw
check_all rw (t ∷ ts) = check_all (check_token rw t) ts

-- Some element of the content, not one inside another, is the response.
unfoldable pub responds : Bytes → Content → Bool
responds id done = false
responds id (text s r) = responds id r
responds id (skip r) = responds id r
responds id (element s c r) = is_response id s || responds id r

check_all-append :
    (xs ys : List Token) (c : ResponseChecker)
    → check_all c (xs ++ ys) ≡ check_all (check_all c xs) ys
unfolding check_all
check_all-append [] ys c = refl
check_all-append (x ∷ xs) ys c = check_all-append xs ys (check_token c x)

-- Inside an element.
check_inner :
    (rw : ResponseChecker) (k : ℕ) (c : Content)
    → rw.level ≡ pos (suc k)
    → check_all rw (tokens c) ≡ rw
unfolding check_all check_token tokens
check_inner w k done inside = refl
check_inner w k (text s r) inside = check_inner w k r inside
check_inner w k (skip r) inside = check_inner w k r inside
check_inner w k (element s c r) inside =
    let opened = check_token w (start_element s) in
    check_all-append (tokens c) (end_element s.name ∷ tokens r) opened
    ∙ ap (λ u. check_all u (end_element s.name ∷ tokens r))
        (check_inner opened (suc k) c (ap increase inside))
    ∙ ap (λ u. check_all u (tokens r)) closed
    ∙ check_inner w k r inside
  where
    wrote : (if below_one w.level && is_response w.id s then true else w.wrote_resp) ≡ w.wrote_resp
    wrote = rw inside refl

    level : decrease (increase w.level) ≡ w.level
    level = rw inside refl

    closed : check_token (check_token w (start_element s)) (end_element s.name) ≡ w
    closed = λ i. record w { wrote_resp = wrote i; level = level i }

or_false : (b : Bool) → (b || false) ≡ b
or_false true = refl
or_false false = refl

or_next : (a b c : Bool) → ((if b then true else a) || c) ≡ (a || (b || c))
or_next true true c = refl
or_next true false c = refl
or_next false true c = refl
or_next false false c = refl

-- What a handler writes at level 0, if it is well-formed content, sets `wroteResp` exactly if one
-- of
-- its elements is an IQ with this identifier that is no request; elements inside another, such as a
-- forwarded IQ, do not count.
pub check_all-tokens :
    (w : ResponseChecker) (c : Content)
    → w.level ≡ pos 0
    → check_all w (tokens c) ≡ record w { wrote_resp = w.wrote_resp || responds w.id c }
unfolding check_all check_token tokens responds
check_all-tokens w done top = λ i. record w { wrote_resp = sym (or_false w.wrote_resp) i }
check_all-tokens w (text s r) top = check_all-tokens w r top
check_all-tokens w (skip r) top = check_all-tokens w r top
check_all-tokens w (element s c r) top =
    let opened = check_token w (start_element s) in
    check_all-append (tokens c) (end_element s.name ∷ tokens r) opened
    ∙ ap (λ u. check_all u (end_element s.name ∷ tokens r))
        (check_inner opened 0 c (ap increase top))
    ∙ ap (λ u. check_all u (tokens r)) closed
    ∙ check_all-tokens (record w { wrote_resp = if is_response w.id s then true else w.wrote_resp })
        r top
    ∙ λ i. record w { wrote_resp = or_next w.wrote_resp (is_response w.id s) (responds w.id r) i }
  where
    wrote :
        (if below_one w.level && is_response w.id s then true else w.wrote_resp)
        ≡ (if is_response w.id s then true else w.wrote_resp)
    wrote = rw top refl

    level : decrease (increase w.level) ≡ w.level
    level = rw top refl

    closed :
        check_token (check_token w (start_element s)) (end_element s.name)
        ≡ record w { wrote_resp = if is_response w.id s then true else w.wrote_resp }
    closed = λ i. record w { wrote_resp = wrote i; level = level i }

module _ (id typ : Bytes) where
  -- What scanning these attributes finds, behind the type.
  abbrev Reads : List Attr → Type 0
  Reads ys =
      (idx : ℕ)
      → ((scan_id_typ idx ys (none, []) (some 0, typ)).0.1 ≡ id)
        × ((scan_id_typ idx ys (none, []) (some 0, typ)).1.1 ≡ typ)

  optional-Reads :
      (b : Bool) (a : Attr) (ys : List Attr)
      → text_eq a.name.local (codes "id") ≡ false
      → text_eq a.name.local (codes "type") ≡ false
      → Reads ys
      → Reads ((if b then a ∷ [] else []) ++ ys)
  unfolding scan_id_typ
  optional-Reads true a ys not_id not_type h idx = rw (not_id, not_type) (h (suc idx))
  optional-Reads false a ys not_id not_type h idx = h idx

-- The identifier and the type that the session finds in the start element of an IQ are those of the
-- IQ.
pub get_id_typ-iq_start :
    (v : Stanza)
    → ((get_id_typ (iq_start v).attrs).0.1 ≡ v.id) × ((get_id_typ (iq_start v).attrs).1.1 ≡ v.type)
unfolding get_id_typ scan_id_typ iq_start shared_attrs text_eq
get_id_typ-iq_start v =
    optional-Reads v.id v.type (not (equal v.to zero_jid)) (attribute (codes "to") (string v.to))
      behind_to refl refl
      (optional-Reads v.id v.type (not (equal v.from zero_jid))
        (attribute (codes "from") (string v.from)) behind_from refl refl (id_found v.id refl))
      1
  where
    lang_attr : List Attr
    lang_attr =
        if not (is_empty v.lang)
        then record { name = record { space = ns_xml; local = codes "lang" }; value = v.lang } ∷ []
        else []

    behind_from : List Attr
    behind_from =
        (if not (is_empty v.id) then attribute (codes "id") v.id ∷ [] else []) ++ lang_attr

    behind_to : List Attr
    behind_to = jid_attr (codes "from") v.from ++ behind_from

    id_found :
        (id : Bytes)
        → v.id ≡ id
        → Reads v.id v.type
            ((if not (is_empty id) then attribute (codes "id") id ∷ [] else []) ++ lang_attr)
    id_found [] e idx = elim (Bool-cases (not (is_empty v.lang))) [
      | inl h ↦ rw h (sym e, refl)
      | inr h ↦ rw h (sym e, refl)
    ]
    id_found (c ∷ s) e idx = (sym e, refl)
