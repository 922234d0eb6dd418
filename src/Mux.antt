-- ===== src/Mux.antt =====
-- mux/mux.go and mux/option.go: the stanza multiplexer, its registrations and its lookups.
-- A Go map is an association list; a handler that is nil is `none`. The handler interfaces and the
-- iterators of service discovery are one type parameter, `H`: their values are only passed on.
pub mod Best
pub mod Lookup
pub mod Register
pub mod Route
pub mod Replay
pub mod Children
pub mod Iterate
pub mod Tests
use xmpp.Prelude.{
  map_get, if◌then◌else◌, Bool, true, false, not, ◌&&◌, ◌||◌, Option, none, some, List, [], ◌∷◌,
  ◌++◌, Bytes, codes, text_eq, is_empty, Result, ok, err, ◌>>=◌,
}
use xmpp.Jid.{Error, Jid, Prep}
use xmpp.Xml.{Name, name_eq, StartElement}
use xmpp.Stanza.{Stanza, is, new_iq}

abbrev pub iq_stanza : Bytes
iq_stanza = codes "iq"

abbrev pub msg_stanza : Bytes
msg_stanza = codes "message"

abbrev pub pres_stanza : Bytes
pres_stanza = codes "presence"

pub record Pattern : Type 0 where
  pub payload : Name
  pub stanza : Bytes
  pub type : Bytes

-- `a == b` on patterns.
unfoldable pub pattern_eq : Pattern → Pattern → Bool
pattern_eq a b = name_eq a.payload b.payload && (text_eq a.stanza b.stanza && text_eq a.type b.type)

pub record ServeMux (H : Type 0) : Type 0 where
  pub patterns : List (Name × H)
  pub iq_patterns : List (Pattern × H)
  pub msg_patterns : List (Pattern × H)
  pub presence_patterns : List (Pattern × H)
  pub features : List H
  pub idents : List H
  pub stanza_ns : Bytes

-- The panics of the options.
pub data Panic : Type 0 where
  nil_handler : Panic
  registered_twice : Pattern → Panic
  name_registered_twice : Name → Panic
  stanza_name : Panic

-- The handler that a lookup returns: one that is registered, or a default.
pub data Chosen (H : Type 0) : Type 0 where
  registered : H → Chosen H
  iq_fallback nop_handler : Chosen H
  iq_router msg_router presence_router : Chosen H

module _ {H : Type 0} where
  -- The four lookups that IQHandler, MessageHandler and PresenceHandler make in their table.
  unfoldable pub best_match : List (Pattern × H) → Bytes → Bytes → Name → Option H
  best_match table stanza type payload =
      let lookup = λ (space local : Bytes).
        map_get pattern_eq
          (record {
            payload = record { space = space; local = local };
            stanza = stanza;
            type = type;
          })
          table in
      elim (lookup payload.space payload.local) [
        | some h ↦ some h
        | none ↦ elim (lookup [] payload.local) [
          | some h ↦ some h
          | none ↦ elim (lookup payload.space []) [ some h ↦ some h | none ↦ lookup [] [] ]
        ]
      ]

  unfoldable pub iq_handler : ServeMux H → Bytes → Name → Chosen H × Bool
  iq_handler m type payload = elim (best_match m.iq_patterns iq_stanza type payload) [
    | some h ↦ (registered h, true)
    | none ↦ (iq_fallback, false)
  ]

  unfoldable pub message_handler : ServeMux H → Bytes → Name → Chosen H × Bool
  message_handler m type payload = elim (best_match m.msg_patterns msg_stanza type payload) [
    | some h ↦ (registered h, true)
    | none ↦ (nop_handler, false)
  ]

  unfoldable pub presence_handler : ServeMux H → Bytes → Name → Chosen H × Bool
  presence_handler m type payload = elim (best_match m.presence_patterns pres_stanza type payload) [
    | some h ↦ (registered h, true)
    | none ↦ (nop_handler, false)
  ]

  -- The router of a stanza's name, once no pattern for top-level elements matches.
  stanza_router : ServeMux H → Name → Chosen H × Bool
  stanza_router m name =
      if not (is name m.stanza_ns)
      then (nop_handler, false)
      else if text_eq name.local iq_stanza
      then (iq_router, true)
      else if text_eq name.local msg_stanza
      then (msg_router, true)
      else if text_eq name.local pres_stanza
      then (presence_router, true)
      else (nop_handler, false)

  unfoldable pub handler : ServeMux H → Name → Chosen H × Bool
  unfolding stanza_router
  handler m name = elim (map_get name_eq name m.patterns) [
    | some h ↦ (registered h, true)
    | none ↦ elim (map_get name_eq (record name { space = [] }) m.patterns) [
      | some h ↦ (registered h, true)
      | none ↦ elim (map_get name_eq (record name { local = [] }) m.patterns) [
        | some h ↦ (registered h, true)
        | none ↦ stanza_router m name
      ]
    ]
  ]

  -- The checks that IQ, Message and Presence make of their table before they add to it.
  unfoldable pub add_pattern :
      Pattern → Option H → List (Pattern × H) → Result Panic (List (Pattern × H))
  add_pattern pat none table = err nil_handler
  add_pattern pat (some h) table = elim (map_get pattern_eq pat table) [
    | some _ ↦ err (registered_twice pat)
    | none ↦ ok ((pat, h) ∷ table)
  ]

  unfoldable pub iq : Bytes → Name → Option H → ServeMux H → Result Panic (ServeMux H)
  iq type payload h m = do
    table ←
        add_pattern (record { payload = payload; stanza = iq_stanza; type = type }) h m.iq_patterns
    ok (record m { iq_patterns = table })

  unfoldable pub message : Bytes → Name → Option H → ServeMux H → Result Panic (ServeMux H)
  message type payload h m = do
    table ←
        add_pattern (record { payload = payload; stanza = msg_stanza; type = type }) h
          m.msg_patterns
    ok (record m { msg_patterns = table })

  unfoldable pub presence : Bytes → Name → Option H → ServeMux H → Result Panic (ServeMux H)
  presence type payload h m = do
    table ←
        add_pattern (record { payload = payload; stanza = pres_stanza; type = type }) h
          m.presence_patterns
    ok (record m { presence_patterns = table })

  unfoldable pub handle : Name → Option H → ServeMux H → Result Panic (ServeMux H)
  handle n none m = err nil_handler
  handle n (some h) m = if is n [] then err stanza_name else elim (map_get name_eq n m.patterns) [
    | some _ ↦ err (name_registered_twice n)
    | none ↦ ok (record m { patterns = (n, h) ∷ m.patterns })
  ]

  unfoldable pub feature : H → ServeMux H → Result Panic (ServeMux H)
  feature iter m = ok (record m { features = m.features ++ iter ∷ [] })

  unfoldable pub ident : H → ServeMux H → Result Panic (ServeMux H)
  ident iter m = ok (record m { idents = m.idents ++ iter ∷ [] })

  -- The loop of `New` over its options.
  unfoldable pub apply_options :
      List (ServeMux H → Result Panic (ServeMux H)) → ServeMux H → Result Panic (ServeMux H)
  apply_options [] m = ok m
  apply_options (o ∷ opts) m = do m' ← o m; apply_options opts m'

  unfoldable pub new :
      Bytes → List (ServeMux H → Result Panic (ServeMux H)) → Result Panic (ServeMux H)
  unfolding apply_options
  new stanza_ns opts = apply_options opts (record {
    patterns = [];
    iq_patterns = [];
    msg_patterns = [];
    presence_patterns = [];
    features = [];
    idents = [];
    stanza_ns = stanza_ns;
  })

-- `iqFallback`: the start element's fields of the error that it sends, if it sends one.
unfoldable pub fallback_answer : Stanza → Option Stanza
fallback_answer v =
    if text_eq v.type (codes "error") || text_eq v.type (codes "result")
    then none
    else some (record v { to = v.from; from = v.to; type = codes "error" })

-- The first token of an IQ's content, behind white space: a start element with its name, a token of
-- another type, or nil.
pub data FirstToken : Type 0 where
  start_token : Name → FirstToken
  other_token no_token : FirstToken

pub data ReadError : Type 0 where
  eof read_failed : ReadError

pub data Routed (H : Type 0) : Type 0 where
  bad_stanza : Error → Routed H
  bad_read : ReadError → Routed H
  invalid_payload : Routed H
  dispatched : Chosen H → Stanza → Name → Routed H

-- `err != nil && (err != io.EOF || iq.Type != stanza.ResultIQ)`.
unfoldable pub read_fails : Option ReadError → Stanza → Option ReadError
read_fails none v = none
read_fails (some eof) v = if text_eq v.type (codes "result") then none else some eof
read_fails (some read_failed) v = some read_failed

module _ {H : Type 0} where
  -- What `iqRouter` does with the payload that it finds.
  unfoldable pub route_payload : ServeMux H → Stanza → FirstToken → Routed H
  route_payload m v (start_token name) = dispatched (iq_handler m v.type name).0 v name
  route_payload m v other_token = invalid_payload
  route_payload m v no_token =
      let name : Name = record { space = []; local = [] } in
      dispatched (iq_handler m v.type name).0 v name

  -- `iqRouter` behind its call of `NewIQ`, whose results are the pair.
  unfoldable pub route_read :
      ServeMux H → Stanza × Option Error → FirstToken → Option ReadError → Routed H
  unfolding route_payload
  route_read m (v, some x) tok e = bad_stanza x
  route_read m (v, none) tok e = elim (read_fails e v) [
    | some x ↦ bad_read x
    | none ↦ route_payload m v tok
  ]

  -- `iqRouter`: `tok` and `e` are what reading the first token inside the element returns.
  unfoldable pub route_iq :
      Prep → ServeMux H → StartElement → FirstToken → Option ReadError → Routed H
  route_iq p m start tok e = route_read m (new_iq p start) tok e
