-- ===== src/Features.antt =====
-- features.go: which stream features are listed, read and selected.
-- A feature's own functions are fields: `list` and `parse` are what its List and Parse return, and
-- `negotiate` is `none` where Negotiate is nil. Parse reads its whole element. The bits of the
-- session's state are a record.
pub mod Select
pub mod Read
pub mod Client
pub mod Server
pub mod Tests
use xmpp.Prelude.{
  ℕ, suc, if◌then◌else◌, Bool, true, false, not, ◌&&◌, ◌||◌, Option, none, some, List, [], ◌∷◌,
  Bytes, codes, text_eq, map_get, map_set, Result, ok, err, ◌==◌, length,
}
use xmpp.Xml.{Name, name_eq, StartElement, Token, start_element, end_element, char_data, misc}

-- The bits that a feature asks for, and that a session has.
pub record SessionState : Type 0 where
  pub secure : Bool
  pub authn : Bool
  pub ready : Bool
  pub received : Bool
  pub output_stream_closed : Bool
  pub input_stream_closed : Bool
  pub s2s : Bool

-- `state & necessary == necessary`.
unfoldable pub has_all : SessionState → SessionState → Bool
has_all state n =
    (not n.secure || state.secure)
    && ((not n.authn || state.authn)
        && ((not n.ready || state.ready)
            && ((not n.received || state.received)
                && ((not n.output_stream_closed || state.output_stream_closed)
                    && ((not n.input_stream_closed || state.input_stream_closed)
                        && (not n.s2s || state.s2s))))))

-- `state & prohibited == 0`.
unfoldable pub has_none : SessionState → SessionState → Bool
has_none state n =
    not (n.secure && state.secure)
    && (not (n.authn && state.authn)
        && (not (n.ready && state.ready)
            && (not (n.received && state.received)
                && (not (n.output_stream_closed && state.output_stream_closed)
                    && (not (n.input_stream_closed && state.input_stream_closed)
                        && not (n.s2s && state.s2s))))))

abbrev pub ns_starttls : Bytes
ns_starttls = codes "urn:ietf:params:xml:ns:xmpp-tls"

abbrev pub ns_stream : Bytes
ns_stream = codes "http://etherx.jabber.org/streams"

-- `D` is the data that a feature hands from Parse to Negotiate and `E` its errors. Negotiate
-- returns
-- the bits to set, whether there is a new connection, and its error.
pub record StreamFeature (E D : Type 0) : Type 0 where
  pub name : Name
  pub necessary : SessionState
  pub prohibited : SessionState
  pub list : Result E Bool
  pub parse : StartElement → Result E (Bool × D)
  pub negotiate : Option (Option D → SessionState × Bool × Option E)

pub record SfData (E D : Type 0) : Type 0 where
  pub req : Bool
  pub feature : StreamFeature E D

pub record StreamFeaturesList (E D : Type 0) : Type 0 where
  pub total : ℕ
  pub req : Bool
  pub cache : List (Bytes × SfData E D)

-- What ends the reading of a list: an error of the stream, of a feature, or a stream error.
pub data ListError (E : Type 0) : Type 0 where
  read_error invalid_xml bad_namespace_prefix restricted_xml : ListError E
  feature_error : E → ListError E

-- `_, negotiated := s.negotiated[space]`.
abbrev pub is_negotiated : List Bytes → Bytes → Bool
is_negotiated [] space = false
is_negotiated (done ∷ negotiated) space = text_eq done space || is_negotiated negotiated space

-- What the client does with the list that it read: it is done, or refuses it, or goes on to select.
pub data ListCheck : Type 0 where
  nothing_to_do out_of_order go_on : ListCheck

module _ {E D : Type 0} where
  unfoldable pub contains_starttls : List (StreamFeature E D) → Option (StreamFeature E D)
  contains_starttls [] = none
  contains_starttls (f ∷ features) =
      if text_eq f.name.space ns_starttls then some f else contains_starttls features

  unfoldable pub get_feature : Name → List (StreamFeature E D) → Option (StreamFeature E D)
  get_feature name [] = none
  get_feature name (f ∷ features) =
      if name_eq f.name name then some f else get_feature name features

  -- The condition under which a feature is listed, and under which one that is read is kept.
  unfoldable pub is_allowed : SessionState → StreamFeature E D → Bool
  is_allowed state f = has_all state f.necessary && has_none state f.prohibited

  abbrev pub empty_list : StreamFeaturesList E D
  empty_list = record { total = 0; req = false; cache = [] }

  abbrev pub add_data : Bytes → SfData E D → StreamFeaturesList E D → StreamFeaturesList E D
  add_data space d sf = record sf {
    req = sf.req || d.req;
    cache = map_set text_eq space d sf.cache;
  }

  -- The loop of `writeStreamFeatures`: the list, complete or up to the first error.
  unfoldable pub list_features :
      SessionState
      → List (StreamFeature E D)
      → StreamFeaturesList E D
      → StreamFeaturesList E D × Option E
  list_features state [] sf = (sf, none)
  list_features state (f ∷ features) sf =
      if is_allowed state f
      then elim f.list [
        | err e ↦ (sf, some e)
        | ok r ↦
            list_features state features
              (record (add_data f.name.space (record { req = r; feature = f }) sf) {
                total = suc sf.total;
              })
      ]
      else list_features state features sf

  -- One start element in the loop of `readStreamFeatures`: the list and the session's features.
  unfoldable pub read_feature :
      SessionState
      → List (StreamFeature E D)
      → StartElement
      → StreamFeaturesList E D
      → List (Bytes × Option D)
      → Result (ListError E) (StreamFeaturesList E D × List (Bytes × Option D))
  read_feature state features tok sf known =
      let space = tok.name.space in
      let counted = record sf { total = suc sf.total } in
      let known' = map_set text_eq space none known in
      elim (get_feature tok.name features) [
        | none ↦ ok (counted, known')
        | some f ↦ elim (f.parse tok) [
          | err e ↦ err (feature_error e)
          | ok (r, value) ↦
              if is_allowed state f
              then ok (
                add_data space (record { req = r; feature = f }) counted,
                map_set text_eq space (some value) known',
              )
              else ok (record counted { req = counted.req || r }, known')
        ]
      ]

  -- The loop of `readStreamFeatures` over the tokens at the level of the list; the tokens inside a
  -- feature are read by its Parse or skipped, and `none` is an error.
  unfoldable pub read_features :
      SessionState
      → List (StreamFeature E D)
      → List (Option Token)
      → StreamFeaturesList E D
      → List (Bytes × Option D)
      → Result (ListError E) (StreamFeaturesList E D × List (Bytes × Option D))
  read_features state features [] sf known = err read_error
  read_features state features (none ∷ ts) sf known = err read_error
  read_features state features (some (start_element tok) ∷ ts) sf known =
      elim (read_feature state features tok sf known) [
        | err e ↦ err e
        | ok (sf', known') ↦ read_features state features ts sf' known'
      ]
  read_features state features (some (end_element name) ∷ ts) sf known =
      if text_eq name.local (codes "features") && text_eq name.space ns_stream
      then ok (sf, known)
      else err invalid_xml
  read_features state features (some (char_data _) ∷ ts) sf known = err restricted_xml
  read_features state features (some misc ∷ ts) sf known = err restricted_xml

  unfoldable pub read_stream_features :
      SessionState
      → StartElement
      → List (StreamFeature E D)
      → List (Option Token)
      → List (Bytes × Option D)
      → Result (ListError E) (StreamFeaturesList E D × List (Bytes × Option D))
  read_stream_features state start features ts known =
      if not (text_eq start.name.local (codes "features"))
      then err invalid_xml
      else if not (text_eq start.name.space ns_stream)
      then err bad_namespace_prefix
      else read_features state features ts empty_list known

  -- StartTLS is tried though the first list does not have it.
  unfoldable pub do_starttls :
      Bool
      → SessionState
      → List (StreamFeature E D)
      → StreamFeaturesList E D
      → Option (StreamFeature E D)
  do_starttls first state features list = elim (map_get text_eq ns_starttls list.cache) [
    | some _ ↦ none
    | none ↦ if first && not state.secure then contains_starttls features else none
  ]

  abbrev pub was_negotiated : List Bytes → SfData E D → Bool
  was_negotiated negotiated d = is_negotiated negotiated d.feature.name.space

  abbrev pub can_negotiate : SfData E D → Bool
  can_negotiate d = elim d.feature.negotiate [ some _ ↦ true | none ↦ false ]

  -- The client's loop over the cache, in the order of this run: the entry that is selected so far.
  unfoldable pub select : List Bytes → List (SfData E D) → Option (SfData E D) → Option (SfData E D)
  select negotiated [] chosen = chosen
  select negotiated (v ∷ order) chosen =
      let rest = select negotiated order in
      if was_negotiated negotiated v || not (can_negotiate v)
      then rest chosen
      else if not v.req
      then some v
      else rest (some v)

  -- What the client selects next: StartTLS if it is forced, or an entry of the cache.
  unfoldable pub client_choice :
      Option (StreamFeature E D) → List Bytes → List (SfData E D) → Option (SfData E D)
  client_choice (some starttls) negotiated order = some (record { req = true; feature = starttls })
  client_choice none negotiated order = select negotiated order none

  unfoldable pub check_list : Option (StreamFeature E D) → StreamFeaturesList E D → ListCheck
  check_list (some starttls) list = go_on
  check_list none list =
      if list.total == 0
      then nothing_to_do
      else if length list.cache == 0
      then out_of_order
      else go_on

  -- Whether the server lets a client negotiate the feature of this namespace.
  unfoldable pub server_accepts : List Bytes → StreamFeaturesList E D → Bytes → Option (SfData E D)
  server_accepts negotiated list space = elim (map_get text_eq space list.cache) [
    | none ↦ none
    | some d ↦ if is_negotiated negotiated space || not (can_negotiate d) then none else some d
  ]
