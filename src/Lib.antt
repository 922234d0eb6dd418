-- ===== src/Lib.antt =====
-- A model of the core of this XMPP library: addresses, the start elements of stanzas, the
-- multiplexer that hands incoming stanzas to their handlers, what a session makes of the stanzas that
-- it reads and writes, how a stream is opened, its features negotiated and its sides authenticated,
-- how it is closed, and three extensions: in-band bytestreams, message styling and data forms.
--
-- The parts, from the bottom up:
--
-- Prelude: texts as lists of bytes (numbers of the native ℕ), searches and cuts in them, results
--   with an error, and the library names that the other modules use.
-- Jid (jid/jid.go, jid/unsafe.go): an address is the record of the source, two lengths and one
--   string of octets. `new`, `parse`, `with_local`, `with_domain` and `with_resource` are New,
--   Parse, WithLocal, WithDomain and WithResource; a pair of a value and an error stays a pair where
--   the source's value is used in spite of the error. What stands in other packages is a field of
--   the record `Prep`: UTF-8 validation, the two PRECIS profiles, net.ParseIP and IDNA. Only the
--   bound on the length of a textual IP address is assumed of them, in `PrepLaws`.
-- Jid/Escape (jid/escape.go): the two transformers of XEP-0106. The capacity of the destination is
--   an argument, the bytes written and the count of bytes read are results, and reading out of
--   range is the outcome `panicked`. A loop has fuel, as much as there are bytes in the source,
--   which is enough because a round that goes on reads at least one of them.
-- Xml: the names, attributes, start elements and tokens of encoding/xml, and well-formed content.
-- Stanza (stanza/stanza.go, stanza/iq.go, stanza/message.go, stanza/presence.go): the three structs
--   have the same fields and are one record, read from and written to a start element. They use
--   `parse` and `string` of Jid.
-- Mux (mux/mux.go, mux/option.go): a map is an association list, a nil handler is `none`, a panic of
--   an option is an error. Handlers are values of a type parameter: which one is chosen is modelled,
--   not what it does. iqRouter reads its IQ with `new_iq` of Stanza.
--
-- Stanza/Failure (stanza/error.go): the tokens of a stanza error. The functions Wrap and MultiReader
--   of the package xmlstream are the record `XmlStream`; what is assumed of Wrap is `WrapLaw`.
-- Session (session.go): Session/Encoder is stanzaEncoder, a step on its state for each token, with
--   the random identifier as an argument; Session/Response is getIDTyp and responseChecker, a step on
--   its state for each token; Session/Input is handleInputStream for one element. There a handler is
--   a function from the start element to the attributes that it leaves there, the tokens that it writes
--   and its error, the table of waiting calls is an association list, writing succeeds, and a panic is an outcome. The counters
--   of depth and level are integers that may fall below 0, as in the code.
-- Features (features.go): the feature lists that a server writes and a client reads, and what each
--   side then lets be negotiated. The bits of SessionState are a record of Booleans. A feature's own
--   functions are fields of its record, with what they return: Parse is a function of the start
--   element and reads the whole element, Negotiate is `none` where it is nil. The order in which the
--   client's loop meets the entries of its map is an argument; that loop has fuel, and more rounds than
--   the map has entries are never needed. If reading a list fails, what the
--   session then knows of features is left out. The server's loop recurses on the list of requests.
--
-- Styling (styling/styling.go): Styling/Layer splits text at one level of quotation, Styling/Decoder
--   is the decoder with those inside it, its split function and its tokens, Styling/Text runs it on a
--   text that is read in pieces. What unicode and unicode/utf8 say of runes is the record `Unicode`;
--   a slice that is cut out of range is the outcome `panicked`. The scanner's limit on a token, 65536
--   bytes, is kept: a full buffer ends the tokens with ErrTooLong. The reader returns no empty piece. The
--   fuel of `tokens_from` is spent by a token, a read, or the end of the text, which `work` counts.
--
-- Ibb (ibb/conn.go, ibb/ibb.go, ibb/payloads.go, ibb/listen.go): Ibb/Stream is a stream and the writer of
--   its stanzas, with what becomes of a sent stanza as an argument; Ibb/Handler is the handler, whose
--   maps are association lists: a stream that the application holds is its entry there. Base64 is the
--   record `Base64`. What the handler writes succeeds. Ibb/Transfer puts a writer and the handler of
--   the other side together, and runs sequences of writes and reads.
--
-- Sasl (sasl.go): Sasl/Server and Sasl/Client are the loops of negotiateServer and negotiateClient over
--   the elements that they read. The package sasl and base64 are the record `SaslLibrary`: a mechanism
--   is a value with a name, a negotiator a state with a step. What is written succeeds. The loops
--   recurse on the list of the elements, which is at its end where reading fails.
--
-- Streams (stream/version.go, stream/stream.go, internal/stream/stream.go, internal/stream/reader.go,
--   negotiator.go): versions and their text; Streams/Header is the data of a header, the reader of
--   stream-level tokens as a step on its state, and Expect over a list of tokens, which merges a header
--   over the data that are known; Streams/Carried says which of them are the header's; Streams/Restart is
--   what the negotiator asks of the addresses when a stream is started again. The list of tokens is at
--   its end where reading fails.
--
-- Stanza/ErrorRead (stanza/error.go): a stanza error read from the well-formed content of its element,
--   its comparison and its text. Streams/Failure (stream/error.go): stream errors; reading is the loop
--   over the tokens, with fuel for one round more than there are tokens, since a round that goes on
--   has read one. Xml/Decode is what both use of xml.Decoder.
-- Form (form/form.go, form/fields.go, form/options.go): Form is the data of a form with Get and Set, where
--   a value of interface type is one of a few kinds; Form/Options builds forms, Form/Write is their tokens
--   and Submit, where a slice out of range is the outcome `panicked`, Form/Read reads the content of a form's
--   element. A loop over the lines of a text has fuel, one more than its bytes.
-- Session/Output (session.go): the state of the streams, what the encoder holds and what was written, the
--   writers of TokenWriter, Send, sendError, Close and Serve. The errors of the encoder and of the
--   connection are the record `Output`; the rounds of Serve and the calls that are made meanwhile are a list.
-- Mux/Replay and Mux/Children (mux/mux.go): the reader that keeps what it has read, and the handlers that a
--   message or a presence is handed to; Mux/Iterate is the iterators of service discovery.
--
-- Not modelled: network connections, TLS and the goroutines of a session, which are calls of
-- other libraries; the payloads of the other extensions; floating point in color.
pub mod Prelude
pub mod Jid
pub mod Xml
pub mod Stanza
pub mod Mux
pub mod Session
pub mod Features
pub mod Styling
pub mod Ibb
pub mod Sasl
pub mod Streams
pub mod Form
