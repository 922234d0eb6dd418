-- ===== src/Stanza/ErrorTests.antt =====
-- Runs of stanza errors.
use xmpp.Prelude.{true, some, [], ◌∷◌, ◌++◌, ◌≡◌, ◌≢◌, refl, inr, codes, text_eq, text_eq_iff, ok}
use xmpp.Jid.Samples.{ascii, juliet, juliet-IsValid, juliet_read_back}
use xmpp.Streams.Failure.Tests.{stream, stream-WrapLaw, stream-MultiLaw}
use xmpp.Xml.{start_element, end_element, tokens}
use xmpp.Stanza.Failure.{StanzaError, error_start, error_wrap}
use xmpp.Stanza.ErrorRead.{error_is, error_string, last_text, unmarshal_error, text_less}
use xmpp.Stanza.ErrorTexts.{IsSorted, shown}
use xmpp.Stanza.ErrorBack.{condition_of, error_content, zero_error, unmarshal-error_wrap}

abbrev refused : StanzaError
refused = record {
  by = juliet;
  type = codes "cancel";
  condition = codes "not-allowed";
  text = ([], codes "No") ∷ (codes "de", codes "Nein") ∷ (codes "en", []) ∷ [];
}

refused-IsSorted : IsSorted refused.text
unfolding text_less
refused-IsSorted = ((refl, (refl, tt)), ((refl, tt), (tt, tt)))

no_text : codes "not-allowed" ≢ codes "text"
unfolding text_eq
no_text e = cc ((text_eq_iff (codes "not-allowed") (codes "text")).1 e)

unmarshal-error_wrap_example :
    (error_wrap stream refused []
      ≡ start_element (error_start refused)
        ∷ (tokens (error_content refused) ++ end_element (error_start refused).name ∷ []))
    × (unmarshal_error ascii (error_start refused).attrs (error_content refused) zero_error
        ≡ ok (record refused { condition = condition_of refused; text = shown refused.text }))
unmarshal-error_wrap_example =
    unmarshal-error_wrap stream ascii refused stream-WrapLaw stream-MultiLaw
      (inr (juliet-IsValid, juliet_read_back)) refused-IsSorted no_text

-- The error is one of its type, and its text is the one without a language, found last.
cancelled : error_is refused (some (record zero_error { type = codes "cancel" })) ≡ true
unfolding error_is text_eq
cancelled = refl

found_last : error_string refused ((codes "de", codes "Nein") ∷ ([], codes "No") ∷ []) ≡ codes "No"
unfolding error_string last_text
found_last = refl
