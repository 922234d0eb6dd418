-- ===== src/Form/Tests.antt =====
-- Runs of forms.
use xmpp.Prelude.{
  ◌⊎◌, false, List, Bool, inr, true, false, some, [], ◌∷◌, ◌++◌, ◌≡◌, ◌≢◌, ◌↔◌, refl, codes,
  text_eq, text_eq_iff, map_get, map_set, All,
}
use xmpp.Jid.Samples.{ascii}
use xmpp.Streams.Failure.Tests.{stream, stream-WrapLaw, stream-MultiLaw}
use xmpp.Xml.{Token, start_element, end_element, tokens}
use xmpp.Form.Content.{form_content}
use xmpp.Form.Read.{unmarshal}
use xmpp.Form.ReadBack.{read_back, zero_form, form_read_back}
use xmpp.Form.{
  form_type, Data, FormField, bool_value, string_value, type_boolean, type_text_multi, type_hidden,
  find_field, get, set, done, set_as, accepts, store, wrong_type, value_or_default, default_of,
  field_default, set_value, join_lines, join_rest,
}
use xmpp.Form.Options.{
  new, boolean, text_multi, new_field, required, value, get_field_opts, apply_fields, title,
}
use xmpp.Form.Write.{
  panicked, written, replace_spaces, kept_values, is_kept, is_multi, submit, submission_data,
  and_then, form_tokens, form_start, written_fields, submit_field,
}
use xmpp.Form.ReadFields.{kept_field}
use xmpp.Form.Survive.{IsLines, submit_field_read_back}
use xmpp.Form.Lines.{pieces_from}
use xmpp.Form.Values.{IsTyped, Fits, is_known, get-set, get-Fits}
use xmpp.Form.Submit.{any_breaks, IsFilled, submit_outcome}

-- A form that asks for an agreement and for some lines of text, which have a default.
abbrev agree : FormField
agree = record {
  typ = type_boolean;
  var_name = codes "agree";
  label = [];
  desc = [];
  value = [];
  option = [];
  required = true;
}

abbrev about : FormField
about = record agree {
  typ = type_text_multi;
  var_name = codes "about";
  required = false;
  value = codes "a" ∷ codes "b" ∷ [];
}

abbrev asked : Data
asked = record {
  title = codes "Join";
  instructions = codes "One\n\ntwo";
  typ = form_type;
  fields = agree ∷ about ∷ [];
  values = some [];
}

abbrev agreed : Data
agreed = record asked { values = some ((codes "agree", bool_value true) ∷ []) }

made_by_new :
    new (
      title (codes "Join")
      ∷ boolean (codes "agree") (required ∷ [])
      ∷ text_multi (codes "about") (value (codes "a") ∷ value (codes "b") ∷ [])
      ∷ [])
    ≡ record asked { instructions = [] }
unfolding new boolean text_multi new_field get_field_opts apply_fields required value title
made_by_new = refl

asked-IsTyped : IsTyped asked
asked-IsTyped = tt

set_agree : set asked (codes "agree") (bool_value true) ≡ done true agreed
unfolding set set_as accepts store find_field text_eq map_set
set_agree = refl

-- A text is no agreement.
wrong : set asked (codes "agree") (string_value (codes "yes")) ≡ wrong_type
unfolding set set_as accepts find_field text_eq
wrong = refl

other_name : codes "about" ≢ codes "agree"
unfolding text_eq
other_name e = cc ((text_eq_iff (codes "about") (codes "agree")).1 e)

get-set_example :
    (get ascii agreed (codes "agree") ≡ (bool_value true, true))
    × (get ascii agreed (codes "about") ≡ get ascii asked (codes "about"))
    × (true ≡ is_known asked (codes "agree"))
get-set_example =
    get-set ascii asked (codes "agree") (bool_value true) (codes "about") set_agree other_name

about_found : find_field (codes "about") asked.fields ≡ some about
unfolding find_field text_eq
about_found = refl

about_default : get ascii asked (codes "about") ≡ (string_value (codes "a\nb"), true)
unfolding get value_or_default default_of set_value field_default find_field text_eq map_get
    join_lines join_rest
about_default = refl

get-Fits_example : Fits type_text_multi (string_value (codes "a\nb"))
get-Fits_example =
    get-Fits ascii asked (codes "about") {f = about} asked-IsTyped about_found about_default

about-IsLines : IsLines (codes "a\nb")
unfolding pieces_from
about-IsLines = ((refl, (refl, (refl, tt))), (refl, (refl, tt)))

submit_field_read_back_example :
    (vs : _) × (submit_field ascii asked about ≡ written (record about { value = vs } ∷ []))
    × (field_default ascii type_text_multi (kept_field ascii (record about { value = vs })).value
        ≡ (string_value (codes "a\nb"), true))
submit_field_read_back_example =
    submit_field_read_back ascii asked about (string_value (codes "a\nb")) asked-IsTyped tt
      about_found about_default (refl, inr about-IsLines)

submit_outcome_example :
    ((any_breaks ascii (submission_data agreed) agreed.fields ≡ true)
      × (submit stream ascii (some agreed) ≡ panicked))
    ⊎ ((any_breaks ascii (submission_data agreed) agreed.fields ≡ false)
        × (r : List Token × Bool) × (submit stream ascii (some agreed) ≡ written r)
        × ((r.1 ≡ true) ↔ All (IsFilled ascii (submission_data agreed)) agreed.fields))
submit_outcome_example = submit_outcome stream ascii agreed

-- Of the values of a hidden field only the first is written.
hidden_values : kept_values ascii type_hidden false (codes "a" ∷ codes "b" ∷ []) ≡ codes "a" ∷ []
unfolding kept_values is_kept is_multi
hidden_values = refl

title_line : replace_spaces (codes "a\r\nb\n\n") ≡ codes "a b  "
unfolding replace_spaces
title_line = refl

form_read_back_example :
    (form_tokens stream ascii asked
      ≡ written (
          start_element (form_start asked.typ)
          ∷ (tokens (form_content ascii asked asked.fields)
              ++ end_element (form_start asked.typ).name ∷ [])))
    × (unmarshal (form_start asked.typ).attrs (form_content ascii asked asked.fields) zero_form
        ≡ some (read_back ascii asked asked.fields))
form_read_back_example =
    form_read_back stream ascii asked asked.fields stream-WrapLaw stream-MultiLaw
      (unfold written_fields and_then in refl) (tt, (tt, tt))
