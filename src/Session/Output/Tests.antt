-- ===== src/Session/Output/Tests.antt =====
-- Runs of a session whose streams are closed.
use xmpp.Prelude.{true, false, none, [], ◌∷◌, codes, arith}
use xmpp.Xml.{StartElement}
use xmpp.Features.{SessionState}
use xmpp.Streams.Failure.Tests.{stream}
use xmpp.Session.Output.{
  stream_close, Output, Session, close_call, element_handled, input_ended, serve,
}
use xmpp.Session.Output.Once.{closes, IsEnded, serve-IsEnded}

abbrev working : Output Unit
working = record { encode = λ t. none; write = λ w. none }

abbrev open_state : SessionState
open_state = record {
  secure = true;
  authn = true;
  ready = true;
  received = false;
  output_stream_closed = false;
  input_stream_closed = false;
  s2s = false;
}

abbrev opened : Session
opened = record { state = open_state; pending = []; wire = []; locked = false }

abbrev closed : Session
closed = record opened {
  state = record open_state { output_stream_closed = true };
  wire = stream_close ∷ [];
}

abbrev presence : StartElement
presence = record {
  name = record { space = codes "jabber:client"; local = codes "presence" };
  attrs = [];
}

-- The application closes the session while an element is handled, and closes it again.
serve-IsEnded_example : IsEnded working (
    serve working stream
      ((close_call ∷ close_call ∷ [], element_handled) ∷ ([], input_ended) ∷ [])
      opened)
serve-IsEnded_example =
    serve-IsEnded working stream
      ((close_call ∷ close_call ∷ [], element_handled) ∷ ([], input_ended) ∷ []) opened
      (unfold closes in omega arith)
