-- ===== src/Session/Output/Order.antt =====
-- What stands before and behind the closing tag of a stream (session.go).
use xmpp.Session.Output.{Failure, Output, Session}
