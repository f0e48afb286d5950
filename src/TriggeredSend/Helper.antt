-- ===== src/TriggeredSend/Helper.antt =====
-- model/triggered-send-helper.h and .cc. The factory of ns-3 makes an application with the attributes
-- that it was given; the type of the socket is left out, as in the application.
use ns3_cosim.TriggeredSend.{Address, Application, new}

-- The application that a TriggeredSendHelper for this address installs.
pub helper : Address → Application
helper address = record new { peer = address }
