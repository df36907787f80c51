-- ===== src/Controller/Listener/Descriptors.antt =====
-- What becomes of the descriptors that assignment2/controller.c accepts.
use cab403work.Controller.State.{Controller}
use cab403work.Controller.Listener.Program.{Program}
