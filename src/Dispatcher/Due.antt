-- ===== src/Dispatcher/Due.antt =====
-- The task that the dispatcher's walk over the sleeping queue looks at first.
use sistemas_operacionais.Queue.View
use sistemas_operacionais.Queue.View.{View, view}
use sistemas_operacionais.Kernel.{Kernel}
