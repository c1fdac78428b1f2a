-- ===== src/TargetServer.antt =====
-- cmd/targetsrv/main.go: the server that the load test lets the monitor check.
pub mod Checks
use pulse_monitor.Handlers.Writer.{Writer, set_header, write_header, write}
use pulse_monitor.Text.{codes}

-- Its only handler.
unfoldable pub handle : Writer → Writer
unfolding set_header write_header write
handle w =
    write (codes "ok")
      (write_header 200 (set_header (codes "Content-Type") (codes "text/plain; charset=utf-8") w))
