-- ===== src/Machine/Stuck.antt =====
-- At a verbosity above 2 the end of conn_close throws, and the connection is never destroyed.
use memcached.Machine.{Driven}
use memcached.Connection.{Connection, conn_pending_close, conn_immediate_close}
use memcached.Common.{◌≡◌, ◌⊎◌, false}

-- No thread owns the connection any more, and it waits to be closed.
pub record Stuck (d : Driven) : Type 0 where
  pub detached : d.thread ≡ false
  pub closing :
      (d.connection.state ≡ conn_pending_close) ⊎ (d.connection.state ≡ conn_immediate_close)
