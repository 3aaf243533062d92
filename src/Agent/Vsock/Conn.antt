-- ===== src/Agent/Vsock/Conn.antt =====
-- agent/vsock_linux.go: the methods that a listener and a connection pass on to their os.File.
use emberbox.Prelude.{Text, ℕ, Option}
use emberbox.Prelude.Int.{ℤ}
use emberbox.Errors.{Result, Error}
use emberbox.Agent.Vsock.{OsFile, VsockAddr, VsockListener, VsockConn}

-- The methods of an os.File. Write returns how much it wrote, and an error.
pub record OsFiles (K : Type 0) : Type 0 where
  pub read : OsFile → ℕ → K → Result Text × K
  pub write : OsFile → Text → K → (ℕ × Option Error) × K
  pub close : OsFile → K → Option Error × K
  pub set_deadline : OsFile → ℤ → K → Option Error × K
  pub set_read_deadline : OsFile → ℤ → K → Option Error × K
  pub set_write_deadline : OsFile → ℤ → K → Option Error × K

abbrev pub local_addr : VsockConn → VsockAddr
local_addr c = c.local

abbrev pub remote_addr : VsockConn → VsockAddr
remote_addr c = c.remote

module _ {K : Type 0} (files : OsFiles K) where
  abbrev pub listener_close : VsockListener → K → Option Error × K
  listener_close l = files.close l.f

  -- Read into a buffer of the given length.
  abbrev pub conn_read : VsockConn → ℕ → K → Result Text × K
  conn_read c = files.read c.f

  abbrev pub conn_write : VsockConn → Text → K → (ℕ × Option Error) × K
  conn_write c = files.write c.f

  abbrev pub conn_close : VsockConn → K → Option Error × K
  conn_close c = files.close c.f

  abbrev pub conn_set_deadline : VsockConn → ℤ → K → Option Error × K
  conn_set_deadline c = files.set_deadline c.f

  abbrev pub conn_set_read_deadline : VsockConn → ℤ → K → Option Error × K
  conn_set_read_deadline c = files.set_read_deadline c.f

  abbrev pub conn_set_write_deadline : VsockConn → ℤ → K → Option Error × K
  conn_set_write_deadline c = files.set_write_deadline c.f
