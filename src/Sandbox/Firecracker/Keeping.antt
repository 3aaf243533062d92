-- ===== src/Sandbox/Firecracker/Keeping.antt =====
-- sandbox/firecracker.go: what every call on the host leaves as it is, Boot, Exec and Destroy leave
-- as it is.
pub mod Calls
pub mod Lifecycle
use emberbox.Prelude.{Text, ℕ, zero, suc, Option, inl, inr, Option-cases}
use emberbox.Prelude.Int.{ℤ}
use emberbox.Errors.{Error}
use emberbox.Context.{Context}
use emberbox.Sandbox.Polling.{poll_until}
use emberbox.Sandbox.Firecracker.Boot.{Host, attempt}

-- A property of the host that every call on it keeps.
pub record IsKept {W : Type 0} (host : Host W) (P : W → Type 0) : Type 0 where
  pub mkdir_temp :
      (root pattern : Text) (w : W) → P w → P (host.machine.mkdir_temp root pattern w).1
  pub remove_all : (d : Text) (w : W) → P w → P (host.machine.remove_all d w).1
  pub create : (f : Text) (w : W) → P w → P (host.machine.create f w).1
  pub close_file : (f : ℕ) (w : W) → P w → P (host.machine.close_file f w)
  pub kill_group : (pid signal : ℕ) (w : W) → P w → P (host.machine.kill_group pid signal w).1
  pub exits : (pid : ℕ) (d : ℤ) (w : W) → P w → P (host.machine.exits pid d w).1
  pub wait : (pid : ℕ) (w : W) → P w → P (host.machine.wait pid w)
  pub new_uuid : (w : W) → P w → P (host.machine.new_uuid w).1
  pub put :
      (ctx : Context) (socket path body : Text) (w : W)
      → P w
      → P (host.http.put ctx socket path body w).1
  pub connect : (ctx : Context) (socket : Text) (w : W) → P w → P (host.http.connect ctx socket w).1
  pub dial :
      (ctx : Context) (timeout : Option ℤ) (path : Text) (w : W)
      → P w
      → P (host.transport.dial ctx timeout path w).1
  pub set_deadline :
      (c : host.transport.Conn) (d : ℤ) (w : W) → P w → P (host.transport.set_deadline c d w)
  pub send :
      (c : host.transport.Conn) (bytes : Text) (w : W) → P w → P (host.transport.send c bytes w).1
  pub read_line : (c : host.transport.Conn) (w : W) → P w → P (host.transport.read_line c w).1
  pub receive : (c : host.transport.Conn) (w : W) → P w → P (host.transport.receive c w).1
  pub close : (c : host.transport.Conn) (w : W) → P w → P (host.transport.close c w)

pub poll_until_keeps :
    {W : Type 0} (P : W → Type 0) (probe : W → Option Error × W) (expired : Error → Error)
    → ((w : W) → P w → P (probe w).1)
    → (n : ℕ) (cause : Error) (w : W) → P w
    → P (poll_until probe expired n cause w).1
unfolding poll_until
poll_until_keeps P probe expired kept zero cause w p = elim (Option-cases (probe w).0) [
  | inl e ↦ rw (poll_until, e) (kept w p)
  | inr (x, e) ↦ rw (poll_until, e) (kept w p)
]
poll_until_keeps P probe expired kept (suc n) cause w p = elim (Option-cases (probe w).0) [
  | inl e ↦ rw (poll_until, e) (kept w p)
  | inr (x, e) ↦ rw (poll_until, e) (poll_until_keeps P probe expired kept n cause _ (kept w p))
]

pub attempt_keeps :
    {W : Type 0} (P : W → Type 0) (label : Text) (one next : W → Option Error × W)
    → ((w : W) → P w → P (one w).1)
    → ((w : W) → P w → P (next w).1)
    → (w : W) → P w
    → P (attempt label one next w).1
unfolding attempt
attempt_keeps P label one next kept later w p = elim (Option-cases (one w).0) [
  | inl e ↦ rw (attempt, e) (later _ (kept w p))
  | inr (x, e) ↦ rw (attempt, e) (kept w p)
]
