-- ===== src/Agent/Vsock.antt =====
-- agent/vsock_linux.go and agent/vsock_other.go: the listener on AF_VSOCK. The world `K` is what
-- the system calls change, the table of open descriptors with it.
pub mod Laws
pub mod Accepting
pub mod Conn
use emberbox.Prelude.{
  if◌then◌else◌, ℕ, zero, suc, ◌+◌, Text, text, ◌++◌, Bool, true, false, Option, none, some, itoa,
}
use emberbox.Errors.{Result, ok, err, Error, plain, sentinel, eagain, wrap, root}

-- unix.SockaddrVM, as far as it is used.
pub record SockaddrVm : Type 0 where
  pub cid : ℕ
  pub port : ℕ

-- golang.org/x/sys/unix, and the poller under an os.File: SyscallConn, and the three parts of the
-- Read of a raw connection, which prepares, calls its function, and waits before each further call.
-- An address of accept4 that is not a SockaddrVM is `none`.
pub record Kernel (K : Type 0) : Type 0 where
  pub socket : ℕ → ℕ → ℕ → K → Result ℕ × K
  pub set_nonblock : ℕ → Bool → K → Option Error × K
  pub bind : ℕ → SockaddrVm → K → Option Error × K
  pub listen : ℕ → ℕ → K → Option Error × K
  pub close : ℕ → K → Option Error × K
  pub accept4 : ℕ → ℕ → K → Result (ℕ × Option SockaddrVm) × K
  pub syscall_conn : ℕ → K → Option Error
  pub prepare : ℕ → K → Option Error × K
  pub wait : ℕ → K → Option Error × K

-- AF_VSOCK, SOCK_STREAM, SOCK_CLOEXEC, SOCK_NONBLOCK, VMADDR_CID_ANY.
abbrev pub af_vsock : ℕ
af_vsock = 40

abbrev pub sock_stream : ℕ
sock_stream = 1

abbrev pub sock_cloexec : ℕ
sock_cloexec = 0x80000

abbrev pub sock_nonblock : ℕ
sock_nonblock = 0x800

abbrev pub cid_any : ℕ
cid_any = 0xffffffff

-- os.NewFile(fd, name).
pub record OsFile : Type 0 where
  pub fd : ℕ
  pub name : Text

pub record VsockAddr : Type 0 where
  pub cid : ℕ
  pub port : ℕ

abbrev pub network : VsockAddr → Text
network a = text "vsock"

unfoldable pub string : VsockAddr → Text
string a = text "vsock://" ++ (itoa a.cid ++ (text ":" ++ itoa a.port))

pub record VsockListener : Type 0 where
  pub f : OsFile
  pub port : ℕ

-- vsockListener.Addr.
abbrev pub addr : VsockListener → VsockAddr
addr l = record { cid = 0; port = l.port }

pub record VsockConn : Type 0 where
  pub f : OsFile
  pub local : VsockAddr
  pub remote : VsockAddr

-- errors.Is(e, unix.EAGAIN).
abbrev is_sentinel_again : Error → Bool
is_sentinel_again (sentinel eagain) = true
is_sentinel_again _ = false

abbrev pub is_again : Error → Bool
is_again e = is_sentinel_again (root e)

-- What accept4 returns.
abbrev pub Accepted : Type 0
Accepted = Result (ℕ × Option SockaddrVm)

module _ {K : Type 0} (kern : Kernel K) where
  -- _ = unix.Close(fd), and the error of a failed step.
  abbrev pub give_up : ℕ → Text → Error → K → Result VsockListener × K
  give_up fd step e k = (err (wrap step e), (kern.close fd k).1)

  abbrev pub listened : ℕ → ℕ → Option Error × K → Result VsockListener × K
  listened port fd (some e, k) = give_up fd (text "vsock listen: ") e k
  listened port fd (none, k) =
      (ok (record { f = record { fd = fd; name = text "vsock:" ++ itoa port }; port = port }), k)

  abbrev pub bound : ℕ → ℕ → Option Error × K → Result VsockListener × K
  bound port fd (some e, k) = give_up fd (text "vsock bind: ") e k
  bound port fd (none, k) = listened port fd (kern.listen fd 16 k)

  abbrev pub unblocked : ℕ → ℕ → Option Error × K → Result VsockListener × K
  unblocked port fd (some e, k) = give_up fd (text "vsock set nonblock: ") e k
  unblocked port fd (none, k) =
      bound port fd (kern.bind fd (record { cid = cid_any; port = port }) k)

  abbrev pub opened_socket : ℕ → Result ℕ × K → Result VsockListener × K
  opened_socket port (err e, k) = (err (wrap (text "vsock socket: ") e), k)
  opened_socket port (ok fd, k) = unblocked port fd (kern.set_nonblock fd true k)

  -- ListenVsock on Linux.
  unfoldable pub listen_vsock : ℕ → K → Result VsockListener × K
  listen_vsock port k = opened_socket port (kern.socket af_vsock (sock_stream + sock_cloexec) 0 k)

  -- The Read of the raw connection, whose function makes one accept4 and is done unless that would
  -- block: its own error, what the last accept4 returned, and the world. `none` means that the
  -- goroutine is still parked after as many calls as there is fuel.
  abbrev Read : Type 0
  Read = Option Error × Accepted × K

  abbrev pub after_wait : (K → Option Read) → Accepted → Option Error × K → Option Read
  after_wait again r (some x, k) = some (some x, r, k)
  after_wait again r (none, k) = again k

  abbrev pub after_call : (K → Option Read) → ℕ → Accepted × K → Option Read
  after_call again fd (ok conn, k) = some (none, ok conn, k)
  after_call again fd (err e, k) =
      if is_again e then after_wait again (err e) (kern.wait fd k) else some (none, err e, k)

  unfoldable pub read_loop : ℕ → ℕ → K → Option Read
  read_loop zero fd k = none
  read_loop (suc fuel) fd k =
      after_call (read_loop fuel fd) fd (kern.accept4 fd (sock_cloexec + sock_nonblock) k)

  abbrev pub remote_of : Option SockaddrVm → VsockAddr
  remote_of none = record { cid = 0; port = 0 }
  remote_of (some sa) = record { cid = sa.cid; port = sa.port }

  -- Accept once Read has returned.
  abbrev pub conn_of : VsockListener → Accepted → Result VsockConn
  conn_of l (err e) = err (wrap (text "vsock accept: ") e)
  conn_of l (ok (nfd, sa)) = ok (record {
    f = record { fd = nfd; name = text "vsock-conn:" ++ itoa nfd };
    local = addr l;
    remote = remote_of sa;
  })

  abbrev pub after_raw_read : VsockListener → Option Read → Option (Result VsockConn × K)
  after_raw_read l none = none
  after_raw_read l (some (some e, r, k)) = some (err e, k)
  after_raw_read l (some (none, r, k)) = some (conn_of l r, k)

  abbrev pub prepared : ℕ → VsockListener → Option Error × K → Option (Result VsockConn × K)
  prepared fuel l (some e, k) = some (err e, k)
  prepared fuel l (none, k) = after_raw_read l (read_loop fuel l.f.fd k)

  abbrev pub with_conn : ℕ → VsockListener → K → Option Error → Option (Result VsockConn × K)
  with_conn fuel l k (some e) = some (err e, k)
  with_conn fuel l k none = prepared fuel l (kern.prepare l.f.fd k)

  -- Accept.
  unfoldable pub accept : ℕ → VsockListener → K → Option (Result VsockConn × K)
  unfolding read_loop
  accept fuel l k = with_conn fuel l k (kern.syscall_conn l.f.fd k)

-- ListenVsock on other systems.
unfoldable pub listen_vsock_other : ℕ → Result VsockListener
listen_vsock_other port = err (plain (text "vsock listener is only available on linux"))
