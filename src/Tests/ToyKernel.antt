-- ===== src/Tests/ToyKernel.antt =====
-- A kernel for the listener of agent/vsock_linux.go: a table of used descriptors, the next one to
-- hand out, and how often accept4 would still block.
use emberbox.Prelude.{
  ltb, ℕ, zero, suc, ◌==◌, text, Bool, true, false, Option, none, some, if◌then◌else◌, ◌≡◌, refl,
  arith, Bool-cases, inl, inr,
}
use emberbox.Errors.{Result, ok, err, Error, plain, sentinel, eagain}
use emberbox.Agent.Vsock.{Kernel, SockaddrVm, VsockListener, Accepted}
use emberbox.Agent.Vsock.Laws.{Descriptors}

pub record Box : Type 0 where
  pub used : ℕ → Bool
  pub next : ℕ
  pub blocks : ℕ

abbrev pub take_next : Box → Box
take_next k = record k { used = λ j. if j == k.next then true else k.used j; next = suc k.next }

-- A descriptor, if the next one is free.
abbrev pub hand_out : Box → Result ℕ × Box
hand_out k =
    if k.used k.next
    then (err (plain (text "too many open files")), k)
    else (ok k.next, take_next k)

abbrev pub with_peer : Result ℕ × Box → Accepted × Box
with_peer (ok fd, k) = (ok (fd, some (record { cid = 2; port = 1024 })), k)
with_peer (err e, k) = (err e, k)

abbrev pub accept_after : ℕ → Box → Accepted × Box
accept_after zero k = with_peer (hand_out k)
accept_after (suc n) k = (err (sentinel eagain), record k { blocks = n })

abbrev pub toy_kernel : Kernel Box
toy_kernel = record {
  socket = λ d t p k. hand_out k;
  set_nonblock = λ fd b k. (none, k);
  bind = λ fd sa k. (if sa.port == 0 then some (plain (text "invalid argument")) else none, k);
  listen = λ fd n k. (none, k);
  close = λ fd k. (none, record k { used = λ j. if j == fd then false else k.used j });
  accept4 = λ fd flags k. accept_after k.blocks k;
  syscall_conn = λ fd k. none;
  prepare = λ fd k. (none, k);
  wait = λ fd k. (none, k);
}

pub hands_out :
    (fd j : ℕ) (k : Box)
    → (hand_out k).0 ≡ ok fd
    → (k.used fd ≡ false) × ((hand_out k).1.used j ≡ (if j == fd then true else k.used j))
hands_out fd j k e = elim (Bool-cases (k.used k.next)) [
  | inl taken ↦ absurd (ground (arith, taken, e))
  | inr free ↦ ground (arith, free, e)
]

pub refuses :
    (e : Error) (j : ℕ) (k : Box) → (hand_out k).0 ≡ err e → (hand_out k).1.used j ≡ k.used j
refuses e j k h = elim (Bool-cases (k.used k.next)) [
  | inl taken ↦ rw taken refl
  | inr free ↦ absurd (ground (arith, free, h))
]

pub accept_hands_out :
    (n fd j : ℕ) (sa : Option SockaddrVm) (k : Box)
    → (accept_after n k).0 ≡ ok (fd, sa)
    → (k.used fd ≡ false) × ((accept_after n k).1.used j ≡ (if j == fd then true else k.used j))
accept_hands_out (suc n) fd j sa k e = cc
accept_hands_out zero fd j sa k e = elim (Bool-cases (k.used k.next)) [
  | inl taken ↦ absurd (ground (arith, taken, e))
  | inr free ↦ ground (arith, free, e)
]

pub accept_refuses :
    (n j : ℕ) (e : Error) (k : Box)
    → (accept_after n k).0 ≡ err e
    → (accept_after n k).1.used j ≡ k.used j
accept_refuses (suc n) j e k h = refl
accept_refuses zero j e k h = elim (Bool-cases (k.used k.next)) [
  | inl taken ↦ rw taken refl
  | inr free ↦ absurd (ground (arith, free, h))
]

abbrev pub toy_kernel_descriptors : Descriptors toy_kernel
toy_kernel_descriptors = record {
  is_open = λ k j. k.used j;
  socket_opens = λ d t p fd j k e. hands_out fd j k e;
  socket_fails = λ d t p j e k h. refuses e j k h;
  nonblock_keeps = λ fd j b k. refl;
  bind_keeps = λ fd j sa k. refl;
  listen_keeps = λ fd n j k. refl;
  close_frees = λ fd j k. refl;
  accept_opens = λ fd flags nfd j sa k e. accept_hands_out k.blocks nfd j sa k e;
  accept_fails = λ fd flags j e k h. accept_refuses k.blocks j e k h;
  prepare_keeps = λ fd j k. refl;
  wait_keeps = λ fd j k. refl;
}

-- Three descriptors are in use.
abbrev pub booted : ℕ → Box
booted blocks = record { used = λ j. ltb j 3; next = 3; blocks = blocks }

abbrev pub toy_listener : VsockListener
toy_listener = record { f = record { fd = 3; name = text "vsock:10000" }; port = 10000 }
