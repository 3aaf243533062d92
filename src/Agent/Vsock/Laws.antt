-- ===== src/Agent/Vsock/Laws.antt =====
-- agent/vsock_linux.go: what ListenVsock returns, and the descriptors that it leaves open.
use emberbox.Prelude.{
  ℕ, ◌+◌, ap, Text, Bool, true, false, Option, none, some, ◌==◌, if◌then◌else◌, ◌≡◌, ◌⊎◌, inl, inr,
  refl, arith, ◌∙◌,
}
use emberbox.Errors.{Result, ok, err, Error}
use emberbox.Agent.Vsock.{
  SockaddrVm, Kernel, VsockListener, cid_any, give_up, listened, bound, unblocked, opened_socket,
  listen_vsock,
}

-- What the code relies on in the kernel, for the table of open descriptors: a socket or a
-- connection gets a descriptor that was free, Close frees one, and nothing else changes the table.
pub record Descriptors {K : Type 0} (kern : Kernel K) : Type 0 where
  pub is_open : K → ℕ → Bool
  pub socket_opens :
      (d t p fd j : ℕ) (k : K)
      → (kern.socket d t p k).0 ≡ ok fd
      → (is_open k fd ≡ false)
        × (is_open (kern.socket d t p k).1 j ≡ (if j == fd then true else is_open k j))
  pub socket_fails :
      (d t p j : ℕ) (e : Error) (k : K)
      → (kern.socket d t p k).0 ≡ err e
      → is_open (kern.socket d t p k).1 j ≡ is_open k j
  pub nonblock_keeps :
      (fd j : ℕ) (b : Bool) (k : K) → is_open (kern.set_nonblock fd b k).1 j ≡ is_open k j
  pub bind_keeps :
      (fd j : ℕ) (sa : SockaddrVm) (k : K) → is_open (kern.bind fd sa k).1 j ≡ is_open k j
  pub listen_keeps : (fd n j : ℕ) (k : K) → is_open (kern.listen fd n k).1 j ≡ is_open k j
  pub close_frees :
      (fd j : ℕ) (k : K) → is_open (kern.close fd k).1 j ≡ (if j == fd then false else is_open k j)
  pub accept_opens :
      (fd flags nfd j : ℕ) (sa : Option SockaddrVm) (k : K)
      → (kern.accept4 fd flags k).0 ≡ ok (nfd, sa)
      → (is_open k nfd ≡ false)
        × (is_open (kern.accept4 fd flags k).1 j ≡ (if j == nfd then true else is_open k j))
  pub accept_fails :
      (fd flags j : ℕ) (e : Error) (k : K)
      → (kern.accept4 fd flags k).0 ≡ err e
      → is_open (kern.accept4 fd flags k).1 j ≡ is_open k j
  pub prepare_keeps : (fd j : ℕ) (k : K) → is_open (kern.prepare fd k).1 j ≡ is_open k j
  pub wait_keeps : (fd j : ℕ) (k : K) → is_open (kern.wait fd k).1 j ≡ is_open k j

module _ {K : Type 0} {kern : Kernel K} (d : Descriptors kern) where
  abbrev pub SameOpen : K → K → Type 0
  SameOpen k k' = (j : ℕ) → d.is_open k' j ≡ d.is_open k j

  -- The one descriptor is new, and the others are as before.
  abbrev pub Adds : ℕ → K → K → Type 0
  Adds fd k k' =
      (d.is_open k fd ≡ false)
      × ((j : ℕ) → d.is_open k' j ≡ (if j == fd then true else d.is_open k j))

  -- The two last calls went through, on this port and any context, with room for 16 connections.
  abbrev Listens : ℕ → ℕ → K → Type 0
  Listens port fd k' =
      (b : K) × (m : K) × (kern.bind fd (record { cid = cid_any; port = port }) b ≡ (none, m))
      × (kern.listen fd 16 m ≡ (none, k'))

  abbrev pub ListenOutcome : ℕ → K → Result VsockListener × K → Type 0
  ListenOutcome port k o =
      ((e : Error) × (o.0 ≡ err e) × SameOpen k o.1)
      ⊎ ((l : VsockListener) × (o.0 ≡ ok l)
          × (l.port ≡ port)
          × Adds l.f.fd k o.1
          × Listens port l.f.fd o.1)

  give_up-ListenOutcome :
      (port fd : ℕ) (step : Text) (e : Error) (k k' : K)
      → Adds fd k k'
      → ListenOutcome port k (give_up kern fd step e k')
  give_up-ListenOutcome port fd step e k k' (fresh, others) =
      inl (_, refl, λ j. d.close_frees fd j k' ∙ closed j)
    where
      closed : (j : ℕ) → (if j == fd then false else d.is_open k' j) ≡ d.is_open k j
      closed j = ground (arith, others j, fresh)

  listened-ListenOutcome :
      (port fd : ℕ) (k b m : K) (r : Option Error × K)
      → kern.bind fd (record { cid = cid_any; port = port }) b ≡ (none, m)
      → kern.listen fd 16 m ≡ r
      → Adds fd k r.1
      → ListenOutcome port k (listened kern port fd r)
  listened-ListenOutcome port fd k b m (some e, k') binds listens adds =
      give_up-ListenOutcome port fd _ e k k' adds
  listened-ListenOutcome port fd k b m (none, k') binds listens adds =
      inr (_, refl, refl, adds, (b, m, binds, listens))

  -- A call that keeps the table keeps what is added to it.
  Adds-keep : (fd : ℕ) (k m m' : K) → SameOpen m m' → Adds fd k m → Adds fd k m'
  Adds-keep fd k m m' same (fresh, others) = (fresh, λ j. same j ∙ others j)

  bound-ListenOutcome :
      (port fd : ℕ) (k b : K) (r : Option Error × K)
      → kern.bind fd (record { cid = cid_any; port = port }) b ≡ r
      → Adds fd k r.1
      → ListenOutcome port k (bound kern port fd r)
  bound-ListenOutcome port fd k b (some e, m) binds adds =
      give_up-ListenOutcome port fd _ e k m adds
  bound-ListenOutcome port fd k b (none, m) binds adds =
      listened-ListenOutcome port fd k b m (kern.listen fd 16 m) binds refl
        (Adds-keep fd k m _ (λ j. d.listen_keeps fd 16 j m) adds)

  unblocked-ListenOutcome :
      (port fd : ℕ) (k : K) (r : Option Error × K)
      → Adds fd k r.1
      → ListenOutcome port k (unblocked kern port fd r)
  unblocked-ListenOutcome port fd k (some e, m) adds = give_up-ListenOutcome port fd _ e k m adds
  unblocked-ListenOutcome port fd k (none, m) adds =
      bound-ListenOutcome port fd k m _ refl (Adds-keep fd k m _ (λ j. d.bind_keeps fd j _ m) adds)

  opened-ListenOutcome :
      (port : ℕ) (k : K) (r : Result ℕ × K)
      → kern.socket 40 (1 + 0x80000) 0 k ≡ r
      → ListenOutcome port k (opened_socket kern port r)
  opened-ListenOutcome port k (err e, m) opens =
      inl (
        _,
        refl,
        λ j. rw (← ap (λ x. x.1) opens) (d.socket_fails _ _ _ j e k (ap (λ x. x.0) opens)),
      )
  opened-ListenOutcome port k (ok fd, m) opens =
      let at_ = ap (λ x. x.0) opens in
      let adds : Adds fd k m = (
        (d.socket_opens _ _ _ fd fd k at_).0,
        λ j. rw (← ap (λ x. x.1) opens) (d.socket_opens _ _ _ fd j k at_).1,
      ) in
      unblocked-ListenOutcome port fd k _
        (Adds-keep fd k m _ (λ j. d.nonblock_keeps fd j true m) adds)

  -- ListenVsock fails with an error and leaves the open descriptors as they were, whichever system
  -- call failed; or it returns a listener for the port on one new descriptor, the only one that it
  -- adds, which was bound to that port under any context identifier and listens with a backlog
  -- of 16.
  pub listen_vsock-ListenOutcome :
      (port : ℕ) (k : K) → ListenOutcome port k (listen_vsock kern port k)
  unfolding listen_vsock
  listen_vsock-ListenOutcome port k = opened-ListenOutcome port k _ refl
