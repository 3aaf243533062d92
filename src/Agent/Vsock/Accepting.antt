-- ===== src/Agent/Vsock/Accepting.antt =====
-- agent/vsock_linux.go: what Accept returns, however often the poller wakes it for nothing.
use mathlib.Core.Path.{subst}
use emberbox.Prelude.{
  sym, ℕ, ◌+◌, zero, suc, ◌<◌, ap, true, false, Option, none, some, ◌≡◌, inl, inr, refl, ◌∙◌, arith,
  Bool-cases,
}
use emberbox.Errors.{Result, ok, err, Error}
use emberbox.Agent.Vsock.{
  Kernel, VsockListener, VsockConn, addr, conn_of, is_again, read_loop, accept, after_raw_read,
  Accepted, after_wait, after_call, prepared, with_conn, sock_cloexec, sock_nonblock,
}
use emberbox.Agent.Vsock.Laws.{Descriptors, SameOpen, Adds}

abbrev pub accept_flags : ℕ
accept_flags = sock_cloexec + sock_nonblock

-- accept4 returned this for good: a connection, or an error other than EAGAIN.
abbrev pub IsFinal : Accepted → Type 0
IsFinal (ok conn) = Unit {0}
IsFinal (err e) = is_again e ≡ false

module _ {K : Type 0} (kern : Kernel K) (fd : ℕ) where
  -- From the world `k`, the poller wakes the goroutine `n` times for nothing; then accept4 returns
  -- `r` and leaves the world `k'`.
  pub data Comes : ℕ → K → Accepted → K → Type 0 where
    at_once :
        (k k' : K) (r : Accepted)
        → kern.accept4 fd accept_flags k ≡ (r, k')
        → IsFinal r
        → Comes 0 k r k'
    woken :
        (n : ℕ) (k k₁ k₂ k' : K) (r : Accepted) (e : Error)
        → kern.accept4 fd accept_flags k ≡ (err e, k₁)
        → is_again e ≡ true
        → kern.wait fd k₁ ≡ (none, k₂)
        → Comes n k₂ r k'
        → Comes (suc n) k r k'

  after_call-final :
      (again : K → Option (Option Error × Accepted × K)) (r : Accepted) (k : K)
      → IsFinal r
      → after_call kern again fd (r, k) ≡ some (none, r, k)
  after_call-final again (ok conn) k final = refl
  after_call-final again (err e) k final = rw final refl

  read_loop-Comes :
      (n fuel : ℕ) (k k' : K) (r : Accepted)
      → Comes n k r k'
      → n < fuel
      → read_loop kern fuel fd k ≡ some (none, r, k')
  unfolding read_loop
  read_loop-Comes n zero k k' r c lt = elim lt [ ]
  read_loop-Comes zero (suc fuel) k k' r (at_once _ _ _ called final) lt =
      ap (after_call kern (read_loop kern fuel fd) fd) called ∙ after_call-final _ r k' final
  read_loop-Comes (suc n) (suc fuel) k k' r (woken _ _ k₁ k₂ _ _ e called again waited c) lt =
      ap (after_call kern (read_loop kern fuel fd) fd) called
      ∙ (rw again (ap (after_wait kern (read_loop kern fuel fd) (err e)) waited)
          ∙ read_loop-Comes n fuel k₂ k' r c (omega arith))

module _ {K : Type 0} (kern : Kernel K) (l : VsockListener) where
  accept-Comes :
      (n fuel : ℕ) (k k₀ k' : K) (r : Accepted)
      → kern.syscall_conn l.f.fd k ≡ none
      → kern.prepare l.f.fd k ≡ (none, k₀)
      → Comes kern l.f.fd n k₀ r k'
      → n < fuel
      → accept kern fuel l k ≡ some (conn_of kern l r, k')
  unfolding accept
  accept-Comes n fuel k k₀ k' r is_file ready c lt =
      ap (with_conn kern fuel l k) is_file
      ∙ (ap (prepared kern fuel l) ready
          ∙ ap (after_raw_read kern l) (read_loop-Comes kern l.f.fd n fuel k₀ k' r c lt))

module _ {K : Type 0} {kern : Kernel K} (d : Descriptors kern) where
  abbrev ReadKeeps : K → Option (Option Error × Accepted × K) → Type 0
  ReadKeeps k none = Unit {0}
  ReadKeeps k (some (x, err e, k')) = SameOpen d k k'
  ReadKeeps k (some (some x, ok _, k')) = ⊥
  ReadKeeps k (some (none, ok (nfd, sa), k')) = Adds d nfd k k'

  ReadKeeps-later :
      (k m : K) (o : Option (Option Error × Accepted × K))
      → SameOpen d k m
      → ReadKeeps m o
      → ReadKeeps k o
  ReadKeeps-later k m none same kept = tt
  ReadKeeps-later k m (some (none, err e, k')) same kept = λ j. kept j ∙ same j
  ReadKeeps-later k m (some (some x, err e, k')) same kept = λ j. kept j ∙ same j
  ReadKeeps-later k m (some (some x, ok _, k')) same kept = kept
  ReadKeeps-later k m (some (none, ok (nfd, sa), k')) same (fresh, others) =
      (sym (same nfd) ∙ fresh, λ j. others j ∙ rw (same j) refl)

  wait-ReadKeeps :
      (again : K → Option (Option Error × Accepted × K)) (fd : ℕ) (e : Error) (k : K)
      (r : Option Error × K)
      → SameOpen d k r.1
      → ((m : K) → ReadKeeps m (again m))
      → ReadKeeps k (after_wait kern again (err e) r)
  wait-ReadKeeps again fd e k (some x, m) same later = same
  wait-ReadKeeps again fd e k (none, m) same later = ReadKeeps-later k m (again m) same (later m)

  call-ReadKeeps :
      (again : K → Option (Option Error × Accepted × K)) (fd : ℕ) (k : K) (r : Accepted × K)
      → kern.accept4 fd accept_flags k ≡ r
      → ((m : K) → ReadKeeps m (again m))
      → ReadKeeps k (after_call kern again fd r)
  call-ReadKeeps again fd k (ok (nfd, sa), m) called later =
      let at_ = ap (λ x. x.0) called in
      (
        (d.accept_opens fd accept_flags nfd nfd sa k at_).0,
        λ j. rw (← ap (λ x. x.1) called) (d.accept_opens fd accept_flags nfd j sa k at_).1,
      )
  call-ReadKeeps again fd k (err e, m) called later =
      let same : SameOpen d k m = λ j.
        rw (← ap (λ x. x.1) called) (d.accept_fails fd accept_flags j e k (ap (λ x. x.0) called)) in
      elim (Bool-cases (is_again e)) [
        | inl would_block ↦
            rw would_block (
              wait-ReadKeeps again fd e k (kern.wait fd m) (λ j. d.wait_keeps fd j m ∙ same j)
                later)
        | inr final ↦ rw final same
      ]

  read_loop-ReadKeeps : (fuel fd : ℕ) (k : K) → ReadKeeps k (read_loop kern fuel fd k)
  unfolding read_loop
  read_loop-ReadKeeps zero fd k = tt
  read_loop-ReadKeeps (suc fuel) fd k =
      call-ReadKeeps (read_loop kern fuel fd) fd k _ refl (read_loop-ReadKeeps fuel fd)

  -- What Accept may return of a listener, once it does.
  abbrev pub AcceptOutcome : VsockListener → K → Option (Result VsockConn × K) → Type 0
  AcceptOutcome l k none = Unit {0}
  AcceptOutcome l k (some (err e, k')) = SameOpen d k k'
  AcceptOutcome l k (some (ok c, k')) = (c.local ≡ addr l) × Adds d c.f.fd k k'

  read-AcceptOutcome :
      (l : VsockListener) (k : K) (o : Option (Option Error × Accepted × K))
      → ReadKeeps k o
      → AcceptOutcome l k (after_raw_read kern l o)
  read-AcceptOutcome l k none kept = tt
  read-AcceptOutcome l k (some (some x, err e, k')) kept = kept
  read-AcceptOutcome l k (some (some x, ok _, k')) kept = absurd kept
  read-AcceptOutcome l k (some (none, err e, k')) kept = kept
  read-AcceptOutcome l k (some (none, ok (nfd, sa), k')) kept = (refl, kept)

  prepared-AcceptOutcome :
      (fuel : ℕ) (l : VsockListener) (k : K) (r : Option Error × K)
      → SameOpen d k r.1
      → AcceptOutcome l k (prepared kern fuel l r)
  prepared-AcceptOutcome fuel l k (some e, m) same = same
  prepared-AcceptOutcome fuel l k (none, m) same =
      read-AcceptOutcome l k (read_loop kern fuel l.f.fd m)
        (ReadKeeps-later k m _ same (read_loop-ReadKeeps fuel l.f.fd m))

  conn-AcceptOutcome :
      (fuel : ℕ) (l : VsockListener) (k : K) (o : Option Error)
      → AcceptOutcome l k (with_conn kern fuel l k o)
  conn-AcceptOutcome fuel l k (some e) = λ j. refl
  conn-AcceptOutcome fuel l k none =
      prepared-AcceptOutcome fuel l k (kern.prepare l.f.fd k) (λ j. d.prepare_keeps l.f.fd j k)

  accept-AcceptOutcome :
      (fuel : ℕ) (l : VsockListener) (k : K) → AcceptOutcome l k (accept kern fuel l k)
  unfolding accept
  accept-AcceptOutcome fuel l k = conn-AcceptOutcome fuel l k (kern.syscall_conn l.f.fd k)

  -- While the listener is open, Accept returns as soon as accept4 returns a connection or an error
  -- other than EAGAIN, after any number of times that the poller woke it for nothing. On an error
  -- it returns that, wrapped, and leaves the open descriptors as they were; on a connection it
  -- returns that, with the address of its peer, and has added its descriptor and no other.
  pub accept_lem :
      (l : VsockListener) (n fuel : ℕ) (k k₀ k' : K) (r : Accepted)
      → kern.syscall_conn l.f.fd k ≡ none
      → kern.prepare l.f.fd k ≡ (none, k₀)
      → Comes kern l.f.fd n k₀ r k'
      → n < fuel
      → (accept kern fuel l k ≡ some (conn_of kern l r, k'))
        × AcceptOutcome l k (some (conn_of kern l r, k'))
  accept_lem l n fuel k k₀ k' r is_file ready c lt =
      let returns = accept-Comes kern l n fuel k k₀ k' r is_file ready c lt in
      (returns, subst (AcceptOutcome l k) returns (accept-AcceptOutcome fuel l k))
