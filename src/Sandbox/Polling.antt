-- ===== src/Sandbox/Polling.antt =====
-- The loop that waitForSocket of sandbox/firecracker_api.go and waitForVsockAgent of
-- sandbox/agentclient.go share: probe, then wait for the ticker or for the end of the context.
use emberbox.Prelude.{
  inr, arith, inl, Option-cases, ◌⊎◌, ◌≤◌, ◌≡◌, refl, ℕ, zero, suc, Option, none, some, List, [],
  ◌∷◌, ◌++◌, replicate,
}
use emberbox.Errors.{Error}

-- What a `select` on the ticker and on ctx.Done() takes.
pub data Wake : Type 0 where
  tick : Wake
  done : Error → Wake

module _ {W : Type 0} (probe : W → Option Error × W) (expired : Error → Error) where
  -- The end of the loop, if the given wakes reach one: nothing, or the error that it returns.
  unfoldable pub poll : List Wake → W → Option (Option Error × W)
  poll [] w = let (r, w') = probe w in elim r [ none ↦ some (none, w') | some e ↦ none ]
  poll (tick ∷ wakes) w =
      let (r, w') = probe w in
      let rest = poll wakes w' in elim r [ none ↦ some (none, w') | some e ↦ rest ]
  poll (done cause ∷ wakes) w =
      let (r, w') = probe w in
      some (elim r [ none ↦ (none, w') | some e ↦ (some (expired cause), w') ])

  -- The loop under a context that ends with `cause` at wait number `n`, counted from 0.
  unfoldable pub poll_until : ℕ → Error → W → Option Error × W
  poll_until zero cause w =
      let (r, w') = probe w in elim r [ none ↦ (none, w') | some e ↦ (some (expired cause), w') ]
  poll_until (suc n) cause w =
      let (r, w') = probe w in
      let rest = poll_until n cause w' in elim r [ none ↦ (none, w') | some e ↦ rest ]

  poll-poll_until :
      (n : ℕ) (cause : Error) (rest : List Wake) (w : W)
      → poll (replicate n tick ++ done cause ∷ rest) w ≡ some (poll_until n cause w)
  unfolding poll poll_until
  poll-poll_until zero cause rest w = elim (Option-cases (probe w).0) [
    | inl e ↦ rw (poll, poll_until, e) refl
    | inr (x, e) ↦ rw (poll, poll_until, e) refl
  ]
  poll-poll_until (suc n) cause rest w = elim (Option-cases (probe w).0) [
    | inl e ↦ rw (poll, poll_until, e) refl
    | inr (x, e) ↦ rw (poll, poll_until, e) (poll-poll_until n cause rest (probe w).1)
  ]

  -- The world after `n` probes.
  abbrev pub probed : ℕ → W → W
  probed zero w = w
  probed (suc n) w = probed n (probe w).1

  -- The next `n` probes fail.
  abbrev pub AllFail : ℕ → W → Type 0
  AllFail zero w = Unit
  AllFail (suc n) w = ((e : Error) × ((probe w).0 ≡ some e)) × AllFail n (probe w).1

  -- A loop whose context ends at its wait number `n`, counted from 0, returns: it is ready right
  -- after the first probe that succeeds, if one of the first `n + 1` does, and else returns the
  -- error of the context after `n + 1` probes.
  pub poll_lem :
      (n : ℕ) (cause : Error) (rest : List Wake) (w : W)
      → ((i : ℕ) × (i ≤ n)
          × AllFail i w
          × ((probe (probed i w)).0 ≡ none)
          × (poll (replicate n tick ++ done cause ∷ rest) w ≡ some (none, probed (suc i) w)))
        ⊎ (AllFail (suc n) w
            × (poll (replicate n tick ++ done cause ∷ rest) w
                ≡ some (some (expired cause), probed (suc n) w)))
  unfolding poll
  poll_lem zero cause rest w = elim (Option-cases (probe w).0) [
    | inl e ↦ inl (zero, omega arith, tt, e, rw e refl)
    | inr (x, e) ↦ inr (((x, e), tt), rw e refl)
  ]
  poll_lem (suc n) cause rest w = elim (Option-cases (probe w).0) [
    | inl e ↦ inl (zero, omega arith, tt, e, rw e refl)
    | inr (x, e) ↦ elim (poll_lem n cause rest (probe w).1) [
      | inl (i, below, fails, hit, same) ↦ inl (suc i, omega arith, ((x, e), fails), hit, rw e same)
      | inr (fails, same) ↦ inr (((x, e), fails), rw e same)
    ]
  ]
