-- ===== src/Sandbox/Pool/Targets/Histories.antt =====
-- sandbox/sandbox.go: the sandbox that an Execute calls the backend for, after any history.
use mathlib.Core.Option.{some-injective}
use emberbox.Prelude.{
  All-get_elem?, ℕ, zero, suc, ◌+◌, ◌≤◌, ◌<◌, ◌≡◌, ◌⊎◌, ap, inl, inr, Text, some, List, [], ◌∷◌,
  ◌++◌, arith, All, All-append, All-set, All-imp, get_elem?, set, Option-cases,
}
use emberbox.Prelude.Dict
use emberbox.Sandbox.{Backend, IssuesFreshIds}
use emberbox.Sandbox.Pool.Sections.{Allocation, PoolConfig}
use emberbox.Sandbox.Pool.Threads.{
  Call, allocate_call, execute_call, release_call, shutdown_call, dispatches, destroys, ExecCall,
  Thread, System, Event, arrives, runs, advance, absorb, begin, step, run,
}
use emberbox.Sandbox.Pool.Ownership.{run-Inv, Inv, step-Inv, held-le-threads}
use emberbox.Sandbox.Pool.Ownership.Counts.{count, count-append, lookup_keyed, count-nil}
use emberbox.Sandbox.Pool.Ownership.Steps.{IsSound, held, count_all, count_threads}
use emberbox.Sandbox.Pool.Histories.{opened, opened-Inv}
use emberbox.Sandbox.Pool.Targets.{
  doomed, doomed-le, advance-StaysOrDoomed, IsFound, advance-IsFound, active-counted,
}

module _ (B : Backend) where
  abbrev pub count_doomed : Text → List (Thread B) → ℕ
  count_doomed t [] = 0
  count_doomed t (th ∷ ths) = count B t (doomed B th) + count_doomed t ths

  -- How often an identity is met among the handles that were taken out of the pool to be destroyed.
  abbrev pub count_removed : Text → System B → ℕ
  count_removed t s = count_doomed t s.threads + count B t s.destroyed

  pub count_doomed-append :
      (t : Text) (xs ys : List (Thread B))
      → count_doomed t (xs ++ ys) ≡ count_doomed t xs + count_doomed t ys
  count_doomed-append t [] ys = omega arith
  count_doomed-append t (x ∷ xs) ys = omega (arith, count_doomed-append t xs ys)

  -- Replacing a goroutine by one that is to destroy no less.
  count_doomed-set :
      (t : Text) (ths : List (Thread B)) (i : ℕ) (old new : Thread B)
      → get_elem? ths i ≡ some old
      → (count_doomed t (set ths i new) + count B t (doomed B old)
          ≡ count_doomed t ths + count B t (doomed B new))
        × (count B t (doomed B old) ≤ count_doomed t ths)
  count_doomed-set t [] i old new e = cc
  count_doomed-set t (x ∷ ths) zero old new e =
      let same = ap (λ th. count B t (doomed B th)) (some-injective x old e) in
      (omega (arith, same), omega (arith, same))
  count_doomed-set t (x ∷ ths) (suc i) old new e =
      let (sum, part) = count_doomed-set t ths i old new e in
      (omega (arith, sum), omega (arith, part))

  -- A goroutine about to call the backend has the handle with the identity that the client gave,
  -- which is active, or was taken out to be destroyed.
  abbrev pub OnTarget : System B → Thread B → Type 0
  OnTarget s (dispatches c a) =
      (B.id a.handle ≡ c.id)
      × ((Dict.lookup c.id s.pool.active ≡ some a) ⊎ (0 < count_removed c.id s))
  OnTarget s _ = Unit

  found-OnTarget :
      (s : System B) (th : Thread B) → IsSound B s.pool → IsFound B s.pool th → OnTarget s th
  found-OnTarget s (dispatches c a) v found =
      (lookup_keyed B c.id a s.pool.active v.keyed found, inl found)
  found-OnTarget s _ v found = tt

  pub removed-absorb :
      (t : Text) (s : System B) (i : ℕ) (th : Thread B)
      → get_elem? s.threads i ≡ some th
      → let m = advance B s.pool s.world th in
        (count_removed t s ≤ count_removed t (absorb B s i m))
        × (count B t (doomed B m.thread) ≤ count_removed t (absorb B s i m))
  removed-absorb t s i th e =
      let m = advance B s.pool s.world th in
      let (sum, part) = count_doomed-set t s.threads i th m.thread e in
      let spawned = count_doomed-append t (set s.threads i m.thread) m.spawned in
      let dead = count-append B t m.destroyed s.destroyed in
      let more = doomed-le B t s.pool s.world th in
      (omega (arith, sum, part, spawned, dead, more), omega (arith, sum, part, spawned, dead))

  kept-OnTarget :
      (s : System B) (i : ℕ) (th : Thread B)
      → get_elem? s.threads i ≡ some th
      → IsSound B s.pool
      → ((x : Text) → count_all B x s.pool th ≤ 1)
      → (other : Thread B) → OnTarget s other
      → OnTarget (absorb B s i (advance B s.pool s.world th)) other
  kept-OnTarget s i th e v one (dispatches c a) (own, inl active) = (
    own,
    elim (advance-StaysOrDoomed B c.id s.pool s.world th v one a active) [
      | inl stays ↦ inl stays
      | inr taken ↦ inr (omega (arith, taken, (removed-absorb c.id s i th e).1))
    ],
  )
  kept-OnTarget s i th e v one (dispatches c a) (own, inr removed) =
      (own, inr (omega (arith, removed, (removed-absorb c.id s i th e).0)))
  kept-OnTarget s i th e v one _ target = tt

  begin-OnTarget : (s : System B) (c : Call) → OnTarget s (begin B c)
  begin-OnTarget s (allocate_call ctx req) = tt
  begin-OnTarget s (execute_call x) = tt
  begin-OnTarget s (release_call ctx i) = tt
  begin-OnTarget s (shutdown_call ctx) = tt

  arrived-OnTarget :
      (s : System B) (c : Call) (th : Thread B) → OnTarget s th → OnTarget (step B s (arrives c)) th
  unfolding step
  arrived-OnTarget s c (dispatches x a) (own, inl active) = (own, inl active)
  arrived-OnTarget s c (dispatches x a) (own, inr removed) =
      (own, inr (omega (arith, removed, count_doomed-append x.id s.threads (begin B c ∷ []))))
  arrived-OnTarget s c _ target = tt

  -- What is to be destroyed is held.
  doomed-le-held : (t : Text) (th : Thread B) → count B t (doomed B th) ≤ count B t (held B th)
  doomed-le-held t (destroys ctx hs) = omega arith
  doomed-le-held t _ = omega (arith, count-nil B t)

  count_doomed-le : (t : Text) (ths : List (Thread B)) → count_doomed t ths ≤ count_threads B t ths
  count_doomed-le t [] = omega arith
  count_doomed-le t (th ∷ ths) = omega (arith, doomed-le-held t th, count_doomed-le t ths)

module _ (B : Backend) (L : IssuesFreshIds B) where
  moved-OnTarget :
      (s : System B) (i : ℕ) (th : Thread B)
      → Inv B L s
      → Inv B L (absorb B s i (advance B s.pool s.world th))
      → get_elem? s.threads i ≡ some th
      → All (OnTarget B s) s.threads
      → let t = absorb B s i (advance B s.pool s.world th) in All (OnTarget B t) t.threads
  moved-OnTarget s i th v v' e on =
      let m = advance B s.pool s.world th in
      let t = absorb B s i m in
      let one : (x : Text) → count_all B x s.pool th ≤ 1 =
        λ x. omega (arith, v.placed x, v.once x, held-le-threads B x s.threads i th e) in
      let (own, spawned) = advance-IsFound B s.pool s.world th in
      let kept =
        All-imp (OnTarget B s) (OnTarget B t) (kept-OnTarget B s i th e v.sound one) s.threads on in
      All-append (OnTarget B t) (set s.threads i m.thread) m.spawned
        (All-set (OnTarget B t) s.threads i m.thread kept
          (found-OnTarget B t m.thread v'.sound own))
        (All-imp (IsFound B m.pool) (OnTarget B t) (λ x. found-OnTarget B t x v'.sound) m.spawned
          spawned)

  step-OnTarget :
      (s : System B) (e : Event)
      → Inv B L s
      → Inv B L (step B s e)
      → All (OnTarget B s) s.threads
      → All (OnTarget B (step B s e)) (step B s e).threads
  unfolding step
  step-OnTarget s (arrives c) v v' on =
      let t = step B s (arrives c) in
      All-append (OnTarget B t) s.threads (begin B c ∷ [])
        (All-imp (OnTarget B s) (OnTarget B t) (arrived-OnTarget B s c) s.threads on)
        (begin-OnTarget B t c, tt)
  step-OnTarget s (runs i) v v' on = elim (Option-cases (get_elem? s.threads i)) [
    | inl e ↦ rw e on
    | inr (th, e) ↦ rw e (moved-OnTarget s i th v (rw e at v') e on)
  ]

  run-OnTarget :
      (s : System B) (es : List Event)
      → Inv B L s
      → All (OnTarget B s) s.threads
      → All (OnTarget B (run B s es)) (run B s es).threads
  unfolding run
  run-OnTarget s [] v on = on
  run-OnTarget s (e ∷ es) v on =
      run-OnTarget (step B s e) es (step-Inv B L s e v)
        (step-OnTarget s e v (step-Inv B L s e v) on)

  counted-booted :
      (s : System B) (i : Text) (a : Allocation B)
      → Inv B L s
      → (Dict.lookup i s.pool.active ≡ some a) ⊎ (0 < count_removed B i s)
      → count B i s.booted ≡ 1
  counted-booted s i a v (inl active) =
      omega (arith, v.placed i, v.once i, active-counted B i a s.pool v.sound active)
  counted-booted s i a v (inr removed) =
      omega (arith, removed, v.placed i, v.once i, count_doomed-le B i s.threads)

  -- Under every interleaving, when an Execute is about to call the backend, the handle that it
  -- found has the ID that the client gave, and one sandbox was booted under that ID. Either the
  -- pool still holds this allocation under the ID, or a Release or Shutdown has meanwhile taken
  -- that sandbox out, and destroyed it or is about to.
  pub execute-OnTarget :
      (cfg : PoolConfig) (w : B.World) (es : List Event) (j : ℕ) (c : ExecCall) (a : Allocation B)
      → let s = run B (opened B cfg w) es in
        get_elem? s.threads j ≡ some (dispatches c a)
        → (B.id a.handle ≡ c.id)
          × (count B c.id s.booted ≡ 1)
          × ((Dict.lookup c.id s.pool.active ≡ some a) ⊎ (0 < count_removed B c.id s))
  unfolding opened
  execute-OnTarget cfg w es j c a e =
      let s = run B (opened B cfg w) es in
      let v = run-Inv B L (opened B cfg w) es (opened-Inv B L cfg w) in
      let (own, found) =
        All-get_elem? (OnTarget B s) s.threads j (dispatches c a) e
          (run-OnTarget (opened B cfg w) es (opened-Inv B L cfg w) tt) in
      (own, counted-booted s c.id a v found, found)
