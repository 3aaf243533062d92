-- ===== src/Sandbox/Pool/Calls.antt =====
-- The methods of sandbox/sandbox.go, one call after the other: what each returns and leaves, on
-- every branch.
use emberbox.Prelude.{
  ap, false, Bool, Bool-cases, true, text_eq_iff, text_eq_refl, Option-cases, ◌∙◌, inr, inl,
  List-cases, ◌⊎◌, ◌≡◌, refl, Text, none, some, List, [], ◌∷◌, arith, text_eq, if◌then◌else◌,
}
use emberbox.Prelude.Int.{ℤ, pos, ◌+ℤ◌, ltb_ℤ}
use emberbox.Prelude.Dict
use emberbox.Errors.{Result, ok, err, Error, wrap, Is, vm_not_found}
use emberbox.Context.{Context, EndsBy, with_timeout-EndsBy, with_timeout_keeps}
use emberbox.Sandbox.{Backend, AllocRequest}
use emberbox.Sandbox.Pool.Sections.{
  Allocation, Pool, with_defaults, take_warm, find_active, insert_active, remove_active,
}
use emberbox.Sandbox.Pool.Methods.{
  stamped, after_boot, Outcome, allocate, boot_prefix, exec_context, execute, not_found, release,
}

module _ (B : Backend) where
  pub insert_found :
      (p : Pool B) (req : AllocRequest) (h : B.Handle)
      → find_active B (insert_active B p req h) (B.id h) ≡ some (record { handle = h; req = req })
  unfolding insert_active find_active
  insert_found p req h = Dict.lookup-insert_self (B.id h) _ p.active

  take_warm-nil : (p : Pool B) (req : AllocRequest) → p.warm ≡ [] → take_warm B p req ≡ none
  unfolding take_warm
  take_warm-nil p req e = rw (e, take_warm)

  take_warm-cons :
      (p : Pool B) (req : AllocRequest) (h : B.Handle) (hs : List B.Handle)
      → p.warm ≡ h ∷ hs
      → take_warm B p req ≡ some (h, insert_active B (record p { warm = hs }) req h)
  unfolding take_warm
  take_warm-cons p req h hs e = ground arith

  -- `o` is what Allocate may leave of `p` for the completed request `req`, if a fresh boot would
  -- give `r`.
  abbrev pub IsAllocated :
      Pool B → AllocRequest → Result B.Handle → Outcome B (Result Text) → Type 0
  IsAllocated p req r o =
      ((h : B.Handle) × (o.result ≡ ok (B.id h))
        × (find_active B o.pool (B.id h) ≡ some (record { handle = h; req = req })))
      ⊎ ((e : Error) × (o.result ≡ err (wrap boot_prefix e))
          × (o.pool ≡ p)
          × (p.warm ≡ [])
          × (r ≡ err e))

  after_boot-IsAllocated :
      (p : Pool B) (req : AllocRequest) (r : Result B.Handle) (w : B.World)
      → p.warm ≡ []
      → IsAllocated p req r (after_boot B p req r w)
  after_boot-IsAllocated p req (ok h) w none_warm = inl (h, refl, insert_found p req h)
  after_boot-IsAllocated p req (err e) w none_warm = inr (e, refl, refl, none_warm, refl)

  -- A successful Allocate returns the identity of a handle that Execute then finds, with the
  -- request completed by the pool's defaults; a failed one leaves the pool as it was, found the
  -- warm pool empty, and wraps the error of the backend's Boot.
  pub allocate-IsAllocated :
      (p : Pool B) (ctx : Context) (req : AllocRequest) (w : B.World)
      → let full = with_defaults p.cfg req in
        IsAllocated p full (B.boot ctx full w).0 (allocate B p ctx req w)
  unfolding allocate
  allocate-IsAllocated p ctx req w = elim (List-cases p.warm) [
    | inl e ↦ rw (take_warm-nil p (with_defaults p.cfg req) e) (
        after_boot-IsAllocated p (with_defaults p.cfg req)
          (B.boot ctx (with_defaults p.cfg req) w).0 _ e)
    | inr (h, hs, e) ↦
        rw (take_warm-cons p (with_defaults p.cfg req) h hs e)
          (inl (h, refl, insert_found (record p { warm = hs }) (with_defaults p.cfg req) h))
  ]

  find_active-insert :
      (p : Pool B) (req : AllocRequest) (h : B.Handle) (j : Text)
      → find_active B (insert_active B p req h) j ≡ (
          if text_eq (B.id h) j then some (record { handle = h; req = req }) else find_active B p j)
  unfolding insert_active find_active
  find_active-insert p req h j = Dict.lookup-insert (B.id h) j _ p.active

  find_active-release :
      (p : Pool B) (ctx : Context) (i j : Text) (w : B.World)
      → find_active B (release B p ctx i w).0 j ≡ (if text_eq i j then none else find_active B p j)
  unfolding release remove_active find_active
  find_active-release p ctx i j w = elim (Option-cases (Dict.lookup i p.active)) [
    | inl e ↦ ground (arith, text_eq_iff i j)
    | inr (a, e) ↦ ground (arith, Dict.lookup-erase i j p.active)
  ]

  release_missing :
      (p : Pool B) (ctx : Context) (i : Text) (w : B.World)
      → find_active B p i ≡ none
      → release B p ctx i w ≡ (p, w)
  unfolding release remove_active find_active
  release_missing p ctx i w e = ground arith

  release_twice :
      (p : Pool B) (ctx later : Context) (i : Text) (w : B.World)
      → let (p', w') = release B p ctx i w in release B p' later i w' ≡ (p', w')
  release_twice p ctx later i w =
      release_missing _ later i _ (find_active-release p ctx i i w ∙ rw (text_eq_refl i))

  pub execute-active :
      (p : Pool B) (ctx : Context) (now elapsed : ℤ) (i tool input : Text) (w : B.World)
      (a : Allocation B)
      → find_active B p i ≡ some a
      → let o = execute B p ctx now elapsed i tool input w in
        (o.0 ≡ stamped elapsed (B.exec (exec_context B ctx now a) a.handle tool input w).0)
        × (o.1 ≡ (B.exec (exec_context B ctx now a) a.handle tool input w).1)
  unfolding execute
  execute-active p ctx now elapsed i tool input w a e = (ground arith, ground arith)

  -- Execute on an identity that is not active fails with an error that wraps ErrVMNotFound, and
  -- does not reach the backend. On an active one it calls the backend once, with the stored handle,
  -- and returns its result: an error wrapped, a result with a duration of 0 replaced by the time
  -- measured.
  execute_lem :
      (p : Pool B) (ctx : Context) (now elapsed : ℤ) (i tool input : Text) (w : B.World)
      → let o = execute B p ctx now elapsed i tool input w in
        ((e : Error) × (find_active B p i ≡ none) × (o ≡ (err e, w)) × Is e vm_not_found)
        ⊎ ((a : Allocation B) × (find_active B p i ≡ some a)
            × (o.0 ≡ stamped elapsed (B.exec (exec_context B ctx now a) a.handle tool input w).0)
            × (o.1 ≡ (B.exec (exec_context B ctx now a) a.handle tool input w).1))
  unfolding execute not_found
  execute_lem p ctx now elapsed i tool input w = elim (Option-cases (find_active B p i)) [
    | inl e ↦ inl (not_found i, e, ground arith, refl)
    | inr (a, e) ↦
        let called = execute-active p ctx now elapsed i tool input w a e in
        inr (a, e, called.0, called.1)
  ]

  pub exec_context-EndsBy :
      (ctx : Context) (now : ℤ) (a : Allocation B)
      → ltb_ℤ (pos 0) a.req.timeout ≡ true
      → EndsBy (exec_context B ctx now a) (now +ℤ a.req.timeout)
  unfolding exec_context
  exec_context-EndsBy ctx now a e = rw e (with_timeout-EndsBy ctx now a.req.timeout)

  -- The timeout of an allocation never puts off the caller's own deadline.
  pub exec_context_keeps :
      (ctx : Context) (now : ℤ) (a : Allocation B) (d : ℤ)
      → EndsBy ctx d
      → EndsBy (exec_context B ctx now a) d
  unfolding exec_context
  exec_context_keeps ctx now a d h = elim (Bool-cases (ltb_ℤ (pos 0) a.req.timeout)) [
    | inl e ↦ rw e (with_timeout_keeps ctx now a.req.timeout d h)
    | inr e ↦ rw e h
  ]

  execute-release :
      (p : Pool B) (rel ctx : Context) (now elapsed : ℤ) (i tool input : Text) (w : B.World)
      → let (p', w') = release B p rel i w in
        (e : Error) × (execute B p' ctx now elapsed i tool input w' ≡ (err e, w'))
        × Is e vm_not_found
  unfolding execute not_found
  execute-release p rel ctx now elapsed i tool input w =
      let gone : find_active B (release B p rel i w).0 i ≡ none =
        find_active-release p rel i i w ∙ rw (text_eq_refl i) in
      (not_found i, ground arith, refl)

  -- Release forgets its identity and no other; a second Release of it changes nothing, in the pool
  -- or in the backend; and Execute on it fails with an error that wraps ErrVMNotFound and does not
  -- reach the backend.
  pub release_lem :
      (p : Pool B) (ctx later : Context) (now elapsed : ℤ) (i j tool input : Text) (w : B.World)
      → let (p', w') = release B p ctx i w in
        (find_active B p' j ≡ (if text_eq i j then none else find_active B p j))
        × (release B p' later i w' ≡ (p', w'))
        × (e : Error) × (execute B p' later now elapsed i tool input w' ≡ (err e, w'))
        × Is e vm_not_found
  release_lem p ctx later now elapsed i j tool input w =
      let (e, fails, missing) = execute-release p ctx later now elapsed i tool input w in
      (find_active-release p ctx i j w, release_twice p ctx later i w, e, fails, missing)

  insert-release :
      (p : Pool B) (req : AllocRequest) (h : B.Handle) (ctx : Context) (w : B.World) (j : Text)
      → find_active B p (B.id h) ≡ none
      → find_active B (release B (insert_active B p req h) ctx (B.id h) w).0 j ≡ find_active B p j
  insert-release p req h ctx w j e =
      rw (find_active-release (insert_active B p req h) ctx (B.id h) j w)
        (ground (arith, find_active-insert p req h j, text_eq_iff (B.id h) j))

  abbrev IsRestored : Pool B → Context → Outcome B (Result Text) → Type 0
  IsRestored p ctx o =
      (i j : Text)
      → o.result ≡ ok i
      → find_active B p i ≡ none
      → find_active B (release B o.pool ctx i o.world).0 j ≡ find_active B p j

  inserted-IsRestored :
      (p q : Pool B) (req : AllocRequest) (h : B.Handle) (ctx : Context) (w : B.World) (s : Bool)
      → q.active ≡ p.active
      → IsRestored p ctx
          (record { result = ok (B.id h); pool = insert_active B q req h; world = w; spawned = s })
  unfolding find_active
  inserted-IsRestored p q req h ctx w s same i j e fresh =
      let at_i : B.id h ≡ i = cc in
      let as_before = λ (k : Text). ap (Dict.lookup k) same in
      rw (← at_i) (
        insert-release q req h ctx w j (as_before (B.id h) ∙ ap (find_active B p) at_i ∙ fresh)
        ∙ as_before j)

  after_boot-IsRestored :
      (p : Pool B) (ctx : Context) (req : AllocRequest) (r : Result B.Handle) (w : B.World)
      → IsRestored p ctx (after_boot B p req r w)
  after_boot-IsRestored p ctx req (ok h) w = inserted-IsRestored p p req h ctx w false refl
  after_boot-IsRestored p ctx req (err x) w = λ i j e fresh. cc

  allocate-IsRestored :
      (p : Pool B) (ctx : Context) (req : AllocRequest) (w : B.World)
      → IsRestored p ctx (allocate B p ctx req w)
  unfolding allocate
  allocate-IsRestored p ctx req w =
      let full = with_defaults p.cfg req in
      elim (List-cases p.warm) [
        | inl e ↦
            rw (take_warm-nil p full e)
              (after_boot-IsRestored p ctx full (B.boot ctx full w).0 (B.boot ctx full w).1)
        | inr (h, hs, e) ↦
            rw (take_warm-cons p full h hs e)
              (inserted-IsRestored p (record p { warm = hs }) full h ctx w true refl)
      ]

  -- Allocate and then Release: if the identity was not active before, the pool answers for every
  -- identity as it did at first.
  release-allocate :
      (p : Pool B) (ctx : Context) (req : AllocRequest) (w : B.World) (i j : Text)
      → (allocate B p ctx req w).result ≡ ok i
      → find_active B p i ≡ none
      → let o = allocate B p ctx req w in
        find_active B (release B o.pool ctx i o.world).0 j ≡ find_active B p j
  release-allocate p ctx req w i j e fresh = allocate-IsRestored p ctx req w i j e fresh
