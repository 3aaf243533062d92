-- ===== src/Sandbox/Pool/Ownership.antt =====
-- Who owns a sandbox of sandbox/sandbox.go while calls interleave: each handle that Boot returned
-- is in one place, whatever the schedule.
pub mod Counts
pub mod Steps
pub mod Fresh
use mathlib.Core.Path.{subst}
use native.Mathlib.Decide.{dec_lt}
use mathlib.Core.Option.{some-injective}
use emberbox.Prelude.{
  ap, Bool-cases, text_eq, text_eq_iff, ◌∙◌, ap, ℕ, zero, suc, ◌+◌, ◌≤◌, ◌<◌, ◌≡◌, refl, sym, inl,
  inr, Text, some, List, [], ◌∷◌, ◌++◌, arith, set, get_elem?, Option-cases,
}
use emberbox.Sandbox.{Backend, IssuesFreshIds}
use emberbox.Sandbox.Pool.Threads.{
  begin, Call, allocate_call, execute_call, release_call, shutdown_call, absorb, Thread, Move,
  advance, System, Event, arrives, runs, step, run,
}
use Counts.{count, count_active, count-append, count-cons, count-nil}
use Steps.{held, count_all, IsSound, count_threads, IsBalanced, advance-IsBalanced}
use Fresh.{IsFresh, advance-IsFresh}
use emberbox.Prelude.Tally.{miss, hit-le}

module _ (B : Backend) where
  count_threads-append :
      (t : Text) (xs ys : List (Thread B))
      → count_threads B t (xs ++ ys) ≡ count_threads B t xs + count_threads B t ys
  count_threads-append t [] ys = omega arith
  count_threads-append t (x ∷ xs) ys = omega (arith, count_threads-append t xs ys)

  count_threads-set :
      (t : Text) (ths : List (Thread B)) (i : ℕ) (old new : Thread B)
      → get_elem? ths i ≡ some old
      → count_threads B t (set ths i new) + count B t (held B old)
        ≡ count_threads B t ths + count B t (held B new)
  count_threads-set t [] i old new e = cc
  count_threads-set t (x ∷ ths) zero old new e =
      omega (arith, ap (λ th. count B t (held B th)) (some-injective x old e))
  count_threads-set t (x ∷ ths) (suc i) old new e =
      omega (arith, count_threads-set t ths i old new e)

  -- How often an identity is met in a system: warm, active, held by a goroutine, or destroyed.
  abbrev pub count_places : Text → System B → ℕ
  count_places t s =
      count B t s.pool.warm
      + count_active B t s.pool.active
      + count_threads B t s.threads
      + count B t s.destroyed

  -- One step of a goroutine, as it moves an identity between the places of a system.
  step_places :
      (t : Text) (s : System B) (i : ℕ) (th : Thread B)
      → get_elem? s.threads i ≡ some th
      → (m : Move B) → IsBalanced B t s.pool th m
      → count_places t (absorb B s i m) + count B t s.booted
        ≡ count_places t s + count B t (absorb B s i m).booted
  step_places t s i th e m (moves, _, spawned) = omega (
    arith,
    moves,
    spawned,
    count_threads-set t s.threads i th m.thread e,
    count_threads-append t (set s.threads i m.thread) m.spawned,
    count-append B t m.booted s.booted,
    count-append B t m.destroyed s.destroyed,
  )

  pub held-le-threads :
      (t : Text) (ths : List (Thread B)) (i : ℕ) (th : Thread B)
      → get_elem? ths i ≡ some th
      → count B t (held B th) ≤ count_threads B t ths
  held-le-threads t [] i th e = cc
  held-le-threads t (x ∷ ths) zero th e =
      omega (arith, ap (λ y. count B t (held B y)) (some-injective x th e))
  held-le-threads t (x ∷ ths) (suc i) th e = omega (arith, held-le-threads t ths i th e)

module _ (B : Backend) (L : IssuesFreshIds B) where
  -- Each identity that was booted is in exactly one place, was issued by the backend, and was
  -- booted once.
  pub record Inv (s : System B) : Type 0 where
    pub sound : IsSound B s.pool
    pub placed : (t : Text) → count_places B t s ≡ count B t s.booted
    pub once : (t : Text) → count B t s.booted ≤ 1
    pub issued : (t : Text) → 0 < count B t s.booted → L.Issued s.world t

  pub uncounted :
      (w : B.World) (x : Text) (booted : List B.Handle)
      → ((t : Text) → 0 < count B t booted → L.Issued w t)
      → ¬ L.Issued w x
      → count B x booted ≡ 0
  uncounted w x booted issued fresh = elim (dec_lt 0 (count B x booted)) [
    | yes p ↦ absurd (fresh (issued x p))
    | no p ↦ omega arith
  ]

  pub booted_once :
      (x t : Text) (h : B.Handle) (booted : List B.Handle)
      → B.id h ≡ x
      → count B t booted ≤ 1
      → count B x booted ≡ 0
      → count B t (h ∷ booted) ≤ 1
  booted_once x t h booted e one none_yet = elim (Bool-cases (text_eq (B.id h) t)) [
    | inl same ↦
        let at_t : x ≡ t = sym e ∙ (text_eq_iff (B.id h) t).0 same in
        omega (arith, ap (λ y. count B y booted) at_t, count-cons B t h booted, hit-le t (B.id h))
    | inr other ↦ omega (arith, count-cons B t h booted, miss t (B.id h) other)
  ]

  pub booted_issued :
      (w : B.World) (t : Text) (h : B.Handle) (booted : List B.Handle)
      → L.Issued w (B.id h)
      → (0 < count B t booted → L.Issued w t)
      → 0 < count B t (h ∷ booted)
      → L.Issued w t
  booted_issued w t h booted now old more = elim (Bool-cases (text_eq (B.id h) t)) [
    | inl same ↦ subst (L.Issued w) ((text_eq_iff (B.id h) t).0 same) now
    | inr other ↦ old (omega (arith, count-cons B t h booted, miss t (B.id h) other))
  ]

  moved_once :
      (w : B.World) (m : Move B) (booted : List B.Handle)
      → ((t : Text) → count B t booted ≤ 1)
      → ((t : Text) → 0 < count B t booted → L.Issued w t)
      → IsFresh B L w m
      → ((t : Text) → count B t (m.booted ++ booted) ≤ 1)
        × ((t : Text) → 0 < count B t (m.booted ++ booted) → L.Issued m.world t)
  moved_once w m booted once issued (keeps, inl e) = rw e ((once, λ t h. keeps t (issued t h)))
  moved_once w m booted once issued (keeps, inr (h, e, fresh, now)) = rw e (
      (
        λ t.
            booted_once (B.id h) t h booted refl (once t)
              (uncounted w (B.id h) booted issued fresh),
        λ t. booted_issued m.world t h booted now (λ p. keeps t (issued t p)),
      ))

  moved-Inv :
      (s : System B) (i : ℕ) (th : Thread B)
      → Inv s
      → get_elem? s.threads i ≡ some th
      → Inv (absorb B s i (advance B s.pool s.world th))
  moved-Inv s i th v e =
      let m = advance B s.pool s.world th in
      let one = λ (x : Text). one_here x in
      let balance = λ (t : Text). advance-IsBalanced B t s.pool s.world th v.sound one in
      let (once, issued) =
        moved_once s.world m s.booted v.once v.issued (advance-IsFresh B L s.pool s.world th) in
      record {
        sound = (balance []).1;
        placed = λ t. omega (arith, v.placed t, step_places B t s i th e m (balance t));
        once = once;
        issued = issued;
      }
    where
      one_here : (x : Text) → count_all B x s.pool th ≤ 1
      one_here x = omega (arith, v.placed x, v.once x, held-le-threads B x s.threads i th e)

  pub step-Inv : (s : System B) (e : Event) → Inv s → Inv (step B s e)
  unfolding step
  step-Inv s (arrives c) v = record {
    sound = v.sound;
    placed = λ t. omega (
      arith,
      v.placed t,
      count_threads-append B t s.threads (begin B c ∷ []),
      begin_holds_none t c,
    );
    once = v.once;
    issued = v.issued;
  }
    where
      begin_holds_none : (t : Text) (c : Call) → count B t (held B (begin B c)) ≡ 0
      begin_holds_none t (allocate_call ctx req) = count-nil B t
      begin_holds_none t (execute_call x) = count-nil B t
      begin_holds_none t (release_call ctx i) = count-nil B t
      begin_holds_none t (shutdown_call ctx) = count-nil B t
  step-Inv s (runs i) v = elim (Option-cases (get_elem? s.threads i)) [
    | inl e ↦ rw (e, step) v
    | inr (th, e) ↦ rw (e, step) (moved-Inv s i th v e)
  ]

  pub run-Inv : (s : System B) (es : List Event) → Inv s → Inv (run B s es)
  unfolding run
  run-Inv s [] v = v
  run-Inv s (e ∷ es) v = run-Inv (step B s e) es (step-Inv s e v)
