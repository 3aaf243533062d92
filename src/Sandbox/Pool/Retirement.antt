-- ===== src/Sandbox/Pool/Retirement.antt =====
-- sandbox/sandbox.go: what becomes of the sandboxes that a pool destroys, over a backend whose
-- Destroy has an effect that lasts.
pub mod Effects
pub mod Histories
use emberbox.Prelude.{
  ℕ, ◌≤◌, ◌<◌, ◌≡◌, refl, ap, inl, inr, Text, some, List, [], ◌∷◌, arith, All, get_elem?,
  Option-cases, Bool-cases, text_eq, text_eq_iff, text_eq-false, text_eq-false,
}
use mathlib.Core.Path.{subst}
use emberbox.Prelude.Tally.{hit, hit_self, miss}
use emberbox.Context.{Context}
use emberbox.Sandbox.{Backend, IssuesFreshIds}
use emberbox.Sandbox.Pool.Threads.{System, Thread, Move, Event, arrives, runs, absorb, step, run}
use emberbox.Sandbox.Pool.Ownership.{Inv, step-Inv, held-le-threads}
use emberbox.Sandbox.Pool.Ownership.Counts.{count, count-cons}
use emberbox.Sandbox.Pool.Ownership.Steps.{held, count_threads}
use emberbox.Sandbox.Retiring.{Retires}
use Effects.{Keeps, IsBooting, IsDestroying, advance-effect}

module _ (B : Backend) (L : IssuesFreshIds B) (R : Retires B L) where
  open R use {Live, Gone, Sound}

  -- A booted sandbox is live until it is destroyed, and then gone.
  pub record Retired (s : System B) : Type 0 where
    pub live : (t : Text) → 0 < count B t s.booted → count B t s.destroyed ≡ 0 → Live s.world t
    pub sound : Sound s.world
    pub gone : All (Gone s.world) s.destroyed

  All-kept :
      (w w' : B.World) (hs : List B.Handle)
      → ((g : B.Handle) → Gone w g → Gone w' g)
      → All (Gone w) hs
      → All (Gone w') hs
  All-kept w w' [] keeps gone = tt
  All-kept w w' (h ∷ hs) keeps (g, gone) = (keeps h g, All-kept w w' hs keeps gone)

  live_before :
      (s : System B) (m : Move B)
      → Inv B L s
      → Retired s
      → Keeps B L R s.world m.world
      → (t : Text) → 0 < count B t s.booted
      → count B t s.destroyed ≡ 0
      → Live m.world t
  live_before s m v r (keeps, _, _) t booted whole =
      keeps t (v.issued t booted) (r.live t booted whole)

  live_booted :
      (s : System B) (m : Move B) (h : B.Handle)
      → Inv B L s
      → Retired s
      → Keeps B L R s.world m.world
      → Live m.world (B.id h)
      → (t : Text) → 0 < count B t (h ∷ s.booted)
      → count B t s.destroyed ≡ 0
      → Live m.world t
  live_booted s m h v r keeps now t booted whole = elim (Bool-cases (text_eq (B.id h) t)) [
    | inl same ↦ subst (Live m.world) ((text_eq_iff (B.id h) t).0 same) now
    | inr other ↦
        live_before s m v r keeps t
          (omega (arith, booted, count-cons B t h s.booted, miss t (B.id h) other)) whole
  ]

  booting-Retired :
      (s : System B) (i : ℕ) (m : Move B)
      → Inv B L s
      → Retired s
      → IsBooting B L R s.world m
      → Retired (absorb B s i m)
  booting-Retired s i m v r (keeps, none_gone, inl none_new) = record {
    live = λ t booted whole.
        live_before s m v r keeps t (rw none_new at booted) (rw none_gone at whole);
    sound = keeps.2 r.sound;
    gone = rw none_gone (All-kept s.world m.world s.destroyed keeps.1 r.gone);
  }
  booting-Retired s i m v r (keeps, none_gone, inr (h, new, now)) = record {
    live = λ t booted whole.
        live_booted s m h v r keeps now t (rw new at booted) (rw none_gone at whole);
    sound = keeps.2 r.sound;
    gone = rw none_gone (All-kept s.world m.world s.destroyed keeps.1 r.gone);
  }

  -- A sandbox that a goroutine is about to destroy was booted, and is live.
  held_live :
      (s : System B) (i : ℕ) (th : Thread B) (h : B.Handle) (hs : List B.Handle)
      → Inv B L s
      → Retired s
      → get_elem? s.threads i ≡ some th
      → held B th ≡ h ∷ hs
      → Live s.world (B.id h) × L.Issued s.world (B.id h)
  held_live s i th h hs v r e holds =
      let x = B.id h in
      let here : 1 ≤ count_threads B x s.threads = omega (
        arith,
        held-le-threads B x s.threads i th e,
        ap (count B x) holds,
        count-cons B x h hs,
        hit_self x,
      ) in
      let booted : 0 < count B x s.booted = omega (arith, here, v.placed x) in
      (r.live x booted (omega (arith, here, v.placed x, v.once x)), v.issued x booted)

  live_others :
      (s : System B) (c : Context) (h : B.Handle) (t : Text)
      → Retired s
      → 0 < count B t s.booted
      → count B t (h ∷ s.destroyed) ≡ 0
      → Live (B.destroy c h s.world).1 t
  live_others s c h t r booted whole = elim (Bool-cases (text_eq (B.id h) t)) [
    | inl same ↦
        let hits : hit t (B.id h) ≡ 1 = rw same refl in
        absurd (omega (arith, hits, whole, count-cons B t h s.destroyed))
    | inr other ↦
        R.destroy_keeps_live c h s.world t (text_eq-false (B.id h) t other)
          (r.live t booted (omega (arith, whole, count-cons B t h s.destroyed)))
  ]

  destroying-Retired :
      (s : System B) (i : ℕ) (th : Thread B) (m : Move B)
      → Inv B L s
      → Retired s
      → get_elem? s.threads i ≡ some th
      → IsDestroying B L R s.world th m
      → Retired (absorb B s i m)
  destroying-Retired s i th m v r e (c, h, hs, holds, lost, none_new, at_w) = record {
    live = λ t booted whole.
        rw at_w (live_others s c h t r (rw none_new at booted) (rw lost at whole));
    sound = rw at_w (R.destroy_sound c h s.world (held_live s i th h hs v r e holds).1 r.sound);
    gone = rw lost (
      rw at_w (R.destroy_gone c h s.world (held_live s i th h hs v r e holds).0),
      All-kept s.world m.world s.destroyed
          (λ g gone. rw at_w (R.destroy_keeps_gone c h s.world g gone)) r.gone,
    );
  }

  step-Retired : (s : System B) (e : Event) → Inv B L s → Retired s → Retired (step B s e)
  unfolding step
  step-Retired s (arrives c) v r = record { live = r.live; sound = r.sound; gone = r.gone }
  step-Retired s (runs i) v r = elim (Option-cases (get_elem? s.threads i)) [
    | inl e ↦ rw (e, step) r
    | inr (th, e) ↦
        rw (e, step)
          (elim (advance-effect B L R s.pool s.world th r.sound) [
            | inl booting ↦ booting-Retired s i _ v r booting
            | inr destroying ↦ destroying-Retired s i th _ v r e destroying
          ])
  ]

  pub run-Retired : (s : System B) (es : List Event) → Inv B L s → Retired s → Retired (run B s es)
  unfolding run
  run-Retired s [] v r = r
  run-Retired s (e ∷ es) v r =
      run-Retired (step B s e) es (step-Inv B L s e v) (step-Retired s e v r)
