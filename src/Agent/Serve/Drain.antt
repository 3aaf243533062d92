-- ===== src/Agent/Serve/Drain.antt =====
-- Serve of agent/agent.go handles each connection once, and drains before it returns nil.
use emberbox.Prelude.{
  ap, inr, inl, Text, ℕ, zero, suc, ◌+◌, List, [], ◌∷◌, true, none, some, ◌≡◌, refl, Option-cases,
  Bool-cases, arith,
}
use emberbox.Prelude.Int.{ℤ}
use emberbox.Prelude.Tally.{tally-nil, tally, tally-cons, hit}
use emberbox.Errors.{Error}
use emberbox.Context.{Context}
use emberbox.Agent.{Agent}
use emberbox.Agent.Wire.{Json}
use emberbox.Agent.Serve.{
  stop, drained, close_conn, take_in, Server, ServeEvent, Phase, accepting, draining, returned,
  accepts, accept_fails, runs, cancels, waited, pick, take_event, serve, listening,
}

tally-pick :
    (t : Text) (i : ℕ) (xs : List Text) (x : Text) (rest : List Text)
    → pick i xs ≡ some (x, rest)
    → tally t xs ≡ hit t x + tally t rest
unfolding pick
tally-pick t i [] x rest e = cc
tally-pick t zero (y ∷ xs) x rest e =
    let first : y ≡ x = cc in
    let others : xs ≡ rest = cc in rw (tally-cons t y xs, first, others) refl
tally-pick t (suc i) (y ∷ xs) x rest e = elim (Option-cases (pick i xs)) [
  | inl missing ↦ let no = rw missing at e in cc
  | inr ((z, zs), hit_z) ↦
      let same = rw hit_z at e in
      let first : z ≡ x = cc in
      let same_hits : hit t z ≡ hit t x = ap (hit t) first in
      let others : y ∷ zs ≡ rest = cc in
      rw (← others) (
        omega
          (arith, tally-pick t i xs z zs hit_z, tally-cons t y xs, tally-cons t y zs, same_hits))
]

module _ {W : Type 0} (j : Json) (now : W → ℤ) (a : Agent W) (ctx : Context) where
  -- Serve has stopped for the context, and what it has left to do.
  abbrev IsStopped : Server W → Phase → Type 0
  IsStopped s accepting = Unit
  IsStopped s draining = s.cancelled ≡ true
  IsStopped s (returned none) = (s.cancelled ≡ true) × (s.open_conns ≡ [])
  IsStopped s (returned (some e)) = Unit

  -- Each connection is open or handled, as often as it was accepted.
  abbrev pub Balanced : Server W → Type 0
  Balanced s = (t : Text) → tally t s.accepted ≡ tally t s.open_conns + tally t s.handled

  abbrev pub Inv : Server W → Type 0
  Inv s = Balanced s × IsStopped s s.phase

  take_in-Inv :
      (s : Server W) (c : Text) (p : Phase) → Inv s → s.phase ≡ p → Inv (take_in j now a ctx s c p)
  take_in-Inv s c accepting (even, stopped) e =
      (λ t. omega (arith, even t, tally-cons t c s.accepted, tally-cons t c s.open_conns), rw e tt)
  take_in-Inv s c draining inv e = inv
  take_in-Inv s c (returned r) inv e = inv

  stop-Inv :
      (s : Server W) (x : Error) (p : Phase) → Inv s → s.phase ≡ p → Inv (stop j now a ctx s x p)
  stop-Inv s x accepting (even, stopped) e = elim (Bool-cases s.cancelled) [
    | inl over ↦ (even, rw over refl)
    | inr live ↦ (even, rw live tt)
  ]
  stop-Inv s x draining inv e = inv
  stop-Inv s x (returned r) inv e = inv

  close_conn-IsStopped :
      (s : Server W) (i : ℕ) (c : Text) (rest : List Text) (p : Phase)
      → pick i s.open_conns ≡ some (c, rest)
      → IsStopped s p
      → IsStopped (close_conn j now a ctx s (some (c, rest))) p
  unfolding pick
  close_conn-IsStopped s i c rest accepting e stopped = tt
  close_conn-IsStopped s i c rest draining e stopped = stopped
  close_conn-IsStopped s i c rest (returned none) e (off, empty) = let no = rw empty at e in cc
  close_conn-IsStopped s i c rest (returned (some x)) e stopped = tt

  close_conn-Inv :
      (s : Server W) (i : ℕ) → Inv s → Inv (close_conn j now a ctx s (pick i s.open_conns))
  close_conn-Inv s i (even, stopped) = elim (Option-cases (pick i s.open_conns)) [
    | inl e ↦ rw e (even, stopped)
    | inr ((c, rest), e) ↦ rw e (
      λ t. omega (arith, even t, tally-pick t i s.open_conns c rest e, tally-cons t c s.handled),
      close_conn-IsStopped s i c rest s.phase e stopped,
    )
  ]

  cancels-IsStopped :
      (s : Server W) (p : Phase) → IsStopped s p → IsStopped (record s { cancelled = true }) p
  cancels-IsStopped s accepting stopped = tt
  cancels-IsStopped s draining stopped = refl
  cancels-IsStopped s (returned none) (off, empty) = (refl, empty)
  cancels-IsStopped s (returned (some e)) stopped = tt

  drained-Inv :
      (s : Server W) (p : Phase) (conns : List Text)
      → Inv s
      → s.phase ≡ p
      → s.open_conns ≡ conns
      → Inv (drained j now a ctx s p conns)
  drained-Inv s draining [] (even, stopped) e empty =
      let off : s.cancelled ≡ true = rw e at stopped in (even, (off, empty))
  drained-Inv s draining (c ∷ cs) inv e empty = inv
  drained-Inv s accepting conns inv e empty = inv
  drained-Inv s (returned r) conns inv e empty = inv

  take_event-Inv : (s : Server W) (e : ServeEvent) → Inv s → Inv (take_event j now a ctx s e)
  unfolding take_event
  take_event-Inv s (accepts c) inv = take_in-Inv s c s.phase inv refl
  take_event-Inv s (accept_fails x) inv = stop-Inv s x s.phase inv refl
  take_event-Inv s (runs i) inv = close_conn-Inv s i inv
  take_event-Inv s cancels (even, stopped) = (even, cancels-IsStopped s s.phase stopped)
  take_event-Inv s waited inv = drained-Inv s s.phase s.open_conns inv refl refl

  serve-Inv : (s : Server W) (es : List ServeEvent) → Inv s → Inv (serve j now a ctx s es)
  unfolding serve
  serve-Inv s [] inv = inv
  serve-Inv s (e ∷ es) inv = serve-Inv (take_event j now a ctx s e) es (take_event-Inv s e inv)

  -- Serve returns nil only after its context has ended and every connection that it accepted has
  -- been handled, each exactly once, in whatever order accepts, handlers and the end of the context
  -- come.
  pub serve_drains :
      (w : W) (es : List ServeEvent)
      → let s = serve j now a ctx (listening j now a ctx w) es in
        s.phase ≡ returned none
        → (s.cancelled ≡ true)
          × (s.open_conns ≡ [])
          × ((t : Text) → tally t s.accepted ≡ tally t s.handled)
  unfolding listening
  serve_drains w es e =
      let s = serve j now a ctx (listening j now a ctx w) es in
      let (even, stopped) =
        serve-Inv (listening j now a ctx w) es ((λ t. omega (arith, tally-nil t)), tt) in
      let (off, empty) = rw e at stopped in
      (
        off,
        empty,
        λ t.
            let none_open : tally t s.open_conns ≡ 0 = rw empty (tally-nil t) in
            omega (arith, even t, none_open),
      )
