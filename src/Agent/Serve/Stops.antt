-- ===== src/Agent/Serve/Stops.antt =====
-- agent/agent.go: how Serve ends, read off the history of what happens around it.
use emberbox.Prelude.{
  ◌∙◌, ap, Bool, true, ◌⊎◌, inl, inr, List-cases, if◌then◌else◌, Text, text, List, [], ◌∷◌, Option,
  none, some, false, ◌≡◌, refl,
}
use emberbox.Prelude.Int.{ℤ}
use emberbox.Errors.{Error, wrap}
use emberbox.Context.{Context}
use emberbox.Agent.{Agent}
use emberbox.Agent.Wire.{Json}
use emberbox.Agent.Serve.{
  Phase, draining, listening, Server, ServeEvent, accepting, returned, accepts, accept_fails, runs,
  cancels, waited, take_event, serve, close_conn, pick,
}

-- The connections that come before the first failure of Accept, the last one first.
unfoldable pub taken : List Text → List ServeEvent → List Text
taken cs [] = cs
taken cs (accepts c ∷ es) = taken (c ∷ cs) es
taken cs (accept_fails e ∷ es) = cs
taken cs (runs i ∷ es) = taken cs es
taken cs (cancels ∷ es) = taken cs es
taken cs (waited ∷ es) = taken cs es

-- The first failure of Accept in a history, if there is one: the error, if it comes before the end
-- of the context, and `none` if it comes after.
unfoldable pub first_failure : Bool → List ServeEvent → Option (Option Error)
first_failure cancelled [] = none
first_failure cancelled (accepts c ∷ es) = first_failure cancelled es
first_failure cancelled (accept_fails e ∷ es) = some (if cancelled then none else some e)
first_failure cancelled (runs i ∷ es) = first_failure cancelled es
first_failure cancelled (cancels ∷ es) = first_failure true es
first_failure cancelled (waited ∷ es) = first_failure cancelled es

-- The phase that Serve is in then.
abbrev pub PhaseAfter : Option (Option Error) → Phase → Type 0
PhaseAfter none p = p ≡ accepting
PhaseAfter (some none) p = (p ≡ draining) ⊎ (p ≡ returned none)
PhaseAfter (some (some e)) p = p ≡ returned (some (wrap (text "emberbox/agent: accept: ") e))

module _ {W : Type 0} (j : Json) (now : W → ℤ) (a : Agent W) (ctx : Context) where
  abbrev Stopped : Option Error → List Text → Server W → Type 0
  Stopped r taken s = (s.phase ≡ returned r) × (s.accepted ≡ taken)

  close_conn-Stopped :
      (s : Server W) (r : Option Error) (taken : List Text) (o : Option (Text × List Text))
      → Stopped r taken s
      → Stopped r taken (close_conn j now a ctx s o)
  close_conn-Stopped s r taken none p = p
  close_conn-Stopped s r taken (some (c, rest)) p = p

  take_event-Stopped :
      (s : Server W) (e : ServeEvent) (r : Option Error) (taken : List Text)
      → Stopped r taken s
      → Stopped r taken (take_event j now a ctx s e)
  unfolding take_event
  take_event-Stopped s (accepts c) r taken (phase, same) = rw phase (refl, same)
  take_event-Stopped s (accept_fails e) r taken (phase, same) = rw phase (refl, same)
  take_event-Stopped s (runs i) r taken p = close_conn-Stopped s r taken (pick i s.open_conns) p
  take_event-Stopped s cancels r taken p = p
  take_event-Stopped s waited r taken (phase, same) = rw phase (refl, same)

  serve-Stopped :
      (s : Server W) (es : List ServeEvent) (r : Option Error) (taken : List Text)
      → Stopped r taken s
      → Stopped r taken (serve j now a ctx s es)
  unfolding serve
  serve-Stopped s [] r taken p = p
  serve-Stopped s (e ∷ es) r taken p =
      serve-Stopped (take_event j now a ctx s e) es r taken (take_event-Stopped s e r taken p)

  close_conn-keeps :
      (s : Server W) (o : Option (Text × List Text))
      → ((close_conn j now a ctx s o).phase ≡ s.phase)
        × ((close_conn j now a ctx s o).accepted ≡ s.accepted)
        × ((close_conn j now a ctx s o).cancelled ≡ s.cancelled)
  close_conn-keeps s none = (refl, refl, refl)
  close_conn-keeps s (some (c, rest)) = (refl, refl, refl)

  abbrev Drains : List Text → Server W → Type 0
  Drains cs s = PhaseAfter (some none) s.phase × (s.accepted ≡ cs)

  serve-Drains :
      (s : Server W) (es : List ServeEvent) (cs : List Text)
      → s.phase ≡ draining
      → s.accepted ≡ cs
      → Drains cs (serve j now a ctx s es)
  unfolding serve take_event
  serve-Drains s [] cs phase same = (inl phase, same)
  serve-Drains s (accepts c ∷ es) cs phase same =
      rw phase (serve-Drains (record s { phase = draining }) es cs refl same)
  serve-Drains s (accept_fails e ∷ es) cs phase same =
      rw phase (serve-Drains (record s { phase = draining }) es cs refl same)
  serve-Drains s (runs i ∷ es) cs phase same =
      let (p, kept, _) = close_conn-keeps s (pick i s.open_conns) in
      serve-Drains (close_conn j now a ctx s (pick i s.open_conns)) es cs (p ∙ phase) (kept ∙ same)
  serve-Drains s (cancels ∷ es) cs phase same =
      serve-Drains (record s { cancelled = true }) es cs phase same
  serve-Drains s (waited ∷ es) cs phase same = elim (List-cases s.open_conns) [
    | inl empty ↦
        let (ended, kept) =
          serve-Stopped (record s { phase = returned none; open_conns = [] }) es none cs
            (refl, same) in
        rw (phase, empty) (inr ended, kept)
    | inr (c, rest, more) ↦
        rw (phase, more)
          (serve-Drains (record s { phase = draining; open_conns = c ∷ rest }) es cs refl same)
  ]

  abbrev Follows : Bool → List Text → Server W → List ServeEvent → Type 0
  Follows cancelled cs s es =
      let s' = serve j now a ctx s es in
      PhaseAfter (first_failure cancelled es) s'.phase × (s'.accepted ≡ taken cs es)

  -- A server that accepts connections, through any events.
  serve-Follows :
      (s : Server W) (es : List ServeEvent) (cancelled : Bool) (cs : List Text)
      → s.phase ≡ accepting
      → s.cancelled ≡ cancelled
      → s.accepted ≡ cs
      → Follows cancelled cs s es
  unfolding serve take_event first_failure taken
  serve-Follows s [] b cs phase off same = (phase, same)
  serve-Follows s (accepts c ∷ es) b cs phase off same = rw phase (
      serve-Follows
        (record s { accepted = c ∷ s.accepted; open_conns = c ∷ s.open_conns; phase = accepting })
        es b (c ∷ cs) refl off (ap (λ x. c ∷ x) same))
  serve-Follows s (accept_fails e ∷ es) true cs phase off same =
      rw (phase, off)
        (serve-Drains (record s { phase = draining; cancelled = true }) es cs refl same)
  serve-Follows s (accept_fails e ∷ es) false cs phase off same =
      rw (phase, off) (serve-Stopped _ es _ cs (refl, same))
  serve-Follows s (runs i ∷ es) b cs phase off same =
      let (p, kept, still) = close_conn-keeps s (pick i s.open_conns) in
      serve-Follows (close_conn j now a ctx s (pick i s.open_conns)) es b cs (p ∙ phase)
        (still ∙ off) (kept ∙ same)
  serve-Follows s (cancels ∷ es) b cs phase off same =
      serve-Follows (record s { cancelled = true }) es true cs phase refl same
  serve-Follows s (waited ∷ es) b cs phase off same =
      rw phase (serve-Follows (record s { phase = accepting }) es b cs refl off same)

  -- Over every history of accepts, failures, handlers and the end of the context, the first failure
  -- of Accept decides how Serve ends. Without one it accepts connections. If the first one comes
  -- before the context has ended, Serve has returned its error, wrapped; if it comes after, Serve
  -- waits for its goroutines or has returned nil. The connections that it has accepted are those
  -- that came before that failure.
  pub serve_stops :
      (w : W) (es : List ServeEvent)
      → let s = serve j now a ctx (listening j now a ctx w) es in
        PhaseAfter (first_failure false es) s.phase × (s.accepted ≡ taken [] es)
  unfolding listening
  serve_stops w es = serve-Follows (listening j now a ctx w) es false [] refl refl refl
