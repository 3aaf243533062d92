-- ===== src/Sandbox/Firecracker/Order.antt =====
-- The order in which driveBoot of sandbox/firecracker.go configures a microVM.
use emberbox.Prelude.{
  append-nil, append_assoc, sym, inl, ◌⊎◌, inr, ◌≡◌, refl, Text, text, ℕ, suc, ◌≤◌, Option, none,
  some, List, [], ◌∷◌, ◌++◌, take, length, arith, Option-cases,
}
use emberbox.Errors.{wrap, Result-cases, Error}
use emberbox.Context.{Context}
use emberbox.Sandbox.Handles.{FirecrackerHandle}
use emberbox.Sandbox.FirecrackerApi.{Body, put_json}
use emberbox.Sandbox.Firecracker.{FirecrackerConfig}
use emberbox.Sandbox.Firecracker.Boot.{wait_for_agent, wait_for_api, Host, drive_boot, attempt}

-- A log of the paths that were PUT to a VMM: a PUT appends to it, and the polls and the talk with
-- the agent leave it alone.
pub record Logs {W : Type 0} (host : Host W) (cfg : FirecrackerConfig) : Type 0 where
  pub log : W → List Text
  pub put_logs :
      (ctx : Context) (socket path body : Text) (w : W)
      → log (host.http.put ctx socket path body w).1 ≡ log w ++ path ∷ []
  pub api_keeps :
      (ctx : Context) (h : FirecrackerHandle) (w : W)
      → log (wait_for_api host cfg ctx h w).1 ≡ log w
  pub agent_keeps :
      (ctx : Context) (h : FirecrackerHandle) (w : W)
      → log (wait_for_agent host cfg ctx h w).1 ≡ log w

-- The PUTs of a boot, in order.
abbrev pub boot_order : List Text
boot_order =
    text "/machine-config"
    ∷ text "/boot-source"
    ∷ (text "/drives/" ++ text "rootfs")
    ∷ text "/vsock"
    ∷ text "/actions"
    ∷ []

module _ {W : Type 0} (host : Host W) (cfg : FirecrackerConfig) (logs : Logs host cfg) where
  -- It succeeded and sent all of `n`, or it failed.
  abbrev pub Ends : Option Error → ℕ → ℕ → Type 0
  Ends r n k = ((r ≡ none) × (n ≤ k)) ⊎ ((e : Error) × (r ≡ some e))

  -- A step that sends a beginning of the paths, and all of them if it succeeds.
  abbrev pub Sends : List Text → (W → Option Error × W) → Type 0
  Sends paths step =
      (w : W)
      → (k : ℕ) × (logs.log (step w).1 ≡ logs.log w ++ take k paths)
        × Ends (step w).0 (length paths) k

  nothing-Sends : Sends [] (λ w. (none, w))
  nothing-Sends w = (0, sym (append-nil (logs.log w)), inl (refl, omega arith))

  put-logs :
      (ctx : Context) (socket path : Text) (body : Body) (w : W)
      → let (r, w') = put_json host.http ctx socket path body w in
        ((logs.log w' ≡ logs.log w) × (e : Error) × (r ≡ some e))
        ⊎ (logs.log w' ≡ logs.log w ++ path ∷ [])
  unfolding put_json
  put-logs ctx socket path body w = elim (Result-cases (host.http.marshal body)) [
    | inr (e, is) ↦ rw is (inl (refl, _, refl))
    | inl (buf, is) ↦
        elim (Option-cases (host.http.new_request (text "http://firecracker" ++ path))) [
          | inr (e, bad) ↦ rw (is, bad) (inl (refl, _, refl))
          | inl good ↦ elim (Result-cases (host.http.put ctx socket path buf w).0) [
            | inr (e, fails) ↦ inr (rw (is, good, fails) (logs.put_logs ctx socket path buf w))
            | inl (reply, sent) ↦ inr (rw (is, good, sent) (logs.put_logs ctx socket path buf w))
          ]
        ]
  ]

  attempt_quiet :
      (label : Text) (step next : W → Option Error × W) (paths : List Text)
      → ((w : W) → logs.log (step w).1 ≡ logs.log w)
      → Sends paths next
      → Sends paths (attempt label step next)
  unfolding attempt
  attempt_quiet label step next paths quiet sends w = elim (Option-cases (step w).0) [
    | inr (e, fails) ↦ (
      0,
      rw (attempt, fails, quiet w, append-nil) refl,
      inr (wrap label e, rw (attempt, fails) refl),
    )
    | inl fine ↦
        let (k, grown, all) = sends (step w).1 in
        (k, rw (attempt, fine, grown, quiet w) refl, rw (attempt, fine) all)
  ]

  attempt_put :
      (label : Text) (ctx : Context) (socket path : Text) (body : Body)
      (next : W → Option Error × W) (paths : List Text)
      → Sends paths next
      → Sends (path ∷ paths) (attempt label (put_json host.http ctx socket path body) next)
  unfolding attempt
  attempt_put label ctx socket path body next paths sends w =
      let step = put_json host.http ctx socket path body in
      elim (Option-cases (step w).0) [
        | inr (e, fails) ↦ elim (put-logs ctx socket path body w) [
          | inl (same, _, _) ↦ (
            0,
            rw (attempt, fails, same, append-nil) refl,
            inr (wrap label e, rw (attempt, fails) refl),
          )
          | inr grown ↦
              (1, rw (attempt, fails, grown) refl, inr (wrap label e, rw (attempt, fails) refl))
        ]
        | inl fine ↦ elim (put-logs ctx socket path body w) [
          | inl (_, e, fails) ↦ cc
          | inr grown ↦
              let (k, more, all) = sends (step w).1 in
              (
                suc k,
                rw (attempt, fine, more, grown, append_assoc) refl,
                rw (attempt, fine)
                    (elim all [
                      | inl (ready, sent) ↦ inl (ready, omega (arith, sent))
                      | inr failed ↦ inr failed
                    ]),
              )
        ]
      ]

  -- Whatever fails and when, driveBoot sends the machine configuration, the boot source, the root
  -- drive, the vsock device and then InstanceStart in this order and each once, up to the point
  -- where it stops; it sends them all if it succeeds.
  pub drive_boot-Sends :
      (ctx : Context) (h : FirecrackerHandle) → Sends boot_order (drive_boot host cfg ctx h)
  unfolding drive_boot
  drive_boot-Sends ctx h = attempt_quiet _ _ _ _ (logs.api_keeps ctx h) (
      attempt_put _ ctx _ _ _ _ _ (
        attempt_put _ ctx _ _ _ _ _ (
          attempt_put _ ctx _ _ _ _ _ (
            attempt_put _ ctx _ _ _ _ _ (
              attempt_put _ ctx _ _ _ _ _
                (attempt_quiet _ _ _ _ (logs.agent_keeps ctx h) nothing-Sends))))))
