-- ===== src/Sandbox/Firecracker/Keeping/Calls.antt =====
-- sandbox/firecracker_api.go and sandbox/agentclient.go: the calls that Boot and Exec make.
use emberbox.Sandbox.AgentClient.Probe.{probe_line, probe_sent, probe_dialled, vsock_probe}
use emberbox.Prelude.{trim_right, Text, ℕ, Option, none, some, inl, inr, Option-cases, Bool-cases}
use emberbox.Prelude.Int.{ℤ}
use emberbox.Errors.{Result, ok, err, Error}
use emberbox.Context.{Context}
use emberbox.Sandbox.AgentClient.{
  after_request, after_encode, agent_round_trip, after_line, after_connect, after_dial,
  dial_agent_vsock_uds, accepts, is_newline, limit,
}
use emberbox.Sandbox.FirecrackerApi.{after_put, after_new_request, after_marshal, Body, put_json}
use emberbox.Sandbox.Firecracker.Boot.{Host}
use emberbox.Sandbox.Firecracker.Keeping.{IsKept}

module _ {W : Type 0} (host : Host W) (P : W → Type 0) (K : IsKept host P) where
  after_put_keeps :
      (path : Text) (r : Result (ℕ × Text) × W) → P r.1 → P (after_put host.http path r).1
  after_put_keeps path (err e, w) p = p
  after_put_keeps path (ok (status, body), w) p = p

  after_new_request_keeps :
      (ctx : Context) (socket path buf : Text) (r : Option Error) (w : W)
      → P w
      → P (after_new_request host.http ctx socket path buf r w).1
  after_new_request_keeps ctx socket path buf (some e) w p = p
  after_new_request_keeps ctx socket path buf none w p =
      after_put_keeps path _ (K.put ctx socket path buf w p)

  after_marshal_keeps :
      (ctx : Context) (socket path : Text) (r : Result Text) (w : W)
      → P w
      → P (after_marshal host.http ctx socket path r w).1
  after_marshal_keeps ctx socket path (err e) w p = p
  after_marshal_keeps ctx socket path (ok buf) w p =
      after_new_request_keeps ctx socket path buf _ w p

  pub put_json_keeps :
      (ctx : Context) (socket path : Text) (body : Body) (w : W)
      → P w
      → P (put_json host.http ctx socket path body w).1
  unfolding put_json
  put_json_keeps ctx socket path body w p = after_marshal_keeps ctx socket path _ w p

  probe_line_keeps :
      (conn : host.transport.Conn) (r : Result Text × W)
      → P r.1
      → P (probe_line host.transport host.quote host.now conn r).1
  probe_line_keeps conn (err e, w) p = K.close conn w p
  probe_line_keeps conn (ok line, w) p = K.close conn w p

  probe_sent_keeps :
      (conn : host.transport.Conn) (r : Option Error × W)
      → P r.1
      → P (probe_sent host.transport host.quote host.now conn r).1
  probe_sent_keeps conn (some e, w) p = K.close conn w p
  probe_sent_keeps conn (none, w) p = probe_line_keeps conn _ (K.read_line conn w p)

  probe_dialled_keeps :
      (ctx : Context) (port : ℕ) (r : Result host.transport.Conn × W)
      → P r.1
      → P (probe_dialled host.transport host.quote host.now ctx port r).1
  probe_dialled_keeps ctx port (err e, w) p = p
  probe_dialled_keeps ctx port (ok conn, w) p =
      probe_sent_keeps conn _ (K.send conn _ _ (K.set_deadline conn _ w p))

  pub vsock_probe_keeps :
      (ctx : Context) (uds : Text) (port : ℕ) (w : W)
      → P w
      → P (vsock_probe host.transport host.quote host.now ctx uds port w).1
  unfolding vsock_probe
  vsock_probe_keeps ctx uds port w p = probe_dialled_keeps ctx port _ (K.dial ctx _ uds w p)

  limit_keeps :
      (ctx : Context) (conn : host.transport.Conn) (w : W)
      → P w
      → P (limit host.transport ctx conn w)
  unfolding limit
  limit_keeps ctx conn w p = elim (Option-cases ctx.deadline) [
    | inl e ↦ rw (limit, e) p
    | inr (d, e) ↦ rw (limit, e) (K.set_deadline conn d w p)
  ]

  after_request_keeps :
      (conn : host.transport.Conn) (r : Option Error × W)
      → P r.1
      → P (after_request host.transport host.json conn r).1
  after_request_keeps conn (some e, w) p = K.close conn w p
  after_request_keeps conn (none, w) p = K.close conn _ (K.receive conn w p)

  after_encode_keeps :
      (conn : host.transport.Conn) (r : Result Text) (w : W)
      → P w
      → P (after_encode host.transport host.json conn r w).1
  after_encode_keeps conn (err e) w p = K.close conn w p
  after_encode_keeps conn (ok bytes) w p = after_request_keeps conn _ (K.send conn bytes w p)

  agent_round_trip_keeps :
      (ctx : Context) (conn : host.transport.Conn) (tool input : Text) (timeout : ℤ) (w : W)
      → P w
      → P (agent_round_trip host.transport host.json ctx conn tool input timeout w).1
  unfolding agent_round_trip
  agent_round_trip_keeps ctx conn tool input timeout w p =
      after_encode_keeps conn _ _ (limit_keeps ctx conn w p)

  module _ (ctx : Context) (tool input : Text) (timeout : ℤ) where
    after_line_keeps :
        (conn : host.transport.Conn) (r : Result Text × W)
        → P r.1
        → P (after_line host.transport host.json host.quote ctx conn tool input timeout r).1
    after_line_keeps conn (err e, w) p = K.close conn w p
    after_line_keeps conn (ok raw, w) p = elim (Bool-cases (accepts (trim_right is_newline raw))) [
      | inl e ↦ rw e (agent_round_trip_keeps ctx conn tool input timeout w p)
      | inr e ↦ rw e (K.close conn w p)
    ]

    after_connect_keeps :
        (conn : host.transport.Conn) (r : Option Error × W)
        → P r.1
        → P (after_connect host.transport host.json host.quote ctx conn tool input timeout r).1
    after_connect_keeps conn (some e, w) p = K.close conn w p
    after_connect_keeps conn (none, w) p = after_line_keeps conn _ (K.read_line conn w p)

    after_dial_keeps :
        (uds : Text) (port : ℕ) (r : Result host.transport.Conn × W)
        → P r.1
        → P (after_dial host.transport host.json host.quote ctx uds port tool input timeout r).1
    after_dial_keeps uds port (err e, w) p = p
    after_dial_keeps uds port (ok conn, w) p =
        after_connect_keeps conn _ (K.send conn _ _ (limit_keeps ctx conn w p))

    pub dial_agent_keeps :
        (uds : Text) (port : ℕ) (w : W)
        → P w
        → P
            (dial_agent_vsock_uds host.transport host.json host.quote ctx uds port tool input
              timeout w).1
    unfolding dial_agent_vsock_uds
    dial_agent_keeps uds port w p = after_dial_keeps uds port _ (K.dial ctx none uds w p)
