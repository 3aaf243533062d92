-- ===== src/Sandbox/FirecrackerApi.antt =====
-- sandbox/firecracker_api.go: the client of the Firecracker VMM's REST API.
use emberbox.Prelude.{Text, text, ℕ, ◌++◌, Bool, Option, none, some, leb, trim_space, if◌then◌else◌}
use emberbox.Prelude.Int.{ℤ}
use emberbox.Errors.{Result, ok, err, Error, wrap, api_error}
use emberbox.Context.{Context}
use emberbox.Sandbox.Polling.{poll_until}

pub record MachineConfig : Type 0 where
  pub vcpu_count : ℤ
  pub mem_size_mib : ℤ

pub record BootSource : Type 0 where
  pub kernel_image_path : Text
  pub boot_args : Text

pub record Drive : Type 0 where
  pub drive_id : Text
  pub path_on_host : Text
  pub is_root_device : Bool
  pub is_read_only : Bool

pub record Vsock : Type 0 where
  pub guest_cid : ℤ
  pub uds_path : Text

pub record Action : Type 0 where
  pub action_type : Text

pub data Body : Type 0 where
  machine_config : MachineConfig → Body
  boot_source : BootSource → Body
  drive : Drive → Body
  vsock : Vsock → Body
  action : Action → Body

-- net/http over the socket of one VMM, and the JSON of a body. `put` is Do on a PUT request: the
-- status and the body of the reply. `connect` dials the socket and closes the connection again.
pub record Http (W : Type 0) : Type 0 where
  pub marshal : Body → Result Text
  pub new_request : Text → Option Error
  pub put : Context → Text → Text → Text → W → Result (ℕ × Text) × W
  pub connect : Context → Text → W → Option Error × W

module _ {W : Type 0} (http : Http W) where
  -- The client is the path of the socket.
  abbrev pub after_put : Text → Result (ℕ × Text) × W → Option Error × W
  after_put path (err e, w) = (some (wrap (text "PUT " ++ (path ++ text ": ")) e), w)
  after_put path (ok (status, body), w) =
      (if leb 300 status then some (api_error status (trim_space body)) else none, w)

  abbrev pub after_new_request : Context → Text → Text → Text → Option Error → W → Option Error × W
  after_new_request ctx socket path buf (some e) w = (some e, w)
  after_new_request ctx socket path buf none w = after_put path (http.put ctx socket path buf w)

  abbrev pub after_marshal : Context → Text → Text → Result Text → W → Option Error × W
  after_marshal ctx socket path (err e) w =
      (some (wrap (text "marshal " ++ (path ++ text ": ")) e), w)
  after_marshal ctx socket path (ok buf) w =
      after_new_request ctx socket path buf (http.new_request (text "http://firecracker" ++ path)) w

  unfoldable pub put_json : Context → Text → Text → Body → W → Option Error × W
  put_json ctx socket path body w = after_marshal ctx socket path (http.marshal body) w

  abbrev pub set_machine_config : Context → Text → MachineConfig → W → Option Error × W
  set_machine_config ctx socket cfg =
      put_json ctx socket (text "/machine-config") (machine_config cfg)

  abbrev pub set_boot_source : Context → Text → BootSource → W → Option Error × W
  set_boot_source ctx socket src = put_json ctx socket (text "/boot-source") (boot_source src)

  abbrev pub set_drive : Context → Text → Drive → W → Option Error × W
  set_drive ctx socket d = put_json ctx socket (text "/drives/" ++ d.drive_id) (drive d)

  abbrev pub set_vsock : Context → Text → Vsock → W → Option Error × W
  set_vsock ctx socket v = put_json ctx socket (text "/vsock") (vsock v)

  abbrev pub start_instance : Context → Text → W → Option Error × W
  start_instance ctx socket =
      put_json ctx socket (text "/actions") (action (record { action_type = text "InstanceStart" }))

  -- waitForSocket under a context that ends with `cause` at wait number `n`.
  unfoldable pub wait_for_socket : Context → Text → ℕ → Error → W → Option Error × W
  wait_for_socket ctx socket n cause w =
      poll_until (http.connect ctx socket) (wrap (text "waitForSocket " ++ (socket ++ text ": "))) n
        cause w
