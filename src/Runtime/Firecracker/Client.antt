-- ===== src/Runtime/Firecracker/Client.antt =====
-- src/firecracker/api.rs and vsock.rs: the client of the Firecracker API and of the guest agent, over
-- Unix sockets. A socket is a parameter: one call for each operation on the connected stream.
pub mod Wait
use clawstainer.Base.{
  ℕ, zero, suc, ◌+◌, ◌-◌, String, Bool, true, false, ◌&&◌, Option, none, some, List, [], ◌∷◌, ◌==◌,
  ltb, if◌then◌else◌,
}
use clawstainer.Base.Decimal.{decimal}
use clawstainer.Base.Json.{Json}
use clawstainer.Base.Map.{Map}
use clawstainer.Base.Text.{lines, parse_uint, split_whitespace, text_after, text_before}
use clawstainer.Errors.{other, Result, ok, err}
use clawstainer.Exec.{Exec, pure, lift, attempt, ◌>>=◌, ◌>>◌}
use clawstainer.Runtime.Firecracker.{Api, ApiResponse, Value}
use clawstainer.Runtime.Firecracker.Create.{Guest}
use clawstainer.Runtime.Host.{context}
use clawstainer.Runtime.Poll.{Clock}
use Prim.Native.String.{◌++◌, len}
use mathlib.Core.Option

pub record Socket (W : Type 0) : Type 0 where
  pub exists : String → W → Bool
  pub connect : String → Exec W Unit
  pub write_all : String → Exec W Unit
  pub shutdown_write : Exec W Unit
  pub flush : Exec W Unit
  pub read_to_string : Exec W String
  pub read_line : Exec W String
  pub print_body : Map Value → Result String  -- `serde_json::to_string`

abbrev first_line : List String → String
first_line [] = ""
first_line (line ∷ rest) = line

abbrev second_word : List String → Option String
second_word (_ ∷ word ∷ _) = some word
second_word _ = none

abbrev number_or_zero : Option ℕ → ℕ
number_or_zero none = 0
number_or_zero (some n) = n

abbrev body_of : Option String → String
body_of none = ""
body_of (some rest) = text_before "\r\n\r\n" rest

-- `raw.split("\r\n\r\n").nth(1)` ends at the next blank line.
unfoldable pub parse_response : String → ApiResponse
unfolding text_after text_before lines split_whitespace parse_uint
parse_response raw = record {
  status =
      number_or_zero
        (Option.bind (second_word (split_whitespace (first_line (lines raw)))) (parse_uint 65536));
  body = body_of (text_after "\r\n\r\n" raw);
}

unfoldable pub http_request : String → String → String → String
http_request method path body =
    method
    ++ " "
    ++ path
    ++ " HTTP/1.1\r\nHost: localhost\r\nContent-Type: application/json\r\nContent-Length: "
    ++ decimal (len body)
    ++ "\r\n\r\n"
    ++ body

module _ {W : Type 0} (socket : Socket W) where
  unfoldable pub send_request : String → String → Exec W ApiResponse
  send_request socket_path request = do
    context "Failed to connect to Firecracker API socket" (socket.connect socket_path)
    context "Failed to send request" (socket.write_all request)
    context "Failed to shutdown write" socket.shutdown_write
    response ← context "Failed to read response" socket.read_to_string
    pure (parse_response response)

  unfoldable pub put : String → String → Map Value → Exec W ApiResponse
  put socket_path path body = do
    body_str ← lift (socket.print_body body)
    send_request socket_path (http_request "PUT" path body_str)

  unfoldable pub patch : String → String → Map Value → Exec W ApiResponse
  patch socket_path path body = do
    body_str ← lift (socket.print_body body)
    send_request socket_path (http_request "PATCH" path body_str)

  -- The API that the backend uses.
  unfoldable pub api : Api W
  api = record { put = put }

  abbrev uds_path : String → String
  uds_path vsock_uds_path = vsock_uds_path ++ "_3_52"

  unfoldable pub connect : String → Exec W Unit
  connect vsock_uds_path =
      context ("Failed to connect to guest agent at " ++ uds_path vsock_uds_path)
        (socket.connect (uds_path vsock_uds_path))

  module _ (json : Json) (print : json.Value → Result String) where
    abbrev parsed : Option json.Value → Result json.Value
    parsed none = err (other "Failed to parse guest agent response")
    parsed (some v) = ok v

    unfoldable pub request : json.Value → Exec W json.Value
    request req = do
      req_json ← lift (print req)
      context "Failed to send request to guest agent" (socket.write_all (req_json ++ "\n"))
      socket.flush
      line ← context "Failed to read response from guest agent" socket.read_line
      lift (parsed (json.from_str line))

    abbrev is_health : Option String → Bool
    is_health none = false
    is_health (some kind) = kind == "health_result"

    abbrev is_healthy : Result json.Value → Bool
    is_healthy (ok v) = is_health (Option.bind (json.field v "type") json.as_str)
    is_healthy (err e) = false

    -- One try of the loop of `wait_for_agent`.
    unfoldable pub check_agent : json.Value → String → Exec W Bool
    check_agent health_req vsock_uds_path = do
      connect vsock_uds_path
      resp ← attempt (request health_req)
      pure (is_healthy resp)

  -- One try of the loop of `wait_for_ready`.
  unfoldable pub check_socket : String → Exec W Bool
  check_socket socket_path = do socket.connect socket_path; pure true

  abbrev passed : Result Bool → Bool
  passed (ok b) = b
  passed (err e) = false

  unfoldable pub try_agent :
      (json : Json) → (json.Value → Result String) → json.Value → String → W → Bool × W
  try_agent json print health_req path w =
      let tried = check_agent json print health_req path w in (passed tried.0, tried.1)

  unfoldable pub try_socket : String → W → Bool × W
  try_socket path w =
      let tried = check_socket path w in
      if socket.exists path w then (passed tried.0, tried.1) else (false, w)

module _ {W : Type 0} (clock : Clock W) (test : W → Bool × W) (delay timeout : ℕ)
    (msg : String) where
  -- `loop { if test { return Ok } if elapsed > timeout { bail } sleep(delay) }`
  unfoldable pub wait_loop : ℕ → ℕ → W → Option (Result (Unit {0}) × W)
  wait_loop zero start w = none
  wait_loop (suc fuel) start w =
      let tried = test w in
      let again = wait_loop fuel start (clock.sleep delay tried.1) in
      if tried.0
      then some (ok tt, tried.1)
      else if ltb timeout (clock.now tried.1 - start)
      then some (err (other msg), tried.1)
      else again

  abbrev ended : W → Option (Result (Unit {0}) × W) → Result (Unit {0}) × W
  ended w none = (err (other "out of fuel"), w)
  ended w (some r) = r

  -- The fuel is enough: see Wait.
  unfoldable pub wait_until : Exec W Unit
  wait_until w = ended w (wait_loop (suc (timeout + 1)) (clock.now w) w)

module _ {W : Type 0} (clock : Clock W) (socket : Socket W) where
  unfoldable pub wait_for_ready : String → ℕ → Exec W Unit
  wait_for_ready socket_path timeout_ms =
      wait_until clock (try_socket socket socket_path) 10 timeout_ms
        "Timed out waiting for Firecracker API socket"

  unfoldable pub wait_for_agent :
      (json : Json) → (json.Value → Result String) → json.Value → String → ℕ → Exec W Unit
  wait_for_agent json print health_req vsock_uds_path timeout_ms =
      wait_until clock (try_agent socket json print health_req vsock_uds_path) 100 timeout_ms
        "Timed out waiting for guest agent"

  -- The waits that the backend uses.
  abbrev pub guest : (json : Json) → (json.Value → Result String) → json.Value → Guest W
  guest json print health_req = record {
    wait_for_ready = wait_for_ready;
    wait_for_agent = wait_for_agent json print health_req;
  }
