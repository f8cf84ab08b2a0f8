-- ===== src/ConnectivityHealth.antt =====
-- `run_check` of novena_gateway/gateway/connectivity_health_handler.py: what the hub is told of the way
-- to the broker. The answers of the system are arguments; an exception of one is the text it carries.
pub mod Explained
use novena_gateway.Common.{
  ℕ, String, Bool, true, false, not, ◌&&◌, ◌||◌, Option, none, some, List, [], ◌∷◌, str_eq,
  if◌then◌else◌, Result, ok, err,
}
use novena_gateway.Common.Int.{ℤ, pos, eq_ℤ}

-- A dict with the keys `ok` and `error`.
pub record Probe : Type 0 where
  pub is_ok : Bool
  pub error : Option String

-- What `ip route show default` gave: its return code, and its output or else its errors, trimmed.
unfoldable pub check_default_route : Result String (ℤ × String) → Probe
check_default_route (err e) = record { is_ok = false; error = some e }
check_default_route (ok (returncode, output)) = record {
  is_ok = eq_ℤ returncode (pos 0) && not (str_eq output "");
  error = if str_eq output "" then some "missing_default_route" else none;
}

abbrev pub first_address : List String → Option String
first_address [] = none
first_address (a ∷ rest) = some a

abbrev pub is_given : Option String → Bool
is_given none = false
is_given (some a) = not (str_eq a "")

-- `_check_dns`: the answer and its address. The records are the addresses that `getaddrinfo` lists.
unfoldable pub check_dns : String → Result String (List String) → Probe × Option String
check_dns host answer =
    if str_eq host ""
    then (record { is_ok = false; error = some "missing_host" }, none)
    else (elim answer [
      | err e ↦ (record { is_ok = false; error = some e }, none)
      | ok records ↦
          (record { is_ok = is_given (first_address records); error = none }, first_address records)
    ])

-- `_check_tcp` and `_check_tls`: none where the connection is made, else the exception's text.
unfoldable pub attempt : Option String → Probe
attempt none = record { is_ok = true; error = none }
attempt (some e) = record { is_ok = false; error = some e }

pub record Health : Type 0 where
  pub internet_reachable : Bool
  pub default_route : Probe
  pub dns : Probe
  pub broker_tcp : Probe
  pub tls : Probe
  pub mqtt_connected : Bool

-- `dns.get("address") or host`
abbrev pub address_or : String → Option String → String
address_or host none = host
address_or host (some a) = if str_eq a "" then host else a

-- The system: the route, the resolver, a connection to an address, and a handshake with the host.
pub record Network : Type 0 where
  pub ip_route : Result String (ℤ × String)
  pub getaddrinfo : String → Result String (List String)
  pub connect : String → Option String
  pub handshake : String → Option String

unfoldable pub tcp_of : Network → String → Probe × Option String → Probe
unfolding attempt
tcp_of n host (dns, address) =
    if dns.is_ok
    then attempt (n.connect (address_or host address))
    else record { is_ok = false; error = some "dns_failed" }

unfoldable pub tls_of : Network → String → Bool → Probe → Probe
unfolding attempt
tls_of n host has_tls tcp =
    if has_tls && tcp.is_ok
    then attempt (n.handshake host)
    else if has_tls
    then record { is_ok = false; error = tcp.error }
    else record { is_ok = true; error = none }

-- `run_check`, for a broker whose configuration has TLS or not.
unfoldable pub run_check : Network → String → Bool → Bool → Health
unfolding check_default_route check_dns tcp_of tls_of
run_check n host has_tls mqtt_connected =
    let route = check_default_route n.ip_route in
    let dns = check_dns host (n.getaddrinfo host) in
    let tcp = tcp_of n host dns in
    record {
      internet_reachable = route.is_ok && (tcp.is_ok || mqtt_connected);
      default_route = route;
      dns = dns.0;
      broker_tcp = tcp;
      tls = tls_of n host has_tls tcp;
      mqtt_connected = mqtt_connected;
    }
