-- ===== src/ConnectivityHealth/Explained.antt =====
-- Which failures of a check come with a reason.
use novena_gateway.Common.{
  String, ◌≡◌, refl, Bool, true, false, ◌||◌, Option, none, some, arith, ok, is_some, str_eq,
}
use novena_gateway.Common.Int.{ℤ, pos, eq_ℤ}
use novena_gateway.ConnectivityHealth.{
  Probe, Network, check_default_route, check_dns, attempt, tcp_of, tls_of, run_check,
}

-- A probe that either succeeds or names a reason.
pub record IsExplained (p : Probe) : Type 0 where
  pub explained : p.is_ok || is_some p.error ≡ true

attempt-IsExplained : (o : Option String) → IsExplained (attempt o)
unfolding attempt
attempt-IsExplained none = record { explained = refl }
attempt-IsExplained (some e) = record { explained = refl }

tcp_of-IsExplained :
    (n : Network) (host : String) (d : Probe) (address : Option String)
    → IsExplained (tcp_of n host (d, address))
unfolding tcp_of attempt
tcp_of-IsExplained n host d address = record { explained = ground arith }

tls_of-IsExplained :
    (n : Network) (host : String) (has_tls : Bool) (tcp : Probe)
    → IsExplained tcp
    → IsExplained (tls_of n host has_tls tcp)
unfolding tls_of attempt
tls_of-IsExplained n host has_tls tcp e = record { explained = ground (arith, e.explained) }

-- Of every check, the connection and the handshake either succeed or come with a reason.
pub run_check-IsExplained :
    (n : Network) (host : String) (has_tls mqtt_connected : Bool)
    → IsExplained (run_check n host has_tls mqtt_connected).broker_tcp
      × IsExplained (run_check n host has_tls mqtt_connected).tls
unfolding run_check
run_check-IsExplained n host has_tls mqtt_connected =
    let dns = check_dns host (n.getaddrinfo host) in
    let tcp = tcp_of-IsExplained n host dns.0 dns.1 in
    (tcp, tls_of-IsExplained n host has_tls (tcp_of n host dns) tcp)

-- A route whose lookup fails with an output is not there, and no reason is given.
pub route_unexplained :
    (returncode : ℤ) (output : String)
    → eq_ℤ returncode (pos 0) ≡ false
    → str_eq output "" ≡ false
    → check_default_route (ok (returncode, output)) ≡ record { is_ok = false; error = none }
unfolding check_default_route
route_unexplained returncode output fails printed = ground (arith, fails, printed)
