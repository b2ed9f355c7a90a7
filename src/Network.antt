-- ===== src/Network.antt =====
-- src/network: the address pool of the bridge (mod.rs and ipam.rs). The `ip` and `iptables`
-- commands of bridge.rs, nat.rs and tap.rs are run on the host: see Runtime/Host.
pub mod Address
pub mod Pool
use Prim.Native.String.{◌++◌}
use clawstainer.Base.{ℕ, zero, suc, ◌+◌, String, [], ltb, if◌then◌else◌}
use clawstainer.Base.Decimal.{decimal}
use clawstainer.Base.Map.{Map, contains_key, insert, remove}
use clawstainer.Errors.{other, Result, ok, err}
use clawstainer.Exec.{Exec}

pub record NetworkState : Type 0 where
  pub bridge : String
  pub subnet : String
  pub allocated_ips : Map String  -- ip -> machine_id
  pub next_octet : ℕ  -- u8

abbrev pub default_network : NetworkState
default_network = record {
  bridge = "claw-br0";
  subnet = "10.0.0.0/24";
  allocated_ips = [];
  next_octet = 2;
}

unfoldable pub octet_ip : ℕ → String
unfolding decimal
octet_ip octet = "10.0.0." ++ decimal octet

abbrev pub exhausted : String
exhausted =
    "IP address pool exhausted (10.0.0.2 - 10.0.0.254). Destroy unused machines to free IPs."

-- The `loop` of `allocate`, from `octet` on. The fuel never runs out: see Network/Pool.
unfoldable pub allocate_from : ℕ → ℕ → String → Exec NetworkState String
allocate_from zero octet machine_id network = (err (other "out of fuel"), network)
allocate_from (suc fuel) octet machine_id network =
    let next = allocate_from fuel (octet + 1) machine_id network in
    if ltb 254 octet
    then (err (other exhausted), network)
    else if contains_key (octet_ip octet) network.allocated_ips
    then next
    else (
      ok (octet_ip octet),
      record network {
        allocated_ips = insert (octet_ip octet) machine_id network.allocated_ips;
        next_octet = octet + 1;
      },
    )

-- An octet is a `u8`, so 256 rounds pass the end of the pool.
unfoldable pub allocate : String → Exec NetworkState String
allocate machine_id network = allocate_from 256 network.next_octet machine_id network

unfoldable pub release : String → NetworkState → NetworkState
release ip network = record network { allocated_ips = remove ip network.allocated_ips }
