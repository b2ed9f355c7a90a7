-- ===== src/State/Consistent.antt =====
-- The invariant of the stored state (src/state/mod.rs with src/network/ipam.rs): every address that
-- a machine has is allocated to that machine, so no two machines share one.
use clawstainer.Base.{◌≤◌, String, ◌≡◌, inl, inr, Option, some, arith, eq_iff, Option-cases}
use clawstainer.Base.Map.{get, insert, modify, get-insert, get-remove, get-modify, contains_key}
use clawstainer.Errors.{Result, ok}
use clawstainer.Network.{NetworkState, octet_ip, allocate, release}
use clawstainer.Network.Pool.{Outcome, allocate-Outcome}
use clawstainer.State.{Machine, State}
use clawstainer.Runtime.Nspawn.Destroy.{remove_machine}

pub record IsConsistent (s : State) : Type 0 where
  pub owned :
      (id ip : String) (m : Machine)
      → get id s.machines ≡ some m
      → m.ip ≡ some ip
      → get ip s.network.allocated_ips ≡ some id
  pub small : s.network.next_octet ≤ 255

-- Two machines of a consistent state with the same address are the same machine.
pub ip_unique :
    (s : State) (i j ip : String) (m n : Machine)
    → IsConsistent s
    → get i s.machines ≡ some m
    → get j s.machines ≡ some n
    → m.ip ≡ some ip
    → n.ip ≡ some ip
    → i ≡ j
ip_unique s i j ip m n c hi hj hm hn = cc (c.owned i ip m hi hm, c.owned j ip n hj hn)

-- A change of machines that leaves their addresses alone.
pub modify-IsConsistent :
    (s : State) (k : String) (f : Machine → Machine)
    → ((m : Machine) → (f m).ip ≡ m.ip)
    → IsConsistent s
    → IsConsistent (record s { machines = modify k f s.machines })
modify-IsConsistent s k f same c = record {
  owned = λ id ip m h e. elim (Option-cases (get id s.machines)) [
    | inl missing ↦ absurd (ground (arith, get-modify k id f s.machines))
    | inr (old, found) ↦
        ground (arith, get-modify k id f s.machines, same old, c.owned id ip old found)
  ];
  small = c.small;
}

-- The removal of a machine with the release of its address.
pub remove_machine-IsConsistent :
    (s : State) (k : String) → IsConsistent s → IsConsistent (remove_machine k s)
unfolding remove_machine release
remove_machine-IsConsistent s k c = elim (Option-cases (get k s.machines)) [
  | inl missing ↦ rw missing (record {
    owned = λ id ip m h e. ground (arith, get-remove k id s.machines, c.owned id ip m);
    small = c.small;
  })
  | inr (old, found) ↦ elim (Option-cases old.ip) [
    | inl no_ip ↦
        rw (found, no_ip)
          (record {
            owned = λ id ip m h e. ground (arith, get-remove k id s.machines, c.owned id ip m);
            small = c.small;
          })
    | inr (a, has_ip) ↦
        rw (found, has_ip)
          (record {
            owned = λ id ip m h e. ground (
              arith,
              get-remove k id s.machines,
              c.owned id ip m,
              c.owned k a old found has_ip,
              get-remove a ip s.network.allocated_ips,
              eq_iff a ip,
              eq_iff k id,
            );
            small = c.small;
          })
  ]
]

-- What `allocate` does to the network of a consistent state.
allocated-IsConsistent :
    (s : State) (id : String) (r : Result String × NetworkState)
    → Outcome s.network s.network.next_octet id r
    → IsConsistent s
    → IsConsistent (record s { network = r.1 })
unfolding contains_key
allocated-IsConsistent s id r (inl (octet, found, e)) c = rw e (record {
  owned = λ j ip m h p. ground (
    arith,
    c.owned j ip m h p,
    get-insert (octet_ip octet) ip id s.network.allocated_ips,
    eq_iff (octet_ip octet) ip,
    found.free,
  );
  small = omega (arith, found.at_most);
})
allocated-IsConsistent s id r (inr (full, e)) c = rw e c

-- A machine that comes with no address, or with one that is allocated to it.
abbrev pub Owns : String → Option String → State → Type 0
Owns id ip s = (x : String) → ip ≡ some x → get x s.network.allocated_ips ≡ some id

pub insert-IsConsistent :
    (s : State) (id : String) (m : Machine)
    → IsConsistent s
    → Owns id m.ip s
    → IsConsistent (record s { machines = insert id m s.machines })
insert-IsConsistent s id m c owns = record {
  owned = λ j ip n h e.
      ground (arith, get-insert id j m s.machines, eq_iff id j, c.owned j ip n, owns ip);
  small = c.small;
}

-- The machine owns what `allocate` returned for it.
Outcome-Owns :
    (network : NetworkState) (id ip : String) (r : Result String × NetworkState)
    → Outcome network network.next_octet id r
    → r.0 ≡ ok ip
    → get ip r.1.allocated_ips ≡ some id
Outcome-Owns network id ip r (inl (octet, found, e)) h =
    ground
      (arith, get-insert (octet_ip octet) ip id network.allocated_ips, eq_iff (octet_ip octet) ip)
Outcome-Owns network id ip r (inr (full, e)) h = absurd (ground arith)

pub allocate-IsConsistent :
    (s : State) (id : String)
    → IsConsistent s
    → IsConsistent (record s { network = (allocate id s.network).1 })
allocate-IsConsistent s id c =
    allocated-IsConsistent s id (allocate id s.network)
      (allocate-Outcome s.network id (omega (arith, c.small))) c

pub allocate-Owns :
    (s : State) (id ip : String)
    → IsConsistent s
    → (allocate id s.network).0 ≡ ok ip
    → get ip (allocate id s.network).1.allocated_ips ≡ some id
allocate-Owns s id ip c h =
    Outcome-Owns s.network id ip (allocate id s.network)
      (allocate-Outcome s.network id (omega (arith, c.small))) h
