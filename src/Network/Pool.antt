-- ===== src/Network/Pool.antt =====
-- What network/ipam.rs promises: `allocate` hands out the least free octet from `next_octet` on, and
-- `release` frees an address without ever making it available to `allocate` again.
use clawstainer.Base.{
  ℕ, zero, suc, ◌+◌, ◌≤◌, ◌<◌, String, ◌≡◌, refl, ◌⊎◌, inl, inr, true, false, List, [], ◌∷◌, arith,
  ltb, if◌then◌else◌, Bool-cases, subst, le-cases, ltb→lt,
}
use clawstainer.Base.Map.{contains_key, insert}
use clawstainer.Errors.{other, Result, ok, err, is_ok}
use clawstainer.Network.{NetworkState, octet_ip, exhausted, allocate_from, allocate, release}

-- Every octet of `[from, to)` is allocated.
abbrev pub Taken : NetworkState → ℕ → ℕ → Type 0
Taken network from to =
    (k : ℕ) → from ≤ k → k < to → contains_key (octet_ip k) network.allocated_ips ≡ true

-- The network after `octet` went to `machine_id`.
abbrev pub with_octet : NetworkState → ℕ → String → NetworkState
with_octet network octet machine_id = record network {
  allocated_ips = insert (octet_ip octet) machine_id network.allocated_ips;
  next_octet = octet + 1;
}

-- `octet` is the least free octet of `[from, 254]`.
pub record LeastFree (network : NetworkState) (from octet : ℕ) : Type 0 where
  pub at_least : from ≤ octet
  pub at_most : octet ≤ 254
  pub free : contains_key (octet_ip octet) network.allocated_ips ≡ false
  pub least : Taken network from octet

abbrev pub Outcome : NetworkState → ℕ → String → Result String × NetworkState → Type 0
Outcome network from machine_id r =
    ((octet : ℕ) × LeastFree network from octet
      × (r ≡ (ok (octet_ip octet), with_octet network octet machine_id)))
    ⊎ (Taken network from 255 × (r ≡ (err (other exhausted), network)))

Taken-step :
    (network : NetworkState) (from to : ℕ)
    → contains_key (octet_ip from) network.allocated_ips ≡ true
    → Taken network (from + 1) to
    → Taken network from to
Taken-step network from to here rest k le lt = elim (le-cases from k le) [
  | inl e ↦ subst (λ j. contains_key (octet_ip j) network.allocated_ips ≡ true) e here
  | inr later ↦ rest k later lt
]

Taken-empty : (network : NetworkState) (from : ℕ) → 254 < from → Taken network from 255
Taken-empty network from past k le lt = absurd (omega arith)

-- One round at an allocated octet.
Outcome-step :
    (network : NetworkState) (octet : ℕ) (machine_id : String) (r : Result String × NetworkState)
    → octet ≤ 254
    → contains_key (octet_ip octet) network.allocated_ips ≡ true
    → Outcome network (octet + 1) machine_id r
    → Outcome network octet machine_id r
Outcome-step network octet machine_id r small here (inl (k, found, e)) = inl (
  k,
  record {
    at_least = omega (arith, found.at_least);
    at_most = found.at_most;
    free = found.free;
    least = Taken-step network octet k here found.least;
  },
  e,
)
Outcome-step network octet machine_id r small here (inr (full, e)) =
    inr (Taken-step network octet 255 here full, e)

allocate_from-Outcome :
    (fuel octet : ℕ) (machine_id : String) (network : NetworkState)
    → octet < 256
    → 256 ≤ octet + fuel
    → Outcome network octet machine_id (allocate_from fuel octet machine_id network)
unfolding allocate_from
allocate_from-Outcome zero octet machine_id network small enough = absurd (omega arith)
allocate_from-Outcome (suc fuel) octet machine_id network small enough =
    elim (Bool-cases (ltb 254 octet)) [
      | inl past ↦ rw past (inr (Taken-empty network octet (ltb→lt 254 octet past), refl))
      | inr room ↦ elim (Bool-cases (contains_key (octet_ip octet) network.allocated_ips)) [
        | inl here ↦
            rw (room, here)
              (Outcome-step network octet machine_id _ (ground arith) here (
                allocate_from-Outcome fuel (octet + 1) machine_id network (ground arith)
                  (omega arith)))
        | inr free ↦
            rw (room, free)
              (inl (
                octet,
                record {
                  at_least = omega arith;
                  at_most = ground arith;
                  free = free;
                  least = λ k le lt. absurd (omega arith);
                },
                refl,
              ))
      ]
    ]

-- `allocate` gives the machine the least free octet from `next_octet` on, records the owner and
-- moves `next_octet` past it; where every octet up to 254 is allocated, it fails with the message
-- of an exhausted pool and changes nothing. There is no other outcome, for every `u8`.
pub allocate-Outcome :
    (network : NetworkState) (machine_id : String)
    → network.next_octet < 256
    → Outcome network network.next_octet machine_id (allocate machine_id network)
unfolding allocate
allocate-Outcome network machine_id small =
    allocate_from-Outcome 256 network.next_octet machine_id network small (omega arith)

-- A use of the pool.
pub data PoolOp : Type 0 where
  take : String → PoolOp
  give_back : String → PoolOp

apply : PoolOp → NetworkState → NetworkState
apply (take machine_id) network = (allocate machine_id network).1
apply (give_back ip) network = release ip network

-- What happens to the pool over time, and how many addresses are handed out.
pub run : NetworkState → List PoolOp → NetworkState
unfolding apply
run network [] = network
run network (op ∷ ops) = run (apply op network) ops

handed_by : PoolOp → NetworkState → ℕ
handed_by (take machine_id) network = if is_ok (allocate machine_id network).0 then 1 else 0
handed_by (give_back ip) network = 0

pub handed_out : NetworkState → List PoolOp → ℕ
unfolding handed_by apply
handed_out network [] = 0
handed_out network (op ∷ ops) = handed_by op network + handed_out (apply op network) ops

Outcome-budget :
    (network : NetworkState) (machine_id : String) (r : Result String × NetworkState)
    → network.next_octet ≤ 255
    → Outcome network network.next_octet machine_id r
    → (r.1.next_octet ≤ 255) × (network.next_octet + (if is_ok r.0 then 1 else 0) ≤ r.1.next_octet)
Outcome-budget network machine_id r small (inl (octet, found, e)) =
    rw e (omega (arith, found.at_most), omega (arith, found.at_least))
Outcome-budget network machine_id r small (inr (full, e)) = rw e (small, omega arith)

-- An operation moves `next_octet` at least by the number of addresses that it hands out.
apply_budget :
    (op : PoolOp) (network : NetworkState)
    → network.next_octet ≤ 255
    → ((apply op network).next_octet ≤ 255)
      × (network.next_octet + handed_by op network ≤ (apply op network).next_octet)
unfolding apply handed_by release
apply_budget (give_back ip) network small = (small, omega arith)
apply_budget (take machine_id) network small =
    Outcome-budget network machine_id (allocate machine_id network) small
      (allocate-Outcome network machine_id (omega arith))

-- Over any sequence of allocations and releases, the addresses handed out number at most what lies
-- between `next_octet` and 255, and `next_octet` stays at most 255.
pub handed_out-le :
    (network : NetworkState) (ops : List PoolOp)
    → network.next_octet ≤ 255
    → (network.next_octet + handed_out network ops ≤ (run network ops).next_octet)
      × ((run network ops).next_octet ≤ 255)
unfolding handed_out run
handed_out-le network [] small = (omega arith, small)
handed_out-le network (op ∷ ops) small =
    let step = apply_budget op network small in
    let rest = handed_out-le (apply op network) ops step.0 in
    (omega (arith, step.1, rest.0), rest.1)

Outcome-full :
    (network : NetworkState) (machine_id : String) (r : Result String × NetworkState)
    → network.next_octet ≡ 255
    → Outcome network network.next_octet machine_id r
    → r ≡ (err (other exhausted), network)
Outcome-full network machine_id r full (inl (octet, found, e)) =
    absurd (omega (arith, found.at_least, found.at_most))
Outcome-full network machine_id r full (inr (all_taken, e)) = e

-- Once `next_octet` is 255, every later allocation fails and changes nothing, whatever is released
-- or allocated before it.
pub exhausted_for_good :
    (network : NetworkState) (ops : List PoolOp) (machine_id : String)
    → network.next_octet ≡ 255
    → allocate machine_id (run network ops) ≡ (err (other exhausted), run network ops)
exhausted_for_good network ops machine_id full =
    let budget = handed_out-le network ops (omega arith) in
    Outcome-full (run network ops) machine_id (allocate machine_id (run network ops))
      (omega (arith, budget.0, budget.1))
      (allocate-Outcome (run network ops) machine_id (omega (arith, budget.1)))
