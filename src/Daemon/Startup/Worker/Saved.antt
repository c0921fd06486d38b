-- ===== src/Daemon/Startup/Worker/Saved.antt =====
-- crates/latticed/src/startup/worker.rs: what a worker saves it can read when it starts again.
use p2p_distributed_inferenc.Prelude.{
  ℕ, ◌≡◌, ◌≢◌, refl, ap, ◌∙◌, inl, inr, Bool, true, false, not, Option, none, some, List, [], ◌∷◌,
  ◌++◌, All, retain, arith, Bool-cases, Option-cases, ◌==◌,
}
use p2p_distributed_inferenc.Prelude.Results.{ok}
use p2p_distributed_inferenc.Net.Identity.{DeviceId}
use p2p_distributed_inferenc.Net.Discovery.{IpAddr, SocketAddr, is_ipv4}
use p2p_distributed_inferenc.Daemon.Startup.{usable, connect}
use p2p_distributed_inferenc.Daemon.Startup.Target.{Target, read_saved, any_invalid, is_empty}

-- The addresses are IPv4 ones with this port.
abbrev pub AtPort : ℕ → List SocketAddr → Type 0
AtPort port addrs = All (λ a. (is_ipv4 a ≡ true) × (a.port ≡ port)) addrs

abbrev pub IsDialable : Target → Type 0
IsDialable target = (target.pairing_port ≢ 0) × (port : ℕ) × AtPort port target.addrs

-- Nobody answers at port 0.
abbrev pub NotAtZero : (SocketAddr → Option DeviceId) → Type 0
NotAtZero dial = (a : SocketAddr) → a.port ≡ 0 → dial a ≡ none

-- Where somebody answers, there is an address, and its port is not 0.
connect_answers :
    (dial : SocketAddr → Option DeviceId) (expected : Option DeviceId) (port : ℕ)
    (addrs : List SocketAddr) (conn : DeviceId)
    → NotAtZero dial
    → AtPort port addrs
    → connect dial expected addrs ≡ some conn
    → (port ≢ 0) × (first : SocketAddr) × (rest : List SocketAddr) × (addrs ≡ (first ∷ rest))
unfolding connect
connect_answers dial expected port [] conn zero at h = absurd cc
connect_answers dial expected port (addr ∷ addrs) conn zero ((four, same), ats) h = (
  elim (Option-cases (dial addr)) [
    | inl e ↦ (connect_answers dial expected port addrs conn zero ats (rw e at h)).0
    | inr (id, e) ↦ λ none_there. cc (e, zero addr (same ∙ none_there))
  ],
  addr,
  addrs,
  refl,
)

any_invalid-AtPort :
    (port : ℕ) (addrs : List SocketAddr) → port ≢ 0 → AtPort port addrs → any_invalid addrs ≡ false
unfolding any_invalid
any_invalid-AtPort port [] pos at = refl
any_invalid-AtPort port (a ∷ addrs) pos ((four, same), ats) =
    let nonzero : (a.port == 0) ≡ false = ground (arith, same, pos) in
    simp (four, nonzero, any_invalid-AtPort port addrs pos ats) refl

-- A target that somebody answers at is read back as it is saved.
pub read_saved-IsDialable :
    (dial : SocketAddr → Option DeviceId) (expected : Option DeviceId) (target : Target)
    (conn : DeviceId)
    → NotAtZero dial
    → IsDialable target
    → connect dial expected target.addrs ≡ some conn
    → read_saved (some (record target { id = some conn }))
      ≡ ok (some (record target { id = some conn }))
unfolding read_saved
read_saved-IsDialable dial expected target conn zero (pairs, port, at) h =
    let (pos, first, rest, e) = connect_answers dial expected port target.addrs conn zero at h in
    let valid = any_invalid-AtPort port target.addrs pos at in
    let paired_port : (target.pairing_port == 0) ≡ false = ground (arith, pairs) in
    let there : is_empty target.addrs ≡ false = ap is_empty e in
    simp (there, paired_port, valid) refl

retain-AtPort :
    (q : SocketAddr → Bool) (port : ℕ) (addrs : List SocketAddr)
    → AtPort port addrs
    → AtPort port (retain q addrs)
retain-AtPort q port [] at = tt
retain-AtPort q port (a ∷ addrs) (h, hs) = elim (Bool-cases (q a)) [
  | inl e ↦ rw e (h, retain-AtPort q port addrs hs)
  | inr e ↦ rw e (retain-AtPort q port addrs hs)
]

retain_ipv4-AtPort :
    (port : ℕ) (addrs : List SocketAddr)
    → All (λ a. a.port ≡ port) addrs
    → AtPort port (retain is_ipv4 addrs)
retain_ipv4-AtPort port [] at = tt
retain_ipv4-AtPort port (a ∷ addrs) (h, hs) = elim (Bool-cases (is_ipv4 a)) [
  | inl e ↦ rw e ((e, h), retain_ipv4-AtPort port addrs hs)
  | inr e ↦ rw e (retain_ipv4-AtPort port addrs hs)
]

append-AtPort :
    (port : ℕ) (xs ys : List SocketAddr) → AtPort port xs → AtPort port ys → AtPort port (xs ++ ys)
append-AtPort port [] ys h k = k
append-AtPort port (x ∷ xs) ys (h, hs) k = (h, append-AtPort port xs ys hs k)

pub usable-AtPort :
    (loopback : IpAddr → Bool) (port : ℕ) (addrs : List SocketAddr)
    → All (λ a. a.port ≡ port) addrs
    → AtPort port (usable loopback addrs)
unfolding usable
usable-AtPort loopback port addrs h =
    let at = retain_ipv4-AtPort port addrs h in
    append-AtPort port (retain (λ a. not (loopback a.ip)) (retain is_ipv4 addrs))
      (retain (λ a. loopback a.ip) (retain is_ipv4 addrs))
      (retain-AtPort (λ a. not (loopback a.ip)) port (retain is_ipv4 addrs) at)
      (retain-AtPort (λ a. loopback a.ip) port (retain is_ipv4 addrs) at)
