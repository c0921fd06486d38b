-- ===== src/Daemon/Startup/Worker.antt =====
-- crates/latticed/src/startup/worker.rs: the loop in which a worker looks for a master, pairs, registers
-- and serves. What it prints, the clock and the GPU's setup are left out, and so are the signals that stop
-- it. Texts are lists of code points.
pub mod Looking
pub mod Master
pub mod Rounds
pub mod Saved
pub mod Restart
pub mod Readable
mod Examples
use p2p_distributed_inferenc.Prelude.{
  ℕ, Bool, true, false, not, ◌&&◌, ◌||◌, Option, none, some, List, [], ◌∷◌, ◌++◌, map, retain, ◌==◌,
  if◌then◌else◌,
}
use p2p_distributed_inferenc.Prelude.Order.{Ord, bytes_ord, cmp_bytes, is_eq}
use p2p_distributed_inferenc.Prelude.BTreeMap
use p2p_distributed_inferenc.Prelude.Results
use p2p_distributed_inferenc.Prelude.Results.{ok, err, ◌>>=◌, ◌>>◌, guard, or_fail}
use mathlib.Core.Option
use p2p_distributed_inferenc.Net.Identity.{DeviceId}
use p2p_distributed_inferenc.Net.Discovery.{
  Text, IpAddr, v4, SocketAddr, is_ipv4, DiscoveredPeer, PeerEvent, found, lost, protocol_version,
}
use p2p_distributed_inferenc.Daemon.Startup.{same_id, is_wanted, usable, connect, connect_any}
use p2p_distributed_inferenc.Daemon.Startup.Target.{
  Fault, Parsers, Result, Target, WorkerOptions, could_not_pair, find_target, is_some, not_accepted,
  not_saved,
}

-- How the master's answer to a registration comes out.
pub data Registration : Type 0 where
  registered master_busy disconnected timed_out other_answer : Registration

-- What a round meets: the events of its browser, who answers at an address, the code that is typed in, what
-- a pairing session of pairing_session.rs yields with the trust store that it leaves, who answers after
-- that, the answer to the registration, and whether the file can be written.
pub record Answers : Type 0 where
  pub events : Option (List PeerEvent)
  pub dial : SocketAddr → Option DeviceId
  pub typed : Option Text
  pub dial_pairing : SocketAddr → Option DeviceId
  pub exchange : Text → DeviceId → Option DeviceId × (DeviceId → Bool)
  pub dial_again : SocketAddr → Option DeviceId
  pub registration : Registration
  pub writable : Bool

-- The loop's variables, with the trust store, the file, the master that the runtime is authorized for, and
-- the calls that authorize one or none, last one first.
pub record State : Type 0 where
  pub saved : Option Target
  pub supplied_code : Option Text
  pub store : DeviceId → Bool
  pub file : Option Target
  pub master : Option DeviceId
  pub authorized : List (Option DeviceId)

pub data Outcome : Type 0 where
  stopped : Fault → State → Outcome
  again : State → Outcome

abbrev pub authorize_master : Option DeviceId → State → State
authorize_master id s = record s { master = id; authorized = id ∷ s.authorized }

-- The worker ends, and `RuntimeGuard` is dropped.
abbrev pub stop : Fault → State → Outcome
stop e s = stopped e (authorize_master none s)

-- A registered worker serves until its master disconnects.
abbrev pub served : Bool → Target → DeviceId → State → Outcome
served true target conn s = again (
    authorize_master none (record (authorize_master (some conn) s) {
      saved = some (record target { id = some conn });
      file = some (record target { id = some conn });
    }))
served false target conn s = stop not_saved (authorize_master (some conn) s)

abbrev pub retry : Target → DeviceId → State → Outcome
retry target conn s = again (record s { saved = some (record target { id = some conn }) })

abbrev pub answered : Registration → Bool → Target → DeviceId → State → Outcome
answered registered writable target conn s = served writable target conn s
answered master_busy writable target conn s = retry target conn s
answered disconnected writable target conn s = retry target conn s
answered timed_out writable target conn s = retry target conn s
answered other_answer writable target conn s = stop not_accepted s

unfoldable pub register : Answers → Target → DeviceId → State → Outcome
register a target conn s = answered a.registration a.writable target conn s

abbrev pub session_at :
    Target
    → DeviceId
    → (DeviceId → Bool)
    → Option DeviceId × (DeviceId → Bool)
    → Option Target × (DeviceId → Bool)
session_at target peer store (none, store') = (none, store')
session_at target peer store (some id, store') = (some (record target { id = some id }), store')

abbrev pub paired_at :
    Answers
    → Target
    → Text
    → (DeviceId → Bool)
    → Option DeviceId
    → Option Target × (DeviceId → Bool)
paired_at a target code store none = (none, store)
paired_at a target code store (some peer) =
    if not (is_wanted target.id peer)
    then (none, store)
    else session_at target peer store (a.exchange code peer)

abbrev pub at_port : ℕ → SocketAddr → SocketAddr
at_port port addr = record addr { port = port }

abbrev pub paired_with :
    Answers → Target → (DeviceId → Bool) → Option Text → Option Target × (DeviceId → Bool)
paired_with a target store none = (none, store)
paired_with a target store (some code) =
    paired_at a target code store
      (connect_any a.dial_pairing (map (at_port target.pairing_port) target.addrs))

-- `pair`, with the code that was supplied or that is typed in. The source prints the first address of
-- the target before it dials, which would panic where there is none; targets that are found or read
-- back have one, and here no address is no connection.
unfoldable pub pair :
    Answers → Target → Option Text → (DeviceId → Bool) → Option Target × (DeviceId → Bool)
pair a target none store = paired_with a target store a.typed
pair a target (some code) store = paired_with a target store (some code)

abbrev pub after_pairing : Answers → Target → State → Option DeviceId → Outcome
after_pairing a target s none = again s
after_pairing a target s (some conn) = register a target conn s

abbrev pub paired : Answers → State → Option Target × (DeviceId → Bool) → Outcome
paired a s (none, store) = stop could_not_pair (record s { supplied_code = none; store = store })
paired a s (some target, store) =
    after_pairing a target (record s { supplied_code = none; store = store; saved = some target })
      (connect a.dial_again target.id target.addrs)

abbrev pub is_trusted : State → Option DeviceId → Bool
is_trusted s none = false
is_trusted s (some id) = s.store id

abbrev pub connected : Answers → Target → State → Option DeviceId → Outcome
connected a target s (some conn) = register a target conn s
connected a target s none =
    if is_trusted s target.id && not (is_some s.supplied_code)
    then again s
    else paired a s (pair a target s.supplied_code s.store)

abbrev pub dialled : Answers → Target → Option Text → Option DeviceId
dialled a target none = connect a.dial target.id target.addrs
dialled a target (some code) = none

abbrev pub with_target : Answers → State → Result (Option Target) → Outcome
with_target a s (err e) = stop e s
with_target a s (ok none) = again s
with_target a s (ok (some target)) = connected a target s (dialled a target s.supplied_code)

module _ (p : Parsers) (options : WorkerOptions) (self_id : DeviceId) where
  -- One round of the loop of `run_inner`, with the target that it finds.
  unfoldable pub round : Answers → State → Outcome
  round a s = with_target a s (find_target p options s.saved self_id a.events)

  abbrev pub and_then : (State → Outcome) → Outcome → Outcome
  and_then f (stopped e s) = stopped e s
  and_then f (again s) = f s

  unfoldable pub rounds : List Answers → State → Outcome
  rounds [] s = again s
  rounds (a ∷ rest) s = and_then (rounds rest) (round a s)
