-- ===== src/Daemon/Startup/Worker/Examples.antt =====
-- crates/latticed/src/startup/worker.rs: a worker whose master is away for a round, and the inputs of the
-- source's own tests.
use p2p_distributed_inferenc.Prelude.{
  ℕ, ◌≡◌, ◌≢◌, arith, refl, true, false, Option, none, some, [], ◌∷◌, ◌==◌, if◌then◌else◌,
}
use p2p_distributed_inferenc.Prelude.Order.{cmp_bytes}
use p2p_distributed_inferenc.Prelude.Results.{ok, err}
use p2p_distributed_inferenc.Net.Identity.{DeviceId}
use p2p_distributed_inferenc.Net.Discovery.{Text, v4, SocketAddr, DiscoveredPeer, found}
use p2p_distributed_inferenc.Daemon.Startup.Worker.{Answers, State, registered, rounds}
use p2p_distributed_inferenc.Daemon.Startup.Target.{
  Target, WorkerOptions, Parsers, multiple_masters, master_role, any_ipv4, select_master,
  read_saved, any_invalid,
}
use p2p_distributed_inferenc.Daemon.Startup.Worker.Master.{IsHonest, Faithful, rounds-Faithful}
use p2p_distributed_inferenc.Daemon.Startup.Worker.Readable.{CanRestart, IsSound, rounds-CanRestart}
use p2p_distributed_inferenc.Daemon.Startup.Worker.Rounds.{Unauthorized, rounds-Unauthorized}

abbrev here_id : DeviceId
here_id = 9 ∷ 9 ∷ 9 ∷ 9 ∷ 9 ∷ 9 ∷ 9 ∷ 9 ∷ []

abbrev master_id : DeviceId
master_id = 1 ∷ 1 ∷ 1 ∷ 1 ∷ 1 ∷ 1 ∷ 1 ∷ 1 ∷ []

abbrev other_id : DeviceId
other_id = 2 ∷ 2 ∷ 2 ∷ 2 ∷ 2 ∷ 2 ∷ 2 ∷ 2 ∷ []

abbrev address : SocketAddr
address = record { ip = v4 3232237352; port = 47900 }

abbrev peer : DeviceId → Option Text → DiscoveredPeer
peer id role = record {
  device_id = id;
  name = [];
  platform = [];
  total_memory = 0;
  protocol = 1;
  addrs = address ∷ [];
  role = role;
  pairing_port = some 47901;
}

two_masters :
    select_master (peer master_id (some master_role) ∷ peer other_id (some master_role) ∷ []) none
    ≡ err (multiple_masters master_id other_id)
unfolding select_master cmp_bytes any_ipv4
two_masters = refl

wanted_master :
    select_master
      (peer master_id (some master_role) ∷ peer other_id (some master_role) ∷ [])
      (some master_id)
    ≡ ok (some (peer master_id (some master_role)))
unfolding select_master cmp_bytes any_ipv4
wanted_master = refl

no_master :
    select_master (peer other_id (some (119 ∷ [])) ∷ peer master_id none ∷ []) none ≡ ok none
unfolding select_master cmp_bytes any_ipv4
no_master = refl

-- A text of one character is an address, of two a port too.
abbrev parsers : Parsers
parsers = record {
  socket_addr = λ text. elim text [
    | [] ↦ none
    | x ∷ rest ↦ elim rest [ [] ↦ none | port ∷ r ↦ some (record { ip = v4 x; port = port }) ]
  ];
  ipv4 = λ text. elim text [ [] ↦ none | x ∷ rest ↦ some x ];
  device_id = λ text. none;
  is_unspecified = λ ip. false;
  is_loopback = λ ip. false;
}

abbrev options : WorkerOptions
options = record { master = none; pairing_port = 47901 }

abbrev target : Target
target = record { id = some master_id; addrs = address ∷ []; pairing_port = 47901 }

abbrev remembering : State
remembering = record {
  saved = some target;
  supplied_code = none;
  store = λ id. true;
  file = some target;
  master = none;
  authorized = [];
}

abbrev answers : Option DeviceId → Answers
answers who = record {
  events = some (found (peer other_id (some master_role)) ∷ []);
  dial = λ addr. if addr.port == 0 then none else who;
  typed = none;
  dial_pairing = λ addr. none;
  exchange = λ code id. (some id, λ other. true);
  dial_again = λ addr. none;
  registration = registered;
  writable = true;
}

rounds-Unauthorized_example :
    Unauthorized
      (rounds parsers options here_id (answers none ∷ answers (some master_id) ∷ []) remembering)
rounds-Unauthorized_example =
    rounds-Unauthorized parsers options here_id (answers none ∷ answers (some master_id) ∷ [])
      remembering refl

honest : (who : Option DeviceId) → IsHonest parsers options here_id (answers who)
honest who code at id e = cc

rounds-Faithful_example : Faithful parsers options here_id master_id (
    rounds parsers options here_id
      (answers none ∷ answers (some other_id) ∷ answers (some master_id) ∷ [])
      remembering)
rounds-Faithful_example =
    rounds-Faithful parsers options here_id
      (answers none ∷ answers (some other_id) ∷ answers (some master_id) ∷ []) master_id remembering
      (honest none, (honest (some other_id), (honest (some master_id), tt))) refl tt refl

nonzero : ◌≢◌ {A = ℕ} 47901 0
nonzero e = cc

not_zero : ◌≢◌ {A = Option ℕ} (some 47901) (some 0)
not_zero e = cc

sound : (who : Option DeviceId) → IsSound (answers who)
sound who = (
  ((not_zero, 47900, (refl, tt)), tt),
  λ addr zero. let e : (addr.port == 0) ≡ true = ground arith in rw e refl,
  λ addr zero. refl,
)

saved_reads : read_saved remembering.file ≡ ok remembering.file
unfolding read_saved any_invalid
saved_reads = refl

rounds-CanRestart_example :
    CanRestart
      (rounds parsers options here_id (answers none ∷ answers (some master_id) ∷ []) remembering)
rounds-CanRestart_example =
    rounds-CanRestart parsers options here_id nonzero (answers none ∷ answers (some master_id) ∷ [])
      remembering (sound none, (sound (some master_id), tt)) saved_reads
      (nonzero, 47900, ((refl, refl), tt))
