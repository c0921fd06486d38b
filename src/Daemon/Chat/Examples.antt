-- ===== src/Daemon/Chat/Examples.antt =====
-- crates/latticed/src/chat.rs: a chat with one worker, by its address.
use p2p_distributed_inferenc.Prelude.{ℕ, ◌≡◌, refl, true, false, none, some, [], ◌∷◌, length}
use p2p_distributed_inferenc.Prelude.Order.{cmp_bytes}
use p2p_distributed_inferenc.Prelude.Results.{ok, err}
use p2p_distributed_inferenc.Net.Identity.{DeviceId}
use p2p_distributed_inferenc.Net.Control.{EngineCapabilities, info}
use p2p_distributed_inferenc.Net.Discovery.{v4}
use p2p_distributed_inferenc.Daemon.Startup.{connect}
use p2p_distributed_inferenc.Daemon.Startup.Target.{Parsers}
use p2p_distributed_inferenc.Daemon.Chat.{
  Located, is_empty, gpu_busy, check_worker, contains, put_targets, find_workers, connect_worker,
  connect_each, connect_workers,
}
use p2p_distributed_inferenc.Daemon.Chat.Fit.{AreFit, connect_workers-AreFit}

abbrev caps : EngineCapabilities
caps = record {
  revision = "same";
  device = record {
    name = "Vulkan0";
    description = "RX 7600";
    kind = "gpu";
    total_memory = 8;
    free_memory = 7;
  };
  busy = false;
}

busy_refused : check_worker (record caps { busy = true }) "same" ≡ err gpu_busy
unfolding check_worker
busy_refused = refl

abbrev parsers : Parsers
parsers = record {
  socket_addr = λ text. some (record { ip = v4 3232237352; port = 47900 });
  ipv4 = λ text. none;
  device_id = λ text. none;
  is_unspecified = λ ip. false;
  is_loopback = λ ip. false;
}

abbrev worker : DeviceId
worker = 1 ∷ 1 ∷ 1 ∷ 1 ∷ 1 ∷ 1 ∷ 1 ∷ 1 ∷ []

abbrev here_id : DeviceId
here_id = 9 ∷ 9 ∷ 9 ∷ 9 ∷ 9 ∷ 9 ∷ 9 ∷ 9 ∷ []

connects :
    connect_workers parsers
      (worker ∷ [])
      here_id
      (λ addr. some worker)
      (λ id. some (info caps))
      "same"
      ([] ∷ [])
      none
    ≡ ok (record { id = worker; caps = caps } ∷ [])
unfolding connect_workers find_workers put_targets connect_each connect_worker connect contains
    check_worker cmp_bytes
connects = refl

connect_workers-AreFit_example :
    AreFit parsers
      (worker ∷ [])
      here_id
      (λ addr. some worker)
      (λ id. some (info caps))
      "same"
      []
      (record { id = worker; caps = caps } ∷ [])
    × (places : Located) × (find_workers parsers (worker ∷ []) here_id ([] ∷ []) none ≡ ok places)
    × (◌≡◌ {A = ℕ} 1 (length places))
    × (is_empty places ≡ false)
connect_workers-AreFit_example =
    connect_workers-AreFit parsers (worker ∷ []) here_id (λ addr. some worker)
      (λ id. some (info caps)) "same" ([] ∷ []) none (record { id = worker; caps = caps } ∷ [])
      connects
