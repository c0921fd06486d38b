-- ===== src/Daemon/Startup/Worker/Rounds.antt =====
-- crates/latticed/src/startup/worker.rs: what a worker comes to through its rounds.
use p2p_distributed_inferenc.Prelude.{
  ◌≡◌, refl, inl, inr, Bool, true, false, not, ◌&&◌, Option, none, some, List, [], ◌∷◌, Bool-cases,
}
use p2p_distributed_inferenc.Prelude.Results.{ok, err}
use p2p_distributed_inferenc.Net.Identity.{DeviceId}
use p2p_distributed_inferenc.Daemon.Startup.{connect}
use p2p_distributed_inferenc.Daemon.Startup.Worker.{
  Answers, State, Outcome, stopped, again, Registration, registered, master_busy, disconnected,
  timed_out, other_answer, register, answered, pair, paired, after_pairing, connected, dialled,
  with_target, is_trusted, round, and_then, rounds,
}
use p2p_distributed_inferenc.Daemon.Startup.Target.{
  Target, WorkerOptions, Parsers, Result, find_target, is_some,
}

-- The runtime has no master: between the rounds, and when the worker ends.
abbrev pub Unauthorized : Outcome → Type 0
Unauthorized (stopped e s) = s.master ≡ none
Unauthorized (again s) = s.master ≡ none

register-Unauthorized :
    (a : Answers) (target : Target) (conn : DeviceId) (s : State)
    → s.master ≡ none
    → Unauthorized (register a target conn s)
unfolding register
register-Unauthorized a target conn s h = by_answer a.registration a.writable
  where
    by_answer : (r : Registration) (w : Bool) → Unauthorized (answered r w target conn s)
    by_answer registered true = refl
    by_answer registered false = refl
    by_answer master_busy w = h
    by_answer disconnected w = h
    by_answer timed_out w = h
    by_answer other_answer w = refl

module _ (p : Parsers) (options : WorkerOptions) (self_id : DeviceId) where
  connected-Unauthorized :
      (a : Answers) (target : Target) (s : State) (o : Option DeviceId)
      → s.master ≡ none
      → Unauthorized (connected a target s o)
  connected-Unauthorized a target s (some conn) h = register-Unauthorized a target conn s h
  connected-Unauthorized a target s none h =
      elim (Bool-cases (is_trusted s target.id && not (is_some s.supplied_code))) [
        | inl waits ↦ rw waits h
        | inr pairs ↦ rw pairs (by_pairing (pair a target s.supplied_code s.store))
      ]
    where
      by_pairing : (x : Option Target × (DeviceId → Bool)) → Unauthorized (paired a s x)
      by_pairing (none, store) = refl
      by_pairing (some found, store) = by_dial (connect a.dial_again found.id found.addrs)
        where
          by_dial :
              (o : Option DeviceId)
              → Unauthorized (
                  after_pairing a found
                    (record s { supplied_code = none; store = store; saved = some found })
                    o)
          by_dial none = h
          by_dial (some conn) =
              register-Unauthorized a found conn
                (record s { supplied_code = none; store = store; saved = some found }) h

  round-Unauthorized :
      (a : Answers) (s : State) → s.master ≡ none → Unauthorized (round p options self_id a s)
  unfolding round
  round-Unauthorized a s h = by_target (find_target p options s.saved self_id a.events)
    where
      by_target : (r : Result (Option Target)) → Unauthorized (with_target a s r)
      by_target (err e) = refl
      by_target (ok none) = h
      by_target (ok (some target)) =
          connected-Unauthorized a target s (dialled a target s.supplied_code) h

  -- The runtime is authorized for a master only while the worker serves it: before each round and when the
  -- worker has ended, for whatever reason, it is authorized for nobody.
  pub rounds-Unauthorized :
      (answers : List Answers) (s : State)
      → s.master ≡ none
      → Unauthorized (rounds p options self_id answers s)
  unfolding rounds
  rounds-Unauthorized [] s h = h
  rounds-Unauthorized (a ∷ rest) s h =
      by_round (round p options self_id a s) (round-Unauthorized a s h) (rounds-Unauthorized rest)
    where
      by_round :
          (o : Outcome)
          → Unauthorized o
          → ((t : State) → t.master ≡ none → Unauthorized (rounds p options self_id rest t))
          → Unauthorized (and_then p options self_id (rounds p options self_id rest) o)
      by_round (stopped e t) f go = f
      by_round (again t) f go = go t f
