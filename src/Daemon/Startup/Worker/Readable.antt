-- ===== src/Daemon/Startup/Worker/Readable.antt =====
-- crates/latticed/src/startup/worker.rs: the file of the saved master through the rounds.
use p2p_distributed_inferenc.Prelude.{
  ◌≡◌, ◌≢◌, refl, sym, inl, inr, map, Bool, true, false, not, ◌&&◌, Option, none, some, List, [],
  ◌∷◌, All, Bool-cases,
}
use p2p_distributed_inferenc.Prelude.Results.{ok, err}
use p2p_distributed_inferenc.Net.Identity.{DeviceId}
use p2p_distributed_inferenc.Net.Discovery.{Text}
use p2p_distributed_inferenc.Daemon.Startup.{is_wanted, connect, connect_any}
use p2p_distributed_inferenc.Daemon.Startup.Worker.{
  Answers, State, Outcome, stopped, again, Registration, registered, master_busy, disconnected,
  timed_out, other_answer, register, answered, pair, paired_with, paired_at, session_at, paired,
  after_pairing, connected, dialled, with_target, is_trusted, round, and_then, rounds, at_port,
}
use p2p_distributed_inferenc.Daemon.Startup.Target.{
  Target, WorkerOptions, Parsers, Result, find_target, read_saved, is_some,
}
use p2p_distributed_inferenc.Daemon.Startup.Worker.Saved.{
  IsDialable, NotAtZero, read_saved-IsDialable,
}
use p2p_distributed_inferenc.Daemon.Startup.Worker.Restart.{
  IsHeard, IsRemembered, find_target-IsDialable,
}

-- The next start reads the file as it was written.
abbrev pub IsReadable : State → Type 0
IsReadable s = read_saved s.file ≡ ok s.file

abbrev pub CanRestart : Outcome → Type 0
CanRestart (stopped e s) = IsReadable s
CanRestart (again s) = IsReadable s × IsRemembered s.saved

-- Discovery hands over records as it makes them, and nobody answers at port 0.
abbrev pub IsSound : Answers → Type 0
IsSound a = IsHeard a.events × NotAtZero a.dial × NotAtZero a.dial_again

register-CanRestart :
    (a : Answers) (target : Target) (conn : DeviceId) (s : State)
    → IsDialable target
    → read_saved (some (record target { id = some conn }))
      ≡ ok (some (record target { id = some conn }))
    → IsReadable s
    → CanRestart (register a target conn s)
unfolding register
register-CanRestart a target conn s good saves h = by_answer a.registration a.writable
  where
    by_answer : (r : Registration) (w : Bool) → CanRestart (answered r w target conn s)
    by_answer registered true = (saves, good)
    by_answer registered false = h
    by_answer master_busy w = (h, good)
    by_answer disconnected w = (h, good)
    by_answer timed_out w = (h, good)
    by_answer other_answer w = h

-- Pairing changes only the target's id.
Repaired : Target → Option Target × (DeviceId → Bool) → Type 0
Repaired target (none, store) = Unit {0}
Repaired target (some found, store) = IsDialable found

paired_at-Repaired :
    (a : Answers) (target : Target) (code : Text) (store : DeviceId → Bool) (o : Option DeviceId)
    → IsDialable target
    → Repaired target (paired_at a target code store o)
unfolding Repaired
paired_at-Repaired a target code store none good = tt
paired_at-Repaired a target code store (some peer) good =
    elim (Bool-cases (is_wanted target.id peer)) [
      | inr other ↦ rw other tt
      | inl same ↦ rw same (by_session (a.exchange code peer))
    ]
  where
    by_session :
        (x : Option DeviceId × (DeviceId → Bool)) → Repaired target (session_at target peer store x)
    by_session (none, st) = tt
    by_session (some id, st) = good

pair-Repaired :
    (a : Answers) (target : Target) (code : Option Text) (store : DeviceId → Bool)
    → IsDialable target
    → Repaired target (pair a target code store)
unfolding pair Repaired
pair-Repaired a target (some code) store good =
    paired_at-Repaired a target code store
      (connect_any a.dial_pairing (map (at_port target.pairing_port) target.addrs)) good
pair-Repaired a target none store good = by_typed a.typed
  where
    by_typed : (o : Option Text) → Repaired target (paired_with a target store o)
    by_typed none = tt
    by_typed (some code) =
        paired_at-Repaired a target code store
          (connect_any a.dial_pairing (map (at_port target.pairing_port) target.addrs)) good

paired-CanRestart :
    (a : Answers) (target : Target) (s : State) (x : Option Target × (DeviceId → Bool))
    → IsSound a
    → Repaired target x
    → IsReadable s
    → CanRestart (paired a s x)
unfolding Repaired
paired-CanRestart a target s (none, store) sound good h = h
paired-CanRestart a target s (some found, store) (heard, zero, zero_again) good h =
    by_dial (connect a.dial_again found.id found.addrs) refl
  where
    by_dial :
        (o : Option DeviceId)
        → o ≡ connect a.dial_again found.id found.addrs
        → CanRestart (
            after_pairing a found
              (record s { supplied_code = none; store = store; saved = some found })
              o)
    by_dial none e = (h, good)
    by_dial (some conn) e =
        register-CanRestart a found conn
          (record s { supplied_code = none; store = store; saved = some found }) good
          (read_saved-IsDialable a.dial_again found.id found conn zero_again good (sym e)) h

connected-CanRestart :
    (a : Answers) (target : Target) (s : State) (o : Option DeviceId)
    → IsSound a
    → IsDialable target
    → o ≡ dialled a target s.supplied_code
    → IsReadable s
    → IsRemembered s.saved
    → CanRestart (connected a target s o)
connected-CanRestart a target s (some conn) (heard, zero, zero_again) good e h k =
    register-CanRestart a target conn s good (by_code s.supplied_code e) h
  where
    by_code :
        (c : Option Text)
        → some conn ≡ dialled a target c
        → read_saved (some (record target { id = some conn }))
          ≡ ok (some (record target { id = some conn }))
    by_code none f = read_saved-IsDialable a.dial target.id target conn zero good (sym f)
    by_code (some code) f = absurd cc
connected-CanRestart a target s none sound good e h k =
    elim (Bool-cases (is_trusted s target.id && not (is_some s.supplied_code))) [
      | inl waits ↦ rw waits (h, k)
      | inr pairs ↦ rw pairs (
          paired-CanRestart a target s (pair a target s.supplied_code s.store) sound
            (pair-Repaired a target s.supplied_code s.store good) h)
    ]

module _ (p : Parsers) (options : WorkerOptions) (self_id : DeviceId)
    (pairs : options.pairing_port ≢ 0) where
  round-CanRestart :
      (a : Answers) (s : State)
      → IsSound a
      → IsReadable s
      → IsRemembered s.saved
      → CanRestart (round p options self_id a s)
  unfolding round
  round-CanRestart a s sound h k = by_target (find_target p options s.saved self_id a.events) refl
    where
      by_target :
          (r : Result (Option Target))
          → r ≡ find_target p options s.saved self_id a.events
          → CanRestart (with_target a s r)
      by_target (err e) f = h
      by_target (ok none) f = (h, k)
      by_target (ok (some target)) f =
          connected-CanRestart a target s (dialled a target s.supplied_code) sound
            (find_target-IsDialable p options self_id pairs s.saved a.events target k sound.0
              (sym f))
            refl h k

  -- Whatever a worker goes through, the master that it has saved is one that its next start reads back and
  -- does not refuse. This is so where its pairing port is not 0, discovery hands over records as it makes
  -- them, and nobody answers at port 0.
  pub rounds-CanRestart :
      (answers : List Answers) (s : State)
      → All IsSound answers
      → IsReadable s
      → IsRemembered s.saved
      → CanRestart (rounds p options self_id answers s)
  unfolding rounds
  rounds-CanRestart [] s sound h k = (h, k)
  rounds-CanRestart (a ∷ rest) s (sound, others) h k =
      by_round (round p options self_id a s) (round-CanRestart a s sound h k)
        (λ t f g. rounds-CanRestart rest t others f g)
    where
      by_round :
          (o : Outcome)
          → CanRestart o
          → ((t : State)
              → IsReadable t
              → IsRemembered t.saved
              → CanRestart (rounds p options self_id rest t))
          → CanRestart (and_then p options self_id (rounds p options self_id rest) o)
      by_round (stopped e t) f go = f
      by_round (again t) (f, g) go = go t f g
