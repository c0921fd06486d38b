-- ===== src/Daemon/Startup/Worker/Master.antt =====
-- crates/latticed/src/startup/worker.rs: which masters a worker serves.
use p2p_distributed_inferenc.Prelude.{
  ◌≡◌, ◌⊎◌, map, refl, sym, ap, ◌∙◌, inl, inr, Bool, true, false, not, ◌&&◌, Option, none, some,
  List, [], ◌∷◌, All, Bool-cases,
}
use p2p_distributed_inferenc.Prelude.Results.{ok, err}
use p2p_distributed_inferenc.Net.Identity.{DeviceId}
use p2p_distributed_inferenc.Net.Discovery.{Text}
use p2p_distributed_inferenc.Daemon.Startup.{same_id, connect, connect_any}
use p2p_distributed_inferenc.Daemon.Startup.Worker.{
  Answers, State, Outcome, stopped, again, Registration, registered, master_busy, disconnected,
  timed_out, other_answer, register, answered, pair, paired_with, paired_at, session_at, is_trusted,
  paired, after_pairing, connected, dialled, with_target, round, and_then, rounds, at_port,
}
use p2p_distributed_inferenc.Daemon.Startup.Target.{
  Target, WorkerOptions, Parsers, Result, id_of, find_target, is_some,
}
use p2p_distributed_inferenc.Daemon.Startup.Worker.Looking.{
  same_id-eq, connect-wanted, find_target-id,
}

module _ (p : Parsers) (options : WorkerOptions) (self_id : DeviceId) where
  -- All that the runtime was authorized for is the one master, or nobody.
  abbrev pub Serves : DeviceId → State → Type 0
  Serves id s = All (λ m. (m ≡ none) ⊎ (m ≡ some id)) s.authorized

  abbrev pub Faithful : DeviceId → Outcome → Type 0
  Faithful id (stopped e s) = Serves id s
  Faithful id (again s) = Serves id s × (id_of s.saved ≡ some id)

  register-Faithful :
      (a : Answers) (target : Target) (id conn : DeviceId) (s : State)
      → conn ≡ id
      → Serves id s
      → Faithful id (register a target conn s)
  unfolding register
  register-Faithful a target id conn s e h = by_answer a.registration a.writable
    where
      by_answer : (r : Registration) (w : Bool) → Faithful id (answered r w target conn s)
      by_answer registered true = ((inl refl, (inr (ap some e), h)), ap some e)
      by_answer registered false = (inl refl, (inr (ap some e), h))
      by_answer master_busy w = (h, ap some e)
      by_answer disconnected w = (h, ap some e)
      by_answer timed_out w = (h, ap some e)
      by_answer other_answer w = (inl refl, h)

  -- A pairing session yields the device at the other end of its connection, or none.
  abbrev pub IsHonest : Answers → Type 0
  IsHonest a = (code : Text) (peer id : DeviceId) → (a.exchange code peer).0 ≡ some id → id ≡ peer

  paired_at-id :
      (a : Answers) (target found : Target) (code : Text) (store : DeviceId → Bool)
      (o : Option DeviceId) (id : DeviceId)
      → IsHonest a
      → target.id ≡ some id
      → (paired_at a target code store o).0 ≡ some found
      → found.id ≡ some id
  paired_at-id a target found code store none id honest e h = absurd cc
  paired_at-id a target found code store (some peer) id honest e h =
      elim (Bool-cases (same_id peer id)) [
        | inr differs ↦ absurd (cc (rw (e, differs) at h))
        | inl same ↦
            by_session (same_id-eq peer id same) (a.exchange code peer) refl (rw (e, same) at h)
      ]
    where
      by_session :
          peer ≡ id
          → (x : Option DeviceId × (DeviceId → Bool)) → x ≡ a.exchange code peer
          → (session_at target peer store x).0 ≡ some found
          → found.id ≡ some id
      by_session is_it (none, st) f k = absurd cc
      by_session is_it (some other, st) f k =
          let it : other ≡ peer =
            honest code peer other
              (ap (λ (x : Option DeviceId × (DeviceId → Bool)). x.0) (sym f)) in
          sym (ap (λ (x : Option Target). id_of x) k) ∙ ap some (it ∙ is_it)

  pair-id :
      (a : Answers) (target found : Target) (code : Option Text) (store : DeviceId → Bool)
      (id : DeviceId)
      → IsHonest a
      → target.id ≡ some id
      → (pair a target code store).0 ≡ some found
      → found.id ≡ some id
  unfolding pair
  pair-id a target found (some code) store id honest e h =
      paired_at-id a target found code store
        (connect_any a.dial_pairing (map (at_port target.pairing_port) target.addrs)) id honest e h
  pair-id a target found none store id honest e h = by_typed a.typed h
    where
      by_typed :
          (o : Option Text) → (paired_with a target store o).0 ≡ some found → found.id ≡ some id
      by_typed none k = absurd cc
      by_typed (some code) k =
          paired_at-id a target found code store
            (connect_any a.dial_pairing (map (at_port target.pairing_port) target.addrs)) id honest
            e k

  after_pairing-Faithful :
      (a : Answers) (target : Target) (id : DeviceId) (s : State) (o : Option DeviceId)
      → Serves id s
      → id_of s.saved ≡ some id
      → ((conn : DeviceId) → o ≡ some conn → conn ≡ id)
      → Faithful id (after_pairing a target s o)
  after_pairing-Faithful a target id s none h k wanted = (h, k)
  after_pairing-Faithful a target id s (some conn) h k wanted =
      register-Faithful a target id conn s (wanted conn refl) h

  paired-Faithful :
      (a : Answers) (s : State) (id : DeviceId) (x : Option Target × (DeviceId → Bool))
      → Serves id s
      → ((found : Target) → x.0 ≡ some found → found.id ≡ some id)
      → Faithful id (paired a s x)
  paired-Faithful a s id (none, store) h is_it = (inl refl, h)
  paired-Faithful a s id (some target, store) h is_it =
      let e = is_it target refl in
      after_pairing-Faithful a target id
        (record s { supplied_code = none; store = store; saved = some target })
        (connect a.dial_again target.id target.addrs) h e
        (λ conn k. connect-wanted a.dial_again id conn target.addrs (rw e at k))

  connected-Faithful :
      (a : Answers) (target : Target) (id : DeviceId) (s : State) (o : Option DeviceId)
      → IsHonest a
      → target.id ≡ some id
      → Serves id s
      → id_of s.saved ≡ some id
      → ((conn : DeviceId) → o ≡ some conn → conn ≡ id)
      → Faithful id (connected a target s o)
  connected-Faithful a target id s (some conn) honest e h k wanted =
      register-Faithful a target id conn s (wanted conn refl) h
  connected-Faithful a target id s none honest e h k wanted =
      elim (Bool-cases (is_trusted s target.id && not (is_some s.supplied_code))) [
        | inl waits ↦ rw waits (h, k)
        | inr pairs ↦ rw pairs (
            paired-Faithful a s id (pair a target s.supplied_code s.store) h
              (λ found f. pair-id a target found s.supplied_code s.store id honest e f))
      ]

  dialled-id :
      (a : Answers) (target : Target) (id conn : DeviceId) (code : Option Text)
      → target.id ≡ some id
      → dialled a target code ≡ some conn
      → conn ≡ id
  dialled-id a target id conn none e h = connect-wanted a.dial id conn target.addrs (rw e at h)
  dialled-id a target id conn (some code) e h = absurd cc

  round-Faithful :
      (a : Answers) (id : DeviceId) (s : State)
      → IsHonest a
      → options.master ≡ none
      → Serves id s
      → id_of s.saved ≡ some id
      → Faithful id (round p options self_id a s)
  unfolding round
  round-Faithful a id s honest unasked h k =
      by_target (find_target p options s.saved self_id a.events) refl
    where
      by_target :
          (r : Result (Option Target))
          → r ≡ find_target p options s.saved self_id a.events
          → Faithful id (with_target a s r)
      by_target (err e) f = (inl refl, h)
      by_target (ok none) f = (h, k)
      by_target (ok (some target)) f =
          let e = find_target-id p options self_id s.saved id a.events target unasked k (sym f) in
          connected-Faithful a target id s (dialled a target s.supplied_code) honest e h k
            (λ conn g. dialled-id a target id conn s.supplied_code e g)

  -- A worker that remembers a master, and is started without `--master`, serves that one or none, however
  -- many rounds go by and whatever is announced, answers or asks for a pairing in them: its runtime is
  -- authorized for no other device, and it remembers no other one. This is so where each pairing session
  -- yields the device at the other end.
  pub rounds-Faithful :
      (answers : List Answers) (id : DeviceId) (s : State)
      → All IsHonest answers
      → options.master ≡ none
      → Serves id s
      → id_of s.saved ≡ some id
      → Faithful id (rounds p options self_id answers s)
  unfolding rounds
  rounds-Faithful [] id s honest unasked h k = (h, k)
  rounds-Faithful (a ∷ rest) id s (honest, others) unasked h k =
      by_round (round p options self_id a s) (round-Faithful a id s honest unasked h k)
        (λ t f g. rounds-Faithful rest id t others unasked f g)
    where
      by_round :
          (o : Outcome)
          → Faithful id o
          → ((t : State)
              → Serves id t
              → id_of t.saved ≡ some id
              → Faithful id (rounds p options self_id rest t))
          → Faithful id (and_then p options self_id (rounds p options self_id rest) o)
      by_round (stopped e t) f go = f
      by_round (again t) (f, g) go = go t f g
