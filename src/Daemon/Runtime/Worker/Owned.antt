-- ===== src/Daemon/Runtime/Worker/Owned.antt =====
-- crates/latticed/src/runtime.rs: which children run, whatever sequence of calls the tasks make.
use p2p_distributed_inferenc.Prelude.{
  ℕ, zero, suc, ◌≡◌, refl, inl, inr, Bool, true, false, not, Option, none, some, List, [], ◌∷◌,
  retain, ◌==◌, arith, All, Bool-cases,
}
use p2p_distributed_inferenc.Prelude.Results.{Result, ok, err}
use p2p_distributed_inferenc.Net.Identity.{DeviceId}
use p2p_distributed_inferenc.Daemon.Runtime.Worker.{
  Server, State, fresh, Fault, Op, without, stop, same_master, authorize, check_master, try_wait,
  exited, check_server, check_health, take_permit, try_acquire, release, start, reuse,
  reuse_or_start, address, attempt, acquire, kept_or_released, refused_if_busy, during, ◌>>=◌, ◌>>◌,
  connect,
}
use p2p_distributed_inferenc.Daemon.Runtime.Worker.Keeps.{
  Preserved, bind-Keeps, then-Keeps, refused_if_busy-Keeps, attempt-Keeps,
}

abbrev Owner : Option Server → ℕ → Type 0
Owner none c = ⊥
Owner (some server) c = c ≡ server.child

-- The children that run are the one server's.
abbrev pub IsOwned : State → Type 0
IsOwned s = All (Owner s.server) s.running

without-nil :
    (server : Option Server) (cs : List ℕ) → All (Owner server) cs → without server cs ≡ []
without-nil none [] h = refl
without-nil none (c ∷ cs) h = absurd h.0
without-nil (some server) [] h = refl
without-nil (some server) (c ∷ cs) (e, h) =
    let same : (c == server.child) ≡ true = ground arith in
    rw (same, without-nil (some server) cs h) refl

stop-IsOwned : (s : State) → IsOwned s → IsOwned (stop s)
stop-IsOwned s h = rw (without-nil s.server s.running h) tt

stop-running : (s : State) → IsOwned s → (stop s).running ≡ []
stop-running s h = without-nil s.server s.running h

All-retain : (P : ℕ → Type 0) (p : ℕ → Bool) (cs : List ℕ) → All P cs → All P (retain p cs)
All-retain P p [] h = tt
All-retain P p (c ∷ cs) (h, hs) = elim (Bool-cases (p c)) [
  | inl e ↦ rw e (h, All-retain P p cs hs)
  | inr e ↦ rw e (All-retain P p cs hs)
]

authorize-IsOwned :
    (master : Option DeviceId) (s : State) → IsOwned s → IsOwned (authorize master s)
unfolding authorize
authorize-IsOwned master s h = elim (Bool-cases (same_master s.master master)) [
  | inl e ↦ rw e h
  | inr e ↦ rw (e, stop-running s h) tt
]

-- A step of one of the tasks, or the end of a child.
pub data Step (can_wait : ℕ → Bool) : State → State → Type 0 where
  authorizes : (s : State) (master : Option DeviceId) → Step can_wait s (authorize master s)
  checks : (s : State) (from : DeviceId) → Step can_wait s (check_health can_wait from s).1
  serves :
      (s : State) (started : Option ℕ) (from : DeviceId)
      → Step can_wait s (address can_wait started from s).1
  takes : (s : State) → Step can_wait s (try_acquire can_wait s).1
  releases : (s : State) → Step can_wait s (release can_wait s)
  ends :
      (s : State) (child : ℕ)
      → Step can_wait s (record s { running = retain (λ c. not (c == child)) s.running })

pub data Reach (can_wait : ℕ → Bool) (s : State) : State → Type 0 where
  here : Reach can_wait s s
  next : {t u : State} → Reach can_wait s t → Step can_wait t u → Reach can_wait s u

module _ (can_wait : ℕ → Bool) where
  exited-IsOwned : (o : Option Bool) (s : State) → IsOwned s → IsOwned (exited can_wait o s).1
  exited-IsOwned none s h = h
  exited-IsOwned (some true) s h = h
  exited-IsOwned (some false) s h = stop-IsOwned s h

  check_server-IsOwned :
      (server : Option Server) (s : State) → IsOwned s → IsOwned (check_server can_wait server s).1
  check_server-IsOwned none s h = h
  check_server-IsOwned (some server) s h = exited-IsOwned (try_wait can_wait server s) s h

  check_health-IsOwned :
      (from : DeviceId) (s : State) → IsOwned s → IsOwned (check_health can_wait from s).1
  unfolding check_health check_master
  check_health-IsOwned from s h = elim (Bool-cases (same_master s.master (some from))) [
    | inl e ↦ rw e (check_server-IsOwned s.server s h)
    | inr e ↦ rw e h
  ]

  start-IsOwned :
      (started : Option ℕ) (s : State)
      → s.running ≡ []
      → IsOwned s
      → IsOwned (start can_wait started s).1
  start-IsOwned none s empty h = h
  start-IsOwned (some a) s empty h = (refl, rw empty tt)

  reuse-IsOwned :
      (started : Option ℕ) (server : Server) (o : Option Bool) (s : State)
      → IsOwned s
      → IsOwned (reuse can_wait started server o s).1
  reuse-IsOwned started server none s h = h
  reuse-IsOwned started server (some true) s h = h
  reuse-IsOwned started server (some false) s h =
      start-IsOwned started (stop s) (stop-running s h) (stop-IsOwned s h)

  no_server-running :
      (server : Option Server) (cs : List ℕ) → server ≡ none → All (Owner server) cs → cs ≡ []
  no_server-running none [] e h = refl
  no_server-running none (c ∷ cs) e h = absurd h.0
  no_server-running (some server) cs e h = cc

  reuse_or_start-IsOwned :
      (started server : _) (s : State)
      → s.server ≡ server
      → IsOwned s
      → IsOwned (reuse_or_start can_wait started server s).1
  reuse_or_start-IsOwned started none s e h =
      start-IsOwned started s (no_server-running s.server s.running e h) h
  reuse_or_start-IsOwned started (some server) s e h =
      reuse-IsOwned started server (try_wait can_wait server s) s h

  address-IsOwned :
      (started : Option ℕ) (from : DeviceId) (s : State)
      → IsOwned s
      → IsOwned (address can_wait started from s).1
  unfolding address check_master
  address-IsOwned started from s h = elim (Bool-cases (same_master s.master (some from))) [
    | inl e ↦ rw e (reuse_or_start-IsOwned started s.server s refl h)
    | inr e ↦ rw e h
  ]

  try_acquire-IsOwned : (s : State) → IsOwned s → IsOwned (try_acquire can_wait s).1
  unfolding try_acquire
  try_acquire-IsOwned s h = taken s.permits
    where
      taken : (n : ℕ) → IsOwned (take_permit can_wait n s).1
      taken zero = h
      taken (suc n) = h

  Step-IsOwned : {s t : State} → Step can_wait s t → IsOwned s → IsOwned t
  Step-IsOwned (authorizes s master) h = authorize-IsOwned master s h
  Step-IsOwned (checks s from) h = check_health-IsOwned from s h
  Step-IsOwned (serves s started from) h = address-IsOwned started from s h
  Step-IsOwned (takes s) h = try_acquire-IsOwned s h
  Step-IsOwned (releases s) h = h
  Step-IsOwned (ends s child) h = All-retain (Owner s.server) (λ c. not (c == child)) s.running h

  -- Whatever the tasks of a worker do, and whenever a server ends by itself, no child runs but the one
  -- server that the runtime holds.
  pub Reach-IsOwned : {s t : State} → IsOwned s → Reach can_wait s t → IsOwned t
  Reach-IsOwned h here = h
  Reach-IsOwned h (next r x) = Step-IsOwned x (Reach-IsOwned h r)

  -- When another master is registered, or none, nothing runs any more that was started for the last
  -- one, in whatever state a new runtime has come to.
  pub authorize-running :
      (s : State) (master : Option DeviceId)
      → Reach can_wait fresh s
      → same_master s.master master ≡ false
      → (authorize master s).running ≡ []
  unfolding authorize
  authorize-running s master r e = rw e (stop-running s (Reach-IsOwned tt r))

  Reach-Preserved : Preserved (Reach can_wait)
  Reach-Preserved = record { stays = λ s. here; along = λ s t u r r'. joined r r' }
    where
      joined : {s t u : State} → Reach can_wait s t → Reach can_wait t u → Reach can_wait s u
      joined r here = r
      joined r (next r' x) = next (joined r r') x

  kept_or_released-Reach :
      {A : Type 0} (s : State) (x : Result Fault A × State)
      → Reach can_wait s x.1
      → Reach can_wait s (kept_or_released can_wait x).1
  kept_or_released-Reach s (ok a, t) h = h
  kept_or_released-Reach s (err e, t) h = next h (releases t)

  acquire-Reach :
      (waiting : State → State) (from : DeviceId)
      → ((s : State) → Reach can_wait s (waiting s))
      → (s : State) → Reach can_wait s (acquire can_wait waiting from s).1
  unfolding acquire
  acquire-Reach waiting from h =
      then-Keeps (Reach can_wait) Reach-Preserved (check_health can_wait from)
        (during waiting >> (try_acquire can_wait >>= granted)) (λ s. next here (checks s from))
        (then-Keeps (Reach can_wait) Reach-Preserved (during waiting)
          (try_acquire can_wait >>= granted) h
          (bind-Keeps (Reach can_wait) Reach-Preserved (try_acquire can_wait) granted
            (λ s. next here (takes s))
            (λ g.
              then-Keeps (Reach can_wait) Reach-Preserved (refused_if_busy can_wait g)
                (λ s. kept_or_released can_wait (check_health can_wait from s))
                (refused_if_busy-Keeps (Reach can_wait) Reach-Preserved can_wait g)
                (λ s.
                  kept_or_released-Reach s (check_health can_wait from s)
                    (next here (checks s from))))))
    where
      granted : Bool → Op (Unit {0})
      granted g = refused_if_busy can_wait g >> λ s.
          kept_or_released can_wait (check_health can_wait from s)

  -- A session's whole set-up is made of such steps, its errors included, where the tasks that run
  -- while it waits make such steps.
  pub connect-Reach :
      (waiting : State → State) (started : Option ℕ) (refusals : List (State → State))
      (meanwhile : State → State) (through : Bool) (from : DeviceId)
      → ((s : State) → Reach can_wait s (waiting s))
      → All (λ m. (s : State) → Reach can_wait s (m s)) refusals
      → ((s : State) → Reach can_wait s (meanwhile s))
      → (s : State)
      → Reach can_wait s (connect can_wait waiting started refusals meanwhile through from s).1
  unfolding connect
  connect-Reach waiting started refusals meanwhile through from hw hr hm =
      then-Keeps (Reach can_wait) Reach-Preserved (acquire can_wait waiting from)
        (λ s. kept_or_released can_wait (
          (address can_wait started from
              >>= (λ _. attempt can_wait refusals meanwhile through from))
            s))
        (acquire-Reach waiting from hw)
        (λ s.
          kept_or_released-Reach s
            ((address can_wait started from
                >>= (λ _. attempt can_wait refusals meanwhile through from))
              s)
            (bind-Keeps (Reach can_wait) Reach-Preserved (address can_wait started from)
              (λ _. attempt can_wait refusals meanwhile through from)
              (λ s. next here (serves s started from))
              (λ _.
                attempt-Keeps (Reach can_wait) Reach-Preserved can_wait
                  (λ from s. next here (checks s from)) refusals meanwhile through from hr hm)
              s))
