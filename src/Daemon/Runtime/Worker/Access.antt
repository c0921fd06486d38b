-- ===== src/Daemon/Runtime/Worker/Access.antt =====
-- crates/latticed/src/runtime.rs: who gets a session, and what becomes of the permit.
use p2p_distributed_inferenc.Prelude.{
  ℕ, zero, suc, ◌+◌, ◌≡◌, refl, ap, ◌∙◌, inl, inr, Bool, true, false, Option, none, some, List, [],
  ◌∷◌, arith, All, Bool-cases,
}
use p2p_distributed_inferenc.Prelude.Results.{Result, ok, err}
use p2p_distributed_inferenc.Net.Identity.{DeviceId}
use p2p_distributed_inferenc.Daemon.Runtime.Worker.{
  Server, State, Fault, Op, is_running, stop, same_master, check_master, try_wait, exited,
  check_server, check_health, take_permit, try_acquire, start, reuse, reuse_or_start, address,
  attempt, acquire, kept_or_released, refused_if_busy, during, pass_on, ◌>>=◌, ◌>>◌, connect,
}
use p2p_distributed_inferenc.Daemon.Runtime.Worker.Keeps.{
  Preserved, Keeps, bind-Keeps, then-Keeps, check_master-Keeps, attempt-Keeps,
}

-- The registered master asks, and the server that the runtime holds has not exited.
abbrev pub IsServed : DeviceId → State → Type 0
IsServed from s =
    (same_master s.master (some from) ≡ true)
    × ((server : Server) → s.server ≡ some server → is_running server.child s.running ≡ true)

pass_on-ok :
    {A B : Type 0} (x : Result Fault A × State) (f : A → Op B) (b : B) (t : State)
    → pass_on x f ≡ (ok b, t)
    → (a : A) × (s : State) × (x ≡ (ok a, s)) × (f a s ≡ (ok b, t))
pass_on-ok (ok a, s) f b t h = (a, s, refl, h)
pass_on-ok (err e, s) f b t h = absurd cc

kept_or_released-ok :
    (can_wait : ℕ → Bool) {A : Type 0} (x : Result Fault A × State) (a : A) (t : State)
    → kept_or_released can_wait x ≡ (ok a, t)
    → x ≡ (ok a, t)
kept_or_released-ok can_wait (ok a, s) b t h = h
kept_or_released-ok can_wait (err e, s) b t h = absurd cc

module _ (can_wait : ℕ → Bool) where
  exited-ok :
      (server : Server) (s t : State) (u : Unit {0})
      → exited can_wait (try_wait can_wait server s) s ≡ (ok u, t)
      → (is_running server.child s.running ≡ true) × (s ≡ t)
  exited-ok server s t u h = elim (Bool-cases (can_wait server.child)) [
    | inr e ↦ absurd (cc (rw e at h))
    | inl e ↦ elim (Bool-cases (is_running server.child s.running)) [
      | inr f ↦ absurd (cc (rw (e, f) at h))
      | inl f ↦ (f, ap (λ x. x.1) (rw (e, f) at h))
    ]
  ]

  check_server-ok :
      (server : Option Server) (s t : State) (u : Unit {0})
      → check_server can_wait server s ≡ (ok u, t)
      → ((held : Server) → server ≡ some held → is_running held.child s.running ≡ true) × (s ≡ t)
  check_server-ok none s t u h = (λ held e. cc, ap (λ x. x.1) h)
  check_server-ok (some server) s t u h =
      let (runs, same) = exited-ok server s t u h in
      ((λ held e. let is : server ≡ held = ground arith in rw (← is) runs), same)

  check_health-ok :
      (from : DeviceId) (s t : State) (u : Unit {0})
      → check_health can_wait from s ≡ (ok u, t)
      → IsServed from t × (s ≡ t)
  unfolding check_health check_master
  check_health-ok from s t u h = elim (Bool-cases (same_master s.master (some from))) [
    | inr e ↦ absurd (cc (rw e at h))
    | inl e ↦
        let (runs, same) = check_server-ok s.server s t u (rw e at h) in
        rw (← same) ((e, runs), refl)
  ]

  attempt-ok :
      (refusals : List (State → State)) (meanwhile : State → State) (through : Bool)
      (from : DeviceId) (s t : State) (u : Unit {0})
      → attempt can_wait refusals meanwhile through from s ≡ (ok u, t)
      → IsServed from t
  unfolding attempt
  attempt-ok [] meanwhile true from s t u h =
      let (a, s', e, h') = pass_on-ok (check_health can_wait from s) _ u t h in
      (check_health-ok from (meanwhile s') t u h').0
  attempt-ok [] meanwhile false from s t u h =
      let (a, s', e, h') = pass_on-ok (check_health can_wait from s) _ u t h in absurd cc
  attempt-ok (m ∷ ms) meanwhile through from s t u h =
      let (a, s', e, h') = pass_on-ok (check_health can_wait from s) _ u t h in
      attempt-ok ms meanwhile through from (m s') t u h'

  -- A device gets a session with the GPU server only if it is the registered master when the session
  -- begins, whatever went on while it waited, and no exited server is left in the runtime's hands.
  pub connect-IsServed :
      (waiting : State → State) (started : Option ℕ) (refusals : List (State → State))
      (meanwhile : State → State) (through : Bool) (from : DeviceId) (s t : State)
      → connect can_wait waiting started refusals meanwhile through from s ≡ (ok tt, t)
      → IsServed from t
  unfolding connect
  connect-IsServed waiting started refusals meanwhile through from s t h =
      let (a, s', e, h') = pass_on-ok (acquire can_wait waiting from s) _ tt t h in
      let h'' = kept_or_released-ok can_wait _ tt t h' in
      let (b, s'', e', last) = pass_on-ok (address can_wait started from s') _ tt t h'' in
      attempt-ok refusals meanwhile through from s'' t tt last

  abbrev SamePermits : State → State → Type 0
  SamePermits s t = t.permits ≡ s.permits

  SamePermits-Preserved : Preserved SamePermits
  SamePermits-Preserved = record { stays = λ s. refl; along = λ s t u p q. q ∙ p }

  exited-permits : (o : Option Bool) (s : State) → (exited can_wait o s).1.permits ≡ s.permits
  exited-permits none s = refl
  exited-permits (some true) s = refl
  exited-permits (some false) s = refl

  check_server-permits :
      (server : Option Server) (s : State) → (check_server can_wait server s).1.permits ≡ s.permits
  check_server-permits none s = refl
  check_server-permits (some server) s = exited-permits (try_wait can_wait server s) s

  check_health-permits :
      (from : DeviceId) → Keeps SamePermits SamePermits-Preserved (check_health can_wait from)
  unfolding check_health
  check_health-permits from =
      then-Keeps SamePermits SamePermits-Preserved (check_master from)
        (λ s. check_server can_wait s.server s)
        (check_master-Keeps SamePermits SamePermits-Preserved from)
        (λ s. check_server-permits s.server s)

  start-permits :
      (started : Option ℕ) (s : State) → (start can_wait started s).1.permits ≡ s.permits
  start-permits none s = refl
  start-permits (some a) s = refl

  reuse_or_start-permits :
      (started : Option ℕ) (server : Option Server) (s : State)
      → (reuse_or_start can_wait started server s).1.permits ≡ s.permits
  reuse_or_start-permits started none s = start-permits started s
  reuse_or_start-permits started (some server) s = reused (try_wait can_wait server s)
    where
      reused : (o : Option Bool) → (reuse can_wait started server o s).1.permits ≡ s.permits
      reused none = refl
      reused (some true) = refl
      reused (some false) = start-permits started (stop s)

  address-permits :
      (started : Option ℕ) (from : DeviceId)
      → Keeps SamePermits SamePermits-Preserved (address can_wait started from)
  unfolding address
  address-permits started from =
      then-Keeps SamePermits SamePermits-Preserved (check_master from)
        (λ s. reuse_or_start can_wait started s.server s)
        (check_master-Keeps SamePermits SamePermits-Preserved from)
        (λ s. reuse_or_start-permits started s.server s)

  -- The permits that a call leaves with its caller.
  abbrev pub held : {A : Type 0} → Result Fault A → ℕ
  held (ok a) = 1
  held (err e) = 0

  kept_or_released-permits :
      {A : Type 0} (x : Result Fault A × State) (n : ℕ)
      → x.1.permits ≡ n
      → (kept_or_released can_wait x).1.permits + held (kept_or_released can_wait x).0 ≡ n + 1
  kept_or_released-permits (ok a, s) n h = ap (λ k. k + 1) h
  kept_or_released-permits (err e, s) n h = omega (arith, h)

  -- What follows a call that took a permit, or failed.
  pass_on-permits :
      {A B : Type 0} (x : Result Fault A × State) (f : A → Op B) (n : ℕ)
      → x.1.permits + held x.0 ≡ n
      → ((a : A) (s : State) → (f a s).1.permits + held (f a s).0 ≡ s.permits + 1)
      → (pass_on x f).1.permits + held (pass_on x f).0 ≡ n
  pass_on-permits (ok a, s) f n h k = k a s ∙ h
  pass_on-permits (err e, s) f n h k = h

  abbrev checked : DeviceId → Bool → Op (Unit {0})
  checked from granted = refused_if_busy can_wait granted >> λ s.
      kept_or_released can_wait (check_health can_wait from s)

  take_permit-permits :
      (from : DeviceId) (s : State) (n : ℕ)
      → s.permits ≡ n
      → (pass_on (take_permit can_wait n s) (checked from)).1.permits
          + held (pass_on (take_permit can_wait n s) (checked from)).0
        ≡ n
  take_permit-permits from s zero e = omega (arith, e)
  take_permit-permits from s (suc n) e = omega (
    arith,
    kept_or_released-permits (check_health can_wait from (record s { permits = n })) n
        (check_health-permits from (record s { permits = n })),
  )

  -- A call that keeps the permits, before one that may take one.
  after-permits :
      {A B : Type 0} (m : Op A) (k : Op B) (s : State)
      → (m s).1.permits ≡ s.permits
      → ((t : State) → (k t).1.permits + held (k t).0 ≡ t.permits)
      → ((m >>= (λ _. k)) s).1.permits + held ((m >>= (λ _. k)) s).0 ≡ s.permits
  after-permits {A = A} m k s h h' = passed (m s) h
    where
      passed :
          (x : Result Fault A × State)
          → x.1.permits ≡ s.permits
          → (pass_on x (λ _. k)).1.permits + held (pass_on x (λ _. k)).0 ≡ s.permits
      passed (ok a, t) e = h' t ∙ e
      passed (err e', t) e = omega (arith, e)

  acquire-permits :
      (waiting : State → State) (from : DeviceId)
      → ((s : State) → (waiting s).permits ≡ s.permits)
      → (s : State)
      → (acquire can_wait waiting from s).1.permits + held (acquire can_wait waiting from s).0
        ≡ s.permits
  unfolding acquire try_acquire
  acquire-permits waiting from h s =
      after-permits (check_health can_wait from)
        (during waiting >> (try_acquire can_wait >>= checked from)) s (check_health-permits from s)
        (λ t. take_permit-permits from (waiting t) (waiting t).permits refl ∙ h t)

  -- No permit is lost: a connection that gets its session holds one, and on every error of the set-up
  -- the permit is back, where the tasks that run meanwhile leave the permits as they are.
  pub connect-permits :
      (waiting : State → State) (started : Option ℕ) (refusals : List (State → State))
      (meanwhile : State → State) (through : Bool) (from : DeviceId) (s : State)
      → ((s : State) → (waiting s).permits ≡ s.permits)
      → All (λ m. (s : State) → (m s).permits ≡ s.permits) refusals
      → ((s : State) → (meanwhile s).permits ≡ s.permits)
      → (connect can_wait waiting started refusals meanwhile through from s).1.permits
          + held (connect can_wait waiting started refusals meanwhile through from s).0
        ≡ s.permits
  unfolding connect
  connect-permits waiting started refusals meanwhile through from s hw hr hm =
      pass_on-permits (acquire can_wait waiting from s)
        (λ _ s. kept_or_released can_wait (
          (address can_wait started from
              >>= (λ _. attempt can_wait refusals meanwhile through from))
            s))
        s.permits (acquire-permits waiting from hw s)
        (λ _ t.
          kept_or_released-permits
            ((address can_wait started from
                >>= (λ _. attempt can_wait refusals meanwhile through from))
              t)
            t.permits
            (bind-Keeps SamePermits SamePermits-Preserved (address can_wait started from)
              (λ _. attempt can_wait refusals meanwhile through from) (address-permits started from)
              (λ _.
                attempt-Keeps SamePermits SamePermits-Preserved can_wait check_health-permits
                  refusals meanwhile through from hr hm)
              t))
