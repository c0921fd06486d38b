-- ===== src/Daemon/Runtime/Worker/Keeps.antt =====
-- Relations between the state before a call and the state after it, call by call.
use p2p_distributed_inferenc.Prelude.{
  ℕ, Bool, true, false, some, List, [], ◌∷◌, inl, inr, All, Bool-cases,
}
use p2p_distributed_inferenc.Prelude.Results.{Result, ok, err}
use p2p_distributed_inferenc.Net.Identity.{DeviceId}
use p2p_distributed_inferenc.Daemon.Runtime.Worker.{
  State, Fault, not_ready, Op, pass_on, ◌>>=◌, ◌>>◌, during, same_master, check_master,
  check_health, refused_if_busy, attempt,
}

-- A relation that holds along a sequence of calls.
pub record Preserved (R : State → State → Type 0) : Type 0 where
  pub stays : (s : State) → R s s
  pub along : (s t u : State) → R s t → R t u → R s u

module _ (R : State → State → Type 0) (p : Preserved R) where
  open p use {stays, along}

  abbrev pub Keeps : {A : Type 0} → Op A → Type 0
  Keeps m = (s : State) → R s (m s).1

  pass_on-R :
      {A B : Type 0} (x : Result Fault A × State) (f : A → Op B) (s : State)
      → R s x.1
      → ((a : A) → Keeps (f a))
      → R s (pass_on x f).1
  pass_on-R (ok a, t) f s h k = along s t (f a t).1 h (k a t)
  pass_on-R (err e, t) f s h k = h

  pub bind-Keeps :
      {A B : Type 0} (m : Op A) (f : A → Op B) → Keeps m → ((a : A) → Keeps (f a)) → Keeps (m >>= f)
  bind-Keeps m f h k s = pass_on-R (m s) f s (h s) k

  pub then-Keeps : {A B : Type 0} (m : Op A) (k : Op B) → Keeps m → Keeps k → Keeps (m >>= λ _. k)
  then-Keeps m k h h' = bind-Keeps m (λ _. k) h (λ _. h')

  pub check_master-Keeps : (from : DeviceId) → Keeps (check_master from)
  unfolding check_master
  check_master-Keeps from s = elim (Bool-cases (same_master s.master (some from))) [
    | inl e ↦ rw e (stays s)
    | inr e ↦ rw e (stays s)
  ]

  pub refused_if_busy-Keeps :
      (can_wait : ℕ → Bool) (granted : Bool) → Keeps (refused_if_busy can_wait granted)
  refused_if_busy-Keeps can_wait true s = stays s
  refused_if_busy-Keeps can_wait false s = stays s

  module _ (can_wait : ℕ → Bool)
      (checks : (from : DeviceId) → Keeps (check_health can_wait from)) where
    abbrev last : Bool → DeviceId → Op (Unit {0})
    last true from = check_health can_wait from
    last false from = λ s. (err not_ready, s)

    last-Keeps : (through : Bool) (from : DeviceId) → Keeps (last through from)
    last-Keeps true from s = checks from s
    last-Keeps false from s = stays s

    -- The attempts of a connection preserve what the checks and the other tasks do.
    pub attempt-Keeps :
        (refusals : List (State → State)) (meanwhile : State → State) (through : Bool)
        (from : DeviceId)
        → All (λ m. (s : State) → R s (m s)) refusals
        → ((s : State) → R s (meanwhile s))
        → Keeps (attempt can_wait refusals meanwhile through from)
    unfolding attempt
    attempt-Keeps [] meanwhile true from others h =
        then-Keeps (check_health can_wait from) (during meanwhile >> last true from) (checks from)
          (then-Keeps (during meanwhile) (last true from) h (last-Keeps true from))
    attempt-Keeps [] meanwhile false from others h =
        then-Keeps (check_health can_wait from) (during meanwhile >> last false from) (checks from)
          (then-Keeps (during meanwhile) (last false from) h (last-Keeps false from))
    attempt-Keeps (m ∷ ms) meanwhile through from (now, others) h =
        then-Keeps (check_health can_wait from)
          (during m >> attempt can_wait ms meanwhile through from) (checks from)
          (then-Keeps (during m) (attempt can_wait ms meanwhile through from) now
            (attempt-Keeps ms meanwhile through from others h))
