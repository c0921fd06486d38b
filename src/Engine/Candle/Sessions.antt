-- ===== src/Engine/Candle/Sessions.antt =====
-- crates/lattice-engine/src/candle.rs: sessions that follow each other on one shard.
use p2p_distributed_inferenc.Prelude.{
  ℕ, ◌≡◌, refl, ap, ◌∙◌, inl, inr, true, not, ◌||◌, Option, none, some, List, [], ◌∷◌, ◌==◌,
  Bool-cases,
}
use p2p_distributed_inferenc.Engine.Error.{Result, ok, err}
use p2p_distributed_inferenc.Engine.Abi.{Payload, ShardSpec}
use p2p_distributed_inferenc.Engine.Candle.{
  Library, CandleShard, tensor_in, owns_embedding, run_tensor, run, is_active, prefill, timed,
  decode, drop_session,
}

-- The calls that change a shard.
pub data Call : Type 0 where
  prefills : ℕ → ℕ → Payload → Call
  decodes : ℕ → ℕ → ℕ → Payload → Call
  drops : ℕ → Call

module _ (lib : Library) where
  abbrev pub call : Call → CandleShard lib → CandleShard lib
  call (prefills session pos input) c = (prefill lib session pos input c).1
  call (decodes micros session pos input) c = (decode lib micros session pos input c).1
  call (drops session) c = drop_session lib session c

  abbrev pub calls : List Call → CandleShard lib → CandleShard lib
  calls [] c = c
  calls (x ∷ xs) c = calls xs (call x c)

  -- What is left of the shard `c` when its caches are cleared is what is left of `d`.
  pub record IsRemnant (c d : CandleShard lib) : Type 0 where
    pub spec : c.spec ≡ d.spec
    pub facts : c.facts ≡ d.facts
    pub model : lib.Alike (lib.clear_kv_cache c.model) (lib.clear_kv_cache d.model)

  run_tensor-Alike :
      (c d : CandleShard lib) (pos : ℕ) (x : Result lib.Tensor)
      → c.spec ≡ d.spec
      → c.facts ≡ d.facts
      → lib.Alike c.model d.model
      → (run_tensor lib c pos x).0 ≡ (run_tensor lib d pos x).0
  run_tensor-Alike c d pos (err e) spec facts alike = refl
  run_tensor-Alike c d pos (ok x) spec facts alike =
      cc (spec, facts, lib.forward-Alike c.model d.model x pos alike)

  run-Alike :
      (c d : CandleShard lib) (input : Payload) (pos : ℕ)
      → c.spec ≡ d.spec
      → c.facts ≡ d.facts
      → lib.Alike c.model d.model
      → (run lib input pos c).0 ≡ (run lib input pos d).0
  unfolding run
  run-Alike c d input pos spec facts alike =
      run_tensor-Alike c d pos (tensor_in lib c.spec input (owns_embedding lib c.spec)) spec facts
        alike
      ∙ ap
          (λ (s : ShardSpec).
            (run_tensor lib d pos (tensor_in lib s input (owns_embedding lib s))).0)
          spec

  run_tensor-IsRemnant :
      (c : CandleShard lib) (pos : ℕ) (x : Result lib.Tensor)
      → IsRemnant (run_tensor lib c pos x).1 c
  run_tensor-IsRemnant c pos (err e) = record {
    spec = refl;
    facts = refl;
    model = lib.alike_refl (lib.clear_kv_cache c.model);
  }
  run_tensor-IsRemnant c pos (ok x) = record {
    spec = refl;
    facts = refl;
    model = lib.clear-forward c.model x pos;
  }

  run-IsRemnant :
      (c : CandleShard lib) (input : Payload) (pos : ℕ) → IsRemnant (run lib input pos c).1 c
  unfolding run
  run-IsRemnant c input pos =
      run_tensor-IsRemnant c pos (tensor_in lib c.spec input (owns_embedding lib c.spec))

  IsRemnant-trans : (c d e : CandleShard lib) → IsRemnant c d → IsRemnant d e → IsRemnant c e
  IsRemnant-trans c d e h k = record {
    spec = h.spec ∙ k.spec;
    facts = h.facts ∙ k.facts;
    model =
        lib.alike_trans (lib.clear_kv_cache c.model) (lib.clear_kv_cache d.model)
          (lib.clear_kv_cache e.model) h.model k.model;
  }

  IsRemnant-refl : (c : CandleShard lib) → IsRemnant c c
  IsRemnant-refl c = record {
    spec = refl;
    facts = refl;
    model = lib.alike_refl (lib.clear_kv_cache c.model);
  }

  abbrev cleared : Option ℕ → CandleShard lib → CandleShard lib
  cleared active c = record c { model = lib.clear_kv_cache c.model; active = active }

  cleared-IsRemnant : (active : Option ℕ) (c : CandleShard lib) → IsRemnant (cleared active c) c
  cleared-IsRemnant active c = record { spec = refl; facts = refl; model = lib.clear_clear c.model }

  prefill-IsRemnant :
      (session pos : ℕ) (input : Payload) (c : CandleShard lib)
      → IsRemnant (prefill lib session pos input c).1 c
  unfolding prefill
  prefill-IsRemnant session pos input c =
      elim (Bool-cases (not (is_active lib session c.active) || pos == 0)) [
        | inl fresh ↦ rw fresh (
            IsRemnant-trans _ (cleared (some session) c) c
              (run-IsRemnant (cleared (some session) c) input pos)
              (cleared-IsRemnant (some session) c))
        | inr going ↦ rw going (run-IsRemnant c input pos)
      ]

  timed-IsRemnant :
      (micros : ℕ) (r : Result Payload) (c d : CandleShard lib)
      → IsRemnant c d
      → IsRemnant (timed lib micros (r, c)).1 d
  timed-IsRemnant micros (err e) c d h = h
  timed-IsRemnant micros (ok out) c d h = record { spec = h.spec; facts = h.facts; model = h.model }

  decode-IsRemnant :
      (micros session pos : ℕ) (input : Payload) (c : CandleShard lib)
      → IsRemnant (decode lib micros session pos input c).1 c
  unfolding decode
  decode-IsRemnant micros session pos input c =
      elim (Bool-cases (not (is_active lib session c.active))) [
        | inl stranger ↦ rw stranger (IsRemnant-refl c)
        | inr going ↦ rw going (
            timed-IsRemnant micros (run lib input pos c).0 (run lib input pos c).1 c
              (run-IsRemnant c input pos))
      ]

  drop_session-IsRemnant :
      (session : ℕ) (c : CandleShard lib) → IsRemnant (drop_session lib session c) c
  unfolding drop_session
  drop_session-IsRemnant session c = elim (Bool-cases (is_active lib session c.active)) [
    | inl mine ↦ rw mine (cleared-IsRemnant none c)
    | inr other ↦ rw other (IsRemnant-refl c)
  ]

  call-IsRemnant : (x : Call) (c : CandleShard lib) → IsRemnant (call x c) c
  call-IsRemnant (prefills session pos input) c = prefill-IsRemnant session pos input c
  call-IsRemnant (decodes micros session pos input) c = decode-IsRemnant micros session pos input c
  call-IsRemnant (drops session) c = drop_session-IsRemnant session c

  pub calls-IsRemnant : (xs : List Call) (c : CandleShard lib) → IsRemnant (calls xs c) c
  calls-IsRemnant [] c = IsRemnant-refl c
  calls-IsRemnant (x ∷ xs) c =
      IsRemnant-trans (calls xs (call x c)) (call x c) c (calls-IsRemnant xs (call x c))
        (call-IsRemnant x c)

  -- No session sees another's cache: a prefill that starts a session, or starts it again at position 0,
  -- answers after any calls as it does on the shard as it was opened, which has no session.
  pub prefill-calls :
      (xs : List Call) (c : CandleShard lib) (session pos : ℕ) (input : Payload)
      → c.active ≡ none
      → (not (is_active lib session (calls xs c).active) || pos == 0) ≡ true
      → (prefill lib session pos input (calls xs c)).0 ≡ (prefill lib session pos input c).0
  unfolding prefill
  prefill-calls xs c session pos input opened starts =
      let h = calls-IsRemnant xs c in
      let fresh : (not (is_active lib session c.active) || pos == 0) ≡ true =
        unfold is_active in rw opened refl in
      rw (starts, fresh)
        (run-Alike (cleared (some session) (calls xs c)) (cleared (some session) c) input pos h.spec
          h.facts h.model)
