-- ===== src/Net/Codec/Frames.antt =====
-- crates/lattice-net/src/codec.rs: how `write_frame` and `read_frame` fit together, and the ceiling.
use mathlib.Core.List.{append_assoc}
use p2p_distributed_inferenc.Prelude.{
  ℕ, ◌^◌, ◌≤◌, ◌<◌, ◌≡◌, refl, ap, ◌∙◌, inl, inr, false, some, List, [], ◌++◌, arith, ltb, leb,
  ltb→lt, leb→le, le→leb, length, Bool-cases, Option-cases,
}
use p2p_distributed_inferenc.Net.Error.{Result, ok, err, stream, above_ceiling}
use p2p_distributed_inferenc.Net.Bytes.{
  to_le_bytes, from_le_bytes, length-to_le_bytes, from_le_bytes-to_le_bytes,
}
use p2p_distributed_inferenc.Net.Codec.{Pipe, write_frame, read_frame}

abbrev pub frame : List ℕ → List ℕ
frame payload = to_le_bytes 4 (length payload) ++ payload

module _ (pipe : Pipe) where
  open pipe use {S, contents, write_all, read_exact, written, in_order, exact}

  -- A frame that was written is its length and then its payload, behind what was there before.
  pub write_frame-contents :
      (s t : S) (payload : List ℕ)
      → write_frame pipe s payload ≡ ok t
      → (length payload < 2 ^ 32) × (contents t ≡ contents s ++ frame payload)
  unfolding write_frame
  write_frame-contents s t payload h = elim (Bool-cases (ltb (length payload) (2 ^ 32))) [
    | inr big ↦ cc (rw big at h)
    | inl small ↦ elim (Option-cases (write_all s (to_le_bytes 4 (length payload)))) [
      | inl failed ↦ cc (rw (small, failed) at h)
      | inr (sent, e) ↦ elim (Option-cases (write_all sent payload)) [
        | inl failed ↦ cc (rw (small, e, failed) at h)
        | inr (last, e') ↦ (
          ltb→lt (length payload) (2 ^ 32) small,
          rw
              (
                ← same last (rw (small, e, e') at h),
                written sent last payload e',
                written s sent (to_le_bytes 4 (length payload)) e,
              )
              (append_assoc (contents s) _ _),
        )
      ]
    ]
  ]
    where
      same : (last : S) → ◌≡◌ {A = Result S} (ok last) (ok t) → last ≡ t
      same last p = ground arith

  header_at :
      (s : S) (n : ℕ) (rest : List ℕ)
      → contents s ≡ to_le_bytes 4 n ++ rest
      → (t : S) × (read_exact s 4 ≡ some (to_le_bytes 4 n, t)) × (contents t ≡ rest)
  header_at s n rest e =
      let (t, found, left) = in_order s (to_le_bytes 4 n) rest e in
      (t, rw (length-to_le_bytes 4 n) at found, left)

  pub read_frame-frame :
      (s : S) (payload rest : List ℕ) (max : ℕ)
      → length payload < 2 ^ 32
      → length payload ≤ max
      → contents s ≡ to_le_bytes 4 (length payload) ++ (payload ++ rest)
      → (u : S) × (read_frame pipe s max ≡ ok (payload, u)) × (contents u ≡ rest)
  unfolding read_frame
  read_frame-frame s payload rest max small fits e =
      let (t, found, left) = header_at s (length payload) (payload ++ rest) e in
      let (u, found', left') = in_order t payload rest left in
      (
        u,
        rw (
          found,
          from_le_bytes-to_le_bytes 4 (length payload) small,
          le→leb (length payload) max fits,
          found',
        ),
        left',
      )

  -- What `write_frame` put on an empty stream, `read_frame` takes off it, under any ceiling that the
  -- payload does not pass, and leaves what was written behind it.
  pub read_frame-write_frame :
      (s t u : S) (payload rest : List ℕ) (max : ℕ)
      → contents s ≡ []
      → write_frame pipe s payload ≡ ok t
      → contents u ≡ contents t ++ rest
      → length payload ≤ max
      → (v : S) × (read_frame pipe u max ≡ ok (payload, v)) × (contents v ≡ rest)
  read_frame-write_frame s t u payload rest max empty wrote later fits =
      let (small, put) = write_frame-contents s t payload wrote in
      read_frame-frame u payload rest max small fits
        (later ∙ rw (put, empty) (append_assoc (to_le_bytes 4 (length payload)) payload rest))

  -- No frame longer than the ceiling is returned.
  pub read_frame-le-max :
      (s t : S) (max : ℕ) (payload : List ℕ)
      → read_frame pipe s max ≡ ok (payload, t)
      → length payload ≤ max
  unfolding read_frame
  read_frame-le-max s t max payload h = elim (Option-cases (read_exact s 4)) [
    | inl failed ↦ cc (rw failed at h)
    | inr ((header, rest), e) ↦ elim (Bool-cases (leb (from_le_bytes header) max)) [
      | inr big ↦ cc (rw (e, big) at h)
      | inl small ↦ elim (Option-cases (read_exact rest (from_le_bytes header))) [
        | inl failed ↦ cc (rw (e, small, failed) at h)
        | inr ((body, last), e') ↦
            let p : length body ≡ length payload =
              ap length (same body last (rw (e, small, e') at h)) in
            omega (arith, (exact rest last (from_le_bytes header) body e').0, leb→le _ max small)
      ]
    ]
  ]
    where
      same :
          (body : List ℕ) (last : S)
          → ◌≡◌ {A = Result (List ℕ × S)} (ok (body, last)) (ok (payload, t))
          → body ≡ payload
      same body last p = ground arith

  -- What is returned is what stood behind a length of four bytes that announces it.
  pub read_frame-contents :
      (s t : S) (max : ℕ) (payload : List ℕ)
      → read_frame pipe s max ≡ ok (payload, t)
      → (header : List ℕ) × (length header ≡ 4)
        × (from_le_bytes header ≡ length payload)
        × (contents s ≡ header ++ (payload ++ contents t))
  unfolding read_frame
  read_frame-contents s t max payload h = elim (Option-cases (read_exact s 4)) [
    | inl failed ↦ cc (rw failed at h)
    | inr ((header, rest), e) ↦ elim (Bool-cases (leb (from_le_bytes header) max)) [
      | inr big ↦ cc (rw (e, big) at h)
      | inl small ↦ elim (Option-cases (read_exact rest (from_le_bytes header))) [
        | inl failed ↦ cc (rw (e, small, failed) at h)
        | inr ((body, last), e') ↦
            let (size, front) = exact s rest 4 header e in
            let (size', back) = exact rest last (from_le_bytes header) body e' in
            let (p, q) = same body last (rw (e, small, e') at h) in
            (header, size, rw (← p, size') refl, front ∙ rw (back, p, q) refl)
      ]
    ]
  ]
    where
      same :
          (body : List ℕ) (last : S)
          → ◌≡◌ {A = Result (List ℕ × S)} (ok (body, last)) (ok (payload, t))
          → (body ≡ payload) × (last ≡ t)
      same body last p = (ground arith, ground arith)

  -- An announcement above the ceiling is refused with both numbers, and no payload is read.
  pub read_frame_refuses :
      (s : S) (n max : ℕ) (rest : List ℕ)
      → contents s ≡ to_le_bytes 4 n ++ rest
      → n < 2 ^ 32
      → max < n
      → read_frame pipe s max ≡ err (stream (above_ceiling n max))
  unfolding read_frame
  read_frame_refuses s n max rest e small big =
      let (t, found, left) = header_at s n rest e in
      let over : leb n max ≡ false = ground arith in
      rw (found, from_le_bytes-to_le_bytes 4 n small, over)
