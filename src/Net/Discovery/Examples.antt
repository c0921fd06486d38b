-- ===== src/Net/Discovery/Examples.antt =====
-- crates/lattice-net/src/discovery.rs: a master that is published and found.
use p2p_distributed_inferenc.Prelude.{
  ℕ, ◌+◌, ◌-◌, ◌≡◌, refl, ap, false, Option, none, some, [], ◌∷◌, map, All, ◌==◌, arith,
}
use p2p_distributed_inferenc.Net.Identity.{DeviceId}
use p2p_distributed_inferenc.Net.Discovery.{
  Text, Texts, Reads, Advertisement, v4, found, lost, resolved, removed, published, fullname,
  next_event,
}
use p2p_distributed_inferenc.Net.Discovery.Announced.{announced, next_event-published}

abbrev one_number : Text → Option ℕ
one_number (n ∷ []) = some n
one_number _ = none

-- A byte or a number is one character, beyond the dot.
abbrev shifted : Texts
shifted = record {
  show_id = map (λ b. b + 100);
  parse_id = λ text. some (map (λ x. x - 100) text);
  show_uint = λ n. n ∷ [];
  parse_uint = λ w text. one_number text;
}

back : (id : DeviceId) → map (λ x. x - 100) (map (λ b. b + 100) id) ≡ id
back [] = refl
back (b ∷ id) = let p : b + 100 - 100 ≡ b = omega arith in rw (p, back id) refl

dotless : (id : DeviceId) → All (λ x. (x == 46) ≡ false) (map (λ b. b + 100) id)
dotless [] = tt
dotless (b ∷ id) = (ground arith, dotless id)

shifted_Reads : Reads shifted (λ id. Unit {0})
shifted_Reads = record {
  parse-show_id = λ id u. ap some (back id);
  show_id_dotless = dotless;
  parse-show_uint = λ w n h. refl;
}

abbrev ad : Advertisement
ad = record {
  device_id = 1 ∷ 2 ∷ 3 ∷ 4 ∷ 5 ∷ 6 ∷ 7 ∷ 8 ∷ [];
  name = 109 ∷ [];
  platform = 112 ∷ [];
  total_memory = 17179869184;
  port = 47900;
}

next_event-published_example :
    (next_event shifted (
        resolved (record {
          txt = published shifted ad (109 ∷ []) (some 47901);
          addresses = v4 1 ∷ [];
          port = 47900;
        })
        ∷ [])
      ≡ some (
        found (
            announced shifted
              (λ id. Unit {0})
              shifted_Reads
              ad
              (109 ∷ [])
              (some 47901)
              (v4 1 ∷ [])),
        [],
      ))
    × (next_event shifted (removed (fullname shifted ad) ∷ []) ≡ some (lost ad.device_id, []))
next_event-published_example =
    next_event-published shifted (λ id. Unit {0}) shifted_Reads ad (109 ∷ []) (some 47901)
      (v4 1 ∷ []) [] tt (omega arith) (omega arith, omega arith)
