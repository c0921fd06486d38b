-- ===== src/Daemon/Node/Examples.antt =====
-- The theorems about introductions at concrete stores.
use p2p_distributed_inferenc.Prelude.{
  ℕ, ◌+◌, ◌≡◌, refl, ◌⊎◌, false, true, List, [], ◌∷◌, length, All,
}
use p2p_distributed_inferenc.Net.Control.{Introduction, provisioned}
use p2p_distributed_inferenc.Net.Identity.{from_public_key}
use p2p_distributed_inferenc.Prelude.BTreeMap
use p2p_distributed_inferenc.Prelude.BTreeMap.{get-insert}
use p2p_distributed_inferenc.Prelude.Order.{bytes_ord, cmp_bytes}
use p2p_distributed_inferenc.Net.Trust
use p2p_distributed_inferenc.Net.Trust.{PairedPeer, TrustStore, save}
use p2p_distributed_inferenc.Net.Examples.{number_keys, id_of, peer, two_peers}
use p2p_distributed_inferenc.Daemon.Node.{knows, accept_introductions, roster_for}
use p2p_distributed_inferenc.Daemon.Node.Introductions.{
  Vouched, accept_introductions-Vouched, knows-insert, roster_provisions,
}

abbrev introduced_three : List Introduction
introduced_three = record { public_key = 3 ∷ []; name = "three"; platform = "linux" } ∷ []

-- Another task pairs with device 7, again and again.
abbrev pairs_with_seven : ℕ → TrustStore number_keys → TrustStore number_keys
pairs_with_seven n s = (Trust.insert number_keys true (peer 7) s).1

three_untouched :
    (n : ℕ) (u : TrustStore number_keys)
    → Trust.get number_keys (id_of 3) (pairs_with_seven n u) ≡ Trust.get number_keys (id_of 3) u
unfolding Trust.get Trust.insert save cmp_bytes
three_untouched n u = get-insert (id_of 7) (id_of 3) (peer 7) u.peers

accept_introductions-Vouched_example :
    Vouched number_keys
      (id_of 9)
      (id_of 1)
      (id_of 3)
      two_peers
      (accept_introductions number_keys true 5 pairs_with_seven
        (id_of 9)
        (id_of 1)
        introduced_three
        two_peers).1
accept_introductions-Vouched_example =
    accept_introductions-Vouched number_keys true 5 pairs_with_seven (id_of 9) (id_of 1)
      introduced_three two_peers (id_of 3) three_untouched

four_unknown : knows number_keys (id_of 4) two_peers ≡ false
unfolding knows Trust.get BTreeMap.get cmp_bytes
four_unknown = refl

one_known : knows number_keys (id_of 1) two_peers ≡ true
unfolding knows Trust.get BTreeMap.get cmp_bytes
one_known = refl

abbrev three_peers : List (PairedPeer number_keys)
three_peers = peer 2 ∷ peer 3 ∷ peer 9 ∷ []

three_keyed : All (λ p. from_public_key number_keys p.public_key ≡ p.device_id) three_peers
unfolding from_public_key
three_keyed = (refl, (refl, (refl, tt)))

roster_provisions_example :
    (a : ℕ) × (b : ℕ) × (t : TrustStore number_keys) × (accept_introductions number_keys true 5
        pairs_with_seven
        (id_of 9)
        (id_of 1)
        (roster_for number_keys (id_of 9) three_peers)
        two_peers
      ≡ (provisioned a b, t))
    × (a + b ≡ length (roster_for number_keys (id_of 9) three_peers))
    × All (λ p. (p.device_id ≡ id_of 9) ⊎ (knows number_keys p.device_id t ≡ true)) three_peers
roster_provisions_example =
    roster_provisions number_keys 5 pairs_with_seven
      (λ n u id. knows-insert number_keys (peer 7) u id) (id_of 9) (id_of 1) three_peers two_peers
      one_known three_keyed
