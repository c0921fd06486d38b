-- ===== src/Net/Discovery/Announced.antt =====
-- crates/lattice-net/src/discovery.rs: what is published is found.
use p2p_distributed_inferenc.Prelude.{
  ℕ, ◌^◌, ◌<◌, ◌≡◌, refl, ap, ◌∙◌, false, not, Option, none, some, List, [], ◌∷◌, ◌++◌, map, All,
  ◌==◌, arith, take_while,
}
use p2p_distributed_inferenc.Net.Identity.{DeviceId}
use p2p_distributed_inferenc.Net.Discovery.{
  Text, Texts, Reads, txt_pairing_port, Advertisement, IpAddr, DiscoveredPeer, found, lost,
  ServiceEvent, resolved, removed, protocol_version, unless_empty, published, fullname,
  service_type, pairing_port_of, to_peer, device_id_from_fullname, next_event,
}

module _ (t : Texts) (IsId : DeviceId → Type 0) (reads : Reads t IsId) where
  -- The peer that the advertisement describes.
  abbrev pub announced : Advertisement → Text → Option ℕ → List IpAddr → DiscoveredPeer
  announced ad role pairing_port ips = record {
    device_id = ad.device_id;
    name = ad.name;
    platform = ad.platform;
    total_memory = ad.total_memory;
    protocol = protocol_version;
    addrs = map (λ ip. record { ip = ip; port = ad.port }) ips;
    role = unless_empty role;
    pairing_port = pairing_port;
  }

  -- A pairing port that is published is a port.
  abbrev pub IsPort : Option ℕ → Type 0
  IsPort none = Unit {0}
  IsPort (some port) = (0 < port) × (port < 2 ^ 16)

  pairing_port_of-published :
      (ad : Advertisement) (role : Text) (port : Option ℕ)
      → IsPort port
      → pairing_port_of t (published t ad role port txt_pairing_port) ≡ some port
  unfolding pairing_port_of published
  pairing_port_of-published ad role none h = refl
  pairing_port_of-published ad role (some port) (pos, small) =
      let e = reads.parse-show_uint 16 port small in
      let nonzero : (port == 0) ≡ false = ground arith in rw (e, nonzero) refl

  take_while_dotless :
      (text rest : Text)
      → All (λ x. (x == 46) ≡ false) text
      → take_while (λ x. not (x == 46)) (text ++ (46 ∷ rest)) ≡ text
  take_while_dotless [] rest h = refl
  take_while_dotless (x ∷ text) rest (h, hs) = rw (h, take_while_dotless text rest hs) refl

  device_id_from_fullname-fullname :
      (ad : Advertisement)
      → IsId ad.device_id
      → device_id_from_fullname t (fullname t ad) ≡ some ad.device_id
  unfolding device_id_from_fullname fullname
  device_id_from_fullname-fullname ad id =
      ap t.parse_id (
        take_while_dotless (t.show_id ad.device_id) service_type
          (reads.show_id_dotless ad.device_id))
      ∙ reads.parse-show_id ad.device_id id

  -- What a device publishes, another one that resolves it finds: the device, its role and pairing port, and
  -- its addresses with the port that it listens on, if its memory is a u64 and its pairing port a nonzero
  -- u16. And the name it registers under, when it is removed, is lost as the same device.
  pub next_event-published :
      (ad : Advertisement) (role : Text) (pairing_port : Option ℕ) (ips : List IpAddr)
      (events : List ServiceEvent)
      → IsId ad.device_id
      → ad.total_memory < 2 ^ 64
      → IsPort pairing_port
      → (next_event t (
            resolved
              (record { txt = published t ad role pairing_port; addresses = ips; port = ad.port })
            ∷ events)
          ≡ some (found (announced ad role pairing_port ips), events))
        × (next_event t (removed (fullname t ad) ∷ events) ≡ some (lost ad.device_id, events))
  unfolding next_event to_peer published
  next_event-published ad role pairing_port ips events id memory port =
      let i = reads.parse-show_id ad.device_id id in
      let m = reads.parse-show_uint 64 ad.total_memory memory in
      let p = reads.parse-show_uint 16 protocol_version (omega arith) in
      let q = pairing_port_of-published ad role pairing_port port in
      let d = device_id_from_fullname-fullname ad id in (rw (i, m, p, q) refl, rw d refl)
