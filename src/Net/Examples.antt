-- ===== src/Net/Examples.antt =====
-- Small instances of what the crate calls, and the theorems about it at concrete inputs.
pub mod Streams
use Prim.Native.String.{String}
use p2p_distributed_inferenc.Prelude.{
  ℕ, zero, suc, ◌+◌, ◌≤◌, ◌<◌, ◌≡◌, refl, inl, inr, true, false, Option, none, some, List, [], ◌∷◌,
  ◌++◌, arith, length, ◌==◌, if◌then◌else◌, Option-cases, ltb,
}
use p2p_distributed_inferenc.Prelude.Order.{cmp_bytes, is_eq}
use p2p_distributed_inferenc.Prelude.BTreeMap
use p2p_distributed_inferenc.Net.Error.{Result, ok, err, stream, above_ceiling}
use p2p_distributed_inferenc.Net.Bytes.{to_le_bytes, from_le_bytes}
use p2p_distributed_inferenc.Net.Stream.{StreamHeader, activation, from_wire, encode, decode}
use p2p_distributed_inferenc.Net.Stream.RoundTrip.{decode-encode, encode-decode}
use p2p_distributed_inferenc.Net.Codec.{Pipe, write_frame, read_frame}
use p2p_distributed_inferenc.Net.Codec.Frames.{
  read_frame-write_frame, read_frame-le-max, read_frame_refuses,
}
use p2p_distributed_inferenc.Net.Identity.{Crypto, DeviceId, from_public_key}
use p2p_distributed_inferenc.Net.Json.{Object}
use p2p_distributed_inferenc.Net.Trust
use p2p_distributed_inferenc.Net.Trust.{PairedPeer, TrustStore, is_trusted, load}
use p2p_distributed_inferenc.Net.Trust.Laws.{
  is_trusted-insert, is_trusted-remove, load-insert, IsValid, IsPeer,
}
use p2p_distributed_inferenc.Net.Mesh.{
  Mesh, Connection, dialer, get, connect, dial_each, adopt, register,
}
use p2p_distributed_inferenc.Net.Mesh.Adopt.{
  IsDoubleOpen, IsKeyed, dialled, accepted, kept, dropped, settles, ends_agree, connect-IsKeyed,
}

-- A stream is the list of its bytes.
unfoldable pub split : ℕ → List ℕ → Option (List ℕ × List ℕ)
split zero s = some ([], s)
split (suc n) [] = none
split (suc n) (x ∷ s) = elim (split n s) [ none ↦ none | some (a, b) ↦ some (x ∷ a, b) ]

pub split_all : (bs rest : List ℕ) → split (length bs) (bs ++ rest) ≡ some (bs, rest)
unfolding split
split_all [] rest = refl
split_all (b ∷ bs) rest = rw (split_all bs rest, split) refl

pub split_exact :
    (n : ℕ) (s bs t : List ℕ) → split n s ≡ some (bs, t) → (length bs ≡ n) × (s ≡ bs ++ t)
unfolding split
split_exact zero s bs t h = (ground arith, ground arith)
split_exact (suc n) [] bs t h = cc
split_exact (suc n) (x ∷ s) bs t h = elim (Option-cases (split n s)) [
  | inl e ↦ cc
  | inr ((a, b), e) ↦
      let ih = split_exact n s a b e in
      let p : some (x ∷ a, b) ≡ some (bs, t) = rw e at h in
      (ground (arith, ih.0), ground (arith, ih.1))
]

abbrev pub byte_pipe : Pipe
byte_pipe = record {
  S = List ℕ;
  contents = λ s. s;
  write_all = λ s bs. some (s ++ bs);
  read_exact = λ s n. split n s;
  written = λ s t bs h. ground arith;
  in_order = λ s bs rest e. (rest, rw e (split_all bs rest), refl);
  exact = λ s t n bs h. split_exact n s bs t h;
}

-- A key is a number and its digest starts with it.
abbrev pub digest : List ℕ → List ℕ
digest [] =
    0 ∷ 0 ∷ 0 ∷ 0 ∷ 0 ∷ 0 ∷ 0 ∷ 0 ∷ 0 ∷ 0 ∷ 0 ∷ 0 ∷ 0 ∷ 0 ∷ 0 ∷ 0 ∷ 0 ∷ 0 ∷ 0 ∷ 0 ∷ 0 ∷ 0 ∷ 0 ∷ 0
    ∷ 0 ∷ 0 ∷ 0 ∷ 0 ∷ 0 ∷ 0 ∷ 0 ∷ 0 ∷ []
digest (b ∷ bytes) =
    b ∷ 0 ∷ 0 ∷ 0 ∷ 0 ∷ 0 ∷ 0 ∷ 0 ∷ 0 ∷ 0 ∷ 0 ∷ 0 ∷ 0 ∷ 0 ∷ 0 ∷ 0 ∷ 0 ∷ 0 ∷ 0 ∷ 0 ∷ 0 ∷ 0 ∷ 0 ∷ 0
    ∷ 0 ∷ 0 ∷ 0 ∷ 0 ∷ 0 ∷ 0 ∷ 0 ∷ 0 ∷ []

pub length-digest : (bytes : List ℕ) → length (digest bytes) ≡ 32
length-digest [] = refl
length-digest (b ∷ bytes) = refl

abbrev pub key_of : List ℕ → Option ℕ
key_of [] = none
key_of (k ∷ bytes) = some k

-- A key is written as that many strokes.
abbrev tally_of : ℕ → String
tally_of zero = String.[]
tally_of (suc n) = String.◌∷◌ "I" (tally_of n)

abbrev tally : List ℕ → String
tally [] = String.[]
tally (k ∷ bytes) = tally_of k

abbrev strokes : String → ℕ
strokes String.[] = 0
strokes (String.◌∷◌ c s) = strokes s + 1

pub strokes-tally_of : (k : ℕ) → strokes (tally_of k) ≡ k
strokes-tally_of zero = refl
strokes-tally_of (suc k) = rw (strokes-tally_of k) (omega arith)

abbrev pub number_keys : Crypto
number_keys = record {
  Key = ℕ;
  key_eq = ◌==◌;
  key_eq_iff = λ a b. ((λ e. ground arith), λ e. ground arith);
  to_bytes = λ k. k ∷ [];
  from_bytes = key_of;
  from_bytes-to_bytes = λ k. refl;
  sha256 = digest;
  length-sha256 = length-digest;
  encode = tally;
  decode_to_slice = λ n s. some (strokes s ∷ []);
  decode-encode = λ k. rw (strokes-tally_of k) refl;
  JsonText = List Object;
  to_vec_pretty = λ objects. objects;
  from_slice = some;
  from_slice-to_vec_pretty = λ objects. refl;
}

abbrev pub id_of : ℕ → DeviceId
id_of key = key ∷ 0 ∷ 0 ∷ 0 ∷ 0 ∷ 0 ∷ 0 ∷ 0 ∷ []

abbrev pub peer : ℕ → PairedPeer number_keys
peer key = record {
  device_id = id_of key;
  public_key = key;
  name = "peer";
  platform = "linux";
  paired_at = 5;
  introduced_by = none;
}

-- A store that knows the peers 1 and 2.
abbrev pub two_peers : TrustStore number_keys
two_peers = record { peers = (id_of 1, peer 1) ∷ (id_of 2, peer 2) ∷ []; file = none }

two_peers-IsValid : IsValid number_keys two_peers
unfolding cmp_bytes
two_peers-IsValid = record { sorted = ((refl, tt), (tt, tt)); keyed = (refl, (refl, tt)) }

peer-IsPeer : (k : ℕ) → k < 256 → IsPeer number_keys (peer k)
peer-IsPeer k h = record {
  device_id = (
    refl,
    (
      h,
      (
        omega arith,
        (
          omega arith,
          (omega arith, (omega arith, (omega arith, (omega arith, (omega arith, tt))))),
        ),
      ),
    ),
  );
  paired_at = omega arith;
  introduced_by = tt;
}

load-insert_example :
    (t : TrustStore number_keys) × (load number_keys
        (ok (Trust.insert number_keys true (peer 3) two_peers).1.file)
      ≡ ok t)
    × (t.peers ≡ (Trust.insert number_keys true (peer 3) two_peers).1.peers)
load-insert_example =
    load-insert number_keys (peer 3) two_peers two_peers-IsValid (peer-IsPeer 3 (omega arith))
      (peer-IsPeer 1 (omega arith), (peer-IsPeer 2 (omega arith), tt))

abbrev step_header : StreamHeader
step_header = record { kind = activation; session = 7; generation = 2 }

decode-encode_example : decode (encode step_header) ≡ ok step_header
decode-encode_example = decode-encode step_header (omega arith) (omega arith)

abbrev step_bytes : List ℕ
step_bytes = 76 ∷ 84 ∷ 67 ∷ 83 ∷ 1 ∷ 0 ∷ 2 ∷ 0 ∷ 7 ∷ 0 ∷ 0 ∷ 0 ∷ 0 ∷ 0 ∷ 0 ∷ 0 ∷ 2 ∷ 0 ∷ 0 ∷ 0 ∷ []

step_bytes-decode : decode step_bytes ≡ ok step_header
unfolding decode from_le_bytes from_wire
step_bytes-decode = refl

abbrev framed : List ℕ
framed = 2 ∷ 0 ∷ 0 ∷ 0 ∷ 8 ∷ 9 ∷ []

writes_framed : write_frame byte_pipe [] (8 ∷ 9 ∷ []) ≡ ok framed
unfolding write_frame to_le_bytes
writes_framed = refl

reads_framed : read_frame byte_pipe framed 4 ≡ ok (8 ∷ 9 ∷ [], [])
unfolding read_frame split from_le_bytes
reads_framed = refl

read_frame-write_frame_example :
    (v : List ℕ) × (read_frame byte_pipe (framed ++ (5 ∷ [])) 4 ≡ ok (8 ∷ 9 ∷ [], v)) × (v ≡ 5 ∷ [])
read_frame-write_frame_example =
    read_frame-write_frame byte_pipe [] framed (framed ++ (5 ∷ [])) (8 ∷ 9 ∷ []) (5 ∷ []) 4 refl
      writes_framed refl (omega arith)

announces_nine : 9 ∷ 0 ∷ 0 ∷ 0 ∷ 1 ∷ [] ≡ to_le_bytes 4 9 ++ (1 ∷ [])
unfolding to_le_bytes
announces_nine = refl

-- Two devices with connections 0 and 1 open between them.
abbrev end : ℕ → Mesh
end key = record { local = id_of key; peers = []; open_handles = λ h. ltb h 2 }

double_open : IsDoubleOpen (end 1) (id_of 2) 0 1
unfolding get BTreeMap.get
double_open = record {
  others = λ e. ground arith;
  distinct = λ e. ground arith;
  mine_open = refl;
  theirs_open = refl;
  unregistered = refl;
}

IsDoubleOpen-back : IsDoubleOpen (end 2) (id_of 1) 1 0
unfolding get BTreeMap.get
IsDoubleOpen-back = record {
  others = λ e. ground arith;
  distinct = λ e. ground arith;
  mine_open = refl;
  theirs_open = refl;
  unregistered = refl;
}

settles_example :
    ((get
          (id_of 2)
          (adopt
            (accepted (end 1) (id_of 2) 0 1)
            (adopt (dialled (end 1) (id_of 2) 0 1) (end 1)).1).1
        ≡ some (kept (end 1) (id_of 2) 0 1))
      × ((adopt
              (accepted (end 1) (id_of 2) 0 1)
              (adopt (dialled (end 1) (id_of 2) 0 1) (end 1)).1).1.open_handles
            (dropped (end 1) (id_of 2) 0 1)
          ≡ false))
    × ((get
            (id_of 2)
            (adopt
              (dialled (end 1) (id_of 2) 0 1)
              (adopt (accepted (end 1) (id_of 2) 0 1) (end 1)).1).1
          ≡ some (kept (end 1) (id_of 2) 0 1))
        × ((adopt
                (dialled (end 1) (id_of 2) 0 1)
                (adopt (accepted (end 1) (id_of 2) 0 1) (end 1)).1).1.open_handles
              (dropped (end 1) (id_of 2) 0 1)
            ≡ false))
settles_example = settles (end 1) (id_of 2) 0 1 double_open

ends_agree_example :
    (x : Connection) × (y : Connection) × (get
        (id_of 2)
        (adopt (accepted (end 1) (id_of 2) 0 1) (adopt (dialled (end 1) (id_of 2) 0 1) (end 1)).1).1
      ≡ some x)
    × (get
          (id_of 1)
          (adopt
            (accepted (end 2) (id_of 1) 1 0)
            (adopt (dialled (end 2) (id_of 1) 1 0) (end 2)).1).1
        ≡ some y)
    × (x.handle ≡ y.handle)
ends_agree_example = ends_agree (end 1) (end 2) 0 1 double_open IsDoubleOpen-back

-- Address 0 is another device's, address 1 is the one of device 2.
abbrev answers : ℕ → Result Connection
answers addr = ok (record { handle = addr; peer_id = id_of (addr + 1); role = dialer })

abbrev to_second : Connection
to_second = record { handle = 1; peer_id = id_of 2; role = dialer }

connects : (connect answers (id_of 2) (0 ∷ 1 ∷ []) (end 1)).0 ≡ ok to_second
unfolding connect dial_each get BTreeMap.get adopt register cmp_bytes
connects = refl

connect-IsKeyed_example :
    (to_second.peer_id ≡ id_of 2) × IsKeyed (connect answers (id_of 2) (0 ∷ 1 ∷ []) (end 1)).1.peers
connect-IsKeyed_example =
    connect-IsKeyed answers (id_of 2) (0 ∷ 1 ∷ []) (end 1) to_second tt connects
