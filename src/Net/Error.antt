-- ===== src/Net/Error.antt =====
-- crates/lattice-net/src/lib.rs: the errors of the crate. Where the source formats a text, the model
-- names the occasion, with the numbers that the text shows.
use Prim.Native.String.{String}
use p2p_distributed_inferenc.Prelude.{ℕ}
use p2p_distributed_inferenc.Prelude.Results
pub use p2p_distributed_inferenc.Prelude.Results.{
  ok, err, ◌>>=◌, ◌>>◌, guard, or_fail, map_err, succeeded, Result-cases,
}

pub data Fault : Type 0 where
  frame_exceeds_4_gib writing_frame_length writing_frame reading_frame_length reading_frame : Fault
  above_ceiling : ℕ → ℕ → Fault
  opening_channel writing_header accepting_channel reading_header finishing : Fault
  remote_shard no_known_address other_identity handler_failed : Fault
  -- What the peer says.
  remote_refused : String → Fault

pub data HeaderFault : Type 0 where
  not_lattice : HeaderFault
  other_version : ℕ → HeaderFault
  unknown_kind : ℕ → HeaderFault
  not_control : HeaderFault

pub data CertificateFault : Type 0 where
  unusable_key unreadable_certificate not_ed25519 not_32_bytes : CertificateFault
  no_certificate empty_chain bad_encoding untrusted : CertificateFault

pub data Error : Type 0 where
  io key_encoding malformed_device_id mdns trust_store malformed_pairing_code : Error
  pairing_failed pairing_reflected postcard : Error
  certificate : CertificateFault → Error
  rcgen tls quic_connect quic_connection rejected probe : Error
  stream : Fault → Error
  stream_header : HeaderFault → Error
  no_data_dir : Error

abbrev pub Result {ℓ} : Type ℓ → Type ℓ
Result A = Results.Result Error A
