-- ===== src/Distributor.antt =====
-- src/global/rpc/distributor.cpp: which host holds a chunk or an entry. `std::hash` of a string is
-- a parameter, the same function on every host.
pub mod Range
use gekko_fwd.Base.{ℕ, ◌%◌, List, [], ◌∷◌, ◌++◌, range}
use gekko_fwd.Decimal.{Bytes, to_string}

-- The subclasses of `Distributor`, with the fields that their methods read.
pub data Distributor : Type 0 where
  simple_hash : ℕ → ℕ → Distributor
  local_only : ℕ → Distributor
  forwarder : ℕ → ℕ → Distributor

unfoldable pub localhost : Distributor → ℕ
localhost (simple_hash host hosts_size) = host
localhost (local_only host) = host
localhost (forwarder fwd_host hosts_size) = fwd_host

module _ (str_hash : Bytes → ℕ) where
  unfoldable pub locate_data : Distributor → Bytes → ℕ → ℕ
  locate_data (simple_hash host hosts_size) path chnk_id =
      str_hash (path ++ to_string chnk_id) % hosts_size
  locate_data (local_only host) path chnk_id = host
  locate_data (forwarder fwd_host hosts_size) path chnk_id = fwd_host

  unfoldable pub locate_file_metadata : Distributor → Bytes → ℕ
  locate_file_metadata (simple_hash host hosts_size) path = str_hash path % hosts_size
  locate_file_metadata (local_only host) path = host
  locate_file_metadata (forwarder fwd_host hosts_size) path = str_hash path % hosts_size

unfoldable pub locate_directory_metadata : Distributor → Bytes → List ℕ
locate_directory_metadata (simple_hash host hosts_size) path = range 0 hosts_size
locate_directory_metadata (local_only host) path = host ∷ []
locate_directory_metadata (forwarder fwd_host hosts_size) path = range 0 hosts_size
