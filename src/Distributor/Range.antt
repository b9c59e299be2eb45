-- ===== src/Distributor/Range.antt =====
-- The answers of a distributor are hosts of the pool.
use gekko_fwd.Base.{
  ℕ, zero, suc, ◌+◌, ◌≤◌, ◌<◌, ◌≡◌, refl, ◌⊎◌, inl, inr, ◌%◌, List, [], ◌∷◌, range, arith, sym, ◌≢◌,
}
use native.Mathlib.Decide.{ℕ_discrete}
use native.Mathlib.Nat.{mod-lt}
use gekko_fwd.Decimal.{Bytes}
use gekko_fwd.Distributor.{
  Distributor, simple_hash, local_only, forwarder, locate_data, locate_file_metadata,
  locate_directory_metadata,
}

-- The constructors are given hosts of a pool of `n`.
abbrev pub Within : ℕ → Distributor → Type 0
Within n (simple_hash localhost hosts_size) = (hosts_size ≡ n) × (0 < n)
Within n (local_only localhost) = localhost < n
Within n (forwarder fwd_host hosts_size) = (hosts_size ≡ n) × (fwd_host < n)

-- A host is in a list.
abbrev pub In : ℕ → List ℕ → Type 0
In a [] = ⊥
In a (x ∷ xs) = (a ≡ x) ⊎ In a xs

In-range : (a first n : ℕ) → first ≤ a → a < first + n → In a (range first n)
In-range a first zero h k = absurd (omega arith)
In-range a first (suc n) h k =
    let rest : first ≢ a → In a (range (suc first) n) =
      λ ne. In-range a (suc first) n (omega arith) (omega arith) in
    elim (ℕ_discrete a first) [ yes e ↦ inl e | no ne ↦ inr (rest (λ e. ne (sym e))) ]

-- With a distributor made for hosts of a pool of `n`, every chunk and every entry is at a host
-- of the pool, and the entry's host is among those that are asked for the directory listing.
pub pool_hosts :
    (str_hash : Bytes → ℕ) (d : Distributor) (n : ℕ) (path : Bytes) (chnk_id : ℕ)
    → Within n d
    → (locate_data str_hash d path chnk_id < n)
      × (locate_file_metadata str_hash d path < n)
      × In (locate_file_metadata str_hash d path) (locate_directory_metadata d path)
unfolding locate_data locate_file_metadata locate_directory_metadata
pool_hosts str_hash (simple_hash localhost hosts_size) n path chnk_id (e, pos) =
    let fits : str_hash path % hosts_size < hosts_size = mod-lt (str_hash path) (omega arith) in
    (
      omega arith,
      omega arith,
      In-range (str_hash path % hosts_size) 0 hosts_size (omega arith) (omega arith),
    )
pool_hosts str_hash (local_only localhost) n path chnk_id h = (h, h, inl refl)
pool_hosts str_hash (forwarder fwd_host hosts_size) n path chnk_id (e, h) =
    let fits : str_hash path % hosts_size < hosts_size = mod-lt (str_hash path) (omega arith) in
    (h, omega arith, In-range (str_hash path % hosts_size) 0 hosts_size (omega arith) (omega arith))
