-- ===== src/LoadBalance/Hash.antt =====
-- core/loadbalance/selector.go: IPHash, AddrHash and the hash that they share.
pub mod Place
use Prim.Native.Nat.{bit_xor}
use jocasta.Prelude.{
  ℕ, zero, suc, ◌+◌, ◌*◌, ◌%◌, ◌^◌, Option, none, some, [], ◌∷◌, length, if◌then◌else◌,
}
use jocasta.Go.Result.{Result, ok, err, panic, ◌>>=◌}
use jocasta.Go.Io.{Bytes}
use jocasta.Go.HostPort.{split_host_port}
use jocasta.LoadBalance.Upstream.{Upstream, available, add_uint32}
use jocasta.LoadBalance.Pool.{Pool, NoError, pool_at}
use jocasta.LoadBalance.Random.{random_select}

-- The Write of hash/fnv's 32-bit FNV-1a.
fnv_write : ℕ → Bytes → ℕ
fnv_write h [] = h
fnv_write h (b ∷ bs) = fnv_write (bit_xor h b * 16777619 % 2 ^ 32) bs

-- hash
pub hash : Bytes → ℕ
unfolding fnv_write
hash s = fnv_write 2166136261 s

-- The loop of hashing, with the turns that are left.
hash_loop : ℕ → Pool → ℕ → Result NoError (Option Upstream)
hash_loop zero us index = ok none
hash_loop (suc turns) us index =
    let rest = hash_loop turns us (add_uint32 index) in
    pool_at us (index % (length us % 2 ^ 32)) >>= λ u. if available u then ok (some u) else rest

-- hashing: the remainder by the length of an empty pool panics.
pub hashing : Pool → Bytes → Result NoError (Option Upstream)
unfolding hash hash_loop
hashing us s = elim (length us % 2 ^ 32) [
  | zero ↦ panic
  | suc n ↦ hash_loop (suc n) us (hash s % suc n)
]

-- (AddrHash).Select
unfoldable pub addr_hash_select : (ℕ → ℕ) → Pool → Bytes → Result NoError (Option Upstream)
unfolding hashing
addr_hash_select rand us [] = ok (random_select rand us)
addr_hash_select rand us (c ∷ cs) = hashing us (c ∷ cs)

-- What IPHash hashes: the host of host:port, or all of an address that is not of this form.
unfoldable pub hash_key : Bytes → Bytes
hash_key src = elim (split_host_port src) [ ok (host, _) ↦ host | err _ ↦ src | panic ↦ src ]

-- (IPHash).Select
unfoldable pub ip_hash_select : (ℕ → ℕ) → Pool → Bytes → Result NoError (Option Upstream)
unfolding hashing hash_key
ip_hash_select rand us [] = ok (random_select rand us)
ip_hash_select rand us (c ∷ cs) = hashing us (hash_key (c ∷ cs))
