-- ===== src/Packet/Pool.antt =====
-- `BufferPool` of crates/eoip-rs/src/packet/buffer.rs. `ArrayQueue` is a package: its operations, and
-- what its documentation says of them, are the record below.
pub mod Accounts
use eo_ip_rs.Base.{
  if◌then◌else◌, length, ℕ, zero, suc, ◌+◌, ◌-◌, ◌≤◌, ◌<◌, ◌≡◌, Bool, true, false, Option, none,
  some, List, [], ◌∷◌, ◌++◌,
}
use eo_ip_rs.Packet.Buffer
use eo_ip_rs.Packet.Buffer.{PacketBuf, reset, header_headroom}

-- A bounded queue. `push` answers whether the item was taken; a full queue stays as it is.
pub record ArrayQueue (A : Type 0) : Type 1 where
  pub Queue : Type 0
  pub with_capacity : ℕ → Queue
  pub push : A → Queue → Queue × Bool
  pub pop : Queue → Queue × Option A
  pub items : Queue → List A
  pub room : Queue → ℕ
  pub items-new : (n : ℕ) → 0 < n → items (with_capacity n) ≡ []
  pub room-new : (n : ℕ) → 0 < n → room (with_capacity n) ≡ n
  pub push_taken :
      (a : A) (q : Queue) → length (items q) < room q → items (push a q).0 ≡ items q ++ a ∷ []
  pub push_full : (a : A) (q : Queue) → room q ≤ length (items q) → items (push a q).0 ≡ items q
  pub room-push : (a : A) (q : Queue) → room (push a q).0 ≡ room q
  pub pop_empty : (q : Queue) → items q ≡ [] → pop q ≡ (q, none)
  pub pop_item :
      (a : A) (rest : List A) (q : Queue)
      → items q ≡ a ∷ rest
      → ((pop q).1 ≡ some a) × (items (pop q).0 ≡ rest)
  pub room-pop : (q : Queue) → room (pop q).0 ≡ room q

module _ (q : ArrayQueue PacketBuf) where
  pub record BufferPool : Type 0 where
    pub queue : q.Queue
    pub capacity : ℕ

  -- The loop `for _ in 0..capacity`.
  fill : ℕ → q.Queue → q.Queue
  fill zero queue = queue
  fill (suc n) queue = fill n (q.push Buffer.new queue).0

  unfoldable pub new : ℕ → BufferPool
  unfolding fill
  new capacity = record { queue = fill capacity (q.with_capacity capacity); capacity = capacity }

  taken : BufferPool → q.Queue × Option PacketBuf → BufferPool × PacketBuf
  taken pool (queue, some buf) =
      (record pool { queue = queue }, record (reset buf) { pooled = true })
  taken pool (queue, none) = (record pool { queue = queue }, Buffer.new)

  unfoldable pub get : BufferPool → BufferPool × PacketBuf
  unfolding taken reset
  get pool = taken pool (q.pop pool.queue)

  unfoldable pub available : BufferPool → ℕ
  available pool = length (q.items pool.queue)

  -- `Drop for PacketBuf`: a pooled buffer hands its box back, a standalone one is freed.
  returned : PacketBuf → PacketBuf
  returned b = record { bytes = b.bytes; head = header_headroom; len = 0; pooled = false }

  unfoldable pub drop_buf : PacketBuf → BufferPool → BufferPool
  unfolding returned
  drop_buf b pool =
      if b.pooled then record pool { queue = (q.push (returned b) pool.queue).0 } else pool
