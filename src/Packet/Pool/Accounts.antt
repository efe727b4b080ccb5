-- ===== src/Packet/Pool/Accounts.antt =====
-- What the pool holds: every buffer with its box, and as many as were put in.
use eo_ip_rs.Base.{
  ltb, ltb→lt, Bool-cases, List-cases, not_ltb→le, length, replicate, All, length-append,
  length-replicate, All-append, ℕ, zero, suc, ◌+◌, ◌≤◌, ◌<◌, ◌≡◌, refl, ap, ◌∙◌, subst, inl, inr,
  true, List, [], ◌∷◌, arith,
}
use eo_ip_rs.Packet.Buffer
use eo_ip_rs.Packet.Buffer.{PacketBuf, reset, buf_total}
use eo_ip_rs.Packet.Buffer.View.{IsOwned}
use eo_ip_rs.Packet.Pool
use eo_ip_rs.Packet.Pool.{ArrayQueue, BufferPool, fill, taken, returned}

-- A buffer that has not lost its box.
abbrev pub HasBox : PacketBuf → Type 0
HasBox b = (bytes : List ℕ) × IsOwned b bytes

HasBox-new : HasBox Buffer.new
unfolding Buffer.new
HasBox-new =
    (replicate buf_total 0, record { owned = refl; size = length-replicate {A = ℕ} buf_total 0 })

-- A buffer as `get` hands it out.
pub record IsFresh (b : PacketBuf) : Type 0 where
  pub box : HasBox b
  pub head : b.head ≡ 64
  pub empty : b.len ≡ 0

IsFresh-new : IsFresh Buffer.new
IsFresh-new = record {
  box = HasBox-new;
  head = unfold Buffer.new in refl;
  empty = unfold Buffer.new in refl;
}

IsFresh-reset : (b : PacketBuf) → HasBox b → IsFresh (record (reset b) { pooled = true })
unfolding reset
IsFresh-reset b (bytes, own) = record {
  box = (bytes, record { owned = own.owned; size = own.size });
  head = refl;
  empty = refl;
}

module _ (q : ArrayQueue PacketBuf) where
  -- Every buffer in the pool has its box.
  abbrev pub IsReady : BufferPool q → Type 0
  IsReady pool = All HasBox (q.items pool.queue)

  get_empty : (pool : BufferPool q) → q.items pool.queue ≡ [] → Pool.get q pool ≡ (pool, Buffer.new)
  unfolding Pool.get
  get_empty pool none_left = rw (q.pop_empty pool.queue none_left) refl

  get_some :
      (pool : BufferPool q) (b : PacketBuf) (rest : List PacketBuf)
      → q.items pool.queue ≡ b ∷ rest
      → Pool.get q pool
        ≡ (record pool { queue = (q.pop pool.queue).0 }, record (reset b) { pooled = true })
  unfolding Pool.get
  get_some pool b rest some_left =
      ap (λ o. taken q pool ((q.pop pool.queue).0, o)) (q.pop_item b rest pool.queue some_left).0

  -- A pool whose buffers have their boxes, even an empty one, hands out a buffer with its box, its
  -- head at 64 and no content, and the buffers that stay have their boxes.
  pub get-IsFresh :
      (pool : BufferPool q)
      → IsReady pool
      → IsReady (Pool.get q pool).0 × IsFresh (Pool.get q pool).1
  get-IsFresh pool ready = elim (List-cases (q.items pool.queue)) [
    | inl none_left ↦ rw (get_empty pool none_left) (ready, IsFresh-new)
    | inr (b, rest, some_left) ↦
        let all = subst (All HasBox) some_left ready in
        let left = (q.pop_item b rest pool.queue some_left).1 in
        rw (get_some pool b rest some_left) (rw left all.1, IsFresh-reset b all.0)
  ]

  -- A buffer taken from a pool and dropped leaves the pool with as many buffers as before: one of the
  -- pool's goes back, and one made because the pool was empty does not.
  pub available-drop_buf-get :
      (pool : BufferPool q)
      → length (q.items pool.queue) ≤ q.room pool.queue
      → Pool.available q (Pool.drop_buf q (Pool.get q pool).1 (Pool.get q pool).0)
        ≡ Pool.available q pool
  unfolding Pool.available Pool.drop_buf
  available-drop_buf-get pool fits = elim (List-cases (q.items pool.queue)) [
    | inl none_left ↦ rw (get_empty pool none_left) (unfold Buffer.new in refl)
    | inr (b, rest, some_left) ↦
        let left = (q.pop_item b rest pool.queue some_left).1 in
        let size = ap length some_left in
        let kept = ap length left in
        let room = q.room-pop pool.queue in
        rw (get_some pool b rest some_left) (
          unfold reset in
          ap length (q.push_taken _ (q.pop pool.queue).0 (omega arith))
          ∙ omega (arith, length-append (q.items (q.pop pool.queue).0)))
  ]

  fill_lem :
      (n : ℕ) (queue : q.Queue)
      → length (q.items queue) + n ≤ q.room queue
      → length (q.items (fill q n queue)) ≡ length (q.items queue) + n
  unfolding fill
  fill_lem zero queue fits = omega arith
  fill_lem (suc n) queue fits =
      let one = ap length (q.push_taken Buffer.new queue (omega arith)) in
      let same = q.room-push Buffer.new queue in
      let snoc = length-append (q.items queue) (Buffer.new ∷ []) in
      fill_lem n (q.push Buffer.new queue).0 (omega arith) ∙ omega arith

  -- A new pool of a capacity above 0 has that many buffers.
  pub available-new :
      (capacity : ℕ) → 0 < capacity → Pool.available q (Pool.new q capacity) ≡ capacity
  unfolding Pool.available Pool.new
  available-new capacity some_room =
      let empty = ap length (q.items-new capacity some_room) in
      let room = q.room-new capacity some_room in
      fill_lem capacity (q.with_capacity capacity) (omega arith) ∙ omega arith

  HasBox-returned : (b : PacketBuf) → HasBox b → HasBox (returned q b)
  unfolding returned
  HasBox-returned b (bytes, own) = (bytes, record { owned = own.owned; size = own.size })

  -- Dropping a buffer that has its box, pooled or not, keeps the pool ready.
  pub drop_buf-IsReady :
      (b : PacketBuf) (pool : BufferPool q)
      → HasBox b
      → IsReady pool
      → IsReady (Pool.drop_buf q b pool)
  unfolding Pool.drop_buf
  drop_buf-IsReady b pool box ready = elim (Bool-cases b.pooled) [
    | inr standalone ↦ rw standalone ready
    | inl pooled ↦
        rw pooled (elim (Bool-cases (ltb (length (q.items pool.queue)) (q.room pool.queue))) [
          | inl some_room ↦
              rw (q.push_taken _ pool.queue (ltb→lt _ _ some_room))
                (All-append HasBox (q.items pool.queue) _ ready (HasBox-returned b box, tt))
          | inr full ↦ rw (q.push_full _ pool.queue (not_ltb→le _ _ full)) ready
        ])
  ]
