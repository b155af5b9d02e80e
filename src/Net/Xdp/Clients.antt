-- ===== src/Net/Xdp/Clients.antt =====
-- A client written into the map of ports and found in it again
-- (src/net/io/nic/xdp/process.rs, `PortMap::insert` and `PortMap::get`).
use quilkin.Common.{
  ℕ, ◌-◌, ◌/◌, ◌%◌, ◌≡◌, ◌≢◌, ◌≤◌, ◌<◌, ap, inl, inr, Bool-cases, none, some, length, ◌==◌,
  if◌then◌else◌, arith,
}
use quilkin.Net.Address.{SocketAddr}
use quilkin.Net.Xdp.{
  ephemeral_range_end, bucket_size, Item, item_set, item_get, Buckets, item_at, port_map_get,
  update_at, extended, port_map_insert,
}
use quilkin.Net.Xdp.Ports.{IsClient, item_get-item_set, length-update_at}
use quilkin.Net.Xdp.Items.{
  IsFull, item_at-update_at, port_map_get-extended, extended-IsFull, update_at-IsFull,
  item_at-within, length-extended, same_place,
}

-- What an index with an item shows: its client, if the port has been set.
port_map_get-some :
    (q : ℕ) (buckets : Buckets) (item : Item)
    → ephemeral_range_end ≤ q
    → item_at (q - ephemeral_range_end) buckets ≡ some item
    → port_map_get q buckets ≡ (if item.port == 0 then none else some (item_get item))
unfolding port_map_get
port_map_get-some q buckets item l e = ground (arith, e)

port_map_get-written_self :
    (client : SocketAddr) (q : ℕ) (buckets : Buckets)
    → IsClient client
    → IsFull buckets
    → (q - ephemeral_range_end) / bucket_size < length buckets
    → ephemeral_range_end ≤ q
    → port_map_get q (
        update_at
          ((q - ephemeral_range_end) / bucket_size)
          (update_at ((q - ephemeral_range_end) % bucket_size) (item_set client))
          buckets)
      ≡ some client
unfolding item_set
port_map_get-written_self client q buckets c full h l =
    let j = q - ephemeral_range_end in
    let (old, e) = item_at-within j buckets full h in
    let item = item_set client old in
    let updated =
      update_at (j / bucket_size) (update_at (j % bucket_size) (item_set client)) buckets in
    let at : item_at j updated ≡ some item = ground (
      arith,
      e,
      item_at-update_at (j / bucket_size) (j % bucket_size) j (item_set client) buckets,
    ) in
    ground (arith, port_map_get-some q updated item l at, c, item_get-item_set client old c.0)

port_map_get-written_other :
    (client : SocketAddr) (i q : ℕ) (buckets : Buckets)
    → i ≢ q - ephemeral_range_end
    → port_map_get q
        (update_at (i / bucket_size) (update_at (i % bucket_size) (item_set client)) buckets)
      ≡ port_map_get q buckets
unfolding port_map_get
port_map_get-written_other client i q buckets ne =
    let j = q - ephemeral_range_end in
    ground (
      arith,
      ne,
      same_place i j,
      item_at-update_at (i / bucket_size) (i % bucket_size) j (item_set client) buckets,
    )

-- The map after a client is written at a port: every bucket is still full, no bucket is lost, and
-- the client is at that port, and what was at every other port in the range is there.
pub port_map_insert-get :
    (client : SocketAddr) (port : ℕ) (buckets : Buckets)
    → IsClient client
    → IsFull buckets
    → ephemeral_range_end ≤ port
    → (port - ephemeral_range_end) / bucket_size ≤ length buckets
    → (buckets' : Buckets) × (port_map_insert client port buckets ≡ some buckets')
      × IsFull buckets'
      × ((port - ephemeral_range_end) / bucket_size < length buckets')
      × ((q : ℕ)
          → ephemeral_range_end ≤ q
          → port_map_get q buckets' ≡ (if q == port then some client else port_map_get q buckets))
unfolding port_map_insert
port_map_insert-get client port buckets c full l h =
    let i = port - ephemeral_range_end in
    let b = i / bucket_size in
    let wide = extended b buckets in
    let (longer, room) = length-extended b buckets h in
    let full' = extended-IsFull b buckets full in
    let written = update_at b (update_at (i % bucket_size) (item_set client)) wide in
    (
      written,
      ground (arith, room),
      update_at-IsFull b (i % bucket_size) (item_set client) wide full',
      ground (arith, room, length-update_at b (update_at (i % bucket_size) (item_set client)) wide),
      λ q m. elim (Bool-cases (q == port)) [
        | inl e ↦
            let same : q ≡ port = ground (arith, e) in
            ground (
              arith,
              e,
              ap (λ x. port_map_get x written) same,
              port_map_get-written_self client port wide c full' room l,
            )
        | inr e ↦ ground (
          arith,
          e,
          port_map_get-written_other client i q wide (ground (arith, e)),
          port_map_get-extended b q buckets,
        )
      ],
    )
