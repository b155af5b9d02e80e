-- ===== src/Net/Cluster/Batch/Count.antt =====
-- What a batch counts (src/net/cluster.rs), beside the sizes of the sets.
use quilkin.Common.{
  ℕ, ◌+◌, ◌^◌, ◌%◌, ◌≤◌, ◌<◌, ◌≡◌, refl, ap, ◌∙◌, subst, Bool, true, false, Option, none, some,
  List, [], ◌∷◌, length, arith, inl, inr, Option-cases, Bool-cases, if◌then◌else◌,
}
use quilkin.Common.Maps
use quilkin.Common.Maps.Sorted.{
  IsSorted, insert-IsSorted, remove-IsSorted, length-insert, length-remove,
}
use quilkin.Net.Address.{EndpointAddress, Locality, address_ord, locality_key_ord}
use quilkin.Net.Cluster.{EndpointMetadata, InnerMap, Env, EndpointSet}
use quilkin.Net.Cluster.Endpoints.{
  EndpointSetWriteGuard, modify, new, update, from_set, collect_endpoints, insert_all,
  replace_endpoint, remove_endpoint, remove_endpoint_if, find_address, drop_guard,
}
use quilkin.Net.Cluster.Endpoints.Versions.{IsValid, new-IsValid, update-IsValid}
use quilkin.Net.Cluster.Clusters.{
  ClusterMap, EndpointSetUpdateAction, upsert, remove_by_endpoint, remove_by_name, u32_mod, u64_mod,
  fetch_add, fetch_sub, is_positive, unsigned_abs,
}
use quilkin.Net.Cluster.Clusters.Total.{total, size, total-insert, insert-AllValid, get-AllValid}
use quilkin.Net.Cluster.Clusters.Invariant.{Inv, do_remove_locality-Inv}
use quilkin.Net.Cluster.Batch.{
  apply_action, apply_update_batch_to_guard, or_new, write_set, batch_modify,
}

find_address-contains :
    {U : Type 0} (p : EndpointMetadata U → Bool) (eps : InnerMap U) (a : EndpointAddress)
    → find_address p eps ≡ some a
    → Maps.contains_key a eps ≡ true
unfolding find_address Maps.get
find_address-contains p [] a e = cc
find_address-contains p ((b, md) ∷ eps) a e =
    ground (arith, find_address-contains p eps a, address_ord.cmp_refl a)

module _ {U R : Type 0} (env : Env U R) where
  -- Where the count and the guard stand after `k` more actions.
  record Tracks (g h : EndpointSetWriteGuard U R) (n m k : ℕ) : Type 0 where
    sorted : IsSorted h.endpoint_set.endpoints
    count :
        (m + length g.endpoint_set.endpoints) % u32_mod
        ≡ (n + length h.endpoint_set.endpoints) % u32_mod
    small : m < u32_mod
    grows : length h.endpoint_set.endpoints ≤ length g.endpoint_set.endpoints + k
    shrinks : length g.endpoint_set.endpoints ≤ length h.endpoint_set.endpoints + k
    keeps : h.needs_update ≡ false → g.needs_update ≡ false
    unchanged : h.needs_update ≡ false → h.endpoint_set ≡ g.endpoint_set

  apply_action-Tracks :
      (action : EndpointSetUpdateAction U) (g : EndpointSetWriteGuard U R) (n : ℕ)
      → IsSorted g.endpoint_set.endpoints
      → n < u32_mod
      → Tracks g (apply_action env action g n).0 n (apply_action env action g n).1 1
  unfolding apply_action replace_endpoint remove_endpoint remove_endpoint_if
  apply_action-Tracks (upsert ep) g n s lt = ground (
    arith,
    insert-IsSorted ep.address ep.metadata g.endpoint_set.endpoints s,
    length-insert ep.address ep.metadata g.endpoint_set.endpoints s,
  )
  apply_action-Tracks (remove_by_endpoint ep) g n s lt = ground (
    arith,
    remove-IsSorted ep.address g.endpoint_set.endpoints s,
    length-remove ep.address g.endpoint_set.endpoints s,
  )
  apply_action-Tracks (remove_by_name name) g n s lt =
      elim (Option-cases
        (find_address (λ md. env.has_name md.unknown name) g.endpoint_set.endpoints)) [
          | inl e ↦ ground (arith, e, s)
          | inr (a, e) ↦ ground (
            arith,
            e,
            find_address-contains (λ md. env.has_name md.unknown name) g.endpoint_set.endpoints a e,
            remove-IsSorted a g.endpoint_set.endpoints s,
            length-remove a g.endpoint_set.endpoints s,
          )
        ]

  Tracks-trans :
      (g h i : EndpointSetWriteGuard U R) (n m o j k : ℕ)
      → Tracks g h n m j
      → Tracks h i m o k
      → Tracks g i n o (j + k)
  Tracks-trans g h i n m o j k p q = record {
    sorted = q.sorted;
    count = omega (arith, p.count, q.count);
    small = q.small;
    grows = omega (arith, p.grows, q.grows);
    shrinks = omega (arith, p.shrinks, q.shrinks);
    keeps = λ e. p.keeps (q.keeps e);
    unchanged = λ e. q.unchanged e ∙ p.unchanged (q.keeps e);
  }

  batch-Tracks :
      (batch : List (EndpointSetUpdateAction U)) (g : EndpointSetWriteGuard U R) (n : ℕ)
      → IsSorted g.endpoint_set.endpoints
      → n < u32_mod
      → Tracks g
          (apply_update_batch_to_guard env batch g n).0
          n
          (apply_update_batch_to_guard env batch g n).1
          (length batch)
  unfolding apply_update_batch_to_guard
  batch-Tracks [] g n s lt = ground (arith, s)
  batch-Tracks (action ∷ batch) g n s lt =
      let first = apply_action-Tracks action g n s lt in
      let (h, m) = apply_action env action g n in
      subst (Tracks g _ n _) (omega arith) (
        Tracks-trans g h _ n m _ 1 (length batch) first
          (batch-Tracks batch h m first.sorted first.small))

  or_new-IsValid :
      (l : Option Locality) (cm : ClusterMap U R)
      → Inv env cm
      → IsValid env (or_new env (Maps.get l cm.map))
  or_new-IsValid l cm i = elim (Option-cases (Maps.get l cm.map)) [
    | inl e ↦ rw e (new-IsValid env [])
    | inr (s, e) ↦ rw e (get-AllValid env l s cm.map i.sets_valid e)
  ]

  drop_guard-IsValid :
      (g h : EndpointSetWriteGuard U R) (n m k : ℕ)
      → Tracks g h n m k
      → IsValid env g.endpoint_set
      → IsValid env (drop_guard env h)
  unfolding drop_guard
  drop_guard-IsValid g h n m k p v = elim (Bool-cases h.needs_update) [
    | inl e ↦ rw e (update-IsValid env h.endpoint_set p.sorted)
    | inr e ↦ rw (e, p.unchanged e) v
  ]

  endpoints-drop_guard :
      (g : EndpointSetWriteGuard U R) → (drop_guard env g).endpoints ≡ g.endpoint_set.endpoints
  unfolding drop_guard update
  endpoints-drop_guard g = ground arith

  -- The counter after a batch that turned `old` endpoints into `now`.
  abbrev counted_batch : ℕ → ℕ → ℕ
  counted_batch n m =
      if is_positive m then fetch_add n (unsigned_abs m) else fetch_sub n (unsigned_abs m)

  counted_batch_lem :
      (n m old now k before after : ℕ)
      → (m + old) % u32_mod ≡ (0 + now) % u32_mod
      → m < u32_mod
      → now ≤ old + k
      → old ≤ now + k
      → k < 2 ^ 31
      → n ≡ before % u64_mod
      → after + old ≡ before + now
      → counted_batch n m ≡ after % u64_mod
  counted_batch_lem n m old now k before after c s up down small e change = ground arith

  size-or_new : (o : Option (EndpointSet U R)) → size o ≡ length (or_new env o).endpoints
  unfolding new update from_set collect_endpoints insert_all
  size-or_new none = refl
  size-or_new (some s) = refl

  write_set-Inv :
      (l : Option Locality) (g h : EndpointSetWriteGuard U R) (m k : ℕ) (cm : ClusterMap U R)
      → k < 2 ^ 31
      → Tracks g h 0 m k
      → g.endpoint_set ≡ or_new env (Maps.get l cm.map)
      → Inv env cm
      → Inv env (write_set env l (drop_guard env h) m cm)
  unfolding write_set
  write_set-Inv l g h m k cm short p e i =
      let set = drop_guard env h in
      let valid : IsValid env g.endpoint_set = rw e (or_new-IsValid l cm i) in
      let at_first = size-or_new (Maps.get l cm.map) in
      let same_length = ap length (endpoints-drop_guard h) in
      let grown = total-insert l set cm.map i.map_sorted in
      record {
        map_sorted = insert-IsSorted l set cm.map i.map_sorted;
        sets_valid =
            insert-AllValid env l set cm.map (drop_guard-IsValid g h 0 m k p valid) i.sets_valid;
        counted =
            counted_batch_lem cm.num_endpoints m (length g.endpoint_set.endpoints)
              (length h.endpoint_set.endpoints) k (total cm.map) _ p.count p.small p.grows p.shrinks
              short i.counted
              (omega (arith, grown, at_first, same_length, ap (λ s. length s.endpoints) e));
      }

  -- A batch of fewer than 2^31 actions keeps the invariant: the counter is what the sets hold.
  pub batch_modify-Inv :
      (l : Option Locality) (batch : List (EndpointSetUpdateAction U)) (cm : ClusterMap U R)
      → length batch < 2 ^ 31
      → Inv env cm
      → Inv env (batch_modify env l batch cm)
  unfolding batch_modify
  batch_modify-Inv l batch cm short i =
      let start = modify (or_new env (Maps.get l cm.map)) in
      let (g, m) = apply_update_batch_to_guard env batch start 0 in
      let v = or_new-IsValid l cm i in
      let tracks = batch-Tracks batch start 0 v.sorted (omega arith) in
      let written = write_set-Inv l start g m (length batch) cm short tracks refl i in
      ground (
        arith,
        written,
        do_remove_locality-Inv env l (write_set env l (drop_guard env g) m cm) written,
      )
