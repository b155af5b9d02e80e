-- ===== src/Net/Cluster/Endpoints/Report.antt =====
-- What `replace` reports (src/net/cluster.rs): the removals and upserts.
use quilkin.Common.{
  ◌≡◌, refl, ap, sym, ◌∙◌, inl, inr, Bool-cases, false, not, ◌&&◌, Option, none, some, List, [],
  ◌∷◌, ◌++◌, map, arith, if◌then◌else◌, is_some,
}
use quilkin.Common.Order.{same, same→eq}
use quilkin.Common.Order.Derive.{list_ord}
use quilkin.Common.Maps
use quilkin.Common.Maps.{Map, get-insert, get-remove}
use quilkin.Common.Maps.Sorted.{IsSorted, Above-IsSorted, get-head}
use quilkin.Common.Sets
use quilkin.Common.Sets.{Set}
use quilkin.Net.Address.{Bytes, EndpointAddress, address_ord, bytes_ord}
use quilkin.Net.Cluster.{EndpointMetadata, InnerMap, Env, EndpointSet}
use quilkin.Net.Cluster.Endpoints.{
  Upserts, tokens_ne, push_if_changed, push_upserted, push_removed, to_map, replace, update,
  build_token_map,
}
use quilkin.Net.Cluster.Endpoints.Versions.{IsValid, endpoints-replace}

-- A reader of the report: it drops what was removed, and writes what was upserted.
abbrev pub drop_removed : List EndpointAddress → Upserts → Upserts
drop_removed [] m = m
drop_removed (a ∷ removed) m = drop_removed removed (Maps.remove a m)

abbrev pub write_upserted : Upserts → Upserts → Upserts
write_upserted [] m = m
write_upserted ((a, tokens) ∷ upserted) m = write_upserted upserted (Maps.insert a tokens m)

elements_injective : (s t : Set Bytes) → Sets.elements s ≡ Sets.elements t → s ≡ t
elements_injective [] [] e = refl
elements_injective [] (b ∷ t) e = cc
elements_injective (a ∷ s) [] e = cc
elements_injective (a ∷ s) (b ∷ t) e = ground (arith, elements_injective s t)

tokens_eq : (s t : Set Bytes) → tokens_ne s t ≡ false → s ≡ t
tokens_eq s t h =
    elements_injective s t
      (same→eq ⦃o = list_ord bytes_ord⦄ (Sets.elements s) (Sets.elements t) (ground arith))

module _ (a : EndpointAddress) where
  get-drop_removed_snoc :
      (b : EndpointAddress) (removed : List EndpointAddress) (m : Upserts)
      → Maps.get a (drop_removed (removed ++ b ∷ []) m)
        ≡ (if same a b then none else Maps.get a (drop_removed removed m))
  get-drop_removed_snoc b [] m = get-remove a b m
  get-drop_removed_snoc b (c ∷ removed) m = get-drop_removed_snoc b removed (Maps.remove c m)

  get-write_upserted_snoc :
      (b : EndpointAddress) (tokens : Set Bytes) (upserted m : Upserts)
      → Maps.get a (write_upserted (upserted ++ (b, tokens) ∷ []) m)
        ≡ (if same a b then some tokens else Maps.get a (write_upserted upserted m))
  get-write_upserted_snoc b tokens [] m = get-insert a b tokens m
  get-write_upserted_snoc b tokens ((c, t) ∷ upserted) m =
      get-write_upserted_snoc b tokens upserted (Maps.insert c t m)

abbrev tokens_at : {U : Type 0} → Option (EndpointMetadata U) → Option (Set Bytes)
tokens_at none = none
tokens_at (some md) = some md.known.tokens

module _ {U : Type 0} (a : EndpointAddress) where
  get-push_removed :
      (new old : InnerMap U) (removed : List EndpointAddress) (m : Upserts)
      → Maps.get a (drop_removed (push_removed new old removed) m) ≡ (
          if Maps.contains_key a old && not (Maps.contains_key a new)
          then none
          else Maps.get a (drop_removed removed m))
  unfolding push_removed Maps.get
  get-push_removed new [] removed m = refl
  get-push_removed new ((b, md) ∷ old) removed m = ground (
    arith,
    get-push_removed new old (if Maps.contains_key b new then removed else removed ++ b ∷ []) m,
    get-drop_removed_snoc a b removed m,
    address_ord.eq_of_cmp a b,
  )

  -- What the reader finds after the upserts.
  abbrev upserted_at :
      Option (EndpointMetadata U)
      → Option (EndpointMetadata U)
      → Option (Set Bytes)
      → Option (Set Bytes)
  upserted_at o none known = known
  upserted_at none (some md) known = some md.known.tokens
  upserted_at (some w) (some md) known =
      if tokens_ne md.known.tokens w.known.tokens then some md.known.tokens else known

  get-push_if_changed :
      (b : EndpointAddress) (md : EndpointMetadata U) (o : Option (EndpointMetadata U))
      (upserted m : Upserts)
      → Maps.get a (write_upserted (push_if_changed b md.known.tokens o upserted) m) ≡ (
          if same a b
          then upserted_at o (some md) (Maps.get a (write_upserted upserted m))
          else Maps.get a (write_upserted upserted m))
  unfolding push_if_changed
  get-push_if_changed b md none upserted m =
      ground (arith, get-write_upserted_snoc a b md.known.tokens upserted m)
  get-push_if_changed b md (some w) upserted m =
      ground (arith, get-write_upserted_snoc a b md.known.tokens upserted m)

  get-push_upserted :
      (old new : InnerMap U) (upserted m : Upserts)
      → IsSorted new
      → Maps.get a (write_upserted (push_upserted old new upserted) m)
        ≡ upserted_at (Maps.get a old) (Maps.get a new) (Maps.get a (write_upserted upserted m))
  unfolding push_upserted Maps.get
  get-push_upserted old [] upserted m s = ground arith
  get-push_upserted old ((b, md) ∷ new) upserted m s = ground (
    arith,
    get-push_upserted old new (push_if_changed b md.known.tokens (Maps.get b old) upserted) m
        (Above-IsSorted b new s),
    get-push_if_changed b md (Maps.get b old) upserted m,
    get-head b new s,
    address_ord.eq_of_cmp a b,
  )

  upserted_at-tokens_at :
      (o n : Option (EndpointMetadata U)) (known : Option (Set Bytes))
      → known ≡ (if is_some o && not (is_some n) then none else tokens_at o)
      → upserted_at o n known ≡ tokens_at n
  upserted_at-tokens_at none none known e = ground arith
  upserted_at-tokens_at (some w) none known e = ground arith
  upserted_at-tokens_at none (some md) known e = refl
  upserted_at-tokens_at (some w) (some md) known e =
      elim (Bool-cases (tokens_ne md.known.tokens w.known.tokens)) [
        | inl changed ↦ rw changed
        | inr kept ↦ rw kept (e ∙ ap some (sym (tokens_eq md.known.tokens w.known.tokens kept)))
      ]

  get-tokens :
      (eps : InnerMap U)
      → Maps.get a (map (λ e. (e.0, e.1.known.tokens)) eps) ≡ tokens_at (Maps.get a eps)
  unfolding Maps.get
  get-tokens [] = refl
  get-tokens ((b, md) ∷ eps) = ground (arith, get-tokens eps)

module _ {U R : Type 0} (env : Env U R) where
  -- Whoever knows the tokens of the old set and follows the report of `replace` knows those of
  -- the new set, at every address, if the replacement is a valid set.
  pub replay-replace :
      (s t : EndpointSet U R) (a : EndpointAddress)
      → IsValid env t
      → (let rep = replace env t [] [] s in
          Maps.get a (write_upserted rep.2 (drop_removed rep.1 (to_map s)))
          ≡ Maps.get a (to_map rep.0))
  unfolding replace to_map update build_token_map
  replay-replace s t a v =
      let dropped = drop_removed (push_removed t.endpoints s.endpoints []) (to_map s) in
      get-push_upserted a s.endpoints t.endpoints [] dropped v.sorted
      ∙ upserted_at-tokens_at a (Maps.get a s.endpoints) (Maps.get a t.endpoints)
          (Maps.get a dropped)
          (get-push_removed a t.endpoints s.endpoints [] (to_map s)
            ∙ ap
                (λ k.
                  if Maps.contains_key a s.endpoints && not (Maps.contains_key a t.endpoints)
                  then none
                  else k)
                (get-tokens a s.endpoints))
      ∙ sym (get-tokens a t.endpoints)
      ∙ ap (λ eps. Maps.get a (map (λ e. (e.0, e.1.known.tokens)) eps))
          (sym (endpoints-replace env s t [] []))
