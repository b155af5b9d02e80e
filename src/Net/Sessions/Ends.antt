-- ===== src/Net/Sessions/Ends.antt =====
-- The end of sessions (src/net/sessions.rs), which are pruned when their time is over.
use quilkin.Common.{
  ℕ, ◌≡◌, sym, refl, subst, true, not, none, some, [], ◌∷◌, is_some, ltb, keep, arith,
}
use quilkin.Common.Order.{ℕ_ord, same→eq, same_self}
use quilkin.Common.Maps
use quilkin.Common.Maps.{Map, get-insert, get-remove}
use quilkin.Common.Maps.Sorted.{
  IsSorted, keep-IsSorted, get-keep, filtered, get-head, Above-IsSorted,
}
use quilkin.Collections.Ttl.{Expiring, prune_entries}
use quilkin.Collections.Ttl.Expiry.{unexpired, get-prune_entries, inner-prune_entries}
use quilkin.Net.Address.{socket_ord}
use quilkin.Net.Sessions.{SessionKey, Session, session_key_ord, release_socket}
use quilkin.Net.Sessions.Pool.{SessionPool, release, release_all, prune}
use quilkin.Net.Sessions.Storage.{Table, Backed, Backed-ext, put, release-Backed}
use quilkin.Net.Sessions.Invariant.{port_of, Inv}

abbrev Entries : Type 0 → Type 0 → Type 0
Entries Q A = Map SessionKey (Expiring (Session Q A))

module _ {Q A : Type 0} where
  abbrev AreKeyed : Entries Q A → Type 0
  AreKeyed es =
      (k : SessionKey) (s : Expiring (Session Q A)) → Maps.get k es ≡ some s → s.value.key ≡ k

  -- The table with the sessions of a list beside it.
  abbrev joined : Entries Q A → Table → Table
  joined es t k = elim (Maps.get k es) [ none ↦ t k | some s ↦ some s.value.socket_port ]

  tail_keyed :
      (k : SessionKey) (s : Expiring (Session Q A)) (es : Entries Q A)
      → IsSorted ((k, s) ∷ es)
      → AreKeyed ((k, s) ∷ es)
      → AreKeyed es
  unfolding Maps.get
  tail_keyed k s es o h j t e = ground (arith, h j t, e, get-head k es o, same→eq j k)

  head_keyed :
      (k : SessionKey) (s : Expiring (Session Q A)) (es : Entries Q A)
      → AreKeyed ((k, s) ∷ es)
      → s.value.key ≡ k
  unfolding Maps.get
  head_keyed k s es h = ground (arith, h k s, same_self k)

  -- Without the head of the list.
  put-joined :
      (k : SessionKey) (s : Expiring (Session Q A)) (es : Entries Q A) (t : Table)
      → IsSorted ((k, s) ∷ es)
      → t k ≡ none
      → (j : SessionKey) → put k none (joined ((k, s) ∷ es) t) j ≡ joined es t j
  unfolding Maps.get
  put-joined k s es t o n j = ground (arith, get-head k es o, n, same→eq j k)

  abbrev Absent : Entries Q A → Table → Type 0
  Absent es t = (k : SessionKey) → is_some (Maps.get k es) ≡ true → t k ≡ none

  tail-Absent :
      (k : SessionKey) (s : Expiring (Session Q A)) (es : Entries Q A) (t : Table)
      → Absent ((k, s) ∷ es) t
      → Absent es t
  unfolding Maps.get
  tail-Absent k s es t n j e = ground (arith, n j, e)

  head-Absent :
      (k : SessionKey) (s : Expiring (Session Q A)) (es : Entries Q A) (t : Table)
      → Absent ((k, s) ∷ es) t
      → t k ≡ none
  unfolding Maps.get
  head-Absent k s es t n = ground (arith, n k, same_self k)

  head_joined :
      (k : SessionKey) (s : Expiring (Session Q A)) (es : Entries Q A) (t : Table)
      → joined ((k, s) ∷ es) t k ≡ some s.value.socket_port
  unfolding Maps.get
  head_joined k s es t = ground (arith, same_self k)

  release_all-Backed :
      (es : Entries Q A) (pool : SessionPool Q A) (t : Table)
      → IsSorted es
      → AreKeyed es
      → Absent es t
      → Backed (joined es t) pool.storage
      → Backed t (release_all es pool).storage
  unfolding release_all release Maps.get
  release_all-Backed [] pool t o h n b = Backed-ext (joined [] t) t pool.storage (λ k. refl) b
  release_all-Backed ((k, s) ∷ es) pool t o h n b =
      let all = joined ((k, s) ∷ es) t in
      release_all-Backed es (release s.value pool) t (Above-IsSorted k es o) (tail_keyed k s es o h)
        (tail-Absent k s es t n)
        (Backed-ext (put k none all) (joined es t) (release s.value pool).storage
          (put-joined k s es t o (head-Absent k s es t n))
          (subst
            (λ key. Backed (put k none all) (release_socket key s.value.socket_port pool.storage))
            (sym (head_keyed k s es h))
            (release-Backed all pool.storage k s.value.socket_port b (head_joined k s es t))))

  -- Releasing sessions changes the storage only.
  pub release_all_lem :
      (es : Entries Q A) (pool : SessionPool Q A)
      → release_all es pool ≡ record pool { storage = (release_all es pool).storage }
  unfolding release_all release
  release_all_lem [] pool = refl
  release_all_lem ((k, s) ∷ es) pool = release_all_lem es (release s.value pool)

  module _ (now : ℕ) (pool : SessionPool Q A) (i : Inv pool) where
    abbrev over : Entries Q A
    over = keep (λ e. not (ltb now e.1.expires_at)) pool.session_map.inner

    abbrev left : SessionPool Q A
    left = record pool { session_map = prune_entries (some now) pool.session_map }

    get-over :
        (k : SessionKey)
        → Maps.get k over
          ≡ filtered (λ v. not (ltb now v.expires_at)) (Maps.get k pool.session_map.inner)
    get-over k = get-keep k (λ v. not (ltb now v.expires_at)) pool.session_map.inner i.sorted

    get-left :
        (k : SessionKey)
        → Maps.get k left.session_map.inner
          ≡ filtered (λ v. ltb now v.expires_at) (Maps.get k pool.session_map.inner)
    get-left k = ground (
      arith,
      inner-prune_entries now pool.session_map,
      get-keep k (λ v. ltb now v.expires_at) pool.session_map.inner i.sorted,
    )

    together : (k : SessionKey) → joined over (port_of left) k ≡ port_of pool k
    together k = ground (arith, get-over k, get-left k)

    over-Absent : Absent over (port_of left)
    over-Absent k h = ground (arith, get-over k, get-left k)

    over_keyed : AreKeyed over
    over_keyed k s e = ground (arith, get-over k, e, i.keyed k s)

    pruned-Backed : Backed (port_of left) (release_all over left).storage
    pruned-Backed =
        release_all-Backed over left (port_of left)
          (keep-IsSorted (λ e. not (ltb now e.1.expires_at)) pool.session_map.inner i.sorted)
          over_keyed over-Absent
          (Backed-ext (port_of pool) (joined over (port_of left)) pool.storage
            (λ k. sym (together k)) i.storage)

    left-IsSorted : IsSorted left.session_map.inner
    left-IsSorted =
        rw (inner-prune_entries now pool.session_map)
          (keep-IsSorted (λ e. ltb now e.1.expires_at) pool.session_map.inner i.sorted)

    pruned-Inv : Inv (release_all over left)
    pruned-Inv = rw (release_all_lem over left) (record {
      storage = pruned-Backed;
      keyed = λ k s e. ground (arith, get-left k, e, i.keyed k s);
      sorted = left-IsSorted;
      queued = λ k s e. ground (arith, get-left k, e, i.queued k s);
    })

    pruned_sessions :
        (k : SessionKey)
        → Maps.get k (release_all over left).session_map.inner
          ≡ unexpired now (Maps.get k pool.session_map.inner)
    pruned_sessions k =
        rw (release_all_lem over left) (get-prune_entries k now pool.session_map i.sorted)

  -- Pruning a pool with the invariant ends exactly the sessions whose time is over, and leaves all
  -- others as they are; and the invariant holds again, so that the storage reserves servers and ports
  -- for exactly the sessions that are left.
  pub prune-Inv :
      (now : ℕ) (pool : SessionPool Q A)
      → Inv pool
      → (let pool' = prune (some now) pool in
          ((key : SessionKey)
            → Maps.get key pool'.session_map.inner
              ≡ unexpired now (Maps.get key pool.session_map.inner))
          × Inv pool')
  unfolding prune
  prune-Inv now pool i = (pruned_sessions now pool i, pruned-Inv now pool i)
