-- ===== src/Net/Xdp/States.antt =====
-- The sessions of the XDP backend, for every server (src/net/io/nic/xdp/process.rs,
-- `SessionState`).
use quilkin.Common.{
  ◌∙◌, subst, ℕ, suc, ◌^◌, ◌≡◌, ◌≢◌, ◌≤◌, ◌<◌, refl, sym, ap, inl, inr, Option-cases, Bool-cases,
  Option, none, some, if◌then◌else◌, arith,
}
use quilkin.Common.Maps
use quilkin.Common.Maps.{Map, get-insert, get-insert_self, get-remove, get-remove_self}
use quilkin.Common.Order.{same, same_self}
use quilkin.Net.Address.{SocketAddr, socket_ord}
use quilkin.Collections.Ttl
use quilkin.Collections.Ttl.{TtlMap, Expiring}
use quilkin.Net.Xdp.{
  ephemeral_range_end, port_map_get, PortMapper, SessionState, new_port_mapper, get_or_alloc,
  lookup_client, entry, write_back, get_or_create,
}
use quilkin.Net.Xdp.Ports.{IsClient}
use quilkin.Net.Xdp.Mapper.{Mapper, Gives, new_port_mapper-Mapper, get_or_alloc-Mapper}

module _ {A : Type 0} where
  -- The mapper of every server is well formed.
  abbrev pub IsState : SessionState A → Type 0
  IsState state =
      (server : SocketAddr) (pm : Expiring (PortMapper A))
      → Maps.get server state.inner ≡ some pm
      → Mapper pm.value

  entry-none :
      (clock : Option ℕ) (server : SocketAddr) (state : SessionState A)
      → Maps.get server state.inner ≡ none
      → entry clock server state ≡ new_port_mapper
  unfolding entry Ttl.get
  entry-none clock server state n = ground (arith, n)

  entry-some :
      (clock : Option ℕ) (server : SocketAddr) (state : SessionState A)
      (v : Expiring (PortMapper A))
      → Maps.get server state.inner ≡ some v
      → entry clock server state ≡ v.value
  unfolding entry Ttl.get Ttl.update_expiration
  entry-some clock server state v e = ground (arith, e)

  entry-Mapper :
      (clock : Option ℕ) (server : SocketAddr) (state : SessionState A)
      → IsState state
      → Mapper (entry clock server state)
  entry-Mapper clock server state h = elim (Option-cases (Maps.get server state.inner)) [
    | inl n ↦ subst Mapper (sym (entry-none clock server state n)) new_port_mapper-Mapper
    | inr (v, e) ↦ subst Mapper (sym (entry-some clock server state v e)) (h server v e)
  ]

  -- What a write leaves: at the server the mapper, and elsewhere what was there.
  get-write_back :
      (clock : Option ℕ) (server : SocketAddr) (pm : PortMapper A) (state : SessionState A)
      → (v : Expiring (PortMapper A)) × (v.value ≡ pm)
        × ((other : SocketAddr)
            → Maps.get other (write_back clock server pm state).inner
              ≡ (if same other server then some v else Maps.get other state.inner))
  unfolding write_back Ttl.get Ttl.insert Ttl.update_expiration Ttl.new_value
  get-write_back clock server pm state = elim (Option-cases (Maps.get server state.inner)) [
    | inl n ↦ (
      Ttl.new_value clock state.ttl pm,
      ground arith,
      λ other.
          ground (arith, n, get-insert other server (Ttl.new_value clock state.ttl pm) state.inner),
    )
    | inr (old, e) ↦
        let v = record (Ttl.update_expiration clock state.ttl old) { value = pm } in
        (v, ground arith, λ other. ground (arith, e, get-insert other server v state.inner))
  ]

  lookup_client-get :
      (clock : Option ℕ) (server : SocketAddr) (port : ℕ) (state : SessionState A)
      (v : Expiring (PortMapper A))
      → Maps.get server state.inner ≡ some v
      → (lookup_client clock server port state).0 ≡ port_map_get port v.value.port_to_client
  unfolding lookup_client Ttl.get Ttl.update_expiration
  lookup_client-get clock server port state v e = ground (arith, e)

  -- A call has given a port of the range, at which the client is found again, in a well-formed state.
  abbrev Answers : Option ℕ → SocketAddr → SocketAddr → Option (ℕ × SessionState A) → Type 0
  Answers clock client server answer =
      (port : ℕ) × (state : SessionState A) × (answer ≡ some (port, state))
      × (ephemeral_range_end ≤ port)
      × (port < 2 ^ 16)
      × ((lookup_client clock server port state).0 ≡ some client)
      × IsState state

  write_back-Answers :
      (clock later : Option ℕ) (client server : SocketAddr) (port : ℕ) (pm : PortMapper A)
      (state : SessionState A)
      → IsState state
      → Gives client port pm
      → Answers later client server (some (port, write_back clock server pm state))
  write_back-Answers clock later client server port pm state h (low, high, back, made) =
      let (v, same_pm, got) = get-write_back clock server pm state in
      let at : Maps.get server (write_back clock server pm state).inner ≡ some v =
        ground (arith, got server, same_self server) in
      (
        port,
        write_back clock server pm state,
        refl,
        low,
        high,
        ground (
          arith,
          lookup_client-get later server port (write_back clock server pm state) v at,
          same_pm,
          back,
        ),
        λ other w e. elim (Bool-cases (same other server)) [
          | inl s ↦
              let t : w ≡ v = ground (arith, got other, s, e) in
              subst Mapper (sym (ap (λ x. x.value) t ∙ same_pm)) made
          | inr d ↦ h other w (ground (arith, got other, d, e))
        ],
      )

  -- When the entry of the server gives a port, so does the call.
  get_or_create-given :
      (clock later : Option ℕ) (client server : SocketAddr) (asn : Option A) (fuel : ℕ)
      (state : SessionState A) (port : ℕ) (pm : PortMapper A)
      → IsState state
      → get_or_alloc client asn (entry clock server state) ≡ some (some port, pm)
      → Gives client port pm
      → Answers later client server (get_or_create clock client server asn (suc fuel) state)
  unfolding get_or_create
  get_or_create-given clock later client server asn fuel state port pm h e g =
      subst (Answers later client server) (ground (arith, e))
        (write_back-Answers clock later client server port pm state h g)

  abbrev removed : Option ℕ → SocketAddr → PortMapper A → SessionState A → SessionState A
  removed clock server pm state = (Ttl.remove server (write_back clock server pm state)).1

  removed-IsState :
      (clock : Option ℕ) (server : SocketAddr) (pm : PortMapper A) (state : SessionState A)
      → IsState state
      → IsState (removed clock server pm state)
  unfolding Ttl.remove Maps.remove
  removed-IsState clock server pm state h other w e =
      let (v, _, got) = get-write_back clock server pm state in
      h other w (
        ground
          (arith, e, got other, get-remove other server (write_back clock server pm state).inner))

  entry-removed :
      (clock again : Option ℕ) (server : SocketAddr) (pm : PortMapper A) (state : SessionState A)
      → entry again server (removed clock server pm state) ≡ new_port_mapper
  unfolding Ttl.remove Maps.remove
  entry-removed clock again server pm state =
      entry-none again server (removed clock server pm state)
        (get-remove_self server (write_back clock server pm state).inner)

  port-new_port_mapper : (pm : PortMapper A) → pm ≡ new_port_mapper → pm.port ≢ 0
  unfolding new_port_mapper
  port-new_port_mapper pm e z = ground (arith, e, z)

  -- A call for a server with a new mapper.
  get_or_create-renewed :
      (clock later : Option ℕ) (client server : SocketAddr) (asn : Option A) (fuel : ℕ)
      (state : SessionState A)
      → IsState state
      → IsClient client
      → entry clock server state ≡ new_port_mapper
      → Answers later client server (get_or_create clock client server asn (suc fuel) state)
  get_or_create-renewed clock later client server asn fuel state h c e =
      elim (get_or_alloc-Mapper client asn new_port_mapper c new_port_mapper-Mapper) [
        | inl (port, pm, a, g) ↦
            get_or_create-given clock later client server asn fuel state port pm h
              (ap (get_or_alloc client asn) e ∙ a) g
        | inr (_, z, _, _) ↦ absurd (port-new_port_mapper new_port_mapper refl z)
      ]

  -- With fuel for two calls, `get_or_create` gives every client a port of the range for every server,
  -- from 61000 up, even when the ports of the server have run out; a packet that the server sends to
  -- that port is looked up to the client, and every mapper stays well formed. The clocks may answer
  -- or fail.
  pub get_or_create-lookup_client :
      (clock later : Option ℕ) (client server : SocketAddr) (asn : Option A) (fuel : ℕ)
      (state : SessionState A)
      → IsState state
      → IsClient client
      → (port : ℕ) × (state' : SessionState A) × (get_or_create clock client server asn
            (suc (suc fuel))
            state
          ≡ some (port, state'))
        × (ephemeral_range_end ≤ port)
        × (port < 2 ^ 16)
        × ((lookup_client later server port state').0 ≡ some client)
        × IsState state'
  unfolding get_or_create
  get_or_create-lookup_client clock later client server asn fuel state h c =
      elim (get_or_alloc-Mapper client asn (entry clock server state) c
        (entry-Mapper clock server state h)) [
          | inl (port, pm, a, g) ↦
              get_or_create-given clock later client server asn (suc fuel) state port pm h a g
          | inr (_, _, pm, a) ↦ subst (Answers later client server) (ground (arith, a)) (
              get_or_create-renewed clock later client server asn fuel
                (removed clock server pm state) (removed-IsState clock server pm state h) c
                (entry-removed clock clock server pm state))
        ]
