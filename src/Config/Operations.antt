-- ===== src/Config/Operations.antt =====
-- Any sequence of what xDS does to a configuration (src/config.rs, the implementation of
-- `Configuration`).
use quilkin.Common.{Option, List, [], ◌∷◌}
use quilkin.Net.Address.{Bytes, IpAddr}
use quilkin.Net.Cluster.{Env}
use quilkin.Xds.{Resource, ClientState}
use quilkin.Config.{Formats, Config}
use quilkin.Config.Delta.{delta_discovery_request}
use quilkin.Config.Apply.{apply_delta, client_disconnected}
use quilkin.Config.Bridged.{ConfigInv, client_disconnected-ConfigInv}
use quilkin.Config.Keeps.{apply_delta-ConfigInv, delta_discovery_request-ConfigInv}

-- A client is answered, a response is taken, or an agent is gone.
pub data Operation (P : Type 0) : Type 0 where
  answers : ClientState → Operation P
  takes : Bytes → List (Resource P) → List Bytes → Option IpAddr → Operation P
  loses : IpAddr → Operation P

module _ {E F P U X : Type 0} (fmt : Formats E F P U X) (env : Env U P) where
  unfoldable operate : Operation P → Config F U P → Config F U P
  unfolding delta_discovery_request apply_delta client_disconnected
  operate (answers cs) config = (delta_discovery_request fmt env cs config).1
  operate (takes ty resources removed addr) config =
      (apply_delta fmt env ty resources removed addr config).1
  operate (loses ip) config = client_disconnected ip config

  unfoldable pub operate_all : List (Operation P) → Config F U P → Config F U P
  unfolding operate
  operate_all [] config = config
  operate_all (op ∷ ops) config = operate_all ops (operate op config)

  operate-ConfigInv :
      (op : Operation P) (config : Config F U P)
      → ConfigInv env config
      → ConfigInv env (operate op config)
  unfolding operate
  operate-ConfigInv (answers cs) config h = delta_discovery_request-ConfigInv fmt env cs config h
  operate-ConfigInv (takes ty resources removed addr) config h =
      apply_delta-ConfigInv fmt env ty resources removed addr config h
  operate-ConfigInv (loses ip) config h = client_disconnected-ConfigInv env ip config h

  -- However a configuration answers clients, takes responses, those included that it refuses midway,
  -- and loses agents: if it has a cluster map that keeps its invariant, then the map still does, so
  -- that its sets are valid and in order, and its counter is the number of their endpoints.
  pub operate_all-ConfigInv :
      (ops : List (Operation P)) (config : Config F U P)
      → ConfigInv env config
      → ConfigInv env (operate_all ops config)
  unfolding operate_all
  operate_all-ConfigInv [] config h = h
  operate_all-ConfigInv (op ∷ ops) config h =
      operate_all-ConfigInv ops (operate op config) (operate-ConfigInv op config h)
