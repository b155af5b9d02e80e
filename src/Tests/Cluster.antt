-- ===== src/Tests/Cluster.antt =====
-- A small cluster, and the theorems about clusters on it.
use quilkin.Common.{
  ℕ, ◌+◌, ◌≡◌, refl, false, Option, none, some, List, [], ◌∷◌, length, ◌==◌, arith,
}
use quilkin.Common.Maps
use quilkin.Common.Maps.{Map}
use quilkin.Common.Sets
use quilkin.Common.Sets.{Set}
use quilkin.Net.Address.{
  Bytes, v4, AddressKind, EndpointAddress, Locality, ip_ord, bytes_ord, address_ord,
  locality_key_ord, contributor_ord,
}
use quilkin.Net.Cluster.{Env, Endpoint, EndpointSet}
use quilkin.Common.Order.{ℕ_ord}
use quilkin.Common.Order.Derive.{option_ord}
use quilkin.Net.Cluster.Tokens.{apply_diff, token_map_diff}
use quilkin.Net.Cluster.Tokens.Laws.{has_token, listed}
use quilkin.Net.Cluster.Tokens.Diff.{routed, get-apply_token_map_diff}
use quilkin.Net.Cluster.Endpoints.{new, replace, to_map, with_version}
use quilkin.Net.Cluster.Endpoints.Versions.{IsValid, new-IsValid, token_map-IsSorted}
use quilkin.Net.Cluster.Endpoints.Given.{last_given, with_version-last_given}
use quilkin.Net.Cluster.Endpoints.Report.{replay-replace, write_upserted, drop_removed}
use quilkin.Net.Cluster.Clusters.{
  ClusterMap, EndpointSetUpdateAction, upsert, remove_by_name, remove_by_endpoint, empty, insert,
  apply, apply_managed, insert_new, other_manages,
}
use quilkin.Net.Cluster.Clusters.Invariant.{Inv, empty-Inv, insert-Inv}
use quilkin.Net.Cluster.Clusters.Routing.{apply_routed, old_tokens}
use quilkin.Net.Cluster.Clusters.Owner.{Outcome, apply-Outcome}
use quilkin.Net.Cluster.Runs.{Call, applies, modifies, removes_locality, run, run-Inv}

abbrev pub small_env : Env ℕ ℕ
small_env = record {
  hash_token = λ token. length token;
  hash_endpoints = λ eps. length eps + 1;
  no_unknown = 0;
  has_name = λ u n. u == length n;
  encode = λ l eps. some (length eps);
}

abbrev pub host : ℕ → EndpointAddress
host n = record { host = AddressKind.ip (v4 n); port = 7000 }

abbrev pub token : Bytes
token = 1 ∷ 2 ∷ 3 ∷ []

abbrev pub server : ℕ → Endpoint ℕ
server n = record {
  address = host n;
  metadata = record {
    known = record { tokens = Sets.of_list (token ∷ (9 ∷ []) ∷ []) };
    unknown = n;
  };
}

abbrev pub here : Option Locality
here = some (record { buffer = 5 ∷ []; region = 1; zone = none })

abbrev pub servers : EndpointSet ℕ ℕ
servers = new small_env (server 1 ∷ server 2 ∷ [])

abbrev one_server : EndpointSet ℕ ℕ
one_server = new small_env (server 2 ∷ [])

servers-IsValid : IsValid small_env servers
servers-IsValid = new-IsValid small_env (server 1 ∷ server 2 ∷ [])

one_server-IsValid : IsValid small_env one_server
one_server-IsValid = new-IsValid small_env (server 2 ∷ [])

abbrev pub cluster : ClusterMap ℕ ℕ
cluster = insert small_env none here (server 1 ∷ server 2 ∷ []) empty

pub cluster-Inv : Inv small_env cluster
cluster-Inv = insert-Inv small_env none here (server 1 ∷ server 2 ∷ []) empty (empty-Inv small_env)

abbrev actions : List (EndpointSetUpdateAction ℕ)
actions = upsert (server 3) ∷ remove_by_endpoint (server 1) ∷ remove_by_name (7 ∷ []) ∷ []

abbrev calls : List (Call ℕ ℕ)
calls = applies none here servers ∷ modifies here actions ∷ removes_locality none here ∷ []

run-Inv_example : Inv small_env (run small_env calls cluster)
run-Inv_example =
    run-Inv small_env calls cluster (servers-IsValid, (omega arith, (tt, tt))) cluster-Inv

apply_routed_example :
    Maps.get 3 (apply_managed small_env here one_server [] [] cluster).cluster_map.token_map
    ≡ routed
        (Maps.get 3 (old_tokens small_env (Maps.get here cluster.map)))
        (Maps.get 3 one_server.token_map)
        (Maps.get 3 cluster.token_map)
apply_routed_example =
    apply_routed small_env 3 here one_server [] [] cluster cluster-Inv one_server-IsValid

-- One address, given with two tokens first, and then with one of them.
abbrev twice : List (Endpoint ℕ)
twice =
    server 1
    ∷ record (server 1) {
      metadata = record { known = record { tokens = Sets.of_list ((9 ∷ []) ∷ []) }; unknown = 5 };
    }
    ∷ []

with_version-last_given_example :
    (let s = with_version {R = ℕ} small_env twice 7 in
      (Maps.get (host 1) s.endpoints ≡ last_given (host 1) twice)
      × (listed 3 (host 1) s.token_map
          ≡ has_token small_env.hash_token 3 (last_given (host 1) twice)))
with_version-last_given_example = with_version-last_given small_env (host 1) 3 twice 7

-- The token of three bytes is the first one's only.
forgets_first : has_token small_env.hash_token 3 (last_given (host 1) twice) ≡ false
unfolding last_given address_ord Maps.insert
forgets_first = refl

replay-replace_example :
    (let rep = replace small_env one_server [] [] servers in
      Maps.get (host 1) (write_upserted rep.2 (drop_removed rep.1 (to_map servers)))
      ≡ Maps.get (host 1) (to_map rep.0))
replay-replace_example = replay-replace small_env servers one_server (host 1) one_server-IsValid

get-apply_token_map_diff_example :
    Maps.get 3
      (apply_diff (token_map_diff servers.token_map one_server.token_map) cluster.token_map)
    ≡ routed
        (Maps.get 3 servers.token_map)
        (Maps.get 3 one_server.token_map)
        (Maps.get 3 cluster.token_map)
get-apply_token_map_diff_example =
    get-apply_token_map_diff 3 servers.token_map one_server.token_map cluster.token_map
      (token_map-IsSorted small_env servers servers-IsValid)
      (token_map-IsSorted small_env one_server one_server-IsValid)

apply-Outcome_example :
    Outcome
      (some (v4 9))
      here
      []
      []
      cluster
      (apply small_env (some (v4 9)) here servers [] [] cluster)
apply-Outcome_example = apply-Outcome small_env (some (v4 9)) here servers [] [] cluster

managed : Maps.get here cluster.localities ≡ some none
unfolding insert apply apply_managed insert_new empty Maps.get Maps.insert locality_key_ord
managed = refl

mine : other_manages here none cluster ≡ false
unfolding insert apply apply_managed insert_new empty Maps.get Maps.insert contributor_ord ip_ord
    option_ord locality_key_ord
mine = refl
