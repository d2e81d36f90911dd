-- ===== src/Haproxy/Sync/Servers.antt =====
-- syncEndpoint: which servers it adds and which it deletes.
use kube_haproxy.Prelude.{
  String, Bool, false, List, [], ◌∷◌, ◌≡◌, refl, ap, ◌∙◌, string_eq, Bool-cases, inl, inr,
}
use kube_haproxy.External.{External, GoSet}
use kube_haproxy.Controller.Endpoint.{Endpoint}
use kube_haproxy.Haproxy.Action.{Action, for_each}
use kube_haproxy.Haproxy.Types.{Server, server_eq}
use kube_haproxy.Haproxy.Dataplane.{Dataplane}
use kube_haproxy.Haproxy.Operations.{get_servers, add_server_to_backend}
use kube_haproxy.Haproxy.Graceful.{
  SrvItem, srv_item_eq, Managed, delete_srv_func, in_termination_list, exist, graceful_delete_srv,
  add,
}
use kube_haproxy.Haproxy.Sync.{
  sync_endpoint, create_endpoint, delete_endpoint, difference, set_of, servers_of_endpoints,
}

module _ (x : External) (servers : GoSet Server) (set : GoSet SrvItem) (dp : Dataplane) where
  -- The list of servers that wait for their deletion is empty.
  abbrev pub IsClear : set.Carrier → Type 0
  IsClear list = (item : SrvItem) → set.contains item list ≡ false

  abbrev pub add_one : String → Server → Action dp.World (Unit {0})
  add_one backend_name srv w = (tt, (add_server_to_backend dp srv backend_name w).1)

  abbrev pub delete_one : String → Server → Action dp.World (Unit {0})
  delete_one backend_name srv w =
      (tt, (delete_srv_func set dp (record { backend_name = backend_name; srv = srv }) w).1)

  creating :
      (cur : servers.Carrier) (backend_name : String) (items : List Server) (list : set.Carrier)
      (w : dp.World)
      → IsClear list
      → for_each items (create_endpoint x servers set dp cur backend_name) (list, w) ≡ (
        tt,
        (list, (for_each (difference x servers set dp items cur) (add_one backend_name) w).1),
      )
  unfolding for_each create_endpoint in_termination_list exist
  creating cur backend_name [] list w h = refl
  creating cur backend_name (item ∷ items) list w h =
      elim (Bool-cases (servers.contains item cur)) [
        | inl p ↦ rw (p, h) (creating cur backend_name items list w h)
        | inr p ↦ rw p (creating cur backend_name items list _ h)
      ]

  delete_clear :
      (backend_name : String) (srv : Server) (list : set.Carrier) (w : dp.World)
      → IsClear list
      → delete_endpoint x servers set dp backend_name srv (list, w)
        ≡ (tt, (list, (delete_one backend_name srv w).1))
  unfolding delete_endpoint in_termination_list exist graceful_delete_srv add
  delete_clear backend_name srv list w h =
      let item : SrvItem = record { backend_name = backend_name; srv = srv } in
      elim (Bool-cases (delete_srv_func set dp item w).0.0) [
        | inl p ↦ rw (h, p) refl
        | inr p ↦ rw (h, p) refl
      ]

  deleting :
      (backend_name : String) (items : List Server) (list : set.Carrier) (w : dp.World)
      → IsClear list
      → for_each items (delete_endpoint x servers set dp backend_name) (list, w)
        ≡ (tt, (list, (for_each items (delete_one backend_name) w).1))
  unfolding for_each
  deleting backend_name [] list w h = refl
  deleting backend_name (item ∷ items) list w h =
      rw (delete_clear backend_name item list w h) (deleting backend_name items list _ h)

  -- Where no server waits for its deletion, syncEndpoint sends, after the request for the servers of the
  -- backend: one AddServerToBackend for each server of an endpoint that the backend does not have, and
  -- then one run of deleteSrvFunc for each of its servers that no endpoint calls for. Servers on both
  -- sides are left alone, and the list of waiting servers stays as it is.
  pub sync_endpoint_exact :
      (is_health_check : Bool) (eps : List Endpoint) (backend_name : String) (list : set.Carrier)
      (w : dp.World)
      → IsClear list
      → (let (cur_dests, w1) = get_servers dp backend_name w in
          let cur = set_of x servers cur_dests servers.empty in
          let new =
            set_of x servers (servers_of_endpoints x servers is_health_check eps) servers.empty in
          let missing = difference x servers set dp (servers.items new) cur in
          let surplus = difference x servers set dp (servers.items cur) new in
          let (_, w2) = for_each missing (add_one backend_name) w1 in
          let (_, w3) = for_each surplus (delete_one backend_name) w2 in
          sync_endpoint x servers set dp is_health_check eps backend_name (list, w)
          ≡ (tt, (list, w3)))
  unfolding sync_endpoint
  sync_endpoint_exact is_health_check eps backend_name list w h =
      let (cur_dests, w1) = get_servers dp backend_name w in
      let cur = set_of x servers cur_dests servers.empty in
      let new =
        set_of x servers (servers_of_endpoints x servers is_health_check eps) servers.empty in
      let surplus = difference x servers set dp (servers.items cur) new in
      ap
        (λ (r : Unit {0} × Managed set dp.World).
          for_each surplus (delete_endpoint x servers set dp backend_name) r.1)
        (creating cur backend_name (servers.items new) list w1 h)
      ∙ deleting backend_name surplus list _ h
