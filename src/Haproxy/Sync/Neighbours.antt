-- ===== src/Haproxy/Sync/Neighbours.antt =====
-- syncEndpoint only touches servers: it leaves the objects of every service as they are.
use kube_haproxy.Prelude.{
  String, Bool, not, Option, none, some, List, [], ◌∷◌, ◌≡◌, refl, sym, subst, ◌+++◌, if_keeps,
  ◌==◌, string_eq,
}
use kube_haproxy.External.{External, GoSet}
use kube_haproxy.Controller.Endpoint.{Endpoint}
use kube_haproxy.Haproxy.Action.{Action, for_each}
use kube_haproxy.Haproxy.Types.{HaproxyInfo, Server, server_eq, empty_server, servers_path}
use kube_haproxy.Haproxy.Dataplane.{Dataplane, method_post, a_server}
use kube_haproxy.Haproxy.Handle.{Outcome}
use kube_haproxy.Haproxy.Graceful.{
  SrvItem, srv_item_eq, Managed, in_termination_list, move_rs_out_of_graceful_delete_list,
  graceful_delete_srv, delete_srv_func, delete_found, exist, remove,
}
use kube_haproxy.Haproxy.Operations.{
  add_server_to_backend, delete_server_from_backend, get_server, get_servers,
}
use kube_haproxy.Haproxy.Sync.{
  sync_endpoint, create_endpoint, delete_endpoint, difference, set_of, servers_of_endpoints,
}
use kube_haproxy.Haproxy.Sync.Store.{Views}
use kube_haproxy.Haproxy.Sync.Elsewhere.{
  Same, Same-trans, Separates, IsFramed, read, new_server, with_version-IsFramed,
  delete_server-IsFramed,
}

-- The service that is looked at, and how the data plane separates it from the others.
module _ (dp : Dataplane) (info : HaproxyInfo) (v : Views dp) (s : Separates dp info v) where
  abbrev parent_query : String → String → String
  parent_query backend_name version =
      "?parent_type=backend&parent_name="
      +++ dp.query_escape backend_name
      +++ "&version="
      +++ version

  add_server-IsFramed :
      (server : Server) (backend_name : String)
      → IsFramed dp info v (add_server_to_backend dp server backend_name)
  unfolding add_server_to_backend
  add_server-IsFramed server backend_name =
      with_version-IsFramed dp info v s method_post
        (λ version. servers_path +++ parent_query backend_name version) (a_server server)
        (λ version body m. new_server server (parent_query backend_name version) body m)

  delete_from-IsFramed :
      (server_name backend_name : String)
      → IsFramed dp info v (delete_server_from_backend dp server_name backend_name)
  unfolding delete_server_from_backend
  delete_from-IsFramed server_name backend_name =
      delete_server-IsFramed dp info v s
        (λ version. "/" +++ server_name +++ parent_query backend_name version) server_name

  -- The list of the manager, which an action on servers may change, and the world.
  module _ (x : External) (servers : GoSet Server) (set : GoSet SrvItem) where
    abbrev ServersFramed : Action (Managed set dp.World) (Unit {0}) → Type 0
    ServersFramed m = (list : set.Carrier) (w : dp.World) → Same dp info v w (m (list, w)).1.1

    delete_srv_func-IsFramed : (item : SrvItem) → IsFramed dp info v (delete_srv_func set dp item)
    unfolding delete_srv_func delete_found get_server
    delete_srv_func-IsFramed item w =
        let r = get_server dp item.backend_name item.srv.name w in
        Same-trans dp info v w r.1 _ (s _ (read _) w) (
          if_keeps (λ (q : Outcome × dp.World). Same dp info v r.1 q.1) (r.0 == empty_server) _ _
            (refl, refl, refl) (delete_from-IsFramed item.srv.name item.backend_name r.1))

    -- What MoveRSOutofGracefulDeleteList makes of the deletion.
    abbrev moved : SrvItem → set.Carrier → Outcome × dp.World → Option String × Managed set dp.World
    moved item list (outcome, w) = elim outcome.1 [
      | some e ↦ (some e, (list, w))
      | none ↦ (none, ((remove set item list).0, w))
    ]

    moved-world :
        (item : SrvItem) (list : set.Carrier) (b : Bool) (o : Option String) (w : dp.World)
        → (moved item list ((b, o), w)).1.1 ≡ w
    moved-world item list b none w = refl
    moved-world item list b (some e) w = refl

    move_out-ServersFramed :
        (server : Server) (backend_name : String) (list : set.Carrier) (w : dp.World)
        → Same dp info v w
            (move_rs_out_of_graceful_delete_list set dp server backend_name (list, w)).1.1
    unfolding move_rs_out_of_graceful_delete_list
    move_out-ServersFramed server backend_name list w =
        let item : SrvItem = record { backend_name = backend_name; srv = server } in
        let r = delete_server_from_backend dp server.name backend_name w in
        if_keeps (λ (q : Option String × Managed set dp.World). Same dp info v w q.1.1)
          (not (exist set item list)) _ _ (refl, refl, refl)
          (subst (Same dp info v w) (sym (moved-world item list r.0.0 r.0.1 r.1))
            (delete_from-IsFramed server.name backend_name w))

    create_endpoint-ServersFramed :
        (cur : servers.Carrier) (backend_name : String) (item : Server)
        → ServersFramed (create_endpoint x servers set dp cur backend_name item)
    unfolding create_endpoint
    create_endpoint-ServersFramed cur backend_name item list w =
        if_keeps (λ (q : Unit {0} × Managed set dp.World). Same dp info v w q.1.1)
          (servers.contains item cur) _ _
          (if_keeps (λ (q : Unit {0} × Managed set dp.World). Same dp info v w q.1.1)
            (not (in_termination_list set dp item backend_name list)) _ _ (refl, refl, refl)
            (move_out-ServersFramed item backend_name list w))
          (add_server-IsFramed item backend_name w)

    delete_endpoint-ServersFramed :
        (backend_name : String) (server : Server)
        → ServersFramed (delete_endpoint x servers set dp backend_name server)
    unfolding delete_endpoint graceful_delete_srv
    delete_endpoint-ServersFramed backend_name server list w =
        if_keeps (λ (q : Unit {0} × Managed set dp.World). Same dp info v w q.1.1)
          (in_termination_list set dp server backend_name list) _ _ (refl, refl, refl)
          (delete_srv_func-IsFramed (record { backend_name = backend_name; srv = server }) w)

    for_each-ServersFramed :
        {A : Type 0} (as' : List A) (body : A → Action (Managed set dp.World) (Unit {0}))
        → ((a : A) → ServersFramed (body a))
        → ServersFramed (for_each as' body)
    unfolding for_each
    for_each-ServersFramed [] body h list w = (refl, refl, refl)
    for_each-ServersFramed (a ∷ as') body h list w =
        let (list', w') = (body a (list, w)).1 in
        Same-trans dp info v w w' _ (h a list w) (for_each-ServersFramed as' body h list' w')

    -- syncEndpoint only touches servers.
    pub sync_endpoint-Same :
        (is_health_check : Bool) (eps : List Endpoint) (backend_name : String) (list : set.Carrier)
        (w : dp.World)
        → Same dp info v w
            (sync_endpoint x servers set dp is_health_check eps backend_name (list, w)).1.1
    unfolding sync_endpoint get_servers
    sync_endpoint-Same is_health_check eps backend_name list w =
        let (cur_dests, w1) = get_servers dp backend_name w in
        let cur = set_of x servers cur_dests servers.empty in
        let new =
          set_of x servers (servers_of_endpoints x servers is_health_check eps) servers.empty in
        let create = create_endpoint x servers set dp cur backend_name in
        let (list2, w2) = (for_each (servers.items new) create (list, w1)).1 in
        Same-trans dp info v w w1 _ (s _ (read _) w) (
          Same-trans dp info v w1 w2 _
            (for_each-ServersFramed (servers.items new) create
              (create_endpoint-ServersFramed cur backend_name) list w1)
            (for_each-ServersFramed (difference x servers set dp (servers.items cur) new)
              (delete_endpoint x servers set dp backend_name)
              (delete_endpoint-ServersFramed backend_name) list2 w2))
