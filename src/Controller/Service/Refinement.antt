-- ===== src/Controller/Service/Refinement.antt =====
-- The service map against the cluster: a history of updates and syncs, in any order.
use kube_haproxy.Prelude.{
  ◌==◌, ==_iff, Bool-cases, get, put, get-put, Option, none, some, List, [], ◌∷◌, ◌≡◌, refl, sym,
  ◌∙◌, ap, inl, inr, ◌&&◌, not, string_eq, ◌⊎◌,
}
use kube_haproxy.Kube.{NamespacedName, KubeService, KubeServicePort}
use kube_haproxy.Api.{ServicePortName, service_port_name_eq}
use kube_haproxy.External.{External}
use kube_haproxy.Controller.Changes.{Items}
use kube_haproxy.Controller.Changes.Tracking.{view, Confined, Tracks-empty}
use kube_haproxy.Controller.Changes.History.{
  Cluster, with_object, IsNamed, InStep, InStep-update, InStep-shows, InStep-sync,
}
use kube_haproxy.Controller.Service.{
  ServiceMap, ServicePort, ServiceChangeTracker, BaseServiceInfo, new_service_change_tracker,
  add_ports, service_to_service_map, service_key, port_key, service_port_for, service_port_eq,
  wrong_ip_version, update, update_object, apply, apply_change, update_service_map,
}
use kube_haproxy.Controller.Service.Merging.{apply_change-HasEffect}

module _ (x : External) where
  -- A tracker translates by its configuration: its items are not read.
  add_ports-items :
      (sct : ServiceChangeTracker) (items : Items ServicePort) (service : KubeService)
      (ports : List KubeServicePort) (m : ServiceMap)
      → add_ports x (record sct { items = items }) service ports m ≡ add_ports x sct service ports m
  unfolding add_ports
  add_ports-items sct items service [] m = refl
  add_ports-items sct items service (p ∷ ports) m = add_ports-items sct items service ports _

  translation-items :
      (sct : ServiceChangeTracker) (items : Items ServicePort) (o : Option KubeService)
      → service_to_service_map x (record sct { items = items }) o ≡ service_to_service_map x sct o
  unfolding service_to_service_map
  translation-items sct items none = refl
  translation-items sct items (some service) =
      rw (add_ports-items sct items service service.ports []) refl

  add_ports-confined :
      (sct : ServiceChangeTracker) (service : KubeService) (ports : List KubeServicePort)
      (m : ServiceMap) (k : ServicePortName)
      → ((v : ServicePort) → get k m ≡ some v → k.namespaced_name ≡ service_key x service)
      → (v : ServicePort) → get k (add_ports x sct service ports m) ≡ some v
      → k.namespaced_name ≡ service_key x service
  unfolding add_ports
  add_ports-confined sct service [] m k h v g = h v g
  add_ports-confined sct service (p ∷ ports) m k h v g =
      add_ports-confined sct service ports
        (put (port_key x service p) (service_port_for x sct service p) m) k
        (λ w q. elim (Bool-cases (port_key x service p == k)) [
          | inl here ↦ ap (λ (j : ServicePortName). j.namespaced_name) (sym ((==_iff _ k).0 here))
          | inr there ↦ h w (rw (get-put, there) at q)
        ])
        v g

  translation_cases :
      (sct : ServiceChangeTracker) (service : KubeService)
      → (service_to_service_map x sct (some service) ≡ none)
        ⊎ (service_to_service_map x sct (some service)
            ≡ some (add_ports x sct service service.ports []))
  unfolding service_to_service_map
  translation_cases sct service = elim (Bool-cases (x.should_skip_service service)) [
    | inl p ↦ inl (rw p)
    | inr p ↦
        elim (Bool-cases (
          not (service.cluster_ip == "")
          && wrong_ip_version x sct.is_ipv6_mode service.cluster_ip)) [
            | inl q ↦ inl (rw (p, q))
            | inr q ↦ inr (rw (p, q))
          ]
  ]

  translation-Confined :
      (sct : ServiceChangeTracker) (nn : NamespacedName) (o : Option KubeService)
      → IsNamed (service_key x) nn o
      → Confined nn (service_to_service_map x sct o)
  unfolding service_to_service_map get
  translation-Confined sct nn none h k v g = cc
  translation-Confined sct nn (some service) h k v g = elim (translation_cases sct service) [
    | inl e ↦ cc (sym g ∙ ap (λ m. view m k) e)
    | inr e ↦
        add_ports-confined sct service service.ports [] k (λ w q. cc q) v
          (sym (ap (λ m. view m k) e) ∙ g)
        ∙ h
  ]

-- NewProxier's tracker.
abbrev pub Maker : Type 0
Maker = Option (KubeServicePort → KubeService → BaseServiceInfo → ServicePort)

-- What the informer and the sync runner may do, from the start: the handlers are told of the object
-- that the cluster had, and the map is brought up to date at any moments.
pub data History (x : External) (make : Maker)
    : Cluster KubeService → ServiceMap → ServiceChangeTracker → Type 0 where
  start : History x make (λ _. none) [] (new_service_change_tracker make)
  added :
      {cluster : Cluster KubeService} {sm : ServiceMap} {sct : ServiceChangeTracker}
      → History x make cluster sm sct
      → (new : KubeService) → none ≡ cluster (service_key x new)
      → History x make
          (with_object (service_key x new) (some new) cluster)
          sm
          (update x sct none (some new)).0
  updated :
      {cluster : Cluster KubeService} {sm : ServiceMap} {sct : ServiceChangeTracker}
      → History x make cluster sm sct
      → (old new : KubeService) → some old ≡ cluster (service_key x new)
      → History x make
          (with_object (service_key x new) (some new) cluster)
          sm
          (update x sct (some old) (some new)).0
  deleted :
      {cluster : Cluster KubeService} {sm : ServiceMap} {sct : ServiceChangeTracker}
      → History x make cluster sm sct
      → (old : KubeService) → some old ≡ cluster (service_key x old)
      → History x make
          (with_object (service_key x old) none cluster)
          sm
          (update x sct (some old) none).0
  synced :
      {cluster : Cluster KubeService} {sm : ServiceMap} {sct : ServiceChangeTracker}
      → History x make cluster sm sct
      → History x make cluster (update_service_map x sm sct).0 (update_service_map x sm sct).1

module _ (x : External) (make : Maker) where
  abbrev sct₀ : ServiceChangeTracker
  sct₀ = new_service_change_tracker make

  -- The entries that the cluster's services call for.
  abbrev pub wanted : Cluster KubeService → ServicePortName → Option ServicePort
  wanted cluster k = view (service_to_service_map x sct₀ (cluster k.namespaced_name)) k

  abbrev read : ServiceMap × x.string_set.Carrier → ServicePortName → Option ServicePort
  read (sm, stale) k = get k sm

  abbrev Shown : Cluster KubeService → ServiceMap → Items ServicePort → Type 0
  Shown cluster sm items =
      InStep (service_key x) (service_to_service_map x sct₀) (translation-Confined x sct₀) read
        (apply_change x) (apply_change-HasEffect x) cluster items (sm, x.string_set.empty)

  record Inv (cluster : Cluster KubeService) (sm : ServiceMap) (sct : ServiceChangeTracker)
      : Type 0 where
    config : sct ≡ record sct₀ { items = sct.items }
    shown : Shown cluster sm sct.items

  translated :
      {cluster : Cluster KubeService} {sm : ServiceMap} {sct : ServiceChangeTracker}
      → Inv cluster sm sct
      → (o : Option KubeService) → service_to_service_map x sct o ≡ service_to_service_map x sct₀ o
  translated {sct} h o =
      ap (λ s. service_to_service_map x s o) h.config ∙ translation-items x sct₀ sct.items o

  update-Inv :
      {cluster : Cluster KubeService} {sm : ServiceMap} {sct : ServiceChangeTracker}
      → Inv cluster sm sct
      → (nn : NamespacedName) (old new : Option KubeService) → old ≡ cluster nn
      → IsNamed (service_key x) nn new
      → Inv (with_object nn new cluster) sm (update_object x sct nn old new).0
  unfolding update_object
  update-Inv {sct} h nn old new e named = record {
    config =
        ap {B = ServiceChangeTracker}
          (λ (s : ServiceChangeTracker). record s {
            items = (update_object x sct nn old new).0.items;
          })
          h.config;
    shown =
        rw (translated h old, translated h new)
          (InStep-update (service_key x) (service_to_service_map x sct₀)
            (translation-Confined x sct₀) read (apply_change x) (apply_change-HasEffect x) h.shown
            nn old new e named);
  }

  start-Inv : Inv (λ _. none) [] sct₀
  unfolding new_service_change_tracker service_to_service_map get
  start-Inv = record {
    config = refl;
    shown = record {
      synced = λ _. none;
      synced_keyed = λ _. tt;
      keyed = λ _. tt;
      tracks = Tracks-empty _;
      shows = λ k. refl;
    };
  }

  synced-Inv :
      {cluster : Cluster KubeService} {sm : ServiceMap} {sct : ServiceChangeTracker}
      → Inv cluster sm sct
      → Inv cluster (update_service_map x sm sct).0 (update_service_map x sm sct).1
  unfolding update_service_map apply
  synced-Inv h =
      let next =
        InStep-sync (service_key x) (service_to_service_map x sct₀) (translation-Confined x sct₀)
          read (apply_change x) (apply_change-HasEffect x) h.shown in
      record {
        config =
            ap {B = ServiceChangeTracker} (λ (s : ServiceChangeTracker). record s { items = [] })
              h.config;
        shown = record {
          synced = next.synced;
          synced_keyed = next.synced_keyed;
          keyed = next.keyed;
          tracks = next.tracks;
          shows = next.shows;
        };
      }

  History-Inv :
      {cluster : Cluster KubeService} {sm : ServiceMap} {sct : ServiceChangeTracker}
      → History x make cluster sm sct
      → Inv cluster sm sct
  unfolding update
  History-Inv start = start-Inv
  History-Inv (added h new e) =
      update-Inv (History-Inv h) (service_key x new) none (some new) e refl
  History-Inv (updated h old new e) =
      update-Inv (History-Inv h) (service_key x new) (some old) (some new) e refl
  History-Inv (deleted h old e) =
      update-Inv (History-Inv h) (service_key x old) (some old) none e tt
  History-Inv (synced h) = synced-Inv (History-Inv h)

  -- After any history of the three handlers and of syncs, in any order, one more call of
  -- UpdateServiceMap leaves in the service map exactly the entries of the services that the cluster
  -- has now, for every service port name: nothing is missed, nothing is left over.
  pub update_service_map-wanted :
      {cluster : Cluster KubeService} {sm : ServiceMap} {sct : ServiceChangeTracker}
      → History x make cluster sm sct
      → (k : ServicePortName) → get k (update_service_map x sm sct).0 ≡ wanted cluster k
  unfolding update_service_map apply
  update_service_map-wanted h k =
      InStep-shows (service_key x) (service_to_service_map x sct₀) (translation-Confined x sct₀)
        read (apply_change x) (apply_change-HasEffect x) (History-Inv h).shown k
