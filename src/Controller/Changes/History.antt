-- ===== src/Controller/Changes/History.antt =====
-- Trackers against the objects of the cluster: an invariant of updates and syncs in any order.
use mathlib.Core.Path.{fun_ext}
use kube_haproxy.Prelude.{
  DecEq, ◌==◌, ==_iff, if◌then◌else◌, Bool-cases, NilMap, Option, none, some, [], ◌≡◌, ap, subst,
  inl, inr,
}
use kube_haproxy.Kube.{NamespacedName, namespaced_name_eq}
use kube_haproxy.Api.{ServicePortName}
use kube_haproxy.Controller.Changes.{Change, Items, track, apply_all}
use kube_haproxy.Controller.Changes.Tracking.{
  view, World, Confined, assign, Tracks, Tracks-empty, track-Tracks,
}
use kube_haproxy.Controller.Changes.Applying.{HasEffect, apply_all-view}

-- The object of each name, where there is one.
abbrev pub Cluster : Type 0 → Type 0
Cluster Obj = NamespacedName → Option Obj

abbrev pub with_object : {Obj : Type 0} → NamespacedName → Option Obj → Cluster Obj → Cluster Obj
with_object nn o cluster nn' = if nn == nn' then o else cluster nn'

abbrev pub IsNamed : {Obj : Type 0} → (Obj → NamespacedName) → NamespacedName → Option Obj → Type 0
IsNamed key nn none = Unit
IsNamed key nn (some o) = key o ≡ nn

-- Every object of the cluster stands under its own name.
abbrev pub IsKeyed : {Obj : Type 0} → (Obj → NamespacedName) → Cluster Obj → Type 0
IsKeyed key cluster = (nn : NamespacedName) → IsNamed key nn (cluster nn)

abbrev pub world_of :
    {V Obj : Type 0} → (Option Obj → NilMap ServicePortName V) → Cluster Obj → World V
world_of to_map cluster nn = to_map (cluster nn)

with_object-IsKeyed :
    {Obj : Type 0} (key : Obj → NamespacedName) (nn : NamespacedName) (o : Option Obj)
    (cluster : Cluster Obj)
    → IsNamed key nn o
    → IsKeyed key cluster
    → IsKeyed key (with_object nn o cluster)
with_object-IsKeyed key nn o cluster h keyed nn' = elim (Bool-cases (nn == nn')) [
  | inl p ↦ rw (p, ← (==_iff nn nn').0 p) h
  | inr p ↦ rw p (keyed nn')
]

module _ {V Obj S : Type 0} ⦃d : DecEq V⦄ (key : Obj → NamespacedName)
    (to_map : Option Obj → NilMap ServicePortName V)
    (confined : (nn : NamespacedName) (o : Option Obj) → IsNamed key nn o → Confined nn (to_map o))
    (read : S → ServicePortName → Option V) (step : Change V → S → S)
    (effect : HasEffect read step) where
  -- The state shows the cluster of the last sync, and the items the changes since then.
  pub record InStep (cluster : Cluster Obj) (items : Items V) (s : S) : Type 0 where
    pub synced : Cluster Obj
    pub synced_keyed : IsKeyed key synced
    pub keyed : IsKeyed key cluster
    pub tracks : Tracks (world_of to_map synced) (world_of to_map cluster) items
    pub shows : (k : ServicePortName) → read s k ≡ view (to_map (synced k.namespaced_name)) k

  world-with_object :
      (nn : NamespacedName) (o : Option Obj) (cluster : Cluster Obj)
      → assign nn (to_map o) (world_of to_map cluster) ≡ world_of to_map (with_object nn o cluster)
  world-with_object nn o cluster =
      fun_ext λ nn'. elim (Bool-cases (nn == nn')) [ inl p ↦ rw p | inr p ↦ rw p ]

  pub InStep-update :
      {cluster : Cluster Obj} {items : Items V} {s : S}
      → InStep cluster items s
      → (nn : NamespacedName) (old new : Option Obj) → old ≡ cluster nn
      → IsNamed key nn new
      → InStep (with_object nn new cluster) (track nn (to_map old) (to_map new) items) s
  InStep-update {cluster} {items} h nn old new e named = record {
    synced = h.synced;
    synced_keyed = h.synced_keyed;
    keyed = with_object-IsKeyed key nn new cluster named h.keyed;
    tracks =
        subst (λ w. Tracks (world_of to_map h.synced) w (track nn (to_map old) (to_map new) items))
          (world-with_object nn new cluster)
          (track-Tracks h.tracks nn (to_map old) (to_map new) (λ k. ap (λ o. view (to_map o) k) e));
    shows = h.shows;
  }

  -- After a sync the state shows the cluster.
  pub InStep-shows :
      {cluster : Cluster Obj} {items : Items V} {s : S}
      → InStep cluster items s
      → (k : ServicePortName)
      → read (apply_all step items s) k ≡ view (to_map (cluster k.namespaced_name)) k
  InStep-shows {cluster} {items} {s} h k =
      apply_all-view read step effect k items s
        (λ nn. confined nn (h.synced nn) (h.synced_keyed nn))
        (λ nn. confined nn (cluster nn) (h.keyed nn)) h.tracks (h.shows k)

  pub InStep-sync :
      {cluster : Cluster Obj} {items : Items V} {s : S}
      → InStep cluster items s
      → InStep cluster [] (apply_all step items s)
  InStep-sync {cluster} h = record {
    synced = cluster;
    synced_keyed = h.keyed;
    keyed = h.keyed;
    tracks = Tracks-empty (world_of to_map cluster);
    shows = InStep-shows h;
  }
