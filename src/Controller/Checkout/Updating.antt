-- ===== src/Controller/Checkout/Updating.antt =====
-- controller/endpointsslice.go, updatePending: what a slice's update leaves for the next checkout.
use kube_haproxy.Prelude.{
  String, Bool, true, false, not, Option, none, some, ==_iff, ==_refl, if◌then◌else◌, Bool-cases,
  Option-cases, get, put, get-put, ◌≡◌, refl, sym, ◌∙◌, ap, subst, string_eq, bool_eq, arith, inl,
  inr, ◌⊎◌,
}
use kube_haproxy.Kube.{NamespacedName, namespaced_name_eq, EndpointSlice}
use kube_haproxy.Controller.Slices.{
  EndpointSliceInfo, EndpointSliceInfoByName, EndpointSliceTracker, EndpointSliceCache, info_eq,
  es_info_changed, update_pending, new_endpoint_slice_info, endpoint_slice_cache_keys,
  tracker_or_new,
}
use kube_haproxy.Controller.Checkout.Pending.{shown}

-- The entry of a slice that the next checkout will apply.
abbrev pub due : EndpointSliceTracker → String → Option EndpointSliceInfo
due tracker name = shown (get name tracker.pending) (get name tracker.applied)

-- No applied entry is a removal: checkoutChanges applies none.
abbrev pub IsApplied : EndpointSliceTracker → Type 0
IsApplied tracker =
    (name : String) (info : EndpointSliceInfo)
    → get name tracker.applied ≡ some info
    → info.remove ≡ false

-- Nothing for a removal; else an entry that is the given one or equal to it for reflect.DeepEqual.
abbrev pub Agrees : EndpointSliceInfo → Option EndpointSliceInfo → Type 0
Agrees new none = new.remove ≡ true
Agrees new (some info) = (new.remove ≡ false) × ((info ≡ new) ⊎ (info_eq new info ≡ true))

info_eq-remove : (a b : EndpointSliceInfo) → info_eq a b ≡ true → a.remove ≡ b.remove
unfolding info_eq
info_eq-remove a b e = ground (arith, ==_iff a.remove b.remove)

changed-Agrees :
    (new : EndpointSliceInfo) (applied : Option EndpointSliceInfo)
    → Agrees new (shown (some new) applied)
changed-Agrees new applied = elim (Bool-cases new.remove) [
  | inl r ↦ rw r refl
  | inr r ↦ rw r (refl, inl refl)
]

pending-Agrees :
    (new old : EndpointSliceInfo) (applied : Option EndpointSliceInfo)
    → info_eq new old ≡ true
    → Agrees new (shown (some old) applied)
pending-Agrees new old applied e = elim (Bool-cases old.remove) [
  | inl r ↦ rw r (info_eq-remove new old e ∙ r)
  | inr r ↦
      subst (λ b. Agrees new (if b then none else some old)) (sym r)
        (info_eq-remove new old e ∙ r, inr e)
]

-- esInfoChanged, on the tracker that it finds.
abbrev differs : EndpointSliceInfo → Option EndpointSliceInfo → Option EndpointSliceInfo → Bool
differs new (some pending) applied = not (info_eq new pending)
differs new none (some applied) = not (info_eq new applied)
differs new none none = not new.remove

es_info_changed-differs :
    (cache : EndpointSliceCache) (svc : NamespacedName) (name : String) (new : EndpointSliceInfo)
    (tracker : EndpointSliceTracker)
    → get svc cache.tracker_by_service_map ≡ some tracker
    → es_info_changed cache svc name new
      ≡ differs new (get name tracker.pending) (get name tracker.applied)
unfolding es_info_changed
es_info_changed-differs cache svc name new tracker g =
    elim (Option-cases (get name tracker.pending)) [
      | inl p ↦ rw (g, p, es_info_changed) refl
      | inr (i, p) ↦ rw (g, p, es_info_changed) refl
    ]

unchanged-Agrees :
    (new : EndpointSliceInfo) (pending applied : Option EndpointSliceInfo)
    → ((info : EndpointSliceInfo) → applied ≡ some info → info.remove ≡ false)
    → differs new pending applied ≡ false
    → Agrees new (shown pending applied)
unchanged-Agrees new (some old) applied h e = pending-Agrees new old applied (ground arith)
unchanged-Agrees new none (some old) h e =
    let same : info_eq new old ≡ true = ground arith in
    (info_eq-remove new old same ∙ h old refl, inr same)
unchanged-Agrees new none none h e = ground arith

abbrev pub put_tracker :
    NamespacedName → EndpointSliceTracker → EndpointSliceCache → EndpointSliceCache
put_tracker svc tracker cache = record cache {
  tracker_by_service_map = put svc tracker cache.tracker_by_service_map;
}

pub get-put_tracker :
    (svc : NamespacedName) (tracker : EndpointSliceTracker) (cache : EndpointSliceCache)
    → get svc (put_tracker svc tracker cache).tracker_by_service_map ≡ some tracker
get-put_tracker svc tracker cache =
    get-put svc svc tracker cache.tracker_by_service_map ∙ ground (arith, ==_refl svc)

get-put_self :
    (name : String) (info : EndpointSliceInfo) (m : EndpointSliceInfoByName)
    → get name (put name info m) ≡ some info
get-put_self name info m = get-put name name info m ∙ ground (arith, ==_refl name)

tracker_or_new-put :
    (svc : NamespacedName) (tracker : EndpointSliceTracker) (cache : EndpointSliceCache)
    → tracker_or_new svc (put_tracker svc tracker cache) ≡ tracker
tracker_or_new-put svc tracker cache = rw (get-put_tracker svc tracker cache, tracker_or_new) refl

-- updatePending, once it has its keys and its new entry.
abbrev pub updated :
    EndpointSliceCache → NamespacedName → String → EndpointSliceInfo → EndpointSliceCache × Bool
updated cache svc name new =
    let tracker = tracker_or_new svc cache in
    if es_info_changed (put_tracker svc tracker cache) svc name new
    then (put_tracker svc (record tracker { pending = put name new tracker.pending }) cache, true)
    else (put_tracker svc tracker cache, false)

pub updated-Agrees :
    (cache : EndpointSliceCache) (svc : NamespacedName) (name : String) (new : EndpointSliceInfo)
    → IsApplied (tracker_or_new svc cache)
    → Agrees new (due (tracker_or_new svc (updated cache svc name new).0) name)
updated-Agrees cache svc name new h =
    let tracker = tracker_or_new svc cache in
    let changed = es_info_changed (put_tracker svc tracker cache) svc name new in
    elim (Bool-cases changed) [
      | inl c ↦ rw c (
          subst (λ t. Agrees new (due t name)) (sym (tracker_or_new-put svc _ cache))
            (subst (λ o. Agrees new (shown o (get name tracker.applied)))
              (sym (get-put_self name new tracker.pending))
              (changed-Agrees new (get name tracker.applied))))
      | inr c ↦ rw c (
          subst (λ t. Agrees new (due t name)) (sym (tracker_or_new-put svc tracker cache))
            (unchanged-Agrees new (get name tracker.pending) (get name tracker.applied) (h name) (
              sym
                (es_info_changed-differs _ svc name new tracker (get-put_tracker svc tracker cache))
              ∙ c)))
    ]

-- updatePending as a function of the keys and of the new entry.
abbrev taken :
    EndpointSliceCache
    → Option (NamespacedName × String)
    → Option EndpointSliceInfo
    → Option (EndpointSliceCache × Bool)
taken cache keys new = elim keys [
  | none ↦ some (cache, false)
  | some (svc, name) ↦ elim new [
    | none ↦ none
    | some info ↦
        if es_info_changed (put_tracker svc (tracker_or_new svc cache) cache) svc name info
        then some (
          put_tracker svc
              (record (tracker_or_new svc cache) {
                pending = put name info (tracker_or_new svc cache).pending;
              })
              cache,
          true,
        )
        else some (put_tracker svc (tracker_or_new svc cache) cache, false)
  ]
]

update_pending-taken :
    (cache : EndpointSliceCache) (slice : EndpointSlice) (remove : Bool)
    → update_pending cache slice remove
      ≡ taken cache (endpoint_slice_cache_keys slice) (new_endpoint_slice_info slice remove)
unfolding update_pending
update_pending-taken cache slice remove = refl

pub update_pending_panics :
    (cache : EndpointSliceCache) (slice : EndpointSlice) (remove : Bool) (svc : NamespacedName)
    (name : String)
    → endpoint_slice_cache_keys slice ≡ some (svc, name)
    → new_endpoint_slice_info slice remove ≡ none
    → update_pending cache slice remove ≡ none
update_pending_panics cache slice remove svc name keys info =
    update_pending-taken cache slice remove
    ∙ ap (λ k. taken cache k (new_endpoint_slice_info slice remove)) keys
    ∙ ap (taken cache (some (svc, name))) info

taken-updated :
    (cache : EndpointSliceCache) (svc : NamespacedName) (name : String) (new : EndpointSliceInfo)
    → taken cache (some (svc, name)) (some new) ≡ some (updated cache svc name new)
taken-updated cache svc name new =
    elim (Bool-cases
      (es_info_changed (put_tracker svc (tracker_or_new svc cache) cache) svc name new)) [
        | inl c ↦ rw c refl
        | inr c ↦ rw c refl
      ]

pub update_pending-updated :
    (cache : EndpointSliceCache) (slice : EndpointSlice) (remove : Bool) (svc : NamespacedName)
    (name : String) (new : EndpointSliceInfo)
    → endpoint_slice_cache_keys slice ≡ some (svc, name)
    → new_endpoint_slice_info slice remove ≡ some new
    → update_pending cache slice remove ≡ some (updated cache svc name new)
update_pending-updated cache slice remove svc name new keys info =
    update_pending-taken cache slice remove
    ∙ ap (λ k. taken cache k (new_endpoint_slice_info slice remove)) keys
    ∙ ap (taken cache (some (svc, name))) info
    ∙ taken-updated cache svc name new

-- After updatePending has taken a slice, the entry due for the slice at the next checkout agrees with
-- it: none for a deletion, and for an added or updated slice the entry made from it, or one equal to
-- that for reflect.DeepEqual where the update counted as no change. Nothing that is pending or applied
-- under the name survives that differs from the slice. No applied entry is a removal before.
pub update_pending-Agrees :
    (cache : EndpointSliceCache) (slice : EndpointSlice) (remove : Bool) (svc : NamespacedName)
    (name : String) (new : EndpointSliceInfo)
    → endpoint_slice_cache_keys slice ≡ some (svc, name)
    → new_endpoint_slice_info slice remove ≡ some new
    → IsApplied (tracker_or_new svc cache)
    → (cache' : EndpointSliceCache) × (changed : Bool) × (update_pending cache slice remove
        ≡ some (cache', changed))
      × Agrees new (due (tracker_or_new svc cache') name)
update_pending-Agrees cache slice remove svc name new keys info h = (
  (updated cache svc name new).0,
  (updated cache svc name new).1,
  update_pending-updated cache slice remove svc name new keys info,
  updated-Agrees cache svc name new h,
)
