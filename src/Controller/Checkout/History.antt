-- ===== src/Controller/Checkout/History.antt =====
-- controller/endpointsslice.go: the cache over any sequence of updates and checkouts.
use kube_haproxy.Prelude.{
  String, Bool, true, false, Option, none, some, ◌==◌, ==_iff, ==_refl, if◌then◌else◌, Bool-cases,
  get, put, get-put, ◌≡◌, refl, sym, ◌∙◌, ap, subst, string_eq, inl, inr, ◌&&◌,
}
use kube_haproxy.Kube.{NamespacedName, namespaced_name_eq, EndpointSlice}
use kube_haproxy.External.{External}
use kube_haproxy.Controller.Endpoint.{Maker}
use kube_haproxy.Controller.Slices.{
  EndpointSliceInfo, EndpointSliceTracker, EndpointSliceCache, update_pending, es_info_changed,
  new_endpoint_slice_info, new_endpoint_slice_cache, endpoint_slice_cache_keys, tracker_or_new,
}
use kube_haproxy.Controller.Checkout.{checkout_changes}
use kube_haproxy.Controller.Checkout.Pending.{shown, checkout_changes-IsSettled}
use kube_haproxy.Controller.Checkout.Updating.{
  due, IsApplied, Agrees, updated, updated-Agrees, update_pending-updated, put_tracker,
  get-put_tracker,
}

-- For each slice of each service, the entry of its last event.
abbrev pub LastEvents : Type 0
LastEvents = NamespacedName → String → Option EndpointSliceInfo

abbrev pub with_event : NamespacedName → String → EndpointSliceInfo → LastEvents → LastEvents
with_event svc name new last svc' name' =
    if svc == svc' && name == name' then some new else last svc' name'

-- Updates and checkouts of a new cache, in any order, with the last event of each slice.
pub data History (x : External) (hostname : String) (mode : Option Bool) (make : Maker)
    : LastEvents → EndpointSliceCache → Type 0 where
  start : History x hostname mode make (λ _ _. none) (new_endpoint_slice_cache hostname mode make)
  slice_updated :
      {last : LastEvents} {cache : EndpointSliceCache}
      → History x hostname mode make last cache
      → (slice : EndpointSlice) (remove : Bool) (svc : NamespacedName) (name : String)
        (new : EndpointSliceInfo) (cache' : EndpointSliceCache) (changed : Bool)
      → endpoint_slice_cache_keys slice ≡ some (svc, name)
      → new_endpoint_slice_info slice remove ≡ some new
      → update_pending cache slice remove ≡ some (cache', changed)
      → History x hostname mode make (with_event svc name new last) cache'
  checked_out :
      {last : LastEvents} {cache : EndpointSliceCache}
      → History x hostname mode make last cache
      → History x hostname mode make last (checkout_changes x cache).1

-- Nothing for a slice without events, else an entry that agrees with its last event.
abbrev pub AgreesLast : Option EndpointSliceInfo → Option EndpointSliceInfo → Type 0
AgreesLast none o = o ≡ none
AgreesLast (some new) o = Agrees new o

abbrev Inv : LastEvents → EndpointSliceCache → Type 0
Inv last cache =
    (svc : NamespacedName)
    → IsApplied (tracker_or_new svc cache)
      × ((name : String) → AgreesLast (last svc name) (due (tracker_or_new svc cache) name))

-- An update of one slice leaves the other trackers, and the applied entries, as they are.
pub other_tracker :
    (svc svc' : NamespacedName) (tracker : EndpointSliceTracker) (cache : EndpointSliceCache)
    → (svc == svc') ≡ false
    → tracker_or_new svc' (put_tracker svc tracker cache) ≡ tracker_or_new svc' cache
other_tracker svc svc' tracker cache h =
    rw (get-put svc' svc tracker cache.tracker_by_service_map, h, tracker_or_new) refl

pub same_tracker :
    (svc : NamespacedName) (tracker : EndpointSliceTracker) (cache : EndpointSliceCache)
    → tracker_or_new svc (put_tracker svc tracker cache) ≡ tracker
same_tracker svc tracker cache = rw (get-put_tracker svc tracker cache, tracker_or_new) refl

-- The two trackers that an update may leave.
pub updated_cases :
    (cache : EndpointSliceCache) (svc : NamespacedName) (name : String) (new : EndpointSliceInfo)
    → (t : EndpointSliceTracker) × ((updated cache svc name new).0 ≡ put_tracker svc t cache)
      × (t.applied ≡ (tracker_or_new svc cache).applied)
      × ((name' : String)
          → (name == name') ≡ false
          → get name' t.pending ≡ get name' (tracker_or_new svc cache).pending)
updated_cases cache svc name new =
    let tracker = tracker_or_new svc cache in
    let changed = es_info_changed (put_tracker svc tracker cache) svc name new in
    elim (Bool-cases changed) [
      | inl c ↦ (
        record tracker { pending = put name new tracker.pending },
        rw c refl,
        refl,
        λ name' h. get-put name' name new tracker.pending ∙ rw h refl,
      )
      | inr c ↦ (tracker, rw c refl, refl, λ name' h. refl)
    ]

put_tracker-applied :
    (svc svc' : NamespacedName) (t : EndpointSliceTracker) (cache : EndpointSliceCache)
    → t.applied ≡ (tracker_or_new svc cache).applied
    → (tracker_or_new svc' (put_tracker svc t cache)).applied ≡ (tracker_or_new svc' cache).applied
put_tracker-applied svc svc' t cache e = elim (Bool-cases (svc == svc')) [
  | inl s ↦
      subst
        (λ v.
          (tracker_or_new v (put_tracker svc t cache)).applied ≡ (tracker_or_new v cache).applied)
        ((==_iff svc svc').0 s)
        (ap (λ (u : EndpointSliceTracker). u.applied) (same_tracker svc t cache) ∙ e)
  | inr s ↦ ap (λ (u : EndpointSliceTracker). u.applied) (other_tracker svc svc' t cache s)
]

-- updatePending touches no applied entry, of any service.
pub updated-applied :
    (cache : EndpointSliceCache) (svc svc' : NamespacedName) (name : String)
    (new : EndpointSliceInfo)
    → (tracker_or_new svc' (updated cache svc name new).0).applied
      ≡ (tracker_or_new svc' cache).applied
updated-applied cache svc svc' name new =
    let (t, e, a, p) = updated_cases cache svc name new in
    ap (λ c. (tracker_or_new svc' c).applied) e ∙ put_tracker-applied svc svc' t cache a

start-Inv :
    (hostname : String) (mode : Option Bool) (make : Maker)
    → Inv (λ _ _. none) (new_endpoint_slice_cache hostname mode make)
unfolding new_endpoint_slice_cache get
start-Inv hostname mode make svc = (λ name info e. cc e, λ name. refl)

due-same :
    (t u : EndpointSliceTracker) (name : String)
    → t.applied ≡ u.applied
    → get name t.pending ≡ get name u.pending
    → due t name ≡ due u name
due-same t u name a p =
    ap (λ o. shown o (get name t.applied)) p ∙ ap (λ m. shown (get name u.pending) (get name m)) a

-- The slice's own service after an update.
updated-same :
    (last : LastEvents) (cache : EndpointSliceCache) (svc : NamespacedName) (name : String)
    (new : EndpointSliceInfo)
    → Inv last cache
    → (name' : String)
    → AgreesLast
        (if name == name' then some new else last svc name')
        (due (tracker_or_new svc (updated cache svc name new).0) name')
updated-same last cache svc name new h name' = elim (Bool-cases (name == name')) [
  | inl n ↦ rw n (
      subst (λ m. Agrees new (due (tracker_or_new svc (updated cache svc name new).0) m))
        ((==_iff name name').0 n) (updated-Agrees cache svc name new (h svc).0))
  | inr n ↦
      let (t, e, a, p) = updated_cases cache svc name new in
      let u = tracker_or_new svc (updated cache svc name new).0 in
      let is : u ≡ t = ap (tracker_or_new svc) e ∙ same_tracker svc t cache in
      rw n (
        subst (AgreesLast (last svc name'))
          (sym
            (ap (λ v. due v name') is ∙ due-same t (tracker_or_new svc cache) name' a (p name' n)))
          ((h svc).1 name'))
]

updated-IsApplied :
    (last : LastEvents) (cache : EndpointSliceCache) (svc : NamespacedName) (name : String)
    (new : EndpointSliceInfo)
    → Inv last cache
    → IsApplied (tracker_or_new svc (updated cache svc name new).0)
updated-IsApplied last cache svc name new h name' info g =
    (h svc).0 name' info (sym (ap (get name') (updated-applied cache svc svc name new)) ∙ g)

updated-Inv :
    (last : LastEvents) (cache : EndpointSliceCache) (svc : NamespacedName) (name : String)
    (new : EndpointSliceInfo)
    → Inv last cache
    → Inv (with_event svc name new last) (updated cache svc name new).0
updated-Inv last cache svc name new h svc' = elim (Bool-cases (svc == svc')) [
  | inl s ↦
      subst
        (λ v.
          IsApplied (tracker_or_new v (updated cache svc name new).0)
          × ((name' : String)
              → AgreesLast (with_event svc name new last v name')
                  (due (tracker_or_new v (updated cache svc name new).0) name')))
        ((==_iff svc svc').0 s)
        (
          updated-IsApplied last cache svc name new h,
          λ name'. rw (==_refl svc) (updated-same last cache svc name new h name'),
        )
  | inr s ↦
      let (t, e, a, p) = updated_cases cache svc name new in
      let is : tracker_or_new svc' cache ≡ tracker_or_new svc' (updated cache svc name new).0 =
        sym (ap (tracker_or_new svc') e ∙ other_tracker svc svc' t cache s) in
      (
        subst IsApplied is (h svc').0,
        λ name'.
            rw s (subst (λ v. AgreesLast (last svc' name') (due v name')) is ((h svc').1 name')),
      )
]

kept-if :
    (b : Bool) (old info : EndpointSliceInfo)
    → old.remove ≡ b
    → (if b then none else some old) ≡ some info
    → info.remove ≡ false
kept-if true old info r e = cc e
kept-if false old info r e = cc (e, r)

shown-kept :
    (pending applied : Option EndpointSliceInfo) (info : EndpointSliceInfo)
    → ((old : EndpointSliceInfo) → applied ≡ some old → old.remove ≡ false)
    → shown pending applied ≡ some info
    → info.remove ≡ false
shown-kept none applied info h e = h info e
shown-kept (some old) applied info h e = kept-if old.remove old info refl e

module _ (x : External) where
  -- What is due before a checkout is applied, and due, after it.
  checkout-due :
      (cache : EndpointSliceCache) (svc : NamespacedName) (name : String)
      → due (tracker_or_new svc (checkout_changes x cache).1) name
        ≡ due (tracker_or_new svc cache) name
  unfolding get
  checkout-due cache svc name =
      let (none_pending, applied) = checkout_changes-IsSettled x cache svc in
      let u = tracker_or_new svc (checkout_changes x cache).1 in
      ap (λ m. shown (get name m) (get name u.applied)) none_pending ∙ applied name

  checkout-Inv :
      (last : LastEvents) (cache : EndpointSliceCache)
      → Inv last cache
      → Inv last (checkout_changes x cache).1
  checkout-Inv last cache h svc =
      let t = tracker_or_new svc cache in
      (
        λ name info g.
            shown-kept (get name t.pending) (get name t.applied) info ((h svc).0 name)
              (sym ((checkout_changes-IsSettled x cache svc).1 name) ∙ g),
        λ name.
            subst (AgreesLast (last svc name)) (sym (checkout-due cache svc name)) ((h svc).1 name),
      )

  module _ (hostname : String) (mode : Option Bool) (make : Maker) where
    History-Inv :
        {last : LastEvents} {cache : EndpointSliceCache}
        → History x hostname mode make last cache
        → Inv last cache
    History-Inv start = start-Inv hostname mode make
    History-Inv
          (slice_updated {last} {cache} run slice remove svc name new cache' changed keys info e) =
        let same : some (updated cache svc name new) ≡ some (cache', changed) =
          sym (update_pending-updated cache slice remove svc name new keys info) ∙ e in
        let next : (updated cache svc name new).0 ≡ cache' = cc same in
        subst (Inv (with_event svc name new last)) next
          (updated-Inv last cache svc name new (History-Inv run))
    History-Inv (checked_out {last} {cache} run) = checkout-Inv last cache (History-Inv run)

    -- After any sequence of slice updates, deletions and checkouts of a new cache, one more
    -- checkoutChanges leaves applied under each slice of each service exactly what the slice's last
    -- event calls for: nothing if it had none or was deleted last, else the entry made from the slice
    -- as it was last, or one equal to that for reflect.DeepEqual.
    pub checkout_changes-AgreesLast :
        {last : LastEvents} {cache : EndpointSliceCache}
        → History x hostname mode make last cache
        → (svc : NamespacedName) (name : String)
        → AgreesLast
            (last svc name)
            (get name (tracker_or_new svc (checkout_changes x cache).1).applied)
    checkout_changes-AgreesLast {last} {cache} run svc name =
        subst (AgreesLast (last svc name)) (sym ((checkout_changes-IsSettled x cache svc).1 name))
          ((History-Inv run svc).1 name)
