-- ===== src/Controller/Endpoints/SliceEvents.antt =====
-- controller/endpoints.go, EndpointSliceUpdate: what an event of a slice does to the tracker's cache.
use kube_haproxy.Prelude.{
  String, Bool, false, not, Option, none, some, if◌then◌else◌, Bool-cases, ◌≡◌, refl, sym, ◌∙◌, ap,
  subst, inl, inr,
}
use kube_haproxy.Kube.{NamespacedName, EndpointSlice}
use kube_haproxy.External.{External}
use kube_haproxy.Controller.Slices.{
  EndpointSliceInfo, EndpointSliceCache, update_pending, new_endpoint_slice_info,
  endpoint_slice_cache_keys,
}
use kube_haproxy.Controller.Checkout.History.{LastEvents, with_event}
use kube_haproxy.Controller.Checkout.Updating.{
  updated, update_pending-updated, update_pending_panics,
}
use kube_haproxy.Controller.Endpoints.{
  is_supported_address_type, note_trigger_time, endpoint_slice_update,
}
use kube_haproxy.Controller.EndpointsTracker.{EndpointChangeTracker}

-- The event of a slice, where the tracker takes it: its address type is known and it names its service.
abbrev noted : Option (NamespacedName × String) → Option EndpointSliceInfo → LastEvents → LastEvents
noted none new last = last
noted (some (svc, name)) none last = last
noted (some (svc, name)) (some new) last = with_event svc name new last

abbrev pub handled : EndpointSlice → Bool → LastEvents → LastEvents
handled slice remove last =
    if is_supported_address_type slice.address_type
    then noted (endpoint_slice_cache_keys slice) (new_endpoint_slice_info slice remove) last
    else last

-- What EndpointSliceUpdate makes of a cache.
pub data Taken (cache : EndpointSliceCache) (last : LastEvents)
    : LastEvents → EndpointSliceCache → Type 0 where
  ignored : Taken cache last last cache
  taken :
      (slice : EndpointSlice) (remove : Bool) (svc : NamespacedName) (name : String)
      (new : EndpointSliceInfo)
      → endpoint_slice_cache_keys slice ≡ some (svc, name)
      → new_endpoint_slice_info slice remove ≡ some new
      → Taken cache last (with_event svc name new last) (updated cache svc name new).0

pub record Next (cache : EndpointSliceCache) (last last' : LastEvents)
    (ect' : EndpointChangeTracker) : Type 0 where
  pub cache' : EndpointSliceCache
  pub is : ect'.endpoint_slice_cache ≡ some cache'
  pub by_event : Taken cache last last' cache'

module _ (x : External) (ect : EndpointChangeTracker) (slice : EndpointSlice) (remove : Bool) where
  abbrev given : Option (EndpointChangeTracker × Bool)
  given = some (ect, false)

  -- The tracker once updatePending has returned.
  abbrev with_cache : NamespacedName → EndpointSliceCache → Bool → EndpointChangeTracker
  with_cache nn cache' change_needed = record ect {
    endpoint_slice_cache = some cache';
    last_change_trigger_times =
        if change_needed
        then note_trigger_time x nn slice.annotations (not remove) ect.last_change_trigger_times
        else ect.last_change_trigger_times;
  }

  abbrev after_pending :
      NamespacedName → Option (EndpointSliceCache × Bool) → Option (EndpointChangeTracker × Bool)
  after_pending nn result = elim result [
    | none ↦ none
    | some (cache', change_needed) ↦ some (with_cache nn cache' change_needed, change_needed)
  ]

  abbrev after_keys :
      Option (NamespacedName × String)
      → Option EndpointSliceCache
      → Option (EndpointChangeTracker × Bool)
  after_keys keys slices = elim keys [
    | none ↦ some (ect, false)
    | some (nn, _) ↦ elim slices [
      | none ↦ none
      | some cache ↦ after_pending nn (update_pending cache slice remove)
    ]
  ]

  update-after_keys : endpoint_slice_update x ect (some slice) remove ≡ (
      if not (is_supported_address_type slice.address_type)
      then some (ect, false)
      else after_keys (endpoint_slice_cache_keys slice) ect.endpoint_slice_cache)
  unfolding endpoint_slice_update
  update-after_keys = refl

  module _ (cache : EndpointSliceCache) (last : LastEvents) {ect' : EndpointChangeTracker}
      {changed : Bool} (held : ect.endpoint_slice_cache ≡ some cache) where
    same_tracker : given ≡ some (ect', changed) → Next cache last last ect'
    same_tracker e =
        let is : ect ≡ ect' = cc e in
        record {
          cache' = cache;
          is = subst (λ (t : EndpointChangeTracker). t.endpoint_slice_cache ≡ some cache) is held;
          by_event = ignored;
        }

    keyed :
        (keys : Option (NamespacedName × String)) (info : Option EndpointSliceInfo)
        → endpoint_slice_cache_keys slice ≡ keys
        → new_endpoint_slice_info slice remove ≡ info
        → after_keys keys (some cache) ≡ some (ect', changed)
        → Next cache last (noted keys info last) ect'
    keyed none info k i e = same_tracker e
    keyed (some (svc, name)) none k i e =
        cc
          (ap (after_pending svc) (sym (update_pending_panics cache slice remove svc name k i)) ∙ e)
    keyed (some (svc, name)) (some new) k i e =
        let (c, b) = updated cache svc name new in
        let done : ◌≡◌ {A = Option (EndpointChangeTracker × Bool)} (some (with_cache svc c b, b))
            (some (ect', changed)) =
          ap (after_pending svc) (sym (update_pending-updated cache slice remove svc name new k i))
          ∙ e in
        let is : with_cache svc c b ≡ ect' = cc done in
        record {
          cache' = c;
          is = sym (ap (λ (t : EndpointChangeTracker). t.endpoint_slice_cache) is);
          by_event = taken slice remove svc name new k i;
        }

    pub endpoint_slice_update-Next :
        endpoint_slice_update x ect (some slice) remove ≡ some (ect', changed)
        → Next cache last (handled slice remove last) ect'
    endpoint_slice_update-Next e =
        elim (Bool-cases (is_supported_address_type slice.address_type)) [
          | inr s ↦ rw s (same_tracker (rw s at (sym update-after_keys ∙ e)))
          | inl s ↦ rw s (
              keyed (endpoint_slice_cache_keys slice) (new_endpoint_slice_info slice remove) refl
                refl
                (ap (after_keys (endpoint_slice_cache_keys slice)) (sym held)
                  ∙ rw s at (sym update-after_keys ∙ e)))
        ]
