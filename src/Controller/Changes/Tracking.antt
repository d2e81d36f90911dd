-- ===== src/Controller/Changes/Tracking.antt =====
-- Histories of changes: what the pending items say of the objects, and what applying them does.
use kube_haproxy.Prelude.{
  DecEq, ◌==◌, ==_iff, if◌then◌else◌, Bool-cases, Option-cases, get, put, delete, get-put,
  get-delete, put-IsNodup, delete-IsNodup, IsNodup, NilMap, entries, nil_map_eq, nil_map_eq-get,
  Option, none, some, [], ◌≡◌, refl, sym, ◌∙◌, true, inl, inr,
}
use kube_haproxy.Kube.{NamespacedName, namespaced_name_eq}
use kube_haproxy.Api.{ServicePortName, service_port_name_eq}
use kube_haproxy.Controller.Changes.{Change, Items, track, pending_change}

-- The map of each object, at some moment.
abbrev pub World : Type 0 → Type 0
World V = NamespacedName → NilMap ServicePortName V

module _ {V : Type 0} where
  -- The entry at a key, in a map that may be nil.
  abbrev pub view : NilMap ServicePortName V → ServicePortName → Option V
  view m k = get k (entries m)

  abbrev pub SameView : NilMap ServicePortName V → NilMap ServicePortName V → Type 0
  SameView m n = (k : ServicePortName) → view m k ≡ view n k

  abbrev pub Confined : NamespacedName → NilMap ServicePortName V → Type 0
  Confined nn m = (k : ServicePortName) (v : V) → view m k ≡ some v → k.namespaced_name ≡ nn

  -- An object's map has keys of that object only.
  abbrev pub IsProper : World V → Type 0
  IsProper w = (nn : NamespacedName) → Confined nn (w nn)

  abbrev pub assign : NamespacedName → NilMap ServicePortName V → World V → World V
  assign nn m w nn' = if nn == nn' then m else w nn'

  -- The items hold the changes from the world `base`, at the last sync, to the world `now`.
  pub record Tracks (base now : World V) (items : Items V) : Type 0 where
    pub nodup : IsNodup items
    pub pending :
        (nn : NamespacedName) (c : Change V)
        → get nn items ≡ some c
        → SameView c.previous (base nn) × SameView c.current (now nn)
    pub settled : (nn : NamespacedName) → get nn items ≡ none → SameView (base nn) (now nn)

  pub Tracks-empty : (base : World V) → Tracks base base []
  unfolding get
  Tracks-empty base = record { nodup = tt; pending = λ nn c h. cc h; settled = λ nn h k. refl }

module _ {V : Type 0} ⦃d : DecEq V⦄ {base now : World V} {items : Items V}
    (t : Tracks base now items) (nn : NamespacedName) (previous current : NilMap ServicePortName V)
    (told : SameView previous (now nn)) where
  pending_previous : SameView (pending_change nn previous items).previous (base nn)
  unfolding pending_change
  pending_previous = elim (Option-cases (get nn items)) [
    | inl e ↦ rw (e, pending_change) (λ k. told k ∙ sym (t.settled nn e k))
    | inr (c, e) ↦ rw (e, pending_change) (t.pending nn c e).0
  ]

  abbrev change : Change V
  change = record (pending_change nn previous items) { current = current }

  track_kept :
      (nn' : NamespacedName) (c : Change V)
      → get nn' (put nn change items) ≡ some c
      → SameView c.previous (base nn') × SameView c.current (assign nn current now nn')
  track_kept nn' c h = elim (Bool-cases (nn == nn')) [
    | inl p ↦
        let put_here : some change ≡ some c = rw (get-put, p) at h in
        let same : change ≡ c = cc in
        let here : nn ≡ nn' = (==_iff nn nn').0 p in
        rw (p, ← same, ← here) (pending_previous, λ k. refl)
    | inr p ↦ rw p (t.pending nn' c (rw (get-put, p) at h))
  ]

  track_settled :
      (nn' : NamespacedName)
      → get nn' (put nn change items) ≡ none
      → SameView (base nn') (assign nn current now nn')
  track_settled nn' h = elim (Bool-cases (nn == nn')) [
    | inl p ↦ cc (rw (get-put, p) at h)
    | inr p ↦ rw p (t.settled nn' (rw (get-put, p) at h))
  ]

  -- The change undoes itself: the object is as it was.
  undone : nil_map_eq change.previous change.current ≡ true → SameView (base nn) current
  undone p k = sym (pending_previous k) ∙ nil_map_eq-get change.previous current p k

  dropped :
      nil_map_eq change.previous change.current ≡ true
      → Tracks base (assign nn current now) (delete nn (put nn change items))
  dropped p = record {
    nodup = delete-IsNodup nn (put nn change items) (put-IsNodup nn change items t.nodup);
    pending = λ nn' c h. elim (Bool-cases (nn == nn')) [
      | inl q ↦ cc (rw (get-delete, q) at h)
      | inr q ↦ track_kept nn' c (rw (get-delete, q) at h)
    ];
    settled = λ nn' h. elim (Bool-cases (nn == nn')) [
      | inl q ↦ rw (q, ← (==_iff nn nn').0 q) (undone p)
      | inr q ↦ track_settled nn' (rw (get-delete, q) at h)
    ];
  }

  kept : Tracks base (assign nn current now) (put nn change items)
  kept = record {
    nodup = put-IsNodup nn change items t.nodup;
    pending = track_kept;
    settled = track_settled;
  }

  -- One update keeps the items in step with the world.
  pub track-Tracks : Tracks base (assign nn current now) (track nn previous current items)
  unfolding track
  track-Tracks = elim (Bool-cases (nil_map_eq change.previous change.current)) [
    | inl p ↦ rw p (dropped p)
    | inr p ↦ rw p kept
  ]
