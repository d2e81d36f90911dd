-- ===== src/Haproxy/Graceful/Queue.antt =====
-- What the graceful termination list holds: after each operation, and over any history.
use kube_haproxy.Prelude.{
  String, true, false, not, none, List, [], ◌∷◌, ◌≡◌, sym, ◌∙◌, ◌&&◌, ◌==◌, ==_iff, Bool-cases,
  arith, inl, inr,
}
use kube_haproxy.External.{GoSet, elem_of}
use kube_haproxy.Haproxy.Action.{Action}
use kube_haproxy.Haproxy.Types.{Server, empty_server, server_eq}
use kube_haproxy.Haproxy.Dataplane.{Dataplane}
use kube_haproxy.Haproxy.Handle.{Outcome}
use kube_haproxy.Haproxy.Operations.{get_server}
use kube_haproxy.Haproxy.Graceful.{
  SrvItem, srv_item_eq, add, remove, exist, flush_item, flush_items, flush_list, Managed,
  delete_found, delete_srv_func, graceful_delete_srv, try_delete_srv,
  move_rs_out_of_graceful_delete_list,
}

abbrev srv_item : Server → String → SrvItem
srv_item srv backend_name = record { backend_name = backend_name; srv = srv }

module _ (set : GoSet SrvItem) where
  open set use {Carrier as SrvSet, contains as has}

  -- `add` adds nothing: its guard lets through only what the list has.
  has-add : (a item : SrvItem) (list : SrvSet) → has a (add set item list).0 ≡ has a list
  unfolding add
  has-add a item list = elim (Bool-cases (has item list)) [
    | inr p ↦ rw p
    | inl p ↦ rw p (set.contains-add a item list ∙ ground (arith, ==_iff a item))
  ]

  has-remove :
      (a item : SrvItem) (list : SrvSet)
      → has a (remove set item list).0 ≡ (not (a == item) && has a list)
  unfolding remove
  has-remove a item list = elim (Bool-cases (has item list)) [
    | inl p ↦ rw p (set.contains-remove a item list)
    | inr p ↦ rw p (ground (arith, ==_iff a item))
  ]

  -- A handler that reports no error only when it deleted its server.
  abbrev pub DeletesOrFails : {W : Type 0} → (SrvItem → Action W Outcome) → Type 0
  DeletesOrFails {W} handler =
      (item : SrvItem) (w : W) → (handler item w).0.1 ≡ none → (handler item w).0.0 ≡ true

  module _ {W : Type 0} (handler : SrvItem → Action W Outcome) where
    -- Flushing never adds.
    flush_items-has :
        (a : SrvItem) (items : List SrvItem) (s : Managed set W)
        → has a (flush_items set handler items s).1.0 ≡ true
        → has a s.0 ≡ true
    unfolding flush_items flush_item
    flush_items-has a [] s h = h
    flush_items-has a (item ∷ items) (list, w) h =
        let h' = flush_items-has a items (flush_item set handler item (list, w)).1 h in
        elim (Bool-cases (handler item w).0.0) [
          | inl p ↦ ground (arith, has-remove a item list)
          | inr p ↦ ground arith
        ]

    -- The item that is deleted leaves the list.
    flush_item_gone :
        (item : SrvItem) (s : Managed set W)
        → DeletesOrFails handler
        → (flush_item set handler item s).0 ≡ true
        → has item (flush_item set handler item s).1.0 ≡ false
    unfolding flush_item
    flush_item_gone item (list, w) d fine =
        rw (d item w (ground arith)) (ground (arith, has-remove item item list, ==_iff item item))

    flush_items_keep_out :
        (a : SrvItem) (items : List SrvItem) (s : Managed set W)
        → has a s.0 ≡ false
        → has a (flush_items set handler items s).1.0 ≡ false
    flush_items_keep_out a items s h =
        elim (Bool-cases (has a (flush_items set handler items s).1.0)) [
          | inl p ↦ cc (flush_items-has a items s p)
          | inr p ↦ p
        ]

    flush_items_gone :
        (a : SrvItem) (items : List SrvItem) (s : Managed set W)
        → DeletesOrFails handler
        → (flush_items set handler items s).0 ≡ true
        → elem_of a items ≡ true
        → has a (flush_items set handler items s).1.0 ≡ false
    unfolding flush_items elem_of
    flush_items_gone a [] s d fine m = cc
    flush_items_gone a (item ∷ items) s d fine m = elim (Bool-cases (a == item)) [
      | inl p ↦
          flush_items_keep_out a items (flush_item set handler item s).1
            (rw ((==_iff a item).0 p) (flush_item_gone item s d (ground arith)))
      | inr p ↦
          flush_items_gone a items (flush_item set handler item s).1 d (ground arith) (ground arith)
    ]

    -- A flush that reports success has emptied the list, if the handler deletes or fails.
    pub flush_list_empties :
        (s : Managed set W)
        → DeletesOrFails handler
        → (flush_list set handler s).0 ≡ true
        → (a : SrvItem) → has a (flush_list set handler s).1.0 ≡ false
    unfolding flush_list
    flush_list_empties (list, w) d fine a = elim (Bool-cases (has a list)) [
      | inl p ↦
          flush_items_gone a (set.items list) (list, w) d fine (sym (set.items_contains a list) ∙ p)
      | inr p ↦ flush_items_keep_out a (set.items list) (list, w) p
    ]

  module _ (dp : Dataplane) where
    found_deletes :
        (item : SrvItem) (w : dp.World)
        → (delete_found set dp item w).0.1 ≡ none
        → (delete_found set dp item w).0.0 ≡ true
    unfolding delete_found
    found_deletes item w h = ground arith

    -- deleteSrvFunc reports no error only for a server that it deleted.
    pub delete_srv_func-DeletesOrFails : DeletesOrFails (delete_srv_func set dp)
    unfolding delete_srv_func
    delete_srv_func-DeletesOrFails item w h =
        elim (Bool-cases ((get_server dp item.backend_name item.srv.name w).0 == empty_server)) [
          | inl p ↦ cc (rw p at h)
          | inr p ↦
              rw p
                (found_deletes item (get_server dp item.backend_name item.srv.name w).1 (rw p at h))
        ]

    -- One minute's round of the manager: where the flush of the list with deleteSrvFunc reports success,
    -- the list is empty after tryDeleteSrv.
    pub try_delete_srv_empties :
        (s : Managed set dp.World)
        → (flush_list set (delete_srv_func set dp) s).0 ≡ true
        → (a : SrvItem) → has a (try_delete_srv set dp s).1.0 ≡ false
    unfolding try_delete_srv
    try_delete_srv_empties s fine a =
        flush_list_empties (delete_srv_func set dp) s delete_srv_func-DeletesOrFails fine a

-- What the program does to the list and the world: the syncs' two calls, the round of each minute, and
-- anything that happens to the world.
pub data History (set : GoSet SrvItem) (dp : Dataplane) : Managed set dp.World → Type 0 where
  start : (w : dp.World) → History set dp (set.empty, w)
  deleted :
      {s : Managed set dp.World}
      → History set dp s
      → (srv : Server) (backend_name : String)
      → History set dp (graceful_delete_srv set dp srv backend_name s).1
  moved_out :
      {s : Managed set dp.World}
      → History set dp s
      → (srv : Server) (backend_name : String)
      → History set dp (move_rs_out_of_graceful_delete_list set dp srv backend_name s).1
  flushed :
      {s : Managed set dp.World} → History set dp s → History set dp (try_delete_srv set dp s).1
  elsewhere :
      {s : Managed set dp.World} → History set dp s → (w : dp.World) → History set dp (s.0, w)

module _ (set : GoSet SrvItem) (dp : Dataplane) where
  -- Whatever servers are deleted, and however their deletion ends, the list for the next attempt is
  -- always empty: a server that could not be deleted is never tried again by the manager.
  pub History-empty :
      {s : Managed set dp.World} → History set dp s → (a : SrvItem) → set.contains a s.0 ≡ false
  unfolding graceful_delete_srv move_rs_out_of_graceful_delete_list exist try_delete_srv flush_list
  History-empty (start w) a = set.contains-empty a
  History-empty (deleted {s = (list, w)} h srv backend_name) a =
      elim (Bool-cases (delete_srv_func set dp (srv_item srv backend_name) w).0.0) [
        | inl p ↦ rw p (History-empty h a)
        | inr p ↦ rw p (has-add set a (srv_item srv backend_name) list ∙ History-empty h a)
      ]
  History-empty (moved_out {s = (list, w)} h srv backend_name) a =
      rw (History-empty h (srv_item srv backend_name)) (History-empty h a)
  History-empty (flushed {s = (list, w)} h) a =
      flush_items_keep_out set (delete_srv_func set dp) a (set.items list) (list, w)
        (History-empty h a)
  History-empty (elsewhere h w) a = History-empty h a
