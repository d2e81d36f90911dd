-- ===== src/Haproxy/Graceful.antt =====
-- haproxy/graceful_termination.go: the list of servers to delete, and its manager. The lock of the list
-- makes each method on it atomic.
pub mod Queue
use kube_haproxy.Prelude.{
  String, Bool, true, false, not, Option, none, some, List, [], ◌∷◌, ◌&&◌, ◌||◌, ◌==◌, DecEq,
  if◌then◌else◌, is_some, ◌+++◌, String_discrete, ℕ_discrete, Bool_discrete,
}
use kube_haproxy.External.{GoSet}
use kube_haproxy.Haproxy.Action.{Action, ◌>>=◌, ◌>>◌, pure}
use kube_haproxy.Haproxy.Types.{Server, empty_server, server_eq, Server_discrete}
use kube_haproxy.Haproxy.Dataplane.{Dataplane}
use kube_haproxy.Haproxy.Handle.{Outcome}
use kube_haproxy.Haproxy.Operations.{get_server, delete_server_from_backend}

-- srvItem
pub record SrvItem : Type 0 where
  pub backend_name : String
  pub srv : Server

unfoldable pub SrvItem_discrete : Discrete SrvItem
unfolding String_discrete Server_discrete
SrvItem_discrete = hlevel (String_discrete, Server_discrete)

instance abbrev pub srv_item_eq : DecEq SrvItem
srv_item_eq = record { dec = SrvItem_discrete }

-- The text of an error under "%v".
abbrev pub error_text : Option String → String
error_text none = "<nil>"
error_text (some e) = e

module _ (set : GoSet SrvItem) where
  open set use {Carrier as SrvSet, contains as has}

  -- graceTerminateSrvList.add
  unfoldable pub add : SrvItem → SrvSet → SrvSet × Bool
  add server list = if not (has server list) then (list, false) else (set.add server list, true)

  -- graceTerminateSrvList.remove: Remove reports an error only for what the set does not have.
  unfoldable pub remove : SrvItem → SrvSet → SrvSet × Bool
  remove server list = if has server list then (set.remove server list, true) else (list, false)

  -- graceTerminateSrvList.exist
  unfoldable pub exist : SrvItem → SrvSet → Bool
  exist server list = has server list

  -- What the manager's methods change: the list, and the world behind the data plane API.
  abbrev pub Managed : Type 0 → Type 0
  Managed W = SrvSet × W

  -- The body of the loop of flushList: whether it went without an error.
  unfoldable pub flush_item :
      {W : Type 0} → (SrvItem → Action W Outcome) → SrvItem → Action (Managed W) Bool
  unfolding remove
  flush_item handler server (list, w) =
      let (outcome, w') = handler server w in
      (not (is_some outcome.1), (if outcome.0 then (remove server list).0 else list, w'))

  unfoldable pub flush_items :
      {W : Type 0} → (SrvItem → Action W Outcome) → List SrvItem → Action (Managed W) Bool
  unfolding flush_item
  flush_items handler [] s = (true, s)
  flush_items handler (server ∷ rest) s =
      let (fine, s') = flush_item handler server s in
      let (all_fine, s'') = flush_items handler rest s' in (fine && all_fine, s'')

  -- graceTerminateSrvList.flushList
  unfoldable pub flush_list : {W : Type 0} → (SrvItem → Action W Outcome) → Action (Managed W) Bool
  unfolding flush_items
  flush_list handler (list, w) = flush_items handler (set.items list) (list, w)

  module _ (dp : Dataplane) where
    -- deleteSrvFunc, once the server is known to be there.
    unfoldable pub delete_found : SrvItem → Action dp.World Outcome
    unfolding delete_server_from_backend
    delete_found item = do
      outcome ← delete_server_from_backend dp item.srv.name item.backend_name
      pure (
          if is_some outcome.1 || not outcome.0
          then (
            false,
            some (
                "Delete destination "
                +++ item.srv.address
                +++ " failed: "
                +++ error_text outcome.1),
          )
          else outcome)

    -- GracefulTerminationManager.deleteSrvFunc
    unfoldable pub delete_srv_func : SrvItem → Action dp.World Outcome
    unfolding delete_found get_server
    delete_srv_func item w =
        let (rss, w') = get_server dp item.backend_name item.srv.name w in
        if rss == empty_server then ((false, some "server is nil"), w') else delete_found item w'

    -- NewGracefulTerminationManager
    abbrev pub new_list : SrvSet
    new_list = set.empty

    -- InTerminationList
    unfoldable pub in_termination_list : Server → String → SrvSet → Bool
    unfolding exist
    in_termination_list srv backend_name list =
        exist (record { backend_name = backend_name; srv = srv }) list

    -- GracefulDeleteSrv: it returns nil in every case.
    unfoldable pub graceful_delete_srv : Server → String → Action (Managed dp.World) (Option String)
    unfolding delete_srv_func add
    graceful_delete_srv srv backend_name (list, w) =
        let item : SrvItem = record { backend_name = backend_name; srv = srv } in
        let (outcome, w') = delete_srv_func item w in
        (none, (if outcome.0 then list else (add item list).0, w'))

    -- tryDeleteSrv, which Run calls once a minute. It only logs that the flush failed.
    unfoldable pub try_delete_srv : Action (Managed dp.World) (Unit {0})
    unfolding flush_list delete_srv_func
    try_delete_srv s = let (flushed, s') = flush_list delete_srv_func s in (tt, s')

    -- MoveRSOutofGracefulDeleteList
    unfoldable pub move_rs_out_of_graceful_delete_list :
        Server → String → Action (Managed dp.World) (Option String)
    unfolding exist delete_server_from_backend remove
    move_rs_out_of_graceful_delete_list srv backend_name (list, w) =
        let item : SrvItem = record { backend_name = backend_name; srv = srv } in
        if not (exist item list)
        then (
          some ("failed to find server " +++ srv.address +++ " in backend: " +++ backend_name),
          (list, w),
        )
        else (let (outcome, w') = delete_server_from_backend dp srv.name backend_name w in
            elim outcome.1 [
              | some e ↦ (some e, (list, w'))
              | none ↦ (none, ((remove item list).0, w'))
            ])
