-- ===== src/Haproxy/Proxier/Served/Loop.antt =====
-- The loop of syncProxyRules over all services, on a data plane that keeps what it is sent.
use kube_haproxy.Prelude.{
  String, Bool, true, [], ◌∷◌, ◌≡◌, refl, sym, subst, ◌∙◌, get, GoMap, is_some, EachEntry,
  string_eq,
}
use kube_haproxy.External.{External, GoSet}
use kube_haproxy.Api.{ServicePortName, service_port_name_eq}
use kube_haproxy.Controller.Endpoint.{EndpointsMap}
use kube_haproxy.Controller.Service.{
  BaseServiceInfo, ServicePort, ServiceMap, base_service_info, service_info,
}
use kube_haproxy.Haproxy.Types.{Server, server_eq}
use kube_haproxy.Haproxy.Dataplane.{Dataplane}
use kube_haproxy.Haproxy.Graceful.{SrvItem, srv_item_eq}
use kube_haproxy.Haproxy.Sync.Store.{Views}
use kube_haproxy.Haproxy.Sync.Made.{AbsentOr}
use kube_haproxy.Haproxy.Sync.Elsewhere.{Same, Same-trans}
use kube_haproxy.Haproxy.Proxier.{Config, SyncState, sync_all, svc_name_string}
use kube_haproxy.Haproxy.Proxier.Called.{called_for}
use kube_haproxy.Haproxy.Proxier.Served.{
  Documented, Fits, OtherName, Served, Unique, One, sync_one-Kept, sync_one-Served, sync_one-active,
}

module _ (x : External) (config : Config) (servers : GoSet Server) (set : GoSet SrvItem)
    (dp : Dataplane) (views : ServicePortName → Views dp) (endpoints : EndpointsMap) where
  abbrev Doc : ServicePortName → ServicePort → Type 0
  Doc = Documented x config servers set dp views endpoints

  abbrev Fit : dp.World → ServicePortName → ServicePort → Type 0
  Fit = Fits x config servers set dp views endpoints

  abbrev Differs : ServicePortName → ServicePortName → ServicePort → Type 0
  Differs = OtherName x config servers set dp views endpoints

  abbrev Has : SyncState x config servers set dp → ServicePortName → ServicePort → Type 0
  Has = Served x config servers set dp views endpoints

  abbrev Distinct : ServiceMap → Type 0
  Distinct = Unique x config servers set dp views endpoints

  abbrev Turn :
      ServicePortName
      → ServicePort
      → SyncState x config servers set dp
      → SyncState x config servers set dp
  Turn = One x config servers set dp views endpoints

  abbrev All : ServiceMap → SyncState x config servers set dp → SyncState x config servers set dp
  All = sync_all x config servers set dp endpoints

  -- The loop body on one service, and the objects of the services after it.
  one-Fits :
      (k : ServicePortName) (svc : ServicePort) (active : GoMap String Bool) (list : set.Carrier)
      (w : dp.World) (sm : ServiceMap)
      → Doc k svc
      → Fit w k svc
      → EachEntry Doc sm
      → EachEntry (Differs k) sm
      → EachEntry (Fit w) sm
      → EachEntry (Fit (Turn k svc (active, (list, w))).1.1) sm
  one-Fits k svc active list w [] d h docs others fits = tt
  one-Fits k svc active list w ((j, base_service_info info) ∷ sm) d h docs others fits =
      (tt, one-Fits k svc active list w sm d h docs.1 others.1 fits.1)
  one-Fits k svc active list w ((j, service_info info name) ∷ sm) d h docs others fits =
      let (b, f, i) =
        sync_one-Kept x config servers set dp views endpoints j info docs.0.1 docs.0.0 k svc active
          list w d (λ e. others.0 (sym e)) h in
      let (hb, hf, hi) = fits.0 in
      (
        (
          subst (AbsentOr (called_for x config j info).backend) (sym b) hb,
          subst (AbsentOr (called_for x config j info).frontend) (sym f) hf,
          subst (AbsentOr (called_for x config j info).bind) (sym i) hi,
        ),
        one-Fits k svc active list w sm d h docs.1 others.1 fits.1,
      )

  sync_all-Kept :
      (k : ServicePortName) (info : BaseServiceInfo) (sm : ServiceMap) (active : GoMap String Bool)
      (list : set.Carrier) (w : dp.World)
      → Doc k (service_info info "")
      → EachEntry (Differs k) sm
      → EachEntry Doc sm
      → Distinct sm
      → EachEntry (Fit w) sm
      → Same dp (called_for x config k info) (views k) w (All sm (active, (list, w))).1.1
  unfolding sync_all
  sync_all-Kept k info [] active list w d others docs u fits = (refl, refl, refl)
  sync_all-Kept k info ((j, svc) ∷ sm) active list w d others docs u fits =
      let (active', (list', w')) = Turn j svc (active, (list, w)) in
      Same-trans dp (called_for x config k info) (views k) w w' _
        (sync_one-Kept x config servers set dp views endpoints k info d.1 d.0 j svc active list w
          docs.0 others.0 fits.0)
        (sync_all-Kept k info sm active' list' w' d others.1 docs.1 u.1
          (one-Fits j svc active list w sm docs.0 fits.0 docs.1 u.0 fits.1))

  sync_all-active :
      (name : String) (sm : ServiceMap) (active : GoMap String Bool) (list : set.Carrier)
      (w : dp.World)
      → is_some (get name active) ≡ true
      → is_some (get name (All sm (active, (list, w))).0) ≡ true
  unfolding sync_all
  sync_all-active name [] active list w h = h
  sync_all-active name ((j, svc) ∷ sm) active list w h =
      let (active', (list', w')) = Turn j svc (active, (list, w)) in
      sync_all-active name sm active' list' w'
        (sync_one-active x config servers set dp views endpoints name j svc active list w h)

  -- The first service after the rest of the loop.
  head-Served :
      (k : ServicePortName) (svc : ServicePort) (sm : ServiceMap) (active : GoMap String Bool)
      (list : set.Carrier) (w : dp.World)
      → Doc k svc
      → EachEntry (Differs k) sm
      → EachEntry Doc sm
      → Distinct sm
      → EachEntry (Fit w) sm
      → Has (active, (list, w)) k svc
      → Has (All sm (active, (list, w))) k svc
  head-Served k (base_service_info info) sm active list w d others docs u fits served = tt
  head-Served k (service_info info name) sm active list w d others docs u fits served =
      λ not_skipped.
        let (b, f, i, a) = served not_skipped in
        let (b', f', i') = sync_all-Kept k info sm active list w d others docs u fits in
        (b' ∙ b, f' ∙ f, i' ∙ i, sync_all-active (svc_name_string x k) sm active list w a)

  one-Served :
      (k : ServicePortName) (svc : ServicePort) (active : GoMap String Bool) (list : set.Carrier)
      (w : dp.World)
      → Doc k svc
      → Fit w k svc
      → Has (Turn k svc (active, (list, w))) k svc
  one-Served k (base_service_info info) active list w d h = tt
  one-Served k (service_info info name) active list w d h =
      sync_one-Served x config servers set dp views endpoints k info d.1 d.0 name active list w h

  -- The loop of syncProxyRules over the service map, on a data plane that keeps what it is sent and
  -- whose answers to requests about other objects leave a service's own alone: where each backend,
  -- frontend and bind that a service of the map calls for is missing or as it should be, and no two
  -- services have the same name in haproxy, haproxy has all of them as they should be after the loop,
  -- for each service that is not passed over, and each such service counts as active.
  pub sync_all-Served :
      (sm : ServiceMap) (active : GoMap String Bool) (list : set.Carrier) (w : dp.World)
      → EachEntry Doc sm
      → Distinct sm
      → EachEntry (Fit w) sm
      → EachEntry (Has (sync_all x config servers set dp endpoints sm (active, (list, w)))) sm
  unfolding sync_all
  sync_all-Served [] active list w docs u fits = tt
  sync_all-Served ((k, svc) ∷ sm) active list w docs u fits =
      let (active', (list', w')) = Turn k svc (active, (list, w)) in
      let fits' = one-Fits k svc active list w sm docs.0 fits.0 docs.1 u.0 fits.1 in
      (
        head-Served k svc sm active' list' w' docs.0 u.0 docs.1 u.1 fits'
            (one-Served k svc active list w docs.0 fits.0),
        sync_all-Served sm active' list' w' docs.1 u.1 fits',
      )
