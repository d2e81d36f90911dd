-- ===== src/Scenarios/Serving.antt =====
-- All services of a map, on a data plane that keeps their objects.
use kube_haproxy.Prelude.{
  [], ◌∷◌, ◌≢◌, refl, sym, ap, subst, ◌==◌, string_eq, inl, inr, if◌then◌else◌, deciding,
  replace_all, EachEntry,
}
use kube_haproxy.Api.{ServicePortName, service_port_name_string, service_port_name_eq}
use kube_haproxy.Controller.Service.{service_info, ServiceMap}
use kube_haproxy.Haproxy.Types.{HaproxyInfo, server_eq}
use kube_haproxy.Haproxy.Graceful.{srv_item_eq}
use kube_haproxy.Haproxy.Proxier.{svc_name_string, sync_all}
use kube_haproxy.Haproxy.Proxier.Served.{Documented, Fits, Served}
use kube_haproxy.Haproxy.Proxier.Served.Loop.{sync_all-Served}
use kube_haproxy.Haproxy.Sync.Made.{AbsentOr}
use kube_haproxy.Haproxy.Sync.Elsewhere.{Separates}
use kube_haproxy.Haproxy.Sync.Store.{Views, Keeps}
use kube_haproxy.Scenarios.Maps.{config}
use kube_haproxy.Scenarios.Parts.{net, list_set}
use kube_haproxy.Scenarios.Planes.{
  web_key, mail_key, info_of, web_object, mail_object, web_called_for, mail_called_for, Kept, plane,
  view,
}
use kube_haproxy.Scenarios.Planes.Apart.{object-Separates, object-Keeps, web-IsKept, mail-IsKept}

abbrev views : ServicePortName → Views plane
views k =
    if k.port == "http"
    then view web_object "web backend" "web frontend" "web bind"
    else view mail_object "mail backend" "mail frontend" "mail bind"

abbrev both : ServiceMap
both =
    (web_key, service_info (info_of 80) "shop/web:http")
    ∷ (mail_key, service_info (info_of 25) "shop/mail:smtp")
    ∷ []

-- Only the frontend of the first service is there yet.
abbrev begun : Kept
begun text = text == "web frontend"

documented : EachEntry (Documented net config list_set list_set plane views []) both
unfolding deciding
documented = (
  subst (λ o. Keeps plane o (views web_key) × Separates plane o (views web_key))
      (sym web_called_for)
      (object-Keeps web_object _ _ _ web-IsKept, object-Separates web_object _ _ _ web-IsKept),
  (
    subst (λ o. Keeps plane o (views mail_key) × Separates plane o (views mail_key))
        (sym mail_called_for)
        (
          object-Keeps mail_object _ _ _ mail-IsKept,
          object-Separates mail_object _ _ _ mail-IsKept,
        ),
    tt,
  ),
)

names_differ : svc_name_string net mail_key ≢ svc_name_string net web_key
unfolding svc_name_string service_port_name_string replace_all deciding
names_differ e = cc (ap (λ name. name == "shop.web.http") e)

abbrev HasFits : Views plane → HaproxyInfo → Type 0
HasFits v o =
    AbsentOr o.backend (v.backend_at begun)
    × AbsentOr o.frontend (v.frontend_at begun)
    × AbsentOr o.bind (v.bind_at begun)

fits : EachEntry (Fits net config list_set list_set plane views [] begun) both
unfolding deciding
fits = (
  subst (HasFits (views web_key)) (sym web_called_for) (inl refl, inr refl, inl refl),
  (subst (HasFits (views mail_key)) (sym mail_called_for) (inl refl, inl refl, inl refl), tt),
)

sync_all-Served_example :
    EachEntry
      (Served net config list_set list_set plane views []
        (sync_all net config list_set list_set plane [] both ([], ([], begun))))
      both
sync_all-Served_example =
    sync_all-Served net config list_set list_set plane views [] both [] [] begun documented
      ((names_differ, tt), (tt, tt)) fits
