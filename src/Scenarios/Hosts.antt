-- ===== src/Scenarios/Hosts.antt =====
-- Flags, mount points, the clean-up, and the handlers of the informers.
use kube_haproxy.Prelude.{
  ℕ, String, Bool, true, false, none, List, [], ◌∷◌, ◌≡◌, refl, ◌↔◌, ◌⊎◌, inr, split, is_empty,
  ◌==◌, ◌||◌, ◌+++◌, string_eq, deciding,
}
use kube_haproxy.Kube.{KubeService}
use kube_haproxy.App.Settings.{pos, negsuc, algorithm, cidr_tuple}
use kube_haproxy.App.Settings.Pairs.{algorithm_panic_iff, cidr_tuple_exact, first_other, first_ipv6}
use kube_haproxy.App.Conntrack.{MountPoint, sysfs_writable, first_is_rw}
use kube_haproxy.App.Conntrack.Writable.{FirstSysfs, sysfs_writable_iff}
use kube_haproxy.App.Cleanup.{cleanup_and_exit}
use kube_haproxy.App.Cleanup.Refused.{NoneDone, cleanup_and_exit_ok_iff}
use kube_haproxy.Config.{
  service, object, tombstone, EventHandler, register, run, handle_add, handle_update, handle_delete,
  as_service,
}
use kube_haproxy.Config.Delivery.{register-delivers}
use kube_haproxy.Haproxy.Operations.{get_services}
use kube_haproxy.Scenarios.Parts.{answering}

algorithm_panic_iff_example :
    (algorithm (pos 10) ≡ none) ↔ ((pos 10 ≡ pos 10) ⊎ ((n : ℕ) × (pos 10 ≡ negsuc n)))
algorithm_panic_iff_example = algorithm_panic_iff (pos 10)

abbrev is_v6 : String → Bool
is_v6 cidr = cidr == "fd00::/8" || cidr == "fd01::/8"

cidr_tuple_exact_example : cidr_tuple is_v6 "fd00::/8,fd01::/8" ≡ (
  first_other is_v6 (split "fd00::/8,fd01::/8" ","),
  first_ipv6 is_v6 (split "fd00::/8,fd01::/8" ","),
)
cidr_tuple_exact_example = cidr_tuple_exact is_v6 "fd00::/8,fd01::/8"

-- Two IPv6 CIDRs: the second stands in the place of the IPv4 one.
two_v6 : cidr_tuple is_v6 "fd00::/8,fd01::/8" ≡ ("fd01::/8", "fd00::/8")
unfolding deciding cidr_tuple split
two_v6 = refl

abbrev mounts : List MountPoint
mounts =
    record { fs_type = "proc"; opts = "rw" ∷ [] }
    ∷ record { fs_type = "sysfs"; opts = "rw" ∷ "nosuid" ∷ [] }
    ∷ []

sysfs_writable_iff_example :
    (sysfs_writable mounts ≡ inr true)
    ↔ ((f : FirstSysfs mounts) × (first_is_rw f.mount.opts ≡ true))
sysfs_writable_iff_example = sysfs_writable_iff mounts

cleanup_and_exit_ok_iff_example : ((cleanup_and_exit (answering 200) []).0 ≡ none) ↔ (
    (is_empty (get_services (answering 200) []).0 ≡ false)
    × NoneDone
        (answering 200)
        (get_services (answering 200) []).0
        (get_services (answering 200) []).1)
cleanup_and_exit_ok_iff_example = cleanup_and_exit_ok_iff (answering 200) []

abbrev web : KubeService
web = record {
  namespace = "default";
  name = "web";
  cluster_ip = "10.0.0.2";
  ports = [];
  session_affinity = "None";
  client_ip_timeout = 0;
  external_ips = [];
  load_balancer_source_ranges = [];
  ingress = [];
  health_check_node_port = 0;
  topology_keys = [];
}

-- A handler that notes what it is told.
abbrev notes : String → EventHandler KubeService (List String)
notes who = record {
  on_add = λ svc told. (who +++ " add " +++ svc.name) ∷ told;
  on_update = λ old svc told. (who +++ " update " +++ svc.name) ∷ told;
  on_delete = λ svc told. (who +++ " delete " +++ svc.name) ∷ told;
  on_synced = λ told. (who +++ " synced") ∷ told;
}

abbrev first_only : List (EventHandler KubeService (List String))
first_only = notes "first" ∷ []

abbrev both : List (EventHandler KubeService (List String))
both = register (notes "second") first_only

register-delivers_example :
    (handle_add as_service both (service web) []
      ≡ (notes "second").on_add web (handle_add as_service first_only (service web) []))
    × (handle_update as_service both (service web) (service web) []
        ≡ (notes "second").on_update web web
            (handle_update as_service first_only (service web) (service web) []))
    × (handle_delete as_service both (object (service web)) []
        ≡ (notes "second").on_delete web
            (handle_delete as_service first_only (object (service web)) []))
    × (handle_delete as_service both (tombstone (service web)) []
        ≡ (notes "second").on_delete web
            (handle_delete as_service first_only (tombstone (service web)) []))
    × (run true both [] ≡ (notes "second").on_synced (run true first_only []))
register-delivers_example =
    register-delivers as_service (notes "second") first_only (service web) (service web) web web []
      refl refl
