-- ===== src/App/Loading.antt =====
-- server/app/server.go, the loading of a configuration file, and waitForPodCIDR of
-- server/app/server_others.go. The decoders, the scheme and the watch are arguments.
use kube_haproxy.Prelude.{
  String, Bool, not, Option, none, some, List, ◌==◌, if◌then◌else◌, ◌&&◌, ◌⊎◌, inl, inr, ◌+++◌,
  string_eq, is_empty,
}

-- What the loading calls. `KubeProxyConfig` is the internal type, `External` the versioned one; a
-- decoded object is none where it is of another type, whose name comes with it.
pub record Scheme : Type 1 where
  pub KubeProxyConfig : Type 0
  pub Versioned : Type 0
  -- ioutil.ReadFile
  pub read_file : String → String ⊎ String
  -- the strict decoder: an error, and whether it is a strict decoding error
  pub decode_strictly : String → (String × Bool) ⊎ (Option KubeProxyConfig × String)
  -- AddToScheme of the internal and of the versioned API: an error, if any
  pub add_internal : Option String
  pub add_versioned : Option String
  -- the decoder of the lenient codecs
  pub decode_leniently : String → String ⊎ (Option KubeProxyConfig × String)
  pub to_versioned : KubeProxyConfig → String ⊎ Versioned
  pub set_defaults : Versioned → Versioned
  pub to_internal : Versioned → String ⊎ KubeProxyConfig

module _ (s : Scheme) where
  -- newLenientSchemeAndCodecs: its error, if any
  unfoldable pub new_lenient_scheme_and_codecs : Option String
  new_lenient_scheme_and_codecs = elim s.add_internal [
    | some e ↦ some ("failed to add kube-proxy config API to lenient scheme: " +++ e)
    | none ↦ elim s.add_versioned [
      | some e ↦ some ("failed to add kube-proxy config v1alpha1 API to lenient scheme: " +++ e)
      | none ↦ none
    ]
  ]

  -- The type assertion at the end of loadConfig.
  abbrev pub of_type : Option s.KubeProxyConfig × String → String ⊎ s.KubeProxyConfig
  of_type (none, gvk) = inl ("got unexpected config type: " +++ gvk)
  of_type (some config, gvk) = inr config

  -- loadConfig
  unfoldable pub load_config : String → String ⊎ s.KubeProxyConfig
  unfolding new_lenient_scheme_and_codecs
  load_config text = elim (s.decode_strictly text) [
    | inr decoded ↦ of_type decoded
    | inl (error, is_strict_error) ↦
        if not is_strict_error
        then inl ("failed to decode: " +++ error)
        else (elim new_lenient_scheme_and_codecs [
          | some lenient_error ↦ inl lenient_error
          | none ↦ elim (s.decode_leniently text) [
            | inl lenient_error ↦ inl ("failed lenient decoding: " +++ error)
            | inr decoded ↦ of_type decoded
          ]
        ])
  ]

  -- loadConfigFromFile
  unfoldable pub load_config_from_file : String → String ⊎ s.KubeProxyConfig
  unfolding load_config
  load_config_from_file file = elim (s.read_file file) [
    | inl error ↦ inl error
    | inr text ↦ load_config text
  ]

  -- ApplyDefaults
  unfoldable pub apply_defaults : s.KubeProxyConfig → String ⊎ s.KubeProxyConfig
  apply_defaults config = elim (s.to_versioned config) [
    | inl error ↦ inl error
    | inr versioned ↦ s.to_internal (s.set_defaults versioned)
  ]

-- v1.Node: the fields that waitForPodCIDR reads.
pub record Node : Type 0 where
  pub pod_cidr : String
  pub pod_cidrs : List String

-- The condition of waitForPodCIDR on an event, whose object is none where it is no node.
unfoldable pub pod_cidr_condition : Option Node → String ⊎ Bool
pod_cidr_condition none = inl "event object not of type Node"
pod_cidr_condition (some n) = inr (not (n.pod_cidr == "") && not (is_empty n.pod_cidrs))

-- waitForPodCIDR: `until` is toolswatch.UntilWithSync, up to the time-out, on the nodes of this name.
unfoldable pub wait_for_pod_cidr :
    (String → (Option Node → String ⊎ Bool) → String ⊎ Option Node) → String → String ⊎ Node
unfolding pod_cidr_condition
wait_for_pod_cidr until node_name =
    elim (until ("metadata.name=" +++ node_name) pod_cidr_condition) [
      | inl error ↦ inl (
          "timeout waiting for PodCIDR allocation to configure detect-local-mode NodeCIDR: "
          +++ error)
      | inr object ↦ elim object [ none ↦ inl "event object not of type node" | some n ↦ inr n ]
    ]
