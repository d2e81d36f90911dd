-- ===== src/Haproxy/Dataplane.antt =====
-- What the client stands on and the repository does not hold: the HTTP client (gorest) with the data
-- plane API behind it, the JSON library, and url.QueryEscape.
use kube_haproxy.Prelude.{ℕ, String, Option, List, ◌⊎◌}
use kube_haproxy.Haproxy.Types.{Backend, Frontend, Bind, Server}

pub data Method : Type 0 where
  method_get method_post method_put method_delete : Method

pub record Request : Type 0 where
  pub method : Method
  pub url : String
  pub body : Option String

-- restclient.Response: Err, Code and Body.
pub record Response : Type 0 where
  pub err : Option String
  pub code : ℕ
  pub body : String

pub data Payload : Type 0 where
  a_backend : Backend → Payload
  a_frontend : Frontend → Payload
  a_bind : Bind → Payload
  a_server : Server → Payload

pub record Dataplane : Type 1 where
  -- The rest of the world, with the configuration of haproxy in it.
  pub World : Type 0
  pub send : Request → World → Response × World
  -- json.Marshal: an error, or the text
  pub marshal : Payload → String ⊎ String
  -- json.Unmarshal into map[string]json.RawMessage, and its entry "data" (empty where it is missing)
  pub raw_data : String → Option String
  -- json.Unmarshal of that entry into each type
  pub decode_backend : String → Option Backend
  pub decode_backends : String → Option (List Backend)
  pub decode_frontend : String → Option Frontend
  pub decode_frontends : String → Option (List Frontend)
  pub decode_bind : String → Option Bind
  pub decode_server : String → Option Server
  -- what json.Unmarshal leaves in the variable, after an error too
  pub decode_servers : String → List Server
  -- json.Unmarshal into map[string][]models.Bind, and its entry "data": empty on an error
  pub decode_bind_list : String → List Bind
  pub query_escape : String → String
  -- the decimal text of the value of strconv.Atoi, which is "0" for a text that is no number
  pub atoi_text : String → String
