-- ===== src/Worker/Http.antt =====
-- What apps/worker/src reads of a request and of apps/worker/src/env.ts. `fetch` has parsed the URL:
-- its parts are the parameters of a request, and the query's `q` and `limit`. A body that is no JSON
-- is `none`.
use newell_ai.Common.{ℕ, Text, Option, List}
use newell_ai.Value.{Value}
use newell_ai.Worker.Auth.{AuthHeaders}

-- `Env`, without the bindings of the platform
pub record WorkerEnv : Type 0 where
  pub capture_api_token : Option Text
  pub allow_local_pairing : Option Text
  pub pairing_extension_origin : Option Text
  pub artifact_size_limit : Option Text

pub record HttpRequest : Type 0 where
  pub method : Text
  pub hostname : Text
  pub pathname : Text
  pub headers : AuthHeaders
  pub origin : Option Text
  pub content_type : Option Text
  pub query : Option Text
  pub limit : Option Text
  pub json : Option Value
  pub bytes : List ℕ
