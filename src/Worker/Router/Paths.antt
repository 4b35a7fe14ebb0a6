-- ===== src/Worker/Router/Paths.antt =====
-- The paths of `routeV1` of apps/worker/src/index.ts behind the local ones.
use newell_ai.Common.{Text, codes, text_eq, not, ◌&&◌, List, [], ◌∷◌, length, ◌==◌, if◌then◌else◌}
use newell_ai.Worker.Auth.{split_at}

-- Where a path leads.
pub data Endpoint : Type 0 where
  to_turns to_conversations to_search to_status to_artifacts nowhere : Endpoint
  to_content to_artifact to_conversation_artifacts to_conversation_turns : Text → Endpoint

-- The part between two `/` is one or more units that are not `/`.
abbrev pub part : Text → Endpoint → Endpoint
part [] e = nowhere
part (c ∷ s) e = e

-- The paths with an id, split at each `/`: the four expressions exclude one another.
unfoldable pub endpoint_of_parts : List Text → Endpoint
endpoint_of_parts (root ∷ v1 ∷ kind ∷ id ∷ []) =
    if length root == 0 && text_eq v1 (codes "v1") && text_eq kind (codes "artifacts")
    then part id (to_artifact id)
    else nowhere
endpoint_of_parts (root ∷ v1 ∷ kind ∷ id ∷ last ∷ []) =
    if not (length root == 0 && text_eq v1 (codes "v1"))
    then nowhere
    else if text_eq kind (codes "artifacts") && text_eq last (codes "content")
    then part id (to_content id)
    else if text_eq kind (codes "conversations") && text_eq last (codes "artifacts")
    then part id (to_conversation_artifacts id)
    else if text_eq kind (codes "conversations") && text_eq last (codes "turns")
    then part id (to_conversation_turns id)
    else nowhere
endpoint_of_parts parts = nowhere

unfoldable pub endpoint_of : Text → Endpoint
unfolding endpoint_of_parts split_at
endpoint_of path =
    if text_eq path (codes "/v1/turns")
    then to_turns
    else if text_eq path (codes "/v1/conversations")
    then to_conversations
    else if text_eq path (codes "/v1/search")
    then to_search
    else if text_eq path (codes "/v1/status")
    then to_status
    else if text_eq path (codes "/v1/artifacts")
    then to_artifacts
    else endpoint_of_parts (split_at b'/' path)
