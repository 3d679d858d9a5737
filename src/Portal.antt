-- ===== src/Portal.antt =====
-- core/utils/utils.go: the calls of the cloud portal's API.
pub mod Laws
pub mod Decimal
use Prim.Native.Nat.{◌/◌, ◌%◌}
use auto_repair.Common.{
  ℕ, zero, suc, String, ◌<>◌, Bool, true, false, Option, none, some, List, [], ◌∷◌, length,
  if◌then◌else◌, ◌==◌, ltb, str_eq, first_part,
}
use auto_repair.Env.{
  Env, Io, pure, crash, ask, ◌>>=◌, ◌>>◌, list_clusters, post_scale, nil_pointer, fatal, HttpReply,
  no_response, unreadable, answered, ClusterItem, ScaleBodyRequest,
}

-- The arguments that every function below takes: domainAPI, vpcID, accessToken, idCluster and
-- clusterIDPortal.
pub record Target : Type 0 where
  pub domain_api : String
  pub vpc_id : String
  pub access_token : String
  pub id_cluster : String
  pub cluster_id_portal : String

-- strings.Split(callbackURL, "/api")[0]
unfoldable pub get_domain_api_conform_env : String → String
unfolding first_part
get_domain_api_conform_env callback_url = first_part callback_url "/api"

-- What the callers of the scaler pass: the same, with the callback URL in place of its domain.
pub record Access : Type 0 where
  pub access_token : String
  pub vpc_id : String
  pub id_cluster : String
  pub cluster_id_portal : String
  pub callback_url : String

abbrev pub target_of : Access → Target
target_of a = record {
  domain_api = get_domain_api_conform_env a.callback_url;
  vpc_id = a.vpc_id;
  access_token = a.access_token;
  id_cluster = a.id_cluster;
  cluster_id_portal = a.cluster_id_portal;
}

abbrev pub list_url : Target → String
list_url x =
    x.domain_api <> "/api/v1/xplat/fke/vpc/" <> x.vpc_id <> "/kubernetes?page=1&page_size=25"

abbrev pub scale_url : Target → String
scale_url x =
    x.domain_api <> "/api/v1/xplat/fke/vpc/" <> x.vpc_id <> "/cluster/" <> x.id_cluster
    <> "/scale-cluster"

-- A failed request is only logged, so resp.Body is read through a nil pointer; a body that cannot
-- be read ends the process.
abbrev pub items_of : HttpReply (List ClusterItem) → Io (List ClusterItem)
items_of (no_response e) = crash nil_pointer
items_of (unreadable e) = crash fatal
items_of (answered items) = pure items

-- The request with which the three functions below begin.
abbrev pub fetch_clusters : Env → Target → Io (List ClusterItem)
fetch_clusters env x = do
  reply ←
      ask (list_clusters (list_url x) x.access_token)
        (λ t. env.clusters t (list_url x) x.access_token)
  items_of reply

-- The loops over `k8sCluster.Data`: each item of the cluster overwrites what was found before.
unfoldable pub id_loop : String → List ClusterItem → String → String
id_loop cluster_id [] id = id
id_loop cluster_id (c ∷ cs) id =
    id_loop cluster_id cs (if str_eq c.cluster_id cluster_id then c.id else id)

unfoldable pub status_loop : String → List ClusterItem → Bool → Bool
status_loop cluster_id [] is_succeeded = is_succeeded
status_loop cluster_id (c ∷ cs) is_succeeded = status_loop cluster_id cs (
    if str_eq c.cluster_id cluster_id
    then if str_eq c.status "SCALING"
      then false
      else if str_eq c.status "SUCCEEDED"
      then true
      else is_succeeded
    else is_succeeded)

unfoldable pub error_loop : String → List ClusterItem → Bool → Bool
error_loop cluster_id [] is_error = is_error
error_loop cluster_id (c ∷ cs) is_error = error_loop cluster_id cs (
    if str_eq c.cluster_id cluster_id
    then if str_eq c.status "ERROR" then true else is_error
    else is_error)

unfoldable pub get_id_cluster : Env → Target → Io String
unfolding id_loop
get_id_cluster env x = do items ← fetch_clusters env x; pure (id_loop x.cluster_id_portal items "")

unfoldable pub check_status_cluster : Env → Target → Io Bool
unfolding status_loop
check_status_cluster env x = do
  items ← fetch_clusters env x
  pure (status_loop x.cluster_id_portal items false)

unfoldable pub check_error_status_cluster : Env → Target → Io Bool
unfolding error_loop
check_error_status_cluster env x = do
  items ← fetch_clusters env x
  pure (error_loop x.cluster_id_portal items false)

-- strconv.Itoa of a number that is not negative
digit : ℕ → String
digit d =
    if d == 0
    then "0"
    else if d == 1
    then "1"
    else if d == 2
    then "2"
    else if d == 3
    then "3"
    else if d == 4
    then "4"
    else if d == 5
    then "5"
    else if d == 6
    then "6"
    else if d == 7
    then "7"
    else if d == 8
    then "8"
    else "9"

itoa_loop : ℕ → ℕ → String → String
unfolding digit
itoa_loop zero n s = s
itoa_loop (suc f) n s =
    let more = itoa_loop f (n / 10) (digit (n % 10) <> s) in if ltb n 10 then digit n <> s else more

unfoldable pub itoa : ℕ → String
unfolding itoa_loop
itoa n = itoa_loop (suc n) n ""

-- The body of a request for `worker_count` more workers.
abbrev pub up_request : Target → ℕ → ScaleBodyRequest
up_request x worker_count = record {
  cluster_id = x.cluster_id_portal;
  worker_count = itoa worker_count;
  scale_type = "up";
  worker_name_list = [];
}

abbrev pub down_request : Target → List String → ScaleBodyRequest
down_request x names = record {
  cluster_id = x.cluster_id_portal;
  worker_count = itoa (length names);
  scale_type = "down";
  worker_name_list = names;
}

-- The text of the answer or of the error, and the error.
abbrev pub response_of : HttpReply String → Io (String × Option String)
response_of (no_response e) = pure (e, some e)
response_of (unreadable e) = pure (e, some e)
response_of (answered body) = pure (body, none)

unfoldable pub perform_scale_up : Env → Target → ℕ → Io (String × Option String)
perform_scale_up env x worker_count = do
  reply ←
      ask (post_scale (scale_url x) x.access_token (up_request x worker_count))
        (λ t. env.scale_reply t (scale_url x) x.access_token (up_request x worker_count))
  response_of reply

-- Without a response, `defer resp.Body.Close()` reads through a nil pointer.
abbrev pub log_response : HttpReply String → Io (Unit {0})
log_response (no_response e) = crash nil_pointer
log_response (unreadable e) = pure tt
log_response (answered body) = pure tt

unfoldable pub perform_scale_down : Env → Target → List String → Io (Unit {0})
perform_scale_down env x names = do
  reply ←
      ask (post_scale (scale_url x) x.access_token (down_request x names))
        (λ t. env.scale_reply t (scale_url x) x.access_token (down_request x names))
  log_response reply
