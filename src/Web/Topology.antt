-- ===== src/Web/Topology.antt =====
-- The graph of the topology view: its data and what is read off pods
-- (apps/web/lib/topology-utils.ts, topology-types.ts beside it).
pub mod Data
pub mod Graph
pub mod Build
pub mod Known
pub mod Joined
pub mod Health
mod Tests
use Prim.Native.Char.{code}
use minikura.Common.{
  ℕ, ◌+◌, ◌-◌, ◌*◌, suc, String, Bool, true, false, not, ◌&&◌, ◌||◌, Option, none, some, List, [],
  ◌∷◌, leb, ◌==◌, if◌then◌else◌, lower, split, is_code, is_space, length, filter,
}

pub data HealthStatus : Type 0 where
  healthy degraded unhealthy unknown : HealthStatus

pub data NodeType : Type 0 where
  server proxy k8s_node : NodeType

pub data EdgeType : Type 0 where
  proxy_to_server pod_to_node : EdgeType

pub record PodInfo : Type 0 where
  pub name : String
  pub status : String
  pub ready : String
  pub node_name : Option String

pub record K8sNodeSummary : Type 0 where
  pub name : Option String
  pub status : String

-- The digits at the beginning of a text, after a number that was read.
digits_from : ℕ → String → ℕ
digits_from number String.[] = number
digits_from number (String.◌∷◌ c s) =
    let more = digits_from (number * 10 + (code c - b'0')) s in
    if leb b'0' (code c) && leb (code c) b'9' then more else number

-- A number with its sign; there is one zero.
abbrev pub Parsed : Type 0
Parsed = Bool × ℕ

abbrev signed : Bool → ℕ → Parsed
signed negative number = (negative && not (leb number 0), number)

after_sign : String → Parsed
unfolding digits_from
after_sign String.[] = (false, 0)
after_sign (String.◌∷◌ c s) =
    if is_code (code c) b'-'
    then signed true (digits_from 0 s)
    else if is_code (code c) b'+'
    then signed false (digits_from 0 s)
    else signed false (digits_from 0 (String.◌∷◌ c s))

-- `parseInt(s, 10) || 0`
unfoldable pub parse_int : String → Parsed
unfolding is_space after_sign
parse_int String.[] = (false, 0)
parse_int (String.◌∷◌ c s) =
    let rest = parse_int s in if is_space (code c) then rest else after_sign (String.◌∷◌ c s)

abbrev ready_of : List String → Parsed × Parsed
ready_of (ready ∷ total ∷ _) = (parse_int ready, parse_int total)
ready_of (ready ∷ []) = (parse_int ready, (false, 0))
ready_of [] = ((false, 0), (false, 0))

unfoldable pub parse_pod_ready : String → Parsed × Parsed
unfolding parse_int split
parse_pod_ready ready = ready_of (split b'/' ready)

abbrev same_sign : Bool → Bool → Bool
same_sign true b = b
same_sign false b = not b

abbrev same_number : Parsed × Parsed → Bool
same_number ((s, a), (t, b)) = same_sign s t && is_code a b

-- All of its containers are ready, and it runs.
unfoldable pub is_ready : PodInfo → Bool
unfolding parse_pod_ready lower
is_ready pod = same_number (parse_pod_ready pod.ready) && lower pod.status == "running"

unfoldable pub calculate_health_status : ℕ → ℕ → HealthStatus
calculate_health_status ready_pods total_pods =
    if leb total_pods 0
    then HealthStatus.unknown
    else if is_code ready_pods total_pods
    then HealthStatus.healthy
    else if not (leb ready_pods 0)
    then HealthStatus.degraded
    else HealthStatus.unhealthy

abbrev pub ready_count : List PodInfo → ℕ
ready_count pods = length (filter is_ready pods)

-- The health of what runs in some pods.
unfoldable pub health_of : List PodInfo → HealthStatus
unfolding is_ready calculate_health_status
health_of pods = calculate_health_status (ready_count pods) (length pods)
