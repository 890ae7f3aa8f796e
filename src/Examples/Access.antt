-- ===== src/Examples/Access.antt =====
-- The theorems on tokens, callers, addresses and retries at concrete inputs.
use self_hosted_deployer.Common.{
  ◌⊎◌, ◌<◌, find?, update, ◌≤◌, ◌*◌, ◌^◌, String, true, false, none, some, [], ◌∷◌, ◌≡◌, ◌==◌, refl,
  arith, any, nat_eq, ◌||◌, trim_space, if◌then◌else◌, ok, err,
}
use self_hosted_deployer.Agent.Backoff.{
  HeartbeatBackoff, IsSane, IsReady, new_backoff, new_backoff-IsReady, initial_heartbeat_backoff,
  max_heartbeat_backoff, step, steps, reset, min, delay_after,
}
use self_hosted_deployer.WireGuard.Allocation.{
  Prefix, Netip, exhausted, start, end_of, next_peer, masked, contains, collect, choose, scan,
  next_of,
}
use self_hosted_deployer.WireGuard.Hosts.{IsSubnet, IsHost}
use self_hosted_deployer.WireGuard.Fresh.{stands_for, next_peer-fresh, next_peer-full}
use self_hosted_deployer.Auth.Tokens.{token_prefix}
use self_hosted_deployer.Auth.JoinTokens.{has_hash, JoinToken, already_used, consume}
use self_hosted_deployer.Auth.Consumption.{winners, one_winner, consume-consume}
use self_hosted_deployer.Auth.Authenticate.{
  found, missing, TokenStore, Hashing, Caller, agent, authenticate, bearer_token, intercept,
  cut_space, is_public_method, is_agent_only_method, is_admin_only_method, authenticate_agent,
  authenticate_token,
}
use self_hosted_deployer.Auth.Access.{Admitted, authenticate-Admitted, IsPublic, intercept-Admitted}
use self_hosted_deployer.Operation.Types.{missing}

abbrev pub heartbeat : HeartbeatBackoff
heartbeat = new_backoff initial_heartbeat_backoff max_heartbeat_backoff

heartbeat-IsSane : IsSane heartbeat
heartbeat-IsSane = record { positive = omega arith; ordered = omega arith; bounded = omega arith }

pub heartbeat-IsReady : IsReady heartbeat
heartbeat-IsReady =
    new_backoff-IsReady initial_heartbeat_backoff max_heartbeat_backoff heartbeat-IsSane

delay_after_example :
    (step (steps 4 (reset heartbeat))).0 ≡ min (heartbeat.initial * 2 ^ 4) heartbeat.max
delay_after_example = delay_after heartbeat 4 heartbeat-IsSane

-- 10.0.0.0/30, whose hosts are 10.0.0.1 and 10.0.0.2
abbrev subnet : Prefix
subnet = record { addr = record { is4 = true; value = 167772160 }; bits = 30 }

abbrev netip : Netip
netip = record {
  parse_prefix = λ s. some subnet;
  parse_addr =
      λ s. if s == "10.0.0.2" then some (record { is4 = true; value = 167772162 }) else none;
  format = λ n. "";
}

found_free : next_peer netip subnet 167772161 [] ≡ ok 167772162
unfolding next_peer collect choose scan next_of start end_of masked
found_free = refl

subnet-IsSubnet : IsSubnet subnet
subnet-IsSubnet = record { roomy = omega arith; in_range = omega arith }

next_peer-fresh_example :
    IsHost subnet 167772162
    × (nat_eq 167772162 167772161 ≡ false)
    × (any (stands_for netip 167772162) [] ≡ false)
next_peer-fresh_example =
    next_peer-fresh netip subnet 167772161 [] 167772162 subnet-IsSubnet found_free

all_taken : next_peer netip subnet 167772161 ("10.0.0.2" ∷ []) ≡ err exhausted
unfolding next_peer collect choose scan next_of start end_of masked contains trim_space
all_taken = refl

second-IsHost : IsHost subnet 167772162
second-IsHost = record { behind_network = omega arith; before_broadcast = omega arith }

next_peer-full_example :
    (nat_eq 167772162 167772161 || any (stands_for netip 167772162) ("10.0.0.2" ∷ [])) ≡ true
next_peer-full_example =
    next_peer-full netip subnet 167772161 ("10.0.0.2" ∷ []) 167772162 subnet-IsSubnet all_taken
      second-IsHost

abbrev join_token : JoinToken
join_token = record {
  token_hash = "h";
  intended_node_name = "n1";
  labels_json = "{}";
  created_at = 1;
  expires_at = 10;
  used_at = none;
}

one_winner_example :
    winners "h"
      (record { read = join_token; hash = "h"; used_at = 5 }
        ∷ record { read = join_token; hash = "h"; used_at = 6 }
        ∷ [])
      (join_token ∷ [])
    ≤ 1
one_winner_example =
    one_winner "h"
      (record { read = join_token; hash = "h"; used_at = 5 }
        ∷ record { read = join_token; hash = "h"; used_at = 6 }
        ∷ [])
      (join_token ∷ [])

abbrev used_token : JoinToken
used_token = record join_token { used_at = some 5 }

consumed : consume "h" 5 (join_token ∷ []) ≡ ok (used_token, used_token ∷ [])
unfolding consume find? update
consumed = refl

consume-consume_example :
    (row : JoinToken) × (find? (has_hash "h") (join_token ∷ []) ≡ some row)
    × (row.used_at ≡ none)
    × (5 < row.expires_at)
    × (used_token ≡ record row { used_at = some 5 })
    × (consume "h" 6 (used_token ∷ []) ≡ err already_used)
consume-consume_example =
    consume-consume "h" 5 6 (join_token ∷ []) (used_token ∷ []) used_token consumed

abbrev hashing : Hashing
hashing = record { hash_token = λ s. some "h"; equal_fold = λ a b. a == b; digest = λ s. "id" }

abbrev store : TokenStore
store = record {
  find_admin = λ s. missing;
  mark_admin = λ s. true;
  find_agent = λ s. found (record { token_hash = "h"; node_id = "n1"; revoked_at = none });
  mark_agent = λ s. true;
}

abbrev heartbeat_method : String
heartbeat_method = "/deployer.v1.NodeService/HeartbeatNode"

agent_passes :
    authenticate hashing store (some "Bearer dep_agent_c2VjcmV0") heartbeat_method
    ≡ ok (agent "n1" "id")
unfolding authenticate bearer_token cut_space token_prefix authenticate_token authenticate_agent
    is_admin_only_method is_agent_only_method trim_space
agent_passes = refl

authenticate-Admitted_example :
    (raw : String) × (bearer_token hashing store (some "Bearer dep_agent_c2VjcmV0") ≡ ok raw)
    × Admitted hashing store raw heartbeat_method (agent "n1" "id")
authenticate-Admitted_example =
    authenticate-Admitted hashing store (some "Bearer dep_agent_c2VjcmV0") heartbeat_method
      (agent "n1" "id") agent_passes

passes :
    intercept hashing store (some "Bearer dep_agent_c2VjcmV0") heartbeat_method
    ≡ ok (some (agent "n1" "id"))
unfolding intercept is_public_method
passes = rw agent_passes refl

intercept-Admitted_example :
    (IsPublic heartbeat_method × (some (agent "n1" "id") ≡ none))
    ⊎ ((caller : Caller) × (raw : String) × (some (agent "n1" "id") ≡ some caller)
        × (bearer_token hashing store (some "Bearer dep_agent_c2VjcmV0") ≡ ok raw)
        × Admitted hashing store raw heartbeat_method caller)
intercept-Admitted_example =
    intercept-Admitted hashing store (some "Bearer dep_agent_c2VjcmV0") heartbeat_method
      (some (agent "n1" "id")) passes
