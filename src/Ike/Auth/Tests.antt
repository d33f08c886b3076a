-- ===== src/Ike/Auth/Tests.antt =====
-- The gateway of the tests of Context in the last round of IKE_AUTH, and the two ends of a child SA.
use n3iwf.Prelude.{ℕ, ◌+◌, ◌%◌, ◌^◌, ◌≡◌, refl, true, false, [], ◌∷◌, none, some, suc}
use n3iwf.Prelude.Map.{lookup}
use n3iwf.Prelude.Outcome.{ok, After}
use n3iwf.Sa.{IkeSa, ChildSa, empty_child_sa}
use n3iwf.Context.Children.{Host, done}
use n3iwf.Context.Tests.{ike_sa, gateway, countdown, key_with}
use n3iwf.Ike.Exchange.{AuthEnv, AuthRequest, auth_payload, cp_payload, no_payloads, parse_payloads}
use n3iwf.Ike.Auth.{handle_ike_auth}
use n3iwf.Ike.Auth.Guarded.{Guarded, handle_ike_auth-Guarded}
use n3iwf.Ike.Xfrm.{KernelAdd, outbound_state, outbound_policy, apply_xfrm_rule}
use n3iwf.Ike.Xfrm.Agree.{TakesRules, Rules, Ends, with_rules, turned, apply_xfrm_rule-Agree}

-- The kernel is the number of additions.
abbrev adding : KernelAdd ℕ
adding = record { xfrm_state_add = λ s k. some (suc k); xfrm_policy_add = λ p k. some (suc k) }

adding_takes : TakesRules adding
adding_takes = record { states = λ s k. (suc k, refl); policies = λ p k. (suc k, refl) }

abbrev one_end : ChildSa
one_end = record empty_child_sa {
  inbound_spi = 40;
  outbound_spi = 41;
  peer_public_ip_addr = 51;
  local_public_ip_addr = 50;
  traffic_selector_local = 9;
  traffic_selector_remote = 12;
  child_sa_key = some (key_with 3);
}

abbrev other_end : ChildSa
other_end = record empty_child_sa {
  inbound_spi = 41;
  outbound_spi = 40;
  peer_public_ip_addr = 50;
  local_public_ip_addr = 51;
  traffic_selector_local = 12;
  traffic_selector_remote = 9;
  child_sa_key = some (key_with 3);
}

both-Ends : Ends one_end other_end (key_with 3)
both-Ends = record {
  key_of_one = refl;
  key_of_other = refl;
  inward = refl;
  outward = refl;
  addresses = refl;
  addresses' = refl;
  selectors = refl;
  selectors' = refl;
  protocols = refl;
  plain = refl;
  plain' = refl;
}

apply_xfrm_rule-Agree_example :
    let so = outbound_state true 1 one_end (key_with 3) in
    let po = outbound_policy 1 one_end in
    let si = outbound_state false 1 other_end (key_with 3) in
    let pi = outbound_policy 1 other_end in
    (k' : ℕ) × (l' : ℕ) × (apply_xfrm_rule adding true 1 one_end 0
      ≡ ok ((with_rules true 1 (key_with 3) one_end, k'), done tt))
    × (apply_xfrm_rule adding false 1 other_end 7
        ≡ ok ((with_rules false 1 (key_with 3) other_end, l'), done tt))
    × Rules adding si (turned pi) so po 0 k'
    × Rules adding so (turned po) si pi 7 l'
apply_xfrm_rule-Agree_example =
    apply_xfrm_rule-Agree adding adding_takes true 1 one_end other_end (key_with 3) 0 7 both-Ends

-- The PRF puts its key before the data.
abbrev pub surroundings : AuthEnv ℕ ℕ
surroundings = record {
  encode_id = λ b. some (0 ∷ 0 ∷ 0 ∷ 0 ∷ b);
  prf_i = λ a b. some b;
  prf = λ a k b. some k;
  sign = λ b. b;
  new_child_sa_key = λ p. some (key_with 3);
  generate_key = λ a k. some k;
  pool = countdown;
  gateway_ip = 9;
  fuel = 2;
  resolves = λ ip. true;
  add = adding;
  xfrm_iface_id = 1;
  bind_addr = 50;
  ue_ip = λ c. 51;
  ue_port = λ c. 4500;
  ue_address = λ c. 51 ∷ [];
  carries_nas = λ b. true;
  n3iwf_port = λ c. 4500;
  sends = λ r. true;
}

abbrev last_round : IkeSa
last_round = record ike_sa { state = 2 }

abbrev waiting : Host ℕ ℕ ℕ
waiting = record { context = record gateway { ike_sas = (5, last_round) ∷ [] }; kernel = 0 }

-- A request of the UE for an address.
abbrev request : AuthRequest
request = record {
  initiator_spi = 800;
  responder_spi = 900;
  message_id = 3;
  payloads = auth_payload [] ∷ cp_payload (1 ∷ []) ∷ [];
}

handle_ike_auth-Guarded_example :
    After
      (Guarded surroundings 3 5 request
        (parse_payloads request.payloads no_payloads)
        (record last_round { initiator_message_id = (3 + 1) % 2 ^ 32 })
        waiting)
      (handle_ike_auth surroundings 3 5 request (some 60 ∷ []) none waiting)
unfolding lookup
handle_ike_auth-Guarded_example =
    handle_ike_auth-Guarded surroundings 3 5 request (some 60 ∷ []) none last_round waiting refl
