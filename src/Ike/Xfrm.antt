-- ===== src/Ike/Xfrm.antt =====
-- The rules that a child SA puts into the kernel: ApplyXFRMRule of internal/ike/xfrm/xfrm.go with the
-- names of the algorithms and getTruncateLength, and
-- parseIPAddressInformationToChildSecurityAssociation of internal/ike/handler.go.
--
-- The two states of a child SA share their XfrmStateAlgo objects: the keys of the second one are written
-- into them after the first state is stored, so that the stored state has those keys too. The modes, the
-- protocol ESP and the replay window, which are constants, are left out.
pub mod Agree
use n3iwf.Prelude.{
  ℕ, Bool, true, false, List, [], ◌∷◌, ◌++◌, Option, none, some, ◌==◌, not, if◌then◌else◌,
}
use n3iwf.Prelude.Bytes.{Bytes}
use n3iwf.Prelude.Outcome.{Outcome, ok, err, panic, out_of_fuel, ◌>>=◌, or_panic}
use n3iwf.Sa.{
  AlgName, cbc_des, cbc_des3_ede, cbc_cast5, cbc_blowfish, ecb_cipher_null, cbc_aes,
  rfc3686_ctr_aes, hmac_md5, hmac_sha1, xcbc_aes, hmac_sha256, unnamed, XfrmAlgo, XfrmState,
  XfrmPolicy, ChildSaKey, ChildSa,
}
use n3iwf.Context.{Go}
use n3iwf.Context.Children.{
  Result, done, failed, SaError, xfrm_state_failed, xfrm_policy_failed, attempt,
}

-- The additions of package netlink; none for an error.
pub record KernelAdd (K : Type 0) : Type 0 where
  pub xfrm_state_add : XfrmState → K → Option K
  pub xfrm_policy_add : XfrmPolicy → K → Option K

-- The String methods.
pub encryption_name : ℕ → AlgName
encryption_name id =
    if id == 2
    then cbc_des
    else if id == 3
    then cbc_des3_ede
    else if id == 6
    then cbc_cast5
    else if id == 7
    then cbc_blowfish
    else if id == 11
    then ecb_cipher_null
    else if id == 12
    then cbc_aes
    else if id == 13
    then rfc3686_ctr_aes
    else unnamed

pub integrity_name : ℕ → AlgName
integrity_name id =
    if id == 1
    then hmac_md5
    else if id == 2
    then hmac_sha1
    else if id == 5
    then xcbc_aes
    else if id == 12
    then hmac_sha256
    else unnamed

pub truncate_length : ℕ → ℕ
truncate_length id = if id == 12 then 128 else 96

-- The algorithms with the keys of one direction.
abbrev crypt_of : ChildSaKey → Bytes → XfrmAlgo
crypt_of k key = record { name = encryption_name k.encr_id; key = key; truncate_len = 0 }

abbrev auth_of : Option ℕ → Bytes → Option XfrmAlgo
auth_of none key = none
auth_of (some id) key =
    some (record { name = integrity_name id; key = key; truncate_len = truncate_length id })

-- The keys for what comes in, and for what goes out.
abbrev encryption_key : Bool → ChildSaKey → Bytes
encryption_key from_responder k =
    if from_responder then k.responder_encryption_key else k.initiator_encryption_key

abbrev integrity_key : Bool → ChildSaKey → Bytes
integrity_key from_responder k =
    if from_responder then k.responder_integrity_key else k.initiator_integrity_key

unfoldable pub inbound_state : Bool → ℕ → ChildSa → ChildSaKey → XfrmState
inbound_state n3iwf_is_initiator ifid c k = record {
  src = c.peer_public_ip_addr;
  dst = c.local_public_ip_addr;
  spi = c.inbound_spi;
  ifid = ifid;
  auth = auth_of k.integ_id (integrity_key n3iwf_is_initiator k);
  crypt = crypt_of k (encryption_key n3iwf_is_initiator k);
  needs_esn = k.need_esn;
  encap = none;
}

abbrev encap_of : Bool → ChildSa → Option (ℕ × ℕ)
encap_of true c = some (c.n3iwf_port, c.nat_port)
encap_of false c = none

unfoldable pub outbound_state : Bool → ℕ → ChildSa → ChildSaKey → XfrmState
outbound_state n3iwf_is_initiator ifid c k = record {
  src = c.local_public_ip_addr;
  dst = c.peer_public_ip_addr;
  spi = c.outbound_spi;
  ifid = ifid;
  auth = auth_of k.integ_id (integrity_key (not n3iwf_is_initiator) k);
  crypt = crypt_of k (encryption_key (not n3iwf_is_initiator) k);
  needs_esn = k.need_esn;
  encap = encap_of c.enable_encapsulate c;
}

unfoldable pub inbound_policy : ℕ → ChildSa → XfrmPolicy
inbound_policy ifid c = record {
  from = c.traffic_selector_remote;
  to = c.traffic_selector_local;
  proto = c.selected_ip_protocol;
  is_in = true;
  policy_ifid = ifid;
  tmpl_src = c.peer_public_ip_addr;
  tmpl_dst = c.local_public_ip_addr;
  tmpl_spi = c.inbound_spi;
}

unfoldable pub outbound_policy : ℕ → ChildSa → XfrmPolicy
outbound_policy ifid c = record {
  from = c.traffic_selector_local;
  to = c.traffic_selector_remote;
  proto = c.selected_ip_protocol;
  is_in = false;
  policy_ifid = ifid;
  tmpl_src = c.local_public_ip_addr;
  tmpl_dst = c.peer_public_ip_addr;
  tmpl_spi = c.outbound_spi;
}

-- The keys of `s` in the objects of the state that was stored last.
unfoldable pub rekey_last : XfrmState → List XfrmState → List XfrmState
rekey_last s [] = []
rekey_last s (t ∷ []) = record t { auth = s.auth; crypt = s.crypt } ∷ []
rekey_last s (t ∷ u ∷ ts) = t ∷ rekey_last s (u ∷ ts)

-- ApplyXFRMRule works on a child SA and on the kernel.
abbrev pub Applying : Type 0 → Type 0
Applying K = ChildSa × K

module _ {K : Type 0} (add : KernelAdd K) where
  add_state : XfrmState → Applying K → Applying K × Result SaError (Unit {0})
  add_state s (c, k) = elim (add.xfrm_state_add s k) [
    | none ↦ ((c, k), failed xfrm_state_failed)
    | some k' ↦ ((record c { xfrm_state_list = c.xfrm_state_list ++ s ∷ [] }, k'), done tt)
  ]

  add_policy : XfrmPolicy → Applying K → Applying K × Result SaError (Unit {0})
  add_policy p (c, k) = elim (add.xfrm_policy_add p k) [
    | none ↦ ((c, k), failed xfrm_policy_failed)
    | some k' ↦ ((record c { xfrm_policy_list = c.xfrm_policy_list ++ p ∷ [] }, k'), done tt)
  ]

  -- From the keys of the second state on.
  outgoing : XfrmState → XfrmPolicy → Applying K → Go (Applying K × Result SaError (Unit {0}))
  unfolding add_state add_policy rekey_last
  outgoing s p (c, k) =
      attempt (ok (add_state s (record c { xfrm_state_list = rekey_last s c.xfrm_state_list }, k)))
        (λ h _. ok (add_policy p h))

  unfoldable pub apply_xfrm_rule :
      Bool → ℕ → ChildSa → K → Go (Applying K × Result SaError (Unit {0}))
  unfolding outgoing inbound_state inbound_policy outbound_state outbound_policy
  apply_xfrm_rule n3iwf_is_initiator ifid c k = do
    key ← or_panic c.child_sa_key
    attempt (ok (add_state (inbound_state n3iwf_is_initiator ifid c key) (c, k))) (λ h _.
        attempt (ok (add_policy (inbound_policy ifid c) h)) (λ h _.
          outgoing (outbound_state n3iwf_is_initiator ifid c key) (outbound_policy ifid c) h))

-- parseIPAddressInformationToChildSecurityAssociation: the address of the UE, the address that the
-- gateway binds to, and the start addresses of the traffic selectors.
unfoldable pub parse_ip_address_information : ℕ → ℕ → ℕ → ℕ → ChildSa → ChildSa
parse_ip_address_information ue_public_ip bind_addr local remote c = record c {
  peer_public_ip_addr = ue_public_ip;
  local_public_ip_addr = bind_addr;
  traffic_selector_local = local;
  traffic_selector_remote = remote;
}
