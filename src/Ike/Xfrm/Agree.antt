-- ===== src/Ike/Xfrm/Agree.antt =====
-- What ApplyXFRMRule gives to the kernels of the two ends of a child SA.
use n3iwf.Prelude.{
  ap, sym, ℕ, ◌≡◌, refl, ◌∙◌, Bool, true, false, not, List, [], ◌∷◌, ◌++◌, append_assoc, arith,
  some,
}
use n3iwf.Prelude.Outcome.{ok, bind-some}
use n3iwf.Sa.{XfrmState, XfrmPolicy, ChildSaKey, ChildSa}
use n3iwf.Context.{Go}
use n3iwf.Context.Children.{Result, done, SaError, attempt}
use n3iwf.Ike.Xfrm.{
  KernelAdd, inbound_state, outbound_state, inbound_policy, outbound_policy, rekey_last, add_state,
  add_policy, outgoing, apply_xfrm_rule, Applying,
}

-- The kernel takes any rule.
pub record TakesRules {K : Type 0} (add : KernelAdd K) : Type 0 where
  pub states : (s : XfrmState) (k : K) → (l : K) × (add.xfrm_state_add s k ≡ some l)
  pub policies : (p : XfrmPolicy) (k : K) → (l : K) × (add.xfrm_policy_add p k ≡ some l)

-- `m` is `k` with a state and a policy for each direction, in this order.
pub record Rules {K : Type 0} (add : KernelAdd K) (si : XfrmState) (pi : XfrmPolicy)
    (so : XfrmState) (po : XfrmPolicy) (k m : K) : Type 0 where
  pub one : K
  pub two : K
  pub three : K
  pub first : add.xfrm_state_add si k ≡ some one
  pub second : add.xfrm_policy_add pi one ≡ some two
  pub third : add.xfrm_state_add so two ≡ some three
  pub fourth : add.xfrm_policy_add po three ≡ some m

rekey_last-append :
    (s t : XfrmState) (l : List XfrmState)
    → rekey_last s (l ++ t ∷ []) ≡ l ++ record t { auth = s.auth; crypt = s.crypt } ∷ []
unfolding rekey_last
rekey_last-append s t [] = refl
rekey_last-append s t (u ∷ []) = refl
rekey_last-append s t (u ∷ v ∷ l) = ap (λ x. u ∷ x) (rekey_last-append s t (v ∷ l))

module _ {K : Type 0} (add : KernelAdd K) where
  outgoing-ok :
      (so : XfrmState) (po : XfrmPolicy) (c : ChildSa) (k l m : K)
      → add.xfrm_state_add so k ≡ some l
      → add.xfrm_policy_add po l ≡ some m
      → outgoing add so po (c, k)
        ≡ ok (
          (
            record c {
              xfrm_state_list = rekey_last so c.xfrm_state_list ++ so ∷ [];
              xfrm_policy_list = c.xfrm_policy_list ++ po ∷ [];
            },
            m,
          ),
          done tt,
        )
  unfolding outgoing
  outgoing-ok so po c k l m e f = rw (e, add_state, f, add_policy) refl

-- The child SA with both states and both policies in its lists.
abbrev pub with_rules : Bool → ℕ → ChildSaKey → ChildSa → ChildSa
with_rules role ifid key c =
    let so = outbound_state role ifid c key in
    record c {
      xfrm_state_list =
          c.xfrm_state_list
          ++ (record (inbound_state role ifid c key) { auth = so.auth; crypt = so.crypt }
              ∷ so
              ∷ []);
      xfrm_policy_list =
          c.xfrm_policy_list ++ (inbound_policy ifid c ∷ outbound_policy ifid c ∷ []);
    }

-- A step that goes well hands its state on.
attempt-done :
    {H A B : Type 0} {x : H × Result SaError A} {h : H} {a : A}
    (k : H → A → Go (H × Result SaError B))
    → x ≡ (h, done a)
    → attempt (ok x) k ≡ k h a
attempt-done k e = ap (λ x. attempt (ok x) k) e

module _ {K : Type 0} (add : KernelAdd K) where
  add_state-ok :
      (s : XfrmState) (c : ChildSa) (k l : K)
      → add.xfrm_state_add s k ≡ some l
      → add_state add s (c, k)
        ≡ ((record c { xfrm_state_list = c.xfrm_state_list ++ s ∷ [] }, l), done tt)
  unfolding add_state
  add_state-ok s c k l e = rw (e, add_state) refl

  add_policy-ok :
      (p : XfrmPolicy) (c : ChildSa) (k l : K)
      → add.xfrm_policy_add p k ≡ some l
      → add_policy add p (c, k)
        ≡ ((record c { xfrm_policy_list = c.xfrm_policy_list ++ p ∷ [] }, l), done tt)
  unfolding add_policy
  add_policy-ok p c k l e = rw (e, add_policy) refl

pub apply_xfrm_rule-Rules :
    {K : Type 0} (add : KernelAdd K)
    → TakesRules add
    → (role : Bool) (ifid : ℕ) (c : ChildSa) (key : ChildSaKey) (k : K) → c.child_sa_key ≡ some key
    → (m : K) × (apply_xfrm_rule add role ifid c k ≡ ok ((with_rules role ifid key c, m), done tt))
      × Rules add
          (inbound_state role ifid c key)
          (inbound_policy ifid c)
          (outbound_state role ifid c key)
          (outbound_policy ifid c)
          k
          m
unfolding apply_xfrm_rule
apply_xfrm_rule-Rules {K} add takes role ifid c key k e =
    let si = inbound_state role ifid c key in
    let so = outbound_state role ifid c key in
    let (k1, e1) = takes.states si k in
    let (k2, e2) = takes.policies (inbound_policy ifid c) k1 in
    let (k3, e3) = takes.states so k2 in
    let (k4, e4) = takes.policies (outbound_policy ifid c) k3 in
    let si' = record si { auth = so.auth; crypt = so.crypt } in
    let stored = c.xfrm_state_list ++ si ∷ [] in
    let policies = c.xfrm_policy_list ++ inbound_policy ifid c ∷ [] in
    let c1 = record c { xfrm_state_list = stored } in
    let c2 = record c1 { xfrm_policy_list = policies } in
    let run =
      bind-some _ e
      ∙ (attempt-done _ (add_state-ok add si c k k1 e1)
          ∙ (attempt-done _ (add_policy-ok add (inbound_policy ifid c) c1 k1 k2 e2)
              ∙ outgoing-ok add so (outbound_policy ifid c) c2 k2 k3 k4 e3 e4)) in
    let states : rekey_last so stored ++ so ∷ [] ≡ c.xfrm_state_list ++ (si' ∷ so ∷ []) =
      ap (λ l. l ++ so ∷ []) (rekey_last-append so si c.xfrm_state_list)
      ∙ append_assoc c.xfrm_state_list (si' ∷ []) (so ∷ []) in
    let listed =
      append_assoc c.xfrm_policy_list (inbound_policy ifid c ∷ []) (outbound_policy ifid c ∷ []) in
    let finished : List XfrmState → List XfrmPolicy → Go (Applying K × Result SaError (Unit {0})) =
      λ l m. ok ((record c { xfrm_state_list = l; xfrm_policy_list = m }, k4), done tt) in
    let all = policies ++ outbound_policy ifid c ∷ [] in
    (
      k4,
      run
          ∙ (ap (λ l. finished l all) states
              ∙ ap (λ m. finished (c.xfrm_state_list ++ (si' ∷ so ∷ [])) m) listed),
      record { one = k1; two = k2; three = k3; first = e1; second = e2; third = e3; fourth = e4 },
    )

-- The two ends of a child SA: what one sends is what the other gets, and no NAT is between them.
pub record Ends (c d : ChildSa) (key : ChildSaKey) : Type 0 where
  pub key_of_one : c.child_sa_key ≡ some key
  pub key_of_other : d.child_sa_key ≡ some key
  pub inward : c.inbound_spi ≡ d.outbound_spi
  pub outward : c.outbound_spi ≡ d.inbound_spi
  pub addresses : c.peer_public_ip_addr ≡ d.local_public_ip_addr
  pub addresses' : c.local_public_ip_addr ≡ d.peer_public_ip_addr
  pub selectors : c.traffic_selector_remote ≡ d.traffic_selector_local
  pub selectors' : c.traffic_selector_local ≡ d.traffic_selector_remote
  pub protocols : c.selected_ip_protocol ≡ d.selected_ip_protocol
  pub plain : c.enable_encapsulate ≡ false
  pub plain' : d.enable_encapsulate ≡ false

abbrev pub turned : XfrmPolicy → XfrmPolicy
turned p = record p { is_in = not p.is_in }

-- What one end takes in is what the other sends out.
states_agree :
    (role : Bool) (ifid : ℕ) (c d : ChildSa) (key : ChildSaKey)
    → Ends c d key
    → inbound_state (not role) ifid d key ≡ outbound_state role ifid c key
unfolding inbound_state outbound_state
states_agree true ifid c d key e = ground arith
states_agree false ifid c d key e = ground arith

incoming_agree :
    (role : Bool) (ifid : ℕ) (c d : ChildSa) (key : ChildSaKey)
    → Ends d c key
    → inbound_state role ifid c key ≡ outbound_state (not role) ifid d key
incoming_agree true ifid c d key e = states_agree false ifid d c key e
incoming_agree false ifid c d key e = states_agree true ifid d c key e

policies_agree :
    (ifid : ℕ) (c d : ChildSa) (key : ChildSaKey)
    → Ends c d key
    → inbound_policy ifid d ≡ turned (outbound_policy ifid c)
unfolding inbound_policy outbound_policy
policies_agree ifid c d key e = ground arith

Ends-sym : (c d : ChildSa) (key : ChildSaKey) → Ends c d key → Ends d c key
Ends-sym c d key e = record {
  key_of_one = e.key_of_other;
  key_of_other = e.key_of_one;
  inward = sym e.outward;
  outward = sym e.inward;
  addresses = sym e.addresses';
  addresses' = sym e.addresses;
  selectors = sym e.selectors';
  selectors' = sym e.selectors;
  protocols = sym e.protocols;
  plain = e.plain';
  plain' = e.plain;
}

-- Two gateways are the ends of a child SA, one as its initiator and the other as its responder, with
-- one key and without a NAT between them, and their kernels take any rule. ApplyXFRMRule at each end
-- ends without an error, and gives its kernel a state and a policy for what comes in and then for what
-- goes out. What comes in at one end is what goes out at the other: the same state, with its SPI,
-- addresses, algorithms and keys, and the same policy in the other direction.
pub apply_xfrm_rule-Agree :
    {K : Type 0} (add : KernelAdd K)
    → TakesRules add
    → (role : Bool) (ifid : ℕ) (c d : ChildSa) (key : ChildSaKey) (k l : K) → Ends c d key
    → let so = outbound_state role ifid c key in
      let po = outbound_policy ifid c in
      let si = outbound_state (not role) ifid d key in
      let pi = outbound_policy ifid d in
      (k' : K) × (l' : K) × (apply_xfrm_rule add role ifid c k
        ≡ ok ((with_rules role ifid key c, k'), done tt))
      × (apply_xfrm_rule add (not role) ifid d l
          ≡ ok ((with_rules (not role) ifid key d, l'), done tt))
      × Rules add si (turned pi) so po k k'
      × Rules add so (turned po) si pi l l'
apply_xfrm_rule-Agree {K} add takes role ifid c d key k l e =
    let (k', run, rules) = apply_xfrm_rule-Rules add takes role ifid c key k e.key_of_one in
    let (l', run', rules') =
      apply_xfrm_rule-Rules add takes (not role) ifid d key l e.key_of_other in
    let back = Ends-sym c d key e in
    (
      k',
      l',
      run,
      run',
      rw (sym (incoming_agree role ifid c d key back), sym (policies_agree ifid d c key back))
          rules,
      rw (sym (states_agree role ifid c d key e), sym (policies_agree ifid c d key e)) rules',
    )
