-- ===== src/Context/Children/Uninstalled.antt =====
-- What DeleteChildSA leaves, in the kernel and in the UE, when netlink refuses nothing.
use n3iwf.Prelude.{
  ◌≢◌, ap, sym, some-injective, false, ℕ, ◌≤◌, ◌≡◌, refl, ◌∙◌, inl, inr, true, List, [], ◌∷◌,
  Option, none, some, get_elem?, arith, Bool-cases, ltb,
}
use n3iwf.Prelude.Bytes.{bytes_equal, bytes_equal→eq, bytes_equal_self}
use n3iwf.Prelude.Map.{Map, lookup, delete}
use n3iwf.Prelude.Outcome.{ok, bind-some, bind-ok}
use n3iwf.Sa.{XfrmState, XfrmPolicy, Link, ChildSa, IkeUe, xfrmi_default}
use n3iwf.Context.Children.{
  Kernel, Host, done, set_ike_ue, delete_states, delete_policies, forget_link, delete_link,
  delete_child_sa_xfrm, drop_child, delete_child_sa,
}

-- netlink deletes what it is asked to.
pub record NeverRefuses {K : Type 0} (netlink : Kernel K) : Type 0 where
  pub states : (s : XfrmState) (k : K) → (l : K) × (netlink.xfrm_state_del s k ≡ some l)
  pub policies : (p : XfrmPolicy) (k : K) → (l : K) × (netlink.xfrm_policy_del p k ≡ some l)
  pub links : (i : Link) (k : K) → (l : K) × (netlink.link_del i k ≡ some l)

-- A child SA without an interface of its own, or with one and a state whose interface ID is a uint32.
pub data IsInstalled (c : ChildSa) : Type 0 where
  no_interface : c.xfrm_iface ≡ none → IsInstalled c
  shared :
      (l : Link) → c.xfrm_iface ≡ some l → bytes_equal l.name xfrmi_default ≡ true → IsInstalled c
  own :
      (s : XfrmState) → get_elem? c.xfrm_state_list 0 ≡ some s → s.ifid ≤ 4294967295 → IsInstalled c

abbrev pub without_child : ℕ → IkeUe → IkeUe
without_child spi ue = record ue {
  child_security_association = delete spi ue.child_security_association;
}

module _ {S G K : Type 0} where
  -- The host with another kernel and other interfaces.
  abbrev pub with_links : Host S G K → K → Map Link → Host S G K
  with_links h k ls = record h { context = record h.context { xfrm_ifaces = ls }; kernel = k }

  -- The host in which the UE at `u` is `ue`, with another kernel and other interfaces.
  abbrev pub with_ue : Host S G K → ℕ → IkeUe → K → Map Link → Host S G K
  with_ue h u ue k ls = set_ike_ue u ue (with_links h k ls)

module _ {K : Type 0} (netlink : Kernel K) where
  -- netlink has deleted the states of the list, one after the other, between the two kernels.
  pub data StatesDeleted : List XfrmState → K → K → Type 0 where
    no_states : {k : K} → StatesDeleted [] k k
    state_deleted :
        {s : XfrmState} {ss : List XfrmState} {k m : K} (l : K)
        → netlink.xfrm_state_del s k ≡ some l
        → StatesDeleted ss l m
        → StatesDeleted (s ∷ ss) k m

  pub data PoliciesDeleted : List XfrmPolicy → K → K → Type 0 where
    no_policies : {k : K} → PoliciesDeleted [] k k
    policy_deleted :
        {p : XfrmPolicy} {ps : List XfrmPolicy} {k m : K} (l : K)
        → netlink.xfrm_policy_del p k ≡ some l
        → PoliciesDeleted ps l m
        → PoliciesDeleted (p ∷ ps) k m

  -- The interface is deleted, unless it is the default one that the child SAs share.
  pub data LinkDeleted : Option Link → K → K → Type 0 where
    no_link : {k : K} → LinkDeleted none k k
    shared_link : {l : Link} {k : K} → l.name ≡ xfrmi_default → LinkDeleted (some l) k k
    link_deleted :
        {l : Link} {k m : K}
        → l.name ≢ xfrmi_default
        → netlink.link_del l k ≡ some m
        → LinkDeleted (some l) k m

  -- The states, the policies and the interface of the child SA are out of the kernel.
  pub record Uninstalled (c : ChildSa) (k n : K) : Type 0 where
    pub without_states : K
    pub without_policies : K
    pub states : StatesDeleted c.xfrm_state_list k without_states
    pub policies : PoliciesDeleted c.xfrm_policy_list without_states without_policies
    pub link : LinkDeleted c.xfrm_iface without_policies n

ne_default : (l : Link) → bytes_equal l.name xfrmi_default ≡ false → l.name ≢ xfrmi_default
ne_default l b e =
    ground
      (arith, sym (ap (λ n. bytes_equal n xfrmi_default) e ∙ bytes_equal_self xfrmi_default) ∙ b)

module _ {S G K : Type 0} (netlink : Kernel K) (laws : NeverRefuses netlink) where
  delete_states-ok :
      (ss : List XfrmState) (h : Host S G K)
      → (k : K) × StatesDeleted netlink ss h.kernel k
        × (delete_states netlink ss h ≡ (record h { kernel = k }, done tt))
  unfolding delete_states
  delete_states-ok [] h = (h.kernel, no_states, refl)
  delete_states-ok (s ∷ ss) h =
      let (l, e) = laws.states s h.kernel in
      let (k, d, r) = delete_states-ok ss (record h { kernel = l }) in
      (k, state_deleted l e d, rw (e, delete_states) r)

  delete_policies-ok :
      (ps : List XfrmPolicy) (h : Host S G K)
      → (k : K) × PoliciesDeleted netlink ps h.kernel k
        × (delete_policies netlink ps h ≡ (record h { kernel = k }, done tt))
  unfolding delete_policies
  delete_policies-ok [] h = (h.kernel, no_policies, refl)
  delete_policies-ok (p ∷ ps) h =
      let (l, e) = laws.policies p h.kernel in
      let (k, d, r) = delete_policies-ok ps (record h { kernel = l }) in
      (k, policy_deleted l e d, rw (e, delete_policies) r)

  own_link-ok :
      (c : ChildSa) (l : Link) (s : XfrmState) (h : Host S G K)
      → bytes_equal l.name xfrmi_default ≡ false
      → get_elem? c.xfrm_state_list 0 ≡ some s
      → s.ifid ≤ 4294967295
      → (k : K) × (ls : Map Link) × LinkDeleted netlink (some l) h.kernel k
        × (delete_link netlink c (some l) h ≡ ok (with_links h k ls, done tt))
  unfolding delete_link forget_link
  own_link-ok c l s h b first bound =
      let (k, e) = laws.links l h.kernel in
      let small : ltb 4294967295 s.ifid ≡ false = ground arith in
      (
        k,
        delete s.ifid h.context.xfrm_ifaces,
        link_deleted (ne_default l b) e,
        rw (b, e) (bind-some _ first ∙ rw small refl),
      )

  delete_own :
      (c : ChildSa) (l : Link) (h : Host S G K)
      → c.xfrm_iface ≡ some l
      → bytes_equal l.name xfrmi_default ≡ false
      → IsInstalled c
      → (k : K) × (ls : Map Link) × LinkDeleted netlink (some l) h.kernel k
        × (delete_link netlink c (some l) h ≡ ok (with_links h k ls, done tt))
  delete_own c l h e b (no_interface n) = absurd (ground arith)
  delete_own c l h e b (shared m f d) =
      let same : l ≡ m = some-injective (sym e ∙ f) in
      absurd (ground (arith, ap (λ x. bytes_equal x.name xfrmi_default) same))
  delete_own c l h e b (own s first bound) = own_link-ok c l s h b first bound

  delete_link-ok :
      (c : ChildSa) (o : Option Link) (h : Host S G K)
      → c.xfrm_iface ≡ o
      → IsInstalled c
      → (k : K) × (ls : Map Link) × LinkDeleted netlink o h.kernel k
        × (delete_link netlink c o h ≡ ok (with_links h k ls, done tt))
  unfolding delete_link forget_link
  delete_link-ok c none h e i = (h.kernel, h.context.xfrm_ifaces, no_link, refl)
  delete_link-ok c (some l) h e i = elim (Bool-cases (bytes_equal l.name xfrmi_default)) [
    | inl b ↦ (
      h.kernel,
      h.context.xfrm_ifaces,
      shared_link (bytes_equal→eq l.name xfrmi_default b),
      rw b refl,
    )
    | inr b ↦ delete_own c l h e b i
  ]

  delete_child_sa_xfrm-ok :
      (c : ChildSa) (h : Host S G K)
      → IsInstalled c
      → (k : K) × (ls : Map Link) × Uninstalled netlink c h.kernel k
        × (delete_child_sa_xfrm netlink c h ≡ ok (with_links h k ls, done tt))
  unfolding delete_child_sa_xfrm
  delete_child_sa_xfrm-ok c h i =
      let (k, x, e) = delete_states-ok c.xfrm_state_list h in
      let (l, y, f) = delete_policies-ok c.xfrm_policy_list (record h { kernel = k }) in
      let (m, ls, z, g) = delete_link-ok c c.xfrm_iface (record h { kernel = l }) refl i in
      (
        m,
        ls,
        record { without_states = k; without_policies = l; states = x; policies = y; link = z },
        rw (e, f) g,
      )

  pub delete_child_sa-ok :
      (u : ℕ) (c : ChildSa) (ue : IkeUe) (h : Host S G K)
      → lookup u h.context.ike_ues ≡ some ue
      → IsInstalled c
      → (k : K) × (ls : Map Link) × Uninstalled netlink c h.kernel k
        × (delete_child_sa netlink u c h
            ≡ ok (with_ue h u (without_child c.inbound_spi ue) k ls, done tt))
  unfolding delete_child_sa drop_child
  delete_child_sa-ok u c ue h object i =
      let (k, ls, off, e) = delete_child_sa_xfrm-ok c h i in
      (k, ls, off, bind-ok _ e ∙ bind-some _ object)
