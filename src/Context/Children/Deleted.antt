-- ===== src/Context/Children/Deleted.antt =====
-- What Remove of an IKE UE leave, when netlink refuses nothing.
use n3iwf.Prelude.{All, ap, ℕ, ◌≡◌, refl, ◌∙◌, [], ◌∷◌, Option, none, some, arith}
use n3iwf.Prelude.Map.{Map, lookup, delete, lookup-delete, lookup-insert_self, lookup-delete_self}
use n3iwf.Prelude.Outcome.{ok, bind-some, bind-ok}
use n3iwf.Sa.{Link, ChildSa, IkeSa, IkeUe}
use n3iwf.Context.{delete_ike_ue}
use n3iwf.Context.Children.Uninstalled.{
  NeverRefuses, IsInstalled, without_child, with_ue, delete_child_sa-ok,
}
use n3iwf.Context.Children.{
  Kernel, Host, done, set_ike_ue, delete_children, delete_association, removed, remove_ike_ue,
}

-- The map without the child SAs of another.
abbrev pub minus : Map ChildSa → Map ChildSa → Map ChildSa
minus [] m = m
minus ((spi, c) ∷ cs) m = minus cs (delete c.inbound_spi m)

pub minus-none : (cs m : Map ChildSa) (j : ℕ) → lookup j m ≡ none → lookup j (minus cs m) ≡ none
minus-none [] m j e = e
minus-none ((spi, c) ∷ cs) m j e =
    minus-none cs (delete c.inbound_spi m) j (ground (arith, lookup-delete c.inbound_spi j m))

pub minus-All : (cs m : Map ChildSa) → All (λ x. lookup x.1.inbound_spi (minus cs m) ≡ none) cs
minus-All [] m = tt
minus-All ((spi, c) ∷ cs) m = (
  minus-none cs (delete c.inbound_spi m) c.inbound_spi (lookup-delete_self c.inbound_spi m),
  minus-All cs (delete c.inbound_spi m),
)

-- The host `h` with other kernel, interfaces and objects of IKE UEs, where the UE at `u` is `ue`.
pub record Cleared {S G K : Type 0} (u : ℕ) (ue : IkeUe) (h v : Host S G K) : Type 0 where
  pub ues : Map IkeUe
  pub ifaces : Map Link
  pub object : lookup u ues ≡ some ue
  pub rest : v.context ≡ record h.context { ike_ues = ues; xfrm_ifaces = ifaces }

module _ {S G K : Type 0} (netlink : Kernel K) (laws : NeverRefuses netlink) where
  delete_children-ok :
      (u : ℕ) (cs : Map ChildSa) (ue : IkeUe) (h : Host S G K)
      → lookup u h.context.ike_ues ≡ some ue
      → All (λ x. IsInstalled x.1) cs
      → (v : Host S G K) × (delete_children netlink u cs h ≡ ok (v, done tt))
        × Cleared u
            (record ue { child_security_association = minus cs ue.child_security_association })
            h
            v
  unfolding delete_children set_ike_ue
  delete_children-ok u [] ue h object i = (
    h,
    refl,
    record {
      ues = h.context.ike_ues;
      ifaces = h.context.xfrm_ifaces;
      object = object;
      rest = refl;
    },
  )
  delete_children-ok u ((spi, c) ∷ cs) ue h object (i, is) =
      let (k, ls, off, e) = delete_child_sa-ok netlink laws u c ue h object i in
      let rest = without_child c.inbound_spi ue in
      let (v, f, x) =
        delete_children-ok u cs rest (with_ue h u rest k ls)
          (lookup-insert_self u rest h.context.ike_ues) is in
      (
        v,
        bind-ok _ e ∙ f,
        record { ues = x.ues; ifaces = x.ifaces; object = x.object; rest = x.rest },
      )

  -- Remove of an IKE UE whose child SAs are all installed, when netlink refuses nothing and the
  -- address is released: it ends without an error. The IKE SA, the inner address and the IKE UE are out
  -- of the pools, and no child SA that the UE had is left in its map. The context still has their
  -- inbound SPIs in ChildSA.
  pub remove_ike_ue-Cleared :
      (release : Option ℕ → S → Option S) (u a ip : ℕ) (ue : IkeUe) (sa : IkeSa) (pool : S)
      (h : Host S G K)
      → lookup u h.context.ike_ues ≡ some ue
      → ue.ike_security_association ≡ some a
      → lookup a h.context.ike_sas ≡ some sa
      → ue.ipsec_inner_ip ≡ some ip
      → release (some ip) h.context.ipsec_inner_ip_pool ≡ some pool
      → All (λ x. IsInstalled x.1) ue.child_security_association
      → (v : Host S G K) × (after : IkeUe) × (remove_ike_ue netlink release u h ≡ ok (v, done tt))
        × (lookup u v.context.ike_ues ≡ some after)
        × All
            (λ x. lookup x.1.inbound_spi after.child_security_association ≡ none)
            ue.child_security_association
        × (lookup sa.local_spi v.context.ikesa ≡ none)
        × (lookup ip v.context.allocated_ue_ip_address ≡ none)
        × (lookup sa.local_spi v.context.ike_ue_pool ≡ none)
        × (v.context.child_sa ≡ h.context.child_sa)
  unfolding remove_ike_ue removed delete_association delete_ike_ue
  remove_ike_ue-Cleared release u a ip ue sa pool h object assoc sa_object inner released i =
      let spi = sa.local_spi in
      let w = delete_association spi (some ip) h.context in
      let start : Host S G K = record h { context = record w { ipsec_inner_ip_pool = pool } } in
      let (v, e, c) = delete_children-ok u ue.child_security_association ue start object i in
      let same = c.rest in
      (
        record v { context = delete_ike_ue spi v.context },
        record ue {
          child_security_association =
              minus ue.child_security_association ue.child_security_association;
        },
        bind-some _ object
            ∙ (bind-some _ assoc
                ∙ (bind-some _ sa_object
                    ∙ (ap
                          (λ o.
                            removed netlink release u ue o spi
                              (record h { context = delete_association spi o h.context }))
                          inner
                        ∙ rw (released, removed) (bind-ok _ e)))),
        ap (λ x. lookup u x.ike_ues) same ∙ c.object,
        minus-All ue.child_security_association ue.child_security_association,
        ap (λ x. lookup spi x.ikesa) same ∙ lookup-delete_self spi h.context.ikesa,
        ap (λ x. lookup ip x.allocated_ue_ip_address) same
            ∙ lookup-delete_self ip h.context.allocated_ue_ip_address,
        lookup-delete_self spi v.context.ike_ue_pool,
        ap (λ x. x.child_sa) same,
      )
