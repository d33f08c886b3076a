-- ===== src/Context/Children.antt =====
-- The child SAs of an IKE UE, in internal/context/ikeue.go: DeleteChildSAXfrm, DeleteChildSA,
-- CompleteChildSA and Remove.
--
-- The kernel is a state of type K, which the calls of netlink change. A Go function that returns an
-- error has the state after it and a `Result`, since what it did before the error stays done. Each map
-- of child SAs is keyed by the inbound SPI of its entries, and a range over it goes through the entries
-- that it has at the start. The signal to the goroutine of dead peer detection is left
-- out, and so are the two lists that DeleteChildSAXfrm sets to nil in a child SA that is dropped next.
pub mod Associations
pub mod Complete
pub mod Deleted
pub mod Uninstalled
use n3iwf.Prelude.{ℕ, List, [], ◌∷◌, Option, none, some, ltb, if◌then◌else◌}
use n3iwf.Prelude.Bytes.{Bytes, bytes_equal}
use n3iwf.Prelude.Map.{Map, lookup, delete, insert}
use n3iwf.Prelude.Outcome.{Outcome, ok, err, panic, out_of_fuel, ◌>>=◌, index, or_panic}
use n3iwf.Sa.{XfrmState, XfrmPolicy, ChildSaKey, Link, ChildSa, IkeUe, xfrmi_default}
use n3iwf.Context.{IpPool, N3iwf, Go, delete_ike_ue}

-- The deletions of package netlink; none for an error.
pub record Kernel (K : Type 0) : Type 0 where
  pub xfrm_state_del : XfrmState → K → Option K
  pub xfrm_policy_del : XfrmPolicy → K → Option K
  pub link_del : Link → K → Option K

pub record Host (S G K : Type 0) : Type 0 where
  pub context : N3iwf S G
  pub kernel : K

pub data SaError : Type 0 where
  xfrm_state_failed xfrm_policy_failed link_failed ifid_range release_failed : SaError
  no_half_child_sa no_security_association no_proposal no_key no_pdu_session_id : SaError
  no_ran_ue_ngap_id unexpected_protocol no_ike_ue spi_range : SaError

pub data Result {ℓ} (E : Type 0) (A : Type ℓ) : Type ℓ where
  done : A → Result E A
  failed : E → Result E A

module _ {E H A B : Type 0} where
  abbrev on_done : H → Result E A → (H → A → Go (H × Result E B)) → Go (H × Result E B)
  on_done h (done a) k = k h a
  on_done h (failed e) k = ok (h, failed e)

  -- `if err != nil { return err }` after a call
  abbrev pub attempt : Go (H × Result E A) → (H → A → Go (H × Result E B)) → Go (H × Result E B)
  attempt m k = m >>= λ r. on_done r.0 r.1 k

module _ {S G K : Type 0} where
  -- An assignment through the pointer `u` to an IKE UE.
  unfoldable pub set_ike_ue : ℕ → IkeUe → Host S G K → Host S G K
  set_ike_ue u ue h = record h {
    context = record h.context { ike_ues = insert u ue h.context.ike_ues };
  }

module _ {S G : Type 0} where
  -- The IKE SA and the inner address are taken out of their maps.
  unfoldable pub delete_association : ℕ → Option ℕ → N3iwf S G → N3iwf S G
  delete_association spi none w = record w { ikesa = delete spi w.ikesa }
  delete_association spi (some ip) w = record w {
    ikesa = delete spi w.ikesa;
    allocated_ue_ip_address = delete ip w.allocated_ue_ip_address;
  }

module _ {S G K : Type 0} (netlink : Kernel K) where
  delete_states : List XfrmState → Host S G K → Host S G K × Result SaError (Unit {0})
  delete_states [] h = (h, done tt)
  delete_states (s ∷ ss) h = elim (netlink.xfrm_state_del s h.kernel) [
    | none ↦ (h, failed xfrm_state_failed)
    | some k ↦ delete_states ss (record h { kernel = k })
  ]

  delete_policies : List XfrmPolicy → Host S G K → Host S G K × Result SaError (Unit {0})
  delete_policies [] h = (h, done tt)
  delete_policies (p ∷ ps) h = elim (netlink.xfrm_policy_del p h.kernel) [
    | none ↦ (h, failed xfrm_policy_failed)
    | some k ↦ delete_policies ps (record h { kernel = k })
  ]

  -- The entry of the deleted interface, by the ID in the first state.
  forget_link : ChildSa → Host S G K → Go (Host S G K × Result SaError (Unit {0}))
  forget_link c h = do
    s ← index c.xfrm_state_list 0
    if ltb 4294967295 s.ifid
        then ok (h, failed ifid_range)
        else ok (
          record h {
            context = record h.context { xfrm_ifaces = delete s.ifid h.context.xfrm_ifaces };
          },
          done tt,
        )

  delete_link : ChildSa → Option Link → Host S G K → Go (Host S G K × Result SaError (Unit {0}))
  unfolding forget_link
  delete_link c none h = ok (h, done tt)
  delete_link c (some link) h =
      if bytes_equal link.name xfrmi_default
      then ok (h, done tt)
      else elim (netlink.link_del link h.kernel) [
        | none ↦ ok (h, failed link_failed)
        | some k ↦ forget_link c (record h { kernel = k })
      ]

  unfoldable pub delete_child_sa_xfrm :
      ChildSa → Host S G K → Go (Host S G K × Result SaError (Unit {0}))
  unfolding delete_states delete_policies delete_link
  delete_child_sa_xfrm c h = attempt (ok (delete_states c.xfrm_state_list h)) (λ h _.
      attempt (ok (delete_policies c.xfrm_policy_list h)) (λ h _. delete_link c c.xfrm_iface h))

  drop_child : ℕ → ℕ → Host S G K → Go (Host S G K × Result SaError (Unit {0}))
  drop_child u spi h = do
    ue ← or_panic (lookup u h.context.ike_ues)
    ok (
      set_ike_ue u
          (record ue { child_security_association = delete spi ue.child_security_association }) h,
      done tt,
    )

  -- DeleteChildSA on the UE at `u`.
  unfoldable pub delete_child_sa :
      ℕ → ChildSa → Host S G K → Go (Host S G K × Result SaError (Unit {0}))
  unfolding drop_child
  delete_child_sa u c h = attempt (delete_child_sa_xfrm c h) (λ h _. drop_child u c.inbound_spi h)

  pub delete_children : ℕ → Map ChildSa → Host S G K → Go (Host S G K × Result SaError (Unit {0}))
  delete_children u [] h = ok (h, done tt)
  delete_children u ((spi, c) ∷ cs) h =
      attempt (delete_child_sa u c h) (λ h _. delete_children u cs h)

  -- From the release of the address on.
  removed :
      (Option ℕ → S → Option S)
      → ℕ
      → IkeUe
      → Option ℕ
      → ℕ
      → Host S G K
      → Go (Host S G K × Result SaError (Unit {0}))
  unfolding delete_children
  removed release u ue ip spi h = elim (release ip h.context.ipsec_inner_ip_pool) [
    | none ↦ ok (h, failed release_failed)
    | some pool ↦
        attempt
          (delete_children u ue.child_security_association
            (record h { context = record h.context { ipsec_inner_ip_pool = pool } }))
          (λ h _. ok (record h { context = delete_ike_ue spi h.context }, done tt))
  ]

  -- Remove of the IKE UE at `u`. `release` is Release of the pool of inner addresses.
  unfoldable pub remove_ike_ue :
      (Option ℕ → S → Option S) → ℕ → Host S G K → Go (Host S G K × Result SaError (Unit {0}))
  unfolding removed
  remove_ike_ue release u h = do
    ue ← or_panic (lookup u h.context.ike_ues)
    a ← or_panic ue.ike_security_association
    sa ← or_panic (lookup a h.context.ike_sas)
    removed release u ue ue.ipsec_inner_ip sa.local_spi
        (record h { context = delete_association sa.local_spi ue.ipsec_inner_ip h.context })

module _ {S G K P : Type 0} (new_child_sa_key : P → Option ChildSaKey) where
  keyed : ℕ → IkeUe → ChildSa → Host S G K → Option ChildSaKey → Host S G K × Result SaError ChildSa
  keyed u ue c h none = (h, failed no_key)
  keyed u ue c h (some key) =
      let c = record c { child_sa_key = some key } in
      let h =
        set_ike_ue u
          (record ue {
            child_security_association = insert c.inbound_spi c ue.child_security_association;
          })
          h in
      (
        record h { context = record h.context { child_sa = c.inbound_spi ∷ h.context.child_sa } },
        done c,
      )

  chosen :
      ℕ → ℕ → IkeUe → ChildSa → Host S G K → Option (List P) → Host S G K × Result SaError ChildSa
  unfolding keyed
  chosen u outbound_spi ue c h none = (h, failed no_security_association)
  chosen u outbound_spi ue c h (some []) = (h, failed no_proposal)
  chosen u outbound_spi ue c h (some (p ∷ ps)) =
      keyed u ue (record c { outbound_spi = outbound_spi }) h (new_child_sa_key p)

  completed :
      ℕ
      → ℕ
      → ℕ
      → Option (List P)
      → IkeUe
      → Host S G K
      → Option ChildSa
      → Host S G K × Result SaError ChildSa
  unfolding chosen
  completed u msg_id outbound_spi proposals ue h none = (h, failed no_half_child_sa)
  completed u msg_id outbound_spi proposals ue h (some c) =
      let ue = record ue { temporary_exchange = delete msg_id ue.temporary_exchange } in
      chosen u outbound_spi ue c (set_ike_ue u ue h) proposals

  -- CompleteChildSA on the UE at `u`. The security association is its list of proposals.
  unfoldable pub complete_child_sa :
      ℕ → ℕ → ℕ → Option (List P) → Host S G K → Go (Host S G K × Result SaError ChildSa)
  unfolding completed
  complete_child_sa u msg_id outbound_spi proposals h = do
    ue ← or_panic (lookup u h.context.ike_ues)
    ok (completed u msg_id outbound_spi proposals ue h (lookup msg_id ue.temporary_exchange))
