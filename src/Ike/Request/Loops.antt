-- ===== src/Ike/Request/Loops.antt =====
-- The two loops of SendChildSADeleteRequest as one function of the map of child SAs, when netlink refuses
-- nothing.
use n3iwf.Prelude.{
  All, ap, sym, ℕ, ◌≤◌, ◌≡◌, refl, ◌∙◌, inl, inr, true, false, List, [], ◌∷◌, ◌++◌, append_assoc,
  append-nil, Option, none, some, ◌==◌, ltb, map, get_elem?, arith, Bool-cases,
}
use n3iwf.Prelude.Map.{Map, lookup, lookup-insert_self}
use n3iwf.Prelude.Outcome.{ok, bind-some, bind-ok}
use n3iwf.Sa.{XfrmState, ChildSa, IkeUe}
use n3iwf.Context.{N3iwf}
use n3iwf.Context.Children.{Kernel, Host, done, set_ike_ue}
use n3iwf.Context.Children.Deleted.{Cleared, minus}
use n3iwf.Context.Children.Uninstalled.{
  NeverRefuses, IsInstalled, without_child, with_ue, delete_child_sa-ok,
}
use n3iwf.Ike.Request.{delete_one, delete_session, delete_sessions}
use n3iwf.Ike.Request.Session.{is_id, for_session, matching, minus_keeps-All, without_session}

-- A child SA that can be deleted: it is installed, has a session, and the SPI of its first state is a
-- uint32.
abbrev pub IsDeletable : ℕ × ChildSa → Type 0
IsDeletable (spi, c) =
    IsInstalled c
    × ((id : ℕ) × (get_elem? c.pdu_session_ids 0 ≡ some id))
    × ((s : XfrmState) × (get_elem? c.xfrm_state_list 0 ≡ some s) × (s.spi ≤ 4294967295))

abbrev spi_of_state : Option XfrmState → ℕ
spi_of_state none = 0
spi_of_state (some s) = s.spi

-- The SPI in the first state of a child SA.
abbrev pub state_spi : ChildSa → ℕ
state_spi c = spi_of_state (get_elem? c.xfrm_state_list 0)

abbrev pub spis_of : Map ChildSa → List ℕ
spis_of cs = map (λ x. state_spi x.1) cs

abbrev pub with_children : IkeUe → Map ChildSa → IkeUe
with_children ue cs = record ue { child_security_association = cs }

-- What is left of a map after the sessions of the list, and the SPIs of the requests in it.
unfoldable pub purge : List ℕ → Map ChildSa → Map ChildSa
purge [] m = m
purge (id ∷ ids) m = purge ids (without_session id m)

unfoldable pub purged_spis : List ℕ → Map ChildSa → List ℕ
purged_spis [] m = []
purged_spis (id ∷ ids) m = spis_of (matching id m) ++ purged_spis ids (without_session id m)

module _ {S G K : Type 0} (netlink : Kernel K) (laws : NeverRefuses netlink) where
  delete_one-ok :
      (u i : ℕ) (c : ChildSa) (ue : IkeUe) (h : Host S G K)
      → lookup u h.context.ike_ues ≡ some ue
      → IsDeletable (i, c)
      → (k : K) × (ls : Map _) × (delete_one netlink u c h
          ≡ ok (with_ue h u (without_child c.inbound_spi ue) k ls, done (state_spi c)))
  unfolding delete_one
  delete_one-ok u i c ue h object (installed, (id, first), (s, state, bound)) =
      let (k, ls, off, e) = delete_child_sa-ok netlink laws u c ue h object installed in
      let small : ltb 4294967295 s.spi ≡ false = ground arith in
      (
        k,
        ls,
        bind-some _ state
            ∙ rw small (
                bind-ok _ e
                ∙ ap
                    (λ o.
                      ok (with_ue h u (without_child c.inbound_spi ue) k ls, done (spi_of_state o)))
                    (sym state)),
      )

  delete_session-ok :
      (u id : ℕ) (cs : Map ChildSa) (spis : List ℕ) (ue : IkeUe) (h : Host S G K)
      → lookup u h.context.ike_ues ≡ some ue
      → All IsDeletable cs
      → (v : Host S G K) × (delete_session netlink u id cs spis h
          ≡ ok (v, done (spis ++ spis_of (matching id cs))))
        × Cleared u (with_children ue (minus (matching id cs) ue.child_security_association)) h v
  unfolding delete_session matching set_ike_ue
  delete_session-ok u id [] spis ue h object i = (
    h,
    ap (λ x. ok (h, done x)) (sym (append-nil spis)),
    record {
      ues = h.context.ike_ues;
      ifaces = h.context.xfrm_ifaces;
      object = object;
      rest = refl;
    },
  )
  delete_session-ok u id ((i, c) ∷ cs) spis ue h object (d, ds) =
      let (k0, first) = d.1 in
      elim (Bool-cases (k0 == id)) [
        | inl b ↦
            let same : for_session id c ≡ true = ap (is_id id) first ∙ b in
            let (k, ls, e) = delete_one-ok u i c ue h object d in
            let rest = without_child c.inbound_spi ue in
            let (v, f, x) =
              delete_session-ok u id cs (spis ++ state_spi c ∷ []) rest (with_ue h u rest k ls)
                (lookup-insert_self u rest h.context.ike_ues) ds in
            let sent = append_assoc spis (state_spi c ∷ []) (spis_of (matching id cs)) in
            (
              v,
              bind-some _ first
                  ∙ rw (b, same, matching) (bind-ok _ e ∙ (f ∙ ap (λ x. ok (v, done x)) sent)),
              rw (same, matching)
                  (record { ues = x.ues; ifaces = x.ifaces; object = x.object; rest = x.rest }),
            )
        | inr b ↦
            let other : for_session id c ≡ false = ap (is_id id) first ∙ b in
            let (v, f, x) = delete_session-ok u id cs spis ue h object ds in
            (v, bind-some _ first ∙ rw (b, other, matching) f, rw (other, matching) x)
      ]

  pub delete_sessions-ok :
      (u : ℕ) (ids spis : List ℕ) (ue : IkeUe) (h : Host S G K)
      → lookup u h.context.ike_ues ≡ some ue
      → All IsDeletable ue.child_security_association
      → (v : Host S G K) × (delete_sessions netlink u ids spis h
          ≡ ok (v, done (spis ++ purged_spis ids ue.child_security_association)))
        × Cleared u (with_children ue (purge ids ue.child_security_association)) h v
  unfolding delete_sessions purged_spis purge
  delete_sessions-ok u [] spis ue h object i = (
    h,
    ap (λ x. ok (h, done x)) (sym (append-nil spis)),
    record {
      ues = h.context.ike_ues;
      ifaces = h.context.xfrm_ifaces;
      object = object;
      rest = refl;
    },
  )
  delete_sessions-ok u (id ∷ ids) spis ue h object i =
      let cs = ue.child_security_association in
      let (v, e, x) = delete_session-ok u id cs spis ue h object i in
      let (w, f, y) =
        delete_sessions-ok u ids (spis ++ spis_of (matching id cs))
          (with_children ue (without_session id cs)) v
          (ap (λ c. lookup u c.ike_ues) x.rest ∙ x.object)
          (minus_keeps-All IsDeletable (matching id cs) cs i) in
      (
        w,
        bind-some _ object
            ∙ (bind-ok _ e
                ∙ (f
                    ∙ ap (λ x. ok (w, done x))
                        (append_assoc spis (spis_of (matching id cs))
                          (purged_spis ids (without_session id cs))))),
        record {
          ues = y.ues;
          ifaces = y.ifaces;
          object = y.object;
          rest =
              y.rest
              ∙ ap {A = N3iwf S G} (λ c. record c { ike_ues = y.ues; xfrm_ifaces = y.ifaces })
                  x.rest;
        },
      )
