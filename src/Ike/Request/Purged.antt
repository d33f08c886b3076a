-- ===== src/Ike/Request/Purged.antt =====
-- What HandleSendChildSADeleteRequest deletes and asks for, when netlink refuses nothing.
use n3iwf.Prelude.{
  All, In, at_head, further, weaken-All, All-map, All-append, In-map, In-append_left,
  In-append_right, ap, ℕ, ◌%◌, ◌^◌, ◌≡◌, refl, ◌∙◌, inl, inr, true, false, List, [], ◌∷◌, ◌++◌,
  Option, none, some, ==_iff, ==_self, length, get_elem?, arith, Bool-cases,
}
use n3iwf.Prelude.Map.{Map, lookup, delete, lookup-delete}
use n3iwf.Prelude.Outcome.{ok, bind-ok}
use n3iwf.Sa.{ChildSa, IkeUe, IkeSa}
use n3iwf.Context.Children.{Kernel, Host}
use n3iwf.Context.Children.Deleted.{minus, minus-none}
use n3iwf.Context.Children.Uninstalled.{NeverRefuses}
use n3iwf.Ike.Delete.Outbound.{IsKeyed}
use n3iwf.Ike.Request.{requested, send_child_sa_delete_request, handle_send_child_sa_delete_request}
use n3iwf.Ike.Request.Removed.{delete_request, send_delete-ok}
use n3iwf.Ike.Request.Session.{
  is_id, for_session, matching, matching-found, matching-In, minus-IsKeyed, without_session,
  without_session-gone, without_session-kept,
}
use n3iwf.Ike.Request.Loops.{
  IsDeletable, state_spi, spis_of, purge, purged_spis, with_children, delete_sessions-ok,
}

-- The first session of the child SA is in the list.
abbrev pub IsRequested : List ℕ → ChildSa → Type 0
IsRequested ids c = (id : ℕ) × In id ids × (get_elem? c.pdu_session_ids 0 ≡ some id)

-- The map `ds` is `cs` without the child SAs that are requested, and `spis` are theirs.
pub record Purged (cs : Map ChildSa) (ids spis : List ℕ) (ds : Map ChildSa) : Type 0 where
  pub gone :
      (c : ChildSa)
      → lookup c.inbound_spi cs ≡ some c
      → IsRequested ids c
      → lookup c.inbound_spi ds ≡ none
  pub kept :
      (c : ChildSa)
      → lookup c.inbound_spi cs ≡ some c
      → ¬ IsRequested ids c
      → lookup c.inbound_spi ds ≡ some c
  pub absent : (j : ℕ) → lookup j cs ≡ none → lookup j ds ≡ none
  pub sound :
      All
        (λ s.
          (c : ChildSa) × (lookup c.inbound_spi cs ≡ some c)
          × IsRequested ids c
          × (state_spi c ≡ s))
        spis
  pub complete :
      (c : ChildSa) → lookup c.inbound_spi cs ≡ some c → IsRequested ids c → In (state_spi c) spis

first_of : (id : ℕ) (o : Option ℕ) → is_id id o ≡ true → o ≡ some id
first_of id none e = ground arith
first_of id (some k) e = ap some ((==_iff k id).0 e)

-- A requested child SA that is not of the first session is of a later one.
later :
    (id k : ℕ) (ids : List ℕ) (c : ChildSa)
    → for_session id c ≡ false
    → In k (id ∷ ids)
    → get_elem? c.pdu_session_ids 0 ≡ some k
    → In k ids
later id _ ids c f at_head first = absurd (ground (arith, f, ap (is_id id) first, ==_self id))
later id k ids c f (further m) first = m

none-IsRequested : (c : ChildSa) → ¬ IsRequested [] c
none-IsRequested c (id, m, first) = elim m [ ]

minus-before :
    (cs m : Map ChildSa) (j : ℕ) (c : ChildSa)
    → lookup j (minus cs m) ≡ some c
    → lookup j m ≡ some c
minus-before [] m j c e = e
minus-before ((i, d) ∷ cs) m j c e =
    let before = minus-before cs (delete d.inbound_spi m) j c e in
    ground (arith, lookup-delete d.inbound_spi j m, before)

Purged-round :
    (id : ℕ) (ids spis : List ℕ) (m ds : Map ChildSa)
    → IsKeyed m
    → Purged (without_session id m) ids spis ds
    → Purged m (id ∷ ids) (spis_of (matching id m) ++ spis) ds
Purged-round id ids spis m ds k p = record {
  gone = λ c e (i, mem, first). elim (Bool-cases (for_session id c)) [
    | inl f ↦ p.absent c.inbound_spi (without_session-gone id c m e f)
    | inr f ↦ p.gone c (without_session-kept id c m k e f) (i, later id i ids c f mem first, first)
  ];
  kept = λ c e n. elim (Bool-cases (for_session id c)) [
    | inl f ↦ absurd (n (id, at_head, first_of id (get_elem? c.pdu_session_ids 0) f))
    | inr f ↦
        p.kept c (without_session-kept id c m k e f) (λ (i, mem, first). n (i, further mem, first))
  ];
  absent = λ j e. p.absent j (minus-none (matching id m) m j e);
  sound =
      All-append _ (spis_of (matching id m)) spis
        (All-map _ (λ x. state_spi x.1) (matching id m)
          (weaken-All _ _ (matching id m) (matching-found id m k) (λ x (l, f).
            (x.1, l, (id, at_head, first_of id (get_elem? x.1.pdu_session_ids 0) f), refl))))
        (weaken-All _ _ spis p.sound (λ s (c, l, (i, mem, first), e).
          (c, minus-before (matching id m) m c.inbound_spi c l, (i, further mem, first), e)));
  complete = λ c e (i, mem, first). elim (Bool-cases (for_session id c)) [
    | inl f ↦ In-append_left (spis_of (matching id m)) spis (
        In-map (λ x. state_spi x.1) (c.inbound_spi, c) (matching id m)
          (matching-In id c.inbound_spi c m e f))
    | inr f ↦
        In-append_right (spis_of (matching id m)) spis (
          p.complete c (without_session-kept id c m k e f) (i, later id i ids c f mem first, first))
  ];
}

purge-Purged :
    (ids : List ℕ) (m : Map ChildSa) → IsKeyed m → Purged m ids (purged_spis ids m) (purge ids m)
unfolding purge purged_spis
purge-Purged [] m k = record {
  gone = λ c e r. absurd (none-IsRequested c r);
  kept = λ c e n. e;
  absent = λ j e. e;
  sound = tt;
  complete = λ c e r. absurd (none-IsRequested c r);
}
purge-Purged (id ∷ ids) m k =
    Purged-round id ids (purged_spis ids (without_session id m)) m
      (purge ids (without_session id m)) k
      (purge-Purged ids (without_session id m) (minus-IsKeyed (matching id m) m k))

-- The child SAs of a UE that has a connection can all be deleted, each stands under its inbound SPI,
-- and netlink refuses nothing: HandleSendChildSADeleteRequest sends one request, with the message ID
-- for requests of the gateway and, in a uint16, the number of its SPIs. The SPIs are those in the first
-- states of the child SAs whose first PDU session is in the list, and of no others. Those
-- child SAs are out of the map of the UE, and the others stay in it.
pub handle_send_child_sa_delete_request-Purged :
    {S G K : Type 0} (netlink : Kernel K)
    → NeverRefuses netlink
    → (type_esp u a connection spi : ℕ) (ids : List ℕ) (ue : IkeUe) (sa : IkeSa) (h : Host S G K)
    → lookup spi h.context.ike_ue_pool ≡ some u
    → lookup u h.context.ike_ues ≡ some ue
    → ue.ike_security_association ≡ some a
    → lookup a h.context.ike_sas ≡ some sa
    → ue.ike_connection ≡ some connection
    → IsKeyed ue.child_security_association
    → All IsDeletable ue.child_security_association
    → (v : Host S G K) × (after : IkeUe) × (spis : List ℕ) × (handle_send_child_sa_delete_request
          netlink type_esp spi ids h
        ≡ ok (
          v,
          delete_request a sa connection (record {
            protocol = type_esp;
            spi_size = 4;
            num_of_spi = length spis % 2 ^ 16;
            spis = spis;
          })
              ∷ [],
        ))
      × (lookup u v.context.ike_ues ≡ some after)
      × Purged ue.child_security_association ids spis after.child_security_association
unfolding handle_send_child_sa_delete_request send_child_sa_delete_request requested
handle_send_child_sa_delete_request-Purged netlink laws type_esp u a connection spi ids ue sa h
      pooled object assoc sa_object connected k i =
    let cs = ue.child_security_association in
    let (v, e, x) = delete_sessions-ok netlink laws u ids [] ue h object i in
    let spis = purged_spis ids cs in
    let after = with_children ue (purge ids cs) in
    let object' = ap (λ c. lookup u c.ike_ues) x.rest ∙ x.object in
    let sent =
      send_delete-ok u a connection after sa
        (record {
          protocol = type_esp;
          spi_size = 4;
          num_of_spi = length spis % 2 ^ 16;
          spis = spis;
        })
        v object' assoc (ap (λ c. lookup a c.ike_sas) x.rest ∙ sa_object) connected in
    (
      v,
      after,
      spis,
      rw (pooled, handle_send_child_sa_delete_request) (bind-ok _ e ∙ bind-ok _ sent),
      object',
      purge-Purged ids cs k,
    )
