-- ===== src/Ngap/Session/Keeps.antt =====
-- The loop over the sessions of a request keeps the pools consistent, and the object of the UE.
use n3iwf.Prelude.{
  ℕ, ◌≡◌, refl, ◌∙◌, Bool, List, [], ◌∷◌, Option, none, some, inl, inr, ◌==◌, ltb, arith,
  Bool-cases, Option-cases,
}
use n3iwf.Prelude.Bytes.{Bytes}
use n3iwf.Prelude.Map.{lookup}
use n3iwf.Prelude.Outcome.{ok, After, always, bind-After, or_panic-bind}
use n3iwf.Context.{
  PduSession, RanUe, N3iwf, new_pdu_session, create_pdu_session, delete_pdu_session, new_teid,
}
use n3iwf.Context.Pools.{IsConsistent}
use n3iwf.Ngap.Message.{SetupItem}
use n3iwf.Ngap.Types.{Env, TransferIe, TransferIeId}
use n3iwf.Ngap.Session.{
  Transfer, TransferResult, set_up, turned_down, teid_of, with_base, secure, add_flows, connected,
  tunnelled, flowing, secured, checked, handle_pdu_session_resource_setup_request_transfer,
  read_transfer, no_transfer, settle, setup_item, setup_items,
}

module _ {S G : Type 0} (env : Env S G) (p : ℕ) (u : RanUe) where
  -- The pools are consistent, and the UE is at its pointer.
  pub record Fits (w : N3iwf S G) : Type 0 where
    pub consistent : IsConsistent w
    pub at_pointer : lookup p w.ran_ues ≡ some u

  new_teid-Fits : (w : N3iwf S G) → Fits w → Fits (new_teid env.ids p w).1
  unfolding new_teid
  new_teid-Fits w f = elim (Option-cases (env.ids.allocate w.teids)) [
    | inl e ↦ rw (e, new_teid) f
    | inr ((t, s), e) ↦ elim (Bool-cases (ltb 4294967295 t)) [
      | inl b ↦
          rw (e, b, new_teid)
            (record {
              consistent = record { leads = f.consistent.leads; bounded = f.consistent.bounded };
              at_pointer = f.at_pointer;
            })
      | inr b ↦
          rw (e, b, new_teid)
            (record {
              consistent = record { leads = f.consistent.leads; bounded = f.consistent.bounded };
              at_pointer = f.at_pointer;
            })
    ]
  ]

  connected-Fits :
      (addr : Option ℕ) (outgoing : ℕ) (s : PduSession) (w : N3iwf S G)
      → Fits w
      → Fits (connected env addr outgoing p s w).0
  unfolding connected
  connected-Fits none outgoing s w f = f
  connected-Fits (some addr) outgoing s w f = elim (Bool-cases ((new_teid env.ids p w).0 == 0)) [
    | inl b ↦ rw (b, connected) (new_teid-Fits w f)
    | inr b ↦ rw (b, connected) (new_teid-Fits w f)
  ]

  tunnelled-Fits :
      (gtp : Bytes × Bytes) (s : PduSession) (w : N3iwf S G)
      → Fits w
      → After (λ r. Fits r.0) (tunnelled env gtp p s w)
  unfolding tunnelled
  tunnelled-Fits (addr, teid) s w f = elim (Option-cases (env.ip_address_to_string addr)) [
    | inl e ↦ rw (e, tunnelled) f
    | inr (ip, e) ↦
        rw (e, tunnelled)
          (bind-After (λ r. Fits r.0) (teid_of teid) _ (always (teid_of teid))
            (λ outgoing _. connected-Fits (env.resolve_udp_addr ip) outgoing s w f))
  ]

  flowing-Fits :
      (t : Transfer) (s : Option PduSession) (w : N3iwf S G)
      → Fits w
      → After (λ r. Fits r.0) (flowing env t p s w)
  unfolding flowing
  flowing-Fits t none w f = f
  flowing-Fits t (some s) w f =
      or_panic-bind (λ r. Fits r.0) t.tunnel _
        (λ information e.
          or_panic-bind (λ r. Fits r.0) information _ (λ gtp e. tunnelled-Fits gtp s w f))

  secured-Fits :
      (t : Transfer) (s : Option PduSession) (w : N3iwf S G)
      → Fits w
      → After (λ r. Fits r.0) (secured env t p s w)
  unfolding secured
  secured-Fits t none w f = f
  secured-Fits t (some s) w f =
      or_panic-bind (λ r. Fits r.0) t.flows _ (λ flows e. flowing-Fits t (add_flows flows s) w f)

  checked-Fits :
      (t : Transfer) (absent : List TransferIeId) (s : PduSession) (w : N3iwf S G)
      → Fits w
      → After (λ r. Fits r.0) (checked env t absent p s w)
  unfolding checked
  checked-Fits t (i ∷ absent) s w f = f
  checked-Fits t [] s w f = secured-Fits t (secure t.security (with_base t s)) w f

  transfer-Fits :
      (s : PduSession) (ies : List TransferIe) (w : N3iwf S G)
      → Fits w
      → After (λ r. Fits r.0) (handle_pdu_session_resource_setup_request_transfer env p s ies w)
  unfolding handle_pdu_session_resource_setup_request_transfer
  transfer-Fits s ies w f = let t = read_transfer no_transfer ies in checked-Fits t t.absent s w f

  settle-id :
      (initial : Bool) (id : ℕ) (ue : RanUe) (r : TransferResult)
      → (settle initial id ue r).ran_ue_ngap_id ≡ ue.ran_ue_ngap_id
  unfolding settle delete_pdu_session
  settle-id initial id ue (set_up s) = refl
  settle-id initial id ue (turned_down transfer) = refl

  create-id :
      (id snssai : ℕ) (ue ue' : RanUe)
      → create_pdu_session id snssai ue ≡ some ue'
      → ue'.ran_ue_ngap_id ≡ ue.ran_ue_ngap_id
  unfolding create_pdu_session
  create-id id snssai ue ue' e = elim (Option-cases (lookup id ue.pdu_session_list)) [
    | inl h ↦ ground (arith, h, create_pdu_session)
    | inr (s, h) ↦ ground (arith, h, create_pdu_session)
  ]

  -- What is kept of the UE and the gateway.
  abbrev pub FitsBoth : RanUe × N3iwf S G → Type 0
  FitsBoth r = (r.0.ran_ue_ngap_id ≡ u.ran_ue_ngap_id) × Fits r.1

  setup_item-Fits :
      (initial : Bool) (x : SetupItem) (ue : RanUe) (w : N3iwf S G)
      → FitsBoth (ue, w)
      → After FitsBoth (setup_item env initial p x (ue, w))
  unfolding setup_item
  setup_item-Fits initial x ue w (same, f) =
      elim (Option-cases (create_pdu_session x.session_id x.item_snssai ue)) [
        | inl e ↦ rw (e, setup_item) (same, f)
        | inr (ue', e) ↦
            rw (e, setup_item)
              (let asked =
                  handle_pdu_session_resource_setup_request_transfer env p
                    (new_pdu_session x.session_id x.item_snssai) (env.decode_transfer x.transfer)
                    w in
                bind-After {P = λ x'. Fits x'.0} FitsBoth asked
                  (λ r. ok (settle initial x.session_id ue' r.1, r.0))
                  (transfer-Fits (new_pdu_session x.session_id x.item_snssai)
                    (env.decode_transfer x.transfer) w f)
                  (λ r g. (
                    settle-id initial x.session_id ue' r.1
                        ∙ (create-id x.session_id x.item_snssai ue ue' e ∙ same),
                    g,
                  )))
      ]

  pub setup_items-Fits :
      (initial : Bool) (xs : List SetupItem) (r : RanUe × N3iwf S G)
      → FitsBoth r
      → After FitsBoth (setup_items env initial p xs r)
  unfolding setup_items
  setup_items-Fits initial [] r f = f
  setup_items-Fits initial (x ∷ xs) (ue, w) f =
      bind-After FitsBoth (setup_item env initial p x (ue, w)) _ (setup_item-Fits initial x ue w f)
        (λ r g. setup_items-Fits initial xs r g)
