-- ===== src/Ngap/Session/Taken.antt =====
-- handlePDUSessionResourceSetupRequestTransfer: the session that is set up, and its TEID.
use n3iwf.Prelude.{
  ap, sym, some-injective, ℕ, ◌≡◌, ◌≢◌, refl, ◌∙◌, Bool, List, [], ◌∷◌, Option, none, some, inl,
  inr, ◌==◌, ==_iff, ltb, arith, if◌then◌else◌, Bool-cases, Option-cases, ◌++◌,
}
use n3iwf.Prelude.Bytes.{Bytes, uint32}
use n3iwf.Prelude.Map.{lookup, insert}
use n3iwf.Prelude.Outcome.{ok, bind-some}
use n3iwf.Context.{GtpConnectionInfo, PduSession, N3iwf, new_teid}
use n3iwf.Context.Teid.{GeneratorLaws, TeidsInUse, NewTeid, failed, given, new_teid-NewTeid}
use n3iwf.Ngap.Types.{Env, TransferIe, TransferIeId, abstract_syntax_error_reject}
use n3iwf.Ngap.Session.{
  Transfer, TransferResult, set_up, turned_down, with_base, with_indications, indicated, secure,
  add_flows, refuse, connected, tunnelled, flowing, secured, checked,
  handle_pdu_session_resource_setup_request_transfer, read_transfer, no_transfer,
}

-- A transfer that is answered: the value of an IE is nil, or there are flows and a tunnel whose TEID has
-- four bytes.
pub data IsAnswered (t : Transfer) : Type 0 where
  incomplete :
      (i : TransferIeId) (absent : List TransferIeId) → t.absent ≡ i ∷ absent → IsAnswered t
  complete :
      (flows : List (ℕ × ℕ)) (addr rest : Bytes) (a b c d : ℕ)
      → t.flows ≡ some flows
      → t.tunnel ≡ some (some (addr, a ∷ b ∷ c ∷ d ∷ rest))
      → IsAnswered t

with_indications-id :
    (i c : Option Bool) (s s' : PduSession) → with_indications i c s ≡ some s' → s'.id ≡ s.id
with_indications-id none c s s' e = ground arith
with_indications-id (some i) none s s' e = ground arith
with_indications-id (some i) (some c) s s' e = ap (λ x. x.id) (some-injective (sym e))

secure-id : (o : Option (ℕ × ℕ)) (s s' : PduSession) → secure o s ≡ some s' → s'.id ≡ s.id
unfolding secure
secure-id none s s' e = ap (λ x. x.id) (some-injective (sym e))
secure-id (some (i, c)) s s' e = with_indications-id (indicated i) (indicated c) s s' e

add_flows-id :
    (flows : List (ℕ × ℕ)) (s s' : PduSession) → add_flows flows s ≡ some s' → s'.id ≡ s.id
unfolding add_flows
add_flows-id [] s s' e = ap (λ x. x.id) (some-injective (sym e))
add_flows-id ((qfi, params) ∷ flows) s s' e =
    let added = record s {
      qos_flows = insert qfi params s.qos_flows;
      qfi_list = s.qfi_list ++ qfi ∷ [];
    } in
    elim (Bool-cases (ltb 255 qfi)) [
      | inl b ↦
          let n : add_flows ((qfi, params) ∷ flows) s ≡ none = rw (b, add_flows) refl in
          ground (arith, sym n ∙ e)
      | inr b ↦
          let n : add_flows ((qfi, params) ∷ flows) s ≡ add_flows flows added =
            rw (b, add_flows) refl in
          add_flows-id flows added s' (sym n ∙ e)
    ]

module _ {S G : Type 0} (env : Env S G) (laws : GeneratorLaws env.ids) (p : ℕ) where
  -- The TEIDs other than 0 lead where they did, and those that lead to a UE are in use.
  pub record Same (w v : N3iwf S G) : Type 0 where
    pub leads : (j : ℕ) → j ≢ 0 → lookup j v.allocated_ue_teid ≡ lookup j w.allocated_ue_teid
    pub in_use : TeidsInUse env.ids laws v

  -- The tunnel of a session has a TEID that led nowhere before, and leads to the UE now.
  pub record Tunnel (s : PduSession) (w v : N3iwf S G) : Type 0 where
    pub info : GtpConnectionInfo
    pub has_info : s.gtp_conn_info ≡ some info
    pub nonzero : info.incoming_teid ≢ 0
    pub fresh : lookup info.incoming_teid w.allocated_ue_teid ≡ none
    pub leads :
        (j : ℕ)
        → lookup j v.allocated_ue_teid
          ≡ (if info.incoming_teid == j then some p else lookup j w.allocated_ue_teid)
    pub in_use : TeidsInUse env.ids laws v

  -- The result for a session with the ID `i`.
  pub data Taken (i : ℕ) (w : N3iwf S G) : N3iwf S G × TransferResult → Type 0 where
    refused : {v : N3iwf S G} {transfer : Bytes} → Same w v → Taken i w (v, turned_down transfer)
    taken : {v : N3iwf S G} {s : PduSession} → s.id ≡ i → Tunnel s w v → Taken i w (v, set_up s)

  same : (w : N3iwf S G) → TeidsInUse env.ids laws w → Same w w
  same w h = record { leads = λ j n. refl; in_use = h }

  zero_teid :
      (w : N3iwf S G) (r : ℕ × N3iwf S G)
      → NewTeid env.ids laws p w r
      → r.0 ≡ 0
      → (j : ℕ) → j ≢ 0
      → lookup j r.1.allocated_ue_teid ≡ lookup j w.allocated_ue_teid
  zero_teid w _ (failed e) z j n = ap (λ m. lookup j m) e
  zero_teid w (t, v) (given bound free leads) z j n = ground (arith, leads j, ==_iff t j)

  some_teid :
      (w : N3iwf S G) (r : ℕ × N3iwf S G)
      → NewTeid env.ids laws p w r
      → r.0 ≢ 0
      → (lookup r.0 w.allocated_ue_teid ≡ none)
        × ((j : ℕ)
            → lookup j r.1.allocated_ue_teid
              ≡ (if r.0 == j then some p else lookup j w.allocated_ue_teid))
  some_teid w _ (failed e) z = absurd (z refl)
  some_teid w (t, v) (given bound free leads) z = (free, leads)

  connected-Taken :
      (addr : Option ℕ) (outgoing : ℕ) (s : PduSession) (w : N3iwf S G)
      → TeidsInUse env.ids laws w
      → Taken s.id w (connected env addr outgoing p s w)
  unfolding connected
  connected-Taken none outgoing s w h = refused (same w h)
  connected-Taken (some addr) outgoing s w h =
      let r = new_teid env.ids p w in
      let (result, in_use) = new_teid-NewTeid env.ids laws p w h in
      elim (Bool-cases (r.0 == 0)) [
        | inl b ↦
            rw (b, connected)
              (refused
                (record { leads = zero_teid w r result ((==_iff r.0 0).0 b); in_use = in_use }))
        | inr b ↦
            let z : r.0 ≢ 0 = λ e. ground (arith, ==_iff r.0 0) in
            let (fresh, leads) = some_teid w r result z in
            rw (b, connected)
              (taken refl (record {
                info = record {
                  upf_udp_addr = addr;
                  incoming_teid = r.0;
                  outgoing_teid = outgoing;
                };
                has_info = refl;
                nonzero = z;
                fresh = fresh;
                leads = leads;
                in_use = in_use;
              }))
      ]

  tunnelled-Taken :
      (addr rest : Bytes) (a b c d : ℕ) (s : PduSession) (w : N3iwf S G)
      → TeidsInUse env.ids laws w
      → (r : N3iwf S G × TransferResult) × (tunnelled env (addr, a ∷ b ∷ c ∷ d ∷ rest) p s w ≡ ok r)
        × Taken s.id w r
  unfolding tunnelled refuse
  tunnelled-Taken addr rest a b c d s w h = elim (Option-cases (env.ip_address_to_string addr)) [
    | inl e ↦ (
      (w, refuse env abstract_syntax_error_reject []),
      rw (e, tunnelled) refl,
      refused (same w h),
    )
    | inr (ip, e) ↦ (
      connected env (env.resolve_udp_addr ip) (uint32 a b c d) p s w,
      rw (e, tunnelled) refl,
      connected-Taken (env.resolve_udp_addr ip) (uint32 a b c d) s w h,
    )
  ]

  flowing-Taken :
      (t : Transfer) (addr rest : Bytes) (a b c d i : ℕ) (o : Option PduSession) (w : N3iwf S G)
      → t.tunnel ≡ some (some (addr, a ∷ b ∷ c ∷ d ∷ rest))
      → ((s : PduSession) → o ≡ some s → s.id ≡ i)
      → TeidsInUse env.ids laws w
      → (r : N3iwf S G × TransferResult) × (flowing env t p o w ≡ ok r) × Taken i w r
  unfolding flowing
  flowing-Taken t addr rest a b c d i none w e same_id h = (_, refl, refused (same w h))
  flowing-Taken t addr rest a b c d i (some s) w e same_id h =
      let (r, run, result) = tunnelled-Taken addr rest a b c d s w h in
      (r, bind-some _ e ∙ run, rw (← same_id s refl) result)

  secured-Taken :
      (t : Transfer) (flows : List (ℕ × ℕ)) (addr rest : Bytes) (a b c d i : ℕ)
      (o : Option PduSession) (w : N3iwf S G)
      → t.flows ≡ some flows
      → t.tunnel ≡ some (some (addr, a ∷ b ∷ c ∷ d ∷ rest))
      → ((s : PduSession) → o ≡ some s → s.id ≡ i)
      → TeidsInUse env.ids laws w
      → (r : N3iwf S G × TransferResult) × (secured env t p o w ≡ ok r) × Taken i w r
  unfolding secured
  secured-Taken t flows addr rest a b c d i none w f e same_id h = (_, refl, refused (same w h))
  secured-Taken t flows addr rest a b c d i (some s) w f e same_id h =
      let (r, run, result) =
        flowing-Taken t addr rest a b c d i (add_flows flows s) w e
          (λ s' g. add_flows-id flows s s' g ∙ same_id s refl) h in
      (r, bind-some _ f ∙ run, result)

  checked-Taken :
      (t : Transfer) (absent : List TransferIeId) (s : PduSession) (w : N3iwf S G)
      → t.absent ≡ absent
      → IsAnswered t
      → TeidsInUse env.ids laws w
      → (r : N3iwf S G × TransferResult) × (checked env t absent p s w ≡ ok r) × Taken s.id w r
  unfolding checked
  checked-Taken t (i ∷ absent) s w e answered h = (_, refl, refused (same w h))
  checked-Taken t [] s w e (incomplete i absent f) h = ground (arith, sym e ∙ f)
  checked-Taken t [] s w e (complete flows addr rest a b c d f g) h =
      secured-Taken t flows addr rest a b c d s.id (secure t.security (with_base t s)) w f g
        (λ s' k. secure-id t.security (with_base t s) s' k) h

  pub transfer-Taken :
      (s : PduSession) (ies : List TransferIe) (w : N3iwf S G)
      → IsAnswered (read_transfer no_transfer ies)
      → TeidsInUse env.ids laws w
      → (r : N3iwf S G × TransferResult) × (handle_pdu_session_resource_setup_request_transfer env p
            s ies w
          ≡ ok r)
        × Taken s.id w r
  unfolding handle_pdu_session_resource_setup_request_transfer
  transfer-Taken s ies w answered h =
      let t = read_transfer no_transfer ies in checked-Taken t t.absent s w refl answered h
