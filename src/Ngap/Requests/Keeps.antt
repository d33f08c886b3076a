-- ===== src/Ngap/Requests/Keeps.antt =====
-- The two requests keep the pools consistent.
use n3iwf.Prelude.{
  ℕ, ◌≡◌, refl, true, false, List, [], ◌∷◌, Option, none, some, inl, inr, ◌==◌, ltb, length, arith,
  Bool-cases, Option-cases,
}
use n3iwf.Prelude.Bytes.{Bytes}
use n3iwf.Prelude.Map.{lookup}
use n3iwf.Prelude.Outcome.{After, bind-After, or_panic-bind}
use n3iwf.Nas.{encap_nas_msg_to_envelope}
use n3iwf.Context.{PduSession, RanUe, N3iwf, assign, ike_spi_load}
use n3iwf.Context.Pools.{IsConsistent, assign-IsConsistent}
use n3iwf.Ngap.Types.{Env, IeId, Sent}
use n3iwf.Ngap.Keep.{Kept}
use n3iwf.Ngap.Message.{
  SetupItem, Message, ies_of, Ies, no_ies, initial_context_ie, resource_setup_ie, read_ies,
}
use n3iwf.Ngap.Session.{setup_items}
use n3iwf.Ngap.Session.Keeps.{Fits, FitsBoth, setup_items-Fits}
use n3iwf.Ngap.Requests.{
  stored, last_nas, failed_list, send_failure, succeed, initial_end, initial_sessions, initial_ue,
  initial_context, handle_initial_context_setup_request, activate, resource_sessions, resource_nas,
  no_ue, resource_ue, resource_setup, handle_pdu_session_resource_setup_request,
}

module _ {S G : Type 0} (env : Env S G) where
  send_failure-Kept :
      (o : Option RanUe) (list : List (ℕ × Bytes)) (w : N3iwf S G)
      → IsConsistent w
      → After Kept (send_failure env o list w)
  unfolding send_failure
  send_failure-Kept none list w c = elim (Bool-cases (ltb 256 (length list))) [
    | inl b ↦ rw (b, send_failure) c
    | inr b ↦ rw (b, send_failure) tt
  ]
  send_failure-Kept (some ue) list w c = elim (Bool-cases (ltb 256 (length list))) [
    | inl b ↦ rw (b, send_failure) c
    | inr b ↦ rw (b, send_failure) c
  ]

  succeed-Kept :
      (key : Option Bytes) (ue : RanUe) (w : N3iwf S G)
      → IsConsistent w
      → After Kept (succeed env key ue w)
  unfolding succeed
  succeed-Kept key ue w c = elim (Option-cases (ike_spi_load ue.ran_ue_ngap_id w)) [
    | inl e ↦ rw (e, succeed) c
    | inr (spi, e) ↦ rw (e, succeed) (or_panic-bind Kept key _ (λ k e. c))
  ]

  module _ (p : ℕ) (u : RanUe) where
    -- The UE, which may have changed, is written back.
    written : (ue : RanUe) (w : N3iwf S G) → FitsBoth env p u (ue, w) → IsConsistent (assign p ue w)
    written ue w (same, f) = assign-IsConsistent w p u ue f.at_pointer same f.consistent

    initial_end-Kept :
        (s : Ies) (r : RanUe × N3iwf S G) → FitsBoth env p u r → After Kept (initial_end env s p r)
    unfolding initial_end
    initial_end-Kept s (ue, w) f =
        succeed-Kept s.ies_key (stored s ue) (assign p (stored s ue) w) (written (stored s ue) w f)

    initial_sessions-Kept :
        (s : Ies) (list : Option (List SetupItem)) (ambr : Option ℕ) (ue : RanUe) (w : N3iwf S G)
        → FitsBoth env p u (ue, w)
        → After Kept (initial_sessions env s p list ambr ue w)
    unfolding initial_sessions
    initial_sessions-Kept s none ambr ue w f = initial_end-Kept s (ue, w) f
    initial_sessions-Kept s (some items) none ue w f =
        send_failure-Kept (some ue) (failed_list env items) (assign p ue w) (written ue w f)
    initial_sessions-Kept s (some items) (some ambr) ue w f =
        bind-After Kept (setup_items env true p items _) _ (setup_items-Fits env p u true items _ f)
          (λ r g. initial_end-Kept s r g)

    activate-Kept :
        (accept : Option Bytes) (sent : List Sent) (ue : RanUe) (w : N3iwf S G)
        (sessions : List PduSession)
        → FitsBoth env p u (ue, w)
        → After Kept (activate env p accept sent ue w sessions)
    unfolding activate
    activate-Kept accept sent ue w [] f = written ue w f
    activate-Kept accept sent ue w (x ∷ xs) f =
        elim (Option-cases (ike_spi_load ue.ran_ue_ngap_id w)) [
          | inl e ↦ rw (e, activate) (written ue w f)
          | inr (spi, e) ↦ rw (e, activate) (or_panic-bind Kept accept _ (λ nas e. written _ w f))
        ]

    resource_sessions-Kept :
        (list : Option (List SetupItem)) (sent : List Sent) (ue : RanUe) (w : N3iwf S G)
        → FitsBoth env p u (ue, w)
        → After Kept (resource_sessions env p list sent ue w)
    unfolding resource_sessions
    resource_sessions-Kept none sent ue w f =
        activate-Kept none sent _ w ue.setup_data.unactivated f
    resource_sessions-Kept (some items) sent ue w f =
        bind-After Kept (setup_items env false p items _) _
          (setup_items-Fits env p u false items _ f)
          (λ r g. activate-Kept (last_nas none items) sent r.0 r.1 r.0.setup_data.unactivated g)

    resource_nas-Kept :
        (nas : Option Bytes) (list : Option (List SetupItem)) (ue : RanUe) (w : N3iwf S G)
        → FitsBoth env p u (ue, w)
        → After Kept (resource_nas env nas p list ue w)
    unfolding resource_nas
    resource_nas-Kept none list ue w f = resource_sessions-Kept list [] ue w f
    resource_nas-Kept (some nas) list ue w f = elim (Option-cases ue.tcp_connection) [
      | inl e ↦ rw (e, resource_nas) f.1.consistent
      | inr (connection, e) ↦
          elim (Bool-cases (env.write connection (encap_nas_msg_to_envelope nas))) [
            | inl b ↦ rw (e, b, resource_nas) (resource_sessions-Kept list _ ue w f)
            | inr b ↦ rw (e, b, resource_nas) f.1.consistent
          ]
    ]

  module _ (w : N3iwf S G) (c : IsConsistent w) where
    -- The UE with an ID of the pool.
    fits :
        (ran p : ℕ) (ue : RanUe)
        → lookup ran w.ran_ue_pool ≡ some p
        → lookup p w.ran_ues ≡ some ue
        → (ran ≡ ue.ran_ue_ngap_id) × Fits env p ue w
    fits ran p ue h l =
        let (u, lu, eu) = c.leads ran p h in
        (ground (arith, lu, l), record { consistent = c; at_pointer = l })

    initial_ue-Kept : (s : Ies) (amf ran : Option ℕ) → After Kept (initial_ue env s amf ran w)
    unfolding initial_ue
    initial_ue-Kept s none ran = c
    initial_ue-Kept s (some amf) none = c
    initial_ue-Kept s (some amf) (some ran) = elim (Option-cases (lookup ran w.ran_ue_pool)) [
      | inl h ↦ rw (h, initial_ue) c
      | inr (p, h) ↦
          rw (h, initial_ue)
            (or_panic-bind Kept (lookup p w.ran_ues) _ (λ ue l.
              let f = fits ran p ue h l in
              elim (Bool-cases (ue.amf_ue_ngap_id == amf)) [
                | inl b ↦ rw b (initial_sessions-Kept p ue s s.to_set_up s.ies_ambr _ w f)
                | inr b ↦ rw b c
              ]))
    ]

    no_ue-Kept : (nas : Option Bytes) → After Kept (no_ue env nas w)
    unfolding no_ue
    no_ue-Kept none = tt
    no_ue-Kept (some nas) = c

    resource_ue-Kept : (s : Ies) (amf ran : Option ℕ) → After Kept (resource_ue env s amf ran w)
    unfolding resource_ue
    resource_ue-Kept s none ran = no_ue-Kept s.nas
    resource_ue-Kept s (some amf) none = no_ue-Kept s.nas
    resource_ue-Kept s (some amf) (some ran) = elim (Option-cases (lookup ran w.ran_ue_pool)) [
      | inl h ↦ rw (h, resource_ue) c
      | inr (p, h) ↦
          rw (h, resource_ue)
            (or_panic-bind Kept (lookup p w.ran_ues) _ (λ ue l.
              let f = fits ran p ue h l in
              elim (Bool-cases (ue.amf_ue_ngap_id == amf)) [
                | inl b ↦ rw b (resource_nas-Kept p ue s.nas s.to_set_up ue w (refl, f.1))
                | inr b ↦ rw b c
              ]))
    ]

    initial_context-Kept :
        (s : Ies) (missing : List IeId) → After Kept (initial_context env s missing w)
    unfolding initial_context
    initial_context-Kept s [] = initial_ue-Kept s s.amf_id s.ran_id
    initial_context-Kept s (i ∷ missing) =
        or_panic-bind Kept s.to_set_up _
          (λ items e. send_failure-Kept none (failed_list env items) w c)

    pub initial_request-Kept :
        (amf : Option ℕ) (msg : Message)
        → After Kept (handle_initial_context_setup_request env amf msg w)
    unfolding handle_initial_context_setup_request
    initial_request-Kept amf msg = elim (Option-cases (ies_of msg)) [
      | inl e ↦ rw (e, handle_initial_context_setup_request) c
      | inr (ies, e) ↦
          rw (e, handle_initial_context_setup_request)
            (let s = read_ies initial_context_ie no_ies ies in initial_context-Kept s s.missing)
    ]

    resource_setup-Kept :
        (s : Ies) (missing : List IeId) → After Kept (resource_setup env s missing w)
    unfolding resource_setup
    resource_setup-Kept s [] = resource_ue-Kept s s.amf_id s.ran_id
    resource_setup-Kept s (i ∷ missing) = c

    pub resource_request-Kept :
        (amf : Option ℕ) (msg : Message)
        → After Kept (handle_pdu_session_resource_setup_request env amf msg w)
    unfolding handle_pdu_session_resource_setup_request
    resource_request-Kept none msg = c
    resource_request-Kept (some a) msg = elim (Option-cases (ies_of msg)) [
      | inl e ↦ rw (e, handle_pdu_session_resource_setup_request) c
      | inr (ies, e) ↦
          rw (e, handle_pdu_session_resource_setup_request)
            (let s = read_ies resource_setup_ie no_ies ies in resource_setup-Kept s s.missing)
    ]
