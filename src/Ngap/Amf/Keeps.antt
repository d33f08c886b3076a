-- ===== src/Ngap/Amf/Keeps.antt =====
-- Every message from the AMF keeps the pools consistent.
use n3iwf.Prelude.{
  ap, sym, some-injective, ℕ, ◌≡◌, refl, ◌∙◌, Bool, true, false, List, [], ◌∷◌, Option, none, some,
  inl, inr, ◌==◌, arith, Option-cases, Bool-cases,
}
use n3iwf.Prelude.Bytes.{Bytes}
use n3iwf.Prelude.Map.{lookup, lookup-insert_self}
use n3iwf.Prelude.Outcome.{After, bind-After, or_panic-bind, always}
use n3iwf.Context.{RanUe, N3iwf, assign, ike_spi_load, delete_pdu_session, remove}
use n3iwf.Context.Pools.{IsConsistent, assign-IsConsistent, remove-IsConsistent}
use n3iwf.Ngap.Types.{Env}
use n3iwf.Ngap.Keep.{Kept}
use n3iwf.Ngap.Message.{Message, ies_of, Ies, UeNgapIds}
use n3iwf.Ngap.Types.{IeId}
use n3iwf.Ngap.Message.{read_ies, no_ies, downlink_ie, release_command_ie, resource_release_ie}
use n3iwf.Ngap.Reset.Keeps.{ng_reset-Kept}
use n3iwf.Ngap.Requests.Keeps.{initial_request-Kept, resource_request-Kept}
use n3iwf.Ngap.Amf.{
  match_amf_id, delete_listed, enveloped, passed, pass_nas, matched, downlink,
  handle_downlink_nas_transport, release_listed, resource_release_ue, resource_release,
  handle_pdu_session_resource_release_command, release_ike_ue_and_ran_ue, released, context_release,
  found_ue, find_ue, handle_ue_context_release_command, Procedure, downlink_nas_transport,
  ue_context_release, pdu_session_resource_release, initial_context_setup,
  pdu_session_resource_setup, ng_reset, handle_message,
}

none-some : (ue : RanUe) → ¬ (none ≡ some ue)
none-some ue e = ground arith

-- The steps below change the object of a UE but not its ID.
match_amf_id-id :
    (id : Option ℕ) (ue after : RanUe)
    → match_amf_id id ue ≡ some after
    → after.ran_ue_ngap_id ≡ ue.ran_ue_ngap_id
unfolding match_amf_id
match_amf_id-id none ue after e = ap (λ u. u.ran_ue_ngap_id) (some-injective (sym e))
match_amf_id-id (some id) ue after e = elim (Bool-cases (ue.amf_ue_ngap_id == 1099511627775)) [
  | inl b ↦
      let first : match_amf_id (some id) ue ≡ some (record ue { amf_ue_ngap_id = id }) =
        rw (b, match_amf_id) refl in
      ap (λ u. u.ran_ue_ngap_id) (some-injective (sym e ∙ first))
  | inr b ↦ elim (Bool-cases (ue.amf_ue_ngap_id == id)) [
    | inl d ↦
        let same : match_amf_id (some id) ue ≡ some ue = rw (b, d, match_amf_id) refl in
        ap (λ u. u.ran_ue_ngap_id) (some-injective (sym e ∙ same))
    | inr d ↦
        let other : match_amf_id (some id) ue ≡ none = rw (b, d, match_amf_id) refl in
        absurd (none-some after (sym other ∙ e))
  ]
]

pub delete_listed-id :
    (ids : List ℕ) (ue : RanUe) → (delete_listed ids ue).ran_ue_ngap_id ≡ ue.ran_ue_ngap_id
unfolding delete_listed delete_pdu_session
delete_listed-id [] ue = refl
delete_listed-id (id ∷ ids) ue = delete_listed-id ids (delete_pdu_session id ue)

module _ {S G : Type 0} (w : N3iwf S G) (c : IsConsistent w) (p : ℕ) (ue : RanUe)
    (l : lookup p w.ran_ues ≡ some ue) where
  enveloped-Kept : (nas : Bytes) (b : Bool) → After Kept (enveloped nas p ue w b)
  unfolding enveloped
  enveloped-Kept nas true = or_panic-bind Kept ue.tcp_connection _ (λ connection e. c)
  enveloped-Kept nas false = assign-IsConsistent w p ue _ l refl c

  passed-Kept : (nas : Bytes) (spi : ℕ) (b : Bool) → After Kept (passed nas p ue w spi b)
  unfolding passed
  passed-Kept nas spi false = c
  passed-Kept nas spi true = enveloped-Kept nas ue.is_nas_tcp_complete

  pass_nas-Kept : (nas : Option Bytes) → After Kept (pass_nas nas p ue w)
  unfolding pass_nas
  pass_nas-Kept none = c
  pass_nas-Kept (some nas) = elim (Option-cases (ike_spi_load ue.ran_ue_ngap_id w)) [
    | inl e ↦ rw (e, pass_nas) c
    | inr (spi, e) ↦ rw (e, pass_nas) (passed-Kept nas spi ue.is_nas_tcp_established)
  ]

  release_listed-Kept : (ran : ℕ) (ids : List ℕ) → After Kept (release_listed ran p ue ids w)
  unfolding release_listed
  release_listed-Kept ran ids = elim (Option-cases (ike_spi_load ran w)) [
    | inl e ↦
        rw (e, release_listed)
          (assign-IsConsistent w p ue (delete_listed ids ue) l (delete_listed-id ids ue) c)
    | inr (spi, e) ↦
        rw (e, release_listed) (assign-IsConsistent w p ue _ l (delete_listed-id ids ue) c)
  ]

  resource_release_ue-Kept :
      (a ran amf : ℕ) (list : Option (List ℕ))
      → After Kept (resource_release_ue a ran p ue amf list w)
  unfolding resource_release_ue
  resource_release_ue-Kept a ran amf list = elim (Bool-cases (ue.amf_ue_ngap_id == amf)) [
    | inl b ↦
        rw (b, resource_release_ue)
          (or_panic-bind Kept list _ (λ ids e. release_listed-Kept ran ids))
    | inr b ↦ rw (b, resource_release_ue) c
  ]

  module _ (env : Env S G) where
    released-Kept : After Kept (released env p ue w)
    unfolding released release_ike_ue_and_ran_ue
    released-Kept =
        let ue' = record ue { ue_ctx_rel_state = true } in
        let w' = assign p ue' w in
        bind-After Kept (release_ike_ue_and_ran_ue env ue' w') _
          (bind-After Kept (remove env.ids ue' w') _
            (remove-IsConsistent env.ids ue' w' (assign-IsConsistent w p ue ue' l refl c))
            (λ v d. d))
          (λ r d. d)

module _ {S G : Type 0} (w : N3iwf S G) (c : IsConsistent w) where
  matched-Kept :
      (nas : Option Bytes) (p : ℕ) (ue : RanUe) (id : Option ℕ) (o : Option RanUe)
      → lookup p w.ran_ues ≡ some ue
      → match_amf_id id ue ≡ o
      → After Kept (matched nas p o w)
  unfolding matched assign
  matched-Kept nas p ue id none l e = c
  matched-Kept nas p ue id (some after) l e =
      pass_nas-Kept (assign p after w)
        (assign-IsConsistent w p ue after l (match_amf_id-id id ue after e) c) p after
        (lookup-insert_self p after w.ran_ues) nas

  downlink-Kept : (s : Ies) → After Kept (downlink s w)
  unfolding downlink
  downlink-Kept s = or_panic-bind Kept s.ran_id _ (λ ran e.
      elim (Option-cases (lookup ran w.ran_ue_pool)) [
        | inl h ↦ rw h c
        | inr (p, h) ↦ rw h (
            or_panic-bind Kept (lookup p w.ran_ues) _
              (λ ue l. matched-Kept s.nas p ue s.amf_id (match_amf_id s.amf_id ue) l refl))
      ])

  resource_release-Kept :
      (a : ℕ) (s : Ies) (missing : List IeId) → After Kept (resource_release a s missing w)
  unfolding resource_release
  resource_release-Kept a s (i ∷ missing) = c
  resource_release-Kept a s [] = or_panic-bind Kept s.ran_id _ (λ ran e.
      elim (Option-cases (lookup ran w.ran_ue_pool)) [
        | inl h ↦ rw h c
        | inr (p, h) ↦ rw h (
            or_panic-bind Kept (lookup p w.ran_ues) _ (λ ue l.
              or_panic-bind Kept s.amf_id _
                (λ amf f. resource_release_ue-Kept w c p ue l a ran amf s.to_release)))
      ])

  found_ue-Kept : (env : Env S G) (found : Option ℕ) → After Kept (found_ue env found w)
  unfolding found_ue
  found_ue-Kept env none = c
  found_ue-Kept env (some p) =
      or_panic-bind Kept (lookup p w.ran_ues) _ (λ ue l. released-Kept w c p ue l env)

  context_release-Kept :
      (env : Env S G) (a : ℕ) (ids : Option UeNgapIds) (missing : List IeId)
      → After Kept (context_release env a ids missing w)
  unfolding context_release
  context_release-Kept env a ids (i ∷ missing) = c
  context_release-Kept env a ids [] = or_panic-bind Kept ids _ (λ ids e.
      or_panic-bind Kept (lookup a w.amfs) _ (λ amf f.
        bind-After Kept (find_ue amf.ran_ue_list ids w) _ (always (find_ue amf.ran_ue_list ids w))
          (λ found _. found_ue-Kept env found)))

  -- Every message from the AMF that the six handlers take, whatever it holds, keeps the pool of RAN
  -- UEs and their objects consistent, if the handler does not panic.
  pub handle_message-IsConsistent :
      (env : Env S G) (procedure : Procedure) (amf : Option ℕ) (msg : Message)
      → After Kept (handle_message env procedure amf msg w)
  unfolding handle_message handle_downlink_nas_transport handle_ue_context_release_command
      handle_pdu_session_resource_release_command
  handle_message-IsConsistent env ng_reset amf msg = ng_reset-Kept env w c amf msg
  handle_message-IsConsistent env initial_context_setup amf msg =
      initial_request-Kept env w c amf msg
  handle_message-IsConsistent env pdu_session_resource_setup amf msg =
      resource_request-Kept env w c amf msg
  handle_message-IsConsistent env downlink_nas_transport none msg = c
  handle_message-IsConsistent env ue_context_release none msg = c
  handle_message-IsConsistent env pdu_session_resource_release none msg = c
  handle_message-IsConsistent env downlink_nas_transport (some a) msg =
      elim (Option-cases (ies_of msg)) [
        | inl e ↦ rw (e, handle_message, handle_downlink_nas_transport) c
        | inr (ies, e) ↦
            rw (e, handle_message, handle_downlink_nas_transport)
              (downlink-Kept (read_ies downlink_ie no_ies ies))
      ]
  handle_message-IsConsistent env ue_context_release (some a) msg =
      elim (Option-cases (ies_of msg)) [
        | inl e ↦ rw (e, handle_message, handle_ue_context_release_command) c
        | inr (ies, e) ↦
            rw (e, handle_message, handle_ue_context_release_command)
              (let s = read_ies release_command_ie no_ies ies in
                context_release-Kept env a s.ids s.missing)
      ]
  handle_message-IsConsistent env pdu_session_resource_release (some a) msg =
      elim (Option-cases (ies_of msg)) [
        | inl e ↦ rw (e, handle_message, handle_pdu_session_resource_release_command) c
        | inr (ies, e) ↦
            rw (e, handle_message, handle_pdu_session_resource_release_command)
              (let s = read_ies resource_release_ie no_ies ies in
                resource_release-Kept a s s.missing)
      ]
