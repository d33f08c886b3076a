-- ===== src/Ngap/Amf.antt =====
-- Messages from the AMF, in internal/ngap/handler.go: HandleDownlinkNASTransport,
-- HandleUEContextReleaseCommand with releaseIkeUeAndRanUe, and
-- HandlePDUSessionResourceReleaseCommand; and the switch of NGAPDispatch in internal/ngap/dispatcher.go
-- over the procedures of Procedure. The handlers of the other procedures are left out.
pub mod Keeps
pub mod Released
pub mod Overwritten
pub mod Routed
use n3iwf.Prelude.{
  ℕ, Bool, true, false, List, [], ◌∷◌, ◌++◌, Option, none, some, ◌==◌, if◌then◌else◌,
}
use n3iwf.Prelude.Bytes.{Bytes}
use n3iwf.Prelude.Map.{Map, lookup}
use n3iwf.Prelude.Outcome.{Outcome, ok, err, panic, out_of_fuel, ◌>>=◌, or_panic}
use n3iwf.Nas.{encap_nas_msg_to_envelope}
use n3iwf.Context.{
  RanUe, N3iwf, Go, assign, ike_spi_load, ran_ue_pool_load, remove, delete_pdu_session,
}
use n3iwf.Ngap.Reset.{find_ue_by_amf_ue_ngap_id, handle_ng_reset}
use n3iwf.Events.{send_eap_nas_msg_evt, ike_delete_request_evt, send_child_sa_delete_request_evt}
use n3iwf.Ngap.Message.{
  UeNgapIds, ue_ngap_id_pair, amf_ue_ngap_id_only, other_choice, Message, ies_of, Ies, no_ies,
  downlink_ie, release_command_ie, resource_release_ie, read_ies,
}
use n3iwf.Ngap.Requests.{
  handle_initial_context_setup_request, handle_pdu_session_resource_setup_request,
}
use n3iwf.Ngap.Types.{
  Env, Sent, to_ike, to_tcp, ue_context_release_complete, error_indication, Step, Cause,
  unknown_local_ue_ngap_id, inconsistent_remote_ue_ngap_id, IeId, id_amf_ue_ngap_id,
  id_ran_ue_ngap_id, id_nas_pdu, id_ue_ngap_ids, id_pdu_session_resource_to_release_list,
}

-- The AMF UE NGAP ID of a message: the first one is taken over, and another is refused.
unfoldable pub match_amf_id : Option ℕ → RanUe → Option RanUe
match_amf_id none ue = some ue
match_amf_id (some id) ue =
    if ue.amf_ue_ngap_id == 1099511627775
    then some (record ue { amf_ue_ngap_id = id })
    else if ue.amf_ue_ngap_id == id
    then some ue
    else none

-- The sessions of the list are deleted.
unfoldable pub delete_listed : List ℕ → RanUe → RanUe
delete_listed [] ue = ue
delete_listed (id ∷ ids) ue = delete_listed ids (delete_pdu_session id ue)

module _ {S G : Type 0} where
  find_ue : Map ℕ → UeNgapIds → N3iwf S G → Go (Option ℕ)
  unfolding find_ue_by_amf_ue_ngap_id
  find_ue list (ue_ngap_id_pair amf ran) w = elim (ran_ue_pool_load ran w) [
    | some p ↦ ok (some p)
    | none ↦ find_ue_by_amf_ue_ngap_id amf list w
  ]
  find_ue list (amf_ue_ngap_id_only amf) w = find_ue_by_amf_ue_ngap_id amf list w
  find_ue list other_choice w = ok none

  -- The NAS message in its envelope, once the TCP connection is there.
  enveloped : Bytes → ℕ → RanUe → N3iwf S G → Bool → Step S G
  enveloped nas p ue w true = do
    connection ← or_panic ue.tcp_connection
    ok (w, to_tcp connection (encap_nas_msg_to_envelope nas) ∷ [])
  enveloped nas p ue w false =
      ok (assign p (record ue { cached_nas = some (encap_nas_msg_to_envelope nas) }) w, [])

  passed : Bytes → ℕ → RanUe → N3iwf S G → ℕ → Bool → Step S G
  unfolding enveloped
  passed nas p ue w spi true = enveloped nas p ue w ue.is_nas_tcp_complete
  passed nas p ue w spi false = ok (w, to_ike (send_eap_nas_msg_evt spi nas) ∷ [])

  unfoldable pub pass_nas : Option Bytes → ℕ → RanUe → N3iwf S G → Step S G
  unfolding passed
  pass_nas none p ue w = ok (w, [])
  pass_nas (some nas) p ue w = elim (ike_spi_load ue.ran_ue_ngap_id w) [
    | none ↦ ok (w, [])
    | some spi ↦ passed nas p ue w spi ue.is_nas_tcp_established
  ]

  matched : Option Bytes → ℕ → Option RanUe → N3iwf S G → Step S G
  unfolding pass_nas
  matched nas p none w = ok (w, [])
  matched nas p (some ue) w = pass_nas nas p ue (assign p ue w)

  unfoldable pub downlink : Ies → N3iwf S G → Step S G
  unfolding matched match_amf_id
  downlink s w = do
    ran ← or_panic s.ran_id
    elim (ran_ue_pool_load ran w) [
      | none ↦ ok (w, [])
      | some p ↦ do ue ← or_panic (lookup p w.ran_ues); matched s.nas p (match_amf_id s.amf_id ue) w
    ]

  -- HandleDownlinkNASTransport. The AMF is nil or a pointer.
  unfoldable pub handle_downlink_nas_transport : Option ℕ → Message → N3iwf S G → Step S G
  unfolding downlink read_ies
  handle_downlink_nas_transport none msg w = ok (w, [])
  handle_downlink_nas_transport (some a) msg w = elim (ies_of msg) [
    | none ↦ ok (w, [])
    | some ies ↦ downlink (read_ies downlink_ie no_ies ies) w
  ]

  unfoldable pub release_listed : ℕ → ℕ → RanUe → List ℕ → N3iwf S G → Step S G
  unfolding delete_listed
  release_listed ran p ue ids w = elim (ike_spi_load ran w) [
    | none ↦ ok (assign p (delete_listed ids ue) w, [])
    | some spi ↦ ok (
      assign p
          (record (delete_listed ids ue) {
            pdu_sess_res_rel_state = true;
            pdu_session_release_list = ids;
          })
          w,
      to_ike (send_child_sa_delete_request_evt spi ids) ∷ [],
    )
  ]

  resource_release_ue : ℕ → ℕ → ℕ → RanUe → ℕ → Option (List ℕ) → N3iwf S G → Step S G
  unfolding release_listed
  resource_release_ue a ran p ue amf list w =
      let listed = (do ids ← or_panic list; release_listed ran p ue ids w) in
      let refused = error_indication a (some ran) (some inconsistent_remote_ue_ngap_id) [] in
      if ue.amf_ue_ngap_id == amf then listed else ok (w, refused ∷ [])

  resource_release : ℕ → Ies → List IeId → N3iwf S G → Step S G
  unfolding resource_release_ue
  resource_release a s (i ∷ missing) w = ok (w, error_indication a none none (i ∷ missing) ∷ [])
  resource_release a s [] w = do
    ran ← or_panic s.ran_id
    elim (ran_ue_pool_load ran w) [
      | none ↦ ok (w, error_indication a none (some unknown_local_ue_ngap_id) [] ∷ [])
      | some p ↦ do
        ue ← or_panic (lookup p w.ran_ues)
        amf ← or_panic s.amf_id
        resource_release_ue a ran p ue amf s.to_release w
    ]

  unfoldable pub handle_pdu_session_resource_release_command :
      Option ℕ → Message → N3iwf S G → Step S G
  unfolding resource_release read_ies
  handle_pdu_session_resource_release_command none msg w = ok (w, [])
  handle_pdu_session_resource_release_command (some a) msg w = elim (ies_of msg) [
    | none ↦ ok (w, [])
    | some ies ↦ let s = read_ies resource_release_ie no_ies ies in resource_release a s s.missing w
  ]

module _ {S G : Type 0} (env : Env S G) where
  -- releaseIkeUeAndRanUe: the event for the IKE server, and the state without the UE.
  unfoldable pub release_ike_ue_and_ran_ue : RanUe → N3iwf S G → Step S G
  release_ike_ue_and_ran_ue ue w = do
    w' ← remove env.ids ue w
    ok (
      w',
      elim (ike_spi_load ue.ran_ue_ngap_id w) [
        | none ↦ []
        | some spi ↦ to_ike (ike_delete_request_evt spi) ∷ []
      ],
    )

  unfoldable pub released : ℕ → RanUe → N3iwf S G → Step S G
  unfolding release_ike_ue_and_ran_ue
  released p ue w = do
    let ue' = record ue { ue_ctx_rel_state = true } in
        release_ike_ue_and_ran_ue ue' (assign p ue' w) >>= λ r.
        ok (r.0, ue_context_release_complete ue' ∷ r.1)

  -- The UE that is found, or nil.
  found_ue : Option ℕ → N3iwf S G → Step S G
  unfolding released
  found_ue none w = ok (w, [])
  found_ue (some p) w = do ue ← or_panic (lookup p w.ran_ues); released p ue w

  context_release : ℕ → Option UeNgapIds → List IeId → N3iwf S G → Step S G
  unfolding find_ue found_ue
  context_release a ids (i ∷ missing) w = ok (w, [])
  context_release a ids [] w = do
    ids ← or_panic ids
    amf ← or_panic (lookup a w.amfs)
    found ← find_ue amf.ran_ue_list ids w
    found_ue found w

  unfoldable pub handle_ue_context_release_command : Option ℕ → Message → N3iwf S G → Step S G
  unfolding context_release read_ies
  handle_ue_context_release_command none msg w = ok (w, [])
  handle_ue_context_release_command (some a) msg w = elim (ies_of msg) [
    | none ↦ ok (w, [])
    | some ies ↦
        let s = read_ies release_command_ie no_ies ies in context_release a s.ids s.missing w
  ]

-- The procedures that are modelled, of those that Dispatch has handlers for.
pub data Procedure : Type 0 where
  downlink_nas_transport ue_context_release pdu_session_resource_release : Procedure
  initial_context_setup pdu_session_resource_setup ng_reset : Procedure

unfoldable pub handle_message :
    {S G : Type 0} → Env S G → Procedure → Option ℕ → Message → N3iwf S G → Step S G
handle_message env downlink_nas_transport amf msg w = handle_downlink_nas_transport amf msg w
handle_message env ue_context_release amf msg w = handle_ue_context_release_command env amf msg w
handle_message env pdu_session_resource_release amf msg w =
    handle_pdu_session_resource_release_command amf msg w
handle_message env initial_context_setup amf msg w =
    handle_initial_context_setup_request env amf msg w
handle_message env pdu_session_resource_setup amf msg w =
    handle_pdu_session_resource_setup_request env amf msg w
handle_message env ng_reset amf msg w = handle_ng_reset env amf msg w
