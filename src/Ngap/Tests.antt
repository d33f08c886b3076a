-- ===== src/Ngap/Tests.antt =====
-- Events at the gateway of the tests of Context.
use n3iwf.Prelude.{ℕ, ◌≡◌, refl, true, [], ◌∷◌, none, some, arith}
use n3iwf.Prelude.Map.{lookup}
use n3iwf.Prelude.Outcome.{ok, After}
use n3iwf.Context.{N3iwf}
use n3iwf.Context.Pools.{IsConsistent}
use n3iwf.Context.Remove.{no_sessions, one_more, known}
use n3iwf.Context.Tests.{counter, ue, amf, gateway, encode_guami}
use n3iwf.Events.{unmarshal_eap5g_data_evt, send_ue_context_release_evt}
use n3iwf.Ngap.Types.{
  TransferIe, qos_flow_setup_request_list, ul_ngu_up_tnl_information, Env,
  ue_context_release_request, ue_context_release_complete,
}
use n3iwf.Ngap.Keep.{Kept}
use n3iwf.Prelude.{List}
use n3iwf.Prelude.Map.{insert}
use n3iwf.Context.{ike_spi_ngap_id_mapping, assign, RanUe}
use n3iwf.Events.{
  send_child_sa_delete_request_evt, ike_delete_request_evt, nas_tcp_conn_established_complete_evt,
}
use n3iwf.Ngap.Types.{Sent, to_ike, to_tcp}
use n3iwf.Nas.{encap_nas_msg_to_envelope}
use n3iwf.Ngap.Message.{
  Ie, amf_ue_ngap_id, ran_ue_ngap_id, nas_pdu, ue_ngap_ids, ue_ngap_id_pair, other_ie,
  pdu_session_resource_to_release_list, read_ies,
}
use n3iwf.Ngap.Amf.{
  handle_message, downlink_nas_transport, handle_downlink_nas_transport, match_amf_id,
  handle_ue_context_release_command, handle_pdu_session_resource_release_command,
}
use n3iwf.Ngap.Amf.Keeps.{handle_message-IsConsistent}
use n3iwf.Ngap.Amf.Released.{Releasing, release_command-Releasing, release_command-Gone}
use n3iwf.Ngap.Amf.Overwritten.{downlink_overwritten}
use n3iwf.Ngap.Amf.Routed.{Routed, downlink-Routed}
use n3iwf.Ngap.Handlers.{handle_event}
use n3iwf.Ngap.Handlers.Keeps.{handle_event-IsConsistent}
use n3iwf.Ngap.Handlers.Unknown.{Ignored, handle_event-unknown}
use n3iwf.Ngap.Handlers.Release.{Stands, Gone, release_twice}

-- A flow, and a tunnel to the UPF at 10.0.0.2.
abbrev pub session_transfer : List TransferIe
session_transfer =
    qos_flow_setup_request_list (some ((5, 0) ∷ []))
    ∷ ul_ngu_up_tnl_information (some (some (10 ∷ 0 ∷ 0 ∷ 2 ∷ [], 0 ∷ 0 ∷ 0 ∷ 23 ∷ [])))
    ∷ []

abbrev pub environment : Env ℕ ℕ
environment = record {
  ids = counter;
  aper = record { decode_guami = λ v. none; decode_plmn = λ v. some v };
  encode_guami = encode_guami;
  write = λ c m. true;
  closes = λ c. true;
  unsuccessful_transfer = some [];
  response_transfer = λ s. some [];
  fuel = 100;
  decode_transfer = λ b. session_transfer;
  refusal = λ c missing. some [];
  ip_address_to_string = λ b. some b;
  resolve_udp_addr = λ b. some 78;
}

gateway-IsConsistent : IsConsistent gateway
unfolding lookup
gateway-IsConsistent = record {
  leads = λ id p h. (ue, ground arith, ground arith);
  bounded = λ p u h. ground arith;
}

pub here : Stands 4 7 ue gateway
unfolding lookup
here = record { in_pool = refl; in_heap = refl }

handle_event-IsConsistent_example :
    After Kept (handle_event environment gateway (send_ue_context_release_evt 4))
handle_event-IsConsistent_example =
    handle_event-IsConsistent environment gateway gateway-IsConsistent
      (send_ue_context_release_evt 4)

handle_event-unknown_example :
    Ignored gateway
      (unmarshal_eap5g_data_evt 900 (0 ∷ 0 ∷ 0 ∷ []) true 9)
      (handle_event environment gateway (unmarshal_eap5g_data_evt 900 (0 ∷ 0 ∷ 0 ∷ []) true 9))
unfolding lookup
handle_event-unknown_example =
    handle_event-unknown environment gateway 9 refl
      (unmarshal_eap5g_data_evt 900 (0 ∷ 0 ∷ 0 ∷ []) true 9)
      (omega arith, (omega arith, (omega arith, tt))) refl

release_twice_example :
    (w1 w2 : N3iwf ℕ ℕ) × (handle_event environment gateway (send_ue_context_release_evt 4)
      ≡ ok (w1, ue_context_release_request ue ∷ []))
    × (handle_event environment w1 (send_ue_context_release_evt 4)
        ≡ ok (w2, ue_context_release_complete (record ue { ue_ctx_rel_state = true }) ∷ []))
    × Gone 4 (3 ∷ []) w2
unfolding lookup
release_twice_example =
    release_twice environment 4 7 ue (3 ∷ []) gateway here refl refl (known 2 amf refl refl)
      (one_more refl no_sessions)

-- The gateway with SPI 900 for the UE.
abbrev mapped : N3iwf ℕ ℕ
mapped = ike_spi_ngap_id_mapping 900 4 gateway

mapped_here : Stands 4 7 ue mapped
unfolding lookup ike_spi_ngap_id_mapping
mapped_here = record { in_pool = refl; in_heap = refl }

abbrev downlink_ies : List Ie
downlink_ies =
    amf_ue_ngap_id (some 55) ∷ ran_ue_ngap_id (some 4) ∷ nas_pdu (some (126 ∷ [])) ∷ other_ie ∷ []

handle_message-IsConsistent_example : After Kept (
    handle_message environment downlink_nas_transport
      (some 2)
      (some (some (some downlink_ies)))
      gateway)
handle_message-IsConsistent_example =
    handle_message-IsConsistent gateway gateway-IsConsistent environment downlink_nas_transport
      (some 2) (some (some (some downlink_ies)))

-- The message has the first AMF UE NGAP ID of the UE, and the TCP connection is not established.
downlink-Routed_example :
    (r : N3iwf ℕ ℕ × List Sent) × (handle_downlink_nas_transport
        (some 2)
        (some (some (some downlink_ies)))
        mapped
      ≡ ok r)
    × Routed environment (126 ∷ []) 4 900 11 (record ue { amf_ue_ngap_id = 55 }) r
unfolding read_ies match_amf_id lookup ike_spi_ngap_id_mapping insert
downlink-Routed_example =
    downlink-Routed environment 2 4 7 900 11 (126 ∷ []) downlink_ies ue
      (record ue { amf_ue_ngap_id = 55 }) mapped refl refl refl mapped_here refl (λ e. refl)

-- The UE has the AMF UE NGAP ID of the messages, and its TCP connection is established.
abbrev connecting : RanUe
connecting = record ue { amf_ue_ngap_id = 55; is_nas_tcp_established = true }

abbrev half_connected : N3iwf ℕ ℕ
half_connected = assign 7 connecting mapped

half_connected_here : Stands 4 7 connecting half_connected
unfolding lookup ike_spi_ngap_id_mapping assign insert
half_connected_here = record { in_pool = refl; in_heap = refl }

abbrev later_ies : List Ie
later_ies = amf_ue_ngap_id (some 55) ∷ ran_ue_ngap_id (some 4) ∷ nas_pdu (some (127 ∷ [])) ∷ []

downlink_overwritten_example :
    (v w1 w2 : N3iwf ℕ ℕ) × (handle_downlink_nas_transport
        (some 2)
        (some (some (some downlink_ies)))
        half_connected
      ≡ ok (w1, []))
    × (handle_downlink_nas_transport (some 2) (some (some (some later_ies))) w1 ≡ ok (w2, []))
    × (handle_event environment w2 (nas_tcp_conn_established_complete_evt 4)
        ≡ ok (v, to_tcp 11 (encap_nas_msg_to_envelope (127 ∷ [])) ∷ []))
unfolding read_ies lookup ike_spi_ngap_id_mapping insert assign
downlink_overwritten_example =
    downlink_overwritten environment 2 4 55 7 900 11 (126 ∷ []) (127 ∷ []) downlink_ies later_ies
      connecting half_connected (record { ran_ue = refl; amf_ue = refl; message = refl })
      (record { ran_ue = refl; amf_ue = refl; message = refl }) refl (λ e. ground arith)
      half_connected_here refl refl refl refl

abbrev release_ies : List Ie
release_ies =
    amf_ue_ngap_id (some 1099511627775)
    ∷ ran_ue_ngap_id (some 4)
    ∷ pdu_session_resource_to_release_list (some (1 ∷ 2 ∷ []))
    ∷ []

release_command-Releasing_example :
    (after : RanUe) × (handle_pdu_session_resource_release_command
        (some 2)
        (some (some (some release_ies)))
        mapped
      ≡ ok (assign 7 after mapped, to_ike (send_child_sa_delete_request_evt 900 (1 ∷ 2 ∷ [])) ∷ []))
    × Releasing (1 ∷ 2 ∷ []) ue after
    × ((assign 7 after mapped).allocated_ue_teid ≡ mapped.allocated_ue_teid)
unfolding read_ies lookup ike_spi_ngap_id_mapping insert
release_command-Releasing_example =
    release_command-Releasing 2 4 1099511627775 7 900 (1 ∷ 2 ∷ []) release_ies ue mapped refl refl
      refl refl mapped_here refl refl

abbrev context_release_ies : List Ie
context_release_ies = ue_ngap_ids (some (ue_ngap_id_pair 55 4)) ∷ []

release_command-Gone_example :
    (v : N3iwf ℕ ℕ) × (handle_ue_context_release_command environment
        (some 2)
        (some (some (some context_release_ies)))
        mapped
      ≡ ok (
        v,
        ue_context_release_complete (record ue { ue_ctx_rel_state = true })
            ∷ to_ike (ike_delete_request_evt 900)
            ∷ [],
      ))
    × Gone 4 (3 ∷ []) v
unfolding read_ies lookup ike_spi_ngap_id_mapping insert
release_command-Gone_example =
    release_command-Gone environment 2 55 4 7 900 (3 ∷ []) context_release_ies amf ue mapped refl
      refl refl mapped_here refl refl (known 2 amf refl refl) (one_more refl no_sessions)
