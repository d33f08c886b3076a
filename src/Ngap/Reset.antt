-- ===== src/Ngap/Reset.antt =====
-- HandleNGReset of internal/ngap/handler.go, with RemoveAllRelatedUe and FindUeByAmfUeNgapID of
-- internal/context/amf.go.
--
-- The loop of RemoveAllRelatedUe ranges over a map from which Remove deletes: an entry that is gone when
-- its turn comes is passed over. An error of Remove, which ends that loop, comes from closing the TCP
-- connection only.
pub mod Keeps
use n3iwf.Prelude.{ℕ, Bool, true, false, List, [], ◌∷◌, Option, none, some, ◌==◌, if◌then◌else◌}
use n3iwf.Prelude.Map.{Map, lookup}
use n3iwf.Prelude.Outcome.{Outcome, ok, err, panic, out_of_fuel, ◌>>=◌, or_panic}
use n3iwf.Context.{RanUe, N3iwf, Go, ran_ue_pool_load, remove}
use n3iwf.Ngap.Message.{
  ResetType, ng_interface, part_of_ng_interface, other_reset_type, Message, ies_of, Ies, no_ies,
  reset_ie, read_ies,
}
use n3iwf.Ngap.Types.{Env, IeId, Sent, error_indication, ng_reset_acknowledge, Step}

module _ {S G : Type 0} where
  -- FindUeByAmfUeNgapID in the list of an AMF: the first UE with the ID, by its pointer.
  unfoldable pub find_ue_by_amf_ue_ngap_id : ℕ → Map ℕ → N3iwf S G → Go (Option ℕ)
  find_ue_by_amf_ue_ngap_id id [] w = ok none
  find_ue_by_amf_ue_ngap_id id ((i, p) ∷ list) w = do
    ue ← or_panic (lookup p w.ran_ues)
    let rest = find_ue_by_amf_ue_ngap_id id list w in
        if ue.amf_ue_ngap_id == id then ok (some p) else rest

  -- The UE of an item, which has an AMF UE NGAP ID and a RAN UE NGAP ID that may be nil. Without both,
  -- it is the one of the item before.
  reset_item : ℕ → Option ℕ → Option ℕ → Option ℕ → N3iwf S G → Go (Option ℕ)
  unfolding find_ue_by_amf_ue_ngap_id
  reset_item a last amf (some ran) w = ok (ran_ue_pool_load ran w)
  reset_item a last (some amf) none w = do
    object ← or_panic (lookup a w.amfs)
    find_ue_by_amf_ue_ngap_id amf object.ran_ue_list w
  reset_item a last none none w = ok last

-- SendNGResetAcknowledge drops an empty list.
abbrev acknowledged : ℕ → List (Option ℕ × Option ℕ) → List Sent
acknowledged a [] = []
acknowledged a (x ∷ xs) = ng_reset_acknowledge a (some (x ∷ xs)) ∷ []

module _ {S G : Type 0} (env : Env S G) where
  is_closed : Option ℕ → Bool
  is_closed none = true
  is_closed (some connection) = env.closes connection

  -- Remove of the UE at `p`, with false for an error.
  remove_ue : ℕ → N3iwf S G → Go (N3iwf S G × Bool)
  unfolding is_closed
  remove_ue p w = do
    ue ← or_panic (lookup p w.ran_ues)
    w' ← remove env.ids ue w
    ok (w', is_closed ue.tcp_connection)

  remove_all_related_ue : ℕ → Map ℕ → N3iwf S G → Go (N3iwf S G)
  unfolding remove_ue
  remove_all_related_ue a [] w = ok w
  remove_all_related_ue a ((id, p) ∷ list) w = do
    amf ← or_panic (lookup a w.amfs)
    elim (lookup id amf.ran_ue_list) as (λ _. Go (N3iwf S G)) [
      | none ↦ remove_all_related_ue a list w
      | some q ↦ remove_ue q w >>= λ r.
          let rest = remove_all_related_ue a list r.0 in if r.1 then rest else ok r.0
    ]

  remove_if_found : Option ℕ → N3iwf S G → Go (N3iwf S G)
  unfolding remove_ue
  remove_if_found none w = ok w
  remove_if_found (some p) w = remove_ue p w >>= λ r. ok r.0

  reset_items : ℕ → Option ℕ → List (Option ℕ × Option ℕ) → N3iwf S G → Go (N3iwf S G)
  unfolding reset_item remove_if_found
  reset_items a last [] w = ok w
  reset_items a last ((amf, ran) ∷ items) w = do
    found ← reset_item a last amf ran w
    w' ← remove_if_found found w
    reset_items a found items w'

  reset_by : ℕ → ResetType → N3iwf S G → Step S G
  unfolding remove_all_related_ue reset_items
  reset_by a ng_interface w = do
    amf ← or_panic (lookup a w.amfs)
    w' ← remove_all_related_ue a amf.ran_ue_list w
    ok (w', ng_reset_acknowledge a none ∷ [])
  reset_by a (part_of_ng_interface none) w = ok (w, [])
  reset_by a (part_of_ng_interface (some items)) w = do
    w' ← reset_items a none items w
    ok (w', acknowledged a items)
  reset_by a other_reset_type w = ok (w, [])

  reset : ℕ → Ies → List IeId → N3iwf S G → Step S G
  unfolding reset_by
  reset a s (i ∷ missing) w = ok (w, error_indication a none none (i ∷ missing) ∷ [])
  reset a s [] w = do cause ← or_panic s.ies_cause; type ← or_panic s.ies_reset; reset_by a type w

  unfoldable pub handle_ng_reset : Option ℕ → Message → N3iwf S G → Step S G
  unfolding reset read_ies
  handle_ng_reset none msg w = ok (w, [])
  handle_ng_reset (some a) msg w = elim (ies_of msg) [
    | none ↦ ok (w, [])
    | some ies ↦ let s = read_ies reset_ie no_ies ies in reset a s s.missing w
  ]
