-- ===== src/Ngap/Session/Round.antt =====
-- One round of the loop over the sessions of a request.
use n3iwf.Prelude.{
  ℕ, ◌≡◌, refl, Bool, true, false, List, [], ◌∷◌, ◌++◌, none, some, inl, inr, ==_iff, arith,
  Option-cases,
}
use n3iwf.Prelude.Bytes.{Bytes}
use n3iwf.Prelude.Map.{
  Map, lookup, insert, delete, lookup-insert, lookup-delete, lookup-insert_self,
}
use n3iwf.Prelude.Outcome.{ok, bind-ok}
use n3iwf.Context.{
  PduSession, SetupData, RanUe, N3iwf, new_pdu_session, create_pdu_session, delete_pdu_session,
}
use n3iwf.Context.Teid.{GeneratorLaws, TeidsInUse}
use n3iwf.Ngap.Message.{SetupItem}
use n3iwf.Ngap.Types.{Env, multiple_pdu_session_id_instances}
use n3iwf.Ngap.Session.{
  TransferResult, set_up, turned_down, bytes_or_nil, add_failed, settle, read_transfer, no_transfer,
  setup_item,
}
use n3iwf.Ngap.Session.Taken.{IsAnswered, Same, Tunnel, Taken, refused, taken, transfer-Taken}

-- The list of the procedure.
abbrev pub failed_of : Bool → SetupData → List (ℕ × Bytes)
failed_of true d = d.failed_list_cxt
failed_of false d = d.failed_list_su

kept-insert :
    (i j : ℕ) (a b s : PduSession) (m : Map PduSession)
    → lookup i m ≡ none
    → lookup j m ≡ some s
    → lookup j (insert i a (insert i b m)) ≡ some s
kept-insert i j a b s m n l =
    ground (arith, lookup-insert i j a (insert i b m), lookup-insert i j b m, ==_iff i j)

kept-delete :
    (i j : ℕ) (b s : PduSession) (m : Map PduSession)
    → lookup i m ≡ none
    → lookup j m ≡ some s
    → lookup j (delete i (insert i b m)) ≡ some s
kept-delete i j b s m n l =
    ground (arith, lookup-delete i j (insert i b m), lookup-insert i j b m, ==_iff i j)

failed-add :
    (initial : Bool) (id : ℕ) (transfer : Bytes) (d : SetupData)
    → failed_of initial (add_failed initial id transfer d)
      ≡ failed_of initial d ++ (id, transfer) ∷ []
unfolding add_failed
failed-add true id transfer d = refl
failed-add false id transfer d = refl

unactivated-add :
    (initial : Bool) (id : ℕ) (transfer : Bytes) (d : SetupData)
    → (add_failed initial id transfer d).unactivated ≡ d.unactivated
unfolding add_failed
unactivated-add true id transfer d = refl
unactivated-add false id transfer d = refl

same_failed :
    (initial : Bool) (s : PduSession) (d : SetupData)
    → failed_of initial (record d { unactivated = d.unactivated ++ s ∷ [] }) ≡ failed_of initial d
same_failed true s d = refl
same_failed false s d = refl

module _ {S G : Type 0} (env : Env S G) (laws : GeneratorLaws env.ids) (initial : Bool)
    (p : ℕ) where
  -- The sessions that the UE has stay.
  unfoldable pub Stay : RanUe → RanUe → Type 0
  Stay ue after =
      (j : ℕ) (s : PduSession)
      → lookup j ue.pdu_session_list ≡ some s
      → lookup j after.pdu_session_list ≡ some s

  -- One round.
  pub data Round (x : SetupItem) (ue : RanUe) (w : N3iwf S G) : RanUe × N3iwf S G → Type 0 where
    rejected :
        {after : RanUe} {v : N3iwf S G} (transfer : Bytes)
        → after.setup_data.unactivated ≡ ue.setup_data.unactivated
        → failed_of initial after.setup_data
          ≡ failed_of initial ue.setup_data ++ (x.session_id, transfer) ∷ []
        → Stay ue after
        → Same env laws p w v
        → Round x ue w (after, v)
    accepted :
        {after : RanUe} {v : N3iwf S G} (s : PduSession)
        → after.setup_data.unactivated ≡ ue.setup_data.unactivated ++ s ∷ []
        → failed_of initial after.setup_data ≡ failed_of initial ue.setup_data
        → Stay ue after
        → s.id ≡ x.session_id
        → lookup x.session_id after.pdu_session_list ≡ some s
        → Tunnel env laws p s w v
        → Round x ue w (after, v)

  settle-Round :
      (x : SetupItem) (ue : RanUe) (w : N3iwf S G) (r : N3iwf S G × TransferResult)
      → lookup x.session_id ue.pdu_session_list ≡ none
      → Taken env laws p x.session_id w r
      → Round x ue w (
        settle initial x.session_id
            (record ue {
              pdu_session_list =
                  insert x.session_id
                    (new_pdu_session x.session_id x.item_snssai)
                    ue.pdu_session_list;
            })
            r.1,
        r.0,
      )
  unfolding settle delete_pdu_session Stay
  settle-Round x ue w (v, turned_down transfer) n (refused same) =
      let b = new_pdu_session x.session_id x.item_snssai in
      rejected
        {after = record ue {
          pdu_session_list = delete x.session_id (insert x.session_id b ue.pdu_session_list);
          setup_data = add_failed initial x.session_id transfer ue.setup_data;
        }}
        transfer (unactivated-add initial x.session_id transfer ue.setup_data)
        (failed-add initial x.session_id transfer ue.setup_data)
        (λ j s l. kept-delete x.session_id j b s ue.pdu_session_list n l) same
  settle-Round x ue w (v, set_up s) n (taken named tunnel) =
      let b = new_pdu_session x.session_id x.item_snssai in
      let sessions = insert x.session_id s (insert x.session_id b ue.pdu_session_list) in
      accepted
        {after = record ue {
          pdu_session_list = sessions;
          setup_data = record ue.setup_data { unactivated = ue.setup_data.unactivated ++ s ∷ [] };
        }}
        s refl (same_failed initial s ue.setup_data)
        (λ j t l. kept-insert x.session_id j s b t ue.pdu_session_list n l) named
        (lookup-insert_self x.session_id s (insert x.session_id b ue.pdu_session_list)) tunnel

  pub setup_item-Round :
      (x : SetupItem) (ue : RanUe) (w : N3iwf S G)
      → IsAnswered (read_transfer no_transfer (env.decode_transfer x.transfer))
      → TeidsInUse env.ids laws w
      → (r : RanUe × N3iwf S G) × (setup_item env initial p x (ue, w) ≡ ok r) × Round x ue w r
  unfolding setup_item create_pdu_session Stay
  setup_item-Round x ue w answered h =
      elim (Option-cases (lookup x.session_id ue.pdu_session_list)) [
        | inr (s, e) ↦
            let transfer = bytes_or_nil (env.refusal multiple_pdu_session_id_instances []) in
            (
              (
                record ue { setup_data = add_failed initial x.session_id transfer ue.setup_data },
                w,
              ),
              rw (e, setup_item, create_pdu_session) refl,
              rejected transfer (unactivated-add initial x.session_id transfer ue.setup_data)
                  (failed-add initial x.session_id transfer ue.setup_data) (λ j t l. l)
                  (record { leads = λ j n. refl; in_use = h }),
            )
        | inl e ↦
            let (r, run, result) =
              transfer-Taken env laws p (new_pdu_session x.session_id x.item_snssai)
                (env.decode_transfer x.transfer) w answered h in
            (
              _,
              rw (e, setup_item, create_pdu_session) (bind-ok _ run),
              settle-Round x ue w r e result,
            )
      ]
