-- ===== src/Ngap/Session/Settled.antt =====
-- The loop over the sessions of a request: which are set up, and which are turned down.
use n3iwf.Prelude.{
  ap, sym, some-injective, ℕ, ◌≡◌, ◌≢◌, refl, ◌∙◌, Bool, List, [], ◌∷◌, ◌++◌, append_assoc,
  append-nil, All, none, some, ◌==◌, ==_iff, arith, if◌then◌else◌,
}
use n3iwf.Prelude.Bytes.{Bytes}
use n3iwf.Prelude.Map.{lookup}
use n3iwf.Prelude.Outcome.{ok, bind-ok}
use n3iwf.Context.{GtpConnectionInfo, PduSession, RanUe, N3iwf}
use n3iwf.Context.Teid.{GeneratorLaws, TeidsInUse}
use n3iwf.Ngap.Message.{SetupItem}
use n3iwf.Ngap.Types.{Env}
use n3iwf.Ngap.Session.{read_transfer, no_transfer, setup_items}
use n3iwf.Ngap.Session.Taken.{IsAnswered, Same, Tunnel}
use n3iwf.Ngap.Session.Round.{failed_of, Stay, Round, rejected, accepted, setup_item-Round}

module _ {S G : Type 0} (env : Env S G) (laws : GeneratorLaws env.ids) (initial : Bool)
    (p : ℕ) where
  -- A session that is set up is in the list of the UE at the end, and its tunnel has a TEID that led
  -- nowhere before, and leads to the UE at the end.
  pub record IsSetUp (w : N3iwf S G) (after : RanUe) (v : N3iwf S G) (s : PduSession) : Type 0 where
    pub info : GtpConnectionInfo
    pub has_info : s.gtp_conn_info ≡ some info
    pub nonzero : info.incoming_teid ≢ 0
    pub fresh : lookup info.incoming_teid w.allocated_ue_teid ≡ none
    pub leads : lookup info.incoming_teid v.allocated_ue_teid ≡ some p
    pub is_listed : lookup s.id after.pdu_session_list ≡ some s

  -- The tunnel of a session has a TEID.
  abbrev pub HasTeid : ℕ → PduSession → Type 0
  HasTeid t s =
      (info : GtpConnectionInfo) × (s.gtp_conn_info ≡ some info) × (info.incoming_teid ≡ t)

  -- The items of the request, in order: the sessions that are set up, and the failed list.
  pub data Settled (w : N3iwf S G) (after : RanUe) (v : N3iwf S G)
      : List SetupItem → List PduSession → List (ℕ × Bytes) → Type 0 where
    nothing : Settled w after v [] [] []
    is_set_up :
        {x : SetupItem} {xs : List SetupItem} {s : PduSession} {ss : List PduSession}
        {fs : List (ℕ × Bytes)}
        → s.id ≡ x.session_id
        → (up : IsSetUp w after v s) → All (λ s'. ¬ HasTeid up.info.incoming_teid s') ss
        → Settled w after v xs ss fs
        → Settled w after v (x ∷ xs) (s ∷ ss) fs
    is_turned_down :
        {x : SetupItem} {xs : List SetupItem} {ss : List PduSession} {fs : List (ℕ × Bytes)}
        (transfer : Bytes)
        → Settled w after v xs ss fs
        → Settled w after v (x ∷ xs) ss ((x.session_id, transfer) ∷ fs)

  -- A TEID that is new after some rounds was new before.
  earlier :
      (w m : N3iwf S G) (after : RanUe) (v : N3iwf S G) (xs : List SetupItem) (ss : List PduSession)
      (fs : List (ℕ × Bytes))
      → ((j : ℕ)
          → j ≢ 0
          → lookup j m.allocated_ue_teid ≡ none
          → lookup j w.allocated_ue_teid ≡ none)
      → Settled m after v xs ss fs
      → Settled w after v xs ss fs
  earlier w m after v _ _ _ f nothing = nothing
  earlier w m after v (x ∷ xs) (s ∷ ss) fs f (is_set_up named there distinct rest) =
      is_set_up named
        (record {
          info = there.info;
          has_info = there.has_info;
          nonzero = there.nonzero;
          fresh = f there.info.incoming_teid there.nonzero there.fresh;
          leads = there.leads;
          is_listed = there.is_listed;
        })
        distinct (earlier w m after v xs ss fs f rest)
  earlier w m after v (x ∷ xs) ss _ f (is_turned_down {fs = fs} transfer rest) =
      is_turned_down transfer (earlier w m after v xs ss fs f rest)

  -- What the loop gives.
  pub record Finished (xs : List SetupItem) (ue : RanUe) (w : N3iwf S G) (after : RanUe)
      (v : N3iwf S G) : Type 0 where
    pub sessions : List PduSession
    pub failures : List (ℕ × Bytes)
    pub unactivated : after.setup_data.unactivated ≡ ue.setup_data.unactivated ++ sessions
    pub failed : failed_of initial after.setup_data ≡ failed_of initial ue.setup_data ++ failures
    pub settled : Settled w after v xs sessions failures
    pub stay : Stay env laws initial p ue after
    pub teids_stay :
        (j q : ℕ)
        → j ≢ 0
        → lookup j w.allocated_ue_teid ≡ some q
        → lookup j v.allocated_ue_teid ≡ some q
    pub in_use : TeidsInUse env.ids laws v

  -- The TEIDs that are set up are not those that led to a UE before.
  avoids :
      (m : N3iwf S G) (after : RanUe) (v : N3iwf S G) (xs : List SetupItem) (ss : List PduSession)
      (fs : List (ℕ × Bytes)) (t q : ℕ)
      → lookup t m.allocated_ue_teid ≡ some q
      → Settled m after v xs ss fs
      → All (λ s. ¬ HasTeid t s) ss
  avoids m after v _ _ _ t q l nothing = tt
  avoids m after v (x ∷ xs) (s ∷ ss) fs t q l (is_set_up named there distinct rest) = (
    λ (info, e, f).
        let same : there.info ≡ info = some-injective (sym there.has_info ∙ e) in
        let led : lookup there.info.incoming_teid m.allocated_ue_teid ≡ some q =
          ap (λ i. lookup i m.allocated_ue_teid) (ap (λ i. i.incoming_teid) same ∙ f) ∙ l in
        ground (arith, sym there.fresh ∙ led),
    avoids m after v xs ss fs t q l rest,
  )
  avoids m after v (x ∷ xs) ss _ t q l (is_turned_down {fs = fs} transfer rest) =
      avoids m after v xs ss fs t q l rest

  rejected_then :
      (x : SetupItem) (xs : List SetupItem) (ue : RanUe) (w : N3iwf S G) (mid : RanUe)
      (m : N3iwf S G) (after : RanUe) (v : N3iwf S G) (transfer : Bytes)
      → mid.setup_data.unactivated ≡ ue.setup_data.unactivated
      → failed_of initial mid.setup_data
        ≡ failed_of initial ue.setup_data ++ (x.session_id, transfer) ∷ []
      → Stay env laws initial p ue mid
      → Same env laws p w m
      → Finished xs mid m after v
      → Finished (x ∷ xs) ue w after v
  unfolding Stay
  rejected_then x xs ue w mid m after v transfer e f stay s r = record {
    sessions = r.sessions;
    failures = (x.session_id, transfer) ∷ r.failures;
    unactivated = r.unactivated ∙ ap (λ l. l ++ r.sessions) e;
    failed =
        r.failed
        ∙ (ap (λ l. l ++ r.failures) f
            ∙ append_assoc (failed_of initial ue.setup_data) ((x.session_id, transfer) ∷ [])
                r.failures);
    settled =
        is_turned_down transfer
          (earlier w m after v xs r.sessions r.failures (λ j n l. sym (s.leads j n) ∙ l) r.settled);
    stay = λ j t l. r.stay j t (stay j t l);
    teids_stay = λ j q n l. r.teids_stay j q n (s.leads j n ∙ l);
    in_use = r.in_use;
  }

  -- What led nowhere after a tunnel is there led nowhere before, and what led somewhere does so.
  before_tunnel :
      (w m : N3iwf S G) (t j : ℕ)
      → lookup j m.allocated_ue_teid ≡ (if t == j then some p else lookup j w.allocated_ue_teid)
      → lookup j m.allocated_ue_teid ≡ none
      → lookup j w.allocated_ue_teid ≡ none
  before_tunnel w m t j e n = ground (arith, e, n)

  after_tunnel :
      (w m : N3iwf S G) (t j q : ℕ)
      → lookup t w.allocated_ue_teid ≡ none
      → lookup j m.allocated_ue_teid ≡ (if t == j then some p else lookup j w.allocated_ue_teid)
      → lookup j w.allocated_ue_teid ≡ some q
      → lookup j m.allocated_ue_teid ≡ some q
  after_tunnel w m t j q f e l = ground (arith, e, l, f, ==_iff t j)

  own_teid :
      (w m : N3iwf S G) (t : ℕ)
      → lookup t m.allocated_ue_teid ≡ (if t == t then some p else lookup t w.allocated_ue_teid)
      → lookup t m.allocated_ue_teid ≡ some p
  own_teid w m t e = ground (arith, e, ==_iff t t)

  accepted_then :
      (x : SetupItem) (xs : List SetupItem) (ue : RanUe) (w : N3iwf S G) (mid : RanUe)
      (m : N3iwf S G) (after : RanUe) (v : N3iwf S G) (s : PduSession)
      → mid.setup_data.unactivated ≡ ue.setup_data.unactivated ++ s ∷ []
      → failed_of initial mid.setup_data ≡ failed_of initial ue.setup_data
      → Stay env laws initial p ue mid
      → s.id ≡ x.session_id
      → lookup x.session_id mid.pdu_session_list ≡ some s
      → Tunnel env laws p s w m
      → Finished xs mid m after v
      → Finished (x ∷ xs) ue w after v
  unfolding Stay
  accepted_then x xs ue w mid m after v s e f stay named there t r =
      let teid = t.info.incoming_teid in
      let own = own_teid w m teid (t.leads teid) in
      record {
        sessions = s ∷ r.sessions;
        failures = r.failures;
        unactivated =
            r.unactivated
            ∙ (ap (λ l. l ++ r.sessions) e
                ∙ append_assoc ue.setup_data.unactivated (s ∷ []) r.sessions);
        failed = r.failed ∙ ap (λ l. l ++ r.failures) f;
        settled =
            is_set_up named
              (record {
                info = t.info;
                has_info = t.has_info;
                nonzero = t.nonzero;
                fresh = t.fresh;
                leads = r.teids_stay teid p t.nonzero own;
                is_listed =
                    ap (λ i. lookup i after.pdu_session_list) named ∙ r.stay x.session_id s there;
              })
              (avoids m after v xs r.sessions r.failures teid p own r.settled)
              (earlier w m after v xs r.sessions r.failures
                (λ j n l. before_tunnel w m teid j (t.leads j) l) r.settled);
        stay = λ j u l. r.stay j u (stay j u l);
        teids_stay =
            λ j q n l. r.teids_stay j q n (after_tunnel w m teid j q t.fresh (t.leads j) l);
        in_use = r.in_use;
      }

  in_use_after :
      (x : SetupItem) (ue : RanUe) (w : N3iwf S G) (r : RanUe × N3iwf S G)
      → Round env laws initial p x ue w r
      → TeidsInUse env.ids laws r.1
  in_use_after x ue w r (rejected transfer e f stay s) = s.in_use
  in_use_after x ue w r (accepted s e f stay named there t) = t.in_use

  one_more :
      (x : SetupItem) (xs : List SetupItem) (ue : RanUe) (w : N3iwf S G) (r : RanUe × N3iwf S G)
      (after : RanUe) (v : N3iwf S G)
      → Round env laws initial p x ue w r
      → Finished xs r.0 r.1 after v
      → Finished (x ∷ xs) ue w after v
  one_more x xs ue w (mid, m) after v (rejected transfer e f stay s) rest =
      rejected_then x xs ue w mid m after v transfer e f stay s rest
  one_more x xs ue w (mid, m) after v (accepted s e f stay named there t) rest =
      accepted_then x xs ue w mid m after v s e f stay named there t rest

  -- The sessions of a request, whose transfers are all answered, in a state where each TEID that leads to
  -- a UE is in use, with an ID generator that keeps to its laws: the loop ends without a panic. Each
  -- session either joins the unactivated ones or gets an entry of the failed list, in the order of the
  -- request. One that joins is in the list of the UE under its ID at the end, and its tunnel has a TEID
  -- other than 0 that led nowhere before the loop and leads to the UE at the end, and no two of them
  -- share one. The sessions that the UE had stay, and so do the TEIDs other than 0 that led to a UE.
  -- Each TEID that leads to a UE is in use at the end.
  pub setup_items-Finished :
      (xs : List SetupItem) (ue : RanUe) (w : N3iwf S G)
      → All (λ x. IsAnswered (read_transfer no_transfer (env.decode_transfer x.transfer))) xs
      → TeidsInUse env.ids laws w
      → (r : RanUe × N3iwf S G) × (setup_items env initial p xs (ue, w) ≡ ok r)
        × Finished xs ue w r.0 r.1
  unfolding setup_items Stay
  setup_items-Finished [] ue w answered h = (
    (ue, w),
    refl,
    record {
      sessions = [];
      failures = [];
      unactivated = sym (append-nil ue.setup_data.unactivated);
      failed = sym (append-nil (failed_of initial ue.setup_data));
      settled = nothing;
      stay = λ j s l. l;
      teids_stay = λ j q n l. l;
      in_use = h;
    },
  )
  setup_items-Finished (x ∷ xs) ue w (a, answered) h =
      let (r, run, round) = setup_item-Round env laws initial p x ue w a h in
      let (r', run', rest) =
        setup_items-Finished xs r.0 r.1 answered (in_use_after x ue w r round) in
      (r', bind-ok _ run ∙ run', one_more x xs ue w r r'.0 r'.1 round rest)
