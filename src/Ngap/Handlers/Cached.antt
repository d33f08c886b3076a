-- ===== src/Ngap/Handlers/Cached.antt =====
-- The NAS message that waits for the TCP connection of a UE.
use n3iwf.Prelude.{ℕ, ◌≡◌, refl, ◌∙◌, true, [], ◌∷◌, none, some, ==_self}
use n3iwf.Prelude.Bytes.{Bytes}
use n3iwf.Prelude.Map.{lookup-insert}
use n3iwf.Prelude.Outcome.{ok}
use n3iwf.Context.{RanUe, N3iwf, assign}
use n3iwf.Events.{type_of, nas_tcp_conn_established_complete_evt}
use n3iwf.Ngap.Types.{Env, to_tcp}
use n3iwf.Ngap.Keep.{with_ran_ue-some}
use n3iwf.Ngap.Handlers.{handle_event, dispatch, handle_nas_tcp_conn_established_complete}
use n3iwf.Ngap.Handlers.Release.{Stands}

module _ {S G : Type 0} (env : Env S G) where
  pub cached_sent :
      (id p connection : ℕ) (message : Bytes) (ue : RanUe) (w : N3iwf S G)
      → Stands id p ue w
      → ue.tcp_connection ≡ some connection
      → ue.cached_nas ≡ some message
      → handle_event env w (nas_tcp_conn_established_complete_evt id)
        ≡ ok (
          assign p (record ue { is_nas_tcp_complete = true; cached_nas = none }) w,
          to_tcp connection message ∷ [],
        )
  unfolding handle_event dispatch type_of handle_nas_tcp_conn_established_complete
  cached_sent id p connection message ue w s t m =
      with_ran_ue-some id p ue w _ s.in_pool s.in_heap ∙ simp (t, m)

  -- When the TCP connection of a UE is complete, the cached NAS message goes to it, and a second
  -- event of the kind sends nothing: the message goes out once.
  pub cached_once :
      (id p connection : ℕ) (message : Bytes) (ue : RanUe) (w : N3iwf S G)
      → Stands id p ue w
      → ue.tcp_connection ≡ some connection
      → ue.cached_nas ≡ some message
      → (w1 w2 : N3iwf S G) × (handle_event env w (nas_tcp_conn_established_complete_evt id)
          ≡ ok (w1, to_tcp connection message ∷ []))
        × (handle_event env w1 (nas_tcp_conn_established_complete_evt id) ≡ ok (w2, []))
  unfolding handle_event dispatch type_of handle_nas_tcp_conn_established_complete assign
  cached_once id p connection message ue w s t m =
      let sent = record ue { is_nas_tcp_complete = true; cached_nas = none } in
      (
        assign p sent w,
        assign p sent (assign p sent w),
        cached_sent id p connection message ue w s t m,
        with_ran_ue-some id p sent (assign p sent w) _ s.in_pool
            (lookup-insert p p sent w.ran_ues ∙ rw (==_self p) refl),
      )
