-- ===== src/Nas/Tests.antt =====
-- Concrete streams of envelopes.
use n3iwf.Prelude.{suc, ◌+◌, ◌≡◌, ◌≢◌, List, [], ◌∷◌, ◌++◌, length, arith}
use n3iwf.Prelude.Bytes.{Bytes}
use n3iwf.Nas.{serve_conn, no_length, fuel_used}
use n3iwf.Nas.Framing.{envelopes, Split, serve_conn_forwards, serve_conn-Split}

abbrev two_messages : List Bytes
two_messages = (126 ∷ 0 ∷ []) ∷ [] ∷ []

serve_conn_forwards_example :
    serve_conn (suc 3 + length two_messages) (envelopes two_messages ++ 0 ∷ [])
    ≡ (two_messages, no_length)
serve_conn_forwards_example =
    serve_conn_forwards two_messages (0 ∷ []) 3 (omega arith, (omega arith, tt)) (omega arith)

abbrev cut_short : Bytes
cut_short = 0 ∷ 1 ∷ 126 ∷ 0 ∷ 9 ∷ 1 ∷ []

serve_conn-Split_example :
    ((serve_conn 8 cut_short).1 ≢ fuel_used) × Split cut_short (serve_conn 8 cut_short)
serve_conn-Split_example =
    serve_conn-Split 8 cut_short
      (omega arith, (omega arith, (omega arith, (omega arith, (omega arith, (omega arith, tt))))))
      (omega arith)
