-- ===== src/Nas/Framing.antt =====
-- Envelopes on a connection.
use n3iwf.Prelude.{
  ℕ, zero, suc, ◌+◌, ◌^◌, ◌<◌, ◌≤◌, ◌≡◌, ◌≢◌, refl, ap, ◌∙◌, List, [], ◌∷◌, ◌++◌, append_assoc,
  length, take, drop, length-append, length-drop, length-take, append-nil, All-drop,
  take-append-drop, take-append_length, drop-append_length, All, arith,
}
use native.Mathlib.Decide.{dec_lt}
use n3iwf.Prelude.Bytes.{Bytes, IsByte, uint16}
use n3iwf.Nas.{
  Stop, encap_nas_msg_to_envelope, no_length, no_message, fuel_used, Served, serve_conn,
}

abbrev pub Fits : Bytes → Type 0
Fits m = length m < 2 ^ 16

-- The messages of a UE, one envelope behind the other.
unfoldable pub envelopes : List Bytes → Bytes
envelopes [] = []
envelopes (m ∷ ms) = encap_nas_msg_to_envelope m ++ envelopes ms

serve_one :
    (fuel : ℕ) (m rest : Bytes)
    → Fits m
    → serve_conn (suc fuel) (encap_nas_msg_to_envelope m ++ rest)
      ≡ (m ∷ (serve_conn fuel rest).0, (serve_conn fuel rest).1)
unfolding serve_conn encap_nas_msg_to_envelope
serve_one fuel m rest h =
    ground (arith, length-append m rest, take-append_length m rest, drop-append_length m rest)

-- The loop stops for a reason of the connection once the fuel is more than the bytes sent.
serve_conn-ne-fuel_used :
    (fuel : ℕ) (s : Bytes) → length s < fuel → (serve_conn fuel s).1 ≢ fuel_used
unfolding serve_conn
serve_conn-ne-fuel_used zero s h = absurd (omega arith)
serve_conn-ne-fuel_used (suc fuel) [] h = ground arith
serve_conn-ne-fuel_used (suc fuel) (a ∷ []) h = ground arith
serve_conn-ne-fuel_used (suc fuel) (hi ∷ lo ∷ s) h =
    ground
      (arith, length-drop (uint16 hi lo) s, serve_conn-ne-fuel_used fuel (drop (uint16 hi lo) s))

-- Behind any envelopes the loop goes on as if it had started there.
serve_conn-envelopes :
    (ms : List Bytes) (tail : Bytes) (fuel : ℕ)
    → All Fits ms
    → serve_conn (fuel + length ms) (envelopes ms ++ tail)
      ≡ (ms ++ (serve_conn fuel tail).0, (serve_conn fuel tail).1)
unfolding envelopes
serve_conn-envelopes [] tail fuel h = ap (λ n. serve_conn n tail) (omega arith)
serve_conn-envelopes (m ∷ ms) tail fuel h =
    let e : fuel + suc (length ms) ≡ suc (fuel + length ms) = omega arith in
    rw (e, append_assoc)
      (cc (
        serve_one (fuel + length ms) m (envelopes ms ++ tail) h.0,
        serve_conn-envelopes ms tail fuel h.1,
      ))

serve_short : (fuel : ℕ) (t : Bytes) → length t < 2 → serve_conn (suc fuel) t ≡ ([], no_length)
unfolding serve_conn
serve_short fuel [] h = refl
serve_short fuel (a ∷ []) h = refl
serve_short fuel (a ∷ b ∷ t) h = absurd (omega arith)

-- A UE that sends envelopes of messages below 65536 bytes, and then closes the connection or breaks
-- it inside the two length bytes, has exactly these messages forwarded, in this order.
pub serve_conn_forwards :
    (ms : List Bytes) (tail : Bytes) (fuel : ℕ)
    → All Fits ms
    → length tail < 2
    → serve_conn (suc fuel + length ms) (envelopes ms ++ tail) ≡ (ms, no_length)
serve_conn_forwards ms tail fuel h short =
    serve_conn-envelopes ms tail (suc fuel) h
    ∙ rw (serve_short fuel tail short) (ap (λ l. (l, no_length)) (append-nil ms))

envelope_of :
    (hi lo : ℕ) (s : Bytes)
    → IsByte hi
    → IsByte lo
    → uint16 hi lo ≤ length s
    → hi ∷ lo ∷ s ≡ encap_nas_msg_to_envelope (take (uint16 hi lo) s) ++ drop (uint16 hi lo) s
unfolding encap_nas_msg_to_envelope
envelope_of hi lo s hh hl fits =
    ground (arith, length-take (uint16 hi lo) s fits, take-append-drop (uint16 hi lo) s)

-- What made the loop stop: too few bytes for a length, or for the message that the length announces.
pub data StoppedBy : Stop → Bytes → Type 0 where
  at_length : {s : Bytes} → length s < 2 → StoppedBy no_length s
  at_message :
      {hi lo : ℕ} {s : Bytes} → length s < uint16 hi lo → StoppedBy no_message (hi ∷ lo ∷ s)

-- What was read off the connection: the envelopes of the forwarded messages, and the bytes that made
-- the loop stop.
pub record Split (s : Bytes) (r : Served) : Type 0 where
  pub rest : Bytes
  pub whole : s ≡ envelopes r.0 ++ rest
  pub fit : All Fits r.0
  pub stopped : StoppedBy r.1 rest

serve_truncated :
    (fuel hi lo : ℕ) (s : Bytes)
    → length s < uint16 hi lo
    → serve_conn (suc fuel) (hi ∷ lo ∷ s) ≡ ([], no_message)
unfolding serve_conn
serve_truncated fuel hi lo s h = ground arith

serve_next :
    (fuel hi lo : ℕ) (s : Bytes)
    → uint16 hi lo ≤ length s
    → serve_conn (suc fuel) (hi ∷ lo ∷ s) ≡ (
      take (uint16 hi lo) s ∷ (serve_conn fuel (drop (uint16 hi lo) s)).0,
      (serve_conn fuel (drop (uint16 hi lo) s)).1,
    )
unfolding serve_conn
serve_next fuel hi lo s h = ground arith

Split-next :
    (hi lo : ℕ) (s : Bytes) (r : Served)
    → IsByte hi
    → IsByte lo
    → uint16 hi lo ≤ length s
    → Split (drop (uint16 hi lo) s) r
    → Split (hi ∷ lo ∷ s) (take (uint16 hi lo) s ∷ r.0, r.1)
unfolding envelopes
Split-next hi lo s r hh hl fits d = record {
  rest = d.rest;
  whole =
      envelope_of hi lo s hh hl fits
      ∙ rw append_assoc (ap (◌++◌ (encap_nas_msg_to_envelope (take (uint16 hi lo) s))) d.whole);
  fit = (ground (arith, length-take (uint16 hi lo) s fits), d.fit);
  stopped = d.stopped;
}

serve_conn_splits :
    (fuel : ℕ) (s : Bytes) → All IsByte s → length s < fuel → Split s (serve_conn fuel s)
unfolding envelopes
serve_conn_splits zero s h l = absurd (omega arith)
serve_conn_splits (suc fuel) [] h l =
    rw (serve_short fuel [] (omega arith))
      (record { rest = []; whole = refl; fit = tt; stopped = at_length (omega arith) })
serve_conn_splits (suc fuel) (a ∷ []) h l =
    rw (serve_short fuel (a ∷ []) (omega arith))
      (record { rest = a ∷ []; whole = refl; fit = tt; stopped = at_length (omega arith) })
serve_conn_splits (suc fuel) (hi ∷ lo ∷ s) h l = elim (dec_lt (length s) (uint16 hi lo)) [
  | yes short ↦
      rw (serve_truncated fuel hi lo s short)
        (record { rest = hi ∷ lo ∷ s; whole = refl; fit = tt; stopped = at_message short })
  | no fits ↦ rw (serve_next fuel hi lo s (omega arith)) (
      Split-next hi lo s _ h.0 h.1.0 (omega arith) (
        serve_conn_splits fuel (drop (uint16 hi lo) s) (All-drop IsByte (uint16 hi lo) s h.1.1)
          (omega (arith, length-drop (uint16 hi lo) s))))
]

-- Whatever bytes a UE sends, the loop stops of itself with fuel above their number, and the bytes
-- are the envelopes of the forwarded messages, each below 65536 bytes, followed by the bytes that
-- made it stop. These are fewer than two if it stopped in the read of a length, and a length with fewer
-- bytes behind it than it announces if it stopped in the read of a message.
pub serve_conn-Split :
    (fuel : ℕ) (s : Bytes)
    → All IsByte s
    → length s < fuel
    → ((serve_conn fuel s).1 ≢ fuel_used) × Split s (serve_conn fuel s)
serve_conn-Split fuel s h l = (serve_conn-ne-fuel_used fuel s l, serve_conn_splits fuel s h l)
