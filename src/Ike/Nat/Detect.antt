-- ===== src/Ike/Nat/Detect.antt =====
-- What NAT detection finds, and how datagrams on the NAT-T port are told apart.
use n3iwf.Prelude.{
  ℕ, ◌≤◌, ◌<◌, ◌≡◌, ◌≢◌, ◌↔◌, refl, sym, ◌∙◌, ap, Bool, true, false, List, [], ◌∷◌, ◌++◌, none,
  some, All, inl, inr, Bool-cases, ltb, length, take, drop, take-append-drop, if◌then◌else◌, arith,
}
use n3iwf.Prelude.Bytes.{Bytes, bytes_equal, bytes_equal→eq, bytes_equal_self}
use n3iwf.Prelude.Outcome.{ok, err}
use n3iwf.Ike.Nat.{
  Natt, too_short, esp_failed, handle_natt_msg, Address, Notification, source_ip, destination_ip,
  other_type, generate_nat_detect_hash, nat_loop, handle_nat_detect, build_nat_detect_notif_payload,
}

-- The kinds of datagram, each with what is done with it.
pub data Sorted (esp : Bytes → Bool) (msg : Bytes) : Natt → Type 0 where
  keepalive : msg ≡ 255 ∷ [] → Sorted esp msg ([], ok none)
  runt : msg ≢ 255 ∷ [] → length msg < 4 → Sorted esp msg ([], err too_short)
  ike_message : {m : Bytes} → msg ≡ 0 ∷ 0 ∷ 0 ∷ 0 ∷ m → Sorted esp msg ([], ok (some m))
  esp_packet :
      4 ≤ length msg
      → ((m : Bytes) → msg ≢ 0 ∷ 0 ∷ 0 ∷ 0 ∷ m)
      → esp msg ≡ true
      → Sorted esp msg (msg ∷ [], ok none)
  bad_esp_packet :
      4 ≤ length msg
      → ((m : Bytes) → msg ≢ 0 ∷ 0 ∷ 0 ∷ 0 ∷ m)
      → esp msg ≡ false
      → Sorted esp msg (msg ∷ [], err esp_failed)

differs : (xs ys : Bytes) → bytes_equal xs ys ≡ false → xs ≢ ys
differs xs ys h e =
    let t : bytes_equal xs xs ≡ true = bytes_equal_self xs in
    let u : bytes_equal xs xs ≡ false = ap (bytes_equal xs) e ∙ h in cc

marker :
    (msg : Bytes)
    → bytes_equal (take 4 msg) (0 ∷ 0 ∷ 0 ∷ 0 ∷ []) ≡ true
    → msg ≡ 0 ∷ 0 ∷ 0 ∷ 0 ∷ drop 4 msg
marker msg h =
    sym (take-append-drop 4 msg)
    ∙ ap (λ z. z ++ drop 4 msg) (bytes_equal→eq (take 4 msg) (0 ∷ 0 ∷ 0 ∷ 0 ∷ []) h)

no_marker :
    (msg m : Bytes)
    → bytes_equal (take 4 msg) (0 ∷ 0 ∷ 0 ∷ 0 ∷ []) ≡ false
    → msg ≢ 0 ∷ 0 ∷ 0 ∷ 0 ∷ m
no_marker msg m h e = differs (take 4 msg) (0 ∷ 0 ∷ 0 ∷ 0 ∷ []) h (ap (take 4) e)

-- handleNattMsg sorts every datagram: a keepalive is dropped, one that is shorter than the marker is
-- an error, one that begins with the marker of four zero bytes is an IKE message without it, and any
-- other goes to the ESP handler, once and whole, whose error is passed on.
pub handle_natt_msg-Sorted :
    (esp : Bytes → Bool) (msg : Bytes) → Sorted esp msg (handle_natt_msg esp msg)
unfolding handle_natt_msg
handle_natt_msg-Sorted esp msg = elim (Bool-cases (bytes_equal msg (255 ∷ []))) [
  | inl k ↦ rw (k, handle_natt_msg) (keepalive (bytes_equal→eq msg (255 ∷ []) k))
  | inr k ↦ elim (Bool-cases (ltb (length msg) 4)) [
    | inl l ↦ rw (k, l, handle_natt_msg) (runt (differs msg (255 ∷ []) k) (ground arith))
    | inr l ↦ elim (Bool-cases (bytes_equal (take 4 msg) (0 ∷ 0 ∷ 0 ∷ 0 ∷ []))) [
      | inl z ↦ rw (k, l, z, handle_natt_msg) (ike_message (marker msg z))
      | inr z ↦ elim (Bool-cases (esp msg)) [
        | inl e ↦
            rw (k, l, z, e, handle_natt_msg) (esp_packet (ground arith) (λ m. no_marker msg m z) e)
        | inr e ↦
            rw (k, l, z, e, handle_natt_msg)
              (bad_esp_packet (ground arith) (λ m. no_marker msg m z) e)
      ]
    ]
  ]
]

abbrev pub IsOther : Notification → Type 0
IsOther (source_ip h) = ⊥
IsOther (destination_ip h) = ⊥
IsOther (other_type h) = Unit

flag : (x y : Bytes) → ((if bytes_equal x y then false else true) ≡ true) ↔ (x ≢ y)
flag x y = elim (Bool-cases (bytes_equal x y)) [
  | inl h ↦ rw h ((λ e. cc), (λ n. absurd (n (bytes_equal→eq x y h))))
  | inr h ↦ rw h ((λ e. differs x y h), (λ n. refl))
]

module _ (sha1 : Bytes → Bytes) where
  nat_loop-others :
      (src dst x y : Bytes) (others : List Notification)
      → All IsOther others
      → nat_loop sha1 src dst (false, false) (others ++ source_ip x ∷ destination_ip y ∷ [])
        ≡ ((if bytes_equal x src then false else true), (if bytes_equal y dst then false else true))
  unfolding nat_loop
  nat_loop-others src dst x y [] o = refl
  nat_loop-others src dst x y (source_ip h ∷ others) o = absurd o.0
  nat_loop-others src dst x y (destination_ip h ∷ others) o = absurd o.0
  nat_loop-others src dst x y (other_type h ∷ others) o = nat_loop-others src dst x y others o.1

  -- A peer that sends from `source` to `destination`, and is seen at `seen_source` as sending to
  -- `seen_destination`, builds its notifications as the gateway builds its own. handleNATDetect then
  -- finds it behind a NAT exactly when the hashes for its source differ, and the gateway behind one
  -- exactly when those for the destination differ, whatever other notifications come first.
  pub handle_nat_detect-build :
      (initiator responder : ℕ) (source destination seen_source seen_destination : Address)
      (others : List Notification)
      → All IsOther others
      → let flags =
          handle_nat_detect sha1 initiator responder
            (build_nat_detect_notif_payload sha1 initiator responder others destination source)
            seen_source
            seen_destination in
        let hash = generate_nat_detect_hash sha1 initiator responder in
        ((flags.0 ≡ true) ↔ (hash source ≢ hash seen_source))
        × ((flags.1 ≡ true) ↔ (hash destination ≢ hash seen_destination))
  unfolding handle_nat_detect build_nat_detect_notif_payload
  handle_nat_detect-build i r s d s' d' others o =
      let hash = generate_nat_detect_hash sha1 i r in
      rw (nat_loop-others (hash s') (hash d') (hash s) (hash d) others o)
        (flag (hash s) (hash s'), flag (hash d) (hash d'))
