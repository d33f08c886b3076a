-- ===== src/Ike/Server/Served.antt =====
-- Which messages reach a handler of the IKE server.
use n3iwf.Prelude.{
  ap, ℕ, ◌≡◌, refl, ◌∙◌, Bool, true, false, List, Option, some, none, inl, inr, ltb, ◌==◌, ==_iff,
  ◌≤◌, arith, Bool-cases, if◌then◌else◌,
}
use n3iwf.Prelude.Bytes.{Bytes}
use n3iwf.Prelude.Map.{lookup}
use n3iwf.Prelude.Outcome.{After, or_panic-bind, bind-After}
use n3iwf.Sa.{IkeSa}
use n3iwf.Context.{N3iwf}
use n3iwf.Ike.Server.{
  Header, IkeMessage, IkePackage, Reply, Call, handle_ike_sa_init, handle_ike_auth,
  handle_create_child_sa, handle_informational, has_expected_message_id, switch, expected,
  in_exchange, dispatch, decoded, with_sa, with_header, check_ike_message, checked, serve,
}

-- What package ike relies on: a decoded message has the header that it was decoded with.
pub record IkeLaws {P : Type 0} (ike : IkePackage P) : Type 0 where
  pub header :
      (msg : Bytes) (h : Header) (sa : Option ℕ) (m : IkeMessage P)
      → ike.decode_decrypt msg h sa ≡ some m
      → m.header ≡ h

expected_id :
    (h : Header) (sa : IkeSa)
    → has_expected_message_id h sa ≡ true
    → h.message_id ≡ (if h.is_response then sa.responder_message_id else sa.initiator_message_id)
unfolding has_expected_message_id
expected_id h sa e = ground (
  arith,
  ==_iff h.message_id sa.responder_message_id,
  ==_iff h.message_id sa.initiator_message_id,
)

module _ {P : Type 0} (ike : IkePackage P) {S G : Type 0} (w : N3iwf S G) where
  -- A message of an IKE SA: the SPI of the responder leads to the SA at `a`, the message is decrypted
  -- with the keys of that SA, and it has the message ID that the SA expects of a request or response.
  pub record Within (msg : Bytes) (m : IkeMessage P) (a : ℕ) : Type 0 where
    pub header : Header
    pub parsed : ike.parse_header msg ≡ some header
    pub version : header.major_version ≤ 2
    pub led : lookup header.responder_spi w.ikesa ≡ some a
    pub decrypted : ike.decode_decrypt msg header (some a) ≡ some m
    pub sa : IkeSa
    pub object : lookup a w.ike_sas ≡ some sa
    pub expected :
        m.header.message_id
        ≡ (if m.header.is_response then sa.responder_message_id else sa.initiator_message_id)

  -- The calls that a message can lead to.
  pub data Allowed (msg : Bytes) : Option (Call P) → Type 0 where
    no_call : Allowed msg none
    initial :
        {m : IkeMessage P}
        → m.header.exchange_type ≡ ike.ike_sa_init
        → Allowed msg (some (handle_ike_sa_init m msg))
    auth :
        {m : IkeMessage P} {a : ℕ}
        → Within msg m a
        → Allowed msg (some (handle_ike_auth m (some a)))
    child :
        {m : IkeMessage P} {a : ℕ}
        → Within msg m a
        → Allowed msg (some (handle_create_child_sa m (some a)))
    info :
        {m : IkeMessage P} {a : ℕ}
        → Within msg m a
        → Allowed msg (some (handle_informational m (some a)))

  switch-Allowed :
      (m : IkeMessage P) (msg : Bytes) (a : ℕ)
      → Within msg m a
      → Allowed msg (switch ike m msg (some a))
  unfolding switch
  switch-Allowed m msg a x =
      let type = m.header.exchange_type in
      elim (Bool-cases (type == ike.ike_sa_init)) [
        | inl b ↦ rw (b, switch) (initial ((==_iff type ike.ike_sa_init).0 b))
        | inr b ↦ elim (Bool-cases (type == ike.ike_auth)) [
          | inl c ↦ rw (b, c, switch) (auth x)
          | inr c ↦ elim (Bool-cases (type == ike.create_child_sa)) [
            | inl d ↦ rw (b, c, d, switch) (child x)
            | inr d ↦ elim (Bool-cases (type == ike.informational)) [
              | inl e ↦ rw (b, c, d, e, switch) (info x)
              | inr e ↦ rw (b, c, d, e, switch) no_call
            ]
          ]
        ]
      ]

  switch-init :
      (m : IkeMessage P) (msg : Bytes) (sa : Option ℕ)
      → m.header.exchange_type ≡ ike.ike_sa_init
      → Allowed msg (switch ike m msg sa)
  unfolding switch
  switch-init m msg sa e =
      let b = (==_iff m.header.exchange_type ike.ike_sa_init).1 e in rw (b, switch) (initial e)

  -- A message that is decoded with the keys of the SA at `a`, before its message ID is looked at.
  record Decrypted (msg : Bytes) (m : IkeMessage P) (a : ℕ) : Type 0 where
    header : Header
    parsed : ike.parse_header msg ≡ some header
    version : header.major_version ≤ 2
    led : lookup header.responder_spi w.ikesa ≡ some a
    decrypted : ike.decode_decrypt msg header (some a) ≡ some m

  expected-Allowed :
      (m : IkeMessage P) (msg : Bytes) (a : ℕ) (sa : IkeSa) (b : Bool)
      → Decrypted msg m a
      → lookup a w.ike_sas ≡ some sa
      → has_expected_message_id m.header sa ≡ b
      → Allowed msg (expected ike w m msg a b)
  unfolding expected
  expected-Allowed m msg a sa false d e c = no_call
  expected-Allowed m msg a sa true d e c = switch-Allowed m msg a (record {
    header = d.header;
    parsed = d.parsed;
    version = d.version;
    led = d.led;
    decrypted = d.decrypted;
    sa = sa;
    object = e;
    expected = expected_id m.header sa c;
  })

  in_exchange-Allowed :
      (m : IkeMessage P) (msg : Bytes) (a : ℕ) (b : Bool)
      → Decrypted msg m a
      → m.header.exchange_type == ike.ike_sa_init ≡ b
      → After (Allowed msg) (in_exchange ike w m msg a b)
  unfolding in_exchange
  in_exchange-Allowed m msg a true d t =
      switch-init m msg (some a) ((==_iff m.header.exchange_type ike.ike_sa_init).0 t)
  in_exchange-Allowed m msg a false d t =
      or_panic-bind (Allowed msg) (lookup a w.ike_sas) _
        (λ sa e. expected-Allowed m msg a sa (has_expected_message_id m.header sa) d e refl)

  dispatch-Allowed :
      (m : IkeMessage P) (msg : Bytes) (a : ℕ)
      → Decrypted msg m a
      → After (Allowed msg) (dispatch ike w m msg (some a))
  unfolding dispatch
  dispatch-Allowed m msg a d =
      in_exchange-Allowed m msg a (m.header.exchange_type == ike.ike_sa_init) d refl

  -- What checkIKEMessage finds is for Dispatch to look at.
  abbrev Checked : Bytes → Option (IkeMessage P × Option ℕ) → Type 0
  Checked msg none = Unit
  Checked msg (some (m, none)) = m.header.exchange_type ≡ ike.ike_sa_init
  Checked msg (some (m, some a)) = Decrypted msg m a

  module _ (laws : IkeLaws ike) where
    decoded-init :
        (msg : Bytes) (h : Header) (o : Option (IkeMessage P))
        → h.exchange_type ≡ ike.ike_sa_init
        → ike.decode_decrypt msg h none ≡ o
        → Checked msg (decoded ike w o none).1
    unfolding decoded
    decoded-init msg h none t e = tt
    decoded-init msg h (some m) t e = ap (λ x. x.exchange_type) (laws.header msg h none m e) ∙ t

    decoded-within :
        (msg : Bytes) (h : Header) (a : ℕ) (o : Option (IkeMessage P))
        → ike.parse_header msg ≡ some h
        → h.major_version ≤ 2
        → lookup h.responder_spi w.ikesa ≡ some a
        → ike.decode_decrypt msg h (some a) ≡ o
        → Checked msg (decoded ike w o (some a)).1
    unfolding decoded
    decoded-within msg h a none p v l e = tt
    decoded-within msg h a (some m) p v l e = record {
      header = h;
      parsed = p;
      version = v;
      led = l;
      decrypted = e;
    }

    with_sa-Checked :
        (msg : Bytes) (h : Header) (o : Option ℕ)
        → ike.parse_header msg ≡ some h
        → h.major_version ≤ 2
        → lookup h.responder_spi w.ikesa ≡ o
        → Checked msg (with_sa ike w msg h o).1
    unfolding with_sa
    with_sa-Checked msg h none p v l = tt
    with_sa-Checked msg h (some a) p v l =
        decoded-within msg h a (ike.decode_decrypt msg h (some a)) p v l refl

    with_header-Checked :
        (msg : Bytes) (o : Option Header)
        → ike.parse_header msg ≡ o
        → Checked msg (with_header ike w msg o).1
    unfolding with_header
    with_header-Checked msg none p = tt
    with_header-Checked msg (some h) p = elim (Bool-cases (ltb 2 h.major_version)) [
      | inl b ↦ rw (b, with_header) tt
      | inr b ↦ elim (Bool-cases (h.exchange_type == ike.ike_sa_init)) [
        | inl c ↦
            rw (b, c, with_header)
              (decoded-init msg h (ike.decode_decrypt msg h none)
                ((==_iff h.exchange_type ike.ike_sa_init).0 c) refl)
        | inr c ↦
            rw (b, c, with_header)
              (with_sa-Checked msg h (lookup h.responder_spi w.ikesa) p (ground arith) refl)
      ]
    ]

    checked-Allowed :
        (msg : Bytes) (r : List Reply × Option (IkeMessage P × Option ℕ))
        → Checked msg r.1
        → After (λ x. Allowed msg x.1) (checked ike w msg r)
    unfolding checked dispatch
    checked-Allowed msg (replies, none) c = no_call
    checked-Allowed msg (replies, some (m, none)) c = switch-init m msg none c
    checked-Allowed msg (replies, some (m, some a)) c =
        bind-After (λ x. Allowed msg x.1) (dispatch ike w m msg (some a)) _
          (dispatch-Allowed m msg a c) (λ call x. x)

    -- A message calls at most one handler. HandleIKESAINIT is called for messages of that exchange
    -- only. Each other handler is called with an IKE SA to which the SPI of the responder leads, for a
    -- message with major version 2 at most that was decrypted with the keys of that SA and has the
    -- message ID that the SA expects of a request or of a response.
    pub serve-Allowed : (msg : Bytes) → After (λ x. Allowed msg x.1) (serve ike w msg)
    unfolding serve check_ike_message
    serve-Allowed msg =
        checked-Allowed msg (check_ike_message ike w msg)
          (with_header-Checked msg (ike.parse_header msg) refl)
