-- ===== src/Context/Allocate.antt =====
-- The SPIs of IKE security associations and the inner addresses, in internal/context/context.go:
-- NewIKESecurityAssociation and NewIPsecInnerUEIP.
--
-- What rand.Int draws is a list, with none for an error; its end stands for the fuel of the loop. The
-- pool of inner addresses is a parameter.
use n3iwf.Prelude.{
  Option-cases, Bool-cases, inl, inr, In, at_head, further, ℕ, zero, suc, ◌+◌, ◌<◌, ◌≡◌, ◌≢◌, refl,
  ◌∙◌, List, [], ◌∷◌, Option, none, some, ◌==◌, ==_iff, if◌then◌else◌, arith,
}
use n3iwf.Prelude.Map.{lookup, insert, lookup-insert, lookup-insert_self}
use n3iwf.Prelude.Outcome.{After, ok, out_of_fuel, ◌>>=◌, bind-ok}
use n3iwf.Sa.{empty_ike_sa}
use n3iwf.Context.{IpPool, N3iwf, Go}

not-In : {d : Option ℕ} → ¬ In d []
not-In i = elim i [ ]

-- Allocate takes an address out of a finite number, `left`.
pub record PoolLaws {S : Type 0} (pool : IpPool S) : Type 0 where
  pub left : S → ℕ
  pub takes : (s s' : S) (ip : ℕ) → pool.allocate s ≡ some (ip, s') → left s' < left s

module _ {S G : Type 0} where
  -- The loop, for the new object at `p`.
  pub draw_spi : List (Option ℕ) → ℕ → N3iwf S G → Go (Option ℕ × N3iwf S G)
  draw_spi [] p w = out_of_fuel
  draw_spi (none ∷ draws) p w = ok (none, w)
  draw_spi (some spi ∷ draws) p w = elim (lookup spi w.ikesa) [
    | none ↦ ok (some spi, record w { ikesa = insert spi p w.ikesa })
    | some q ↦ draw_spi draws p w
  ]

  associated : ℕ → Option ℕ × N3iwf S G → Go (Option ℕ × N3iwf S G)
  associated p (none, w) = ok (none, w)
  associated p (some spi, w) =
      ok (
        some p,
        record w { ike_sas = insert p (record empty_ike_sa { local_spi = spi }) w.ike_sas },
      )

  -- The pointer to the new security association, or nil.
  unfoldable pub new_ike_security_association :
      List (Option ℕ) → N3iwf S G → Go (Option ℕ × N3iwf S G)
  unfolding draw_spi associated
  new_ike_security_association draws w =
      draw_spi draws w.next_pointer (record w { next_pointer = w.next_pointer + 1 })
      >>= associated w.next_pointer

  -- A new security association at `p`: its SPI is one of the draws, led nowhere before and leads to it
  -- now, and all other SPIs lead where they did.
  pub record NewSa (draws : List (Option ℕ)) (p : ℕ) (w v : N3iwf S G) : Type 0 where
    pub spi : ℕ
    pub drawn : In (some spi) draws
    pub free : lookup spi w.ikesa ≡ none
    pub object : lookup p v.ike_sas ≡ some (record empty_ike_sa { local_spi = spi })
    pub leads : (j : ℕ) → lookup j v.ikesa ≡ (if spi == j then some p else lookup j w.ikesa)

  pub data Associated (draws : List (Option ℕ)) (p : ℕ) (w : N3iwf S G)
      : Option ℕ × N3iwf S G → Type 0 where
    refused : {v : N3iwf S G} → In none draws → v.ikesa ≡ w.ikesa → Associated draws p w (none, v)
    given : {v : N3iwf S G} → NewSa draws p w v → Associated draws p w (some p, v)

  -- What the loop answers.
  data Drawn (draws : List (Option ℕ)) (p : ℕ) (w : N3iwf S G) : Option ℕ × N3iwf S G → Type 0 where
    gave_up : In none draws → Drawn draws p w (none, w)
    drew :
        {spi : ℕ}
        → In (some spi) draws
        → lookup spi w.ikesa ≡ none
        → Drawn draws p w (some spi, record w { ikesa = insert spi p w.ikesa })

  Drawn-later :
      (d : Option ℕ) (draws : List (Option ℕ)) (p : ℕ) (w : N3iwf S G) (r : Option ℕ × N3iwf S G)
      → Drawn draws p w r
      → Drawn (d ∷ draws) p w r
  Drawn-later d draws p w _ (gave_up m) = gave_up (further m)
  Drawn-later d draws p w _ (drew m e) = drew (further m) e

  -- A free SPI among the draws is not the head when that is taken.
  behind :
      (s spi q : ℕ) (xs : List (Option ℕ)) (w : N3iwf S G)
      → In (some spi) (some s ∷ xs)
      → lookup s w.ikesa ≡ some q
      → lookup spi w.ikesa ≡ none
      → In (some spi) xs
  behind s _ q xs w at_head e free = absurd (ground (arith, e, free))
  behind s spi q xs w (further m) e free = m

  draw_spi-Drawn :
      (draws : List (Option ℕ)) (p spi : ℕ) (w : N3iwf S G)
      → In (some spi) draws
      → lookup spi w.ikesa ≡ none
      → (r : Option ℕ × N3iwf S G) × (draw_spi draws p w ≡ ok r) × Drawn draws p w r
  unfolding draw_spi
  draw_spi-Drawn [] p spi w m free = absurd (not-In m)
  draw_spi-Drawn (none ∷ xs) p spi w m free = ((none, w), refl, gave_up at_head)
  draw_spi-Drawn (some s ∷ xs) p spi w m free = elim (Option-cases (lookup s w.ikesa)) [
    | inl e ↦
        ((some s, record w { ikesa = insert s p w.ikesa }), rw (e, draw_spi) refl, drew at_head e)
    | inr (q, e) ↦
        let (r, f, d) = draw_spi-Drawn xs p spi w (behind s spi q xs w m e free) free in
        (r, rw (e, draw_spi) f, Drawn-later (some s) xs p w r d)
  ]

  associated-Associated :
      (draws : List (Option ℕ)) (w : N3iwf S G) (r : Option ℕ × N3iwf S G)
      → Drawn draws w.next_pointer (record w { next_pointer = w.next_pointer + 1 }) r
      → (x : Option ℕ × N3iwf S G) × (associated w.next_pointer r ≡ ok x)
        × Associated draws w.next_pointer w x
  unfolding associated
  associated-Associated draws w _ (gave_up m) = (_, refl, refused m refl)
  associated-Associated draws w _ (drew {spi} m e) = (
    _,
    refl,
    given (record {
      spi = spi;
      drawn = m;
      free = e;
      object =
          lookup-insert_self w.next_pointer (record empty_ike_sa { local_spi = spi }) w.ike_sas;
      leads = λ j. lookup-insert spi j w.next_pointer w.ikesa;
    }),
  )

  -- When one of the draws is an SPI that leads nowhere, NewIKESecurityAssociation ends. It answers
  -- with nil and leaves the SPIs alone, which takes an error among the draws, or with a new security
  -- association: its SPI was drawn, led nowhere before and leads to it now, and all other SPIs lead
  -- where they did.
  pub new_ike_security_association-Associated :
      (draws : List (Option ℕ)) (spi : ℕ) (w : N3iwf S G)
      → In (some spi) draws
      → lookup spi w.ikesa ≡ none
      → (x : Option ℕ × N3iwf S G) × (new_ike_security_association draws w ≡ ok x)
        × Associated draws w.next_pointer w x
  unfolding new_ike_security_association
  new_ike_security_association-Associated draws spi w m free =
      let (r, e, d) =
        draw_spi-Drawn draws w.next_pointer spi (record w { next_pointer = w.next_pointer + 1 }) m
          free in
      let (x, f, a) = associated-Associated draws w r d in (x, bind-ok _ e ∙ f, a)

module _ {S G : Type 0} (pool : IpPool S) (gateway : ℕ) where
  -- `gateway` is the address of the gateway in the configuration.
  pub new_ipsec_inner_ue_ip : ℕ → ℕ → N3iwf S G → Go (Option ℕ × N3iwf S G)
  new_ipsec_inner_ue_ip zero u w = out_of_fuel
  new_ipsec_inner_ue_ip (suc fuel) u w = elim (pool.allocate w.ipsec_inner_ip_pool) [
    | none ↦ ok (none, w)
    | some (ip, s) ↦
        let again = new_ipsec_inner_ue_ip fuel u (record w { ipsec_inner_ip_pool = s }) in
        let unused =
          elim (lookup ip w.allocated_ue_ip_address) as (λ _. Go (Option ℕ × N3iwf S G)) [
            | some other ↦ again
            | none ↦ ok (
              some ip,
              record w {
                ipsec_inner_ip_pool = s;
                allocated_ue_ip_address = insert ip u w.allocated_ue_ip_address;
              },
            )
          ] in
        if ip == gateway then again else unused
  ]

  -- The IKE SAs stay as they are.
  pub new_ipsec_inner_ue_ip-ike_sas :
      (fuel u : ℕ) (w : N3iwf S G)
      → After (λ x. x.1.ike_sas ≡ w.ike_sas) (new_ipsec_inner_ue_ip fuel u w)
  unfolding new_ipsec_inner_ue_ip
  new_ipsec_inner_ue_ip-ike_sas zero u w = tt
  new_ipsec_inner_ue_ip-ike_sas (suc fuel) u w =
      elim (Option-cases (pool.allocate w.ipsec_inner_ip_pool)) [
        | inl e ↦ rw (e, new_ipsec_inner_ue_ip) refl
        | inr ((ip, s), e) ↦
            let again =
              new_ipsec_inner_ue_ip-ike_sas fuel u (record w { ipsec_inner_ip_pool = s }) in
            elim (Bool-cases (ip == gateway)) [
              | inl b ↦ rw (e, b, new_ipsec_inner_ue_ip) again
              | inr b ↦ elim (Option-cases (lookup ip w.allocated_ue_ip_address)) [
                | inl f ↦ rw (e, b, f, new_ipsec_inner_ue_ip) refl
                | inr (other, f) ↦ rw (e, b, f, new_ipsec_inner_ue_ip) again
              ]
            ]
      ]

  -- The answer for the UE at `u`: nil and no entry, or an address other than the gateway's that led
  -- nowhere before and leads to the UE now, while all others lead where they did.
  pub data NewIp (u : ℕ) (w : N3iwf S G) : Option ℕ × N3iwf S G → Type 0 where
    exhausted :
        {v : N3iwf S G}
        → v.allocated_ue_ip_address ≡ w.allocated_ue_ip_address
        → NewIp u w (none, v)
    assigned :
        {ip : ℕ} {v : N3iwf S G}
        → ip ≢ gateway
        → lookup ip w.allocated_ue_ip_address ≡ none
        → ((j : ℕ)
            → lookup j v.allocated_ue_ip_address
              ≡ (if ip == j then some u else lookup j w.allocated_ue_ip_address))
        → NewIp u w (some ip, v)

  after_pool :
      (u : ℕ) (w : N3iwf S G) (s : S) (x : Option ℕ × N3iwf S G)
      → NewIp u (record w { ipsec_inner_ip_pool = s }) x
      → NewIp u w x
  after_pool u w s _ (exhausted e) = exhausted e
  after_pool u w s _ (assigned n l k) = assigned n l k

  -- With more fuel than there are addresses left in the pool, NewIPsecInnerUEIP ends, and its answer
  -- is nil with no entry, or an address that is not the gateway's and led to no UE; it leads to the
  -- UE now, and all other addresses lead where they did.
  pub new_ipsec_inner_ue_ip-NewIp :
      (laws : PoolLaws pool) (fuel u : ℕ) (w : N3iwf S G)
      → laws.left w.ipsec_inner_ip_pool < fuel
      → (x : Option ℕ × N3iwf S G) × (new_ipsec_inner_ue_ip fuel u w ≡ ok x) × NewIp u w x
  unfolding new_ipsec_inner_ue_ip
  new_ipsec_inner_ue_ip-NewIp laws zero u w h = absurd (omega arith)
  new_ipsec_inner_ue_ip-NewIp laws (suc fuel) u w h =
      elim (Option-cases (pool.allocate w.ipsec_inner_ip_pool)) [
        | inl e ↦ ((none, w), rw (e, new_ipsec_inner_ue_ip) refl, exhausted refl)
        | inr ((ip, s), e) ↦
            let w' = record w { ipsec_inner_ip_pool = s } in
            let (x, f, n) =
              new_ipsec_inner_ue_ip-NewIp laws fuel u w'
                (omega (arith, laws.takes w.ipsec_inner_ip_pool s ip e)) in
            elim (Bool-cases (ip == gateway)) [
              | inl b ↦ (x, rw (e, b, new_ipsec_inner_ue_ip) f, after_pool u w s x n)
              | inr b ↦ elim (Option-cases (lookup ip w.allocated_ue_ip_address)) [
                | inr (other, l) ↦ (x, rw (e, b, l, new_ipsec_inner_ue_ip) f, after_pool u w s x n)
                | inl l ↦ (
                  (
                    some ip,
                    record w {
                      ipsec_inner_ip_pool = s;
                      allocated_ue_ip_address = insert ip u w.allocated_ue_ip_address;
                    },
                  ),
                  rw (e, b, l, new_ipsec_inner_ue_ip) refl,
                  assigned (λ same. ground (arith, ==_iff ip gateway)) l
                      (λ j. lookup-insert ip j u w.allocated_ue_ip_address),
                )
              ]
            ]
      ]
