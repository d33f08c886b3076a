-- ===== src/Context/Selection/Chosen.antt =====
-- AMFSelection against a description of the choice.
use mathlib.Core.Path.{subst}
use n3iwf.Prelude.{
  In, ap, sym, some-injective, Option-cases, ◌++◌, ℕ, ◌≡◌, refl, ◌∙◌, Bool, true, false, List, [],
  ◌∷◌, Option, none, some, All, inl, inr, Bool-cases, if◌then◌else◌,
}
use n3iwf.Prelude.Bytes.{Bytes}
use n3iwf.Prelude.Map.{Map, lookup}
use n3iwf.Prelude.Outcome.{ok}
use n3iwf.Context.{N3iwf, Amf}
use n3iwf.Context.Selection.Found.{
  false_ne_true, ServesGuami, find_by_guami-ServesGuami, ServesGuami-find_by_guami, find_plmn-In,
  In-find_plmn,
}
use n3iwf.Context.Selection.{
  find_by_guami, find_plmn, find_by_plmn, serves, or_first, select_loop, amf_selection,
}

-- An AMF after NG setup: it has both of its lists.
pub record SetUp {G : Type 0} (amfs : Map (Amf G)) (p : ℕ) : Type 0 where
  pub amf : Amf G
  pub guamis : List G
  pub plmns : List Bytes
  pub loads : lookup p amfs ≡ some amf
  pub has_guamis : amf.served_guami_list ≡ some guamis
  pub has_plmns : amf.plmn_support_list ≡ some plmns

module _ {G : Type 0} (encode : Option G → Option Bytes) (guami : Option G)
    (plmn : Option Bytes) where
  plmn_matches : List Bytes → Option Bytes → Bool
  plmn_matches plmns none = false
  plmn_matches plmns (some want) = find_plmn plmns want

  -- Whether a set-up AMF serves the GUAMI or supports the PLMN.
  matches : Option (Amf G) → Bool
  matches none = false
  matches (some amf) = elim amf.served_guami_list [
    | none ↦ false
    | some guamis ↦
        if find_by_guami encode guamis guami
        then true
        else elim amf.plmn_support_list [ none ↦ false | some plmns ↦ plmn_matches plmns plmn ]
  ]

  pub suits : Map (Amf G) → ℕ → Bool
  suits amfs p = matches (lookup p amfs)

  -- The AMF that is taken when none suits: the one that was seen first.
  pub fallback : Option ℕ → Map ℕ → Option ℕ
  fallback (some d) pool = some d
  fallback none [] = none
  fallback none ((key, p) ∷ pool) = some p

  -- The AMF at `p` serves the GUAMI of the UE, or supports its PLMN.
  pub data Suits (amfs : Map (Amf G)) (p : ℕ) : Type 0 where
    by_guami :
        (amf : Amf G) (guamis : List G)
        → lookup p amfs ≡ some amf
        → amf.served_guami_list ≡ some guamis
        → ServesGuami encode guami guamis
        → Suits amfs p
    by_plmn :
        (amf : Amf G) (plmns : List Bytes) (want : Bytes)
        → lookup p amfs ≡ some amf
        → amf.plmn_support_list ≡ some plmns
        → plmn ≡ some want
        → In want plmns
        → Suits amfs p

  -- The first AMF of the pool that suits the UE, or the first of the pool if none does, or no AMF if
  -- the pool is empty.
  pub data Chosen (amfs : Map (Amf G)) (default : Option ℕ) (pool : Map ℕ) : Option ℕ → Type 0 where
    suiting :
        {p : ℕ} (key : ℕ) (before after : Map ℕ)
        → pool ≡ before ++ (key, p) ∷ after
        → All (λ entry. ¬ Suits amfs entry.1) before
        → Suits amfs p
        → Chosen amfs default pool (some p)
    defaulted :
        All (λ entry. ¬ Suits amfs entry.1) pool → Chosen amfs default pool (fallback default pool)

  suits-guami :
      {amfs : Map (Amf G)} {p : ℕ} (s : SetUp amfs p)
      → find_by_guami encode s.guamis guami ≡ true
      → suits amfs p ≡ true
  unfolding suits matches
  suits-guami s b = rw (s.loads, s.has_guamis, b, suits, matches) refl

  suits-plmn :
      {amfs : Map (Amf G)} {p : ℕ} (s : SetUp amfs p)
      → find_by_guami encode s.guamis guami ≡ false
      → (want : Bytes) → plmn ≡ some want
      → suits amfs p ≡ find_plmn s.plmns want
  unfolding suits matches plmn_matches
  suits-plmn s b want e =
      rw (s.loads, s.has_guamis, b, s.has_plmns, suits, matches) (ap (plmn_matches s.plmns) e)

  suits-false :
      {amfs : Map (Amf G)} {p : ℕ} (s : SetUp amfs p)
      → find_by_guami encode s.guamis guami ≡ false
      → plmn ≡ none
      → suits amfs p ≡ false
  unfolding suits matches plmn_matches
  suits-false s b e =
      rw (s.loads, s.has_guamis, b, s.has_plmns, suits, matches) (ap (plmn_matches s.plmns) e)

  suits-Suits : (amfs : Map (Amf G)) (p : ℕ) (s : SetUp amfs p) → suits amfs p ≡ true → Suits amfs p
  unfolding suits matches plmn_matches
  suits-Suits amfs p s h = elim (Bool-cases (find_by_guami encode s.guamis guami)) [
    | inl b ↦
        by_guami s.amf s.guamis s.loads s.has_guamis
          (find_by_guami-ServesGuami encode guami s.guamis b)
    | inr b ↦ elim (Option-cases plmn) [
      | inl e ↦ absurd (false_ne_true (sym (suits-false s b e) ∙ h))
      | inr (want, e) ↦
          by_plmn s.amf s.plmns want s.loads s.has_plmns e
            (find_plmn-In want s.plmns (sym (suits-plmn s b want e) ∙ h))
    ]
  ]

  Suits-suits : (amfs : Map (Amf G)) (p : ℕ) (s : SetUp amfs p) → Suits amfs p → suits amfs p ≡ true
  Suits-suits amfs p s (by_guami amf guamis loads has found) =
      let same : amf ≡ s.amf = some-injective (sym loads ∙ s.loads) in
      let lists : guamis ≡ s.guamis =
        some-injective (sym has ∙ (ap (λ x. x.served_guami_list) same ∙ s.has_guamis)) in
      suits-guami s (
        subst (λ gs. find_by_guami encode gs guami ≡ true) lists
          (ServesGuami-find_by_guami encode guami guamis found))
  Suits-suits amfs p s (by_plmn amf plmns want loads has e found) =
      let same : amf ≡ s.amf = some-injective (sym loads ∙ s.loads) in
      let lists : plmns ≡ s.plmns =
        some-injective (sym has ∙ (ap (λ x. x.plmn_support_list) same ∙ s.has_plmns)) in
      let here = subst (λ ps. find_plmn ps want ≡ true) lists (In-find_plmn want plmns found) in
      elim (Bool-cases (find_by_guami encode s.guamis guami)) [
        | inl b ↦ suits-guami s b
        | inr b ↦ suits-plmn s b want e ∙ here
      ]

  not_Suits :
      (amfs : Map (Amf G)) (p : ℕ) (s : SetUp amfs p) → suits amfs p ≡ false → ¬ Suits amfs p
  not_Suits amfs p s h x = false_ne_true (sym h ∙ Suits-suits amfs p s x)

  plmn-ok :
      (plmns : List Bytes) (want : Option Bytes)
      → find_by_plmn (some plmns) want ≡ ok (plmn_matches plmns want)
  unfolding find_by_plmn plmn_matches
  plmn-ok plmns none = refl
  plmn-ok plmns (some p) = refl

  serves-ok :
      (amfs : Map (Amf G)) (p : ℕ) (s : SetUp amfs p)
      → serves encode guami plmn s.amf ≡ ok (suits amfs p)
  unfolding serves suits matches
  serves-ok amfs p s = elim (Bool-cases (find_by_guami encode s.guamis guami)) [
    | inl h ↦ rw (s.loads, s.has_guamis, h, serves, suits, matches) refl
    | inr h ↦
        rw (s.loads, s.has_guamis, h, s.has_plmns, serves, suits, matches) (plmn-ok s.plmns plmn)
  ]

  fallback-or_first :
      (d : Option ℕ) (key p : ℕ) (pool : Map ℕ)
      → fallback (or_first encode d p) pool ≡ fallback d ((key, p) ∷ pool)
  unfolding fallback or_first
  fallback-or_first none key p pool = refl
  fallback-or_first (some d) key p pool = refl

  Chosen-cons :
      (amfs : Map (Amf G)) (d : Option ℕ) (key p : ℕ) (pool : Map ℕ) (r : Option ℕ)
      → ¬ Suits amfs p
      → Chosen amfs (or_first encode d p) pool r
      → Chosen amfs d ((key, p) ∷ pool) r
  Chosen-cons amfs d key p pool _ h (suiting k before after e n s) =
      suiting k ((key, p) ∷ before) after (ap (◌∷◌ (key, p)) e) (h, n) s
  Chosen-cons amfs d key p pool _ h (defaulted n) =
      rw (fallback-or_first d key p pool) (defaulted (h, n))

  none_left : {amfs : Map (Amf G)} (d : Option ℕ) → Chosen amfs d [] d
  unfolding fallback
  none_left none = defaulted tt
  none_left (some d) = defaulted tt

  step :
      (amfs : Map (Amf G)) (d : Option ℕ) (key p : ℕ) (pool : Map ℕ)
      → SetUp amfs p
      → select_loop encode guami plmn amfs d ((key, p) ∷ pool) ≡ (
          if suits amfs p
          then ok (some p)
          else select_loop encode guami plmn amfs (or_first encode d p) pool)
  unfolding select_loop
  step amfs d key p pool s = rw (s.loads, select_loop) (rw (serves-ok amfs p s) refl)

  select_loop-Chosen :
      (amfs : Map (Amf G)) (d : Option ℕ) (pool : Map ℕ)
      → All (λ entry. SetUp amfs entry.1) pool
      → (r : Option ℕ) × (select_loop encode guami plmn amfs d pool ≡ ok r) × Chosen amfs d pool r
  unfolding select_loop
  select_loop-Chosen amfs d [] a = (d, refl, none_left d)
  select_loop-Chosen amfs d ((key, p) ∷ pool) (s, a) = elim (Bool-cases (suits amfs p)) [
    | inl h ↦ (
      some p,
      step amfs d key p pool s ∙ rw h refl,
      suiting key [] pool refl tt (suits-Suits amfs p s h),
    )
    | inr h ↦
        let (r, e, c) = select_loop-Chosen amfs (or_first encode d p) pool a in
        (
          r,
          step amfs d key p pool s ∙ rw h e,
          Chosen-cons amfs d key p pool r (not_Suits amfs p s h) c,
        )
  ]

  -- If each AMF of the pool is set up, AMFSelection does not panic, and chooses the first one that
  -- serves the UE's GUAMI or supports its PLMN: one of its GUAMIs has the encoding of the UE's, with no
  -- error of the encoder up to there, or one of its PLMNs is the UE's. If none does, it chooses the first
  -- one of the pool, and it chooses none if the pool is empty.
  pub amf_selection-Chosen :
      {S : Type 0} (w : N3iwf S G)
      → All (λ entry. SetUp w.amfs entry.1) w.amf_pool
      → (r : Option ℕ) × (amf_selection encode guami plmn w ≡ ok r)
        × Chosen w.amfs none w.amf_pool r
  unfolding amf_selection
  amf_selection-Chosen w a = select_loop-Chosen w.amfs none w.amf_pool a
