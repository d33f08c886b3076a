-- ===== src/Ike/Delete/Outbound.antt =====
-- The child SA that has an outbound SPI, while others are deleted.
use n3iwf.Prelude.{
  All, ap, sym, some-injective, ℕ, ◌≡◌, refl, ◌∙◌, ◌⊎◌, inl, inr, true, false, [], ◌∷◌, none, some,
  ◌==◌, ==_iff, ==_self, get_elem?, arith, Bool-cases,
}
use mathlib.Core.Path.{subst}
use n3iwf.Prelude.Map.{Map, lookup, delete, lookup-delete}
use n3iwf.Sa.{ChildSa}
use n3iwf.Context.Children.Uninstalled.{IsInstalled}
use n3iwf.Ike.Delete.{find_outbound}

-- The map has each child SA under its own inbound SPI, once.
pub data IsKeyed : Map ChildSa → Type 0 where
  empty : IsKeyed []
  entry :
      {c : ChildSa} {cs : Map ChildSa}
      → lookup c.inbound_spi cs ≡ none
      → IsKeyed cs
      → IsKeyed ((c.inbound_spi, c) ∷ cs)

-- Every child SA is installed, and has a PDU session ID.
abbrev pub IsWhole : ℕ × ChildSa → Type 0
IsWhole (spi, c) = IsInstalled c × ((id : ℕ) × (get_elem? c.pdu_session_ids 0 ≡ some id))

pub delete-IsKeyed : (cs : Map ChildSa) (j : ℕ) → IsKeyed cs → IsKeyed (delete j cs)
unfolding delete
delete-IsKeyed _ j empty = empty
delete-IsKeyed _ j (entry {c} {cs} e k) =
    let rest = delete-IsKeyed cs j k in
    elim (Bool-cases (c.inbound_spi == j)) [
      | inl b ↦ rw (b, delete) rest
      | inr b ↦ rw (b, delete) (entry (ground (arith, lookup-delete j c.inbound_spi cs, e)) rest)
    ]

pub delete-All :
    (P : ℕ × ChildSa → Type 0) (cs : Map ChildSa) (j : ℕ) → All P cs → All P (delete j cs)
unfolding delete
delete-All P [] j h = tt
delete-All P ((i, c) ∷ cs) j (p, ps) =
    let rest = delete-All P cs j ps in
    elim (Bool-cases (i == j)) [ inl b ↦ rw (b, delete) rest | inr b ↦ rw (b, delete) (p, rest) ]

-- Where a child SA is found: at the head, or behind it.
found_cases :
    (spi i : ℕ) (c d : ChildSa) (cs : Map ChildSa)
    → find_outbound spi ((i, c) ∷ cs) ≡ some d
    → ((c.outbound_spi == spi ≡ true) × (c ≡ d))
      ⊎ ((c.outbound_spi == spi ≡ false) × (find_outbound spi cs ≡ some d))
unfolding find_outbound
found_cases spi i c d cs f = elim (Bool-cases (c.outbound_spi == spi)) [
  | inl b ↦
      let head : find_outbound spi ((i, c) ∷ cs) ≡ some c = rw (b, find_outbound) refl in
      inl (b, some-injective (sym head ∙ f))
  | inr b ↦
      let tail : find_outbound spi ((i, c) ∷ cs) ≡ find_outbound spi cs =
        rw (b, find_outbound) refl in
      inr (b, sym tail ∙ f)
]

pub not_found : (spi : ℕ) (d : ChildSa) → ¬ (find_outbound spi [] ≡ some d)
unfolding find_outbound
not_found spi d f = ground arith

pub lookup_head :
    (c : ChildSa) (cs : Map ChildSa) → lookup c.inbound_spi ((c.inbound_spi, c) ∷ cs) ≡ some c
unfolding lookup
lookup_head c cs = rw (==_self c.inbound_spi) refl

pub none-some : (d : ChildSa) → ¬ (none ≡ some d)
none-some d e = ground arith

pub lookup_behind :
    (c d : ChildSa) (cs : Map ChildSa)
    → lookup c.inbound_spi cs ≡ none
    → lookup d.inbound_spi cs ≡ some d
    → lookup d.inbound_spi ((c.inbound_spi, c) ∷ cs) ≡ some d
unfolding lookup
lookup_behind c d cs e f = elim (Bool-cases (c.inbound_spi == d.inbound_spi)) [
  | inl b ↦
      let same = (==_iff c.inbound_spi d.inbound_spi).0 b in
      absurd (none-some d (sym e ∙ ap (λ x. lookup x cs) same ∙ f))
  | inr b ↦ rw (b, lookup) f
]

-- A child SA that is found is in the map, under its inbound SPI.
pub find_outbound-lookup :
    (spi : ℕ) (cs : Map ChildSa) (c : ChildSa)
    → IsKeyed cs
    → find_outbound spi cs ≡ some c
    → lookup c.inbound_spi cs ≡ some c
find_outbound-lookup spi _ d empty f = absurd (not_found spi d f)
find_outbound-lookup spi _ d (entry {c} {cs} e k) f =
    elim (found_cases spi c.inbound_spi c d cs f) [
      | inl (b, same) ↦
          subst (λ x. lookup x.inbound_spi ((c.inbound_spi, c) ∷ cs) ≡ some x) same
            (lookup_head c cs)
      | inr (b, g) ↦ lookup_behind c d cs e (find_outbound-lookup spi cs d k g)
    ]

pub find_outbound-outbound :
    (spi : ℕ) (cs : Map ChildSa) (c : ChildSa)
    → find_outbound spi cs ≡ some c
    → c.outbound_spi ≡ spi
find_outbound-outbound spi [] d f = absurd (not_found spi d f)
find_outbound-outbound spi ((i, c) ∷ cs) d f = elim (found_cases spi i c d cs f) [
  | inl (b, same) ↦ sym (ap (λ x. x.outbound_spi) same) ∙ (==_iff c.outbound_spi spi).0 b
  | inr (b, g) ↦ find_outbound-outbound spi cs d g
]

pub find_outbound-IsWhole :
    (spi : ℕ) (cs : Map ChildSa) (c : ChildSa)
    → All IsWhole cs
    → find_outbound spi cs ≡ some c
    → IsWhole (0, c)
find_outbound-IsWhole spi [] d h f = absurd (not_found spi d f)
find_outbound-IsWhole spi ((i, c) ∷ cs) d (p, ps) f = elim (found_cases spi i c d cs f) [
  | inl (b, same) ↦ subst (λ x. IsWhole (0, x)) same p
  | inr (b, g) ↦ find_outbound-IsWhole spi cs d ps g
]

-- A child SA that is found is found until it is deleted.
pub find_outbound-delete :
    (spi j : ℕ) (cs : Map ChildSa) (c : ChildSa)
    → find_outbound spi cs ≡ some c
    → IsKeyed cs
    → (c.inbound_spi ≡ j) ⊎ (find_outbound spi (delete j cs) ≡ some c)
unfolding find_outbound delete
find_outbound-delete spi j _ d f empty = absurd (not_found spi d f)
find_outbound-delete spi j _ d f (entry {c} {cs} e k) = elim (Bool-cases (c.inbound_spi == j)) [
  | inl h ↦ elim (found_cases spi c.inbound_spi c d cs f) [
    | inl (b, same) ↦ inl (sym (ap (λ x. x.inbound_spi) same) ∙ (==_iff c.inbound_spi j).0 h)
    | inr (b, g) ↦ rw (h, delete) (find_outbound-delete spi j cs d g k)
  ]
  | inr h ↦ elim (found_cases spi c.inbound_spi c d cs f) [
    | inl (b, same) ↦ inr (rw (h, delete, b, find_outbound) (ap some same))
    | inr (b, g) ↦ rw (h, delete, b, find_outbound) (find_outbound-delete spi j cs d g k)
  ]
]
