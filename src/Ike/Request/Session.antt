-- ===== src/Ike/Request/Session.antt =====
-- The child SAs of a PDU session in the map of an IKE UE, and the map without them.
use n3iwf.Prelude.{
  All, In, at_head, further, weaken-All, ap, sym, some-injective, ℕ, ◌≡◌, ◌≢◌, refl, ◌∙◌, inl, inr,
  Bool, true, false, [], ◌∷◌, Option, none, some, ◌==◌, ==_iff, get_elem?, arith, Bool-cases,
  if◌then◌else◌, All-In,
}
use mathlib.Core.Path.{subst}
use n3iwf.Prelude.Map.{Map, lookup, delete, lookup-delete}
use n3iwf.Sa.{ChildSa}
use n3iwf.Context.Children.Deleted.{minus, minus-All}
use n3iwf.Ike.Delete.Outbound.{
  IsKeyed, empty, entry, delete-IsKeyed, delete-All, lookup_head, lookup_behind,
}

abbrev pub is_id : ℕ → Option ℕ → Bool
is_id id none = false
is_id id (some k) = k == id

-- Is it the first session of the child SA?
abbrev pub for_session : ℕ → ChildSa → Bool
for_session id c = is_id id (get_elem? c.pdu_session_ids 0)

unfoldable pub matching : ℕ → Map ChildSa → Map ChildSa
matching id [] = []
matching id ((i, c) ∷ cs) =
    let rest = matching id cs in if for_session id c then (i, c) ∷ rest else rest

-- What a child SA of the map has under a session.
pub matching-found :
    (id : ℕ) (cs : Map ChildSa)
    → IsKeyed cs
    → All
        (λ x. (lookup x.1.inbound_spi cs ≡ some x.1) × (for_session id x.1 ≡ true))
        (matching id cs)
unfolding matching
matching-found id _ empty = tt
matching-found id _ (entry {c} {cs} e k) =
    let rest =
      weaken-All _
        (λ x.
          (lookup x.1.inbound_spi ((c.inbound_spi, c) ∷ cs) ≡ some x.1)
          × (for_session id x.1 ≡ true))
        (matching id cs) (matching-found id cs k) (λ x (l, f). (lookup_behind c x.1 cs e l, f)) in
    elim (Bool-cases (for_session id c)) [
      | inl b ↦ rw (b, matching) ((lookup_head c cs, b), rest)
      | inr b ↦ rw (b, matching) rest
    ]

pub matching-In :
    (id j : ℕ) (c : ChildSa) (cs : Map ChildSa)
    → lookup j cs ≡ some c
    → for_session id c ≡ true
    → In (j, c) (matching id cs)
unfolding matching lookup
matching-In id j c [] e f = absurd (ground arith)
matching-In id j c ((i, d) ∷ cs) e f = elim (Bool-cases (i == j)) [
  | inl b ↦
      let head : lookup j ((i, d) ∷ cs) ≡ some d = rw (b, lookup) refl in
      let same : d ≡ c = some-injective (sym head ∙ e) in
      let pair : (i, d) ≡ (j, c) = ap (λ x. (x, d)) ((==_iff i j).0 b) ∙ ap (λ x. (j, x)) same in
      rw (ap (for_session id) same ∙ f, matching)
        (subst (λ x. In x ((i, d) ∷ matching id cs)) pair at_head)
  | inr b ↦
      let tail : lookup j ((i, d) ∷ cs) ≡ lookup j cs = rw (b, lookup) refl in
      let rest = matching-In id j c cs (sym tail ∙ e) f in
      elim (Bool-cases (for_session id d)) [
        | inl g ↦ rw (g, matching) (further rest)
        | inr g ↦ rw (g, matching) rest
      ]
]

minus-lookup :
    (cs m : Map ChildSa) (j : ℕ)
    → All (λ x. x.1.inbound_spi ≢ j) cs
    → lookup j (minus cs m) ≡ lookup j m
minus-lookup [] m j h = refl
minus-lookup ((i, c) ∷ cs) m j (n, ns) =
    minus-lookup cs (delete c.inbound_spi m) j ns
    ∙ ground (arith, lookup-delete c.inbound_spi j m, ==_iff c.inbound_spi j)

pub minus-IsKeyed : (cs m : Map ChildSa) → IsKeyed m → IsKeyed (minus cs m)
minus-IsKeyed [] m k = k
minus-IsKeyed ((i, c) ∷ cs) m k =
    minus-IsKeyed cs (delete c.inbound_spi m) (delete-IsKeyed m c.inbound_spi k)

pub minus_keeps-All : (P : ℕ × ChildSa → Type 0) (cs m : Map ChildSa) → All P m → All P (minus cs m)
minus_keeps-All P [] m h = h
minus_keeps-All P ((i, c) ∷ cs) m h =
    minus_keeps-All P cs (delete c.inbound_spi m) (delete-All P m c.inbound_spi h)

-- The map without the child SAs of a session.
abbrev pub without_session : ℕ → Map ChildSa → Map ChildSa
without_session id m = minus (matching id m) m

pub without_session-gone :
    (id : ℕ) (c : ChildSa) (m : Map ChildSa)
    → lookup c.inbound_spi m ≡ some c
    → for_session id c ≡ true
    → lookup c.inbound_spi (without_session id m) ≡ none
without_session-gone id c m e f =
    All-In (λ x. lookup x.1.inbound_spi (without_session id m) ≡ none) (c.inbound_spi, c)
      (matching id m) (matching-In id c.inbound_spi c m e f) (minus-All (matching id m) m)

pub without_session-kept :
    (id : ℕ) (c : ChildSa) (m : Map ChildSa)
    → IsKeyed m
    → lookup c.inbound_spi m ≡ some c
    → for_session id c ≡ false
    → lookup c.inbound_spi (without_session id m) ≡ some c
without_session-kept id c m k e f =
    minus-lookup (matching id m) m c.inbound_spi (
      weaken-All _ (λ x. x.1.inbound_spi ≢ c.inbound_spi) (matching id m) (matching-found id m k)
        (λ x (l, t) same.
          let other : x.1 ≡ c = some-injective (sym l ∙ (ap (λ i. lookup i m) same ∙ e)) in
          ground (arith, t, f, ap (for_session id) other)))
    ∙ e
