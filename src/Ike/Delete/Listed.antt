-- ===== src/Ike/Delete/Listed.antt =====
-- What deleteChildSAFromSPIList leaves, when netlink refuses nothing.
use n3iwf.Prelude.{All, ℕ, ◌≡◌, ◌≢◌, List, [], ◌∷◌, none, some, get_elem?}
use n3iwf.Prelude.Map.{Map, lookup}
use n3iwf.Sa.{ChildSa}
use n3iwf.Context.Children.{Kernel}
use n3iwf.Context.Children.Uninstalled.{Uninstalled}
use n3iwf.Ike.Delete.{find_outbound}

module _ {K : Type 0} (netlink : Kernel K) where
  -- The inbound SPIs `a` and the PDU session IDs `b` of child SAs of the map, whose outbound SPIs are
  -- requested, in the order of the request. Between the two kernels, netlink has deleted the states,
  -- the policies and the own interface of each of them, in this order.
  pub data Selected (cs : Map ChildSa) : List ℕ → List ℕ → List ℕ → K → K → Type 0 where
    nothing : {k : K} → Selected cs [] [] [] k k
    skipped :
        {spi : ℕ} {spis a b : List ℕ} {k l : K}
        → Selected cs spis a b k l
        → Selected cs (spi ∷ spis) a b k l
    selected :
        {spi id : ℕ} {spis a b : List ℕ} {k m : K} (c : ChildSa) (l : K)
        → lookup c.inbound_spi cs ≡ some c
        → c.outbound_spi ≡ spi
        → get_elem? c.pdu_session_ids 0 ≡ some id
        → Uninstalled netlink c k l
        → Selected cs spis a b l m
        → Selected cs (spi ∷ spis) (c.inbound_spi ∷ a) (id ∷ b) k m

  -- The map `ds` is `cs` without the child SAs that were selected for the request `spis`.
  pub record Listed (cs : Map ChildSa) (spis a b : List ℕ) (ds : Map ChildSa) (k l : K)
      : Type 0 where
    pub answer : Selected cs spis a b k l
    pub gone : All (λ j. lookup j ds ≡ none) a
    pub absent : (j : ℕ) → lookup j cs ≡ none → lookup j ds ≡ none
    pub kept : (j : ℕ) → All (λ x. x ≢ j) a → lookup j ds ≡ lookup j cs
    pub complete :
        All
          (λ spi. (c : ChildSa) → find_outbound spi cs ≡ some c → lookup c.inbound_spi ds ≡ none)
          spis
