-- ===== src/Context/Selection.antt =====
-- AMFSelection of internal/context/context.go, and the two tests of internal/context/amf.go.
-- aper's encoder of an optional GUAMI is the parameter `encode`, with none for its error. The pool is
-- ranged over in the order of its association list.
pub mod Chosen
pub mod Found
use n3iwf.Prelude.{ℕ, Bool, true, false, List, [], ◌∷◌, Option, none, some, if◌then◌else◌}
use n3iwf.Prelude.Bytes.{Bytes, bytes_equal}
use n3iwf.Prelude.Map.{Map, lookup}
use n3iwf.Prelude.Outcome.{Outcome, ok, panic, ◌>>=◌, or_panic}
use n3iwf.Context.{Amf, N3iwf, Go}

-- FindAvalibleAMFByCompareGUAMI on the served list, for an optional GUAMI.
pub find_by_guami : {G : Type 0} → (Option G → Option Bytes) → List G → Option G → Bool
unfolding bytes_equal
find_by_guami encode [] want = false
find_by_guami encode (g ∷ gs) want =
    let rest = find_by_guami encode gs want in
    elim (encode (some g)) [
      | none ↦ false
      | some a ↦ elim (encode want) [
        | none ↦ false
        | some b ↦ if bytes_equal a b then true else rest
      ]
    ]

pub find_plmn : List Bytes → Bytes → Bool
unfolding bytes_equal
find_plmn [] want = false
find_plmn (p ∷ ps) want = let rest = find_plmn ps want in if bytes_equal p want then true else rest

-- FindAvalibleAMFByCompareSelectedPLMNId: without a PLMN the list is not read.
pub find_by_plmn : Option (List Bytes) → Option Bytes → Go Bool
unfolding find_plmn
find_by_plmn supported none = ok false
find_by_plmn none (some want) = panic
find_by_plmn (some ps) (some want) = ok (find_plmn ps want)

module _ {G : Type 0} (encode : Option G → Option Bytes) where
  -- The two tests of AMFSelection, on one AMF.
  serves : Option G → Option Bytes → Amf G → Go Bool
  unfolding find_by_guami find_by_plmn
  serves guami plmn amf = do
    guamis ← or_panic amf.served_guami_list
    if find_by_guami encode guamis guami then ok true else find_by_plmn amf.plmn_support_list plmn

  or_first : Option ℕ → ℕ → Option ℕ
  or_first none p = some p
  or_first (some d) p = some d

  -- The range over the pool, with the first AMF seen for the default.
  select_loop : Option G → Option Bytes → Map (Amf G) → Option ℕ → Map ℕ → Go (Option ℕ)
  unfolding serves or_first
  select_loop guami plmn amfs default [] = ok default
  select_loop guami plmn amfs default ((key, p) ∷ pool) = do
    amf ← or_panic (lookup p amfs)
    found ← serves guami plmn amf
    let rest = select_loop guami plmn amfs (or_first default p) pool
    if found then ok (some p) else rest

  -- AMFSelection: a pointer, or nil.
  pub amf_selection : {S : Type 0} → Option G → Option Bytes → N3iwf S G → Go (Option ℕ)
  unfolding select_loop
  amf_selection guami plmn w = select_loop guami plmn w.amfs none w.amf_pool
