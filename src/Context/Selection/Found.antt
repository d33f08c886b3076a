-- ===== src/Context/Selection/Found.antt =====
-- The two tests of AMFSelection against what they look for.
use mathlib.Core.Path.{subst}
use n3iwf.Prelude.{
  In, at_head, further, ap, sym, Option-cases, arith, ◌≡◌, refl, ◌∙◌, true, false, List, [], ◌∷◌,
  Option, some, inl, inr, Bool-cases,
}
use n3iwf.Prelude.Bytes.{Bytes, bytes_equal, bytes_equal→eq, bytes_equal_self}
use n3iwf.Context.Selection.{find_by_guami, find_plmn}

pub false_ne_true : ¬ (false ≡ true)
false_ne_true e = ground arith

module _ {G : Type 0} (encode : Option G → Option Bytes) (want : Option G) where
  -- A GUAMI of the list has the encoding of the UE's, and the entries before it can be encoded: an error
  -- of the encoder ends the search.
  pub data ServesGuami : List G → Type 0 where
    this :
        {g : G} {gs : List G} (b : Bytes)
        → encode (some g) ≡ some b
        → encode want ≡ some b
        → ServesGuami (g ∷ gs)
    behind :
        {g : G} {gs : List G} (a b : Bytes)
        → encode (some g) ≡ some a
        → encode want ≡ some b
        → ServesGuami gs
        → ServesGuami (g ∷ gs)

  pub find_by_guami-ServesGuami :
      (gs : List G) → find_by_guami encode gs want ≡ true → ServesGuami gs
  unfolding find_by_guami
  find_by_guami-ServesGuami [] h = absurd (false_ne_true h)
  find_by_guami-ServesGuami (g ∷ gs) h = elim (Option-cases (encode (some g))) [
    | inl e ↦ absurd (false_ne_true (sym (rw (e, find_by_guami) refl) ∙ h))
    | inr (a, e) ↦ elim (Option-cases (encode want)) [
      | inl f ↦ absurd (false_ne_true (sym (rw (e, f, find_by_guami) refl) ∙ h))
      | inr (b, f) ↦ elim (Bool-cases (bytes_equal a b)) [
        | inl same ↦ this b (e ∙ ap some (bytes_equal→eq a b same)) f
        | inr other ↦
            behind a b e f
              (find_by_guami-ServesGuami gs (sym (rw (e, f, other, find_by_guami) refl) ∙ h))
      ]
    ]
  ]

  pub ServesGuami-find_by_guami :
      (gs : List G) → ServesGuami gs → find_by_guami encode gs want ≡ true
  unfolding find_by_guami
  ServesGuami-find_by_guami _ (this b e f) = rw (e, f, bytes_equal_self b, find_by_guami) refl
  ServesGuami-find_by_guami _ (behind {g} {gs} a b e f s) =
      let later = ServesGuami-find_by_guami gs s in
      elim (Bool-cases (bytes_equal a b)) [
        | inl same ↦ rw (e, f, same, find_by_guami) refl
        | inr other ↦ rw (e, f, other, find_by_guami) later
      ]

pub find_plmn-In : (want : Bytes) (ps : List Bytes) → find_plmn ps want ≡ true → In want ps
unfolding find_plmn
find_plmn-In want [] h = absurd (false_ne_true h)
find_plmn-In want (p ∷ ps) h = elim (Bool-cases (bytes_equal p want)) [
  | inl b ↦ subst (λ q. In q (p ∷ ps)) (bytes_equal→eq p want b) at_head
  | inr b ↦ further (find_plmn-In want ps (sym (rw (b, find_plmn) refl) ∙ h))
]

pub In-find_plmn : (want : Bytes) (ps : List Bytes) → In want ps → find_plmn ps want ≡ true
unfolding find_plmn
In-find_plmn want _ at_head = rw (bytes_equal_self want, find_plmn) refl
In-find_plmn want _ (further {y} {xs} m) =
    let later = In-find_plmn want xs m in
    elim (Bool-cases (bytes_equal y want)) [
      | inl b ↦ rw (b, find_plmn) refl
      | inr b ↦ rw (b, find_plmn) later
    ]
