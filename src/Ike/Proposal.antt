-- ===== src/Ike/Proposal.antt =====
-- The choice among the proposals of a UE, in internal/ike/handler.go: SelectProposal for IKE_SA_INIT,
-- the loop of HandleIKEAUTH for the first child SA, and isTransformKernelSupported.
-- Proposals and transforms are those of package ike/message, with the fields that the code reads; its
-- constants are the numbers of the IANA registry for IKEv2. The four DecodeTransform functions of
-- package ike/security are the parameter `Decoders`: whether each yields an algorithm or nil.
pub mod First
pub mod Select
pub mod Esp
pub mod Taken
use n3iwf.Prelude.{
  ℕ, Bool, true, false, List, [], ◌∷◌, ◌++◌, Option, none, some, ◌==◌, ◌&&◌, ◌||◌, not, length,
  if◌then◌else◌,
}
use n3iwf.Prelude.Bytes.{Bytes}

pub record Transform : Type 0 where
  pub id : ℕ
  pub attribute_present : Bool
  pub attribute_value : ℕ

pub record Proposal : Type 0 where
  pub number : ℕ
  pub protocol_id : ℕ
  pub spi : Bytes
  pub encryption : List Transform
  pub pseudorandom : List Transform
  pub integrity : List Transform
  pub diffie_hellman : List Transform
  pub esn : List Transform

abbrev pub type_encryption : ℕ
type_encryption = 1

abbrev pub type_integrity : ℕ
type_integrity = 3

abbrev pub type_diffie_hellman : ℕ
type_diffie_hellman = 4

abbrev pub type_esn : ℕ
type_esn = 5

abbrev pub encr_null : ℕ
encr_null = 11

abbrev pub dh_1024_bit_modp : ℕ
dh_1024_bit_modp = 2

-- A nil list of the source and an empty one are both [].
abbrev pub is_empty {ℓ} : {A : Type ℓ} → List A → Bool
is_empty [] = true
is_empty (x ∷ xs) = false

-- Key lengths: CAST takes 128 bits, AES-CBC and AES-CTR take 128, 192 or 256.
cast_length : Bool → ℕ → Bool
cast_length present value = present && value == 128

aes_length : Bool → ℕ → Bool
aes_length present value = present && (value == 128 || (value == 192 || value == 256))

-- DES 2, 3DES 3, CAST 6, Blowfish 7, NULL 11, AES-CBC 12, AES-CTR 13.
encryption_supported : ℕ → Bool → ℕ → Bool
unfolding cast_length aes_length
encryption_supported id present value =
    if id == 2 || (id == 3 || (id == 7 || id == 11))
    then true
    else if id == 6
    then cast_length present value
    else if id == 12 || id == 13
    then aes_length present value
    else false

-- isTransformKernelSupported. Integrity: HMAC-SHA1-96 2, AES-XCBC-96 5, HMAC-SHA2-256-128 12. No
-- Diffie-Hellman group is supported; ESN is 0 or 1.
unfoldable pub is_transform_kernel_supported : ℕ → ℕ → Bool → ℕ → Bool
unfolding encryption_supported
is_transform_kernel_supported type id present value =
    if type == type_encryption
    then encryption_supported id present value
    else if type == type_integrity
    then id == 2 || (id == 5 || id == 12)
    else if type == type_diffie_hellman
    then false
    else if type == type_esn
    then id == 1 || id == 0
    else false

abbrev pub supported : ℕ → Transform → Bool
supported type t = is_transform_kernel_supported type t.id t.attribute_present t.attribute_value

-- Whether dh, encr, integ and prf.DecodeTransform know a transform.
pub record Decoders : Type 0 where
  pub dh : Transform → Bool
  pub encr : Transform → Bool
  pub integ : Transform → Bool
  pub prf : Transform → Bool

-- A loop of SelectProposal over the transforms of one type: it goes through them all, and keeps the
-- first one that is taken.
keep_first : Option Transform → Transform → Option Transform
keep_first none t = some t
keep_first (some u) t = some u

pub choose : (Transform → Bool) → Option Transform → List Transform → Option Transform
unfolding keep_first
choose accept chosen [] = chosen
choose accept chosen (t ∷ ts) = choose accept (if accept t then keep_first chosen t else chosen) ts

-- The loops of HandleIKEAUTH stop at the first supported transform.
pub first_supported : ℕ → List Transform → Option Transform
first_supported type [] = none
first_supported type (t ∷ ts) = if supported type t then some t else first_supported type ts

-- DH group 2 is not allowed [RFC 8247].
abbrev pub accept_dh : Decoders → Transform → Bool
accept_dh d t = not (t.id == dh_1024_bit_modp) && d.dh t

abbrev pub chosen_proposal : Proposal → Transform → Transform → Transform → Transform → Proposal
chosen_proposal p dh encr integ prf = record {
  number = p.number;
  protocol_id = p.protocol_id;
  spi = [];
  encryption = encr ∷ [];
  pseudorandom = prf ∷ [];
  integrity = integ ∷ [];
  diffie_hellman = dh ∷ [];
  esn = [];
}

-- The `continue`s of SelectProposal, in their order: no algorithm of a mandatory type, or ESN.
combine :
    Proposal
    → Option Transform
    → Option Transform
    → Option Transform
    → Option Transform
    → Bool
    → Option Proposal
combine p none encr integ prf no_esn = none
combine p (some dh) none integ prf no_esn = none
combine p (some dh) (some encr) none prf no_esn = none
combine p (some dh) (some encr) (some integ) none no_esn = none
combine p (some dh) (some encr) (some integ) (some prf) false = none
combine p (some dh) (some encr) (some integ) (some prf) true =
    some (chosen_proposal p dh encr integ prf)

-- One round of SelectProposal: the chosen proposal, or none for `continue`.
select_one : Decoders → Proposal → Option Proposal
unfolding combine
select_one d p =
    combine p (choose (accept_dh d) none p.diffie_hellman) (choose d.encr none p.encryption)
      (choose d.integ none p.integrity) (choose d.prf none p.pseudorandom) (is_empty p.esn)

or_rest : Option Proposal → List Proposal → List Proposal
or_rest (some p) rest = p ∷ []
or_rest none rest = rest

pub select_proposal : Decoders → List Proposal → List Proposal
unfolding or_rest
select_proposal d [] = []
select_proposal d (p ∷ ps) = or_rest (select_one d p) (select_proposal d ps)

-- What a list of transforms contributes to the child SA: `optional` lists may be empty.
pub data Pick : Type 0 where
  skip : Pick
  absent : Pick
  take : Transform → Pick

pick : ℕ → List Transform → Pick
pick type [] = absent
pick type (t ∷ ts) = elim (first_supported type (t ∷ ts)) [ none ↦ skip | some u ↦ take u ]

abbrev to_list : Option Transform → List Transform
to_list none = []
to_list (some t) = t ∷ []

abbrev pub esp_proposal :
    Proposal → Transform → Option Transform → Option Transform → Transform → Proposal
esp_proposal p encr integ dh esn = record {
  number = p.number;
  protocol_id = p.protocol_id;
  spi = p.spi;
  encryption = encr ∷ [];
  pseudorandom = [];
  integrity = to_list integ;
  diffie_hellman = to_list dh;
  esn = esn ∷ [];
}

-- ENCR_NULL wants an integrity algorithm.
null_unprotected : Transform → Option Transform → Bool
null_unprotected encr none = encr.id == encr_null
null_unprotected encr (some integ) = false

esp_end : Proposal → Transform → Option Transform → Option Transform → Transform → Option Proposal
unfolding null_unprotected
esp_end p encr integ dh esn =
    if null_unprotected encr integ then none else some (esp_proposal p encr integ dh esn)

esp_dh : Proposal → Transform → Option Transform → Pick → Pick → Option Proposal
unfolding esp_end
esp_dh p encr integ skip esn = none
esp_dh p encr integ absent (take esn) = esp_end p encr integ none esn
esp_dh p encr integ (take dh) (take esn) = esp_end p encr integ (some dh) esn
esp_dh p encr integ dh esn = none

esp_integrity : Proposal → Transform → Pick → Pick → Pick → Option Proposal
unfolding esp_dh
esp_integrity p encr skip dh esn = none
esp_integrity p encr absent dh esn = esp_dh p encr none dh esn
esp_integrity p encr (take integ) dh esn = esp_dh p encr (some integ) dh esn

-- The SPI length, the encryption and the absence of a pseudorandom function come first.
esp_combine : Proposal → Bool → Pick → Bool → Pick → Pick → Pick → Option Proposal
unfolding esp_integrity
esp_combine p false encr no_prf integ dh esn = none
esp_combine p true skip no_prf integ dh esn = none
esp_combine p true absent no_prf integ dh esn = none
esp_combine p true (take encr) false integ dh esn = none
esp_combine p true (take encr) true integ dh esn = esp_integrity p encr integ dh esn

-- One round of the loop of HandleIKEAUTH.
pub esp_one : Proposal → Option Proposal
unfolding pick esp_combine
esp_one p =
    esp_combine p (length p.spi == 4) (pick type_encryption p.encryption) (is_empty p.pseudorandom)
      (pick type_integrity p.integrity) (pick type_diffie_hellman p.diffie_hellman)
      (pick type_esn p.esn)

-- The proposals of the response: one, or none at all.
pub select_esp : List Proposal → List Proposal
unfolding or_rest
select_esp [] = []
select_esp (p ∷ ps) = or_rest (esp_one p) (select_esp ps)
