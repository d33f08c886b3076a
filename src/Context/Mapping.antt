-- ===== src/Context/Mapping.antt =====
-- The map between the SPIs of IKE and the UEs of NGAP.
use n3iwf.Prelude.{ℕ, ◌≡◌, refl, Option, none, some}
use n3iwf.Prelude.Map.{lookup, insert, lookup-delete_self, lookup-insert_self}
use n3iwf.Context.{
  N3iwf, ike_spi_ngap_id_mapping, ran_ue_load_from_ike_spi, ike_ue_load_from_ngap_id, delete_ran_ue,
  delete_ike_ue,
}

-- The UEs of both sides for an SPI and an ID.
pub record Linked {S G : Type 0} (spi id : ℕ) (ran ike : Option ℕ) (w : N3iwf S G) : Type 0 where
  pub from_spi : ran_ue_load_from_ike_spi spi w ≡ ran
  pub from_id : ike_ue_load_from_ngap_id id w ≡ ike

module _ {S G : Type 0} (spi id ran ike : ℕ) (w : N3iwf S G)
    (r : lookup id w.ran_ue_pool ≡ some ran) (i : lookup spi w.ike_ue_pool ≡ some ike) where
  -- Once IkeSpiNgapIdMapping has joined the SPI of an IKE UE and the ID of a RAN UE, each leads to the
  -- UE of the other side. After DeleteRanUe neither does: the ID has no SPI, and the SPI leads to an
  -- ID that is not in the pool. After DeleteIKEUe neither does, in the same way.
  pub mapping-Linked :
      Linked spi id (some ran) (some ike) (ike_spi_ngap_id_mapping spi id w)
      × Linked spi id none none (delete_ran_ue id (ike_spi_ngap_id_mapping spi id w))
      × Linked spi id none none (delete_ike_ue spi (ike_spi_ngap_id_mapping spi id w))
  unfolding ike_spi_ngap_id_mapping ran_ue_load_from_ike_spi ike_ue_load_from_ngap_id delete_ran_ue
      delete_ike_ue
  mapping-Linked =
      let spis : lookup spi (insert spi id w.ike_spi_to_ngap_id) ≡ some id =
        lookup-insert_self spi id w.ike_spi_to_ngap_id in
      let ids : lookup id (insert id spi w.ngap_id_to_ike_spi) ≡ some spi =
        lookup-insert_self id spi w.ngap_id_to_ike_spi in
      (
        record {
          from_spi = rw (spis, ran_ue_load_from_ike_spi) r;
          from_id = rw (ids, ike_ue_load_from_ngap_id) i;
        },
        record {
          from_spi = rw (spis, ran_ue_load_from_ike_spi) (lookup-delete_self id w.ran_ue_pool);
          from_id =
              rw
                (
                  lookup-delete_self id (insert id spi w.ngap_id_to_ike_spi),
                  ike_ue_load_from_ngap_id,
                )
                refl;
        },
        record {
          from_spi =
              rw
                (
                  lookup-delete_self spi (insert spi id w.ike_spi_to_ngap_id),
                  ran_ue_load_from_ike_spi,
                )
                refl;
          from_id = rw (ids, ike_ue_load_from_ngap_id) (lookup-delete_self spi w.ike_ue_pool);
        },
      )
